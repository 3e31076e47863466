-- ===== src/Parte2/Transfer/RoundTrip.antt =====
-- What one handle of a file of Parte2 writes, another reads.
use so_file_system.Common.{
  ℕ, ◌+◌, ◌-◌, ◌*◌, ◌^◌, ◌<◌, ◌≤◌, ◌≡◌, refl, sym, ap, ◌∙◌, ◌≢◌, pos, List, some, true, false,
  arith, slice, get_or, min,
}
use so_file_system.Config.{block_size, max_open_files}
use so_file_system.Parte2.State.{State}
use so_file_system.Parte2.Transfer.{clamp_write, write_at, tfs_write, tfs_read}
use so_file_system.Parte2.Transfer.Read.{Names, moved, read_bytes, read_count}
use so_file_system.Parte2.Transfer.Write.{
  before_copy, Kept, ensure-Kept, write_bytes, Written, write_at-Written,
}

abbrev pub buffer_bytes : List ℕ → ℕ → List ℕ
buffer_bytes buf n = slice (λ j. get_or buf j 0) 0 n

module _ (s : State) (h g i b : ℕ) (buf : List ℕ) (to_write : ℕ) (v : Names (before_copy s i) h i b)
    (unlocked : s.locked ≡ false) (other : g < max_open_files) (distinct : g ≢ h)
    (same_file : (s.open_file_table g).of_inumber ≡ pos i)
    (there : (s.open_file_table g).of_offset ≡ (s.open_file_table h).of_offset)
    (inside : (s.open_file_table h).of_offset < block_size)
    (sized : (s.inode_table i).i_size ≤ block_size) (some_bytes : 0 < to_write)
    (small : to_write < 2 ^ 63) where
  abbrev offset : ℕ
  offset = (s.open_file_table h).of_offset

  abbrev pub count : ℕ
  count = min to_write (block_size - offset)

  abbrev t : State
  t = before_copy s i

  abbrev after : State
  after = record (write_at t h i (b * block_size) buf count) { locked = false }

  kept : Kept (record s { locked = true }) t i
  kept = ensure-Kept (record s { locked = true }) i

  same_offset : (t.open_file_table h).of_offset ≡ offset
  same_offset = ap (λ e. (e h).of_offset) kept.same_entries

  clamped : clamp_write to_write offset ≡ count
  unfolding clamp_write
  clamped = ground arith

  w : Written t (write_at t h i (b * block_size) buf count) h i b count buf
  w =
      write_at-Written t h i b count buf (omega (arith, same_offset))
        (omega (arith, kept.same_size))

  entry : after.open_file_table g ≡ s.open_file_table g
  entry = w.others g distinct ∙ ap (λ e. e g) kept.same_entries

  at_offset : (after.open_file_table g).of_offset ≡ (t.open_file_table h).of_offset
  at_offset = ap (λ e. e.of_offset) entry ∙ there ∙ sym same_offset

  reader : Names after g i b
  reader = record {
    handle = other;
    entry = ap (λ e. e.of_inumber) entry ∙ same_file;
    inode = v.inode;
    block = w.block ∙ v.block;
    within = v.within;
  }

  counted : read_count after g i count ≡ count
  counted = ground (arith, w.size, w.small, at_offset)

  -- Let a handle of Parte2 be on a file of at most one block that has or is given a valid block,
  -- at an offset within that block, and let the lock be free. A write of at least one and less
  -- than 2^63 bytes returns the count cut to the room left in the block, and reading that count
  -- through another handle of the file, at the same offset, returns it with the first bytes of
  -- the written buffer.
  pub tfs_write-tfs_read_block :
      (s1 s2 : State) × (tfs_write s (pos h) buf to_write ≡ some (s1, pos count))
      × (tfs_read s1 (pos g) count ≡ some (s2, (pos count, buffer_bytes buf count)))
  tfs_write-tfs_read_block = (
    after,
    record (moved after g count) { locked = false },
    write_bytes s h i b buf to_write count v unlocked (omega arith) (omega arith) clamped,
    read_bytes after g i b count count reader refl (omega arith) (omega arith) counted
        ∙ ap (λ l. some (record (moved after g count) { locked = false }, (pos count, l)))
            (ap (λ o. slice after.fs_data (b * block_size + o) count) at_offset ∙ w.bytes),
  )
