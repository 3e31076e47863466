-- ===== src/Parte1/Transfer/RoundTrip.antt =====
-- What one handle of a file writes, another reads.
use so_file_system.Common.{
  ℕ, ◌+◌, ◌-◌, ◌*◌, ◌^◌, ◌<◌, ◌≤◌, ◌≡◌, refl, ap, ◌∙◌, ◌≢◌, ℤ, pos, false, Option, some, arith,
  List, slice, slice-congr, get_or, min,
}
use so_file_system.Config.{block_size, max_file_size}
use so_file_system.Parte1.State.{State}
use so_file_system.Parte1.OpenFiles.{get_open_file_entry}
use so_file_system.Parte1.Ownership.{InUse, IsWf, byte_at}
use so_file_system.Parte1.Transfer.Write.{Wrote}
use so_file_system.Parte1.Transfer.TfsWrite.{write_position, write_count, tfs_write-Wrote}
use so_file_system.Parte1.Transfer.Read.{after_read, bytes_from, tfs_read_lem}
use so_file_system.Parte1.Transfer.{tfs_write, tfs_read}

-- The first bytes of a buffer.
abbrev pub buffer_bytes : List ℕ → ℕ → List ℕ
buffer_bytes buf n = slice (λ j. get_or buf j 0) 0 n

entry_same :
    (s t : State) (fhandle : ℤ)
    → t.free_open_file_entries ≡ s.free_open_file_entries
    → get_open_file_entry t fhandle ≡ get_open_file_entry s fhandle
unfolding get_open_file_entry
entry_same s t fhandle e = rw e refl

-- A file whose size is within its blocks.
abbrev pub IsSized : State → ℕ → Type 0
IsSized s i = (s.inode_table i).i_size ≤ (s.inode_table i).blocks_alloc * block_size

-- A write that begins inside the file leaves its size within its blocks.
pub Wrote-IsSized :
    (s : State) (h ino start count : ℕ) (buf : List ℕ) (out : Option (State × ℤ))
    → (w : Wrote s h ino start count buf out) → start ≤ (s.inode_table ino).i_size
    → IsSized s ino
    → IsSized w.after ino
Wrote-IsSized s h ino start count buf out w le sized = ground (arith, w.size, w.room, w.longer ino)

module _ (s : State) (fhandle ghandle : ℤ) (buf : List ℕ) (to_write h g ino : ℕ) (wf : IsWf s)
    (opened : get_open_file_entry s fhandle ≡ some h)
    (names : (s.open_file_table h).of_inumber ≡ pos ino) (live : InUse s ino)
    (inside : write_position s h ino ≤ (s.inode_table ino).i_size)
    (sized : (s.inode_table ino).i_size ≤ max_file_size) (blocks : IsSized s ino)
    (small : to_write < 2 ^ 63) (other : get_open_file_entry s ghandle ≡ some g) (distinct : g ≢ h)
    (same_file : (s.open_file_table g).of_inumber ≡ pos ino)
    (reading : (s.open_file_table g).is_appending ≡ false)
    (there : (s.open_file_table g).of_offset ≡ write_position s h ino) where
  w :
      Wrote s h ino
        (write_position s h ino)
        (write_count to_write (write_position s h ino))
        buf
        (tfs_write s fhandle buf to_write)
  w = tfs_write-Wrote s fhandle buf to_write h ino wf opened names live inside sized small

  entry : w.after.open_file_table g ≡ s.open_file_table g
  entry = w.other_entries g distinct

  read_offset : (w.after.open_file_table g).of_offset ≡ write_position s h ino
  read_offset = ap (λ e. e.of_offset) entry ∙ there

  read_count :
      min w.written ((w.after.inode_table ino).i_size - (w.after.open_file_table g).of_offset)
      ≡ w.written
  read_count = ground (arith, w.size, read_offset)

  read_bytes :
      bytes_from w.after ino (w.after.open_file_table g).of_offset w.written
      ≡ buffer_bytes buf w.written
  read_bytes =
      slice-congr (byte_at w.after ino) (λ j. get_or buf j 0) (w.after.open_file_table g).of_offset
        0 w.written
        (λ j lt.
          ap (λ q. byte_at w.after ino (q + j)) read_offset
          ∙ w.inside j lt
          ∙ ap (λ a. get_or buf a 0) (omega arith))

  abbrev read_state : ℕ → State
  read_state n = after_read w.after g ((w.after.open_file_table g).of_offset + n)

  -- In a well-formed file system let one open handle stand inside a file, whose size is within
  -- its blocks and the largest size, and let another handle of the same file, not opened for
  -- appending, stand where that write begins. Then a write of less than 2^63 bytes returns some
  -- count n, and reading n bytes through the other handle returns n and the first n bytes of the
  -- written buffer.
  pub tfs_write-tfs_read :
      (s1 s2 : State) × (n : ℕ) × (tfs_write s fhandle buf to_write ≡ some (s1, pos n))
      × (tfs_read s1 ghandle n ≡ some (s2, pos n, buffer_bytes buf n))
  tfs_write-tfs_read = (
    w.after,
    read_state w.written,
    w.written,
    w.returns,
    tfs_read_lem w.after ghandle w.written g ino w.wf
          (entry_same s w.after ghandle w.same_handles ∙ other)
          (ap (λ e. e.of_inumber) entry ∙ same_file) (ap (λ e. e.is_appending) entry ∙ reading)
          (live.0, ap (λ f. f ino) w.same_use ∙ live.1) (ground (arith, w.size, read_offset))
          (Wrote-IsSized s h ino (write_position s h ino) _ buf _ w inside blocks)
        ∙ ap
            (λ n.
              some (
                read_state n,
                pos n,
                bytes_from w.after ino (w.after.open_file_table g).of_offset n,
              ))
            read_count
        ∙ ap (λ l. some (read_state w.written, pos w.written, l)) read_bytes,
  )
