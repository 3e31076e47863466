-- ===== src/Parte2/Transfer/Write.antt =====
-- `tfs_write` of Parte2/tecnicofs_ex2/fs/operations.c.
use so_file_system.Common.{
  ℕ, ◌+◌, ◌*◌, ◌<◌, ◌≤◌, ◌≡◌, refl, sym, ap, ◌∙◌, inl, inr, ◌≢◌, pos, List, Option-cases,
  Bool-cases, some, Bool, true, false, arith, if◌then◌else◌, ltb, lt→ltb, ◌==◌, slice, slice-congr,
  get_or, add_size,
}
use so_file_system.Config.{block_size, data_blocks, inode_table_size, max_open_files}
use so_file_system.Memory.{memcpy}
use so_file_system.Memory.Laws.{memcpy_inside}
use so_file_system.Table.{first_free}
use so_file_system.Parte1.Operations.{to_ssize}
use so_file_system.Parte2.State.{State, put_inode}
use so_file_system.Parte2.Tables.{data_block_alloc, data_block_get, inode_get, get_open_file_entry}
use so_file_system.Parte2.Operations.{synchronized}
use so_file_system.Parte2.Transfer.{
  clamp_write, ensure_block, write_at, write_file, write_unsynchronized, tfs_write,
}
use so_file_system.Parte2.Transfer.Read.{Names}

write_open :
    (s : State) (h i : ℕ) (buf : List ℕ) (to_write : ℕ)
    → h < max_open_files
    → (s.open_file_table h).of_inumber ≡ pos i
    → i < inode_table_size
    → s.locked ≡ false
    → let out = write_file (record s { locked = true }) h i buf to_write in
      tfs_write s (pos h) buf to_write ≡ some (record out.0 { locked = false }, out.1)
unfolding tfs_write write_unsynchronized synchronized get_open_file_entry inode_get
write_open s h i buf to_write lt e lt' unlocked =
    rw
      (
        unlocked,
        tfs_write,
        synchronized,
        write_unsynchronized,
        get_open_file_entry,
        lt→ltb h max_open_files lt,
        e,
        lt→ltb i inode_table_size lt',
      )
      refl

write_file_eq :
    (s : State) (h i b : ℕ) (buf : List ℕ) (to_write n : ℕ)
    → Names (ensure_block s i) h i b
    → 0 < n
    → n ≤ block_size
    → clamp_write to_write (s.open_file_table h).of_offset ≡ n
    → write_file s h i buf to_write
      ≡ (write_at (ensure_block s i) h i (b * block_size) buf n, pos n)
unfolding write_file data_block_get
write_file_eq s h i b buf to_write n v some_bytes most e =
    let ssize : to_ssize n ≡ pos n = ground arith in
    rw
      (
        write_file,
        data_block_get,
        v.block,
        lt→ltb b data_blocks v.within,
        e,
        lt→ltb 0 n some_bytes,
        ssize,
      )
      refl

-- The state in which a write copies its bytes.
abbrev pub before_copy : State → ℕ → State
before_copy s i = ensure_block (record s { locked = true }) i

pub record Kept (s t : State) (i : ℕ) : Type 0 where
  pub same_size : (t.inode_table i).i_size ≡ (s.inode_table i).i_size
  pub same_entries : t.open_file_table ≡ s.open_file_table

if-Kept :
    (s : State) (i : ℕ) (c : Bool) (t u : State)
    → Kept s t i
    → Kept s u i
    → Kept s (if c then t else u) i
if-Kept s i true t u k l = k
if-Kept s i false t u k l = l

alloc-Kept :
    (s : State) (i : ℕ)
    → Kept s
        (put_inode
          (data_block_alloc s).0
          i
          (record ((data_block_alloc s).0.inode_table i) { i_data_block = (data_block_alloc s).1 }))
        i
unfolding data_block_alloc
alloc-Kept s i = elim (Option-cases (first_free data_blocks 0 s.free_blocks)) [
  | inl e ↦ rw (e, data_block_alloc) (record { same_size = ground arith; same_entries = refl })
  | inr (j, e) ↦ rw (e, data_block_alloc) (record { same_size = ground arith; same_entries = refl })
]

pub ensure-Kept : (s : State) (i : ℕ) → Kept s (ensure_block s i) i
unfolding ensure_block
ensure-Kept s i =
    if-Kept s i ((s.inode_table i).i_size == 0) _ _ (alloc-Kept s i)
      (record { same_size = refl; same_entries = refl })

pub write_bytes :
    (s : State) (h i b : ℕ) (buf : List ℕ) (to_write n : ℕ)
    → Names (before_copy s i) h i b
    → s.locked ≡ false
    → 0 < n
    → n ≤ block_size
    → clamp_write to_write (s.open_file_table h).of_offset ≡ n
    → tfs_write s (pos h) buf to_write
      ≡ some
          (record (write_at (before_copy s i) h i (b * block_size) buf n) { locked = false }, pos n)
write_bytes s h i b buf to_write n v unlocked some_bytes most e =
    let held = record s { locked = true } in
    let entries = (ensure-Kept held i).same_entries in
    write_open s h i buf to_write v.handle (sym (ap (λ t. (t h).of_inumber) entries) ∙ v.entry)
      v.inode unlocked
    ∙ ap (λ out. some (record out.0 { locked = false }, out.1))
        (write_file_eq held h i b buf to_write n v some_bytes most e)

copied :
    (t : State) (at n : ℕ) (buf : List ℕ)
    → slice (memcpy t.fs_data at buf 0 n) at n ≡ slice (λ j. get_or buf j 0) 0 n
copied t at n buf =
    slice-congr (memcpy t.fs_data at buf 0 n) (λ j. get_or buf j 0) at 0 n
      (λ k lt.
        memcpy_inside t.fs_data at buf 0 n (at + k) (omega arith) (omega arith)
        ∙ ap (λ j. get_or buf j 0) (omega arith))

-- What `write_at` leaves.
pub record Written (t t' : State) (h i b n : ℕ) (buf : List ℕ) : Type 0 where
  pub block : (t'.inode_table i).i_data_block ≡ (t.inode_table i).i_data_block
  pub size : (t.open_file_table h).of_offset + n ≤ (t'.inode_table i).i_size
  pub small : (t'.inode_table i).i_size ≤ block_size
  pub others : (g : ℕ) → g ≢ h → t'.open_file_table g ≡ t.open_file_table g
  pub bytes :
      slice t'.fs_data (b * block_size + (t.open_file_table h).of_offset) n
      ≡ slice (λ j. get_or buf j 0) 0 n

pub write_at-Written :
    (t : State) (h i b n : ℕ) (buf : List ℕ)
    → (t.open_file_table h).of_offset + n ≤ block_size
    → (t.inode_table i).i_size ≤ block_size
    → Written t (write_at t h i (b * block_size) buf n) h i b n buf
unfolding write_at
write_at-Written t h i b n buf fits sized =
    let offset = (t.open_file_table h).of_offset in
    let at = b * block_size + offset in
    let sum : add_size offset n ≡ offset + n = omega arith in
    elim (Bool-cases (ltb (t.inode_table i).i_size (offset + n))) [
      | inl e ↦
          rw (write_at, sum, e)
            (record {
              block = ground arith;
              size = ground arith;
              small = ground arith;
              others = λ g ne. ground arith;
              bytes = copied t at n buf;
            })
      | inr e ↦
          rw (write_at, sum, e)
            (record {
              block = refl;
              size = ground arith;
              small = sized;
              others = λ g ne. ground arith;
              bytes = copied t at n buf;
            })
    ]
