-- ===== src/Parte2/Transfer/Read.antt =====
-- `tfs_read` of Parte2/tecnicofs_ex2/fs/operations.c.
use so_file_system.Common.{
  ℕ, ◌+◌, ◌*◌, ◌<◌, ◌≤◌, ◌≡◌, refl, ap, ◌∙◌, pos, List, some, true, false, arith, if◌then◌else◌,
  ltb, lt→ltb, slice, add_size, sub_size,
}
use so_file_system.Config.{block_size, data_blocks, inode_table_size, max_open_files}
use so_file_system.Parte1.Operations.{to_ssize}
use so_file_system.Parte2.State.{State, put_entry}
use so_file_system.Parte2.Tables.{data_block_get, inode_get, get_open_file_entry}
use so_file_system.Parte2.Operations.{synchronized}
use so_file_system.Parte2.Transfer.{read_file, read_unsynchronized, tfs_read}

-- The handle `h` is on the file `i`, whose block is `b`.
pub record Names (s : State) (h i b : ℕ) : Type 0 where
  pub handle : h < max_open_files
  pub entry : (s.open_file_table h).of_inumber ≡ pos i
  pub inode : i < inode_table_size
  pub block : (s.inode_table i).i_data_block ≡ pos b
  pub within : b < data_blocks

read_open :
    (s : State) (h i b len : ℕ)
    → Names s h i b
    → s.locked ≡ false
    → let out = read_file (record s { locked = true }) h i len in
      tfs_read s (pos h) len ≡ some (record out.0 { locked = false }, out.1)
unfolding tfs_read read_unsynchronized synchronized get_open_file_entry inode_get
read_open s h i b len v unlocked =
    rw
      (
        unlocked,
        tfs_read,
        synchronized,
        read_unsynchronized,
        get_open_file_entry,
        lt→ltb h max_open_files v.handle,
        v.entry,
        lt→ltb i inode_table_size v.inode,
      )
      refl

-- What `read_file` leaves when it reads `n` bytes of the block.
abbrev pub moved : State → ℕ → ℕ → State
moved s h n =
    put_entry s h
      (record (s.open_file_table h) { of_offset = add_size (s.open_file_table h).of_offset n })

abbrev pub block_bytes : State → ℕ → ℕ → ℕ → List ℕ
block_bytes s h b n = slice s.fs_data (b * block_size + (s.open_file_table h).of_offset) n

-- The count that `read_file` settles on.
abbrev pub read_count : State → ℕ → ℕ → ℕ → ℕ
read_count s h i len =
    let left = sub_size (s.inode_table i).i_size (s.open_file_table h).of_offset in
    if ltb len left then len else left

read_file_eq :
    (s : State) (h i b len n : ℕ)
    → Names s h i b
    → 0 < n
    → n ≤ block_size
    → read_count s h i len ≡ n
    → read_file s h i len ≡ (moved s h n, (pos n, block_bytes s h b n))
unfolding read_file data_block_get
read_file_eq s h i b len n v some_bytes most e =
    let ssize : to_ssize n ≡ pos n = ground arith in
    rw
      (
        read_file,
        data_block_get,
        v.block,
        lt→ltb b data_blocks v.within,
        e,
        lt→ltb 0 n some_bytes,
        ssize,
      )
      refl

pub read_bytes :
    (s : State) (h i b len n : ℕ)
    → Names s h i b
    → s.locked ≡ false
    → 0 < n
    → n ≤ block_size
    → read_count s h i len ≡ n
    → tfs_read s (pos h) len
      ≡ some (record (moved s h n) { locked = false }, (pos n, block_bytes s h b n))
read_bytes s h i b len n v unlocked some_bytes most e =
    let held = record s { locked = true } in
    let w : Names held h i b = record {
      handle = v.handle;
      entry = v.entry;
      inode = v.inode;
      block = v.block;
      within = v.within;
    } in
    read_open s h i b len v unlocked
    ∙ ap (λ out. some (record out.0 { locked = false }, out.1))
        (read_file_eq held h i b len n w some_bytes most e)

-- With the lock free, a read of 1 to 1024 bytes through a handle of Parte2 that stands behind the
-- end of its file, at most at the end of the file's valid block, returns as many bytes as asked
-- for, the memory from the block's offset on.
pub tfs_read_behind :
    (s : State) (h i b len : ℕ)
    → Names s h i b
    → s.locked ≡ false
    → (s.inode_table i).i_size < (s.open_file_table h).of_offset
    → (s.open_file_table h).of_offset ≤ block_size
    → 0 < len
    → len ≤ block_size
    → (s1 : State) × (tfs_read s (pos h) len
        ≡ some
            (s1, (pos len, slice s.fs_data (b * block_size + (s.open_file_table h).of_offset) len)))
tfs_read_behind s h i b len v unlocked behind inside some_bytes most = (
  record (moved s h len) { locked = false },
  read_bytes s h i b len len v unlocked some_bytes most (ground arith),
)
