-- ===== src/Parte1/Operations/Full.antt =====
-- `tfs_open` of Parte1/tecnicofs-v2 with TFS_O_CREAT for a new name where the directory is full.
use so_file_system.Common.{
  ℕ, ◌*◌, ◌<◌, ◌≡◌, refl, fun_ext, ◌≢◌, pos, minus_one, arith, List, ◌∷◌, true, length, some, none,
  has_flag, update,
}
use so_file_system.Config.{
  block_size, inode_table_size, max_dir_entries, root_dir_inum, tfs_o_creat,
}
use so_file_system.Table.{Table, free, taken, first_free}
use so_file_system.Table.Laws.{first_free-Found}
use so_file_system.Directory.{first_empty}
use so_file_system.Parte1.State.{State}
use so_file_system.Parte1.Inodes.{inode_delete}
use so_file_system.Parte1.Inodes.Lookup.{HasRoot, add_dir_entry_full}
use so_file_system.Parte1.Ownership.{InUse}
use so_file_system.Parte1.Ownership.Create.{with_file}
use so_file_system.Parte1.Operations.{
  tfs_lookup, tfs_open, open_path, open_new, valid_pathname, slash,
}
use so_file_system.Parte1.Operations.Create.{inode_create_file}

released : (t : Table) (i : ℕ) → t i ≡ free → update (update t i taken) i free ≡ t
released t i h = fun_ext λ j. ground arith

pub delete_new :
    (s : State) (i : ℕ)
    → i < inode_table_size
    → inode_delete (with_file s i) (pos i) ≡ (
      record (with_file s i) { freeinode_ts = update (with_file s i).freeinode_ts i free },
      pos 0,
    )
unfolding inode_delete
delete_new s i lt = ground arith

-- Let a file system of Parte1 have a root directory in use without an empty entry, and let a path
-- of '/' and some name lead to no file. If an i-node is free, tfs_open with TFS_O_CREAT returns
-- -1, the i-node is free again, and the blocks, their bytes, the open file table, which of its
-- entries are free, and every other i-node are as before.
pub tfs_open-full :
    (s : State) (b i : ℕ) (rest : List ℕ) (flags : ℕ)
    → HasRoot s b
    → InUse s root_dir_inum
    → 0 < length rest
    → has_flag flags tfs_o_creat ≡ true
    → tfs_lookup s (slash ∷ rest) ≡ minus_one
    → first_free inode_table_size 0 s.freeinode_ts ≡ some i
    → first_empty max_dir_entries 0 s.fs_data (b * block_size) ≡ none
    → (s1 : State) × (tfs_open s (some (slash ∷ rest)) flags ≡ (s1, minus_one))
      × (s1.freeinode_ts ≡ s.freeinode_ts)
      × (s1.fs_data ≡ s.fs_data)
      × (s1.free_blocks ≡ s.free_blocks)
      × (s1.free_open_file_entries ≡ s.free_open_file_entries)
      × (s1.open_file_table ≡ s.open_file_table)
      × ((j : ℕ) → j ≢ i → s1.inode_table j ≡ s.inode_table j)
unfolding tfs_open open_path open_new
tfs_open-full s b i rest flags root live some_name creat new fi full =
    let found = first_free-Found inode_table_size s.freeinode_ts i fi in
    let s1 = record (with_file s i) { freeinode_ts = update (with_file s i).freeinode_ts i free } in
    let valid : valid_pathname (slash ∷ rest) ≡ true = ground arith in
    let other : i ≢ root_dir_inum = λ e. ground (arith, found.was_free, live.1) in
    let made_root : HasRoot (with_file s i) b = record {
      kind = ground (arith, root.kind, other);
      block = ground (arith, root.block, other);
      within = root.within;
      some_block = ground (arith, root.some_block, other);
    } in
    (
      s1,
      rw
          (
            valid,
            new,
            creat,
            inode_create_file s i fi,
            add_dir_entry_full (with_file s i) b (pos i) rest made_root full,
            delete_new s i found.within,
          )
          refl,
      released s.freeinode_ts i found.was_free,
      refl,
      refl,
      refl,
      refl,
      λ j ne. ground arith,
    )
