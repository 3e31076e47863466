-- ===== src/Parte1/Operations/Create.antt =====
-- `tfs_open` with TFS_O_CREAT for a name that is not in the directory.
use so_file_system.Common.{
  ℕ, ◌*◌, ◌<◌, ◌≤◌, ◌≡◌, refl, sym, ap, ◌∙◌, inl, ◌≢◌, pos, minus_one, List, ◌∷◌, true, false,
  arith, length, some, none, has_flag, update, update-update,
}
use so_file_system.Config.{
  block_size, inode_table_size, max_open_files, max_file_name, max_dir_entries, root_dir_inum,
  tfs_o_creat,
}
use so_file_system.Table.{taken, first_free}
use so_file_system.Table.Laws.{Found, first_free-Found}
use so_file_system.Directory.{first_empty, find_entry}
use so_file_system.Directory.Names.{IsText}
use so_file_system.Directory.Entries.{fill_outside}
use so_file_system.Directory.Search.{first_empty-bounds, find-fill_short, find-fill_long}
use so_file_system.Parte1.State.{State, file, put_entry}
use so_file_system.Parte1.OpenFiles.{add_to_open_file_table}
use so_file_system.Parte1.Inodes.{inode_create, test1}
use so_file_system.Parte1.Inodes.Lookup.{
  HasRoot, with_entry, find_in_dir_eq, test1_eq, add_dir_entry_eq,
}
use so_file_system.Parte1.Ownership.{InUse, IsWf}
use so_file_system.Parte1.Ownership.Create.{with_file, with_file-IsWf, data_write-IsWf}
use so_file_system.Parte1.Operations.{
  tfs_lookup, tfs_open, open_path, open_new, valid_pathname, slash,
}

pub inode_create_file :
    (s : State) (i : ℕ)
    → first_free inode_table_size 0 s.freeinode_ts ≡ some i
    → inode_create s file ≡ (with_file s i, pos i)
unfolding inode_create
inode_create_file s i e =
    let s1 = record s { freeinode_ts = update s.freeinode_ts i taken } in
    rw (e, inode_create)
      (ap (λ t. (record s1 { inode_table = t }, pos i)) (update-update s.inode_table i _ _))

-- The entry of a handle on a new file.
abbrev pub with_handle : State → ℕ → ℕ → State
with_handle s h i =
    put_entry (record s { free_open_file_entries = update s.free_open_file_entries h taken }) h
      (record { of_inumber = pos i; of_offset = 0; is_appending = false })

pub add_handle :
    (s : State) (h i : ℕ)
    → first_free max_open_files 0 s.free_open_file_entries ≡ some h
    → add_to_open_file_table s (pos i) 0 false ≡ (with_handle s h i, pos h)
unfolding add_to_open_file_table
add_handle s h i e = rw (e, add_to_open_file_table) refl

no_handle :
    (s : State) (i : ℕ)
    → first_free max_open_files 0 s.free_open_file_entries ≡ none
    → add_to_open_file_table s (pos i) 0 false ≡ (s, minus_one)
unfolding add_to_open_file_table
no_handle s i e = rw (e, add_to_open_file_table) refl

module _ (s : State) (b i j : ℕ) (rest : List ℕ) (flags : ℕ) (wf : IsWf s) (root : HasRoot s b)
    (root_live : InUse s root_dir_inum) (some_name : 0 < length rest) (text : IsText rest)
    (creat : has_flag flags tfs_o_creat ≡ true) (new : tfs_lookup s (slash ∷ rest) ≡ minus_one)
    (inode_free : first_free inode_table_size 0 s.freeinode_ts ≡ some i)
    (entry_free : first_empty max_dir_entries 0 s.fs_data (b * block_size) ≡ some j) where
  found : Found s.freeinode_ts inode_table_size i
  found = first_free-Found inode_table_size s.freeinode_ts i inode_free

  not_root : i ≢ root_dir_inum
  not_root e = ground (arith, found.was_free, root_live.1)

  created_root : HasRoot (with_file s i) b
  created_root = record {
    kind = ground (arith, root.kind, not_root);
    block = ground (arith, root.block, not_root);
    within = root.within;
    some_block = ground (arith, root.some_block, not_root);
  }

  abbrev pub created : State
  created = with_entry (with_file s i) b j (pos i) rest

  entry_root : HasRoot created b
  entry_root = record {
    kind = created_root.kind;
    block = created_root.block;
    within = created_root.within;
    some_block = created_root.some_block;
  }

  absent : find_entry max_dir_entries 0 s.fs_data (b * block_size) rest ≡ minus_one
  unfolding tfs_lookup
  absent = sym (find_in_dir_eq s b rest root) ∙ new

  pub open_created :
      (h : ℕ)
      → first_free max_open_files 0 s.free_open_file_entries ≡ some h
      → tfs_open s (some (slash ∷ rest)) flags ≡ (with_handle created h i, pos h)
  unfolding tfs_open open_path open_new
  open_created h e =
      let valid : valid_pathname (slash ∷ rest) ≡ true = ground arith in
      rw
        (
          valid,
          new,
          creat,
          inode_create_file s i inode_free,
          add_dir_entry_eq (with_file s i) b i j rest created_root found.within some_name
              entry_free,
          add_handle created h i e,
        )
        refl

  -- The new file and its entry stay where no handle is free.
  pub open_no_handle :
      first_free max_open_files 0 s.free_open_file_entries ≡ none
      → tfs_open s (some (slash ∷ rest)) flags ≡ (created, minus_one)
  unfolding tfs_open open_path open_new
  open_no_handle e =
      let valid : valid_pathname (slash ∷ rest) ≡ true = ground arith in
      rw
        (
          valid,
          new,
          creat,
          inode_create_file s i inode_free,
          add_dir_entry_eq (with_file s i) b i j rest created_root found.within some_name
              entry_free,
          no_handle created i e,
        )
        refl

  pub lookup-short :
      length rest < max_file_name
      → (tfs_lookup created (slash ∷ rest) ≡ pos i) × (test1 created rest ≡ pos 1)
  unfolding tfs_lookup
  lookup-short short =
      let both =
        find-fill_short s.fs_data (b * block_size) j (pos i) rest text (omega (arith, found.within))
          refl entry_free absent short in
      (
        find_in_dir_eq created b rest entry_root ∙ both.0,
        test1_eq created b rest entry_root ∙ ap pos both.1,
      )

  pub lookup-long : max_file_name ≤ length rest → tfs_lookup created (slash ∷ rest) ≡ minus_one
  unfolding tfs_lookup
  lookup-long long =
      find_in_dir_eq created b rest entry_root
      ∙ find-fill_long s.fs_data (b * block_size) j (pos i) rest text (omega (arith, found.within))
          refl entry_free absent long

  pub created-IsWf : IsWf created
  created-IsWf =
      data_write-IsWf (with_file s i) _ root_dir_inum 0 b (with_file-IsWf s i wf)
        (
          (root_live.0, ground (arith, root_live.1)),
          inl created_root.some_block,
          created_root.block,
        )
        (omega arith)
        (λ a off. fill_outside s.fs_data (b * block_size) j (pos i) rest a (
          omega (
            arith,
            off,
            first_empty-bounds max_dir_entries 0 s.fs_data (b * block_size) j entry_free,
          )))
