-- ===== src/Parte1/Sound/Opens.antt =====
-- tfs_open of Parte1/tecnicofs-v2 without TFS_O_TRUNC keeps the file system sound.
use so_file_system.Common.{
  ℕ, zero, suc, ◌+◌, ◌*◌, ◌<◌, ◌≤◌, ◌≡◌, refl, sym, subst, inl, inr, pos, minus_one, List, [], ◌∷◌,
  Option, Option-cases, some, none, arith, Bool, false, Bool-cases, update, ℕ_discrete, length,
  has_flag, if◌then◌else◌,
}
use so_file_system.Config.{
  block_size, max_open_files, max_dir_entries, inode_table_size, tfs_o_creat, tfs_o_trunc,
  tfs_o_append,
}
use so_file_system.Memory.{Bytes, load_int}
use so_file_system.Table.{taken, first_free}
use so_file_system.Table.Laws.{Found, first_free-Found}
use so_file_system.Directory.{inumber_at, first_empty, find_entry, entry_is}
use so_file_system.Parte1.State.{State, file}
use so_file_system.Parte1.OpenFiles.{add_to_open_file_table}
use so_file_system.Parte1.Inodes.{inode_get, inode_create}
use so_file_system.Parte1.Inodes.Lookup.{
  with_entry, find_in_dir_eq, add_dir_entry_eq, add_dir_entry_full,
}
use so_file_system.Parte1.Ownership.Create.{with_file}
use so_file_system.Parte1.Operations.{
  tfs_lookup, truncate, open_existing_file, open_found, open_new, open_path, tfs_open,
  valid_pathname, skip,
}
use so_file_system.Parte1.Operations.Create.{inode_create_file}
use so_file_system.Parte1.Operations.Full.{delete_new}
use so_file_system.Parte1.Sound.Defs.{IsFile, Names, Sound, table-Sound}
use so_file_system.Parte1.Sound.Creates.{
  with_file-Sound, new-IsFile, undone-Sound, entered-Sound, entered-IsFile,
}

find_entry-Names :
    (s : State) (k i : ℕ) (m : Bytes) (p : ℕ) (name : List ℕ)
    → ((j : ℕ) → i ≤ j → j < i + k → Names s (load_int m (inumber_at p j)))
    → Names s (find_entry k i m p name)
unfolding find_entry
find_entry-Names s zero i m p name h = inl refl
find_entry-Names s (suc k) i m p name h = elim (Bool-cases (entry_is m p i name)) [
  | inl e ↦ rw e (h i (omega arith) (omega arith))
  | inr e ↦
      rw e (find_entry-Names s k (suc i) m p name (λ j le lt. h j (omega arith) (omega arith)))
]

module _ (s : State) (b : ℕ) (sound : Sound s b) where
  lookup-Names : (name : List ℕ) → Names s (tfs_lookup s name)
  unfolding tfs_lookup
  lookup-Names name = subst (Names s) (sym (find_in_dir_eq s b (skip name) sound.root)) (
      find_entry-Names s max_dir_entries 0 s.fs_data (b * block_size) (skip name)
        (λ j le lt. sound.named j lt))

  add-Sound :
      (i offset : ℕ) (appending : Bool)
      → IsFile s i
      → offset ≤ (s.inode_table i).i_size
      → Sound (add_to_open_file_table s (pos i) offset appending).0 b
  unfolding add_to_open_file_table
  add-Sound i offset appending f le =
      elim (Option-cases (first_free max_open_files 0 s.free_open_file_entries)) [
        | inl e ↦ rw (add_to_open_file_table, e) sound
        | inr (h, e) ↦
            rw (add_to_open_file_table, e)
              (table-Sound s b sound
                (update s.open_file_table h
                  (record { of_inumber = pos i; of_offset = offset; is_appending = appending }))
                (update s.free_open_file_entries h taken)
                λ g lt open_now. elim (ℕ_discrete g h) [
                  | yes q ↦ (i, ground (arith, q), f, ground (arith, q, le))
                  | no q ↦
                      let (k, on) = sound.opened g lt (ground (arith, q, open_now)) in
                      (k, ground (arith, q, on.number), on.on_file, ground (arith, q, on.inside))
                ])
      ]

  open_found_eq :
      (flags i : ℕ)
      → i < inode_table_size
      → has_flag flags tfs_o_trunc ≡ false
      → open_found s flags (pos i)
        ≡ add_to_open_file_table s
            (pos i)
            (if has_flag flags tfs_o_append then (s.inode_table i).i_size else 0)
            (has_flag flags tfs_o_append)
  unfolding open_found open_existing_file truncate inode_get
  open_found_eq flags i lt keep = ground (arith, lt, keep)

  found-Sound :
      (flags i : ℕ)
      → IsFile s i
      → has_flag flags tfs_o_trunc ≡ false
      → Sound (open_found s flags (pos i)).0 b
  found-Sound flags i f keep = rw (open_found_eq flags i f.live.0 keep) (
      add-Sound i (if has_flag flags tfs_o_append then (s.inode_table i).i_size else 0)
        (has_flag flags tfs_o_append) f (ground arith))

no_inode :
    (s : State)
    → first_free inode_table_size 0 s.freeinode_ts ≡ none
    → inode_create s file ≡ (s, minus_one)
unfolding inode_create
no_inode s e = rw (e, inode_create) refl

module _ (s : State) (b : ℕ) (sound : Sound s b) (c : ℕ) (rest : List ℕ) (flags : ℕ)
    (some_name : 0 < length rest) (new : tfs_lookup s (c ∷ rest) ≡ minus_one) where
  -- An i-node is free.
  module _ (i : ℕ) (inode_free : first_free inode_table_size 0 s.freeinode_ts ≡ some i) where
    found : Found s.freeinode_ts inode_table_size i
    found = first_free-Found inode_table_size s.freeinode_ts i inode_free

    made : Sound (with_file s i) b
    made = with_file-Sound s b sound i found.within found.was_free

    on_new : IsFile (with_file s i) i
    on_new = new-IsFile s b sound i found.within found.was_free

    full-Sound :
        first_empty max_dir_entries 0 s.fs_data (b * block_size) ≡ none
        → Sound (open_new s (c ∷ rest) flags).0 b
    unfolding open_new
    full-Sound e =
        rw
          (
            new,
            inode_create_file s i inode_free,
            add_dir_entry_full (with_file s i) b (pos i) rest made.root e,
            delete_new s i found.within,
          )
          (undone-Sound s b sound i found.within found.was_free)

    entry-Sound :
        (j : ℕ)
        → first_empty max_dir_entries 0 s.fs_data (b * block_size) ≡ some j
        → Sound (open_new s (c ∷ rest) flags).0 b
    unfolding open_new
    entry-Sound j e =
        rw
          (
            new,
            inode_create_file s i inode_free,
            add_dir_entry_eq (with_file s i) b i j rest made.root found.within some_name e,
          )
          (add-Sound (with_entry (with_file s i) b j (pos i) rest) b
            (entered-Sound (with_file s i) b made i j rest on_new e) i 0 false
            (entered-IsFile (with_file s i) b made i j rest on_new e) (omega arith))

  new-Sound : Sound (open_new s (c ∷ rest) flags).0 b
  unfolding open_new
  new-Sound = elim (Option-cases (first_free inode_table_size 0 s.freeinode_ts)) [
    | inl e ↦ rw (new, no_inode s e) sound
    | inr (i, e) ↦ elim (Option-cases (first_empty max_dir_entries 0 s.fs_data (b * block_size))) [
      | inl f ↦ full-Sound i e f
      | inr (j, f) ↦ entry-Sound i e j f
    ]
  ]

path-Sound :
    (s : State) (b : ℕ) (sound : Sound s b) (c : ℕ) (rest : List ℕ) (flags : ℕ)
    → 0 < length rest
    → has_flag flags tfs_o_trunc ≡ false
    → Sound (open_path s (c ∷ rest) flags).0 b
unfolding open_path
path-Sound s b sound c rest flags some_name keep = elim (lookup-Names s b sound (c ∷ rest)) [
  | inl e ↦ elim (Bool-cases (has_flag flags tfs_o_creat)) [
    | inl creat ↦ rw (e, creat) (new-Sound s b sound c rest flags some_name e)
    | inr no_creat ↦ rw (e, no_creat) sound
  ]
  | inr (i, e, f) ↦ rw e (found-Sound s b sound flags i f keep)
]

-- A call of tfs_open without TFS_O_TRUNC, of any path.
pub tfs_open-Sound :
    (s : State) (b : ℕ) (name : Option (List ℕ)) (flags : ℕ)
    → Sound s b
    → has_flag flags tfs_o_trunc ≡ false
    → Sound (tfs_open s name flags).0 b
unfolding tfs_open
tfs_open-Sound s b none flags sound keep = sound
tfs_open-Sound s b (some []) flags sound keep = sound
tfs_open-Sound s b (some (c ∷ rest)) flags sound keep =
    elim (Bool-cases (valid_pathname (c ∷ rest))) [
      | inl e ↦ rw e (path-Sound s b sound c rest flags (ground arith) keep)
      | inr e ↦ rw e sound
    ]
