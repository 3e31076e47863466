-- ===== src/Parte1/Operations/Truncates.antt =====
-- `tfs_open` of Parte1/tecnicofs-v2 with TFS_O_TRUNC for a file that exists.
use so_file_system.Common.{
  ℕ, ◌<◌, ◌≡◌, refl, sym, subst, ◌⊎◌, inl, inr, ◌≢◌, ℤ, pos, minus_one, arith, List, ◌∷◌, Bool,
  true, false, length, Option, none, some, has_flag, update,
}
use so_file_system.Config.{max_open_files, inode_table_size, tfs_o_trunc, tfs_o_append}
use so_file_system.Table.{free, taken, first_free}
use so_file_system.Parte1.State.{State}
use so_file_system.Parte1.OpenFiles.{add_to_open_file_table}
use so_file_system.Parte1.Inodes.{inode_get}
use so_file_system.Parte1.Ownership.{InUse, Holds, IsWf, byte_at}
use so_file_system.Parte1.Ownership.Emptied.{Emptied, truncate-Emptied}
use so_file_system.Parte1.Operations.{
  tfs_lookup, tfs_open, open_path, open_found, open_existing_file, truncate, valid_pathname, slash,
}

-- A call that gives out the lowest free handle, for an i-node at an offset, or finds none.
abbrev pub Hands : State → ℕ → ℕ → Bool → State × ℤ → Type 0
Hands s ino offset appending out =
    ((first_free max_open_files 0 s.free_open_file_entries ≡ none)
      × ((out.1 ≡ minus_one)
          × ((out.0.open_file_table ≡ s.open_file_table)
              × (out.0.free_open_file_entries ≡ s.free_open_file_entries))))
    ⊎ ((h : ℕ) × ((first_free max_open_files 0 s.free_open_file_entries ≡ some h)
          × ((out.1 ≡ pos h)
              × ((out.0.open_file_table
                    ≡ update s.open_file_table h (record {
                      of_inumber = pos ino;
                      of_offset = offset;
                      is_appending = appending;
                    }))
                  × (out.0.free_open_file_entries ≡ update s.free_open_file_entries h taken)))))

-- The file `ino` was emptied, its blocks are free, every other block and every other file is as
-- before, and a handle at its start is open or none was free.
pub record Truncated (s : State) (ino flags : ℕ) (out : State × ℤ) : Type 0 where
  pub wf : IsWf out.0
  pub size : (out.0.inode_table ino).i_size ≡ 0
  pub blocks : (out.0.inode_table ino).blocks_alloc ≡ 0
  pub freed : (k b : ℕ) → Holds s ino k b → out.0.free_blocks b ≡ free
  pub others : (b : ℕ) → ((k : ℕ) → ¬ Holds s ino k b) → out.0.free_blocks b ≡ s.free_blocks b
  pub other_files : (i : ℕ) → i ≢ ino → out.0.inode_table i ≡ s.inode_table i
  pub other_bytes : (i q : ℕ) → i ≢ ino → byte_at out.0 i q ≡ byte_at s i q
  pub same_use : out.0.freeinode_ts ≡ s.freeinode_ts
  pub hands : Hands s ino 0 (has_flag flags tfs_o_append) out

-- A state whose files are those of an emptied one.
module _ (s : State) (ino flags : ℕ) (emptied : Emptied s ino (truncate s flags ino)) where
  opens :
      (found : Option ℕ) (appending : Bool)
      → has_flag flags tfs_o_append ≡ appending
      → first_free max_open_files 0 s.free_open_file_entries ≡ found
      → Truncated s ino flags (add_to_open_file_table emptied.after (pos ino) 0 appending)
  unfolding add_to_open_file_table
  opens none appending f e =
      rw
        (
          add_to_open_file_table,
          subst (λ t. first_free max_open_files 0 t ≡ none) (sym emptied.same_handles) e,
        )
        (record {
          wf = emptied.wf;
          size = emptied.size;
          blocks = emptied.blocks;
          freed = emptied.freed;
          others = emptied.others;
          other_files = emptied.other_files;
          other_bytes = emptied.other_bytes;
          same_use = emptied.same_use;
          hands = inl (e, (refl, (emptied.same_files, emptied.same_handles)));
        })
  opens (some h) appending f e =
      rw
        (
          add_to_open_file_table,
          subst (λ t. first_free max_open_files 0 t ≡ some h) (sym emptied.same_handles) e,
        )
        (record {
          wf = record {
            exclusive = emptied.wf.exclusive;
            bounded = emptied.wf.bounded;
            filled = emptied.wf.filled;
          };
          size = emptied.size;
          blocks = emptied.blocks;
          freed = emptied.freed;
          others = emptied.others;
          other_files = emptied.other_files;
          other_bytes = emptied.other_bytes;
          same_use = emptied.same_use;
          hands =
              inr
                (h, (e, (refl, (rw (f, emptied.same_files) refl, rw (emptied.same_handles) refl))));
        })

  got : ino < inode_table_size → inode_get (pos ino) ≡ some ino
  unfolding inode_get
  got lt = ground arith

  open_eq :
      (appending : Bool)
      → has_flag flags tfs_o_append ≡ appending
      → ino < inode_table_size
      → open_found s flags (pos ino) ≡ add_to_open_file_table emptied.after (pos ino) 0 appending
  unfolding open_found open_existing_file
  open_eq true f lt =
      rw (open_found, open_existing_file, got lt, emptied.ends, f, emptied.size) refl
  open_eq false f lt = rw (open_found, open_existing_file, got lt, emptied.ends, f) refl

-- In a well-formed file system, let a path of '/' and some name lead to a file in use of some
-- size. tfs_open with TFS_O_TRUNC leaves the file with size 0 and no blocks: every block that it
-- held is free, every block that it did not hold, every other file's i-node and bytes and the
-- table of i-nodes in use are as before, and the file system is well-formed. It returns the
-- lowest free handle, whose entry is now taken, at offset 0, and appending just if the flags have
-- TFS_O_APPEND, with every other entry as before; or -1, with all entries as before, where no
-- handle is free.
pub tfs_open-Truncated :
    (s : State) (ino : ℕ) (rest : List ℕ) (flags : ℕ)
    → IsWf s
    → InUse s ino
    → 0 < length rest
    → tfs_lookup s (slash ∷ rest) ≡ pos ino
    → has_flag flags tfs_o_trunc ≡ true
    → 0 < (s.inode_table ino).i_size
    → Truncated s ino flags (tfs_open s (some (slash ∷ rest)) flags)
unfolding tfs_open open_path
tfs_open-Truncated s ino rest flags wf live some_name found flag some_size =
    let emptied = truncate-Emptied s flags ino wf live flag some_size in
    let valid : valid_pathname (slash ∷ rest) ≡ true = ground arith in
    rw (valid, found, open_eq s ino flags emptied _ refl live.0)
      (opens s ino flags emptied _ _ refl refl)
