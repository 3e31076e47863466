-- ===== src/Parte1/Sound/Creates.antt =====
-- A new file of Parte1/tecnicofs-v2, with and without its directory entry, keeps the file system sound.
use so_file_system.Common.{
  ℕ, ◌*◌, ◌<◌, ◌≡◌, ◌≢◌, refl, sym, ap, subst, ◌∙◌, inl, inr, pos, List, [], some, arith,
  ℕ_discrete, update,
}
use so_file_system.Config.{
  block_size, max_dir_entries, root_dir_inum, inode_table_size, data_blocks,
}
use so_file_system.Memory.{load_int}
use so_file_system.Table.{free, taken}
use so_file_system.Exclusive.{shrink-IsExclusive}
use so_file_system.Directory.{inumber_at, first_empty, fill_entry}
use so_file_system.Directory.Entries.{fill_outside, inumber-fill, others-fill}
use so_file_system.Directory.Search.{first_empty-bounds}
use so_file_system.Parte1.State.{State, OpenFileEntry}
use so_file_system.Parte1.Inodes.Lookup.{with_entry}
use so_file_system.Parte1.Ownership.{InUse, IsWf, Holds}
use so_file_system.Parte1.Ownership.Create.{with_file, with_file-IsWf, data_write-IsWf}
use so_file_system.Parte1.Sound.Defs.{IsFile, Names, HandleOn, Sound, Grows, Names-Grows}

-- The files, the root and the handles are as before.
module _ (s s' : State) (b : ℕ) (sound : Sound s b) (wf : IsWf s') (grows : Grows s s')
    (root : s'.inode_table root_dir_inum ≡ s.inode_table root_dir_inum)
    (in_use : s'.freeinode_ts root_dir_inum ≡ taken)
    (same_table : s'.open_file_table ≡ s.open_file_table)
    (same_handles : s'.free_open_file_entries ≡ s.free_open_file_entries) where
  handle-Grows : (h i : ℕ) → HandleOn s h i → HandleOn s' h i
  handle-Grows h i on = record {
    number = ap (λ t. (t h).of_inumber) same_table ∙ on.number;
    on_file = (grows i on.on_file).0;
    inside = omega (
      arith,
      ap (λ (t : ℕ → OpenFileEntry). (t h).of_offset) same_table,
      on.inside,
      (grows i on.on_file).1,
    );
  }

  pub grown-Sound :
      ((j : ℕ)
        → j < max_dir_entries
        → Names s' (load_int s'.fs_data (inumber_at (b * block_size) j)))
      → Sound s' b
  grown-Sound named = record {
    wf = wf;
    root = record {
      kind = ap (λ n. n.i_node_type) root ∙ sound.root.kind;
      block = ap (λ n. n.i_data_block 0) root ∙ sound.root.block;
      within = sound.root.within;
      some_block = subst (λ n. 0 < n.blocks_alloc) (sym root) sound.root.some_block;
    };
    root_live = (sound.root_live.0, in_use);
    named = named;
    opened = λ h lt e.
        let (i, on) = sound.opened h lt (sym (ap (λ t. t h) same_handles) ∙ e) in
        (i, handle-Grows h i on);
  }

module _ (s : State) (b : ℕ) (sound : Sound s b) (i : ℕ) (lt : i < inode_table_size)
    (was_free : s.freeinode_ts i ≡ free) where
  not_root : i ≢ root_dir_inum
  not_root e = ground (arith, was_free, sound.root_live.1)

  old_file : (k : ℕ) → IsFile s k → k ≢ i
  old_file k f e = ground (arith, was_free, f.live.1)

  file-Grows : Grows s (with_file s i)
  file-Grows k f =
      let ne = old_file k f in
      (
        record {
          live = (f.live.0, ground (arith, f.live.1));
          not_root = f.not_root;
          sized = ground (arith, ne, f.sized);
        },
        ground (arith, ne),
      )

  pub new-IsFile : IsFile (with_file s i) i
  new-IsFile = record { live = (lt, ground arith); not_root = not_root; sized = ground arith }

  pub with_file-Sound : Sound (with_file s i) b
  with_file-Sound =
      grown-Sound s (with_file s i) b sound (with_file-IsWf s i sound.wf) file-Grows
        (ground (arith, not_root)) (ground (arith, sound.root_live.1)) refl refl
        (λ j h.
          Names-Grows s (with_file s i) (load_int s.fs_data (inumber_at (b * block_size) j))
            file-Grows (sound.named j h))

  -- The i-node is freed again, as when the directory is full.
  abbrev pub undone : State
  undone = record (with_file s i) { freeinode_ts = update (with_file s i).freeinode_ts i free }

  still : (l : ℕ) → InUse undone l → InUse (with_file s i) l
  still l live = (live.0, ground (arith, live.1))

  undone-IsWf : IsWf undone
  undone-IsWf =
      let wf = with_file-IsWf s i sound.wf in
      record {
        exclusive =
            shrink-IsExclusive data_blocks (Holds (with_file s i)) (Holds undone) s.free_blocks
              s.free_blocks wf.exclusive (λ l k c h. (still l h.0, h.1, h.2)) (λ _ _ _ _. refl);
        bounded = λ l live. wf.bounded l (still l live);
        filled = λ l k live u. wf.filled l k (still l live) u;
      }

  undone-Grows : Grows s undone
  undone-Grows k f =
      let ne = old_file k f in
      (
        record {
          live = (f.live.0, ground (arith, f.live.1, ne));
          not_root = f.not_root;
          sized = ground (arith, ne, f.sized);
        },
        ground (arith, ne),
      )

  pub undone-Sound : Sound undone b
  undone-Sound =
      grown-Sound s undone b sound undone-IsWf undone-Grows (ground (arith, not_root))
        (ground (arith, sound.root_live.1, not_root)) refl refl
        (λ j h.
          Names-Grows s undone (load_int s.fs_data (inumber_at (b * block_size) j)) undone-Grows
            (sound.named j h))

-- The directory names a file.
module _ (s : State) (b : ℕ) (sound : Sound s b) (i j : ℕ) (name : List ℕ) (new : IsFile s i)
    (empty : first_empty max_dir_entries 0 s.fs_data (b * block_size) ≡ some j) where
  abbrev entered : State
  entered = with_entry s b j (pos i) name

  entry-Grows : Grows s entered
  entry-Grows k f = (record { live = f.live; not_root = f.not_root; sized = f.sized }, omega arith)

  entered-IsWf : IsWf entered
  entered-IsWf =
      data_write-IsWf s (fill_entry s.fs_data (b * block_size) j (pos i) name) root_dir_inum 0 b
        sound.wf (sound.root_live, inl sound.root.some_block, sound.root.block) (omega arith)
        (λ a off. fill_outside s.fs_data (b * block_size) j (pos i) name a (
          omega
            (arith, off, first_empty-bounds max_dir_entries 0 s.fs_data (b * block_size) j empty)))

  entered-Names :
      (k : ℕ)
      → k < max_dir_entries
      → Names entered (load_int entered.fs_data (inumber_at (b * block_size) k))
  entered-Names k lt = elim (ℕ_discrete k j) [
    | yes e ↦ inr (
      i,
      ap (λ l. load_int entered.fs_data (inumber_at (b * block_size) l)) e
          ∙ inumber-fill s.fs_data (b * block_size) j (pos i) name (omega (arith, new.live.0)),
      (entry-Grows i new).0,
    )
    | no ne ↦
        subst (Names entered)
          (sym (others-fill s.fs_data (b * block_size) j (pos i) name k [] ne).0)
          (Names-Grows s entered (load_int s.fs_data (inumber_at (b * block_size) k)) entry-Grows
            (sound.named k lt))
  ]

  pub entered-Sound : Sound entered b
  entered-Sound =
      grown-Sound s entered b sound entered-IsWf entry-Grows refl sound.root_live.1 refl refl
        entered-Names

  pub entered-IsFile : IsFile entered i
  entered-IsFile = (entry-Grows i new).0
