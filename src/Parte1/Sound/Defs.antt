-- ===== src/Parte1/Sound/Defs.antt =====
-- The invariant of a file system of Parte1/tecnicofs-v2 between two calls.
use so_file_system.Common.{ℕ, ◌*◌, ◌<◌, ◌≤◌, ◌≡◌, ◌⊎◌, ◌≢◌, inl, inr, ℤ, pos, minus_one, arith}
use so_file_system.Config.{block_size, max_open_files, max_dir_entries, root_dir_inum}
use so_file_system.Memory.{load_int}
use so_file_system.Table.{Table, taken}
use so_file_system.Directory.{inumber_at}
use so_file_system.Parte1.State.{State, OpenFileEntry}
use so_file_system.Parte1.Inodes.Lookup.{HasRoot}
use so_file_system.Parte1.Ownership.{InUse, IsWf}

-- An i-node in use, but the root directory's, whose size is within its blocks.
pub record IsFile (s : State) (i : ℕ) : Type 0 where
  pub live : InUse s i
  pub not_root : i ≢ root_dir_inum
  pub sized : (s.inode_table i).i_size ≤ (s.inode_table i).blocks_alloc * block_size

-- A directory entry is empty, or it names a file.
abbrev pub Names : State → ℤ → Type 0
Names s z = (z ≡ minus_one) ⊎ ((i : ℕ) × (z ≡ pos i) × IsFile s i)

-- A handle stands inside a file.
pub record HandleOn (s : State) (h i : ℕ) : Type 0 where
  pub number : (s.open_file_table h).of_inumber ≡ pos i
  pub on_file : IsFile s i
  pub inside : (s.open_file_table h).of_offset ≤ (s.inode_table i).i_size

pub record Sound (s : State) (b : ℕ) : Type 0 where
  pub wf : IsWf s
  pub root : HasRoot s b
  pub root_live : InUse s root_dir_inum
  pub named :
      (j : ℕ) → j < max_dir_entries → Names s (load_int s.fs_data (inumber_at (b * block_size) j))
  pub opened :
      (h : ℕ) → h < max_open_files → s.free_open_file_entries h ≡ taken → (i : ℕ) × HandleOn s h i

-- Every file is still there, as large as before or larger.
abbrev pub Grows : State → State → Type 0
Grows s s' =
    (i : ℕ) → IsFile s i → IsFile s' i × ((s.inode_table i).i_size ≤ (s'.inode_table i).i_size)

pub Names-Grows : (s s' : State) (z : ℤ) → Grows s s' → Names s z → Names s' z
Names-Grows s s' z g (inl e) = inl e
Names-Grows s s' z g (inr (i, e, f)) = inr (i, e, (g i f).0)

-- Only the open file table differs, and its handles stand inside files.
module _ (s : State) (b : ℕ) (sound : Sound s b) (t : ℕ → OpenFileEntry) (f : Table) where
  abbrev pub with_table : State
  with_table = record s { open_file_table = t; free_open_file_entries = f }

  table-Grows : Grows s with_table
  table-Grows i file =
      (record { live = file.live; not_root = file.not_root; sized = file.sized }, omega arith)

  pub table-Sound :
      ((h : ℕ)
        → h < max_open_files
        → f h ≡ taken
        → (i : ℕ) × ((t h).of_inumber ≡ pos i)
          × IsFile s i
          × ((t h).of_offset ≤ (s.inode_table i).i_size))
      → Sound with_table b
  table-Sound handles = record {
    wf = record {
      exclusive = sound.wf.exclusive;
      bounded = sound.wf.bounded;
      filled = sound.wf.filled;
    };
    root = record {
      kind = sound.root.kind;
      block = sound.root.block;
      within = sound.root.within;
      some_block = sound.root.some_block;
    };
    root_live = sound.root_live;
    named = λ j lt.
        Names-Grows s with_table (load_int s.fs_data (inumber_at (b * block_size) j)) table-Grows
          (sound.named j lt);
    opened = λ h lt e.
        let (i, number, file, inside) = handles h lt e in
        (i, record { number = number; on_file = (table-Grows i file).0; inside = inside });
  }
