-- ===== src/Parte1/Sound/Writes.antt =====
-- A write of Parte1/tecnicofs-v2 keeps the file system sound.
use so_file_system.Common.{
  ℕ, ◌+◌, ◌*◌, ◌/◌, ◌%◌, ◌<◌, ◌≤◌, ◌≡◌, ◌≢◌, sym, ap, subst, ◌∙◌, inl, ℤ, pos, List, Option, arith,
  ℕ_discrete, index,
}
use so_file_system.Config.{
  block_size, max_dir_entries, root_dir_inum, dir_entry_size, max_file_name,
}
use so_file_system.Memory.{load_int}
use so_file_system.Memory.Laws.{load_int-congr}
use so_file_system.Directory.{inumber_at}
use so_file_system.Parte1.State.{State, OpenFileEntry}
use so_file_system.Parte1.Inodes.Lookup.{HasRoot}
use so_file_system.Parte1.Ownership.{byte_at, number_of}
use so_file_system.Parte1.Transfer.Write.{Wrote}
use so_file_system.Parte1.Sound.Untouched.{Leaves}
use so_file_system.Parte1.Sound.Defs.{IsFile, Names, HandleOn, Sound, Grows, Names-Grows}

-- The first block of the root directory, as bytes of a file.
root_byte :
    (s : State) (b q : ℕ)
    → HasRoot s b
    → q < block_size
    → byte_at s root_dir_inum q ≡ s.fs_data (b * block_size + q)
root_byte s b q root lt =
    let first : q / block_size ≡ 0 = omega arith in
    let rest : q % block_size ≡ q = omega arith in
    let number : number_of s.fs_data (s.inode_table root_dir_inum) (q / block_size) ≡ pos b =
      ap (number_of s.fs_data (s.inode_table root_dir_inum)) first ∙ root.block in
    ap (λ z. s.fs_data (index z * block_size + q % block_size)) number
    ∙ ap (λ r. s.fs_data (b * block_size + r)) rest

-- The number in an entry of a block whose bytes are the same.
same_number :
    (s s' : State) (b j : ℕ)
    → ((q : ℕ) → q < block_size → s'.fs_data (b * block_size + q) ≡ s.fs_data (b * block_size + q))
    → j < max_dir_entries
    → load_int s'.fs_data (inumber_at (b * block_size) j)
      ≡ load_int s.fs_data (inumber_at (b * block_size) j)
same_number s s' b j same lt =
    load_int-congr s'.fs_data s.fs_data (inumber_at (b * block_size) j)
      (ap s'.fs_data (omega arith) ∙ byte 0 (omega arith) ∙ ap s.fs_data (omega arith))
      (byte 1 (omega arith)) (byte 2 (omega arith)) (byte 3 (omega arith))
  where
    byte :
        (t : ℕ)
        → t < 4
        → s'.fs_data (inumber_at (b * block_size) j + t)
          ≡ s.fs_data (inumber_at (b * block_size) j + t)
    byte t small =
        let at : inumber_at (b * block_size) j + t
            ≡ b * block_size + (j * dir_entry_size + max_file_name + t) =
          omega arith in
        ap s'.fs_data at
        ∙ same (j * dir_entry_size + max_file_name + t) (omega arith)
        ∙ ap s.fs_data (sym at)

module _ (s : State) (b h ino start count : ℕ) (buf : List ℕ) (out : Option (State × ℤ))
    (sound : Sound s b) (on : HandleOn s h ino) (low : start ≤ (s.inode_table ino).i_size)
    (w : Wrote s h ino start count buf out)
    (leaves : (i g : ℕ) → i ≢ ino → Leaves i g s w.after) where
  other : root_dir_inum ≢ ino
  other e = on.on_file.not_root (sym e)

  grown :
      IsFile s ino
      → IsFile w.after ino × ((s.inode_table ino).i_size ≤ (w.after.inode_table ino).i_size)
  grown f = (
    record {
      live = (f.live.0, ap (λ t. t ino) w.same_use ∙ f.live.1);
      not_root = f.not_root;
      sized = ground (arith, w.size, w.room, w.longer ino, f.sized, low);
    },
    ground (arith, w.size),
  )

  grows : Grows s w.after
  grows i f = elim (ℕ_discrete i ino) [
    | yes e ↦
        subst
          (λ k.
            IsFile s k
            → IsFile w.after k × ((s.inode_table k).i_size ≤ (w.after.inode_table k).i_size))
          (sym e) grown f
    | no ne ↦ (
      record {
        live = (f.live.0, ap (λ t. t i) w.same_use ∙ f.live.1);
        not_root = f.not_root;
        sized = omega (arith, w.other_sizes i ne, w.longer i, f.sized);
      },
      omega (arith, w.other_sizes i ne),
    )
  ]

  same_root : w.after.inode_table root_dir_inum ≡ s.inode_table root_dir_inum
  same_root = (leaves root_dir_inum 0 other).0

  root_after : HasRoot w.after b
  root_after = record {
    kind = ap (λ n. n.i_node_type) same_root ∙ sound.root.kind;
    block = ap (λ n. n.i_data_block 0) same_root ∙ sound.root.block;
    within = sound.root.within;
    some_block = subst (λ n. 0 < n.blocks_alloc) (sym same_root) sound.root.some_block;
  }

  same_entries :
      (q : ℕ)
      → q < block_size
      → w.after.fs_data (b * block_size + q) ≡ s.fs_data (b * block_size + q)
  same_entries q lt =
      sym (root_byte w.after b q root_after lt)
      ∙ w.outside root_dir_inum q sound.root_live (omega (arith, sound.root.some_block)) (inl other)
      ∙ root_byte s b q sound.root lt

  handle_after : (g : ℕ) → (i : ℕ) × HandleOn s g i → (i : ℕ) × HandleOn w.after g i
  handle_after g (i, on_g) = elim (ℕ_discrete g h) [
    | yes e ↦ (
      ino,
      record {
        number =
            (leaves root_dir_inum g other).1
            ∙ ap (λ k. (s.open_file_table k).of_inumber) e
            ∙ on.number;
        on_file = (grows ino on.on_file).0;
        inside =
            subst (λ k. (w.after.open_file_table k).of_offset ≤ (w.after.inode_table ino).i_size)
              (sym e) (ground (arith, w.offset, w.size));
      },
    )
    | no ne ↦ (
      i,
      record {
        number = (leaves root_dir_inum g other).1 ∙ on_g.number;
        on_file = (grows i on_g.on_file).0;
        inside = omega (
          arith,
          ap (λ (x : OpenFileEntry). x.of_offset) (w.other_entries g ne),
          (grows i on_g.on_file).1,
          on_g.inside,
        );
      },
    )
  ]

  pub wrote-Sound : Sound w.after b
  wrote-Sound = record {
    wf = w.wf;
    root = root_after;
    root_live = (sound.root_live.0, ap (λ t. t root_dir_inum) w.same_use ∙ sound.root_live.1);
    named = λ j lt. subst (Names w.after) (sym (same_number s w.after b j same_entries lt)) (
        Names-Grows s w.after (load_int s.fs_data (inumber_at (b * block_size) j)) grows
          (sound.named j lt));
    opened = λ g lt taken.
        handle_after g (sound.opened g lt (sym (ap (λ t. t g) w.same_handles) ∙ taken));
  }
