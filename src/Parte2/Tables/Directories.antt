-- ===== src/Parte2/Tables/Directories.antt =====
-- The directories of Parte2/tecnicofs_ex2/fs/state.c against those of the first version.
use so_file_system.Common.{
  ℕ, ◌+◌, ◌-◌, ◌<◌, ◌≡◌, refl, fun_ext, arith, ℤ, List, ◌&&◌, ◌==◌, ap, ◌∙◌, index, sym, Bool-cases,
  Option-cases, inl, inr, not, length,
}
use so_file_system.Config.{max_dir_entries, max_file_name}
use so_file_system.Memory.{Bytes, store_int, store_byte, strncpy}
use so_file_system.Directory.{first_empty, name_at, inumber_at, fill_entry}
use so_file_system.Parte2.State.{State}
use so_file_system.Parte2.Tables.{
  valid_inumber, is_directory, put_dir_entry, add_dir_entry, find_in_dir, data_block_get,
}
use so_file_system.Parte1

-- The number of an i-node and a name lie apart.
commute :
    (m : Bytes) (a b n q : ℕ) (i : ℤ) (name : List ℕ)
    → a + n < b
    → strncpy (store_int m b i) a name n q ≡ store_int (strncpy m a name n) b i q
unfolding strncpy store_int
commute m a b n q i name h = ground arith

pub put_dir_entry-fill_entry :
    (m : Bytes) (p i : ℕ) (sub_inumber : ℤ) (sub_name : List ℕ)
    → put_dir_entry m p i sub_inumber sub_name ≡ fill_entry m p i sub_inumber sub_name
unfolding put_dir_entry fill_entry store_byte
put_dir_entry-fill_entry m p i sub_inumber sub_name = fun_ext λ q. ground (
  arith,
  commute m (name_at p i) (inumber_at p i) (max_file_name - 1) q sub_inumber sub_name (omega arith),
)

-- An i-node of each version for the same directory, on the same bytes.
pub record SameDirectory (s : State) (t : Parte1.State.State) (inumber : ℤ) : Type 0 where
  pub same_bytes : t.fs_data ≡ s.fs_data
  pub same_type :
      Parte1.Inodes.is_directory (t.inode_table (index inumber)).i_node_type
      ≡ is_directory (s.inode_table (index inumber)).i_node_type
  pub same_block :
      (t.inode_table (index inumber)).i_data_block 0 ≡ (s.inode_table (index inumber)).i_data_block

-- A block's address is the same in both versions.
address : (b : ℤ) → Parte1.Blocks.data_block_get b ≡ data_block_get b
unfolding Parte1.Blocks.data_block_get data_block_get
address b = refl

pub find_in_dir-same :
    (s : State) (t : Parte1.State.State) (inumber : ℤ) (name : List ℕ)
    → SameDirectory s t inumber
    → Parte1.Inodes.find_in_dir t inumber name ≡ find_in_dir s inumber name
unfolding Parte1.Inodes.find_in_dir find_in_dir
find_in_dir-same s t inumber name same =
    let inode = s.inode_table (index inumber) in
    let place = address inode.i_data_block in
    elim (Option-cases (data_block_get inode.i_data_block)) [
      | inl b ↦
          rw (find_in_dir, Parte1.Inodes.find_in_dir, same.same_type, same.same_block, place, b)
            refl
      | inr (p, b) ↦
          rw
            (
              find_in_dir, Parte1.Inodes.find_in_dir, same.same_type, same.same_block, place, b,
              same.same_bytes,
            )
            refl
    ]

added_same :
    (s : State) (t : Parte1.State.State) (inumber sub_inumber : ℤ) (name : List ℕ)
    → SameDirectory s t inumber
    → let out = add_dir_entry s inumber sub_inumber name in
      let other = Parte1.Inodes.add_dir_entry t inumber sub_inumber name in
      (other.1 ≡ out.1) × (other.0.fs_data ≡ out.0.fs_data)
unfolding add_dir_entry Parte1.Inodes.add_dir_entry
added_same s t inumber sub_inumber name same =
    let inode = s.inode_table (index inumber) in
    let valid =
      valid_inumber inumber
      && valid_inumber sub_inumber
      && is_directory inode.i_node_type
      && not (length name == 0) in
    let place = address inode.i_data_block in
    elim (Bool-cases valid) [
      | inr v ↦
          rw (add_dir_entry, Parte1.Inodes.add_dir_entry, same.same_type, v) (refl, same.same_bytes)
      | inl v ↦ elim (Option-cases (data_block_get inode.i_data_block)) [
        | inl b ↦
            rw
              (
                add_dir_entry, Parte1.Inodes.add_dir_entry, same.same_type, v, same.same_block,
                place, b,
              )
              (refl, same.same_bytes)
        | inr (p, b) ↦ elim (Option-cases (first_empty max_dir_entries 0 s.fs_data p)) [
          | inl e ↦
              rw
                (
                  add_dir_entry, Parte1.Inodes.add_dir_entry, same.same_type, v, same.same_block,
                  place, b, same.same_bytes, e,
                )
                (refl, same.same_bytes)
          | inr (i, e) ↦
              rw
                (
                  add_dir_entry, Parte1.Inodes.add_dir_entry, same.same_type, v, same.same_block,
                  place, b, same.same_bytes, e,
                )
                (
                  refl,
                  ap (λ m. fill_entry m p i sub_inumber name) same.same_bytes
                      ∙ sym (put_dir_entry-fill_entry s.fs_data p i sub_inumber name),
                )
        ]
      ]
    ]

-- Let a file system of each version have an i-node of the same number, of the same kind and with
-- the same first block, on the same bytes. Then find_in_dir finds the same for any name in both
-- versions, and add_dir_entry returns the same and leaves the same bytes, though the two versions
-- fill an entry in different orders.
pub add_dir_entry-same :
    (s : State) (t : Parte1.State.State) (inumber sub_inumber : ℤ) (name : List ℕ)
    → SameDirectory s t inumber
    → let out = add_dir_entry s inumber sub_inumber name in
      let other = Parte1.Inodes.add_dir_entry t inumber sub_inumber name in
      (Parte1.Inodes.find_in_dir t inumber name ≡ find_in_dir s inumber name)
      × (other.1 ≡ out.1)
      × (other.0.fs_data ≡ out.0.fs_data)
add_dir_entry-same s t inumber sub_inumber name same =
    let (result, bytes) = added_same s t inumber sub_inumber name same in
    (find_in_dir-same s t inumber name same, result, bytes)
