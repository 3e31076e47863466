-- ===== src/Directory.antt =====
-- The block of a directory, an array of `dir_entry_t` in raw memory: the loops of add_dir_entry,
-- find_in_dir, test1 and inode_create in Parte1/tecnicofs-v2/fs/state.c. Those of
-- Parte2/tecnicofs_ex2/fs/state.c are the same but for the order of two assignments.
pub mod Names
pub mod Entries
pub mod Search
pub mod Init
use so_file_system.Common.{
  ℕ, zero, suc, ◌+◌, ◌-◌, ◌*◌, ℤ, minus_one, is_minus_one, List, Option, none, some, Bool, true,
  false, not, ◌&&◌, if◌then◌else◌,
}
use so_file_system.Config.{max_file_name, dir_entry_size, max_dir_entries}
use so_file_system.Memory.{Bytes, load_int, store_int, strncpy, store_byte, strncmp_eq}

-- The addresses of `dir_entry[i].d_name` and `dir_entry[i].d_inumber` in the block at `p`.
abbrev pub name_at : ℕ → ℕ → ℕ
name_at p i = p + i * dir_entry_size

abbrev pub inumber_at : ℕ → ℕ → ℕ
inumber_at p i = p + i * dir_entry_size + max_file_name

-- `for (…; rounds are left; i++) dir_entry[i].d_inumber = -1;`
unfoldable pub init_entries : ℕ → ℕ → Bytes → ℕ → Bytes
init_entries zero i m p = m
init_entries (suc k) i m p = init_entries k (suc i) (store_int m (inumber_at p i) minus_one) p

-- The first entry with `d_inumber == -1`.
unfoldable pub first_empty : ℕ → ℕ → Bytes → ℕ → Option ℕ
first_empty zero i m p = none
first_empty (suc k) i m p =
    let rest = first_empty k (suc i) m p in
    if is_minus_one (load_int m (inumber_at p i)) then some i else rest

-- The three assignments that fill entry `i`.
unfoldable pub fill_entry : Bytes → ℕ → ℕ → ℤ → List ℕ → Bytes
fill_entry m p i sub_inumber sub_name =
    store_byte
      (store_int (strncpy m (name_at p i) sub_name (max_file_name - 1)) (inumber_at p i)
        sub_inumber)
      (name_at p i + (max_file_name - 1)) 0

-- `dir_entry[i].d_inumber != -1 && strncmp(dir_entry[i].d_name, name, MAX_FILE_NAME) == 0`
abbrev pub entry_is : Bytes → ℕ → ℕ → List ℕ → Bool
entry_is m p i name =
    not (is_minus_one (load_int m (inumber_at p i)))
    && strncmp_eq max_file_name m (name_at p i) name

-- The `d_inumber` of the first entry of that name, or -1.
unfoldable pub find_entry : ℕ → ℕ → Bytes → ℕ → List ℕ → ℤ
find_entry zero i m p name = minus_one
find_entry (suc k) i m p name =
    let rest = find_entry k (suc i) m p name in
    if entry_is m p i name then load_int m (inumber_at p i) else rest

-- How many entries have that name.
unfoldable pub count_entries : ℕ → ℕ → Bytes → ℕ → List ℕ → ℕ
count_entries zero i m p name = 0
count_entries (suc k) i m p name =
    (if entry_is m p i name then 1 else 0) + count_entries k (suc i) m p name
