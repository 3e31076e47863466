-- ===== src/Parte1/OpenFiles.antt =====
-- The open file table of Parte1/tecnicofs-v2/fs/state.c.
use so_file_system.Common.{
  ℕ, ℤ, pos, minus_one, in_range, index, Option, none, some, Bool, if◌then◌else◌, update,
}
use so_file_system.Config.{max_open_files}
use so_file_system.Table.{free, taken, is_free, first_free}
use so_file_system.Parte1.State.{State, put_entry}

abbrev pub valid_file_handle : ℤ → Bool
valid_file_handle h = in_range h max_open_files

unfoldable pub add_to_open_file_table : State → ℤ → ℕ → Bool → State × ℤ
add_to_open_file_table s inumber offset is_appending =
    elim (first_free max_open_files 0 s.free_open_file_entries) [
      | none ↦ (s, minus_one)
      | some i ↦ (
        put_entry (record s { free_open_file_entries = update s.free_open_file_entries i taken }) i
            (record { of_inumber = inumber; of_offset = offset; is_appending = is_appending }),
        pos i,
      )
    ]

unfoldable pub remove_from_open_file_table : State → ℤ → State × ℤ
remove_from_open_file_table s fhandle =
    if valid_file_handle fhandle
    then (if is_free (s.free_open_file_entries (index fhandle)) then (s, minus_one) else (
      record s { free_open_file_entries = update s.free_open_file_entries (index fhandle) free },
      pos 0,
    ))
    else (s, minus_one)

-- The index of the entry, `none` for NULL.
unfoldable pub get_open_file_entry : State → ℤ → Option ℕ
get_open_file_entry s fhandle =
    if valid_file_handle fhandle
    then (if is_free (s.free_open_file_entries (index fhandle)) then none else some (index fhandle))
    else none
