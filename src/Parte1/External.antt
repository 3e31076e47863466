-- ===== src/Parte1/External.antt =====
-- tfs_copy_to_external_fs of Parte1/tecnicofs-v2/fs/operations.c. Whether fopen succeeds is a
-- parameter, and so is the buffer, which malloc does not initialise.
pub mod Text
pub mod Copied
use so_file_system.Common.{
  ℕ, zero, suc, ◌+◌, ℤ, pos, minus_one, is_minus_one, is_nonneg, index, Option, none, some, Bool,
  true, false, not, ◌&&◌, ltb, List, [], ◌∷◌, ◌++◌, if◌then◌else◌, length,
}
use so_file_system.Config.{buffer_size, tfs_o_creat}
use so_file_system.Memory.{Bytes, memcpy, store_byte}
use so_file_system.Memory.Wide.{c_string}
use so_file_system.Parte1.State.{State}
use so_file_system.Parte1.Operations.{valid_pathname, tfs_lookup, tfs_open, tfs_close}
use so_file_system.Parte1.Transfer.{tfs_read}

-- The call returns, with what it has written to the destination; it reads behind its buffer; or it
-- runs out of fuel.
pub data CopyEnd : Type 0 where
  returned : State → ℤ → List ℕ → CopyEnd
  overrun : CopyEnd
  hang : CopyEnd

-- The buffer after `tfs_read`, with the zero that is put behind a short read.
abbrev pub read_into : Bytes → ℤ → List ℕ → Bytes
read_into buffer r bytes =
    let filled = memcpy buffer 0 bytes 0 (length bytes) in
    if ltb (index r) buffer_size then store_byte filled (index r) 0 else filled

-- The while loop and what follows it. `fputs` writes the text that the buffer begins with.
unfoldable pub copy_loop : ℕ → State → ℤ → Bytes → List ℕ → CopyEnd
copy_loop zero s fhandle buffer written = CopyEnd.hang
copy_loop (suc fuel) s fhandle buffer written = elim (tfs_read s fhandle buffer_size) [
  | none ↦ CopyEnd.hang
  | some (s1, r, bytes) ↦
      let next : CopyEnd = elim (c_string buffer_size (read_into buffer r bytes) 0) [
        | none ↦ overrun
        | some text ↦ copy_loop fuel s1 fhandle (read_into buffer r bytes) (written ++ text)
      ] in
      if is_nonneg r
      then (if ltb 0 (index r) then next else returned (tfs_close s1 fhandle).0 (pos 0) written)
      else returned s1 minus_one written
]

unfoldable pub tfs_copy_to_external_fs : ℕ → State → Option (List ℕ) → Bool → Bytes → CopyEnd
tfs_copy_to_external_fs fuel s none opened buffer = returned s minus_one []
tfs_copy_to_external_fs fuel s (some source) opened buffer =
    let (s1, fhandle) = tfs_open s (some source) tfs_o_creat in
    if valid_pathname source && not (is_minus_one (tfs_lookup s source))
    then (if is_nonneg fhandle
        then (if opened
            then copy_loop fuel s1 fhandle buffer []
            else returned (tfs_close s1 fhandle).0 minus_one [])
        else returned s1 minus_one [])
    else returned s minus_one []
