-- ===== src/Parte2/Operations.antt =====
-- Parte2/tecnicofs_ex2/fs/operations.c without its transfers. A call runs from where it has found
-- single_global_lock free; `none` as its result means that it waits for ever, for the lock is held.
use so_file_system.Common.{
  ℕ, zero, suc, ℤ, pos, negsuc, minus_one, is_minus_one, is_nonneg, has_flag, List, [], Option,
  none, some, Bool, true, false, ltb, ◌==◌, ◌&&◌, if◌then◌else◌, length,
}
use so_file_system.Config.{root_dir_inum, tfs_o_creat, tfs_o_trunc, tfs_o_append}
use so_file_system.Parte1.Operations.{slash, first_char, skip}
use so_file_system.Parte2.State.{State, file, directory, put_inode}
use so_file_system.Parte2.Tables.{
  state_init, state_destroy, data_block_free, inode_create, inode_delete, inode_get, add_dir_entry,
  find_in_dir, add_to_open_file_table, remove_from_open_file_table,
}

-- `n++` and `n * (-1)` on an int; the counter of open files stays within 21 of 0.
abbrev pub increment : ℤ → ℤ
increment (pos n) = pos (suc n)
increment (negsuc zero) = pos 0
increment (negsuc (suc n)) = negsuc n

abbrev pub decrement : ℤ → ℤ
decrement (pos zero) = minus_one
decrement (pos (suc n)) = pos n
decrement (negsuc n) = negsuc (suc n)

abbrev pub negate : ℤ → ℤ
negate (pos zero) = pos 0
negate (pos (suc n)) = negsuc n
negate (negsuc n) = pos (suc n)

abbrev pub is_positive : ℤ → Bool
is_positive (pos n) = ltb 0 n
is_positive (negsuc n) = false

-- The body of a function between pthread_mutex_lock and pthread_mutex_unlock, both successful.
unfoldable pub synchronized {ℓ} : {A : Type ℓ} → (State → State × A) → State → Option (State × A)
synchronized body s =
    let (s1, r) = body (record s { locked = true }) in
    if s.locked then none else some (record s1 { locked = false }, r)

unfoldable pub tfs_init : State → State × ℤ
tfs_init s =
    let (s1, root) =
      inode_create (record (state_init s) { open_files = pos 0; locked = false }) directory in
    elim root [ pos zero ↦ (s1, pos 0) | _ ↦ (s1, minus_one) ]

unfoldable pub tfs_destroy : State → State × ℤ
tfs_destroy s = (state_destroy s, pos 0)

abbrev pub valid_pathname : List ℕ → Bool
valid_pathname name = ltb 1 (length name) && first_char name == slash

unfoldable pub lookup_unsynchronized : State → Option (List ℕ) → ℤ
lookup_unsynchronized s none = minus_one
lookup_unsynchronized s (some name) =
    if valid_pathname name then find_in_dir s (pos root_dir_inum) (skip name) else minus_one

unfoldable pub tfs_lookup : State → Option (List ℕ) → Option (State × ℤ)
tfs_lookup s name = synchronized (λ s. (s, lookup_unsynchronized s name)) s

-- `if (flags & TFS_O_TRUNC) …`
unfoldable pub truncate : State → ℕ → ℕ → State × ℤ
truncate s flags i =
    let inode = s.inode_table i in
    let (s1, r) = data_block_free s inode.i_data_block in
    if has_flag flags tfs_o_trunc && ltb 0 inode.i_size
    then (if is_minus_one r
        then (s1, minus_one)
        else (put_inode s1 i (record inode { i_size = 0 }), pos 0))
    else (s, pos 0)

-- The branch for a file that exists, with the last step.
unfoldable pub open_existing : State → ℕ → ℤ → State × ℤ
open_existing s flags inum = elim (inode_get inum) [
  | none ↦ (s, minus_one)
  | some i ↦
      let (s1, r) = truncate s flags i in
      let offset = if has_flag flags tfs_o_append then (s1.inode_table i).i_size else 0 in
      if is_minus_one r then (s1, minus_one) else add_to_open_file_table s1 inum offset
]

-- The branch for TFS_O_CREAT, with the last step.
unfoldable pub open_new : State → List ℕ → State × ℤ
open_new s sub_name =
    let (s1, inum) = inode_create s file in
    let (s2, added) = add_dir_entry s1 (pos root_dir_inum) inum sub_name in
    if is_minus_one inum
    then (s1, minus_one)
    else if is_minus_one added
    then ((inode_delete s2 inum).0, minus_one)
    else add_to_open_file_table s2 inum 0

-- A name that is not a valid path must not be opened with TFS_O_CREAT where it is NULL: `name + 1`
-- is then no text, and the model takes the empty one.
unfoldable pub open_unsynchronized : State → Option (List ℕ) → ℕ → State × ℤ
open_unsynchronized s name flags =
    let inum = lookup_unsynchronized s name in
    let sub_name : List ℕ = elim name [ none ↦ [] | some text ↦ skip text ] in
    if is_nonneg inum
    then open_existing s flags inum
    else if has_flag flags tfs_o_creat
    then open_new s sub_name
    else (s, minus_one)

-- Once tfs_destroy_after_all_closed has begun, the call returns without unlocking.
unfoldable pub tfs_open : State → Option (List ℕ) → ℕ → Option (State × ℤ)
tfs_open s name flags =
    let held = record s { locked = true } in
    let (s1, r) = open_unsynchronized held name flags in
    let s2 = if is_minus_one r then s1 else record s1 { open_files = increment s1.open_files } in
    if s.locked
    then none
    else if is_nonneg s.open_files
    then some (record s2 { locked = false }, r)
    else some (held, minus_one)

-- What `tfs_close` does under the lock; the last part of the result is whether it signals condVar.
unfoldable pub close_counted : State → ℤ → State × (ℤ × Bool)
close_counted s fhandle =
    let (s1, r) = remove_from_open_file_table s fhandle in
    let n =
      if is_positive s1.open_files then decrement s1.open_files else increment s1.open_files in
    if is_minus_one r then (s1, (r, false)) else (record s1 { open_files = n }, (r, is_minus_one n))

unfoldable pub tfs_close : State → ℤ → Option (State × (ℤ × Bool))
tfs_close s fhandle = synchronized {A = ℤ × Bool} (λ s. close_counted s fhandle) s

-- `tfs_destroy_after_all_closed` up to its wait: whether it has to wait for condVar, which frees the
-- lock, or goes on with the lock held.
unfoldable pub destroy_begin : State → Option (State × Bool)
destroy_begin s =
    let n = negate (increment s.open_files) in
    if s.locked
    then none
    else if is_minus_one n
    then some (record s { open_files = n; locked = true }, false)
    else some (record s { open_files = n }, true)

-- The rest of it, with the lock held.
unfoldable pub destroy_end : State → State × ℤ
destroy_end s = (record (tfs_destroy s).0 { locked = false }, pos 0)
