-- ===== src/Parte1/External/Copied.antt =====
-- What tfs_copy_to_external_fs of Parte1/tecnicofs-v2/fs/operations.c writes.
use so_file_system.Parte1.External.Text.{short_text, overrun_text}
use so_file_system.Common.{
  ℕ, suc, ◌+◌, ◌-◌, ◌*◌, ◌<◌, ◌≤◌, ◌≡◌, refl, ap, ◌∙◌, pos, minus_one, is_minus_one, min, some,
  true, false, arith, lt→ltb, ltb, ◌==◌, ==_iff, dec_lt, subst, List, [], if◌then◌else◌,
  length-slice, update, update-update, fun_ext,
}
use so_file_system.Config.{buffer_size, block_size, max_open_files, inode_table_size, tfs_o_creat}
use so_file_system.Memory.{Bytes}
use so_file_system.Directory.Names.{IsText}
use so_file_system.Table.{Table, free, taken, is_free, first_free}
use so_file_system.Table.Laws.{first_free-Found}
use so_file_system.Parte1.State.{State, put_entry}
use so_file_system.Parte1.OpenFiles.{
  add_to_open_file_table, remove_from_open_file_table, get_open_file_entry,
}
use so_file_system.Parte1.Inodes.{inode_get}
use so_file_system.Parte1.Operations.{
  valid_pathname, tfs_lookup, tfs_open, tfs_close, open_path, open_found, open_existing_file,
  truncate,
}
use so_file_system.Parte1.Ownership.{InUse, IsWf, byte_at}
use so_file_system.Parte1.Transfer.{tfs_read}
use so_file_system.Parte1.Transfer.Read.{after_read, bytes_from, tfs_read_lem}
use so_file_system.Parte1.External.{
  returned, overrun, read_into, copy_loop, tfs_copy_to_external_fs,
}

-- The state once `h` is open on i-node `ino`, at offset `o`.
abbrev pub opened_at : State → ℕ → ℕ → ℕ → State
opened_at s h ino o =
    put_entry (record s { free_open_file_entries = update s.free_open_file_entries h taken }) h
      (record { of_inumber = pos ino; of_offset = o; is_appending = false })

restored : (t : Table) (h : ℕ) → t h ≡ free → update (update t h taken) h free ≡ t
restored t h e = fun_ext λ j. ground arith

module _ (s : State) (name : List ℕ) (h ino : ℕ) (wf : IsWf s) (valid : valid_pathname name ≡ true)
    (names : tfs_lookup s name ≡ pos ino) (live : InUse s ino)
    (room : first_free max_open_files 0 s.free_open_file_entries ≡ some h)
    (sized : (s.inode_table ino).i_size ≤ (s.inode_table ino).blocks_alloc * block_size)
    (buffer : Bytes) where
  abbrev size : ℕ
  size = (s.inode_table ino).i_size

  existing :
      open_existing_file s tfs_o_creat (pos ino)
      ≡ record { state = s; result = pos 0; appending = false; offset = 0 }
  unfolding open_existing_file truncate inode_get
  existing =
      let small : ltb ino inode_table_size ≡ true = lt→ltb ino inode_table_size live.0 in
      rw (open_existing_file, inode_get, small, truncate) refl

  added : add_to_open_file_table s (pos ino) 0 false ≡ (opened_at s h ino 0, pos h)
  unfolding add_to_open_file_table
  added = rw (add_to_open_file_table, room) refl

  found : open_found s tfs_o_creat (pos ino) ≡ (opened_at s h ino 0, pos h)
  unfolding open_found
  found =
      ap
        (λ o.
          if is_minus_one o.result
          then (o.state, minus_one)
          else add_to_open_file_table o.state (pos ino) o.offset o.appending)
        existing
      ∙ added

  opens : tfs_open s (some name) tfs_o_creat ≡ (opened_at s h ino 0, pos h)
  unfolding tfs_open open_path
  opens = rw (tfs_open, valid, open_path, names) found

  opened-IsWf : (o : ℕ) → IsWf (opened_at s h ino o)
  opened-IsWf o = record { exclusive = wf.exclusive; bounded = wf.bounded; filled = wf.filled }

  handle : (o : ℕ) → get_open_file_entry (opened_at s h ino o) (pos h) ≡ some h
  unfolding get_open_file_entry
  handle o =
      let found = first_free-Found max_open_files s.free_open_file_entries h room in
      let small : ltb h max_open_files ≡ true = lt→ltb h max_open_files found.within in
      rw small (ground arith)

  self : (h == h) ≡ true
  self = (==_iff h h).1 refl

  entry :
      (o : ℕ)
      → (opened_at s h ino o).open_file_table h
        ≡ record { of_inumber = pos ino; of_offset = o; is_appending = false }
  entry o = rw self refl

  advance : (o next : ℕ) → after_read (opened_at s h ino o) h next ≡ opened_at s h ino next
  advance o next =
      ap (λ e. put_entry (opened_at s h ino o) h (record e { of_offset = next })) (entry o)
      ∙ ap (λ t. record (opened_at s h ino o) { open_file_table = t })
          (update-update s.open_file_table h _ _)

  reads :
      (o : ℕ)
      → o ≤ size
      → let n = min buffer_size (size - o) in
        tfs_read (opened_at s h ino o) (pos h) buffer_size
        ≡ some (opened_at s h ino (o + n), pos n, bytes_from s ino o n)
  reads o le =
      let t = opened_at s h ino o in
      let at : (t.open_file_table h).of_offset ≡ o = ap (λ e. e.of_offset) (entry o) in
      let read =
        tfs_read_lem t (pos h) buffer_size h ino (opened-IsWf o) (handle o)
          (ap (λ e. e.of_inumber) (entry o)) (ap (λ e. e.is_appending) (entry o)) live
          (omega (arith, at)) sized in
      let n = min buffer_size (size - o) in
      subst
        (λ start.
          let n = min buffer_size (size - start) in
          tfs_read t (pos h) buffer_size
          ≡ some (after_read t h (start + n), pos n, bytes_from s ino start n))
        at read
      ∙ ap (λ t. some (t, pos n, bytes_from s ino o n)) (advance o (o + n))

  reads_to :
      (o n next : ℕ)
      → o ≤ size
      → min buffer_size (size - o) ≡ n
      → o + n ≡ next
      → tfs_read (opened_at s h ino o) (pos h) buffer_size
        ≡ some (opened_at s h ino next, pos n, bytes_from s ino o n)
  reads_to o n next le e f =
      reads o le
      ∙ ap (λ k. some (opened_at s h ino (o + k), pos k, bytes_from s ino o k)) e
      ∙ ap (λ q. some (opened_at s h ino q, pos n, bytes_from s ino o n)) f

  -- The handle is closed again, and stands behind the file.
  abbrev pub copied : State
  copied = put_entry s h (record { of_inumber = pos ino; of_offset = size; is_appending = false })

  closes : (tfs_close (opened_at s h ino size) (pos h)).0 ≡ copied
  unfolding tfs_close remove_from_open_file_table
  closes =
      let found = first_free-Found max_open_files s.free_open_file_entries h room in
      let small : ltb h max_open_files ≡ true = lt→ltb h max_open_files found.within in
      let taken_now : is_free ((opened_at s h ino size).free_open_file_entries h) ≡ false =
        rw self refl in
      rw (tfs_close, remove_from_open_file_table, small, taken_now)
        (ap (λ t. record copied { free_open_file_entries = t })
          (restored s.free_open_file_entries h found.was_free))

  -- Without a byte that is left to read, the loop ends.
  ends :
      (fuel : ℕ) (m : Bytes) (written : List ℕ)
      → copy_loop (suc fuel) (opened_at s h ino size) (pos h) m written
        ≡ returned copied (pos 0) written
  unfolding copy_loop
  ends fuel m written =
      rw (copy_loop, reads_to size 0 size (omega arith) (omega arith) (omega arith), closes) refl

  copies_loop :
      (fuel : ℕ)
      → size < buffer_size
      → IsText (bytes_from s ino 0 size)
      → copy_loop (suc (suc fuel)) (opened_at s h ino 0) (pos h) buffer []
        ≡ returned copied (pos 0) (bytes_from s ino 0 size)
  unfolding copy_loop
  copies_loop fuel lt text = elim (dec_lt 0 size) [
    | no none_left ↦
        let e : 0 ≡ size = omega (arith, none_left) in
        ap (λ o. copy_loop (suc (suc fuel)) (opened_at s h ino o) (pos h) buffer []) e
        ∙ ends (suc fuel) buffer []
        ∙ ap (λ n. returned copied (pos 0) (bytes_from s ino 0 n)) e
    | yes some_left ↦
        let bytes = bytes_from s ino 0 size in
        let held = short_text buffer bytes size (length-slice (byte_at s ino) 0 size) lt text in
        let step = reads_to 0 size size (omega arith) (omega arith) (omega arith) in
        rw (copy_loop, step, lt→ltb 0 size some_left, held)
          (ends fuel (read_into buffer (pos size) bytes) bytes)
  ]

  -- In a well-formed file system of Parte1 let a valid path lead to a file in use of less than
  -- 256 bytes, none of them 0, its size within its blocks, let a handle be free, and let fopen
  -- succeed. Then tfs_copy_to_external_fs returns 0 within two rounds of its loop, has written
  -- just the bytes of the file, has closed its handle again, and has changed nothing but that
  -- handle's entry.
  pub tfs_copy_to_external_fs-copied :
      (fuel : ℕ)
      → size < buffer_size
      → IsText (bytes_from s ino 0 size)
      → tfs_copy_to_external_fs (suc (suc fuel)) s (some name) true buffer
        ≡ returned copied (pos 0) (bytes_from s ino 0 size)
  unfolding tfs_copy_to_external_fs
  tfs_copy_to_external_fs-copied fuel lt text =
      rw (tfs_copy_to_external_fs, valid, names, opens) (copies_loop fuel lt text)

  -- In a well-formed file system of Parte1 let a valid path lead to a file in use of at least 256
  -- bytes, the first 256 not 0, its size within its blocks, let a handle be free, and let fopen
  -- succeed. Then tfs_copy_to_external_fs reads behind its buffer.
  pub tfs_copy_to_external_fs-overrun :
      (fuel : ℕ)
      → buffer_size ≤ size
      → IsText (bytes_from s ino 0 buffer_size)
      → tfs_copy_to_external_fs (suc fuel) s (some name) true buffer ≡ overrun
  unfolding tfs_copy_to_external_fs copy_loop
  tfs_copy_to_external_fs-overrun fuel le text =
      rw
        (
          tfs_copy_to_external_fs,
          valid,
          names,
          opens,
          copy_loop,
          reads_to 0 buffer_size buffer_size (omega arith) (omega arith) (omega arith),
          overrun_text buffer (bytes_from s ino 0 buffer_size)
              (length-slice (byte_at s ino) 0 buffer_size) text,
        )
        refl
