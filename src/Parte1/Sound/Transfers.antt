-- ===== src/Parte1/Sound/Transfers.antt =====
-- Writes, reads and closes of Parte1/tecnicofs-v2 return, and keep the file system sound.
use so_file_system.Common.{
  ℕ, ◌^◌, ◌<◌, ◌≤◌, ◌≡◌, ◌≢◌, sym, subst, ◌∙◌, inl, inr, ℤ, pos, negsuc, minus_one, List, [],
  Option-cases, some, arith, ℕ_discrete, true, Bool-cases, update,
}
use so_file_system.Config.{max_file_size, inode_table_size}
use so_file_system.Table.{free}
use so_file_system.Table.Laws.{is_free-taken}
use so_file_system.Parte1.State.{State}
use so_file_system.Parte1.OpenFiles.{get_open_file_entry}
use so_file_system.Parte1.Inodes.{inode_get}
use so_file_system.Parte1.Operations.{tfs_close}
use so_file_system.Parte1.Ownership.{IsWf}
use so_file_system.Parte1.Transfer.{tfs_write, tfs_read}
use so_file_system.Parte1.Transfer.Write.{Wrote}
use so_file_system.Parte1.Transfer.Read.{after_read, tfs_read_lem}
use so_file_system.Parte1.Transfer.Closed.{none-Refused, open_number, tfs_close-Refused}
use so_file_system.Parte1.Transfer.TfsWrite.{
  open_write, write_position, write_count, tfs_write-Wrote,
}
use so_file_system.Parte1.Sound.Untouched.{Leaves, LeavesResult, write_locked-Leaves}
use so_file_system.Parte1.Sound.Defs.{IsFile, HandleOn, Sound, table-Sound}
use so_file_system.Parte1.Sound.Writes.{wrote-Sound}

-- A handle that is open is on a file.
open_handle :
    (s : State) (b : ℕ) (fhandle : ℤ) (h : ℕ)
    → Sound s b
    → get_open_file_entry s fhandle ≡ some h
    → (i : ℕ) × HandleOn s h i
unfolding get_open_file_entry
open_handle s b (negsuc k) h sound e = absurd cc
open_handle s b (pos k) h sound e =
    let (lt, open_now, same) = open_number s k h e in
    subst (λ g. (i : ℕ) × HandleOn s g i) same
      (sound.opened k lt (is_free-taken (s.free_open_file_entries k) open_now))

file_small : (s : State) (i : ℕ) → IsWf s → IsFile s i → (s.inode_table i).i_size ≤ max_file_size
file_small s i wf f = omega (arith, f.sized, wf.bounded i f.live)

appending_read :
    (s : State) (fhandle : ℤ) (len h ino : ℕ)
    → get_open_file_entry s fhandle ≡ some h
    → (s.open_file_table h).of_inumber ≡ pos ino
    → ino < inode_table_size
    → (s.open_file_table h).is_appending ≡ true
    → tfs_read s fhandle len ≡ some (s, pos 0, [])
unfolding tfs_read inode_get
appending_read s fhandle len h ino g n lt a = rw (g, tfs_read, n) (ground arith)

module _ (s : State) (b : ℕ) (fhandle : ℤ) (sound : Sound s b) where
  write-Sound :
      (buf : List ℕ) (n h ino : ℕ)
      → n < 2 ^ 63
      → get_open_file_entry s fhandle ≡ some h
      → HandleOn s h ino
      → (s1 : State) × (r : ℤ) × (tfs_write s fhandle buf n ≡ some (s1, r)) × Sound s1 b
  write-Sound buf n h ino small e on = (
    w.after,
    pos w.written,
    w.returns,
    wrote-Sound s b h ino start (write_count n start) buf (tfs_write s fhandle buf n) sound on
        inside w leaves,
  )
    where
      start : ℕ
      start = write_position s h ino

      inside : write_position s h ino ≤ (s.inode_table ino).i_size
      inside = ground (arith, on.inside)

      w : Wrote s h ino start (write_count n start) buf (tfs_write s fhandle buf n)
      w =
          tfs_write-Wrote s fhandle buf n h ino sound.wf e on.number on.on_file.live inside
            (file_small s ino sound.wf on.on_file) small

      leaves : (i g : ℕ) → i ≢ ino → Leaves i g s w.after
      leaves i g ne =
          subst (LeavesResult i g ino ne s)
            (sym (open_write s fhandle buf n h ino e on.number on.on_file.live.0) ∙ w.returns)
            (write_locked-Leaves i g ino ne s h buf n)

  pub tfs_write-Sound :
      (buf : List ℕ) (n : ℕ)
      → n < 2 ^ 63
      → (s1 : State) × (r : ℤ) × (tfs_write s fhandle buf n ≡ some (s1, r)) × Sound s1 b
  tfs_write-Sound buf n small = elim (Option-cases (get_open_file_entry s fhandle)) [
    | inl e ↦ (s, minus_one, (none-Refused s fhandle e).write buf n, sound)
    | inr (h, e) ↦
        let (ino, on) = open_handle s b fhandle h sound e in write-Sound buf n h ino small e on
  ]

  -- The offset of a handle moves within its file.
  moved-Sound :
      (h ino offset : ℕ)
      → HandleOn s h ino
      → offset ≤ (s.inode_table ino).i_size
      → Sound (after_read s h offset) b
  moved-Sound h ino offset on le =
      table-Sound s b sound (after_read s h offset).open_file_table s.free_open_file_entries
        λ g lt e. elim (ℕ_discrete g h) [
          | yes q ↦ (ino, ground (arith, q, on.number), on.on_file, ground (arith, q, le))
          | no q ↦
              let (i, other) = sound.opened g lt e in
              (i, ground (arith, q, other.number), other.on_file, ground (arith, q, other.inside))
        ]

  read-Sound :
      (len h ino : ℕ)
      → get_open_file_entry s fhandle ≡ some h
      → HandleOn s h ino
      → (s1 : State) × (r : ℤ) × (out : List ℕ) × (tfs_read s fhandle len ≡ some (s1, r, out))
        × Sound s1 b
  read-Sound len h ino e on = elim (Bool-cases (s.open_file_table h).is_appending) [
    | inl appending ↦ (
      s,
      pos 0,
      [],
      appending_read s fhandle len h ino e on.number on.on_file.live.0 appending,
      sound,
    )
    | inr reading ↦ (
      _,
      _,
      _,
      tfs_read_lem s fhandle len h ino sound.wf e on.number reading on.on_file.live on.inside
          on.on_file.sized,
      moved-Sound h ino _ on (omega arith),
    )
  ]

  pub tfs_read-Sound :
      (len : ℕ)
      → (s1 : State) × (r : ℤ) × (out : List ℕ) × (tfs_read s fhandle len ≡ some (s1, r, out))
        × Sound s1 b
  tfs_read-Sound len = elim (Option-cases (get_open_file_entry s fhandle)) [
    | inl e ↦ (s, minus_one, [], (none-Refused s fhandle e).read len, sound)
    | inr (h, e) ↦ let (ino, on) = open_handle s b fhandle h sound e in read-Sound len h ino e on
  ]

  pub tfs_close-Sound : Sound (tfs_close s fhandle).0 b
  tfs_close-Sound = elim (Option-cases (get_open_file_entry s fhandle)) [
    | inl e ↦ rw (none-Refused s fhandle e).close sound
    | inr (h, e) ↦ rw (tfs_close-Refused s fhandle h e).0 (
        table-Sound s b sound s.open_file_table (update s.free_open_file_entries h free)
          λ g lt open_now.
            let (i, on) = sound.opened g lt (ground (arith, open_now)) in
            (i, on.number, on.on_file, on.inside))
  ]
