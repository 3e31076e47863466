-- ===== src/Parte1/Transfer/TfsWrite.antt =====
-- `tfs_write` as a whole, for an open handle of a file in use.
use so_file_system.Common.{
  ℕ, suc, ◌+◌, ◌-◌, ◌^◌, ◌<◌, ◌≤◌, ◌≡◌, refl, subst, ◌∙◌, inl, inr, ℤ, pos, true, false, Option,
  some, arith, if◌then◌else◌, ltb, Bool-cases, sub_size, List, min, zero, lt→ltb,
}
use so_file_system.Config.{max_file_size, inode_table_size}
use so_file_system.Parte1.State.{State, OpenFileEntry, put_entry}
use so_file_system.Parte1.OpenFiles.{get_open_file_entry}
use so_file_system.Parte1.Inodes.{inode_get}
use so_file_system.Parte1.Ownership.{InUse, IsWf}
use so_file_system.Parte1.Transfer.Write.{Wrote, write_blocks-Wrote}
use so_file_system.Parte1.Transfer.{write_blocks, write_locked, seek_end, clamp_size, tfs_write}

-- Where a write through the handle begins, and how many bytes the largest file leaves room for.
abbrev pub write_position : State → ℕ → ℕ → ℕ
write_position s h ino =
    if (s.open_file_table h).is_appending
    then (s.inode_table ino).i_size
    else (s.open_file_table h).of_offset

abbrev pub write_count : ℕ → ℕ → ℕ
write_count to_write start = min to_write (max_file_size - start)

clamp_lem :
    (to_write start : ℕ)
    → start ≤ max_file_size
    → to_write < 2 ^ 63
    → clamp_size to_write start ≡ start + write_count to_write start
unfolding clamp_size
clamp_lem to_write start le lt = ground arith

-- Only the entry of the handle differs.
seek-IsWf : (s : State) (h : ℕ) (e : OpenFileEntry) → IsWf s → IsWf (put_entry s h e)
seek-IsWf s h e wf = record { exclusive = wf.exclusive; bounded = wf.bounded; filled = wf.filled }

seek-Wrote :
    (s : State) (h ino start count : ℕ) (buf : List ℕ) (e : OpenFileEntry)
    (out : Option (State × ℤ))
    → Wrote (put_entry s h e) h ino start count buf out
    → Wrote s h ino start count buf out
seek-Wrote s h ino start count buf e out w = record {
  after = w.after;
  written = w.written;
  returns = w.returns;
  within = w.within;
  complete = w.complete;
  wf = w.wf;
  inside = w.inside;
  outside = w.outside;
  offset = w.offset;
  size = w.size;
  other_sizes = w.other_sizes;
  other_entries = λ g ne. w.other_entries g ne ∙ ground arith;
  same_use = w.same_use;
  same_handles = w.same_handles;
  longer = w.longer;
  room = w.room;
}

-- What is written from a state whose handle stands at `start`.
abbrev from_there : State → ℕ → ℕ → List ℕ → ℕ → ℕ → Option (State × ℤ)
from_there s h ino buf start count =
    if ltb 0 count then write_blocks s h ino buf (start + count) count else some (s, pos 0)

from_there-Wrote :
    (s : State) (h ino : ℕ) (buf : List ℕ) (start count : ℕ)
    → IsWf s
    → InUse s ino
    → (s.open_file_table h).of_offset ≡ start
    → start + count ≤ max_file_size
    → start ≤ (s.inode_table ino).i_size
    → Wrote s h ino start count buf (from_there s h ino buf start count)
from_there-Wrote s h ino buf start zero wf live e fits le = record {
  after = s;
  written = 0;
  returns = refl;
  within = omega arith;
  complete = inl refl;
  wf = wf;
  inside = λ j h. absurd (omega arith);
  outside = λ i q _ _ _. refl;
  offset = omega arith;
  size = ground arith;
  other_sizes = λ i _. refl;
  other_entries = λ g _. refl;
  same_use = refl;
  same_handles = refl;
  longer = λ i. omega arith;
  room = inr refl;
}
from_there-Wrote s h ino buf start (suc count) wf live e fits le =
    rw (lt→ltb 0 (suc count) (omega arith))
      (write_blocks-Wrote s h ino buf start (suc count) wf live e fits)

write_locked_eq :
    (s s1 : State) (h ino : ℕ) (buf : List ℕ) (to_write start : ℕ)
    → seek_end s h ino ≡ s1
    → (s1.open_file_table h).of_offset ≡ start
    → start ≤ max_file_size
    → to_write < 2 ^ 63
    → write_locked s h ino buf to_write ≡ from_there s1 h ino buf start (write_count to_write start)
unfolding write_locked
write_locked_eq s s1 h ino buf to_write start seek at le lt =
    let size = clamp_lem to_write start le lt in
    let count : sub_size (start + write_count to_write start) start ≡ write_count to_write start =
      omega arith in
    rw (seek, at, size, count) refl

seek_end_stays :
    (s : State) (h ino : ℕ) → (s.open_file_table h).is_appending ≡ false → seek_end s h ino ≡ s
unfolding seek_end
seek_end_stays s h ino e = rw e refl

abbrev at_end : State → ℕ → ℕ → OpenFileEntry
at_end s h ino = record (s.open_file_table h) { of_offset = (s.inode_table ino).i_size }

seek_end_moves :
    (s : State) (h ino : ℕ)
    → (s.open_file_table h).is_appending ≡ true
    → seek_end s h ino ≡ put_entry s h (at_end s h ino)
unfolding seek_end
seek_end_moves s h ino e = rw e refl

pub open_write :
    (s : State) (fhandle : ℤ) (buf : List ℕ) (to_write h ino : ℕ)
    → get_open_file_entry s fhandle ≡ some h
    → (s.open_file_table h).of_inumber ≡ pos ino
    → ino < inode_table_size
    → tfs_write s fhandle buf to_write ≡ write_locked s h ino buf to_write
unfolding tfs_write inode_get
open_write s fhandle buf to_write h ino g n lt = rw (g, tfs_write, n) (ground arith)

module _ (s : State) (fhandle : ℤ) (buf : List ℕ) (to_write h ino : ℕ) (wf : IsWf s)
    (opened : get_open_file_entry s fhandle ≡ some h)
    (names : (s.open_file_table h).of_inumber ≡ pos ino) (live : InUse s ino)
    (inside : write_position s h ino ≤ (s.inode_table ino).i_size)
    (sized : (s.inode_table ino).i_size ≤ max_file_size) (small : to_write < 2 ^ 63) where
  abbrev start : ℕ
  start = write_position s h ino

  locked-Wrote :
      Wrote s h ino start (write_count to_write start) buf (write_locked s h ino buf to_write)
  locked-Wrote = elim (Bool-cases (s.open_file_table h).is_appending) [
    | inl app ↦
        let size = (s.inode_table ino).i_size in
        let e = at_end s h ino in
        let s1 = put_entry s h e in
        let at : (s1.open_file_table h).of_offset ≡ size = ground arith in
        let same : size ≡ start = ground arith in
        subst
          (λ p. Wrote s h ino p (write_count to_write p) buf (write_locked s h ino buf to_write))
          same
          (rw
            (write_locked_eq s s1 h ino buf to_write size (seek_end_moves s h ino app) at sized
              small)
            (seek-Wrote s h ino size (write_count to_write size) buf e _ (
              from_there-Wrote s1 h ino buf size (write_count to_write size) (seek-IsWf s h e wf)
                live at (omega arith) (omega arith))))
    | inr no_app ↦
        let at : (s.open_file_table h).of_offset ≡ start = ground arith in
        rw
          (write_locked_eq s s h ino buf to_write start (seek_end_stays s h ino no_app) at
            (omega arith) small)
          (from_there-Wrote s h ino buf start (write_count to_write start) wf live at (omega arith)
            inside)
  ]

  -- In a well-formed file system a write of less than 2^63 bytes, through an open handle that
  -- stands inside a file of at most the largest size, returns. It has written a beginning of the
  -- buffer, which is all of it that the largest file has room for unless at most one block is
  -- left free; the bytes are in the file from the handle's position on, or from the file's end
  -- for an appending handle; the offset and the size have moved with them; every other byte of
  -- every file, every other size and handle is as before; and the file system is well-formed.
  pub tfs_write-Wrote :
      Wrote s h ino start (write_count to_write start) buf (tfs_write s fhandle buf to_write)
  tfs_write-Wrote = rw (open_write s fhandle buf to_write h ino opened names live.0) locked-Wrote
