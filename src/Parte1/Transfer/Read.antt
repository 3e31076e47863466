-- ===== src/Parte1/Transfer/Read.antt =====
-- `tfs_read` in a well-formed file system.
use so_file_system.Common.{
  ℕ, zero, suc, ◌+◌, ◌-◌, ◌*◌, ◌/◌, ◌%◌, ◌^◌, ◌<◌, ◌≤◌, ◌≡◌, refl, sym, ap, ap₂, fun_ext, ◌∙◌, ◌⊎◌,
  inl, inr, ◌≢◌, ℤ, pos, false, some, arith, if◌then◌else◌, ltb, add_size, sub_size, List, [], ◌++◌,
  slice, slice-congr, slice-append, index, min, lt→ltb,
}
use mathlib.Core.List.{append_assoc, append-nil}
use so_file_system.Config.{block_size, max_inode_blocks, inode_table_size}
use so_file_system.Parte1.State.{State, Inode, put_entry}
use so_file_system.Parte1.Blocks.{get_nth_data_block, div_ceil_rw}
use so_file_system.Parte1.OpenFiles.{get_open_file_entry}
use so_file_system.Parte1.Inodes.{inode_get}
use so_file_system.Parte1.Operations.{to_ssize}
use so_file_system.Parte1.Ownership.{number_of, InUse, IsWf, byte_at}
use so_file_system.Parte1.Ownership.GetNth.{get_nth-Holds}
use so_file_system.Parte1.Transfer.WriteLoop.{chunk, chunk_down}
use so_file_system.Parte1.Transfer.{
  ReadEnd, smaller, read_loop, finish_read, read_blocks, read_locked, tfs_read,
}

-- The bytes of a file from a position on.
abbrev pub bytes_from : State → ℕ → ℕ → ℕ → List ℕ
bytes_from s ino start n = slice (byte_at s ino) start n

read_round :
    (fuel : ℕ) (s : State) (n : Inode) (out : List ℕ) (count k b at m : ℕ)
    → count ≢ 0
    → m ≤ count
    → count < 2 ^ 32
    → k < max_inode_blocks
    → get_nth_data_block s n (suc k) ≡ (false, some (b * block_size))
    → read_loop (suc fuel) s n out count (suc k) at m
      ≡ read_loop fuel s n
          (out ++ slice s.fs_data (b * block_size + at) m)
          (count - m)
          (suc (suc k))
          0
          (smaller block_size (count - m))
unfolding read_loop
read_round fuel s n out count k b at m ne le small room e =
    let left : sub_size count m ≡ count - m = omega arith in
    let next : add_size (suc k) 1 ≡ suc (suc k) = omega arith in rw (e, left, next) (ground arith)

read_finished :
    (fuel : ℕ) (s : State) (n : Inode) (out : List ℕ) (number at m : ℕ)
    → read_loop (suc fuel) s n out 0 number at m ≡ ReadEnd.stop out 0
unfolding read_loop
read_finished fuel s n out number at m = refl

-- A stretch of one block is a stretch of the file.
block_bytes :
    (s : State) (ino k b at m : ℕ)
    → number_of s.fs_data (s.inode_table ino) k ≡ pos b
    → at + m ≤ block_size
    → slice s.fs_data (b * block_size + at) m ≡ bytes_from s ino (k * block_size + at) m
block_bytes s ino k b at m e fits =
    slice-congr s.fs_data (byte_at s ino) (b * block_size + at) (k * block_size + at) m λ j lt.
      let q : ℕ = k * block_size + at + j in
      let place : q / block_size ≡ k = omega arith in
      let cell : b * block_size + at + j ≡ b * block_size + q % block_size = omega arith in
      ap s.fs_data cell
      ∙ sym (
          ap (λ z. s.fs_data (index z * block_size + q % block_size))
            (ap (number_of s.fs_data (s.inode_table ino)) place ∙ e))

slice-at : (f : ℕ → ℕ) (a b n : ℕ) → (a ≡ b) ⊎ (n ≡ 0) → slice f a n ≡ slice f b n
slice-at f a b n (inl e) = ap (λ i. slice f i n) e
slice-at f a b n (inr e) = ap (slice f a) e ∙ sym (ap (slice f b) e)

-- What a round has read and what the rest of the loop reads.
join :
    (s : State) (ino k at m count : ℕ) (out stretch : List ℕ)
    → (m ≤ count) × (at + m ≤ block_size) × ((at + m ≡ block_size) ⊎ (count ≡ m))
    → stretch ≡ bytes_from s ino (k * block_size + at) m
    → (out ++ stretch) ++ bytes_from s ino (suc k * block_size + 0) (count - m)
      ≡ out ++ bytes_from s ino (k * block_size + at) count
join s ino k at m count out stretch sizes e =
    let start = k * block_size + at in
    let total : m + (count - m) ≡ count = omega (arith, sizes) in
    let next =
      slice-at (byte_at s ino) (suc k * block_size + 0) (start + m) (count - m)
        (omega (arith, sizes)) in
    append_assoc out stretch (bytes_from s ino (suc k * block_size + 0) (count - m))
    ∙ ap (λ l. out ++ l)
        (ap₂ ◌++◌ e next
          ∙ slice-append (byte_at s ino) start m (count - m)
          ∙ ap (slice (byte_at s ino) start) total)

-- In a well-formed file system the loop of tfs_read, with fuel above its count, over a stretch of
-- a file that lies within the file's blocks, stops with nothing left to read and has appended the
-- bytes of that stretch.
pub read_loop-stop :
    (fuel : ℕ) (s : State) (ino : ℕ) (out : List ℕ) (count k at : ℕ)
    → IsWf s
    → InUse s ino
    → count < fuel
    → at < block_size
    → k * block_size + at + count ≤ (s.inode_table ino).blocks_alloc * block_size
    → read_loop fuel s (s.inode_table ino) out count (suc k) at (smaller (block_size - at) count)
      ≡ ReadEnd.stop (out ++ bytes_from s ino (k * block_size + at) count) 0
read_loop-stop zero s ino out count k at wf live lt inb fits = absurd (omega arith)
read_loop-stop (suc fuel) s ino out zero k at wf live lt inb fits =
    read_finished fuel s (s.inode_table ino) out (suc k) at _
    ∙ ap (λ l. ReadEnd.stop l 0) (sym (append-nil out))
read_loop-stop (suc fuel) s ino out (suc count) k at wf live lt inb fits =
    let has : k < (s.inode_table ino).blocks_alloc = omega arith in
    let (b, e) = wf.filled ino k live (inl has) in
    let m = smaller (block_size - at) (suc count) in
    let sizes = chunk at (suc count) inb in
    let room : k < max_inode_blocks = omega (arith, wf.bounded ino live) in
    let small : suc count < 2 ^ 32 = omega (arith, wf.bounded ino live) in
    let stretch = slice s.fs_data (b * block_size + at) m in
    read_round fuel s (s.inode_table ino) out (suc count) k b at m (λ e. cc) sizes.0 small room
      (get_nth-Holds s ino k b wf (live, inl has, e) has)
    ∙ read_loop-stop fuel s ino (out ++ stretch) (suc count - m) (suc k) 0 wf live
        (chunk_down at (suc count) fuel inb (omega arith) lt) (omega arith) (omega (arith, sizes))
    ∙ ap (λ l. ReadEnd.stop l 0)
        (join s ino k at m (suc count) out stretch sizes (block_bytes s ino k b at m e sizes.1))

-- The read has returned `count` bytes of the file from `start` on and moved the offset behind them,
-- and that is all that it has changed.
abbrev pub after_read : State → ℕ → ℕ → State
after_read s h offset = put_entry s h (record (s.open_file_table h) { of_offset = offset })

read_blocks_eq :
    (s : State) (h ino start count : ℕ)
    → IsWf s
    → InUse s ino
    → (s.open_file_table h).of_offset ≡ start
    → start + count ≤ (s.inode_table ino).blocks_alloc * block_size
    → read_blocks s h (s.inode_table ino) count
      ≡ some (after_read s h (start + count), pos count, bytes_from s ino start count)
unfolding read_blocks div_ceil_rw finish_read
read_blocks_eq s h ino start count wf live e fits =
    let number : start / block_size + 1 ≡ suc (start / block_size) = omega arith in
    let small : start + count < 2 ^ 32 = omega (arith, wf.bounded ino live) in
    let at : sub_size start (sub_size (suc (start / block_size)) 1 * block_size)
        ≡ start % block_size =
      omega arith in
    let space : sub_size block_size (start % block_size) ≡ block_size - start % block_size =
      omega arith in
    let position : start / block_size * block_size + start % block_size ≡ start = omega arith in
    let n : sub_size count 0 ≡ count = omega arith in
    let moved : add_size (s.open_file_table h).of_offset count ≡ start + count = omega arith in
    let ssize : to_ssize count ≡ pos count = ground arith in
    let loop =
      read_loop-stop (suc count) s ino [] count (start / block_size) (start % block_size) wf live
        (omega arith) (omega arith) (omega arith) in
    rw (e, number, at, space, loop, position, n, moved, ssize) refl

after_read-stays :
    (s : State) (h start : ℕ)
    → (s.open_file_table h).of_offset ≡ start
    → s ≡ after_read s h (start + 0)
after_read-stays s h start e =
    ap (λ t. record s { open_file_table = t }) (fun_ext λ j. ground arith)

pick :
    (s : State) (h ino start n : ℕ)
    → IsWf s
    → InUse s ino
    → (s.open_file_table h).of_offset ≡ start
    → start + n ≤ (s.inode_table ino).blocks_alloc * block_size
    → (if ltb 0 n then read_blocks s h (s.inode_table ino) n else some (s, pos 0, []))
      ≡ some (after_read s h (start + n), pos n, bytes_from s ino start n)
pick s h ino start zero wf live e fits =
    ap (λ t. some (t, pos 0, [])) (after_read-stays s h start e)
pick s h ino start (suc n) wf live e fits =
    rw (lt→ltb 0 (suc n) (omega arith)) (read_blocks_eq s h ino start (suc n) wf live e fits)

read_locked_eq :
    (s : State) (h ino len start size : ℕ)
    → IsWf s
    → InUse s ino
    → (s.open_file_table h).of_offset ≡ start
    → (s.inode_table ino).i_size ≡ size
    → start ≤ size
    → size ≤ (s.inode_table ino).blocks_alloc * block_size
    → let n = min len (size - start) in
      read_locked s h ino len ≡ some (after_read s h (start + n), pos n, bytes_from s ino start n)
unfolding read_locked
read_locked_eq s h ino len start size wf live e z le fits =
    let left : sub_size (s.inode_table ino).i_size (s.open_file_table h).of_offset ≡ size - start =
      omega (arith, wf.bounded ino live) in
    let n : (if ltb len (size - start) then len else size - start) ≡ min len (size - start) =
      ground arith in
    rw (left, n) (pick s h ino start (min len (size - start)) wf live e (omega arith))

open_read :
    (s : State) (fhandle : ℤ) (len h ino : ℕ)
    → get_open_file_entry s fhandle ≡ some h
    → (s.open_file_table h).of_inumber ≡ pos ino
    → ino < inode_table_size
    → (s.open_file_table h).is_appending ≡ false
    → tfs_read s fhandle len ≡ read_locked s h ino len
unfolding tfs_read inode_get
open_read s fhandle len h ino g n lt a = rw (g, tfs_read, n) (ground arith)

-- In a well-formed file system a read of at most len bytes through an open handle that is not
-- appending and stands inside a file in use, whose size is within its blocks, returns the smaller
-- of len and the number of bytes up to the file's end, with just those bytes of the file, and
-- only moves the handle's offset behind them.
pub tfs_read_lem :
    (s : State) (fhandle : ℤ) (len h ino : ℕ)
    → IsWf s
    → get_open_file_entry s fhandle ≡ some h
    → (s.open_file_table h).of_inumber ≡ pos ino
    → (s.open_file_table h).is_appending ≡ false
    → InUse s ino
    → (s.open_file_table h).of_offset ≤ (s.inode_table ino).i_size
    → (s.inode_table ino).i_size ≤ (s.inode_table ino).blocks_alloc * block_size
    → let start = (s.open_file_table h).of_offset in
      let n = min len ((s.inode_table ino).i_size - start) in
      tfs_read s fhandle len ≡ some (after_read s h (start + n), pos n, bytes_from s ino start n)
tfs_read_lem s fhandle len h ino wf opened names reading live inside sized =
    open_read s fhandle len h ino opened names live.0 reading
    ∙ read_locked_eq s h ino len _ _ wf live refl refl inside sized
