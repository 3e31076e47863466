-- ===== src/Parte1/Locking/Order.antt =====
-- The order in which the calls of Parte1/tecnicofs-v2 take their locks.
use so_file_system.Common.{ℕ, zero, suc, ◌<◌, ◌≡◌, refl, ◌⊎◌, inl, inr, List, [], ◌∷◌, arith}
use so_file_system.Parte1.Locking.Calls.{
  Lock, new_file, inode_lock, file_entry, alloc_block, add_file_entry, Mode, shared, exclusive,
  Program, returns, locks, unlocks, uses, either, chooses, data_block_alloc, alloc_nth_data_block,
  alloc_necessary_blocks, get_open_file_entry, remove_from_open_file_table, add_to_open_file_table,
  open_existing_file, open_new, tfs_open, tfs_close, leave_file, tfs_write, tfs_read, copy_loop,
  tfs_copy_to_external_fs, Call, open_call, close_call, write_call, read_call, copy_call, call,
  calls,
}

abbrev pub rank : Lock → ℕ
rank new_file = 0
rank (inode_lock i) = 1
rank (file_entry i) = 2
rank alloc_block = 3
rank add_file_entry = 3

abbrev pub Held : Type 0
Held = List (Lock × Mode)

-- Every held lock stands below `r`.
abbrev pub AllBelow : ℕ → Held → Type 0
AllBelow r [] = Unit
AllBelow r ((l, mode) ∷ held) = (rank l < r) × AllBelow r held

-- A lock that is had in the second mode allows what the first one names.
abbrev pub Enough : Mode → Mode → Type 0
Enough shared mode = Unit
Enough exclusive exclusive = Unit
Enough exclusive shared = ⊥

-- The lock is held in a mode that allows the use.
abbrev pub Covered : Mode → Lock → Held → Type 0
Covered mode l [] = ⊥
Covered mode l ((l', mode') ∷ held) = ((l' ≡ l) × Enough mode mode') ⊎ Covered mode l held

-- A program that takes its locks upwards, frees the latest one first, uses only what a lock that it
-- has guards, and returns with none.
abbrev pub IsOrdered : Held → Program → Type 0
IsOrdered held returns = held ≡ []
IsOrdered held (locks mode l p) = AllBelow (rank l) held × IsOrdered ((l, mode) ∷ held) p
IsOrdered [] (unlocks l p) = ⊥
IsOrdered ((l', mode) ∷ held) (unlocks l p) = (l' ≡ l) × IsOrdered held p
IsOrdered held (uses mode l p) = Covered mode l held × IsOrdered held p
IsOrdered held (either p q) = IsOrdered held p × IsOrdered held q
IsOrdered held (chooses f) = (n : ℕ) → IsOrdered held (f n)

module _ (held : Held) (below : AllBelow 3 held) where
  data_block_alloc-IsOrdered :
      (found full : Program)
      → IsOrdered held found
      → IsOrdered held full
      → IsOrdered held (data_block_alloc found full)
  unfolding data_block_alloc
  data_block_alloc-IsOrdered found full f g =
      (below, ((inl (refl, tt), (refl, f)), (inl (refl, tt), (refl, g))))

module _ (held : Held) (below : AllBelow 3 held) (inum : ℕ)
    (covered : Covered exclusive (inode_lock inum) held) where
  alloc_nth-IsOrdered :
      (done full fails : Program)
      → IsOrdered held done
      → IsOrdered held full
      → IsOrdered held fails
      → IsOrdered held (alloc_nth_data_block inum done full fails)
  unfolding alloc_nth_data_block
  alloc_nth-IsOrdered done full fails d f x =
      let gets = uses exclusive (inode_lock inum) done in
      let second =
        data_block_alloc-IsOrdered held below (either gets fails) (either fails full)
          ((covered, d), x) (x, f) in
      (
        x,
        data_block_alloc-IsOrdered held below
            (either gets (
              either
                (uses exclusive (inode_lock inum)
                  (data_block_alloc (either gets fails) (either fails full)))
                fails))
            full ((covered, d), ((covered, second), x)) f,
      )

  alloc_necessary-IsOrdered :
      (rounds : ℕ) (done fails : Program)
      → IsOrdered held done
      → IsOrdered held fails
      → IsOrdered held (alloc_necessary_blocks inum rounds done fails)
  unfolding alloc_necessary_blocks
  alloc_necessary-IsOrdered zero done fails d x = d
  alloc_necessary-IsOrdered (suc rounds) done fails d x = (
    d,
    alloc_nth-IsOrdered (alloc_necessary_blocks inum rounds done fails) done fails
        (alloc_necessary-IsOrdered rounds done fails d x) d x,
  )

get_open_file_entry-IsOrdered :
    (fhandle : ℕ) (found null : Program)
    → IsOrdered [] found
    → IsOrdered [] null
    → IsOrdered [] (get_open_file_entry fhandle found null)
unfolding get_open_file_entry
get_open_file_entry-IsOrdered fhandle found null f x =
    (x, (tt, (inl (refl, tt), ((refl, x), (refl, f)))))

module _ (after : Program) (ordered : IsOrdered [] after) where
  remove-IsOrdered : (fhandle : ℕ) → IsOrdered [] (remove_from_open_file_table fhandle after)
  unfolding remove_from_open_file_table
  remove-IsOrdered fhandle =
      (ordered, (tt, ((inl (refl, tt), (refl, ordered)), (inl (refl, tt), (refl, ordered)))))

  add-IsOrdered : IsOrdered [] (add_to_open_file_table after)
  unfolding add_to_open_file_table
  add-IsOrdered = (
    tt,
    (
      (inl (refl, tt), λ i. (refl, (tt, (inl (refl, tt), (refl, ordered))))),
      (inl (refl, tt), (refl, ordered)),
    ),
  )

  leave-IsOrdered :
      (fhandle inum : ℕ) (mode : Mode)
      → IsOrdered
          ((file_entry fhandle, exclusive) ∷ (inode_lock inum, mode) ∷ [])
          (leave_file fhandle inum after)
  unfolding leave_file
  leave-IsOrdered fhandle inum mode = (refl, (refl, ordered))

  tfs_close-IsOrdered : (fhandle : ℕ) → IsOrdered [] (tfs_close fhandle after)
  unfolding tfs_close
  tfs_close-IsOrdered fhandle = remove-IsOrdered fhandle

  tfs_read-IsOrdered : (fhandle : ℕ) → IsOrdered [] (tfs_read fhandle after)
  unfolding tfs_read
  tfs_read-IsOrdered fhandle =
      get_open_file_entry-IsOrdered fhandle _ after
        (λ inum.
          let leave = leave-IsOrdered fhandle inum shared in
          (ordered, (tt, ((omega arith, tt), (inr (inl (refl, tt)), (inl (refl, tt), leave))))))
        ordered

  tfs_write-IsOrdered : (rounds fhandle : ℕ) → IsOrdered [] (tfs_write rounds fhandle after)
  unfolding tfs_write
  tfs_write-IsOrdered rounds fhandle =
      get_open_file_entry-IsOrdered fhandle _ after
        (λ inum.
          let leave = leave-IsOrdered fhandle inum exclusive in
          let writes =
            alloc_necessary-IsOrdered
              ((file_entry fhandle, exclusive) ∷ (inode_lock inum, exclusive) ∷ []) (omega arith)
              inum (inr (inl (refl, tt))) rounds
              (uses exclusive (inode_lock inum) (leave_file fhandle inum after))
              (leave_file fhandle inum after) (inr (inl (refl, tt)), leave) leave in
          (ordered, (tt, ((omega arith, tt), (inl (refl, tt), (leave, writes))))))
        ordered

open_existing-IsOrdered :
    (opened fails : Program)
    → IsOrdered [] opened
    → IsOrdered [] fails
    → IsOrdered [] (open_existing_file opened fails)
unfolding open_existing_file
open_existing-IsOrdered opened fails f x =
    λ inum. (x, (f, (tt, (inl (refl, tt), ((refl, x), (refl, f))))))

module _ (after : Program) (ordered : IsOrdered [] after) where
  existing : IsOrdered [] (open_existing_file (add_to_open_file_table after) after)
  existing =
      open_existing-IsOrdered (add_to_open_file_table after) after (add-IsOrdered after ordered)
        ordered

  tfs_open-IsOrdered : IsOrdered [] (tfs_open after)
  unfolding tfs_open open_new
  tfs_open-IsOrdered = (
    ordered,
    (
      existing,
      (
        (
          tt,
          (
            inl (refl, tt),
            (
              (refl, existing),
              (inl (refl, tt), ((refl, ordered), (refl, add-IsOrdered after ordered))),
            ),
          ),
        ),
        ordered,
      ),
    ),
  )

  copy_loop-IsOrdered : (rounds fhandle : ℕ) → IsOrdered [] (copy_loop rounds fhandle after)
  unfolding copy_loop
  copy_loop-IsOrdered zero fhandle = ordered
  copy_loop-IsOrdered (suc rounds) fhandle =
      tfs_read-IsOrdered
        (either after (either (tfs_close fhandle after) (copy_loop rounds fhandle after)))
        (ordered, (tfs_close-IsOrdered after ordered fhandle, copy_loop-IsOrdered rounds fhandle))
        fhandle

copy-IsOrdered :
    (rounds : ℕ) (after : Program)
    → IsOrdered [] after
    → IsOrdered [] (tfs_copy_to_external_fs rounds after)
unfolding tfs_copy_to_external_fs
copy-IsOrdered rounds after ordered = (
  ordered,
  tfs_open-IsOrdered
      (either after
        (chooses λ fhandle. either (tfs_close fhandle after) (copy_loop rounds fhandle after)))
      (
        ordered,
        λ fhandle. (
          tfs_close-IsOrdered after ordered fhandle,
          copy_loop-IsOrdered after ordered rounds fhandle,
        ),
      ),
)

call-IsOrdered : (c : Call) (after : Program) → IsOrdered [] after → IsOrdered [] (call c after)
call-IsOrdered open_call after ordered = tfs_open-IsOrdered after ordered
call-IsOrdered (close_call fhandle) after ordered = tfs_close-IsOrdered after ordered fhandle
call-IsOrdered (write_call rounds fhandle) after ordered =
    tfs_write-IsOrdered after ordered rounds fhandle
call-IsOrdered (read_call fhandle) after ordered = tfs_read-IsOrdered after ordered fhandle
call-IsOrdered (copy_call rounds) after ordered = copy-IsOrdered rounds after ordered

pub calls-IsOrdered : (cs : List Call) → IsOrdered [] (calls cs)
unfolding calls
calls-IsOrdered [] = refl
calls-IsOrdered (c ∷ cs) = call-IsOrdered c (calls cs) (calls-IsOrdered cs)
