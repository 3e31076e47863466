-- ===== src/Parte1/Locking/Threads.antt =====
-- Any number of threads that call Parte1/tecnicofs-v2 at the same time, by their locks. A lock is had by
-- one thread, or by several that all have it shared; a thread that asks for another waits.
use so_file_system.Common.{
  ℕ, zero, suc, ◌<◌, ◌≡◌, Bool, true, false, not, ◌&&◌, ◌||◌, ◌==◌, List, [], ◌∷◌, update,
  if◌then◌else◌,
}
use so_file_system.Parte1.Locking.Calls.{
  Lock, new_file, inode_lock, file_entry, alloc_block, add_file_entry, Mode, shared, Program, locks,
  unlocks, uses, either, chooses, Call, calls,
}
use so_file_system.Parte1.Locking.Order.{Held}

unfoldable pub same_lock : Lock → Lock → Bool
same_lock new_file new_file = true
same_lock (inode_lock i) (inode_lock j) = i == j
same_lock (file_entry i) (file_entry j) = i == j
same_lock alloc_block alloc_block = true
same_lock add_file_entry add_file_entry = true
same_lock _ _ = false

unfoldable pub both_shared : Mode → Mode → Bool
both_shared shared shared = true
both_shared _ _ = false

-- What is held keeps a lock from being taken in a mode.
unfoldable pub conflicts : Mode → Lock → Held → Bool
conflicts mode l [] = false
conflicts mode l ((l', mode') ∷ held) =
    (same_lock l' l && not (both_shared mode mode')) || conflicts mode l held

unfoldable pub drop_lock : Lock → Held → Held
drop_lock l [] = []
drop_lock l ((l', mode) ∷ held) =
    let rest = drop_lock l held in if same_lock l' l then held else (l', mode) ∷ rest

pub record Thread : Type 0 where
  pub program : Program
  pub held : Held

-- No thread keeps the lock from being taken.
unfoldable pub is_available : ℕ → (ℕ → Thread) → Mode → Lock → Bool
is_available zero s mode l = true
is_available (suc n) s mode l = is_available n s mode l && not (conflicts mode l (s n).held)

pub data Step (n : ℕ) (s : ℕ → Thread) : (ℕ → Thread) → Type 0 where
  takes :
      (i : ℕ) {mode : Mode} {l : Lock} {p : Program}
      → i < n
      → (s i).program ≡ locks mode l p
      → is_available n s mode l ≡ true
      → Step n s (update s i (record { program = p; held = (l, mode) ∷ (s i).held }))
  frees :
      (i : ℕ) {l : Lock} {p : Program}
      → i < n
      → (s i).program ≡ unlocks l p
      → Step n s (update s i (record { program = p; held = drop_lock l (s i).held }))
  touches :
      (i : ℕ) {mode : Mode} {l : Lock} {p : Program}
      → i < n
      → (s i).program ≡ uses mode l p
      → Step n s (update s i (record { program = p; held = (s i).held }))
  goes_left :
      (i : ℕ) {p q : Program}
      → i < n
      → (s i).program ≡ either p q
      → Step n s (update s i (record { program = p; held = (s i).held }))
  goes_right :
      (i : ℕ) {p q : Program}
      → i < n
      → (s i).program ≡ either p q
      → Step n s (update s i (record { program = q; held = (s i).held }))
  picks :
      (i k : ℕ) {f : ℕ → Program}
      → i < n
      → (s i).program ≡ chooses f
      → Step n s (update s i (record { program = f k; held = (s i).held }))

-- The states that the threads reach from the lists of calls that they make.
pub data Reach (n : ℕ) (cs : ℕ → List Call) : (ℕ → Thread) → Type 0 where
  start : Reach n cs (λ i. record { program = calls (cs i); held = [] })
  later : {s t : ℕ → Thread} → Reach n cs s → Step n s t → Reach n cs t
