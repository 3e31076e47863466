-- ===== src/Parte1/Locking/Progress.antt =====
-- Threads that call Parte1/tecnicofs-v2 at the same time do not wait for each other for ever, and never
-- have a lock that another one keeps from them.
use so_file_system.Common.{
  ℕ, zero, suc, ◌+◌, ◌<◌, ◌≤◌, ◌≡◌, refl, subst, ◌⊎◌, inl, inr, true, false, List, [], ◌∷◌, arith,
  update-all, Bool-cases, ℕ_discrete,
}
use so_file_system.Parte1.Locking.Calls.{
  Lock, Mode, Program, returns, locks, unlocks, uses, either, chooses, Call,
}
use so_file_system.Parte1.Locking.Order.{rank, Held, AllBelow, IsOrdered, calls-IsOrdered}
use so_file_system.Parte1.Locking.Threads.{
  same_lock, conflicts, drop_lock, Thread, is_available, Step, takes, frees, touches, goes_left,
  goes_right, picks, Reach, start, later,
}

same_lock_refl : (l : Lock) → same_lock l l ≡ true
unfolding same_lock
same_lock_refl l = ground arith

same_lock-rank : (l l' : Lock) → same_lock l l' ≡ true → rank l ≡ rank l'
unfolding same_lock
same_lock-rank l l' e = ground arith

abbrev pub Fine : Thread → Type 0
Fine t = IsOrdered t.held t.program

dropped-IsOrdered :
    (held : Held) (l : Lock) (p : Program)
    → IsOrdered held (unlocks l p)
    → IsOrdered (drop_lock l held) p
unfolding drop_lock
dropped-IsOrdered [] l p h = elim h [ ]
dropped-IsOrdered ((l', mode) ∷ held) l p (e, h) =
    let same : same_lock l' l ≡ true = subst (λ x. same_lock l' x ≡ true) e (same_lock_refl l') in
    rw same h

Step-Fine : {n : ℕ} {s t : ℕ → Thread} → ((i : ℕ) → Fine (s i)) → Step n s t → (i : ℕ) → Fine (t i)
Step-Fine {s = s} fine (takes i lt e free) =
    update-all Fine s i _ (subst (IsOrdered (s i).held) e (fine i)).1 fine
Step-Fine {s = s} fine (frees i {l} {p} lt e) =
    update-all Fine s i _
      (dropped-IsOrdered (s i).held l p (subst (IsOrdered (s i).held) e (fine i))) fine
Step-Fine {s = s} fine (touches i lt e) =
    update-all Fine s i _ (subst (IsOrdered (s i).held) e (fine i)).1 fine
Step-Fine {s = s} fine (goes_left i lt e) =
    update-all Fine s i _ (subst (IsOrdered (s i).held) e (fine i)).0 fine
Step-Fine {s = s} fine (goes_right i lt e) =
    update-all Fine s i _ (subst (IsOrdered (s i).held) e (fine i)).1 fine
Step-Fine {s = s} fine (picks i k lt e) =
    update-all Fine s i _ (subst (IsOrdered (s i).held) e (fine i) k) fine

pub Reach-Fine : {n : ℕ} {cs : ℕ → List Call} {s : ℕ → Thread} → Reach n cs s → (i : ℕ) → Fine (s i)
Reach-Fine {cs = cs} start i = calls-IsOrdered (cs i)
Reach-Fine (later run st) i = Step-Fine (Reach-Fine run) st i

-- What a thread has lies below what it asks for.
below-conflicts :
    (mode : Mode) (l : Lock) (r : ℕ) (held : Held)
    → AllBelow r held
    → conflicts mode l held ≡ true
    → rank l < r
unfolding conflicts
below-conflicts mode l r [] below e = cc
below-conflicts mode l r ((l', mode') ∷ held) (lt, below) e =
    ground (arith, below-conflicts mode l r held below, same_lock-rank l' l)

available_or :
    (n : ℕ) (s : ℕ → Thread) (mode : Mode) (l : Lock)
    → (is_available n s mode l ≡ true) ⊎ ((j : ℕ) × (j < n) × (conflicts mode l (s j).held ≡ true))
unfolding is_available
available_or zero s mode l = inl refl
available_or (suc n) s mode l = elim (Bool-cases (conflicts mode l (s n).held)) [
  | inl e ↦ inr (n, omega arith, e)
  | inr e ↦ elim (available_or n s mode l) [
    | inl free ↦ inl (rw (free, e) refl)
    | inr (j, lt, h) ↦ inr (j, omega arith, h)
  ]
]

none-conflicts : (mode : Mode) (l : Lock) (held : Held) → held ≡ [] → conflicts mode l held ≡ false
unfolding conflicts
none-conflicts mode l held e = rw e refl

abbrev pub Moves : ℕ → (ℕ → Thread) → Type 0
Moves n s = (t : ℕ → Thread) × Step n s t

-- A thread has returned with no lock, or asks for one, or can go on.
data Standing (n : ℕ) (s : ℕ → Thread) (i : ℕ) : Type 0 where
  has_returned : (s i).program ≡ returns → (s i).held ≡ [] → Standing n s i
  asks :
      (mode : Mode) (l : Lock) (p : Program)
      → (s i).program ≡ locks mode l p
      → AllBelow (rank l) (s i).held
      → Standing n s i
  can_go : Moves n s → Standing n s i

standing :
    (n : ℕ) (s : ℕ → Thread) (i : ℕ)
    → i < n
    → (p : Program) → (s i).program ≡ p
    → IsOrdered (s i).held p
    → Standing n s i
standing n s i lt returns e h = has_returned e h
standing n s i lt (locks mode l p) e (below, h) = asks mode l p e below
standing n s i lt (unlocks l p) e h = can_go (_, frees i lt e)
standing n s i lt (uses mode l p) e h = can_go (_, touches i lt e)
standing n s i lt (either p q) e h = can_go (_, goes_left i lt e)
standing n s i lt (chooses f) e h = can_go (_, picks i 0 lt e)

module _ (n : ℕ) (s : ℕ → Thread) (fine : (i : ℕ) → Fine (s i)) where
  stands : (i : ℕ) → i < n → Standing n s i
  stands i lt = standing n s i lt (s i).program refl (fine i)

  -- From a thread that asks for a lock to the one that has it, and so on upwards.
  climb :
      (fuel i : ℕ) (mode : Mode) (l : Lock) (p : Program)
      → i < n
      → (s i).program ≡ locks mode l p
      → 4 ≤ rank l + fuel
      → Moves n s
  climb zero i mode l p lt e small = absurd (ground (arith, small))
  climb (suc fuel) i mode l p lt e small = elim (available_or n s mode l) [
    | inl free ↦ (_, takes i lt e free)
    | inr (j, lt', c) ↦ elim (stands j lt') [
      | has_returned e' none_held ↦
          absurd (ground (arith, none-conflicts mode l (s j).held none_held, c))
      | asks mode' l' p' e' below ↦
          climb fuel j mode' l' p' lt' e'
            (omega (arith, below-conflicts mode l (rank l') (s j).held below c))
      | can_go moves ↦ moves
    ]
  ]

  abbrev Finished : ℕ → Type 0
  Finished m = (i : ℕ) → i < m → ((s i).program ≡ returns) × ((s i).held ≡ [])

  Finished-suc : (m : ℕ) → m < n → Finished m → Standing n s m → Finished (suc m) ⊎ Moves n s
  Finished-suc m lt before (has_returned e none_held) =
      inl λ i lt'. elim (ℕ_discrete i m) [
        | yes q ↦ rw q (e, none_held)
        | no q ↦ before i (omega arith)
      ]
  Finished-suc m lt before (asks mode l p e below) = inr (climb 4 m mode l p lt e (omega arith))
  Finished-suc m lt before (can_go moves) = inr moves

  Finished-or : (m : ℕ) → m ≤ n → Finished m ⊎ Moves n s
  Finished-or zero le = inl (λ i lt. absurd (omega arith))
  Finished-or (suc m) le = elim (Finished-or m (omega arith)) [
    | inl before ↦ Finished-suc m (omega arith) before (stands m (omega arith))
    | inr moves ↦ inr moves
  ]

-- Whatever calls any number of threads make, and in whatever order their steps come, no state is
-- reached in which they wait for each other: either every thread has returned from all of its calls
-- and has no lock, or some thread can take a step.
pub deadlock_free :
    {n : ℕ} {cs : ℕ → List Call} {s : ℕ → Thread}
    → Reach n cs s
    → ((i : ℕ) → i < n → ((s i).program ≡ returns) × ((s i).held ≡ []))
      ⊎ ((t : ℕ → Thread) × Step n s t)
deadlock_free {n} {s = s} run = Finished-or n s (Reach-Fine run) n (omega arith)
