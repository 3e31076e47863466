-- ===== src/Parte1/Locking/Termination.antt =====
-- The calls that threads make of Parte1/tecnicofs-v2 at the same time come to an end.
use so_file_system.Common.{
  ℕ, zero, suc, ◌<◌, ◌≡◌, refl, sym, ap, ◌≢◌, subst, fun_ext, ◌∙◌, inl, inr, List, [], arith,
  update, ℕ_discrete, ◌==◌, ==_iff, Bool, Bool-cases, if◌then◌else◌, true, false,
}
use so_file_system.Parte1.Locking.Calls.{
  Mode, Lock, Program, returns, locks, unlocks, uses, either, chooses, Call,
}
use so_file_system.Parte1.Locking.Threads.{
  Thread, Step, takes, frees, touches, goes_left, goes_right, picks, Reach, later,
}
use so_file_system.Parte1.Locking.Progress.{deadlock_free}

-- The second program is what the first one goes on with.
data Down : Program → Program → Type 0 where
  after_lock : {mode : Mode} {l : Lock} {p : Program} → Down (locks mode l p) p
  after_unlock : {l : Lock} {p : Program} → Down (unlocks l p) p
  after_use : {mode : Mode} {l : Lock} {p : Program} → Down (uses mode l p) p
  left : {p q : Program} → Down (either p q) p
  right : {p q : Program} → Down (either p q) q
  picked : {f : ℕ → Program} (k : ℕ) → Down (chooses f) (f k)

abbrev Below : (Program → Type 0) → Program → Type 0
Below Q p = (q : Program) → Down p q → Q q

module _ (Q : Program → Type 0) (step : (p : Program) → Below Q p → Q p) where
  down-Below : (p : Program) → Below Q p
  down-Below returns q d = elim d [ ]
  down-Below (locks mode l p) q after_lock = step p (down-Below p)
  down-Below (unlocks l p) q after_unlock = step p (down-Below p)
  down-Below (uses mode l p) q after_use = step p (down-Below p)
  down-Below (either p p') q left = step p (down-Below p)
  down-Below (either p p') q right = step p' (down-Below p')
  down-Below (chooses f) q (picked k) = step (f k) (down-Below (f k))

  down_ind : (p : Program) → Q p
  down_ind p = step p (down-Below p)

-- The first `n` of a family of programs cannot go on for ever, in whatever order they do.
data Halts (n : ℕ) : (ℕ → Program) → Type 0 where
  halts :
      {ps : ℕ → Program}
      → ((i : ℕ) → i < n → (p : Program) → Down (ps i) p → Halts n (update ps i p))
      → Halts n ps

module _ (ps : ℕ → Program) (i : ℕ) (p : Program) where
  changed : {n : ℕ} → i ≡ n → update ps i p n ≡ p
  changed {n} q = rw ((==_iff n i).1 (sym q)) refl

  unchanged : {n : ℕ} → n ≢ i → update ps i p n ≡ ps n
  unchanged {n} ne = elim (Bool-cases (n == i)) [
    | inl e ↦ absurd (ne ((==_iff n i).0 e))
    | inr e ↦ rw e refl
  ]

module _ (n : ℕ) (fewer : (ps : ℕ → Program) → Halts n ps) where
  abbrev With : Program → Type 0
  With p = (ps : ℕ → Program) → ps n ≡ p → Halts n ps → Halts (suc n) ps

  With-last : (p : Program) → Below With p → With p
  With-last p below ps e (halts rest) = halts λ i lt p' d. elim (ℕ_discrete i n) [
    | yes q ↦
        below p' (subst (λ x. Down x p') (ap ps q ∙ e) d) (update ps i p') (changed ps i p' q)
          (fewer (update ps i p'))
    | no q ↦
        With-last p below (update ps i p') (unchanged ps i p' (λ h. q (sym h)) ∙ e)
          (rest i (omega arith) p' d)
  ]

all_halt : (n : ℕ) (ps : ℕ → Program) → Halts n ps
all_halt zero ps = halts λ i lt p d. absurd (omega arith)
all_halt (suc n) ps =
    down_ind (With n (all_halt n)) (With-last n (all_halt n)) (ps n) ps refl (all_halt n ps)

-- No sequence of steps from here goes on for ever.
pub data Terminates (n : ℕ) : (ℕ → Thread) → Type 0 where
  terminates : {s : ℕ → Thread} → ((t : ℕ → Thread) → Step n s t → Terminates n t) → Terminates n s

abbrev programs : (ℕ → Thread) → ℕ → Program
programs s i = (s i).program

-- What a step does to the programs.
abbrev Descends : ℕ → (ℕ → Thread) → (ℕ → Thread) → Type 0
Descends n s t =
    (i : ℕ) × (i < n)
    × (p : Program) × Down (s i).program p
    × (programs t ≡ update (programs s) i p)

if-program :
    (b : Bool) (x y : Thread) → (if b then x else y).program ≡ (if b then x.program else y.program)
if-program true x y = refl
if-program false x y = refl

programs-update :
    (s : ℕ → Thread) (i : ℕ) (th : Thread)
    → programs (update s i th) ≡ update (programs s) i th.program
programs-update s i th = fun_ext λ j. if-program (j == i) th (s j)

Step-Descends : {n : ℕ} {s t : ℕ → Thread} → Step n s t → Descends n s t
Step-Descends {s = s} (takes i {mode} {l} {p} lt e free) =
    (i, lt, p, subst (λ x. Down x p) (sym e) after_lock, programs-update s i _)
Step-Descends {s = s} (touches i {mode} {l} {p} lt e) =
    (i, lt, p, subst (λ x. Down x p) (sym e) after_use, programs-update s i _)
Step-Descends {s = s} (frees i {l} {p} lt e) =
    (i, lt, p, subst (λ x. Down x p) (sym e) after_unlock, programs-update s i _)
Step-Descends {s = s} (goes_left i {p} lt e) =
    (i, lt, p, subst (λ x. Down x p) (sym e) left, programs-update s i _)
Step-Descends {s = s} (goes_right i {p} {q} lt e) =
    (i, lt, q, subst (λ x. Down x q) (sym e) right, programs-update s i _)
Step-Descends {s = s} (picks i k {f} lt e) =
    (i, lt, f k, subst (λ x. Down x (f k)) (sym e) (picked k), programs-update s i _)

Halts-Terminates :
    {n : ℕ} {ps : ℕ → Program} → Halts n ps → (s : ℕ → Thread) → programs s ≡ ps → Terminates n s
Halts-Terminates (halts rest) s e = terminates λ t st.
    let (i, lt, p, d, q) = Step-Descends st in
    Halts-Terminates (rest i lt p (subst (λ f. Down (f i) p) e d)) t (q ∙ ap (λ f. update f i p) e)

-- The steps from one state to another.
pub data Run (n : ℕ) : (ℕ → Thread) → (ℕ → Thread) → Type 0 where
  arrived : {s : ℕ → Thread} → Run n s s
  first : {s t u : ℕ → Thread} → Step n s t → Run n t u → Run n s u

abbrev pub AllReturned : ℕ → (ℕ → Thread) → Type 0
AllReturned n s = (i : ℕ) → i < n → ((s i).program ≡ returns) × ((s i).held ≡ [])

finishes :
    {n : ℕ} {cs : ℕ → List Call} {s : ℕ → Thread}
    → Terminates n s
    → Reach n cs s
    → (t : ℕ → Thread) × Run n s t × AllReturned n t
finishes {s = s} (terminates rest) run = elim (deadlock_free run) [
  | inl done ↦ (s, arrived, done)
  | inr (t, st) ↦
      let (u, more, done) = finishes (rest t st) (later run st) in (u, first st more, done)
]

-- Let any number of threads make calls of Parte1, each any list of them, with any bounds on the
-- rounds of their loops, and let their steps come in any order. From each state that they reach
-- no sequence of steps goes on for ever, and some sequence leads to a state in which every thread
-- has returned from all of its calls and has no lock.
pub calls_complete :
    {n : ℕ} {cs : ℕ → List Call} {s : ℕ → Thread}
    → Reach n cs s
    → Terminates n s × ((t : ℕ → Thread) × Run n s t × AllReturned n t)
calls_complete {n} {s = s} run =
    let all = Halts-Terminates (all_halt n (programs s)) s refl in (all, finishes all run)
