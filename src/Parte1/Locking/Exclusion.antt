-- ===== src/Parte1/Locking/Exclusion.antt =====
-- Two threads that call Parte1/tecnicofs-v2 at the same time have no lock together, unless both have it
-- shared.
use so_file_system.Common.{
  ℕ, zero, suc, ◌<◌, ◌≡◌, ◌≢◌, refl, ◌⊎◌, inl, inr, Bool, true, false, not, ◌&&◌, List, [], ◌∷◌,
  arith, update, ==_iff, ◌==◌, Bool-cases, ℕ_discrete, subst, sym, ◌∙◌, if◌then◌else◌,
}
use so_file_system.Parte1.Locking.Calls.{Lock, Mode, shared, exclusive, Program, Call, uses}
use so_file_system.Parte1.Locking.Order.{Held, Enough, Covered, IsOrdered}
use so_file_system.Parte1.Locking.Progress.{Reach-Fine}
use so_file_system.Parte1.Locking.Threads.{
  same_lock, both_shared, conflicts, drop_lock, Thread, is_available, Step, takes, frees, touches,
  goes_left, goes_right, picks, Reach, start, later,
}

abbrev pub Has : Lock → Mode → Held → Type 0
Has l mode [] = ⊥
Has l mode ((l', mode') ∷ held) = ((l' ≡ l) × (mode' ≡ mode)) ⊎ Has l mode held

same_lock_sym : (l l' : Lock) → same_lock l l' ≡ same_lock l' l
unfolding same_lock
same_lock_sym l l' = ground arith

both_shared_sym : (a b : Mode) → both_shared a b ≡ both_shared b a
unfolding both_shared
both_shared_sym a b = ground arith

-- What a thread has is not in the way of what another may take.
Has-free :
    (l l' : Lock) (mode mode' : Mode) (held : Held)
    → Has l' mode' held
    → conflicts mode l held ≡ false
    → (same_lock l' l && not (both_shared mode mode')) ≡ false
unfolding conflicts
Has-free l l' mode mode' [] h e = elim h [ ]
Has-free l l' mode mode' ((m, a) ∷ held) (inl (p, q)) e = ground (arith, p, q, e)
Has-free l l' mode mode' ((m, a) ∷ held) (inr h) e =
    Has-free l l' mode mode' held h (ground (arith, e))

conflicts-cons :
    (l l' : Lock) (mode mode' : Mode) (held : Held)
    → conflicts mode l held ≡ false
    → (same_lock l l' && not (both_shared mode' mode)) ≡ false
    → conflicts mode l ((l', mode') ∷ held) ≡ false
unfolding conflicts
conflicts-cons l l' mode mode' held e f =
    ground (arith, e, f, same_lock_sym l l', both_shared_sym mode mode')

conflicts-drop :
    (l l' : Lock) (mode : Mode) (held : Held)
    → conflicts mode l held ≡ false
    → conflicts mode l (drop_lock l' held) ≡ false
unfolding conflicts drop_lock
conflicts-drop l l' mode [] e = refl
conflicts-drop l l' mode ((m, a) ∷ held) e = ground (arith, e, conflicts-drop l l' mode held)

Has-if :
    (l : Lock) (mode : Mode) (b : Bool) (x y : Held)
    → Has l mode (if b then x else y)
    → Has l mode x ⊎ Has l mode y
Has-if l mode true x y h = inl h
Has-if l mode false x y h = inr h

Has-drop :
    (l l' : Lock) (mode : Mode) (held : Held) → Has l mode (drop_lock l' held) → Has l mode held
unfolding drop_lock
Has-drop l l' mode [] h = h
Has-drop l l' mode ((m, a) ∷ held) h =
    elim (Has-if l mode (same_lock m l') held ((m, a) ∷ drop_lock l' held) h) [
      | inl here ↦ inr here
      | inr (inl first) ↦ inl first
      | inr (inr rest) ↦ inr (Has-drop l l' mode held rest)
    ]

available-conflicts :
    (n : ℕ) (s : ℕ → Thread) (mode : Mode) (l : Lock)
    → is_available n s mode l ≡ true
    → (j : ℕ) → j < n
    → conflicts mode l (s j).held ≡ false
unfolding is_available
available-conflicts zero s mode l e j lt = absurd (omega arith)
available-conflicts (suc n) s mode l e j lt = elim (ℕ_discrete j n) [
  | yes q ↦ rw q (ground (arith, e))
  | no q ↦ available-conflicts n s mode l (ground (arith, e)) j (omega arith)
]

-- What one thread has keeps no lock of another one from it.
abbrev pub Excludes : ℕ → (ℕ → Thread) → Type 0
Excludes n s =
    (i j : ℕ)
    → i < n
    → j < n
    → i ≢ j
    → (l : Lock) (mode : Mode) → Has l mode (s i).held
    → conflicts mode l (s j).held ≡ false

module _ (n : ℕ) (s : ℕ → Thread) (excludes : Excludes n s) (k : ℕ) (k_lt : k < n) where
  -- Thread `k` alone has changed what it has.
  change-Excludes :
      (t : Thread)
      → ((j : ℕ)
          → j < n
          → k ≢ j
          → (l : Lock) (mode : Mode) → Has l mode t.held
          → conflicts mode l (s j).held ≡ false)
      → ((i : ℕ)
          → i < n
          → i ≢ k
          → (l : Lock) (mode : Mode) → Has l mode (s i).held
          → conflicts mode l t.held ≡ false)
      → Excludes n (update s k t)
  change-Excludes t mine others i j lt lt' ne l mode = elim (Bool-cases (i == k)) [
    | inl e ↦ elim (Bool-cases (j == k)) [
      | inl f ↦ absurd (ne ((==_iff i k).0 e ∙ sym ((==_iff j k).0 f)))
      | inr f ↦ rw (e, f) (mine j lt' (λ q. ne ((==_iff i k).0 e ∙ q)) l mode)
    ]
    | inr e ↦ elim (Bool-cases (j == k)) [
      | inl f ↦ rw (e, f) (others i lt (λ q. ne (q ∙ sym ((==_iff j k).0 f))) l mode)
      | inr f ↦ rw (e, f) (excludes i j lt lt' ne l mode)
    ]
  ]

  same-Excludes :
      (p : Program) → Excludes n (update s k (record { program = p; held = (s k).held }))
  same-Excludes p =
      change-Excludes (record { program = p; held = (s k).held })
        (λ j lt ne. excludes k j k_lt lt ne) (λ i lt ne. excludes i k lt k_lt ne)

  dropped-Excludes :
      (p : Program) (l : Lock)
      → Excludes n (update s k (record { program = p; held = drop_lock l (s k).held }))
  dropped-Excludes p l =
      change-Excludes (record { program = p; held = drop_lock l (s k).held })
        (λ j lt ne l' mode h. excludes k j k_lt lt ne l' mode (Has-drop l' l mode (s k).held h))
        (λ i lt ne l' mode h.
          conflicts-drop l' l mode (s k).held (excludes i k lt k_lt ne l' mode h))

  taken-Excludes :
      (p : Program) (l : Lock) (mode : Mode)
      → is_available n s mode l ≡ true
      → Excludes n (update s k (record { program = p; held = (l, mode) ∷ (s k).held }))
  taken-Excludes p l mode free =
      let none : (j : ℕ) → j < n → conflicts mode l (s j).held ≡ false =
        available-conflicts n s mode l free in
      change-Excludes (record { program = p; held = (l, mode) ∷ (s k).held })
        (λ j lt ne l' mode' h. elim h [
          | inl (q, r) ↦ rw (sym q, sym r) (none j lt)
          | inr h ↦ excludes k j k_lt lt ne l' mode' h
        ])
        (λ i lt ne l' mode' h.
          conflicts-cons l' l mode' mode (s k).held (excludes i k lt k_lt ne l' mode' h)
            (Has-free l l' mode mode' (s i).held h (none i lt)))

Step-Excludes : {n : ℕ} {s t : ℕ → Thread} → Excludes n s → Step n s t → Excludes n t
Step-Excludes {n} {s} ex (takes i {mode} {l} {p} lt e free) =
    taken-Excludes n s ex i lt p l mode free
Step-Excludes {n} {s} ex (frees i {l} {p} lt e) = dropped-Excludes n s ex i lt p l
Step-Excludes {n} {s} ex (touches i {mode} {l} {p} lt e) = same-Excludes n s ex i lt p
Step-Excludes {n} {s} ex (goes_left i {p} lt e) = same-Excludes n s ex i lt p
Step-Excludes {n} {s} ex (goes_right i {p} {q} lt e) = same-Excludes n s ex i lt q
Step-Excludes {n} {s} ex (picks i k {f} lt e) = same-Excludes n s ex i lt (f k)

Reach-Excludes : {n : ℕ} {cs : ℕ → List Call} {s : ℕ → Thread} → Reach n cs s → Excludes n s
Reach-Excludes start = λ i j lt lt' ne l mode h. elim h [ ]
Reach-Excludes (later run st) = Step-Excludes (Reach-Excludes run) st

exclusive_locks :
    {n : ℕ} {cs : ℕ → List Call} {s : ℕ → Thread}
    → Reach n cs s
    → (i j : ℕ) → i < n
    → j < n
    → i ≢ j
    → (l : Lock) (a b : Mode) → Has l a (s i).held
    → Has l b (s j).held
    → (a ≡ shared) × (b ≡ shared)
unfolding same_lock both_shared
exclusive_locks {s = s} run i j lt lt' ne l a b h h' =
    ground (arith, Has-free l l a b (s j).held h' (Reach-Excludes run i j lt lt' ne l a h))

-- What a thread uses is guarded by a lock that it has, in a mode that allows the use.
Covered-Has :
    (mode : Mode) (l : Lock) (held : Held)
    → Covered mode l held
    → (m : Mode) × Has l m held × Enough mode m
Covered-Has mode l [] c = elim c [ ]
Covered-Has mode l ((l', m) ∷ held) (inl (e, enough)) = (m, inl (e, refl), enough)
Covered-Has mode l ((l', m) ∷ held) (inr c) =
    let (m', h, enough) = Covered-Has mode l held c in (m', inr h, enough)

only_reads : (mode m : Mode) → m ≡ shared → Enough mode m → mode ≡ shared
only_reads shared m e h = refl
only_reads exclusive exclusive e h = cc
only_reads exclusive shared e h = elim h [ ]

-- Let any number of threads make calls of Parte1, in steps of any order, and let two of them
-- stand at a use, which its function makes under a lock, of what that same lock guards: an i-node
-- and its blocks, the entry of a handle, the search of the free blocks or of the free entries, or
-- the creation of a file. Then both only read it.
pub accesses_apart :
    {n : ℕ} {cs : ℕ → List Call} {s : ℕ → Thread}
    → Reach n cs s
    → (i j : ℕ) (a b : Mode) (l : Lock) (p q : Program) → i < n
    → j < n
    → i ≢ j
    → (s i).program ≡ uses a l p
    → (s j).program ≡ uses b l q
    → (a ≡ shared) × (b ≡ shared)
accesses_apart {s = s} run i j a b l p q lt lt' ne e e' =
    let (m, h, enough) =
      Covered-Has a l (s i).held (subst (IsOrdered (s i).held) e (Reach-Fine run i)).0 in
    let (m', h', enough') =
      Covered-Has b l (s j).held (subst (IsOrdered (s j).held) e' (Reach-Fine run j)).0 in
    let both = exclusive_locks run i j lt lt' ne l m m' h h' in
    (only_reads a m both.0 enough, only_reads b m' both.1 enough')
