-- ===== src/Parte2/Shutdown/Steps.antt =====
-- The shutdown of Parte2/tecnicofs_ex2/fs/operations.c: what each call does to the count.
use so_file_system.Common.{
  ℕ, zero, suc, ◌<◌, ◌≡◌, refl, sym, ap, subst, ◌∙◌, inl, inr, ℤ, pos, negsuc, minus_one,
  is_minus_one, Option, none, some, List, Bool, true, false, Bool-cases, arith, if◌then◌else◌, ltb,
  ◌==◌, lt→ltb,
}
use so_file_system.Parte2.State.{State}
use so_file_system.Parte2.Operations.{synchronized, tfs_open, tfs_close, destroy_begin}
use so_file_system.Parte2.Counter.{open_count, IsCounted, StaysCounted}
use so_file_system.Parte2.Counter.Opens.{Same, tfs_open_running, tfs_open_refused}
use so_file_system.Parte2.Counter.Closes.{Closed, tfs_close-Closed, destroy_begin-waits}
use so_file_system.Parte2.Shutdown.{Phase, running, waiting, past, wake, CountedIn}

-- A call that has returned has found the lock free.
pub returned_unlocked :
    {A : Type 0} (s : State) (c : Option A) (x : A)
    → (s.locked ≡ true → c ≡ none)
    → c ≡ some x
    → s.locked ≡ false
returned_unlocked s c x blocked e = elim (Bool-cases s.locked) [
  | inl l ↦ absurd (cc (sym e ∙ blocked l))
  | inr l ↦ l
]

same-CountedIn :
    (p : Phase) (s t : State)
    → t.open_files ≡ s.open_files
    → t.free_open_file_entries ≡ s.free_open_file_entries
    → CountedIn p s
    → CountedIn p t
same-CountedIn running s t e d c = rw (e, d) c
same-CountedIn waiting s t e d c = rw (e, d) c
same-CountedIn past s t e d c = rw (e, d) c

-- A call has one outcome.
determined :
    {A : Type 0} (d : State) (c : Option (State × A)) (x y : State × A)
    → c ≡ some x
    → c ≡ some y
    → x.0 ≡ y.0
determined d c x y e f =
    ap (λ o. elim o as (λ o. State) [ none ↦ d | some out ↦ out.0 ]) (sym e ∙ f)

pub open_step :
    (p : Phase) (s s1 : State) (name : Option (List ℕ)) (flags : ℕ) (r : ℤ)
    → CountedIn p s
    → s.locked ≡ false
    → tfs_open s name flags ≡ some (s1, r)
    → CountedIn p s1
open_step running s s1 name flags r c unlocked e =
    let (t, q, f, d) = tfs_open_running s name flags c unlocked in
    subst (CountedIn running) (determined s (tfs_open s name flags) (t, q) (s1, r) f e) d
open_step waiting s s1 name flags r c unlocked e =
    subst (CountedIn waiting)
      (determined s (tfs_open s name flags) (record s { locked = true }, minus_one) (s1, r)
        (tfs_open_refused s name flags (open_count s) c.0 unlocked) e)
      c
open_step past s s1 name flags r c unlocked e =
    subst (CountedIn past)
      (determined s (tfs_open s name flags) (record s { locked = true }, minus_one) (s1, r)
        (tfs_open_refused s name flags (open_count s) c.0 unlocked) e)
      c

counts : (p : Phase) (s : State) → CountedIn p s → IsCounted s
counts running s c = inl c
counts waiting s c = inr c.0
counts past s c = inr c.0

negative :
    (s t : State)
    → s.open_files ≡ negsuc (open_count s)
    → StaysCounted s t
    → t.open_files ≡ negsuc (open_count t)
negative s t c (inl (e, f)) = absurd (cc (sym e ∙ c))
negative s t c (inr (e, f)) = f

positive :
    (s t : State)
    → s.open_files ≡ pos (open_count s)
    → StaysCounted s t
    → t.open_files ≡ pos (open_count t)
positive s t c (inl (e, f)) = f
positive s t c (inr (e, f)) = absurd (cc (sym e ∙ c))

is_zero : (n : ℕ) → (n == 0) ≡ true → n ≡ 0
is_zero n h = ground arith

not_zero : (n : ℕ) → (n == 0) ≡ false → 0 < n
not_zero n h = ground arith

-- A successful close while the shutdown waits.
last_step :
    (t : State) (signal : Bool)
    → t.open_files ≡ negsuc (open_count t)
    → signal ≡ is_minus_one t.open_files
    → CountedIn (wake waiting signal) t
last_step t signal c e = elim (Bool-cases (open_count t == 0)) [
  | inl z ↦
      let woken : signal ≡ true = e ∙ ap is_minus_one c ∙ z in
      rw woken (c, is_zero (open_count t) z)
  | inr z ↦
      let asleep : signal ≡ false = e ∙ ap is_minus_one c ∙ z in
      rw asleep (c, not_zero (open_count t) z)
]

close_step :
    (p : Phase) (s : State) (out : Option (State × (ℤ × Bool)))
    → CountedIn p s
    → (w : Closed s out) → CountedIn (wake p w.signal) w.after
close_step running s out c w = positive s w.after c w.counted
close_step waiting s out c w = elim w.outcome [
  | inl (r, same, quiet) ↦ rw quiet (negative s w.after c.0 w.counted, omega (arith, same, c.1))
  | inr (r, less, signal) ↦ last_step w.after w.signal (negative s w.after c.0 w.counted) signal
]
close_step past s out c w = elim w.outcome [
  | inl (r, same, quiet) ↦ (negative s w.after c.0 w.counted, same ∙ c.1)
  | inr (r, less, signal) ↦ absurd (omega (arith, less, c.1))
]

begun :
    (t : State) (n : ℕ)
    → t.open_files ≡ negsuc (open_count t)
    → open_count t ≡ n
    → CountedIn (if ltb 0 n then waiting else past) t
begun t zero c same = (c, same)
begun t (suc n) c same = rw (lt→ltb 0 (suc n) (omega arith)) (c, omega (arith, same))

pub begin_step :
    (s s1 : State) (waits : Bool)
    → CountedIn running s
    → s.locked ≡ false
    → destroy_begin s ≡ some (s1, waits)
    → CountedIn (if waits then waiting else past) s1
begin_step s s1 waits c unlocked e =
    let (t, v, f, counted, same, when) = destroy_begin-waits s c unlocked in
    let state : t ≡ s1 = determined s (destroy_begin s) (t, v) (s1, waits) f e in
    let flag : v ≡ waits =
      ap (λ o. elim o as (λ o. Bool) [ none ↦ waits | some out ↦ out.1 ]) (sym f ∙ e) in
    subst (λ u. CountedIn (if waits then waiting else past) u) state
      (subst (λ b. CountedIn (if b then waiting else past) t) (sym when ∙ flag)
        (begun t (open_count s) counted same))

pub close_returned :
    (p : Phase) (s s1 : State) (fhandle r : ℤ) (signal : Bool)
    → CountedIn p s
    → s.locked ≡ false
    → tfs_close s fhandle ≡ some (s1, (r, signal))
    → CountedIn (wake p signal) s1
close_returned p s s1 fhandle r signal c unlocked e =
    let w = tfs_close-Closed s fhandle (counts p s c) unlocked in
    let state : w.after ≡ s1 =
      determined s (tfs_close s fhandle) (w.after, (w.result, w.signal)) (s1, (r, signal)) w.returns
        e in
    let flag : w.signal ≡ signal =
      ap (λ o. elim o as (λ o. Bool) [ none ↦ signal | some out ↦ out.1.1 ]) (sym w.returns ∙ e) in
    subst (CountedIn (wake p signal)) state
      (subst (λ b. CountedIn (wake p b) w.after) flag (close_step p s (tfs_close s fhandle) c w))

-- A call whose body leaves the counter and the handles alone.
pub call_step :
    {A : Type 0} (p : Phase) (s s1 : State) (body : State → State × A) (r : A)
    → Same (record s { locked = true }) (body (record s { locked = true })).0
    → CountedIn p s
    → s.locked ≡ false
    → synchronized body s ≡ some (s1, r)
    → CountedIn p s1
unfolding synchronized
call_step p s s1 body r same c unlocked e =
    let out = body (record s { locked = true }) in
    let t = record out.0 { locked = false } in
    let returns : synchronized body s ≡ some (t, out.1) = rw (unlocked, synchronized) refl in
    subst (CountedIn p) (determined s (synchronized body s) (t, out.1) (s1, r) returns e)
      (same-CountedIn p s t same.0 same.1 c)
