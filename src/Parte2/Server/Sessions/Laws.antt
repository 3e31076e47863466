-- ===== src/Parte2/Server/Sessions/Laws.antt =====
-- The table of sessions of Parte2/tecnicofs_ex2/fs/tfs_server.c: which session a new client gets, and
-- what becomes of it.
use so_file_system.Common.{
  fun_ext, ℕ, zero, suc, ◌+◌, ◌<◌, ◌≤◌, ◌≡◌, ◌≢◌, refl, ap, ◌∙◌, ◌⊎◌, inl, inr, Option, none, some,
  Bool-cases, true, false, arith, if◌then◌else◌, ltb, lt→ltb, ℤ, pos, minus_one, is_minus_one,
  is_nonneg, update, List, [], ◌∷◌, ◌++◌, ◌==◌, ==_iff, update-update,
}
use so_file_system.Parte2.Server.State.{Server, sessions, Os, Event, wrote, closed, done}
use so_file_system.Parte2.Server.Sessions.{
  first_session, get_available_session, finish_client_session, get_client_fhandle, reserved,
}
use so_file_system.Parte2.Server.Handlers.{unmount_begin, unmount_end, int_bytes}

≤-cases : (i j : ℕ) → i ≤ j → (suc i ≤ j) ⊎ (i ≡ j)
≤-cases i j h = omega arith

<-cases : (i j : ℕ) → ((i < j) ⊎ (j < i)) ⊎ (i ≡ j)
<-cases i j = omega arith

kept : (t : ℕ → ℤ) (k j : ℕ) → j < k → t j ≡ update t k minus_one j
kept t k j h = ground arith

-- Session `i` is the first free one of `k` from `from` on.
pub record IsFirst (from k i : ℕ) (t : ℕ → ℤ) : Type 0 where
  pub least : from ≤ i
  pub inside : i < from + k
  pub is_free : t i ≡ minus_one
  pub before : (j : ℕ) → from ≤ j → j < i → t j ≢ minus_one

-- No session of `k` from `from` on is free.
abbrev pub AllTaken : ℕ → ℕ → (ℕ → ℤ) → Type 0
AllTaken from k t = (j : ℕ) → from ≤ j → j < from + k → t j ≢ minus_one

abbrev pub Search : ℕ → ℕ → (ℕ → ℤ) → Option ℕ → Type 0
Search from k t out =
    ((i : ℕ) × (out ≡ some i) × IsFirst from k i t) ⊎ ((out ≡ none) × AllTaken from k t)

is_minus_one-true : (z : ℤ) → is_minus_one z ≡ true → z ≡ minus_one
is_minus_one-true z e = ground (arith, e)

is_minus_one-false : (z : ℤ) → is_minus_one z ≡ false → z ≢ minus_one
is_minus_one-false z e = ground (arith, e)

later :
    (from k : ℕ) (t : ℕ → ℤ) (out : Option ℕ)
    → t from ≢ minus_one
    → Search (suc from) k t out
    → Search from (suc k) t out
later from k t out ne (inl (i, e, f)) = inl (
  i,
  e,
  record {
    least = omega (arith, f.least);
    inside = omega (arith, f.inside);
    is_free = f.is_free;
    before = λ j h g. elim (≤-cases from j h) [
      | inl lt ↦ f.before j lt g
      | inr q ↦ λ r. ne (ap t q ∙ r)
    ];
  },
)
later from k t out ne (inr (e, f)) = inr (
  e,
  λ j h g. elim (≤-cases from j h) [ inl lt ↦ f j lt (omega arith) | inr q ↦ λ r. ne (ap t q ∙ r) ],
)

first_session-Search : (k from : ℕ) (t : ℕ → ℤ) → Search from k t (first_session k from t)
unfolding first_session
first_session-Search zero from t = inr (refl, λ j h g. absurd (omega arith))
first_session-Search (suc k) from t = elim (Bool-cases (is_minus_one (t from))) [
  | inl e ↦ inl (
    from,
    rw e refl,
    record {
      least = omega arith;
      inside = omega arith;
      is_free = is_minus_one-true (t from) e;
      before = λ j h g. absurd (omega arith);
    },
  )
  | inr e ↦
      rw e (later from k t _ (is_minus_one-false (t from) e) (first_session-Search k (suc from) t))
]

pub finish_valid :
    (s : Server) (k : ℕ)
    → k < sessions
    → finish_client_session s (pos k)
      ≡ some (record s { clients = update s.clients k minus_one }, pos 0)
unfolding finish_client_session
finish_valid s k lt = rw (finish_client_session, lt→ltb k sessions lt) refl

-- What a new client is given.
pub record Given (s : Server) (i : ℕ) : Type 0 where
  pub first : IsFirst 0 sessions i s.clients
  pub given : get_available_session s ≡ (record s { clients = update s.clients i reserved }, pos i)
  pub undone : finish_client_session (get_available_session s).0 (pos i) ≡ some (s, pos 0)

updated_back : (t : ℕ → ℤ) (i : ℕ) (v : ℤ) → t i ≡ minus_one → update (update t i v) i minus_one ≡ t
updated_back t i v e = fun_ext λ j. ground arith

-- getAvailableSession of the server gives the first of the 20 sessions that is free and reserves
-- it, and finishing that session then leads back to the table of before; or no session is free,
-- and it returns -1 and changes nothing.
pub get_available_session-Given :
    (s : Server)
    → ((i : ℕ) × Given s i)
      ⊎ (AllTaken 0 sessions s.clients × (get_available_session s ≡ (s, minus_one)))
unfolding get_available_session
get_available_session-Given s = elim (first_session-Search sessions 0 s.clients) [
  | inl (i, e, f) ↦ inl (
    i,
    record {
      first = f;
      given = rw (get_available_session, e) refl;
      undone =
          rw
            (
              get_available_session,
              e,
              finish_valid (record s { clients = update s.clients i reserved }) i f.inside,
            )
            (ap (λ t. some (record s { clients = t }, pos 0))
              (updated_back s.clients i reserved f.is_free));
    },
  )
  | inr (e, f) ↦ inr (f, rw (get_available_session, e) refl)
]

only_free :
    (t : ℕ → ℤ) (k : ℕ)
    → k < sessions
    → t k ≡ minus_one
    → ((j : ℕ) → j < k → t j ≢ minus_one)
    → first_session sessions 0 t ≡ some k
only_free t k lt e taken = elim (first_session-Search sessions 0 t) [
  | inl (i, q, f) ↦
      let same : i ≡ k = elim (<-cases i k) [
        | inl (inl h) ↦ absurd (taken i h f.is_free)
        | inl (inr h) ↦ absurd (f.before k (omega arith) h e)
        | inr h ↦ h
      ] in
      q ∙ ap some same
  | inr (q, f) ↦ absurd (f k (omega arith) (omega arith) e)
]

pub get_available_session-first :
    (s : Server) (k : ℕ)
    → IsFirst 0 sessions k s.clients
    → get_available_session s ≡ (record s { clients = update s.clients k reserved }, pos k)
unfolding get_available_session
get_available_session-first s k f =
    let found = only_free s.clients k f.inside f.is_free (λ j h. f.before j (omega arith) h) in
    rw (get_available_session, found) refl

-- Let session k of the server be in use, and every lower session not free. Once
-- handle_tfs_unmount has finished session k for the first time, getAvailableSession gives k to a
-- new client, and the rest of handle_tfs_unmount then frees it again, in the same state in which
-- k has been given before.
pub unmount-get_available_session :
    (os : Os) (s : Server) (k : ℕ)
    → k < sessions
    → is_nonneg (s.clients k) ≡ true
    → ((j : ℕ) → j < k → s.clients j ≢ minus_one)
    → let freed = record s { clients = update s.clients k minus_one } in
      let given = record s { clients = update s.clients k reserved } in
      (unmount_begin s (pos k) ≡ some (freed, s.clients k, pos 0))
      × (get_available_session freed ≡ (given, pos k))
      × ((events : List Event) × (unmount_end os given (pos k) (s.clients k) (pos 0)
            ≡ done freed events))
unfolding unmount_begin unmount_end get_available_session get_client_fhandle
unmount-get_available_session os s k lt in_use lower =
    let small : ltb k sessions ≡ true = lt→ltb k sessions lt in
    let fd = s.clients k in
    let bytes = int_bytes (pos 0) in
    let events =
      (if os.write_succeeds fd bytes then wrote fd bytes ∷ [] else []) ++ (closed fd ∷ []) in
    let self : (k == k) ≡ true = (==_iff k k).1 refl in
    let t = update s.clients k minus_one in
    let other : (j : ℕ) → j < k → t j ≢ minus_one = λ j h q. lower j h (kept s.clients k j h ∙ q) in
    let found : first_session sessions 0 t ≡ some k = only_free t k lt (rw self refl) other in
    (
      rw (unmount_begin, get_client_fhandle, small, in_use, finish_valid s k lt) refl,
      rw (get_available_session, found)
          (ap (λ t. (record s { clients = t }, pos k))
            (update-update s.clients k minus_one reserved)),
      (
        events,
        rw (unmount_end, finish_valid (record s { clients = update s.clients k reserved }) k lt)
            (ap (λ t. done (record s { clients = t }) events)
              (update-update s.clients k reserved minus_one)),
      ),
    )
