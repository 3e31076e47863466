-- ===== src/Parte2/Server/System/Invariant.antt =====
-- What holds of the threads of Parte2/tecnicofs_ex2/fs/tfs_server.c between two steps, where every
-- client waits for an answer before it sends its next request.
use so_file_system.Common.{
  changed_at, suc, ℕ, ◌<◌, ◌≤◌, ◌≡◌, refl, ap, ◌∙◌, subst, ◌⊎◌, Bool, true, false, not, ◌&&◌, ◌==◌,
  List, [], ◌∷◌, arith, update, if◌then◌else◌, length, ==_iff, inl, inr,
}
use so_file_system.Memory.{Bytes}
use so_file_system.Memory.Wide.Laws.{Agrees}
use so_file_system.Memory.Wide.{copy_bytes}
use so_file_system.Parte2.Server.State.{Server, input_buffer_size, sessions}
use so_file_system.Parte2.Server.Threads.{Receiver, read_from_buffer, write_to_buffer}
use so_file_system.Parte2.Server.Delivery.{copied_byte}
use so_file_system.Parte2.Server.Buffers.{
  SameBuffers, Keeps, Rounds, run_client_request-Keeps, shutdown_end-Keeps, receive_round-Rounds,
}
use so_file_system.Parte2.Server.System.{
  ReceiverPc, reading, writing, signalling, SenderPc, starting, testing, asleep, woken, shutting,
  mutex_free, wake, System, fetch, hand_over, Step, receives, turns_away, writes, signals, locks,
  sleeps, proceeds, awakes, serves, shuts, resumes,
}

-- Message by message, what was taken out begins with the bytes that were put in.
pub data Each : List (Bytes × ℕ) → List Bytes → Type 0 where
  no_message : Each [] []
  and :
      {m : Bytes} {n : ℕ} {b : Bytes} {hs : List (Bytes × ℕ)} {bs : List Bytes}
      → Agrees n m b
      → Each hs bs
      → Each ((m, n) ∷ hs) (b ∷ bs)

pub Each-length : {hs : List (Bytes × ℕ)} {bs : List Bytes} → Each hs bs → length hs ≡ length bs
Each-length no_message = refl
Each-length (and same e) = ap suc (Each-length e)

-- A session's histories, whether its buffer is readable, and the buffer: the last message put in lies
-- there until it is taken out.
abbrev pub Delivered : Bool → List (Bytes × ℕ) → List Bytes → Bytes → Type 0
Delivered false hs bs info = Each hs bs
Delivered true [] bs info = ⊥
Delivered true ((m, n) ∷ hs) bs info = Each hs bs × Agrees n m info × (n ≤ input_buffer_size)

abbrev pub signals_to : ReceiverPc → ℕ → Bool
signals_to (signalling j) k = j == k
signals_to _ k = false

-- Where a session's thread can be.
abbrev pub fits : Bool → Bool → SenderPc → Bool
fits signal readable (asleep b) = if signal then readable else not readable
fits signal readable (woken b) = readable && not signal
fits signal readable _ = not readable && not signal

abbrev pub InBounds : ReceiverPc → Type 0
InBounds (writing m k n) = (k < sessions) × (n ≤ input_buffer_size)
InBounds _ = Unit

pub record Inv (s : System) : Type 0 where
  pub delivered :
      (k : ℕ) → Delivered (s.server.readable k) (s.handed k) (s.fetched k) (s.server.info k)
  pub fitting :
      (k : ℕ) → fits (signals_to s.receiver_pc k) (s.server.readable k) (s.senders k) ≡ true
  pub in_bounds : InBounds s.receiver_pc

-- A request is for a session whose thread has started and has taken all requests before it.
unfoldable pub is_starting : SenderPc → Bool
is_starting (starting b) = true
is_starting _ = false

abbrev pub Polite : System → Type 0
Polite s =
    (m : Bytes) (k n : ℕ)
    → s.receiver_pc ≡ writing m k n
    → (is_starting (s.senders k) ≡ false) × (length (s.handed k) ≡ length (s.fetched k))

module _ (hs : List (Bytes × ℕ)) (bs : List Bytes) (info : Bytes) where
  copied_in :
      (m : Bytes) (n : ℕ)
      → n ≤ input_buffer_size
      → Each hs bs
      → Delivered true ((m, n) ∷ hs) bs (copy_bytes info 0 m 0 n)
  copied_in m n le e = (e, λ q lt. copied_byte info m n q lt, le)

pub copied_out :
    (hs : List (Bytes × ℕ)) (bs : List Bytes) (info b : Bytes)
    → Delivered true hs bs info
    → Each hs (copy_bytes b 0 info 0 input_buffer_size ∷ bs)
copied_out [] bs info b h = elim h [ ]
copied_out ((m, n) ∷ hs) bs info b (e, same, le) =
    and (λ q lt. copied_byte b info input_buffer_size q (omega arith) ∙ same q lt) e

-- Nothing lies in a buffer whose messages have all been taken out.
all_taken :
    (readable : Bool) (hs : List (Bytes × ℕ)) (bs : List Bytes) (info : Bytes)
    → Delivered readable hs bs info
    → length hs ≡ length bs
    → readable ≡ false
all_taken false hs bs info d e = refl
all_taken true [] bs info d e = elim d [ ]
all_taken true ((m, n) ∷ hs) bs info (each, same, le) e = absurd (omega (arith, Each-length each))

-- The thread of a readable buffer has been woken, or is about to be.
pub wake_cases :
    (p : ReceiverPc) (k : ℕ) (c : SenderPc)
    → fits (signals_to p k) true c ≡ true
    → ((b : Bytes) × (c ≡ woken b)) ⊎ ((b : Bytes) × (c ≡ asleep b) × (p ≡ signalling k))
wake_cases p k (woken b) h = inl (b, refl)
wake_cases (signalling j) k (asleep b) h =
    inr (b, refl, ap signalling ((==_iff j k).0 (ground (arith, h))))
wake_cases p k c h = ground arith

module _ {s : System} (inv : Inv s) where
  hand_over-Inv :
      (m : Bytes) (k n : ℕ)
      → s.receiver_pc ≡ writing m k n
      → Polite s
      → mutex_free (s.senders k) ≡ true
      → Inv (hand_over s m k n)
  unfolding hand_over mutex_free is_starting write_to_buffer
  hand_over-Inv m k n e polite free = record {
    delivered =
        changed_at
          (λ c j.
            Delivered (if c then true else s.server.readable j)
              (if c then (m, n) ∷ s.handed k else s.handed j) (s.fetched j)
              (if c then copy_bytes (s.server.info k) 0 m 0 n else s.server.info j))
          k
          (copied_in (s.handed k) (s.fetched k) (s.server.info k) m n
            (subst InBounds e inv.in_bounds).1
            (subst (λ r. Delivered r (s.handed k) (s.fetched k) (s.server.info k)) (empty)
              (inv.delivered k)))
          inv.delivered;
    fitting = λ j. ground (arith, inv.fitting j, inv.fitting k, e, free, (polite m k n e).0, empty);
    in_bounds = tt;
  }
    where
      empty : s.server.readable k ≡ false
      empty =
          all_taken (s.server.readable k) (s.handed k) (s.fetched k) (s.server.info k)
            (inv.delivered k) (polite m k n e).1

  fetch-Inv :
      (k : ℕ) (b : Bytes)
      → s.server.readable k ≡ true
      → signals_to s.receiver_pc k ≡ false
      → Inv (fetch s k b)
  unfolding fetch read_from_buffer
  fetch-Inv k b e quiet = record {
    delivered =
        changed_at
          (λ c j.
            Delivered (if c then false else s.server.readable j) (s.handed j)
              (if c
                then copy_bytes b 0 (s.server.info k) 0 input_buffer_size ∷ s.fetched k
                else s.fetched j)
              (s.server.info j))
          k
          (copied_out (s.handed k) (s.fetched k) (s.server.info k) b (
            subst (λ r. Delivered r (s.handed k) (s.fetched k) (s.server.info k)) e
              (inv.delivered k)))
          inv.delivered;
    fitting = λ j. ground (arith, inv.fitting j);
    in_bounds = inv.in_bounds;
  }

  -- The buffers and histories stay as they are, and every sender goes where it may be.
  others-Inv :
      (server : Server) (r : Receiver) (p : ReceiverPc) (senders : ℕ → SenderPc)
      → SameBuffers s.server server
      → ((k : ℕ) → fits (signals_to p k) (s.server.readable k) (senders k) ≡ true)
      → InBounds p
      → Inv (record s { server = server; receiver = r; receiver_pc = p; senders = senders })
  others-Inv server r p senders (readable, info) f b = record {
    delivered = λ k. rw (readable, info) (inv.delivered k);
    fitting = λ k. rw readable (f k);
    in_bounds = b;
  }

  -- Thread `k` alone moves, to a point that suits the buffer as much as the one before.
  sender-Inv :
      (server : Server) (k : ℕ) (p : SenderPc)
      → SameBuffers s.server server
      → ((signal readable : Bool)
          → fits signal readable (s.senders k) ≡ true
          → fits signal readable p ≡ true)
      → Inv (record s { server = server; senders = update s.senders k p })
  sender-Inv server k p same h =
      others-Inv server s.receiver s.receiver_pc (update s.senders k p) same
        (changed_at
          (λ c j.
            fits (signals_to s.receiver_pc j) (s.server.readable j) (if c then p else s.senders j)
            ≡ true)
          k (h _ _ (inv.fitting k)) inv.fitting)
        inv.in_bounds

  -- The buffer of a thread that is to take a request out.
  full : (k : ℕ) (b : Bytes) → s.senders k ≡ woken b → Inv (fetch s k b)
  full k b e = fetch-Inv k b (ground (arith, inv.fitting k, e)) (ground (arith, inv.fitting k, e))

pub Step-Inv : {s t : System} → Inv s → Polite s → Step s t → Inv t
unfolding mutex_free wake
Step-Inv {s} inv polite (receives os stack pipe {s1} {r1} {m} {k} {n} e h) =
    let (same, lt, le) =
      subst (Rounds s.server) h (receive_round-Rounds os stack s.server s.receiver pipe) in
    others-Inv inv s1 r1 (writing m k n) s.senders same (λ j. ground (arith, inv.fitting j, e))
      (lt, le)
Step-Inv {s} inv polite (turns_away os stack pipe {s1} {r1} e h) =
    others-Inv inv s1 r1 s.receiver_pc s.senders
      (subst (Rounds s.server) h (receive_round-Rounds os stack s.server s.receiver pipe))
      inv.fitting inv.in_bounds
Step-Inv inv polite (writes {m} {k} {n} e free) = hand_over-Inv inv m k n e polite free
Step-Inv {s} inv polite (signals {k} e) =
    others-Inv inv s.server s.receiver reading _ (refl, refl)
      (λ j. ground (arith, inv.fitting j, inv.fitting k, e)) tt
Step-Inv {s} inv polite (locks k {b} lt e) =
    sender-Inv inv s.server k (testing b) (refl, refl) (λ g r. rw e (λ h. h))
Step-Inv {s} inv polite (sleeps k {b} lt e empty) =
    others-Inv inv s.server s.receiver s.receiver_pc _ (refl, refl)
      (λ j. ground (arith, inv.fitting j, inv.fitting k, e)) inv.in_bounds
Step-Inv {s} inv polite (proceeds k {b} lt e readable) =
    absurd (ground (arith, inv.fitting k, e, readable))
Step-Inv inv polite (awakes k {b} lt e) = full inv k b e
Step-Inv {s} inv polite (serves os stack k {b} {s1} lt e h goes) =
    sender-Inv inv s1 k (testing b)
      (subst (Keeps s.server) h (run_client_request-Keeps os stack s.server b))
      (λ g r. rw e (λ h. h))
Step-Inv {s} inv polite (shuts os stack k {b} {s1} lt e h) =
    sender-Inv inv s1 k (shutting b _)
      (subst (Keeps s.server) h (run_client_request-Keeps os stack s.server b))
      (λ g r. rw e (λ h. h))
Step-Inv {s} inv polite (resumes os k {b} {s1} lt e signalled h goes) =
    sender-Inv inv s1 k (testing b) (subst (Keeps s.server) h (shutdown_end-Keeps os s.server _ _))
      (λ g r. rw e (λ h. h))
