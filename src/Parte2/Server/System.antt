-- ===== src/Parte2/Server/System.antt =====
-- The threads of Parte2/tecnicofs_ex2/fs/tfs_server.c together: the receiver and one sender for each
-- session, which share the sessions' buffers, mutexes and condition variables. A step is what a thread
-- does between two points at which another may get in.
pub mod Invariant
pub mod Exactly
pub mod Startup
mod Tests
use so_file_system.Common.{
  ℕ, ◌<◌, ◌≡◌, ℤ, is_nonneg, minus_one, index, Option, none, some, Bool, true, false, List, [], ◌∷◌,
  update, if◌then◌else◌,
}
use so_file_system.Memory.{Bytes, load_int}
use so_file_system.Parte2.Operations.{tfs_init}
use so_file_system.Parte2.Server.State.{Server, sessions, Event, Os, Outcome, done, waits, exits}
use so_file_system.Parte2.Server.Sessions.{init_pc_buffers, init_clients_fhandle}
use so_file_system.Parte2.Server.Handlers.{shutdown_end}
use so_file_system.Parte2.Server.Threads.{
  write_to_buffer, Receiver, Received, nothing, request, receive_round, run_client_request,
  asks_shutdown, read_from_buffer,
}

-- threadReceiver: at the head of its loop; about to write a message of some bytes to a session's
-- buffer; about to signal a session's condition variable.
pub data ReceiverPc : Type 0 where
  reading : ReceiverPc
  writing : Bytes → ℕ → ℕ → ReceiverPc
  signalling : ℕ → ReceiverPc

-- threadSender, with its `buffer`: before it locks its session's mutex; at the test of `readable`; in
-- pthread_cond_wait; there, but signalled; about to run the request in `buffer`; in the wait of
-- tfs_destroy_after_all_closed, with the descriptor that it has read.
pub data SenderPc : Type 0 where
  starting : Bytes → SenderPc
  testing : Bytes → SenderPc
  asleep : Bytes → SenderPc
  woken : Bytes → SenderPc
  serving : Bytes → SenderPc
  shutting : Bytes → ℤ → SenderPc

-- A sender holds its session's mutex at all points but three.
unfoldable pub mutex_free : SenderPc → Bool
mutex_free (starting b) = true
mutex_free (asleep b) = true
mutex_free (woken b) = true
mutex_free _ = false

-- pthread_cond_signal: it wakes a thread that waits, and is lost where none does.
unfoldable pub wake : SenderPc → SenderPc
wake (asleep b) = woken b
wake other = other

-- The threads' state, and two histories of each session, the latest first: the messages put into its
-- buffer, with their sizes, and what its thread has taken out.
pub record System : Type 0 where
  pub server : Server
  pub receiver : Receiver
  pub receiver_pc : ReceiverPc
  pub senders : ℕ → SenderPc
  pub handed : ℕ → List (Bytes × ℕ)
  pub fetched : ℕ → List Bytes

-- Sender `k` takes what lies in its session's buffer, whether or not it is readable.
unfoldable pub fetch : System → ℕ → Bytes → System
fetch s k b =
    let (server, m) = read_from_buffer s.server b k in
    record s {
      server = server;
      senders = update s.senders k (serving m);
      fetched = update s.fetched k (m ∷ s.fetched k);
    }

unfoldable pub hand_over : System → Bytes → ℕ → ℕ → System
hand_over s m k n = record s {
  server = write_to_buffer s.server m k n;
  receiver_pc = signalling k;
  handed = update s.handed k ((m, n) ∷ s.handed k);
}

-- The wait for condVar can end: tfs_close signals it when it leaves -1 in openFiles, and unlocks.
abbrev pub IsSignalled : Server → Type 0
IsSignalled s = (s.fs.open_files ≡ minus_one) × (s.fs.locked ≡ false)

-- A step of a thread. Calls of the library that fail end the process, and a handler that blocks or
-- faults takes no further step.
pub data Step (s : System) : System → Type 0 where
  receives :
      (os : Os) (stack : Bytes) (pipe : List ℕ) {s1 : Server} {r1 : Receiver} {m : Bytes} {k n : ℕ}
      → s.receiver_pc ≡ reading
      → receive_round os stack s.server s.receiver pipe ≡ request s1 r1 m k n
      → Step s (record s { server = s1; receiver = r1; receiver_pc = writing m k n })
  turns_away :
      (os : Os) (stack : Bytes) (pipe : List ℕ) {s1 : Server} {r1 : Receiver} {events : List Event}
      → s.receiver_pc ≡ reading
      → receive_round os stack s.server s.receiver pipe ≡ nothing s1 r1 events
      → Step s (record s { server = s1; receiver = r1 })
  writes :
      {m : Bytes} {k n : ℕ}
      → s.receiver_pc ≡ writing m k n
      → mutex_free (s.senders k) ≡ true
      → Step s (hand_over s m k n)
  signals :
      {k : ℕ}
      → s.receiver_pc ≡ signalling k
      → Step s
          (record s { receiver_pc = reading; senders = update s.senders k (wake (s.senders k)) })
  locks :
      (k : ℕ) {b : Bytes}
      → k < sessions
      → s.senders k ≡ starting b
      → Step s (record s { senders = update s.senders k (testing b) })
  sleeps :
      (k : ℕ) {b : Bytes}
      → k < sessions
      → s.senders k ≡ testing b
      → s.server.readable k ≡ false
      → Step s (record s { senders = update s.senders k (asleep b) })
  proceeds :
      (k : ℕ) {b : Bytes}
      → k < sessions
      → s.senders k ≡ testing b
      → s.server.readable k ≡ true
      → Step s (fetch s k b)
  awakes : (k : ℕ) {b : Bytes} → k < sessions → s.senders k ≡ woken b → Step s (fetch s k b)
  serves :
      (os : Os) (stack : Bytes) (k : ℕ) {b : Bytes} {s1 : Server} {events : List Event}
      → k < sessions
      → s.senders k ≡ serving b
      → run_client_request os stack s.server b ≡ done s1 events
      → asks_shutdown b ≡ false
      → Step s (record s { server = s1; senders = update s.senders k (testing b) })
  shuts :
      (os : Os) (stack : Bytes) (k : ℕ) {b : Bytes} {s1 : Server}
      → k < sessions
      → s.senders k ≡ serving b
      → run_client_request os stack s.server b ≡ waits s1
      → Step s (record s {
        server = s1;
        senders = update s.senders k (shutting b (s.server.clients (index (load_int b 1))));
      })
  resumes :
      (os : Os) (k : ℕ) {b : Bytes} {fclient : ℤ} {s1 : Server} {events : List Event}
      → k < sessions
      → s.senders k ≡ shutting b fclient
      → IsSignalled s.server
      → shutdown_end os s.server (index (load_int b 1)) fclient ≡ done s1 events
      → asks_shutdown b ≡ false
      → Step s (record s { server = s1; senders = update s.senders k (testing b) })

-- The steps after which the process is no more: a request for which the server ends, or one that
-- cannot go on.
pub data Ends (s : System) : Type 0 where
  ends :
      (os : Os) (stack : Bytes) (k : ℕ) {b : Bytes} {s1 : Server} {events : List Event}
      → k < sessions
      → s.senders k ≡ serving b
      → run_client_request os stack s.server b ≡ done s1 events
      → asks_shutdown b ≡ true
      → Ends s
  ends_late :
      (os : Os) (k : ℕ) {b : Bytes} {fclient : ℤ} {s1 : Server} {events : List Event}
      → k < sessions
      → s.senders k ≡ shutting b fclient
      → IsSignalled s.server
      → shutdown_end os s.server (index (load_int b 1)) fclient ≡ done s1 events
      → asks_shutdown b ≡ true
      → Ends s
  fails :
      (os : Os) (stack : Bytes) (k : ℕ) {b : Bytes}
      → k < sessions
      → s.senders k ≡ serving b
      → run_client_request os stack s.server b ≡ exits
      → Ends s

-- The threads as `main` creates them, with what malloc gives each.
abbrev pub spawned : Server → Receiver → (ℕ → Bytes) → System
spawned s receiver buffers = record {
  server = s;
  receiver = receiver;
  receiver_pc = reading;
  senders = λ k. starting (buffers k);
  handed = λ k. [];
  fetched = λ k. [];
}

-- `main` up to its threads; `none` where tfs_init fails.
unfoldable pub start_server : Server → Receiver → (ℕ → Bytes) → Option System
start_server s receiver buffers =
    let s1 = init_pc_buffers (init_clients_fhandle s) in
    let (fs, r) = tfs_init s1.fs in
    if is_nonneg r then some (spawned (record s1 { fs = fs }) receiver buffers) else none

pub data Run (s : System) : System → Type 0 where
  stop : Run s s
  later : {t u : System} → Run s t → Step t u → Run s u
