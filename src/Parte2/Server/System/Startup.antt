-- ===== src/Parte2/Server/System/Startup.antt =====
-- A request that Parte2/tecnicofs_ex2/fs/tfs_server.c accepts before its session's thread has locked the
-- session's mutex for the first time.
use so_file_system.Common.{
  ℕ, ◌<◌, ◌≤◌, ◌≡◌, refl, subst, true, false, List, ◌∷◌, update, ◌==◌, ==_iff,
}
use so_file_system.Memory.{Bytes}
use so_file_system.Memory.Wide.{copy_bytes}
use so_file_system.Memory.Wide.Laws.{Agrees}
use so_file_system.Parte2.Server.State.{Server, sessions, input_buffer_size, Event, Os, done}
use so_file_system.Parte2.Server.Threads.{
  write_to_buffer, run_client_request, asks_shutdown, read_from_buffer,
}
use so_file_system.Parte2.Server.Delivery.{buffer-Agrees}
use so_file_system.Parte2.Server.Buffers.{SameBuffers, Keeps, run_client_request-Keeps}
use so_file_system.Parte2.Server.System.{
  reading, writing, starting, testing, asleep, serving, mutex_free, wake, System, fetch, hand_over,
  writes, signals, locks, sleeps, proceeds, awakes, serves, Run, stop, later,
}

-- What the thread takes out first, and the server then.
abbrev pub first_fetch : System → Bytes → ℕ → ℕ → Bytes → Server × Bytes
first_fetch s m k n b = read_from_buffer (write_to_buffer s.server m k n) b k

module _ (os : Os) (stack : Bytes) (s : System) (m b : Bytes) (k n : ℕ) (s1 : Server)
    (events : List Event) (valid : k < sessions) (fits : n ≤ input_buffer_size)
    (coming : s.receiver_pc ≡ writing m k n) (early : s.senders k ≡ starting b)
    (served_one : run_client_request os stack (first_fetch s m k n b).0 (first_fetch s m k n b).1
      ≡ done s1 events)
    (goes_on : asks_shutdown (first_fetch s m k n b).1 ≡ false) where
  same : (k == k) ≡ true
  same = (==_iff k k).1 refl

  abbrev once : Bytes
  once = (first_fetch s m k n b).1

  abbrev t1 : System
  t1 = hand_over s m k n

  abbrev t2 : System
  t2 = record t1 { senders = update t1.senders k (testing b) }

  abbrev t3 : System
  t3 = fetch t2 k b

  abbrev t4 : System
  t4 = record t3 { server = s1; senders = update t3.senders k (testing once) }

  abbrev t5 : System
  t5 = record t4 { senders = update t4.senders k (asleep once) }

  abbrev t6 : System
  t6 = record t5 { receiver_pc = reading; senders = update t5.senders k (wake (t5.senders k)) }

  kept : SameBuffers (first_fetch s m k n b).0 s1
  kept =
      subst (Keeps (first_fetch s m k n b).0) served_one
        (run_client_request-Keeps os stack (first_fetch s m k n b).0 once)

  emptied : s1.readable k ≡ false
  unfolding read_from_buffer
  emptied = rw (kept.0, same) refl

  run : Run s (fetch t6 k once)
  unfolding hand_over fetch mutex_free wake write_to_buffer read_from_buffer
  run =
      later
        (later
          (later
            (later
              (later (later (later stop (writes coming (rw early refl))) (locks k valid early))
                (proceeds k valid (rw same refl) (rw same refl)))
              (serves os stack k valid (rw same refl) served_one goes_on))
            (sleeps k valid (rw same refl) emptied))
          (signals refl))
        (awakes k valid (rw same refl))

  same_request : (old : Bytes) → Agrees n m (copy_bytes old 0 (s1.info k) 0 input_buffer_size)
  unfolding read_from_buffer
  same_request old = rw kept.1 (buffer-Agrees old m s.server k n fits)

  -- Let the receiver be about to put a message of at most 1041 bytes into the buffer of a session
  -- whose thread has not locked its mutex yet, and let the request that the thread then takes out
  -- be served without a wait and not end the server. Then the threads can go on such that the
  -- thread takes the message out twice, each time with its bytes, and is about to run it for the
  -- second time.
  pub early_request_twice :
      (t : System) × (b1 : Bytes) × (b2 : Bytes) × Run s t
      × (t.handed k ≡ (m, n) ∷ s.handed k)
      × (t.fetched k ≡ b2 ∷ b1 ∷ s.fetched k)
      × (t.senders k ≡ serving b2)
      × Agrees n m b1
      × Agrees n m b2
  unfolding hand_over fetch mutex_free wake read_from_buffer
  early_request_twice = (
    fetch t6 k once,
    once,
    copy_bytes once 0 (s1.info k) 0 input_buffer_size,
    run,
    rw same refl,
    rw same refl,
    rw same refl,
    buffer-Agrees b m s.server k n fits,
    same_request once,
  )
