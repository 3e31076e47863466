-- ===== src/Parte2/Server/System/Tests.antt =====
-- Examples on the server with one mounted client, who unmounts.
use so_file_system.Common.{
  ◌≡◌, refl, pos, minus_one, arith, [], ◌∷◌, true, false, update, slice, ◌==◌, if◌then◌else◌,
}
use so_file_system.Memory.{Bytes, load_int, store_int, store_byte}
use so_file_system.Memory.Wide.{copy_bytes}
use so_file_system.Memory.Wide.Laws.{Agrees}
use so_file_system.Parte2.Operations.{tfs_init}
use so_file_system.Parte2.Tests.{sample}
use so_file_system.Parte2.Client.{header, op_unmount}
use so_file_system.Parte2.Server.State.{Server, Os, wrote, closed, done}
use so_file_system.Parte2.Server.Sessions.{
  init_pc_buffers, init_clients_fhandle, get_client_fhandle, finish_client_session,
}
use so_file_system.Parte2.Server.Handlers.{
  int_bytes, handle_tfs_unmount, unmount_begin, unmount_end,
}
use so_file_system.Parte2.Server.Threads.{
  get_client_info_max_size, write_to_buffer, Receiver, run_client_request, asks_shutdown,
  read_from_buffer,
}
use so_file_system.Parte2.Server.Delivery.{IsSessionRequest, received, received_round}
use so_file_system.Parte2.Server.System.{
  reading, writing, testing, asleep, serving, mutex_free, System, hand_over, spawned, receives,
  writes, locks, sleeps, Run,
}
use so_file_system.Parte2.Server.System.Invariant.{Polite, is_starting}
use so_file_system.Parte2.Server.System.Exactly.{
  PoliteRun, at_start, after_step, Accounted, Soon, Taken, start_server-spawned, exactly_once,
  readable-Taken,
}
use so_file_system.Parte2.Server.System.Startup.{first_fetch, early_request_twice}

abbrev blank : Bytes
blank = λ q. 85

abbrev os : Os
os = record { open_pipe = λ name. pos 7; write_succeeds = λ fd bytes. true; stack_room = 8000000 }

abbrev receiver : Receiver
receiver = record { buffer_in = blank; bytes_to_read = 0 }

abbrev memory : Server
memory = record {
  fs = sample 3;
  clients = λ i. minus_one;
  readable = λ i. false;
  info = λ i. blank;
}

abbrev leaving : Bytes
leaving = header blank op_unmount (pos 0)

leaving_fits : IsSessionRequest (leaving 0) 4
unfolding get_client_info_max_size store_byte store_int
leaving_fits = (λ len. refl, refl, refl, omega arith, omega arith)

leaving_names : load_int leaving 1 ≡ pos 0
unfolding store_byte load_int store_int
leaving_names = refl

abbrev started : System
started =
    spawned (record (init_pc_buffers (init_clients_fhandle memory)) { fs = (tfs_init memory.fs).0 })
      receiver (λ k. blank)

abbrev ready : System
ready = record started {
  senders = update (update started.senders 0 (testing blank)) 0 (asleep blank);
}

abbrev got : System
got = record ready {
  receiver = record { buffer_in = received blank leaving 4; bytes_to_read = 4 };
  receiver_pc = writing (received blank leaving 4) 0 5;
}

abbrev waiting : System
waiting = hand_over got (received blank leaving 4) 0 5

idle_Polite : (s : System) → s.receiver_pc ≡ reading → Polite s
idle_Polite s e m k n f = cc

got-Polite : Polite got
unfolding is_starting
got-Polite m k n e = (ground arith, refl)

first_steps : PoliteRun started waiting
unfolding mutex_free init_pc_buffers init_clients_fhandle
first_steps =
    after_step
      (after_step
        (after_step (after_step at_start (idle_Polite started refl) (locks 0 (omega arith) refl))
          (idle_Polite (record started { senders = update started.senders 0 (testing blank) }) refl)
          (sleeps 0 (omega arith) refl refl))
        (idle_Polite ready refl)
        (receives os blank (slice leaving 0 5) refl (
          received_round os blank ready.server receiver leaving 4 0 leaving_fits (omega arith)
            leaving_names (omega arith))))
      got-Polite (writes refl refl)

exactly_once_example : Accounted waiting 0
exactly_once_example =
    exactly_once memory receiver (λ k. blank) started waiting (λ k h. refl)
      (start_server-spawned memory receiver (λ k. blank)) first_steps 0

lies_there : waiting.server.readable 0 ≡ true
unfolding hand_over write_to_buffer
lies_there = refl

readable-Taken_example : (u : System) × Soon waiting u × Taken waiting 0 u
readable-Taken_example =
    readable-Taken memory receiver (λ k. blank) started waiting (λ k h. refl)
      (start_server-spawned memory receiver (λ k. blank)) first_steps 0 (omega arith) lies_there

-- A server whose session 0 has a descriptor, with a request for it before its thread has run.
abbrev mounted : Server
mounted = record memory { clients = λ i. if i == 0 then pos 7 else minus_one }

abbrev early : System
early = record (spawned mounted receiver (λ k. blank)) { receiver_pc = writing leaving 0 5 }

abbrev once : Server × Bytes
once = first_fetch early leaving 0 5 blank

abbrev unmounted : Server
unmounted = record once.0 { clients = update (update mounted.clients 0 minus_one) 0 minus_one }

unmount_done :
    run_client_request os blank once.0 once.1
    ≡ done unmounted (wrote (pos 7) (int_bytes (pos 0)) ∷ closed (pos 7) ∷ [])
unfolding run_client_request handle_tfs_unmount unmount_begin unmount_end get_client_fhandle
    finish_client_session write_to_buffer read_from_buffer store_byte store_int load_int copy_bytes
unmount_done = refl

unmount_goes_on : asks_shutdown once.1 ≡ false
unfolding asks_shutdown write_to_buffer read_from_buffer store_byte store_int copy_bytes
unmount_goes_on = refl

early_request_twice_example :
    (t : System) × (b1 : Bytes) × (b2 : Bytes) × Run early t
    × (t.handed 0 ≡ (leaving, 5) ∷ [])
    × (t.fetched 0 ≡ b2 ∷ b1 ∷ [])
    × (t.senders 0 ≡ serving b2)
    × Agrees 5 leaving b1
    × Agrees 5 leaving b2
early_request_twice_example =
    early_request_twice os blank early leaving blank 0 5 unmounted
      (wrote (pos 7) (int_bytes (pos 0)) ∷ closed (pos 7) ∷ []) (omega arith) (omega arith) refl
      refl unmount_done unmount_goes_on
