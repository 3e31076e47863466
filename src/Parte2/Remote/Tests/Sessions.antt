-- ===== src/Parte2/Remote/Tests/Sessions.antt =====
-- Examples of sessions that begin and end, and of the end of the server.
use so_file_system.Common.{
  ℕ, ◌≡◌, refl, ◌⊎◌, pos, minus_one, arith, List, [], ◌∷◌, some, true, false, update,
}
use so_file_system.Table.{free}
use so_file_system.Parte2.State.{State}
use so_file_system.Parte2.Operations.{destroy_begin, destroy_end}
use so_file_system.Parte2.Tests.{sample, path}
use so_file_system.Parte2.Server.State.{Server, sessions, Event, wrote, done}
use so_file_system.Parte2.Server.Sessions.{get_available_session, reserved}
use so_file_system.Parte2.Server.Sessions.Laws.{
  Given, AllTaken, IsFirst, get_available_session-Given, unmount-get_available_session,
}
use so_file_system.Parte2.Server.Handlers.{int_bytes, unmount_begin, unmount_end}
use so_file_system.Parte2.Server.Delivery.{served_by}
use so_file_system.Parte2.Client.{mount_request, shutdown_request, client_mount, client_shutdown}
use so_file_system.Parte2.Remote.Replies.{Answered}
use so_file_system.Parte2.Remote.Link.{client}
use so_file_system.Parte2.Remote.Ends.{remote_shutdown}
use so_file_system.Parte2.Remote.Mounts.{remote_mount}
use so_file_system.Parte2.Remote.Tests.{
  os, blank, receiver, server, mounted, exchange, exchange-served, writable, path-IsText,
}

-- No handle is open.
abbrev idle : Server
idle = server (record (sample 3) { free_open_file_entries = λ i. free; open_files = pos 0 })

abbrev ending : State
ending = record idle.fs { open_files = minus_one; locked = true }

begins_end : destroy_begin idle.fs ≡ some (ending, false)
unfolding destroy_begin
begins_end = refl

remote_shutdown_example :
    Answered idle 0
      (int_bytes (pos 0))
      (destroy_end ending).0
      (served_by os blank idle receiver blank (shutdown_request blank (pos 0)))
    × (client_shutdown (exchange idle) blank (client 0) ≡ pos 0)
remote_shutdown_example =
    remote_shutdown os blank idle receiver blank 0 (omega arith) writable blank (exchange idle)
      (exchange-served idle (pos 7)) blank ending begins_end

second-IsFirst : IsFirst 0 sessions 1 mounted.clients
second-IsFirst = record {
  least = omega arith;
  inside = omega arith;
  is_free = refl;
  before = λ j h g. ground arith;
}

remote_mount_example :
    (l : List ℕ) × (mount_request blank path ≡ some l)
    × ((after : Server) × (served_by os blank mounted receiver blank l
          ≡ done after (wrote (pos 7) (int_bytes (pos 1)) ∷ []))
        × (after.clients ≡ update mounted.clients 1 (pos 7))
        × (after.fs ≡ mounted.fs))
    × (client_mount
          (exchange mounted)
          blank
          true
          true
          (record { mounted = false; session_id = pos 0 })
          path
        ≡ some (client 1, pos 0))
remote_mount_example =
    remote_mount os blank mounted receiver blank 1 7 second-IsFirst path path-IsText (omega arith)
      refl writable blank (exchange mounted) (exchange-served mounted (pos 7)) blank
      (record { mounted = false; session_id = pos 0 })

get_available_session-Given_example :
    ((i : ℕ) × Given mounted i)
    ⊎ (AllTaken 0 sessions mounted.clients × (get_available_session mounted ≡ (mounted, minus_one)))
get_available_session-Given_example = get_available_session-Given mounted

unmount-get_available_session_example :
    (unmount_begin mounted (pos 0)
      ≡ some (record mounted { clients = update mounted.clients 0 minus_one }, pos 7, pos 0))
    × (get_available_session (record mounted { clients = update mounted.clients 0 minus_one })
        ≡ (record mounted { clients = update mounted.clients 0 reserved }, pos 0))
    × ((events : List Event) × (unmount_end os
            (record mounted { clients = update mounted.clients 0 reserved })
            (pos 0)
            (pos 7)
            (pos 0)
          ≡ done (record mounted { clients = update mounted.clients 0 minus_one }) events))
unmount-get_available_session_example =
    unmount-get_available_session os mounted 0 (omega arith) refl (λ j h. absurd (omega arith))
