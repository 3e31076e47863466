-- ===== src/Parte2/Remote/Tests.antt =====
-- Examples on a server with one mounted client, whose pipe has descriptor 7.
mod Sessions
use so_file_system.Common.{
  ℕ, ◌+◌, ◌≤◌, ◌≡◌, refl, ◌⊎◌, ℤ, pos, minus_one, arith, List, [], ◌∷◌, Option, none, some, true,
  false, update, if◌then◌else◌, ◌==◌, length,
}
use so_file_system.Directory.{find_entry}
use so_file_system.Directory.Names.{IsText}
use so_file_system.Memory.{Bytes, load_int, store_byte, strncpy, store_int, strncmp_eq, memcpy}
use so_file_system.Table.{first_free, free, taken}
use so_file_system.Parte2.State.{State}
use so_file_system.Parte2.Operations.{
  tfs_open, tfs_close, synchronized, close_counted, destroy_begin, destroy_end, open_unsynchronized,
  open_existing, lookup_unsynchronized, truncate,
}
use so_file_system.Parte2.Tables.{
  put_dir_entry, remove_from_open_file_table, find_in_dir, inode_get, add_to_open_file_table,
  data_block_get, get_open_file_entry,
}
use so_file_system.Parte2.Transfer.{
  tfs_write, tfs_read, read_unsynchronized, read_file, write_unsynchronized, write_file, write_at,
  ensure_block, clamp_write,
}
use so_file_system.Parte2.Tests.{sample, path}
use so_file_system.Parte2.Server.State.{Server, sessions, Os, Event, wrote, closed, done}
use so_file_system.Parte2.Server.Sessions.{get_available_session, reserved}
use so_file_system.Parte2.Server.Sessions.Laws.{
  Given, AllTaken, IsFirst, get_available_session-Given, unmount-get_available_session,
}
use so_file_system.Parte2.Server.Handlers.{
  int_bytes, to_int, read_answer, unmount_begin, unmount_end,
}
use so_file_system.Parte2.Server.Threads.{Receiver}
use so_file_system.Parte2.Server.Delivery.{served_by}
use so_file_system.Parte2.Client.{
  Exchange, mount_request, unmount_request, open_request, close_request, write_request,
  read_request, shutdown_request, client_mount, client_unmount, client_open, client_close,
  client_write, client_read, client_shutdown,
}
use so_file_system.Parte2.Remote.Replies.{Answered}
use so_file_system.Parte2.Remote.Link.{pipe_buf, client}
use so_file_system.Parte2.Remote.Calls.{remote_open, remote_close}
use so_file_system.Parte2.Remote.Transfers.{remote_read, remote_write}
use so_file_system.Parte2.Remote.Ends.{remote_shutdown}
use so_file_system.Parte2.Remote.Mounts.{remote_mount}

abbrev pub os : Os
os = record { open_pipe = λ name. pos 7; write_succeeds = λ fd bytes. true; stack_room = 8000000 }

-- Memory that nothing has been written to.
abbrev pub blank : Bytes
blank = λ q. 85

abbrev pub receiver : Receiver
receiver = record { buffer_in = blank; bytes_to_read = 0 }

abbrev pub server : State → Server
server fs = record {
  fs = fs;
  clients = λ i. if i == 0 then pos 7 else minus_one;
  readable = λ i. false;
  info = λ i. blank;
}

-- The bytes that the server has written first.
abbrev first_written : List Event → Option Bytes
first_written [] = none
first_written (wrote fd bytes ∷ events) = some (memcpy blank 0 bytes 0 (length bytes))
first_written (closed fd ∷ events) = none

-- The pipes between a client and the server.
pub exchange : Server → Exchange
exchange s l n = elim (served_by os blank s receiver blank l) [
  | done s' events ↦ first_written events
  | _ ↦ none
]

pub exchange-served :
    (s : Server) (fd : ℤ) (l bytes : List ℕ) (s' : Server) (rest : List Event)
    → served_by os blank s receiver blank l ≡ done s' (wrote fd bytes ∷ rest)
    → length bytes ≤ pipe_buf
    → exchange s l (length bytes) ≡ some (memcpy blank 0 bytes 0 (length bytes))
unfolding exchange
exchange-served s fd l bytes s' rest e whole = rw (exchange, e) refl

-- "/f1" is the file of i-node 1.
abbrev pub named : State
named = record (sample 3) { fs_data = put_dir_entry (sample 3).fs_data 0 0 (pos 1) (102 ∷ 49 ∷ []) }

pub path-IsText : IsText path
path-IsText = (omega arith, (omega arith, (omega arith, tt)))

pub writable : (bytes : List ℕ) → os.write_succeeds (pos 7) bytes ≡ true
writable bytes = refl

abbrev pub mounted : Server
mounted = server named

abbrev opened : State
opened = record named {
  open_file_table = update named.open_file_table 2 (record { of_inumber = pos 1; of_offset = 0 });
  free_open_file_entries = update named.free_open_file_entries 2 taken;
  open_files = pos 3;
}

opens_file : tfs_open named (some path) 0 ≡ some (opened, pos 2)
unfolding tfs_open open_unsynchronized open_existing lookup_unsynchronized find_in_dir inode_get
    data_block_get find_entry load_int truncate add_to_open_file_table put_dir_entry store_byte
    strncpy store_int strncmp_eq first_free
opens_file = refl

remote_open_example :
    (l : List ℕ) × (open_request blank (pos 0) path (pos 0) ≡ some l)
    × Answered mounted 0 (int_bytes (pos 2)) opened (served_by os blank mounted receiver blank l)
    × (client_open (exchange mounted) blank (client 0) path (pos 0) ≡ some (pos 2))
remote_open_example =
    remote_open os blank mounted receiver blank 0 (omega arith) writable blank (exchange mounted)
      (exchange-served mounted (pos 7)) blank path (pos 0) opened (pos 2) path-IsText (omega arith)
      (omega arith) opens_file

abbrev closed_first : State
closed_first = record named {
  free_open_file_entries = update named.free_open_file_entries 0 free;
  open_files = pos 1;
}

closes_first : tfs_close named (pos 0) ≡ some (closed_first, (pos 0, false))
unfolding tfs_close synchronized close_counted remove_from_open_file_table
closes_first = refl

remote_close_example :
    Answered mounted 0
      (int_bytes (pos 0))
      closed_first
      (served_by os blank mounted receiver blank (close_request blank (pos 0) (pos 0)))
    × (client_close (exchange mounted) blank (client 0) (pos 0) ≡ pos 0)
remote_close_example =
    remote_close os blank mounted receiver blank 0 (omega arith) writable blank (exchange mounted)
      (exchange-served mounted (pos 7)) blank (pos 0) closed_first (pos 0) false (omega arith)
      closes_first

abbrev read_two : State
read_two = record named {
  open_file_table = update named.open_file_table 0 (record { of_inumber = pos 1; of_offset = 3 });
}

reads_two : tfs_read named (pos 0) 5 ≡ some (read_two, (pos 2, 7 ∷ 7 ∷ []))
unfolding tfs_read synchronized read_unsynchronized read_file get_open_file_entry inode_get
    data_block_get put_dir_entry store_byte strncpy store_int
reads_two = refl

remote_read_example :
    Answered mounted 0
      (read_answer blank 5 (pos 2) (7 ∷ 7 ∷ []))
      read_two
      (served_by os blank mounted receiver blank (read_request blank (pos 0) (pos 0) 5))
    × (client_read 8000000 (exchange mounted) blank (client 0) (pos 0) 5 ≡ some (pos 2, 7 ∷ 7 ∷ []))
remote_read_example =
    remote_read os blank mounted receiver blank 0 (omega arith) writable blank (exchange mounted)
      (exchange-served mounted (pos 7)) blank (pos 0) 5 8000000 read_two (pos 2) (7 ∷ 7 ∷ [])
      (omega arith) (omega arith) (omega arith) (omega arith) reads_two

abbrev wrote_two : State
wrote_two = record named {
  fs_data = memcpy named.fs_data (1024 + 1) (5 ∷ 6 ∷ []) 0 2;
  open_file_table = update named.open_file_table 0 (record { of_inumber = pos 1; of_offset = 3 });
}

writes_two : tfs_write named (pos 0) (5 ∷ 6 ∷ []) 2 ≡ some (wrote_two, pos 2)
unfolding tfs_write synchronized write_unsynchronized write_file write_at ensure_block clamp_write
    get_open_file_entry inode_get data_block_get
writes_two = refl

remote_write_example :
    (l : List ℕ) × (write_request blank (pos 0) (pos 0) (5 ∷ 6 ∷ []) 2 ≡ some l)
    × Answered mounted 0
        (int_bytes (to_int (pos 2)))
        wrote_two
        (served_by os blank mounted receiver blank l)
    × (client_write (exchange mounted) blank (client 0) (pos 0) (5 ∷ 6 ∷ []) 2
        ≡ some (to_int (pos 2)))
remote_write_example =
    remote_write os blank mounted receiver blank 0 (omega arith) writable blank (exchange mounted)
      (exchange-served mounted (pos 7)) blank (pos 0) (omega arith) (5 ∷ 6 ∷ []) (omega arith)
      wrote_two (pos 2) writes_two
