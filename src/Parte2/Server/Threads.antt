-- ===== src/Parte2/Server/Threads.antt =====
-- The threads of Parte2/tecnicofs_ex2/fs/tfs_server.c: one round of threadReceiver, which reads a
-- request from the server's pipe and hands it to a session, and of threadSender, which serves it. Both
-- hold the session's mutex while they use its buffer, threadSender all the time but in its wait.
use so_file_system.Common.{
  ℕ, zero, suc, ◌-◌, ℤ, pos, minus_one, is_nonneg, in_range, index, none, some, Bool, true, false,
  ◌==◌, ◌&&◌, List, [], ◌∷◌, if◌then◌else◌, update, length,
}
use so_file_system.Memory.{Bytes, load_int, store_int, store_byte, memcpy}
use so_file_system.Memory.Wide.{c_string, copy_bytes, strcpy}
use so_file_system.Parte2.Server.State.{
  Server, sessions, input_buffer_size, Event, wrote, Os, Outcome,
}
use so_file_system.Parte2.Server.Sessions.{get_available_session}
use so_file_system.Parte2.Server.Handlers.{
  int_bytes, handle_tfs_mount, handle_tfs_unmount, handle_tfs_open, handle_tfs_close,
  handle_tfs_write, handle_tfs_read, handle_tfs_shutdown_after_all_closed,
}

-- The `switch` of getClientInfoMaxSize: `*len` for an operation code, as it was for an unknown one.
unfoldable pub get_client_info_max_size : ℕ → ℕ → Bool → ℕ
get_client_info_max_size op_code len mode =
    let whole = if mode then 1 else 0 in
    if op_code == 1
    then (if mode then 40 else 45)
    else if op_code == 2
    then 5 - whole
    else if op_code == 3
    then 49 - whole
    else if op_code == 4
    then 9 - whole
    else if op_code == 5
    then 1041 - whole
    else if op_code == 6
    then 17 - whole
    else if op_code == 7
    then 5 - whole
    else len

-- The session and the number of bytes for its buffer.
unfoldable pub get_client_request_info : ℕ → Bytes → ℤ × ℕ
get_client_request_info op_code m =
    if op_code == 1
    then (minus_one, 0)
    else (load_int m 1, get_client_info_max_size op_code 0 false)

-- A session's mutex is free where its thread waits for a request.
unfoldable pub write_to_buffer : Server → Bytes → ℕ → ℕ → Server
write_to_buffer s m session n = record s {
  info = update s.info session (copy_bytes (s.info session) 0 m 0 n);
  readable = update s.readable session true;
}

-- `bufferIn`, which keeps what it held before, and `bytesToRead`.
pub record Receiver : Type 0 where
  pub buffer_in : Bytes
  pub bytes_to_read : ℕ

-- A round of the receiver comes to nothing, to a message for a session, with the number of bytes to
-- copy from it, or to an error.
pub data Received : Type 0 where
  nothing : Server → Receiver → List Event → Received
  request : Server → Receiver → Bytes → ℕ → ℕ → Received
  exits : Received
  fault : Received

-- `newBuffer`, which starts as `stack`.
unfoldable pub mount_buffer : Bytes → ℕ → ℕ → List ℕ → Bytes
mount_buffer stack op_code session name =
    strcpy (store_int (store_byte stack 0 op_code) 1 (pos session)) 5 name

-- `sendUserCountFullMessage`; a pipe that has not been opened cannot be written to.
unfoldable pub send_full : Os → Server → Receiver → List ℕ → Received
send_full os s r name =
    let fhandle = os.open_pipe name in
    if is_nonneg fhandle && os.write_succeeds fhandle (int_bytes minus_one)
    then nothing s r (wrote fhandle (int_bytes minus_one) ∷ [])
    else Received.exits

-- A request without a session's number.
unfoldable pub new_session : Os → Bytes → Server → Receiver → ℕ → Received
new_session os stack s r op_code =
    let (s1, session) = get_available_session s in
    elim (c_string 40 r.buffer_in 1) [
      | none ↦ Received.fault
      | some name ↦
          if is_nonneg session
          then request s1 r (mount_buffer stack op_code (index session) name) (index session) 45
          else send_full os s1 r name
    ]

-- What a round does with a request that has been read.
unfoldable pub dispatch : Os → Bytes → Server → Receiver → ℕ → Received
dispatch os stack s r op_code =
    let (session, n) = get_client_request_info op_code r.buffer_in in
    if is_nonneg session
    then (if in_range session sessions
        then request s r r.buffer_in (index session) n
        else Received.fault)
    else new_session os stack s r op_code

-- `readFromPipe`: the bytes that a read of `n` gives where the pipe holds these, and whether there
-- were any.
abbrev pub read_from_pipe : List ℕ → ℕ → List ℕ
read_from_pipe pipe zero = []
read_from_pipe [] (suc n) = []
read_from_pipe (c ∷ pipe) (suc n) = c ∷ read_from_pipe pipe n

unfoldable pub receive_round : Os → Bytes → Server → Receiver → List ℕ → Received
receive_round os stack s r [] = nothing s r []
receive_round os stack s r (op_code ∷ pipe) =
    let n = get_client_info_max_size op_code r.bytes_to_read true in
    let chunk = read_from_pipe pipe n in
    let r1 : Receiver = record {
      buffer_in = store_byte (memcpy r.buffer_in 1 chunk 0 (length chunk)) 0 op_code;
      bytes_to_read = n;
    } in
    if length chunk == 0
    then nothing s (record r { bytes_to_read = n }) []
    else dispatch os stack s r1 op_code

-- `runClientRequest` on the bytes of a message.
unfoldable pub run_client_request : Os → Bytes → Server → Bytes → Outcome
run_client_request os stack s m =
    let op_code = m 0 in
    if op_code == 1
    then handle_tfs_mount os s m 1
    else if op_code == 2
    then handle_tfs_unmount os s m 1
    else if op_code == 3
    then handle_tfs_open os s m 1
    else if op_code == 4
    then handle_tfs_close os s m 1
    else if op_code == 5
    then handle_tfs_write os s m 1
    else if op_code == 6
    then handle_tfs_read os stack s m 1
    else handle_tfs_shutdown_after_all_closed os s m 1

-- What it returns: whether its thread ends the process.
unfoldable pub asks_shutdown : Bytes → Bool
asks_shutdown m = m 0 == 7

-- `readFromBufferPC`, with the buffer that it fills.
unfoldable pub read_from_buffer : Server → Bytes → ℕ → Server × Bytes
read_from_buffer s buffer session = (
  record s { readable = update s.readable session false },
  copy_bytes buffer 0 (s.info session) 0 input_buffer_size,
)

-- The rest of a round of threadSender, once the session's buffer is readable or the wait has ended.
unfoldable pub serve_round : Os → Bytes → Server → Bytes → ℕ → Outcome
serve_round os stack s buffer session =
    let (s1, m) = read_from_buffer s buffer session in run_client_request os stack s1 m
