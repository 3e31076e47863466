-- ===== src/Parte2/Server/State.antt =====
-- The data of Parte2/tecnicofs_ex2/fs/tfs_server.c.
use so_file_system.Common.{ℕ, ℤ, Bool, List}
use so_file_system.Memory.{Bytes}
use so_file_system.Parte2.State.{State}

-- `S` of common/common.h, and the sizes of a message.
abbrev pub sessions : ℕ
sessions = 20

abbrev pub input_buffer_size : ℕ
input_buffer_size = 1041

-- The file system, `clientsFHandle`, and `readable` and `info` of `threadBuffers`.
pub record Server : Type 0 where
  pub fs : State
  pub clients : ℕ → ℤ
  pub readable : ℕ → Bool
  pub info : ℕ → Bytes

-- What a thread does to the pipes of clients.
pub data Event : Type 0 where
  wrote : ℤ → List ℕ → Event
  closed : ℤ → Event

-- The operating system's answers: the descriptor of a pipe opened for writing, whether a write to a
-- descriptor succeeds, and the bytes that an array on a thread's stack may have.
pub record Os : Type 0 where
  pub open_pipe : List ℕ → ℤ
  pub write_succeeds : ℤ → List ℕ → Bool
  pub stack_room : ℕ

-- A call goes on with the server and what it has done; it waits for ever, or for condVar; it ends the
-- process; or it touches memory outside its arrays.
pub data Outcome : Type 0 where
  done : Server → List Event → Outcome
  blocked : Outcome
  waits : Server → Outcome
  exits : Outcome
  fault : Outcome
