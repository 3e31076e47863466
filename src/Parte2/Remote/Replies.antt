-- ===== src/Parte2/Remote/Replies.antt =====
-- A message of a client and what Parte2/tecnicofs_ex2/fs/tfs_server.c answers to it, for the requests
-- that name a session and their fields.
use so_file_system.Common.{
  ℕ, suc, ◌+◌, ◌<◌, ◌≤◌, ◌≡◌, refl, ◌∙◌, List, [], ◌∷◌, some, Bool, true, arith, ℤ, pos, to_word,
  length, get_or, slice, slice-congr,
}
use so_file_system.Memory.{Bytes, load_int}
use so_file_system.Memory.Wide.{c_string, load_size}
use so_file_system.Memory.Wide.Laws.{Agrees, load_int-Agrees, load_size-Agrees, c_string-text}
use so_file_system.Directory.Names.{IsText}
use so_file_system.Parte2.State.{State}
use so_file_system.Parte2.Operations.{tfs_open, tfs_close}
use so_file_system.Parte2.Transfer.{tfs_write, tfs_read}
use so_file_system.Parte2.Server.State.{Server, sessions, wrote, Os, Outcome, done}
use so_file_system.Parte2.Server.Handlers.{int_bytes, to_int, answer, read_answer}
use so_file_system.Parte2.Server.Threads.{Receiver, run_client_request}
use so_file_system.Parte2.Server.Delivery.{
  served_by, IsSessionRequest, serving, served, served-Agrees, delivered,
}
use so_file_system.Parte2.Server.Answers.{
  answer_sent, open_answer, close_answer, write_answer, read_answered,
}
use so_file_system.Parte2.Client.{op_open, op_close, op_write, op_read}

-- The server has answered a message with `bytes`, to the pipe of session `k`; the file system is `fs`.
pub record Answered (s : Server) (k : ℕ) (bytes : List ℕ) (fs : State) (out : Outcome)
    : Type 0 where
  pub after : Server
  pub ends : out ≡ done after (wrote (s.clients k) bytes ∷ [])
  pub file_system : after.fs ≡ fs
  pub same_clients : after.clients ≡ s.clients

module _ (os : Os) (stack : Bytes) (s : Server) (r : Receiver) (old : Bytes) (k : ℕ)
    (valid : k < sessions)
    (writable : (bytes : List ℕ) → os.write_succeeds (s.clients k) bytes ≡ true) where
  module _ (m : Bytes) (n : ℕ) (fits : IsSessionRequest (m 0) n) (large : 5 ≤ suc n)
      (names : load_int m 1 ≡ pos k) where
    abbrev pub server : Server
    server = serving os stack s r m n k fits large names valid

    abbrev pub memory : Bytes
    memory = served os stack s r m n k fits large names valid old

    same : Agrees (suc n) m memory
    same = served-Agrees os stack s r m n k fits large names valid old

    pub code : memory 0 ≡ m 0
    code = same 0 (omega arith)

    pub named : load_int memory 1 ≡ pos k
    named = load_int-Agrees (suc n) m memory 1 same (omega arith) ∙ names

    pub reply :
        (bytes : List ℕ) (fs : State)
        → run_client_request os stack server memory
          ≡ answer os (record server { fs = fs }) k (s.clients k) bytes
        → Answered s k bytes fs (served_by os stack s r old (slice m 0 (suc n)))
    reply bytes fs e = record {
      after = record server { fs = fs };
      ends =
          delivered os stack s r m n k fits large names valid old
          ∙ e
          ∙ answer_sent os (record server { fs = fs }) k (s.clients k) bytes (writable bytes);
      file_system = refl;
      same_clients = refl;
    }

    pub open_reply :
        (name : List ℕ) (flags out : ℤ) (fs : State)
        → m 0 ≡ op_open
        → 9 + length name < suc n
        → IsText name
        → length name < 40
        → ((j : ℕ) → j < suc (length name) → m (5 + j) ≡ get_or name j 0)
        → load_int m (5 + length name + 1) ≡ flags
        → tfs_open s.fs (some name) (to_word flags) ≡ some (fs, out)
        → Answered s k (int_bytes out) fs (served_by os stack s r old (slice m 0 (suc n)))
    unfolding run_client_request
    open_reply name flags out fs c room text short at f e =
        let op : memory 0 ≡ op_open = code ∙ c in
        let holds : c_string 41 memory 5 ≡ some name =
          c_string-text 41 memory 5 name text (omega arith)
            (λ j lt. same (5 + j) (omega arith) ∙ at j lt) in
        let word = load_int-Agrees (suc n) m memory (5 + length name + 1) same (omega arith) ∙ f in
        reply (int_bytes out) fs (
          rw (run_client_request, op)
            (open_answer os server memory k named valid fs name flags out holds word e))

    pub close_reply :
        (fhandle out : ℤ) (signal : Bool) (fs : State)
        → m 0 ≡ op_close
        → 9 ≤ suc n
        → load_int m 5 ≡ fhandle
        → tfs_close s.fs fhandle ≡ some (fs, (out, signal))
        → Answered s k (int_bytes out) fs (served_by os stack s r old (slice m 0 (suc n)))
    unfolding run_client_request
    close_reply fhandle out signal fs c room f e =
        let op : memory 0 ≡ op_close = code ∙ c in
        let word = load_int-Agrees (suc n) m memory 5 same (omega arith) ∙ f in
        reply (int_bytes out) fs (
          rw (run_client_request, op)
            (close_answer os server memory k named valid fs fhandle out signal word e))

    pub write_reply :
        (fhandle out : ℤ) (buffer : List ℕ) (len : ℕ) (fs : State)
        → m 0 ≡ op_write
        → 17 + len ≤ suc n
        → len ≤ 1024
        → load_int m 5 ≡ fhandle
        → load_size m 9 ≡ len
        → slice m 17 len ≡ buffer
        → tfs_write s.fs fhandle buffer len ≡ some (fs, out)
        → Answered s k (int_bytes (to_int out)) fs (served_by os stack s r old (slice m 0 (suc n)))
    unfolding run_client_request
    write_reply fhandle out buffer len fs c room most f l b e =
        let op : memory 0 ≡ op_write = code ∙ c in
        let word = load_int-Agrees (suc n) m memory 5 same (omega arith) ∙ f in
        let size = load_size-Agrees (suc n) m memory 9 same (omega arith) ∙ l in
        let content : slice memory 17 len ≡ buffer =
          slice-congr memory m 17 17 len (λ j lt. same (17 + j) (omega arith)) ∙ b in
        reply (int_bytes (to_int out)) fs (
          rw (run_client_request, op)
            (write_answer os server memory k named valid fs fhandle out buffer len word size content
              most e))

    pub read_reply :
        (fhandle out : ℤ) (len : ℕ) (bytes : List ℕ) (fs : State)
        → m 0 ≡ op_read
        → 17 ≤ suc n
        → load_int m 5 ≡ fhandle
        → load_size m 9 ≡ len
        → len + 4 ≤ os.stack_room
        → tfs_read s.fs fhandle len ≡ some (fs, (out, bytes))
        → Answered s k
            (read_answer stack len out bytes)
            fs
            (served_by os stack s r old (slice m 0 (suc n)))
    unfolding run_client_request
    read_reply fhandle out len bytes fs c room f l stacked e =
        let op : memory 0 ≡ op_read = code ∙ c in
        let word = load_int-Agrees (suc n) m memory 5 same (omega arith) ∙ f in
        let size = load_size-Agrees (suc n) m memory 9 same (omega arith) ∙ l in
        reply (read_answer stack len out bytes) fs (
          rw (run_client_request, op)
            (read_answered os server memory k named valid fs stack fhandle out len bytes word size
              stacked e))
