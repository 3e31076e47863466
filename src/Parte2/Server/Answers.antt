-- ===== src/Parte2/Server/Answers.antt =====
-- The requests of Parte2/tecnicofs_ex2/fs/tfs_server.c once their fields are known: each is the call of
-- the file system that it asks for, and its result goes to the client's pipe.
use so_file_system.Common.{
  ℕ, ◌+◌, ◌-◌, ◌<◌, ◌≤◌, ◌≡◌, refl, ap, ◌∙◌, List, [], ◌∷◌, some, Bool, true, false, arith, ltb,
  lt→ltb, ℤ, pos, to_word, FitsInt, length, slice,
}
use so_file_system.Memory.{Bytes, load_int, store_int, memcpy}
use so_file_system.Memory.Laws.{load_int-store_int, memcpy_inside}
use so_file_system.Memory.Wide.{c_string, load_size}
use so_file_system.Memory.Wide.Laws.{load_int-Agrees, get_or-slice}
use so_file_system.Parte2.State.{State}
use so_file_system.Parte2.Operations.{tfs_open, tfs_close}
use so_file_system.Parte2.Transfer.{tfs_write, tfs_read}
use so_file_system.Parte2.Server.State.{
  Server, sessions, input_buffer_size, wrote, Os, Outcome, done,
}
use so_file_system.Parte2.Server.Handlers.{
  int_bytes, to_int, answer, handle_tfs_open, handle_tfs_close, handle_tfs_write, handle_tfs_read,
  read_answer,
}

-- An answer that reaches its pipe.
pub answer_sent :
    (os : Os) (s : Server) (k : ℕ) (fd : ℤ) (bytes : List ℕ)
    → os.write_succeeds fd bytes ≡ true
    → answer os s k fd bytes ≡ done s (wrote fd bytes ∷ [])
unfolding answer
answer_sent os s k fd bytes e = rw (e, answer) refl

module _ (os : Os) (s : Server) (m : Bytes) (k : ℕ) (names : load_int m 1 ≡ pos k)
    (valid : k < sessions) (fs : State) where
  small : ltb k sessions ≡ true
  small = lt→ltb k sessions valid

  abbrev pub replies : List ℕ → Outcome
  replies bytes = answer os (record s { fs = fs }) k (s.clients k) bytes

  pub open_answer :
      (name : List ℕ) (flags out : ℤ)
      → c_string 41 m 5 ≡ some name
      → load_int m (1 + 4 + length name + 1) ≡ flags
      → tfs_open s.fs (some name) (to_word flags) ≡ some (fs, out)
      → handle_tfs_open os s m 1 ≡ replies (int_bytes out)
  unfolding handle_tfs_open
  open_answer name flags out text f e = rw (handle_tfs_open, text, names, small, f, e, names) refl

  pub close_answer :
      (fhandle out : ℤ) (signal : Bool)
      → load_int m 5 ≡ fhandle
      → tfs_close s.fs fhandle ≡ some (fs, (out, signal))
      → handle_tfs_close os s m 1 ≡ replies (int_bytes out)
  unfolding handle_tfs_close
  close_answer fhandle out signal f e = rw (handle_tfs_close, names, small, f, e, names) refl

  pub write_answer :
      (fhandle out : ℤ) (buffer : List ℕ) (len : ℕ)
      → load_int m 5 ≡ fhandle
      → load_size m 9 ≡ len
      → slice m 17 len ≡ buffer
      → len ≤ 1024
      → tfs_write s.fs fhandle buffer len ≡ some (fs, out)
      → handle_tfs_write os s m 1 ≡ replies (int_bytes (to_int out))
  unfolding handle_tfs_write
  write_answer fhandle out buffer len f l b most e =
      let inside : ltb input_buffer_size (1 + 16 + len) ≡ false = ground arith in
      rw (handle_tfs_write, l, inside, names, small, f, b, e, names) refl

  pub read_answered :
      (stack : Bytes) (fhandle out : ℤ) (len : ℕ) (bytes : List ℕ)
      → load_int m 5 ≡ fhandle
      → load_size m 9 ≡ len
      → len + 4 ≤ os.stack_room
      → tfs_read s.fs fhandle len ≡ some (fs, (out, bytes))
      → handle_tfs_read os stack s m 1 ≡ replies (read_answer stack len out bytes)
  unfolding handle_tfs_read
  read_answered stack fhandle out len bytes f l room e =
      let inside : ltb os.stack_room (len + 4) ≡ false = ground arith in
      rw (handle_tfs_read, l, inside, names, small, f, e, l, names) refl

-- An int that has been sent is read.
pub load_int-int_bytes :
    (old : Bytes) (i : ℤ) → FitsInt i → load_int (memcpy old 0 (int_bytes i) 0 4) 0 ≡ i
load_int-int_bytes old i fits =
    load_int-Agrees 4 (store_int (λ q. 0) 0 i) (memcpy old 0 (int_bytes i) 0 4) 0
      (λ q lt.
        memcpy_inside old 0 (int_bytes i) 0 4 q (omega arith) (omega arith)
        ∙ get_or-slice (store_int (λ q. 0) 0 i) 0 4 (0 + (q - 0)) (omega arith)
        ∙ ap (store_int (λ q. 0) 0 i) (omega arith))
      (omega arith)
    ∙ load_int-store_int (λ q. 0) 0 i fits
