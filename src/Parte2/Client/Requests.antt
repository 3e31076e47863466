-- ===== src/Parte2/Client/Requests.antt =====
-- The fields of the requests that Parte2/tecnicofs_ex2/client/tecnicofs_client_api.c builds, where
-- Parte2/tecnicofs_ex2/fs/tfs_server.c looks for them.
use so_file_system.Common.{
  ℕ, suc, ◌+◌, ◌^◌, ◌<◌, ◌≤◌, ◌≡◌, ap, ◌∙◌, ◌⊎◌, List, arith, ℤ, FitsInt, length, get_or,
}
use so_file_system.Memory.{Bytes, load_int, store_int, store_byte}
use so_file_system.Memory.Laws.{
  load_int-store_int, load_int-store_int_ne, load_int-memcpy, store_int_outside, memcpy_inside,
  memcpy_outside,
}
use so_file_system.Memory.Wide.{strcpy, load_size, store_size}
use so_file_system.Memory.Wide.Laws.{load_size-store_size}
use so_file_system.Directory.Names.{IsText}
use so_file_system.Parte2.Client.{header, op_open}

store_size_outside : (m : Bytes) (a v q : ℕ) → (q < a) ⊎ (a + 8 ≤ q) → store_size m a v q ≡ m q
unfolding store_size
store_size_outside m a v q off =
    store_int_outside _ (a + 4) _ q (omega arith) ∙ store_int_outside m a _ q (omega arith)

load_int-store_size_ne :
    (m : Bytes) (a b v : ℕ) → b + 4 ≤ a → load_int (store_size m a v) b ≡ load_int m b
unfolding store_size
load_int-store_size_ne m a b v le =
    load_int-store_int_ne _ (a + 4) b _ (omega arith) ∙ load_int-store_int_ne m a b _ (omega arith)

pub header_code : (stack : Bytes) (op : ℕ) (session : ℤ) → header stack op session 0 ≡ op
unfolding store_byte
header_code stack op session = store_int_outside (store_byte stack 0 op) 1 session 0 (omega arith)

pub header_session :
    (stack : Bytes) (op : ℕ) (session : ℤ)
    → FitsInt session
    → load_int (header stack op session) 1 ≡ session
header_session stack op session fits = load_int-store_int (store_byte stack 0 op) 1 session fits

module _ (stack : Bytes) (session : ℤ) (fits : FitsInt session) where
  module _ (name : List ℕ) (flags : ℤ) (text : IsText name) (short : length name < 40)
      (small : FitsInt flags) where
    abbrev named : Bytes
    named = strcpy (header stack op_open session) 5 name

    abbrev pub open_memory : Bytes
    open_memory = store_int named (5 + length name + 1) flags

    pub open_code : open_memory 0 ≡ op_open
    open_code =
        store_int_outside named (5 + length name + 1) flags 0 (omega arith)
        ∙ memcpy_outside (header stack op_open session) 5 name 0 (suc (length name)) 0 (omega arith)
        ∙ header_code stack op_open session

    pub open_session : load_int open_memory 1 ≡ session
    open_session =
        load_int-store_int_ne named (5 + length name + 1) 1 flags (omega arith)
        ∙ load_int-memcpy (header stack op_open session) 5 name 0 (suc (length name)) 1
            (omega arith)
        ∙ header_session stack op_open session fits

    pub open_name : (j : ℕ) → j < suc (length name) → open_memory (5 + j) ≡ get_or name j 0
    open_name j lt =
        store_int_outside named (5 + length name + 1) flags (5 + j) (omega arith)
        ∙ memcpy_inside (header stack op_open session) 5 name 0 (suc (length name)) (5 + j)
            (omega arith) (omega arith)
        ∙ ap (λ q. get_or name q 0) (omega arith)

    pub open_flags : load_int open_memory (5 + length name + 1) ≡ flags
    open_flags = load_int-store_int named (5 + length name + 1) flags small

  module _ (fhandle : ℤ) (small : FitsInt fhandle) where
    abbrev pub close_memory : ℕ → Bytes
    close_memory op = store_int (header stack op session) 5 fhandle

    pub close_code : (op : ℕ) → close_memory op 0 ≡ op
    close_code op =
        store_int_outside (header stack op session) 5 fhandle 0 (omega arith)
        ∙ header_code stack op session

    pub close_session : (op : ℕ) → load_int (close_memory op) 1 ≡ session
    close_session op =
        load_int-store_int_ne (header stack op session) 5 1 fhandle (omega arith)
        ∙ header_session stack op session fits

    pub close_handle : (op : ℕ) → load_int (close_memory op) 5 ≡ fhandle
    close_handle op = load_int-store_int (header stack op session) 5 fhandle small

    -- A length behind the handle: the request of tfs_read, and the first part of that of tfs_write.
    module _ (op len : ℕ) (bounded : len < 2 ^ 64) where
      abbrev pub read_memory : Bytes
      read_memory = store_size (close_memory op) 9 len

      pub read_code : read_memory 0 ≡ op
      read_code = store_size_outside (close_memory op) 9 len 0 (omega arith) ∙ close_code op

      pub read_session : load_int read_memory 1 ≡ session
      read_session =
          load_int-store_size_ne (close_memory op) 9 1 len (omega arith) ∙ close_session op

      pub read_handle : load_int read_memory 5 ≡ fhandle
      read_handle = load_int-store_size_ne (close_memory op) 9 5 len (omega arith) ∙ close_handle op

      pub read_length : load_size read_memory 9 ≡ len
      read_length = load_size-store_size (close_memory op) 9 len bounded
