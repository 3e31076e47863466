-- ===== src/Parte2/Client/Sizes.antt =====
-- The sizes of the requests of Parte2/tecnicofs_ex2/client/tecnicofs_client_api.c, and of what
-- Parte2/tecnicofs_ex2/fs/tfs_server.c reads for them.
use so_file_system.Common.{
  ℕ, suc, ◌+◌, ◌≤◌, ◌≡◌, refl, sym, ap, subst, ◌∙◌, List, Option, none, some, Bool, true, false,
  arith, ℤ, if◌then◌else◌, length, length-slice, slice,
}
use so_file_system.Memory.{Bytes, store_byte, store_int, memcpy}
use so_file_system.Memory.Wide.{strcpy, store_size}
use so_file_system.Parte2.Server.State.{input_buffer_size}
use so_file_system.Parte2.Server.Threads.{get_client_info_max_size}
use so_file_system.Parte2.Client.{
  header, op_mount, op_unmount, op_open, op_close, op_write, op_read, op_shutdown, mount_request,
  unmount_request, open_request, close_request, write_request, read_request, shutdown_request,
}

-- The server reads all of the message behind its first byte, and has room for it.
abbrev pub Sized : ℕ → ℕ → List ℕ → Type 0
Sized op_code len l =
    (length l ≡ suc (get_client_info_max_size op_code len true)) × (length l ≤ input_buffer_size)

-- The same of a request that need not be sent.
abbrev pub SizedIf : ℕ → ℕ → Option (List ℕ) → Type 0
SizedIf op_code len request = (l : List ℕ) → request ≡ some l → Sized op_code len l

sized :
    (op_code len n : ℕ) (f : ℕ → ℕ)
    → suc (get_client_info_max_size op_code len true) ≡ n
    → n ≤ input_buffer_size
    → Sized op_code len (slice f 0 n)
sized op_code len n f e le = (length-slice f 0 n ∙ sym e, omega (arith, length-slice f 0 n))

sized_if :
    (op_code len : ℕ) (b : Bool) (bytes : List ℕ)
    → Sized op_code len bytes
    → SizedIf op_code len (if b then some bytes else none)
sized_if op_code len true bytes h l e =
    subst (Sized op_code len) (ap (λ o. elim o [ none ↦ bytes | some v ↦ v ]) e) h
sized_if op_code len false bytes h l e =
    subst (λ o. elim o [ none ↦ Sized op_code len bytes | some v ↦ Sized op_code len l ]) e h

-- Every request that the client of Parte2 builds without leaving its buffer, of any of the seven
-- kinds and with any fields, has one byte more than the server reads behind the operation code,
-- and fits into the server's buffer of 1041 bytes.
pub request-Sized :
    (stack : Bytes) (session flags fhandle : ℤ) (name buffer : List ℕ) (n len : ℕ)
    → SizedIf op_mount len (mount_request stack name)
      × Sized op_unmount len (unmount_request stack session)
      × SizedIf op_open len (open_request stack session name flags)
      × Sized op_close len (close_request stack session fhandle)
      × SizedIf op_write len (write_request stack session fhandle buffer n)
      × Sized op_read len (read_request stack session fhandle n)
      × Sized op_shutdown len (shutdown_request stack session)
unfolding mount_request unmount_request open_request close_request write_request read_request
    shutdown_request get_client_info_max_size
request-Sized stack session flags fhandle name buffer n len =
    let h = header stack in
    let named = strcpy (h op_open session) 5 name in
    let sizes = store_size (store_int (h op_write session) 5 fhandle) 9 n in
    let reading = store_size (store_int (h op_read session) 5 fhandle) 9 n in
    (
      sized_if op_mount len _ _
          (sized op_mount len 41 (strcpy (store_byte stack 0 op_mount) 1 name) refl (omega arith)),
      sized op_unmount len 5 (h op_unmount session) refl (omega arith),
      sized_if op_open len _ _
          (sized op_open len 49 (store_int named (5 + length name + 1) flags) refl (omega arith)),
      sized op_close len 9 (store_int (h op_close session) 5 fhandle) refl (omega arith),
      sized_if op_write len _ _
          (sized op_write len 1041 (memcpy sizes 17 buffer 0 n) refl (omega arith)),
      sized op_read len 17 reading refl (omega arith),
      sized op_shutdown len 5 (h op_shutdown session) refl (omega arith),
    )
