-- ===== src/Parte2/Client.antt =====
-- Parte2/tecnicofs_ex2/client/tecnicofs_client_api.c: the requests that a client sends, and what it
-- makes of the answers. A buffer starts as `stack`, since it is not initialised; `none` stands for a
-- copy that leaves its buffer.
pub mod Requests
pub mod Sizes
use so_file_system.Common.{
  ℕ, zero, suc, ◌+◌, ◌-◌, ◌*◌, ℤ, pos, negsuc, minus_one, is_minus_one, is_nonneg, index, Option,
  none, some, Bool, true, false, ltb, leb, ◌==◌, ◌&&◌, List, [], ◌∷◌, if◌then◌else◌, length, slice,
}
use so_file_system.Memory.{Bytes, load_int, store_int, store_byte, memcpy}
use so_file_system.Memory.Wide.{strcpy, store_size}

-- The operation codes of common/common.h.
abbrev pub op_mount : ℕ
op_mount = 1

abbrev pub op_unmount : ℕ
op_unmount = 2

abbrev pub op_open : ℕ
op_open = 3

abbrev pub op_close : ℕ
op_close = 4

abbrev pub op_write : ℕ
op_write = 5

abbrev pub op_read : ℕ
op_read = 6

abbrev pub op_shutdown : ℕ
op_shutdown = 7

-- The first bytes of every request but the one for a session.
abbrev pub header : Bytes → ℕ → ℤ → Bytes
header stack op_code session = store_int (store_byte stack 0 op_code) 1 session

unfoldable pub mount_request : Bytes → List ℕ → Option (List ℕ)
mount_request stack name =
    if ltb (length name) 40
    then some (slice (strcpy (store_byte stack 0 op_mount) 1 name) 0 41)
    else none

unfoldable pub unmount_request : Bytes → ℤ → List ℕ
unmount_request stack session = slice (header stack op_unmount session) 0 5

unfoldable pub open_request : Bytes → ℤ → List ℕ → ℤ → Option (List ℕ)
open_request stack session name flags =
    if ltb (length name) 40
    then some (
        slice (store_int (strcpy (header stack op_open session) 5 name) (5 + length name + 1) flags)
          0 49)
    else none

unfoldable pub close_request : Bytes → ℤ → ℤ → List ℕ
close_request stack session fhandle =
    slice (store_int (header stack op_close session) 5 fhandle) 0 9

unfoldable pub write_request : Bytes → ℤ → ℤ → List ℕ → ℕ → Option (List ℕ)
write_request stack session fhandle buffer len =
    if ltb (17 + len) 1042
    then some (
        slice
          (memcpy (store_size (store_int (header stack op_write session) 5 fhandle) 9 len) 17 buffer
            0 len)
          0 1041)
    else none

unfoldable pub read_request : Bytes → ℤ → ℤ → ℕ → List ℕ
read_request stack session fhandle len =
    slice (store_size (store_int (header stack op_read session) 5 fhandle) 9 len) 0 17

unfoldable pub shutdown_request : Bytes → ℤ → List ℕ
shutdown_request stack session = slice (header stack op_shutdown session) 0 5

-- `write` to the server's pipe and `read` from the client's own: the memory that the answer is read
-- into, `none` where one of the calls fails.
abbrev pub Exchange : Type 0
Exchange = List ℕ → ℕ → Option Bytes

-- `if (write(…) < 0 || read(fclient, &serverAnswer, sizeof(int)) < 0) return -1; return serverAnswer;`
unfoldable pub ask : Exchange → List ℕ → ℤ
ask io bytes = elim (io bytes 4) [ none ↦ minus_one | some m ↦ load_int m 0 ]

-- What the process holds: whether its pipes are open, and its session.
pub record Client : Type 0 where
  pub mounted : Bool
  pub session_id : ℤ

-- The pipes are closed and the client's own unlinked where the server has agreed.
unfoldable pub client_unmount : Exchange → Bytes → Client → Client × ℤ
client_unmount io stack c =
    let r = ask io (unmount_request stack c.session_id) in
    (if is_nonneg r then record c { mounted = false } else c, r)

-- mkfifo and the two calls of open succeed, or the call returns -1 with the pipes closed again.
unfoldable pub client_mount : Exchange → Bytes → Bool → Bool → Client → List ℕ → Option (Client × ℤ)
client_mount io stack made opened c name =
    let fails : Option (Client × ℤ) = some (c, minus_one) in
    elim (mount_request stack name) [
      | none ↦ none
      | some bytes ↦
          if made && opened
          then elim (io bytes 4) [
            | none ↦ fails
            | some m ↦
                let session = load_int m 0 in
                if is_minus_one session
                then some (record c { session_id = session }, minus_one)
                else some (record { mounted = true; session_id = session }, pos 0)
          ]
          else fails
    ]

unfoldable pub client_open : Exchange → Bytes → Client → List ℕ → ℤ → Option ℤ
client_open io stack c name flags = elim (open_request stack c.session_id name flags) [
  | none ↦ none
  | some bytes ↦ some (ask io bytes)
]

unfoldable pub client_close : Exchange → Bytes → Client → ℤ → ℤ
client_close io stack c fhandle = ask io (close_request stack c.session_id fhandle)

unfoldable pub client_write : Exchange → Bytes → Client → ℤ → List ℕ → ℕ → Option ℤ
client_write io stack c fhandle buffer len =
    elim (write_request stack c.session_id fhandle buffer len) [
      | none ↦ none
      | some bytes ↦ some (ask io bytes)
    ]

-- The bytes read are what memcpy has put at the start of the caller's buffer. `none` is an array of
-- more bytes than the `room` on the stack, which the array for the answer may have.
unfoldable pub client_read : ℕ → Exchange → Bytes → Client → ℤ → ℕ → Option (ℤ × List ℕ)
client_read room io stack c fhandle len =
    if ltb room (len + 4)
    then none
    else elim (io (read_request stack c.session_id fhandle len) (len + 4)) [
      | none ↦ some (minus_one, [])
      | some m ↦ let r = load_int m 0 in some (r, if is_nonneg r then slice m 4 (index r) else [])
    ]

unfoldable pub client_shutdown : Exchange → Bytes → Client → ℤ
client_shutdown io stack c = ask io (shutdown_request stack c.session_id)
