-- ===== src/Socket.antt =====
-- src/socket.c: sockets, with the results of the system calls as arguments. A call that closes a
-- descriptor is an act.
mod Tests
use trace_server.Base.{ℕ, Bool, true, false, not, List, [], ◌∷◌, if◌then◌else◌}
use trace_server.Base.Int.{ℤ, pos, negsuc, ltb_ℤ, minus_one}
use Prim.Native.Nat.{bit_and, bit_or, bit_xor}

pub data SocketAct : Type 0 where
  close_fd : ℤ → SocketAct
  set_flags : ℤ → ℕ → SocketAct

unfoldable pub fd_close : ℤ → List SocketAct
fd_close socket = if ltb_ℤ (pos 0) socket then close_fd socket ∷ [] else []

-- O_NONBLOCK and the other bits of an `int`
abbrev pub o_nonblock : ℕ
o_nonblock = 0x800

abbrev pub not_nonblock : ℕ
not_nonblock = 0xfffff7ff

-- With what fcntl returns for F_GETFL and F_SETFL.
unfoldable pub socket_setfd_noblock : ℤ → Bool → ℤ → ℤ × List SocketAct
socket_setfd_noblock (negsuc n) set_ok socket = (minus_one, [])
socket_setfd_noblock (pos flag) set_ok socket =
    (if set_ok then pos 0 else minus_one, set_flags socket (bit_or flag o_nonblock) ∷ [])

unfoldable pub socket_setfd_block : ℤ → Bool → ℤ → ℤ × List SocketAct
socket_setfd_block (negsuc n) set_ok socket = (minus_one, [])
socket_setfd_block (pos flag) set_ok socket =
    (if set_ok then pos 0 else minus_one, set_flags socket (bit_and flag not_nonblock) ∷ [])

-- What the calls of `socket_listen` return.
pub record ListenAnswers : Type 0 where
  pub socket_fd : ℤ
  pub bind_ok : Bool
  pub listen_ok : Bool

unfoldable pub socket_listen : ListenAnswers → ℤ × List SocketAct
unfolding fd_close
socket_listen a =
    if not (ltb_ℤ (pos 0) a.socket_fd)
    then (minus_one, [])
    else if not a.bind_ok
    then (minus_one, fd_close a.socket_fd)
    else if not a.listen_ok
    then (minus_one, fd_close a.socket_fd)
    else (a.socket_fd, [])
