-- ===== src/Socket/Tests.antt =====
-- Tests of sockets.
use trace_server.Base.{◌≡◌, refl, true, false, [], ◌∷◌}
use trace_server.Base.Int.{pos, minus_one}
use trace_server.Socket.{
  close_fd, set_flags, socket_setfd_noblock, socket_setfd_block, socket_listen,
}

not_blocking : socket_setfd_noblock (pos 2) true (pos 5) ≡ (pos 0, set_flags (pos 5) 0x802 ∷ [])
unfolding socket_setfd_noblock
not_blocking = refl

blocking : socket_setfd_block (pos 0x802) true (pos 5) ≡ (pos 0, set_flags (pos 5) 2 ∷ [])
unfolding socket_setfd_block
blocking = refl

not_bound :
    socket_listen (record { socket_fd = pos 5; bind_ok = false; listen_ok = true })
    ≡ (minus_one, close_fd (pos 5) ∷ [])
unfolding socket_listen
not_bound = refl
