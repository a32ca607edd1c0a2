-- ===== src/Trace/Tests.antt =====
-- Tests of the output's files, in memory.
use trace_server.Base.{◌≡◌, refl, true, false, none, some, [], ◌∷◌}
use trace_server.File.{File, io_normal}
use trace_server.File.Memory.{memory, Memory}
use trace_server.File.Paths.{
  file_node_create, file_fd_close, file_close, dirs_loop, create_dir, create_file, open_file,
  lseek_from_end,
}
use trace_server.Trace.{
  Trace, terminal_stdout, redirect, take_over, log_trace_init, log_trace_stdout_init,
  log_trace_stderr_init, log_trace_stdout_exit, log_trace_stderr_exit,
}

abbrev nothing_open : Trace
nothing_open = record { trace_f = none; stderr_f = none }

abbrev with_dir : Memory
with_dir = record { paths = (b'o' ∷ []) ∷ []; log = [] }

-- "o/t"
abbrev opened : File
opened = record { fd = 3; file = b'o' ∷ b'/' ∷ b't' ∷ []; status = io_normal }

redirected :
    log_trace_stdout_init memory true true nothing_open with_dir (b'o' ∷ 0 ∷ []) (b't' ∷ 0 ∷ [])
    ≡ some (
      record { trace_f = some opened; stderr_f = none },
      redirect 3 terminal_stdout ∷ [],
      record {
        paths = (b'o' ∷ b'/' ∷ b't' ∷ []) ∷ (b'o' ∷ b'/' ∷ b't' ∷ []) ∷ (b'o' ∷ []) ∷ [];
        log = [];
      },
    )
unfolding log_trace_stdout_init log_trace_init take_over create_dir dirs_loop create_file open_file
    file_node_create file_fd_close lseek_from_end
redirected = refl

-- An allocation that fails leaves the terminal as it is.
not_redirected :
    log_trace_stderr_init memory true false nothing_open with_dir (b'o' ∷ 0 ∷ []) (b't' ∷ 0 ∷ [])
    ≡ some (
      nothing_open,
      [],
      record {
        paths = (b'o' ∷ b'/' ∷ b't' ∷ []) ∷ (b'o' ∷ b'/' ∷ b't' ∷ []) ∷ (b'o' ∷ []) ∷ [];
        log = [];
      },
    )
unfolding log_trace_stderr_init log_trace_init take_over create_dir dirs_loop create_file open_file
    file_node_create file_fd_close lseek_from_end
not_redirected = refl

closed :
    (log_trace_stdout_exit memory nothing_open with_dir ≡ with_dir)
    × (log_trace_stderr_exit memory nothing_open with_dir ≡ with_dir)
unfolding log_trace_stdout_exit log_trace_stderr_exit file_close
closed = (refl, refl)
