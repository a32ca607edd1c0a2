-- ===== src/SkyLog/Record/RecordTests.antt =====
-- Tests of the record of saved logs, in memory.
use trace_server.Base.{ℕ, ◌≡◌, refl, Bool, true, some, List, [], ◌∷◌, omap}
use trace_server.Base.Int.{pos}
use trace_server.Libc.Print.{int_text, two_places, decimal, digits_of}
use trace_server.File.{write_file, write_loop}
use trace_server.File.Memory.{memory, Memory}
use trace_server.File.Paths.{
  create_dir, dirs_loop, create_file, open_file, file_close, file_fd_close, file_node_create,
  lseek_from_end,
}
use trace_server.SkyLog.Record.{
  Opening, no_record, skylog_record, record_create_and_open_file, record_refresh, record_open,
  record_write, record_exit,
}

abbrev opening : Opening
opening = record {
  date = record {
    year = pos 20;
    mon = pos 1;
    day = pos 2;
    hour = pos 3;
    minute = pos 4;
    sec = pos 5;
  };
  us = 7;
  node_ok = true;
  name_ok = true;
}

abbrev start : Memory
start = record { paths = []; log = [] }

recorded :
    omap {B = Bool × List ℕ}
      (λ (ok, r, m). (ok, m.log))
      (skylog_record memory opening start no_record (1 ∷ 2 ∷ []) 2)
    ≡ some (true, 1 ∷ 2 ∷ [])
unfolding skylog_record record_create_and_open_file record_refresh record_open record_write
    record_exit create_dir dirs_loop create_file open_file file_close file_fd_close file_node_create
    lseek_from_end write_file write_loop int_text two_places decimal digits_of
recorded = refl
