-- ===== src/SkyLog/Save/SaveTests.antt =====
-- Tests of the file of a log, in memory.
use trace_server.Base.{ℕ, zero, suc, ◌≡◌, refl, Bool, true, false, some, List, [], ◌∷◌, omap, arith}
use trace_server.Base.Int.{pos}
use trace_server.Libc.Print.{int_text, two_places, decimal, digits_of}
use trace_server.File.{write_file, write_loop}
use trace_server.File.Memory.{memory, Memory}
use trace_server.File.Paths.{
  Disk, create_dir, dirs_loop, create_file, clear_file, open_file, file_close, file_fd_close,
  file_node_create, lseek_from_end,
}
use trace_server.SkyLog.{zeroed, check_create_data, create_data_loop, get_skylog_type_name}
use trace_server.SkyLog.Record.{Opening, SkylogRecord, no_record}
use trace_server.SkyLog.Record.Kept.{IsRecord}
use trace_server.SkyLog.Save.{
  dated, reopen, name_and_create, create_new, create_and_open_skylog_file, skylog_file_create,
  skylog_write_to_file, skylog_write_finish, save_loop, skylog_save,
}
use trace_server.SkyLog.Save.Saved.{Saved, After, skylog_save-Saved}

abbrev opening : Opening
opening = record {
  date = record {
    year = pos 20;
    mon = pos 1;
    day = pos 2;
    hour = pos 3;
    minute = pos 4;
    sec = pos 5;
  };
  us = 7;
  node_ok = true;
  name_ok = true;
}

abbrev start : Memory
start = record { paths = []; log = [] }

-- A log of type 0, whose calls of calloc fail at the first attempt.
abbrev attempts : ℕ → Opening
attempts zero = record opening { node_ok = false }
attempts (suc i) = opening

skylog_save-Saved_example :
    (s : Saved memory
      (1 ∷ 2 ∷ [])
      2
      attempts
      3
      0
      start
      zeroed
      (save_loop memory 3 0 attempts start zeroed (1 ∷ 2 ∷ []) 2))
    × (r' : SkylogRecord) × (d' : Disk memory) × (skylog_save memory attempts opening start
          no_record zeroed
          (1 ∷ 2 ∷ [])
          (pos 2)
        ≡ some (s.out.0, s.out.1, r', d'))
    × After memory opening no_record s.out r' d'
    × IsRecord r'
unfolding get_skylog_type_name
skylog_save-Saved_example =
    skylog_save-Saved memory attempts opening start no_record zeroed (1 ∷ 2 ∷ []) 2
      (refl, (0, refl), refl, (0, refl), (_, refl)) (0, refl) (omega arith) (omega arith)

-- The second attempt succeeds, and what it wrote is behind what was written.
second :
    omap {B = Bool × List ℕ}
      (λ (ok, log, m). (ok, m.log))
      (save_loop memory 3 0 attempts start zeroed (1 ∷ 2 ∷ []) 2)
    ≡ some (true, 1 ∷ 2 ∷ [])
unfolding save_loop skylog_write_to_file skylog_write_finish skylog_file_create
    create_and_open_skylog_file create_new name_and_create reopen dated check_create_data
    create_data_loop get_skylog_type_name create_dir dirs_loop create_file clear_file open_file
    file_close file_fd_close file_node_create lseek_from_end write_file write_loop int_text
    two_places decimal digits_of
second = refl
