-- ===== src/SkyLog/Save.antt =====
-- src/sky_log.c: the file of a log, and the attempts to write it. `E_SKY_LOG_TYPE_CRASH` is 0. A `%s` of NULL is a
-- fault.
pub mod Ready
pub mod Parsed
pub mod Attempts
pub mod Saved
mod SaveTests
use trace_server.Base.{
  ℕ, zero, suc, ◌+◌, Bool, true, false, not, Option, none, some, List, [], ◌∷◌, ◌++◌, ltb, ◌==◌,
  if◌then◌else◌, ◌>>=◌, replicate, is_some, length,
}
use trace_server.Base.Int.{ℤ, pos, negsuc, is_count}
use trace_server.Libc.{cstr, strlen, snprintf}
use trace_server.Libc.Print.{int_text, two_places, decimal}
use trace_server.UserTime.{Date}
use trace_server.File.{File, write_file}
use trace_server.File.Paths.{
  FileSystem, Disk, file_close, create_dir, create_file, clear_file, open_file, lseek_from_end,
}
use trace_server.SkyLog.{Skylog, get_skylog_type_name, check_create_data}
use trace_server.SkyLog.Record.{Opening, SkylogRecord, day_text, skylog_record}

-- SKYLOG_ROOT_PATH and the '/' behind it
abbrev root_path : List ℕ
root_path = b'/' ∷ b'l' ∷ b'o' ∷ b'g' ∷ b'/' ∷ []

-- "20%d-%02d-%02d_%02d_%02d_%02d_%lu"
abbrev pub moment_text : Opening → List ℕ
moment_text o =
    day_text o.date
    ++ (b'_'
        ∷ (two_places o.date.hour
            ++ (b'_'
                ∷ (two_places o.date.minute
                    ++ (b'_' ∷ (two_places o.date.sec ++ (b'_' ∷ decimal o.us)))))))

abbrev pub is_crash : ℤ → Bool
is_crash (pos n) = n == 0
is_crash (negsuc n) = false

-- "%s/%s_%s_%s.info" or "%s/%s_%s_%s.gz"
abbrev pub file_text : ℤ → List ℕ → List ℕ → List ℕ → List ℕ → List ℕ
file_text type_code dir_path name sn time_str =
    cstr dir_path
    ++ (b'/'
        ∷ (cstr name
            ++ (b'_'
                ∷ (cstr sn
                    ++ (b'_'
                        ∷ (cstr time_str
                            ++ (if is_crash type_code
                                then b'.' ∷ b'i' ∷ b'n' ∷ b'f' ∷ b'o' ∷ []
                                else b'.' ∷ b'g' ∷ b'z' ∷ [])))))))

-- The path after "%s%s%s/%s/%s/%s/%s".
abbrev pub dir_text : Skylog → List ℕ → List ℕ
dir_text log name =
    root_path
    ++ (cstr name
        ++ (b'/'
            ∷ (cstr log.hw
                ++ (b'/'
                    ∷ (cstr log.ver ++ (b'/' ∷ (cstr log.sn ++ (b'/' ∷ cstr log.create_data))))))))

-- The creation date, or the day where it is not valid.
unfoldable pub dated : Opening → Skylog → Option Skylog
unfolding check_create_data
dated o log = do
  valid ← check_create_data log.create_data
  create_data ←
      (if valid then some log.create_data else snprintf log.create_data 0 31 (day_text o.date))
  some (record log { create_data = create_data })

module _ (F : FileSystem) where
  -- What a call makes of the log and the disk, and whether it succeeded.
  abbrev pub Attempt : Type 0
  Attempt = Bool × Skylog × Disk F

  -- A file that exists is emptied and opened at its end.
  unfoldable pub reopen : Opening → Disk F → Skylog → List ℕ → Attempt
  unfolding clear_file open_file lseek_from_end
  reopen o d log path =
      let cleared = clear_file F d path in
      let opened = open_file F o.node_ok o.name_ok cleared.1 path in
      let sought = lseek_from_end F opened.1 opened.0 (pos 0) in
      (is_some opened.0, record log { f = opened.0 }, sought.1)

  -- The new file's path, and the file.
  unfoldable pub name_and_create : Opening → Disk F → Skylog → List ℕ → Option Attempt
  unfolding reopen create_file
  name_and_create o d log text = do
    file_path ← snprintf (replicate 255 0) 0 254 text
    kept_path ← snprintf log.file_path 0 255 (cstr file_path)
    let log1 = record log { file_path = kept_path } in
        let created = create_file F d (cstr file_path) in
        some (
          if not created.0
          then (false, log1, created.1)
          else reopen o created.1 log1 (cstr file_path))

  -- A new file, in the directory of the log.
  unfoldable pub create_new : Opening → Disk F → Skylog → Option Attempt
  unfolding name_and_create create_dir dated get_skylog_type_name
  create_new o d log = do
    log1 ← dated o log
    time_str ← snprintf (replicate 64 0) 0 63 (moment_text o)
    name ← get_skylog_type_name log1.type_code
    dir_path ← snprintf (replicate 255 0) 0 254 (dir_text log1 name)
    (made, d1) ← create_dir F d dir_path
    if not made
        then some (false, log1, d1)
        else name_and_create o d1 log1 (file_text log1.type_code dir_path name log1.sn time_str)

  -- `_create_and_open_skylog_file`, of a log that is not NULL.
  unfoldable pub create_and_open_skylog_file : Opening → Disk F → Skylog → Option Attempt
  unfolding create_new
  create_and_open_skylog_file o d log = strlen log.file_path >>= λ n.
      let created = if ltb 0 n then create_file F d (cstr log.file_path) else (false, d) in
      if created.0
      then some (reopen o created.1 log (cstr log.file_path))
      else create_new o created.1 log

  unfoldable pub skylog_file_create : Opening → Disk F → Skylog → Option Attempt
  unfolding create_and_open_skylog_file
  skylog_file_create o d log =
      if is_some log.f then some (true, log, d) else create_and_open_skylog_file o d log

  -- With data that are not NULL, and more than none.
  unfoldable pub skylog_write_to_file : Opening → Disk F → Skylog → List ℕ → ℕ → Option Attempt
  unfolding skylog_file_create write_file
  skylog_write_to_file o d log bytes data_len = do
    (ready, log1, d1) ← skylog_file_create o d log
    if not ready then some (false, log1, d1) else elim log1.f [
      | none ↦ some (false, log1, d1)
      | some f ↦ write_file F.kernel d1 (some f) bytes data_len >>= λ (n, f', d2).
          some (is_count n data_len, record log1 { f = f' }, d2)
    ]

  unfoldable pub skylog_write_finish : Disk F → Skylog → Skylog × Disk F
  unfolding file_close
  skylog_write_finish d log = (record log { f = none }, file_close F d log.f)

  -- `left` attempts, of which the next is number `i`.
  unfoldable pub save_loop : ℕ → ℕ → (ℕ → Opening) → Disk F → Skylog → List ℕ → ℕ → Option Attempt
  unfolding skylog_write_to_file skylog_write_finish
  save_loop zero i env d log bytes data_len = some (false, log, d)
  save_loop (suc left) i env d log bytes data_len =
      let next : Skylog × Disk F → Option Attempt =
        λ r. save_loop left (i + 1) env r.1 r.0 bytes data_len in
      skylog_write_to_file (env i) d log bytes data_len >>= λ (ret, log1, d1).
      if ret then some (true, log1, d1) else next (skylog_write_finish d1 log1)

  -- With what the clock and calloc give each attempt, and the record of it; the record too afterwards.
  unfoldable pub skylog_save :
      (ℕ → Opening)
      → Opening
      → Disk F
      → SkylogRecord
      → Skylog
      → List ℕ
      → ℤ
      → Option (Bool × Skylog × SkylogRecord × Disk F)
  unfolding save_loop skylog_record
  skylog_save env o d r log bytes (negsuc n) = some (false, log, r, d)
  skylog_save env o d r log bytes (pos data_len) =
      if not (ltb 0 data_len) then some (false, log, r, d) else do
        (ret, log1, d1) ← save_loop 3 0 env d log bytes data_len
        let line = cstr log1.file_path ++ (b'\r' ∷ b'\n' ∷ []) in
            if not ret then some (false, log1, r, d1) else do
              record_data ← snprintf (replicate 512 0) 0 511 line
              (recorded, r1, d2) ← skylog_record F o d1 r record_data (length line)
              some (true, log1, r1, d2)

  unfoldable pub skylog_save_finished : Disk F → Skylog → Skylog × Disk F
  unfolding skylog_write_finish
  skylog_save_finished d log = skylog_write_finish d log
