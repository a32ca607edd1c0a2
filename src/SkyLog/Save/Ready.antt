-- ===== src/SkyLog/Save/Ready.antt =====
-- The file of a log in src/sky_log.c: it is opened without a fault.
use trace_server.Base.{
  ℕ, ◌≡◌, refl, ◌∙◌, inl, inr, Bool, true, false, Option, some, List, arith, ltb, if◌then◌else◌,
  Bool-cases, is_some, length, replicate,
}
use trace_server.Libc.{cstr, snprintf}
use trace_server.Libc.Laws.{IsTerminated, snprintf_fits, strlen-lt, strlen_pos}
use trace_server.File.Paths.{FileSystem, Disk, create_file, create_dir}
use trace_server.File.Paths.Dirs.{create_dir-Made}
use trace_server.SkyLog.{Skylog, get_skylog_type_name}
use trace_server.SkyLog.Laws.{check_create_data_lem}
use trace_server.SkyLog.Record.{Opening, day_text}
use trace_server.SkyLog.Save.{
  Attempt, moment_text, dir_text, file_text, dated, reopen, name_and_create, create_new,
  create_and_open_skylog_file, skylog_file_create,
}

-- A log's arrays have their lengths and hold strings, and its type has a name.
abbrev pub IsLog : Skylog → Type 0
IsLog log =
    (length log.file_path ≡ 255)
    × IsTerminated log.file_path
    × (length log.create_data ≡ 32)
    × IsTerminated log.create_data
    × ((name : List ℕ) × (get_skylog_type_name log.type_code ≡ some name))

dated-IsLog :
    (o : Opening) (log : Skylog)
    → IsLog log
    → (log1 : Skylog) × (dated o log ≡ some log1) × IsLog log1
unfolding dated
dated-IsLog o log (fl, ft, cl, ct, name) =
    let valid = check_create_data_lem log.create_data ct.0 ct.1 in
    elim (Bool-cases (ltb 0 ct.0)) [
      | inl yes_valid ↦ (log, rw (valid, yes_valid) refl, (fl, ft, cl, ct, name))
      | inr invalid ↦
          let (r, er, lr, tr, shape) =
            snprintf_fits log.create_data 0 31 (day_text o.date) (omega arith) (omega arith) in
          (
            record log { create_data = r },
            rw (valid, invalid, er) refl,
            (fl, ft, lr ∙ cl, tr, name),
          )
    ]

module _ (F : FileSystem) where
  -- A call that returns, and leaves the log as it should be.
  pub record Ready (o : Option (Attempt F)) : Type 0 where
    pub ok : Bool
    pub log : Skylog
    pub disk : Disk F
    pub returned : o ≡ some (ok, log, disk)
    pub wf : IsLog log

  reopen-Ready :
      (o : Opening) (d : Disk F) (log : Skylog) (path : List ℕ)
      → IsLog log
      → Ready (some (reopen F o d log path))
  unfolding reopen
  reopen-Ready o d log path h = record { ok = _; log = _; disk = _; returned = refl; wf = h }

  name_and_create-Ready :
      (o : Opening) (d : Disk F) (log : Skylog) (text : List ℕ)
      → IsLog log
      → Ready (name_and_create F o d log text)
  unfolding name_and_create
  name_and_create-Ready o d log text (fl, ft, cl, ct, name) =
      let (path, ep, lp, tp, shape_p) =
        snprintf_fits (replicate 255 0) 0 254 text (omega arith) (omega arith) in
      let (kept, ek, lk, tk, shape_k) =
        snprintf_fits log.file_path 0 255 (cstr path) (omega arith) (omega arith) in
      let h : IsLog (record log { file_path = kept }) = (lk ∙ fl, tk, cl, ct, name) in
      elim (Bool-cases (create_file F d (cstr path)).0) [
        | inl there ↦
            rw (ep, ek, there)
              (reopen-Ready o (create_file F d (cstr path)).1 (record log { file_path = kept })
                (cstr path) h)
        | inr failed ↦
            rw (ep, ek, failed) (record { ok = _; log = _; disk = _; returned = refl; wf = h })
      ]

  -- The directory of a log.
  directory-Made :
      (d : Disk F) (log : Skylog) (name : List ℕ)
      → (dir : List ℕ) × (snprintf (replicate 255 0) 0 254 (dir_text log name) ≡ some dir)
        × (made : Bool) × (d' : Disk F) × (create_dir F d dir ≡ some (made, d'))
  directory-Made d log name =
      let (dir, ed, ld, td, shape) =
        snprintf_fits (replicate 255 0) 0 254 (dir_text log name) (omega arith) (omega arith) in
      let m =
        create_dir-Made F d dir td.0 td.1 (strlen_pos dir _ b'/' td.0 shape.1 refl td.1)
          (omega (arith, strlen-lt dir td.0 td.1)) in
      (dir, ed, m.ok, m.disk, m.returned)

  create_new-Ready :
      (o : Opening) (d : Disk F) (log : Skylog) → IsLog log → Ready (create_new F o d log)
  unfolding create_new
  create_new-Ready o d log h =
      let (log1, el, h1) = dated-IsLog o log h in
      let (time_str, et, lt, tt', shape) =
        snprintf_fits (replicate 64 0) 0 63 (moment_text o) (omega arith) (omega arith) in
      let (name, en) = h1.4 in
      let (dir, ed, made, d1, em) = directory-Made d log1 name in
      elim (Bool-cases made) [
        | inl done ↦
            rw (el, et, en, ed, em, done)
              (name_and_create-Ready o d1 log1 (file_text log1.type_code dir name log1.sn time_str)
                h1)
        | inr refused ↦
            rw (el, et, en, ed, em, refused)
              (record { ok = _; log = _; disk = _; returned = refl; wf = h1 })
      ]

  -- The file of an earlier attempt, or a new one.
  either-Ready :
      (o : Opening) (log : Skylog) (path : List ℕ) (created : Bool × Disk F)
      → IsLog log
      → Ready
          (if created.0 then some (reopen F o created.1 log path) else create_new F o created.1 log)
  either-Ready o log path created h = elim (Bool-cases created.0) [
    | inl there ↦ rw there (reopen-Ready o created.1 log path h)
    | inr failed ↦ rw failed (create_new-Ready o created.1 log h)
  ]

  create_and_open-Ready :
      (o : Opening) (d : Disk F) (log : Skylog)
      → IsLog log
      → Ready (create_and_open_skylog_file F o d log)
  unfolding create_and_open_skylog_file
  create_and_open-Ready o d log h =
      let (n, en) = h.1 in
      let path = cstr log.file_path in
      rw en (either-Ready o log path (if ltb 0 n then create_file F d path else (false, d)) h)

  pub file_create-Ready :
      (o : Opening) (d : Disk F) (log : Skylog) → IsLog log → Ready (skylog_file_create F o d log)
  unfolding skylog_file_create
  file_create-Ready o d log h = elim (Bool-cases (is_some log.f)) [
    | inl opened ↦ rw opened (record { ok = true; log = log; disk = d; returned = refl; wf = h })
    | inr closed ↦ rw closed (create_and_open-Ready o d log h)
  ]
