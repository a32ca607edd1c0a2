-- ===== src/SkyLog/Save/Attempts.antt =====
-- The attempts of `skylog_save` in src/sky_log.c, one after another: what each finds on the disk and what it
-- leaves there.
use trace_server.Base.{
  ℕ, zero, suc, ◌+◌, ◌≤◌, ◌<◌, ◌≡◌, refl, ap, ◌∙◌, ◌⊎◌, inl, inr, Bool, true, false, Option, none,
  some, List, ◌++◌, ◌>>=◌, Bool-cases, length, take,
}
use trace_server.Base.Int.{is_count}
use trace_server.File.{File, write_file}
use trace_server.File.Laws.{write_file-ends}
use trace_server.File.Paths.{FileSystem, Disk}
use trace_server.SkyLog.{Skylog}
use trace_server.SkyLog.Record.{Opening}
use trace_server.SkyLog.Save.{
  Attempt, skylog_file_create, skylog_write_to_file, skylog_write_finish,
}
use trace_server.SkyLog.Save.Ready.{IsLog, file_create-Ready}

module _ (F : FileSystem) (bytes : List ℕ) (n : ℕ) where
  -- An attempt, from a disk and a log: the log's file, opened if it was not open, gets all the data behind what
  -- it held after that, or a proper prefix of them; or there is no file.
  pub data Tries (o : Opening) (d : Disk F) (log : Skylog) : Attempt F → Type 0 where
    stored :
        (log1 : Skylog) (d1 d2 : Disk F) (f f' : File)
        → skylog_file_create F o d log ≡ some (true, log1, d1)
        → log1.f ≡ some f
        → f'.fd ≡ f.fd
        → F.kernel.written d2 f.fd ≡ F.kernel.written d1 f.fd ++ take n bytes
        → Tries o d log (true, record log1 { f = some f' }, d2)
    cut_short :
        (log1 : Skylog) (d1 d2 : Disk F) (f f' : File) (count : ℕ)
        → skylog_file_create F o d log ≡ some (true, log1, d1)
        → log1.f ≡ some f
        → f'.fd ≡ f.fd
        → count < n
        → F.kernel.written d2 f.fd ≡ F.kernel.written d1 f.fd ++ take count bytes
        → Tries o d log (false, record log1 { f = some f' }, d2)
    no_file :
        (ready : Bool) (log1 : Skylog) (d1 : Disk F)
        → skylog_file_create F o d log ≡ some (ready, log1, d1)
        → (ready ≡ false) ⊎ (log1.f ≡ none)
        → Tries o d log (false, log1, d1)

  -- At most `left` attempts, of which the next is number `i`: the file is closed after each that failed,
  -- and the first that stores the data is the last.
  pub data Attempts (env : ℕ → Opening) : ℕ → ℕ → Disk F → Skylog → Attempt F → Type 0 where
    gave_up : (i : ℕ) (d : Disk F) (log : Skylog) → Attempts env zero i d log (false, log, d)
    succeeded :
        (left i : ℕ) (d d1 : Disk F) (log log1 : Skylog)
        → Tries (env i) d log (true, log1, d1)
        → Attempts env (suc left) i d log (true, log1, d1)
    failed :
        (left i : ℕ) (d d1 : Disk F) (log log1 : Skylog) (out : Attempt F)
        → Tries (env i) d log (false, log1, d1)
        → Attempts env left
            (i + 1)
            (skylog_write_finish F d1 log1).1
            (skylog_write_finish F d1 log1).0
            out
        → Attempts env (suc left) i d log out

  -- An attempt that returned, and the log as it should be.
  pub record Tried (o : Opening) (d : Disk F) (log : Skylog) (r : Option (Attempt F)) : Type 0 where
    pub out : Attempt F
    pub returned : r ≡ some out
    pub wf : IsLog out.1
    pub tries : Tries o d log out

  -- The write of an attempt, once the file was opened.
  write_open : Disk F → Skylog → Option File → Option (Attempt F)
  write_open d log none = some (false, log, d)
  write_open d log (some f) = write_file F.kernel d (some f) bytes n >>= λ (k, f', d2).
      some (is_count k n, record log { f = f' }, d2)

  open-Tried :
      (o : Opening) (d d1 : Disk F) (log log1 : Skylog) (f : Option File)
      → IsLog log1
      → 0 < n
      → n ≤ length bytes
      → skylog_file_create F o d log ≡ some (true, log1, d1)
      → log1.f ≡ f
      → Tried o d log (write_open d1 log1 f)
  unfolding write_open
  open-Tried o d d1 log log1 none h some_bytes room ready ef = record {
    out = (false, log1, d1);
    returned = refl;
    wf = h;
    tries = no_file true log1 d1 ready (inr ef);
  }
  open-Tried o d d1 log log1 (some f) h some_bytes room ready ef =
      let (k, f', d2, count, e, written, same, end) =
        write_file-ends F.kernel d1 f bytes n some_bytes room in
      elim end [
        | inl (ok, all) ↦
            rw (e, ok)
              (record {
                out = (true, record log1 { f = some f' }, d2);
                returned = refl;
                wf = h;
                tries =
                    stored log1 d1 d2 f f' ready ef same
                      (written ∙ ap (λ m. F.kernel.written d1 f.fd ++ take m bytes) all);
              })
        | inr (bad, less) ↦
            rw (e, bad)
              (record {
                out = (false, record log1 { f = some f' }, d2);
                returned = refl;
                wf = h;
                tries = cut_short log1 d1 d2 f f' count ready ef same less written;
              })
      ]

  pub write_to_file-Tried :
      (o : Opening) (d : Disk F) (log : Skylog)
      → IsLog log
      → 0 < n
      → n ≤ length bytes
      → Tried o d log (skylog_write_to_file F o d log bytes n)
  unfolding skylog_write_to_file write_open
  write_to_file-Tried o d log h some_bytes room =
      let r = file_create-Ready F o d log h in
      elim (Bool-cases r.ok) [
        | inl ready ↦
            rw (r.returned, ready)
              (open-Tried o d r.disk log r.log r.log.f r.wf some_bytes room
                (rw (r.returned, ready) refl) refl)
        | inr refused ↦
            rw (r.returned, refused)
              (record {
                out = (false, r.log, r.disk);
                returned = refl;
                wf = r.wf;
                tries = no_file false r.log r.disk (rw (r.returned, refused) refl) (inl refl);
              })
      ]
