-- ===== src/SkyLog/Save/Saved.antt =====
-- What `skylog_save` of src/sky_log.c makes of its attempts.
use trace_server.Base.{
  ℕ, zero, suc, ◌+◌, ◌≤◌, ◌<◌, ◌≡◌, refl, inl, inr, Bool, true, false, Option, none, some, List, [],
  ◌∷◌, ◌++◌, arith, Bool-cases, lt→ltb, length-append, length, replicate,
}
use trace_server.Base.Int.{pos}
use trace_server.Libc.{cstr}
use trace_server.Libc.Laws.{snprintf_fits, strlen_lem, strlen-lt}
use trace_server.File.Paths.{FileSystem, Disk}
use trace_server.SkyLog.{Skylog}
use trace_server.SkyLog.Record.{Opening, SkylogRecord}
use trace_server.SkyLog.Record.Kept.{IsRecord, skylog_record-Recorded}
use trace_server.SkyLog.Save.{
  Attempt, skylog_write_to_file, skylog_write_finish, save_loop, skylog_save,
}
use trace_server.SkyLog.Save.Ready.{IsLog}
use trace_server.SkyLog.Save.Attempts.{
  Tries, Attempts, gave_up, succeeded, failed, write_to_file-Tried,
}
use trace_server.Libc.{snprintf}
use trace_server.SkyLog.Record.{skylog_record}

module _ (F : FileSystem) (bytes : List ℕ) (n : ℕ) where
  -- At most `left` attempts that returned: how they went, and the log as it should be, with no file left
  -- open by a failure.
  pub record Saved (env : ℕ → Opening) (left i : ℕ) (d : Disk F) (log : Skylog)
      (r : Option (Attempt F)) : Type 0 where
    pub out : Attempt F
    pub returned : r ≡ some out
    pub wf : IsLog out.1
    pub attempts : Attempts F bytes n env left i d log out
    pub closed : out.0 ≡ false → out.1.f ≡ none

  loop-Saved :
      (left i : ℕ) (env : ℕ → Opening) (d : Disk F) (log : Skylog)
      → IsLog log
      → 0 < n
      → n ≤ length bytes
      → (left ≡ 0 → log.f ≡ none)
      → Saved env left i d log (save_loop F left i env d log bytes n)
  unfolding save_loop skylog_write_finish
  loop-Saved zero i env d log h some_bytes room done = record {
    out = (false, log, d);
    returned = refl;
    wf = h;
    attempts = gave_up i d log;
    closed = λ e. done refl;
  }
  loop-Saved (suc left) i env d log h some_bytes room done =
      let t = write_to_file-Tried F bytes n (env i) d log h some_bytes room in
      go (λ d log wf. loop-Saved left (i + 1) env d log wf some_bytes room) t.out t.returned t.wf
        t.tries
    where
      go :
          ((d : Disk F) (log : Skylog)
            → IsLog log
            → (left ≡ 0 → log.f ≡ none)
            → Saved env left (i + 1) d log (save_loop F left (i + 1) env d log bytes n))
          → (out : Attempt F) → skylog_write_to_file F (env i) d log bytes n ≡ some out
          → IsLog out.1
          → Tries F bytes n (env i) d log out
          → Saved env (suc left) i d log (save_loop F (suc left) i env d log bytes n)
      go again (true, log1, d1) e wf tries = rw e (record {
        out = (true, log1, d1);
        returned = refl;
        wf = wf;
        attempts = succeeded left i d d1 log log1 tries;
        closed = λ no_way. absurd (cc);
      })
      go again (false, log1, d1) e wf tries =
          let closed = skylog_write_finish F d1 log1 in
          let s = again closed.1 closed.0 wf (λ _. refl) in
          rw e (record {
            out = s.out;
            returned = s.returned;
            wf = s.wf;
            attempts = failed left i d d1 log log1 s.out tries s.attempts;
            closed = s.closed;
          })

module _ (F : FileSystem) where
  -- The line that is recorded of a log.
  abbrev pub line_of : Skylog → List ℕ
  line_of log = cstr log.file_path ++ (b'\r' ∷ b'\n' ∷ [])

  -- What is done after the attempts: their success is recorded, on the disk that they left; or nothing.
  pub data After (o : Opening) (r : SkylogRecord) (out : Attempt F)
      : SkylogRecord → Disk F → Type 0 where
    recorded :
        (text : List ℕ) (ok : Bool) (r' : SkylogRecord) (d' : Disk F)
        → out.0 ≡ true
        → snprintf (replicate 512 0) 0 511 (line_of out.1) ≡ some text
        → skylog_record F o out.2 r text (length (line_of out.1)) ≡ some (ok, r', d')
        → After o r out r' d'
    nothing_recorded : out.0 ≡ false → After o r out r out.2

  -- `skylog_save` of data, of which there are some, with a log whose type has a name and whose path and date
  -- are strings in arrays of their lengths, and a record whose name is a string, returns the result of its
  -- attempts, whatever comes of the record. They are three at most, one after another: each opens the
  -- log's file if it is not open, and adds to what that then holds either all the data, and then it is the
  -- last attempt and the result is true, or fewer, and then the file is closed before the next. If none
  -- stored the data, the result is false and the log has no open file. The log's path is recorded after a
  -- success only. The log's arrays hold strings again, and the record's name is one.
  pub skylog_save-Saved :
      (env : ℕ → Opening) (o : Opening) (d : Disk F) (r : SkylogRecord) (log : Skylog)
      (bytes : List ℕ) (n : ℕ)
      → IsLog log
      → IsRecord r
      → 0 < n
      → n ≤ length bytes
      → (s : Saved F bytes n env 3 0 d log (save_loop F 3 0 env d log bytes n))
        × (r' : SkylogRecord) × (d' : Disk F) × (skylog_save F env o d r log bytes (pos n)
            ≡ some (s.out.0, s.out.1, r', d'))
        × After o r s.out r' d'
        × IsRecord r'
  unfolding skylog_save
  skylog_save-Saved env o d r log bytes n h hr some_bytes room =
      let s = loop-Saved F bytes n 3 0 env d log h some_bytes room (λ e. absurd (omega arith)) in
      let log' = s.out.1 in
      let (text, et, lt, tt', shape) =
        snprintf_fits (replicate 512 0) 0 511 (line_of log') (omega arith) (omega arith) in
      let path_len : length (cstr log'.file_path) < 255 = omega (
        arith,
        strlen_lem log'.file_path s.wf.1.0 s.wf.1.1,
        strlen-lt log'.file_path s.wf.1.0 s.wf.1.1,
        s.wf.0,
      ) in
      let line_len : length (line_of log') ≡ length (cstr log'.file_path) + 2 =
        length-append (cstr log'.file_path) (b'\r' ∷ b'\n' ∷ []) in
      let rec =
        skylog_record-Recorded F o s.out.2 r text (length (line_of log')) hr (omega arith)
          (omega (arith, lt)) in
      elim (Bool-cases s.out.0) [
        | inl wrote ↦ (
          s,
          rec.rec,
          rec.disk,
          rw (lt→ltb 0 n some_bytes, s.returned, wrote, et, rec.returned) refl,
          recorded text rec.ok rec.rec rec.disk wrote et rec.returned,
          rec.wf,
        )
        | inr none_did ↦ (
          s,
          r,
          s.out.2,
          rw (lt→ltb 0 n some_bytes, s.returned, none_did) refl,
          nothing_recorded none_did,
          hr,
        )
      ]
