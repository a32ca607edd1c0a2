-- ===== src/Talk/Stored.antt =====
-- What `client_talk_skylog_save` of src/client_talk_option.c stores in files.
use trace_server.Base.{
  ℕ, ◌+◌, ◌-◌, ◌≤◌, ◌<◌, ◌≡◌, refl, ap, ◌∙◌, Bool, true, false, Option, none, some, List, arith,
  length, length-drop, drop, lt→ltb, ltb, not, if◌then◌else◌, ◌>>=◌,
}
use trace_server.Base.Int.{pos, sub_ℕ}
use trace_server.Libc.{strstr}
use trace_server.Libevent.{Libevent}
use trace_server.File.Paths.{FileSystem, Disk, file_close}
use trace_server.SkyLog.{Skylog, parse_skylog_info, get_skylog_type_name}
use trace_server.SkyLog.Record.{SkylogRecord}
use trace_server.SkyLog.Record.Kept.{IsRecord}
use trace_server.SkyLog.Save.{save_loop, skylog_save, skylog_save_finished, skylog_write_finish}
use trace_server.SkyLog.Save.Saved.{Saved, After, skylog_save-Saved}
use trace_server.SkyLog.Save.Parsed.{parse_skylog_info-IsLog}
use trace_server.Talk.{ClientOption, talk_skylog_save, save_stream, gzip_header}
use trace_server.Talk.Files.{FileStore, Givens, files}

module _ (L : Libevent) (F : FileSystem) (given : Givens F) where
  -- What is done with the content.
  with_content : FileStore F → ClientOption → List ℕ → Option (Bool × ClientOption × FileStore F)
  with_content w o buf =
      if not (ltb 0 o.http_request.data_len)
      then some (false, o, w)
      else (parse_skylog_info o.http_request >>= λ log. strstr buf gzip_header >>= λ p. elim p [
        | none ↦ some (false, record o { skylog = log }, w)
        | some at_header ↦
            let saved = save_stream L (FileStore F) (files F given) w o log buf at_header in
            some (true, saved.0, saved.1)
      ])

  -- A run of the call, up to the close of the file.
  run_stored :
      (w : FileStore F) (o : ClientOption) (buf : List ℕ) (log : Skylog) (at_header n : ℕ)
      (ret : Bool) (log' : Skylog) (saved : SkylogRecord) (disk : Disk F)
      → ltb 0 o.http_request.data_len ≡ true
      → parse_skylog_info o.http_request ≡ some log
      → strstr buf gzip_header ≡ some (some at_header)
      → sub_ℕ o.http_request.data_len (at_header + 46) ≡ pos n
      → skylog_save F
          (given w.calls).0
          (given w.calls).1
          w.disk
          w.saved
          log
          (drop at_header buf)
          (pos n)
        ≡ some (ret, log', saved, disk)
      → with_content w o buf
        ≡ some (
          true,
          record o { skylog = record log' { f = none } },
          record w { disk = file_close F disk log'.f; saved = saved; calls = w.calls + 1 },
        )
  unfolding with_content files save_stream skylog_save_finished skylog_write_finish
  run_stored w o buf log at_header n ret log' saved disk some_data ep eg len es =
      rw (some_data, ep, eg, len, es) refl

  -- `client_talk_skylog_save` over files, of a request with a content, a log whose type has a name, and a
  -- gzip header with more than the 46 bytes of a token behind it, returns true without a fault. It has
  -- called `skylog_save` once, with the log that is parsed from the request and with the content from the
  -- gzip header on but its last 46 bytes, on the disk that it found: that call made at most three attempts
  -- to store those bytes, which end with the first that stores all of them behind what the log's file
  -- held; after a success the log's path was recorded. What the store has afterwards is what the call left, with
  -- the log's file closed; the log that is kept is the call's, without an open file.
  pub talk_skylog_save-stores :
      (w : FileStore F) (o : ClientOption) (buf name : List ℕ) (log : Skylog) (at_header : ℕ)
      → o.http_request.context_buf ≡ some buf
      → o.http_request.data_len ≤ length buf
      → parse_skylog_info o.http_request ≡ some log
      → get_skylog_type_name log.type_code ≡ some name
      → strstr buf gzip_header ≡ some (some at_header)
      → at_header + 46 < o.http_request.data_len
      → IsRecord w.saved
      → let n = o.http_request.data_len - (at_header + 46) in
        let sent = drop at_header buf in
        (s : Saved F sent n
          (given w.calls).0
          3
          0
          w.disk
          log
          (save_loop F 3 0 (given w.calls).0 w.disk log sent n))
        × (disk : Disk F) × (o' : ClientOption) × (w' : FileStore F) × (talk_skylog_save L
              (FileStore F)
              (files F given)
              w
              o
            ≡ some (true, o', w'))
        × After F (given w.calls).1 w.saved s.out w'.saved disk
        × (w'.disk ≡ file_close F disk s.out.1.f)
        × (o'.skylog ≡ record s.out.1 { f = none })
        × (w'.calls ≡ w.calls + 1)
        × (w'.faulted ≡ w.faulted)
        × IsRecord w'.saved
  unfolding talk_skylog_save with_content
  talk_skylog_save-stores w o buf name log at_header eb size ep en eg long h =
      let n = o.http_request.data_len - (at_header + 46) in
      let wf = parse_skylog_info-IsLog o.http_request log name ep en in
      let (s, saved, disk, es, after, hs) =
        skylog_save-Saved F (given w.calls).0 (given w.calls).1 w.disk w.saved log
          (drop at_header buf) n wf h (omega arith) (omega (arith, length-drop at_header buf)) in
      let some_data = lt→ltb 0 o.http_request.data_len (omega arith) in
      let len : sub_ℕ o.http_request.data_len (at_header + 46) ≡ pos n = ground arith in
      (
        s,
        disk,
        record o { skylog = record s.out.1 { f = none } },
        record w { disk = file_close F disk s.out.1.f; saved = saved; calls = w.calls + 1 },
        ap (λ b. elim b [ none ↦ some (false, o, w) | some bytes ↦ with_content w o bytes ]) eb
            ∙ run_stored w o buf log at_header n s.out.0 s.out.1 saved disk some_data ep eg len es,
        after,
        refl,
        refl,
        refl,
        refl,
        hs,
      )
