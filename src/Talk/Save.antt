-- ===== src/Talk/Save.antt =====
-- What `client_talk_skylog_save` makes of the store's answer.
use trace_server.Base.{
  ℕ, ◌≡◌, refl, Bool, true, false, not, Option, none, some, List, omap, is_some, ltb, if◌then◌else◌,
  ◌>>=◌,
}
use trace_server.Libc.{strstr}
use trace_server.Libevent.{Libevent}
use trace_server.SkyLog.{Skylog, parse_skylog_info}
use trace_server.Talk.{ClientOption, SkylogStore, talk_skylog_save, save_stream, gzip_header}

-- What is accepted, by the request alone.
abbrev stream_found : ClientOption → List ℕ → Option Bool
stream_found o buf =
    if not (ltb 0 o.http_request.data_len)
    then some false
    else (parse_skylog_info o.http_request >>= λ log.
        strstr buf gzip_header >>= λ p. some (is_some p))

abbrev pub accepts : ClientOption → Option Bool
accepts o = elim o.http_request.context_buf [ none ↦ some false | some buf ↦ stream_found o buf ]

module _ (L : Libevent) (Store : Type 0) (S : SkylogStore Store) (w : Store)
    (o : ClientOption) where
  abbrev Saved : Type 0
  Saved = Option (Bool × ClientOption × Store)

  abbrev after_search : List ℕ → Skylog → Option ℕ → Saved
  after_search buf log p = elim p [
    | none ↦ some (false, record o { skylog = log }, w)
    | some at_header ↦
        let saved = save_stream L Store S w o log buf at_header in some (true, saved.0, saved.1)
  ]

  after_search_lem :
      (buf : List ℕ) (log : Skylog) (p : Option ℕ)
      → omap (λ r. r.0) (after_search buf log p) ≡ some (is_some p)
  after_search_lem buf log none = refl
  after_search_lem buf log (some at_header) = refl

  search_lem :
      (buf : List ℕ) (log : Skylog) (found : Option (Option ℕ))
      → omap (λ r. r.0) (found >>= after_search buf log) ≡ (found >>= λ p. some (is_some p))
  search_lem buf log none = refl
  search_lem buf log (some p) = after_search_lem buf log p

  parse_lem :
      (buf : List ℕ) (parsed : Option Skylog)
      → omap (λ r. r.0) (parsed >>= λ log. strstr buf gzip_header >>= after_search buf log)
        ≡ (parsed >>= λ log. strstr buf gzip_header >>= λ p. some (is_some p))
  parse_lem buf none = refl
  parse_lem buf (some log) = search_lem buf log (strstr buf gzip_header)

  length_lem :
      (buf : List ℕ) (b : Bool)
      → omap
          (λ r. r.0)
          (if not b
            then some (false, o, w)
            else (parse_skylog_info o.http_request >>= λ log.
                strstr buf gzip_header >>= after_search buf log))
        ≡ (if not b
            then some false
            else (parse_skylog_info o.http_request >>= λ log.
                strstr buf gzip_header >>= λ p. some (is_some p)))
  length_lem buf true = parse_lem buf (parse_skylog_info o.http_request)
  length_lem buf false = refl

  buffer_lem :
      (b : Option (List ℕ))
      → omap {A = Bool × ClientOption × Store}
          (λ r. r.0)
          (elim b [
            | none ↦ some (false, o, w)
            | some buf ↦
                if not (ltb 0 o.http_request.data_len)
                then some (false, o, w)
                else (parse_skylog_info o.http_request >>= λ log.
                    strstr buf gzip_header >>= after_search buf log)
          ])
        ≡ elim b [ none ↦ some false | some buf ↦ stream_found o buf ]
  buffer_lem none = refl
  buffer_lem (some buf) = length_lem buf (ltb 0 o.http_request.data_len)

  -- `client_talk_skylog_save` succeeds exactly if there is content and a gzip header stands in it (as a
  -- string, before the first NUL). Its result, and so the response that the client gets, does not
  -- depend on what `skylog_save` returns.
  pub talk_skylog_save-accepts : omap (λ r. r.0) (talk_skylog_save L Store S w o) ≡ accepts o
  unfolding talk_skylog_save
  talk_skylog_save-accepts = buffer_lem o.http_request.context_buf
