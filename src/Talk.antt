-- ===== src/Talk.antt =====
-- src/client_talk.c, src/client_talk_option.c and src/client_option_struct.c: the state machine of one
-- request. What is saved is a parameter, the store of src/sky_log.c: `Store` is its state. The outer
-- `none` is a read or write outside an object, or fuel that ran out; debug output is left out.
pub mod Runs
pub mod Shrinks
pub mod Steps
pub mod Answer
pub mod Once
pub mod Keeps
pub mod Save
pub mod Files
pub mod Stored
mod Tests
mod StoredTests
use trace_server.Base.{
  ℕ, zero, suc, ◌+◌, Bool, true, false, ◌&&◌, not, Option, none, some, List, [], ◌∷◌, ltb, leb,
  ◌==◌, if◌then◌else◌, ◌>>=◌, replicate, drop, length,
}
use trace_server.Base.Int.{ℤ, pos, sub_ℕ}
use trace_server.Libc.{strstr, strcmp_eq}
use trace_server.Libevent.{Libevent}
use trace_server.Client.{Client, send_client}
use trace_server.Http.{
  HttpRequest, RecvResult, header_buf_full, header_recv_success, context_recv_success, recv_empty,
  socket_error, http_request_new, context_free,
}
use trace_server.Http.Recv.{recv_header, recv_context}
use trace_server.Http.Url.{get_url_path}
use trace_server.SkyLog.{Skylog, parse_skylog_info, zeroed}

-- client_option_step_t
pub data OptionStep : Type 0 where
  read_header check_url_path skylog_save read_context send_success send_error finished : OptionStep

pub record ClientOption : Type 0 where
  pub skylog : Skylog
  pub http_request : HttpRequest
  pub step : OptionStep

-- cli_option_res_t and client_talk_result_t
pub data StepResult : Type 0 where
  once again all_finished : StepResult

pub data TalkResult : Type 0 where
  talk_continue talk_finished : TalkResult

-- `skylog_save` with the data from a pointer on and their length, and `skylog_save_finished`.
pub record SkylogStore (Store : Type 0) : Type 0 where
  pub save : Store → Skylog → List ℕ → ℤ → Bool × Skylog × Store
  pub save_finished : Store → Skylog → Skylog × Store

-- CLIENT_TALK_RESPONSE_OK and CLIENT_TALK_RESPONSE_ERROR
abbrev pub response_ok : List ℕ
response_ok =
    b'H' ∷ b'T' ∷ b'T' ∷ b'P' ∷ b'/' ∷ b'1' ∷ b'.' ∷ b'1' ∷ b' ' ∷ b'2' ∷ b'0' ∷ b'0' ∷ b' ' ∷ b'O'
    ∷ b'K' ∷ b' ' ∷ b'\r' ∷ b'\n' ∷ b'C' ∷ b'o' ∷ b'n' ∷ b't' ∷ b'e' ∷ b'n' ∷ b't' ∷ b'-' ∷ b'l'
    ∷ b'e' ∷ b'n' ∷ b'g' ∷ b't' ∷ b'h' ∷ b':' ∷ b'0' ∷ b' ' ∷ b'\r' ∷ b'\n' ∷ b'\r' ∷ b'\n' ∷ []

abbrev pub response_error : List ℕ
response_error =
    b'H' ∷ b'T' ∷ b'T' ∷ b'P' ∷ b'/' ∷ b'1' ∷ b'.' ∷ b'1' ∷ b' ' ∷ b'4' ∷ b'0' ∷ b'0' ∷ b' ' ∷ b'B'
    ∷ b'a' ∷ b'd' ∷ b' ' ∷ b'R' ∷ b'e' ∷ b'q' ∷ b'u' ∷ b'e' ∷ b's' ∷ b't' ∷ b' ' ∷ b'\r' ∷ b'\n'
    ∷ b'C' ∷ b'o' ∷ b'n' ∷ b't' ∷ b'e' ∷ b'n' ∷ b't' ∷ b'-' ∷ b'l' ∷ b'e' ∷ b'n' ∷ b'g' ∷ b't'
    ∷ b'h' ∷ b':' ∷ b'0' ∷ b' ' ∷ b'\r' ∷ b'\n' ∷ b'\r' ∷ b'\n' ∷ []

-- SKYLOG_REQUEST_URL_PATH
abbrev pub request_url_path : List ℕ
request_url_path = b'/' ∷ b'i' ∷ b'n' ∷ b'd' ∷ b'e' ∷ b'x' ∷ 0 ∷ []

-- strlen(CLIENT_TALK_TOKEN_END)
abbrev pub token_end_len : ℕ
token_end_len = 46

-- As a string, the header of a gzip stream ends at its NUL.
abbrev pub gzip_header : List ℕ
gzip_header = 0x1f ∷ 0x8b ∷ 0x08 ∷ 0x00 ∷ []

-- What `calloc` leaves: step 0 is E_CLIENT_OPTION_STEP_READ_HEADER.
unfoldable pub option_new : ClientOption
option_new = record { skylog = zeroed; http_request = http_request_new; step = read_header }

-- `client_talk_check_request_url_path`, which does not test whether there is a path.
unfoldable pub check_request_url_path : ClientOption → Option Bool
check_request_url_path o = do
  (found, buf) ← get_url_path o.http_request (replicate 255 0) 254
  strcmp_eq buf request_url_path

module _ (L : Libevent) (Store : Type 0) (S : SkylogStore Store) where
  abbrev pub TalkClient : Type 0
  TalkClient = Client L ClientOption

  -- `client_option_free` of an option that is not NULL, up to the release of its memory.
  unfoldable pub client_option_free : Store → ClientOption → ClientOption × Store
  client_option_free w o =
      let r = S.save_finished w o.skylog in
      (record o { skylog = r.0; http_request = context_free o.http_request }, r.1)

  unfoldable pub client_option_arg_init : Bool → TalkClient → Bool × TalkClient
  client_option_arg_init calloc_ok c = elim c.arg [
    | some o ↦ (true, c)
    | none ↦
        if calloc_ok
        then (true, record c { arg = some option_new; has_free_callback = true })
        else (false, c)
  ]

  -- The end of `client_talk_skylog_save`: the stream from its header on. The length is an `int`, and the
  -- results of both calls are not tested.
  unfoldable pub save_stream : Store → ClientOption → Skylog → List ℕ → ℕ → ClientOption × Store
  save_stream w o log buf at_header =
      let file_len = sub_ℕ o.http_request.data_len (at_header + token_end_len) in
      let saved = S.save w log (drop at_header buf) file_len in
      let closed = S.save_finished saved.2 saved.1 in (record o { skylog = closed.0 }, closed.1)

  unfoldable pub talk_skylog_save : Store → ClientOption → Option (Bool × ClientOption × Store)
  talk_skylog_save w o = elim o.http_request.context_buf [
    | none ↦ some (false, o, w)
    | some buf ↦
        if not (ltb 0 o.http_request.data_len)
        then some (false, o, w)
        else (parse_skylog_info o.http_request >>= λ log. strstr buf gzip_header >>= λ p. elim p [
          | none ↦ some (false, record o { skylog = log }, w)
          | some at_header ↦
              let saved = save_stream w o log buf at_header in some (true, saved.0, saved.1)
        ])
  ]

  abbrev pub StepOutcome : Type 0
  StepOutcome = Option (StepResult × TalkClient × Store)

  -- The client with its option as a step leaves it.
  abbrev pub with_option : TalkClient → ClientOption → TalkClient
  with_option c o = record c { arg = some o }

  -- The case of E_CLIENT_OPTION_STEP_READ_HEADER after the call, and the same for the content.
  abbrev pub after_header : RecvResult → TalkClient → ClientOption → Store → StepOutcome
  after_header header_recv_success c o w =
      some (again, with_option c (record o { step = check_url_path }), w)
  after_header recv_empty c o w = some (once, with_option c o, w)
  after_header _ c o w = some (all_finished, with_option c o, w)

  unfoldable pub header_step : TalkClient → ClientOption → Store → StepOutcome
  header_step c o w = recv_header L ClientOption c o.http_request >>= λ (res, c', r).
      after_header res c' (record o { http_request = r }) w

  abbrev pub after_context : RecvResult → TalkClient → ClientOption → Store → StepOutcome
  after_context context_recv_success c o w =
      some (again, with_option c (record o { step = skylog_save }), w)
  after_context recv_empty c o w = some (once, with_option c o, w)
  after_context _ c o w = some (all_finished, with_option c o, w)

  unfoldable pub context_step : Bool → TalkClient → ClientOption → Store → StepOutcome
  context_step calloc_ok c o w =
      recv_context L ClientOption calloc_ok c o.http_request >>= λ (res, c', r).
      after_context res c' (record o { http_request = r }) w

  unfoldable pub send_step : TalkClient → ClientOption → Store → List ℕ → StepOutcome
  send_step c o w response =
      let sent = send_client L ClientOption c response in
      some (once, with_option sent.1 (record o { step = finished }), w)

  -- The cases of `_client_option_step`, by the step.
  abbrev pub step_at : OptionStep → Bool → TalkClient → ClientOption → Store → StepOutcome
  step_at read_header calloc_ok c o w = header_step c o w
  step_at check_url_path calloc_ok c o w = check_request_url_path o >>= λ ok.
      some (again, with_option c (record o { step = if ok then read_context else send_error }), w)
  step_at read_context calloc_ok c o w = context_step calloc_ok c o w
  step_at skylog_save calloc_ok c o w = talk_skylog_save w o >>= λ (ok, o', w').
      some (again, with_option c (record o' { step = if ok then send_success else send_error }), w')
  step_at send_success calloc_ok c o w = send_step c o w response_ok
  step_at send_error calloc_ok c o w = send_step c o w response_error
  step_at finished calloc_ok c o w = some (all_finished, c, w)

  unfoldable pub client_option_step : Bool → TalkClient → ClientOption → Store → StepOutcome
  client_option_step calloc_ok c o w = step_at o.step calloc_ok c o w

  -- The loop of `client_talk`, on fuel.
  unfoldable pub talk_loop :
      Bool → ℕ → TalkClient → Store → Option (TalkResult × TalkClient × Store)
  talk_loop calloc_ok zero c w = none
  talk_loop calloc_ok (suc fuel) c w = elim c.arg [
    | none ↦ none
    | some o ↦ client_option_step calloc_ok c o w >>= λ (ret, c', w').
        let next : Option (TalkResult × TalkClient × Store) = talk_loop calloc_ok fuel c' w' in
        elim ret [
          | again ↦ next
          | once ↦ some (talk_continue, c', w')
          | all_finished ↦ some (talk_finished, c', w')
        ]
  ]

  unfoldable pub client_talk : Bool → TalkClient → Store → Option (TalkResult × TalkClient × Store)
  client_talk calloc_ok c w =
      let r = client_option_arg_init calloc_ok c in
      if not r.0 then some (talk_finished, r.1, w) else talk_loop calloc_ok 5 r.1 w
