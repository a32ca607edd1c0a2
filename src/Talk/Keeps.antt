-- ===== src/Talk/Keeps.antt =====
-- What every call on a client keeps, `client_talk` keeps.
use trace_server.Base.{
  ℕ, zero, suc, Bool, true, false, not, Option, none, some, List, ◌>>=◌, if◌then◌else◌,
}
use trace_server.Libevent.{Libevent}
use trace_server.Client.{recv_client, send_client}
use trace_server.Http.{
  RecvResult, header_buf_full, header_recv_success, context_recv_success, recv_empty, socket_error,
}
use trace_server.Http.Recv.{recv_header, recv_context, Outcome}
use trace_server.Http.Recv.Keeps.{Ends, ends, recv_header-Ends, recv_context-Ends}
use trace_server.Talk.{
  OptionStep, read_header, check_url_path, skylog_save, read_context, send_success, send_error,
  finished, ClientOption, StepResult, once, again, all_finished, talk_continue, talk_finished,
  SkylogStore, response_ok, response_error, TalkClient, StepOutcome, after_header, after_context,
  header_step, context_step, send_step, with_option, step_at, client_option_step, talk_loop,
  client_talk, client_option_arg_init, check_request_url_path, talk_skylog_save, option_new,
}

module _ (L : Libevent) (Store : Type 0) (S : SkylogStore Store) (P : TalkClient L Store S → Type 0)
    (keep_recv : (c : TalkClient L Store S) (n : ℕ) → P c → P (recv_client L ClientOption c n).1)
    (keep_send : (c : TalkClient L Store S) (msg : List ℕ)
      → P c
      → P (send_client L ClientOption c msg).1)
    (keep_arg : (c : TalkClient L Store S) (arg : Option ClientOption) (has : Bool)
      → P c
      → P (record c { arg = arg; has_free_callback = has })) where
  -- What a call leaves, when it does not fault.
  pub data Kept {R : Type 0} : Option (R × TalkClient L Store S × Store) → Type 0 where
    lost : Kept none
    kept : (ret : R) (c : TalkClient L Store S) (w : Store) → P c → Kept (some (ret, c, w))

  with :
      (ret : StepResult) (c : TalkClient L Store S) (o : ClientOption) (w : Store)
      → P c
      → Kept (some (ret, with_option L Store S c o, w))
  with ret c o w p =
      kept ret (with_option L Store S c o) w (keep_arg c (some o) c.has_free_callback p)

  bind-Kept :
      {X : Type 0} (m : Option X) (f : X → StepOutcome L Store S)
      → ((x : X) → Kept (f x))
      → Kept (m >>= f)
  bind-Kept none f h = lost
  bind-Kept (some x) f h = h x

  after_header-Kept :
      (res : RecvResult) (c : TalkClient L Store S) (o : ClientOption) (w : Store)
      → P c
      → Kept (after_header L Store S res c o w)
  after_header-Kept header_recv_success c o w p =
      with again c (record o { step = check_url_path }) w p
  after_header-Kept recv_empty c o w p = with once c o w p
  after_header-Kept header_buf_full c o w p = with all_finished c o w p
  after_header-Kept context_recv_success c o w p = with all_finished c o w p
  after_header-Kept socket_error c o w p = with all_finished c o w p

  after_context-Kept :
      (res : RecvResult) (c : TalkClient L Store S) (o : ClientOption) (w : Store)
      → P c
      → Kept (after_context L Store S res c o w)
  after_context-Kept context_recv_success c o w p =
      with again c (record o { step = skylog_save }) w p
  after_context-Kept recv_empty c o w p = with once c o w p
  after_context-Kept header_buf_full c o w p = with all_finished c o w p
  after_context-Kept header_recv_success c o w p = with all_finished c o w p
  after_context-Kept socket_error c o w p = with all_finished c o w p

  ends-Kept :
      (out : Outcome L ClientOption)
      (f : RecvResult → TalkClient L Store S → ClientOption → Store → StepOutcome L Store S)
      (o : ClientOption) (w : Store)
      → ((res : RecvResult) (c : TalkClient L Store S) (o : ClientOption) (w : Store)
          → P c
          → Kept (f res c o w))
      → Ends L ClientOption P keep_recv out
      → Kept (out >>= λ (res, c, r). f res c (record o { http_request = r }) w)
  ends-Kept none f o w h e = lost
  ends-Kept (some (res, c, r)) f o w h (ends _ _ _ p) = h res c (record o { http_request = r }) w p

  step_at-Kept :
      (step : OptionStep) (calloc_ok : Bool) (c : TalkClient L Store S) (o : ClientOption)
      (w : Store)
      → P c
      → Kept (step_at L Store S step calloc_ok c o w)
  unfolding header_step context_step send_step
  step_at-Kept read_header calloc_ok c o w p =
      ends-Kept (recv_header L ClientOption c o.http_request) (after_header L Store S) o w
        after_header-Kept (recv_header-Ends L ClientOption P keep_recv c o.http_request p)
  step_at-Kept check_url_path calloc_ok c o w p =
      bind-Kept (check_request_url_path o)
        (λ ok. some (
          again,
          with_option L Store S c (record o { step = if ok then read_context else send_error }),
          w,
        ))
        λ ok. with again c (record o { step = if ok then read_context else send_error }) w p
  step_at-Kept read_context calloc_ok c o w p =
      ends-Kept (recv_context L ClientOption calloc_ok c o.http_request) (after_context L Store S) o
        w after_context-Kept
        (recv_context-Ends L ClientOption P keep_recv calloc_ok c o.http_request p)
  step_at-Kept skylog_save calloc_ok c o w p =
      bind-Kept (talk_skylog_save L Store S w o)
        (λ (ok, o', w'). some (
          again,
          with_option L Store S c (record o' { step = if ok then send_success else send_error }),
          w',
        ))
        λ s. with again c (record (s.1) { step = if s.0 then send_success else send_error }) s.2 p
  step_at-Kept send_success calloc_ok c o w p =
      with once (send_client L ClientOption c response_ok).1 (record o { step = finished }) w
        (keep_send c response_ok p)
  step_at-Kept send_error calloc_ok c o w p =
      with once (send_client L ClientOption c response_error).1 (record o { step = finished }) w
        (keep_send c response_error p)
  step_at-Kept finished calloc_ok c o w p = kept all_finished c w p

  talk_loop-Kept :
      (calloc_ok : Bool) (fuel : ℕ) (c : TalkClient L Store S) (w : Store)
      → P c
      → Kept (talk_loop L Store S calloc_ok fuel c w)
  unfolding talk_loop client_option_step
  talk_loop-Kept calloc_ok zero c w p = lost
  talk_loop-Kept calloc_ok (suc fuel) c w p = by_arg (talk_loop-Kept calloc_ok fuel) c.arg
    where
      go :
          (out : StepOutcome L Store S)
          → ((c : TalkClient L Store S) (w : Store)
              → P c
              → Kept (talk_loop L Store S calloc_ok fuel c w))
          → Kept out
          → Kept (
              out >>= λ (ret, c', w'). elim ret [
                | again ↦ talk_loop L Store S calloc_ok fuel c' w'
                | once ↦ some (talk_continue, c', w')
                | all_finished ↦ some (talk_finished, c', w')
              ])
      go none rest k = lost
      go (some (again, c', w')) rest (kept _ _ _ p') = rest c' w' p'
      go (some (once, c', w')) rest (kept _ _ _ p') = kept talk_continue c' w' p'
      go (some (all_finished, c', w')) rest (kept _ _ _ p') = kept talk_finished c' w' p'

      by_arg :
          ((c : TalkClient L Store S) (w : Store)
            → P c
            → Kept (talk_loop L Store S calloc_ok fuel c w))
          → (arg : Option ClientOption)
          → Kept (elim arg [
            | none ↦ none
            | some o ↦ client_option_step L Store S calloc_ok c o w >>= λ (ret, c', w'). elim ret [
              | again ↦ talk_loop L Store S calloc_ok fuel c' w'
              | once ↦ some (talk_continue, c', w')
              | all_finished ↦ some (talk_finished, c', w')
            ]
          ])
      by_arg rest none = lost
      by_arg rest (some o) =
          go (client_option_step L Store S calloc_ok c o w) rest
            (step_at-Kept o.step calloc_ok c o w p)

  pub client_talk-Kept :
      (calloc_ok : Bool) (c : TalkClient L Store S) (w : Store)
      → P c
      → Kept (client_talk L Store S calloc_ok c w)
  unfolding client_talk client_option_arg_init
  client_talk-Kept calloc_ok c w p = go calloc_ok c.arg
    where
      go :
          (alloc : Bool) (arg : Option ClientOption)
          → let r : Bool × TalkClient L Store S = elim arg [
            | some o ↦ (true, c)
            | none ↦
                if alloc
                then (true, record c { arg = some option_new; has_free_callback = true })
                else (false, c)
          ] in
            Kept (
              if not r.0
              then some (talk_finished, r.1, w)
              else talk_loop L Store S calloc_ok 5 r.1 w)
      go alloc (some o) = talk_loop-Kept calloc_ok 5 c w p
      go true none =
          talk_loop-Kept calloc_ok 5 (record c { arg = some option_new; has_free_callback = true })
            w (keep_arg c (some option_new) true p)
      go false none = kept talk_finished c w p
