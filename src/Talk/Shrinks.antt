-- ===== src/Talk/Shrinks.antt =====
-- Each step of a request that asks for another round is followed by a later step.
use trace_server.Base.{
  ℕ, ◌≤◌, ◌<◌, ◌≡◌, refl, arith, Bool, true, false, Option, none, some, if◌then◌else◌, ◌>>=◌,
}
use trace_server.Libevent.{Libevent}
use trace_server.Http.{
  RecvResult, header_buf_full, header_recv_success, context_recv_success, recv_empty, socket_error,
}
use trace_server.Http.Recv.{recv_header, recv_context}
use trace_server.Talk.{
  OptionStep, read_header, check_url_path, skylog_save, read_context, send_success, send_error,
  finished, ClientOption, once, again, all_finished, SkylogStore, TalkClient, StepOutcome, step_at,
  after_header, after_context, client_option_step, header_step, context_step, send_step,
  check_request_url_path, talk_skylog_save, with_option,
}

-- How many rounds are left, that of the step included.
abbrev pub rounds : OptionStep → ℕ
rounds read_header = 5
rounds check_url_path = 4
rounds read_context = 3
rounds skylog_save = 2
rounds send_success = 1
rounds send_error = 1
rounds finished = 1

pub rounds_bound : (step : OptionStep) → (0 < rounds step) × (rounds step ≤ 5)
rounds_bound read_header = (omega arith, omega arith)
rounds_bound check_url_path = (omega arith, omega arith)
rounds_bound read_context = (omega arith, omega arith)
rounds_bound skylog_save = (omega arith, omega arith)
rounds_bound send_success = (omega arith, omega arith)
rounds_bound send_error = (omega arith, omega arith)
rounds_bound finished = (omega arith, omega arith)

module _ (L : Libevent) (Store : Type 0) (S : SkylogStore Store) where
  -- A step that asks for another round leaves a request with fewer rounds, out of `n`.
  pub data Shrinks (n : ℕ) : StepOutcome L Store S → Type 0 where
    faulted : Shrinks n none
    over_once : (c : TalkClient L Store S) (w : Store) → Shrinks n (some (once, c, w))
    over : (c : TalkClient L Store S) (w : Store) → Shrinks n (some (all_finished, c, w))
    on :
        (c : TalkClient L Store S) (o : ClientOption) (w : Store)
        → c.arg ≡ some o
        → rounds o.step < n
        → Shrinks n (some (again, c, w))

  after_header-Shrinks :
      (res : RecvResult) (c : TalkClient L Store S) (o : ClientOption) (w : Store)
      → Shrinks 5 (after_header L Store S res c o w)
  after_header-Shrinks header_recv_success c o w =
      on _ (record o { step = check_url_path }) w refl (omega arith)
  after_header-Shrinks recv_empty c o w = over_once _ w
  after_header-Shrinks header_buf_full c o w = over _ w
  after_header-Shrinks context_recv_success c o w = over _ w
  after_header-Shrinks socket_error c o w = over _ w

  after_context-Shrinks :
      (res : RecvResult) (c : TalkClient L Store S) (o : ClientOption) (w : Store)
      → Shrinks 3 (after_context L Store S res c o w)
  after_context-Shrinks context_recv_success c o w =
      on _ (record o { step = skylog_save }) w refl (omega arith)
  after_context-Shrinks recv_empty c o w = over_once _ w
  after_context-Shrinks header_buf_full c o w = over _ w
  after_context-Shrinks header_recv_success c o w = over _ w
  after_context-Shrinks socket_error c o w = over _ w

  bind-Shrinks :
      {X : Type 0} (n : ℕ) (m : Option X) (f : X → StepOutcome L Store S)
      → ((x : X) → Shrinks n (f x))
      → Shrinks n (m >>= f)
  bind-Shrinks n none f h = faulted
  bind-Shrinks n (some x) f h = h x

  branch_rounds :
      (b : Bool) (x y : OptionStep) (n : ℕ)
      → rounds x < n
      → rounds y < n
      → rounds (if b then x else y) < n
  branch_rounds true x y n hx hy = hx
  branch_rounds false x y n hx hy = hy

  pub step_at-Shrinks :
      (step : OptionStep) (calloc_ok : Bool) (c : TalkClient L Store S) (o : ClientOption)
      (w : Store)
      → Shrinks (rounds step) (step_at L Store S step calloc_ok c o w)
  unfolding header_step context_step send_step
  step_at-Shrinks read_header calloc_ok c o w =
      bind-Shrinks 5 (recv_header L ClientOption c o.http_request)
        (λ (res, c', r). after_header L Store S res c' (record o { http_request = r }) w)
        λ x. after_header-Shrinks x.0 x.1 (record o { http_request = x.2 }) w
  step_at-Shrinks check_url_path calloc_ok c o w =
      bind-Shrinks 4 (check_request_url_path o)
        (λ ok. some (
          again,
          with_option L Store S c (record o { step = if ok then read_context else send_error }),
          w,
        ))
        λ ok.
          on _ (record o { step = if ok then read_context else send_error }) w refl
            (branch_rounds ok read_context send_error 4 (omega arith) (omega arith))
  step_at-Shrinks read_context calloc_ok c o w =
      bind-Shrinks 3 (recv_context L ClientOption calloc_ok c o.http_request)
        (λ (res, c', r). after_context L Store S res c' (record o { http_request = r }) w)
        λ x. after_context-Shrinks x.0 x.1 (record o { http_request = x.2 }) w
  step_at-Shrinks skylog_save calloc_ok c o w =
      bind-Shrinks 2 (talk_skylog_save L Store S w o)
        (λ (ok, o', w'). some (
          again,
          with_option L Store S c (record o' { step = if ok then send_success else send_error }),
          w',
        ))
        λ s.
          on _ (record (s.1) { step = if s.0 then send_success else send_error }) s.2 refl
            (branch_rounds s.0 send_success send_error 2 (omega arith) (omega arith))
  step_at-Shrinks send_success calloc_ok c o w = over_once _ w
  step_at-Shrinks send_error calloc_ok c o w = over_once _ w
  step_at-Shrinks finished calloc_ok c o w = over c w

  pub step-Shrinks :
      (calloc_ok : Bool) (c : TalkClient L Store S) (o : ClientOption) (w : Store)
      → Shrinks (rounds o.step) (client_option_step L Store S calloc_ok c o w)
  unfolding client_option_step
  step-Shrinks calloc_ok c o w = step_at-Shrinks o.step calloc_ok c o w
