-- ===== src/Talk/Answer.antt =====
-- What one request is answered: `client_talk` sends at most one response, over any number of calls.
use trace_server.Base.{
  ℕ, ◌≡◌, ◌≢◌, refl, ap, ◌∙◌, Bool, true, false, none, some, List, [], ◌++◌, if◌then◌else◌, ◌>>=◌,
  inl, inr, ◌⊎◌,
}
use trace_server.Libevent.{Libevent}
use trace_server.Client.{recv_client, send_client}
use trace_server.Client.Send.{sent_bytes, pending, recv_client-SameOutput, send_client_lem}
use trace_server.Http.{
  RecvResult, header_buf_full, header_recv_success, context_recv_success, recv_empty, socket_error,
}
use trace_server.Http.Recv.{recv_header, recv_context, Outcome}
use trace_server.Http.Recv.Keeps.{Ends, ends, recv_header-Ends, recv_context-Ends}
use trace_server.Talk.{
  OptionStep, check_url_path, skylog_save, finished, ClientOption, StepResult, once, again,
  all_finished, SkylogStore, response_ok, response_error, TalkClient, StepOutcome, after_header,
  after_context, header_step, context_step, send_step, with_option,
}

module _ (L : Libevent) (Store : Type 0) (S : SkylogStore Store) (start : List ℕ) where
  -- The connection before the response: nothing was sent since `start`, and nothing waits.
  pub record Quiet (c : TalkClient L Store S) : Type 0 where
    pub sent_eq : sent_bytes L ClientOption c ≡ start
    pub pending_eq : pending L ClientOption c ≡ []

  -- What the connection has been sent, by the request's step.
  pub data Answered (c : TalkClient L Store S) : OptionStep → Type 0 where
    waiting : (step : OptionStep) → step ≢ finished → Quiet c → Answered c step
    nothing : sent_bytes L ClientOption c ≡ start → Answered c finished
    success : sent_bytes L ClientOption c ≡ start ++ response_ok → Answered c finished
    failure : sent_bytes L ClientOption c ≡ start ++ response_error → Answered c finished

  Quiet-keep :
      (c : TalkClient L Store S) (n : ℕ) → Quiet c → Quiet (recv_client L ClientOption c n).1
  Quiet-keep c n q =
      let s = recv_client-SameOutput L ClientOption c n in
      record { sent_eq = s.sent_eq ∙ q.sent_eq; pending_eq = s.pending_eq ∙ q.pending_eq }

  -- What a step leaves, when it does not fault.
  pub data Stepped : StepOutcome L Store S → Type 0 where
    faulted : Stepped none
    stepped :
        (ret : StepResult) (c : TalkClient L Store S) (o : ClientOption) (w : Store)
        → c.arg ≡ some o
        → Answered c o.step
        → Stepped (some (ret, c, w))

  -- A step that leaves the connection quiet and does not end the request.
  pub quiet :
      (ret : StepResult) (c : TalkClient L Store S) (o : ClientOption) (w : Store)
      → o.step ≢ finished
      → Quiet c
      → Stepped (some (ret, with_option L Store S c o, w))
  quiet ret c o w more q =
      stepped ret (with_option L Store S c o) o w refl
        (waiting o.step more (record { sent_eq = q.sent_eq; pending_eq = q.pending_eq }))

  after_header-Stepped :
      (res : RecvResult) (c : TalkClient L Store S) (o : ClientOption) (w : Store)
      → o.step ≢ finished
      → Quiet c
      → Stepped (after_header L Store S res c o w)
  after_header-Stepped header_recv_success c o w more q =
      quiet again c (record o { step = check_url_path }) w (λ e. absurd (cc)) q
  after_header-Stepped recv_empty c o w more q = quiet once c o w more q
  after_header-Stepped header_buf_full c o w more q = quiet all_finished c o w more q
  after_header-Stepped context_recv_success c o w more q = quiet all_finished c o w more q
  after_header-Stepped socket_error c o w more q = quiet all_finished c o w more q

  pub header_step-Stepped :
      (c : TalkClient L Store S) (o : ClientOption) (w : Store)
      → o.step ≢ finished
      → Quiet c
      → Stepped (header_step L Store S c o w)
  unfolding header_step
  header_step-Stepped c o w more q =
      go (recv_header L ClientOption c o.http_request)
        (recv_header-Ends L ClientOption Quiet Quiet-keep c o.http_request q)
    where
      go :
          (out : Outcome L ClientOption)
          → Ends L ClientOption Quiet Quiet-keep out
          → Stepped (
              out >>= λ (res, c', r).
              after_header L Store S res c' (record o { http_request = r }) w)
      go none h = faulted
      go (some (res, c', r)) (ends _ _ _ q') =
          after_header-Stepped res c' (record o { http_request = r }) w more q'

  after_context-Stepped :
      (res : RecvResult) (c : TalkClient L Store S) (o : ClientOption) (w : Store)
      → o.step ≢ finished
      → Quiet c
      → Stepped (after_context L Store S res c o w)
  after_context-Stepped context_recv_success c o w more q =
      quiet again c (record o { step = skylog_save }) w (λ e. absurd (cc)) q
  after_context-Stepped recv_empty c o w more q = quiet once c o w more q
  after_context-Stepped header_buf_full c o w more q = quiet all_finished c o w more q
  after_context-Stepped header_recv_success c o w more q = quiet all_finished c o w more q
  after_context-Stepped socket_error c o w more q = quiet all_finished c o w more q

  pub context_step-Stepped :
      (calloc_ok : Bool) (c : TalkClient L Store S) (o : ClientOption) (w : Store)
      → o.step ≢ finished
      → Quiet c
      → Stepped (context_step L Store S calloc_ok c o w)
  unfolding context_step
  context_step-Stepped calloc_ok c o w more q =
      go (recv_context L ClientOption calloc_ok c o.http_request)
        (recv_context-Ends L ClientOption Quiet Quiet-keep calloc_ok c o.http_request q)
    where
      go :
          (out : Outcome L ClientOption)
          → Ends L ClientOption Quiet Quiet-keep out
          → Stepped (
              out >>= λ (res, c', r).
              after_context L Store S res c' (record o { http_request = r }) w)
      go none h = faulted
      go (some (res, c', r)) (ends _ _ _ q') =
          after_context-Stepped res c' (record o { http_request = r }) w more q'

  -- A response, of which nothing or everything is sent.
  pub send_step-Stepped :
      (c : TalkClient L Store S) (o : ClientOption) (w : Store) (response : List ℕ)
      → ((c' : TalkClient L Store S)
          → (sent_bytes L ClientOption c' ≡ start)
            ⊎ (sent_bytes L ClientOption c' ≡ start ++ response)
          → Answered c' finished)
      → Quiet c
      → Stepped (send_step L Store S c o w response)
  unfolding send_step
  send_step-Stepped c o w response answer q =
      let sent = send_client L ClientOption c response in
      let c' = with_option L Store S sent.1 (record o { step = finished }) in
      stepped once c' (record o { step = finished }) w refl
        (answer c' (elim (send_client_lem L ClientOption c response q.pending_eq) [
          | inl (_, e, _) ↦ inr (e ∙ ap (λ xs. xs ++ response) q.sent_eq)
          | inr (_, e) ↦ inl (e ∙ q.sent_eq)
        ]))

  pub ok_answer :
      (c : TalkClient L Store S)
      → (sent_bytes L ClientOption c ≡ start) ⊎ (sent_bytes L ClientOption c ≡ start ++ response_ok)
      → Answered c finished
  ok_answer c (inl e) = nothing e
  ok_answer c (inr e) = success e

  pub error_answer :
      (c : TalkClient L Store S)
      → (sent_bytes L ClientOption c ≡ start)
        ⊎ (sent_bytes L ClientOption c ≡ start ++ response_error)
      → Answered c finished
  error_answer c (inl e) = nothing e
  error_answer c (inr e) = failure e

  pub Answered-Quiet :
      (c : TalkClient L Store S) (step : OptionStep) → step ≢ finished → Answered c step → Quiet c
  Answered-Quiet c step more (waiting _ _ q) = q
  Answered-Quiet c step more (nothing e) = absurd (more refl)
  Answered-Quiet c step more (success e) = absurd (more refl)
  Answered-Quiet c step more (failure e) = absurd (more refl)

  pub branch :
      (b : Bool) (x y : OptionStep) → x ≢ finished → y ≢ finished → (if b then x else y) ≢ finished
  branch true x y hx hy = hx
  branch false x y hx hy = hy
