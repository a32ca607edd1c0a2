-- ===== src/Talk/Once.antt =====
-- `client_talk` over any number of calls: at most one response.
use trace_server.Base.{
  ℕ, ◌≡◌, refl, sym, ap, subst, ◌∙◌, Bool, true, false, Option, none, some, List, if◌then◌else◌,
  ◌>>=◌,
}
use mathlib.Core.Option.{some-injective}
use trace_server.Libevent.{Libevent}
use trace_server.Talk.{
  OptionStep, read_header, check_url_path, skylog_save, read_context, send_success, send_error,
  finished, ClientOption, StepResult, once, again, all_finished, TalkResult, talk_continue,
  talk_finished, SkylogStore, response_ok, response_error, TalkClient, StepOutcome, step_at,
  client_option_step, talk_loop, client_talk, client_option_arg_init, check_request_url_path,
  talk_skylog_save, with_option, option_new,
}
use trace_server.Talk.Answer.{
  Quiet, Answered, waiting, Stepped, faulted, stepped, quiet, header_step-Stepped,
  context_step-Stepped, send_step-Stepped, ok_answer, error_answer, Answered-Quiet, branch,
}
use trace_server.Talk.Runs.{Runs, run_faults, run_once, run_finishes, run_again}
use trace_server.Talk.Steps.{talk_loop-Runs}

module _ (L : Libevent) (Store : Type 0) (S : SkylogStore Store) (start : List ℕ) where
  bind_steps :
      {X : Type 0} (m : Option X) (f : X → StepOutcome L Store S)
      → ((x : X) → Stepped L Store S start (f x))
      → Stepped L Store S start (m >>= f)
  bind_steps none f h = faulted
  bind_steps (some x) f h = h x

  step_at-Stepped :
      (step : OptionStep) (calloc_ok : Bool) (c : TalkClient L Store S) (o : ClientOption)
      (w : Store)
      → o.step ≡ step
      → c.arg ≡ some o
      → Answered L Store S start c step
      → Stepped L Store S start (step_at L Store S step calloc_ok c o w)
  step_at-Stepped read_header calloc_ok c o w es e a =
      header_step-Stepped L Store S start c o w (λ f. absurd (let f' = sym es ∙ f in cc))
        (Answered-Quiet L Store S start c read_header (λ f. absurd (cc)) a)
  step_at-Stepped check_url_path calloc_ok c o w es e a =
      bind_steps (check_request_url_path o)
        (λ ok. some (
          again,
          with_option L Store S c (record o { step = if ok then read_context else send_error }),
          w,
        ))
        λ ok.
          quiet L Store S start again c
            (record o { step = if ok then read_context else send_error }) w
            (branch L Store S start ok read_context send_error (λ f. absurd (cc))
              (λ f. absurd (cc)))
            (Answered-Quiet L Store S start c check_url_path (λ f. absurd (cc)) a)
  step_at-Stepped read_context calloc_ok c o w es e a =
      context_step-Stepped L Store S start calloc_ok c o w (λ f. absurd (let f' = sym es ∙ f in cc))
        (Answered-Quiet L Store S start c read_context (λ f. absurd (cc)) a)
  step_at-Stepped skylog_save calloc_ok c o w es e a =
      bind_steps (talk_skylog_save L Store S w o)
        (λ (ok, o', w'). some (
          again,
          with_option L Store S c (record o' { step = if ok then send_success else send_error }),
          w',
        ))
        λ s.
          quiet L Store S start again c
            (record (s.1) { step = if s.0 then send_success else send_error }) s.2
            (branch L Store S start s.0 send_success send_error (λ f. absurd (cc))
              (λ f. absurd (cc)))
            (Answered-Quiet L Store S start c skylog_save (λ f. absurd (cc)) a)
  step_at-Stepped send_success calloc_ok c o w es e a =
      send_step-Stepped L Store S start c o w response_ok (ok_answer L Store S start)
        (Answered-Quiet L Store S start c send_success (λ f. absurd (cc)) a)
  step_at-Stepped send_error calloc_ok c o w es e a =
      send_step-Stepped L Store S start c o w response_error (error_answer L Store S start)
        (Answered-Quiet L Store S start c send_error (λ f. absurd (cc)) a)
  step_at-Stepped finished calloc_ok c o w es e a =
      stepped all_finished c o w e (subst (Answered L Store S start c) (sym es) a)

  -- A connection between two calls: without a request, or with one that was answered at most once.
  pub data Talked (c : TalkClient L Store S) : Type 0 where
    fresh : c.arg ≡ none → Quiet L Store S start c → Talked c
    talked : (o : ClientOption) → c.arg ≡ some o → Answered L Store S start c o.step → Talked c

  -- After a call that reaches the loop with the client `c`: a step of the loop's run faults, or there is
  -- such a connection.
  pub data TalkedAfter (calloc_ok : Bool) (c : TalkClient L Store S) (w : Store)
      : Option (TalkResult × TalkClient L Store S × Store) → Type 0 where
    talk_faulted : Runs L Store S calloc_ok c w none → TalkedAfter calloc_ok c w none
    talked_after :
        (ret : TalkResult) (c' : TalkClient L Store S) (w' : Store)
        → Talked c'
        → TalkedAfter calloc_ok c w (some (ret, c', w'))

  Stepped-Answered :
      (ret : StepResult) (c : TalkClient L Store S) (w : Store) (out : StepOutcome L Store S)
      → out ≡ some (ret, c, w)
      → Stepped L Store S start out
      → (o : ClientOption) × (c.arg ≡ some o) × Answered L Store S start c o.step
  Stepped-Answered ret c w out e s =
      go (some (ret, c, w)) (subst (Stepped L Store S start) e s) refl
    where
      go :
          (out : StepOutcome L Store S)
          → Stepped L Store S start out
          → out ≡ some (ret, c, w)
          → (o : ClientOption) × (c.arg ≡ some o) × Answered L Store S start c o.step
      go none faulted e = absurd (cc)
      go (some x) (stepped _ c' o w' e' a) e =
          let same =
            ap (λ (y : StepResult × TalkClient L Store S × Store). y.1)
              (some-injective x (ret, c, w) e) in
          subst
            (λ (d : TalkClient L Store S).
              (o : ClientOption) × (d.arg ≡ some o) × Answered L Store S start d o.step)
            same (o, e', a)

  -- What every run of the loop leaves, if no step faults.
  LeavesTalked : Option (TalkResult × TalkClient L Store S × Store) → Type 0
  LeavesTalked out =
      (ret : TalkResult) (c : TalkClient L Store S) (w : Store) → out ≡ some (ret, c, w) → Talked c

  Runs-LeavesTalked :
      (calloc_ok : Bool) (c : TalkClient L Store S) (w : Store)
      (out : Option (TalkResult × TalkClient L Store S × Store))
      → Runs L Store S calloc_ok c w out
      → (o : ClientOption) → c.arg ≡ some o
      → Answered L Store S start c o.step
      → LeavesTalked out
  unfolding LeavesTalked client_option_step
  Runs-LeavesTalked calloc_ok c w out (run_faults _ _ o2 e2 es) o e a ret c' w' eo = absurd (cc)
  Runs-LeavesTalked calloc_ok c w out (run_once _ _ o2 d w2 e2 es) o e a ret c' w' eo =
      let same = some-injective o o2 (sym e ∙ e2) in
      let (p, ep, ap') = Stepped-Answered once d w2 _ es (
        step_at-Stepped o2.step calloc_ok c o2 w refl e2
          (subst (λ (x : ClientOption). Answered L Store S start c x.step) same a)) in
      subst Talked
        (ap (λ (y : TalkResult × TalkClient L Store S × Store). y.1)
          (some-injective (talk_continue, d, w2) (ret, c', w') eo))
        (talked p ep ap')
  Runs-LeavesTalked calloc_ok c w out (run_finishes _ _ o2 d w2 e2 es) o e a ret c' w' eo =
      let same = some-injective o o2 (sym e ∙ e2) in
      let (p, ep, ap') = Stepped-Answered all_finished d w2 _ es (
        step_at-Stepped o2.step calloc_ok c o2 w refl e2
          (subst (λ (x : ClientOption). Answered L Store S start c x.step) same a)) in
      subst Talked
        (ap (λ (y : TalkResult × TalkClient L Store S × Store). y.1)
          (some-injective (talk_finished, d, w2) (ret, c', w') eo))
        (talked p ep ap')
  Runs-LeavesTalked calloc_ok c w out (run_again _ _ o2 d w2 _ e2 es r) o e a ret c' w' eo =
      let same = some-injective o o2 (sym e ∙ e2) in
      let (p, ep, ap') = Stepped-Answered again d w2 _ es (
        step_at-Stepped o2.step calloc_ok c o2 w refl e2
          (subst (λ (x : ClientOption). Answered L Store S start c x.step) same a)) in
      Runs-LeavesTalked calloc_ok d w2 out r p ep ap' ret c' w' eo

  run-TalkedAfter :
      (calloc_ok : Bool) (c : TalkClient L Store S) (w : Store)
      (out : Option (TalkResult × TalkClient L Store S × Store))
      → Runs L Store S calloc_ok c w out
      → LeavesTalked out
      → TalkedAfter calloc_ok c w out
  unfolding LeavesTalked
  run-TalkedAfter calloc_ok c w none r leaves = talk_faulted r
  run-TalkedAfter calloc_ok c w (some (ret, c', w')) r leaves =
      talked_after ret c' w' (leaves ret c' w' refl)

  talk_loop-TalkedAfter :
      (calloc_ok : Bool) (c : TalkClient L Store S) (w : Store) (o : ClientOption)
      → c.arg ≡ some o
      → Answered L Store S start c o.step
      → TalkedAfter calloc_ok c w (talk_loop L Store S calloc_ok 5 c w)
  talk_loop-TalkedAfter calloc_ok c w o e a =
      let r = talk_loop-Runs L Store S calloc_ok c w o e in
      run-TalkedAfter calloc_ok c w (talk_loop L Store S calloc_ok 5 c w) r
        (Runs-LeavesTalked calloc_ok c w (talk_loop L Store S calloc_ok 5 c w) r o e a)

  -- Whatever arrives and whatever the store does, a request is answered at most once: before the response
  -- `client_talk` sends nothing on the connection, and after it, over any number of calls, what was
  -- sent is nothing, the whole 200 response or the whole 400 response, and never a second one. Each call
  -- returns, unless the run of its loop comes to a step that faults.
  pub client_talk-TalkedAfter :
      (calloc_ok : Bool) (c : TalkClient L Store S) (w : Store)
      → Talked c
      → TalkedAfter calloc_ok
          (client_option_arg_init L Store S calloc_ok c).1
          w
          (client_talk L Store S calloc_ok c w)
  unfolding client_talk client_option_arg_init option_new
  client_talk-TalkedAfter calloc_ok c w (talked o e a) =
      let same : c ≡ record c { arg = some o } = ap (λ x. record c { arg = x }) e in
      rw (client_talk, e)
        (talk_loop-TalkedAfter calloc_ok (record c { arg = some o }) w o refl
          (subst (λ d. Answered L Store S start d o.step) same a))
  client_talk-TalkedAfter true c w (fresh e q) =
      rw (client_talk, e)
        (talk_loop-TalkedAfter true (record c { arg = some option_new; has_free_callback = true }) w
          option_new refl
          (waiting read_header (λ f. absurd (cc))
            (record { sent_eq = q.sent_eq; pending_eq = q.pending_eq })))
  client_talk-TalkedAfter false c w (fresh e q) =
      rw (client_talk, e)
        (talked_after talk_finished (record c { arg = none }) w
          (fresh refl (record { sent_eq = q.sent_eq; pending_eq = q.pending_eq })))
