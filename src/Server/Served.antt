-- ===== src/Server/Served.antt =====
-- A client of a worker that is served: what receiving, sending and waiting keep of it.
use trace_server.Base.{ℕ, ◌≡◌, refl, ◌∙◌, true, List, is_some}
use trace_server.Libevent.{Libevent}
use trace_server.Client.Owner.{SameOwner}
use trace_server.Client.Send.{SameOutput}
use trace_server.Talk.{OptionStep, ClientOption, SkylogStore, TalkClient}
use trace_server.Talk.Answer.{Answered, waiting, nothing, success, failure}
use trace_server.Talk.Once.{Talked, fresh, talked}

module _ (L : Libevent) (Store : Type 0) (S : SkylogStore Store) (start : List ℕ) (fd : ℕ) where
  -- A client that is served, answered at most once so far.
  pub record Served (c : TalkClient L Store S) : Type 0 where
    pub same_fd : c.fd ≡ fd
    pub pooled : c.in_tpool ≡ true
    pub has_bufev : is_some c.buf_ev ≡ true
    pub answered : Talked L Store S start c

  -- A client with the same request and the same output has been answered alike.
  Answered-move :
      (c c' : TalkClient L Store S) (step : OptionStep)
      → SameOutput L ClientOption c c'
      → Answered L Store S start c step
      → Answered L Store S start c' step
  Answered-move c c' step m (waiting _ more q) =
      waiting step more
        (record { sent_eq = m.sent_eq ∙ q.sent_eq; pending_eq = m.pending_eq ∙ q.pending_eq })
  Answered-move c c' step m (nothing e) = nothing (m.sent_eq ∙ e)
  Answered-move c c' step m (success e) = success (m.sent_eq ∙ e)
  Answered-move c c' step m (failure e) = failure (m.sent_eq ∙ e)

  Talked-move :
      (c c' : TalkClient L Store S)
      → c'.arg ≡ c.arg
      → SameOutput L ClientOption c c'
      → Talked L Store S start c
      → Talked L Store S start c'
  Talked-move c c' same m (fresh e q) =
      fresh (same ∙ e)
        (record { sent_eq = m.sent_eq ∙ q.sent_eq; pending_eq = m.pending_eq ∙ q.pending_eq })
  Talked-move c c' same m (talked o e a) = talked o (same ∙ e) (Answered-move c c' o.step m a)

  pub Served-move :
      (c c' : TalkClient L Store S)
      → SameOwner L ClientOption c c'
      → c'.arg ≡ c.arg
      → SameOutput L ClientOption c c'
      → Served c
      → Served c'
  Served-move c c' owner same m s = record {
    same_fd = owner.same_fd ∙ s.same_fd;
    pooled = owner.same_tpool ∙ s.pooled;
    has_bufev = owner.same_bufev ∙ s.has_bufev;
    answered = Talked-move c c' same m s.answered;
  }

  -- At a time.
  pub Served-time :
      (c : TalkClient L Store S) (now : ℕ) → Served c → Served (record c { time_count = now })
  Served-time c now s =
      Served-move c (record c { time_count = now })
        (record { same_fd = refl; same_tpool = refl; same_bufev = refl }) refl
        (record { sent_eq = refl; pending_eq = refl }) s
