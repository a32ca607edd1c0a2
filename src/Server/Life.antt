-- ===== src/Server/Life.antt =====
-- The life of a connection in a worker: events in any order, until the client is released.
use trace_server.Base.{
  ℕ, ◌≡◌, refl, sym, ap, ◌∙◌, Bool, true, Option, none, some, List, [], subst, is_some,
}
use trace_server.Server.Armed.{Armed}
use mathlib.Core.Option.{some-injective}
use trace_server.Base.Int.{ℤ}
use trace_server.Libevent.{Libevent}
use trace_server.Talk.{ClientOption, SkylogStore, TalkClient}
use trace_server.Talk.Answer.{Quiet}
use trace_server.Talk.Once.{fresh}
use trace_server.Server.Events.{
  Conn, ev_timer_callback, ev_buffered_read_callback, ev_buffered_write_callback,
  ev_buffered_error_callback,
}
use trace_server.Server.Served.{Served, Served-move}
use trace_server.Server.Settled.{
  Settled, open_conn, closed_conn, Returned, returned, served-Returned, timer-Settled,
  broken-Settled,
}

module _ (L : Libevent) (Store : Type 0) (S : SkylogStore Store) (start : List ℕ) (fd : ℕ)
    (handling : ℤ) (R : Armed ClientOption) where
  -- What may happen to a connection next, and its outcome; `none` is a callback that does not return. Between
  -- two callbacks the socket receives and sends on its own; what it was given to send stays the same. `R` says
  -- which callbacks libevent may still call.
  pub data Event (k : Conn L Store S) : Option (Conn L Store S) → Type 0 where
    network :
        (c : TalkClient L Store S) (b b' : L.Bufev)
        → R.bufev_set k.effects ≡ true
        → k.client ≡ some c
        → c.buf_ev ≡ some b
        → L.sent b' ≡ L.sent b
        → Event k (some (record k { client = some (record c { buf_ev = some b' }) }))
    readable :
        (calloc_ok : Bool) (now : ℕ)
        → R.bufev_set k.effects ≡ true
        → Event k (ev_buffered_read_callback L Store S calloc_ok now k)
    writable :
        (calloc_ok : Bool) (now : ℕ)
        → R.bufev_set k.effects ≡ true
        → Event k (ev_buffered_write_callback L Store S calloc_ok now k)
    timer :
        (now : ℕ)
        → R.timer_set k.effects ≡ true
        → Event k (some (ev_timer_callback L Store S now k))
    broken : R.bufev_set k.effects ≡ true → Event k (some (ev_buffered_error_callback L Store S k))

  -- A new client of a worker, and what events make of it.
  pub data Life : Option (Conn L Store S) → Type 0 where
    begins :
        (c : TalkClient L Store S) (w : Store)
        → c.fd ≡ fd
        → c.in_tpool ≡ true
        → is_some c.buf_ev ≡ true
        → c.arg ≡ none
        → Quiet L Store S start c
        → Life (some (record { client = some c; handling = handling; store = w; effects = [] }))
    goes_on :
        (k : Conn L Store S) (out : Option (Conn L Store S))
        → Life (some k)
        → Event k out
        → Life out

  -- A life so far: the connection, or the callback in which a step faults.
  pub data Lived : Option (Conn L Store S) → Type 0 where
    so_far : (k : Conn L Store S) → Settled L Store S start fd handling R k → Lived (some k)
    ends :
        (k : Conn L Store S)
        → Settled L Store S start fd handling R k
        → Returned L Store S start fd handling R k none
        → Lived none

  Returned-Lived :
      (k : Conn L Store S) (out : Option (Conn L Store S))
      → Settled L Store S start fd handling R k
      → Returned L Store S start fd handling R k out
      → Lived out
  Returned-Lived k none st r = ends k st r
  Returned-Lived k (some k') st (returned _ st') = so_far k' st'

  Event-Lived :
      (k : Conn L Store S) (out : Option (Conn L Store S))
      → Event k out
      → Settled L Store S start fd handling R k
      → Lived out
  unfolding ev_buffered_read_callback ev_buffered_write_callback ev_timer_callback
      ev_buffered_error_callback
  Event-Lived k out (network c b b' set ec eb same) (closed_conn d _ _ _ _ gone _) =
      absurd (let f = sym gone ∙ set in cc)
  Event-Lived k out (network c b b' set ec eb same) (open_conn d here counted quiet s) =
      let s' : Served L Store S start fd c =
        subst (Served L Store S start fd) (some-injective d c (sym here ∙ ec)) s in
      so_far (record k { client = some (record c { buf_ev = some b' }) })
        (open_conn (record c { buf_ev = some b' }) refl counted quiet
          (Served-move L Store S start fd c (record c { buf_ev = some b' })
            (record { same_fd = refl; same_tpool = refl; same_bufev = sym (ap is_some eb) }) refl
            (record { sent_eq = same ∙ rw eb refl; pending_eq = refl }) s'))
  Event-Lived k out (readable calloc_ok now set) st =
      Returned-Lived k out st
        (served-Returned L Store S start fd handling R k calloc_ok now k.client refl set st)
  Event-Lived k out (writable calloc_ok now set) st =
      Returned-Lived k out st
        (served-Returned L Store S start fd handling R k calloc_ok now k.client refl set st)
  Event-Lived k out (timer now set) st =
      so_far _ (timer-Settled L Store S start fd handling R k now k.client refl set st)
  Event-Lived k out (broken set) st =
      so_far _ (broken-Settled L Store S start fd handling R k k.client refl set st)

  -- Whatever happens on a connection of a worker from its beginning, in any order and whatever arrives: while
  -- it is open, its client is for the descriptor, it is counted in `client_handling_count`, nothing was
  -- released, and what was given to send is at most one response. Once a finished request, a timeout or an
  -- error has ended it, it was released by one call of `evserver_client_release` and counted off once, and
  -- that release deleted the timer and freed the bufferevent, so that none of its callbacks is called again,
  -- with the client that was freed. A callback that does not return comes to a step of the request that
  -- faults, in the run of `client_talk`'s loop; only then the life ends.
  pub Life-Lived : (out : Option (Conn L Store S)) → Life out → Lived out
  Life-Lived out (begins c w same_fd pooled has new q) = so_far _ (
      open_conn c refl refl refl
        (record { same_fd = same_fd; pooled = pooled; has_bufev = has; answered = fresh new q }))
  Life-Lived out (goes_on k _ l e) = go (some k) (Life-Lived (some k) l) refl
    where
      go : (before : Option (Conn L Store S)) → Lived before → before ≡ some k → Lived out
      go none v same = absurd (cc)
      go (some k') (so_far _ st) same =
          Event-Lived k out e
            (subst (Settled L Store S start fd handling R) (some-injective k' k same) st)
