-- ===== src/Client/Fresh.antt =====
-- What `evserver_client_new` makes of a descriptor in a worker, on every path.
use trace_server.Base.{
  ℕ, ◌<◌, ◌≡◌, refl, sym, ap, ◌∙◌, Bool, true, false, not, ◌&&◌, Option, none, some, List, [],
  lt→ltb, if◌then◌else◌, is_some,
}
use mathlib.Core.Option.{some-injective}
use trace_server.Libevent.{Libevent}
use trace_server.Client.{
  Effect, Client, Answers, blank, client_free, client_start, client_new, client_timeout_sec,
}
use trace_server.Client.Release.{closes, client_free-closes}

module _ (L : Libevent) (A : Type 0) where
  -- All calls up to that of bufferevent_socket_new succeed.
  abbrev pub has_bufev : Answers L A → Bool → Bool
  has_bufev a timer_callback =
      a.calloc_ok
      && (is_some a.new_input
          && (is_some a.new_output
              && (not (timer_callback && not a.event_assign_ok)
                  && (a.event_add_ok && is_some a.new_bufev))))

  -- A client, or none with what was done about the descriptor.
  pub record Made (fd : ℕ) (b enable_ok : Bool) (r : Option (Client L A) × List (Effect A))
      : Type 0 where
    pub made : is_some r.0 ≡ (b && enable_ok)
    pub closed : closes A fd r.1 ≡ (if b && not enable_ok then 1 else 0)
    pub same_fd : (c : Client L A) → r.0 ≡ some c → c.fd ≡ fd

  failed :
      (c : Client L A) (enable_ok : Bool)
      → c.buf_ev ≡ none
      → Made c.fd false enable_ok (none, client_free L A c)
  failed c enable_ok e = record {
    made = refl;
    closed = client_free-closes L A c ∙ rw e;
    same_fd = λ c' h. absurd (cc);
  }

  unmade : (fd : ℕ) (enable_ok : Bool) → Made fd false enable_ok (none, [])
  unmade fd enable_ok = record { made = refl; closed = refl; same_fd = λ c h. absurd (cc) }

  start-Made :
      (a : Answers L A) (base : ℕ) (timer_callback : Bool) (c : Client L A)
      → c.buf_ev ≡ none
      → Made c.fd
          (not (timer_callback && not a.event_assign_ok) && (a.event_add_ok && is_some a.new_bufev))
          a.enable_ok
          (client_start L A a (some base) timer_callback c)
  unfolding client_start
  start-Made a base timer_callback c e =
      go (timer_callback && not a.event_assign_ok) a.event_add_ok a.new_bufev a.enable_ok
    where
      go :
          (bad add : Bool) (bufev : Option L.Bufev) (en : Bool)
          → Made c.fd (not bad && (add && is_some bufev)) en (
              if bad
              then (none, client_free L A c)
              else if not add
              then (none, client_free L A c)
              else elim bufev [
                | none ↦ (none, client_free L A c)
                | some b ↦
                    if not en
                    then (none, client_free L A (record c { buf_ev = some b }))
                    else (some (record c { buf_ev = some b; evbase = some base }), [])
              ])
      go true add bufev en = failed c en e
      go false false bufev en = failed c en e
      go false true none en = failed c en e
      go false true (some b) false = record {
        made = refl;
        closed = client_free-closes L A (record c { buf_ev = some b });
        same_fd = λ c' h. absurd (cc);
      }
      go false true (some b) true = record {
        made = refl;
        closed = refl;
        same_fd = λ c' h. sym (
            ap (λ x. x.fd)
              (some-injective (record c { buf_ev = some b; evbase = some base }) c' h));
      }

  pub client_new-Made :
      (a : Answers L A) (base i fd : ℕ) (timer_callback : Bool)
      → 0 < fd
      → Made fd
          (has_bufev a timer_callback)
          a.enable_ok
          (client_new L A a (some base) true (some i) fd timer_callback)
  unfolding client_new
  client_new-Made a base i fd timer_callback pos =
      rw (lt→ltb 0 fd pos) (go a.calloc_ok a.new_input a.new_output)
    where
      go :
          (alloc : Bool) (input output : Option L.Evbuf)
          → Made fd
              (alloc
                && (is_some input
                    && (is_some output
                        && (not (timer_callback && not a.event_assign_ok)
                            && (a.event_add_ok && is_some a.new_bufev)))))
              a.enable_ok
              (if not alloc
                then (none, [])
                else let c = blank L A true (some i) fd in
                  elim input [
                    | none ↦ (none, client_free L A c)
                    | some b ↦ elim output [
                      | none ↦ (none, client_free L A (record c { input_buffer = some b }))
                      | some o ↦ client_start L A a (some base) timer_callback (record c {
                        input_buffer = some b;
                        output_buffer = some o;
                        timeout = client_timeout_sec;
                        time_count = a.system_sec;
                      })
                    ]
                  ])
      go false input output = unmade fd a.enable_ok
      go true none output = failed (blank L A true (some i) fd) a.enable_ok refl
      go true (some b) none =
          failed (record (blank L A true (some i) fd) { input_buffer = some b }) a.enable_ok refl
      go true (some b) (some o) =
          start-Made a base timer_callback
            (record (blank L A true (some i) fd) {
              input_buffer = some b;
              output_buffer = some o;
              timeout = client_timeout_sec;
              time_count = a.system_sec;
            })
            refl
