-- ===== src/Server/Settled.antt =====
-- What a callback of src/event_server_callback.c leaves of a connection in a worker.
use trace_server.Base.{
  ℕ, ◌≡◌, refl, sym, ap, ◌∙◌, Bool, true, false, Option, none, some, List, [], if◌then◌else◌, ◌>>=◌,
  not, ◌&&◌, is_some, ltb, ◌++◌, ◌==◌, ◌+◌, ◌-◌, ◌%◌, ◌^◌, if_cases, subst,
}
use mathlib.Core.Option.{some-injective}
use trace_server.Base.Int.{ℤ, ◌+ℤ◌, minus_one}
use trace_server.Libevent.{Libevent}
use trace_server.Client.{recv_client, send_client, client_exit, client_release, client_base_exit}
use trace_server.Client.Owner.{recv_client-SameOwner, send_client-SameOwner}
use trace_server.Talk.{
  ClientOption, SkylogStore, TalkClient, TalkResult, talk_continue, talk_finished, client_talk,
  client_option_arg_init,
}
use trace_server.Talk.Once.{TalkedAfter, talk_faulted, talked_after, client_talk-TalkedAfter}
use trace_server.Talk.Keeps.{Kept, kept, client_talk-Kept}
use trace_server.Talk.Runs.{Runs}
use trace_server.Server.Armed.{Armed, client_release-timer_set, client_release-bufev_set}
use trace_server.Server.Events.{Conn, conn_exit, after_talk}
use trace_server.Server.Served.{Served, Served-time}

module _ (L : Libevent) (Store : Type 0) (S : SkylogStore Store) (start : List ℕ) (fd : ℕ)
    (handling : ℤ) (R : Armed ClientOption) where
  -- The client is served and counted, and nothing was released; or it was released, once, and counted off,
  -- and libevent calls none of its callbacks any more.
  pub data Settled (k : Conn L Store S) : Type 0 where
    open_conn :
        (c : TalkClient L Store S)
        → k.client ≡ some c
        → k.handling ≡ handling
        → k.effects ≡ []
        → Served L Store S start fd c
        → Settled k
    closed_conn :
        (c : TalkClient L Store S)
        → k.client ≡ some c
        → k.handling ≡ handling +ℤ minus_one
        → k.effects ≡ client_release L ClientOption (some c)
        → R.timer_set k.effects ≡ false
        → R.bufev_set k.effects ≡ false
        → Served L Store S start fd c
        → Settled k

  exit-Settled :
      (k : Conn L Store S) (c : TalkClient L Store S)
      → k.handling ≡ handling
      → k.effects ≡ []
      → Served L Store S start fd c
      → Settled (conn_exit L Store S c k)
  unfolding conn_exit client_exit
  exit-Settled k c counted quiet s =
      let released : (k.effects
            ++ (if c.in_tpool
                then client_release L ClientOption (some c)
                else client_base_exit L ClientOption (some c)))
          ≡ client_release L ClientOption (some c) =
        rw (quiet, s.pooled) refl in
      closed_conn c refl (ap (λ n. n +ℤ minus_one) counted) released
        (ap R.timer_set released ∙ client_release-timer_set L ClientOption R c)
        (ap R.bufev_set released ∙ client_release-bufev_set L ClientOption R c s.has_bufev) s

  -- What `client_talk` leaves is served.
  Belongs : TalkClient L Store S → Type 0
  Belongs c = (c.fd ≡ fd) × (c.in_tpool ≡ true) × (is_some c.buf_ev ≡ true)

  -- A callback has returned; or a step of `client_talk` faults, in the run of its loop from the client
  -- with its request.
  pub data Returned (k : Conn L Store S) : Option (Conn L Store S) → Type 0 where
    returned : (k' : Conn L Store S) → Settled k' → Returned k (some k')
    step_faults :
        (calloc_ok : Bool) (now : ℕ) (c : TalkClient L Store S)
        → k.client ≡ some c
        → Runs L Store S calloc_ok
            (client_option_arg_init L Store S calloc_ok (record c { time_count = now })).1
            k.store
            none
        → Returned k none

  talk-Returned :
      (k : Conn L Store S) (calloc_ok : Bool) (now : ℕ) (c : TalkClient L Store S)
      → k.client ≡ some c
      → k.handling ≡ handling
      → k.effects ≡ []
      → (out : Option (TalkResult × TalkClient L Store S × Store))
      → TalkedAfter L Store S start calloc_ok
          (client_option_arg_init L Store S calloc_ok (record c { time_count = now })).1
          k.store
          out
      → ((ret : TalkResult) (c : TalkClient L Store S) (w : Store)
          → out ≡ some (ret, c, w)
          → Belongs c)
      → Returned k (out >>= λ r. some (after_talk L Store S k r))
  unfolding Belongs
  talk-Returned k calloc_ok now c here counted quiet none (talk_faulted run) b =
      step_faults calloc_ok now c here run
  talk-Returned k calloc_ok now c here counted quiet (some (talk_finished, c', w))
        (talked_after _ _ _ t) b =
      let own = b talk_finished c' w refl in
      returned (conn_exit L Store S c' (record k { store = w })) (
        exit-Settled (record k { store = w }) c' counted quiet
          (record { same_fd = own.0; pooled = own.1; has_bufev = own.2; answered = t }))
  talk-Returned k calloc_ok now c here counted quiet (some (talk_continue, c', w))
        (talked_after _ _ _ t) b =
      let own = b talk_continue c' w refl in
      returned (record k { client = some c'; store = w })
        (open_conn c' refl counted quiet
          (record { same_fd = own.0; pooled = own.1; has_bufev = own.2; answered = t }))

  talk-Belongs :
      (calloc_ok : Bool) (c : TalkClient L Store S) (w : Store)
      → Served L Store S start fd c
      → (ret : TalkResult) (c' : TalkClient L Store S) (w' : Store)
      → client_talk L Store S calloc_ok c w ≡ some (ret, c', w')
      → Belongs c'
  unfolding Belongs
  talk-Belongs calloc_ok c w s ret c' w' e =
      go (client_talk L Store S calloc_ok c w)
        (client_talk-Kept L Store S Belongs keep_recv keep_send (λ d arg has p. p) calloc_ok c w
          (s.same_fd, s.pooled, s.has_bufev))
        e
    where
      keep_recv :
          (d : TalkClient L Store S) (n : ℕ)
          → Belongs d
          → Belongs (recv_client L ClientOption d n).1
      keep_recv d n p =
          let o = recv_client-SameOwner L ClientOption d n in
          (o.same_fd ∙ p.0, o.same_tpool ∙ p.1, o.same_bufev ∙ p.2)

      keep_send :
          (d : TalkClient L Store S) (msg : List ℕ)
          → Belongs d
          → Belongs (send_client L ClientOption d msg).1
      keep_send d msg p =
          let o = send_client-SameOwner L ClientOption d msg in
          (o.same_fd ∙ p.0, o.same_tpool ∙ p.1, o.same_bufev ∙ p.2)

      go :
          (out : Option (TalkResult × TalkClient L Store S × Store))
          → Kept L Store S Belongs keep_recv keep_send (λ d arg has p. p) out
          → out ≡ some (ret, c', w')
          → Belongs c'
      go none k e = absurd (cc)
      go (some r) (kept _ _ _ p) e = subst (λ x. Belongs x.1) (some-injective r (ret, c', w') e) p

  -- The body of the read callback and of the write callback, with the client that there is.
  pub served-Returned :
      (k : Conn L Store S) (calloc_ok : Bool) (now : ℕ) (client : Option (TalkClient L Store S))
      → k.client ≡ client
      → R.bufev_set k.effects ≡ true
      → Settled k
      → Returned k (elim client as (λ _. Option (Conn L Store S)) [
        | none ↦ some k
        | some c ↦
            if not (is_some c.input_buffer && is_some c.output_buffer)
            then some k
            else (client_talk L Store S calloc_ok (record c { time_count = now }) k.store >>= λ r.
                some (after_talk L Store S k r))
      ])
  served-Returned k calloc_ok now none ec set st = returned k st
  served-Returned k calloc_ok now (some c) ec set (closed_conn d _ _ _ _ gone _) =
      absurd (let f = sym gone ∙ set in cc)
  served-Returned k calloc_ok now (some c) ec set (open_conn d here counted quiet s) =
      let same : d ≡ c = some-injective d c (sym here ∙ ec) in
      let s' = Served-time L Store S start fd c now (subst (Served L Store S start fd) same s) in
      if_cases (Returned k) (not (is_some c.input_buffer && is_some c.output_buffer)) (some k)
        (client_talk L Store S calloc_ok (record c { time_count = now }) k.store >>= λ r.
          some (after_talk L Store S k r))
        (λ _. returned k (open_conn d here counted quiet s))
        (λ _.
          talk-Returned k calloc_ok now c ec counted quiet
            (client_talk L Store S calloc_ok (record c { time_count = now }) k.store)
            (client_talk-TalkedAfter L Store S start calloc_ok (record c { time_count = now })
              k.store s'.answered)
            (talk-Belongs calloc_ok (record c { time_count = now }) k.store s'))

  pub timer-Settled :
      (k : Conn L Store S) (now : ℕ) (client : Option (TalkClient L Store S))
      → k.client ≡ client
      → R.timer_set k.effects ≡ true
      → Settled k
      → Settled (elim client as (λ _. Conn L Store S) [
        | none ↦ k
        | some c ↦
            let c' : TalkClient L Store S =
              if c.time_count == 0 then record c { time_count = now } else c in
            if ltb c'.timeout ((now + 2 ^ 32 - c'.time_count) % 2 ^ 32)
            then conn_exit L Store S c' k
            else record k { client = some c' }
      ])
  timer-Settled k now none ec set st = st
  timer-Settled k now (some c) ec set (closed_conn d _ _ _ gone _ _) =
      absurd (let f = sym gone ∙ set in cc)
  timer-Settled k now (some c) ec set (open_conn d here counted quiet s) =
      let s' : Served L Store S start fd c =
        subst (Served L Store S start fd) (some-injective d c (sym here ∙ ec)) s in
      let c' : TalkClient L Store S =
        if c.time_count == 0 then record c { time_count = now } else c in
      let s'' : Served L Store S start fd c' =
        if_cases (Served L Store S start fd) (c.time_count == 0) (record c { time_count = now }) c
          (λ _. Served-time L Store S start fd c now s') (λ _. s') in
      if_cases Settled (ltb c'.timeout ((now + 2 ^ 32 - c'.time_count) % 2 ^ 32))
        (conn_exit L Store S c' k) (record k { client = some c' })
        (λ _. exit-Settled k c' counted quiet s'') (λ _. open_conn c' refl counted quiet s'')

  pub broken-Settled :
      (k : Conn L Store S) (client : Option (TalkClient L Store S))
      → k.client ≡ client
      → R.bufev_set k.effects ≡ true
      → Settled k
      → Settled
          (elim client as (λ _. Conn L Store S) [ none ↦ k | some c ↦ conn_exit L Store S c k ])
  broken-Settled k none ec set st = st
  broken-Settled k (some c) ec set (closed_conn d _ _ _ _ gone _) =
      absurd (let f = sym gone ∙ set in cc)
  broken-Settled k (some c) ec set (open_conn d here counted quiet s) =
      exit-Settled k c counted quiet
        (subst (Served L Store S start fd) (some-injective d c (sym here ∙ ec)) s)
