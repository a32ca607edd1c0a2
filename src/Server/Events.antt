-- ===== src/Server/Events.antt =====
-- src/event_server_callback.c: what the server does for each event. The callbacks of a connection run in
-- its worker, on the state of the connection (`Conn`); `now` is SYSTEM_SEC, an `unsigned int`.
use trace_server.Base.{
  ℕ, ◌+◌, ◌-◌, ◌%◌, ◌^◌, Bool, not, ◌&&◌, Option, none, some, List, [], ◌++◌, if◌then◌else◌, ◌>>=◌,
  ltb, ◌==◌, is_some, map,
}
use trace_server.Base.Int.{ℤ, pos, ◌+ℤ◌, ltb_ℤ, minus_one}
use trace_server.Libevent.{Libevent}
use trace_server.Queue.{Wakeup}
use trace_server.Socket.{fd_close}
use trace_server.Client.{Effect, client_exit}
use trace_server.Talk.{
  ClientOption, SkylogStore, TalkClient, TalkResult, talk_continue, talk_finished,
  client_option_free, client_talk,
}
use trace_server.Pool.{Callbacks, Job, JobLayout, Tpool}
use trace_server.Server.{Server, ServerAct, pool_act, closes, evserver_destroy, distribute_job}

-- CLIENT_ACCEPT_MAX_COUNT
abbrev pub client_accept_max_count : ℕ
client_accept_max_count = 65530

-- What the server's thread changes.
pub record World : Type 0 where
  pub server : Server
  pub connected_count : ℤ
  pub tpool : Option Tpool

module _ (J : JobLayout) where
  -- `ev_accept_callback`, with what accept and evutil_make_socket_nonblocking return, and the results of the
  -- allocations of the pool.
  unfoldable pub ev_accept_callback :
      ℤ
      → Bool
      → Bool
      → Bool
      → Job
      → List Wakeup
      → Callbacks
      → World
      → Option (World × List ServerAct)
  unfolding distribute_job evserver_destroy fd_close
  ev_accept_callback client_fd nonblocking_ok calloc_ok dup_ok stack ws cb w =
      if ltb_ℤ client_fd (pos 0)
      then (let gone = evserver_destroy w.server in some (record w { server = gone.0 }, gone.1))
      else if ltb_ℤ (pos client_accept_max_count) w.connected_count
      then some (w, closes client_fd)
      else if not nonblocking_ok
      then some (w, closes client_fd)
      else (distribute_job J calloc_ok dup_ok stack ws w.tpool client_fd cb >>= λ (ok, t, acts).
          some (
            record w { tpool = t },
            map pool_act acts ++ (if not ok then closes client_fd else []),
          ))

module _ (L : Libevent) (Store : Type 0) (S : SkylogStore Store) where
  -- A connection: the argument of its callbacks, which stays the client also once that is released; the
  -- `client_handling_count`, the logs, and what was done.
  pub record Conn : Type 0 where
    pub client : Option (TalkClient L Store S)
    pub handling : ℤ
    pub store : Store
    pub effects : List (Effect ClientOption)

  -- The free callback, `client_option_free`, as `evserver_client_exit` calls it.
  abbrev pub store_after : TalkClient L Store S → Store → Store
  store_after c w =
      if c.in_tpool && c.has_free_callback
      then elim c.arg [ none ↦ w | some o ↦ (client_option_free L Store S w o).1 ]
      else w

  -- evserver_client_exit(client); evserver_tpool_client_handling_count(-1);
  unfoldable pub conn_exit : TalkClient L Store S → Conn → Conn
  conn_exit c k = record {
    client = some c;
    handling = k.handling +ℤ minus_one;
    store = store_after c k.store;
    effects = k.effects ++ client_exit L ClientOption (some c);
  }

  -- `_ev_timer_callback`; the subtraction wraps around.
  unfoldable pub ev_timer_callback : ℕ → Conn → Conn
  unfolding conn_exit
  ev_timer_callback now k = elim k.client [
    | none ↦ k
    | some c ↦
        let c' : TalkClient L Store S =
          if c.time_count == 0 then record c { time_count = now } else c in
        if ltb c'.timeout ((now + 2 ^ 32 - c'.time_count) % 2 ^ 32)
        then conn_exit c' k
        else record k { client = some c' }
  ]

  -- What is done with the result of `client_talk`.
  abbrev pub after_talk : Conn → TalkResult × TalkClient L Store S × Store → Conn
  after_talk k (talk_finished, c, w) = conn_exit c (record k { store = w })
  after_talk k (talk_continue, c, w) = record k { client = some c; store = w }

  -- `ev_buffered_read_callback` of a bufferevent that is not NULL
  unfoldable pub ev_buffered_read_callback : Bool → ℕ → Conn → Option Conn
  unfolding conn_exit
  ev_buffered_read_callback calloc_ok now k = elim k.client [
    | none ↦ some k
    | some c ↦
        if not (is_some c.input_buffer && is_some c.output_buffer)
        then some k
        else (client_talk L Store S calloc_ok (record c { time_count = now }) k.store >>= λ r.
            some (after_talk k r))
  ]

  -- `ev_buffered_write_callback`, the same
  unfoldable pub ev_buffered_write_callback : Bool → ℕ → Conn → Option Conn
  unfolding conn_exit
  ev_buffered_write_callback calloc_ok now k = elim k.client [
    | none ↦ some k
    | some c ↦
        if not (is_some c.input_buffer && is_some c.output_buffer)
        then some k
        else (client_talk L Store S calloc_ok (record c { time_count = now }) k.store >>= λ r.
            some (after_talk k r))
  ]

  unfoldable pub ev_buffered_error_callback : Conn → Conn
  unfolding conn_exit
  ev_buffered_error_callback k = elim k.client [ none ↦ k | some c ↦ conn_exit c k ]
