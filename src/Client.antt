-- ===== src/Client.antt =====
-- src/evserver_client.c: a connection, the state that it keeps and how it is set up and torn down.
-- What a function does outside the client is a list of effects, in order. A `struct event_base *` is
-- NULL or a number; a file descriptor that is not positive is 0.
pub mod Recv
pub mod Send
pub mod Release
pub mod Fresh
pub mod Owner
mod Tests
use trace_server.Base.{
  ℕ, zero, suc, Bool, true, false, ◌&&◌, not, Option, none, some, List, [], ◌∷◌, ◌++◌, ltb, ◌==◌,
  min, if◌then◌else◌, ◌>>=◌, length, is_some,
}
use trace_server.Libevent.{Libevent}

-- CLIENT_TIMEOUT_SEC of config.h
abbrev pub client_timeout_sec : ℕ
client_timeout_sec = 10

pub data Effect (A : Type 0) : Type 0 where
  event_del : Effect A
  free_callback : Option A → Effect A
  evbuffer_free : Effect A
  bufferevent_disable : Effect A
  -- Created with BEV_OPT_CLOSE_ON_FREE: the free closes the descriptor.
  bufferevent_free : ℕ → Effect A
  event_base_free : ℕ → Effect A
  loopexit : ℕ → Effect A
  free_client : Effect A
  close_fd : ℕ → Effect A

-- `socket_close` of socket.c
unfoldable pub socket_close : {A : Type 0} → ℕ → List (Effect A)
socket_close fd = if ltb 0 fd then close_fd fd ∷ [] else []

module _ (L : Libevent) (A : Type 0) where
  pub record Client : Type 0 where
    pub fd : ℕ
    pub time_count : ℕ
    pub timeout : ℕ
    pub evbase : Option ℕ
    pub buf_ev : Option L.Bufev
    pub input_buffer : Option L.Evbuf
    pub output_buffer : Option L.Evbuf
    pub has_free_callback : Bool
    pub in_tpool : Bool
    pub worker : Option ℕ
    pub arg : Option A

  -- What the calls of `evserver_client_new` return.
  pub record Answers : Type 0 where
    pub calloc_ok : Bool
    pub new_input : Option L.Evbuf
    pub new_output : Option L.Evbuf
    pub event_assign_ok : Bool
    pub event_add_ok : Bool
    pub new_bufev : Option L.Bufev
    pub enable_ok : Bool
    pub system_sec : ℕ

  -- `_evserver_client_free` of a client that is not NULL
  unfoldable pub client_free : Client → List (Effect A)
  client_free c =
      (event_del ∷ [])
      ++ ((if c.has_free_callback then free_callback c.arg ∷ [] else [])
          ++ ((if is_some c.input_buffer then evbuffer_free ∷ [] else [])
              ++ ((if is_some c.output_buffer then evbuffer_free ∷ [] else [])
                  ++ ((if is_some c.buf_ev
                        then bufferevent_disable ∷ bufferevent_free c.fd ∷ []
                        else [])
                      ++ ((elim c.evbase [
                        | none ↦ []
                        | some b ↦ if not c.in_tpool then event_base_free b ∷ [] else []
                      ])
                          ++ (free_client ∷ []))))))

  unfoldable pub client_base_exit : Option Client → List (Effect A)
  client_base_exit none = []
  client_base_exit (some c) = elim c.evbase [
    | none ↦ []
    | some b ↦ if not c.in_tpool then loopexit b ∷ [] else []
  ]

  unfoldable pub client_release : Option Client → List (Effect A)
  client_release none = []
  client_release (some c) = client_free c ++ socket_close c.fd

  unfoldable pub client_exit : Option Client → List (Effect A)
  client_exit none = client_base_exit none
  client_exit (some c) = if c.in_tpool then client_release (some c) else client_base_exit (some c)

  -- The client as `calloc` and the assignments before the first call leave it.
  abbrev pub blank : Bool → Option ℕ → ℕ → Client
  blank in_tpool worker client_fd = record {
    fd = client_fd;
    time_count = 0;
    timeout = 0;
    evbase = none;
    buf_ev = none;
    input_buffer = none;
    output_buffer = none;
    has_free_callback = false;
    in_tpool = in_tpool;
    worker = if in_tpool then worker else none;
    arg = none;
  }

  -- The calls behind the buffers: the timer event, then the bufferevent.
  client_start : Answers → Option ℕ → Bool → Client → Option Client × List (Effect A)
  unfolding client_free
  client_start a evbase timer_callback c =
      if timer_callback && not a.event_assign_ok
      then (none, client_free c)
      else if not a.event_add_ok
      then (none, client_free c)
      else elim a.new_bufev [
        | none ↦ (none, client_free c)
        | some b ↦
            if not a.enable_ok
            then (none, client_free (record c { buf_ev = some b }))
            else (some (record c { buf_ev = some b; evbase = evbase }), [])
      ]

  unfoldable pub client_new :
      Answers → Option ℕ → Bool → Option ℕ → ℕ → Bool → Option Client × List (Effect A)
  unfolding client_start client_free
  client_new a evbase in_tpool worker client_fd timer_callback =
      if in_tpool && not (is_some worker)
      then (none, [])
      else if not (ltb 0 client_fd && is_some evbase)
      then (none, [])
      else if not a.calloc_ok
      then (none, [])
      else let c = blank in_tpool worker client_fd in
        elim a.new_input [
          | none ↦ (none, client_free c)
          | some i ↦ elim a.new_output [
            | none ↦ (none, client_free (record c { input_buffer = some i }))
            | some o ↦ client_start a evbase timer_callback (record c {
              input_buffer = some i;
              output_buffer = some o;
              timeout = client_timeout_sec;
              time_count = a.system_sec;
            })
          ]
        ]

  -- `evserver_send_client` with data that is not NULL.
  unfoldable pub send_client : Client → List ℕ → Bool × Client
  send_client c msg = if not (ltb 0 (length msg)) then (false, c) else elim c.buf_ev [
    | none ↦ (false, c)
    | some b ↦ elim c.output_buffer [
      | none ↦ (false, c)
      | some o ↦ elim (L.add o msg) [
        | none ↦ (false, c)
        | some o' ↦ elim (L.write_buffer b o') [
          | none ↦ (false, record c { output_buffer = some o' })
          | some (b', o'') ↦ (true, record c { buf_ev = some b'; output_buffer = some o'' })
        ]
      ]
    ]
  ]

  -- bufferevent_read_buffer, whose result the code does not test.
  abbrev pub read_in : L.Bufev → L.Evbuf → L.Bufev × L.Evbuf
  read_in b e = elim (L.read_buffer b e) [ none ↦ (b, e) | some r ↦ r ]

  -- The end of `evserver_recv_client`, with the client's input buffer: evbuffer_remove of what there is.
  unfoldable pub take_bytes : Client → L.Evbuf → ℕ → Option (List ℕ) × Client
  take_bytes c e buf_size =
      if ltb 0 (L.get_length e)
      then elim (L.remove e (min (L.get_length e) buf_size)) [
        | none ↦ (none, c)
        | some r ↦ (some r.0, record c { input_buffer = some r.1 })
      ]
      else (some [], c)

  -- `evserver_recv_client` into a buffer of `buf_size` bytes: what it writes there, whose length is the
  -- result; `none` is -1.
  unfoldable pub recv_client : Client → ℕ → Option (List ℕ) × Client
  unfolding take_bytes
  recv_client c buf_size = if not (ltb 0 buf_size) then (some [], c) else elim c.buf_ev [
    | none ↦ (some [], c)
    | some b ↦ elim c.input_buffer [
      | none ↦ (some [], c)
      | some e ↦
          let r = read_in b e in
          take_bytes (record c { buf_ev = some r.0; input_buffer = some r.1 }) r.1 buf_size
    ]
  ]
