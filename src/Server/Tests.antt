-- ===== src/Server/Tests.antt =====
-- Tests of the server: its set-up, an accepted connection and the life of one.
use trace_server.Base.{ℕ, ◌+◌, ◌≡◌, refl, true, false, some, none, [], ◌∷◌, arith, subst, is_some}
use mathlib.Core.Option.{some-injective}
use trace_server.Base.Int.{ℤ, pos, minus_one, ltb_ℤ}
use trace_server.Libevent.{lists}
use trace_server.Queue.{Queue, full_flush, queue_create, queue_set_depth, queue_set_hook}
use trace_server.Socket.{close_fd}
use trace_server.Client.{client_exit, client_release}
use trace_server.Talk.{ClientOption, SkylogStore, TalkClient}
use trace_server.Talk.Answer.{Quiet}
use trace_server.Pool.{Callbacks, Job, Tpool}
use trace_server.Pool.Layout.{layout}
use trace_server.Pool.Setup.{
  WorkerAnswers, no_worker, fresh_pool, tpool_new, init_workers, worker_init,
}
use trace_server.Pool.Ready.{tpool_new-IsPool}
use trace_server.Pool.Dispatch.{IsPool}
use trace_server.Server.{
  CreateAnswers, event_del, loopexit, event_base_free, shutdown, socket_act, new_server,
  evserver_create, evserver_run, client_connected_count, evserver_open,
}
use trace_server.Server.Events.{World, Conn, ev_accept_callback, ev_timer_callback}
use trace_server.Server.Accept.{Accepted, ev_accept_callback-Accepted}
use trace_server.Server.Armed.{listed}
use trace_server.Server.Life.{Life, begins, goes_on, timer, Lived, Life-Lived}

abbrev answers : CreateAnswers
answers = record {
  new_base = some 1;
  listening = record { socket_fd = pos 5; bind_ok = true; listen_ok = true };
  reuseable_ok = true;
  nonblocking_ok = true;
  event_assign_ok = true;
  event_add_ok = false;
  thread_ok = true;
}

-- When event_add fails, the listening socket is closed twice.
closed_twice : evserver_create answers new_server ≡ (
  false,
  new_server,
  socket_act (close_fd (pos 5))
      ∷ event_del
      ∷ loopexit 1
      ∷ event_base_free 1
      ∷ shutdown (pos 5)
      ∷ socket_act (close_fd (pos 5))
      ∷ [],
)
unfolding evserver_create
closed_twice = refl

listens :
    evserver_open (record answers { event_add_ok = true }) new_server
    ≡ (true, record { listen_fd = pos 5; evbase_server = some 1; server_ok = false }, [])
unfolding evserver_open
listens = refl

stopped : evserver_run (λ s. s) new_server ≡ new_server
unfolding evserver_run
stopped = refl

one_more : client_connected_count (pos 3) minus_one ≡ pos 2
unfolding client_connected_count
one_more = refl

abbrev callbacks : Callbacks
callbacks = record { timer_callback = 1; read_callback = 2; write_callback = 3; error_callback = 4 }

abbrev stack : Job
stack = record { connect_fd = pos 0; processing = true; callbacks = callbacks }

abbrev setup : WorkerAnswers
setup = record {
  queue_ok = true;
  pair = some (pos 8, pos 9);
  evbase = some 1;
  event_assign_ok = true;
  event_add_ok = true;
}

abbrev new_queue : Queue
new_queue = record {
  head = [];
  depth = pos 0;
  max_depth = pos 4;
  mode = full_flush;
  alloc_hook = none;
  has_free_hook = true;
}

abbrev one_worker : Tpool
one_worker =
    fresh_pool
      (record no_worker {
        read_fd = pos 9;
        write_fd = pos 8;
        evbase = some 1;
        queue = some new_queue;
      }
        ∷ [])
      1

open_pairs : (i : ℕ) (fd0 fd1 : ℤ) → setup.pair ≡ some (fd0, fd1) → ltb_ℤ (pos 0) fd0 ≡ true
open_pairs i fd0 fd1 e =
    let pair = some-injective {A = ℤ × ℤ} (pos 8, pos 9) (fd0, fd1) e in
    subst (λ (p : ℤ × ℤ). ltb_ℤ (pos 0) p.0 ≡ true) pair refl

one_worker-IsPool : IsPool 4 one_worker
unfolding tpool_new init_workers worker_init queue_create queue_set_depth queue_set_hook
one_worker-IsPool =
    (tpool_new-IsPool true true (λ i. setup) 1 4 one_worker open_pairs (omega arith) refl).0

abbrev world : World
world = record { server = new_server; connected_count = pos 0; tpool = some one_worker }

denied :
    ev_accept_callback layout
      (pos 6)
      true
      true
      true
      stack
      []
      callbacks
      (record world { connected_count = pos 65531 })
    ≡ some (record world { connected_count = pos 65531 }, socket_act (close_fd (pos 6)) ∷ [])
unfolding ev_accept_callback
denied = refl

ev_accept_callback-Accepted_example :
    Accepted layout stack [] callbacks 4
      (omega arith)
      one_worker
      (pos 6)
      false
      world
      (ev_accept_callback layout (pos 6) true false true stack [] callbacks world)
ev_accept_callback-Accepted_example =
    ev_accept_callback-Accepted layout stack [] callbacks 4 (omega arith) true false one_worker
      (pos 6) world refl one_worker-IsPool refl

abbrev no_store : SkylogStore ℕ
no_store = record {
  save = λ w log bytes len. (false, log, w);
  save_finished = λ w log. (log, w + 1);
}

abbrev visitor : TalkClient lists ℕ no_store
unfolding lists
visitor = record {
  fd = 7;
  time_count = 100;
  timeout = 10;
  evbase = some 1;
  buf_ev = some (record { in_bytes = b'x' ∷ []; out_bytes = [] });
  input_buffer = some [];
  output_buffer = some [];
  has_free_callback = false;
  in_tpool = true;
  worker = some 2;
  arg = none;
}

visitor-Quiet : Quiet lists ℕ no_store [] visitor
unfolding lists visitor
visitor-Quiet = record { sent_eq = refl; pending_eq = refl }

visitor-fields :
    (visitor.fd ≡ 7)
    × (visitor.in_tpool ≡ true)
    × (is_some visitor.buf_ev ≡ true)
    × (visitor.arg ≡ none)
unfolding visitor
visitor-fields = (refl, refl, refl, refl)

abbrev at_start : Conn lists ℕ no_store
at_start = record { client = some visitor; handling = pos 1; store = 0; effects = [] }

-- The client stays after ten seconds, and is released after eleven.
abbrev waiting : Conn lists ℕ no_store
waiting = ev_timer_callback lists ℕ no_store 110 at_start

abbrev at_end : Conn lists ℕ no_store
at_end = ev_timer_callback lists ℕ no_store 111 waiting

timed_out : at_end ≡ record {
  client = some visitor;
  handling = pos 0;
  store = 0;
  effects = client_release lists ClientOption (some visitor);
}
unfolding ev_timer_callback client_exit visitor
timed_out = refl

waiting-timer_set : listed.timer_set waiting.effects ≡ true
unfolding ev_timer_callback listed visitor
waiting-timer_set = refl

at_start-timer_set : listed.timer_set at_start.effects ≡ true
unfolding listed
at_start-timer_set = refl

Life-at_end : Life lists ℕ no_store [] 7 (pos 1) listed (some at_end)
Life-at_end =
    let (fd, pooled, has, new) = visitor-fields in
    goes_on _ _
      (goes_on _ _ (begins visitor 0 fd pooled has new visitor-Quiet)
        (timer 110 at_start-timer_set))
      (timer 111 waiting-timer_set)

Life-Lived_example : Lived lists ℕ no_store [] 7 (pos 1) listed (some at_end)
Life-Lived_example = Life-Lived lists ℕ no_store [] 7 (pos 1) listed (some at_end) Life-at_end
