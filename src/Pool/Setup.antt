-- ===== src/Pool/Setup.antt =====
-- How workers and their pool are set up and torn down. What the calls into libevent and the C library
-- return is an argument; what is done outside the records is a list of acts, in order.
use trace_server.Base.{
  ℕ, zero, suc, ◌+◌, Bool, true, false, not, ◌&&◌, Option, none, some, List, [], ◌∷◌, ◌++◌, ltb,
  if◌then◌else◌, map, replicate, get_elem?, set, is_some,
}
use trace_server.Base.Int.{ℤ, pos, minus_one, ltb_ℤ}
use trace_server.Libc.Print.{as_int}
use trace_server.Queue.{Act, queue_create, queue_set_depth, queue_set_hook, queue_destroy}
use trace_server.ThreadPool.{ThreadPool, Work, tpool_add_work}
use trace_server.Pool.{Worker, Tpool, working_count}

pub data SetupAct : Type 0 where
  event_del free_queue free_worker free_workers free_tpool : SetupAct
  loopexit : ℕ → SetupAct
  event_base_free : ℕ → SetupAct
  close_fd : ℤ → SetupAct
  queue_act : Act → SetupAct

-- What the calls of `evserver_worker_init` return; `pair` is fd[0] and fd[1].
pub record WorkerAnswers : Type 0 where
  pub queue_ok : Bool
  pub pair : Option (ℤ × ℤ)
  pub evbase : Option ℕ
  pub event_assign_ok : Bool
  pub event_add_ok : Bool

-- What `memset` to 0 leaves.
abbrev pub no_worker : Worker
no_worker = record {
  read_fd = pos 0;
  write_fd = pos 0;
  evbase = none;
  tpool_index = 0;
  queue = none;
  create_by_malloc = false;
}

-- `evserver_worker_init` of a worker that is not NULL; `_evserver_worker_job_free` is the free hook. The size is
-- unsigned, and an `int` in the queue.
unfoldable pub worker_init : WorkerAnswers → ℕ → Bool × Worker
worker_init a queue_size = elim (queue_create a.queue_ok) [
  | none ↦ (false, no_worker)
  | some q ↦
      let w : Worker = record no_worker {
        queue = some (queue_set_hook (queue_set_depth q (as_int queue_size)) none true);
      } in
      elim a.pair [
        | none ↦ (false, w)
        | some (fd0, fd1) ↦
            let w' : Worker = record w { write_fd = fd0; read_fd = fd1; evbase = a.evbase } in
            (is_some a.evbase && (a.event_assign_ok && a.event_add_ok), w')
      ]
]

abbrev close_if : ℤ → List SetupAct
close_if (pos zero) = []
close_if fd = if ltb_ℤ (pos 0) fd then close_fd fd ∷ [] else []

-- `evserver_worker_free` of a worker that is not NULL: the worker is cleared before the test of
-- `create_by_malloc`.
unfoldable pub worker_free : Worker → Worker × List SetupAct
worker_free w = (
  no_worker,
  (elim w.evbase [ none ↦ [] | some b ↦ event_del ∷ loopexit b ∷ event_base_free b ∷ [] ])
      ++ (close_if w.read_fd
          ++ (close_if w.write_fd
              ++ ((elim w.queue [
                | none ↦ []
                | some q ↦ map queue_act (queue_destroy q) ++ (free_queue ∷ [])
              ])
                  ++ (if no_worker.create_by_malloc then free_worker ∷ [] else [])))),
)

unfoldable pub worker_new : Bool → WorkerAnswers → ℕ → Option Worker × List SetupAct
unfolding worker_init worker_free
worker_new calloc_ok a fifo_size =
    if not calloc_ok
    then (none, [])
    else let r = worker_init a fifo_size in
      if r.0
      then (some (record (r.1) { create_by_malloc = true }), [])
      else (none, (worker_free r.1).1)

abbrev free_all_workers : List Worker → List SetupAct
free_all_workers [] = []
free_all_workers (w ∷ ws) = (worker_free w).1 ++ free_all_workers ws

-- `_evserver_tpool_free` of a pool whose workers are allocated
unfoldable pub tpool_free : Tpool → List SetupAct
unfolding worker_free
tpool_free t = free_all_workers t.workers ++ (free_workers ∷ free_tpool ∷ [])

-- The loop of `_evserver_tpool_new` over the workers that are still to be set up: whether all were, and
-- the array.
unfoldable pub init_workers : (ℕ → WorkerAnswers) → ℕ → ℕ → ℕ → Bool × List Worker
init_workers answers queue_size i zero = (true, [])
init_workers answers queue_size i (suc n) =
    let r = worker_init (answers i) queue_size in
    let rest = init_workers answers queue_size (i + 1) n in
    if r.0 then (rest.0, r.1 ∷ rest.1) else (false, r.1 ∷ replicate n no_worker)

abbrev pub fresh_pool : List Worker → ℕ → Tpool
fresh_pool workers worker_size = record {
  workers = workers;
  worker_size = worker_size;
  working_count = pos 0;
  current_worker = 0;
  client_wait_count = pos 0;
  client_handling_count = pos 0;
}

unfoldable pub tpool_new : Bool → Bool → (ℕ → WorkerAnswers) → ℕ → ℕ → Option Tpool × List SetupAct
unfolding init_workers tpool_free
tpool_new calloc_ok workers_ok answers worker_size queue_size =
    if not (ltb 0 worker_size && ltb 0 queue_size)
    then (none, [])
    else if not calloc_ok
    then (none, [])
    else if not workers_ok
    then (none, free_tpool ∷ [])
    else let r = init_workers answers queue_size 0 worker_size in
      let t = fresh_pool r.1 worker_size in if r.0 then (some t, []) else (none, tpool_free t)

-- The loop of `evserver_tpool_create`, which gives each worker its index and adds its routine to the thread
-- pool. What `tpool_add_work` returns is not tested; `work` is the routine with the worker at an index.
unfoldable pub start_workers :
    (ℕ → Bool) → (ℕ → Work) → ℕ → List Worker → ThreadPool → List Worker × ThreadPool
unfolding tpool_add_work
start_workers alloc_ok work i [] p = ([], p)
start_workers alloc_ok work i (w ∷ ws) p =
    let rest =
      start_workers alloc_ok work (i + 1) ws (tpool_add_work (alloc_ok i) p (some (work i))).1 in
    (record w { tpool_index = i } ∷ rest.0, rest.1)

-- `evserver_tpool_create`: what it returns, the pool, the thread pool and the acts.
unfoldable pub evserver_tpool_create :
    Bool
    → Bool
    → (ℕ → WorkerAnswers)
    → (ℕ → Bool)
    → (ℕ → Work)
    → ℕ
    → ℕ
    → ThreadPool
    → Bool × Option Tpool × ThreadPool × List SetupAct
unfolding tpool_new start_workers
evserver_tpool_create calloc_ok workers_ok answers alloc_ok work worker_size queue_size p =
    let made = tpool_new calloc_ok workers_ok answers worker_size queue_size in
    elim made.0 [
      | none ↦ (false, none, p, made.1)
      | some t ↦
          let r = start_workers alloc_ok work 0 t.workers p in
          (true, some (record t { workers = r.0 }), r.1, made.1)
    ]

-- `evserver_worker_factory` of the pool's worker at `i`, with what the event loop does to the pool until
-- it ends.
unfoldable pub worker_factory : (Tpool → Tpool) → Tpool → ℕ → Tpool × List SetupAct
worker_factory dispatch t i = elim (get_elem? t.workers i) [
  | none ↦ (t, [])
  | some w ↦ elim w.evbase [
    | none ↦ (t, [])
    | some b ↦
        let t' = dispatch (working_count t (pos 1)) in
        let workers : List Worker = elim (get_elem? t'.workers i) [
          | none ↦ t'.workers
          | some w' ↦ set t'.workers i (record w' { evbase = none })
        ] in
        (
          working_count (record t' { workers = workers }) minus_one,
          event_del ∷ event_base_free b ∷ [],
        )
  ]
]
