-- ===== src/Pool/Events.antt =====
-- What a worker does when it is notified: it takes a job from its queue and makes a client of it.
use trace_server.Base.{
  ℕ, ◌==◌, true, false, not, ◌||◌, Option, none, some, List, [], ◌∷◌, ◌++◌, if◌then◌else◌, ◌>>=◌,
  get_elem?, set,
}
use trace_server.Base.Int.{ℤ, pos, minus_one, pos_part, ltb_ℤ}
use trace_server.Libevent.{Libevent}
use trace_server.Queue.{
  Item, Act, call_free_hook, free_data, free_item, cond_signal, Wakeup, item_free, item_get_data,
  queue_pop,
}
use trace_server.Client.{Client, Answers, Effect, client_new, socket_close}
use trace_server.Pool.{Job, JobLayout, Worker, Tpool, client_wait_count, client_handling_count}

module _ (J : JobLayout) (L : Libevent) (A : Type 0) where
  -- `_evserver_worker_job_free`, up to the release of the job's memory.
  unfoldable pub worker_job_free : Option Job → List (Effect A)
  worker_job_free none = []
  worker_job_free (some job) =
      if not job.processing then socket_close (pos_part job.connect_fd) else []

  -- What the free hook of a worker's queue does; the releases of memory are left out.
  unfoldable pub run_hook : List Act → List (Effect A)
  unfolding worker_job_free
  run_hook [] = []
  run_hook (call_free_hook none ∷ acts) = worker_job_free none ++ run_hook acts
  run_hook (call_free_hook (some b) ∷ acts) = worker_job_free (some (J.read_job b)) ++ run_hook acts
  run_hook (free_data b ∷ acts) = run_hook acts
  run_hook (free_item item ∷ acts) = run_hook acts
  run_hook (cond_signal ∷ acts) = run_hook acts

  -- What `_evserver_worker_add_event` does with the client that it got.
  abbrev pub settle :
      Option (Client L A) × List (Effect A)
      → Job
      → Tpool
      → Option (Client L A) × Job × Tpool × List (Effect A)
  settle (none, effects) job t = (none, job, t, effects)
  settle (some c, effects) job t =
      (some c, record job { processing = true }, client_handling_count t (pos 1), effects)

  -- The job that was popped, with a descriptor or without: the client, the job and the pool afterwards.
  unfoldable pub make_client :
      Answers L A → Worker → ℕ → Job → Tpool → Option (Client L A) × Job × Tpool × List (Effect A)
  make_client a w i job t =
      if not (ltb_ℤ (pos 0) job.connect_fd)
      then (none, job, t, [])
      else settle
          (client_new L A a w.evbase true (some i) (pos_part job.connect_fd)
            (not (job.callbacks.timer_callback == 0)))
          job t

  -- `_evserver_worker_add_event` of the pool's worker at `i`: the client, the pool, and what else is done.
  -- The flag of the job is written to the item's memory, where the free hook reads it.
  unfoldable pub worker_add_event :
      Answers L A → List Wakeup → Tpool → ℕ → Option (Option (Client L A) × Tpool × List (Effect A))
  unfolding make_client run_hook client_wait_count
  worker_add_event a ws t i = do
    w ← get_elem? t.workers i
    q ← w.queue
    (item, q') ← queue_pop ws q
    let t' : Tpool = record t { workers = set t.workers i (record w { queue = some q' }) }
    elim (item_get_data (some q') item) [
      | none ↦ some (none, t', run_hook (item_free (some q') item))
      | some b ↦
          let r =
            make_client a w i (record (J.read_job b) { processing = false })
              (client_wait_count t' minus_one) in
          let item' : Option Item =
            item >>= λ it. some (record it { iov_base = some (J.bytes r.1) }) in
          some (r.0, r.2, r.3 ++ run_hook (item_free (some q') item'))
    ]

  -- `_evserver_worker_read_callback`, with the worker's own descriptor; `none` is also its `exit`.
  unfoldable pub worker_read_callback :
      Answers L A
      → List Wakeup
      → Tpool
      → ℕ
      → ℤ
      → Option (Option (Client L A) × Tpool × List (Effect A))
  unfolding worker_add_event
  worker_read_callback a ws t i fd = do
    w ← get_elem? t.workers i
    if ltb_ℤ fd w.read_fd || ltb_ℤ w.read_fd fd then none else worker_add_event a ws t i
