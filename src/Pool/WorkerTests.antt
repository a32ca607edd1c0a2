-- ===== src/Pool/WorkerTests.antt =====
-- Tests of a worker: its set-up, and the client that it makes of a job.
use trace_server.Base.{
  ℕ, ◌≡◌, refl, subst, Bool, true, false, some, none, [], ◌∷◌, arith, set, get_elem?,
}
use mathlib.Core.Option.{some-injective}
use trace_server.Base.Int.{ℤ, pos, ◌+ℤ◌, minus_one, ltb_ℤ}
use trace_server.Libevent.{lists}
use trace_server.Client.{Answers}
use trace_server.Client.Fresh.{has_bufev}
use trace_server.Queue.{
  Queue, Item, full_flush, queue_destroy, cond_signal, queue_create, queue_set_depth,
  queue_set_hook,
}
use trace_server.ThreadPool.{new_pool, Work}
use trace_server.Pool.{Job, Worker, Tpool, working_count}
use trace_server.Pool.Layout.{layout}
use trace_server.Pool.Tests.{callbacks}
use trace_server.Pool.Setup.{
  WorkerAnswers, SetupAct, loopexit, event_base_free, queue_act, free_queue, free_workers,
  free_tpool, no_worker, worker_init, worker_free, worker_new, fresh_pool, tpool_new,
  evserver_tpool_create, worker_factory, init_workers,
}
use trace_server.Pool.Setup as Setup
use trace_server.Pool.Ready.{IsSetUp, tpool_new-IsPool}
use trace_server.Pool.Dispatch.{IsPool}
use trace_server.Pool.Events.{worker_add_event, worker_read_callback}
use trace_server.Pool.Owner.{Owned, worker_add_event-Owned}

abbrev new_job : Job
new_job = record { connect_fd = pos 6; processing = false; callbacks = callbacks }

abbrev item : Item
item = record { iov_base = some (layout.bytes new_job); iov_len = 7 }

abbrev queued : Queue
queued = record {
  head = item ∷ [];
  depth = pos 1;
  max_depth = pos 2;
  mode = full_flush;
  alloc_hook = none;
  has_free_hook = true;
}

abbrev worker : Worker
worker = record no_worker {
  read_fd = pos 8;
  write_fd = pos 9;
  evbase = some 1;
  queue = some queued;
}

abbrev one_worker : Tpool
one_worker = record (fresh_pool (worker ∷ []) 1) { client_wait_count = pos 1 }

-- All calls succeed but the last.
abbrev answers : Bool → Answers lists ℕ
unfolding lists
answers enable_ok = record {
  calloc_ok = true;
  new_input = some [];
  new_output = some [];
  event_assign_ok = true;
  event_add_ok = true;
  new_bufev = some (record { in_bytes = []; out_bytes = [] });
  enable_ok = enable_ok;
  system_sec = 100;
}

worker_add_event-Owned_example :
    Owned layout lists ℕ 6
      (omega arith)
      one_worker
      (has_bufev lists ℕ (answers false) true)
      false
      (set one_worker.workers 0
        (record worker { queue = some (record queued { head = []; depth = pos 1 +ℤ minus_one }) }))
      (worker_add_event layout lists ℕ (answers false) [] one_worker 0)
unfolding answers
worker_add_event-Owned_example =
    worker_add_event-Owned layout lists ℕ 6 (omega arith) (answers false) [] one_worker 0 1 worker
      queued item [] new_job refl refl refl refl refl refl refl

wrong_descriptor : worker_read_callback layout lists ℕ (answers true) [] one_worker 0 (pos 3) ≡ none
unfolding worker_read_callback
wrong_descriptor = refl

abbrev setup : WorkerAnswers
setup = record {
  queue_ok = true;
  pair = some (pos 8, pos 9);
  evbase = some 1;
  event_assign_ok = true;
  event_add_ok = true;
}

abbrev new_queue : Queue
new_queue = record {
  head = [];
  depth = pos 0;
  max_depth = pos 4;
  mode = full_flush;
  alloc_hook = none;
  has_free_hook = true;
}

abbrev new_worker : Worker
new_worker = record no_worker {
  read_fd = pos 9;
  write_fd = pos 8;
  evbase = some 1;
  queue = some new_queue;
}

made : worker_init setup 4 ≡ (true, new_worker)
unfolding worker_init queue_create queue_set_depth queue_set_hook
made = refl

-- A worker that was allocated is not released.
freed : worker_free (record new_worker { create_by_malloc = true }) ≡ (
  no_worker,
  Setup.event_del
      ∷ loopexit 1
      ∷ event_base_free 1
      ∷ Setup.close_fd (pos 9)
      ∷ Setup.close_fd (pos 8)
      ∷ queue_act cond_signal
      ∷ free_queue
      ∷ [],
)
unfolding worker_free queue_destroy
freed = refl

not_made : worker_new true (record setup { queue_ok = false }) 4 ≡ (none, [])
unfolding worker_new queue_create
not_made = refl

open_pairs : (i : ℕ) (fd0 fd1 : ℤ) → setup.pair ≡ some (fd0, fd1) → ltb_ℤ (pos 0) fd0 ≡ true
open_pairs i fd0 fd1 e =
    let pair = some-injective {A = ℤ × ℤ} (pos 8, pos 9) (fd0, fd1) e in
    subst (λ (p : ℤ × ℤ). ltb_ℤ (pos 0) p.0 ≡ true) pair refl

tpool_new-IsPool_example :
    IsPool 4 (fresh_pool (new_worker ∷ new_worker ∷ []) 2)
    × (◌≡◌ {A = ℕ} 2 2)
    × (◌≡◌ {A = ℕ} 0 0)
    × ((i : ℕ) (w : Worker) → get_elem? (new_worker ∷ new_worker ∷ []) i ≡ some w → IsSetUp setup w)
unfolding tpool_new init_workers worker_init queue_create queue_set_depth queue_set_hook
tpool_new-IsPool_example =
    tpool_new-IsPool true true (λ i. setup) 2 4 (fresh_pool (new_worker ∷ new_worker ∷ []) 2)
      open_pairs (omega arith) refl

abbrev work : ℕ → Work
work i = record { routine = 100; arg = i }

created : evserver_tpool_create true true (λ i. setup) (λ i. true) work 1 4 (new_pool 1) ≡ (
  true,
  some (fresh_pool (new_worker ∷ []) 1),
  record (new_pool 1) { queue_head = work 0 ∷ [] },
  [],
)
unfolding evserver_tpool_create init_workers worker_init queue_create queue_set_depth queue_set_hook
created = refl

-- The counts go up and down again around the event loop.
ran : worker_factory (λ t. t) one_worker 0 ≡ (
  record one_worker { workers = record worker { evbase = none } ∷ [] },
  Setup.event_del ∷ event_base_free 1 ∷ [],
)
unfolding worker_factory working_count
ran = refl
