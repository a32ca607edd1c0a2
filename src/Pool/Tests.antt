-- ===== src/Pool/Tests.antt =====
-- Tests of the pool's jobs, in a pool of two workers with room for one job each.
use trace_server.Base.{
  ℕ, zero, suc, ◌≡◌, ◌<◌, ◌%◌, refl, subst, true, false, some, none, List, [], ◌∷◌, arith,
  get_elem?,
}
use trace_server.Base.Int.{ℤ, pos, ltb_ℤ}
use mathlib.Core.Option.{some-injective}
use trace_server.Queue.{Queue, Item, full_flush}
use trace_server.Pool.{
  Callbacks, Job, Worker, Tpool, tpool_add_job, working_count, client_handling_count,
}
use trace_server.Pool.Layout.{layout}
use trace_server.Pool.Turns.{Calls, calls-fair}
use trace_server.Pool.Dispatch.{IsReady, IsPool, Dispatched, tpool_add_job-Dispatched}

abbrev pub callbacks : Callbacks
callbacks = record { timer_callback = 1; read_callback = 2; write_callback = 3; error_callback = 4 }

abbrev stack : Job
stack = record { connect_fd = pos 0; processing = true; callbacks = callbacks }

abbrev with_items : List Item → ℕ → Queue
with_items items depth = record {
  head = items;
  depth = pos depth;
  max_depth = pos 1;
  mode = full_flush;
  alloc_hook = none;
  has_free_hook = true;
}

abbrev worker : ℕ → Queue → Worker
worker i q = record {
  read_fd = pos 8;
  write_fd = pos 9;
  evbase = some 1;
  tpool_index = i;
  queue = some q;
  create_by_malloc = false;
}

abbrev old : Item
old = record { iov_base = some (5 ∷ 6 ∷ []); iov_len = 2 }

abbrev two_workers : Tpool
two_workers = record {
  workers = worker 0 (with_items [] 0) ∷ worker 1 (with_items (old ∷ []) 1) ∷ [];
  worker_size = 2;
  working_count = pos 2;
  current_worker = 3;
  client_wait_count = pos 1;
  client_handling_count = pos 0;
}

first-IsReady : IsReady 1 (worker 0 (with_items [] 0))
first-IsReady = record {
  write_pos = refl;
  q = with_items [] 0;
  has_queue = refl;
  is_queue = record { depth_eq = refl };
  max = refl;
  bound = omega arith;
  no_hook = refl;
}

second-IsReady : IsReady 1 (worker 1 (with_items (old ∷ []) 1))
second-IsReady = record {
  write_pos = refl;
  q = with_items (old ∷ []) 1;
  has_queue = refl;
  is_queue = record { depth_eq = refl };
  max = refl;
  bound = omega arith;
  no_hook = refl;
}

ready : (i : ℕ) (w : Worker) → get_elem? two_workers.workers i ≡ some w → IsReady 1 w
ready zero w e = subst (IsReady 1) (some-injective (worker 0 (with_items [] 0)) w e) first-IsReady
ready (suc zero) w e =
    subst (IsReady 1) (some-injective (worker 1 (with_items (old ∷ []) 1)) w e) second-IsReady
ready (suc (suc i)) w e = absurd (cc)

two_workers-IsPool : IsPool 1 two_workers
two_workers-IsPool = record { size_eq = refl; size_pos = omega arith; ready = ready }

tpool_add_job-Dispatched_example :
    Dispatched layout stack [] callbacks 1
      (omega arith)
      two_workers
      (pos 6)
      (tpool_add_job layout true true stack [] (some two_workers) (pos 6) callbacks)
tpool_add_job-Dispatched_example =
    tpool_add_job-Dispatched layout stack [] callbacks 1 (omega arith) two_workers (pos 6)
      two_workers-IsPool refl

no_pool : tpool_add_job layout true true stack [] none (pos 6) callbacks ≡ some (false, none, [])
unfolding tpool_add_job
no_pool = refl

bad_descriptor :
    tpool_add_job layout true true stack [] (some two_workers) (pos 0) callbacks
    ≡ some (false, some two_workers, [])
unfolding tpool_add_job
bad_descriptor = refl

one_more : working_count two_workers (pos 1) ≡ record two_workers { working_count = pos 3 }
unfolding working_count
one_more = refl

one_handled :
    client_handling_count two_workers (pos 1) ≡ record two_workers { client_handling_count = pos 1 }
unfolding client_handling_count
one_handled = refl

abbrev descriptors : ℕ → ℤ
descriptors i = pos (suc i)

descriptors-valid : (i : ℕ) → ltb_ℤ (pos 0) (descriptors i) ≡ true
descriptors-valid i = ground arith

calls-fair_example :
    (k : ℕ) × (k < 2)
    × (after : Tpool) × Calls layout stack [] callbacks 1
        (omega arith)
        descriptors
        k
        two_workers
        after
    × (after.current_worker % after.worker_size ≡ 0)
calls-fair_example =
    calls-fair layout stack [] callbacks 1 (omega arith) descriptors two_workers 0
      two_workers-IsPool descriptors-valid (omega arith) (omega arith)
