-- ===== src/ThreadPool/Tests.antt =====
-- Tests of the thread pool, and a run of a pool of one thread.
use trace_server.Base.{◌+◌, ◌≤◌, ◌<◌, ◌≡◌, refl, true, false, none, some, [], ◌∷◌, ◌++◌, ltb, arith}
use trace_server.Base.Int.{pos, negsuc, minus_one}
use trace_server.ThreadPool.{
  Work, CreateAnswers, starting, at_lock, waiting, holding, running, dangling, live, new_pool,
  tpool_add_work, tpool_create, tpool_destroy, broadcast, free_thr_id, free_pool, join, free_work,
  thread_step, is_busy, link_work,
}
use trace_server.ThreadPool.Count.{count, is_working, is_begun, is_awake}
use trace_server.ThreadPool.System.{System, Reach, start, later, thread, call, link, signal}
use trace_server.ThreadPool.Invariant.{Reach-order, Reach-counts, Reach-awake}

abbrev first_work : Work
first_work = record { routine = 100; arg = 1 }

abbrev second_work : Work
second_work = record { routine = 100; arg = 2 }

-- The thread begins and waits, and one work is linked.
abbrev linked : System
linked = record {
  pool = record (new_pool 1) { worker_counts = pos 1; queue_head = first_work ∷ [] };
  threads = waiting ∷ [];
  adding = [];
  signalling = 1;
  linked = first_work ∷ [];
  taken = [];
}

Reach-linked : Reach 1 linked
unfolding thread_step is_busy link_work
Reach-linked =
    later
      (later (later (later start (thread 0 starting refl)) (thread 0 at_lock refl))
        (call first_work refl))
      (link [] [] first_work refl)

-- A second work is linked, the thread wakes, and takes and runs the first.
abbrev taken : System
taken = record {
  pool = record (new_pool 1) {
    worker_counts = pos 1;
    working_counts = pos 1;
    queue_head = second_work ∷ [];
  };
  threads = running first_work ∷ [];
  adding = [];
  signalling = 1;
  linked = first_work ∷ second_work ∷ [];
  taken = first_work ∷ [];
}

Reach-taken : Reach 1 taken
unfolding thread_step is_busy link_work
Reach-taken =
    later
      (later
        (later (later (later Reach-linked (call second_work refl)) (link [] [] second_work refl))
          (signal 0 1 refl refl))
        (thread 0 at_lock refl))
      (thread 0 (holding first_work) refl)

Reach-order_example : first_work ∷ second_work ∷ [] ≡ (first_work ∷ []) ++ (second_work ∷ [])
Reach-order_example = Reach-order 1 taken Reach-taken

Reach-counts_example :
    (pos 1 ≡ pos (count is_working taken.threads))
    × (count is_working taken.threads ≤ 1)
    × (pos 1 ≡ pos (count is_begun taken.threads))
    × (count is_begun taken.threads ≤ 1)
Reach-counts_example = Reach-counts 1 taken Reach-taken

Reach-awake_example : 0 < 1 + count is_awake linked.threads
Reach-awake_example = Reach-awake 1 linked (omega arith) Reach-linked refl (omega arith)

busy : tpool_add_work true taken.pool (some first_work) ≡ (negsuc 1, taken.pool, false)
unfolding tpool_add_work
busy = refl

no_routine : tpool_add_work true linked.pool none ≡ (minus_one, linked.pool, false)
unfolding tpool_add_work
no_routine = refl

-- The second of three threads cannot be made.
abbrev answers : CreateAnswers
answers = record {
  calloc_ok = true;
  queue_lock_ok = true;
  put_lock_ok = true;
  cond_ok = true;
  thr_id_ok = true;
  thread_ok = λ i. ltb i 1;
}

left_dangling : tpool_create answers 3 ≡ (minus_one, dangling, 1)
unfolding tpool_create
left_dangling = refl

created : tpool_create answers 1 ≡ (pos 0, live (new_pool 1), 1)
unfolding tpool_create
created = refl

destroyed : tpool_destroy linked.pool (first_work ∷ []) ≡ (
  record linked.pool { shutdown = true },
  broadcast ∷ join 0 ∷ free_thr_id ∷ free_work first_work ∷ free_pool ∷ [],
)
unfolding tpool_destroy
destroyed = refl
