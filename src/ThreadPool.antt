-- ===== src/ThreadPool.antt =====
-- src/threadpool.c: the pool of threads and the work that is added to it. `_tpool` is made before anything
-- else runs. What a thread does under one lock is one step; `ThreadPool.System` interleaves the steps
-- of all threads and callers.
pub mod Count
pub mod System
pub mod Stepped
pub mod Invariant
mod Tests
use trace_server.Base.{
  ℕ, zero, suc, ◌+◌, Bool, true, false, not, Option, none, some, List, [], ◌∷◌, ◌++◌, if◌then◌else◌,
  replicate, map,
}
use trace_server.Base.Int.{ℤ, pos, negsuc, ◌+ℤ◌, ltb_ℤ, minus_one}

-- The addresses of the function and of its argument; `next` is the order of the list.
pub record Work : Type 0 where
  pub routine : ℕ
  pub arg : ℕ

pub record ThreadPool : Type 0 where
  pub shutdown : Bool
  pub max_thr_num : ℕ
  pub worker_counts : ℤ
  pub working_counts : ℤ
  pub queue_head : List Work

-- Where a thread stands in `thread_routine`.
pub data Pc : Type 0 where
  -- before the lines that count the thread
  starting : Pc
  -- before it takes `queue_lock`
  at_lock : Pc
  -- in pthread_cond_wait
  waiting : Pc
  -- with a work that it has unlinked, before it is counted
  holding : Work → Pc
  running : Work → Pc
  -- after the routine, before it is counted back
  returned : Work → Pc
  exited : Pc

-- What a thread does under `queue_lock`.
unfoldable pub take_work : ThreadPool → ThreadPool × Pc
take_work t = if t.shutdown then (t, exited) else elim t.queue_head [
  | [] ↦ (t, waiting)
  | work ∷ works ↦ (record t { queue_head = works }, holding work)
]

-- _tpool_working_count(c)
unfoldable pub count_working : ThreadPool → ℤ → ThreadPool
count_working t c = record t { working_counts = t.working_counts +ℤ c }

-- One step of `thread_routine`. A wait may end without a signal.
unfoldable pub thread_step : ThreadPool → Pc → ThreadPool × Pc
unfolding take_work count_working
thread_step t starting = (record t { worker_counts = t.worker_counts +ℤ pos 1 }, at_lock)
thread_step t at_lock = take_work t
thread_step t waiting = (t, at_lock)
thread_step t (holding work) = (count_working t (pos 1), running work)
thread_step t (running work) = (t, returned work)
thread_step t (returned work) = (count_working t minus_one, at_lock)
thread_step t exited = (t, exited)

-- The test under `_tpool_working_count_lock` in `tpool_add_work`.
unfoldable pub is_busy : ThreadPool → Bool
is_busy t = not (ltb_ℤ t.working_counts (pos t.max_thr_num))

-- What `tpool_add_work` does under `queue_lock`.
unfoldable pub link_work : ThreadPool → Work → ThreadPool
link_work t work = record t { queue_head = t.queue_head ++ (work ∷ []) }

-- `tpool_add_work` when no other thread runs between its two locks: what it returns, the pool, and
-- whether it signals `queue_ready`. `none` is a routine that is NULL.
unfoldable pub tpool_add_work : Bool → ThreadPool → Option Work → ℤ × ThreadPool × Bool
unfolding is_busy link_work
tpool_add_work calloc_ok t work = if is_busy t then (negsuc 1, t, false) else elim work [
  | none ↦ (minus_one, t, false)
  | some w ↦ if not calloc_ok then (minus_one, t, false) else (pos 0, link_work t w, true)
]

abbrev pub new_pool : ℕ → ThreadPool
new_pool max_thr_num = record {
  shutdown = false;
  max_thr_num = max_thr_num;
  worker_counts = pos 0;
  working_counts = pos 0;
  queue_head = [];
}

-- What the static pointer names. A failed `tpool_create` frees the pool and leaves the pointer to it.
pub data PoolPointer : Type 0 where
  null dangling : PoolPointer
  live : ThreadPool → PoolPointer

-- What the calls of `tpool_create` return; `thread_ok` for each call of pthread_create.
pub record CreateAnswers : Type 0 where
  pub calloc_ok : Bool
  pub queue_lock_ok : Bool
  pub put_lock_ok : Bool
  pub cond_ok : Bool
  pub thr_id_ok : Bool
  pub thread_ok : ℕ → Bool

-- The loop over the threads that are still to be made: whether all were, and how many were.
unfoldable pub create_threads : (ℕ → Bool) → ℕ → ℕ → Bool × ℕ
create_threads thread_ok i zero = (true, i)
create_threads thread_ok i (suc n) =
    let rest = create_threads thread_ok (i + 1) n in if thread_ok i then rest else (false, i)

-- `tpool_create`: what it returns, the pointer, and how many threads it has started.
unfoldable pub tpool_create : CreateAnswers → ℕ → ℤ × PoolPointer × ℕ
unfolding create_threads
tpool_create a max_thr_num =
    if not a.calloc_ok
    then (minus_one, null, 0)
    else if not a.queue_lock_ok
    then (minus_one, dangling, 0)
    else if not a.put_lock_ok
    then (minus_one, dangling, 0)
    else if not a.cond_ok
    then (minus_one, dangling, 0)
    else if not a.thr_id_ok
    then (minus_one, dangling, 0)
    else let made = create_threads a.thread_ok 0 max_thr_num in
      if made.0 then (pos 0, live (new_pool max_thr_num), made.1) else (minus_one, dangling, made.1)

pub data PoolAct : Type 0 where
  broadcast free_thr_id free_pool : PoolAct
  join : ℕ → PoolAct
  free_work : Work → PoolAct

abbrev joins : ℕ → ℕ → List PoolAct
joins i zero = []
joins i (suc n) = join i ∷ joins (i + 1) n

-- `tpool_destroy`: the pool that it shuts down, and its acts; the locks' destruction is left out.
-- The works freed are those that are in the list after the calls of pthread_join, `left`.
unfoldable pub tpool_destroy : ThreadPool → List Work → ThreadPool × List PoolAct
tpool_destroy t left = if t.shutdown then (t, []) else (
  record t { shutdown = true },
  (broadcast ∷ joins 0 t.max_thr_num) ++ ((free_thr_id ∷ map free_work left) ++ (free_pool ∷ [])),
)
