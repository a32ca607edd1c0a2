-- ===== src/Pool.antt =====
-- src/event_server_worker.c and src/event_server_tpool.c: the workers and the jobs that the pool hands to
-- them. The pool that the static pointer names is `Tpool`, or NULL before it is made; `workers` of a pool
-- that is made is not NULL. How a job lies in memory is a parameter (`JobLayout`). What a call does
-- outside the pool is a list of acts, in order.
pub mod Layout
pub mod Dispatch
pub mod Turns
pub mod Setup
pub mod Events
pub mod Owner
pub mod Ready
mod Tests
mod WorkerTests
use trace_server.Base.{
  ℕ, zero, suc, ◌+◌, ◌%◌, ◌^◌, ◌≡◌, Bool, true, false, not, ◌||◌, ◌&&◌, Option, none, some, List,
  [], ◌∷◌, ◌++◌, ltb, if◌then◌else◌, ◌>>=◌, length, get_elem?, set, map,
}
use trace_server.Base.Int.{ℤ, pos, ◌+ℤ◌, ltb_ℤ, minus_one}
use trace_server.Queue.{Queue, Item, Act, Wakeup, item_alloc, item_free, queue_push}

-- The addresses of the functions that a job carries.
pub record Callbacks : Type 0 where
  pub timer_callback : ℕ
  pub read_callback : ℕ
  pub write_callback : ℕ
  pub error_callback : ℕ

-- `worker_callback` is always NULL.
pub record Job : Type 0 where
  pub connect_fd : ℤ
  pub processing : Bool
  pub callbacks : Callbacks

-- `sizeof` a job, its bytes, and the job that bytes are.
pub record JobLayout : Type 0 where
  pub size : ℕ
  pub bytes : Job → List ℕ
  pub length-bytes : (j : Job) → length (bytes j) ≡ size
  pub read_job : List ℕ → Job
  pub read_job-bytes : (j : Job) → read_job (bytes j) ≡ j

-- `evbase` is NULL or a number; the thread's id, the event and the lock are left out.
pub record Worker : Type 0 where
  pub read_fd : ℤ
  pub write_fd : ℤ
  pub evbase : Option ℕ
  pub tpool_index : ℕ
  pub queue : Option Queue
  pub create_by_malloc : Bool

pub record Tpool : Type 0 where
  pub workers : List Worker
  pub worker_size : ℕ
  pub working_count : ℤ
  pub current_worker : ℕ
  pub client_wait_count : ℤ
  pub client_handling_count : ℤ

pub data PoolAct : Type 0 where
  queue_act : Act → PoolAct
  -- send(worker->write_fd, " ", 1, 0);
  notify : ℤ → PoolAct

-- `_evserver_worker_job_init`: the job afterwards; without a valid descriptor it stays as it was.
unfoldable pub job_init : Job → ℤ → Callbacks → Job
job_init job connect_fd cb =
    if ltb_ℤ (pos 0) connect_fd
    then record { connect_fd = connect_fd; processing = false; callbacks = cb }
    else job

unfoldable pub working_count : Tpool → ℤ → Tpool
working_count t c = record t { working_count = t.working_count +ℤ c }

unfoldable pub client_wait_count : Tpool → ℤ → Tpool
client_wait_count t c = record t { client_wait_count = t.client_wait_count +ℤ c }

unfoldable pub client_handling_count : Tpool → ℤ → Tpool
client_handling_count t c = record t { client_handling_count = t.client_handling_count +ℤ c }

-- `evserver_worker_add_job` of the pool's worker at `i`, with what the allocations return, the job as it
-- lies on the stack, and the wakeups of a wait in `queue_push`.
unfoldable pub worker_add_job :
    JobLayout
    → Bool
    → Bool
    → Job
    → List Wakeup
    → Tpool
    → ℕ
    → ℤ
    → Callbacks
    → Option (Bool × Tpool × List PoolAct)
unfolding job_init client_wait_count
worker_add_job L calloc_ok dup_ok stack ws t i client_fd cb = do
  worker ← get_elem? t.workers i
  if ltb_ℤ client_fd (pos 0) || not (ltb_ℤ (pos 0) worker.write_fd)
      then some (false, t, [])
      else elim worker.queue [
        | none ↦ some (false, t, [])
        | some q ↦ do
          item ← item_alloc calloc_ok dup_ok (some q) (L.bytes (job_init stack client_fd cb)) L.size
          elim item [
            | none ↦ some (false, t, [])
            | some it ↦ do
              (ret, q', acts) ← queue_push ws (some q) (some it)
              let t' : Tpool = record t {
                workers = set t.workers i (record worker { queue = q' });
              } in
                  if ltb_ℤ ret (pos 0)
                  then some (false, t', map queue_act (acts ++ item_free q' (some it)))
                  else some (
                    true,
                    client_wait_count t' (pos 1),
                    map queue_act acts ++ (notify worker.write_fd ∷ []),
                  )
          ]
      ]

-- `evserver_tpool_add_job`; `current_worker` is an `unsigned int`.
unfoldable pub tpool_add_job :
    JobLayout
    → Bool
    → Bool
    → Job
    → List Wakeup
    → Option Tpool
    → ℤ
    → Callbacks
    → Option (Bool × Option Tpool × List PoolAct)
unfolding worker_add_job
tpool_add_job L calloc_ok dup_ok stack ws none client_fd cb = some (false, none, [])
tpool_add_job L calloc_ok dup_ok stack ws (some t) client_fd cb =
    if not (ltb_ℤ (pos 0) client_fd) then some (false, some t, []) else do
      let worker_index = t.current_worker % t.worker_size
      let t' : Tpool = record t { current_worker = (t.current_worker + 1) % 2 ^ 32 }
      (ret, after, acts) ← worker_add_job L calloc_ok dup_ok stack ws t' worker_index client_fd cb
      some (ret, some after, acts)
