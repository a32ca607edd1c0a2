-- ===== src/Pool/Dispatch.antt =====
-- How `evserver_tpool_add_job` hands a job to the workers in turn.
use trace_server.Base.{
  ℕ, ◌+◌, ◌%◌, ◌^◌, ◌<◌, ◌≤◌, ◌≡◌, ◌≢◌, refl, sym, ap, subst, ◌∙◌, Bool, true, false, Option, none,
  some, List, [], ◌∷◌, ◌++◌, arith, take-length, length, get_elem?, set, map, length-set,
  get_elem?-set_self, get_elem?-set_ne, get_elem?_lem, Bool-cases, inl, inr, ◌==◌,
}
use trace_server.Base.Int.{ℤ, pos, negsuc, ◌+ℤ◌, ltb_ℤ}
use native.Mathlib.Nat.{mod-lt}
use mathlib.Core.Option.{some-injective}
use trace_server.Libc.{read}
use trace_server.Libc.Laws.{read_lem}
use trace_server.Queue.{Queue, Item, Act, Wakeup, memdup, item_alloc, queue_push}
use trace_server.Queue.Laws.{IsQueue, freed}
use trace_server.Queue.Push.{Pushed, queue_push-Pushed}
use trace_server.Pool.{
  Callbacks, Job, JobLayout, Worker, Tpool, PoolAct, queue_act, notify, job_init, client_wait_count,
  worker_add_job, tpool_add_job,
}

-- A worker that can take jobs: its descriptor is open and its queue holds at most `m` items.
pub record IsReady (m : ℕ) (w : Worker) : Type 0 where
  pub write_pos : ltb_ℤ (pos 0) w.write_fd ≡ true
  pub q : Queue
  pub has_queue : w.queue ≡ some q
  pub is_queue : IsQueue q
  pub max : q.max_depth ≡ pos m
  pub bound : length q.head ≤ m
  pub no_hook : q.alloc_hook ≡ none

pub record IsPool (m : ℕ) (t : Tpool) : Type 0 where
  pub size_eq : t.worker_size ≡ length t.workers
  pub size_pos : 0 < t.worker_size
  pub ready : (i : ℕ) (w : Worker) → get_elem? t.workers i ≡ some w → IsReady m w

pub not_negative : (fd : ℤ) → ltb_ℤ (pos 0) fd ≡ true → ltb_ℤ fd (pos 0) ≡ false
not_negative (pos n) h = ground arith
not_negative (negsuc n) h = ground arith

module _ (L : JobLayout) (stack : Job) (ws : List Wakeup) (cb : Callbacks) (m : ℕ)
    (m_pos : 0 < m) where
  abbrev new_job : ℤ → Job
  new_job fd = record { connect_fd = fd; processing = false; callbacks = cb }

  abbrev pub job_item : ℤ → Item
  job_item fd = record { iov_base = some (L.bytes (new_job fd)); iov_len = L.size }

  item_alloc_lem :
      (q : Queue) (fd : ℤ)
      → q.alloc_hook ≡ none
      → item_alloc true true (some q) (L.bytes (new_job fd)) L.size ≡ some (some (job_item fd))
  unfolding item_alloc memdup
  item_alloc_lem q fd e =
      let bytes : List ℕ = L.bytes (new_job fd) in
      let size : L.size ≡ length bytes = sym (L.length-bytes (new_job fd)) in
      let copied : read bytes 0 L.size ≡ some bytes =
        ap (read bytes 0) size
        ∙ read_lem bytes 0 (length bytes) (omega arith)
        ∙ ap some (take-length bytes) in
      rw (e, copied) refl

  worker_add_job_lem :
      (t : Tpool) (i : ℕ) (w : Worker) (fd : ℤ)
      → get_elem? t.workers i ≡ some w
      → (r : IsReady m w) → ltb_ℤ (pos 0) fd ≡ true
      → (p : Pushed r.q m (job_item fd) (queue_push ws (some r.q) (some (job_item fd))))
      → worker_add_job L true true stack ws t i fd cb
        ≡ some (
          true,
          client_wait_count
              (record t { workers = set t.workers i (record w { queue = some p.after }) })
              (pos 1),
          map queue_act p.acts ++ (notify w.write_fd ∷ []),
        )
  unfolding worker_add_job job_init
  worker_add_job_lem t i w fd at r fd_pos p =
      rw
        (
          at,
          not_negative fd fd_pos,
          r.write_pos,
          r.has_queue,
          fd_pos,
          item_alloc_lem r.q fd r.no_hook,
          p.returned,
        )
        refl

  -- The worker whose turn it is, its queue, and the pool after the call.
  pub record Dispatched (t : Tpool) (fd : ℤ) (o : Option (Bool × Option Tpool × List PoolAct))
      : Type 0 where
    pub worker : Worker
    pub q : Queue
    pub q_after : Queue
    pub after : Tpool
    pub acts : List Act
    pub chosen : get_elem? t.workers (t.current_worker % t.worker_size) ≡ some worker
    pub has_queue : worker.queue ≡ some q
    pub returned : o ≡ some (true, some after, map queue_act acts ++ (notify worker.write_fd ∷ []))
    pub next_turn : after.current_worker ≡ (t.current_worker + 1) % 2 ^ 32
    pub others :
        after.workers
        ≡ set t.workers (t.current_worker % t.worker_size) (record worker { queue = some q_after })
    pub conserved : freed acts ++ q_after.head ≡ q.head ++ (job_item fd ∷ [])
    pub none_lost : length q.head < m → freed acts ≡ []
    pub counted : after.client_wait_count ≡ t.client_wait_count +ℤ pos 1
    pub same_size : after.worker_size ≡ t.worker_size
    pub is_pool : IsPool m after

  IsReady-set :
      (t : Tpool) (i : ℕ) (v : Worker)
      → IsPool m t
      → i < length t.workers
      → IsReady m v
      → (j : ℕ) (w : Worker) → get_elem? (set t.workers i v) j ≡ some w
      → IsReady m w
  IsReady-set t i v h lt r j w e = elim (Bool-cases (i == j)) [
    | inl same ↦
        let ij : i ≡ j = ground arith in
        subst (IsReady m)
          (some-injective v w
            (sym (get_elem?-set_self t.workers i v lt) ∙ ap (get_elem? (set t.workers i v)) ij ∙ e))
          r
    | inr other ↦
        let ij : i ≢ j = ground arith in h.ready j w (sym (get_elem?-set_ne t.workers i j v ij) ∙ e)
  ]

  -- `evserver_tpool_add_job` of a valid descriptor, in a pool of at least one worker all of which have an
  -- open notification socket and a queue of at most `m` jobs, returns true when its allocations succeed.
  -- The job goes to the worker whose turn it is, the next call's turn is the worker behind it, and no other
  -- worker changes. The jobs that the call frees and those that the worker's queue then holds are, in this
  -- order, the old ones and the new one, none is lost where there was room, the worker is notified,
  -- `client_wait_count` goes up by one even when jobs were freed, and the pool is again such a pool.
  pub tpool_add_job-Dispatched :
      (t : Tpool) (fd : ℤ)
      → IsPool m t
      → ltb_ℤ (pos 0) fd ≡ true
      → Dispatched t fd (tpool_add_job L true true stack ws (some t) fd cb)
  unfolding tpool_add_job client_wait_count
  tpool_add_job-Dispatched t fd h fd_pos =
      let i : ℕ = t.current_worker % t.worker_size in
      let lt : i < length t.workers =
        subst (λ n. i < n) h.size_eq (mod-lt t.current_worker h.size_pos) in
      let (w, at) = get_elem?_lem t.workers i lt in
      let r : IsReady m w = h.ready i w at in
      let p = queue_push-Pushed ws r.q m (job_item fd) r.is_queue r.max m_pos r.bound in
      let t' : Tpool = record t { current_worker = (t.current_worker + 1) % 2 ^ 32 } in
      let w' : Worker = record w { queue = some p.after } in
      record {
        worker = w;
        q = r.q;
        q_after = p.after;
        after = client_wait_count (record t' { workers = set t.workers i w' }) (pos 1);
        acts = p.acts;
        chosen = at;
        has_queue = r.has_queue;
        returned = rw (fd_pos, worker_add_job_lem t' i w fd at r fd_pos p) refl;
        next_turn = refl;
        others = refl;
        conserved = p.conserved;
        none_lost = p.untouched;
        counted = refl;
        same_size = refl;
        is_pool = record {
          size_eq = h.size_eq ∙ sym (length-set t.workers i w');
          size_pos = h.size_pos;
          ready = IsReady-set t i w' h lt (record {
            write_pos = r.write_pos;
            q = p.after;
            has_queue = refl;
            is_queue = p.is_queue;
            max = p.same_depth ∙ r.max;
            bound = p.bounded;
            no_hook = p.same_hook ∙ r.no_hook;
          });
        };
      }
