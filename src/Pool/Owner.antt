-- ===== src/Pool/Owner.antt =====
-- Who owns the descriptor of a job that a worker takes from its queue.
use trace_server.Base.{
  ℕ, ◌+◌, ◌<◌, ◌≡◌, refl, ap, ◌∙◌, Bool, true, false, not, ◌&&◌, Option, none, some, List, [], ◌∷◌,
  ◌++◌, if◌then◌else◌, is_some, ◌==◌, get_elem?, set, lt→ltb, append-nil,
}
use trace_server.Base.Int.{ℤ, pos, ◌+ℤ◌, minus_one, pos_part, ltb_ℤ}
use trace_server.Libevent.{Libevent}
use trace_server.Queue.{Queue, Item, Wakeup, item_free, item_get_data}
use trace_server.Queue.Laws.{ltb_ℤ-pos}
use trace_server.Queue.Push.{pop_first}
use trace_server.Client.{Client, Answers, Effect, client_new, socket_close}
use trace_server.Client.Release.{closes, closes-append, socket_close-closes}
use trace_server.Client.Fresh.{has_bufev, Made, client_new-Made}
use trace_server.Pool.{Job, JobLayout, Worker, Tpool, client_wait_count, client_handling_count}
use trace_server.Pool.Events.{settle, make_client, run_hook, worker_add_event}

module _ (J : JobLayout) (L : Libevent) (A : Type 0) (fd : ℕ) (fd_pos : 0 < fd) where
  -- The client that comes of a job, and how often the descriptor is closed meanwhile.
  pub record Owned (t : Tpool) (b enable_ok : Bool) (workers : List Worker)
      (o : Option (Option (Client L A) × Tpool × List (Effect A))) : Type 0 where
    pub client : Option (Client L A)
    pub after : Tpool
    pub effects : List (Effect A)
    pub returned : o ≡ some (client, after, effects)
    pub made : is_some client ≡ (b && enable_ok)
    pub owner : (c : Client L A) → client ≡ some c → c.fd ≡ fd
    pub closed : closes A fd effects ≡ (if b then (if enable_ok then 0 else 2) else 1)
    pub taken : after.workers ≡ workers
    pub waits : after.client_wait_count ≡ t.client_wait_count +ℤ minus_one
    pub handled :
        after.client_handling_count
        ≡ (if is_some client then t.client_handling_count +ℤ pos 1 else t.client_handling_count)

  hook-closes :
      (q : Queue) (item : Item) (job : Job)
      → q.has_free_hook ≡ true
      → item.iov_base ≡ some (J.bytes job)
      → job.connect_fd ≡ pos fd
      → closes A fd (run_hook J L A (item_free (some q) (some item)))
        ≡ (if job.processing then 0 else 1)
  unfolding item_free run_hook
  hook-closes q item job hook base e = rw (hook, base, J.read_job-bytes job, e) (go job.processing)
    where
      go :
          (b : Bool)
          → closes A fd ((if not b then socket_close fd else []) ++ []) ≡ (if b then 0 else 1)
      go true = refl
      go false = rw (append-nil (socket_close {A = A} fd)) (socket_close-closes L A fd fd_pos)

  -- What was closed in vain, and what the free hook closes.
  total_closes :
      (b enable_ok made : Bool) (n k : ℕ)
      → made ≡ (b && enable_ok)
      → n ≡ (if b && not enable_ok then 1 else 0)
      → k ≡ (if made then 0 else 1)
      → n + k ≡ (if b then (if enable_ok then 0 else 2) else 1)
  total_closes false enable_ok made n k m e f = rw (e, f, m) refl
  total_closes true false made n k m e f = rw (e, f, m) refl
  total_closes true true made n k m e f = rw (e, f, m) refl

  module _ (q : Queue) (item : Item) (hook : q.has_free_hook ≡ true) where
    free_job : Job → List (Effect A)
    free_job job =
        run_hook J L A (item_free (some q) (some (record item { iov_base = some (J.bytes job) })))

    settle-Owned :
        (t t' : Tpool) (b enable_ok : Bool) (job : Job) (r : Option (Client L A) × List (Effect A))
        → job.processing ≡ false
        → job.connect_fd ≡ pos fd
        → Made L A fd b enable_ok r
        → t'.client_wait_count ≡ t.client_wait_count +ℤ minus_one
        → t'.client_handling_count ≡ t.client_handling_count
        → let x = settle J L A r job t' in
          Owned t b enable_ok t'.workers (some (x.0, x.2, x.3 ++ free_job x.1))
    unfolding free_job client_handling_count
    settle-Owned t t' b enable_ok job (none, effects) idle e m waits handling = record {
      client = none;
      after = t';
      effects = effects ++ free_job job;
      returned = refl;
      made = m.made;
      owner = λ c h. absurd (cc);
      closed =
          closes-append A fd effects (free_job job)
          ∙ total_closes b enable_ok false (closes A fd effects) (closes A fd (free_job job)) m.made
              m.closed
              (hook-closes q (record item { iov_base = some (J.bytes job) }) job hook refl e
                ∙ rw idle refl);
      taken = refl;
      waits = waits;
      handled = handling;
    }
    settle-Owned t t' b enable_ok job (some c, effects) idle e m waits handling =
        let job' : Job = record job { processing = true } in
        record {
          client = some c;
          after = client_handling_count t' (pos 1);
          effects = effects ++ free_job job';
          returned = refl;
          made = m.made;
          owner = λ c' h. m.same_fd c' h;
          closed =
              closes-append A fd effects (free_job job')
              ∙ total_closes b enable_ok true (closes A fd effects) (closes A fd (free_job job'))
                  m.made m.closed
                  (hook-closes q (record item { iov_base = some (J.bytes job') }) job' hook refl e);
          taken = refl;
          waits = waits;
          handled = ap (λ n. n +ℤ pos 1) handling;
        }

  make_client_lem :
      (a : Answers L A) (w : Worker) (i base : ℕ) (job : Job) (t : Tpool)
      → w.evbase ≡ some base
      → job.connect_fd ≡ pos fd
      → make_client J L A a w i job t
        ≡ settle J L A
            (client_new L A a
              (some base)
              true
              (some i)
              fd
              (not (job.callbacks.timer_callback == 0)))
            job
            t
  unfolding make_client
  make_client_lem a w i base job t has_base e = go w.evbase job.connect_fd has_base e
    where
      go :
          (evbase : Option ℕ) (n : ℤ)
          → evbase ≡ some base
          → n ≡ pos fd
          → (if not (ltb_ℤ (pos 0) n)
              then (none, job, t, [])
              else settle J L A
                  (client_new L A a evbase true
                    (some i)
                    (pos_part n)
                    (not (job.callbacks.timer_callback == 0)))
                  job
                  t)
            ≡ settle J L A
                (client_new L A a
                  (some base)
                  true
                  (some i)
                  fd
                  (not (job.callbacks.timer_callback == 0)))
                job
                t
      go evbase n h e =
          let positive : ltb_ℤ (pos 0) (pos fd) ≡ true = ltb_ℤ-pos 0 fd ∙ lt→ltb 0 fd fd_pos in
          rw (h, e, positive) refl

  -- `_evserver_worker_add_event` of a worker whose queue holds a job for the descriptor `fd`, and whose
  -- free hook is set, takes the first job from the queue without a wait and lowers `client_wait_count`.
  -- If every call of `evserver_client_new` succeeds, there is a client for `fd`, `client_handling_count`
  -- goes up and `fd` stays open. Otherwise there is none and `client_handling_count` stays; `fd` is closed
  -- once, but twice where bufferevent_enable is the call that failed, since the bufferevent closes it too.
  pub worker_add_event-Owned :
      (a : Answers L A) (ws : List Wakeup) (t : Tpool) (i base : ℕ) (w : Worker) (q : Queue)
      (item : Item) (items : List Item) (job : Job)
      → get_elem? t.workers i ≡ some w
      → w.queue ≡ some q
      → w.evbase ≡ some base
      → q.has_free_hook ≡ true
      → q.head ≡ item ∷ items
      → item.iov_base ≡ some (J.bytes job)
      → job.connect_fd ≡ pos fd
      → Owned t
          (has_bufev L A a (not (job.callbacks.timer_callback == 0)))
          a.enable_ok
          (set t.workers i
            (record w { queue = some (record q { head = items; depth = q.depth +ℤ minus_one }) }))
          (worker_add_event J L A a ws t i)
  unfolding worker_add_event client_wait_count item_get_data item_free free_job
  worker_add_event-Owned a ws t i base w q item items job at has_queue has_base hook first bytes e =
      let q' : Queue = record q { head = items; depth = q.depth +ℤ minus_one } in
      let t' : Tpool =
        client_wait_count (record t { workers = set t.workers i (record w { queue = some q' }) })
          minus_one in
      let job' : Job = record job { processing = false } in
      rw
        (
          at,
          has_queue,
          pop_first ws q item items first,
          bytes,
          J.read_job-bytes job,
          make_client_lem a w i base job' t' has_base e,
        )
        (settle-Owned q' item hook t t' (has_bufev L A a (not (job.callbacks.timer_callback == 0)))
          a.enable_ok job'
          (client_new L A a (some base) true (some i) fd (not (job.callbacks.timer_callback == 0)))
          refl e (client_new-Made L A a base i fd (not (job.callbacks.timer_callback == 0)) fd_pos)
          refl refl)
