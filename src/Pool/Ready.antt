-- ===== src/Pool/Ready.antt =====
-- The pool as it is set up can take jobs.
use trace_server.Base.{
  ℕ, zero, suc, ◌+◌, ◌<◌, ◌≡◌, refl, sym, ap, ◌∙◌, Bool, true, false, not, ◌&&◌, Option, none, some,
  List, [], ◌∷◌, arith, if◌then◌else◌, ltb, get_elem?, length, lt→ltb, ◌^◌, Bool-cases, inl, inr,
  subst,
}
use mathlib.Core.Option.{some-injective}
use trace_server.Base.Int.{ℤ, pos, ltb_ℤ}
use trace_server.Queue.{queue_create, queue_set_depth, queue_set_hook}
use trace_server.Pool.{Worker, Tpool}
use trace_server.Pool.Dispatch.{IsReady, IsPool}
use trace_server.Pool.Setup.{
  WorkerAnswers, worker_init, init_workers, fresh_pool, tpool_new, SetupAct, free_tpool, tpool_free,
}

-- evutil_socketpair gives a descriptor that is positive.
abbrev pub IsOpenPair : WorkerAnswers → Type 0
IsOpenPair a = (fd0 fd1 : ℤ) → a.pair ≡ some (fd0, fd1) → ltb_ℤ (pos 0) fd0 ≡ true

-- What a worker holds that was set up whole: both ends of its pair, and an event base with the event on it.
pub record IsSetUp (a : WorkerAnswers) (w : Worker) : Type 0 where
  pub pair_eq : a.pair ≡ some (w.write_fd, w.read_fd)
  pub base : ℕ
  pub evbase_eq : w.evbase ≡ some base
  pub base_eq : a.evbase ≡ some base
  pub assigned : a.event_assign_ok ≡ true
  pub added : a.event_add_ok ≡ true

worker_init-IsReady :
    (a : WorkerAnswers) (n : ℕ)
    → IsOpenPair a
    → n < 2 ^ 31
    → (worker_init a n).0 ≡ true
    → IsReady n (worker_init a n).1
unfolding worker_init queue_create queue_set_depth queue_set_hook
worker_init-IsReady a n open_pair small ok = go a.queue_ok a.pair open_pair ok
  where
    go :
        (queue_ok : Bool) (pair : Option (ℤ × ℤ))
        → ((fd0 fd1 : ℤ) → pair ≡ some (fd0, fd1) → ltb_ℤ (pos 0) fd0 ≡ true)
        → (worker_init (record a { queue_ok = queue_ok; pair = pair }) n).0 ≡ true
        → IsReady n (worker_init (record a { queue_ok = queue_ok; pair = pair }) n).1
    go false pair h ok = absurd (cc)
    go true none h ok = absurd (cc)
    go true (some (fd0, fd1)) h ok = record {
      write_pos = h fd0 fd1 refl;
      q = _;
      has_queue = refl;
      is_queue = record { depth_eq = refl };
      max = rw (lt→ltb n (2 ^ 31) small) refl;
      bound = omega arith;
      no_hook = refl;
    }

worker_init-IsSetUp :
    (a : WorkerAnswers) (n : ℕ) → (worker_init a n).0 ≡ true → IsSetUp a (worker_init a n).1
unfolding worker_init queue_create
worker_init-IsSetUp a n ok = go a.queue_ok a.pair a.evbase a.event_assign_ok a.event_add_ok ok
  where
    go :
        (queue_ok : Bool) (pair : Option (ℤ × ℤ)) (evbase : Option ℕ) (assign_ok add_ok : Bool)
        → let b : WorkerAnswers = record {
          queue_ok = queue_ok;
          pair = pair;
          evbase = evbase;
          event_assign_ok = assign_ok;
          event_add_ok = add_ok;
        } in
          (worker_init b n).0 ≡ true → IsSetUp b (worker_init b n).1
    go false pair evbase assign_ok add_ok ok = absurd (cc)
    go true none evbase assign_ok add_ok ok = absurd (cc)
    go true (some fds) none assign_ok add_ok ok = absurd (cc)
    go true (some fds) (some b) false add_ok ok = absurd (cc)
    go true (some fds) (some b) true false ok = absurd (cc)
    go true (some (fd0, fd1)) (some b) true true ok = record {
      pair_eq = refl;
      base = b;
      evbase_eq = refl;
      base_eq = refl;
      assigned = refl;
      added = refl;
    }

-- All workers of an array, the first of them number `i`, can take jobs and were set up whole.
abbrev AllReady : (ℕ → WorkerAnswers) → ℕ → ℕ → List Worker → Type 0
AllReady answers n i ws =
    (j : ℕ) (w : Worker) → get_elem? ws j ≡ some w → IsReady n w × IsSetUp (answers (i + j)) w

init_workers-AllReady :
    (answers : ℕ → WorkerAnswers) (n i k : ℕ)
    → ((j : ℕ) → IsOpenPair (answers j))
    → n < 2 ^ 31
    → (init_workers answers n i k).0 ≡ true
    → (length (init_workers answers n i k).1 ≡ k)
      × AllReady answers n i (init_workers answers n i k).1
unfolding init_workers
init_workers-AllReady answers n i zero open_pairs small ok = (refl, λ j w e. absurd (cc))
init_workers-AllReady answers n i (suc k) open_pairs small ok =
    elim (Bool-cases (worker_init (answers i) n).0) [
      | inl made ↦
          let rest_ok : (init_workers answers n (i + 1) k).0 ≡ true = sym (rw made refl) ∙ ok in
          let rest = init_workers-AllReady answers n (i + 1) k open_pairs small rest_ok in
          rw made (
            ap suc rest.0,
            cons (worker_init (answers i) n).1 (init_workers answers n (i + 1) k).1
                (
                  worker_init-IsReady (answers i) n (open_pairs i) small made,
                  worker_init-IsSetUp (answers i) n made,
                )
                rest.1,
          )
      | inr unmade ↦ absurd (let e : false ≡ true = sym (rw unmade refl) ∙ ok in cc)
    ]
  where
    cons :
        (w : Worker) (ws : List Worker)
        → IsReady n w × IsSetUp (answers i) w
        → AllReady answers n (i + 1) ws
        → AllReady answers n i (w ∷ ws)
    cons w ws h t zero w' e =
        let same : i ≡ i + 0 = omega arith in
        subst (λ m. IsReady n w' × IsSetUp (answers m) w') same
          (subst (λ v. IsReady n v × IsSetUp (answers i) v) (some-injective w w' e) h)
    cons w ws h t (suc j) w' e =
        let same : i + 1 + j ≡ i + suc j = omega arith in
        subst (λ m. IsReady n w' × IsSetUp (answers m) w') same (t j w' e)

-- `_evserver_tpool_new` that returns a pool, of `worker_size` workers with queues of at most `queue_size`
-- jobs, returns one in which every worker can take jobs and whose first turn is worker 0's, as
-- `evserver_tpool_add_job` wants it: if each pair that evutil_socketpair gave is open, and `queue_size` is
-- below 2^31, as it becomes an `int`. No worker is half set up then: each has the two descriptors of its
-- own pair and its own event base, on which its event was assigned and added.
pub tpool_new-IsPool :
    (calloc_ok workers_ok : Bool) (answers : ℕ → WorkerAnswers) (worker_size queue_size : ℕ)
    (t : Tpool)
    → ((i : ℕ) → IsOpenPair (answers i))
    → queue_size < 2 ^ 31
    → (tpool_new calloc_ok workers_ok answers worker_size queue_size).0 ≡ some t
    → IsPool queue_size t
      × (t.worker_size ≡ worker_size)
      × (t.current_worker ≡ 0)
      × ((i : ℕ) (w : Worker) → get_elem? t.workers i ≡ some w → IsSetUp (answers i) w)
unfolding tpool_new
tpool_new-IsPool calloc_ok workers_ok answers worker_size queue_size t open_pairs small made =
    let r = init_workers answers queue_size 0 worker_size in
    go (ltb 0 worker_size && ltb 0 queue_size) calloc_ok workers_ok r.0 r.1 (λ e. ground arith)
      (init_workers-AllReady answers queue_size 0 worker_size open_pairs small) made
  where
    IsWhole : Tpool → Type 0
    IsWhole p =
        IsPool queue_size p
        × (p.worker_size ≡ worker_size)
        × (p.current_worker ≡ 0)
        × ((i : ℕ) (w : Worker) → get_elem? p.workers i ≡ some w → IsSetUp (answers i) w)

    go :
        (sizes calloc_ok workers_ok all_made : Bool) (ws : List Worker)
        → (sizes ≡ true → 0 < worker_size)
        → (all_made ≡ true → (length ws ≡ worker_size) × AllReady answers queue_size 0 ws)
        → (let p : Tpool = fresh_pool ws worker_size in
            let o : Option Tpool × List SetupAct =
              if not sizes
              then (none, [])
              else if not calloc_ok
              then (none, [])
              else if not workers_ok
              then (none, free_tpool ∷ [])
              else if all_made
              then (some p, [])
              else (none, tpool_free p) in
            o.0 ≡ some t)
        → IsWhole t
    go false calloc_ok workers_ok all_made ws pos_size all made = absurd (cc)
    go true false workers_ok all_made ws pos_size all made = absurd (cc)
    go true true false all_made ws pos_size all made = absurd (cc)
    go true true true false ws pos_size all made = absurd (cc)
    go true true true true ws pos_size all made =
        let is_t : fresh_pool ws worker_size ≡ t =
          some-injective (fresh_pool ws worker_size) t made in
        let (len, ready) = all refl in
        subst IsWhole is_t (
          record { size_eq = sym len; size_pos = pos_size refl; ready = λ i w e. (ready i w e).0 },
          refl,
          refl,
          λ i w e.
              let same : 0 + i ≡ i = omega arith in
              subst (λ m. IsSetUp (answers m) w) same (ready i w e).1,
        )
