-- ===== src/ThreadPool/Invariant.antt =====
-- What holds in every state of the thread pool that can be reached.
use trace_server.Base.{
  ℕ, ◌+◌, ◌≤◌, ◌<◌, ◌≡◌, refl, sym, ap, ◌∙◌, false, some, List, [], ◌∷◌, ◌++◌, length, get_elem?,
  set, length-set, get_elem?-set_self, get_elem?-lt, append_assoc, arith, length-replicate,
}
use trace_server.Base.Int.{pos}
use trace_server.ThreadPool.{ThreadPool, Pc, starting, at_lock, waiting, thread_step, link_work}
use trace_server.ThreadPool.Count.{
  count, is_working, is_begun, is_exited, is_awake, count-set, le-count, count-le, count-starting,
  count-wake, length-wake, total_lem, awake-wake,
}
use trace_server.ThreadPool.System.{
  System, held, Step, thread, call, link, signal, signal_none, shut, wake_all, Reach, start, later,
}
use trace_server.ThreadPool.Stepped.{Stepped, thread_step-Stepped}

pub record Inv (n : ℕ) (s : System) : Type 0 where
  pub order : s.linked ≡ s.taken ++ s.pool.queue_head
  pub size : length s.threads ≡ n
  pub max : s.pool.max_thr_num ≡ n
  pub working : s.pool.working_counts ≡ pos (count is_working s.threads)
  pub begun : s.pool.worker_counts ≡ pos (count is_begun s.threads)
  pub no_exit : s.pool.shutdown ≡ false → count is_exited s.threads ≡ 0
  pub awake :
      s.pool.shutdown ≡ false
      → 0 < length s.pool.queue_head
      → 0 < n
      → 0 < s.signalling + count is_awake s.threads

-- A thread that waits is put at the lock.
module _ (ps : List Pc) (i : ℕ) (e : get_elem? ps i ≡ some waiting) where
  woken : (w : Pc → ℕ) → w waiting ≡ w at_lock → count w (set ps i at_lock) ≡ count w ps
  woken w h = omega (arith, h, count-set w ps i waiting at_lock e)

  woken_awake : 0 < count is_awake (set ps i at_lock)
  woken_awake = omega (arith, count-set is_awake ps i waiting at_lock e)

thread-Inv :
    (n : ℕ) (s : System) (i : ℕ) (p : Pc) (t' : ThreadPool) (p' : Pc)
    → Inv n s
    → get_elem? s.threads i ≡ some p
    → Stepped s.pool p t' p'
    → Inv n (record s { pool = t'; threads = set s.threads i p'; taken = s.taken ++ held p' })
thread-Inv n s i p t' p' h e st =
    let moves = λ (w : Pc → ℕ). count-set w s.threads i p p' e in
    let lt = get_elem?-lt s.threads i p e in
    let at = get_elem?-set_self s.threads i p' lt in
    let gone : s.pool.shutdown ≡ false → count is_exited (set s.threads i p') ≡ 0 = λ up.
      omega
        (arith, moves is_exited, h.no_exit up, st.exits up, le-count is_exited s.threads i p e) in
    record {
      order =
          h.order
          ∙ ap (λ xs. s.taken ++ xs) (sym st.order)
          ∙ sym (append_assoc s.taken (held p') t'.queue_head);
      size = length-set s.threads i p' ∙ h.size;
      max = st.max ∙ h.max;
      working =
          st.working (count is_working s.threads) (count is_working (set s.threads i p')) h.working
            (moves is_working);
      begun =
          st.begun (count is_begun s.threads) (count is_begun (set s.threads i p')) h.begun
            (moves is_begun);
      no_exit = λ up. gone (sym st.same_shutdown ∙ up);
      awake = λ up more some_thread.
          let up' = sym st.same_shutdown ∙ up in
          let stays : is_exited p' ≡ 0 =
            omega (arith, gone up', le-count is_exited (set s.threads i p') i p' at) in
          omega (arith, st.awake more up' stays, le-count is_awake (set s.threads i p') i p' at);
    }

Step-Inv : {n : ℕ} {s t : System} → Step s t → Inv n s → Inv n t
unfolding link_work
Step-Inv {n} {s} (thread i p e) h =
    thread-Inv n s i p (thread_step s.pool p).0 (thread_step s.pool p).1 h e
      (thread_step-Stepped s.pool p)
Step-Inv (call work free) h = record {
  order = h.order;
  size = h.size;
  max = h.max;
  working = h.working;
  begun = h.begun;
  no_exit = h.no_exit;
  awake = h.awake;
}
Step-Inv {n} {s} (link before after work e) h = record {
  order = ap (λ xs. xs ++ (work ∷ [])) h.order ∙ append_assoc s.taken s.pool.queue_head (work ∷ []);
  size = h.size;
  max = h.max;
  working = h.working;
  begun = h.begun;
  no_exit = h.no_exit;
  awake = λ _ _ _. omega arith;
}
Step-Inv {n} {s} (signal i k e at) h = record {
  order = h.order;
  size = length-set s.threads i at_lock ∙ h.size;
  max = h.max;
  working = h.working ∙ ap pos (sym (woken s.threads i at is_working refl));
  begun = h.begun ∙ ap pos (sym (woken s.threads i at is_begun refl));
  no_exit = λ up. woken s.threads i at is_exited refl ∙ h.no_exit up;
  awake = λ _ _ _. omega (arith, woken_awake s.threads i at);
}
Step-Inv {n} {s} (signal_none k e none_waits) h = record {
  order = h.order;
  size = h.size;
  max = h.max;
  working = h.working;
  begun = h.begun;
  no_exit = h.no_exit;
  awake = λ up _ some_thread. omega (arith, total_lem s.threads, h.no_exit up, none_waits, h.size);
}
Step-Inv shut h = record {
  order = h.order;
  size = h.size;
  max = h.max;
  working = h.working;
  begun = h.begun;
  no_exit = λ up. absurd (cc);
  awake = λ up. absurd (cc);
}
Step-Inv {n} {s} wake_all h = record {
  order = h.order;
  size = length-wake s.threads ∙ h.size;
  max = h.max;
  working = h.working ∙ ap pos (sym (count-wake is_working refl s.threads));
  begun = h.begun ∙ ap pos (sym (count-wake is_begun refl s.threads));
  no_exit = λ up. count-wake is_exited refl s.threads ∙ h.no_exit up;
  awake = λ up more some_thread. omega (arith, h.awake up more some_thread, awake-wake s.threads);
}

Reach-Inv : {n : ℕ} {s : System} → Reach n s → Inv n s
Reach-Inv {n} start = record {
  order = refl;
  size = length-replicate n starting;
  max = refl;
  working = ap pos (sym (count-starting is_working refl n));
  begun = ap pos (sym (count-starting is_begun refl n));
  no_exit = λ _. count-starting is_exited refl n;
  awake = λ _ none. absurd (omega arith);
}
Reach-Inv (later r st) = Step-Inv st (Reach-Inv r)

-- In every state that a pool of `n` threads can reach, the works that calls of `tpool_add_work` linked
-- into the list are, in the order of the linking, those that threads took and those that are still in
-- the list: none is lost, none is taken twice, and they are taken in their order.
pub Reach-order : (n : ℕ) (s : System) → Reach n s → s.linked ≡ s.taken ++ s.pool.queue_head
Reach-order n s r = (Reach-Inv r).order

-- In every state that a pool of `n` threads can reach, `working_counts` is the number of the threads
-- between the two lines of `thread_routine` that count, never below 0 nor above `max_thr_num`, and
-- `worker_counts` is the number of the threads that have begun, at most `max_thr_num`.
pub Reach-counts :
    (n : ℕ) (s : System)
    → Reach n s
    → (s.pool.working_counts ≡ pos (count is_working s.threads))
      × (count is_working s.threads ≤ s.pool.max_thr_num)
      × (s.pool.worker_counts ≡ pos (count is_begun s.threads))
      × (count is_begun s.threads ≤ s.pool.max_thr_num)
Reach-counts n s r =
    let h = Reach-Inv r in
    (
      h.working,
      omega (arith, h.size, h.max, count-le is_working (λ p. at_most_one p) s.threads),
      h.begun,
      omega (arith, h.size, h.max, count-le is_begun (λ p. begun_at_most_one p) s.threads),
    )
  where
    at_most_one : (p : Pc) → is_working p ≤ 1
    at_most_one starting = omega arith
    at_most_one p = ground arith

    begun_at_most_one : (p : Pc) → is_begun p ≤ 1
    begun_at_most_one starting = omega arith
    begun_at_most_one p = ground arith

-- No wakeup is lost: in every state that a pool of at least one thread can reach, while it is not shut
-- down and a work is in the list, not all threads wait unless a call of `tpool_add_work` has still to
-- signal `queue_ready`.
pub Reach-awake :
    (n : ℕ) (s : System)
    → 0 < n
    → Reach n s
    → s.pool.shutdown ≡ false
    → 0 < length s.pool.queue_head
    → 0 < s.signalling + count is_awake s.threads
Reach-awake n s some_thread r up more = (Reach-Inv r).awake up more some_thread
