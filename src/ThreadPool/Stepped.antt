-- ===== src/ThreadPool/Stepped.antt =====
-- What one step of a thread of src/threadpool.c does to the pool, whatever it finds.
use trace_server.Base.{
  ℕ, ◌+◌, ◌≤◌, ◌<◌, ◌≡◌, refl, sym, ap, ◌∙◌, Bool, true, false, List, [], ◌∷◌, ◌++◌, length, arith,
  if◌then◌else◌,
}
use trace_server.Base.Int.{ℤ, pos, ◌+ℤ◌, minus_one}
use trace_server.ThreadPool.{
  Work, ThreadPool, Pc, starting, at_lock, waiting, holding, running, returned, exited, thread_step,
}
use trace_server.ThreadPool.Count.{is_working, is_begun, is_exited, is_awake}
use trace_server.ThreadPool.System.{held}

-- What one step of a thread does to the pool.
pub record Stepped (t : ThreadPool) (p : Pc) (t' : ThreadPool) (p' : Pc) : Type 0 where
  pub order : held p' ++ t'.queue_head ≡ t.queue_head
  pub max : t'.max_thr_num ≡ t.max_thr_num
  pub same_shutdown : t'.shutdown ≡ t.shutdown
  pub working :
      (c c' : ℕ)
      → t.working_counts ≡ pos c
      → c' + is_working p ≡ c + is_working p'
      → t'.working_counts ≡ pos c'
  pub begun :
      (c c' : ℕ)
      → t.worker_counts ≡ pos c
      → c' + is_begun p ≡ c + is_begun p'
      → t'.worker_counts ≡ pos c'
  pub exits : t.shutdown ≡ false → is_exited p' ≤ is_exited p
  pub awake : 0 < length t'.queue_head → t.shutdown ≡ false → is_exited p' ≡ 0 → is_awake p' ≡ 1

-- A step that leaves the pool alone and passes no count.
moved :
    (t : ThreadPool) (p p' : Pc)
    → held p' ≡ []
    → is_working p ≡ is_working p'
    → is_begun p ≡ is_begun p'
    → (t.shutdown ≡ false → is_exited p' ≤ is_exited p)
    → (0 < length t.queue_head → t.shutdown ≡ false → is_exited p' ≡ 0 → is_awake p' ≡ 1)
    → Stepped t p t p'
moved t p p' no_work same_working same_begun exits awake = record {
  order = ap (λ xs. xs ++ t.queue_head) no_work;
  max = refl;
  same_shutdown = refl;
  working = λ c c' h k. h ∙ ap pos (omega arith);
  begun = λ c c' h k. h ∙ ap pos (omega arith);
  exits = exits;
  awake = awake;
}

-- The step under the lock, by what it finds.
locked :
    (t : ThreadPool) (b : Bool) (works : List Work)
    → t.shutdown ≡ b
    → t.queue_head ≡ works
    → let r : ThreadPool × Pc = if b then (t, exited) else elim works [
      | [] ↦ (t, waiting)
      | work ∷ rest ↦ (record t { queue_head = rest }, holding work)
    ] in
      Stepped t at_lock r.0 r.1
locked t true works e e' =
    moved t at_lock exited refl refl refl (λ f. absurd (let g = sym e ∙ f in cc))
      (λ _ f. absurd (let g = sym e ∙ f in cc))
locked t false [] e e' =
    moved t at_lock waiting refl refl refl (λ _. omega arith)
      (λ lt. absurd (omega (arith, ap length e')))
locked t false (work ∷ rest) e e' = record {
  order = sym e';
  max = refl;
  same_shutdown = refl;
  working = λ c c' h k. h ∙ ap pos (omega arith);
  begun = λ c c' h k. h ∙ ap pos (omega arith);
  exits = λ _. omega arith;
  awake = λ _ _ _. refl;
}

-- A step that counts the thread, in or out.
counted :
    (t : ThreadPool) (p p' : Pc) (d : ℤ)
    → held p' ≡ []
    → is_begun p ≡ is_begun p'
    → is_exited p' ≡ 0
    → is_awake p' ≡ 1
    → ((c c' : ℕ) → c' + is_working p ≡ c + is_working p' → pos c +ℤ d ≡ pos c')
    → Stepped t p (record t { working_counts = t.working_counts +ℤ d }) p'
counted t p p' d no_work same_begun stays awake working = record {
  order = ap (λ xs. xs ++ t.queue_head) no_work;
  max = refl;
  same_shutdown = refl;
  working = λ c c' h k. ap (λ n. n +ℤ d) h ∙ working c c' k;
  begun = λ c c' h k. h ∙ ap pos (omega arith);
  exits = λ _. omega arith;
  awake = λ _ _ _. awake;
}

pub thread_step-Stepped :
    (t : ThreadPool) (p : Pc) → Stepped t p (thread_step t p).0 (thread_step t p).1
unfolding thread_step
thread_step-Stepped t starting = record {
  order = refl;
  max = refl;
  same_shutdown = refl;
  working = λ c c' h k. h ∙ ap pos (omega arith);
  begun = λ c c' h k. ap (λ n. n +ℤ pos 1) h ∙ ground arith;
  exits = λ _. omega arith;
  awake = λ _ _ _. refl;
}
thread_step-Stepped t at_lock = locked t t.shutdown t.queue_head refl refl
thread_step-Stepped t waiting =
    moved t waiting at_lock refl refl refl (λ _. omega arith) (λ _ _ _. refl)
thread_step-Stepped t (holding x) =
    counted t (holding x) (running x) (pos 1) refl refl refl refl (λ c c' k. ground arith)
thread_step-Stepped t (running x) =
    moved t (running x) (returned x) refl refl refl (λ _. omega arith) (λ _ _ _. refl)
thread_step-Stepped t (returned x) =
    counted t (returned x) at_lock minus_one refl refl refl refl (λ c c' k. ground arith)
thread_step-Stepped t exited =
    moved t exited exited refl refl refl (λ _. omega arith) (λ _ _ x. absurd (omega arith))
