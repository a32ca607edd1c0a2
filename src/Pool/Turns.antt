-- ===== src/Pool/Turns.antt =====
-- Whose turn it is after several calls of `evserver_tpool_add_job`.
use trace_server.Base.{
  ℕ, zero, suc, ◌+◌, ◌-◌, ◌*◌, ◌/◌, ◌%◌, ◌^◌, ◌<◌, ◌≤◌, ◌≡◌, refl, ap, ◌∙◌, true, some, List, arith,
  Bool-cases, inl, inr, ltb, ltb-true, ltb-false,
}
use native.Mathlib.Nat.{mod-lt, mod-eq_of_lt, div-add-mod, mul-suc, add-mul-mod_self_left}
use trace_server.Base.Int.{ℤ, pos, ltb_ℤ}
use trace_server.Queue.{Wakeup}
use trace_server.Pool.{Callbacks, Job, JobLayout, Tpool, PoolAct, tpool_add_job}
use trace_server.Pool.Dispatch.{IsPool, tpool_add_job-Dispatched}

rest_lem : (a n j q : ℕ) → j < n → a ≡ j + n * q → a % n ≡ j
rest_lem a n j q h e = ap (λ x. x % n) e ∙ add-mul-mod_self_left j n q ∙ mod-eq_of_lt h

-- Some number of steps on from `c` reaches each remainder.
turn_lem : (c n j : ℕ) → j < n → (k : ℕ) × (k < n) × ((c + k) % n ≡ j)
turn_lem c n j h =
    let n_pos : 0 < n = omega arith in
    let small = mod-lt c n_pos in
    let parts : n * (c / n) + c % n ≡ c = div-add-mod c n in
    let more : n * suc (c / n) ≡ n * (c / n) + n = mul-suc n (c / n) in
    elim (Bool-cases (ltb j (c % n))) [
      | inl behind ↦
          let lt : j < c % n = ltb-true behind in
          (
            j + n - c % n,
            omega arith,
            rest_lem (c + (j + n - c % n)) n j (suc (c / n)) h (omega arith),
          )
      | inr ahead ↦
          let le : c % n ≤ j = ltb-false ahead in
          (j - c % n, omega arith, rest_lem (c + (j - c % n)) n j (c / n) h (omega arith))
    ]

module _ (L : JobLayout) (stack : Job) (ws : List Wakeup) (cb : Callbacks) (m : ℕ)
    (m_pos : 0 < m) where
  -- Successful calls with the first descriptors of a sequence, and the pool before and after.
  pub data Calls : (ℕ → ℤ) → ℕ → Tpool → Tpool → Type 0 where
    start : (fds : ℕ → ℤ) (t : Tpool) → Calls fds 0 t t
    call :
        (fds : ℕ → ℤ) (n : ℕ) (t t' t'' : Tpool) (acts : List PoolAct)
        → tpool_add_job L true true stack ws (some t) (fds 0) cb ≡ some (true, some t', acts)
        → Calls (λ i. fds (suc i)) n t' t''
        → Calls fds (suc n) t t''

  -- The pool after `n` calls.
  record After (fds : ℕ → ℤ) (n : ℕ) (t : Tpool) : Type 0 where
    pub after : Tpool
    pub calls : Calls fds n t after
    pub is_pool : IsPool m after
    pub turn : after.current_worker ≡ t.current_worker + n
    pub same_size : after.worker_size ≡ t.worker_size

  calls_lem :
      (n : ℕ) (fds : ℕ → ℤ) (t : Tpool)
      → IsPool m t
      → ((i : ℕ) → ltb_ℤ (pos 0) (fds i) ≡ true)
      → t.current_worker + n < 2 ^ 32
      → After fds n t
  calls_lem zero fds t h valid lt = record {
    after = t;
    calls = start fds t;
    is_pool = h;
    turn = omega arith;
    same_size = refl;
  }
  calls_lem (suc n) fds t h valid lt =
      let d = tpool_add_job-Dispatched L stack ws cb m m_pos t (fds 0) h (valid 0) in
      let one : d.after.current_worker ≡ t.current_worker + 1 = omega (arith, d.next_turn) in
      let rest =
        calls_lem n (λ i. fds (suc i)) d.after d.is_pool (λ i. valid (suc i))
          (omega (arith, one)) in
      record {
        after = rest.after;
        calls = call fds n t d.after rest.after _ d.returned rest.calls;
        is_pool = rest.is_pool;
        turn = omega (arith, one, rest.turn);
        same_size = rest.same_size ∙ d.same_size;
      }

  -- In such a pool no worker is passed over: on any sequence of valid descriptors, and for each worker
  -- `j`, it takes fewer than `worker_size` calls of `evserver_tpool_add_job`, all of which succeed, until
  -- the turn is the worker's, if `current_worker` does not wrap around in these calls.
  pub calls-fair :
      (fds : ℕ → ℤ) (t : Tpool) (j : ℕ)
      → IsPool m t
      → ((i : ℕ) → ltb_ℤ (pos 0) (fds i) ≡ true)
      → t.current_worker + t.worker_size ≤ 2 ^ 32
      → j < t.worker_size
      → (k : ℕ) × (k < t.worker_size)
        × (after : Tpool) × Calls fds k t after
        × (after.current_worker % after.worker_size ≡ j)
  calls-fair fds t j h valid no_wrap lt =
      let (k, bound, turn) = turn_lem t.current_worker t.worker_size j lt in
      let a = calls_lem k fds t h valid (omega arith) in
      (k, bound, a.after, a.calls, rw (a.turn, a.same_size) turn)
