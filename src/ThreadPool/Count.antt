-- ===== src/ThreadPool/Count.antt =====
-- How many threads of the pool stand at a place.
use trace_server.Base.{
  ℕ, zero, suc, ◌+◌, ◌≤◌, ◌≡◌, refl, ap, some, List, [], ◌∷◌, length, get_elem?, set, map,
  replicate, arith,
}
use trace_server.ThreadPool.{Pc, starting, at_lock, waiting, holding, running, returned, exited}

-- The number of threads at a place.
pub count : (Pc → ℕ) → List Pc → ℕ
count w [] = 0
count w (p ∷ ps) = w p + count w ps

abbrev pub is_waiting : Pc → ℕ
is_waiting waiting = 1
is_waiting _ = 0

abbrev pub wake : Pc → Pc
wake waiting = at_lock
wake p = p

-- Between the two counts of `thread_routine`.
abbrev pub is_working : Pc → ℕ
is_working (running _) = 1
is_working (returned _) = 1
is_working _ = 0

-- Behind the line that counts the thread.
abbrev pub is_begun : Pc → ℕ
is_begun starting = 0
is_begun _ = 1

abbrev pub is_exited : Pc → ℕ
is_exited exited = 1
is_exited _ = 0

-- Neither waiting nor exited: the thread comes to the lock and looks at the list.
abbrev pub is_awake : Pc → ℕ
is_awake waiting = 0
is_awake exited = 0
is_awake _ = 1

module _ (w : Pc → ℕ) where
  pub count-set :
      (ps : List Pc) (i : ℕ) (p q : Pc)
      → get_elem? ps i ≡ some p
      → count w (set ps i q) + w p ≡ count w ps + w q
  unfolding count
  count-set [] i p q e = absurd (cc)
  count-set (x ∷ ps) zero p q e = ground arith
  count-set (x ∷ ps) (suc i) p q e = omega (arith, count-set ps i p q e)

  pub le-count : (ps : List Pc) (i : ℕ) (p : Pc) → get_elem? ps i ≡ some p → w p ≤ count w ps
  unfolding count
  le-count [] i p e = absurd (cc)
  le-count (x ∷ ps) zero p e = ground arith
  le-count (x ∷ ps) (suc i) p e = omega (arith, le-count ps i p e)

  pub count-le : ((p : Pc) → w p ≤ 1) → (ps : List Pc) → count w ps ≤ length ps
  unfolding count
  count-le h [] = omega arith
  count-le h (p ∷ ps) = omega (arith, h p, count-le h ps)

  pub count-starting : w starting ≡ 0 → (n : ℕ) → count w (replicate n starting) ≡ 0
  unfolding count
  count-starting h zero = refl
  count-starting h (suc n) = omega (arith, h, count-starting h n)

  pub count-wake : w waiting ≡ w at_lock → (ps : List Pc) → count w (map wake ps) ≡ count w ps
  unfolding count
  count-wake h [] = refl
  count-wake h (starting ∷ ps) = ap (λ n. w starting + n) (count-wake h ps)
  count-wake h (at_lock ∷ ps) = ap (λ n. w at_lock + n) (count-wake h ps)
  count-wake h (waiting ∷ ps) = omega (arith, h, count-wake h ps)
  count-wake h (holding x ∷ ps) = ap (λ n. w (holding x) + n) (count-wake h ps)
  count-wake h (running x ∷ ps) = ap (λ n. w (running x) + n) (count-wake h ps)
  count-wake h (returned x ∷ ps) = ap (λ n. w (returned x) + n) (count-wake h ps)
  count-wake h (exited ∷ ps) = ap (λ n. w exited + n) (count-wake h ps)

pub length-wake : (ps : List Pc) → length (map wake ps) ≡ length ps
length-wake [] = refl
length-wake (p ∷ ps) = ap suc (length-wake ps)

pub total_lem :
    (ps : List Pc) → count is_awake ps + count is_waiting ps + count is_exited ps ≡ length ps
unfolding count
total_lem [] = refl
total_lem (p ∷ ps) = omega (arith, one p, total_lem ps)
  where
    one : (p : Pc) → is_awake p + is_waiting p + is_exited p ≡ 1
    one starting = refl
    one p = ground arith

pub awake-wake : (ps : List Pc) → count is_awake ps ≤ count is_awake (map wake ps)
unfolding count
awake-wake [] = omega arith
awake-wake (p ∷ ps) = omega (arith, one p, awake-wake ps)
  where
    one : (p : Pc) → is_awake p ≤ is_awake (wake p)
    one waiting = omega arith
    one p = ground arith
