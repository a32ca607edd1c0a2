-- ===== src/Fifo/Size.antt =====
-- The sizes that `fifo_cal_buffer_size` gives.
use trace_server.Base.{
  subst, leb, leb-true, leb-false, ==_iff, ℕ, zero, suc, ◌+◌, ◌-◌, ◌*◌, ◌/◌, ◌%◌, ◌^◌, ◌≤◌, ◌<◌,
  ◌≡◌, refl, sym, ap, ◌∙◌, arith, inl, inr, some, Bool-cases, ◌==◌, false, if◌then◌else◌,
}
use trace_server.Fifo.{
  u32_mod, sub32, and32, shift_right, fls_loop, fls, roundup_pow_of_two, fifo_cal_buffer_size,
}
use trace_server.Fifo.Bits.{and_bits-power}

fls_step :
    (fuel i position : ℕ)
    → fls_loop (suc fuel) i position
      ≡ (if i == 0 then some position else fls_loop fuel (shift_right i) (position + 1))
unfolding fls_loop
fls_step fuel i position = refl

-- The loop adds to `position` the number of binary digits of `i`.
fls_loop_lem :
    (fuel i position : ℕ)
    → i < 2 ^ 31
    → i < 2 ^ fuel
    → (k : ℕ) × (fls_loop (suc fuel) i position ≡ some (position + k))
      × (i < 2 ^ k)
      × (i ≡ 0 → k ≡ 0)
      × (0 < i → 2 ^ k ≤ 2 * i)
fls_loop_lem zero i position h lt =
    let z : i ≡ 0 = omega arith in
    (
      0,
      rw (fls_step, z) (ap some (omega arith)),
      omega arith,
      (λ _. refl),
      λ pos. absurd (omega arith),
    )
fls_loop_lem (suc fuel) i position h lt = elim (Bool-cases (i == 0)) [
  | inl z ↦ (
    0,
    rw (fls_step, z) (ap some (omega arith)),
    ground arith,
    (λ _. refl),
    λ pos. absurd (ground arith),
  )
  | inr nz ↦
      let half : shift_right i ≡ i / 2 = ground arith in
      let (k, ek, below, low, above) =
        fls_loop_lem fuel (i / 2) (position + 1) (omega arith) (omega arith) in
      let one : 2 ^ 0 ≡ 1 = refl in
      let small : i / 2 ≡ 0 → 2 ^ k ≡ 1 = λ z. rw (low z) in
      (
        suc k,
        fls_step (suc fuel) i position ∙ rw (nz, half) (ek ∙ ap some (omega arith)),
        omega arith,
        (λ z. absurd (ground arith)),
        λ pos. grind arith,
      )
]

pub pow_add : (a d : ℕ) → 2 ^ a ≤ 2 ^ (a + d)
pow_add a zero = let e : a + 0 ≡ a = omega arith in rw e (omega arith)
pow_add a (suc d) =
    let e : a + suc d ≡ suc (a + d) = omega arith in rw e (omega (arith, pow_add a d))

pow_bound : (k : ℕ) → 2 ^ k < 2 ^ 32 → k ≤ 31
pow_bound k h = elim (Bool-cases (leb k 31)) [
  | inl small ↦ leb-true small
  | inr big ↦
      let e : 32 + (k - 32) ≡ k = omega (arith, leb-false big) in
      absurd (let m : 2 ^ 32 ≤ 2 ^ k = rw (← e) (pow_add 32 (k - 32)) in omega arith)
]

fls_lem :
    (x : ℕ)
    → 0 < x
    → x < 2 ^ 31
    → (k : ℕ) × (fls x ≡ some k) × (x < 2 ^ k) × (2 ^ k ≤ 2 * x) × (k ≤ 31)
unfolding fls
fls_lem x pos h =
    let nz : (x == 0) ≡ false = ground arith in
    let half : shift_right x ≡ x / 2 = ground arith in
    let (k, ek, below, low, above) = fls_loop_lem 32 (x / 2) 0 (omega arith) (omega arith) in
    let small : x / 2 ≡ 0 → 2 ^ k ≡ 1 = λ z. rw (low z) in
    let step : k + 1 ≡ suc k = omega arith in
    let two : 2 ^ (k + 1) ≡ 2 * 2 ^ k = rw step (omega arith) in
    let top : 2 ^ k ≤ x = grind arith in
    (
      k + 1,
      rw (nz, half, ek) (ap some (omega arith)),
      omega arith,
      omega arith,
      pow_bound (k + 1) (omega arith),
    )

roundup_lem : (x k : ℕ) → fls (sub32 x 1) ≡ some k → roundup_pow_of_two x ≡ some (2 ^ k % u32_mod)
unfolding roundup_pow_of_two
roundup_lem x k e = rw e

not_one : (x : ℕ) → 0 < x → (and32 x (sub32 x 1) == 0) ≡ false → 0 < x - 1
not_one x pos h = elim (Bool-cases (x == 1)) [
  | inl one ↦
      let e : x ≡ 1 = ground arith in
      absurd (
        let h' : (and32 1 (sub32 1 1) == 0) ≡ false =
          subst (λ y. (and32 y (sub32 y 1) == 0) ≡ false) e h in
        cc)
  | inr more ↦ ground arith
]

-- For a size from 1 to 2^31, `fifo_cal_buffer_size` ends and gives a power of two that fits `unsigned
-- int`, not below the size, and below its double: the least one.
pub fifo_cal_buffer_size_lem :
    (size : ℕ)
    → 0 < size
    → size ≤ 2 ^ 31
    → (k : ℕ) × (fifo_cal_buffer_size size ≡ some (2 ^ k))
      × (k ≤ 31)
      × (size ≤ 2 ^ k)
      × (2 ^ k < 2 * size)
unfolding fifo_cal_buffer_size
fifo_cal_buffer_size_lem size pos h = elim (Bool-cases (and32 size (sub32 size 1) == 0)) [
  | inl power ↦
      let less : sub32 size 1 ≡ size - 1 = omega arith in
      let e : and32 size (size - 1) ≡ 0 = ap (and32 size) (sym less) ∙ (==_iff _ 0).0 power in
      let (k, ek) = and_bits-power 32 size pos (omega arith) e in
      (k, rw power (ap some ek), pow_bound k (omega arith), omega arith, omega arith)
  | inr other ↦
      let less : sub32 size 1 ≡ size - 1 = omega arith in
      let (k, ek, above, below, bits) = fls_lem (size - 1) (not_one size pos other) (omega arith) in
      let fits : 2 ^ k % u32_mod ≡ 2 ^ k = omega arith in
      (
        k,
        rw other (roundup_lem size k (ap fls less ∙ ek) ∙ ap some fits),
        bits,
        omega arith,
        omega arith,
      )
]
