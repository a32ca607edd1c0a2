-- ===== src/Fifo/Bits.antt =====
-- The bits of `unsigned int`: `&` with a mask of ones is a remainder, and `x & (x - 1)` is 0 only of
-- powers of two.
use trace_server.Base.{
  Bool-cases, ◌==◌, ℕ, zero, suc, ◌+◌, ◌-◌, ◌*◌, ◌/◌, ◌%◌, ◌^◌, ◌≤◌, ◌<◌, ◌≡◌, refl, arith, ◌⊎◌,
  inl, inr,
}
use trace_server.Fifo.{and_bits}

half_mod : (a m : ℕ) → 0 < m → a % (2 * m) ≡ a % 2 + 2 * ((a / 2) % m)
half_mod a m h = grind arith

pub pow_pos : (k : ℕ) → 0 < 2 ^ k
pow_pos zero = omega arith
pow_pos (suc k) = omega (arith, pow_pos k)

and_bits-zero : (n a : ℕ) → and_bits n a 0 ≡ 0
and_bits-zero zero a = refl
and_bits-zero (suc n) a = omega (arith, and_bits-zero n (a / 2))

-- A mask of `k` ones.
pub and_bits-mask : (n k a : ℕ) → k ≤ n → and_bits n a (2 ^ k - 1) ≡ a % 2 ^ k
and_bits-mask n zero a h = omega (arith, and_bits-zero n a)
and_bits-mask zero (suc k) a h = absurd (omega arith)
and_bits-mask (suc n) (suc k) a h =
    let p = pow_pos k in
    let odd : (2 ^ suc k - 1) % 2 ≡ 1 = omega arith in
    let half : (2 ^ suc k - 1) / 2 ≡ 2 ^ k - 1 = omega arith in
    let two : 2 ^ suc k ≡ 2 * 2 ^ k = omega arith in
    rw (odd, half, two, and_bits-mask n k (a / 2) (omega arith), half_mod a (2 ^ k) p) (omega arith)

parity : (b : ℕ) → (b % 2 ≡ 0) ⊎ (b % 2 ≡ 1)
parity b = elim (Bool-cases (b % 2 == 0)) [
  | inl z ↦ inl (ground arith)
  | inr nz ↦ inr (ground arith)
]

and_bits_self : (n b : ℕ) → b < 2 ^ n → and_bits n b b ≡ b
and_bits_self zero b h = omega arith
and_bits_self (suc n) b h =
    let rest = and_bits_self n (b / 2) (omega arith) in
    elim (parity b) [ inl z ↦ rw z (omega arith) | inr o ↦ rw o (omega arith) ]

-- A number of at most `n` bits without a bit in common with its predecessor.
pub and_bits-power :
    (n a : ℕ) → 0 < a → a < 2 ^ n → and_bits n a (a - 1) ≡ 0 → (k : ℕ) × (a ≡ 2 ^ k)
and_bits-power zero a pos h e = absurd (omega arith)
and_bits-power (suc n) a pos h e = elim (parity a) [
  | inl even ↦
      let half : (a - 1) / 2 ≡ a / 2 - 1 = omega arith in
      let odd : (a - 1) % 2 ≡ 1 = omega arith in
      let e' : 0 * 1 + 2 * and_bits n (a / 2) (a / 2 - 1) ≡ 0 = rw (even, odd, half) at e in
      let (k, ek) = and_bits-power n (a / 2) (omega arith) (omega arith) (omega arith) in
      (suc k, omega arith)
  | inr odd ↦
      let half : (a - 1) / 2 ≡ a / 2 = omega arith in
      let even : (a - 1) % 2 ≡ 0 = omega arith in
      let e' : 1 * 0 + 2 * and_bits n (a / 2) (a / 2) ≡ 0 = rw (odd, even, half) at e in
      (0, omega (arith, and_bits_self n (a / 2) (omega arith)))
]
