-- ===== src/Fifo/Ring.antt =====
-- The ring: which bytes of the buffer hold the contents, and what a copy does to them.
use trace_server.Base.{
  ℕ, zero, suc, ◌+◌, ◌-◌, ◌*◌, ◌%◌, ◌^◌, ◌≤◌, ◌<◌, ◌≡◌, sym, ap, subst, ◌∙◌, arith, ◌⊎◌, inl, inr,
  Option, some, Bool-cases, ltb, ltb-true, ltb-false, List, [], ◌∷◌, ◌++◌, length, take, drop,
  get_elem?, get_elem?-take, get_elem?-drop, get_elem?-append_left, length-take, length-drop,
  length-append,
}
use native.Mathlib.Nat.{mod-mod_of_dvd, dvd-mul_right}
use Prim.Native.Nat.{◌∣◌}
use trace_server.Base.Int.{pos}
use trace_server.Libc.{memcpy, write}
use trace_server.Libc.Laws.{read_lem, write_lem}
use trace_server.Fifo.{Fifo, u32_mod, add32, sub32, and32}
use trace_server.Fifo.Bits.{pow_pos, and_bits-mask}
use trace_server.Fifo.Size.{pow_add}

pow_split : (a d : ℕ) → 2 ^ (a + d) ≡ 2 ^ a * 2 ^ d
pow_split a zero = let e : a + 0 ≡ a = omega arith in rw e (omega arith)
pow_split a (suc d) =
    let e : a + suc d ≡ suc (a + d) = omega arith in let ih = pow_split a d in rw e (grind arith)

pub pow_le : (k : ℕ) → k ≤ 31 → 2 ^ k ≤ 2 ^ 31
pow_le k h =
    let e : k + (31 - k) ≡ 31 = omega arith in subst (λ n. 2 ^ k ≤ 2 ^ n) e (pow_add k (31 - k))

-- The wrap at 2^32 does not change a position in the ring.
pub wrap_mod : (k x : ℕ) → k ≤ 31 → x % u32_mod % 2 ^ k ≡ x % 2 ^ k
wrap_mod k x h =
    let e : k + (32 - k) ≡ 32 = omega arith in
    let split : 2 ^ 32 ≡ 2 ^ k * 2 ^ (32 - k) = ap (λ n. 2 ^ n) (sym e) ∙ pow_split k (32 - k) in
    mod-mod_of_dvd (2 ^ k) x
      (subst (λ n. 2 ^ k ∣ n) (sym split) (dvd-mul_right (2 ^ k) (2 ^ (32 - k))))

-- The position `t` places behind another.
pub ring_index :
    (a t m : ℕ)
    → 0 < m
    → t ≤ m
    → ((a + t) % m ≡ a % m + t) × (a % m + t < m) ⊎ ((a + t) % m + m ≡ a % m + t) × (m ≤ a % m + t)
ring_index a t m m_pos h = elim (Bool-cases (ltb (a % m + t) m)) [
  | inl inside ↦ let lt = ltb-true inside in inl (grind arith, lt)
  | inr around ↦ let le = ltb-false around in inr (grind arith, le)
]

pub and32-size : (k x : ℕ) → k ≤ 31 → and32 x (sub32 (2 ^ k) 1) ≡ x % 2 ^ k
and32-size k x h =
    let less : sub32 (2 ^ k) 1 ≡ 2 ^ k - 1 = omega (arith, pow_pos k, pow_le k h) in
    rw less (and_bits-mask 32 k x (omega arith))

pub get_elem?-append_right :
    {A : Type 0} (xs ys : List A) (i : ℕ) → get_elem? (xs ++ ys) (length xs + i) ≡ get_elem? ys i
get_elem?-append_right [] ys i = ap (get_elem? ys) (omega arith)
get_elem?-append_right (x ∷ xs) ys i =
    let e : suc (length xs) + i ≡ suc (length xs + i) = omega arith in
    ap (get_elem? (x ∷ (xs ++ ys))) e ∙ get_elem?-append_right xs ys i

-- A copy that stays inside both objects.
pub record Copied (dst : List ℕ) (i : ℕ) (src : List ℕ) (j n : ℕ) (o : Option (List ℕ))
    : Type 0 where
  pub result : List ℕ
  pub returned : o ≡ some result
  pub length_eq : length result ≡ length dst
  pub inside : (p : ℕ) → i ≤ p → p < i + n → get_elem? result p ≡ get_elem? src (j + (p - i))
  pub below : (p : ℕ) → p < i → get_elem? result p ≡ get_elem? dst p
  pub above : (p : ℕ) → i + n ≤ p → get_elem? result p ≡ get_elem? dst p

pub memcpy-Copied :
    (dst : List ℕ) (i : ℕ) (src : List ℕ) (j n : ℕ)
    → i + n ≤ length dst
    → j + n ≤ length src
    → Copied dst i src j n (memcpy dst i src j n)
memcpy-Copied dst i src j n room from =
    let bytes = take n (drop j src) in
    let front = take i dst in
    let back = drop (i + n) dst in
    let nb : length bytes ≡ n = omega (arith, length-take n (drop j src), length-drop j src) in
    let nf : length front ≡ i = omega (arith, length-take i dst) in
    let wrote : write dst i bytes ≡ some (front ++ (bytes ++ back)) =
      write_lem dst i bytes (omega arith)
      ∙ ap (λ m. some (front ++ (bytes ++ drop (i + m) dst))) nb in
    let total = length-append front (bytes ++ back) in
    let total' = length-append bytes back in
    rw (read_lem src j n from) (record {
      result = front ++ (bytes ++ back);
      returned = wrote;
      length_eq = omega (arith, total, total', length-drop (i + n) dst);
      inside = λ p lo hi.
          let e : p ≡ length front + (p - i) = omega arith in
          ap (get_elem? (front ++ (bytes ++ back))) e
          ∙ get_elem?-append_right front (bytes ++ back) (p - i)
          ∙ get_elem?-append_left bytes back (p - i) (omega arith)
          ∙ get_elem?-take n (p - i) (drop j src) (omega arith)
          ∙ get_elem?-drop j (p - i) src;
      below = λ p lt.
          get_elem?-append_left front (bytes ++ back) p (omega arith) ∙ get_elem?-take i p dst lt;
      above = λ p le.
          let e : p ≡ length front + (length bytes + (p - (i + n))) = omega arith in
          ap (get_elem? (front ++ (bytes ++ back))) e
          ∙ get_elem?-append_right front (bytes ++ back) (length bytes + (p - (i + n)))
          ∙ get_elem?-append_right bytes back (p - (i + n))
          ∙ get_elem?-drop (i + n) (p - (i + n)) dst
          ∙ ap (get_elem? dst) (omega arith);
    })

-- The fifo's contents, oldest first, in a ring of 2^k places.
pub record IsFifo (k : ℕ) (f : Fifo) (q : List ℕ) : Type 0 where
  pub bits : k ≤ 31
  pub size_eq : f.size ≡ 2 ^ k
  pub room : 2 ^ k ≤ length f.buffer
  pub in_eq : f.in_pos ≡ add32 f.out_pos (length q)
  pub out_lt : f.out_pos < u32_mod
  pub fits : length q ≤ 2 ^ k
  pub holds : (t : ℕ) → t < length q → get_elem? f.buffer ((f.out_pos + t) % 2 ^ k) ≡ get_elem? q t
  pub copies :
      (dst : List ℕ) (i : ℕ) (src : List ℕ) (j n : ℕ)
      → f.copy_fn dst i src j (pos n) ≡ memcpy dst i src j n
