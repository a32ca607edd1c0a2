-- ===== src/Bm/Shift.antt =====
-- What the shift table holds: for each byte a distance that passes over no match.
use trace_server.Base.{
  ℕ, zero, suc, ◌+◌, ◌-◌, ◌≤◌, ◌<◌, ◌≡◌, ◌∙◌, ◌⊎◌, inl, inr, Bool, true, some, List, [], ◌∷◌, arith,
  ◌==◌, ==_iff, Bool-cases, get_elem?, set, length, get_elem?-lt, get_elem?-set_self,
  get_elem?-set_ne, get_elem?-replicate,
}
use trace_server.Bm.{mark, mark_case, bm_cmp, swap_case, no_shift, fill_shift}

-- The table has a distance for the byte `x`, from 1 to `b`.
abbrev pub Entry : List ℕ → ℕ → ℕ → Type 0
Entry shift x b = (d : ℕ) × (get_elem? shift x ≡ some d) × (1 ≤ d) × (d ≤ b)

Entry-set : (t : List ℕ) (c v x b : ℕ) → Entry t x b → 1 ≤ v → v ≤ b → Entry (set t c v) x b
Entry-set t c v x b (d, e, lo, hi) h k = elim (Bool-cases (c == x)) [
  | inl y ↦ (v, ground (arith, get_elem?-set_self t x v (get_elem?-lt t x d e)), h, k)
  | inr n ↦ (d, ground (arith, get_elem?-set_ne t c x v (λ q. ground arith)), lo, hi)
]

Entry-set_self : (t : List ℕ) (x v b : ℕ) → Entry t x b → 1 ≤ v → Entry (set t x v) x v
Entry-set_self t x v b (d, e, lo, hi) h =
    (v, get_elem?-set_self t x v (get_elem?-lt t x d e), h, omega arith)

-- What the search needs of the way a pattern byte is entered into the table.
pub record IsMarking (same : ℕ → ℕ → Bool) (marks : List ℕ → ℕ → ℕ → List ℕ) : Type 0 where
  pub keep : (t : List ℕ) (c v x b : ℕ) → Entry t x b → 1 ≤ v → v ≤ b → Entry (marks t c v) x b
  pub enter :
      (t : List ℕ) (c v x b : ℕ) → Entry t x b → 1 ≤ v → same x c ≡ true → Entry (marks t c v) x v

pub mark-IsMarking : IsMarking ◌==◌ mark
unfolding mark
mark-IsMarking = record {
  keep = Entry-set;
  enter = λ t c v x b h lo e.
      let q : x ≡ c = (==_iff x c).0 e in rw (← q) (Entry-set_self t x v b h lo);
}

mark_case_keep :
    (t : List ℕ) (c v x b : ℕ) → Entry t x b → 1 ≤ v → v ≤ b → Entry (mark_case t c v) x b
unfolding mark_case
mark_case_keep t c v x b h lo hi = elim (Bool-cases (swap_case c == c)) [
  | inl y ↦ rw y (Entry-set t c v x b h lo hi)
  | inr n ↦ rw n (Entry-set (set t c v) (swap_case c) v x b (Entry-set t c v x b h lo hi) lo hi)
]

-- Equal for `_bm_cmp`: the same byte, or the letter in the other case.
pub bm_cmp_cases : (s c : ℕ) → bm_cmp s c ≡ true → (s ≡ c) ⊎ (s ≡ swap_case c)
unfolding bm_cmp
bm_cmp_cases s c h = ground arith

mark_case_enter :
    (t : List ℕ) (c v x b : ℕ)
    → Entry t x b
    → 1 ≤ v
    → bm_cmp x c ≡ true
    → Entry (mark_case t c v) x v
unfolding mark_case
mark_case_enter t c v x b h lo e = elim (Bool-cases (swap_case c == c)) [
  | inl y ↦ elim (bm_cmp_cases x c e) [
    | inl q ↦ rw y (rw (← q) (Entry-set_self t x v b h lo))
    | inr q ↦ rw y (rw (← (q ∙ (==_iff _ _).0 y)) (Entry-set_self t x v b h lo))
  ]
  | inr n ↦ elim (bm_cmp_cases x c e) [
    | inl q ↦
        rw (n, ← q)
          (Entry-set (set t x v) (swap_case x) v x v (Entry-set_self t x v b h lo) lo (omega arith))
    | inr q ↦
        let h' : Entry (set t c v) x (v + b) =
          Entry-set t c v x (v + b) (h.0, h.1, h.2, omega (arith, h.3)) lo (omega arith) in
        rw (n, ← q) (Entry-set_self (set t c v) x v (v + b) h' lo)
  ]
]

pub mark_case-IsMarking : IsMarking bm_cmp mark_case
mark_case-IsMarking = record { keep = mark_case_keep; enter = mark_case_enter }

pub no_shift-Entry : (n x : ℕ) → x < 256 → Entry (no_shift n) x (n + 1)
unfolding no_shift
no_shift-Entry n x h = (n + 1, get_elem?-replicate 256 x (n + 1) h, omega arith, omega arith)

module _ {same : ℕ → ℕ → Bool} {marks : List ℕ → ℕ → ℕ → List ℕ} (law : IsMarking same marks)
    (n : ℕ) where
  -- An entry only gets smaller, but not below the rounds that are left.
  fill_shift_keep :
      (patt : List ℕ) (i : ℕ) (t : List ℕ) (x b : ℕ)
      → i + length patt ≤ n
      → n - i ≤ b
      → Entry t x b
      → Entry (fill_shift marks n i patt t) x b
  unfolding fill_shift
  fill_shift_keep [] i t x b fits le h = h
  fill_shift_keep (c ∷ patt) i t x b fits le h =
      fill_shift_keep patt (i + 1) (marks t c (n - i)) x b (omega arith) (omega arith)
        (law.keep t c (n - i) x b h (omega arith) le)

  pub fill_shift_enter :
      (patt : List ℕ) (i : ℕ) (t : List ℕ) (x b j p : ℕ)
      → i + length patt ≤ n
      → Entry t x b
      → get_elem? patt j ≡ some p
      → same x p ≡ true
      → Entry (fill_shift marks n i patt t) x (n - (i + j))
  unfolding fill_shift
  fill_shift_enter [] i t x b j p fits h e s = absurd (cc)
  fill_shift_enter (c ∷ patt) i t x b zero p fits h e s =
      let q : c ≡ p = ground arith in
      let le : n - i ≤ n - (i + 0) = omega arith in
      let v = law.enter t c (n - i) x b h (omega arith) (rw q s) in
      fill_shift_keep patt (i + 1) (marks t c (n - i)) x (n - (i + 0)) (omega arith) (omega arith)
        (v.0, v.1, v.2, omega (arith, v.3))
  fill_shift_enter (c ∷ patt) i t x b (suc j) p fits h e s =
      let h' : Entry t x (n + b) = (h.0, h.1, h.2, omega (arith, h.3)) in
      let r =
        fill_shift_enter patt (i + 1) (marks t c (n - i)) x (n + b) j p (omega arith)
          (law.keep t c (n - i) x (n + b) h' (omega arith) (omega arith)) e s in
      (r.0, r.1, r.2, omega (arith, r.3))

  -- Every byte has a distance of at most patt_size + 1.
  pub fill_shift_bound :
      (patt : List ℕ) (x : ℕ)
      → length patt ≡ n
      → x < 256
      → Entry (fill_shift marks n 0 patt (no_shift n)) x (n + 1)
  fill_shift_bound patt x e h =
      fill_shift_keep patt 0 (no_shift n) x (n + 1) (omega arith) (omega arith)
        (no_shift-Entry n x h)
