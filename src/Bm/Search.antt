-- ===== src/Bm/Search.antt =====
-- The reference for a search: the first position at which the pattern stands.
use trace_server.Base.{
  ℕ, zero, suc, ◌+◌, ◌<◌, ◌≡◌, ◌≤◌, omap-suc_inv, refl, ap, ◌∙◌, Bool, true, false, ◌&&◌, Option,
  none, some, List, [], ◌∷◌, arith, if◌then◌else◌, Bool-cases, inl, inr, omap, length, drop,
  get_elem?,
}

omap_zero : (o : Option ℕ) → o ≡ omap (λ r. 0 + r) o
omap_zero none = refl
omap_zero (some r) = ap some (omega arith)

omap-suc : (d : ℕ) (o : Option ℕ) → omap suc (omap (λ r. d + r) o) ≡ omap (λ r. suc d + r) o
omap-suc d none = refl
omap-suc d (some r) = ap some (omega arith)

module _ (same : ℕ → ℕ → Bool) where
  abbrev pub is_prefix : List ℕ → List ℕ → Bool
  is_prefix [] text = true
  is_prefix (p ∷ patt) [] = false
  is_prefix (p ∷ patt) (t ∷ text) = same t p && is_prefix patt text

  abbrev pub search_in : List ℕ → List ℕ → Option ℕ
  search_in patt [] = if is_prefix patt [] then some 0 else none
  search_in patt (t ∷ text) =
      if is_prefix patt (t ∷ text) then some 0 else omap suc (search_in patt text)

  -- A text that is too short does not hold the pattern.
  pub is_prefix_short :
      (patt text : List ℕ) → length text < length patt → is_prefix patt text ≡ false
  is_prefix_short [] text h = elim h [ ]
  is_prefix_short (p ∷ patt) [] h = refl
  is_prefix_short (p ∷ patt) (t ∷ text) h = ground (arith, is_prefix_short patt text (omega arith))

  pub search_in_short :
      (patt text : List ℕ) → length text < length patt → search_in patt text ≡ none
  search_in_short [] text h = elim h [ ]
  search_in_short (p ∷ patt) [] h = refl
  search_in_short (p ∷ patt) (t ∷ text) h = ground (
    arith,
    is_prefix_short (p ∷ patt) (t ∷ text) h,
    search_in_short (p ∷ patt) text (omega arith),
  )

  pub search_in_hit :
      (patt text : List ℕ) → is_prefix patt text ≡ true → search_in patt text ≡ some 0
  search_in_hit patt [] h = ground arith
  search_in_hit patt (t ∷ text) h = ground arith

  -- Positions that do not match can be passed over, `d` at a time.
  pub search_in_skip :
      (patt text : List ℕ) (d : ℕ)
      → 0 < length patt
      → ((k : ℕ) → k < d → is_prefix patt (drop k text) ≡ false)
      → search_in patt text ≡ omap (λ r. d + r) (search_in patt (drop d text))
  search_in_skip patt text zero h miss = omap_zero (search_in patt text)
  search_in_skip patt [] (suc d) h miss = rw (search_in_short patt [] h)
  search_in_skip patt (t ∷ text) (suc d) h miss = rw (miss 0 (omega arith)) (
      ap (omap suc) (search_in_skip patt text d h (λ k lt. miss (suc k) (omega arith)))
      ∙ omap-suc d (search_in patt (drop d text)))

  -- What a match says of each byte of the pattern.
  pub is_prefix_elem :
      (patt text : List ℕ) (j p : ℕ)
      → is_prefix patt text ≡ true
      → get_elem? patt j ≡ some p
      → (t : ℕ) × (get_elem? text j ≡ some t) × (same t p ≡ true)
  is_prefix_elem [] text j p h e = absurd (cc)
  is_prefix_elem (q ∷ patt) [] j p h e = absurd (cc)
  is_prefix_elem (q ∷ patt) (t ∷ text) zero p h e = (t, refl, ground arith)
  is_prefix_elem (q ∷ patt) (t ∷ text) (suc j) p h e = is_prefix_elem patt text j p (ground arith) e

  pub is_prefix_fits : (patt text : List ℕ) → is_prefix patt text ≡ true → length patt ≤ length text
  is_prefix_fits [] text h = omega arith
  is_prefix_fits (p ∷ patt) [] h = absurd (cc)
  is_prefix_fits (p ∷ patt) (t ∷ text) h = omega (arith, is_prefix_fits patt text (ground arith))

  -- What is found lies in the text, and is the first place where the pattern stands.
  pub search_in_found :
      (patt text : List ℕ) (r : ℕ)
      → search_in patt text ≡ some r
      → (is_prefix patt (drop r text) ≡ true)
        × ((k : ℕ) → k < r → is_prefix patt (drop k text) ≡ false)
        × (r + length patt ≤ length text)
  search_in_found patt [] r e = elim (Bool-cases (is_prefix patt [])) [
    | inr miss ↦ absurd (let e' = rw miss at e in cc)
    | inl hit ↦
        let z : r ≡ 0 = ground arith in
        (rw z hit, (λ k lt. absurd (omega arith)), omega (arith, is_prefix_fits patt [] hit))
  ]
  search_in_found patt (t ∷ text) r e = elim (Bool-cases (is_prefix patt (t ∷ text))) [
    | inl hit ↦
        let z : r ≡ 0 = ground arith in
        (
          rw z hit,
          (λ k lt. absurd (omega arith)),
          omega (arith, is_prefix_fits patt (t ∷ text) hit),
        )
    | inr miss ↦
        let (m, em, en) = omap-suc_inv (search_in patt text) r (rw miss at e) in
        let (found, first, fits) = search_in_found patt text m em in
        (rw en found, later m en first miss, omega arith)
  ]
    where
      later :
          (m : ℕ)
          → r ≡ suc m
          → ((k : ℕ) → k < m → is_prefix patt (drop k text) ≡ false)
          → is_prefix patt (t ∷ text) ≡ false
          → (k : ℕ) → k < r
          → is_prefix patt (drop k (t ∷ text)) ≡ false
      later m en first miss zero lt = miss
      later m en first miss (suc k) lt = first k (omega arith)
