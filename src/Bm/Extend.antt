-- ===== src/Bm/Extend.antt =====
-- Searches in a text that grows at its end.
use trace_server.Base.{
  ℕ, ◌+◌, ◌≤◌, ◌≡◌, refl, sym, ap, ◌∙◌, inl, inr, Bool, true, false, ◌&&◌, none, some, List, [],
  ◌∷◌, ◌++◌, arith, length, drop, drop-append_left, length-append, length-drop, Bool-cases,
  Option-cases, omap-suc_inv, leb, leb-true, leb-false, zero, suc,
}
use trace_server.Bm.Search.{is_prefix, search_in, search_in_found, search_in_hit, is_prefix_fits}

module _ (same : ℕ → ℕ → Bool) where
  is_prefix_append :
      (patt xs ys : List ℕ)
      → length patt ≤ length xs
      → is_prefix same patt (xs ++ ys) ≡ is_prefix same patt xs
  is_prefix_append [] xs ys h = refl
  is_prefix_append (p ∷ patt) [] ys h = absurd (omega arith)
  is_prefix_append (p ∷ patt) (x ∷ xs) ys h =
      ap (λ b. same x p && b) (is_prefix_append patt xs ys (omega arith))

  -- Where nothing is found, the pattern stands nowhere.
  none_step :
      (patt text : List ℕ) (t : ℕ)
      → search_in same patt (t ∷ text) ≡ none
      → (is_prefix same patt (t ∷ text) ≡ false) × (search_in same patt text ≡ none)
  none_step patt text t e = elim (Bool-cases (is_prefix same patt (t ∷ text))) [
    | inl y ↦ absurd (let e' = rw y at e in cc)
    | inr n ↦ (
      n,
      elim (Option-cases (search_in same patt text)) [
        | inl z ↦ z
        | inr (r, er) ↦ absurd (let e' = rw (n, er) at e in cc)
      ],
    )
  ]

  none_nil : (patt : List ℕ) → search_in same patt [] ≡ none → is_prefix same patt [] ≡ false
  none_nil patt e = elim (Bool-cases (is_prefix same patt [])) [
    | inr n ↦ n
    | inl y ↦ absurd (let e' = rw y at e in cc)
  ]

  pub search_in-none :
      (patt text : List ℕ) (k : ℕ)
      → search_in same patt text ≡ none
      → is_prefix same patt (drop k text) ≡ false
  search_in-none patt [] zero e = none_nil patt e
  search_in-none patt [] (suc k) e = none_nil patt e
  search_in-none patt (t ∷ text) zero e = (none_step patt text t e).0
  search_in-none patt (t ∷ text) (suc k) e = search_in-none patt text k (none_step patt text t e).1

  -- What is found in a text is found in a longer one.
  pub search_in_append :
      (patt xs ys : List ℕ) (r : ℕ)
      → search_in same patt xs ≡ some r
      → search_in same patt (xs ++ ys) ≡ some r
  search_in_append patt [] ys r e = elim (Bool-cases (is_prefix same patt [])) [
    | inr n ↦ absurd (let e' = rw n at e in cc)
    | inl y ↦
        let z : r ≡ 0 = ground arith in
        rw z (
          search_in_hit same patt ys
            (is_prefix_append patt [] ys (is_prefix_fits same patt [] y) ∙ y))
  ]
  search_in_append patt (x ∷ xs) ys r e = elim (Bool-cases (is_prefix same patt (x ∷ xs))) [
    | inl y ↦
        let z : r ≡ 0 = ground arith in
        rw z (
          search_in_hit same patt ((x ∷ xs) ++ ys)
            (is_prefix_append patt (x ∷ xs) ys (is_prefix_fits same patt (x ∷ xs) y) ∙ y))
    | inr n ↦
        let (m, em, en) = omap-suc_inv (search_in same patt xs) r (rw n at e) in
        let (_, _, fits) = search_in_found same patt xs m em in
        let n' = is_prefix_append patt (x ∷ xs) ys (omega arith) ∙ n in
        rw (n', search_in_append patt xs ys m em, en)
  ]

  -- What a new last byte makes appear ends with it.
  pub search_in_last :
      (patt xs : List ℕ) (ch r : ℕ)
      → search_in same patt xs ≡ none
      → search_in same patt (xs ++ (ch ∷ [])) ≡ some r
      → r + length patt ≡ length xs + 1
  search_in_last patt xs ch r miss e =
      let (found, _, fits) = search_in_found same patt (xs ++ (ch ∷ [])) r e in
      let n = length-append xs (ch ∷ []) in
      elim (Bool-cases (leb (r + length patt) (length xs))) [
        | inr long ↦ omega (arith, leb-false long)
        | inl short ↦
            let le = leb-true short in
            let there : is_prefix same patt (drop r xs) ≡ true =
              sym (is_prefix_append patt (drop r xs) (ch ∷ []) (omega (arith, length-drop r xs)))
              ∙ ap (is_prefix same patt) (sym (drop-append_left r xs (ch ∷ []) (omega arith)))
              ∙ found in
            absurd (let f = search_in-none patt xs r miss in cc)
      ]
