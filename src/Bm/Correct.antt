-- ===== src/Bm/Correct.antt =====
-- `sunday` and `sunday_case` find the first match, and read nothing but the text and the byte after.
use trace_server.Base.{
  ℕ, zero, suc, ◌+◌, ◌-◌, ◌≤◌, ◌<◌, ◌≡◌, refl, sym, ap, ◌∙◌, inl, inr, Bool, true, false, Option,
  none, some, List, [], ◌∷◌, arith, ◌==◌, ltb, ltb-true, ltb-false, Bool-cases, get_elem?, length,
  take, drop, All, All_elem, get_elem?_lem, omap, drop-drop, get_elem?_of_take, get_elem?-take,
  get_elem?-drop, drop_step, length-take, length-drop,
}
use trace_server.Bm.{bm_cmp, no_shift, fill_shift, scan, match_rest, match_at, sunday, sunday_case}
use trace_server.Bm.Search.{
  is_prefix, search_in, is_prefix_elem, search_in_short, search_in_skip, search_in_hit,
}
use trace_server.Bm.Shift.{
  IsMarking, mark-IsMarking, mark_case-IsMarking, fill_shift_enter, fill_shift_bound,
  no_shift-Entry,
}

abbrev pub IsBytes : List ℕ → Type 0
IsBytes = All (λ c. c < 256)

omap_add :
    (i d : ℕ) (o : Option ℕ) → omap (λ r. i + d + r) o ≡ omap (λ r. i + r) (omap (λ r. d + r) o)
omap_add i d none = refl
omap_add i d (some r) = ap some (omega arith)

omap_zero : (o : Option ℕ) → omap (λ r. 0 + r) o ≡ o
omap_zero none = refl
omap_zero (some r) = ap some (omega arith)

module _ (same : ℕ → ℕ → Bool) (text : List ℕ) (n : ℕ) (room : n < length text) where
  match_rest_lem :
      (patt : List ℕ) (p : ℕ)
      → p + length patt ≤ n
      → match_rest same patt text p ≡ some (is_prefix same patt (drop p (take n text)))
  unfolding match_rest
  match_rest_lem [] p h = refl
  match_rest_lem (c ∷ patt) p h =
      let (t, e) = get_elem?_lem text p (omega arith) in
      let e' : get_elem? (take n text) p ≡ some t = get_elem?-take n p text (omega arith) ∙ e in
      rw (e, drop_step (take n text) p t e')
        (ground (arith, match_rest_lem patt (suc p) (omega arith)))

  match_at_lem :
      (patt : List ℕ) (p : ℕ)
      → 0 < length patt
      → p + length patt ≤ n
      → match_at same patt text p ≡ some (is_prefix same patt (drop p (take n text)))
  unfolding match_at match_rest
  match_at_lem [] p pos h = elim pos [ ]
  match_at_lem (c ∷ patt) p pos h = match_rest_lem (c ∷ patt) p h

module _ {same : ℕ → ℕ → Bool} {marks : List ℕ → ℕ → ℕ → List ℕ} (law : IsMarking same marks)
    (text : List ℕ) (n : ℕ) (room : n < length text) (bytes : IsBytes text) (patt : List ℕ)
    (patt_pos : 0 < length patt) where
  abbrev table : List ℕ
  table = fill_shift marks (length patt) 0 patt (no_shift (length patt))

  -- A match at a distance below the table's would have put a smaller distance there.
  clash :
      (i d c k : ℕ)
      → get_elem? text (i + length patt) ≡ some c
      → get_elem? table c ≡ some d
      → is_prefix same patt (drop k (drop i (take n text))) ≡ true
      → 0 < k
      → k < d
      → ⊥
  clash i d c k ec ed m pos h =
      let size : ℕ = length patt in
      let byte : c < 256 = All_elem (λ x. x < 256) text (i + size) c bytes ec in
      let (d', ed', lo, hi) = fill_shift_bound law size patt c refl byte in
      let d-eq : d ≡ d' = ground arith in
      let (p, ep) = get_elem?_lem patt (size - k) (omega arith) in
      let (t, et, same_t) =
        is_prefix_elem same patt (drop k (drop i (take n text))) (size - k) p m ep in
      let s : List ℕ = take n text in
      let same_place : i + (k + (size - k)) ≡ i + size = omega arith in
      let et' : get_elem? text (i + size) ≡ some t = get_elem?_of_take n (i + size) text t (
        sym (ap (get_elem? s) same_place)
        ∙ sym (get_elem?-drop i (k + (size - k)) s)
        ∙ sym (get_elem?-drop k (size - k) (drop i s))
        ∙ et) in
      let tc : t ≡ c = ground arith in
      let (d'', ed'', lo', hi') =
        fill_shift_enter law size patt 0 (no_shift size) c (size + 1) (size - k) p (omega arith)
          (no_shift-Entry size c byte) ep (rw (← tc) same_t) in
      let d-eq' : d ≡ d'' = ground arith in omega arith

  -- The distance for the byte behind a position that does not match passes over no match.
  no_match_below :
      (i d c k : ℕ)
      → get_elem? text (i + length patt) ≡ some c
      → get_elem? table c ≡ some d
      → is_prefix same patt (drop i (take n text)) ≡ false
      → k < d
      → is_prefix same patt (drop k (drop i (take n text))) ≡ false
  no_match_below i d c zero ec ed miss h = miss
  no_match_below i d c (suc k) ec ed miss h =
      elim (Bool-cases (is_prefix same patt (drop (suc k) (drop i (take n text))))) [
        | inr m ↦ m
        | inl m ↦ absurd (clash i d c (suc k) ec ed m (omega arith) h)
      ]

  passed_over :
      (i d c : ℕ)
      → get_elem? text (i + length patt) ≡ some c
      → get_elem? table c ≡ some d
      → is_prefix same patt (drop i (take n text)) ≡ false
      → omap (λ r. i + d + r) (search_in same patt (drop (i + d) (take n text)))
        ≡ omap (λ r. i + r) (search_in same patt (drop i (take n text)))
  passed_over i d c ec ed miss =
      let rest = drop i (take n text) in
      rw
        (
          search_in_skip same patt rest d patt_pos (λ k. no_match_below i d c k ec ed miss),
          drop-drop d i (take n text),
        )
        (omap_add i d (search_in same patt (drop (i + d) (take n text))))

  scan_lem :
      (fuel i : ℕ)
      → n + 1 - length patt - i < fuel
      → scan same patt table text (n + 1 - length patt) fuel i
        ≡ some (omap (λ r. i + r) (search_in same patt (drop i (take n text))))
  unfolding scan
  scan_lem zero i h = elim h [ ]
  scan_lem (suc fuel) i h = elim (Bool-cases (ltb i (n + 1 - length patt))) [
    | inr past ↦
        let short : length (drop i (take n text)) < length patt =
          omega (arith, length-drop i (take n text), length-take n text, ltb-false past) in
        rw (past, search_in_short same patt (drop i (take n text)) short)
    | inl inside ↦
        let fits : i + length patt ≤ n = omega (arith, ltb-true inside) in
        rw (inside, match_at_lem same text n room patt i patt_pos fits)
          (elim (Bool-cases (is_prefix same patt (drop i (take n text)))) [
            | inl hit ↦
                rw (hit, search_in_hit same patt (drop i (take n text)) hit)
                  (ap some (ap some (omega arith)))
            | inr miss ↦
                let (c, ec) = get_elem?_lem text (i + length patt) (omega arith) in
                let byte : c < 256 = All_elem (λ x. x < 256) text (i + length patt) c bytes ec in
                let (d, ed, lo, hi) = fill_shift_bound law (length patt) patt c refl byte in
                rw (miss, ec, ed, scan_lem fuel (i + d) (omega arith))
                  (ap some (passed_over i d c ec ed miss))
          ])
  ]

-- `sunday` reads only the text and the byte behind it, ends, and returns the first position of the
-- searched bytes at which the pattern stands, or -1 where there is none: on a text with at least one
-- readable byte behind the searched ones (the NUL of a string), and a pattern that is not empty.
pub sunday_lem :
    (text : List ℕ) (n : ℕ) (patt : List ℕ)
    → n < length text
    → IsBytes text
    → 0 < length patt
    → sunday text n patt ≡ some (search_in ◌==◌ patt (take n text))
unfolding sunday
sunday_lem text n patt room bytes pos =
    scan_lem mark-IsMarking text n room bytes patt pos (n + 1 - length patt + 1) 0 (omega arith)
    ∙ ap some (omap_zero (search_in ◌==◌ patt (take n text)))

-- `sunday_case` is the same search up to the case of letters.
pub sunday_case_lem :
    (text : List ℕ) (n : ℕ) (patt : List ℕ)
    → n < length text
    → IsBytes text
    → 0 < length patt
    → sunday_case text n patt ≡ some (search_in bm_cmp patt (take n text))
unfolding sunday_case
sunday_case_lem text n patt room bytes pos =
    scan_lem mark_case-IsMarking text n room bytes patt pos (n + 1 - length patt + 1) 0
      (omega arith)
    ∙ ap some (omap_zero (search_in bm_cmp patt (take n text)))
