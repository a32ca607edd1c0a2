-- ===== src/Text/Edit/Laws.antt =====
-- What the edits of src/user_string.c leave in the buffer.
use trace_server.Base.{
  ℕ, ◌+◌, ◌-◌, ◌≤◌, ◌<◌, ◌≡◌, ap, sym, ◌∙◌, ◌≢◌, inl, inr, Bool, true, false, ◌&&◌, some, List, [],
  ◌∷◌, ◌++◌, arith, ltb, ◌==◌, length, length-take, length-drop, length-append, take, drop,
  take-take, take-length, drop-take, append_assoc, take-append-drop, All-take, All-drop, All-append,
  Bool-cases,
}
use trace_server.Libc.{cstr, strlen, write, is_digit}
use trace_server.Libc.Laws.{
  NoNul, strlen_cases, strlen_lem, strlen-lt, take-strlen, cstr-NoNul, cstr-append, read_lem,
  write_after,
}
use trace_server.Bm.Search.{search_in, search_in_found}
use trace_server.Bm.Correct.{IsBytes}
use trace_server.Text.{find_str}
use trace_server.Text.Laws.{find_str-Finds}
use trace_server.Text.Edit.{splice_pin, insert, repalce_with_pin, isdigit_loop, isdigit_str}

module _ (src pin : List ℕ) (n i j : ℕ) (order : i ≤ j) (in_text : j ≤ n)
    (room : i + length pin + (n - j) < length src) (text : n < length src) where
  abbrev kept : List ℕ
  kept = take (n - j) (drop j src)

  length-kept : length kept ≡ n - j
  length-kept = omega (arith, length-take (n - j) (drop j src), length-drop j src)

  abbrev before : List ℕ
  before = take i src

  abbrev behind : List ℕ
  behind = drop (length pin) (drop i src)

  length-before : length before ≡ i
  length-before = omega (arith, length-take i src)

  length-behind : length behind ≡ length src - i - length pin
  length-behind = omega (arith, length-drop (length pin) (drop i src), length-drop i src)

  pin_written : write src i pin ≡ some ((before ++ pin) ++ behind)
  pin_written =
      ap (λ s. write s i pin) (sym (take-append-drop i src))
      ∙ write_after before (drop i src) pin i (sym length-before) (omega (arith, length-drop i src))

  kept_written :
      write ((before ++ pin) ++ behind) (i + length pin) kept
      ≡ some (((before ++ pin) ++ kept) ++ drop (length kept) behind)
  kept_written =
      write_after (before ++ pin) behind kept (i + length pin)
        (omega (arith, length-append before pin, length-before))
        (omega (arith, length-behind, length-kept))

  nul_written :
      write
        (((before ++ pin) ++ kept) ++ drop (length kept) behind)
        (i + length pin + (n - j))
        (0 ∷ [])
      ≡ some (((before ++ pin) ++ kept) ++ (0 ∷ drop 1 (drop (length kept) behind)))
  nul_written =
      write_after ((before ++ pin) ++ kept) (drop (length kept) behind) (0 ∷ [])
        (i + length pin + (n - j))
        (omega (
          arith,
          length-append (before ++ pin) kept,
          length-append before pin,
          length-before,
          length-kept,
        ))
        (omega (arith, length-drop (length kept) behind, length-behind, length-kept))
      ∙ ap some
          (append_assoc ((before ++ pin) ++ kept) (0 ∷ []) (drop 1 (drop (length kept) behind)))

  -- The bytes before `i`, the pin, the saved bytes and a NUL.
  splice_pin_lem :
      (rest : List ℕ) × (splice_pin src n i j pin (length pin)
        ≡ some (((before ++ pin) ++ kept) ++ (0 ∷ rest)))
  unfolding splice_pin
  splice_pin_lem = (
    drop 1 (drop (length kept) behind),
    rw
        (
          read_lem src j (n - j) (omega arith),
          read_lem pin 0 (length pin) (omega arith),
          take-length pin,
          pin_written,
          kept_written,
        )
        nul_written,
  )

-- The string that a splice leaves.
cstr-splice :
    (s pin : List ℕ) (n i j : ℕ) (rest : List ℕ)
    → strlen s ≡ some n
    → NoNul pin
    → i ≤ j
    → j ≤ n
    → cstr (((take i s ++ pin) ++ take (n - j) (drop j s)) ++ (0 ∷ rest))
      ≡ take i (cstr s) ++ (pin ++ drop j (cstr s))
cstr-splice s pin n i j rest en np order in_text =
    let front : take i s ≡ take i (cstr s) =
      sym (take-take i n s (omega arith)) ∙ ap (take i) (take-strlen s n en) in
    let back : take (n - j) (drop j s) ≡ drop j (cstr s) =
      sym (drop-take j n s) ∙ ap (drop j) (take-strlen s n en) in
    let string : NoNul ((take i (cstr s) ++ pin) ++ drop j (cstr s)) =
      All-append (λ c. c ≢ 0) (take i (cstr s) ++ pin) (drop j (cstr s))
        (All-append (λ c. c ≢ 0) (take i (cstr s)) pin
          (All-take (λ c. c ≢ 0) i (cstr s) (cstr-NoNul s)) np)
        (All-drop (λ c. c ≢ 0) j (cstr s) (cstr-NoNul s)) in
    rw (front, back)
      (cstr-append ((take i (cstr s) ++ pin) ++ drop j (cstr s)) rest string
        ∙ append_assoc (take i (cstr s)) pin (drop j (cstr s)))

module _ (s sub pin : List ℕ) (n : ℕ) (en : strlen s ≡ some n) (bytes : IsBytes s)
    (sub_pos : 0 < length sub) (np : NoNul pin) where
  found_by : find_str s n sub (length sub) ≡ some (search_in ◌==◌ sub (cstr s))
  found_by =
      find_str-Finds s n sub (length sub) (strlen-lt s n en) bytes sub_pos (omega arith)
      ∙ ap some (rw (take-length sub, take-strlen s n en))

  fits : (o : ℕ) → search_in ◌==◌ sub (cstr s) ≡ some o → o + length sub ≤ n
  fits o e = omega (arith, (search_in_found ◌==◌ sub (cstr s) o e).2, strlen_lem s n en)

  -- `insert` puts `pin` behind the first occurrence of `psub` in the string `psrc` and returns its
  -- offset, where the buffer has room for the longer string and its NUL.
  pub insert_lem :
      (o : ℕ)
      → n + length pin < length s
      → search_in ◌==◌ sub (cstr s) ≡ some o
      → (b : List ℕ) × (insert s n sub (length sub) pin (length pin) ≡ some (b, some o))
        × (cstr b ≡ take (o + length sub) (cstr s) ++ (pin ++ drop (o + length sub) (cstr s)))
  unfolding insert
  insert_lem o room e =
      let i = o + length sub in
      let in_text : i ≤ n = fits o e in
      let (rest, q) =
        splice_pin_lem s pin n i i (omega arith) in_text (omega arith) (omega arith) in
      (
        ((take i s ++ pin) ++ take (n - i) (drop i s)) ++ (0 ∷ rest),
        rw (found_by, e, q),
        cstr-splice s pin n i i rest en np (omega arith) in_text,
      )

  -- `repalce_with_pin`, where `psub` is not empty and occurs in the string `psrc`, `pin` has no NUL in its
  -- length, and the buffer has room for the new string and its NUL, returns 0 and puts `pin` in the place of
  -- the first occurrence of `psub`; what stands before and behind it is kept.
  pub repalce_with_pin_lem :
      (o : ℕ)
      → n + length pin < length s + length sub
      → search_in ◌==◌ sub (cstr s) ≡ some o
      → (b : List ℕ) × (repalce_with_pin s n sub (length sub) pin (length pin) ≡ some (b, some 0))
        × (cstr b ≡ take o (cstr s) ++ (pin ++ drop (o + length sub) (cstr s)))
  unfolding repalce_with_pin
  repalce_with_pin_lem o room e =
      let j = o + length sub in
      let in_text : j ≤ n = fits o e in
      let (rest, q) =
        splice_pin_lem s pin n o j (omega arith) in_text (omega (arith, strlen-lt s n en))
          (strlen-lt s n en) in
      (
        ((take o s ++ pin) ++ take (n - j) (drop j s)) ++ (0 ∷ rest),
        rw (found_by, e, q),
        cstr-splice s pin n o j rest en np (omega arith) in_text,
      )

pub all_digits : List ℕ → Bool
all_digits [] = true
all_digits (c ∷ s) = is_digit c && all_digits s

isdigit_loop_lem :
    (s : List ℕ) (n i : ℕ)
    → strlen s ≡ some n
    → (k : ℕ) × (isdigit_loop s i ≡ some (i + k, all_digits (cstr s)))
      × (all_digits (cstr s) ≡ true → k ≡ n)
unfolding isdigit_loop all_digits
isdigit_loop_lem [] n i e = absurd (cc)
isdigit_loop_lem (c ∷ s) n i e = elim (strlen_cases c s n e) [
  | inl (z, en) ↦ (0, rw z (ap (λ k. some (k, true)) (omega arith)), λ _. omega arith)
  | inr (m, nz, em, en) ↦ elim (Bool-cases (is_digit c)) [
    | inr nd ↦ (
      0,
      rw (nz, nd) (ap (λ k. some (k, false)) (omega arith)),
      λ h. absurd (let h' = rw (nz, nd) at h in cc),
    )
    | inl d ↦
        let (k, ek, full) = isdigit_loop_lem s m (i + 1) em in
        (
          k + 1,
          rw (nz, d) (ek ∙ ap (λ k'. some (k', all_digits (cstr s))) (omega arith)),
          λ h. let h' = rw (nz, d) at h in omega (arith, full h'),
        )
  ]
]

-- `isdigit_str` accepts exactly the strings of one or more decimal digits.
pub isdigit_str_lem :
    (s : List ℕ) (n : ℕ)
    → strlen s ≡ some n
    → isdigit_str (some s) ≡ some (ltb 0 n && all_digits (cstr s))
unfolding isdigit_str
isdigit_str_lem s n e =
    let (k, ek, full) = isdigit_loop_lem s n 0 e in rw ek (ap some (ground (arith, full)))
