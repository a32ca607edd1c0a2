-- ===== src/Libc/Laws.antt =====
-- Laws of the string functions.
use trace_server.Base.{
  ℕ, zero, suc, Bool, ◌+◌, ◌-◌, ◌≤◌, ◌<◌, ◌≡◌, refl, sym, subst, ap, ◌∙◌, omap-suc_inv, ◌⊎◌, inl,
  inr, ◌≢◌, true, false, some, List, [], ◌∷◌, ◌++◌, arith, leb, leb-true, ◌==◌, length, take, drop,
  take-length-append, drop-length-append, append_assoc, Bool-cases, All, length-append, length-take,
  length-drop, length-replicate, replicate, take_all, drop-replicate, replicate-snoc,
}
use trace_server.Libc.{strcmp_eq, snprintf, cstr, strlen, strchr, strncpy, read, write}

-- A buffer that holds a NUL.
abbrev pub IsTerminated : List ℕ → Type 0
IsTerminated s = (n : ℕ) × (strlen s ≡ some n)

-- A string is empty, or has a first byte and a shorter string behind it.
pub strlen_cases :
    (c : ℕ) (s : List ℕ) (n : ℕ)
    → strlen (c ∷ s) ≡ some n
    → ((c == 0 ≡ true) × (n ≡ 0)) ⊎ ((m : ℕ) × (c == 0 ≡ false) × (strlen s ≡ some m) × (n ≡ suc m))
strlen_cases c s n e = elim (Bool-cases (c == 0)) [
  | inl z ↦ inl (z, ground arith)
  | inr nz ↦ let (m, em, en) = omap-suc_inv (strlen s) n (rw nz at e) in inr (m, nz, em, en)
]

pub strlen_lem : (s : List ℕ) (n : ℕ) → strlen s ≡ some n → length (cstr s) ≡ n
strlen_lem [] n e = absurd (cc)
strlen_lem (c ∷ s) n e = elim (strlen_cases c s n e) [
  | inl (z, en) ↦ rw (z, en)
  | inr (m, nz, em, en) ↦ rw (nz, en) (ap suc (strlen_lem s m em))
]

pub strlen-lt : (s : List ℕ) (n : ℕ) → strlen s ≡ some n → n < length s
strlen-lt [] n e = absurd (cc)
strlen-lt (c ∷ s) n e = elim (strlen_cases c s n e) [
  | inl (z, en) ↦ omega arith
  | inr (m, nz, em, en) ↦ omega (arith, strlen-lt s m em)
]

pub take-strlen : (s : List ℕ) (n : ℕ) → strlen s ≡ some n → take n s ≡ cstr s
take-strlen [] n e = absurd (cc)
take-strlen (c ∷ s) n e = elim (strlen_cases c s n e) [
  | inl (z, en) ↦ rw (z, en)
  | inr (m, nz, em, en) ↦ rw (nz, en) (ap (λ t. c ∷ t) (take-strlen s m em))
]

-- The bytes of a string are no NULs; bytes that are none, before a NUL, are a string.
abbrev pub NoNul : List ℕ → Type 0
NoNul = All (λ c. c ≢ 0)

pub cstr-NoNul : (s : List ℕ) → NoNul (cstr s)
cstr-NoNul [] = tt
cstr-NoNul (c ∷ s) = elim (Bool-cases (c == 0)) [
  | inl z ↦ rw z tt
  | inr nz ↦ rw nz ((λ e. ground arith), cstr-NoNul s)
]

pub cstr-append : (s t : List ℕ) → NoNul s → cstr (s ++ (0 ∷ t)) ≡ s
cstr-append [] t h = refl
cstr-append (c ∷ s) t h =
    let nz : (c == 0) ≡ false = ground (arith, h.0) in rw nz (ap (λ r. c ∷ r) (cstr-append s t h.1))

pub strlen-append : (s t : List ℕ) → NoNul s → strlen (s ++ (0 ∷ t)) ≡ some (length s)
strlen-append [] t h = refl
strlen-append (c ∷ s) t h =
    let nz : (c == 0) ≡ false = ground (arith, h.0) in rw (nz, strlen-append s t h.1)

-- `read` and `write` within the object.
pub read_lem : (s : List ℕ) (i n : ℕ) → i + n ≤ length s → read s i n ≡ some (take n (drop i s))
read_lem s i n h = ground arith

pub write_lem :
    (dst : List ℕ) (i : ℕ) (bytes : List ℕ)
    → i + length bytes ≤ length dst
    → write dst i bytes ≡ some (take i dst ++ (bytes ++ drop (i + length bytes) dst))
write_lem dst i bytes h = ground arith

pub length-write :
    (dst : List ℕ) (i : ℕ) (bytes r : List ℕ) → write dst i bytes ≡ some r → length r ≡ length dst
length-write dst i bytes r e = elim (Bool-cases (leb (i + length bytes) (length dst))) [
  | inr no_room ↦ absurd (let e' = rw no_room at e in cc)
  | inl fits ↦
      let e' : take i dst ++ (bytes ++ drop (i + length bytes) dst) ≡ r = ground arith in
      omega (
        arith,
        ap length e',
        length-append (take i dst) (bytes ++ drop (i + length bytes) dst),
        length-append bytes (drop (i + length bytes) dst),
        length-take i dst,
        length-drop (i + length bytes) dst,
        leb-true fits,
      )
]

-- A write just behind a prefix.
pub write_after :
    (pre rest bytes : List ℕ) (i : ℕ)
    → i ≡ length pre
    → length bytes ≤ length rest
    → write (pre ++ rest) i bytes ≡ some ((pre ++ bytes) ++ drop (length bytes) rest)
write_after pre rest bytes i e h = rw e (
    write_lem (pre ++ rest) (length pre) bytes (omega (arith, length-append pre rest))
    ∙ ap some (
        rw (take-length-append pre rest, drop-length-append pre rest (length bytes), append_assoc)))

-- The first `ch`, behind bytes that are neither `ch` nor NUL.
pub strchr-append :
    (xs ys : List ℕ) (ch : ℕ)
    → All (λ c. c ≢ ch) xs
    → NoNul xs
    → strchr (xs ++ (ch ∷ ys)) ch ≡ some (some (length xs))
strchr-append [] ys ch h nn = let e : (ch == ch) ≡ true = ground arith in rw e refl
strchr-append (x ∷ xs) ys ch h nn =
    let other : (x == ch) ≡ false = ground (arith, h.0) in
    let nz : (x == 0) ≡ false = ground (arith, nn.0) in
    rw (other, nz, strchr-append xs ys ch h.1 nn.1) refl

-- A string that fits a zeroed buffer with a byte to spare.
pub strncpy_fits :
    (src : List ℕ) (n m : ℕ)
    → strlen src ≡ some n
    → n ≤ m
    → strncpy (replicate (suc m) 0) src m ≡ some (cstr src ++ (0 ∷ replicate (m - n) 0))
strncpy_fits src n m e h =
    let s = cstr src in
    let len : length s ≡ n = strlen_lem src n e in
    let out = s ++ replicate (m - n) 0 in
    let size : 0 + length out ≡ m =
      omega (arith, length-append s (replicate (m - n) 0), length-replicate {A = ℕ} (m - n) 0) in
    let room : 0 + length out ≤ length (replicate {A = ℕ} (suc m) 0) =
      omega (arith, length-replicate {A = ℕ} (suc m) 0) in
    rw (e, take_all m s (omega arith), len)
      (write_lem (replicate (suc m) 0) 0 out room
        ∙ ap (λ k. some (out ++ drop k (replicate (suc m) 0))) size
        ∙ ap (λ t. some (out ++ t)) (drop-replicate m 0)
        ∙ ap some (
            append_assoc s (replicate (m - n) 0) (0 ∷ [])
            ∙ ap (λ t. s ++ t) (replicate-snoc (m - n) 0)))

pub IsTerminated-append : (s t : List ℕ) → IsTerminated t → IsTerminated (s ++ t)
IsTerminated-append [] t h = h
IsTerminated-append (c ∷ s) t h = elim (Bool-cases (c == 0)) [
  | inl z ↦ (0, rw z refl)
  | inr nz ↦ let (n, e) = IsTerminated-append s t h in (suc n, rw (nz, e) refl)
]

-- snprintf into a buffer with room leaves a string there.
pub snprintf_fits :
    (dst : List ℕ) (i size : ℕ) (out : List ℕ)
    → 0 < size
    → i + size ≤ length dst
    → (r : List ℕ) × (snprintf dst i size out ≡ some r)
      × (length r ≡ length dst)
      × IsTerminated r
      × ((rest : List ℕ) × (r ≡ take i dst ++ (take (size - 1) out ++ (0 ∷ rest))))
snprintf_fits dst i size out some_size room =
    let nz : (size == 0) ≡ false = ground arith in
    let text = take (size - 1) out in
    let bytes = text ++ (0 ∷ []) in
    let rest = drop (i + length bytes) dst in
    let short : length bytes ≤ size =
      omega (arith, length-append text (0 ∷ []), length-take (size - 1) out) in
    let e = write_lem dst i bytes (omega (arith, short)) in
    (
      take i dst ++ (bytes ++ rest),
      rw nz e,
      length-write dst i bytes (take i dst ++ (bytes ++ rest)) e,
      IsTerminated-append (take i dst) (bytes ++ rest) (
          subst IsTerminated (sym (append_assoc text (0 ∷ []) rest))
            (IsTerminated-append text (0 ∷ rest) (0, refl))),
      (rest, ap (λ t. take i dst ++ t) (append_assoc text (0 ∷ []) rest)),
    )

pub strlen_pos : (s t : List ℕ) (c n : ℕ) → s ≡ c ∷ t → (c == 0) ≡ false → strlen s ≡ some n → 0 < n
strlen_pos s t c n shape nz e = elim (strlen_cases c t n (ap strlen (sym shape) ∙ e)) [
  | inl (z, en) ↦ absurd (cc)
  | inr (m, nz', em, en) ↦ omega (arith, en)
]

pub strcmp_eq-returns :
    (a b : List ℕ) → IsTerminated a → IsTerminated b → (r : Bool) × (strcmp_eq a b ≡ some r)
strcmp_eq-returns [] b (n, e) hb = absurd (cc)
strcmp_eq-returns (x ∷ a) [] ha (n, e) = absurd (cc)
strcmp_eq-returns (x ∷ a) (y ∷ b) (n, ea) (m, eb) = elim (Bool-cases (x == y)) [
  | inr differ ↦ (false, rw differ refl)
  | inl same ↦ elim (strlen_cases x a n ea) [
    | inl (z, en) ↦ (true, rw (same, z) refl)
    | inr (n', nz, en, more) ↦ elim (strlen_cases y b m eb) [
      | inl (z, em) ↦ absurd (ground arith)
      | inr (m', nz', em, more') ↦
          let (r, er) = strcmp_eq-returns a b (n', en) (m', em) in (r, rw (same, nz, er) refl)
    ]
  ]
]

-- What is left of a zeroed buffer is a string.
pub drop-IsTerminated : (k m : ℕ) → k < m → IsTerminated (drop k (replicate m 0))
drop-IsTerminated k zero h = absurd (omega arith)
drop-IsTerminated zero (suc m) h = (0, refl)
drop-IsTerminated (suc k) (suc m) h = drop-IsTerminated k m (omega arith)
