-- ===== src/UserTime/Year.antt =====
-- The year in a text of src/user_time.c, and how `check_gmt_time` reads it.
use trace_server.Base.{
  ℕ, ◌+◌, ◌*◌, ◌≤◌, ◌<◌, ◌≡◌, ◌≢◌, refl, sym, ap, ◌∙◌, true, false, some, List, [], ◌∷◌, ◌++◌, All,
  All-append, arith, ◌==◌, length, length-append, take, drop-length-append, append_assoc, replicate,
}
use trace_server.Base.Int.{pos}
use trace_server.Libc.{strchr, is_digit, read, memcpy}
use trace_server.Libc.Laws.{NoNul, strchr-append, read_lem}
use trace_server.Libc.Print.{strtol}
use trace_server.UserTime.{year_read}

-- "20", the two digits of a year, and the dash behind it.
abbrev pub year_digits : ℕ → ℕ → List ℕ
year_digits tens ones = b'2' ∷ b'0' ∷ (b'0' + tens) ∷ (b'0' + ones) ∷ []

digit-IsDigit : (d : ℕ) → d < 10 → is_digit (b'0' + d) ≡ true
digit-IsDigit d h = ground arith

strtol-year :
    (tens ones : ℕ)
    → tens < 10
    → ones < 10
    → strtol (year_digits tens ones ++ replicate 6 0) ≡ pos (2000 + (tens * 10 + ones))
strtol-year tens ones ht ho =
    let nz : ((b'0' + tens) == 0) ≡ false = ground arith in
    let nz' : ((b'0' + ones) == 0) ≡ false = ground arith in
    rw (nz, nz', digit-IsDigit tens ht, digit-IsDigit ones ho) (ap pos (ground arith))

-- What stands before the year, and what stands behind it.
unfoldable pub year_text : List ℕ → ℕ → ℕ → List ℕ → List ℕ
year_text lab tens ones more = lab ++ (b':' ∷ b' ' ∷ (year_digits tens ones ++ (b'-' ∷ more)))

text-space :
    (lab more : List ℕ) (tens ones : ℕ)
    → NoNul lab
    → All (λ c. c ≢ b' ') lab
    → strchr (year_text lab tens ones more) b' ' ≡ some (some (length lab + 1))
unfolding year_text
text-space lab more tens ones nn ns =
    ap (λ t. strchr t b' ')
      (sym (append_assoc lab (b':' ∷ []) (b' ' ∷ (year_digits tens ones ++ (b'-' ∷ more)))))
    ∙ strchr-append (lab ++ (b':' ∷ [])) (year_digits tens ones ++ (b'-' ∷ more)) b' '
        (All-append (λ c. c ≢ b' ') lab (b':' ∷ []) ns ((λ e. omega arith), tt))
        (All-append (λ c. c ≢ 0) lab (b':' ∷ []) nn ((λ e. omega arith), tt))
    ∙ ap (λ n. some (some n)) (length-append lab (b':' ∷ []))

abbrev pub before_dash : ℕ → ℕ → List ℕ
before_dash tens ones = b':' ∷ b' ' ∷ year_digits tens ones

before_dash-Other :
    (tens ones c : ℕ) → c < b'0' → c ≢ b' ' → All (λ b. b ≢ c) (before_dash tens ones)
before_dash-Other tens ones c low other = (
  (λ e. omega arith),
  (
    (λ e. other (sym e)),
    ((λ e. omega arith), ((λ e. omega arith), ((λ e. omega arith), ((λ e. omega arith), tt)))),
  ),
)

text-dash :
    (lab more : List ℕ) (tens ones : ℕ)
    → NoNul lab
    → All (λ c. c ≢ b'-') lab
    → strchr (year_text lab tens ones more) b'-' ≡ some (some (length lab + 6))
unfolding year_text
text-dash lab more tens ones nn nd =
    let behind = before_dash tens ones in
    ap (λ t. strchr t b'-') (sym (append_assoc lab behind (b'-' ∷ more)))
    ∙ strchr-append (lab ++ behind) more b'-'
        (All-append (λ c. c ≢ b'-') lab behind nd
          (before_dash-Other tens ones b'-' (omega arith) (λ e. omega arith)))
        (All-append (λ c. c ≢ 0) lab behind nn
          (before_dash-Other tens ones 0 (omega arith) (λ e. omega arith)))
    ∙ ap (λ n. some (some n)) (length-append lab behind)

text-year :
    (lab more : List ℕ) (tens ones : ℕ)
    → memcpy (replicate 10 0) 0 (year_text lab tens ones more) (length lab + 1 + 1) 4
      ≡ some (year_digits tens ones ++ replicate 6 0)
unfolding year_text
text-year lab more tens ones =
    let rest = b':' ∷ b' ' ∷ (year_digits tens ones ++ (b'-' ∷ more)) in
    let at_year : length lab + 1 + 1 ≡ length lab + 2 = omega arith in
    let room : length lab + 2 + 4 ≤ length (lab ++ rest) = omega (arith, length-append lab rest) in
    let bytes : read (lab ++ rest) (length lab + 1 + 1) 4 ≡ some (year_digits tens ones) =
      rw at_year (
        read_lem (lab ++ rest) (length lab + 2) 4 room
        ∙ ap (λ t. some (take 4 t)) (drop-length-append lab rest 2)) in
    rw bytes refl

pub year_read-year :
    (lab more : List ℕ) (tens ones : ℕ)
    → NoNul lab
    → All (λ c. c ≢ b' ') lab
    → All (λ c. c ≢ b'-') lab
    → tens < 10
    → ones < 10
    → year_read (year_text lab tens ones more) ≡ some (some (pos (2000 + (tens * 10 + ones))))
unfolding year_read
year_read-year lab more tens ones nn ns nd ht ho =
    let near : (length lab + 6 == length lab + 1 + 1 + 4) ≡ true = ground arith in
    rw
      (
        text-space lab more tens ones nn ns,
        text-dash lab more tens ones nn nd,
        near,
        text-year lab more tens ones,
      )
      (ap (λ y. some (some y)) (strtol-year tens ones ht ho))
