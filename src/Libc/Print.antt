-- ===== src/Libc/Print.antt =====
-- How the C library prints and reads an `int`: the conversions of printf, and atoi.
use trace_server.Base.{
  ℕ, zero, suc, ◌+◌, ◌-◌, ◌/◌, ◌%◌, ◌^◌, ◌≡◌, ◌<◌, refl, Bool, ◌||◌, ◌&&◌, List, [], ◌∷◌, ◌++◌, ltb,
  leb, ◌==◌, if◌then◌else◌, lt→ltb, min,
}
use trace_server.Base.Int.{ℤ, pos, negsuc}
use trace_server.Libc.{cstr, digits_value}

-- The decimal digits of a number, of which there are at most `fuel`.
unfoldable pub digits_of : ℕ → ℕ → List ℕ
digits_of zero n = []
digits_of (suc fuel) n =
    let rest = digits_of fuel (n / 10) in
    if ltb n 10 then (b'0' + n) ∷ [] else rest ++ ((b'0' + n % 10) ∷ [])

-- A number has no more digits than its value and one.
unfoldable pub decimal : ℕ → List ℕ
unfolding digits_of
decimal n = digits_of (suc n) n

-- %d
unfoldable pub int_text : ℤ → List ℕ
unfolding decimal
int_text (pos n) = decimal n
int_text (negsuc n) = b'-' ∷ decimal (suc n)

-- %02d
unfoldable pub two_places : ℤ → List ℕ
unfolding decimal
two_places (pos n) = if ltb n 10 then b'0' ∷ decimal n else decimal n
two_places (negsuc n) = b'-' ∷ decimal (suc n)

abbrev pub negated : ℕ → ℤ
negated zero = pos 0
negated (suc n) = negsuc n

-- x / 10 and x % 10, which round to 0.
abbrev pub quot_ten : ℤ → ℤ
quot_ten (pos n) = pos (n / 10)
quot_ten (negsuc n) = negated (suc n / 10)

abbrev pub rem_ten : ℤ → ℤ
rem_ten (pos n) = pos (n % 10)
rem_ten (negsuc n) = negated (suc n % 10)

-- An `unsigned int` as %d prints it.
abbrev pub as_int : ℕ → ℤ
as_int n = if ltb n (2 ^ 31) then pos n else negsuc (2 ^ 32 - n - 1)

abbrev is_space : ℕ → Bool
is_space c = c == b' ' || (leb 9 c && leb c 13)

abbrev skip_spaces : List ℕ → List ℕ
skip_spaces [] = []
skip_spaces (c ∷ s) = if is_space c then skip_spaces s else c ∷ s

abbrev signed : List ℕ → ℤ
signed [] = pos 0
signed (c ∷ s) =
    if c == b'-'
    then negated (min (digits_value 0 s) (2 ^ 63 - 1))
    else if c == b'+'
    then pos (min (digits_value 0 s) (2 ^ 63 - 1))
    else pos (min (digits_value 0 (c ∷ s)) (2 ^ 63 - 1))

-- strtol in base 10, before it is cut to an `int`; the caller's texts have a few digits.
abbrev pub strtol : List ℕ → ℤ
strtol s = signed (skip_spaces (cstr s))

pub decimal_digit : (n : ℕ) → n < 10 → decimal n ≡ (b'0' + n) ∷ []
unfolding decimal
decimal_digit n h = rw (lt→ltb n 10 h) refl
