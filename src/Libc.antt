-- ===== src/Libc.antt =====
-- The C standard library's functions on strings and memory, as the program uses them. A pointer is
-- the list of the bytes that can be read from it on; `none` is a read or a write outside the object.
-- A C string is the bytes before the first NUL.
pub mod Laws
pub mod Print
use trace_server.Base.{
  ℕ, zero, suc, ◌+◌, ◌-◌, ◌*◌, Bool, true, false, ◌&&◌, Option, none, some, List, [], ◌∷◌, ◌++◌,
  ltb, leb, ◌==◌, if◌then◌else◌, ◌>>=◌, omap, length, take, drop, replicate,
}
use trace_server.Bm.Search.{search_in}

-- The string that a pointer points to, once `strlen` has found its end.
abbrev pub cstr : List ℕ → List ℕ
cstr [] = []
cstr (c ∷ s) = if c == 0 then [] else c ∷ cstr s

abbrev pub strlen : List ℕ → Option ℕ
strlen [] = none
strlen (c ∷ s) = if c == 0 then some 0 else omap suc (strlen s)

-- The offset of the first `ch`; `some none` is NULL.
abbrev pub strchr : List ℕ → ℕ → Option (Option ℕ)
strchr [] ch = none
strchr (c ∷ s) ch =
    if c == ch then some (some 0) else if c == 0 then some none else omap (omap suc) (strchr s ch)

abbrev pub strstr : List ℕ → List ℕ → Option (Option ℕ)
strstr s needle =
    strlen s >>= λ _. strlen needle >>= λ _. some (search_in ◌==◌ (cstr needle) (cstr s))

-- strcmp(a, b) == 0
abbrev pub strcmp_eq : List ℕ → List ℕ → Option Bool
strcmp_eq [] b = none
strcmp_eq (x ∷ a) [] = none
strcmp_eq (x ∷ a) (y ∷ b) =
    if x == y then (if x == 0 then some true else strcmp_eq a b) else some false

-- The `len` bytes from offset `i` on, and a write of bytes at offset `i`.
abbrev pub read : List ℕ → ℕ → ℕ → Option (List ℕ)
read src i len = if leb (i + len) (length src) then some (take len (drop i src)) else none

abbrev pub write : List ℕ → ℕ → List ℕ → Option (List ℕ)
write dst i bytes =
    if leb (i + length bytes) (length dst)
    then some (take i dst ++ (bytes ++ drop (i + length bytes) dst))
    else none

abbrev pub memcpy : List ℕ → ℕ → List ℕ → ℕ → ℕ → Option (List ℕ)
memcpy dst i src j len = read src j len >>= λ bytes. write dst i bytes

-- snprintf into a buffer of `size` bytes, with the whole output given: what fits, and a NUL.
abbrev pub snprintf : List ℕ → ℕ → ℕ → List ℕ → Option (List ℕ)
snprintf dst i size out =
    if size == 0 then some dst else write dst i (take (size - 1) out ++ (0 ∷ []))

abbrev pub is_digit : ℕ → Bool
is_digit c = leb b'0' c && leb c b'9'

-- The decimal value of leading digits, as `strtol` reads it before it limits the value.
abbrev pub digits_value : ℕ → List ℕ → ℕ
digits_value acc [] = acc
digits_value acc (c ∷ s) = if is_digit c then digits_value (acc * 10 + (c - b'0')) s else acc

-- The string, at most its first `n` bytes, and NULs up to `n` bytes.
abbrev pub strncpy : List ℕ → List ℕ → ℕ → Option (List ℕ)
strncpy dst src n =
    strlen src >>= λ _. let s = take n (cstr src) in write dst 0 (s ++ replicate (n - length s) 0)
