-- ===== src/Text/Laws.antt =====
-- What the string searches of src/user_string.c return, on strings.
use trace_server.Base.{
  ℕ, ◌≤◌, ◌<◌, ◌≡◌, refl, ap, ◌∙◌, inl, inr, Bool, true, false, ◌||◌, Option, none, some, List,
  arith, ◌==◌, if◌then◌else◌, ◌>>=◌, length, length-take, take, is_some, Bool-cases,
}
use native.Mathlib.Nat.{le_of_lt}
use trace_server.Libc.{cstr, strlen}
use trace_server.Libc.Laws.{IsTerminated, strlen_lem, strlen-lt, take-strlen, read_lem}
use trace_server.Bm.{bm_cmp}
use trace_server.Bm.Search.{search_in, search_in_short}
use trace_server.Bm.Correct.{IsBytes, sunday_lem, sunday_case_lem}
use trace_server.Text.{
  Find, find_str, find_str_case, addr_by, straddr, straddr_case, is_strexit, is_strnexit,
}

-- A search that returns the first match under `same`, if a byte can be read behind the text.
abbrev pub Finds : (ℕ → ℕ → Bool) → Find → Type 0
Finds same find =
    (text : List ℕ) (n : ℕ) (f : List ℕ) (m : ℕ)
    → n < length text
    → IsBytes text
    → 0 < m
    → m ≤ length f
    → find text n f m ≡ some (search_in same (take m f) (take n text))

pub find_str-Finds : Finds ◌==◌ find_str
unfolding find_str
find_str-Finds text n f m room bytes pos fits =
    rw (read_lem f 0 m (omega arith))
      (sunday_lem text n (take m f) room bytes (omega (arith, length-take m f)))

pub find_str_case-Finds : Finds bm_cmp find_str_case
unfolding find_str_case
find_str_case-Finds text n f m room bytes pos fits =
    rw (read_lem f 0 m (omega arith))
      (sunday_case_lem text n (take m f) room bytes (omega (arith, length-take m f)))

if_same : (b : Bool) (o : Option (Option ℕ)) → (if b || true then some none else o) ≡ some none
if_same true o = refl
if_same false o = refl

module _ (same : ℕ → ℕ → Bool) (find : Find) (finds : Finds same find) where
  pub addr_by_lem :
      (s f : List ℕ)
      → IsTerminated s
      → IsTerminated f
      → IsBytes s
      → addr_by find (some s) (some f)
        ≡ some (if length (cstr f) == 0 then none else search_in same (cstr f) (cstr s))
  unfolding addr_by
  addr_by_lem s f (n, en) (m, em) bytes = elim (Bool-cases (m == 0)) [
    | inl z ↦ rw (en, em, strlen_lem f m em, z) (if_same (n == 0) (find s n f m))
    | inr nz ↦ elim (Bool-cases (n == 0)) [
      | inl z ↦
          let short : search_in same (cstr f) (cstr s) ≡ none =
            search_in_short same (cstr f) (cstr s)
              (ground (arith, strlen_lem f m em, strlen_lem s n en)) in
          rw (en, em, strlen_lem f m em, nz, z, short)
      | inr nz' ↦
          rw (en, em, strlen_lem f m em, nz, nz')
            (finds s n f m (strlen-lt s n en) bytes (ground arith) (le_of_lt (strlen-lt f m em))
              ∙ ap some (rw (take-strlen s n en, take-strlen f m em)))
    ]
  ]

-- The first place where the string `f` stands in the string `s`, by `same`; an empty `f` stands nowhere.
abbrev pub position : (ℕ → ℕ → Bool) → List ℕ → List ℕ → Option ℕ
position same s f = if length (cstr f) == 0 then none else search_in same (cstr f) (cstr s)

-- On two strings `straddr` reads nothing outside them and returns the address of the first occurrence
-- of the second in the first, NULL if there is none or the second is empty; `straddr_case` does the
-- same up to the case of letters.
pub straddr_lem :
    (s f : List ℕ)
    → IsTerminated s
    → IsTerminated f
    → IsBytes s
    → (straddr (some s) (some f) ≡ some (position ◌==◌ s f))
      × (straddr_case (some s) (some f) ≡ some (position bm_cmp s f))
unfolding straddr straddr_case
straddr_lem s f hs hf bytes = (
  addr_by_lem ◌==◌ find_str find_str-Finds s f hs hf bytes,
  addr_by_lem bm_cmp find_str_case find_str_case-Finds s f hs hf bytes,
)

push_if :
    (b : Bool) (o : Option (Option ℕ))
    → (if b then some false else (o >>= λ offset. some (is_some offset)))
      ≡ ((if b then some none else o) >>= λ offset. some (is_some offset))
push_if true o = refl
push_if false o = refl

strnexit_addr :
    (s f : List ℕ) (n m : ℕ)
    → strlen s ≡ some n
    → strlen f ≡ some m
    → is_strnexit (some s) n (some f) m ≡ is_strexit (some s) (some f)
unfolding is_strnexit is_strexit addr_by
strnexit_addr s f n m en em = rw (en, em) (push_if (n == 0 || m == 0) (find_str s n f m))

-- `isStrexit` and `isStrnexit` (given the strings' own lengths) return 1 exactly where `straddr` returns
-- an address.
exit-straddr :
    (s f : List ℕ) (n m : ℕ)
    → strlen s ≡ some n
    → strlen f ≡ some m
    → IsBytes s
    → (is_strexit (some s) (some f) ≡ some (is_some (position ◌==◌ s f)))
      × (is_strnexit (some s) n (some f) m ≡ some (is_some (position ◌==◌ s f)))
unfolding is_strexit is_strnexit
exit-straddr s f n m en em bytes = (exits, strnexit_addr s f n m en em ∙ exits)
  where
    exits : is_strexit (some s) (some f) ≡ some (is_some (position ◌==◌ s f))
    exits = rw (addr_by_lem ◌==◌ find_str find_str-Finds s f (n, en) (m, em) bytes)
