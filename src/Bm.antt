-- ===== src/Bm.antt =====
-- src/bm.c: the Sunday search, which the program calls as find_str and find_str_case.
-- A byte is a number below 256. `patt` is the pattern's `patt_size` bytes; `text` is everything that
-- can be read from the text pointer on, of which the first `text_size` bytes are searched. Sizes are
-- not negative. The result is `none` for a read outside the text, `some none` for -1.
pub mod Search
pub mod Extend
pub mod Shift
pub mod Correct
mod Tests
use trace_server.Base.{
  ℕ, zero, suc, ◌+◌, ◌-◌, Bool, true, false, ◌&&◌, ◌||◌, not, Option, none, some, List, [], ◌∷◌,
  ltb, leb, ◌==◌, if◌then◌else◌, ◌>>=◌, get_elem?, set, replicate, length,
}

pub is_upper : ℕ → Bool
is_upper c = leb b'A' c && leb c b'Z'

pub is_lower : ℕ → Bool
is_lower c = leb b'a' c && leb c b'z'

-- `_T`: the letter in the other case.
pub swap_case : ℕ → ℕ
unfolding is_upper is_lower
swap_case c = if is_upper c then c + 32 else if is_lower c then c - 32 else c

pub is_letter : ℕ → Bool
unfolding is_upper is_lower
is_letter c = is_upper c || is_lower c

-- `_CMP`
unfoldable pub bm_cmp : ℕ → ℕ → Bool
unfolding is_letter swap_case
bm_cmp s c =
    if is_letter s && is_letter c then (if s == c then true else s == swap_case c) else s == c

-- The table after the first loop of both functions: patt_size + 1 for every byte.
pub no_shift : ℕ → List ℕ
no_shift patt_size = replicate 256 (patt_size + 1)

-- One round of the second loop of `sunday`, and of `sunday_case`.
pub mark : List ℕ → ℕ → ℕ → List ℕ
mark shift c v = set shift c v

pub mark_case : List ℕ → ℕ → ℕ → List ℕ
unfolding swap_case
mark_case shift c v =
    let ch = swap_case c in if not (ch == c) then set (set shift c v) ch v else set shift c v

-- The second loop from index `i` on; the list is patt[i..patt_size).
pub fill_shift : (List ℕ → ℕ → ℕ → List ℕ) → ℕ → ℕ → List ℕ → List ℕ → List ℕ
fill_shift marks patt_size i [] shift = shift
fill_shift marks patt_size i (c ∷ patt) shift =
    fill_shift marks patt_size (i + 1) patt (marks shift c (patt_size - i))

-- The do-while loop; the list is patt[match_size..patt_size).
pub match_rest : (ℕ → ℕ → Bool) → List ℕ → List ℕ → ℕ → Option Bool
match_rest same [] text match_text = some true
match_rest same (c ∷ patt) text match_text = do
  t ← get_elem? text match_text
  if same t c then match_rest same patt text (match_text + 1) else some false

-- The body's test of position `i`. An empty pattern has no first byte to read.
pub match_at : (ℕ → ℕ → Bool) → List ℕ → List ℕ → ℕ → Option Bool
unfolding match_rest
match_at same [] text i = none
match_at same (c ∷ patt) text i = do
  t ← get_elem? text i
  if same t c then match_rest same patt text (i + 1) else some false

-- The third loop, on fuel; `none` also when the fuel runs out.
pub scan : (ℕ → ℕ → Bool) → List ℕ → List ℕ → List ℕ → ℕ → ℕ → ℕ → Option (Option ℕ)
scan same patt shift text limit zero i = none
scan same patt shift text limit (suc fuel) i =
    let next : Option (Option ℕ) = get_elem? text (i + length patt) >>= λ c.
    get_elem? shift c >>= λ d. scan same patt shift text limit fuel (i + d) in
    let body : Option (Option ℕ) =
      match_at same patt text i >>= λ hit. if hit then some (some i) else next in
    if ltb i limit then body else some none

-- The shift is at least 1, so limit + 1 rounds are enough.
unfoldable pub sunday : List ℕ → ℕ → List ℕ → Option (Option ℕ)
unfolding scan match_at fill_shift mark no_shift
sunday text text_size patt =
    let shift = fill_shift mark (length patt) 0 patt (no_shift (length patt)) in
    let limit = text_size + 1 - length patt in scan ◌==◌ patt shift text limit (limit + 1) 0

unfoldable pub sunday_case : List ℕ → ℕ → List ℕ → Option (Option ℕ)
unfolding scan match_at fill_shift mark_case no_shift bm_cmp
sunday_case text text_size patt =
    let shift = fill_shift mark_case (length patt) 0 patt (no_shift (length patt)) in
    let limit = text_size + 1 - length patt in scan bm_cmp patt shift text limit (limit + 1) 0
