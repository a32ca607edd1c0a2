-- ===== src/Text/Tests.antt =====
-- Tests of the string functions that search.
use trace_server.Base.{ℕ, ◌≡◌, refl, false, some, none, List, [], ◌∷◌, arith, ◌==◌}
use trace_server.Bm.{bm_cmp}
use trace_server.Bm.Correct.{IsBytes}
use trace_server.Text.{
  straddr, straddr_case, is_strexit_case, is_strnexit_case, strnaddr, strnaddr_case, strnexit_by,
  strnaddr_by, addr_by,
}
use trace_server.Text.Laws.{position, straddr_lem}

-- "a=1"
abbrev line : List ℕ
line = b'a' ∷ b'=' ∷ b'1' ∷ 0 ∷ []

abbrev eq_sign : List ℕ
eq_sign = b'=' ∷ 0 ∷ []

line-IsBytes : IsBytes line
line-IsBytes = (omega arith, (omega arith, (omega arith, (omega arith, tt))))

straddr_lem_example :
    (straddr (some line) (some eq_sign) ≡ some (position ◌==◌ line eq_sign))
    × (straddr_case (some line) (some eq_sign) ≡ some (position bm_cmp line eq_sign))
straddr_lem_example = straddr_lem line eq_sign (3, refl) (1, refl) line-IsBytes

no_text :
    (is_strexit_case none (some line) ≡ some false)
    × (is_strnexit_case (some line) 3 none 0 ≡ some false)
unfolding is_strexit_case is_strnexit_case strnexit_by addr_by
no_text = (refl, refl)

no_address :
    (strnaddr none 3 (some line) 3 ≡ some none) × (strnaddr_case (some line) 3 none 0 ≡ some none)
unfolding strnaddr strnaddr_case strnaddr_by
no_address = (refl, refl)
