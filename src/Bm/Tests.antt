-- ===== src/Bm/Tests.antt =====
-- Tests of the searches.
use trace_server.Base.{ℕ, ◌≡◌, refl, some, none, List, [], ◌∷◌, arith, take, ◌==◌}
use trace_server.Bm.{
  sunday, sunday_case, scan, match_at, match_rest, fill_shift, mark, mark_case, no_shift, bm_cmp,
  is_letter, is_upper, is_lower, swap_case,
}
use trace_server.Bm.Search.{search_in}
use trace_server.Bm.Correct.{IsBytes, sunday_lem}

-- "GET key" with its NUL, and "key"
abbrev text : List ℕ
text = b'G' ∷ b'k' ∷ b'K' ∷ b'e' ∷ b'y' ∷ 0 ∷ []

abbrev patt : List ℕ
patt = b'k' ∷ b'e' ∷ b'y' ∷ []

text-IsBytes : IsBytes text
text-IsBytes =
    (omega arith, (omega arith, (omega arith, (omega arith, (omega arith, (omega arith, tt))))))

sunday_lem_example : sunday text 5 patt ≡ some (search_in ◌==◌ patt (take 5 text))
sunday_lem_example = sunday_lem text 5 patt (omega arith) text-IsBytes (omega arith)

misses : sunday text 5 patt ≡ some none
unfolding sunday scan match_at match_rest fill_shift mark no_shift
misses = refl

finds : sunday_case text 5 patt ≡ some (some 2)
unfolding sunday_case scan match_at match_rest fill_shift mark_case no_shift bm_cmp is_letter
    is_upper is_lower swap_case
finds = refl
