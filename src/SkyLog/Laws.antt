-- ===== src/SkyLog/Laws.antt =====
-- What the check of a creation date accepts.
use trace_server.Base.{
  ℕ, suc, ◌≡◌, refl, ap, Bool, true, false, not, some, List, [], ◌∷◌, arith, ltb, leb,
  if◌then◌else◌, inl, inr,
}
use trace_server.Libc.{strlen, is_digit}
use trace_server.Libc.Laws.{strlen_cases}
use trace_server.SkyLog.{create_data_goes_on, create_data_loop, check_create_data}

stops : (c : ℕ) → create_data_goes_on 0 c ≡ false
stops c = go (is_digit c)
  where
    go : (b : Bool) → (if not b then false else false) ≡ false
    go true = refl
    go false = refl

-- `_skylog_check_create_data` accepts every string that is not empty, whatever its form, and refuses the
-- empty one: its first two tests ask for an index below 4 and for the index 4, so that the loop stops
-- at the first byte.
pub check_create_data_lem :
    (s : List ℕ) (n : ℕ) → strlen s ≡ some n → check_create_data s ≡ some (ltb 0 n)
unfolding check_create_data create_data_loop
check_create_data_lem [] n e = absurd (cc)
check_create_data_lem (c ∷ s) n e = elim (strlen_cases c s n e) [
  | inl (z, en) ↦ rw (e, z, en)
  | inr (m, nz, em, en) ↦
      let small : (if leb (suc m) 0 then false else true) ≡ ltb 0 (suc m) = ground arith in
      rw (e, nz, en, stops c) (ap some small)
]
