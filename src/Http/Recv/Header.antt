-- ===== src/Http/Recv/Header.antt =====
-- The header buffer: what it holds, and what one more byte does to it. And the reference for
-- `httpRequest_recv_header`: a walk along the bytes that have arrived.
use trace_server.Base.{
  ℕ, zero, suc, ◌-◌, ◌≤◌, ◌<◌, ◌≡◌, refl, ap, ◌∙◌, Bool, some, List, [], ◌∷◌, ◌++◌, arith, leb,
  ◌==◌, if◌then◌else◌, is_some, length, replicate, length-append, All-append, Bool-cases, inl, inr,
}
use trace_server.Libc.{cstr, write}
use trace_server.Libc.Laws.{write_after, IsTerminated}
use trace_server.Bm.Search.{search_in}
use trace_server.Bm.Correct.{IsBytes}
use trace_server.Text.{straddr}
use trace_server.Text.Laws.{straddr_lem, position}
use trace_server.Http.{
  HttpRequest, RecvResult, header_buf_full, header_recv_success, recv_empty, http_request_new,
}
use trace_server.Http.Recv.{blank_line}

-- The bytes received so far and NULs behind them; at least one NUL is left.
pub record Holds (r : HttpRequest) (got : List ℕ) : Type 0 where
  pub header_eq : r.header ≡ got ++ replicate (1024 - length got) 0
  pub len_eq : r.header_len ≡ length got
  pub fits : length got ≤ 1023
  pub bytes : IsBytes got

pub new-Holds : Holds http_request_new []
unfolding http_request_new
new-Holds = record { header_eq = refl; len_eq = refl; fits = omega arith; bytes = tt }

-- Whether the string that the header holds contains an empty line's end.
abbrev pub has_blank : List ℕ → Bool
has_blank got = is_some (position ◌==◌ (got ++ (0 ∷ [])) blank_line)

-- The result of a walk: what `recv_header` returns, the bytes of the header, and the bytes left.
unfoldable pub header_run : List ℕ → List ℕ → RecvResult × List ℕ × List ℕ
header_run got [] = (recv_empty, got, [])
header_run got (ch ∷ stream) =
    let got' = got ++ (ch ∷ []) in
    let next : RecvResult × List ℕ × List ℕ = header_run got' stream in
    if leb 1023 (length got')
    then (header_buf_full, got', stream)
    else if has_blank got'
    then (header_recv_success, got', stream)
    else next

cstr_padded : (got : List ℕ) (k : ℕ) → cstr (got ++ replicate (suc k) 0) ≡ cstr (got ++ (0 ∷ []))
cstr_padded [] k = refl
cstr_padded (c ∷ got) k = elim (Bool-cases (c == 0)) [
  | inl z ↦ rw z
  | inr nz ↦ rw nz (ap (λ t. c ∷ t) (cstr_padded got k))
]

padded-IsTerminated : (got : List ℕ) (k : ℕ) → IsTerminated (got ++ replicate (suc k) 0)
padded-IsTerminated [] k = (0, refl)
padded-IsTerminated (c ∷ got) k = elim (Bool-cases (c == 0)) [
  | inl z ↦ (0, rw z)
  | inr nz ↦ let (n, e) = padded-IsTerminated got k in (suc n, rw (nz, e))
]

zeros-IsBytes : (k : ℕ) → IsBytes (replicate k 0)
zeros-IsBytes zero = tt
zeros-IsBytes (suc k) = (omega arith, zeros-IsBytes k)

module _ (r : HttpRequest) (got : List ℕ) (h : Holds r got) where
  padding : (k : ℕ) × (1024 - length got ≡ suc k)
  padding = (1023 - length got, omega (arith, h.fits))

  -- The search for the empty line is a search in the bytes received.
  pub straddr-blank :
      straddr (some r.header) (some blank_line) ≡ some (position ◌==◌ (got ++ (0 ∷ [])) blank_line)
  straddr-blank =
      let (k, e) = padding in
      rw (h.header_eq, e)
        ((straddr_lem (got ++ replicate (suc k) 0) blank_line (padded-IsTerminated got k) (4, refl)
            (All-append (λ c. c < 256) got (replicate (suc k) 0) h.bytes (zeros-IsBytes (suc k)))).0
          ∙ ap (λ s. some (search_in ◌==◌ (cstr blank_line) s)) (cstr_padded got k))

  -- One more byte.
  pub write-byte :
      (ch : ℕ)
      → write r.header r.header_len (ch ∷ [])
        ≡ some ((got ++ (ch ∷ [])) ++ replicate (1024 - length (got ++ (ch ∷ []))) 0)
  write-byte ch =
      let (k, e) = padding in
      let room : 1 ≤ length (replicate {A = ℕ} (suc k) 0) = omega arith in
      let left : k ≡ 1024 - length (got ++ (ch ∷ [])) =
        omega (arith, length-append got (ch ∷ [])) in
      rw (h.header_eq, h.len_eq, e)
        (write_after got (replicate (suc k) 0) (ch ∷ []) (length got) refl room
          ∙ ap (λ m. some ((got ++ (ch ∷ [])) ++ replicate m 0)) left)
