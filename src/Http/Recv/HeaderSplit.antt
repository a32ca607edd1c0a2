-- ===== src/Http/Recv/HeaderSplit.antt =====
-- Where the header that `httpRequest_recv_header` accepts ends: at the first empty line.
use trace_server.Base.{
  leb-false, All-append, ℕ, ◌+◌, ◌<◌, ◌≡◌, refl, sym, ap, subst, ◌∙◌, true, false, none, some, List,
  [], ◌∷◌, ◌++◌, arith, leb, ◌==◌, if_cases, ◌≢◌, length, length-append, All-append, All-left,
  append_assoc, Option-cases, inl, inr,
}
use trace_server.Libevent.{Libevent, IsReliable}
use trace_server.Client.{Client}
use trace_server.Client.Recv.{IsOpen, available}
use trace_server.Bm.Correct.{IsBytes}
use trace_server.Libc.Laws.{NoNul, cstr-append}
use trace_server.Bm.Search.{search_in}
use trace_server.Bm.Extend.{search_in_append, search_in_last}
use trace_server.Http.{
  HttpRequest, http_request_new, RecvResult, header_buf_full, header_recv_success, recv_empty,
}
use trace_server.Http.Recv.{recv_header}
use trace_server.Http.Recv.Header.{Holds, new-Holds, has_blank, header_run}
use trace_server.Http.Recv.HeaderRun.{
  Walk, Agrees, resume, recv_header-header_run, header_run-append,
}

-- "\r\n\r\n" without its NUL
abbrev pub empty_line : List ℕ
empty_line = b'\r' ∷ b'\n' ∷ b'\r' ∷ b'\n' ∷ []

-- Of a walk that started with `got` before the bytes `s`.
abbrev Split : List ℕ → List ℕ → Walk → Type 0
Split got s run =
    run.0 ≡ header_recv_success
    → (got ++ s ≡ run.1 ++ run.2)
      × ((p : ℕ) × (search_in ◌==◌ empty_line (got ++ s) ≡ some p) × (p + 4 ≡ length run.1))

no_blank : (got : List ℕ) → NoNul got → has_blank got ≡ false → search_in ◌==◌ empty_line got ≡ none
no_blank got h e = elim (Option-cases (search_in ◌==◌ empty_line got)) [
  | inl miss ↦ miss
  | inr (r, found) ↦ absurd (let e' = rw (cstr-append got [] h, found) at e in cc)
]

blank_end :
    (got : List ℕ) (ch : ℕ) (s : List ℕ)
    → NoNul (got ++ (ch ∷ []))
    → search_in ◌==◌ empty_line got ≡ none
    → has_blank (got ++ (ch ∷ [])) ≡ true
    → Split got (ch ∷ s) (header_recv_success, got ++ (ch ∷ []), s)
blank_end got ch s h miss hit = elim (Option-cases (search_in ◌==◌ empty_line (got ++ (ch ∷ [])))) [
  | inl none_yet ↦
      absurd (let hit' = rw (cstr-append (got ++ (ch ∷ [])) [] h, none_yet) at hit in cc)
  | inr (p, found) ↦
      let same = append_assoc got (ch ∷ []) s in
      let there =
        subst (λ t. search_in ◌==◌ empty_line t ≡ some p) same
          (search_in_append ◌==◌ empty_line (got ++ (ch ∷ [])) s p found) in
      let last = search_in_last ◌==◌ empty_line got ch p miss found in
      λ _. (sym same, (p, there, omega (arith, length-append got (ch ∷ []))))
]

walk-Split :
    (got s : List ℕ)
    → NoNul (got ++ s)
    → search_in ◌==◌ empty_line got ≡ none
    → Split got s (header_run got s)
unfolding header_run
walk-Split got [] h miss = λ e. absurd (cc)
walk-Split got (ch ∷ s) h miss =
    let one = append_assoc got (ch ∷ []) s in
    let h' = subst NoNul (sym one) h in
    let now = All-left (λ c. c ≢ 0) (got ++ (ch ∷ [])) s h' in
    if_cases (Split got (ch ∷ s)) (leb 1023 (length (got ++ (ch ∷ [])))) _ _ (λ full e. absurd (cc))
      λ _.
        if_cases (Split got (ch ∷ s)) (has_blank (got ++ (ch ∷ []))) _ _
          (blank_end got ch s now miss)
          λ none_yet e.
            subst
              (λ t.
                (t ≡ (header_run (got ++ (ch ∷ [])) s).1 ++ (header_run (got ++ (ch ∷ [])) s).2)
                × ((p : ℕ) × (search_in ◌==◌ empty_line t ≡ some p)
                    × (p + 4 ≡ length (header_run (got ++ (ch ∷ [])) s).1)))
              one (walk-Split (got ++ (ch ∷ [])) s h' (no_blank (got ++ (ch ∷ [])) now none_yet) e)

empty_run :
    (got s : List ℕ)
    → length got < 1023
    → (header_run got s).0 ≡ recv_empty
    → length (header_run got s).1 < 1023
unfolding header_run
empty_run got [] h e = h
empty_run got (ch ∷ s) h e =
    let got' = got ++ (ch ∷ []) in
    let Small = λ (run : Walk). run.0 ≡ recv_empty → length run.1 < 1023 in
    if_cases Small (leb 1023 (length got')) _ _ (λ full e'. absurd (cc))
      (λ more.
        if_cases Small (has_blank got') _ _ (λ blank e'. absurd (cc))
          λ on. empty_run got' s (leb-false more))
      e

resume_empty : (w : Walk) (t : List ℕ) → w.0 ≡ recv_empty → resume w t ≡ header_run w.1 t
unfolding resume
resume_empty (recv_empty, got, stream) t e = refl
resume_empty (header_buf_full, got, stream) t e = absurd (cc)
resume_empty (header_recv_success, got, stream) t e = absurd (cc)
resume_empty (res, got, stream) t e = absurd (cc)

module _ (L : Libevent) (A : Type 0) where
  -- With buffers that do not fail and an input of bytes that are no NULs, `httpRequest_recv_header` on a
  -- new request returns. If it returns success, the header it holds is the input up to and with the
  -- first empty line ("\r\n\r\n" at position `p`, the first there is), and what stays unread is the
  -- rest of the input.
  pub recv_header-first_empty_line :
      IsReliable L
      → (c : Client L A) → IsOpen L A c
      → IsBytes (available L A c)
      → NoNul (available L A c)
      → (res : RecvResult) × (c' : Client L A) × (r' : HttpRequest) × (header : List ℕ)
        × (recv_header L A c http_request_new ≡ some (res, c', r'))
        × Holds r' header
        × (res ≡ header_recv_success
            → (available L A c ≡ header ++ available L A c')
              × ((p : ℕ) × (search_in ◌==◌ empty_line (available L A c) ≡ some p)
                  × (p + 4 ≡ length header)))
  recv_header-first_empty_line rel c o bytes no_nul =
      let run = header_run [] (available L A c) in
      let a =
        recv_header-header_run L A rel c http_request_new [] new-Holds o bytes (omega arith) in
      (
        run.0,
        a.client,
        a.request,
        run.1,
        a.returned,
        a.holds,
        λ e.
            let (whole, (p, there, last)) = walk-Split [] (available L A c) no_nul refl e in
            (whole ∙ ap (◌++◌ run.1) (sym a.rest), (p, there, last)),
      )

  -- A header that arrives in two pieces is received as if it had arrived in one. `c1` has received the
  -- first piece and `whole` both; the call on `c1` finds the header unfinished and returns empty with
  -- `r1`. Then a call on `c2`, which has received the second piece, and on `r1` returns what the call on
  -- `whole` returns, with the same header and the same bytes left unread.
  pub recv_header-pieces :
      IsReliable L
      → (c1 c2 whole : Client L A) (r : HttpRequest) (got : List ℕ) → Holds r got
      → length got < 1023
      → IsOpen L A c1
      → IsOpen L A c2
      → IsOpen L A whole
      → IsBytes (available L A c1)
      → IsBytes (available L A c2)
      → available L A whole ≡ available L A c1 ++ available L A c2
      → (d1 : Client L A) (r1 : HttpRequest) → recv_header L A c1 r ≡ some (recv_empty, d1, r1)
      → (res : RecvResult) × (d2 : Client L A) × (r2 : HttpRequest) × (d : Client L A)
        × (r' : HttpRequest) × (header : List ℕ) × (recv_header L A c2 r1 ≡ some (res, d2, r2))
        × (recv_header L A whole r ≡ some (res, d, r'))
        × Holds r2 header
        × Holds r' header
        × (available L A d2 ≡ available L A d)
  recv_header-pieces rel c1 c2 whole r got h room o1 o2 o bytes1 bytes2 split d1 r1 e =
      let s = available L A c1 in
      let t = available L A c2 in
      let run1 = header_run got s in
      let a1 = recv_header-header_run L A rel c1 r got h o1 bytes1 room in
      let first = sym a1.returned ∙ e in
      let empty : run1.0 ≡ recv_empty = cc in
      let same : a1.request ≡ r1 = cc in
      let h1 = subst (λ q. Holds q run1.1) same a1.holds in
      let a2 =
        recv_header-header_run L A rel c2 r1 run1.1 h1 o2 bytes2 (empty_run got s room empty) in
      let bytes = subst IsBytes (sym split) (All-append (λ x. x < 256) s t bytes1 bytes2) in
      let a = recv_header-header_run L A rel whole r got h o bytes room in
      let join : header_run got (available L A whole) ≡ header_run run1.1 t =
        ap (header_run got) split ∙ header_run-append got s t ∙ resume_empty run1 t empty in
      let b = subst (λ w. Agrees L A w (recv_header L A whole r)) join a in
      let run2 = header_run run1.1 t in
      (
        run2.0,
        a2.client,
        a2.request,
        b.client,
        b.request,
        run2.1,
        a2.returned,
        b.returned,
        a2.holds,
        b.holds,
        a2.rest ∙ sym b.rest,
      )
