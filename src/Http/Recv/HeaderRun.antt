-- ===== src/Http/Recv/HeaderRun.antt =====
-- `httpRequest_recv_header` is the walk `header_run` along the bytes that have arrived, and so does not
-- depend on the pieces in which they arrive.
use trace_server.Base.{
  ℕ, zero, suc, ◌+◌, ◌-◌, ◌≤◌, ◌<◌, ◌≡◌, refl, sym, ap, subst, ◌∙◌, Bool, true, false, some, List,
  [], ◌∷◌, ◌++◌, arith, leb, leb-false, leb-true, inl, inr, if◌then◌else◌, if_cases, length, take,
  length-append, All-append, Bool-cases,
}
use trace_server.Libevent.{Libevent, IsReliable}
use trace_server.Client.{Client, recv_client}
use trace_server.Client.Recv.{
  IsOpen, available, recv_client_lem, recv_client_reliable, got as taken,
}
use trace_server.Bm.Correct.{IsBytes}
use trace_server.Http.{
  HttpRequest, RecvResult, header_buf_full, header_recv_success, recv_empty, is_header_full,
}
use trace_server.Http.Recv.{Outcome, recv_header_loop, recv_header}
use trace_server.Http.Recv.Header.{Holds, has_blank, header_run}
use trace_server.Http.Recv.HeaderRound.{longer, longer-Holds, loop_round, Arrived}

abbrev pub Walk : Type 0
Walk = RecvResult × List ℕ × List ℕ

nil_of_take : (s : List ℕ) → take 1 s ≡ [] → s ≡ []
nil_of_take [] e = refl
nil_of_take (x ∷ s) e = absurd (cc)

module _ (L : Libevent) (A : Type 0) where
  -- A call that agrees with a walk.
  pub record Agrees (run : RecvResult × List ℕ × List ℕ) (o : Outcome L A) : Type 0 where
    pub client : Client L A
    pub request : HttpRequest
    pub returned : o ≡ some (run.0, client, request)
    pub holds : Holds request run.1
    pub still_open : IsOpen L A client
    pub rest : available L A client ≡ run.2

  agree_step :
      (b1 b2 : Bool) (got s : List ℕ) (run : Walk) (c : Client L A) (r : HttpRequest)
      (o : Outcome L A)
      → Holds r got
      → IsOpen L A c
      → available L A c ≡ s
      → (b1 ≡ false → Agrees run o)
      → Agrees
          (if b1
            then (header_buf_full, got, s)
            else if b2
            then (header_recv_success, got, s)
            else run)
          (if b1
            then some (header_buf_full, c, r)
            else if b2
            then some (header_recv_success, c, r)
            else o)
  agree_step true b2 got s run c r o h op e next = record {
    client = c;
    request = r;
    returned = refl;
    holds = h;
    still_open = op;
    rest = e;
  }
  agree_step false true got s run c r o h op e next = record {
    client = c;
    request = r;
    returned = refl;
    holds = h;
    still_open = op;
    rest = e;
  }
  agree_step false false got s run c r o h op e next = next refl

  loop_runs :
      IsReliable L
      → (fuel : ℕ) (c : Client L A) (r : HttpRequest) (got : List ℕ) → Holds r got
      → IsOpen L A c
      → IsBytes (available L A c)
      → length got < 1023
      → 1023 ≤ length got + fuel
      → Agrees (header_run got (available L A c)) (recv_header_loop L A fuel c r)
  unfolding header_run
  loop_runs rel zero c r got h o bytes room enough = absurd (omega arith)
  loop_runs rel (suc fuel) c r got h o bytes room enough =
      loop_round L A (Agrees (header_run got (available L A c))) c r got fuel h o bytes room
        (λ e. absurd (let e' = sym e ∙ arrived in cc))
        (λ e. nothing (nil_of_take (available L A c) (ap (taken L A) (sym arrived ∙ e))) e)
        (λ ch e a.
          subst (λ s. Agrees (header_run got s) (round ch)) a.rest
            (agree_step (leb 1023 (length (got ++ (ch ∷ [])))) (has_blank (got ++ (ch ∷ [])))
              (got ++ (ch ∷ [])) (available L A c')
              (header_run (got ++ (ch ∷ [])) (available L A c')) c'
              (longer L A r (got ++ (ch ∷ []))) _ (one_more ch a) a.rest_open refl
              λ more.
                loop_runs rel fuel c' (longer L A r (got ++ (ch ∷ []))) (got ++ (ch ∷ []))
                  (one_more ch a) a.rest_open a.rest_bytes (leb-false more)
                  (omega (arith, length-append got (ch ∷ [])))))
    where
      c' : Client L A
      c' = (recv_client L A c 1).1

      arrived : (recv_client L A c 1).0 ≡ some (take 1 (available L A c))
      arrived = recv_client_reliable L A rel c 1 (omega arith) o

      round : ℕ → Outcome L A
      round ch =
          let got' = got ++ (ch ∷ []) in
          if leb 1023 (length got')
          then some (header_buf_full, c', longer L A r got')
          else if has_blank got'
          then some (header_recv_success, c', longer L A r got')
          else recv_header_loop L A fuel c' (longer L A r got')

      nothing :
          available L A c ≡ []
          → (recv_client L A c 1).0 ≡ some []
          → Agrees (header_run got (available L A c)) (some (recv_empty, c', r))
      nothing z e =
          let law = recv_client_lem L A c 1 o in
          subst (λ s. Agrees (header_run got s) (some (recv_empty, c', r))) (sym z)
            (record {
              client = c';
              request = r;
              returned = refl;
              holds = h;
              still_open = law.still_open;
              rest = ap (λ l. taken L A l ++ available L A c') (sym e) ∙ law.conserved ∙ z;
            })

      one_more :
          (ch : ℕ) → Arrived L A c ch → Holds (longer L A r (got ++ (ch ∷ []))) (got ++ (ch ∷ []))
      one_more ch a =
          longer-Holds L A r (got ++ (ch ∷ [])) (omega (arith, length-append got (ch ∷ [])))
            (All-append (λ x. x < 256) got (ch ∷ []) h.bytes (a.byte, tt))

  -- With buffers that do not fail, `httpRequest_recv_header` on a header that is not full returns what
  -- the walk along the arrived bytes returns, leaves the header with the walk's bytes, and leaves the
  -- rest of the input unread: it stops at the first byte that completes an empty line or fills the
  -- buffer, and reads no byte of the content.
  pub recv_header-header_run :
      IsReliable L
      → (c : Client L A) (r : HttpRequest) (got : List ℕ) → Holds r got
      → IsOpen L A c
      → IsBytes (available L A c)
      → length got < 1023
      → Agrees (header_run got (available L A c)) (recv_header L A c r)
  unfolding recv_header
  recv_header-header_run rel c r got h o bytes room =
      if_cases (Agrees (header_run got (available L A c))) (is_header_full r)
        (some (header_buf_full, c, r)) (recv_header_loop L A (1024 - r.header_len) c r)
        (λ full. absurd (omega (arith, leb-true full, h.len_eq)))
        λ _. loop_runs rel (1024 - r.header_len) c r got h o bytes room (omega (arith, h.len_eq))

-- To go on where a walk stopped for want of input.
unfoldable pub resume : Walk → List ℕ → Walk
resume (recv_empty, got, stream) more = header_run got more
resume (res, got, stream) more = (res, got, stream ++ more)

-- A header that arrives in two pieces is received as if it had arrived in one: where the first piece
-- completes it, the second stays unread, and where it does not, the next call goes on.
pub header_run-append : (got s t : List ℕ) → header_run got (s ++ t) ≡ resume (header_run got s) t
unfolding header_run resume
header_run-append got [] t = refl
header_run-append got (ch ∷ s) t = elim (Bool-cases (leb 1023 (length (got ++ (ch ∷ []))))) [
  | inl full ↦ rw full
  | inr more ↦ elim (Bool-cases (has_blank (got ++ (ch ∷ [])))) [
    | inl blank ↦ rw (more, blank)
    | inr on ↦ rw (more, on) (header_run-append (got ++ (ch ∷ [])) s t)
  ]
]
