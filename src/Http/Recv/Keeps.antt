-- ===== src/Http/Recv/Keeps.antt =====
-- What every read keeps, `httpRequest_recv_header` and `httpRequest_recv_context` keep.
use trace_server.Base.{
  ℕ, zero, suc, ◌+◌, ◌-◌, ◌≡◌, refl, Bool, Option, none, some, List, [], ◌∷◌, leb, ltb, min,
  is_some, if◌then◌else◌, if_cases, ◌>>=◌, length,
}
use trace_server.Base.Int.{pos_part}
use trace_server.Libevent.{Libevent}
use trace_server.Client.{Client, recv_client}
use trace_server.Libc.{write}
use trace_server.Text.{straddr}
use trace_server.Http.{
  HttpRequest, RecvResult, header_buf_full, header_recv_success, context_recv_success, socket_error,
  is_header_full, header_buf_size,
}
use trace_server.Http.Recv.{
  blank_line, Outcome, recv_header_loop, recv_header, recv_context_loop, recv_context,
  context_buf_init,
}

module _ (L : Libevent) (A : Type 0) (P : Client L A → Type 0)
    (keep : (c : Client L A) (n : ℕ) → P c → P (recv_client L A c n).1) where
  -- The client that a call leaves.
  pub data Ends : Outcome L A → Type 0 where
    faults : Ends none
    ends : (res : RecvResult) (c : Client L A) (r : HttpRequest) → P c → Ends (some (res, c, r))

  bind-Ends :
      {X : Type 0} (o : Option X) (f : X → Outcome L A) → ((x : X) → Ends (f x)) → Ends (o >>= f)
  bind-Ends none f h = faults
  bind-Ends (some x) f h = h x

  header_loop-Ends :
      (fuel : ℕ) (c : Client L A) (r : HttpRequest) → P c → Ends (recv_header_loop L A fuel c r)
  unfolding recv_header_loop
  header_loop-Ends zero c r p = faults
  header_loop-Ends (suc fuel) c r p = go (header_loop-Ends fuel) (recv_client L A c 1).0 refl
    where
      c' : Client L A
      c' = (recv_client L A c 1).1

      kept : P c'
      kept = keep c 1 p

      after_found : HttpRequest → Option ℕ → Outcome L A
      after_found r' found =
          if is_some found
          then some (header_recv_success, c', r')
          else recv_header_loop L A fuel c' r'

      after_search : HttpRequest → Outcome L A
      after_search r' = straddr (some r'.header) (some blank_line) >>= after_found r'

      after_write : ℕ → List ℕ → List ℕ → Outcome L A
      after_write ch more header =
          let r' : HttpRequest = record r {
            header = header;
            header_len = r.header_len + length (ch ∷ more);
          } in
          if is_header_full r' then some (header_buf_full, c', r') else after_search r'

      go :
          ((c : Client L A) (r : HttpRequest) → P c → Ends (recv_header_loop L A fuel c r))
          → (len : Option (List ℕ)) → (recv_client L A c 1).0 ≡ len
          → Ends (recv_header_loop L A (suc fuel) c r)
      go again none e = rw (recv_header_loop, e) (ends _ _ _ (keep c 1 p))
      go again (some []) e = rw (recv_header_loop, e) (ends _ _ _ (keep c 1 p))
      go again (some (ch ∷ more)) e =
          rw (recv_header_loop, e)
            (bind-Ends (write r.header r.header_len (ch ∷ [])) (after_write ch more) λ header.
              let r' : HttpRequest = record r {
                header = header;
                header_len = r.header_len + length (ch ∷ more);
              } in
              if_cases Ends (is_header_full r') (some (header_buf_full, c', r')) (after_search r')
                (λ _. ends header_buf_full c' r' kept)
                λ _. bind-Ends (straddr (some header) (some blank_line)) (after_found r') λ found.
                  if_cases Ends (is_some found) (some (header_recv_success, c', r'))
                    (recv_header_loop L A fuel c' r') (λ _. ends header_recv_success c' r' kept)
                    λ _. again c' r' kept)

  pub recv_header-Ends : (c : Client L A) (r : HttpRequest) → P c → Ends (recv_header L A c r)
  unfolding recv_header
  recv_header-Ends c r p =
      if_cases Ends (is_header_full r) (some (header_buf_full, c, r))
        (recv_header_loop L A (header_buf_size - r.header_len) c r)
        (λ _. ends header_buf_full c r p)
        λ _. header_loop-Ends (header_buf_size - r.header_len) c r p

  context_loop-Ends :
      (fuel n need : ℕ) (c : Client L A) (buf : List ℕ) (r : HttpRequest)
      → P c
      → Ends (recv_context_loop L A fuel n need c buf r)
  unfolding recv_context_loop
  context_loop-Ends zero n need c buf r p = faults
  context_loop-Ends (suc fuel) n need c buf r p =
      go (context_loop-Ends fuel n) (recv_client L A c (min need (n - r.data_len))).0 refl
    where
      c' : Client L A
      c' = (recv_client L A c (min need (n - r.data_len))).1

      filled : List ℕ → List ℕ → HttpRequest
      filled d ended = record r { context_buf = some ended; data_len = r.data_len + length d }

      after_end : List ℕ → List ℕ → Outcome L A
      after_end d ended =
          let r' = filled d ended in
          if leb n r'.data_len
          then some (context_recv_success, c', r')
          else recv_context_loop L A fuel n (min need (n - r.data_len)) c' ended r'

      after_read : List ℕ → List ℕ → Outcome L A
      after_read d read = write read (r.data_len + length d) (0 ∷ []) >>= after_end d

      kept : P (recv_client L A c (min need (n - r.data_len))).1
      kept = keep c (min need (n - r.data_len)) p

      go :
          ((need : ℕ) (c : Client L A) (buf : List ℕ) (r : HttpRequest)
            → P c
            → Ends (recv_context_loop L A fuel n need c buf r))
          → (len : Option (List ℕ)) → (recv_client L A c (min need (n - r.data_len))).0 ≡ len
          → Ends (recv_context_loop L A (suc fuel) n need c buf r)
      go again none e = rw (recv_context_loop, e) (ends _ _ _ kept)
      go again (some []) e = rw (recv_context_loop, e) (ends _ _ _ kept)
      go again (some (ch ∷ more)) e =
          rw (recv_context_loop, e)
            (bind-Ends (write buf r.data_len (ch ∷ more)) (after_read (ch ∷ more)) λ read.
              bind-Ends (write read (r.data_len + length (ch ∷ more)) (0 ∷ []))
                (after_end (ch ∷ more))
                λ ended.
                  let r' = filled (ch ∷ more) ended in
                  if_cases Ends (leb n r'.data_len) (some (context_recv_success, c', r'))
                    (recv_context_loop L A fuel n (min need (n - r.data_len)) c' ended r')
                    (λ _. ends context_recv_success c' r' kept)
                    λ _. again (min need (n - r.data_len)) c' ended r' kept)

  pub recv_context-Ends :
      (calloc_ok : Bool) (c : Client L A) (r : HttpRequest)
      → P c
      → Ends (recv_context L A calloc_ok c r)
  unfolding recv_context
  recv_context-Ends calloc_ok c r p = bind-Ends (context_buf_init L A calloc_ok r) after_init λ s.
      if_cases Ends s.0 (filled s.1 s.1.context_buf) (without s.1) (λ _. buffer s.1 s.1.context_buf)
        λ _.
          if_cases Ends (ltb 0 (pos_part s.1.context_len)) (some (socket_error, c, s.1))
            (some (context_recv_success, c, s.1)) (λ _. ends socket_error c s.1 p)
            λ _. ends context_recv_success c s.1 p
    where
      filled : HttpRequest → Option (List ℕ) → Outcome L A
      filled r' o = elim o [
        | none ↦ none
        | some buf ↦
            let n = pos_part r'.context_len in recv_context_loop L A (n + 1) n 2048 c buf r'
      ]

      without : HttpRequest → Outcome L A
      without r' =
          if ltb 0 (pos_part r'.context_len)
          then some (socket_error, c, r')
          else some (context_recv_success, c, r')

      after_init : Bool × HttpRequest → Outcome L A
      after_init s = if s.0 then filled s.1 s.1.context_buf else without s.1

      buffer : (r' : HttpRequest) (o : Option (List ℕ)) → Ends (filled r' o)
      buffer r' none = faults
      buffer r' (some buf) =
          context_loop-Ends (pos_part r'.context_len + 1) (pos_part r'.context_len) 2048 c buf r' p
