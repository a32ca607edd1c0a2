-- ===== src/Http/Recv/ContentRound.antt =====
-- One round of the loop of `httpRequest_recv_context`.
use trace_server.Base.{
  ℕ, zero, suc, ◌+◌, ◌-◌, ◌≤◌, ◌<◌, ◌≡◌, ◌≢◌, refl, sym, ap, subst, ◌∙◌, Option, none, some, List,
  [], ◌∷◌, ◌++◌, arith, leb, min, if◌then◌else◌, length, length-append, length-drop, take, drop,
  drop-drop, append_assoc,
}
use trace_server.Base.Int.{pos}
use trace_server.Libevent.{Libevent, IsReliable}
use trace_server.Client.{Client, recv_client}
use trace_server.Client.Recv.{
  IsOpen, available, Received, recv_client_lem, recv_client_reliable, got as taken,
}
use trace_server.Libc.{write}
use trace_server.Libc.Laws.{write_after}
use trace_server.Http.{HttpRequest, RecvResult, context_recv_success, recv_empty, socket_error}
use trace_server.Http.Recv.{Outcome, recv_context_loop}

-- The content received so far, a NUL behind it, and room for the rest of `n` bytes.
pub record Body (n : ℕ) (r : HttpRequest) (body : List ℕ) : Type 0 where
  pub rest : List ℕ
  pub buf_eq : r.context_buf ≡ some (body ++ (0 ∷ rest))
  pub size_eq : length body + length rest ≡ n
  pub data_len_eq : r.data_len ≡ length body
  pub context_len_eq : r.context_len ≡ pos n

write-piece :
    (body rest d : List ℕ) (k : ℕ)
    → k ≡ length body
    → length d ≤ length rest
    → (b : List ℕ) × (write (body ++ (0 ∷ rest)) k d ≡ some b)
      × (write b (k + length d) (0 ∷ []) ≡ some ((body ++ d) ++ (0 ∷ drop (length d) rest)))
write-piece body rest d k e h =
    let room : 1 ≤ length (drop (length d) (0 ∷ rest)) =
      omega (arith, length-drop (length d) (0 ∷ rest)) in
    let one : length d + 1 ≡ suc (length d) = omega arith in
    let next : drop 1 (drop (length d) (0 ∷ rest)) ≡ drop (length d) rest =
      drop-drop 1 (length d) (0 ∷ rest) ∙ ap (λ m. drop m (0 ∷ rest)) one in
    (
      (body ++ d) ++ drop (length d) (0 ∷ rest),
      write_after body (0 ∷ rest) d k e (omega arith),
      write_after (body ++ d) (drop (length d) (0 ∷ rest)) (0 ∷ []) (k + length d)
            (omega (arith, length-append body d)) room
          ∙ rw (next, append_assoc) refl,
    )

nil_of_take : (k : ℕ) (s : List ℕ) → 0 < k → take k s ≡ [] → s ≡ []
nil_of_take k [] h e = refl
nil_of_take zero (x ∷ s) h e = elim h [ ]
nil_of_take (suc k) (x ∷ s) h e = absurd (cc)

module _ (L : Libevent) (A : Type 0) where
  -- How a call for a content of `n` bytes ends, with the bytes it takes from `stream`.
  pub record Filled (n : ℕ) (stream : List ℕ) (o : Outcome L A) : Type 0 where
    pub result : RecvResult
    pub client : Client L A
    pub request : HttpRequest
    pub body : List ℕ
    pub returned : o ≡ some (result, client, request)
    pub holds : Body n request body
    pub still_open : IsOpen L A client
    pub conserved : body ++ available L A client ≡ stream
    pub complete : result ≡ context_recv_success → length body ≡ n
    pub partial : result ≢ context_recv_success → length body < n
    pub drained :
        IsReliable L
        → result ≢ context_recv_success
        → (result ≡ recv_empty) × (available L A client ≡ [])

  module _ (n need_read_len : ℕ) (c : Client L A) (r : HttpRequest) (body : List ℕ) where
    abbrev pub need : ℕ
    need = min need_read_len (n - r.data_len)

    -- The request after a piece.
    pub fuller : Body n r body → List ℕ → HttpRequest
    fuller h d = record r {
      context_buf = some ((body ++ d) ++ (0 ∷ drop (length d) h.rest));
      data_len = r.data_len + length d;
    }

    unfoldable pub fuller-Body :
        (h : Body n r body) (d : List ℕ)
        → length d ≤ length h.rest
        → Body n (fuller h d) (body ++ d)
    unfolding fuller
    fuller-Body h d fits = record {
      rest = drop (length d) h.rest;
      buf_eq = refl;
      size_eq = omega (arith, length-append body d, length-drop (length d) h.rest, h.size_eq);
      data_len_eq = omega (arith, length-append body d, h.data_len_eq);
      context_len_eq = h.context_len_eq;
    }

    pub round_step :
        (fuel : ℕ) (h : Body n r body) (ch : ℕ) (more : List ℕ)
        → length (ch ∷ more) ≤ length h.rest
        → (recv_client L A c need).0 ≡ some (ch ∷ more)
        → recv_context_loop L A (suc fuel) n need_read_len c (body ++ (0 ∷ h.rest)) r ≡ (
            if leb n (r.data_len + length (ch ∷ more))
            then some (context_recv_success, (recv_client L A c need).1, fuller h (ch ∷ more))
            else recv_context_loop L A fuel n need
                (recv_client L A c need).1
                ((body ++ (ch ∷ more)) ++ (0 ∷ drop (length (ch ∷ more)) h.rest))
                (fuller h (ch ∷ more)))
    unfolding recv_context_loop fuller
    round_step fuel h ch more fits e =
        let (b, w1, w2) = write-piece body h.rest (ch ∷ more) r.data_len h.data_len_eq fits in
        rw (recv_context_loop, e, w1, w2)

    pub round_stop :
        (fuel : ℕ) (buf : List ℕ)
        → ((recv_client L A c need).0 ≡ none
            → recv_context_loop L A (suc fuel) n need_read_len c buf r
              ≡ some (socket_error, (recv_client L A c need).1, r))
          × ((recv_client L A c need).0 ≡ some []
              → recv_context_loop L A (suc fuel) n need_read_len c buf r
                ≡ some (recv_empty, (recv_client L A c need).1, r))
    unfolding recv_context_loop
    round_stop fuel buf = ((λ e. rw (recv_context_loop, e)), λ e. rw (recv_context_loop, e))

  -- A round with an open client, for a content that is not complete.
  module _ (n need_read_len : ℕ) (c : Client L A) (r : HttpRequest) (body : List ℕ)
      (h : Body n r body) (o : IsOpen L A c) (room : length body < n)
      (some_left : 0 < need_read_len) where
    abbrev pub piece : ℕ
    piece = need n need_read_len c r body

    pub piece_lem : (piece ≡ min need_read_len (n - length body)) × (0 < piece)
    piece_lem = (omega (arith, h.data_len_eq), omega (arith, h.data_len_eq))

    abbrev pub after : Client L A
    after = (recv_client L A c piece).1

    pub after_lem : Received L A c piece (recv_client L A c piece).0 after
    after_lem = recv_client_lem L A c piece o

    pub stop-Filled :
        (res : RecvResult) (len : Option (List ℕ))
        → (recv_client L A c piece).0 ≡ len
        → taken L A len ≡ []
        → res ≢ context_recv_success
        → (IsReliable L → (res ≡ recv_empty) × (available L A after ≡ []))
        → Filled n (body ++ available L A c) (some (res, after, r))
    stop-Filled res len e z ne dr = record {
      result = res;
      client = after;
      request = r;
      body = body;
      returned = refl;
      holds = h;
      still_open = after_lem.still_open;
      conserved = ap (◌++◌ body) (
          ap (λ t. t ++ available L A after) (sym z)
          ∙ ap (λ l. taken L A l ++ available L A after) (sym e)
          ∙ after_lem.conserved);
      complete = λ y. absurd (ne y);
      partial = λ _. room;
      drained = λ rel _. dr rel;
    }

    pub arrived : IsReliable L → (recv_client L A c piece).0 ≡ some (take piece (available L A c))
    arrived rel = recv_client_reliable L A rel c piece piece_lem.1 o

    pub nothing_left :
        (recv_client L A c piece).0 ≡ some []
        → some (take piece (available L A c)) ≡ some []
        → available L A after ≡ []
    nothing_left e t =
        ap (λ l. taken L A l ++ available L A after) (sym e)
        ∙ after_lem.conserved
        ∙ nil_of_take piece (available L A c) piece_lem.1 (ap (taken L A) t)

    -- The bytes of a piece are the next ones, and there is room for them.
    pub same_stream :
        (d : List ℕ)
        → (recv_client L A c piece).0 ≡ some d
        → (body ++ d) ++ available L A after ≡ body ++ available L A c
    same_stream d e =
        append_assoc body d (available L A after)
        ∙ ap (◌++◌ body)
            (ap (λ l. taken L A l ++ available L A after) (sym e) ∙ after_lem.conserved)

    pub piece_fits : (d : List ℕ) → (recv_client L A c piece).0 ≡ some d → length d ≤ length h.rest
    piece_fits d e =
        let dl : length d ≤ piece = subst (λ l. length (taken L A l) ≤ piece) e after_lem.bounded in
        omega (arith, piece_lem.0, h.size_eq)

    -- The piece that completes the content.
    pub full-Filled :
        (d : List ℕ)
        → (e : (recv_client L A c piece).0 ≡ some d) → n ≤ r.data_len + length d
        → Filled n
            (body ++ available L A c)
            (some (context_recv_success, after, fuller n need_read_len c r body h d))
    unfolding fuller-Body
    full-Filled d e full =
        let h' = fuller-Body n need_read_len c r body h d (piece_fits d e) in
        record {
          result = context_recv_success;
          client = after;
          request = fuller n need_read_len c r body h d;
          body = body ++ d;
          returned = refl;
          holds = h';
          still_open = after_lem.still_open;
          conserved = same_stream d e;
          complete = λ _. omega (arith, full, length-append body d, h.data_len_eq, h'.size_eq);
          partial = λ ne. absurd (ne refl);
          drained = λ _ ne. absurd (ne refl);
        }
