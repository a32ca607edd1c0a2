-- ===== src/Http/Recv/HeaderLaws.antt =====
-- What `httpRequest_recv_header` keeps, whatever the buffers do.
use trace_server.Base.{
  ℕ, zero, suc, ◌+◌, ◌-◌, ◌≤◌, ◌<◌, ◌≡◌, refl, sym, ap, subst, if_cases, ◌∙◌, Option, none, some,
  List, [], ◌∷◌, ◌++◌, arith, leb, leb-false, length, length-append, All-append, append_assoc,
}
use trace_server.Libevent.{Libevent}
use trace_server.Client.{Client, recv_client}
use trace_server.Client.Recv.{IsOpen, available, Received, recv_client_lem, got as taken}
use trace_server.Bm.Correct.{IsBytes}
use trace_server.Http.{
  HttpRequest, RecvResult, header_buf_full, header_recv_success, recv_empty, socket_error,
  is_header_full,
}
use trace_server.Http.Recv.{Outcome, recv_header_loop, recv_header}
use trace_server.Http.Recv.Header.{Holds, has_blank}
use trace_server.Http.Recv.HeaderRound.{longer, longer-Holds, Arrived, loop_round}

module _ (L : Libevent) (A : Type 0) where
  -- How a call ends: with a request that holds the bytes it took, in order, from those that arrived.
  pub record Ended (stream : List ℕ) (o : Outcome L A) : Type 0 where
    pub result : RecvResult
    pub client : Client L A
    pub request : HttpRequest
    pub header : List ℕ
    pub returned : o ≡ some (result, client, request)
    pub holds : Holds request header
    pub still_open : IsOpen L A client
    pub conserved : header ++ available L A client ≡ stream

  loop_safe :
      (fuel : ℕ) (c : Client L A) (r : HttpRequest) (got : List ℕ)
      → Holds r got
      → IsOpen L A c
      → IsBytes (available L A c)
      → length got < 1023
      → 1023 ≤ length got + fuel
      → Ended (got ++ available L A c) (recv_header_loop L A fuel c r)
  loop_safe zero c r got h o bytes room enough = absurd (omega arith)
  loop_safe (suc fuel) c r got h o bytes room enough =
      loop_round L A (Ended (got ++ available L A c)) c r got fuel h o bytes room
        (λ e. stop socket_error none e refl) (λ e. stop recv_empty (some []) e refl)
        λ ch e a.
          if_cases (Ended (got ++ available L A c)) (leb 1023 (length (got ++ (ch ∷ [])))) _ _
            (λ full. took header_buf_full ch a)
            (λ more.
              if_cases (Ended (got ++ available L A c)) (has_blank (got ++ (ch ∷ []))) _ _
                (λ blank. took header_recv_success ch a)
                (λ on.
                  subst
                    (λ s. Ended s (
                      recv_header_loop L A fuel (recv_client L A c 1).1
                        (longer L A r (got ++ (ch ∷ [])))))
                    (same_stream ch a)
                    (loop_safe fuel (recv_client L A c 1).1 (longer L A r (got ++ (ch ∷ [])))
                      (got ++ (ch ∷ [])) (one_more ch a) a.rest_open a.rest_bytes (leb-false more)
                      (omega (arith, length-append got (ch ∷ []))))))
    where
      law : Received L A c 1 (recv_client L A c 1).0 (recv_client L A c 1).1
      law = recv_client_lem L A c 1 o

      stop :
          (res : RecvResult) (len : Option (List ℕ))
          → (recv_client L A c 1).0 ≡ len
          → taken L A len ≡ []
          → Ended (got ++ available L A c) (some (res, (recv_client L A c 1).1, r))
      stop res len e z = record {
        result = res;
        client = (recv_client L A c 1).1;
        request = r;
        header = got;
        returned = refl;
        holds = h;
        still_open = law.still_open;
        conserved = ap (◌++◌ got) (
            ap (λ t. t ++ available L A (recv_client L A c 1).1) (sym z)
            ∙ ap (λ l. taken L A l ++ available L A (recv_client L A c 1).1) (sym e)
            ∙ law.conserved);
      }

      same_stream :
          (ch : ℕ)
          → Arrived L A c ch
          → (got ++ (ch ∷ [])) ++ available L A (recv_client L A c 1).1 ≡ got ++ available L A c
      same_stream ch a =
          append_assoc got (ch ∷ []) (available L A (recv_client L A c 1).1) ∙ ap (◌++◌ got) a.rest

      one_more :
          (ch : ℕ) → Arrived L A c ch → Holds (longer L A r (got ++ (ch ∷ []))) (got ++ (ch ∷ []))
      one_more ch a =
          longer-Holds L A r (got ++ (ch ∷ [])) (omega (arith, length-append got (ch ∷ [])))
            (All-append (λ x. x < 256) got (ch ∷ []) h.bytes (a.byte, tt))

      took :
          (res : RecvResult) (ch : ℕ)
          → Arrived L A c ch
          → Ended
              (got ++ available L A c)
              (some (res, (recv_client L A c 1).1, longer L A r (got ++ (ch ∷ []))))
      took res ch a = record {
        result = res;
        client = (recv_client L A c 1).1;
        request = longer L A r (got ++ (ch ∷ []));
        header = got ++ (ch ∷ []);
        returned = refl;
        holds = one_more ch a;
        still_open = a.rest_open;
        conserved = same_stream ch a;
      }

  -- Whatever the buffers do, `httpRequest_recv_header` returns: it writes inside the header buffer,
  -- which stays a string of at most 1023 bytes, and of the bytes that arrived it loses none and makes
  -- up none: what it has put behind the bytes of earlier calls, and what it leaves, are the input.
  pub recv_header_safe :
      (c : Client L A) (r : HttpRequest) (got : List ℕ)
      → Holds r got
      → IsOpen L A c
      → IsBytes (available L A c)
      → Ended (got ++ available L A c) (recv_header L A c r)
  unfolding recv_header
  recv_header_safe c r got h o bytes =
      if_cases (Ended (got ++ available L A c)) (is_header_full r) (some (header_buf_full, c, r))
        (recv_header_loop L A (1024 - r.header_len) c r)
        (λ full. record {
          result = header_buf_full;
          client = c;
          request = r;
          header = got;
          returned = refl;
          holds = h;
          still_open = o;
          conserved = refl;
        })
        λ room.
          loop_safe (1024 - r.header_len) c r got h o bytes
            (omega (arith, leb-false room, h.len_eq)) (omega (arith, h.len_eq, leb-false room))
