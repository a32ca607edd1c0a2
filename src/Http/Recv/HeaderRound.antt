-- ===== src/Http/Recv/HeaderRound.antt =====
-- One round of the loop of `httpRequest_recv_header`.
use trace_server.Base.{
  ℕ, suc, ◌+◌, ◌-◌, ◌≤◌, ◌<◌, ◌≡◌, refl, sym, ap, subst, ◌∙◌, Option, none, some, List, [], ◌∷◌,
  ◌++◌, arith, leb, if◌then◌else◌, length, replicate, length-append, All-append, nil_of_length,
}
use trace_server.Libevent.{Libevent}
use trace_server.Client.{Client, recv_client}
use trace_server.Client.Recv.{IsOpen, available, recv_client_lem, got as taken}
use trace_server.Bm.Correct.{IsBytes}
use trace_server.Http.{HttpRequest, header_buf_full, header_recv_success, recv_empty, socket_error}
use trace_server.Http.Recv.{Outcome, recv_header_loop}
use trace_server.Http.Recv.Header.{Holds, has_blank, straddr-blank, write-byte}

module _ (L : Libevent) (A : Type 0) where
  -- The request after one more byte.
  abbrev pub longer : HttpRequest → List ℕ → HttpRequest
  longer r got = record r {
    header = got ++ replicate (1024 - length got) 0;
    header_len = length got;
  }

  pub longer-Holds :
      (r : HttpRequest) (got : List ℕ) → length got ≤ 1023 → IsBytes got → Holds (longer r got) got
  longer-Holds r got fits bytes = record {
    header_eq = refl;
    len_eq = refl;
    fits = fits;
    bytes = bytes;
  }

  -- One round that takes a byte.
  loop_step :
      (fuel : ℕ) (c : Client L A) (r : HttpRequest) (got : List ℕ) (ch : ℕ)
      → Holds r got
      → length got < 1023
      → ch < 256
      → (recv_client L A c 1).0 ≡ some (ch ∷ [])
      → let r' = longer r (got ++ (ch ∷ [])) in
        recv_header_loop L A (suc fuel) c r ≡ (
          if leb 1023 (length (got ++ (ch ∷ [])))
          then some (header_buf_full, (recv_client L A c 1).1, r')
          else if has_blank (got ++ (ch ∷ []))
          then some (header_recv_success, (recv_client L A c 1).1, r')
          else recv_header_loop L A fuel (recv_client L A c 1).1 r')
  unfolding recv_header_loop recv_client
  loop_step fuel c r got ch h room byte e =
      let got' = got ++ (ch ∷ []) in
      let n : r.header_len + length (ch ∷ []) ≡ length got' =
        omega (arith, h.len_eq, length-append got (ch ∷ [])) in
      let bytes : IsBytes got' = All-append (λ x. x < 256) got (ch ∷ []) h.bytes (byte, tt) in
      let h' : Holds (longer r got') got' =
        longer-Holds r got' (omega (arith, length-append got (ch ∷ []))) bytes in
      rw (e, write-byte r got h ch, n, straddr-blank (longer r got') got' h')

  -- A round in which nothing has arrived, or that fails.
  loop_stop :
      (fuel : ℕ) (c : Client L A) (r : HttpRequest)
      → ((recv_client L A c 1).0 ≡ none
          → recv_header_loop L A (suc fuel) c r ≡ some (socket_error, (recv_client L A c 1).1, r))
        × ((recv_client L A c 1).0 ≡ some []
            → recv_header_loop L A (suc fuel) c r ≡ some (recv_empty, (recv_client L A c 1).1, r))
  unfolding recv_header_loop recv_client
  loop_stop fuel c r = ((λ e. rw e), λ e. rw e)

  -- What a byte that arrives is, and what stays behind it.
  pub record Arrived (c : Client L A) (ch : ℕ) : Type 0 where
    pub byte : ch < 256
    pub rest_bytes : IsBytes (available L A (recv_client L A c 1).1)
    pub rest_open : IsOpen L A (recv_client L A c 1).1
    pub rest : ch ∷ available L A (recv_client L A c 1).1 ≡ available L A c

  arrive :
      (c : Client L A) (ch : ℕ) (more : List ℕ)
      → IsOpen L A c
      → IsBytes (available L A c)
      → (recv_client L A c 1).0 ≡ some (ch ∷ more)
      → (more ≡ []) × Arrived c ch
  arrive c ch more o bytes e =
      let law = recv_client_lem L A c 1 o in
      let c' = (recv_client L A c 1).1 in
      let one : more ≡ [] = nil_of_length more (
        let b : length (taken L A (some (ch ∷ more))) ≤ 1 =
          subst (λ x. length (taken L A x) ≤ 1) e law.bounded in
        omega arith) in
      let rest : ch ∷ available L A c' ≡ available L A c =
        ap (λ m. ch ∷ (m ++ available L A c')) (sym one)
        ∙ ap (λ t. taken L A t ++ available L A c') (sym e)
        ∙ law.conserved in
      let all : IsBytes (ch ∷ available L A c') = subst IsBytes (sym rest) bytes in
      (one, record { byte = all.0; rest_bytes = all.1; rest_open = law.still_open; rest = rest })

  module _ {ℓ} (P : Outcome L A → Type ℓ) (c : Client L A) (r : HttpRequest) (got : List ℕ) where
    -- To prove something of a round, prove it of each of its ends.
    pub loop_round :
        (fuel : ℕ)
        → Holds r got
        → IsOpen L A c
        → IsBytes (available L A c)
        → length got < 1023
        → ((recv_client L A c 1).0 ≡ none → P (some (socket_error, (recv_client L A c 1).1, r)))
        → ((recv_client L A c 1).0 ≡ some [] → P (some (recv_empty, (recv_client L A c 1).1, r)))
        → ((ch : ℕ)
            → (recv_client L A c 1).0 ≡ some (ch ∷ [])
            → Arrived c ch
            → let got' = got ++ (ch ∷ []) in
              P (
                if leb 1023 (length got')
                then some (header_buf_full, (recv_client L A c 1).1, longer r got')
                else if has_blank got'
                then some (header_recv_success, (recv_client L A c 1).1, longer r got')
                else recv_header_loop L A fuel (recv_client L A c 1).1 (longer r got')))
        → P (recv_header_loop L A (suc fuel) c r)
    loop_round fuel h o bytes room failed empty more = go (recv_client L A c 1).0 refl
      where
        go :
            (len : Option (List ℕ))
            → (recv_client L A c 1).0 ≡ len
            → P (recv_header_loop L A (suc fuel) c r)
        go none e = rw ((loop_stop fuel c r).0 e) (failed e)
        go (some []) e = rw ((loop_stop fuel c r).1 e) (empty e)
        go (some (ch ∷ rest)) e =
            let (one, a) = arrive c ch rest o bytes e in
            let e' : (recv_client L A c 1).0 ≡ some (ch ∷ []) = e ∙ ap (λ m. some (ch ∷ m)) one in
            rw (loop_step fuel c r got ch h room a.byte e') (more ch e' a)
