-- ===== src/Http/Recv/Content.antt =====
-- What `httpRequest_recv_context` puts into the content's buffer.
use trace_server.Base.{
  ℕ, zero, suc, ◌+◌, ◌<◌, ◌≡◌, ◌≢◌, refl, sym, subst, ◌∙◌, Bool, true, Option, none, some, List, [],
  ◌∷◌, ◌++◌, arith, ltb, lt→ltb, leb, leb-true, leb-false, if_cases, length, length-append, take,
  drop,
}
use trace_server.Base.Int.{pos}
use trace_server.Libevent.{Libevent, IsReliable}
use trace_server.Client.{Client, recv_client}
use trace_server.Client.Recv.{IsOpen, available, got as taken}
use trace_server.Http.{HttpRequest, RecvResult, context_recv_success, recv_empty, socket_error}
use trace_server.Http.Recv.{recv_context_loop, recv_context, context_buf_init}
use trace_server.Http.Recv.ContentRound.{
  Body, Filled, need, fuller, fuller-Body, round_step, round_stop, piece_lem, after_lem,
  stop-Filled, arrived, nothing_left, same_stream, piece_fits, full-Filled,
}

module _ (L : Libevent) (A : Type 0) where
  abbrev Fills : ℕ → ℕ → Type 0
  Fills fuel n =
      (need_read_len : ℕ) (c : Client L A) (r : HttpRequest) (body : List ℕ) (h : Body n r body)
      → IsOpen L A c
      → length body < n
      → 0 < need_read_len
      → n < length body + fuel
      → Filled L A n (body ++ available L A c)
          (recv_context_loop L A fuel n need_read_len c (body ++ (0 ∷ h.rest)) r)

  loop-Fills : (fuel n : ℕ) → Fills fuel n
  unfolding fuller-Body
  loop-Fills zero n need_read_len c r body h o room some_left enough = absurd (omega arith)
  loop-Fills (suc fuel) n need_read_len c r body h o room some_left enough =
      go (loop-Fills fuel n) (recv_client L A c k).0 refl
    where
      k : ℕ
      k = need L A n need_read_len c r body

      stop :
          (res : RecvResult) (len : Option (List ℕ))
          → (recv_client L A c k).0 ≡ len
          → taken L A len ≡ []
          → res ≢ context_recv_success
          → (IsReliable L → (res ≡ recv_empty) × (available L A (recv_client L A c k).1 ≡ []))
          → Filled L A n (body ++ available L A c) (some (res, (recv_client L A c k).1, r))
      stop = stop-Filled L A n need_read_len c r body h o room some_left

      next : IsReliable L → (recv_client L A c k).0 ≡ some (take k (available L A c))
      next = arrived L A n need_read_len c r body h o room some_left

      go :
          Fills fuel n
          → (len : Option (List ℕ)) → (recv_client L A c k).0 ≡ len
          → Filled L A n
              (body ++ available L A c)
              (recv_context_loop L A (suc fuel) n need_read_len c (body ++ (0 ∷ h.rest)) r)
      go again none e =
          rw ((round_stop L A n need_read_len c r body fuel (body ++ (0 ∷ h.rest))).0 e) (
            stop socket_error none e refl (λ y. absurd (cc))
              λ rel. absurd (let e' = sym e ∙ next rel in cc))
      go again (some []) e =
          rw ((round_stop L A n need_read_len c r body fuel (body ++ (0 ∷ h.rest))).1 e) (
            stop recv_empty (some []) e refl (λ y. absurd (cc))
              λ rel. (
                refl,
                nothing_left L A n need_read_len c r body h o room some_left e (sym (next rel) ∙ e),
              ))
      go again (some (ch ∷ more)) e =
          let d = ch ∷ more in
          let fits = piece_fits L A n need_read_len c r body h o room some_left d e in
          let h' = fuller-Body L A n need_read_len c r body h d fits in
          let law = after_lem L A n need_read_len c r body h o room some_left in
          let positive = (piece_lem L A n need_read_len c r body h o room some_left).1 in
          let same = same_stream L A n need_read_len c r body h o room some_left d e in
          let grown = length-append body d in
          rw (round_step L A n need_read_len c r body fuel h ch more fits e) (
            if_cases (Filled L A n (body ++ available L A c)) (leb n (r.data_len + length d)) _ _
              (λ full.
                full-Filled L A n need_read_len c r body h o room some_left d e (leb-true full))
              λ less.
                subst
                  (λ s. Filled L A n s (
                    recv_context_loop L A fuel n k (recv_client L A c k).1
                      ((body ++ d) ++ (0 ∷ drop (length d) h.rest))
                      (fuller L A n need_read_len c r body h d)))
                  same
                  (again k (recv_client L A c k).1 (fuller L A n need_read_len c r body h d)
                    (body ++ d) h' law.still_open (omega (arith, leb-false less, h.data_len_eq))
                    positive (omega arith)))

  -- `httpRequest_recv_context`, called for a request whose content length `n` is known and whose buffer
  -- holds the bytes of earlier calls, fewer than `n`, returns whatever the buffers do. It writes inside the buffer and
  -- leaves it a string; of the bytes that arrived it loses none and makes up none; it takes at most `n`
  -- in all. It returns success exactly when it has all `n`, whose successors stay unread. With buffers
  -- that do not fail it returns empty otherwise, and only when nothing is left to read.
  pub recv_context-fills :
      (calloc_ok : Bool) (n : ℕ) (c : Client L A) (r : HttpRequest) (body : List ℕ)
      → Body n r body
      → IsOpen L A c
      → length body < n
      → Filled L A n (body ++ available L A c) (recv_context L A calloc_ok c r)
  unfolding recv_context context_buf_init
  recv_context-fills calloc_ok n c r body h o room =
      let pos_n : ltb 0 n ≡ true = lt→ltb 0 n (omega arith) in
      rw (h.buf_eq, h.context_len_eq, pos_n)
        (loop-Fills (n + 1) n 2048 c
          (record r { context_buf = some (body ++ (0 ∷ h.rest)); context_len = pos n }) body
          (record {
            rest = h.rest;
            buf_eq = refl;
            size_eq = h.size_eq;
            data_len_eq = h.data_len_eq;
            context_len_eq = refl;
          })
          o room (omega arith) (omega arith))
