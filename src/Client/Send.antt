-- ===== src/Client/Send.antt =====
-- What leaves a connection: `evserver_send_client` and what the other calls keep.
use trace_server.Base.{
  ℕ, ◌≡◌, refl, ap, ◌∙◌, true, false, Option, none, some, List, [], ◌++◌, ltb, min, length,
  Bool-cases, Option-cases, inl, inr, ◌⊎◌,
}
use trace_server.Libevent.{Libevent}
use trace_server.Client.{Client, recv_client, send_client, read_in, take_bytes}
use trace_server.Client.Recv.{contents?}

module _ (L : Libevent) (A : Type 0) where
  abbrev pub sent? : Option L.Bufev → List ℕ
  sent? none = []
  sent? (some b) = L.sent b

  -- What the bufferevent was given to send, and what still waits in the output buffer.
  abbrev pub sent_bytes : Client L A → List ℕ
  sent_bytes c = sent? c.buf_ev

  abbrev pub pending : Client L A → List ℕ
  pending c = contents? L A c.output_buffer

  pub record SameOutput (c c' : Client L A) : Type 0 where
    pub sent_eq : sent_bytes c' ≡ sent_bytes c
    pub pending_eq : pending c' ≡ pending c

  read_in-sent : (b : L.Bufev) (e : L.Evbuf) → L.sent (read_in L A b e).0 ≡ L.sent b
  read_in-sent b e = elim (Option-cases (L.read_buffer b e)) [
    | inl failed ↦ rw (failed, read_in) refl
    | inr ((b', e'), ok) ↦
        let (_, _, same) = L.read_buffer_lem b e b' e' ok in rw (ok, read_in) same
  ]

  take_bytes-SameOutput :
      (c : Client L A) (e : L.Evbuf) (n : ℕ) → SameOutput c (take_bytes L A c e n).1
  unfolding take_bytes
  take_bytes-SameOutput c e n = elim (Bool-cases (ltb 0 (L.get_length e))) [
    | inr empty ↦ rw empty (record { sent_eq = refl; pending_eq = refl })
    | inl more ↦ elim (Option-cases (L.remove e (min (L.get_length e) n))) [
      | inl failed ↦ rw (more, failed) (record { sent_eq = refl; pending_eq = refl })
      | inr (r, ok) ↦ rw (more, ok) (record { sent_eq = refl; pending_eq = refl })
    ]
  ]

  pub recv_client-SameOutput : (c : Client L A) (n : ℕ) → SameOutput c (recv_client L A c n).1
  unfolding recv_client
  recv_client-SameOutput c n = elim (Bool-cases (ltb 0 n)) [
    | inr z ↦ rw z (record { sent_eq = refl; pending_eq = refl })
    | inl pos ↦ elim (Option-cases c.buf_ev) [
      | inl no_socket ↦
          rw (pos, no_socket) (record { sent_eq = rw no_socket refl; pending_eq = refl })
      | inr (b, eb) ↦ elim (Option-cases c.input_buffer) [
        | inl no_buffer ↦
            rw (pos, eb, no_buffer) (record { sent_eq = rw eb refl; pending_eq = refl })
        | inr (e, ee) ↦
            let r = read_in L A b e in
            let c' : Client L A = record c { buf_ev = some r.0; input_buffer = some r.1 } in
            let t = take_bytes-SameOutput c' r.1 n in
            rw (pos, eb, ee)
              (record { sent_eq = t.sent_eq ∙ read_in-sent b e; pending_eq = t.pending_eq })
      ]
    ]
  ]

  -- With an empty output buffer `evserver_send_client` is all or nothing: if it returns true the message
  -- is what was added to the bytes sent, with nothing left in the buffer, and if it returns false
  -- nothing was added.
  pub send_client_lem :
      (c : Client L A) (msg : List ℕ)
      → pending c ≡ []
      → (((send_client L A c msg).0 ≡ true)
          × (sent_bytes (send_client L A c msg).1 ≡ sent_bytes c ++ msg)
          × (pending (send_client L A c msg).1 ≡ []))
        ⊎ (((send_client L A c msg).0 ≡ false)
            × (sent_bytes (send_client L A c msg).1 ≡ sent_bytes c))
  unfolding send_client
  send_client_lem c msg empty = elim (Bool-cases (ltb 0 (length msg))) [
    | inr z ↦ rw z (inr (refl, refl))
    | inl pos ↦ elim (Option-cases c.buf_ev) [
      | inl no_socket ↦ rw (pos, no_socket) (inr (refl, rw no_socket refl))
      | inr (b, eb) ↦ elim (Option-cases c.output_buffer) [
        | inl no_buffer ↦ rw (pos, eb, no_buffer) (inr (refl, rw eb refl))
        | inr (o, eo) ↦ elim (Option-cases (L.add o msg)) [
          | inl failed ↦ rw (pos, eb, eo, failed) (inr (refl, rw eb refl))
          | inr (o', added) ↦ elim (Option-cases (L.write_buffer b o')) [
            | inl failed ↦ rw (pos, eb, eo, added, failed) (inr (refl, rw eb refl))
            | inr ((b', o''), wrote) ↦
                let holds = L.add_lem o msg o' added in
                let (out, left, _) = L.write_buffer_lem b o' b' o'' wrote in
                let none_before : L.bytes o ≡ [] = let e' = rw eo at empty in e' in
                rw (pos, eb, eo, added, wrote)
                  (inl (
                    refl,
                    out ∙ ap (◌++◌ (L.sent b)) (holds ∙ ap (λ x. x ++ msg) none_before),
                    left,
                  ))
          ]
        ]
      ]
    ]
  ]
