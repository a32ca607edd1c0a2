-- ===== src/Client/Recv.antt =====
-- What `evserver_recv_client` takes from a connection's input.
use trace_server.Base.{
  ℕ, ◌≤◌, ◌<◌, ◌≡◌, refl, sym, ap, ◌∙◌, inl, inr, true, Option, none, some, List, [], ◌++◌, arith,
  ltb, ltb-false, min, take-min, take-nil, nil_of_length, lt→ltb, Bool-cases, Option-cases, length,
  take, drop, length-take, take-append-drop, append_assoc, append-nil,
}
use trace_server.Libevent.{Libevent, IsReliable}
use trace_server.Client.{Client, recv_client, read_in, take_bytes}

module _ (L : Libevent) (A : Type 0) where
  abbrev pub contents? : Option L.Evbuf → List ℕ
  contents? none = []
  contents? (some e) = L.bytes e

  abbrev pub received? : Option L.Bufev → List ℕ
  received? none = []
  received? (some b) = L.received b

  -- The bytes that have arrived and that the code has not taken yet, oldest first.
  abbrev pub available : Client L A → List ℕ
  available c = contents? c.input_buffer ++ received? c.buf_ev

  -- A connection with its bufferevent and its input buffer.
  pub record IsOpen (c : Client L A) : Type 0 where
    pub socket : (b : L.Bufev) × (c.buf_ev ≡ some b)
    pub buffer : (e : L.Evbuf) × (c.input_buffer ≡ some e)

  abbrev pub got : Option (List ℕ) → List ℕ
  got none = []
  got (some d) = d

  -- After a call that returned `r` and left `c'`.
  pub record Received (c : Client L A) (n : ℕ) (r : Option (List ℕ)) (c' : Client L A)
      : Type 0 where
    pub still_open : IsOpen c'
    pub conserved : got r ++ available c' ≡ available c
    pub bounded : length (got r) ≤ n
    pub same_arg : c'.arg ≡ c.arg

  read_in_lem :
      (b : L.Bufev) (e : L.Evbuf)
      → L.bytes (read_in L A b e).1 ++ L.received (read_in L A b e).0 ≡ L.bytes e ++ L.received b
  read_in_lem b e = elim (Option-cases (L.read_buffer b e)) [
    | inl failed ↦ rw (failed, read_in)
    | inr ((b', e'), ok) ↦
        let (drained, moved, _) = L.read_buffer_lem b e b' e' ok in
        rw (ok, read_in, drained, moved) (append-nil (L.bytes e ++ L.received b))
  ]

  take_bytes_lem :
      (c : Client L A) (e : L.Evbuf) (n : ℕ)
      → IsOpen c
      → c.input_buffer ≡ some e
      → Received c n (take_bytes L A c e n).0 (take_bytes L A c e n).1
  unfolding take_bytes
  take_bytes_lem c e n o ee = elim (Bool-cases (ltb 0 (L.get_length e))) [
    | inr empty ↦
        rw empty
          (record { still_open = o; conserved = refl; bounded = omega arith; same_arg = refl })
    | inl more ↦ elim (Option-cases (L.remove e (min (L.get_length e) n))) [
      | inl failed ↦
          rw (more, failed)
            (record { still_open = o; conserved = refl; bounded = omega arith; same_arg = refl })
      | inr ((d, e'), ok) ↦
          let k = min (L.get_length e) n in
          let (front, back) = L.remove_lem e k d e' ok in
          rw (more, ok)
            (record {
              still_open = record { socket = o.socket; buffer = (e', refl) };
              conserved =
                  rw (front, back, ee)
                    (sym (
                        append_assoc (take k (L.bytes e)) (drop k (L.bytes e)) (received? c.buf_ev))
                      ∙ ap (λ t. t ++ received? c.buf_ev) (take-append-drop k (L.bytes e)));
              bounded = omega (arith, ap length front, length-take k (L.bytes e));
              same_arg = refl;
            })
    ]
  ]

  recv_step :
      (c : Client L A) (n : ℕ) (b : L.Bufev) (e : L.Evbuf)
      → ltb 0 n ≡ true
      → c.buf_ev ≡ some b
      → c.input_buffer ≡ some e
      → recv_client L A c n
        ≡ take_bytes L A
            (record c {
              buf_ev = some (read_in L A b e).0;
              input_buffer = some (read_in L A b e).1;
            })
            (read_in L A b e).1
            n
  unfolding recv_client
  recv_step c n b e pos eb ee = rw (pos, eb, ee)

  -- On an open connection `evserver_recv_client` leaves the connection open, whatever the buffers'
  -- calls return: what it writes to the caller's buffer and what stays available are, in this order,
  -- the bytes that had arrived; it writes at most `n`, the size of that buffer; and the caller's argument
  -- stays.
  pub recv_client_lem :
      (c : Client L A) (n : ℕ)
      → IsOpen c
      → Received c n (recv_client L A c n).0 (recv_client L A c n).1
  unfolding recv_client
  recv_client_lem c n o = elim (Bool-cases (ltb 0 n)) [
    | inr z ↦
        rw z (record { still_open = o; conserved = refl; bounded = omega arith; same_arg = refl })
    | inl pos ↦
        let (b, eb) = o.socket in
        let (e, ee) = o.buffer in
        let r = read_in L A b e in
        let c' : Client L A = record c { buf_ev = some r.0; input_buffer = some r.1 } in
        let t =
          take_bytes_lem c' r.1 n (record { socket = (r.0, refl); buffer = (r.1, refl) }) refl in
        let same : recv_client L A c n ≡ take_bytes L A c' r.1 n = recv_step c n b e pos eb ee in
        rw same (record {
          still_open = t.still_open;
          conserved = t.conserved ∙ rw (eb, ee) (read_in_lem b e);
          bounded = t.bounded;
          same_arg = t.same_arg;
        })
  ]

  take_bytes_reliable :
      IsReliable L
      → (c : Client L A) (e : L.Evbuf) (n : ℕ)
      → (take_bytes L A c e n).0 ≡ some (take n (L.bytes e))
  unfolding take_bytes
  take_bytes_reliable rel c e n = elim (Bool-cases (ltb 0 (L.get_length e))) [
    | inr none_left ↦
        let z : length (L.bytes e) ≡ 0 = omega (arith, L.get_length_lem e, ltb-false none_left) in
        rw (none_left, nil_of_length (L.bytes e) z, take-nil n)
    | inl more ↦
        let (d, e', ok) = rel.removes e (min (L.get_length e) n) in
        let (front, _) = L.remove_lem e (min (L.get_length e) n) d e' ok in
        rw (more, ok)
          (ap some (
            front
            ∙ ap (λ l. take (min l n) (L.bytes e)) (L.get_length_lem e)
            ∙ take-min n (L.bytes e)))
  ]

  -- With buffers that do not fail a call takes the first `n` bytes that have arrived.
  pub recv_client_reliable :
      IsReliable L
      → (c : Client L A) (n : ℕ) → 0 < n
      → IsOpen c
      → (recv_client L A c n).0 ≡ some (take n (available c))
  recv_client_reliable rel c n pos o =
      let (b, eb) = o.socket in
      let (e, ee) = o.buffer in
      let (b', e', ok) = rel.reads b e in
      let (_, moved, _) = L.read_buffer_lem b e b' e' ok in
      rw (recv_step c n b e (lt→ltb 0 n pos) eb ee, ok, read_in, eb, ee, ← moved)
        (take_bytes_reliable rel (record c { buf_ev = some b'; input_buffer = some e' }) e' n)
