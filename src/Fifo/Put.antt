-- ===== src/Fifo/Put.antt =====
-- `fifo_put` of src/fifo.c refines a bounded queue of bytes.
use trace_server.Base.{
  ℕ, min, ◌+◌, ◌-◌, ◌%◌, ◌^◌, ◌≤◌, ◌<◌, ◌≡◌, refl, sym, ap, ◌∙◌, arith, ◌⊎◌, inl, inr, some,
  Bool-cases, ltb, ltb-true, ltb-false, ◌==◌, List, ◌++◌, length, take, get_elem?, get_elem?-take,
  get_elem?-append_left, length-take, length-append, true, false,
}
use trace_server.Libc.{memcpy}
use trace_server.Fifo.{Fifo, add32, free_size, fifo_put}
use trace_server.Fifo.Bits.{pow_pos}
use trace_server.Fifo.Ring.{IsFifo, Copied, memcpy-Copied, get_elem?-append_right, ring_index}
use trace_server.Fifo.Place.{as_int_small, in_lem, free_lem, left_lem}

module _ (k : ℕ) (f : Fifo) (q : List ℕ) (h : IsFifo k f q) where
  module _ (src : List ℕ) (len : ℕ) (given : len ≤ length src) (free : length q + len ≤ 2 ^ k) where
    at_in : ℕ
    at_in = (f.out_pos + length q) % 2 ^ k

    at_in-lt : at_in < 2 ^ k
    unfolding at_in
    at_in-lt = omega (arith, pow_pos k)

    first_len : ℕ
    first_len = min len (2 ^ k - at_in)

    first : Copied f.buffer at_in src 0 first_len (memcpy f.buffer at_in src 0 first_len)
    unfolding first_len
    first =
        memcpy-Copied f.buffer at_in src 0 first_len (omega (arith, at_in-lt, h.room)) (omega arith)

    second :
        Copied first.result 0 src first_len
          (len - first_len)
          (memcpy first.result 0 src first_len (len - first_len))
    unfolding first_len
    second =
        memcpy-Copied first.result 0 src first_len (len - first_len)
          (omega (arith, first.length_eq, h.room)) (omega arith)

    -- Where the place `t` behind the first byte lies; the new bytes do not touch an old one.
    old_place :
        (t : ℕ)
        → t < length q
        → let p = (f.out_pos + t) % 2 ^ k in
          (len - first_len ≤ p) × ((p < at_in) ⊎ (at_in + first_len ≤ p))
    unfolding at_in first_len
    old_place t lt = elim (ring_index f.out_pos t (2 ^ k) (pow_pos k) (omega (arith, h.fits))) [
      | inl (e, ins) ↦ elim (ring_index f.out_pos (length q) (2 ^ k) (pow_pos k) h.fits) [
        | inl (e', ins') ↦ (omega arith, inl (omega arith))
        | inr (e', ar') ↦ (omega arith, inr (omega arith))
      ]
      | inr (e, ar) ↦ elim (ring_index f.out_pos (length q) (2 ^ k) (pow_pos k) h.fits) [
        | inl (e', ins') ↦ absurd (omega arith)
        | inr (e', ar') ↦ (omega arith, inl (omega arith))
      ]
    ]

    new_place :
        (u : ℕ)
        → u < len
        → let p = (f.out_pos + (length q + u)) % 2 ^ k in
          ((p ≡ at_in + u) × (u < first_len) × (len - first_len ≤ p))
          ⊎ ((first_len ≤ u) × (p ≡ u - first_len))
    unfolding at_in first_len
    new_place u lt = elim (ring_index f.out_pos (length q + u) (2 ^ k) (pow_pos k) (omega arith)) [
      | inl (e, ins) ↦ elim (ring_index f.out_pos (length q) (2 ^ k) (pow_pos k) h.fits) [
        | inl (e', ins') ↦ inl (omega arith, omega arith, omega arith)
        | inr (e', ar') ↦ absurd (omega arith)
      ]
      | inr (e, ar) ↦ elim (ring_index f.out_pos (length q) (2 ^ k) (pow_pos k) h.fits) [
        | inl (e', ins') ↦ inr (omega arith, omega arith)
        | inr (e', ar') ↦ inl (omega arith, omega arith, omega arith)
      ]
    ]

    old_holds :
        (t : ℕ) → t < length q → get_elem? second.result ((f.out_pos + t) % 2 ^ k) ≡ get_elem? q t
    old_holds t lt =
        let p = (f.out_pos + t) % 2 ^ k in
        let (behind, off) = old_place t lt in
        second.above p (omega arith)
        ∙ elim off [ inl before ↦ first.below p before | inr after ↦ first.above p after ]
        ∙ h.holds t lt

    new_holds :
        (u : ℕ)
        → u < len
        → get_elem? second.result ((f.out_pos + (length q + u)) % 2 ^ k) ≡ get_elem? src u
    new_holds u lt =
        let p = (f.out_pos + (length q + u)) % 2 ^ k in
        elim (new_place u lt) [
          | inl (e, early, behind) ↦
              second.above p (omega arith)
              ∙ first.inside p (omega arith) (omega arith)
              ∙ ap (get_elem? src) (omega arith)
          | inr (late, e) ↦
              second.inside p (omega arith) (omega arith) ∙ ap (get_elem? src) (omega arith)
        ]

    put_holds :
        (t : ℕ)
        → t < length (q ++ take len src)
        → get_elem? second.result ((f.out_pos + t) % 2 ^ k) ≡ get_elem? (q ++ take len src) t
    put_holds t lt = elim (Bool-cases (ltb t (length q))) [
      | inl old ↦
          old_holds t (ltb-true old) ∙ sym (get_elem?-append_left q (take len src) t (ltb-true old))
      | inr new ↦
          let u = t - length q in
          let e : t ≡ length q + u = omega (arith, ltb-false new) in
          let n = length-append q (take len src) in
          let n' = length-take len src in
          ap (λ i. get_elem? second.result ((f.out_pos + i) % 2 ^ k)) e
          ∙ new_holds u (omega arith)
          ∙ sym (
              ap (get_elem? (q ++ take len src)) e
              ∙ get_elem?-append_right q (take len src) u
              ∙ get_elem?-take len u src (omega arith))
    ]

    put_step :
        f.disabled ≡ false
        → len < 2 ^ 31
        → fifo_put f src len
          ≡ some (len, record f { buffer = second.result; in_pos = add32 f.in_pos len })
    unfolding fifo_put first_len at_in
    put_step on small =
        let enough : (min len (free_size f) == len) ≡ true = ground (arith, free_lem k f q h) in
        rw (on, enough, in_lem k f q h, left_lem k f q h at_in at_in-lt)
          (rw
            (
              as_int_small first_len (omega arith),
              h.copies f.buffer at_in src 0 first_len,
              first.returned,
              as_int_small (len - first_len) (omega arith),
              h.copies first.result 0 src first_len (len - first_len),
              second.returned,
            )
            refl)

    put_IsFifo :
        IsFifo k
          (record f { buffer = second.result; in_pos = add32 f.in_pos len })
          (q ++ take len src)
    put_IsFifo = record {
      bits = h.bits;
      size_eq = h.size_eq;
      room = omega (arith, second.length_eq, first.length_eq, h.room);
      in_eq =
          rw h.in_eq (omega (arith, length-append q (take len src), length-take len src, h.out_lt));
      out_lt = h.out_lt;
      fits = omega (arith, length-append q (take len src), length-take len src);
      holds = put_holds;
      copies = h.copies;
    }

  -- `fifo_put` of `len` bytes to an enabled fifo returns, writes inside the buffer, and is all or
  -- nothing. Where the free places of the 2 ^ k are enough, and `len` is below 2^31, as the copy function
  -- takes an `int`, it returns `len` and the contents have the bytes behind them, though the indices
  -- wrap at 2^32 and the bytes at the ring's end. Where they are not enough it returns 0 and changes nothing: it
  -- does not put as many as are free and return their number, which is what fifo.h says of a put without
  -- enough space.
  pub fifo_put-IsFifo :
      (src : List ℕ) (len : ℕ)
      → f.disabled ≡ false
      → len ≤ length src
      → (length q + len ≤ 2 ^ k
          → len < 2 ^ 31
          → (f' : Fifo) × (fifo_put f src len ≡ some (len, f')) × IsFifo k f' (q ++ take len src))
        × (2 ^ k < length q + len → fifo_put f src len ≡ some (0, f))
  unfolding fifo_put
  fifo_put-IsFifo src len on given = (
    (λ free small. (_, put_step src len given free on small, put_IsFifo src len given free)),
    λ full.
        let short : (min len (free_size f) == len) ≡ false = ground (arith, free_lem k f q h) in
        rw (on, short) refl,
  )
