-- ===== src/Fifo/Read.antt =====
-- `fifo_read` and `fifo_set_offset` of src/fifo.c refine a bounded queue of bytes.
use trace_server.Base.{
  take-min, ℕ, zero, suc, min, ◌+◌, ◌-◌, ◌%◌, ◌^◌, ◌≤◌, ◌<◌, ◌≡◌, refl, ap, ◌∙◌, arith, ◌⊎◌, inl,
  inr, some, ltb, List, [], ◌∷◌, length, take, drop, get_elem?, true, false,
}
use trace_server.Libc.{memcpy}
use trace_server.Fifo.{Fifo, add32, data_len, fifo_read, fifo_set_offset}
use trace_server.Fifo.Bits.{pow_pos}
use trace_server.Fifo.Ring.{IsFifo, Copied, memcpy-Copied, ring_index}
use trace_server.Fifo.Place.{as_int_small, at_lem, data_lem, left_lem, drop-IsFifo}

-- Lists that agree on the first places have the same beginning.
take_same :
    (n : ℕ) (xs ys : List ℕ)
    → n ≤ length xs
    → n ≤ length ys
    → ((t : ℕ) → t < n → get_elem? xs t ≡ get_elem? ys t)
    → take n xs ≡ take n ys
take_same zero xs ys h h' same = refl
take_same (suc n) [] ys h h' same = absurd (omega arith)
take_same (suc n) (x ∷ xs) [] h h' same = absurd (omega arith)
take_same (suc n) (x ∷ xs) (y ∷ ys) h h' same =
    let first : x ≡ y = let e = same 0 (omega arith) in ground arith in
    rw (first, take_same n xs ys (omega arith) (omega arith) (λ t lt. same (suc t) (omega arith)))

take_all_min : (n : ℕ) (xs : List ℕ) → take (min n (length xs)) xs ≡ take n xs
take_all_min n xs =
    let e : min n (length xs) ≡ min (length xs) n = omega arith in rw (e, take-min n xs)

module _ (k : ℕ) (f : Fifo) (q : List ℕ) (h : IsFifo k f q) where
  module _ (dst : List ℕ) (len : ℕ) (room : min len (length q) ≤ length dst) where
    got : ℕ
    got = min len (length q)

    got-le : (got ≤ length q) × (got ≤ length dst)
    unfolding got
    got-le = (omega arith, omega arith)

    at_out : ℕ
    at_out = f.out_pos % 2 ^ k

    at_out-lt : at_out < 2 ^ k
    unfolding at_out
    at_out-lt = omega (arith, pow_pos k)

    out_len : ℕ
    out_len = min got (2 ^ k - at_out)

    out_first : Copied dst 0 f.buffer at_out out_len (memcpy dst 0 f.buffer at_out out_len)
    unfolding out_len got
    out_first =
        memcpy-Copied dst 0 f.buffer at_out out_len (omega arith) (omega (arith, at_out-lt, h.room))

    out_second :
        Copied out_first.result out_len f.buffer 0
          (got - out_len)
          (memcpy out_first.result out_len f.buffer 0 (got - out_len))
    unfolding out_len got
    out_second =
        memcpy-Copied out_first.result out_len f.buffer 0 (got - out_len)
          (omega (arith, out_first.length_eq)) (omega (arith, h.fits, h.room))

    out_place :
        (t : ℕ)
        → t < got
        → let p = (f.out_pos + t) % 2 ^ k in
          ((t < out_len) × (p ≡ at_out + t)) ⊎ ((out_len ≤ t) × (p ≡ t - out_len))
    unfolding out_len got at_out
    out_place t lt = elim (ring_index f.out_pos t (2 ^ k) (pow_pos k) (omega (arith, h.fits))) [
      | inl (e, ins) ↦ inl (omega arith, omega arith)
      | inr (e, ar) ↦ inr (omega (arith, h.fits), omega (arith, h.fits))
    ]

    -- The caller's buffer begins with the oldest bytes.
    read_holds : (t : ℕ) → t < got → get_elem? out_second.result t ≡ get_elem? q t
    read_holds t lt =
        let p = (f.out_pos + t) % 2 ^ k in
        let is_old : t < length q = omega (arith, got-le) in
        elim (out_place t lt) [
          | inl (early, e) ↦
              out_second.below t early
              ∙ out_first.inside t (omega arith) (omega arith)
              ∙ ap (get_elem? f.buffer) (omega arith)
              ∙ h.holds t is_old
          | inr (late, e) ↦
              out_second.inside t late (omega arith)
              ∙ ap (get_elem? f.buffer) (omega arith)
              ∙ h.holds t is_old
        ]

    read_step :
        got < 2 ^ 31
        → fifo_read f dst len
          ≡ some (got, out_second.result, record f { out_pos = add32 f.out_pos got })
    unfolding fifo_read out_len at_out got
    read_step small =
        rw
          (
            data_lem k f q h,
            at_lem k f q h f.out_pos,
            left_lem k f q h at_out at_out-lt,
            as_int_small out_len (omega arith),
            h.copies dst 0 f.buffer at_out out_len,
            out_first.returned,
            as_int_small (got - out_len) (omega arith),
            h.copies out_first.result out_len f.buffer 0 (got - out_len),
            out_second.returned,
          )
          refl

    read_IsFifo : IsFifo k (record f { out_pos = add32 f.out_pos got }) (drop got q)
    read_IsFifo = drop-IsFifo k f q h got got-le.0

    read_rest : (p : ℕ) → got ≤ p → get_elem? out_second.result p ≡ get_elem? dst p
    unfolding out_len
    read_rest p le = out_second.above p (omega arith) ∙ out_first.above p (omega arith)

  -- `fifo_read` returns, reads inside the ring and writes inside the caller's buffer, and takes the
  -- oldest bytes: at most `len`, all there are if they are fewer. They stand in order at the buffer's
  -- start, the rest of the buffer is as it was, and the contents lose just these bytes. They are fewer than
  -- 2^31, as the copy function takes an `int`: any number but that of all bytes of a full ring of 2^31.
  pub fifo_read-IsFifo :
      (dst : List ℕ) (len : ℕ)
      → min len (length q) ≤ length dst
      → min len (length q) < 2 ^ 31
      → (dst' : List ℕ) × (f' : Fifo) × (fifo_read f dst len ≡ some (min len (length q), dst', f'))
        × (take (min len (length q)) dst' ≡ take len q)
        × ((p : ℕ) → min len (length q) ≤ p → get_elem? dst' p ≡ get_elem? dst p)
        × IsFifo k f' (drop (min len (length q)) q)
  unfolding got
  fifo_read-IsFifo dst len room small = (
    (out_second dst len room).result,
    _,
    read_step dst len room small,
    take_same (min len (length q)) (out_second dst len room).result q
          (omega (arith, (out_second dst len room).length_eq, (out_first dst len room).length_eq))
          (omega arith) (read_holds dst len room)
        ∙ take_all_min len q,
    read_rest dst len room,
    read_IsFifo dst len room,
  )

  -- `fifo_set_offset` drops the oldest `offset` bytes and returns their number where there are as many;
  -- where there are not it returns 0 and changes nothing.
  pub fifo_set_offset-IsFifo :
      (offset : ℕ)
      → (offset ≤ length q
          → (f' : Fifo) × (fifo_set_offset f offset ≡ (offset, f')) × IsFifo k f' (drop offset q))
        × (length q < offset → fifo_set_offset f offset ≡ (0, f))
  unfolding fifo_set_offset
  fifo_set_offset-IsFifo offset = (
    (λ le.
        let enough : ltb (data_len f) offset ≡ false = ground (arith, data_lem k f q h) in
        (_, rw enough refl, drop-IsFifo k f q h offset le)),
    λ lt.
        let short : ltb (data_len f) offset ≡ true = ground (arith, data_lem k f q h) in
        rw short refl,
  )
