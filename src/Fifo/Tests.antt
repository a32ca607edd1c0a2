-- ===== src/Fifo/Tests.antt =====
-- Tests of the ring of bytes.
use trace_server.Base.{
  ℕ, zero, suc, ◌-◌, ◌%◌, ◌+◌, ◌*◌, ◌^◌, ◌≤◌, ◌<◌, ◌≡◌, refl, min, false, Option, some, none, List,
  [], ◌∷◌, ◌++◌, arith, length, take, drop, get_elem?,
}
use trace_server.Base.Int.{ℤ, pos, negsuc}
use trace_server.Libc.{memcpy}
use trace_server.Fifo.{
  Fifo, fls, fls_loop, roundup_pow_of_two, fifo_cal_buffer_size, fifo_create_by_array, fifo_put,
  fifo_read, fifo_safe_put, fifo_set_offset, fifo_clean, fifo_enable, fifo_disable,
}
use trace_server.Fifo.Size.{fifo_cal_buffer_size_lem}
use trace_server.Fifo.Ring.{IsFifo}
use trace_server.Fifo.Put.{fifo_put-IsFifo}
use trace_server.Fifo.Read.{fifo_read-IsFifo, fifo_set_offset-IsFifo}

fifo_cal_buffer_size_lem_example :
    (k : ℕ) × (fifo_cal_buffer_size 5 ≡ some (2 ^ k)) × (k ≤ 31) × (5 ≤ 2 ^ k) × (2 ^ k < 2 * 5)
fifo_cal_buffer_size_lem_example = fifo_cal_buffer_size_lem 5 (omega arith) (omega arith)

-- The copy of an `int` number of bytes.
abbrev copy_bytes : List ℕ → ℕ → List ℕ → ℕ → ℤ → Option (List ℕ)
copy_bytes dst i src j (pos n) = memcpy dst i src j n
copy_bytes dst i src j (negsuc n) = none

-- Four places; the indices are about to wrap, and the contents stand round the ring's end.
abbrev ring : Fifo
ring = record {
  buffer = 9 ∷ 0 ∷ 0 ∷ 8 ∷ [];
  size = 4;
  in_pos = 1;
  out_pos = 2 ^ 32 - 1;
  disabled = false;
  copy_fn = copy_bytes;
}

abbrev contents : List ℕ
contents = 8 ∷ 9 ∷ []

ring-holds :
    (t : ℕ) → t < 2 → get_elem? (ring.buffer) ((ring.out_pos + t) % 2 ^ 2) ≡ get_elem? contents t
ring-holds zero lt = refl
ring-holds (suc zero) lt = refl
ring-holds (suc (suc t)) lt = absurd (omega arith)

ring-IsFifo : IsFifo 2 ring contents
ring-IsFifo = record {
  bits = omega arith;
  size_eq = refl;
  room = omega arith;
  in_eq = refl;
  out_lt = omega arith;
  fits = omega arith;
  holds = ring-holds;
  copies = λ dst i src j n. refl;
}

fifo_put-IsFifo_example :
    (length contents + 2 ≤ 2 ^ 2
      → 2 < 2 ^ 31
      → (f' : Fifo) × (fifo_put ring (5 ∷ 6 ∷ []) 2 ≡ some (2, f'))
        × IsFifo 2 f' (contents ++ take 2 (5 ∷ 6 ∷ [])))
    × (2 ^ 2 < length contents + 2 → fifo_put ring (5 ∷ 6 ∷ []) 2 ≡ some (0, ring))
fifo_put-IsFifo_example =
    fifo_put-IsFifo 2 ring contents ring-IsFifo (5 ∷ 6 ∷ []) 2 refl (omega arith)

fifo_read-IsFifo_example :
    (dst' : List ℕ) × (f' : Fifo) × (fifo_read ring (0 ∷ 0 ∷ []) 1 ≡ some (min 1 2, dst', f'))
    × (take (min 1 2) dst' ≡ take 1 contents)
    × ((p : ℕ) → min 1 2 ≤ p → get_elem? dst' p ≡ get_elem? (0 ∷ 0 ∷ []) p)
    × IsFifo 2 f' (drop (min 1 2) contents)
fifo_read-IsFifo_example =
    fifo_read-IsFifo 2 ring contents ring-IsFifo (0 ∷ 0 ∷ []) 1 (omega arith) (omega arith)

fifo_set_offset-IsFifo_example :
    (1 ≤ length contents
      → (f' : Fifo) × (fifo_set_offset ring 1 ≡ (1, f')) × IsFifo 2 f' (drop 1 contents))
    × (length contents < 1 → fifo_set_offset ring 1 ≡ (0, ring))
fifo_set_offset-IsFifo_example = fifo_set_offset-IsFifo 2 ring contents ring-IsFifo 1

wraps :
    fifo_put ring (5 ∷ 6 ∷ []) 2 ≡ some (2, record ring { buffer = 9 ∷ 5 ∷ 6 ∷ 8 ∷ []; in_pos = 3 })
unfolding fifo_put
wraps = refl

safe :
    fifo_safe_put ring (5 ∷ []) 1
    ≡ some (1, record ring { buffer = 9 ∷ 5 ∷ 0 ∷ 8 ∷ []; in_pos = 2 })
unfolding fifo_safe_put
safe = refl

created :
    (f : Fifo) × (fifo_create_by_array (9 ∷ []) 1 copy_bytes ≡ some f)
    × (fifo_clean (fifo_disable (fifo_enable f)) ≡ f)
unfolding fifo_create_by_array fifo_clean fifo_disable fifo_enable
created = (_, refl, refl)

no_end : roundup_pow_of_two (2 ^ 31 + 2) ≡ none
unfolding roundup_pow_of_two fls fls_loop
no_end = refl
