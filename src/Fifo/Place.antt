-- ===== src/Fifo/Place.antt =====
-- The fifo's places: positions, sizes and the oldest bytes dropped.
use trace_server.Base.{
  ℕ, ◌+◌, ◌-◌, ◌%◌, ◌^◌, ◌≤◌, ◌<◌, ◌≡◌, refl, lt→ltb, sym, ap, ◌∙◌, arith, List, length, drop,
  get_elem?, get_elem?-drop, length-drop,
}
use trace_server.Base.Int.{pos}
use trace_server.Libc.Print.{as_int}
use trace_server.Fifo.{Fifo, u32_mod, add32, sub32, and32, free_size, data_len}
use trace_server.Fifo.Ring.{IsFifo, and32-size, wrap_mod, pow_le}

module _ (k : ℕ) (f : Fifo) (q : List ℕ) (h : IsFifo k f q) where
  abbrev pub places : ℕ
  places = 2 ^ k

  pub at_lem : (x : ℕ) → and32 x (sub32 f.size 1) ≡ x % places
  at_lem x = rw h.size_eq (and32-size k x h.bits)

  pub in_lem : and32 f.in_pos (sub32 f.size 1) ≡ (f.out_pos + length q) % places
  in_lem = at_lem f.in_pos ∙ rw h.in_eq (wrap_mod k (f.out_pos + length q) h.bits)

  pub free_lem : free_size f ≡ places - length q
  free_lem = rw (h.size_eq, h.in_eq) (omega (arith, h.out_lt, h.fits, pow_le k h.bits))

  pub data_lem : data_len f ≡ length q
  data_lem = rw h.in_eq (omega (arith, h.out_lt, h.fits, pow_le k h.bits))

  pub left_lem : (p : ℕ) → p < places → sub32 f.size p ≡ places - p
  left_lem p lt = rw h.size_eq (omega (arith, pow_le k h.bits))

  place_behind : (n t : ℕ) → (add32 f.out_pos n + t) % places ≡ (f.out_pos + (n + t)) % places
  place_behind n t =
      let m = wrap_mod k (add32 f.out_pos n + t) h.bits in
      let m' = wrap_mod k (f.out_pos + (n + t)) h.bits in
      let e : (add32 f.out_pos n + t) % u32_mod ≡ (f.out_pos + (n + t)) % u32_mod = omega arith in
      sym m ∙ ap (λ x. x % places) e ∙ m'

  -- The oldest bytes are dropped by moving `out_pos`.
  pub drop-IsFifo :
      (n : ℕ) → n ≤ length q → IsFifo k (record f { out_pos = add32 f.out_pos n }) (drop n q)
  drop-IsFifo n le = record {
    bits = h.bits;
    size_eq = h.size_eq;
    room = h.room;
    in_eq = rw h.in_eq (omega (arith, length-drop n q, h.out_lt));
    out_lt = omega arith;
    fits = omega (arith, length-drop n q, h.fits);
    holds = λ t lt.
        ap (get_elem? f.buffer) (place_behind n t)
        ∙ h.holds (n + t) (omega (arith, length-drop n q))
        ∙ sym (get_elem?-drop n t q);
    copies = h.copies;
  }

pub as_int_small : (n : ℕ) → n < 2 ^ 31 → as_int n ≡ pos n
as_int_small n lt = rw (lt→ltb n (2 ^ 31) lt) refl
