-- ===== src/Fifo.antt =====
-- src/fifo.c: a ring of bytes with `unsigned int` indices that only grow and wrap at 2^32. `copy_fn` is
-- the caller's: it gets the object to write and an offset in it, the object to read and an offset, and the
-- length as an `int`.
-- The outer `none` of a result is a copy outside an object, or a loop that does not end. The lock and
-- the name, which is only printed, are left out.
pub mod Bits
pub mod Size
pub mod Ring
pub mod Place
pub mod Put
pub mod Read
mod Tests
use trace_server.Base.{
  ℕ, zero, suc, ◌+◌, ◌-◌, ◌*◌, ◌/◌, ◌%◌, ◌^◌, Bool, true, false, not, ◌&&◌, Option, none, some,
  List, ltb, leb, ◌==◌, min, if◌then◌else◌, ◌>>=◌,
}
use trace_server.Base.Int.{ℤ}
use trace_server.Libc.Print.{as_int}

abbrev pub u32_mod : ℕ
u32_mod = 2 ^ 32

abbrev pub add32 : ℕ → ℕ → ℕ
add32 a b = (a + b) % u32_mod

-- Of two numbers below 2^32.
abbrev pub sub32 : ℕ → ℕ → ℕ
sub32 a b = (a + u32_mod - b) % u32_mod

-- a & b on `n` binary digits.
abbrev pub and_bits : ℕ → ℕ → ℕ → ℕ
and_bits zero a b = 0
and_bits (suc n) a b = a % 2 * (b % 2) + 2 * and_bits n (a / 2) (b / 2)

abbrev pub and32 : ℕ → ℕ → ℕ
and32 = and_bits 32

pub record Fifo : Type 0 where
  pub buffer : List ℕ
  pub size : ℕ
  pub in_pos : ℕ
  pub out_pos : ℕ
  pub disabled : Bool
  pub copy_fn : List ℕ → ℕ → List ℕ → ℕ → ℤ → Option (List ℕ)

-- x >> 1 of an `int`, as its 32 bits.
abbrev pub shift_right : ℕ → ℕ
shift_right x = x / 2 + (if leb (2 ^ 31) x then 2 ^ 31 else 0)

-- The loop of `_fls`, on fuel.
unfoldable pub fls_loop : ℕ → ℕ → ℕ → Option ℕ
fls_loop zero i position = none
fls_loop (suc fuel) i position =
    let next : Option ℕ = fls_loop fuel (shift_right i) (position + 1) in
    if i == 0 then some position else next

-- Of a number that is not negative the loop ends after at most 31 rounds; of a negative one it does not.
unfoldable pub fls : ℕ → Option ℕ
fls x =
    if not (x == 0)
    then (fls_loop 33 (shift_right x) 0 >>= λ position. some (position + 1))
    else some 0

-- The shift of `1UL` is 64 bits wide; the result is cut to 32.
unfoldable pub roundup_pow_of_two : ℕ → Option ℕ
roundup_pow_of_two x = fls (sub32 x 1) >>= λ k. some (2 ^ k % u32_mod)

unfoldable pub fifo_cal_buffer_size : ℕ → Option ℕ
fifo_cal_buffer_size size =
    if not (and32 size (sub32 size 1) == 0) then roundup_pow_of_two size else some size

-- With a fifo, a buffer and a function that are not NULL.
unfoldable pub fifo_create_by_array :
    List ℕ → ℕ → (List ℕ → ℕ → List ℕ → ℕ → ℤ → Option (List ℕ)) → Option Fifo
fifo_create_by_array buffer size copy_fn =
    if ltb 0 size
    then some (record {
      buffer = buffer;
      size = size;
      in_pos = 0;
      out_pos = 0;
      disabled = true;
      copy_fn = copy_fn;
    })
    else none

-- FIFO_FREE_SIZE and FIFO_DATA_LEN
abbrev pub free_size : Fifo → ℕ
free_size f = add32 (sub32 f.size f.in_pos) f.out_pos

abbrev pub data_len : Fifo → ℕ
data_len f = sub32 f.in_pos f.out_pos

unfoldable pub fifo_put : Fifo → List ℕ → ℕ → Option (ℕ × Fifo)
fifo_put f src len =
    if f.disabled
    then some (0, f)
    else if not (min len (free_size f) == len)
    then some (0, f)
    else let at_in = and32 f.in_pos (sub32 f.size 1) in
      let l = min len (sub32 f.size at_in) in
      (f.copy_fn f.buffer at_in src 0 (as_int l) >>= λ first.
      f.copy_fn first 0 src l (as_int (len - l)) >>= λ second.
      some (len, record f { buffer = second; in_pos = add32 f.in_pos len }))

-- The result, the caller's buffer and the fifo.
unfoldable pub fifo_read : Fifo → List ℕ → ℕ → Option (ℕ × List ℕ × Fifo)
fifo_read f dst len =
    let n = min len (data_len f) in
    let at_out = and32 f.out_pos (sub32 f.size 1) in
    let l = min n (sub32 f.size at_out) in
    (f.copy_fn dst 0 f.buffer at_out (as_int l) >>= λ first.
    f.copy_fn first l f.buffer 0 (as_int (n - l)) >>= λ second.
    some (n, second, record f { out_pos = add32 f.out_pos n }))

-- Under the lock.
unfoldable pub fifo_safe_put : Fifo → List ℕ → ℕ → Option (ℕ × Fifo)
unfolding fifo_put
fifo_safe_put f src len = fifo_put f src len

unfoldable pub fifo_set_offset : Fifo → ℕ → ℕ × Fifo
fifo_set_offset f offset =
    if ltb (data_len f) offset
    then (0, f)
    else (offset, record f { out_pos = add32 f.out_pos offset })

unfoldable pub fifo_clean : Fifo → Fifo
fifo_clean f = record f { in_pos = 0; out_pos = 0 }

unfoldable pub fifo_enable : Fifo → Fifo
fifo_enable f = record f { disabled = false }

unfoldable pub fifo_disable : Fifo → Fifo
fifo_disable f = record f { disabled = true }
