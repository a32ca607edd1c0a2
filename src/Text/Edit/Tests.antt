-- ===== src/Text/Edit/Tests.antt =====
-- Tests of the string functions that write.
use trace_server.Base.{ℕ, ◌≡◌, refl, ◌&&◌, some, List, [], ◌∷◌, ◌++◌, arith, take, drop, ltb}
use trace_server.Libc.{cstr}
use trace_server.Libc.Laws.{NoNul}
use trace_server.Bm.Correct.{IsBytes}
use trace_server.Bm.{sunday}
use trace_server.Text.{find_str}
use trace_server.Text.Edit.{
  strline_loop, between, cut_at, replace, insert, repalce_with_pin, strline, substr, cutstr,
  del_tab_newline, isdigit_str,
}
use trace_server.Text.Edit.Laws.{insert_lem, repalce_with_pin_lem, isdigit_str_lem, all_digits}

-- "abc" in a buffer of 8 bytes
abbrev buf : List ℕ
buf = b'a' ∷ b'b' ∷ b'c' ∷ 0 ∷ 0 ∷ 0 ∷ 0 ∷ 0 ∷ []

abbrev sub : List ℕ
sub = b'b' ∷ []

abbrev pin : List ℕ
pin = b'x' ∷ b'y' ∷ []

buf-IsBytes : IsBytes buf
buf-IsBytes = (
  omega arith,
  (
    omega arith,
    (omega arith, (omega arith, (omega arith, (omega arith, (omega arith, (omega arith, tt)))))),
  ),
)

pin-NoNul : NoNul pin
pin-NoNul = ((λ e. omega arith), ((λ e. omega arith), tt))

insert_lem_example :
    (b : List ℕ) × (insert buf 3 sub 1 pin 2 ≡ some (b, some 1))
    × (cstr b ≡ take 2 (cstr buf) ++ (pin ++ drop 2 (cstr buf)))
insert_lem_example =
    insert_lem buf sub pin 3 refl buf-IsBytes (omega arith) pin-NoNul 1 (omega arith) refl

repalce_with_pin_lem_example :
    (b : List ℕ) × (repalce_with_pin buf 3 sub 1 pin 2 ≡ some (b, some 0))
    × (cstr b ≡ take 1 (cstr buf) ++ (pin ++ drop 2 (cstr buf)))
repalce_with_pin_lem_example =
    repalce_with_pin_lem buf sub pin 3 refl buf-IsBytes (omega arith) pin-NoNul 1 (omega arith) refl

isdigit_str_lem_example : isdigit_str (some buf) ≡ some (ltb 0 3 && all_digits (cstr buf))
isdigit_str_lem_example = isdigit_str_lem buf 3 refl

replaces :
    replace buf 3 sub 1 (b'z' ∷ []) 1 ≡ some (b'a' ∷ b'z' ∷ b'c' ∷ 0 ∷ 0 ∷ 0 ∷ 0 ∷ 0 ∷ [], some 0)
unfolding replace find_str sunday
replaces = refl

reads_line : strline buf (9 ∷ 9 ∷ 9 ∷ 9 ∷ []) 4 ≡ some (b'a' ∷ b'b' ∷ b'c' ∷ 0 ∷ [], some 3)
unfolding strline strline_loop
reads_line = refl

cuts :
    cutstr buf 3 (b'a' ∷ 0 ∷ []) (b'c' ∷ 0 ∷ []) (9 ∷ 9 ∷ 9 ∷ []) 3
    ≡ some (b'b' ∷ 9 ∷ 9 ∷ [], some 1)
unfolding cutstr between find_str sunday
cuts = refl

takes_part :
    substr buf 3 (b'a' ∷ 0 ∷ []) (b'b' ∷ 0 ∷ []) (9 ∷ 9 ∷ 9 ∷ []) 3
    ≡ some (b'a' ∷ b'b' ∷ 9 ∷ [], some 2)
unfolding substr between find_str sunday
takes_part = refl

cuts_newline : del_tab_newline (b'a' ∷ b'\n' ∷ 0 ∷ []) ≡ some (b'a' ∷ 0 ∷ 0 ∷ [])
unfolding del_tab_newline cut_at
cuts_newline = refl
