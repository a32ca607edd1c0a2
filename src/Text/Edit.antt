-- ===== src/Text/Edit.antt =====
-- src/user_string.c: the functions that write. `psrc` is the whole buffer from the pointer on; an
-- edited buffer is returned beside the `int`, of which `none` is -1.
pub mod Laws
mod Tests
use trace_server.Base.{
  ℕ, ◌+◌, ◌-◌, Bool, true, false, ◌&&◌, ◌||◌, Option, none, some, List, [], ◌∷◌, ltb, ◌==◌,
  if◌then◌else◌, ◌>>=◌, omap, drop,
}
use trace_server.Libc.{strlen, strchr, read, write, memcpy, is_digit}
use trace_server.Text.{find_str, Pointer}

pub replace : List ℕ → ℕ → List ℕ → ℕ → List ℕ → ℕ → Option (List ℕ × Option ℕ)
replace psrc src_len prep rep_len pstr str_len = do
  found ← find_str psrc src_len prep rep_len
  elim found [
    | none ↦ some (psrc, none)
    | some offset ↦ memcpy psrc offset pstr 0 str_len >>= λ p. some (p, some 0)
  ]

-- What `insert` and `repalce_with_pin` share: save what stands from offset `backup` up to `src_len`,
-- put `pin` at offset `at_addr`, the saved bytes behind it, and a NUL. `backup_len` is negative only
-- for a match that ends behind `src_len`, which a search does not return.
splice_pin : List ℕ → ℕ → ℕ → ℕ → List ℕ → ℕ → Option (List ℕ)
splice_pin psrc src_len at_addr backup pin pin_len = do
  let backup_len = src_len - backup
  backup_buff ← read psrc backup backup_len
  inserted ← memcpy psrc at_addr pin 0 pin_len
  restored ← write inserted (at_addr + pin_len) backup_buff
  write restored (at_addr + pin_len + backup_len) (0 ∷ [])

pub insert : List ℕ → ℕ → List ℕ → ℕ → List ℕ → ℕ → Option (List ℕ × Option ℕ)
unfolding splice_pin
insert psrc src_len psub sub_len pin pin_len = do
  found ← find_str psrc src_len psub sub_len
  elim found [
    | none ↦ some (psrc, none)
    | some offset ↦
        splice_pin psrc src_len (offset + sub_len) (offset + sub_len) pin pin_len >>= λ p.
        some (p, some offset)
  ]

pub repalce_with_pin : List ℕ → ℕ → List ℕ → ℕ → List ℕ → ℕ → Option (List ℕ × Option ℕ)
unfolding splice_pin
repalce_with_pin psrc src_len psub sub_len pin pin_len = do
  found ← find_str psrc src_len psub sub_len
  elim found [
    | none ↦ some (psrc, none)
    | some offset ↦
        splice_pin psrc src_len offset (offset + sub_len) pin pin_len >>= λ p. some (p, some 0)
  ]

-- The loop of `strline` from psrc[i] on, with `pdest` and `j`; the list is psrc[i..). The index `j` is
-- `i`. `size - 1` is an int: at size 0 it is -1, which `j` never is.
strline_loop : List ℕ → List ℕ → ℕ → ℕ → Option (List ℕ × ℕ)
strline_loop [] pdest j size = none
strline_loop (c ∷ psrc) pdest j size =
    if c == 0
    then some (pdest, j)
    else (write pdest j (c ∷ []) >>= λ pdest'.
        if (j + 1) + 1 == size || c == b'\n'
        then some (pdest', j + 1)
        else strline_loop psrc pdest' (j + 1) size)

pub strline : List ℕ → List ℕ → ℕ → Option (List ℕ × Option ℕ)
unfolding strline_loop
strline psrc pdest size = do
  (line, j) ← strline_loop psrc pdest 0 size
  ended ← write line j (0 ∷ [])
  some (ended, (if j == 0 then none else some j))

-- The text from the first `start` on: the offset of the second search's result, relative to `text`.
between : List ℕ → ℕ → List ℕ → List ℕ → Option (Option (ℕ × ℕ))
between text text_len start end = do
  title_len ← strlen start
  title_end_len ← strlen end
  found ← find_str text text_len start title_len
  elim found [
    | none ↦ some none
    | some offset ↦ do
      let find_addr = offset + title_len
      found_end ← find_str (drop find_addr text) (text_len - find_addr) end title_end_len
      some (omap (λ o. (offset, find_addr + o)) found_end)
  ]

pub substr : List ℕ → ℕ → List ℕ → List ℕ → List ℕ → ℕ → Option (List ℕ × Option ℕ)
unfolding between
substr text text_len start end buf bufsize = do
  title_end_len ← strlen end
  found ← between text text_len start end
  elim found [
    | none ↦ some (buf, none)
    | some (title_start, end_addr) ↦
        let len = end_addr + title_end_len - title_start in
        if ltb len bufsize
        then (memcpy buf 0 text title_start len >>= λ b. some (b, some len))
        else some (buf, none)
  ]

pub cutstr : List ℕ → ℕ → List ℕ → List ℕ → List ℕ → ℕ → Option (List ℕ × Option ℕ)
unfolding between
cutstr text text_len start end buf bufsize = do
  title_len ← strlen start
  found ← between text text_len start end
  elim found [
    | none ↦ some (buf, none)
    | some (offset, end_addr) ↦
        let title_start = offset + title_len in
        let len = end_addr - title_start in
        if ltb len bufsize
        then (memcpy buf 0 text title_start len >>= λ b. some (b, some len))
        else some (buf, none)
  ]

cut_at : List ℕ → ℕ → Option (List ℕ)
cut_at src ch = do p ← strchr src ch; elim p [ none ↦ some src | some i ↦ write src i (0 ∷ []) ]

pub del_tab_newline : List ℕ → Option (List ℕ)
unfolding cut_at
del_tab_newline src = cut_at src b'\r' >>= λ s. cut_at s b'\n'

-- The loop of `isdigit_str`: how many digits stand at the front, and whether a NUL follows.
isdigit_loop : List ℕ → ℕ → Option (ℕ × Bool)
isdigit_loop [] i = none
isdigit_loop (c ∷ str) i =
    if c == 0
    then some (i, true)
    else if is_digit c
    then isdigit_loop str (i + 1)
    else some (i, false)

unfoldable pub isdigit_str : Pointer → Option Bool
unfolding isdigit_loop
isdigit_str none = some false
isdigit_str (some str) = isdigit_loop str 0 >>= λ (i, ended). some (ltb 0 i && ended)
