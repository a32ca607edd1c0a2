-- ===== src/Http/Field.antt =====
-- src/http_request.c: the fields of the header, and the length of the content.
-- A result is the `bool` beside the caller's buffer as the call leaves it; the outer `none` is a read
-- or write outside an object.
use trace_server.Base.{
  ℕ, zero, suc, ◌+◌, ◌-◌, ◌^◌, ◌%◌, Bool, true, false, ◌&&◌, not, Option, none, some, List, [], ◌∷◌,
  ◌++◌, ltb, ◌==◌, min, if◌then◌else◌, ◌>>=◌, drop, replicate, get_elem?,
}
use trace_server.Base.Int.{ℤ, pos, negsuc}
use trace_server.Libc.{cstr, strlen, write, memcpy, snprintf, is_digit, digits_value}
use trace_server.Text.{straddr, straddr_case}
use trace_server.Http.{HttpRequest}

abbrev pub crlf : List ℕ
crlf = b'\r' ∷ b'\n' ∷ 0 ∷ []

-- The first loop of `httpRequest_find_field`: how many of the next `n` bytes are spaces at the front.
pub count_spaces : ℕ → List ℕ → Option ℕ
count_spaces zero p = some 0
count_spaces (suc n) [] = none
count_spaces (suc n) (c ∷ p) =
    if not (c == b' ') then some 0 else (count_spaces n p >>= λ i. some (suc i))

-- Its second loop: NULs over the spaces that end the first `i` bytes.
pub trim_end : ℕ → List ℕ → Option (List ℕ)
trim_end zero buf = some buf
trim_end (suc i) buf = do
  c ← get_elem? buf i
  if not (c == b' ') then some buf else (write buf i (0 ∷ []) >>= λ b. trim_end i b)

-- The value is copied out: `p` is the offset behind the field's name, `len` the distance to the line's
-- end. The leading spaces are passed over and the copy is that much shorter.
copy_value : List ℕ → ℕ → ℕ → List ℕ → Option (List ℕ)
unfolding count_spaces trim_end
copy_value header p len value_buf = do
  i ← count_spaces len (drop p header)
  let value_len = len - i
  copied ← memcpy value_buf 0 header (p + i) value_len
  ended ← write copied value_len (0 ∷ [])
  trim_end value_len ended

-- `find` is not NULL; `value_buf` is not NULL and holds at least `value_buf_size` bytes.
unfoldable pub find_field : HttpRequest → List ℕ → List ℕ → ℕ → Option (Bool × List ℕ)
unfolding copy_value
find_field r find value_buf value_buf_size = do
  find_len ← strlen find
  if not (
        ltb 0 r.header_len && (ltb 0 find_len && (ltb find_len (255 - 10) && ltb 0 value_buf_size)))
      then some (false, value_buf)
      else do
        find_str ← snprintf (replicate 255 0) 0 254 (b'\r' ∷ b'\n' ∷ (cstr find ++ (b':' ∷ [])))
        let find_str_len = find_len + 3
        field ← straddr_case (some r.header) (some find_str)
        elim field [
          | none ↦ some (false, value_buf)
          | some at_name ↦ do
            let p = at_name + find_str_len
            line_end ← straddr (some (drop p r.header)) (some crlf)
            elim line_end [
              | none ↦ some (false, value_buf)
              | some len ↦
                  if ltb len value_buf_size
                  then (copy_value r.header p len value_buf >>= λ b. some (true, b))
                  else some (false, value_buf)
            ]
        ]

-- (int) strtol(s, NULL, 10), as the C library defines atoi, on a string of digits: the value is limited
-- to LONG_MAX and cut to 32 bits.
abbrev pub to_int : ℕ → ℤ
to_int v =
    let w = min v (2 ^ 63 - 1) % 2 ^ 32 in if ltb w (2 ^ 31) then pos w else negsuc (2 ^ 32 - w - 1)

abbrev pub atoi : List ℕ → ℤ
atoi s = to_int (digits_value 0 (cstr s))

-- The loop over value_buf: whether it runs to the end of the string.
pub only_digits : List ℕ → Bool
only_digits [] = true
only_digits (c ∷ s) = if not (is_digit c) then false else only_digits s

-- "Content-Length"
abbrev pub content_length_name : List ℕ
content_length_name =
    b'C' ∷ b'o' ∷ b'n' ∷ b't' ∷ b'e' ∷ b'n' ∷ b't' ∷ b'-' ∷ b'L' ∷ b'e' ∷ b'n' ∷ b'g' ∷ b't' ∷ b'h'
    ∷ 0 ∷ []

unfoldable pub get_content_length : HttpRequest → Option ℤ
unfolding find_field only_digits
get_content_length r = do
  (found, value_buf) ← find_field r content_length_name (replicate 32 0) 31
  if not found
      then some (pos 0)
      else (strlen value_buf >>= λ _.
          some (if only_digits (cstr value_buf) then atoi value_buf else pos 0))
