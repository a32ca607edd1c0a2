-- ===== src/Text.antt =====
-- src/user_string.c: search in strings. A pointer is NULL (`none`) or the bytes that can be read from
-- it on; an address that is returned is its offset from the searched pointer. Lengths passed as `int`
-- are not negative. The outer `none` of a result is a read or write outside an object.
pub mod Edit
pub mod Laws
mod Tests
use trace_server.Base.{
  ℕ, zero, suc, ◌+◌, ◌-◌, Bool, true, false, ◌&&◌, ◌||◌, Option, none, some, List, [], ◌∷◌, ◌++◌,
  ltb, leb, ◌==◌, if◌then◌else◌, ◌>>=◌, omap, length, take, drop, is_some,
}
use trace_server.Libc.{strlen, read}
use trace_server.Bm.{sunday, sunday_case}

abbrev pub Pointer : Type 0
Pointer = Option (List ℕ)

-- A search of `src_len` bytes for `find_len` bytes.
abbrev pub Find : Type 0
Find = List ℕ → ℕ → List ℕ → ℕ → Option (Option ℕ)

-- The macros find_str and find_str_case of user_string.h.
unfoldable pub find_str : Find
find_str psrc src_len pfind find_len = read pfind 0 find_len >>= λ patt. sunday psrc src_len patt

unfoldable pub find_str_case : Find
find_str_case psrc src_len pfind find_len =
    read pfind 0 find_len >>= λ patt. sunday_case psrc src_len patt

-- The shared body of the functions that measure both strings first.
unfoldable pub addr_by : Find → Pointer → Pointer → Option (Option ℕ)
addr_by find none findstr = some none
addr_by find (some src_buf) none = some none
addr_by find (some src_buf) (some findstr) = do
  src_len ← strlen src_buf
  find_len ← strlen findstr
  if src_len == 0 || find_len == 0 then some none else find src_buf src_len findstr find_len

unfoldable pub straddr : Pointer → Pointer → Option (Option ℕ)
straddr = addr_by find_str

unfoldable pub straddr_case : Pointer → Pointer → Option (Option ℕ)
straddr_case = addr_by find_str_case

-- `int` 1 and 0 are `true` and `false`.
pub is_strexit : Pointer → Pointer → Option Bool
is_strexit src_buf findstr = addr_by find_str src_buf findstr >>= λ offset. some (is_some offset)

pub is_strexit_case : Pointer → Pointer → Option Bool
is_strexit_case src_buf findstr =
    addr_by find_str_case src_buf findstr >>= λ offset. some (is_some offset)

strnexit_by : Find → Pointer → ℕ → Pointer → ℕ → Option Bool
strnexit_by find none src_len findstr find_len = some false
strnexit_by find (some src_buf) src_len none find_len = some false
strnexit_by find (some src_buf) src_len (some findstr) find_len =
    if src_len == 0 || find_len == 0
    then some false
    else (find src_buf src_len findstr find_len >>= λ offset. some (is_some offset))

pub is_strnexit : Pointer → ℕ → Pointer → ℕ → Option Bool
unfolding strnexit_by
is_strnexit = strnexit_by find_str

pub is_strnexit_case : Pointer → ℕ → Pointer → ℕ → Option Bool
unfolding strnexit_by
is_strnexit_case = strnexit_by find_str_case

strnaddr_by : Find → Pointer → ℕ → Pointer → ℕ → Option (Option ℕ)
strnaddr_by find none src_len findstr find_len = some none
strnaddr_by find (some src_buf) src_len none find_len = some none
strnaddr_by find (some src_buf) src_len (some findstr) find_len =
    find src_buf src_len findstr find_len

pub strnaddr : Pointer → ℕ → Pointer → ℕ → Option (Option ℕ)
unfolding strnaddr_by
strnaddr = strnaddr_by find_str

pub strnaddr_case : Pointer → ℕ → Pointer → ℕ → Option (Option ℕ)
unfolding strnaddr_by
strnaddr_case = strnaddr_by find_str_case
