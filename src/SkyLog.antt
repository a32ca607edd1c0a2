-- ===== src/SkyLog.antt =====
-- src/sky_log.c and src/skylog_type.c: what a request says of the log that it carries. A `char` array is
-- the list of its bytes; the outer `none` is a read or write outside an array.
pub mod Laws
pub mod Record
pub mod Save
mod Tests
use trace_server.Base.{
  ℕ, zero, suc, ◌+◌, Bool, true, false, ◌&&◌, not, Option, none, some, List, [], ◌∷◌, ltb, leb,
  ◌==◌, if◌then◌else◌, ◌>>=◌, replicate, is_some, get_elem?,
}
use trace_server.Base.Int.{ℤ, pos, negsuc}
use trace_server.File.{File}
use trace_server.Libc.{cstr, strlen, strstr, write, snprintf, is_digit}
use trace_server.Text.Edit.{isdigit_str}
use trace_server.Http.{HttpRequest}
use trace_server.Http.Field.{find_field, atoi}
use trace_server.Http.Url.{get_url_parmer_value}

-- `f` is NULL or an open file.
pub record Skylog : Type 0 where
  pub hw : List ℕ
  pub ver : List ℕ
  pub sn : List ℕ
  pub ch : ℤ
  pub create_data : List ℕ
  pub file_path : List ℕ
  pub type_code : ℤ
  pub f : Option File

-- E_SKY_LOG_TYPE_UNKOWN
abbrev pub type_unkown : ℕ
type_unkown = 6

-- `_skylog_name`, each without the NULs behind it.
abbrev skylog_names : List (List ℕ)
skylog_names =
    (b'C' ∷ b'r' ∷ b'a' ∷ b's' ∷ b'h' ∷ 0 ∷ [])
    ∷ (b'E' ∷ b'r' ∷ b'r' ∷ b'o' ∷ b'r' ∷ 0 ∷ [])
    ∷ (b'L' ∷ b'o' ∷ b'g' ∷ 0 ∷ [])
    ∷ (b'D' ∷ b'e' ∷ b'b' ∷ b'u' ∷ b'g' ∷ 0 ∷ [])
    ∷ (b'F' ∷ b'l' ∷ b'o' ∷ b'w' ∷ 0 ∷ [])
    ∷ (b'D' ∷ b'N' ∷ b'S' ∷ 0 ∷ [])
    ∷ (b'U' ∷ b'n' ∷ b'k' ∷ b'o' ∷ b'w' ∷ b'n' ∷ b'T' ∷ b'y' ∷ b'p' ∷ b'e' ∷ 0 ∷ [])
    ∷ []

-- `none` is NULL.
unfoldable pub get_skylog_type_name : ℤ → Option (List ℕ)
get_skylog_type_name (pos t) = get_elem? skylog_names t
get_skylog_type_name (negsuc t) = none

-- What `memset` to 0 leaves.
abbrev pub zeroed : Skylog
zeroed = record {
  hw = replicate 64 0;
  ver = replicate 64 0;
  sn = replicate 64 0;
  ch = pos 0;
  create_data = replicate 32 0;
  file_path = replicate 255 0;
  type_code = pos 0;
  f = none;
}

-- `_skylog_info_init`, whatever the log was before.
unfoldable pub skylog_info_init : Option Skylog
skylog_info_init = do
  hw ← snprintf zeroed.hw 0 64 (
      b'U' ∷ b'n' ∷ b'k' ∷ b'o' ∷ b'w' ∷ b'n' ∷ b'P' ∷ b'r' ∷ b'o' ∷ b'd' ∷ b'u' ∷ b'c' ∷ b't' ∷ [])
  ver ← snprintf zeroed.ver 0 64 (
      b'U' ∷ b'n' ∷ b'k' ∷ b'o' ∷ b'w' ∷ b'n' ∷ b'V' ∷ b'e' ∷ b'r' ∷ b's' ∷ b'i' ∷ b'o' ∷ b'n' ∷ [])
  sn ← snprintf zeroed.sn 0 64 (b'U' ∷ b'n' ∷ b'k' ∷ b'o' ∷ b'w' ∷ b'n' ∷ b'S' ∷ b'n' ∷ [])
  some (record zeroed { hw = hw; ver = ver; sn = sn; ch = pos 1; type_code = pos type_unkown })

-- A parameter of the URL, read into a zeroed buffer of 1024 bytes: whether it is there, and its value.
unfoldable pub parameter : HttpRequest → List ℕ → ℕ → Option (Bool × List ℕ)
parameter r key key_len = get_url_parmer_value r key key_len (replicate 1024 0) 1023

-- A parameter into an array of 64 bytes.
unfoldable pub name_parameter : HttpRequest → List ℕ → ℕ → List ℕ → Option (List ℕ)
name_parameter r key key_len old = do
  (found, value) ← parameter r key key_len
  if found then snprintf old 0 63 (cstr value) else some old

-- A parameter that is a number.
unfoldable pub number_parameter : HttpRequest → List ℕ → ℕ → ℤ → Option ℤ
number_parameter r key key_len old = do
  (found, value) ← parameter r key key_len
  if not found
      then some old
      else do digits ← isdigit_str (some value); some (if digits then atoi value else old)

abbrev pub solis_home : List ℕ
solis_home = b'S' ∷ b'o' ∷ b'l' ∷ b'i' ∷ b's' ∷ b'H' ∷ b'o' ∷ b'm' ∷ b'e' ∷ 0 ∷ []

-- The creation date, into an array of 32 bytes.
unfoldable pub parse_create_data : HttpRequest → List ℕ → Option (List ℕ)
parse_create_data r old = do
  (found, value) ←
      find_field r
        (b'C' ∷ b'r' ∷ b'e' ∷ b'a' ∷ b't' ∷ b'e' ∷ b'-' ∷ b'D' ∷ b'a' ∷ b't' ∷ b'a' ∷ 0 ∷ [])
        (replicate 1024 0) 1023
  (if found then snprintf old 0 31 (cstr value) else some old)

-- One name for all versions of that product.
unfoldable pub home_name : List ℕ → Option (List ℕ)
home_name hw = do
  at_home ← strstr hw solis_home
  (if is_some at_home then write (replicate 64 0) 0 solis_home else some hw)

-- The parameters of the URL.
unfoldable pub parse_parameters : HttpRequest → Skylog → Option Skylog
unfolding home_name name_parameter number_parameter
parse_parameters r old = do
  hw ← name_parameter r (b'H' ∷ b'w' ∷ 0 ∷ []) 2 old.hw
  ver ← name_parameter r (b'V' ∷ b'e' ∷ b'r' ∷ 0 ∷ []) 3 old.ver
  sn ← name_parameter r (b'S' ∷ b'n' ∷ 0 ∷ []) 2 old.sn
  ch ← number_parameter r (b'C' ∷ b'h' ∷ 0 ∷ []) 2 old.ch
  type_code ← number_parameter r (b'T' ∷ b'y' ∷ b'p' ∷ b'e' ∷ 0 ∷ []) 4 old.type_code
  hw' ← home_name hw
  some (record old { hw = hw'; ver = ver; sn = sn; ch = ch; type_code = type_code })

unfoldable pub parse_skylog_info : HttpRequest → Option Skylog
unfolding skylog_info_init parse_create_data parse_parameters
parse_skylog_info r = do
  fresh ← skylog_info_init
  create_data ← parse_create_data r fresh.create_data
  parse_parameters r (record fresh { create_data = create_data })

-- The tests of the loop of `_skylog_check_create_data` on one byte: whether the loop goes on.
abbrev create_data_goes_on : ℕ → ℕ → Bool
create_data_goes_on i c =
    if not (leb i 3 && is_digit c)
    then false
    else if not ((i == 4) && (c == b'-'))
    then false
    else if not ((leb 5 i && leb i 6) && is_digit c)
    then false
    else if not ((i == 7) && (c == b'-'))
    then false
    else (leb 8 i && leb i 9) && is_digit c

-- The loop from index `i` on: the index at which it stops. The list is create_data[i..).
unfoldable pub create_data_loop : ℕ → List ℕ → Option ℕ
create_data_loop i [] = none
create_data_loop i (c ∷ create_data) =
    let next : Option ℕ = create_data_loop (i + 1) create_data in
    if c == 0 then some i else if create_data_goes_on i c then next else some i

-- `_skylog_check_create_data`
unfoldable pub check_create_data : List ℕ → Option Bool
unfolding create_data_loop
check_create_data create_data = do
  len ← strlen create_data
  i ← create_data_loop 0 create_data
  some (if leb len i then false else true)
