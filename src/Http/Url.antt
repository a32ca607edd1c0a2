-- ===== src/Http/Url.antt =====
-- src/http_request.c: the URL of the request line, its path and its parameters.
pub mod Laws
use trace_server.Base.{
  ℕ, zero, suc, ◌+◌, ◌-◌, Bool, true, false, ◌&&◌, not, Option, none, some, List, [], ◌∷◌, ◌++◌,
  ltb, ◌==◌, min, if◌then◌else◌, ◌>>=◌, drop, replicate, get_elem?,
}
use trace_server.Libc.{cstr, strlen, strchr, write, memcpy, snprintf}
use trace_server.Text.{straddr}
use trace_server.Http.{HttpRequest}
use trace_server.Http.Field.{crlf}

-- for ( ; p <= q && *p == ' '; p ++); the count is q + 1 - p.
pub skip_spaces : List ℕ → ℕ → ℕ → Option ℕ
skip_spaces header zero p = some p
skip_spaces header (suc n) p = do
  c ← get_elem? header p
  if c == b' ' then skip_spaces header n (p + 1) else some p

-- `_httpRequest_get_url`, with a request and a buffer that are not NULL.
unfoldable pub get_url : HttpRequest → List ℕ → ℕ → Option (Bool × List ℕ)
unfolding skip_spaces
get_url r buf buf_size =
    if not (ltb 0 r.header_len && ltb 0 buf_size) then some (false, buf) else do
      space ← strchr r.header b' '
      elim space [
        | none ↦ some (false, buf)
        | some s ↦ do
          let start = s + 1
          line ← straddr (some (drop start r.header)) (some crlf)
          elim line [
            | none ↦ some (false, buf)
            | some l ↦ do
              p ← skip_spaces r.header (l + 1) start
              url_end ← strchr (drop p r.header) b' '
              elim url_end [
                | none ↦ some (false, buf)
                | some len ↦
                    if ltb 0 len && min len (buf_size - 1) == len
                    then (memcpy buf 0 r.header p len >>= λ b. some (true, b))
                    else some (false, buf)
              ]
          ]
      ]

-- for (i = 0; i < len; i ++) buf[i] = p[i]; where p is buf + k.
pub copy_down : List ℕ → ℕ → ℕ → ℕ → Option (List ℕ)
copy_down buf k i zero = some buf
copy_down buf k i (suc n) = do
  c ← get_elem? buf (k + i)
  b ← write buf i (c ∷ [])
  copy_down b k (i + 1) n

-- `_httpRequest_get_url_parmer`
unfoldable pub get_url_parmer : HttpRequest → List ℕ → ℕ → Option (Bool × List ℕ)
unfolding get_url copy_down
get_url_parmer r buf buf_size = do
  (found, url) ← get_url r buf buf_size
  if not found then some (false, url) else do
    query ← strchr url b'?'
    elim query [
      | none ↦ some (false, url)
      | some k ↦ do
        len ← strlen (drop k url)
        moved ← copy_down url k 0 len
        ended ← write moved len (0 ∷ [])
        some (true, ended)
    ]

-- The copy of a value of `len` bytes at `q` behind the parameters' start.
take_value : List ℕ → ℕ → ℕ → List ℕ → ℕ → Option (Bool × List ℕ)
take_value p q len value_buf value_buf_size =
    if ltb 0 len && min len value_buf_size == len
    then (memcpy value_buf 0 p q len >>= λ b. some (true, b))
    else some (false, value_buf)

-- The search in the parameters `p`, which are not empty.
pub find_value : List ℕ → List ℕ → List ℕ → ℕ → Option (Bool × List ℕ)
unfolding take_value
find_value p key value_buf value_buf_size = do
  url_parmer_len ← strlen p
  key_len ← strlen key
  field ← straddr (some p) (some key)
  elim field [
    | none ↦ some (false, value_buf)
    | some q ↦ do
      before ← (if q == 0 then some b'&' else get_elem? p (q - 1))
      if not (before == b'&') then some (false, value_buf) else do
        next ← strchr (drop (q + key_len) p) b'&'
        elim next [
          | some len ↦ take_value p (q + key_len) len value_buf value_buf_size
          | none ↦
              take_value p (q + key_len) (url_parmer_len - (q + key_len)) value_buf value_buf_size
        ]
  ]

-- `httpRequest_get_url_parmer_value`, with a key and a buffer that are not NULL.
unfoldable pub get_url_parmer_value : HttpRequest → List ℕ → ℕ → List ℕ → ℕ → Option (Bool × List ℕ)
unfolding get_url_parmer find_value
get_url_parmer_value r parmer_key parmer_key_len value_buf value_buf_size =
    if not (ltb 0 parmer_key_len && ltb 0 value_buf_size) then some (false, value_buf) else do
      (found, buf) ← get_url_parmer r (replicate 1024 0) 1023
      if not found then some (false, value_buf) else do
        first ← get_elem? buf 0
        let p = if first == b'?' then drop 1 buf else buf
        url_parmer_len ← strlen p
        if not (ltb 0 url_parmer_len) then some (false, value_buf) else do
          key ← snprintf (replicate 64 0) 0 63 (cstr parmer_key ++ (b'=' ∷ []))
          find_value p key value_buf value_buf_size

unfoldable pub get_url_path : HttpRequest → List ℕ → ℕ → Option (Bool × List ℕ)
unfolding get_url
get_url_path r buf buf_size = do
  (found, url) ← get_url r buf buf_size
  if not found then some (false, url) else do
    query ← strchr url b'?'
    elim query [ none ↦ some (true, url) | some k ↦ (write url k (0 ∷ []) >>= λ b. some (true, b)) ]
