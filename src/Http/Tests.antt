-- ===== src/Http/Tests.antt =====
-- Tests of what is read from a header, on a short one.
use trace_server.Base.{ℕ, ◌≡◌, refl, true, some, none, List, [], ◌∷◌, replicate, arith}
use trace_server.Base.Int.{pos}
use trace_server.Libc.{cstr}
use trace_server.Bm.{sunday, sunday_case, bm_cmp}
use trace_server.Text.{straddr, straddr_case, addr_by, find_str, find_str_case}
use trace_server.Http.{HttpRequest, context_free}
use trace_server.Http.Field.{get_content_length}
use trace_server.Http.Url.{get_url_parmer_value, get_url_path}
use trace_server.Http.Url.Laws.{get_url_path_lem}

-- "GET /p?k=v HTTP", a content length of 12, and an empty line
abbrev header : List ℕ
header =
    b'G' ∷ b'E' ∷ b'T' ∷ b' ' ∷ b'/' ∷ b'p' ∷ b'?' ∷ b'k' ∷ b'=' ∷ b'v' ∷ b' ' ∷ b'H' ∷ b'T' ∷ b'T'
    ∷ b'P' ∷ b'\r' ∷ b'\n' ∷ b'C' ∷ b'o' ∷ b'n' ∷ b't' ∷ b'e' ∷ b'n' ∷ b't' ∷ b'-' ∷ b'L' ∷ b'e'
    ∷ b'n' ∷ b'g' ∷ b't' ∷ b'h' ∷ b':' ∷ b' ' ∷ b'1' ∷ b'2' ∷ b'\r' ∷ b'\n' ∷ b'\r' ∷ b'\n' ∷ 0 ∷ []

abbrev parsed : HttpRequest
parsed = record {
  header = header;
  header_len = 39;
  context_buf = some (0 ∷ []);
  context_len = pos 0;
  data_len = 0;
}

length_read : get_content_length parsed ≡ some (pos 12)
unfolding get_content_length straddr straddr_case addr_by find_str find_str_case sunday sunday_case
    bm_cmp
length_read = refl

path_read :
    get_url_path parsed (replicate 8 0) 8
    ≡ some (true, b'/' ∷ b'p' ∷ 0 ∷ b'k' ∷ b'=' ∷ b'v' ∷ 0 ∷ 0 ∷ [])
unfolding get_url_path straddr straddr_case addr_by find_str find_str_case sunday sunday_case bm_cmp
path_read = refl

parameter_read :
    get_url_parmer_value parsed (b'k' ∷ 0 ∷ []) 1 (0 ∷ 0 ∷ []) 1 ≡ some (true, b'v' ∷ 0 ∷ [])
unfolding get_url_parmer_value straddr straddr_case addr_by find_str find_str_case sunday
    sunday_case bm_cmp
parameter_read = refl

freed : context_free (record parsed { data_len = 1 }) ≡ record parsed { context_buf = none }
unfolding context_free
freed = refl

-- "GET /p H", and a line's end
abbrev asked : HttpRequest
asked = record {
  header = b'G' ∷ b'E' ∷ b'T' ∷ b' ' ∷ b'/' ∷ b'p' ∷ b' ' ∷ b'H' ∷ b'\r' ∷ b'\n' ∷ 0 ∷ [];
  header_len = 10;
  context_buf = none;
  context_len = pos 0;
  data_len = 0;
}

-- "GET /p?k H", and a line's end
abbrev asked_query : HttpRequest
asked_query = record asked {
  header =
      b'G' ∷ b'E' ∷ b'T' ∷ b' ' ∷ b'/' ∷ b'p' ∷ b'?' ∷ b'k' ∷ b' ' ∷ b'H' ∷ b'\r' ∷ b'\n' ∷ 0 ∷ [];
}

get_url_path_lem_example :
    (get_url_path asked_query (1 ∷ 2 ∷ 3 ∷ 4 ∷ 0 ∷ []) 5
      ≡ some (true, b'/' ∷ b'p' ∷ 0 ∷ b'k' ∷ 0 ∷ []))
    × (cstr (b'/' ∷ b'p' ∷ 0 ∷ b'k' ∷ 0 ∷ []) ≡ b'/' ∷ b'p' ∷ [])
get_url_path_lem_example =
    get_url_path_lem (b'G' ∷ b'E' ∷ b'T' ∷ []) (b'/' ∷ b'p' ∷ b'?' ∷ b'k' ∷ [])
      (b'H' ∷ b'\r' ∷ b'\n' ∷ []) [] (ground arith) (ground arith) (ground arith) (ground arith)
      (ground arith) (ground arith) (ground arith) (b'/' ∷ b'p' ∷ []) (b'k' ∷ []) refl
      (ground arith) (ground arith) asked_query (1 ∷ 2 ∷ 3 ∷ 4 ∷ 0 ∷ []) 5 6 refl (ground arith)
      refl (ground arith) (ground arith)
