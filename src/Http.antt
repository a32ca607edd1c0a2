-- ===== src/Http.antt =====
-- src/http_request.h and the allocation in http_request.c: a request as it is received.
-- `header` is char[1024]. `context_buf` is NULL or the allocated buffer. Lengths that only grow from 0
-- are natural numbers; `context_len` comes from the client and can be negative.
pub mod Field
pub mod Url
pub mod Recv
mod Tests
use trace_server.Base.{
  ℕ, ◌-◌, Bool, Option, none, some, List, [], ◌∷◌, leb, replicate, if◌then◌else◌,
}
use trace_server.Base.Int.{ℤ, pos}

-- HTTP_REQUEST_HEADER_BUF_SIZE
abbrev pub header_buf_size : ℕ
header_buf_size = 1024

pub data RecvResult : Type 0 where
  header_buf_full header_recv_success context_recv_success recv_empty socket_error : RecvResult

pub record HttpRequest : Type 0 where
  pub header : List ℕ
  pub header_len : ℕ
  pub context_buf : Option (List ℕ)
  pub context_len : ℤ
  pub data_len : ℕ

-- What `calloc` leaves, also inside a client's zeroed state.
unfoldable pub http_request_new : HttpRequest
http_request_new = record {
  header = replicate header_buf_size 0;
  header_len = 0;
  context_buf = none;
  context_len = pos 0;
  data_len = 0;
}

-- `httpRequest_context_free`
unfoldable pub context_free : HttpRequest → HttpRequest
context_free r = elim r.context_buf [
  | none ↦ r
  | some b ↦ record r { context_buf = none; data_len = 0 }
]

-- is_http_request_header_buf_full
abbrev pub is_header_full : HttpRequest → Bool
is_header_full r = leb (header_buf_size - 1) r.header_len
