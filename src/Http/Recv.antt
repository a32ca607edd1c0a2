-- ===== src/Http/Recv.antt =====
-- src/http_request.c: how a request is received, byte by byte for the header and in pieces for the
-- content. Each loop takes fuel; the outer `none` is a fault, or fuel that ran out.
pub mod Header
pub mod HeaderRound
pub mod HeaderLaws
pub mod HeaderRun
pub mod HeaderSplit
pub mod ContentRound
pub mod Content
pub mod Keeps
mod Tests
use trace_server.Base.{
  ℕ, zero, suc, ◌+◌, ◌-◌, ◌^◌, Bool, true, false, ◌&&◌, Option, none, some, List, [], ◌∷◌, ltb, leb,
  ◌==◌, min, is_some, if◌then◌else◌, ◌>>=◌, length, replicate,
}
use trace_server.Base.Int.{ℤ, pos, negsuc, pos_part}
use trace_server.Libc.{write}
use trace_server.Text.{straddr}
use trace_server.Libevent.{Libevent}
use trace_server.Client.{Client, recv_client}
use trace_server.Http.{
  HttpRequest, RecvResult, header_buf_full, header_recv_success, context_recv_success, recv_empty,
  socket_error, is_header_full, header_buf_size,
}
use trace_server.Http.Field.{get_content_length}

-- "\r\n\r\n"
abbrev pub blank_line : List ℕ
blank_line = b'\r' ∷ b'\n' ∷ b'\r' ∷ b'\n' ∷ 0 ∷ []

module _ (L : Libevent) (A : Type 0) where
  abbrev pub Outcome : Type 0
  Outcome = Option (RecvResult × Client L A × HttpRequest)

  -- The loop of `_httpRequest_recv_header`. A round that goes on has made the header longer.
  unfoldable pub recv_header_loop : ℕ → Client L A → HttpRequest → Outcome
  recv_header_loop zero c r = none
  recv_header_loop (suc fuel) c r =
      let (len, c') = recv_client L A c 1 in
      elim len [
        | none ↦ some (socket_error, c', r)
        | some [] ↦ some (recv_empty, c', r)
        | some (ch ∷ more) ↦ write r.header r.header_len (ch ∷ []) >>= λ header.
            let r' : HttpRequest = record r {
              header = header;
              header_len = r.header_len + length (ch ∷ more);
            } in
            let next : Outcome = recv_header_loop fuel c' r' in
            if is_header_full r'
            then some (header_buf_full, c', r')
            else (straddr (some header) (some blank_line) >>= λ found.
                if is_some found then some (header_recv_success, c', r') else next)
      ]

  unfoldable pub recv_header : Client L A → HttpRequest → Outcome
  unfolding recv_header_loop
  recv_header c r =
      if is_header_full r
      then some (header_buf_full, c, r)
      else recv_header_loop (header_buf_size - r.header_len) c r

  -- The loop of `_httpRequest_recv_context`, with the buffer and the length of the content.
  unfoldable pub recv_context_loop : ℕ → ℕ → ℕ → Client L A → List ℕ → HttpRequest → Outcome
  recv_context_loop zero n need_read_len c buf r = none
  recv_context_loop (suc fuel) n need_read_len c buf r =
      let need = min need_read_len (n - r.data_len) in
      let (read_len, c') = recv_client L A c need in
      elim read_len [
        | none ↦ some (socket_error, c', r)
        | some [] ↦ some (recv_empty, c', r)
        | some (ch ∷ more) ↦ write buf r.data_len (ch ∷ more) >>= λ read.
            let data_len = r.data_len + length (ch ∷ more) in
            write read data_len (0 ∷ []) >>= λ ended.
            let r' : HttpRequest = record r { context_buf = some ended; data_len = data_len } in
            let next : Outcome = recv_context_loop fuel n need c' ended r' in
            if leb n data_len then some (context_recv_success, c', r') else next
      ]

  -- `_httpRequest_context_buf_init`. `calloc(1, context_len + 1)` overflows `int` at INT_MAX.
  unfoldable pub context_buf_init : Bool → HttpRequest → Option (Bool × HttpRequest)
  context_buf_init calloc_ok r = elim r.context_buf [
    | some b ↦ some (ltb 0 (pos_part r.context_len), r)
    | none ↦ get_content_length r >>= λ n.
        let r' : HttpRequest = record r { context_len = n } in
        if ltb 0 (pos_part n)
        then (if pos_part n == 2 ^ 31 - 1
            then none
            else if calloc_ok
            then some (true, record r' { context_buf = some (replicate (pos_part n + 1) 0) })
            else some (false, r'))
        else some (false, r')
  ]

  unfoldable pub recv_context : Bool → Client L A → HttpRequest → Outcome
  unfolding context_buf_init recv_context_loop
  recv_context calloc_ok c r = context_buf_init calloc_ok r >>= λ (ready, r').
      if ready
      then elim r'.context_buf [
        | none ↦ none
        | some buf ↦ let n = pos_part r'.context_len in recv_context_loop (n + 1) n 2048 c buf r'
      ]
      else if ltb 0 (pos_part r'.context_len)
      then some (socket_error, c, r')
      else some (context_recv_success, c, r')
