-- ===== src/Http/Recv/Tests.antt =====
-- Tests of the reception of a request, on buffers that are lists.
use trace_server.Base.{
  ℕ, ◌+◌, ◌≡◌, refl, false, true, some, none, List, [], ◌∷◌, ◌++◌, arith, length, ◌==◌, replicate,
}
use trace_server.Base.Int.{pos}
use trace_server.Libevent.{lists, lists-IsReliable}
use trace_server.Client.{Client}
use trace_server.Client.Recv.{IsOpen, available}
use trace_server.Bm.Correct.{IsBytes}
use trace_server.Bm.Search.{search_in}
use trace_server.Libc.Laws.{NoNul}
use trace_server.Http.{HttpRequest, RecvResult, http_request_new, header_recv_success, recv_empty}
use trace_server.Http.Recv.{recv_header, recv_context}
use trace_server.Http.Recv.Header.{Holds, new-Holds, header_run}
use trace_server.Http.Recv.HeaderLaws.{Ended, recv_header_safe}
use trace_server.Http.Recv.HeaderRun.{Agrees, recv_header-header_run}
use trace_server.Http.Recv.HeaderSplit.{
  empty_line, recv_header-first_empty_line, recv_header-pieces,
}
use trace_server.Http.Recv.ContentRound.{Body, Filled}
use trace_server.Http.Recv.Content.{recv_context-fills}

-- A client with the bytes that have arrived.
abbrev peer : List ℕ → Client lists ℕ
unfolding lists
peer arrived = record {
  fd = 7;
  time_count = 0;
  timeout = 10;
  evbase = some 1;
  buf_ev = some (record { in_bytes = arrived; out_bytes = [] });
  input_buffer = some [];
  output_buffer = some [];
  has_free_callback = false;
  in_tpool = true;
  worker = some 2;
  arg = none;
}

peer-IsOpen : (arrived : List ℕ) → IsOpen lists ℕ (peer arrived)
unfolding lists peer
peer-IsOpen arrived = record { socket = (_, refl); buffer = (_, refl) }

peer-available : (arrived : List ℕ) → available lists ℕ (peer arrived) ≡ arrived
unfolding lists peer
peer-available arrived = refl

-- "G\r\n\r\nx"
abbrev request : List ℕ
request = b'G' ∷ b'\r' ∷ b'\n' ∷ b'\r' ∷ b'\n' ∷ b'x' ∷ []

request-IsBytes : IsBytes (available lists ℕ (peer request))
unfolding lists peer
request-IsBytes =
    (omega arith, (omega arith, (omega arith, (omega arith, (omega arith, (omega arith, tt))))))

request-NoNul : NoNul (available lists ℕ (peer request))
unfolding lists peer
request-NoNul = (
  (λ e. omega arith),
  (
    (λ e. omega arith),
    ((λ e. omega arith), ((λ e. omega arith), ((λ e. omega arith), ((λ e. omega arith), tt)))),
  ),
)

recv_header_safe_example :
    Ended lists ℕ
      ([] ++ available lists ℕ (peer request))
      (recv_header lists ℕ (peer request) http_request_new)
recv_header_safe_example =
    recv_header_safe lists ℕ (peer request) http_request_new [] new-Holds (peer-IsOpen request)
      request-IsBytes

recv_header-header_run_example :
    Agrees lists ℕ
      (header_run [] (available lists ℕ (peer request)))
      (recv_header lists ℕ (peer request) http_request_new)
recv_header-header_run_example =
    recv_header-header_run lists ℕ lists-IsReliable (peer request) http_request_new [] new-Holds
      (peer-IsOpen request) request-IsBytes (omega arith)

recv_header-first_empty_line_example :
    (res : RecvResult) × (c' : Client lists ℕ) × (r' : HttpRequest) × (header : List ℕ)
    × (recv_header lists ℕ (peer request) http_request_new ≡ some (res, c', r'))
    × Holds r' header
    × (res ≡ header_recv_success
        → (available lists ℕ (peer request) ≡ header ++ available lists ℕ c')
          × ((p : ℕ) × (search_in ◌==◌ empty_line (available lists ℕ (peer request)) ≡ some p)
              × (p + 4 ≡ length header)))
recv_header-first_empty_line_example =
    recv_header-first_empty_line lists ℕ lists-IsReliable (peer request) (peer-IsOpen request)
      request-IsBytes request-NoNul

-- A content of 3 bytes of which one has been received, and two more bytes and another that arrive.
abbrev half : HttpRequest
half = record {
  header = replicate 1024 0;
  header_len = 0;
  context_buf = some (1 ∷ 0 ∷ 0 ∷ 0 ∷ []);
  context_len = pos 3;
  data_len = 1;
}

half-Body : Body 3 half (1 ∷ [])
half-Body = record {
  rest = 0 ∷ 0 ∷ [];
  buf_eq = refl;
  size_eq = refl;
  data_len_eq = refl;
  context_len_eq = refl;
}

recv_context-fills_example :
    Filled lists ℕ 3
      ((1 ∷ []) ++ available lists ℕ (peer (2 ∷ 3 ∷ 4 ∷ [])))
      (recv_context lists ℕ true (peer (2 ∷ 3 ∷ 4 ∷ [])) half)
recv_context-fills_example =
    recv_context-fills lists ℕ true 3 (peer (2 ∷ 3 ∷ 4 ∷ [])) half (1 ∷ []) half-Body
      (peer-IsOpen (2 ∷ 3 ∷ 4 ∷ [])) (omega arith)

-- "G\r", and what follows it.
abbrev first : List ℕ
first = b'G' ∷ b'\r' ∷ []

abbrev second : List ℕ
second = b'\n' ∷ b'\r' ∷ b'\n' ∷ b'x' ∷ []

first-IsBytes : IsBytes (available lists ℕ (peer first))
unfolding lists peer
first-IsBytes = (omega arith, (omega arith, tt))

second-IsBytes : IsBytes (available lists ℕ (peer second))
unfolding lists peer
second-IsBytes = (omega arith, (omega arith, (omega arith, (omega arith, tt))))

-- The call on the first piece.
abbrev stopped :
    Agrees lists ℕ
      (header_run [] (available lists ℕ (peer first)))
      (recv_header lists ℕ (peer first) http_request_new)
stopped =
    recv_header-header_run lists ℕ lists-IsReliable (peer first) http_request_new [] new-Holds
      (peer-IsOpen first) first-IsBytes (omega arith)

stopped-empty :
    recv_header lists ℕ (peer first) http_request_new
    ≡ some (recv_empty, stopped.client, stopped.request)
unfolding header_run lists peer
stopped-empty = stopped.returned

joined :
    available lists ℕ (peer request)
    ≡ available lists ℕ (peer first) ++ available lists ℕ (peer second)
unfolding lists peer
joined = refl

recv_header-pieces_example :
    (res : RecvResult) × (d2 : Client lists ℕ) × (r2 : HttpRequest) × (d : Client lists ℕ)
    × (r' : HttpRequest) × (header : List ℕ) × (recv_header lists ℕ (peer second) stopped.request
        ≡ some (res, d2, r2))
    × (recv_header lists ℕ (peer request) http_request_new ≡ some (res, d, r'))
    × Holds r2 header
    × Holds r' header
    × (available lists ℕ d2 ≡ available lists ℕ d)
recv_header-pieces_example =
    recv_header-pieces lists ℕ lists-IsReliable (peer first) (peer second) (peer request)
      http_request_new [] new-Holds (omega arith) (peer-IsOpen first) (peer-IsOpen second)
      (peer-IsOpen request) first-IsBytes second-IsBytes joined stopped.client stopped.request
      stopped-empty
