-- ===== src/Http/Url/Laws.antt =====
-- The URL that `_httpRequest_get_url` finds in a request line.
use trace_server.Base.{
  ℕ, suc, min, ◌+◌, ◌-◌, ◌≤◌, ◌<◌, ◌≡◌, ◌≢◌, refl, sym, ap, ◌∙◌, true, false, ◌&&◌, some, List, [],
  ◌∷◌, ◌++◌, arith, ltb, ◌==◌, length, drop, get_elem?, take-length-append, drop-length-append,
  length-append, All, All-append, All_elem, get_elem?_lem, get_elem?-drop, get_elem?-append_left,
  append_assoc, lt→ltb,
}
use trace_server.Libc.{write, cstr, strlen, strchr, memcpy}
use trace_server.Libc.Laws.{strchr-append, NoNul, cstr-append, strlen-append, read_lem, write_lem}
use trace_server.Bm.Search.{search_in}
use trace_server.Bm.Correct.{IsBytes}
use trace_server.Text.{straddr}
use trace_server.Text.Laws.{straddr_lem}
use trace_server.Http.{HttpRequest}
use trace_server.Http.Field.{crlf}
use trace_server.Http.Url.{skip_spaces, get_url, get_url_path}

-- The loop stops at a byte that is not a space.
skip_stop :
    (h : List ℕ) (n p c : ℕ) → get_elem? h p ≡ some c → c ≢ b' ' → skip_spaces h (n + 1) p ≡ some p
unfolding skip_spaces
skip_stop h n p c e other =
    let no : (c == b' ') ≡ false = ground (arith, other) in
    let next : n + 1 ≡ suc n = omega arith in rw next (rw (e, no) refl)

-- The run that finds what it looks for at each step.
get_url_run :
    (r : HttpRequest) (buf b : List ℕ) (buf_size s l p len : ℕ)
    → ltb 0 r.header_len ≡ true
    → ltb 0 buf_size ≡ true
    → strchr r.header b' ' ≡ some (some s)
    → straddr (some (drop (s + 1) r.header)) (some crlf) ≡ some (some l)
    → skip_spaces r.header (l + 1) (s + 1) ≡ some p
    → strchr (drop p r.header) b' ' ≡ some (some len)
    → (ltb 0 len && min len (buf_size - 1) == len) ≡ true
    → memcpy buf 0 r.header p len ≡ some b
    → get_url r buf buf_size ≡ some (true, b)
unfolding get_url
get_url_run r buf b buf_size s l p len h1 h2 h3 h4 h5 h6 h7 h8 =
    rw (h1, h2, h3, h4, h5, h6, h7, h8) refl

-- A byte in the middle is replaced.
write-append :
    (xs ys : List ℕ) (x y : ℕ) → write (xs ++ (x ∷ ys)) (length xs) (y ∷ []) ≡ some (xs ++ (y ∷ ys))
write-append xs ys x y =
    let room : length xs + 1 ≤ length (xs ++ (x ∷ ys)) = omega (arith, length-append xs (x ∷ ys)) in
    write_lem (xs ++ (x ∷ ys)) (length xs) (y ∷ []) room
    ∙ rw (take-length-append xs (x ∷ ys), drop-length-append xs (x ∷ ys) 1) refl

-- A request line: a method, a URL, what follows it, and what stands in the buffer behind the string.
module _ (method url tail pad : List ℕ) (url_pos : 0 < length url)
    (method_word : All (λ c. c ≢ b' ') method) (url_word : All (λ c. c ≢ b' ') url)
    (method_nn : NoNul method) (url_nn : NoNul url) (tail_nn : NoNul tail)
    (bytes : IsBytes (url ++ (b' ' ∷ (tail ++ (0 ∷ pad))))) where
  abbrev after_method : List ℕ
  after_method = url ++ (b' ' ∷ (tail ++ (0 ∷ pad)))

  abbrev pub request_line : List ℕ
  request_line = method ++ (b' ' ∷ after_method)

  string : after_method ≡ (url ++ (b' ' ∷ tail)) ++ (0 ∷ pad)
  string = sym (append_assoc url (b' ' ∷ tail) (0 ∷ pad))

  string_nn : NoNul (url ++ (b' ' ∷ tail))
  string_nn = All-append (λ c. c ≢ 0) url (b' ' ∷ tail) url_nn ((λ e. omega arith), tail_nn)

  line_end :
      straddr (some after_method) (some crlf)
      ≡ some (search_in ◌==◌ (cstr crlf) (url ++ (b' ' ∷ tail)))
  line_end =
      (straddr_lem after_method crlf
        (
          length (url ++ (b' ' ∷ tail)),
          ap strlen string ∙ strlen-append (url ++ (b' ' ∷ tail)) pad string_nn,
        )
        (2, refl) bytes).0
      ∙ ap (λ s. some (search_in ◌==◌ (cstr crlf) s))
          (ap cstr string ∙ cstr-append (url ++ (b' ' ∷ tail)) pad string_nn)

  behind : drop (length method + 1) request_line ≡ after_method
  behind = drop-length-append method (b' ' ∷ after_method) 1

  no_space :
      (n : ℕ) → skip_spaces request_line (n + 1) (length method + 1) ≡ some (length method + 1)
  no_space n =
      let (c, at) = get_elem?_lem url 0 url_pos in
      skip_stop request_line n (length method + 1) c
        (ap (get_elem? request_line) (omega arith)
          ∙ sym (get_elem?-drop (length method + 1) 0 request_line)
          ∙ ap (λ s. get_elem? s 0) behind
          ∙ get_elem?-append_left url (b' ' ∷ (tail ++ (0 ∷ pad))) 0 url_pos
          ∙ at)
        (All_elem (λ c. c ≢ b' ') url 0 c url_word at)

  url_copied :
      (buf : List ℕ)
      → length url ≤ length buf
      → memcpy buf 0 request_line (length method + 1) (length url)
        ≡ some (url ++ drop (length url) buf)
  url_copied buf room =
      let bound : length method + 1 + length url ≤ length request_line = omega (
        arith,
        length-append method (b' ' ∷ after_method),
        length-append url (b' ' ∷ (tail ++ (0 ∷ pad))),
      ) in
      let zero_length : 0 + length url ≡ length url = omega arith in
      rw
        (
          read_lem request_line (length method + 1) (length url) bound,
          behind,
          take-length-append url (b' ' ∷ (tail ++ (0 ∷ pad))),
        )
        (write_lem buf 0 url (omega (arith, room)) ∙ ap (λ n. some (url ++ drop n buf)) zero_length)

  -- `_httpRequest_get_url` of a header that begins with a method, a space, a URL and a space, with a line's
  -- end behind, copies out the URL, whatever the URL is made of but spaces and NULs, if it is shorter
  -- than `buf_size`.
  get_url_lem :
      (r : HttpRequest) (buf : List ℕ) (buf_size l : ℕ)
      → r.header ≡ request_line
      → 0 < r.header_len
      → search_in ◌==◌ (cstr crlf) (url ++ (b' ' ∷ tail)) ≡ some l
      → length url < buf_size
      → length url ≤ length buf
      → get_url r buf buf_size ≡ some (true, url ++ drop (length url) buf)
  get_url_lem r buf buf_size l eh len el fits room =
      get_url_run r buf (url ++ drop (length url) buf) buf_size (length method) l
        (length method + 1) (length url) (lt→ltb 0 r.header_len len)
        (lt→ltb 0 buf_size (omega arith))
        (ap (λ h. strchr h b' ') eh ∙ strchr-append method after_method b' ' method_word method_nn)
        (ap (λ h. straddr (some (drop (length method + 1) h)) (some crlf)) eh
          ∙ ap (λ s. straddr (some s) (some crlf)) behind
          ∙ line_end
          ∙ ap some el)
        (ap (λ h. skip_spaces h (l + 1) (length method + 1)) eh ∙ no_space l)
        (ap (λ h. strchr (drop (length method + 1) h) b' ') eh
          ∙ ap (λ s. strchr s b' ') behind
          ∙ strchr-append url (tail ++ (0 ∷ pad)) b' ' url_word url_nn)
        (ground arith)
        (ap (λ h. memcpy buf 0 h (length method + 1) (length url)) eh ∙ url_copied buf room)

  -- `httpRequest_get_url_path` of a header that is a method, a space, a URL, a space and a rest with the end of
  -- a line in it, and whose URL is a path, a question mark and a query, copies the URL out and puts a NUL in
  -- the place of the question mark, so that the buffer's string is the path: if the buffer has room for
  -- the URL and its NUL, and neither method nor URL has a space and the path no question mark.
  pub get_url_path_lem :
      (path query : List ℕ)
      → url ≡ path ++ (b'?' ∷ query)
      → All (λ c. c ≢ b'?') path
      → NoNul path
      → (r : HttpRequest) (buf : List ℕ) (buf_size l : ℕ) → r.header ≡ request_line
      → 0 < r.header_len
      → search_in ◌==◌ (cstr crlf) (url ++ (b' ' ∷ tail)) ≡ some l
      → length url < buf_size
      → length url ≤ length buf
      → let after = query ++ drop (length url) buf in
        (get_url_path r buf buf_size ≡ some (true, path ++ (0 ∷ after)))
        × (cstr (path ++ (0 ∷ after)) ≡ path)
  unfolding get_url_path
  get_url_path_lem path query eu path_word path_nn r buf buf_size l eh len el fits room =
      let after : List ℕ = query ++ drop (length url) buf in
      let split : url ++ drop (length url) buf ≡ path ++ (b'?' ∷ after) =
        ap (λ u. u ++ drop (length url) buf) eu
        ∙ append_assoc path (b'?' ∷ query) (drop (length url) buf) in
      (
        rw
            (
              get_url_lem r buf buf_size l eh len el fits room ∙ ap (λ u. some (true, u)) split,
              strchr-append path after b'?' path_word path_nn,
              write-append path after b'?' 0,
            )
            refl,
        cstr-append path after path_nn,
      )
