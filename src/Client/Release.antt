-- ===== src/Client/Release.antt =====
-- How often the teardown of a connection closes its descriptor.
use trace_server.Base.{
  ℕ, ◌+◌, ◌<◌, ◌≡◌, refl, ◌∙◌, Bool, true, false, not, Option, none, some, List, [], ◌∷◌, ◌++◌,
  arith, lt→ltb, ◌==◌, ==_refl, if◌then◌else◌, is_some,
}
use trace_server.Libevent.{Libevent}
use trace_server.Client.{
  Effect, event_del, free_callback, evbuffer_free, bufferevent_disable, bufferevent_free,
  event_base_free, loopexit, free_client, close_fd, Client, client_free, client_release,
  socket_close,
}

module _ (A : Type 0) (fd : ℕ) where
  -- The free of a bufferevent with BEV_OPT_CLOSE_ON_FREE closes its descriptor.
  abbrev pub closes : List (Effect A) → ℕ
  closes [] = 0
  closes (bufferevent_free n ∷ es) = (if n == fd then 1 else 0) + closes es
  closes (close_fd n ∷ es) = (if n == fd then 1 else 0) + closes es
  closes (event_del ∷ es) = closes es
  closes (free_callback a ∷ es) = closes es
  closes (evbuffer_free ∷ es) = closes es
  closes (bufferevent_disable ∷ es) = closes es
  closes (event_base_free b ∷ es) = closes es
  closes (loopexit b ∷ es) = closes es
  closes (free_client ∷ es) = closes es

  pub closes-append : (xs ys : List (Effect A)) → closes (xs ++ ys) ≡ closes xs + closes ys
  closes-append [] ys = omega arith
  closes-append (bufferevent_free n ∷ es) ys = omega (arith, closes-append es ys)
  closes-append (close_fd n ∷ es) ys = omega (arith, closes-append es ys)
  closes-append (event_del ∷ es) ys = closes-append es ys
  closes-append (free_callback a ∷ es) ys = closes-append es ys
  closes-append (evbuffer_free ∷ es) ys = closes-append es ys
  closes-append (bufferevent_disable ∷ es) ys = closes-append es ys
  closes-append (event_base_free b ∷ es) ys = closes-append es ys
  closes-append (loopexit b ∷ es) ys = closes-append es ys
  closes-append (free_client ∷ es) ys = closes-append es ys

  -- An effect that closes nothing, on a condition.
  quiet_if : (b : Bool) (es : List (Effect A)) → closes es ≡ 0 → closes (if b then es else []) ≡ 0
  quiet_if true es e = e
  quiet_if false es e = refl

module _ (L : Libevent) (A : Type 0) where
  base_quiet :
      (fd : ℕ) (base : Option ℕ) (in_tpool : Bool)
      → closes A fd
          (elim base [ none ↦ [] | some b ↦ if not in_tpool then event_base_free b ∷ [] else [] ])
        ≡ 0
  base_quiet fd none in_tpool = refl
  base_quiet fd (some b) in_tpool = quiet_if A fd (not in_tpool) (event_base_free b ∷ []) refl

  bufev_closes :
      (fd : ℕ) (b : Bool)
      → closes A fd (if b then bufferevent_disable ∷ bufferevent_free fd ∷ [] else [])
        ≡ (if b then 1 else 0)
  bufev_closes fd true = rw (==_refl fd) (omega arith)
  bufev_closes fd false = refl

  pub client_free-closes :
      (c : Client L A) → closes A c.fd (client_free L A c) ≡ (if is_some c.buf_ev then 1 else 0)
  unfolding client_free
  client_free-closes c =
      let callback = if c.has_free_callback then free_callback c.arg ∷ [] else [] in
      let input = if is_some c.input_buffer then evbuffer_free ∷ [] else [] in
      let output = if is_some c.output_buffer then evbuffer_free ∷ [] else [] in
      let bufev =
        if is_some c.buf_ev then bufferevent_disable ∷ bufferevent_free c.fd ∷ [] else [] in
      let base : List (Effect A) = elim c.evbase [
        | none ↦ []
        | some b ↦ if not c.in_tpool then event_base_free b ∷ [] else []
      ] in
      let q1 = quiet_if A c.fd c.has_free_callback (free_callback c.arg ∷ []) refl in
      let q2 = quiet_if A c.fd (is_some c.input_buffer) (evbuffer_free ∷ []) refl in
      let q3 = quiet_if A c.fd (is_some c.output_buffer) (evbuffer_free ∷ []) refl in
      let q4 = base_quiet c.fd c.evbase c.in_tpool in
      let one = bufev_closes c.fd (is_some c.buf_ev) in
      let tail = base ++ (free_client ∷ []) in
      omega (
        arith,
        closes-append A c.fd callback (input ++ (output ++ (bufev ++ tail))),
        closes-append A c.fd input (output ++ (bufev ++ tail)),
        closes-append A c.fd output (bufev ++ tail),
        closes-append A c.fd bufev tail,
        closes-append A c.fd base (free_client ∷ []),
      )

  pub socket_close-closes : (fd : ℕ) → 0 < fd → closes A fd (socket_close fd) ≡ 1
  unfolding socket_close
  socket_close-closes fd pos = rw (lt→ltb 0 fd pos, ==_refl fd) refl

  sum : (b : Bool) → (if b then 1 else 0) + 1 ≡ (if b then 2 else 1)
  sum true = refl
  sum false = refl

  -- `evserver_client_release` of a client with a descriptor closes the descriptor twice if the client has
  -- its bufferevent, which closes it when it is freed, and once if it has none.
  pub client_release-closes :
      (c : Client L A)
      → 0 < c.fd
      → closes A c.fd (client_release L A (some c)) ≡ (if is_some c.buf_ev then 2 else 1)
  unfolding client_release
  client_release-closes c pos =
      closes-append A c.fd (client_free L A c) (socket_close c.fd)
      ∙ rw (client_free-closes c, socket_close-closes c.fd pos) (sum (is_some c.buf_ev))
