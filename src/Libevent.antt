-- ===== src/Libevent.antt =====
-- What the program uses of libevent's buffers (evbuffer_* and bufferevent_*), as an interface: two
-- abstract types, their calls, and the documented behaviour of each call that succeeds.
use trace_server.Base.{ℕ, ◌≡◌, refl, List, [], ◌++◌, Option, some, take, drop, length, arith}

pub record Libevent : Type 1 where
  -- struct evbuffer, a queue of bytes, and struct bufferevent, a socket with its two queues
  pub Evbuf : Type 0
  pub Bufev : Type 0
  pub bytes : Evbuf → List ℕ
  pub received : Bufev → List ℕ
  pub sent : Bufev → List ℕ
  -- bufferevent_read_buffer: `none` is -1
  pub read_buffer : Bufev → Evbuf → Option (Bufev × Evbuf)
  -- evbuffer_remove with a length; the result is what it wrote to the caller's buffer
  pub remove : Evbuf → ℕ → Option (List ℕ × Evbuf)
  -- evbuffer_add
  pub add : Evbuf → List ℕ → Option Evbuf
  -- bufferevent_write_buffer
  pub write_buffer : Bufev → Evbuf → Option (Bufev × Evbuf)
  -- evbuffer_get_length
  pub get_length : Evbuf → ℕ
  pub get_length_lem : (e : Evbuf) → get_length e ≡ length (bytes e)
  pub read_buffer_lem :
      (b : Bufev) (e : Evbuf) (b' : Bufev) (e' : Evbuf)
      → read_buffer b e ≡ some (b', e')
      → (received b' ≡ []) × (bytes e' ≡ bytes e ++ received b) × (sent b' ≡ sent b)
  pub remove_lem :
      (e : Evbuf) (n : ℕ) (d : List ℕ) (e' : Evbuf)
      → remove e n ≡ some (d, e')
      → (d ≡ take n (bytes e)) × (bytes e' ≡ drop n (bytes e))
  pub add_lem : (e : Evbuf) (d : List ℕ) (e' : Evbuf) → add e d ≡ some e' → bytes e' ≡ bytes e ++ d
  pub write_buffer_lem :
      (b : Bufev) (e : Evbuf) (b' : Bufev) (e' : Evbuf)
      → write_buffer b e ≡ some (b', e')
      → (sent b' ≡ sent b ++ bytes e) × (bytes e' ≡ []) × (received b' ≡ received b)

-- Buffers whose calls do not fail.
pub record IsReliable (L : Libevent) : Type 0 where
  pub reads :
      (b : L.Bufev) (e : L.Evbuf)
      → (b' : L.Bufev) × (e' : L.Evbuf) × (L.read_buffer b e ≡ some (b', e'))
  pub removes :
      (e : L.Evbuf) (n : ℕ) → (d : List ℕ) × (e' : L.Evbuf) × (L.remove e n ≡ some (d, e'))

-- Lists of bytes meet the interface.
pub record Socket : Type 0 where
  pub in_bytes : List ℕ
  pub out_bytes : List ℕ

drain : Socket → List ℕ → Option (Socket × List ℕ)
drain b e = some (record b { in_bytes = [] }, e ++ b.in_bytes)

drain_lem :
    (b : Socket) (e : List ℕ) (b' : Socket) (e' : List ℕ)
    → drain b e ≡ some (b', e')
    → (b'.in_bytes ≡ []) × (e' ≡ e ++ b.in_bytes) × (b'.out_bytes ≡ b.out_bytes)
unfolding drain
drain_lem b e b' e' h = (ground arith, ground arith, ground arith)

split_off : List ℕ → ℕ → Option (List ℕ × List ℕ)
split_off e n = some (take n e, drop n e)

split_off_lem :
    (e : List ℕ) (n : ℕ) (d e' : List ℕ)
    → split_off e n ≡ some (d, e')
    → (d ≡ take n e) × (e' ≡ drop n e)
unfolding split_off
split_off_lem e n d e' h = (ground arith, ground arith)

join : List ℕ → List ℕ → Option (List ℕ)
join e d = some (e ++ d)

join_lem : (e d e' : List ℕ) → join e d ≡ some e' → e' ≡ e ++ d
unfolding join
join_lem e d e' h = ground arith

flush_to : Socket → List ℕ → Option (Socket × List ℕ)
flush_to b e = some (record b { out_bytes = b.out_bytes ++ e }, [])

flush_to_lem :
    (b : Socket) (e : List ℕ) (b' : Socket) (e' : List ℕ)
    → flush_to b e ≡ some (b', e')
    → (b'.out_bytes ≡ b.out_bytes ++ e) × (e' ≡ []) × (b'.in_bytes ≡ b.in_bytes)
unfolding flush_to
flush_to_lem b e b' e' h = (ground arith, ground arith, ground arith)

unfoldable pub lists : Libevent
unfolding drain split_off join flush_to drain_lem split_off_lem join_lem flush_to_lem
lists = record {
  Evbuf = List ℕ;
  Bufev = Socket;
  bytes = λ e. e;
  received = λ b. b.in_bytes;
  sent = λ b. b.out_bytes;
  read_buffer = drain;
  remove = split_off;
  add = join;
  write_buffer = flush_to;
  get_length = length;
  get_length_lem = λ e. refl;
  read_buffer_lem = drain_lem;
  remove_lem = split_off_lem;
  add_lem = join_lem;
  write_buffer_lem = flush_to_lem;
}

pub lists-IsReliable : IsReliable lists
unfolding lists
lists-IsReliable = record {
  reads = λ b e. (record b { in_bytes = [] }, e ++ b.in_bytes, refl);
  removes = λ e n. (take n e, drop n e, refl);
}
