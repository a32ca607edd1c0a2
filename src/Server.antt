-- ===== src/Server.antt =====
-- src/event_server.c: the listening socket and its event loop, the count of connections, and how a
-- connection is handed to the worker pool (SERVER_THREAD_POOL_ENABLE is defined). What the calls into
-- libevent return is an argument; what is done outside the server is a list of acts, in order.
pub mod Events
pub mod Accept
pub mod Armed
pub mod Served
pub mod Settled
pub mod Life
mod Tests
use trace_server.Base.{
  ℕ, ◌+◌, Bool, true, false, not, Option, none, some, List, [], ◌∷◌, ◌++◌, if◌then◌else◌, map,
}
use trace_server.Base.Int.{ℤ, pos, negsuc, ◌+ℤ◌, ltb_ℤ, minus_one}
use trace_server.Queue.{Wakeup}
use trace_server.Socket.{SocketAct, fd_close, ListenAnswers, socket_listen}
use trace_server.Pool.{Callbacks, Job, JobLayout, Tpool, PoolAct, tpool_add_job}

-- `server_t`; its port and its count are constants, its event is left out.
pub record Server : Type 0 where
  pub listen_fd : ℤ
  pub evbase_server : Option ℕ
  pub server_ok : Bool

pub data ServerAct : Type 0 where
  event_del : ServerAct
  loopexit : ℕ → ServerAct
  event_base_free : ℕ → ServerAct
  shutdown : ℤ → ServerAct
  socket_act : SocketAct → ServerAct
  pool_act : PoolAct → ServerAct

-- `_server` at the start
abbrev pub new_server : Server
new_server = record { listen_fd = minus_one; evbase_server = none; server_ok = false }

abbrev pub closes : ℤ → List ServerAct
closes fd = map socket_act (fd_close fd)

-- What the calls of `_evserver_create` return, and that of pthread_create.
pub record CreateAnswers : Type 0 where
  pub new_base : Option ℕ
  pub listening : ListenAnswers
  pub reuseable_ok : Bool
  pub nonblocking_ok : Bool
  pub event_assign_ok : Bool
  pub event_add_ok : Bool
  pub thread_ok : Bool

unfoldable pub evserver_socket_create : CreateAnswers → ℤ × List ServerAct
unfolding socket_listen fd_close
evserver_socket_create a =
    let listened = socket_listen a.listening in
    let acts = map socket_act listened.1 in
    if not (ltb_ℤ (pos 0) listened.0)
    then (listened.0, acts)
    else if not a.reuseable_ok
    then (minus_one, acts ++ closes listened.0)
    else if not a.nonblocking_ok
    then (minus_one, acts ++ closes listened.0)
    else (listened.0, acts)

-- `_evserver_destroy`
unfoldable pub evserver_destroy : Server → Server × List ServerAct
unfolding fd_close
evserver_destroy s = elim s.evbase_server [
  | none ↦ (s, [])
  | some b ↦ (
    record { listen_fd = minus_one; evbase_server = none; server_ok = false },
    event_del ∷ loopexit b ∷ event_base_free b ∷ shutdown s.listen_fd ∷ closes s.listen_fd,
  )
]

-- `_evserver_create`
unfoldable pub evserver_open : CreateAnswers → Server → Bool × Server × List ServerAct
unfolding evserver_socket_create evserver_destroy fd_close
evserver_open a s = elim a.new_base [
  | none ↦ (false, record s { evbase_server = none }, [])
  | some b ↦
      let made = evserver_socket_create a in
      let s' : Server = record s { evbase_server = some b; listen_fd = made.0 } in
      if ltb_ℤ made.0 (pos 0)
      then (let gone = evserver_destroy s' in (false, gone.0, made.1 ++ gone.1))
      else if not a.event_assign_ok
      then (false, s', made.1 ++ closes made.0)
      else if not a.event_add_ok
      then (false, s', made.1 ++ closes made.0)
      else (true, s', made.1)
]

-- `evserver_create`, without its thread: `evserver_run` is what the thread does.
unfoldable pub evserver_create : CreateAnswers → Server → Bool × Server × List ServerAct
unfolding evserver_open evserver_destroy
evserver_create a s =
    let r = evserver_open a s in
    if not r.0
    then (let gone = evserver_destroy r.1 in (false, gone.0, r.2 ++ gone.1))
    else (a.thread_ok, r.1, r.2)

-- `_evserver_factory`, with what the event loop does to the server until it ends.
unfoldable pub evserver_run : (Server → Server) → Server → Server
evserver_run dispatch s = elim s.evbase_server [
  | none ↦ s
  | some b ↦ record (dispatch (record s { server_ok = true })) { server_ok = false }
]

-- `evserver_client_connected_count`
unfoldable pub client_connected_count : ℤ → ℤ → ℤ
client_connected_count count c = count +ℤ c

-- `evserver_distribute_job`
unfoldable pub distribute_job :
    JobLayout
    → Bool
    → Bool
    → Job
    → List Wakeup
    → Option Tpool
    → ℤ
    → Callbacks
    → Option (Bool × Option Tpool × List PoolAct)
unfolding tpool_add_job
distribute_job L calloc_ok dup_ok stack ws t client_fd cb =
    tpool_add_job L calloc_ok dup_ok stack ws t client_fd cb
