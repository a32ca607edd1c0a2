-- ===== src/Lib.antt =====
-- Verification library of trace_server, an HTTP server that stores the logs that devices upload.
--
-- The program. A connection is accepted by the event loop (libevent) and handed to a worker. Each time bytes
-- arrive the worker runs a state machine over the connection: it receives the request's header byte by
-- byte up to the first empty line, checks the path of the URL, receives the content, finds the compressed
-- log in it, stores the log in a file whose path it makes from the request's parameters, and answers 200 or
-- 400. Searches in the header use a Sunday search; work between threads goes through a bounded queue.
--
-- Files of this library, and the code they are about (paths from the repository's root):
--   Base, Base/*      helpers: Boolean tests and conditionals on the native numbers, lists, faults, `int`
--   Libc              the C library's functions on strings and memory that the program uses
--   Bm                src/bm.c: sunday, sunday_case; Bm/Search is the reference, Bm/Correct the proof
--   Text, Text/Edit   src/user_string.c: searches (find_str, straddr, isStrexit, ...) and edits (insert,
--                     repalce_with_pin, strline, substr, cutstr, isdigit_str, ...)
--   Libevent          the buffers of libevent as an interface, with the documented behaviour of its calls
--   Client            src/evserver_client.c: client_t is `Client`; evserver_client_new, _release, _exit,
--                     evserver_recv_client and evserver_send_client
--   Http              src/http_request.c: httpRequest_t is `HttpRequest`; Http/Recv receives header and
--                     content, Http/Url and Http/Field read the URL and the fields
--   Queue             src/queue.c: queue_t is `Queue`; its operations in both modes, and waits
--   Fifo              src/fifo.c: fifo_t is `Fifo`; indices that wrap at 2^32
--   SkyLog            src/sky_log.c and src/skylog_type.c: what a request says of its log; SkyLog/Save has the file
--                     of a log and the attempts to write it, and SkyLog/Record src/skylog_record.c, the
--                     daily record of what was saved
--   Talk              src/client_talk.c, src/client_talk_option.c, src/client_option_struct.c: the steps of
--                     a request; Talk/Files fills the interface of the store of logs with files, and Talk/Stored is what
--                     becomes of the two together
--   File              src/file.c: the loops of read_file and write_file, over the kernel's calls (`Kernel`); File/Paths
--                     has directories and files by their paths (`FileSystem`), and File/Memory a file system
--                     in memory that meets the interface
--   Pool              src/event_server_worker.c and src/event_server_tpool.c: the queueing of jobs and their
--                     dispatch in turn; Pool/Setup sets workers and pool up and down, Pool/Events takes a
--                     job and makes a client of it; evserver_tpool_t is `Tpool`, evserver_worker_t `Worker`
--   ThreadPool        src/threadpool.c: what a thread does at each lock, and tpool_add_work; ThreadPool/System
--                     interleaves threads and callers in any order
--   Socket            src/socket.c, over the results of the system calls
--   Server            src/event_server.c and src/event_server_callback.c: Server has the listening socket,
--                     Server/Events the callbacks, Server/Accept what becomes of an accepted descriptor,
--                     Server/Served a client that is served, Server/Settled what a callback leaves of a connection, Server/Armed which callbacks libevent may
--                     still call after a release, and Server/Life a connection from its
--                     client's beginning to its release
--   UserTime          src/user_time.c: the clock's texts, and the year that is read back from one; Libc/Print is
--                     the C library's printing of numbers
--   Trace             src/log_trace.c: the files that the output goes to
--   Main              src/main.c: the start of the pools and the loop that creates the server; Main/Watch says when
--                     that loop gives up
-- Each part's Tests module evaluates its definitions on small inputs and applies the theorems to them.
--
-- How the code is modelled. A pointer into memory is the list of the bytes that can be read from it on. A read
-- or write outside an object is the result `none` of an outer Option, so that a theorem that a call returns
-- `some` says that it stays inside. NULL is an inner `none`. An `int` that can be negative is ℤ, one that
-- cannot is ℕ; the unsigned indices of the fifo keep their wrap-around. What a function does outside its state
-- (closing, freeing, signalling) is a list of effects in order. The results of calls into the C library, the
-- kernel and libevent that can fail are arguments.
--
-- Bounds and fuel. The loop over the header takes as much fuel as the header buffer has room, and each round
-- that goes on stores a byte; the loop over the content takes one more than its length; the search takes one
-- round for each position and one more, since a shift is at least 1; the loop over the steps of a request
-- takes 5, and Talk/Runs has the same loop without a bound, as a relation; Talk/Shrinks counts the rounds left. `_fls` takes 33 rounds, more than an `int` that is not negative has bits.
--
-- Interfaces. How a job lies in memory is a parameter of the pool (`JobLayout`). The connection is over any
-- libevent (`Libevent`; `Armed` for the callbacks that it may still call), the state machine over any store of logs (`SkylogStore`), and
-- the saving of logs over any file system (`FileSystem`); `lists`, `listed`, `memory` and the stores of the tests
-- meet them.
--
-- Not modelled: what the program prints; the bm and bm_case
-- searches, which nothing calls; locks, but for the order in which the calls on a queue take its lock and for
-- the steps of the thread pool, each of which is what is done under one lock.
pub mod Base
pub mod Bm
pub mod Libc
pub mod Text
pub mod Libevent
pub mod Client
pub mod Http
pub mod Queue
pub mod Fifo
pub mod SkyLog
pub mod Talk
pub mod File
pub mod Pool
pub mod ThreadPool
pub mod Socket
pub mod Server
pub mod UserTime
pub mod Trace
pub mod Main
