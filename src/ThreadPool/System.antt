-- ===== src/ThreadPool/System.antt =====
-- The threads of the pool and the calls of `tpool_add_work`, interleaved in any order.
use trace_server.Base.{
  ℕ, suc, ◌+◌, ◌≡◌, true, false, some, List, [], ◌∷◌, ◌++◌, get_elem?, set, map, replicate,
}
use trace_server.ThreadPool.Count.{count, is_waiting, wake}
use trace_server.ThreadPool.{
  Work, ThreadPool, Pc, starting, at_lock, waiting, holding, thread_step, is_busy, link_work,
  new_pool,
}

-- `adding` holds the calls of `tpool_add_work` between its two locks, and `signalling` counts those
-- between the second and the signal. `linked` and `taken` are the works that were linked into the list
-- and those that threads took from it, in order.
pub record System : Type 0 where
  pub pool : ThreadPool
  pub threads : List Pc
  pub adding : List Work
  pub signalling : ℕ
  pub linked : List Work
  pub taken : List Work

-- The work that a thread has just unlinked.
abbrev pub held : Pc → List Work
held (holding work) = work ∷ []
held _ = []

pub data Step (s : System) : System → Type 0 where
  thread :
      (i : ℕ) (p : Pc)
      → get_elem? s.threads i ≡ some p
      → Step s (record s {
        pool = (thread_step s.pool p).0;
        threads = set s.threads i (thread_step s.pool p).1;
        taken = s.taken ++ held (thread_step s.pool p).1;
      })
  -- the first lock of `tpool_add_work`, and its allocation
  call : (work : Work) → is_busy s.pool ≡ false → Step s (record s { adding = work ∷ s.adding })
  -- its second lock
  link :
      (before after : List Work) (work : Work)
      → s.adding ≡ before ++ (work ∷ after)
      → Step s (record s {
        pool = link_work s.pool work;
        adding = before ++ after;
        signalling = s.signalling + 1;
        linked = s.linked ++ (work ∷ []);
      })
  -- pthread_cond_signal wakes a thread that waits, if one does
  signal :
      (i n : ℕ)
      → s.signalling ≡ suc n
      → get_elem? s.threads i ≡ some waiting
      → Step s (record s { threads = set s.threads i at_lock; signalling = n })
  signal_none :
      (n : ℕ)
      → s.signalling ≡ suc n
      → count is_waiting s.threads ≡ 0
      → Step s (record s { signalling = n })
  -- `tpool_destroy`, up to its broadcast
  shut : Step s (record s { pool = record s.pool { shutdown = true } })
  wake_all : Step s (record s { threads = map wake s.threads })

-- As `tpool_create` leaves it.
abbrev pub initial : ℕ → System
initial n = record {
  pool = new_pool n;
  threads = replicate n starting;
  adding = [];
  signalling = 0;
  linked = [];
  taken = [];
}

pub data Reach (n : ℕ) : System → Type 0 where
  start : Reach n (initial n)
  later : {s t : System} → Reach n s → Step s t → Reach n t
