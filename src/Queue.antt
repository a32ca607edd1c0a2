-- ===== src/Queue.antt =====
-- src/queue.c: the bounded queue of items between threads. An `item_t *` is the item; the list of
-- kernel_list.h is a sequence, oldest first; what a function does outside the queue is a list of acts, in
-- order. A call runs under the queue's lock; only `queue_pop` gives it up, while it waits. The check
-- in `queue_push` and its append are one step: one thread pushes. `depth` stays at or below
-- `max_depth`, or at 1, so the `int` does not wrap.
mod Tests
pub mod Laws
pub mod Push
pub mod History
use trace_server.Base.{
  ℕ, zero, suc, ◌+◌, ◌-◌, Bool, true, false, not, Option, none, some, List, [], ◌∷◌, ◌++◌, ◌==◌,
  if◌then◌else◌, ◌>>=◌, omap, length, is_some,
}
use trace_server.Base.Int.{ℤ, pos, negsuc, ◌+ℤ◌, ltb_ℤ, minus_one}
use trace_server.Libc.{read}

pub data QueueMode : Type 0 where
  full_flush full_ring : QueueMode

-- `iov_base` is NULL or points to the bytes.
pub record Item : Type 0 where
  pub iov_base : Option (List ℕ)
  pub iov_len : ℕ

pub data Act : Type 0 where
  call_free_hook : Option (List ℕ) → Act
  free_data : List ℕ → Act
  free_item : Item → Act
  cond_signal : Act

-- A hook that is called is a function; its allocation can fail.
pub record Queue : Type 0 where
  pub head : List Item
  pub depth : ℤ
  pub max_depth : ℤ
  pub mode : QueueMode
  pub alloc_hook : Option (List ℕ → ℕ → Option (List ℕ))
  pub has_free_hook : Bool

-- `none` is a read outside `src`; NULL is `some none`.
unfoldable pub memdup : Bool → List ℕ → ℕ → Option (Option (List ℕ))
memdup calloc_ok src len =
    if not calloc_ok then some none else (read src 0 len >>= λ dst. some (some dst))

-- With the results of the two calls of calloc. The code does not test what `memdup` returns.
unfoldable pub item_alloc : Bool → Bool → Option Queue → List ℕ → ℕ → Option (Option Item)
unfolding memdup
item_alloc calloc_ok dup_ok none bytes len = some none
item_alloc calloc_ok dup_ok (some q) bytes len =
    if not calloc_ok then some none else elim q.alloc_hook [
      | some hook ↦ some (some (record { iov_base = hook bytes len; iov_len = len }))
      | none ↦ memdup dup_ok bytes len >>= λ base.
          some (some (record { iov_base = base; iov_len = len }))
    ]

unfoldable pub item_free : Option Queue → Option Item → List Act
item_free none item = []
item_free (some q) none = []
item_free (some q) (some item) =
    (if q.has_free_hook
      then call_free_hook item.iov_base ∷ []
      else elim item.iov_base [ none ↦ [] | some b ↦ free_data b ∷ [] ])
    ++ (free_item item ∷ [])

unfoldable pub item_get_data : Option Queue → Option Item → Option (List ℕ)
item_get_data (some q) (some item) = item.iov_base
item_get_data _ _ = none

-- -1 is the result without a queue or an item.
unfoldable pub item_get_data_len : Option Queue → Option Item → ℤ
item_get_data_len (some q) (some item) = pos item.iov_len
item_get_data_len _ _ = minus_one

unfoldable pub queue_set_mode : Queue → QueueMode → Queue
queue_set_mode q mode = record q { mode = mode }

unfoldable pub queue_set_depth : Queue → ℤ → Queue
queue_set_depth q depth = record q { max_depth = depth }

unfoldable pub queue_set_hook : Queue → Option (List ℕ → ℕ → Option (List ℕ)) → Bool → Queue
queue_set_hook q alloc_cb free_cb = record q { alloc_hook = alloc_cb; has_free_hook = free_cb }

-- QUEUE_MAX_DEPTH
abbrev pub queue_max_depth : ℕ
queue_max_depth = 200

unfoldable pub queue_create : Bool → Option Queue
queue_create calloc_ok =
    if calloc_ok
    then some (record {
      head = [];
      depth = pos 0;
      max_depth = pos queue_max_depth;
      mode = full_flush;
      alloc_hook = none;
      has_free_hook = false;
    })
    else none

-- The loop of `queue_flush`.
unfoldable pub free_all : Queue → List Item → List Act
unfolding item_free
free_all q [] = []
free_all q (item ∷ items) = item_free (some q) (some item) ++ free_all q items

unfoldable pub queue_flush : Queue → Queue × List Act
unfolding free_all
queue_flush q = (record q { head = []; depth = pos 0 }, free_all q q.head ++ (cond_signal ∷ []))

-- `queue_destroy` of a queue that is not NULL, up to the release of its lock and its memory.
unfoldable pub queue_destroy : Queue → List Act
unfolding queue_flush
queue_destroy q = (queue_flush q).1

-- How one pthread_cond_timedwait of `queue_pop` ends: what it returns, and the queue as the other
-- threads have left it.
pub record Wakeup : Type 0 where
  pub ret : ℕ
  pub queue : Queue

-- The end of `queue_pop`.
unfoldable pub take_first : Queue → Option Item × Queue
take_first q = elim q.head [
  | [] ↦ (none, q)
  | item ∷ items ↦ (some item, record q { head = items; depth = q.depth +ℤ minus_one })
]

-- `none`: still waiting when the given wakeups are over.
unfoldable pub queue_pop : List Wakeup → Queue → Option (Option Item × Queue)
unfolding take_first
queue_pop [] q = elim q.head [ [] ↦ none | item ∷ items ↦ some (take_first q) ]
queue_pop (w ∷ ws) q =
    let next : Option (Option Item × Queue) = queue_pop ws w.queue in
    elim q.head [
      | [] ↦ if w.ret == 0 then some (take_first w.queue) else next
      | item ∷ items ↦ some (take_first q)
    ]

unfoldable pub queue_pop_free : List Wakeup → Queue → Option (Queue × List Act)
unfolding queue_pop item_free
queue_pop_free ws q = queue_pop ws q >>= λ (tmp, q'). some (q', item_free (some q') tmp)

-- The first part of `queue_push`: room for one more item.
unfoldable pub make_room : List Wakeup → Queue → Option (Queue × List Act)
unfolding queue_flush queue_pop_free
make_room ws q =
    if not (ltb_ℤ q.depth q.max_depth)
    then elim q.mode [ full_flush ↦ some (queue_flush q) | full_ring ↦ queue_pop_free ws q ]
    else some (q, [])

-- The `int` is 0 and -1. One step of one caller: the code tests the depth without the lock and takes the lock for
-- the append only, so that a pop of another thread can come between them.
unfoldable pub queue_push :
    List Wakeup → Option Queue → Option Item → Option (ℤ × Option Queue × List Act)
unfolding make_room
queue_push ws none item = some (minus_one, none, [])
queue_push ws (some q) none = some (minus_one, some q, [])
queue_push ws (some q) (some item) = make_room ws q >>= λ (q', acts). some (
  pos 0,
  some (record q' { head = q'.head ++ (item ∷ []); depth = q'.depth +ℤ pos 1 }),
  acts ++ (cond_signal ∷ []),
)
