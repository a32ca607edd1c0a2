-- ===== src/Queue/Tests.antt =====
-- Tests of the queue.
use trace_server.Base.{ℕ, ◌≡◌, refl, true, some, none, List, [], ◌∷◌, ◌++◌, arith, length}
use trace_server.Base.Int.{pos, minus_one}
use trace_server.Queue.{
  Queue, Item, full_ring, queue_create, queue_push, queue_pop, queue_set_depth, queue_set_mode,
  queue_set_hook, item_alloc, item_get_data, item_get_data_len,
}
use trace_server.Queue.Laws.{IsQueue}
use trace_server.Queue.Push.{Pushed, queue_push-Pushed, queue_push-waits}
use trace_server.Queue.History.{Trace, Run, here, next, popping, IsOrdered, Run-IsOrdered}

abbrev item : ℕ → Item
item n = record { iov_base = some (n ∷ []); iov_len = 1 }

-- A queue of two places in ring mode.
abbrev ring : List Item → Queue
ring items = record {
  head = items;
  depth = pos (length items);
  max_depth = pos 2;
  mode = full_ring;
  alloc_hook = none;
  has_free_hook = true;
}

abbrev full : Queue
full = ring (item 1 ∷ item 2 ∷ [])

full-IsQueue : IsQueue full
full-IsQueue = record { depth_eq = refl }

queue_push-Pushed_example : Pushed full 2 (item 3) (queue_push [] (some full) (some (item 3)))
queue_push-Pushed_example =
    queue_push-Pushed [] full 2 (item 3) full-IsQueue refl (omega arith) (omega arith)

queue_push-waits_example :
    queue_push
      (record { ret = 110; queue = record (ring []) { max_depth = pos 0 } } ∷ [])
      (some (record (ring []) { max_depth = pos 0 }))
      (some (item 1))
    ≡ none
queue_push-waits_example =
    queue_push-waits (record { ret = 110; queue = record (ring []) { max_depth = pos 0 } } ∷ [])
      (record (ring []) { max_depth = pos 0 }) (item 1) refl refl refl
      ((λ e. omega arith, refl), tt)

abbrev start : Trace
start = record { queue = full; pushed = item 1 ∷ item 2 ∷ []; left = [] }

start-IsOrdered : IsOrdered 2 start
start-IsOrdered = record {
  is_queue = record { depth_eq = refl };
  max_eq = refl;
  bounded = omega arith;
  ordered = refl;
}

-- A pop of the first item.
abbrev later : Trace
later = record {
  queue = ring (item 2 ∷ []);
  pushed = item 1 ∷ item 2 ∷ [];
  left = [] ++ (item 1 ∷ []);
}

pops : queue_pop [] full ≡ some (some (item 1), ring (item 2 ∷ []))
unfolding queue_pop
pops = refl

start-later : Run start later
start-later = next here (popping start (item 1) (item 2 ∷ []) (ring (item 2 ∷ [])) refl pops)

Run-IsOrdered_example : IsOrdered 2 later
Run-IsOrdered_example = Run-IsOrdered 2 (omega arith) start-IsOrdered start-later

created :
    (q : Queue) × (queue_create true ≡ some q)
    × (queue_set_mode (queue_set_depth (queue_set_hook q none true) (pos 2)) full_ring ≡ ring [])
unfolding queue_create queue_set_mode queue_set_depth queue_set_hook
created = (_, refl, refl)

allocates : item_alloc true true (some full) (7 ∷ []) 1 ≡ some (some (item 7))
unfolding item_alloc
allocates = refl

reads :
    (item_get_data (some full) (some (item 7)) ≡ some (7 ∷ []))
    × (item_get_data_len none none ≡ minus_one)
unfolding item_get_data item_get_data_len
reads = (refl, refl)
