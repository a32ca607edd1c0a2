-- ===== src/Queue/Push.antt =====
-- What `queue_push` does in each mode, and when `queue_pop` waits.
use trace_server.Base.{
  ℕ, suc, ◌≤◌, ◌<◌, ◌≡◌, ◌≢◌, refl, sym, ap, ◌∙◌, false, Option, none, some, List, [], ◌∷◌, ◌++◌,
  arith, length, length-append, Bool-cases, inl, inr, append-nil, ltb, ltb-true, ltb-false, All,
  ◌==◌, append_assoc,
}
use trace_server.Base.Int.{ℤ, pos, ◌+ℤ◌, minus_one, ltb_ℤ}
use trace_server.Queue.{
  QueueMode, full_flush, full_ring, Item, Act, cond_signal, Queue, Wakeup, item_free, queue_flush,
  queue_pop, queue_pop_free, make_room, queue_push, take_first,
}
use trace_server.Queue.Laws.{
  IsQueue, freed, freed-append, freed-item_free, queue_flush-freed, down, up, ltb_ℤ-pos,
}

-- A queue that is not empty is popped without a wait.
pub pop_first :
    (ws : List Wakeup) (q : Queue) (item : Item) (items : List Item)
    → q.head ≡ item ∷ items
    → queue_pop ws q ≡ some (some item, record q { head = items; depth = q.depth +ℤ minus_one })
unfolding queue_pop take_first
pop_first [] q item items e = rw e
pop_first (w ∷ ws) q item items e = rw e

-- A queue with room for one more item, and the acts that made the room.
pub record Room (q : Queue) (m : ℕ) (o : Option (Queue × List Act)) : Type 0 where
  pub after : Queue
  pub acts : List Act
  pub returned : o ≡ some (after, acts)
  pub is_queue : IsQueue after
  pub conserved : freed acts ++ after.head ≡ q.head
  pub has_room : length after.head < m
  pub untouched : length q.head < m → acts ≡ []
  pub flushed : q.mode ≡ full_flush → m ≤ length q.head → after.head ≡ []
  pub ringed : q.mode ≡ full_ring → length (freed acts) ≤ 1
  pub same_depth : after.max_depth ≡ q.max_depth
  pub same_mode : after.mode ≡ q.mode
  pub same_hook : after.alloc_hook ≡ q.alloc_hook

module _ (q : Queue) (m : ℕ) (h : IsQueue q) (max : q.max_depth ≡ pos m) (m_pos : 0 < m) where
  full : ltb_ℤ q.depth q.max_depth ≡ ltb (length q.head) m
  full = rw (h.depth_eq, max) (ltb_ℤ-pos (length q.head) m)

  flush-Room : m ≤ length q.head → q.mode ≡ full_flush → Room q m (some (queue_flush q))
  unfolding queue_flush
  flush-Room is_full e = record {
    after = record q { head = []; depth = pos 0 };
    acts = (queue_flush q).1;
    returned = refl;
    is_queue = record { depth_eq = refl };
    conserved = append-nil (freed (queue_flush q).1) ∙ queue_flush-freed q;
    has_room = m_pos;
    untouched = λ lt. absurd (omega arith);
    flushed = λ _ _. refl;
    ringed = λ r. absurd (let r' = sym e ∙ r in cc);
    same_depth = refl;
    same_mode = refl;
    same_hook = refl;
  }

  ring-Room :
      (ws : List Wakeup) (item : Item) (items : List Item)
      → q.head ≡ item ∷ items
      → length q.head ≤ m
      → m ≤ length q.head
      → q.mode ≡ full_ring
      → Room q m (queue_pop_free ws q)
  unfolding queue_pop_free
  ring-Room ws item items e bound is_full er =
      let q' : Queue = record q { head = items; depth = q.depth +ℤ minus_one } in
      let n : length q.head ≡ suc (length items) = ap length e in
      rw (pop_first ws q item items e) (record {
        after = q';
        acts = item_free (some q') (some item);
        returned = refl;
        is_queue = record { depth_eq = rw (h.depth_eq, n) (down (length items)) };
        conserved = rw (freed-item_free q' item) (sym e);
        has_room = omega arith;
        untouched = λ lt. absurd (omega arith);
        flushed = λ f. absurd (let f' = sym er ∙ f in cc);
        ringed = λ _. omega (arith, ap length (freed-item_free q' item));
        same_depth = refl;
        same_mode = refl;
        same_hook = refl;
      })

  pub make_room_lem : (ws : List Wakeup) → length q.head ≤ m → Room q m (make_room ws q)
  unfolding make_room
  make_room_lem ws bound = elim (Bool-cases (ltb (length q.head) m)) [
    | inl room ↦
        rw (full, room)
          (record {
            after = q;
            acts = [];
            returned = refl;
            is_queue = h;
            conserved = refl;
            has_room = ltb-true room;
            untouched = λ _. refl;
            flushed = λ _ f. absurd (omega (arith, ltb-true room));
            ringed = λ _. omega arith;
            same_depth = refl;
            same_mode = refl;
            same_hook = refl;
          })
    | inr no_room ↦ rw (full, no_room) (by_mode (ltb-false no_room) q.mode refl)
  ]
    where
      ring_of :
          (items : List Item)
          → q.head ≡ items
          → m ≤ length q.head
          → q.mode ≡ full_ring
          → Room q m (queue_pop_free ws q)
      ring_of [] e is_full er = absurd (omega (arith, ap length e))
      ring_of (item ∷ items) e is_full er = ring-Room ws item items e bound is_full er

      by_mode :
          m ≤ length q.head
          → (mode : QueueMode) → q.mode ≡ mode
          → Room q m
              (elim mode [ full_flush ↦ some (queue_flush q) | full_ring ↦ queue_pop_free ws q ])
      by_mode is_full full_flush e = flush-Room is_full e
      by_mode is_full full_ring e = ring_of q.head refl is_full e

-- The queue after a push, and the acts of the push.
pub record Pushed (q : Queue) (m : ℕ) (item : Item) (o : Option (ℤ × Option Queue × List Act))
    : Type 0 where
  pub after : Queue
  pub acts : List Act
  pub returned : o ≡ some (pos 0, some after, acts)
  pub is_queue : IsQueue after
  pub conserved : freed acts ++ after.head ≡ q.head ++ (item ∷ [])
  pub bounded : length after.head ≤ m
  pub untouched : length q.head < m → freed acts ≡ []
  pub flushed : q.mode ≡ full_flush → m ≤ length q.head → after.head ≡ item ∷ []
  pub ringed : q.mode ≡ full_ring → length (freed acts) ≤ 1
  pub same_depth : after.max_depth ≡ q.max_depth
  pub same_hook : after.alloc_hook ≡ q.alloc_hook

-- `queue_push` of an item to a queue whose `depth` counts its items, with `max_depth` a positive `m` and
-- at most `m` items, returns 0 without a wait in either mode. Afterwards `depth` counts the items and
-- they are at most `m`. The items that the call frees and those that the queue then holds are, in this
-- order, the old ones and the new one: only the oldest are lost. Where there was room none is lost, in
-- ring mode at most one, and in flush mode a full queue is left with the new item alone.
pub queue_push-Pushed :
    (ws : List Wakeup) (q : Queue) (m : ℕ) (item : Item)
    → IsQueue q
    → q.max_depth ≡ pos m
    → 0 < m
    → length q.head ≤ m
    → Pushed q m item (queue_push ws (some q) (some item))
unfolding queue_push
queue_push-Pushed ws q m item h max m_pos bound =
    let room = make_room_lem q m h max m_pos ws bound in
    let same : freed (room.acts ++ (cond_signal ∷ [])) ≡ freed room.acts =
      freed-append room.acts (cond_signal ∷ []) ∙ append-nil (freed room.acts) in
    rw room.returned (record {
      after = record room.after {
        head = room.after.head ++ (item ∷ []);
        depth = room.after.depth +ℤ pos 1;
      };
      acts = room.acts ++ (cond_signal ∷ []);
      returned = refl;
      is_queue = record {
        depth_eq =
            rw room.is_queue.depth_eq (up (length room.after.head))
            ∙ ap pos (sym (length-append room.after.head (item ∷ [])));
      };
      conserved = rw same (
          sym (append_assoc (freed room.acts) room.after.head (item ∷ []))
          ∙ ap (λ xs. xs ++ (item ∷ [])) room.conserved);
      bounded = omega (arith, room.has_room, length-append room.after.head (item ∷ []));
      untouched = λ lt. same ∙ ap freed (room.untouched lt);
      flushed = λ f is_full. ap (λ xs. xs ++ (item ∷ [])) (room.flushed f is_full);
      ringed = λ r. rw same (room.ringed r);
      same_depth = room.same_depth;
      same_hook = room.same_hook;
    })

-- A wait that ended otherwise than by a signal and found the queue empty.
abbrev pub StillEmpty : Wakeup → Type 0
StillEmpty w = (w.ret ≢ 0) × (w.queue.head ≡ [])

queue_pop-waits :
    (ws : List Wakeup) (q : Queue) → q.head ≡ [] → All StillEmpty ws → queue_pop ws q ≡ none
unfolding queue_pop
queue_pop-waits [] q e h = rw e
queue_pop-waits (w ∷ ws) q e h =
    let not_signalled : (w.ret == 0) ≡ false = ground (arith, h.0.0) in
    rw (e, not_signalled) (queue_pop-waits ws w.queue h.0.1 h.1)

-- In ring mode `queue_push` makes room by a pop, and so a push to an empty queue whose `max_depth` is not
-- positive waits for another push: it is still waiting after any number of waits that end without a
-- signal and find the queue empty.
pub queue_push-waits :
    (ws : List Wakeup) (q : Queue) (item : Item)
    → q.mode ≡ full_ring
    → q.head ≡ []
    → ltb_ℤ q.depth q.max_depth ≡ false
    → All StillEmpty ws
    → queue_push ws (some q) (some item) ≡ none
unfolding queue_push make_room queue_pop_free
queue_push-waits ws q item ring empty no_room still =
    rw (no_room, ring, queue_pop-waits ws q empty still)
