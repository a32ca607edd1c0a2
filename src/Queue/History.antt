-- ===== src/Queue/History.antt =====
-- The queue of src/queue.c over any sequence of calls: what went in comes out in order.
use trace_server.Base.{
  ℕ, ◌≤◌, ◌<◌, ◌≡◌, refl, sym, ap, ◌∙◌, some, List, [], ◌∷◌, ◌++◌, arith, length, append_assoc,
  append-nil,
}
use trace_server.Base.Int.{pos, ◌+ℤ◌, minus_one}
use trace_server.Queue.{Item, Act, Queue, Wakeup, queue_push, queue_pop, queue_flush}
use trace_server.Queue.Laws.{IsQueue, freed, queue_flush-freed, down}
use trace_server.Queue.Push.{queue_push-Pushed, pop_first}

-- A queue with the items that were pushed so far, and those that left it, freed or returned by a pop.
pub record Trace : Type 0 where
  pub queue : Queue
  pub pushed : List Item
  pub left : List Item

-- A call by any thread, in the order in which the threads take the lock.
pub data Step : Trace → Trace → Type 0 where
  pushing :
      (t : Trace) (ws : List Wakeup) (item : Item) (q : Queue) (acts : List Act)
      → queue_push ws (some t.queue) (some item) ≡ some (pos 0, some q, acts)
      → Step t (record { queue = q; pushed = t.pushed ++ (item ∷ []); left = t.left ++ freed acts })
  popping :
      (t : Trace) (item : Item) (items : List Item) (q : Queue)
      → t.queue.head ≡ item ∷ items
      → queue_pop [] t.queue ≡ some (some item, q)
      → Step t (record { queue = q; pushed = t.pushed; left = t.left ++ (item ∷ []) })
  flushing :
      (t : Trace)
      → Step t (record {
        queue = (queue_flush t.queue).0;
        pushed = t.pushed;
        left = t.left ++ freed (queue_flush t.queue).1;
      })

pub data Run (s : Trace) : Trace → Type 0 where
  here : Run s s
  next : {t u : Trace} → Run s t → Step t u → Run s u

-- What every trace keeps.
pub record IsOrdered (m : ℕ) (t : Trace) : Type 0 where
  pub is_queue : IsQueue t.queue
  pub max_eq : t.queue.max_depth ≡ pos m
  pub bounded : length t.queue.head ≤ m
  pub ordered : t.left ++ t.queue.head ≡ t.pushed

module _ (m : ℕ) (m_pos : 0 < m) where
  pushing-IsOrdered :
      (t : Trace) (ws : List Wakeup) (item : Item) (q : Queue) (acts : List Act)
      → queue_push ws (some t.queue) (some item) ≡ some (pos 0, some q, acts)
      → IsOrdered m t
      → IsOrdered m
          (record { queue = q; pushed = t.pushed ++ (item ∷ []); left = t.left ++ freed acts })
  pushing-IsOrdered t ws item q acts e h =
      let p = queue_push-Pushed ws t.queue m item h.is_queue h.max_eq m_pos h.bounded in
      let both = sym p.returned ∙ e in
      let same : p.after ≡ q = cc in
      let same_acts : p.acts ≡ acts = cc in
      rw (← same, ← same_acts)
        (record {
          is_queue = p.is_queue;
          max_eq = p.same_depth ∙ h.max_eq;
          bounded = p.bounded;
          ordered =
              append_assoc t.left (freed p.acts) p.after.head
              ∙ ap (◌++◌ t.left) p.conserved
              ∙ sym (append_assoc t.left t.queue.head (item ∷ []))
              ∙ ap (λ xs. xs ++ (item ∷ [])) h.ordered;
        })

  popping-IsOrdered :
      (t : Trace) (item : Item) (items : List Item) (q : Queue)
      → t.queue.head ≡ item ∷ items
      → queue_pop [] t.queue ≡ some (some item, q)
      → IsOrdered m t
      → IsOrdered m (record { queue = q; pushed = t.pushed; left = t.left ++ (item ∷ []) })
  popping-IsOrdered t item items q e r h =
      let both = sym (pop_first [] t.queue item items e) ∙ r in
      let same : record t.queue { head = items; depth = t.queue.depth +ℤ minus_one } ≡ q = cc in
      rw (← same) (record {
        is_queue = record {
          depth_eq = rw (h.is_queue.depth_eq, ap length e) (down (length items));
        };
        max_eq = h.max_eq;
        bounded = omega (arith, ap length e, h.bounded);
        ordered = append_assoc t.left (item ∷ []) items ∙ ap (◌++◌ t.left) (sym e) ∙ h.ordered;
      })

  Step-IsOrdered : {t u : Trace} → Step t u → IsOrdered m t → IsOrdered m u
  unfolding queue_flush
  Step-IsOrdered (pushing t ws item q acts e) h = pushing-IsOrdered t ws item q acts e h
  Step-IsOrdered (popping t item items q e r) h = popping-IsOrdered t item items q e r h
  Step-IsOrdered (flushing t) h = record {
    is_queue = record { depth_eq = refl };
    max_eq = h.max_eq;
    bounded = omega arith;
    ordered =
        append-nil (t.left ++ freed (queue_flush t.queue).1)
        ∙ ap (◌++◌ t.left) (queue_flush-freed t.queue)
        ∙ h.ordered;
  }

  -- Over any sequence of pushes, pops and flushes, in either mode and with `max_depth` a positive `m`,
  -- the queue keeps its order: the items that left it, freed or returned by a pop, and those still in it
  -- are, in this order, the items that were pushed. At most `m` are in it, and `depth` counts them.
  pub Run-IsOrdered : {s t : Trace} → IsOrdered m s → Run s t → IsOrdered m t
  Run-IsOrdered h here = h
  Run-IsOrdered h (next r st) = Step-IsOrdered st (Run-IsOrdered h r)
