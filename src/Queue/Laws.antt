-- ===== src/Queue/Laws.antt =====
-- The queue's invariant, and which items the acts of a call free.
use trace_server.Base.{
  ℕ, suc, if◌then◌else◌, ltb, ◌+◌, ◌≡◌, refl, ap, ◌∙◌, Bool, true, false, Option, none, some, List,
  [], ◌∷◌, ◌++◌, arith, length, append-nil,
}
use trace_server.Base.Int.{pos, ◌+ℤ◌, minus_one, ltb_ℤ}
use trace_server.Queue.{
  Item, Act, call_free_hook, free_data, free_item, cond_signal, Queue, item_free, free_all,
  queue_flush,
}

-- `depth` counts the items.
pub record IsQueue (q : Queue) : Type 0 where
  pub depth_eq : q.depth ≡ pos (length q.head)

-- The items that acts free, in order.
abbrev pub freed : List Act → List Item
freed [] = []
freed (free_item item ∷ acts) = item ∷ freed acts
freed (call_free_hook b ∷ acts) = freed acts
freed (free_data b ∷ acts) = freed acts
freed (cond_signal ∷ acts) = freed acts

pub freed-append : (xs ys : List Act) → freed (xs ++ ys) ≡ freed xs ++ freed ys
freed-append [] ys = refl
freed-append (free_item item ∷ xs) ys = ap (λ t. item ∷ t) (freed-append xs ys)
freed-append (call_free_hook b ∷ xs) ys = freed-append xs ys
freed-append (free_data b ∷ xs) ys = freed-append xs ys
freed-append (cond_signal ∷ xs) ys = freed-append xs ys

pub freed-item_free : (q : Queue) (item : Item) → freed (item_free (some q) (some item)) ≡ item ∷ []
unfolding item_free
freed-item_free q item = go q.has_free_hook item.iov_base
  where
    go :
        (b : Bool) (base : Option (List ℕ))
        → freed (
            (if b
              then call_free_hook base ∷ []
              else elim base [ none ↦ [] | some d ↦ free_data d ∷ [] ])
            ++ (free_item item ∷ []))
          ≡ item ∷ []
    go true base = refl
    go false none = refl
    go false (some d) = refl

pub freed-free_all : (q : Queue) (items : List Item) → freed (free_all q items) ≡ items
unfolding free_all
freed-free_all q [] = refl
freed-free_all q (item ∷ items) =
    freed-append (item_free (some q) (some item)) (free_all q items)
    ∙ rw (freed-item_free q item, freed-free_all q items) refl

pub queue_flush-freed : (q : Queue) → freed (queue_flush q).1 ≡ q.head
unfolding queue_flush
queue_flush-freed q =
    freed-append (free_all q q.head) (cond_signal ∷ [])
    ∙ append-nil (freed (free_all q q.head))
    ∙ freed-free_all q q.head

-- One item less, one item more.
pub down : (n : ℕ) → pos (suc n) +ℤ minus_one ≡ pos n
down n = ground arith

pub up : (n : ℕ) → pos n +ℤ pos 1 ≡ pos (n + 1)
up n = ground arith

pub ltb_ℤ-pos : (a b : ℕ) → ltb_ℤ (pos a) (pos b) ≡ ltb a b
ltb_ℤ-pos a b = ground arith
