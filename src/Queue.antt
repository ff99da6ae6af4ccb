-- ===== src/Queue.antt =====
-- The priority queues of shared/queue.h, as lists.
--
-- A queue is the list of its elements from `head->next` to `head->prev`, in ascending priority:
-- `queue_add` walks from the front past the smaller priorities, and `queue_out` takes the last one.
-- The doubly linked ring itself is modelled in Queue/Links.antt, where Queue/Refine.antt proves
-- that it implements these functions.
pub mod Order
pub mod Links
pub mod Ring
pub mod Refine
pub mod Remove
use kernel_genesis_os.Base.{
  ℕ, ◌≡◌, Bool, true, false, Option, none, some, List, [], ◌∷◌, ltb, ◌==◌, if◌then◌else◌,
}

module _ {ℓ} {A : Type ℓ} where
  -- queue_empty
  abbrev pub queue_empty : List A → Bool
  queue_empty [] = true
  queue_empty (x ∷ xs) = false

  -- queue_add: `x` stands in front of the first element whose priority is not smaller.
  unfoldable pub queue_add : (A → ℕ) → A → List A → List A
  queue_add key x [] = x ∷ []
  queue_add key x (y ∷ ys) = if ltb (key y) (key x) then y ∷ queue_add key x ys else x ∷ y ∷ ys

  abbrev keep_first : A → Option (A × List A) → Option (A × List A)
  keep_first x none = some (x, [])
  keep_first x (some (y, ys)) = some (y, x ∷ ys)

  -- queue_out: the last element, and the queue without it; `none` is the null pointer.
  unfoldable pub queue_out : List A → Option (A × List A)
  queue_out [] = none
  queue_out (x ∷ xs) = keep_first x (queue_out xs)

  -- queue_top: the last element.
  unfoldable pub queue_top : List A → Option A
  queue_top [] = none
  queue_top (x ∷ []) = some x
  queue_top (x ∷ y ∷ ys) = queue_top (y ∷ ys)

-- queue_del, of an element known by its address.
unfoldable pub queue_del : ℕ → List ℕ → List ℕ
queue_del x [] = []
queue_del x (y ∷ ys) = if x == y then queue_del x ys else y ∷ queue_del x ys
