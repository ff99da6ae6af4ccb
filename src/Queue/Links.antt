-- ===== src/Queue/Links.antt =====
-- The doubly linked rings of shared/queue.h, over a store of links.
--
-- A link is known by its address, and 0 is the null pointer. `queue_entry` and the macros' type and
-- field arguments compute an element's address from its link's: here an element is known by its
-- link, and `key` reads its priority field. The walk of `queue_add` runs on fuel, and `none` says
-- that it ran out or that an assertion failed.
use kernel_genesis_os.Base.{
  ℕ, zero, suc, Bool, Option, none, some, ltb, ◌==◌, ◌&&◌, ◌||◌, not, if◌then◌else◌, update,
}

-- struct list_link, for every address.
pub record Store : Type 0 where
  pub prev : ℕ → ℕ
  pub next : ℕ → ℕ

-- INIT_LIST_HEAD
unfoldable pub init_list_head : ℕ → Store → Store
init_list_head head m = record m { next = update m.next head head; prev = update m.prev head head }

-- queue_empty
unfoldable pub is_empty : ℕ → Store → Bool
is_empty head m = m.next head == head

-- The walk of queue_add from `cur`: the link before which the new element goes.
unfoldable pub walk : (ℕ → ℕ) → ℕ → (head elem cur : ℕ) → Store → Option ℕ
walk key zero head elem cur m = none
walk key (suc fuel) head elem cur m =
    let rest = walk key fuel head elem (m.next cur) m in
    if not (cur == head) && ltb (key cur) (key elem) then rest else some cur

-- The four assignments that chain `elem` before `cur`.
unfoldable pub chain_before : (elem cur : ℕ) → Store → Store
chain_before elem cur m =
    let m₁ : Store = record m {
      next = update m.next elem cur;
      prev = update m.prev elem (m.prev cur);
    } in
    let m₂ : Store = record m₁ { next = update m₁.next (m₁.prev cur) elem } in
    record m₂ { prev = update m₂.prev cur elem }

abbrev before : ℕ → Store → Option ℕ → Option Store
before elem m none = none
before elem m (some cur) = some (chain_before elem cur m)

-- queue_add, with its assertion that `elem` is in no queue.
unfoldable pub add : (ℕ → ℕ) → ℕ → (head elem : ℕ) → Store → Option Store
add key fuel head elem m =
    if m.prev elem == 0 && (m.next elem == 0)
    then before elem m (walk key fuel head elem (m.next head) m)
    else none

-- __queue_out: the last link, taken off the ring and cleared; 0 if the ring is empty.
unfoldable pub out : ℕ → Store → ℕ × Store
unfolding is_empty
out head m =
    let last = m.prev head in
    if is_empty head m
    then (0, m)
    else let m₁ : Store = record m { prev = update m.prev head (m.prev last) } in
      let m₂ : Store = record m₁ { next = update m₁.next (m₁.prev head) head } in
      (last, record { prev = update m₂.prev last 0; next = update m₂.next last 0 })

-- __queue_top
unfoldable pub top : ℕ → Store → ℕ
unfolding is_empty
top head m = if is_empty head m then 0 else m.prev head

-- The four assignments of queue_del.
unfoldable pub unchain : ℕ → Store → Store
unchain elem m =
    let m₁ : Store = record m { next = update m.next (m.prev elem) (m.next elem) } in
    let m₂ : Store = record m₁ { prev = update m₁.prev (m₁.next elem) (m₁.prev elem) } in
    record { prev = update m₂.prev elem 0; next = update m₂.next elem 0 }

-- queue_del, with its assertion that `elem` is in a queue.
unfoldable pub del : ℕ → Store → Option Store
del elem m = if m.prev elem == 0 || (m.next elem == 0) then none else some (unchain elem m)
