-- ===== src/Queue/Remove.antt =====
-- Taking a link off its ring, by `queue_del` and `queue_out` of shared/queue.h, and off the list.
use kernel_genesis_os.Base.{
  ℕ, ◌≡◌, ◌≢◌, refl, sym, ◌∙◌, inl, inr, false, Option, none, some, List, [], ◌∷◌, ◌++◌, arith, All,
  subst, append-nil,
}
use kernel_genesis_os.Queue.Links.{Store, out, del, unchain, is_empty}
use kernel_genesis_os.Queue.{queue_out, queue_del, queue_empty}
use kernel_genesis_os.Queue.Order.{All-mono, All-split, All-append, last-cases, queue_out-append}
use kernel_genesis_os.Queue.Ring.{
  IsChain, IsRing, Fresh, IsDistinct, Tail, front, IsChain-split, IsChain-join, chain-prev,
  IsChain-frame, IsChain-retarget,
}
use kernel_genesis_os.Queue.Refine.{flip, both, apart, prev-apart, front-apart}

All-remove {ℓ} :
    (P : ℕ → Type ℓ) (ys : List ℕ) (e : ℕ) (ws : List ℕ) → All P (ys ++ e ∷ ws) → All P (ys ++ ws)
All-remove P ys e ws h = let r = All-split P ys (e ∷ ws) h in All-append P ys ws r.0 r.1.1

IsDistinct-remove :
    (ys : List ℕ) (e : ℕ) (ws : List ℕ) → IsDistinct (ys ++ e ∷ ws) → IsDistinct (ys ++ ws)
IsDistinct-remove [] e ws d = d.1
IsDistinct-remove (y ∷ ys) e ws d = (All-remove _ ys e ws d.0, IsDistinct-remove ys e ws d.1)

queue_del-Fresh : (e : ℕ) (ws : List ℕ) → Fresh e ws → queue_del e ws ≡ ws
unfolding queue_del
queue_del-Fresh e [] f = refl
queue_del-Fresh e (w ∷ ws) f = ground (arith, f.0, queue_del-Fresh e ws f.1)

-- The element stands once in the list.
queue_del-split :
    (ys : List ℕ) (e : ℕ) (ws : List ℕ)
    → IsDistinct (ys ++ e ∷ ws)
    → queue_del e (ys ++ e ∷ ws) ≡ ys ++ ws
unfolding queue_del
queue_del-split [] e ws d = ground (arith, queue_del-Fresh e ws d.0)
queue_del-split (y ∷ ys) e ws d =
    ground (arith, queue_del-split ys e ws d.1, (All-split _ ys (e ∷ ws) d.0).1.0)

-- A store in which `e` was unchained from its neighbours.
record IsUnchained (m m' : Store) (e : ℕ) : Type 0 where
  next_before : m'.next (m.prev e) ≡ m.next e
  prev_after : m'.prev (m.next e) ≡ m.prev e
  same_next : (x : ℕ) → x ≢ e → x ≢ m.prev e → m'.next x ≡ m.next x
  same_prev : (x : ℕ) → x ≢ e → x ≢ m.next e → m'.prev x ≡ m.prev x

ends : (m : Store) (e : ℕ) (ws : List ℕ) (b : ℕ) → IsChain m e ws b → m.next e ≡ front ws b
ends m e [] b h = h.0
ends m e (w ∷ ws) b h = h.0

remove-Tail :
    (m m' : Store) (head e : ℕ) (ys ws : List ℕ)
    → IsRing m head (ys ++ e ∷ ws)
    → IsUnchained m m' e
    → Tail m' ws head
remove-Tail m m' head e ys [] r u = tt
remove-Tail m m' head e ys (w ∷ ws) r u =
    let t = (IsChain-split m head ys (e ∷ w ∷ ws) head r.chain).1 in
    let d = apart ys (e ∷ w ∷ ws) r.distinct.1 in
    let hd = All-split _ ys (e ∷ w ∷ ws) r.distinct.0 in
    IsChain-frame m m' e (m.prev e) w u.same_next (λ x h k. u.same_prev x h (λ i. k (i ∙ t.0))) w ws
      head t.2 (both _ _ (w ∷ ws) (flip e (w ∷ ws) d.1.0) (prev-apart m head ys e (w ∷ ws) r).1)
      (both _ _ ws (flip e ws d.1.0.1) (flip w ws d.1.1.0)) hd.1.0 hd.1.1.0

remove-IsRing :
    (m m' : Store) (head e : ℕ) (ys ws : List ℕ)
    → IsRing m head (ys ++ e ∷ ws)
    → IsUnchained m m' e
    → IsRing m' head (ys ++ ws)
remove-IsRing m m' head e ys ws r u =
    let s = IsChain-split m head ys (e ∷ ws) head r.chain in
    let d = apart ys (e ∷ ws) r.distinct.1 in
    let hd = All-split _ ys (e ∷ ws) r.distinct.0 in
    let c : m.next e ≡ front ws head = ends m e ws head s.1 in
    let shorter : IsDistinct (head ∷ (ys ++ ws)) =
      (All-remove _ ys e ws r.distinct.0, IsDistinct-remove ys e ws r.distinct.1) in
    record {
      chain =
          IsChain-join m' head ys ws head
            (IsChain-retarget m m' e (m.prev e) (front ws head) u.same_next
              (λ x h k. u.same_prev x h (λ i. k (i ∙ c))) head ys e (front ws head) s.0 refl
              (u.next_before ∙ c) (subst (λ t. m'.prev t ≡ m.prev e) c u.prev_after) (hd.0, d.0)
              (hd.1.0, All-mono (λ a h. h.0) ys d.2) (front-apart head ys ws shorter))
            (remove-Tail m m' head e ys ws r u);
      distinct = shorter;
      nonzero = (r.nonzero.0, All-remove _ ys e ws r.nonzero.1);
    }

front-All {ℓ} : (P : ℕ → Type ℓ) (b : ℕ) (ws : List ℕ) → P b → All P ws → P (front ws b)
front-All P b [] h k = h
front-All P b (w ∷ ws) h k = k.0

ring-away : (m : Store) (head e : ℕ) (ys ws : List ℕ) → IsRing m head (ys ++ e ∷ ws) → m.prev e ≢ e
ring-away m head e ys ws r i = (prev-apart m head ys e ws r).0 (sym i)

ring-linked :
    (m : Store) (head e : ℕ) (ys ws : List ℕ)
    → IsRing m head (ys ++ e ∷ ws)
    → (m.prev e ≢ 0) × (m.next e ≢ 0) × (m.next e ≢ e)
ring-linked m head e ys ws r =
    let s = IsChain-split m head ys (e ∷ ws) head r.chain in
    let c : m.next e ≡ front ws head = ends m e ws head s.1 in
    let z = All-split _ ys (e ∷ ws) r.nonzero.1 in
    let hd = All-split _ ys (e ∷ ws) r.distinct.0 in
    let d = apart ys (e ∷ ws) r.distinct.1 in
    (
      chain-prev (λ y. y ≢ 0) m head ys e s.0 (flip 0 (head ∷ ys) (r.nonzero.0, z.0)),
      (λ i. front-All (λ y. 0 ≢ y) head ws r.nonzero.0 z.1.1 (sym i ∙ c)),
      (λ i. front-All (λ y. e ≢ y) head ws (λ j. hd.1.0 (sym j)) d.1.0 (sym i ∙ c)),
    )

-- queue_del takes a link of a ring off it without a failed assertion: the others stay a ring in
-- their order, and both fields of the link are cleared, so that it can be queued again.
pub del-IsRing :
    (head e : ℕ) (m : Store) (ys ws : List ℕ)
    → IsRing m head (ys ++ e ∷ ws)
    → (m' : Store) × (del e m ≡ some m')
      × IsRing m' head (queue_del e (ys ++ e ∷ ws))
      × (m'.prev e ≡ 0)
      × (m'.next e ≡ 0)
unfolding del unchain
del-IsRing head e m ys ws r =
    let (p, n, ne) = ring-linked m head e ys ws r in
    let far = ring-away m head e ys ws r in
    (
      unchain e m,
      ground arith,
      subst (IsRing _ head) (sym (queue_del-split ys e ws r.distinct.1)) (
          remove-IsRing m _ head e ys ws r (record {
            next_before = ground arith;
            prev_after = ground arith;
            same_next = λ x h k. ground arith;
            same_prev = λ x h k. ground arith;
          })),
      ground arith,
      ground arith,
    )

-- The ring is empty as the head's `next` field tells.
pub is_empty-IsRing :
    (head : ℕ) (m : Store) (xs : List ℕ) → IsRing m head xs → is_empty head m ≡ queue_empty xs
unfolding is_empty
is_empty-IsRing head m [] r = ground (arith, r.chain)
is_empty-IsRing head m (x ∷ xs) r = ground (arith, r.chain.0, r.distinct.0.0)

-- `queue_top` reads the last link.
top-IsRing :
    (head : ℕ) (m : Store) (ys : List ℕ) (y : ℕ) → IsRing m head (ys ++ y ∷ []) → m.prev head ≡ y
top-IsRing head m ys y r = (IsChain-split m head ys (y ∷ []) head r.chain).1.1

nonempty :
    (head : ℕ) (m : Store) (ys : List ℕ) (y : ℕ)
    → IsRing m head (ys ++ y ∷ [])
    → is_empty head m ≡ false
nonempty head m [] y r = is_empty-IsRing head m _ r
nonempty head m (x ∷ ys) y r = is_empty-IsRing head m _ r

-- `queue_out` takes the last link off the ring, and leaves it ready to be queued again.
pub out-IsRing :
    (head : ℕ) (m : Store) (ys : List ℕ) (y : ℕ)
    → IsRing m head (ys ++ y ∷ [])
    → ((out head m).0 ≡ y)
      × IsRing (out head m).1 head ys
      × ((out head m).1.prev y ≡ 0)
      × ((out head m).1.next y ≡ 0)
unfolding out
out-IsRing head m ys y r =
    let e = nonempty head m ys y r in
    let t : m.prev head ≡ y = top-IsRing head m ys y r in
    let n : m.next y ≡ head = (IsChain-split m head ys (y ∷ []) head r.chain).1.0 in
    let (pz, nz, ne) = ring-linked m head y ys [] r in
    let far = ring-away m head y ys [] r in
    rw (e, t)
      (
        refl,
        subst (IsRing _ head) (append-nil ys) (
            remove-IsRing m _ head y ys [] r (record {
              next_before = ground arith;
              prev_after = ground arith;
              same_next = λ x h k. ground arith;
              same_prev = λ x h k. ground arith;
            })),
        ground arith,
        ground arith,
      )

out-empty : (head : ℕ) (m : Store) → IsRing m head [] → out head m ≡ (0, m)
unfolding out
out-empty head m r = rw (is_empty-IsRing head m [] r)

-- What `__queue_out` does, by what the list's `queue_out` gives.
abbrev pub OutImplements : ℕ → Store → Option (ℕ × List ℕ) → Type 0
OutImplements head m none = out head m ≡ (0, m)
OutImplements head m (some (y, ys)) =
    ((out head m).0 ≡ y)
    × IsRing (out head m).1 head ys
    × ((out head m).1.prev y ≡ 0)
    × ((out head m).1.next y ≡ 0)

-- On an empty ring `__queue_out` gives the null pointer and changes nothing. On any other ring it
-- gives the link that the list's `queue_out` takes, the rest stays a ring, and both fields of the
-- link are cleared.
pub out-OutImplements :
    (head : ℕ) (m : Store) (xs : List ℕ) → IsRing m head xs → OutImplements head m (queue_out xs)
unfolding queue_out
out-OutImplements head m xs r = elim (last-cases xs) [
  | inl e ↦ rw e (out-empty head m (subst (IsRing m head) e r))
  | inr (ys, y, e) ↦
      rw (e, queue_out-append ys y) (out-IsRing head m ys y (subst (IsRing m head) e r))
]
