-- ===== src/Queue/Refine.antt =====
-- INIT_LIST_HEAD and queue_add of shared/queue.h, on the ring of links and on the list.
use kernel_genesis_os.Base.{
  ℕ, ◌<◌, ◌≡◌, ◌≢◌, refl, sym, some, List, [], ◌∷◌, ◌++◌, arith, All, length, subst,
}
use kernel_genesis_os.Queue.Links.{Store, init_list_head, add, chain_before}
use kernel_genesis_os.Queue.{queue_add}
use kernel_genesis_os.Queue.Order.{All-mono, All-split, All-append}
use kernel_genesis_os.Queue.Ring.{
  IsChain, IsRing, Fresh, IsDistinct, Tail, front, IsChain-split, IsChain-join, chain-prev,
  IsChain-frame, IsChain-retarget, walk-splits,
}

-- INIT_LIST_HEAD makes an empty ring.
pub init_list_head-IsRing :
    (head : ℕ) (m : Store) → 0 ≢ head → IsRing (init_list_head head m) head []
unfolding init_list_head
init_list_head-IsRing head m h = record {
  chain = (ground arith, ground arith);
  distinct = (tt, tt);
  nonzero = (h, tt);
}

Fresh-append-sym :
    (ys : List ℕ) (e : ℕ) (ws : List ℕ)
    → Fresh e (ys ++ ws)
    → IsDistinct (ys ++ ws)
    → IsDistinct (ys ++ e ∷ ws)
Fresh-append-sym [] e ws f d = (f, d)
Fresh-append-sym (y ∷ ys) e ws f d =
    let r = All-split _ ys ws d.0 in
    (All-append _ ys (e ∷ ws) r.0 ((λ i. f.0 (sym i)), r.1), Fresh-append-sym ys e ws f.1 d.1)

All-insert {ℓ} :
    (P : ℕ → Type ℓ) (ys : List ℕ) (e : ℕ) (ws : List ℕ)
    → P e
    → All P (ys ++ ws)
    → All P (ys ++ e ∷ ws)
All-insert P ys e ws p h = let r = All-split P ys ws h in All-append P ys (e ∷ ws) r.0 (p, r.1)

pub flip : (e : ℕ) (xs : List ℕ) → Fresh e xs → All (λ x. x ≢ e) xs
flip e = All-mono λ a n i. n (sym i)

pub both {ℓ κ} :
    (P : ℕ → Type ℓ) (Q : ℕ → Type κ) (xs : List ℕ) → All P xs → All Q xs → All (λ x. P x × Q x) xs
both P Q [] h k = tt
both P Q (x ∷ xs) h k = ((h.0, k.0), both P Q xs h.1 k.1)

-- Where two lists are apart, each element of the first is fresh for the second.
pub apart :
    (ys ws : List ℕ)
    → IsDistinct (ys ++ ws)
    → IsDistinct ys × IsDistinct ws × All (λ y. Fresh y ws) ys
apart [] ws d = (tt, d, tt)
apart (y ∷ ys) ws d =
    let r = All-split _ ys ws d.0 in let s = apart ys ws d.1 in ((r.0, s.0), s.1, (r.1, s.2))

-- What the four assignments of `queue_add` do, where the new link is neither of its neighbours.
module _ (m : Store) (e c : ℕ) (ne : c ≢ e) (far : m.prev c ≢ e) where
  next_new : (chain_before e c m).next e ≡ c
  unfolding chain_before
  next_new = ground arith

  prev_new : (chain_before e c m).prev e ≡ m.prev c
  unfolding chain_before
  prev_new = ground arith

  next_before : (chain_before e c m).next (m.prev c) ≡ e
  unfolding chain_before
  next_before = ground arith

  prev_after : (chain_before e c m).prev c ≡ e
  unfolding chain_before
  prev_after = ground arith

  same_next : (x : ℕ) → x ≢ e → x ≢ m.prev c → (chain_before e c m).next x ≡ m.next x
  unfolding chain_before
  same_next x h k = ground arith

  same_prev : (x : ℕ) → x ≢ e → x ≢ c → (chain_before e c m).prev x ≡ m.prev x
  unfolding chain_before
  same_prev x h k = ground arith

front-Fresh : (e head : ℕ) (ys ws : List ℕ) → Fresh e (head ∷ (ys ++ ws)) → front ws head ≢ e
front-Fresh e head ys [] f i = f.0 (sym i)
front-Fresh e head ys (w ∷ ws) f i = (All-split _ ys (w ∷ ws) f.1).1.0 (sym i)

-- The link before `w` is none of those from `w` on.
pub prev-apart :
    (m : Store) (head : ℕ) (ys : List ℕ) (w : ℕ) (ws : List ℕ)
    → IsRing m head (ys ++ w ∷ ws)
    → All (λ x. x ≢ m.prev w) (w ∷ ws)
prev-apart m head ys w ws r =
    chain-prev (λ p. All (λ x. x ≢ p) (w ∷ ws)) m head ys w
      (IsChain-split m head ys (w ∷ ws) head r.chain).0
      (
        flip head (w ∷ ws) (All-split _ ys (w ∷ ws) r.distinct.0).1,
        All-mono (λ a h. flip a (w ∷ ws) h) ys (apart ys (w ∷ ws) r.distinct.1).2,
      )

pub front-apart :
    (head : ℕ) (ys ws : List ℕ) → IsDistinct (head ∷ (ys ++ ws)) → All (λ x. x ≢ front ws head) ys
front-apart head ys [] d = flip head ys (All-split _ ys [] d.0).0
front-apart head ys (w ∷ ws) d = All-mono (λ a h. h.0) ys (apart ys (w ∷ ws) d.1).2

insert-Tail :
    (m : Store) (head e : ℕ) (ys ws : List ℕ)
    → IsRing m head (ys ++ ws)
    → Fresh e (head ∷ (ys ++ ws))
    → m.prev (front ws head) ≢ e
    → Tail m ws head
    → IsChain (chain_before e (front ws head) m) e ws head
insert-Tail m head e ys [] r f far t =
    let ne = front-Fresh e head ys [] f in (next_new m e head ne far, prev_after m e head ne far)
insert-Tail m head e ys (w ∷ ws) r f far t =
    let ne = front-Fresh e head ys (w ∷ ws) f in
    let g = All-split _ ys (w ∷ ws) f.1 in
    let d = apart ys (w ∷ ws) r.distinct.1 in
    let hd = All-split _ ys (w ∷ ws) r.distinct.0 in
    let away : All (λ x. x ≢ m.prev w) (w ∷ ws) = prev-apart m head ys w ws r in
    (
      next_new m e w ne far,
      prev_after m e w ne far,
      IsChain-frame m _ e (m.prev w) w (same_next m e w ne far) (same_prev m e w ne far) w ws head t
          (both _ _ (w ∷ ws) (flip e (w ∷ ws) g.1) away)
          (both _ _ ws (flip e ws g.1.1) (flip w ws d.1.0)) (λ i. f.0 (sym i)) hd.1.0,
    )

pub insert-IsRing :
    (m : Store) (head e : ℕ) (ys ws : List ℕ)
    → IsRing m head (ys ++ ws)
    → Fresh e (head ∷ (ys ++ ws))
    → 0 ≢ e
    → IsRing (chain_before e (front ws head) m) head (ys ++ e ∷ ws)
insert-IsRing m head e ys ws r f z =
    let s = IsChain-split m head ys ws head r.chain in
    let ne = front-Fresh e head ys ws f in
    let g = All-split _ ys ws f.1 in
    let d = apart ys ws r.distinct.1 in
    let hd = All-split _ ys ws r.distinct.0 in
    let far : m.prev (front ws head) ≢ e =
      (λ i. chain-prev (λ y. e ≢ y) m head ys (front ws head) s.0 (f.0, g.0) (sym i)) in
    record {
      chain =
          IsChain-join _ head ys (e ∷ ws) head
            (IsChain-retarget m _ e (m.prev (front ws head)) (front ws head)
              (same_next m e _ ne far) (same_prev m e _ ne far) head ys (front ws head) e s.0 refl
              (next_before m e _ ne far) (prev_new m e _ ne far) (hd.0, d.0)
              (flip e (head ∷ ys) (f.0, g.0)) (front-apart head ys ws r.distinct))
            (insert-Tail m head e ys ws r f far s.1);
      distinct = (
        All-insert _ ys e ws (λ i. f.0 (sym i)) r.distinct.0,
        Fresh-append-sym ys e ws f.1 r.distinct.1,
      );
      nonzero = (r.nonzero.0, All-insert _ ys e ws z r.nonzero.1);
    }

-- On a ring of links, queue_add puts a link that is in no queue, not null and not of the ring where
-- the list's `queue_add` does, and leaves a ring; the walk needs one round of fuel more than the
-- queue has elements.
pub add-IsRing :
    (key : ℕ → ℕ) (fuel head e : ℕ) (m : Store) (xs : List ℕ)
    → IsRing m head xs
    → Fresh e (head ∷ xs)
    → 0 ≢ e
    → m.prev e ≡ 0
    → m.next e ≡ 0
    → length xs < fuel
    → (m' : Store) × (add key fuel head e m ≡ some m') × IsRing m' head (queue_add key e xs)
unfolding add
add-IsRing key fuel head e m xs r f z p n lt =
    let (ys, ws, split, spec, found) =
      walk-splits key fuel head e m head xs r.chain r.distinct.0 lt in
    (
      chain_before e (front ws head) m,
      ground arith,
      subst (IsRing _ head) (sym spec) (
          insert-IsRing m head e ys ws (subst (IsRing m head) split r)
            (subst (λ l. Fresh e (head ∷ l)) split f) z),
    )
