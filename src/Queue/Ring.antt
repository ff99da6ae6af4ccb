-- ===== src/Queue/Ring.antt =====
-- When the links from a head form a ring that holds a list, and how a splice changes a chain.
use kernel_genesis_os.Base.{
  ℕ, zero, suc, ◌<◌, ◌≡◌, ◌≢◌, refl, sym, ◌∙◌, inl, inr, some, List, [], ◌∷◌, ◌++◌, arith, ltb, All,
  length, Bool-cases,
}
use kernel_genesis_os.Queue.Links.{Store, walk}
use kernel_genesis_os.Queue.{queue_add}

-- From `a` the links lead through `xs` to `b`, and back.
abbrev pub IsChain : Store → ℕ → List ℕ → ℕ → Type 0
IsChain m a [] b = (m.next a ≡ b) × (m.prev b ≡ a)
IsChain m a (x ∷ xs) b = (m.next a ≡ x) × (m.prev x ≡ a) × IsChain m x xs b

abbrev pub Fresh : ℕ → List ℕ → Type 0
Fresh x = All (λ y. x ≢ y)

abbrev pub IsDistinct : List ℕ → Type 0
IsDistinct [] = Unit {0}
IsDistinct (x ∷ xs) = Fresh x xs × IsDistinct xs

-- The ring of `head` holds the links `xs`, all distinct and none of them null.
pub record IsRing (m : Store) (head : ℕ) (xs : List ℕ) : Type 0 where
  pub chain : IsChain m head xs head
  pub distinct : IsDistinct (head ∷ xs)
  pub nonzero : Fresh 0 (head ∷ xs)

abbrev pub front : List ℕ → ℕ → ℕ
front [] b = b
front (x ∷ xs) b = x

abbrev pub Tail : Store → List ℕ → ℕ → Type 0
Tail m [] b = Unit {0}
Tail m (x ∷ xs) b = IsChain m x xs b

pub IsChain-split :
    (m : Store) (a : ℕ) (ys ws : List ℕ) (b : ℕ)
    → IsChain m a (ys ++ ws) b
    → IsChain m a ys (front ws b) × Tail m ws b
IsChain-split m a [] [] b h = (h, tt)
IsChain-split m a [] (w ∷ ws) b h = ((h.0, h.1), h.2)
IsChain-split m a (y ∷ ys) ws b h = let r = IsChain-split m y ys ws b h.2 in ((h.0, h.1, r.0), r.1)

pub IsChain-join :
    (m : Store) (a : ℕ) (ys ws : List ℕ) (b : ℕ)
    → IsChain m a ys (front ws b)
    → Tail m ws b
    → IsChain m a (ys ++ ws) b
IsChain-join m a [] [] b h k = h
IsChain-join m a [] (w ∷ ws) b h k = (h.0, h.1, k)
IsChain-join m a (y ∷ ys) ws b h k = (h.0, h.1, IsChain-join m y ys ws b h.2 k)

-- The link before `b` is `a` or one of `xs`.
pub chain-prev {ℓ} :
    (P : ℕ → Type ℓ) (m : Store) (a : ℕ) (xs : List ℕ) (b : ℕ)
    → IsChain m a xs b
    → All P (a ∷ xs)
    → P (m.prev b)
chain-prev P m a [] b h k = rw h.1 k.0
chain-prev P m a (x ∷ xs) b h k = chain-prev P m x xs b h.2 k.1

-- A splice changes `next` at `e` and `p`, and `prev` at `e` and `c`.
module _ (m m' : Store) (e p c : ℕ) (same_next : (x : ℕ) → x ≢ e → x ≢ p → m'.next x ≡ m.next x)
    (same_prev : (x : ℕ) → x ≢ e → x ≢ c → m'.prev x ≡ m.prev x) where
  pub IsChain-frame :
      (a : ℕ) (xs : List ℕ) (b : ℕ)
      → IsChain m a xs b
      → All (λ x. (x ≢ e) × (x ≢ p)) (a ∷ xs)
      → All (λ x. (x ≢ e) × (x ≢ c)) xs
      → b ≢ e
      → b ≢ c
      → IsChain m' a xs b
  IsChain-frame a [] b h k l u v = (same_next a k.0.0 k.0.1 ∙ h.0, same_prev b u v ∙ h.1)
  IsChain-frame a (x ∷ xs) b h k l u v = (
    same_next a k.0.0 k.0.1 ∙ h.0,
    same_prev x l.0.0 l.0.1 ∙ h.1,
    IsChain-frame x xs b h.2 k.1 l.1 u v,
  )

  -- A chain that ended at `d`, whose last link is `p`, now ends at `t`.
  pub IsChain-retarget :
      (a : ℕ) (xs : List ℕ) (d t : ℕ)
      → IsChain m a xs d
      → m.prev d ≡ p
      → m'.next p ≡ t
      → m'.prev t ≡ p
      → IsDistinct (a ∷ xs)
      → All (λ x. x ≢ e) (a ∷ xs)
      → All (λ x. x ≢ c) xs
      → IsChain m' a xs t
  IsChain-retarget a [] d t h q n v dist k l = let i : a ≡ p = cc in (rw i n, rw i v)
  IsChain-retarget a (x ∷ xs) d t h q n v dist k l =
      let far : a ≢ p = λ i. chain-prev (λ y. a ≢ y) m x xs d h.2 dist.0 (i ∙ sym q) in
      (
        same_next a k.0 far ∙ h.0,
        same_prev x k.1.0 l.0 ∙ h.1,
        IsChain-retarget x xs d t h.2 q n v dist.1 k.1 l.1,
      )

-- The walk of `queue_add` stops in front of the first link whose priority is not smaller.
pub walk-splits :
    (key : ℕ → ℕ) (fuel head elem : ℕ) (m : Store) (a : ℕ) (zs : List ℕ)
    → IsChain m a zs head
    → Fresh head zs
    → length zs < fuel
    → (ys ws : List ℕ) × (zs ≡ ys ++ ws)
      × (queue_add key elem zs ≡ ys ++ elem ∷ ws)
      × (walk key fuel head elem (m.next a) m ≡ some (front ws head))
unfolding walk queue_add
walk-splits key zero head elem m a zs h f lt = absurd (omega arith)
walk-splits key (suc fuel) head elem m a [] h f lt = ([], [], refl, refl, ground arith)
walk-splits key (suc fuel) head elem m a (x ∷ xs) h f lt =
    elim (Bool-cases (ltb (key x) (key elem))) [
      | inl t ↦
          let r = walk-splits key fuel head elem m x xs h.2 f.1 (omega arith) in
          (x ∷ r.0, r.1, ground arith, ground arith, ground (arith, r.3))
      | inr f' ↦ ([], x ∷ xs, refl, ground arith, ground arith)
    ]
