-- ===== src/Queue/Order.antt =====
-- The order of a queue: ascending priorities, and first in, first out among equal ones.
use kernel_genesis_os.Base.{
  ℕ, ◌+◌, ◌≤◌, ◌<◌, ◌≡◌, refl, ◌⊎◌, ◌≢◌, subst, inl, inr, none, some, List, [], ◌∷◌, ◌++◌, arith,
  ltb, ◌==◌, if◌then◌else◌, All, length, Bool-cases, tests, append-nil,
}
use kernel_genesis_os.Queue.{queue_add, queue_out, queue_top}

module _ {ℓ} {A : Type ℓ} where
  pub All-mono {κ} :
      {P Q : A → Type κ} → ((a : A) → P a → Q a) → (xs : List A) → All P xs → All Q xs
  All-mono f [] h = tt
  All-mono f (x ∷ xs) h = (f x h.0, All-mono f xs h.1)

  -- What `queue_out` takes is the last element.
  pub queue_out-append : (ys : List A) (y : A) → queue_out (ys ++ y ∷ []) ≡ some (y, ys)
  unfolding queue_out
  queue_out-append [] y = refl
  queue_out-append (x ∷ ys) y = rw (queue_out-append ys y)

  pub last-cases : (xs : List A) → (xs ≡ []) ⊎ ((ys : List A) × (y : A) × (xs ≡ ys ++ y ∷ []))
  last-cases [] = inl refl
  last-cases (x ∷ xs) = elim (last-cases xs) [
    | inl e ↦ inr ([], x, rw e)
    | inr (ys, y, e) ↦ inr (x ∷ ys, y, rw e)
  ]

  pub queue_out-last :
      (xs : List A) {y : A} {ys : List A} → queue_out xs ≡ some (y, ys) → xs ≡ ys ++ y ∷ []
  unfolding queue_out
  queue_out-last xs {y} {ys} e = elim (last-cases xs) [
    | inl n ↦ cc (rw n at e)
    | inr (zs, z, h) ↦ cc (queue_out-append zs z)
  ]

  -- `queue_out` gives the null pointer on the empty queue, and only there.
  pub queue_out-none : (xs : List A) → queue_out xs ≡ none → xs ≡ []
  queue_out-none xs e = elim (last-cases xs) [
    | inl n ↦ n
    | inr (zs, z, h) ↦ cc (queue_out-append zs z)
  ]

  -- `queue_top` gives what `queue_out` would take.
  pub queue_top-append : (ys : List A) (y : A) → queue_top (ys ++ y ∷ []) ≡ some y
  unfolding queue_top
  queue_top-append [] y = refl
  queue_top-append (x ∷ []) y = refl
  queue_top-append (x ∷ z ∷ ys) y = queue_top-append (z ∷ ys) y

  pub All-split {κ} : (P : A → Type κ) (xs ys : List A) → All P (xs ++ ys) → All P xs × All P ys
  All-split P [] ys h = (tt, h)
  All-split P (x ∷ xs) ys h = let r = All-split P xs ys h.1 in ((h.0, r.0), r.1)

  pub All-append {κ} : (P : A → Type κ) (xs ys : List A) → All P xs → All P ys → All P (xs ++ ys)
  All-append P [] ys h k = k
  All-append P (x ∷ xs) ys h k = (h.0, All-append P xs ys h.1 k)

  pub All-queue_add {κ} :
      (P : A → Type κ) (key : A → ℕ) (x : A) (xs : List A)
      → P x
      → All P xs
      → All P (queue_add key x xs)
  unfolding queue_add
  All-queue_add P key x [] h k = (h, tt)
  All-queue_add P key x (y ∷ ys) h k = elim (Bool-cases (ltb (key y) (key x))) [
    | inl t ↦ rw t (k.0, All-queue_add P key x ys h k.1)
    | inr f ↦ rw f (h, k)
  ]

  pub length-queue_add :
      (key : A → ℕ) (x : A) (xs : List A) → length (queue_add key x xs) ≡ length xs + 1
  unfolding queue_add
  length-queue_add key x [] = omega arith
  length-queue_add key x (y ∷ ys) = ground (arith, length-queue_add key x ys)

module _ {ℓ} {A : Type ℓ} (key : A → ℕ) where
  -- The priorities ascend from the front to the back.
  abbrev pub IsSorted : List A → Type 0
  IsSorted [] = Unit {0}
  IsSorted (x ∷ xs) = All (λ y. key x ≤ key y) xs × IsSorted xs

  pub queue_add-IsSorted : (x : A) (xs : List A) → IsSorted xs → IsSorted (queue_add key x xs)
  unfolding queue_add
  queue_add-IsSorted x [] s = (tt, tt)
  queue_add-IsSorted x (y ∷ ys) s = elim (Bool-cases (ltb (key y) (key x))) [
    | inl t ↦ rw t (All-queue_add _ key x ys (omega (tests, t)) s.0, queue_add-IsSorted x ys s.1)
    | inr f ↦
        let le : key x ≤ key y = ground arith in
        rw f ((le, All-mono (λ a h. omega (arith, h)) ys s.0), s)
  ]

  pub IsSorted-append :
      (ys : List A) (y : A) → IsSorted (ys ++ y ∷ []) → IsSorted ys × All (λ z. key z ≤ key y) ys
  IsSorted-append [] y s = (tt, tt)
  IsSorted-append (x ∷ ys) y s =
      let r = IsSorted-append ys y s.1 in
      let m = All-split _ ys (y ∷ []) s.0 in ((m.0, r.0), (m.1.0, r.1))

  -- The element that queue_out takes from a queue in order has a priority that no other exceeds,
  -- and the rest stays in order.
  pub queue_out-highest :
      (xs : List A) {y : A} {ys : List A}
      → IsSorted xs
      → queue_out xs ≡ some (y, ys)
      → IsSorted ys × All (λ z. key z ≤ key y) ys
  queue_out-highest xs {y} {ys} s e = IsSorted-append ys y (subst IsSorted (queue_out-last xs e) s)

  -- The elements of one priority, from the front to the back.
  unfoldable pub of_key : ℕ → List A → List A
  of_key k [] = []
  of_key k (x ∷ xs) = if key x == k then x ∷ of_key k xs else of_key k xs

  of_key_above : (k : ℕ) (xs : List A) → All (λ y. k < key y) xs → of_key k xs ≡ []
  unfolding of_key
  of_key_above k [] h = refl
  of_key_above k (x ∷ xs) h = ground (arith, of_key_above k xs h.1)

  -- What a queue holds of one priority, after an element was added, is what it held before, with
  -- the element behind all of them if it has that priority.
  pub of_key-queue_add :
      (k : ℕ) (x : A) (xs : List A)
      → of_key k (queue_add key x xs) ≡ (if key x == k then x ∷ of_key k xs else of_key k xs)
  unfolding of_key queue_add
  of_key-queue_add k x [] = refl
  of_key-queue_add k x (y ∷ ys) = ground (arith, of_key-queue_add k x ys)

  pub of_key-append : (k : ℕ) (xs ys : List A) → of_key k (xs ++ ys) ≡ of_key k xs ++ of_key k ys
  unfolding of_key
  of_key-append k [] ys = refl
  of_key-append k (x ∷ xs) ys = ground (arith, of_key-append k xs ys)

  -- The element that queue_out takes is the oldest of its priority, and the elements of every other
  -- priority stay as they are.
  pub queue_out-oldest :
      (xs : List A) {y : A} {ys : List A}
      → queue_out xs ≡ some (y, ys)
      → (of_key (key y) xs ≡ of_key (key y) ys ++ y ∷ [])
        × ((k : ℕ) → k ≢ key y → of_key k xs ≡ of_key k ys)
  unfolding of_key
  queue_out-oldest xs {y} {ys} e = (
    rw (queue_out-last xs e) (ground (arith, of_key-append (key y) ys (y ∷ []))),
    λ k ne.
        rw (queue_out-last xs e)
          (ground (arith, of_key-append k ys (y ∷ []), append-nil (of_key k ys))),
  )
