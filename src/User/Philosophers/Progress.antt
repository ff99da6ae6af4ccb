-- ===== src/User/Philosophers/Progress.antt =====
-- The runs of the philosophers cannot get stuck, and end.
use kernel_genesis_os.Base.{
  ℕ, zero, suc, ◌+◌, ◌-◌, ◌%◌, ◌≤◌, ◌<◌, ◌≡◌, ◌⊎◌, Bool, true, false, ltb, ◌==◌, arith, refl, ap,
  Bool-cases, inl, inr,
}
use kernel_genesis_os.User.Philosophers.Forks.{left, right}
use kernel_genesis_os.User.Philosophers.Invariant.{role, inside, crowd, steps, remaining, IsTable}
use kernel_genesis_os.User.Philosophers.{
  Place, dehors, dedans, attend, rendu, Table, Step, enters, works, takes, Reach, nr_philo,
}
use kernel_genesis_os.User.Philosophers.Run.{Reach-IsTable, Reach-remaining, Step-remaining}

-- Whether a philosopher can do a step.
abbrev ready : Table → ℕ → Place → Bool
ready t i (dehors p) = ltb 0 t.mutex_philo
ready t i (dedans p) = true
ready t i attend = ltb 0 (t.s i)
ready t i rendu = false

ready-Step :
    (t : Table) (i : ℕ) (p : Place)
    → i < nr_philo
    → t.place i ≡ p
    → ready t i p ≡ true
    → (u : Table) × Step t u
ready-Step t i (dehors p) lt e h = (_, enters i (t.mutex_philo - 1) p lt e (ground arith))
ready-Step t i (dedans p) lt e h = (_, works i p lt e)
ready-Step t i attend lt e h = (_, takes i (t.s i - 1) lt e (ground arith))
ready-Step t i rendu lt e h = absurd (ground arith)

-- If nobody can do a step, nobody is in a section or before one.
stuck-role :
    (t : Table) (p : Place) (i : ℕ)
    → ready t i p ≡ false
    → 0 < t.mutex_philo
    → (p ≡ rendu) ⊎ ((p ≡ attend) × (t.s i ≡ 0))
stuck-role t (dehors p) i h m = absurd (ground arith)
stuck-role t (dedans p) i h m = absurd (ground arith)
stuck-role t attend i h m = inr (refl, ground arith)
stuck-role t rendu i h m = inl refl

stuck-inside : (t : Table) (p : Place) (i : ℕ) → ready t i p ≡ false → inside p ≡ 0
stuck-inside t (dehors p) i h = refl
stuck-inside t (dedans p) i h = absurd (ground arith)
stuck-inside t attend i h = refl
stuck-inside t rendu i h = refl

stuck-mutex :
    (t : Table) → IsTable t → ((i : ℕ) → i < 5 → ready t i (t.place i) ≡ false) → 0 < t.mutex_philo
unfolding crowd
stuck-mutex t h s =
    let z = λ (i : ℕ) (l : i < 5). stuck-inside t (t.place i) i (s i l) in
    omega (
      arith,
      h.mutex,
      z 0 (omega arith),
      z 1 (omega arith),
      z 2 (omega arith),
      z 3 (omega arith),
      z 4 (omega arith),
    )

-- Who holds no fork.
stuck-left :
    (t : Table) (p : Place) (i : ℕ)
    → ready t i p ≡ false
    → 0 < t.mutex_philo
    → (left (role p) (t.s i) ≡ false) × (right (role p) (t.s i) ≡ false)
stuck-left t p i h m = elim (stuck-role t p i h m) [
  | inl e ↦ (rw e refl, rw e refl)
  | inr (e, z) ↦ (rw (e, z) refl, rw (e, z) refl)
]

stuck-rendu :
    (t : Table)
    → IsTable t
    → ((i : ℕ) → i < 5 → ready t i (t.place i) ≡ false)
    → (i : ℕ) → i < 5
    → t.place i ≡ rendu
stuck-rendu t h s i lt =
    let m = stuck-mutex t h s in
    let free : (j : ℕ) → j < 5 → t.f j ≡ false = λ j l.
      let a = (stuck-left t (t.place j) j (s j l) m).0 in
      let g : (j + 4) % 5 < 5 = omega arith in
      let b = (stuck-left t (t.place ((j + 4) % 5)) ((j + 4) % 5) (s ((j + 4) % 5) g) m).1 in
      ground (arith, h.served.forks j l, a, b) in
    elim (stuck-role t (t.place i) i (s i lt) m) [
      | inl e ↦ e
      | inr (e, z) ↦
          let g : (i + 1) % 5 < 5 = omega arith in
          let b : t.bloque i ≡ true = ground (arith, h.served.blocked i lt, e, z) in
          let o = h.served.short i lt b in
          absurd (ground (arith, o, free i lt, free ((i + 1) % 5) g))
    ]

find_ready :
    (t : Table) (n : ℕ)
    → n ≤ 5
    → ((u : Table) × Step t u) ⊎ ((i : ℕ) → i < n → ready t i (t.place i) ≡ false)
find_ready t zero l = inr (λ i h. absurd (omega arith))
find_ready t (suc n) l = elim (Bool-cases (ready t n (t.place n))) [
  | inl y ↦ inl (ready-Step t n (t.place n) (omega arith) refl y)
  | inr no_one ↦ elim (find_ready t n (omega arith)) [
    | inl u ↦ inl u
    | inr all ↦ inr (λ i h. elim (Bool-cases (i == n)) [
      | inl e ↦ let g : i ≡ n = ground arith in rw g no_one
      | inr e ↦ all i (ground arith)
    ])
  ]
]

all_rendu : (t : Table) → ((i : ℕ) → i < 5 → t.place i ≡ rendu) → remaining t.place t.k ≡ 0
unfolding remaining
all_rendu t h =
    let e : (i : ℕ) → i < 5 → steps (t.place i) (t.k i) ≡ 0 =
      λ i l. ap (λ p. steps p (t.k i)) (h i l) in
    omega (
      arith,
      e 0 (omega arith),
      e 1 (omega arith),
      e 2 (omega arith),
      e 3 (omega arith),
      e 4 (omega arith),
    )

-- In every run of the five philosophers, whatever order they do their steps in, somebody can do a
-- step as long as less than 430 steps are done, and after 430 steps all five have returned.
pub Reach-ends :
    {n : ℕ} {t : Table}
    → Reach n t
    → ((n < 430) × (u : Table) × Step t u)
      ⊎ ((n ≡ 430) × ((i : ℕ) → i < nr_philo → t.place i ≡ rendu))
Reach-ends {n} {t} r =
    let h = Reach-IsTable r in
    let s = Reach-remaining r in
    elim (find_ready t 5 (omega arith)) [
      | inl (u, e) ↦ inl (omega (arith, s, Step-remaining e h), u, e)
      | inr all ↦ let x = stuck-rendu t h all in inr (omega (arith, s, all_rendu t x), x)
    ]
