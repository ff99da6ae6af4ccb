-- ===== src/User/Philosophers/Run.antt =====
-- The runs of the philosophers: what holds in each, and how long they go on.
use kernel_genesis_os.Base.{ℕ, ◌+◌, ◌%◌, ◌<◌, ◌≡◌, ◌≢◌, true, arith, refl, ap}
use kernel_genesis_os.User.Philosophers.Forks.{tient, served-begins}
use kernel_genesis_os.User.Philosophers.Invariant.{
  role, inside, crowd, eats, steps, in_round, remaining, IsTable, crowd-update, remaining-moves,
  same_role, new_role,
}
use kernel_genesis_os.User.Philosophers.Sections.{execute-IsTable, execute-remaining}
use kernel_genesis_os.User.Philosophers.{
  Section, prendre, manger, manger_fin, poser, poser_droite, penser, penser_fin, finir, Place,
  dehors, dedans, attend, Table, test200, Step, enters, works, takes, Reach, start, next, nr_philo,
  droite,
}

test200-IsTable : IsTable test200
unfolding crowd
test200-IsTable = record {
  served = record {
    forks = λ j l. refl;
    alone = λ j l. refl;
    once = λ j l. omega arith;
    asked = λ j l e. refl;
    blocked = λ j l. refl;
    short = λ j l e. ground arith;
  };
  mutex = refl;
  shown = λ j l. refl;
  counted = λ j l e. omega arith;
}

-- Entering a section changes neither what is shown nor the rounds.
eats-enters : (p : Section) → eats (dehors p) ≡ eats (dedans p)
eats-enters prendre = refl
eats-enters manger = refl
eats-enters manger_fin = refl
eats-enters poser = refl
eats-enters poser_droite = refl
eats-enters penser = refl
eats-enters penser_fin = refl
eats-enters finir = refl

in_round-enters : (p : Section) → in_round (dehors p) ≡ in_round (dedans p)
in_round-enters prendre = refl
in_round-enters manger = refl
in_round-enters manger_fin = refl
in_round-enters poser = refl
in_round-enters poser_droite = refl
in_round-enters penser = refl
in_round-enters penser_fin = refl
in_round-enters finir = refl

steps-enters : (p : Section) (k : ℕ) → steps (dehors p) k ≡ steps (dedans p) k + 1
steps-enters p k = omega arith

pub Step-IsTable : {t u : Table} → Step t u → IsTable t → IsTable u
Step-IsTable (enters {t} i n p lt e m) h = record {
  served = same_role t i (dedans p) (ap role e) h.served;
  mutex =
      let x = crowd-update t.place i (dedans p) lt in
      let y : inside (t.place i) ≡ 0 = ap inside e in omega (arith, h.mutex, x, y, m);
  shown = λ j l. ground (arith, h.shown j l, e, eats-enters p);
  counted = λ j l r. ground (arith, h.counted j l, r, e, in_round-enters p);
}
Step-IsTable (works {t} i p lt e) h = execute-IsTable p i t h lt e
Step-IsTable (takes {t} i n lt e m) h = record {
  served =
      let z : n ≡ 0 = omega (arith, h.served.once i lt, m) in
      let o : 0 < t.s i = omega (arith, m) in
      rw z (
        new_role _ _ _ t.place i (dehors manger)
          (served-begins t.f t.bloque t.s (λ j. role (t.place j)) i h.served lt (ap role e) o));
  mutex =
      let x = crowd-update t.place i (dehors manger) lt in
      let y : inside (t.place i) ≡ 0 = ap inside e in omega (arith, h.mutex, x, y);
  shown = λ j l. ground (arith, h.shown j l, e);
  counted = λ j l r. ground (arith, h.counted j l, e, r);
}

pub Step-remaining :
    {t u : Table} → Step t u → IsTable t → remaining u.place u.k + 1 ≡ remaining t.place t.k
Step-remaining (enters {t} i n p lt e m) h =
    let x = remaining-moves t.place t.k i (dedans p) lt in
    let y : steps (t.place i) (t.k i) ≡ steps (dehors p) (t.k i) = ap (λ p. steps p (t.k i)) e in
    omega (arith, x, y, steps-enters p (t.k i))
Step-remaining (works {t} i p lt e) h = execute-remaining p i t h lt e
Step-remaining (takes {t} i n lt e m) h =
    let x = remaining-moves t.place t.k i (dehors manger) lt in
    let y : steps (t.place i) (t.k i) ≡ steps (attend) (t.k i) = ap (λ p. steps p (t.k i)) e in
    omega (arith, x, y)

-- Every state that can be reached is in order, and the steps behind it and before it are 430.
pub Reach-IsTable : {n : ℕ} {t : Table} → Reach n t → IsTable t
Reach-IsTable start = test200-IsTable
Reach-IsTable (next r e) = Step-IsTable e (Reach-IsTable r)

pub Reach-remaining : {n : ℕ} {t : Table} → Reach n t → n + remaining t.place t.k ≡ 430
unfolding remaining
Reach-remaining start = refl
Reach-remaining (next r e) = omega (arith, Reach-remaining r, Step-remaining e (Reach-IsTable r))

eats-tient : (p : Place) → eats p ≡ true → role p ≡ tient
eats-tient (dehors manger_fin) e = refl
eats-tient (dedans manger_fin) e = refl
eats-tient p e = ground arith

-- In every state that a run of the philosophers can lead to, the neighbour on the right of a
-- philosopher whose entry of `etat` says that it eats has another entry, and both forks of the one
-- who eats are taken.
pub Reach-exclusive :
    {n : ℕ} {t : Table} (i : ℕ)
    → Reach n t
    → i < nr_philo
    → t.etat i ≡ b'm'
    → (t.etat (droite i) ≢ b'm') × (t.f i ≡ true) × (t.f (droite i) ≡ true)
Reach-exclusive {n} {t} i r lt e =
    let h = Reach-IsTable r in
    let d : ℕ = (i + 1) % 5 in
    let ld : d < 5 = omega arith in
    let b : (d + 4) % 5 ≡ i = omega arith in
    let x : role (t.place i) ≡ tient = eats-tient (t.place i) (ground (arith, h.shown i lt)) in
    let fd = h.served.forks d ld in
    let ad = h.served.alone d ld in
    (
      λ q.
          let y : role (t.place d) ≡ tient =
            eats-tient (t.place d) (ground (arith, h.shown d ld)) in
          ground (arith, ad, b, x, y),
      ground (arith, h.served.forks i lt, x),
      ground (arith, fd, b, x),
    )
