-- ===== src/User/Philosophers/Invariant.antt =====
-- What holds of the table of the philosophers, whoever does the next step.
use kernel_genesis_os.Base.{
  ℕ, ◌+◌, ◌-◌, ◌*◌, ◌%◌, ◌<◌, ◌≡◌, Bool, true, false, ◌&&◌, not, ◌==◌, update, arith, Bool-cases,
  inl, inr,
}
use kernel_genesis_os.User.Philosophers.Forks.{
  Role, rien, demande, tient, moitie, IsServed, served-same, served-takes, served-waits,
}
use kernel_genesis_os.User.Philosophers.LeftFork.{served-left_given, served-left_free}
use kernel_genesis_os.User.Philosophers.RightFork.{served-right_given, served-right_free}
use kernel_genesis_os.User.Philosophers.{
  Section, prendre, manger, manger_fin, poser, poser_droite, penser, penser_fin, finir, Place,
  dehors, dedans, attend, rendu, Table, execute, corps, suite, prendre_fourchettes, test,
  poser_gauche, poser_fourche_droite,
}

-- The forks of a philosopher before and in a section.
abbrev pub section_role : Section → Role
section_role manger = tient
section_role manger_fin = tient
section_role poser = tient
section_role poser_droite = moitie
section_role _ = rien

abbrev pub role : Place → Role
role (dehors p) = section_role p
role (dedans p) = section_role p
role attend = demande
role rendu = rien

-- Whether a philosopher is in a section, as a number.
abbrev pub inside : Place → ℕ
inside (dedans p) = 1
inside _ = 0

unfoldable pub crowd : (ℕ → Place) → ℕ
crowd q = inside (q 0) + inside (q 1) + inside (q 2) + inside (q 3) + inside (q 4)

-- Whether `etat` says that a philosopher eats.
abbrev pub eats : Place → Bool
eats (dehors manger_fin) = true
eats (dedans manger_fin) = true
eats _ = false

-- The steps to the end of a round.
abbrev pub to_go : Section → ℕ
to_go prendre = 13
to_go manger = 10
to_go manger_fin = 8
to_go poser = 6
to_go poser_droite = 5
to_go penser = 3
to_go penser_fin = 1
to_go finir = 1

abbrev pub rounds : Section → ℕ → ℕ
rounds finir k = 0
rounds p k = (5 - k) * 14 + 2

-- The steps that a philosopher has left, in round `k`.
abbrev pub steps : Place → ℕ → ℕ
steps (dehors p) k = to_go p + 1 + rounds p k
steps (dedans p) k = to_go p + rounds p k
steps attend k = 11 + 1 + rounds prendre k
steps rendu k = 0

abbrev pub in_round : Place → Bool
in_round (dehors finir) = false
in_round (dedans finir) = false
in_round rendu = false
in_round _ = true

unfoldable pub remaining : (ℕ → Place) → (ℕ → ℕ) → ℕ
remaining q k =
    steps (q 0) (k 0)
    + steps (q 1) (k 1)
    + steps (q 2) (k 2)
    + steps (q 3) (k 3)
    + steps (q 4) (k 4)

pub record IsTable (t : Table) : Type 0 where
  pub served : IsServed t.f t.bloque t.s (λ j. role (t.place j))
  pub mutex : t.mutex_philo + crowd t.place ≡ 1
  pub shown : (j : ℕ) → j < 5 → (t.etat j == b'm') ≡ eats (t.place j)
  pub counted : (j : ℕ) → j < 5 → in_round (t.place j) ≡ true → t.k j < 6

pub crowd-update :
    (q : ℕ → Place) (i : ℕ) (p : Place)
    → i < 5
    → crowd (update q i p) + inside (q i) ≡ crowd q + inside p
unfolding crowd
crowd-update q i p h = ground arith

pub remaining-update :
    (q : ℕ → Place) (k : ℕ → ℕ) (i : ℕ) (p : Place) (n : ℕ)
    → i < 5
    → remaining (update q i p) (update k i n) + steps (q i) (k i) ≡ remaining q k + steps p n
unfolding remaining
remaining-update q k i p n h = ground arith

role-update :
    (q : ℕ → Place) (i : ℕ) (p : Place) (j : ℕ)
    → update (λ j. role (q j)) i (role p) j ≡ role (update q i p j)
role-update q i p j = ground arith

-- A step that leaves the forks and the roles as they are.
pub same_role :
    (t : Table) (i : ℕ) (p : Place)
    → role (t.place i) ≡ role p
    → IsServed t.f t.bloque t.s (λ j. role (t.place j))
    → IsServed t.f t.bloque t.s (λ j. role (update t.place i p j))
same_role t i p e h =
    served-same t.f t.bloque t.s (λ j. role (t.place j)) (λ j. role (update t.place i p j))
      (λ j. ground arith) h

pub new_role :
    (f b : ℕ → Bool) (s : ℕ → ℕ) (q : ℕ → Place) (i : ℕ) (p : Place)
    → IsServed f b s (update (λ j. role (q j)) i (role p))
    → IsServed f b s (λ j. role (update q i p j))
new_role f b s q i p h =
    served-same f b s (update (λ j. role (q j)) i (role p)) (λ j. role (update q i p j))
      (role-update q i p) h

prendre-served :
    (i : ℕ) (t : Table)
    → IsServed t.f t.bloque t.s (λ j. role (t.place j))
    → i < 5
    → t.place i ≡ dedans prendre
    → let u : Table = execute prendre i t in IsServed u.f u.bloque u.s (λ j. role (u.place j))
unfolding execute corps suite prendre_fourchettes test
prendre-served i t h lt e = elim (Bool-cases (not (t.f i) && not (t.f ((i + 1) % 5)))) [
  | inl y ↦ rw y (
      new_role _ _ _ t.place i attend (
        served-takes t.f t.bloque t.s (λ j. role (t.place j)) i h lt (ground arith) (ground arith)
          (ground arith)))
  | inr n ↦ rw n (
      new_role _ _ _ t.place i attend
        (served-waits t.f t.bloque t.s (λ j. role (t.place j)) i h lt (ground arith) n))
]

poser-served :
    (i : ℕ) (t : Table)
    → IsServed t.f t.bloque t.s (λ j. role (t.place j))
    → i < 5
    → t.place i ≡ dedans poser
    → let u : Table = execute poser i t in IsServed u.f u.bloque u.s (λ j. role (u.place j))
unfolding execute corps suite poser_gauche
poser-served i t h lt e = elim (Bool-cases (t.bloque ((i + 4) % 5) && not (t.f ((i + 4) % 5)))) [
  | inl y ↦ rw y (
      new_role _ _ _ t.place i (dedans poser_droite) (
        served-left_given t.f t.bloque t.s (λ j. role (t.place j)) i h lt (ground arith)
          (ground arith) (ground arith)))
  | inr n ↦ rw n (
      new_role _ _ _ t.place i (dedans poser_droite)
        (served-left_free t.f t.bloque t.s (λ j. role (t.place j)) i h lt (ground arith) n))
]

poser_droite-served :
    (i : ℕ) (t : Table)
    → IsServed t.f t.bloque t.s (λ j. role (t.place j))
    → i < 5
    → t.place i ≡ dedans poser_droite
    → let u : Table = execute poser_droite i t in IsServed u.f u.bloque u.s (λ j. role (u.place j))
unfolding execute corps suite poser_fourche_droite
poser_droite-served i t h lt e =
    elim (Bool-cases (t.bloque ((i + 1) % 5) && not (t.f ((i + 2) % 5)))) [
      | inl y ↦ rw y (
          new_role _ _ _ t.place i (dehors penser) (
            served-right_given t.f t.bloque t.s (λ j. role (t.place j)) i h lt (ground arith)
              (ground arith) (ground arith)))
      | inr n ↦ rw n (
          new_role _ _ _ t.place i (dehors penser)
            (served-right_free t.f t.bloque t.s (λ j. role (t.place j)) i h lt (ground arith) n))
    ]

pub execute-served :
    (p : Section) (i : ℕ) (t : Table)
    → IsServed t.f t.bloque t.s (λ j. role (t.place j))
    → i < 5
    → t.place i ≡ dedans p
    → let u : Table = execute p i t in IsServed u.f u.bloque u.s (λ j. role (u.place j))
unfolding execute corps suite
execute-served prendre i t h lt e = prendre-served i t h lt e
execute-served manger i t h lt e = same_role t i (dehors manger_fin) (ground arith) h
execute-served manger_fin i t h lt e = same_role t i (dehors poser) (ground arith) h
execute-served poser i t h lt e = poser-served i t h lt e
execute-served poser_droite i t h lt e = poser_droite-served i t h lt e
execute-served penser i t h lt e = same_role t i (dehors penser_fin) (ground arith) h
execute-served penser_fin i t h lt e =
    same_role t i (suite penser_fin (update t.k i (t.k i + 1) i)) (ground arith) h
execute-served finir i t h lt e = same_role t i rendu (ground arith) h

pub remaining-moves :
    (q : ℕ → Place) (k : ℕ → ℕ) (i : ℕ) (p : Place)
    → i < 5
    → remaining (update q i p) k + steps (q i) (k i) ≡ remaining q k + steps p (k i)
unfolding remaining
remaining-moves q k i p h = ground arith
