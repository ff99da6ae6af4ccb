-- ===== src/User/Philosophers.antt =====
-- The dining philosophers of user/test_semaphore.c: five processes, five forks, a semaphore for
-- mutual exclusion and one for each philosopher.
--
-- A philosopher is a place in its program. A section between `wait(mutex_philo)` and
-- `signal(mutex_philo)` is a step, and that of poser_fourchettes is two; in between, the others run in
-- any order. A semaphore is the number of processes that it still lets pass. The empty loops of
-- waitloop and the line that affiche_etat prints are left aside.
pub mod Forks
pub mod Invariant
pub mod LeftFork
pub mod Progress
pub mod RightFork
pub mod Run
pub mod Sections
use kernel_genesis_os.Base.{
  ℕ, zero, suc, ◌+◌, ◌%◌, ◌<◌, ◌≡◌, Bool, true, false, ◌&&◌, not, ltb, if◌then◌else◌, update,
}

-- NR_PHILO
abbrev pub nr_philo : ℕ
nr_philo = 5

-- `(i + NR_PHILO - 1) % NR_PHILO` and `(i + 1) % NR_PHILO`
abbrev pub gauche : ℕ → ℕ
gauche i = (i + 4) % 5

abbrev pub droite : ℕ → ℕ
droite i = (i + 1) % 5

-- The sections: `manger` and `penser` have two each, and `poser_droite` is the second half of
-- poser_fourchettes.
pub data Section : Type 0 where
  prendre : Section
  manger : Section
  manger_fin : Section
  poser : Section
  poser_droite : Section
  penser : Section
  penser_fin : Section
  finir : Section

-- A philosopher is about to wait for the mutex, is in a section, is about to wait for its forks, or
-- has returned.
pub data Place : Type 0 where
  dehors : Section → Place
  dedans : Section → Place
  attend : Place
  rendu : Place

-- `f`, `bloque`, `s`, `mutex_philo`, `etat`, and the loop counter `k` and the place of each.
pub record Table : Type 0 where
  pub f : ℕ → Bool
  pub bloque : ℕ → Bool
  pub s : ℕ → ℕ
  pub mutex_philo : ℕ
  pub etat : ℕ → ℕ
  pub k : ℕ → ℕ
  pub place : ℕ → Place

-- The start of test200.
abbrev pub test200 : Table
test200 = record {
  f = λ _. false;
  bloque = λ _. false;
  s = λ _. 0;
  mutex_philo = 1;
  etat = λ _. b'-';
  k = λ _. 0;
  place = λ _. dehors prendre;
}

-- signal(s[i])
abbrev pub give : ℕ → Table → Table
give i t = record t { s = update t.s i (t.s i + 1) }

-- test
unfoldable pub test : ℕ → Table → Bool
test i t = not (t.f i) && not (t.f (droite i))

-- prendre_fourchettes, in the section
unfoldable pub prendre_fourchettes : ℕ → Table → Table
unfolding test
prendre_fourchettes i t =
    if test i t
    then give i (record t { f = update (update t.f i true) (droite i) true })
    else record t { bloque = update t.bloque i true }

-- poser_fourchettes: the fork on the left, and then the one on the right
unfoldable pub poser_gauche : ℕ → Table → Table
poser_gauche i t =
    if t.bloque (gauche i) && not (t.f (gauche i))
    then give (gauche i)
        (record t { f = update t.f (gauche i) true; bloque = update t.bloque (gauche i) false })
    else record t { f = update t.f i false }

unfoldable pub poser_fourche_droite : ℕ → Table → Table
poser_fourche_droite i t =
    if t.bloque (droite i) && not (t.f ((i + 2) % 5))
    then give (droite i)
        (record t { f = update t.f ((i + 2) % 5) true; bloque = update t.bloque (droite i) false })
    else record t { f = update t.f (droite i) false }

-- What a section does with `etat[i]`.
abbrev marks : ℕ → ℕ → Table → Table
marks i c t = record t { etat = update t.etat i c }

-- The sections of the functions of a philosopher.
unfoldable pub corps : Section → ℕ → Table → Table
corps prendre i t = prendre_fourchettes i t
corps manger i t = marks i b'm' t
corps manger_fin i t = marks i b'-' t
corps poser i t = poser_gauche i t
corps poser_droite i t = poser_fourche_droite i t
corps penser i t = marks i b'p' t
corps penser_fin i t = record (marks i b'-' t) { k = update t.k i (t.k i + 1) }
corps finir i t = marks i b'-' t

-- Where philosophe goes on, with `k` rounds behind it.
unfoldable pub suite : Section → ℕ → Place
suite prendre k = attend
suite manger k = dehors manger_fin
suite manger_fin k = dehors poser
suite poser k = dedans poser_droite
suite poser_droite k = dehors penser
suite penser k = dehors penser_fin
suite penser_fin k = if ltb k 6 then dehors prendre else dehors finir
suite finir k = rendu

-- signal(mutex_philo), at the end of a section
unfoldable pub leaves : Section → ℕ → ℕ
leaves poser n = n
leaves p n = n + 1

abbrev pub moves : ℕ → Place → Table → Table
moves i p t = record t { place = update t.place i p }

-- A section as a whole, with what follows.
unfoldable pub execute : Section → ℕ → Table → Table
unfolding corps suite leaves
execute p i t =
    let u : Table = corps p i t in
    record (moves i (suite p (u.k i)) u) { mutex_philo = leaves p u.mutex_philo }

-- One philosopher does a step.
pub data Step : Table → Table → Type 0 where
  enters :
      {t : Table} (i n : ℕ) (p : Section)
      → i < nr_philo
      → t.place i ≡ dehors p
      → t.mutex_philo ≡ suc n
      → Step t (record (moves i (dedans p) t) { mutex_philo = n })
  works :
      {t : Table} (i : ℕ) (p : Section)
      → i < nr_philo
      → t.place i ≡ dedans p
      → Step t (execute p i t)
  takes :
      {t : Table} (i n : ℕ)
      → i < nr_philo
      → t.place i ≡ attend
      → t.s i ≡ suc n
      → Step t (record (moves i (dehors manger) t) { s = update t.s i n })

-- What test200 can lead to in `n` steps.
pub data Reach : ℕ → Table → Type 0 where
  start : Reach 0 test200
  next : {n : ℕ} {t u : Table} → Reach n t → Step t u → Reach (suc n) u
