-- ===== src/User/Philosophers/Sections.antt =====
-- A section of a philosopher keeps the invariant of the table.
use mathlib.Core.Path.{fun_ext}
use kernel_genesis_os.Base.{ap, ◌∙◌, ℕ, ◌+◌, ◌<◌, ◌≡◌, true, ◌==◌, update, arith, refl}
use kernel_genesis_os.User.Philosophers.Invariant.{
  inside, eats, steps, in_round, remaining, IsTable, crowd-update, remaining-update, execute-served,
}
use kernel_genesis_os.User.Philosophers.{
  Section, prendre, manger, manger_fin, poser, poser_droite, penser, penser_fin, finir, Place,
  dedans, Table, execute, corps, suite, leaves, prendre_fourchettes, poser_gauche,
  poser_fourche_droite,
}

-- The round and the entry of `etat` after a section.
abbrev turn : Section → ℕ → ℕ
turn penser_fin k = k + 1
turn _ k = k

abbrev mark : Section → ℕ → ℕ
mark manger c = b'm'
mark manger_fin c = b'-'
mark penser c = b'p'
mark penser_fin c = b'-'
mark finir c = b'-'
mark _ c = c

corps-place : (p : Section) (i : ℕ) (t : Table) → (corps p i t).place ≡ t.place
unfolding corps prendre_fourchettes poser_gauche poser_fourche_droite
corps-place prendre i t = ground arith
corps-place manger i t = ground arith
corps-place manger_fin i t = ground arith
corps-place poser i t = ground arith
corps-place poser_droite i t = ground arith
corps-place penser i t = ground arith
corps-place penser_fin i t = ground arith
corps-place finir i t = ground arith

corps-mutex : (p : Section) (i : ℕ) (t : Table) → (corps p i t).mutex_philo ≡ t.mutex_philo
unfolding corps prendre_fourchettes poser_gauche poser_fourche_droite
corps-mutex prendre i t = ground arith
corps-mutex manger i t = ground arith
corps-mutex manger_fin i t = ground arith
corps-mutex poser i t = ground arith
corps-mutex poser_droite i t = ground arith
corps-mutex penser i t = ground arith
corps-mutex penser_fin i t = ground arith
corps-mutex finir i t = ground arith

corps-k : (p : Section) (i j : ℕ) (t : Table) → (corps p i t).k j ≡ update t.k i (turn p (t.k i)) j
unfolding corps prendre_fourchettes poser_gauche poser_fourche_droite
corps-k prendre i j t = ground arith
corps-k manger i j t = ground arith
corps-k manger_fin i j t = ground arith
corps-k poser i j t = ground arith
corps-k poser_droite i j t = ground arith
corps-k penser i j t = ground arith
corps-k penser_fin i j t = ground arith
corps-k finir i j t = ground arith

corps-etat :
    (p : Section) (i j : ℕ) (t : Table)
    → (corps p i t).etat j ≡ update t.etat i (mark p (t.etat i)) j
unfolding corps prendre_fourchettes poser_gauche poser_fourche_droite
corps-etat prendre i j t = ground arith
corps-etat manger i j t = ground arith
corps-etat manger_fin i j t = ground arith
corps-etat poser i j t = ground arith
corps-etat poser_droite i j t = ground arith
corps-etat penser i j t = ground arith
corps-etat penser_fin i j t = ground arith
corps-etat finir i j t = ground arith

-- Where a philosopher goes on behind a section.
abbrev onward : Section → ℕ → Place
onward p k = suite p (turn p k)

execute-place :
    (p : Section) (i : ℕ) (t : Table) → (execute p i t).place ≡ update t.place i (onward p (t.k i))
unfolding execute
execute-place p i t = rw (corps-place p i t, corps-k p i i t) (ground arith)

onward-inside : (p : Section) (k n : ℕ) → inside (onward p k) + leaves p n ≡ n + 1
unfolding suite leaves
onward-inside prendre k n = ground arith
onward-inside manger k n = ground arith
onward-inside manger_fin k n = ground arith
onward-inside poser k n = ground arith
onward-inside poser_droite k n = ground arith
onward-inside penser k n = ground arith
onward-inside penser_fin k n = ground arith
onward-inside finir k n = ground arith

onward-eats :
    (p : Section) (k c : ℕ) → (c == b'm') ≡ eats (dedans p) → (mark p c == b'm') ≡ eats (onward p k)
unfolding suite leaves
onward-eats prendre k c e = ground arith
onward-eats manger k c e = ground arith
onward-eats manger_fin k c e = ground arith
onward-eats poser k c e = ground arith
onward-eats poser_droite k c e = ground arith
onward-eats penser k c e = ground arith
onward-eats penser_fin k c e = ground arith
onward-eats finir k c e = ground arith

onward-counted :
    (p : Section) (k : ℕ)
    → (in_round (dedans p) ≡ true → k < 6)
    → in_round (onward p k) ≡ true
    → turn p k < 6
unfolding suite leaves
onward-counted prendre k h e = ground (arith, h)
onward-counted manger k h e = ground (arith, h)
onward-counted manger_fin k h e = ground (arith, h)
onward-counted poser k h e = ground (arith, h)
onward-counted poser_droite k h e = ground (arith, h)
onward-counted penser k h e = ground (arith, h)
onward-counted penser_fin k h e = ground (arith, h)
onward-counted finir k h e = ground (arith, h)

onward-steps :
    (p : Section) (k : ℕ)
    → (in_round (dedans p) ≡ true → k < 6)
    → steps (onward p k) (turn p k) + 1 ≡ steps (dedans p) k
unfolding suite leaves
onward-steps prendre k h = ground (arith, h)
onward-steps manger k h = ground (arith, h)
onward-steps manger_fin k h = ground (arith, h)
onward-steps poser k h = ground (arith, h)
onward-steps poser_droite k h = ground (arith, h)
onward-steps penser k h = ground (arith, h)
onward-steps penser_fin k h = ground (arith, h)
onward-steps finir k h = ground (arith, h)

execute-mutex :
    (p : Section) (i : ℕ) (t : Table) → (execute p i t).mutex_philo ≡ leaves p t.mutex_philo
unfolding execute
execute-mutex p i t = rw (corps-mutex p i t) refl

execute-k :
    (p : Section) (i j : ℕ) (t : Table) → (execute p i t).k j ≡ update t.k i (turn p (t.k i)) j
unfolding execute
execute-k p i j t = corps-k p i j t

execute-etat :
    (p : Section) (i j : ℕ) (t : Table)
    → (execute p i t).etat j ≡ update t.etat i (mark p (t.etat i)) j
unfolding execute
execute-etat p i j t = corps-etat p i j t

-- A section keeps the invariant, and one step less is left.
pub execute-IsTable :
    (p : Section) (i : ℕ) (t : Table)
    → IsTable t
    → i < 5
    → t.place i ≡ dedans p
    → IsTable (execute p i t)
execute-IsTable p i t h lt e =
    let c : in_round (dedans p) ≡ true → t.k i < 6 = λ r. h.counted i lt (rw e r) in
    let w = execute-place p i t in
    record {
      served = execute-served p i t h.served lt e;
      mutex =
          let x = crowd-update t.place i (onward p (t.k i)) lt in
          let y : inside (t.place i) ≡ 1 = rw e refl in
          rw (w, execute-mutex p i t)
            (omega (arith, h.mutex, x, y, onward-inside p (t.k i) t.mutex_philo));
      shown = λ j l.
          let z = onward-eats p (t.k i) (t.etat i) (h.shown i lt ∙ ap eats e) in
          rw (w, execute-etat p i j t) (ground (arith, h.shown j l, z));
      counted = λ j l r.
          rw (execute-k p i j t) (ground (arith, h.counted j l, w, r, onward-counted p (t.k i)));
    }

pub execute-remaining :
    (p : Section) (i : ℕ) (t : Table)
    → IsTable t
    → i < 5
    → t.place i ≡ dedans p
    → remaining (execute p i t).place (execute p i t).k + 1 ≡ remaining t.place t.k
execute-remaining p i t h lt e =
    let c : in_round (dedans p) ≡ true → t.k i < 6 = λ r. h.counted i lt (rw e r) in
    let x = remaining-update t.place t.k i (onward p (t.k i)) (turn p (t.k i)) lt in
    let y : steps (t.place i) (t.k i) ≡ steps (dedans p) (t.k i) = rw e refl in
    rw (execute-place p i t, fun_ext (λ j. execute-k p i j t))
      (omega (arith, x, y, onward-steps p (t.k i) c))
