-- ===== src/User/MoreLess/Dichotomy.antt =====
-- A player who halves the interval wins the game.
use kernel_genesis_os.Base.{
  ℕ, zero, suc, ◌+◌, ◌*◌, ◌/◌, ◌%◌, ◌≤◌, ◌<◌, ◌≡◌, refl, true, false, some, List, [], ◌∷◌, map, ltb,
  ◌==◌, length, arith, Bool-cases, inl, inr,
}
use mathlib.Core.Option
use kernel_genesis_os.Base.{Bytes}
use kernel_genesis_os.User.Utils.{
  atoi, decimal, Shows, length-decimal, atoi-decimal, AllDigits, decimal-digits,
}
use kernel_genesis_os.User.Random.{rand_int}
use kernel_genesis_os.User.MoreLess.{
  Hint, plus, moins, byte_at, buffer, more_less_loop, cmd_more_less_game,
}

-- The numbers that the hints leave: from the first to below the second.
unfoldable pub bounds : List Hint → ℕ × ℕ
bounds [] = (0, 1001)
bounds (plus ∷ hs) = let b = bounds hs in ((b.0 + b.1) / 2 + 1, b.1)
bounds (moins ∷ hs) = let b = bounds hs in (b.0, (b.0 + b.1) / 2)

unfoldable pub middle : List Hint → ℕ
middle hs = ((bounds hs).0 + (bounds hs).1) / 2

-- A player who types the number in the middle.
unfoldable pub halving : List Hint → List ℕ
halving hs = map (λ d. b'0' + d) (decimal 4 (middle hs))

buffer-Shows :
    (m : Bytes) (s : ℕ) (ds : List ℕ)
    → AllDigits ds
    → ((i : ℕ) → i ≤ length ds → m (s + i) ≡ byte_at (map (λ d. b'0' + d) ds) i)
    → Shows m s ds
buffer-Shows m s [] a h = let z : s + 0 ≡ s = omega arith in rw z at (h 0 (omega arith))
buffer-Shows m s (d ∷ ds) (lt, a) h =
    let z : s + 0 ≡ s = omega arith in
    (
      rw z at (h 0 (omega arith)),
      lt,
      buffer-Shows m (s + 1) ds a
          λ i l. let e : s + 1 + i ≡ s + suc i = omega arith in rw e (h (suc i) (omega arith)),
    )

abbrev pow2 : ℕ → ℕ
pow2 zero = 1
pow2 (suc t) = 2 * pow2 t

buffer_line :
    (ds : List ℕ) (after : Bytes) (i : ℕ)
    → length ds ≤ 4
    → i ≤ length ds
    → buffer (map (λ d. b'0' + d) ds) after i ≡ byte_at (map (λ d. b'0' + d) ds) i
unfolding buffer
buffer_line ds after i h l = ground arith

-- What atoi makes of the line that the player types.
read_middle :
    (fuel : ℕ) (after : Bytes) (hs : List Hint)
    → 4 < fuel
    → (bounds hs).1 ≤ 1001
    → (bounds hs).0 < (bounds hs).1
    → atoi fuel 0 (buffer (halving hs) after) ≡ some (middle hs)
unfolding halving middle
read_middle fuel after hs l c lt =
    let n : ℕ = ((bounds hs).0 + (bounds hs).1) / 2 in
    (atoi-decimal fuel 4 0 n (buffer (halving hs) after) (omega arith) (omega arith) l).0 (
      buffer-Shows _ 0 (decimal 4 n) (decimal-digits 4 n) λ i le.
        let z : 0 + i ≡ i = omega arith in
        rw z (buffer_line (decimal 4 n) after i (length-decimal 4 n) le))

-- The interval after a hint: it has the answer, and half as many numbers.
step_up :
    (hs : List Hint) (answer : ℕ) → ltb (middle hs) answer ≡ true → (bounds (plus ∷ hs)).0 ≤ answer
unfolding bounds middle
step_up hs answer y = ground arith

step_down :
    (hs : List Hint) (answer : ℕ)
    → (middle hs == answer) ≡ false
    → ltb (middle hs) answer ≡ false
    → answer < (bounds (moins ∷ hs)).1
unfolding bounds middle
step_down hs answer e y = ground arith

more :
    (hs : List Hint) (t : ℕ)
    → (bounds hs).1 < (bounds hs).0 + pow2 (suc t)
    → (bounds (plus ∷ hs)).1 < (bounds (plus ∷ hs)).0 + pow2 t
unfolding bounds
more hs t d = omega arith

less :
    (hs : List Hint) (t : ℕ)
    → (bounds hs).1 < (bounds hs).0 + pow2 (suc t)
    → (bounds (moins ∷ hs)).1 < (bounds (moins ∷ hs)).0 + pow2 t
unfolding bounds
less hs t d = omega arith

halving-wins :
    (fuel t answer : ℕ) (after : Bytes) (hs : List Hint)
    → 4 < fuel
    → (bounds hs).0 ≤ answer
    → answer < (bounds hs).1
    → (bounds hs).1 ≤ 1001
    → (bounds hs).1 < (bounds hs).0 + pow2 t
    → (won : List Hint) × (more_less_loop fuel t answer after halving hs ≡ some (true, won))
unfolding more_less_loop bounds Option.bind
halving-wins fuel zero answer after hs l a b c d = absurd (omega arith)
halving-wins fuel (suc t) answer after hs l a b c d =
    let g = read_middle fuel after hs l c (omega arith) in
    elim (Bool-cases (middle hs == answer)) [
      | inl y ↦ (hs, rw (g, y) refl)
      | inr no_match ↦ elim (Bool-cases (ltb (middle hs) answer)) [
        | inl y ↦
            let (won, e) =
              halving-wins fuel t answer after (plus ∷ hs) l (step_up hs answer y) b c
                (more hs t d) in
            (won, rw (g, no_match, y) e)
        | inr y ↦
            let (won, e) =
              halving-wins fuel t answer after (moins ∷ hs) l a (step_down hs answer no_match y)
                (omega (arith, a, b)) (less hs t d) in
            (won, rw (g, no_match, y) e)
      ]
    ]

-- Whatever the seed, the clock and the memory behind the buffer, a player who always types the
-- middle of the numbers that the hints leave wins the game within its ten tries, if atoi has at
-- least five rounds of fuel for each line.
pub cmd_more_less_game-winnable :
    (fuel seed clock : ℕ) (after : Bytes)
    → 4 < fuel
    → (won : List Hint) × (cmd_more_less_game fuel seed clock after halving ≡ some (true, won))
unfolding cmd_more_less_game bounds
cmd_more_less_game-winnable fuel seed clock after l =
    halving-wins fuel 10 (rand_int seed clock % 1001) after [] l (omega arith) (omega arith)
      (omega arith) (omega arith)
