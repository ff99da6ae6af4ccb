-- ===== src/User/MoreLess.antt =====
-- The game of user/more_less_game.c: a number is to be found in ten tries, with a hint after each.
--
-- The player is a function from the hints so far, the last one first, to the line that is typed; a line of
-- more than five characters is cut. What lies behind `buffer` is in `after`. The music is left aside.
pub mod Dichotomy
use kernel_genesis_os.Base.{
  ℕ, zero, suc, ◌+◌, ◌%◌, Bool, true, false, Option, none, some, List, [], ◌∷◌, ltb, ◌==◌,
  if◌then◌else◌,
}
use mathlib.Core.Option
use kernel_genesis_os.Base.{Bytes}
use kernel_genesis_os.User.Utils.{atoi}
use kernel_genesis_os.User.Random.{rand_int}

-- "C'est plus" and "C'est moins"
pub data Hint : Type 0 where
  plus : Hint
  moins : Hint

-- The byte of a line, and zeros behind it.
abbrev pub byte_at : List ℕ → ℕ → ℕ
byte_at [] i = 0
byte_at (c ∷ line) zero = c
byte_at (c ∷ line) (suc i) = byte_at line i

-- `buffer`, of five characters, after cons_read.
unfoldable pub buffer : List ℕ → Bytes → Bytes
buffer line after i = if ltb i 5 then byte_at line i else after i

-- The loop of cmd_more_less_game: whether the game is won, and all hints.
unfoldable pub more_less_loop :
    (fuel try_left answer : ℕ)
    → Bytes
    → (List Hint → List ℕ)
    → List Hint
    → Option (Bool × List Hint)
more_less_loop fuel zero answer after player hints = some (false, hints)
more_less_loop fuel (suc try_left) answer after player hints =
    Option.bind (atoi fuel 0 (buffer (player hints) after)) λ guess.
      let hint = if ltb guess answer then plus else moins in
      let rest = more_less_loop fuel try_left answer after player (hint ∷ hints) in
      if guess == answer then some (true, hints) else rest

-- cmd_more_less_game, with the seed of rand_int and the clock when the answer is chosen.
unfoldable pub cmd_more_less_game :
    (fuel seed clock : ℕ) → Bytes → (List Hint → List ℕ) → Option (Bool × List Hint)
unfolding more_less_loop
cmd_more_less_game fuel seed clock after player =
    more_less_loop fuel 10 (rand_int seed clock % 1001) after player []
