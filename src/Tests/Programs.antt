-- ===== src/Tests/Programs.antt =====
-- Runs of the programs of user/.
use kernel_genesis_os.Base.{
  ℕ, ◌-◌, ◌≤◌, ◌<◌, ◌≡◌, ◌≢◌, ◌⊎◌, refl, true, some, List, [], ◌∷◌, ◌==◌, if◌then◌else◌, length,
  update, arith, All, ◌*◌, inl,
}
use Prim.Native.String.{String}
use kernel_genesis_os.Base.{Bytes}
use kernel_genesis_os.User.Utils.{atoi, decimal, Shows, word, atoi-decimal}
use kernel_genesis_os.User.MoreLess.{Hint, cmd_more_less_game}
use kernel_genesis_os.User.MoreLess.Dichotomy.{halving, cmd_more_less_game-winnable}
use kernel_genesis_os.User.Pendu.{codes, choose_random_word, new_game, display_word, playing, play}
use kernel_genesis_os.User.Pendu.Bounds.{masked}
use kernel_genesis_os.User.Pendu.Issue.{game_of, IsFair, play-IsFair}
use kernel_genesis_os.User.Shell.{Strtok, parse_command}
use kernel_genesis_os.User.Shell.Words.{last, IsStrtok, parse_command-bounds}
use kernel_genesis_os.User.Shell.Commands.{
  find_command, commands, response, lookup, super_shell-lookup,
}
use kernel_genesis_os.User.Theme.{Theme}
use kernel_genesis_os.User.Theme.Menu.{choose_theme, more_less_theme, pendu_theme}
use kernel_genesis_os.User.Theme.Playing.{IsPlayed, themes-IsPlayed}
use kernel_genesis_os.User.Philosophers.{
  Table, test200, moves, dedans, dehors, prendre, manger, execute, prendre_fourchettes, Step,
  enters, works, takes, Reach, start, next, nr_philo, rendu,
}
use kernel_genesis_os.User.Philosophers.Run.{Reach-exclusive}
use kernel_genesis_os.User.Philosophers.Progress.{Reach-ends}

-- Philosopher 0 enters, takes both forks, passes its semaphore and eats.
abbrev entered : Table
entered = record (moves 0 (dedans prendre) test200) { mutex_philo = 0 }

abbrev served : Table
served = execute prendre 0 entered

abbrev sat : Table
sat = record (moves 0 (dehors manger) served) { s = update served.s 0 0 }

abbrev eating : Table
eating = record (moves 0 (dedans manger) sat) { mutex_philo = 0 }

seated : Reach 5 (execute manger 0 eating)
unfolding execute prendre_fourchettes
seated =
    let r₁ : Reach 1 entered = next start (enters 0 0 prendre (omega arith) refl refl) in
    let r₂ : Reach 2 served = next r₁ (works 0 prendre (omega arith) refl) in
    let r₃ : Reach 3 sat = next r₂ (takes 0 0 (omega arith) refl refl) in
    let r₄ : Reach 4 eating = next r₃ (enters 0 0 manger (omega arith) refl refl) in
    next r₄ (works 0 manger (omega arith) refl)

shows_m : (execute manger 0 eating).etat 0 ≡ b'm'
unfolding execute
shows_m = refl

Reach-exclusive_example :
    ((execute manger 0 eating).etat 1 ≢ b'm')
    × ((execute manger 0 eating).f 0 ≡ true)
    × ((execute manger 0 eating).f 1 ≡ true)
Reach-exclusive_example = Reach-exclusive 0 seated (omega arith) shows_m

Reach-ends_example :
    ((5 < 430) × (u : Table) × Step (execute manger 0 eating) u)
    ⊎ (◌≡◌ {A = ℕ} 5 430 × ((i : ℕ) → i < nr_philo → (execute manger 0 eating).place i ≡ rendu))
Reach-ends_example = Reach-ends seated

cmd_more_less_game-winnable_example :
    (won : List Hint) × (cmd_more_less_game 5 42 17 (λ i. 7) halving ≡ some (true, won))
cmd_more_less_game-winnable_example = cmd_more_less_game-winnable 5 42 17 (λ i. 7) (omega arith)

-- The text "-42" at 3.
abbrev minus_42 : Bytes
minus_42 i = if i == 3 then b'-' else if i == 4 then b'4' else if i == 5 then b'2' else 0

decimal_42 : decimal 3 42 ≡ 4 ∷ 2 ∷ []
unfolding decimal
decimal_42 = refl

atoi-decimal_example :
    (Shows minus_42 4 (decimal 3 42) → atoi 4 4 minus_42 ≡ some 42)
    × (minus_42 4 ≡ b'-'
        → Shows minus_42 5 (decimal 3 42)
        → atoi 4 4 minus_42 ≡ some (word (4294967296 - 42)))
atoi-decimal_example = atoi-decimal 4 3 4 42 minus_42 (omega arith) (omega arith) (omega arith)

minus_42_read : atoi 4 3 minus_42 ≡ some 4294967254
unfolding atoi
minus_42_read = refl

play-IsFair_example :
    (w : String) × (choose_random_word 42 17 ≡ some w)
    × (let o = play (b'e' ∷ b'a' ∷ b'e' ∷ b'z' ∷ []) (playing (new_game (codes w))) in
        let g = game_of o in
        (length g.guessed_letters ≤ 25)
        × (display_word g.word ≡ masked (codes w) g.guessed_letters)
        × IsFair (codes w) o)
play-IsFair_example = play-IsFair 42 17 (b'e' ∷ b'a' ∷ b'e' ∷ b'z' ∷ [])

-- The text "kill 3" at 10, and " " at 1.
abbrev kill_3 : Bytes
kill_3 i =
    if i == 1
    then 32
    else if i == 10
    then b'k'
    else if i == 11
    then b'i'
    else if i == 12
    then b'l'
    else if i == 13
    then b'l'
    else if i == 14
    then 32
    else if i == 15
    then b'3'
    else 0

-- A strtok that separates nothing.
abbrev whole_line : Strtok
whole_line input delim holder m = (if input == 0 then holder else input, 0, m)

whole_line-IsStrtok : IsStrtok whole_line
whole_line-IsStrtok = record {
  begins = λ input delim holder m n. ground arith;
  over = λ delim m. refl;
  cuts = λ delim h l m b t ap p. last h l m (omega arith) (omega arith) t;
}

parse_command-bounds_example :
    (argv : List ℕ) × (m : Bytes) × (parse_command whole_line 8 10 1 0 kill_3 ≡ some (argv, m))
    × (2 * length argv ≤ 7)
    × All (λ a. (10 ≤ a) × (a < 16)) argv
parse_command-bounds_example =
    parse_command-bounds whole_line 8 10 6 1 0 kill_3 whole_line-IsStrtok
      (record { blank = refl; ends = refl }) (record { body = λ i h. ground arith; ends = refl })
      (inl (omega arith)) (omega arith) (omega arith)

super_shell-lookup_example :
    find_command "test_run" commands (b'n' ∷ [])
    ≡ response "test_run" (lookup "test_run" commands) (b'n' ∷ [])
super_shell-lookup_example = super_shell-lookup "test_run" (b'n' ∷ [])

themes-IsPlayed_example :
    ((t : Theme) → choose_theme 18 ≡ some t → IsPlayed t)
    × ((t : Theme) × (more_less_theme 42 17 ≡ some t) × IsPlayed t)
    × ((t : Theme) × (pendu_theme 42 17 ≡ some t) × IsPlayed t)
themes-IsPlayed_example = themes-IsPlayed 18 42 17
