-- ===== src/User/Pendu/Issue.antt =====
-- The end of the game, and the words of its dictionary.
use kernel_genesis_os.Base.{
  sym, ℕ, zero, suc, ◌%◌, ◌≤◌, ◌<◌, ◌≡◌, ◌≢◌, ◌∙◌, refl, ap, Bool, true, false, some, List, [], ◌∷◌,
  ◌==◌, ◌&&◌, leb, length, All, arith, Bool-cases, inl, inr,
}
use Prim.Native.String.{String}
use kernel_genesis_os.User.Random.{rand_int}
use kernel_genesis_os.User.Pendu.Bounds.{
  marked, masked, wrong, shown-le, display-marked, IsGame, new_game-IsGame, round-IsGame,
}
use kernel_genesis_os.User.Pendu.{
  codes, dictionary, word_at, choose_random_word, Game, new_game, display_word, guessed, all_found,
  round, Outcome, playing, finished, decide, play,
}

abbrev pub game_of : Outcome → Game
game_of (playing g) = g
game_of (finished win g) = g

-- What an end says: the game is won if the word shows all of its letters, and lost after ten wrong letters
-- if it does not; it goes on while neither holds.
abbrev pub IsFair : List ℕ → Outcome → Type 0
IsFair w (playing g) = 0 < g.tries_left
IsFair w (finished true g) = masked w g.guessed_letters ≡ w
IsFair w (finished false g) = (wrong w g.guessed_letters ≡ 10) × (masked w g.guessed_letters ≢ w)

all_found-masked : (w gs : List ℕ) → all_found (marked w gs) ≡ true → masked w gs ≡ w
all_found-masked [] gs e = refl
all_found-masked (c ∷ w) gs e = ground (arith, all_found-masked w gs)

-- `_` is in no word.
masked-all_found :
    (w gs : List ℕ) → All (λ c. c ≢ b'_') w → all_found (marked w gs) ≡ false → masked w gs ≢ w
masked-all_found [] gs h e m = cc
masked-all_found (c ∷ w) gs (n, h) e m = elim (Bool-cases (guessed c gs)) [
  | inl y ↦ masked-all_found w gs h (ground (arith, y)) (ground arith)
  | inr y ↦ n (ground arith)
]

decide-IsFair :
    (w : List ℕ) (again : Bool) (g : Game)
    → All (λ c. c ≢ b'_') w
    → IsGame w g
    → (again ≡ true → 0 < g.tries_left)
    → IsFair w (decide again g)
decide-IsFair w true g n h p = p refl
decide-IsFair w false g n h p = elim (Bool-cases (all_found g.word)) [
  | inl y ↦ rw y (all_found-masked w g.guessed_letters (ap all_found (sym h.letters) ∙ y))
  | inr no_win ↦ elim (Bool-cases (g.tries_left == 0)) [
    | inl y ↦
        rw (no_win, y)
          (
            ground (arith, h.tried),
            masked-all_found w g.guessed_letters n (ap all_found (sym h.letters) ∙ no_win),
          )
    | inr y ↦ rw (no_win, y) (ground arith)
  ]
]

decide-game : (again : Bool) (g : Game) → game_of (decide again g) ≡ g
decide-game again g = ground arith

again-round : (guess : ℕ) (g : Game) → guessed guess g.guessed_letters ≡ true → round guess g ≡ g
unfolding round
again-round guess g e = rw e refl

pub play-IsGame :
    (typed w : List ℕ) (o : Outcome)
    → All (λ c. c ≢ b'_') w
    → IsGame w (game_of o)
    → IsFair w o
    → IsGame w (game_of (play typed o)) × IsFair w (play typed o)
unfolding play
play-IsGame [] w o n h f = (h, f)
play-IsGame (guess ∷ typed) w (finished win g) n h f = (h, f)
play-IsGame (guess ∷ typed) w (playing g) n h f =
    let b = guessed guess g.guessed_letters in
    let h' = round-IsGame w guess g f h in
    play-IsGame typed w (decide b (round guess g)) n (rw (decide-game b (round guess g)) h')
      (decide-IsFair w b (round guess g) n h' λ e. rw (again-round guess g e) f)

-- A word of small letters, of at most 13.
plain : List ℕ → Bool
plain [] = true
plain (c ∷ w) = leb b'a' c && (leb c b'z' && plain w)

all_plain : List String → Bool
unfolding plain
all_plain [] = true
all_plain (s ∷ ws) = leb (length (codes s)) 13 && (plain (codes s) && all_plain ws)

dictionary-plain : all_plain dictionary ≡ true
unfolding all_plain
dictionary-plain = refl

plain-letters : (w : List ℕ) → plain w ≡ true → All (λ c. 0 < c) w × All (λ c. c ≢ b'_') w
unfolding plain
plain-letters [] e = (tt, tt)
plain-letters (c ∷ w) e =
    let (a, b) = plain-letters w (ground arith) in ((ground arith, a), (λ x. ground arith, b))

word_at-plain :
    (ws : List String) (i : ℕ)
    → all_plain ws ≡ true
    → i < length ws
    → (s : String) × (word_at ws i ≡ some s) × (length (codes s) ≤ 13) × (plain (codes s) ≡ true)
unfolding all_plain
word_at-plain [] i e l = absurd (omega arith)
word_at-plain (s ∷ ws) zero e l = (s, refl, ground arith, ground arith)
word_at-plain (s ∷ ws) (suc i) e l = word_at-plain ws i (ground arith) (omega arith)

-- Whatever the seed and the clock, choose_random_word takes a word of the dictionary; and whatever
-- is typed then, at most 25 letters are kept, which leaves room for the zero behind them in the
-- array of 26, display_word shows the word with exactly the tried letters, a game that is won shows
-- the whole word, a game that is lost has ten wrong letters and does not show it, and a game that
-- goes on has tries left.
pub play-IsFair :
    (seed clock : ℕ) (typed : List ℕ)
    → (word : String) × (choose_random_word seed clock ≡ some word)
      × (let o = play typed (playing (new_game (codes word))) in
          let g = game_of o in
          (length g.guessed_letters ≤ 25)
          × (display_word g.word ≡ masked (codes word) g.guessed_letters)
          × IsFair (codes word) o)
unfolding choose_random_word
play-IsFair seed clock typed =
    let (word, e, l, p) =
      word_at-plain dictionary (rand_int seed clock % length dictionary) dictionary-plain
        (omega arith) in
    let w = codes word in
    let (pos, bar) = plain-letters w p in
    let (h, f) =
      play-IsGame typed w (playing (new_game w)) bar (new_game-IsGame w pos) (omega arith) in
    let g = game_of (play typed (playing (new_game w))) in
    (
      word,
      e,
      (
        omega (arith, h.few, h.tried, l, shown-le w g.guessed_letters),
        ap display_word h.letters ∙ display-marked w g.guessed_letters,
        f,
      ),
    )
