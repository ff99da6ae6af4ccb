-- ===== src/User/Pendu/Bounds.antt =====
-- What holds of the game at any time: the array of the letters is long enough, and the word shows the
-- letters that were tried.
use kernel_genesis_os.Base.{
  ℕ, ◌+◌, ◌≤◌, ◌<◌, ◌≡◌, ◌∙◌, refl, ap, Bool, true, false, List, [], ◌∷◌, ◌++◌, ◌==◌, ◌||◌,
  if◌then◌else◌, length, length-append, All, arith, Bool-cases, inl, inr,
}
use kernel_genesis_os.User.Pendu.{
  Game, unknown, new_game, display_word, guessed, reveal, correct_guess, round,
}

-- The word with the letters that were tried.
abbrev pub marked : List ℕ → List ℕ → List (ℕ × Bool)
marked [] gs = []
marked (c ∷ w) gs = (c, guessed c gs) ∷ marked w gs

-- The word as the player should see it.
abbrev pub masked : List ℕ → List ℕ → List ℕ
masked [] gs = []
masked (c ∷ w) gs = (if guessed c gs then c else b'_') ∷ masked w gs

abbrev pub occurs : ℕ → List ℕ → Bool
occurs g [] = false
occurs g (c ∷ w) = c == g || occurs g w

-- The tried letters that are not in the word.
abbrev pub wrong : List ℕ → List ℕ → ℕ
wrong w [] = 0
wrong w (g ∷ gs) = (if occurs g w then 0 else 1) + wrong w gs

-- The places of the word that show a letter.
abbrev pub shown : List ℕ → List ℕ → ℕ
shown [] gs = 0
shown (c ∷ w) gs = (if guessed c gs then 1 else 0) + shown w gs

guessed-append : (c : ℕ) (gs : List ℕ) (g : ℕ) → guessed c (gs ++ g ∷ []) ≡ (guessed c gs || c == g)
guessed-append c [] g = ground arith
guessed-append c (h ∷ gs) g = ground (arith, guessed-append c gs g)

wrong-append :
    (w gs : List ℕ) (g : ℕ) → wrong w (gs ++ g ∷ []) ≡ wrong w gs + (if occurs g w then 0 else 1)
wrong-append w [] g = omega arith
wrong-append w (h ∷ gs) g = omega (arith, wrong-append w gs g)

reveal-marked : (w gs : List ℕ) (g : ℕ) → reveal g (marked w gs) ≡ marked w (gs ++ g ∷ [])
unfolding reveal
reveal-marked [] gs g = refl
reveal-marked (c ∷ w) gs g = rw (guessed-append c gs g, reveal-marked w gs g) refl

correct_guess-marked : (g : ℕ) (w gs : List ℕ) → correct_guess g (marked w gs) ≡ occurs g w
correct_guess-marked g [] gs = refl
correct_guess-marked g (c ∷ w) gs = ground (arith, correct_guess-marked g w gs)

unknown-marked : (w : List ℕ) → All (λ c. 0 < c) w → unknown w ≡ marked w []
unknown-marked [] h = refl
unknown-marked (c ∷ w) (p, h) =
    let e : (c == 0) ≡ false = ground arith in rw (e, unknown-marked w h) refl

pub shown-le : (w gs : List ℕ) → shown w gs ≤ length w
shown-le [] gs = omega arith
shown-le (c ∷ w) gs = ground (arith, shown-le w gs)

shown_mono : (w gs : List ℕ) (g : ℕ) → shown w gs ≤ shown w (gs ++ g ∷ [])
shown_mono [] gs g = omega arith
shown_mono (c ∷ w) gs g = ground (arith, guessed-append c gs g, shown_mono w gs g)

-- A new letter of the word shows at one more place at least.
shown-append :
    (w gs : List ℕ) (g : ℕ)
    → occurs g w ≡ true
    → guessed g gs ≡ false
    → shown w gs < shown w (gs ++ g ∷ [])
shown-append [] gs g o n = ground arith
shown-append (c ∷ w) gs g o n = elim (Bool-cases (c == g)) [
  | inl y ↦
      let e : c ≡ g = ground arith in
      ground (arith, guessed-append c gs g, shown_mono w gs g, e, ap (λ x. guessed x gs) e)
  | inr no_match ↦
      let o' : occurs g w ≡ true = ground arith in
      ground (arith, guessed-append c gs g, shown-append w gs g o' n)
]

pub display-marked : (w gs : List ℕ) → display_word (marked w gs) ≡ masked w gs
unfolding display_word
display-marked [] gs = refl
display-marked (c ∷ w) gs = ground (arith, display-marked w gs)

pub record IsGame (w : List ℕ) (g : Game) : Type 0 where
  pub letters : g.word ≡ marked w g.guessed_letters
  pub tried : g.tries_left + wrong w g.guessed_letters ≡ 10
  pub few : length g.guessed_letters ≤ wrong w g.guessed_letters + shown w g.guessed_letters

pub new_game-IsGame : (w : List ℕ) → All (λ c. 0 < c) w → IsGame w (new_game w)
new_game-IsGame w h = record { letters = unknown-marked w h; tried = refl; few = omega arith }

pub round-IsGame :
    (w : List ℕ) (guess : ℕ) (g : Game) → 0 < g.tries_left → IsGame w g → IsGame w (round guess g)
unfolding round
round-IsGame w guess g lt h = elim (Bool-cases (guessed guess g.guessed_letters)) [
  | inl y ↦ rw y h
  | inr n ↦
      let gs = g.guessed_letters in
      let c : correct_guess guess g.word ≡ occurs guess w =
        ap (correct_guess guess) h.letters ∙ correct_guess-marked guess w gs in
      rw n record {
        letters = ap (reveal guess) h.letters ∙ reveal-marked w gs guess;
        tried = rw c (ground (arith, h.tried, wrong-append w gs guess));
        few = ground (
          arith,
          h.few,
          wrong-append w gs guess,
          length-append gs (guess ∷ []),
          shown_mono w gs guess,
          shown-append w gs guess,
        );
      }
]
