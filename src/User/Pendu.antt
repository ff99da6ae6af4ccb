-- ===== src/User/Pendu.antt =====
-- The game of user/pendu.c: the letters of a word are to be found, with ten wrong letters at most.
--
-- The player is a list of the characters that are typed, one for each round; the program waits for
-- the next. The music and what is printed, but for display_word, are left aside.
pub mod Bounds
pub mod Issue
use kernel_genesis_os.Base.{
  ℕ, zero, suc, ◌+◌, ◌-◌, ◌%◌, Bool, true, false, Option, none, some, List, [], ◌∷◌, ◌++◌, ◌==◌,
  ◌&&◌, ◌||◌, if◌then◌else◌, length,
}
use Prim.Native.Char.{code}
use Prim.Native.String.{String}
use kernel_genesis_os.User.Random.{rand_int}

-- The characters of a word of the program.
abbrev pub codes : String → List ℕ
codes String.[] = []
codes (String.◌∷◌ c s) = code c ∷ codes s

abbrev pub dictionary : List String
dictionary =
    "programmation" ∷ "ordinateur" ∷ "informatique" ∷ "developpement" ∷ "logiciel" ∷ "materiel"
    ∷ "reseau" ∷ "internet" ∷ "base" ∷ "donnees" ∷ "memoire" ∷ "processeur" ∷ "lion" ∷ "elephant"
    ∷ "tigre" ∷ "girafe" ∷ "dauphin" ∷ "requin" ∷ "aigle" ∷ "serpent" ∷ "pomme" ∷ "banane"
    ∷ "orange" ∷ "fraise" ∷ "chocolat" ∷ "fromage" ∷ "pain" ∷ "poulet" ∷ "table" ∷ "chaise"
    ∷ "lampe" ∷ "tasse" ∷ "couteau" ∷ "ordinateur" ∷ "porte" ∷ "fenetre" ∷ "physique" ∷ "chimie"
    ∷ "biologie" ∷ "mathematiques" ∷ "astronomie" ∷ "geologie" ∷ "football" ∷ "basketball"
    ∷ "tennis" ∷ "natation" ∷ "escrime" ∷ "rugby" ∷ "boxe" ∷ "cyclisme" ∷ "peinture" ∷ "sculpture"
    ∷ "musique" ∷ "danse" ∷ "theatre" ∷ "photographie" ∷ "cinema" ∷ "plante" ∷ "jardin" ∷ "fleur"
    ∷ "arbre" ∷ "fruit" ∷ "legume" ∷ "herbe" ∷ "terre" ∷ "eau" ∷ "soleil" ∷ "lune" ∷ "etoile"
    ∷ "planete" ∷ "galaxie" ∷ "univers" ∷ "comete" ∷ "meteore" ∷ "chaussure" ∷ "pantalon"
    ∷ "chemise" ∷ "robe" ∷ "chapeau" ∷ "manteau" ∷ "echarpe" ∷ "histoire" ∷ "geographie"
    ∷ "philosophie" ∷ "psychologie" ∷ "sociologie" ∷ "anthropologie" ∷ "anglais" ∷ "francais"
    ∷ "espagnol" ∷ "allemand" ∷ "italien" ∷ "portugais" ∷ "chinois" ∷ "chat" ∷ "chien" ∷ "oiseau"
    ∷ "poisson" ∷ "lapin" ∷ "hamster" ∷ "cheval" ∷ "mouton" ∷ []

-- `dictionary[i]`; behind the last word there is none.
abbrev pub word_at : List String → ℕ → Option String
word_at [] i = none
word_at (w ∷ ws) zero = some w
word_at (w ∷ ws) (suc i) = word_at ws i

-- choose_random_word
unfoldable pub choose_random_word : (n clock : ℕ) → Option String
choose_random_word n clock = word_at dictionary (rand_int n clock % length dictionary)

-- The variables of cmd_pendu: a letter of the word with its entry of `found`, the letters that were
-- tried, the last one last, and `tries_left`.
pub record Game : Type 0 where
  pub word : List (ℕ × Bool)
  pub guessed_letters : List ℕ
  pub tries_left : ℕ

abbrev pub unknown : List ℕ → List (ℕ × Bool)
unknown [] = []
unknown (c ∷ w) = (c, false) ∷ unknown w

abbrev pub new_game : List ℕ → Game
new_game w = record { word = unknown w; guessed_letters = []; tries_left = 10 }

-- display_word
unfoldable pub display_word : List (ℕ × Bool) → List ℕ
display_word [] = []
display_word ((c, b) ∷ w) = (if b then c else b'_') ∷ display_word w

-- strchr on `guessed_letters`, which also finds the zero that ends it.
abbrev pub guessed : ℕ → List ℕ → Bool
guessed c [] = c == 0
guessed c (g ∷ gs) = c == g || guessed c gs

-- The loop that fills `found`.
unfoldable pub reveal : ℕ → List (ℕ × Bool) → List (ℕ × Bool)
reveal guess [] = []
reveal guess ((c, b) ∷ w) = (c, b || c == guess) ∷ reveal guess w

abbrev pub correct_guess : ℕ → List (ℕ × Bool) → Bool
correct_guess guess [] = false
correct_guess guess ((c, b) ∷ w) = c == guess || correct_guess guess w

-- all_found
abbrev pub all_found : List (ℕ × Bool) → Bool
all_found [] = true
all_found ((c, b) ∷ w) = b && all_found w

-- A round of the loop.
unfoldable pub round : ℕ → Game → Game
unfolding reveal
round guess g = if guessed guess g.guessed_letters then g else record {
  word = reveal guess g.word;
  guessed_letters = g.guessed_letters ++ guess ∷ [];
  tries_left = if correct_guess guess g.word then g.tries_left else g.tries_left - 1;
}

-- The game so far: the loop goes on, or it was left with `win`.
pub data Outcome : Type 0 where
  playing : Game → Outcome
  finished : (win : Bool) → Game → Outcome

-- The end of a round: a letter that was tried before is followed by the next round at once.
abbrev pub decide : Bool → Game → Outcome
decide again g =
    if again
    then playing g
    else if all_found g.word
    then finished true g
    else if g.tries_left == 0
    then finished false g
    else playing g

-- The loop of cmd_pendu.
unfoldable pub play : List ℕ → Outcome → Outcome
unfolding round
play [] o = o
play (guess ∷ typed) (finished win g) = finished win g
play (guess ∷ typed) (playing g) =
    play typed (decide (guessed guess g.guessed_letters) (round guess g))
