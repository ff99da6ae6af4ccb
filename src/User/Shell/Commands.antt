-- ===== src/User/Shell/Commands.antt =====
-- The table of commands of user/start.c, and the loop of superShell that looks a command up.
--
-- A command is its name and `canCrashKernel`; `lance` says that its function is called. What is typed at the
-- question is a list of characters.
use kernel_genesis_os.Base.{
  ℕ, ◌≡◌, refl, Bool, true, false, not, ◌&&◌, ◌==◌, Option, none, some, List, [], ◌∷◌,
  if◌then◌else◌, arith, subst, Bool-cases, inl, inr,
}
use Prim.Native.String.{String}
use text.Mathlib.Text.{◌==◌ as str_eq}
use text.Mathlib.TextEquality.{eq_iff}

pub record Command : Type 0 where
  pub cmd : String
  pub can_crash_kernel : Bool

abbrev sure : String → Command
sure name = record { cmd = name; can_crash_kernel = false }

abbrev risky : String → Command
risky name = record { cmd = name; can_crash_kernel = true }

unfoldable pub commands : List Command
commands =
    risky "test_run"
    ∷ risky "test_until"
    ∷ risky "test_semaphore"
    ∷ risky "crash_pile_test"
    ∷ sure "ps"
    ∷ sure "uwu"
    ∷ sure "theme"
    ∷ sure "clear"
    ∷ sure "echo"
    ∷ sure "rdm"
    ∷ sure "MoreLess"
    ∷ sure "pendu"
    ∷ sure "piano"
    ∷ sure "banner"
    ∷ sure "create_proc"
    ∷ sure "kill"
    ∷ sure "wait"
    ∷ sure "exit"
    ∷ sure "help"
    ∷ sure "echo_hist"
    ∷ []

-- What the shell does: it asks whether to go on, waits for an answer, says that a command is cancelled, calls
-- a command, or says that it does not know it.
pub data Event : Type 0 where
  attention : Event
  attend : Event
  annulee : Event
  lance : String → Event
  non_reconnue : Event

-- The loop over `commands`, and the message behind it.
unfoldable pub find_command : String → List Command → List ℕ → List Event
find_command word [] typed = non_reconnue ∷ []
find_command word (c ∷ cs) [] =
    let rest = find_command word cs [] in
    if str_eq c.cmd word
    then if c.can_crash_kernel then attention ∷ attend ∷ [] else lance c.cmd ∷ []
    else rest
find_command word (c ∷ cs) (x ∷ typed) =
    let rest = find_command word cs typed in
    let other = find_command word cs (x ∷ typed) in
    if str_eq c.cmd word
    then if c.can_crash_kernel
      then if x == b'o' then attention ∷ lance c.cmd ∷ [] else attention ∷ annulee ∷ rest
      else lance c.cmd ∷ []
    else other

-- What the table says of a word.
unfoldable pub lookup : String → List Command → Option Bool
lookup word [] = none
lookup word (c ∷ cs) = if str_eq c.cmd word then some c.can_crash_kernel else lookup word cs

-- The answer to a word that is or is not in the table.
unfoldable pub response : String → Option Bool → List ℕ → List Event
response word none typed = non_reconnue ∷ []
response word (some false) typed = lance word ∷ []
response word (some true) [] = attention ∷ attend ∷ []
response word (some true) (x ∷ typed) =
    if x == b'o' then attention ∷ lance word ∷ [] else attention ∷ annulee ∷ non_reconnue ∷ []

abbrev is_new : String → List Command → Bool
is_new word [] = true
is_new word (c ∷ cs) = not (str_eq c.cmd word) && is_new word cs

distinct : List Command → Bool
distinct [] = true
distinct (c ∷ cs) = is_new c.cmd cs && distinct cs

find-new :
    (word : String) (cs : List Command) (typed : List ℕ)
    → is_new word cs ≡ true
    → find_command word cs typed ≡ non_reconnue ∷ []
unfolding find_command
find-new word [] typed h = refl
find-new word (c ∷ cs) [] h =
    let y : str_eq c.cmd word ≡ false = ground arith in rw y (find-new word cs [] (ground arith))
find-new word (c ∷ cs) (x ∷ typed) h =
    let y : str_eq c.cmd word ≡ false = ground arith in
    rw y (find-new word cs (x ∷ typed) (ground arith))

find-lookup :
    (word : String) (cs : List Command) (typed : List ℕ)
    → distinct cs ≡ true
    → find_command word cs typed ≡ response word (lookup word cs) typed
unfolding find_command lookup response distinct
find-lookup word [] typed h = refl
find-lookup word (c ∷ cs) [] h = elim (Bool-cases (str_eq c.cmd word)) [
  | inl y ↦ let e : c.cmd ≡ word = (eq_iff c.cmd word).0 y in rw y (ground (arith, e))
  | inr n ↦ rw n (find-lookup word cs [] (ground arith))
]
find-lookup word (c ∷ cs) (x ∷ typed) h = elim (Bool-cases (str_eq c.cmd word)) [
  | inl y ↦
      let e : c.cmd ≡ word = (eq_iff c.cmd word).0 y in
      let u : is_new word cs ≡ true = subst (λ w. is_new w cs ≡ true) e (ground arith) in
      rw y (ground (arith, e, find-new word cs typed u))
  | inr n ↦ rw n (find-lookup word cs (x ∷ typed) (ground arith))
]

-- For every word and whatever is typed at the question, the loop of superShell does what the table
-- says of the word: it calls a safe command at once and a dangerous one after the answer `o`, it
-- says that a word that is not in the table is not known, and after any other answer it says that a
-- dangerous command is cancelled, and then that it is not known.
pub super_shell-lookup :
    (word : String) (typed : List ℕ)
    → find_command word commands typed ≡ response word (lookup word commands) typed
unfolding commands distinct
super_shell-lookup word typed = find-lookup word commands typed refl
