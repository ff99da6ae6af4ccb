-- ===== src/User/Shell/Words.antt =====
-- parse_command ends, and how many words it finds in a line.
use kernel_genesis_os.Base.{
  ℕ, zero, suc, ◌+◌, ◌-◌, ◌*◌, ◌≤◌, ◌<◌, ◌≡◌, ◌≢◌, ◌⊎◌, ◌∙◌, refl, ap, true, false, Option, some,
  List, [], ◌∷◌, ◌++◌, ◌==◌, ◌||◌, length, append-nil, append_assoc, All, arith, Bool-cases, inl,
  inr, Bytes,
}
use kernel_genesis_os.User.Shell.{Strtok, parse_loop, parse_command}

-- The text at `s` has `n` bytes before its final zero.
pub record IsText (m : Bytes) (s n : ℕ) : Type 0 where
  pub body : (i : ℕ) → i < n → m (s + i) ≢ 0
  pub ends : m (s + n) ≡ 0

-- The text " " at `delim`.
pub record IsBlank (m : Bytes) (delim : ℕ) : Type 0 where
  pub blank : m delim ≡ 32
  pub ends : m (delim + 1) ≡ 0

-- What strtok finds in the text of `l` bytes at `h`: no word, or a word of `n` bytes at `t`, with a zero
-- behind it; then it goes on behind that zero, in what is left of the text, or there is nothing left.
pub data Cut (delim h l : ℕ) : ℕ × ℕ × Bytes → Type 0 where
  nothing : (k : ℕ) (m : Bytes) → Cut delim h l (0, k, m)
  last : (t n : ℕ) (m : Bytes) → h ≤ t → t + n ≤ h + l → IsText m t n → Cut delim h l (t, 0, m)
  before :
      (t n : ℕ) (m : Bytes)
      → h ≤ t
      → t + n < h + l
      → IsText m t n
      → IsText m (t + n + 1) (h + l - (t + n + 1))
      → IsBlank m delim
      → Cut delim h l (t, t + n + 1, m)

-- strtok, as the C library documents it: a call with a text begins at it, a call with null goes on, and
-- gives null when there is nothing left; the text and the separators must not overlap.
pub record IsStrtok (strtok : Strtok) : Type 0 where
  pub begins :
      (input delim holder : ℕ) (m : Bytes)
      → input ≢ 0
      → strtok input delim holder m ≡ strtok 0 delim input m
  pub over : (delim : ℕ) (m : Bytes) → (strtok 0 delim 0 m).0 ≡ 0
  pub cuts :
      (delim h l : ℕ) (m : Bytes)
      → IsBlank m delim
      → IsText m h l
      → (delim + 1 < h) ⊎ (h + l < delim)
      → 0 < h
      → Cut delim h l (strtok 0 delim h m)

-- What the loop of parse_command makes of `loop`, its call.
abbrev Found : (s l : ℕ) → List ℕ → Option (List ℕ × Bytes) → Type 0
Found s l argv loop =
    (found : List ℕ) × (m' : Bytes) × (loop ≡ some (argv ++ found, m'))
    × (2 * length found ≤ l + 1)
    × All (λ a. (s ≤ a) × (a < s + l)) found

Found-later :
    (s l h k : ℕ) (found : List ℕ)
    → s ≤ h
    → h + k ≤ s + l
    → All (λ a. (h ≤ a) × (a < h + k)) found
    → All (λ a. (s ≤ a) × (a < s + l)) found
Found-later s l h k [] a b x = tt
Found-later s l h k (f ∷ fs) a b ((x, y), r) =
    ((omega arith, omega arith), Found-later s l h k fs a b r)

loop_stops :
    (strtok : Strtok) (rounds delim token holder : ℕ) (argv : List ℕ) (m : Bytes)
    → 0 < rounds
    → (token == 0 || m token == 0) ≡ true
    → parse_loop strtok rounds delim token holder argv m ≡ some (argv, m)
unfolding parse_loop
loop_stops strtok zero delim token holder argv m p e = absurd (omega arith)
loop_stops strtok (suc rounds) delim token holder argv m p e = rw e refl

none-Found :
    (s l : ℕ) (argv : List ℕ) (m : Bytes) (loop : Option (List ℕ × Bytes))
    → loop ≡ some (argv, m)
    → Found s l argv loop
none-Found s l argv m loop e = ([], m, rw (append-nil argv) e, omega arith, tt)

ap_some :
    {xs ys : List ℕ}
    → xs ≡ ys
    → (u : Bytes) → ◌≡◌ {A = Option (List ℕ × Bytes)} (some (xs, u)) (some (ys, u))
ap_some e u = ap (λ xs. some (xs, u)) e

-- A word that the loop takes is not empty.
nonempty : (m : Bytes) (t n : ℕ) → IsText m t n → (t == 0 || m t == 0) ≡ false → 0 < n
nonempty m t zero x f =
    let e : t + 0 ≡ t = omega arith in
    let z : m t ≡ 0 = rw e at x.ends in absurd (ground (arith, z))
nonempty m t (suc n) x f = omega arith

words-bounds :
    (strtok : Strtok) (rounds delim h l : ℕ) (argv : List ℕ) (r : ℕ × ℕ × Bytes)
    → IsStrtok strtok
    → Cut delim h l r
    → (delim + 1 < h) ⊎ (h + l < delim)
    → 0 < h
    → l + 1 < rounds
    → Found h l argv (parse_loop strtok rounds delim r.0 r.1 argv r.2)
unfolding parse_loop
words-bounds strtok zero delim h l argv r w c ap p lt = absurd (omega arith)
words-bounds strtok (suc rounds) delim h l argv r w (nothing k m) ap p lt =
    none-Found h l argv m _ refl
words-bounds strtok (suc rounds) delim h l argv r w (last t n m le lt' x) ap p lt =
    elim (Bool-cases (t == 0 || m t == 0)) [
      | inl y ↦ none-Found h l argv m _ (rw y refl)
      | inr f ↦
          let q = nonempty m t n x f in
          let z = strtok 0 delim 0 m in
          (
            t ∷ [],
            z.2,
            rw f (
                loop_stops strtok rounds delim z.0 z.1 (argv ++ t ∷ []) z.2 (omega arith)
                  (rw (w.over delim m) refl)),
            omega arith,
            ((omega arith, omega arith), tt),
          )
    ]
words-bounds strtok (suc rounds) delim h l argv r w (before t n m le lt' x y b) ap p lt =
    elim (Bool-cases (t == 0 || m t == 0)) [
      | inl e ↦ none-Found h l argv m _ (rw e refl)
      | inr f ↦
          let q = nonempty m t n x f in
          let k = h + l - (t + n + 1) in
          let c = w.cuts delim (t + n + 1) k m b y (omega arith) (omega arith) in
          let (found, u, e, few, all) =
            words-bounds strtok rounds delim (t + n + 1) k (argv ++ t ∷ [])
              (strtok 0 delim (t + n + 1) m) w c (omega arith) (omega arith) (omega arith) in
          (
            t ∷ found,
            u,
            rw f (e ∙ ap_some (append_assoc argv (t ∷ []) found) u),
            omega arith,
            (
              (omega arith, omega arith),
              Found-later h l (t + n + 1) k found (omega arith) (omega arith) all,
            ),
          )
    ]

-- parse_command of a line that ends by a zero ends, if it has two rounds of fuel more than there
-- are characters; with l characters it finds at most (l + 1) / 2 words, so that the NULL behind
-- them is written at most at that index, and every word begins within the line. It is provided that
-- strtok does what the C library documents, that the line is not at the null address, and that the
-- separator is the text of one blank, which does not overlap the line.
pub parse_command-bounds :
    (strtok : Strtok) (rounds input l delim holder : ℕ) (m : Bytes)
    → IsStrtok strtok
    → IsBlank m delim
    → IsText m input l
    → (delim + 1 < input) ⊎ (input + l < delim)
    → 0 < input
    → l + 1 < rounds
    → (argv : List ℕ) × (m' : Bytes) × (parse_command strtok rounds input delim holder m
        ≡ some (argv, m'))
      × (2 * length argv ≤ l + 1)
      × All (λ a. (input ≤ a) × (a < input + l)) argv
unfolding parse_command
parse_command-bounds strtok rounds input l delim holder m w b t ap p lt =
    let z : input ≢ 0 = λ e. omega (arith, e) in
    rw (w.begins input delim holder m z)
      (words-bounds strtok rounds delim input l [] _ w (w.cuts delim input l m b t ap p) ap p lt)
