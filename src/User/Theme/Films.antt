-- ===== src/User/Theme/Films.antt =====
-- The melodies of user/theme_lib.c for films.
-- A melody is the list of its pairs of entries.
use kernel_genesis_os.Base.{ℕ, ℤ, List, [], ◌∷◌}
use kernel_genesis_os.User.Theme.Notes.{
  n, p, rows, a4, a5, as4, b4, c4, c5, cs4, cs5, d4, d5, ds4, ds5, e4, e5, f4, f5, fs4, g4, g5, gs4,
  gs5, rest,
}

unfoldable pub harrypotter_melody : List (ℕ × ℤ)
harrypotter_melody = rows (
    (n rest 2 ∷ n d4 4 ∷ p g4 4 ∷ n as4 8 ∷ n a4 4 ∷ [])
    ∷ (n g4 2 ∷ n d5 4 ∷ p c5 2 ∷ p a4 2 ∷ [])
    ∷ (p g4 4 ∷ n as4 8 ∷ n a4 4 ∷ n f4 2 ∷ n gs4 4 ∷ [])
    ∷ (p d4 1 ∷ n d4 4 ∷ p g4 4 ∷ n as4 8 ∷ n a4 4 ∷ [])
    ∷ (n g4 2 ∷ n d5 4 ∷ n f5 2 ∷ n e5 4 ∷ [])
    ∷ (n ds5 2 ∷ n b4 4 ∷ p ds5 4 ∷ n d5 8 ∷ n cs5 4 ∷ [])
    ∷ (n cs4 2 ∷ n b4 4 ∷ p g4 1 ∷ n as4 4 ∷ [])
    ∷ (n d5 2 ∷ n as4 4 ∷ n d5 2 ∷ n as4 4 ∷ [])
    ∷ (n ds5 2 ∷ n d5 4 ∷ n cs5 2 ∷ n a4 4 ∷ [])
    ∷ (p as4 4 ∷ n d5 8 ∷ n cs5 4 ∷ n cs4 2 ∷ n d4 4 ∷ [])
    ∷ (p d5 1 ∷ n rest 4 ∷ n as4 4 ∷ n d5 2 ∷ n as4 4 ∷ [])
    ∷ (n d5 2 ∷ n as4 4 ∷ n f5 2 ∷ n e5 4 ∷ [])
    ∷ (n ds5 2 ∷ n b4 4 ∷ p ds5 4 ∷ n d5 8 ∷ n cs5 4 ∷ [])
    ∷ (n cs4 2 ∷ n as4 4 ∷ p g4 1 ∷ [])
    ∷ [])

unfoldable pub imperialmarch_melody : List (ℕ × ℤ)
imperialmarch_melody = rows (
    (p a4 4 ∷ p a4 4 ∷ n a4 16 ∷ n a4 16 ∷ n a4 16 ∷ n a4 16 ∷ n f4 8 ∷ n rest 8 ∷ [])
    ∷ (p a4 4 ∷ p a4 4 ∷ n a4 16 ∷ n a4 16 ∷ n a4 16 ∷ n a4 16 ∷ n f4 8 ∷ n rest 8 ∷ [])
    ∷ (n a4 4 ∷ n a4 4 ∷ n a4 4 ∷ p f4 8 ∷ n c5 16 ∷ [])
    ∷ (n a4 4 ∷ p f4 8 ∷ n c5 16 ∷ n a4 2 ∷ [])
    ∷ (n e5 4 ∷ n e5 4 ∷ n e5 4 ∷ p f5 8 ∷ n c5 16 ∷ [])
    ∷ (n a4 4 ∷ p f4 8 ∷ n c5 16 ∷ n a4 2 ∷ [])
    ∷ (n a5 4 ∷ p a4 8 ∷ n a4 16 ∷ n a5 4 ∷ p gs5 8 ∷ n g5 16 ∷ [])
    ∷ (n ds5 16 ∷ n d5 16 ∷ n ds5 8 ∷ n rest 8 ∷ n a4 8 ∷ n ds5 4 ∷ p d5 8 ∷ n cs5 16 ∷ [])
    ∷ (n c5 16 ∷ n b4 16 ∷ n c5 16 ∷ n rest 8 ∷ n f4 8 ∷ n gs4 4 ∷ p f4 8 ∷ p a4 16 ∷ [])
    ∷ (n c5 4 ∷ p a4 8 ∷ n c5 16 ∷ n e5 2 ∷ [])
    ∷ (n a5 4 ∷ p a4 8 ∷ n a4 16 ∷ n a5 4 ∷ p gs5 8 ∷ n g5 16 ∷ [])
    ∷ (n ds5 16 ∷ n d5 16 ∷ n ds5 8 ∷ n rest 8 ∷ n a4 8 ∷ n ds5 4 ∷ p d5 8 ∷ n cs5 16 ∷ [])
    ∷ (n c5 16 ∷ n b4 16 ∷ n c5 16 ∷ n rest 8 ∷ n f4 8 ∷ n gs4 4 ∷ p f4 8 ∷ p a4 16 ∷ [])
    ∷ (n a4 4 ∷ p f4 8 ∷ n c5 16 ∷ n a4 2 ∷ [])
    ∷ [])

unfoldable pub pinkpanther_melody : List (ℕ × ℤ)
pinkpanther_melody = rows (
    (n rest 2 ∷ n rest 4 ∷ n rest 8 ∷ n ds4 8 ∷ [])
    ∷ (p e4 4 ∷ n rest 8 ∷ n fs4 8 ∷ p g4 4 ∷ n rest 8 ∷ n ds4 8 ∷ [])
    ∷ (p e4 8 ∷ n fs4 8 ∷ p g4 8 ∷ n c5 8 ∷ p b4 8 ∷ n e4 8 ∷ p g4 8 ∷ n b4 8 ∷ [])
    ∷ (n as4 2 ∷ p a4 16 ∷ p g4 16 ∷ p e4 16 ∷ p d4 16 ∷ [])
    ∷ (n e4 2 ∷ n rest 4 ∷ n rest 8 ∷ n ds4 4 ∷ [])
    ∷ (p e4 4 ∷ n rest 8 ∷ n fs4 8 ∷ p g4 4 ∷ n rest 8 ∷ n ds4 8 ∷ [])
    ∷ (p e4 8 ∷ n fs4 8 ∷ p g4 8 ∷ n c5 8 ∷ p b4 8 ∷ n g4 8 ∷ p b4 8 ∷ n e5 8 ∷ [])
    ∷ (n ds5 1 ∷ n d5 2 ∷ n rest 4 ∷ n rest 8 ∷ n ds4 8 ∷ [])
    ∷ (p e4 4 ∷ n rest 8 ∷ n fs4 8 ∷ p g4 4 ∷ n rest 8 ∷ n ds4 8 ∷ [])
    ∷ (p e4 8 ∷ n fs4 8 ∷ p g4 8 ∷ n c5 8 ∷ p b4 8 ∷ n e4 8 ∷ p g4 8 ∷ n b4 8 ∷ [])
    ∷ (n as4 2 ∷ p a4 16 ∷ p g4 16 ∷ p e4 16 ∷ p d4 16 ∷ [])
    ∷ (p e4 4 ∷ n rest 4 ∷ n rest 4 ∷ p e5 8 ∷ n d5 8 ∷ p b4 8 ∷ n a4 8 ∷ p g4 8 ∷ [])
    ∷ (p e4 8 ∷ [])
    ∷ (n as4 16 ∷ p a4 8 ∷ n as4 16 ∷ p a4 8 ∷ n as4 16 ∷ p a4 8 ∷ n as4 16 ∷ p a4 8 ∷ [])
    ∷ (p g4 16 ∷ p e4 16 ∷ p d4 16 ∷ n e4 16 ∷ n e4 16 ∷ n e4 2 ∷ [])
    ∷ [])

unfoldable pub thegodfather_melody : List (ℕ × ℤ)
thegodfather_melody = rows (
    (n rest 4 ∷ n rest 8 ∷ n rest 8 ∷ n rest 8 ∷ n e4 8 ∷ n a4 8 ∷ n c5 8 ∷ [])
    ∷ (n b4 8 ∷ n a4 8 ∷ n c5 8 ∷ n a4 8 ∷ n b4 8 ∷ n a4 8 ∷ n f4 8 ∷ n g4 8 ∷ [])
    ∷ (n e4 2 ∷ n e4 8 ∷ n a4 8 ∷ n c5 8 ∷ [])
    ∷ (n b4 8 ∷ n a4 8 ∷ n c5 8 ∷ n a4 8 ∷ n c5 8 ∷ n a4 8 ∷ n e4 8 ∷ n ds4 8 ∷ [])
    ∷ (n d4 2 ∷ n d4 8 ∷ n f4 8 ∷ n gs4 8 ∷ [])
    ∷ (n b4 2 ∷ n d4 8 ∷ n f4 8 ∷ n gs4 8 ∷ [])
    ∷ (n a4 2 ∷ n c4 8 ∷ n c4 8 ∷ n g4 8 ∷ [])
    ∷ (n f4 8 ∷ n e4 8 ∷ n g4 8 ∷ n f4 8 ∷ n f4 8 ∷ n e4 8 ∷ n e4 8 ∷ n gs4 8 ∷ [])
    ∷ (n a4 2 ∷ n rest 8 ∷ n a4 8 ∷ n a4 8 ∷ n gs4 8 ∷ [])
    ∷ (n g4 2 ∷ n b4 8 ∷ n a4 8 ∷ n f4 8 ∷ [])
    ∷ (n e4 2 ∷ n e4 8 ∷ n g4 8 ∷ n e4 8 ∷ [])
    ∷ (n d4 2 ∷ n d4 8 ∷ n d4 8 ∷ n f4 8 ∷ n ds4 8 ∷ [])
    ∷ (n e4 2 ∷ n rest 8 ∷ n e4 8 ∷ n a4 8 ∷ n c5 8 ∷ [])
    ∷ (n b4 8 ∷ n a4 8 ∷ n c5 8 ∷ n a4 8 ∷ n b4 8 ∷ n a4 8 ∷ n f4 8 ∷ n g4 8 ∷ [])
    ∷ (n e4 2 ∷ n e4 8 ∷ n a4 8 ∷ n c5 8 ∷ [])
    ∷ (n b4 8 ∷ n a4 8 ∷ n c5 8 ∷ n a4 8 ∷ n c5 8 ∷ n a4 8 ∷ n e4 8 ∷ n ds4 8 ∷ [])
    ∷ (n d4 2 ∷ n d4 8 ∷ n f4 8 ∷ n gs4 8 ∷ [])
    ∷ (n b4 2 ∷ n d4 8 ∷ n f4 8 ∷ n gs4 8 ∷ [])
    ∷ (n a4 2 ∷ n c4 8 ∷ n c4 8 ∷ n g4 8 ∷ [])
    ∷ (n f4 8 ∷ n e4 8 ∷ n g4 8 ∷ n f4 8 ∷ n f4 8 ∷ n e4 8 ∷ n e4 8 ∷ n gs4 8 ∷ [])
    ∷ (n a4 2 ∷ n rest 8 ∷ n a4 8 ∷ n a4 8 ∷ n gs4 8 ∷ [])
    ∷ (n g4 2 ∷ n b4 8 ∷ n a4 8 ∷ n f4 8 ∷ [])
    ∷ (n e4 2 ∷ n e4 8 ∷ n g4 8 ∷ n e4 8 ∷ [])
    ∷ (n d4 2 ∷ n d4 8 ∷ n d4 8 ∷ n f4 8 ∷ n ds4 8 ∷ [])
    ∷ (n e4 2 ∷ [])
    ∷ [])
