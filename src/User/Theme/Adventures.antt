-- ===== src/User/Theme/Adventures.antt =====
-- The melodies of user/theme_lib.c for Greenhill and Prince Elgor.
-- A melody is the list of its pairs of entries.
use kernel_genesis_os.Base.{ℕ, ℤ, List, [], ◌∷◌}
use kernel_genesis_os.User.Theme.Notes.{
  n, p, rows, a4, a5, as4, b4, c5, cs4, cs5, d4, d5, ds4, e4, e5, f4, f5, fs4, fs5, g4, g5, rest,
}

unfoldable pub greenhill_melody : List (ℕ × ℤ)
greenhill_melody = rows (
    (n rest 2 ∷ n d5 8 ∷ n b4 4 ∷ n d5 8 ∷ [])
    ∷ (n cs5 4 ∷ n d5 8 ∷ n cs5 4 ∷ n a4 2 ∷ [])
    ∷ (n rest 8 ∷ n a4 8 ∷ n fs5 8 ∷ n e5 4 ∷ n d5 8 ∷ [])
    ∷ (n cs5 4 ∷ n d5 8 ∷ n cs5 4 ∷ n a4 2 ∷ [])
    ∷ (n rest 4 ∷ n d5 8 ∷ n b4 4 ∷ n d5 8 ∷ [])
    ∷ (n cs5 4 ∷ n d5 8 ∷ n cs5 4 ∷ n a4 2 ∷ [])
    ∷ (n rest 8 ∷ n b4 8 ∷ n b4 8 ∷ n g4 4 ∷ n b4 8 ∷ [])
    ∷ (n a4 4 ∷ n b4 8 ∷ n a4 4 ∷ n d4 2 ∷ [])
    ∷ (n rest 4 ∷ n d5 8 ∷ n b4 4 ∷ n d5 8 ∷ [])
    ∷ (n cs5 4 ∷ n d5 8 ∷ n cs5 4 ∷ n a4 2 ∷ [])
    ∷ (n rest 8 ∷ n a4 8 ∷ n fs5 8 ∷ n e5 4 ∷ n d5 8 ∷ [])
    ∷ (n cs5 4 ∷ n d5 8 ∷ n cs5 4 ∷ n a4 2 ∷ [])
    ∷ (n rest 4 ∷ n d5 8 ∷ n b4 4 ∷ n d5 8 ∷ [])
    ∷ (n cs5 4 ∷ n d5 8 ∷ n cs5 4 ∷ n a4 2 ∷ [])
    ∷ (n rest 8 ∷ n b4 8 ∷ n b4 8 ∷ n g4 4 ∷ n b4 8 ∷ [])
    ∷ (n a4 4 ∷ n b4 8 ∷ n a4 4 ∷ n d4 8 ∷ n d4 8 ∷ n fs4 8 ∷ [])
    ∷ (p e4 1 ∷ n rest 8 ∷ n d4 8 ∷ n e4 8 ∷ p fs4 1 ∷ [])
    ∷ (n rest 8 ∷ n d4 8 ∷ n d4 8 ∷ n fs4 8 ∷ p f4 1 ∷ [])
    ∷ (n rest 8 ∷ n d4 8 ∷ n f4 8 ∷ p e4 1 ∷ [])
    ∷ (n rest 2 ∷ n d5 8 ∷ n b4 4 ∷ n d5 8 ∷ [])
    ∷ (n cs5 4 ∷ n d5 8 ∷ n cs5 4 ∷ n a4 2 ∷ [])
    ∷ (n rest 8 ∷ n a4 8 ∷ n fs5 8 ∷ n e5 4 ∷ n d5 8 ∷ [])
    ∷ (n cs5 4 ∷ n d5 8 ∷ n cs5 4 ∷ n a4 2 ∷ [])
    ∷ (n rest 4 ∷ n d5 8 ∷ n b4 4 ∷ n d5 8 ∷ [])
    ∷ (n cs5 4 ∷ n d5 8 ∷ n cs5 4 ∷ n a4 2 ∷ [])
    ∷ (n rest 8 ∷ n b4 8 ∷ n b4 8 ∷ n g4 4 ∷ n b4 8 ∷ [])
    ∷ (n a4 4 ∷ n b4 8 ∷ n a4 4 ∷ n d4 2 ∷ [])
    ∷ (n rest 4 ∷ n d5 8 ∷ n b4 4 ∷ n d5 8 ∷ [])
    ∷ (n cs5 4 ∷ n d5 8 ∷ n cs5 4 ∷ n a4 2 ∷ [])
    ∷ (n rest 8 ∷ n a4 8 ∷ n fs5 8 ∷ n e5 4 ∷ n d5 8 ∷ [])
    ∷ (n cs5 4 ∷ n d5 8 ∷ n cs5 4 ∷ n a4 2 ∷ [])
    ∷ (n rest 4 ∷ n d5 8 ∷ n b4 4 ∷ n d5 8 ∷ [])
    ∷ (n cs5 4 ∷ n d5 8 ∷ n cs5 4 ∷ n a4 2 ∷ [])
    ∷ (n rest 8 ∷ n b4 8 ∷ n b4 8 ∷ n g4 4 ∷ n b4 8 ∷ [])
    ∷ (n a4 4 ∷ n b4 8 ∷ n a4 4 ∷ n d4 8 ∷ n d4 8 ∷ n fs4 8 ∷ [])
    ∷ (p e4 1 ∷ n rest 8 ∷ n d4 8 ∷ n e4 8 ∷ p fs4 1 ∷ [])
    ∷ (n rest 8 ∷ n d4 8 ∷ n d4 8 ∷ n fs4 8 ∷ p f4 1 ∷ [])
    ∷ (n rest 8 ∷ n d4 8 ∷ n f4 8 ∷ n e4 8 ∷ [])
    ∷ (p e4 2 ∷ n a4 8 ∷ n cs5 8 ∷ n fs5 8 ∷ n e5 4 ∷ n d5 8 ∷ p a5 4 ∷ [])
    ∷ [])

unfoldable pub princelgor_melody : List (ℕ × ℤ)
princelgor_melody = rows (
    (n g4 4 ∷ n g4 4 ∷ p d5 2 ∷ n c5 8 ∷ n d5 8 ∷ n as4 4 ∷ n a4 8 ∷ n g4 8 ∷ [])
    ∷ (n a4 8 ∷ n as4 8 ∷ n c5 1 ∷ n d5 4 ∷ n a4 4 ∷ n g4 8 ∷ n f4 8 ∷ [])
    ∷ (n d4 4 ∷ n d4 4 ∷ p g4 2 ∷ n a4 4 ∷ n g4 4 ∷ n f4 8 ∷ n e4 8 ∷ [])
    ∷ (n f4 4 ∷ n e4 4 ∷ n d4 1 ∷ n e4 4 ∷ n f4 4 ∷ n a4 4 ∷ [])
    ∷ (n g4 4 ∷ n g4 4 ∷ p as4 2 ∷ n c5 4 ∷ n as4 4 ∷ n a4 8 ∷ n g4 8 ∷ [])
    ∷ (n a4 4 ∷ n as4 4 ∷ p c5 2 ∷ n cs5 4 ∷ n c5 4 ∷ n a4 4 ∷ [])
    ∷ (n cs5 4 ∷ n cs4 4 ∷ p f5 2 ∷ n g5 4 ∷ n f5 4 ∷ n ds4 8 ∷ n cs4 8 ∷ [])
    ∷ (n f5 2 ∷ p c5 2 ∷ n as4 4 ∷ n c5 4 ∷ n as4 8 ∷ n a4 8 ∷ [])
    ∷ (n g4 4 ∷ n g4 4 ∷ n as4 1 ∷ n c5 4 ∷ n as4 4 ∷ n a4 8 ∷ n g4 8 ∷ [])
    ∷ (n f4 4 ∷ n g4 4 ∷ n a4 1 ∷ n as4 4 ∷ n a4 4 ∷ n f4 4 ∷ [])
    ∷ (n g4 4 ∷ n g4 4 ∷ p d5 2 ∷ n c5 4 ∷ n as4 4 ∷ n a4 8 ∷ n g4 8 ∷ [])
    ∷ (p a4 1 ∷ p a4 1 ∷ n rest 2 ∷ n g4 4 ∷ n g4 4 ∷ p d5 2 ∷ [])
    ∷ (n c5 8 ∷ n d5 8 ∷ n as4 4 ∷ n a4 8 ∷ n g4 8 ∷ [])
    ∷ (n a4 8 ∷ n as4 8 ∷ n c5 1 ∷ n c5 8 ∷ n d5 8 ∷ n c5 4 ∷ n as4 8 ∷ n a4 8 ∷ [])
    ∷ (n d4 4 ∷ n d4 4 ∷ p g4 2 ∷ n g4 8 ∷ n a4 8 ∷ n g4 4 ∷ n f4 8 ∷ n e4 8 ∷ [])
    ∷ (n f4 8 ∷ n e4 8 ∷ p d4 2 ∷ n rest 4 ∷ n c5 8 ∷ n d5 8 ∷ n c5 4 ∷ n as4 8 ∷ [])
    ∷ (n a4 8 ∷ [])
    ∷ (n g4 4 ∷ n g4 4 ∷ p b4 2 ∷ n c5 4 ∷ n as4 4 ∷ n a4 8 ∷ n g4 8 ∷ [])
    ∷ (n a4 4 ∷ n g4 4 ∷ p f4 1 ∷ n rest 4 ∷ [])
    ∷ (n g4 4 ∷ n g4 4 ∷ p d5 2 ∷ n c5 8 ∷ n d5 8 ∷ n as4 4 ∷ n a4 8 ∷ n g4 8 ∷ [])
    ∷ (n a4 4 ∷ n g4 4 ∷ p f4 2 ∷ n a4 4 ∷ n g4 4 ∷ p f4 2 ∷ [])
    ∷ (n a4 4 ∷ n g4 4 ∷ p f4 1 ∷ [])
    ∷ [])
