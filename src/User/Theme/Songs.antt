-- ===== src/User/Theme/Songs.antt =====
-- The melodies of user/theme_lib.c for songs, and for the end of a game.
-- A melody is the list of its pairs of entries.
use kernel_genesis_os.Base.{ℕ, ℤ, List, [], ◌∷◌}
use kernel_genesis_os.User.Theme.Notes.{
  n, p, rows, a3, a4, a5, b3, b4, b5, c4, c5, c6, cs4, cs5, d3, d4, d5, e3, e4, e5, f4, f5, fs3,
  fs4, fs5, g3, g4, g5, gs5, rest,
}

unfoldable pub silentnight_melody : List (ℕ × ℤ)
silentnight_melody = rows (
    (p g4 4 ∷ n a4 8 ∷ n g4 4 ∷ p e4 2 ∷ [])
    ∷ (p g4 4 ∷ n a4 8 ∷ n g4 4 ∷ p e4 2 ∷ [])
    ∷ (n d5 2 ∷ n d5 4 ∷ p b4 2 ∷ n c5 2 ∷ n c5 4 ∷ [])
    ∷ (p g4 2 ∷ n a4 2 ∷ n a4 4 ∷ p c5 4 ∷ n b4 8 ∷ n a4 4 ∷ [])
    ∷ (p g4 4 ∷ n a4 8 ∷ n g4 4 ∷ p e4 2 ∷ [])
    ∷ (n a4 2 ∷ n a4 4 ∷ p c5 4 ∷ n b4 8 ∷ n a4 4 ∷ [])
    ∷ (p g4 4 ∷ n a4 8 ∷ n g4 4 ∷ p e4 2 ∷ [])
    ∷ (n d5 2 ∷ n d5 4 ∷ p f5 4 ∷ n d5 8 ∷ n b4 4 ∷ [])
    ∷ (p c5 2 ∷ p e5 2 ∷ n c5 4 ∷ n g4 4 ∷ n e4 4 ∷ [])
    ∷ (p g4 4 ∷ n f4 8 ∷ n d4 4 ∷ p c4 2 ∷ [])
    ∷ (p c4 1 ∷ [])
    ∷ [])

unfoldable pub cannonind_melody : List (ℕ × ℤ)
cannonind_melody = rows (
    (n fs4 2 ∷ n e4 2 ∷ n d4 2 ∷ n cs4 2 ∷ [])
    ∷ (n b3 2 ∷ n a3 2 ∷ n b3 2 ∷ n cs4 2 ∷ [])
    ∷ (n fs4 2 ∷ n e4 2 ∷ n d4 2 ∷ n cs4 2 ∷ [])
    ∷ (n b3 2 ∷ n a3 2 ∷ n b3 2 ∷ n cs4 2 ∷ [])
    ∷ (n d4 2 ∷ n cs4 2 ∷ n b3 2 ∷ n a3 2 ∷ [])
    ∷ (n g3 2 ∷ n fs3 2 ∷ n g3 2 ∷ n a3 2 ∷ [])
    ∷ (n d4 4 ∷ n fs4 8 ∷ n g4 8 ∷ n a4 4 ∷ n fs4 8 ∷ n g4 8 ∷ [])
    ∷ (n a4 4 ∷ n b3 8 ∷ n cs4 8 ∷ n d4 8 ∷ n e4 8 ∷ n fs4 8 ∷ n g4 8 ∷ [])
    ∷ (n fs4 4 ∷ n d4 8 ∷ n e4 8 ∷ n fs4 4 ∷ n fs3 8 ∷ n g3 8 ∷ [])
    ∷ (n a3 8 ∷ n g3 8 ∷ n fs3 8 ∷ n g3 8 ∷ n a3 2 ∷ [])
    ∷ (n g3 4 ∷ n b3 8 ∷ n a3 8 ∷ n g3 4 ∷ n fs3 8 ∷ n e3 8 ∷ [])
    ∷ (n fs3 4 ∷ n d3 8 ∷ n e3 8 ∷ n fs3 8 ∷ n g3 8 ∷ n a3 8 ∷ n b3 8 ∷ [])
    ∷ (n g3 4 ∷ n b3 8 ∷ n a3 8 ∷ n b3 4 ∷ n cs4 8 ∷ n d4 8 ∷ [])
    ∷ (n a3 8 ∷ n b3 8 ∷ n cs4 8 ∷ n d4 8 ∷ n e4 8 ∷ n fs4 8 ∷ n g4 8 ∷ n a4 2 ∷ [])
    ∷ (n a4 4 ∷ n fs4 8 ∷ n g4 8 ∷ n a4 4 ∷ [])
    ∷ (n fs4 8 ∷ n g4 8 ∷ n a4 8 ∷ n a3 8 ∷ n b3 8 ∷ n cs4 8 ∷ [])
    ∷ (n d4 8 ∷ n e4 8 ∷ n fs4 8 ∷ n g4 8 ∷ n fs4 4 ∷ n d4 8 ∷ n e4 8 ∷ [])
    ∷ (n fs4 8 ∷ n cs4 8 ∷ n a3 8 ∷ n a3 8 ∷ [])
    ∷ (n cs4 4 ∷ n b3 4 ∷ n d4 8 ∷ n cs4 8 ∷ n b3 4 ∷ [])
    ∷ (n a3 8 ∷ n g3 8 ∷ n a3 4 ∷ n d3 8 ∷ n e3 8 ∷ n fs3 8 ∷ n g3 8 ∷ [])
    ∷ (n a3 8 ∷ n b3 4 ∷ n g3 4 ∷ n b3 8 ∷ n a3 8 ∷ n b3 4 ∷ [])
    ∷ (n cs4 8 ∷ n d4 8 ∷ n a3 8 ∷ n b3 8 ∷ n cs4 8 ∷ n d4 8 ∷ n e4 8 ∷ [])
    ∷ (n fs4 8 ∷ n g4 8 ∷ n a4 2 ∷ [])
    ∷ [])

unfoldable pub keyboardcat_melody : List (ℕ × ℤ)
keyboardcat_melody = rows (
    (n rest 1 ∷ n rest 1 ∷ n c4 4 ∷ n e4 4 ∷ n g4 4 ∷ n e4 4 ∷ [])
    ∷ (n c4 4 ∷ n e4 8 ∷ p g4 4 ∷ n e4 4 ∷ [])
    ∷ (n a3 4 ∷ n c4 4 ∷ n e4 4 ∷ n c4 4 ∷ [])
    ∷ (n a3 4 ∷ n c4 8 ∷ p e4 4 ∷ n c4 4 ∷ [])
    ∷ (n g3 4 ∷ n b3 4 ∷ n d4 4 ∷ n b3 4 ∷ [])
    ∷ (n g3 4 ∷ n b3 8 ∷ p d4 4 ∷ n b3 4 ∷ [])
    ∷ (n g3 4 ∷ n g3 8 ∷ p g3 4 ∷ n g3 8 ∷ n g3 4 ∷ [])
    ∷ (n g3 4 ∷ n g3 4 ∷ n g3 8 ∷ n g3 4 ∷ [])
    ∷ (n c4 4 ∷ n e4 4 ∷ n g4 4 ∷ n e4 4 ∷ [])
    ∷ (n c4 4 ∷ n e4 8 ∷ p g4 4 ∷ n e4 4 ∷ [])
    ∷ (n a3 4 ∷ n c4 4 ∷ n e4 4 ∷ n c4 4 ∷ [])
    ∷ (n a3 4 ∷ n c4 8 ∷ p e4 4 ∷ n c4 4 ∷ [])
    ∷ (n g3 4 ∷ n b3 4 ∷ n d4 4 ∷ n b3 4 ∷ [])
    ∷ (n g3 4 ∷ n b3 8 ∷ p d4 4 ∷ n b3 4 ∷ [])
    ∷ (p g3 1 ∷ [])
    ∷ [])

unfoldable pub nvrgonnagiveuup_melody : List (ℕ × ℤ)
nvrgonnagiveuup_melody = rows (
    (p d5 4 ∷ p e5 4 ∷ n a4 4 ∷ p e5 4 ∷ p fs5 4 ∷ n a5 16 ∷ n g5 16 ∷ n fs5 8 ∷ [])
    ∷ (p d5 4 ∷ p e5 4 ∷ n a4 2 ∷ n a4 16 ∷ n a4 16 ∷ n b4 16 ∷ n d5 8 ∷ n d5 16 ∷ [])
    ∷ (p d5 4 ∷ p e5 4 ∷ n a4 4 ∷ p e5 4 ∷ p fs5 4 ∷ n a5 16 ∷ n g5 16 ∷ n fs5 8 ∷ [])
    ∷ (p d5 4 ∷ p e5 4 ∷ n a4 2 ∷ n a4 16 ∷ n a4 16 ∷ n b4 16 ∷ n d5 8 ∷ n d5 16 ∷ [])
    ∷ (n rest 4 ∷ n b4 8 ∷ n cs5 8 ∷ n d5 8 ∷ n d5 8 ∷ n e5 8 ∷ p cs5 8 ∷ [])
    ∷ (n b4 16 ∷ n a4 2 ∷ n rest 4 ∷ n rest 8 ∷ n b4 8 ∷ n b4 8 ∷ n cs5 8 ∷ n d5 8 ∷ [])
    ∷ (n b4 4 ∷ n a4 8 ∷ [])
    ∷ (n a5 8 ∷ n rest 8 ∷ n a5 8 ∷ p e5 4 ∷ n rest 4 ∷ [])
    ∷ (n b4 8 ∷ n b4 8 ∷ n cs5 8 ∷ n d5 8 ∷ n b4 8 ∷ n d5 8 ∷ n e5 8 ∷ n rest 8 ∷ [])
    ∷ (n rest 8 ∷ n cs5 8 ∷ n b4 8 ∷ p a4 4 ∷ n rest 4 ∷ [])
    ∷ (n rest 8 ∷ n b4 8 ∷ n b4 8 ∷ n cs5 8 ∷ n d5 8 ∷ n b4 8 ∷ n a4 4 ∷ [])
    ∷ (n e5 8 ∷ n e5 8 ∷ n e5 8 ∷ n fs5 8 ∷ n e5 4 ∷ n rest 4 ∷ [])
    ∷ (n d5 2 ∷ n e5 8 ∷ n fs5 8 ∷ n d5 8 ∷ [])
    ∷ (n e5 8 ∷ n e5 8 ∷ n e5 8 ∷ n fs5 8 ∷ n e5 4 ∷ n a4 4 ∷ [])
    ∷ (n rest 2 ∷ n b4 8 ∷ n cs5 8 ∷ n d5 8 ∷ n b4 8 ∷ [])
    ∷ (n rest 8 ∷ n e5 8 ∷ n fs5 8 ∷ p e5 4 ∷ n a4 16 ∷ n b4 16 ∷ n d5 16 ∷ n b4 16 ∷ [])
    ∷ (p fs5 8 ∷ p fs5 8 ∷ p e5 4 ∷ n a4 16 ∷ n b4 16 ∷ n d5 16 ∷ n b4 16 ∷ [])
    ∷ (p e5 8 ∷ p e5 8 ∷ p d5 8 ∷ n cs5 16 ∷ p b4 8 ∷ n a4 16 ∷ n b4 16 ∷ n d5 16 ∷ [])
    ∷ (n b4 16 ∷ [])
    ∷ (n d5 4 ∷ n e5 8 ∷ p cs5 8 ∷ n b4 16 ∷ n a4 8 ∷ n a4 8 ∷ n a4 8 ∷ [])
    ∷ (n e5 4 ∷ n d5 2 ∷ n a4 16 ∷ n b4 16 ∷ n d5 16 ∷ n b4 16 ∷ [])
    ∷ (p fs5 8 ∷ p fs5 8 ∷ p e5 4 ∷ n a4 16 ∷ n b4 16 ∷ n d5 16 ∷ n b4 16 ∷ [])
    ∷ (n a5 4 ∷ n cs5 8 ∷ p d5 8 ∷ n cs5 16 ∷ n b4 8 ∷ n a4 16 ∷ n b4 16 ∷ n d5 16 ∷ [])
    ∷ (n b4 16 ∷ [])
    ∷ (n d5 4 ∷ n e5 8 ∷ p cs5 8 ∷ n b4 16 ∷ n a4 4 ∷ n a4 8 ∷ [])
    ∷ (n e5 4 ∷ n d5 2 ∷ n rest 4 ∷ n rest 8 ∷ n b4 8 ∷ n d5 8 ∷ n b4 8 ∷ n d5 8 ∷ [])
    ∷ (n e5 4 ∷ n rest 8 ∷ [])
    ∷ (n rest 8 ∷ n cs5 8 ∷ n b4 8 ∷ p a4 4 ∷ n rest 4 ∷ [])
    ∷ (n rest 8 ∷ n b4 8 ∷ n b4 8 ∷ n cs5 8 ∷ n d5 8 ∷ n b4 8 ∷ n a4 4 ∷ [])
    ∷ (n rest 8 ∷ n a5 8 ∷ n a5 8 ∷ n e5 8 ∷ n fs5 8 ∷ n e5 8 ∷ n d5 8 ∷ [])
    ∷ (n rest 8 ∷ n a4 8 ∷ n b4 8 ∷ n cs5 8 ∷ n d5 8 ∷ n b4 8 ∷ [])
    ∷ (n rest 8 ∷ n cs5 8 ∷ n b4 8 ∷ p a4 4 ∷ n rest 4 ∷ [])
    ∷ (n b4 8 ∷ n b4 8 ∷ n cs5 8 ∷ n d5 8 ∷ n b4 8 ∷ n a4 4 ∷ n rest 8 ∷ [])
    ∷ (n rest 8 ∷ n e5 8 ∷ n e5 8 ∷ n fs5 4 ∷ p e5 4 ∷ [])
    ∷ (n d5 2 ∷ n d5 8 ∷ n e5 8 ∷ n fs5 8 ∷ n e5 4 ∷ [])
    ∷ (n e5 8 ∷ n e5 8 ∷ n fs5 8 ∷ n e5 8 ∷ n a4 8 ∷ n a4 4 ∷ [])
    ∷ (p rest 4 ∷ n a4 8 ∷ n b4 8 ∷ n cs5 8 ∷ n d5 8 ∷ n b4 8 ∷ [])
    ∷ (n rest 8 ∷ n e5 8 ∷ n fs5 8 ∷ p e5 4 ∷ n a4 16 ∷ n b4 16 ∷ n d5 16 ∷ n b4 16 ∷ [])
    ∷ (p fs5 8 ∷ p fs5 8 ∷ p e5 4 ∷ n a4 16 ∷ n b4 16 ∷ n d5 16 ∷ n b4 16 ∷ [])
    ∷ (p e5 8 ∷ p e5 8 ∷ p d5 8 ∷ n cs5 16 ∷ n b4 8 ∷ n a4 16 ∷ n b4 16 ∷ n d5 16 ∷ [])
    ∷ (n b4 16 ∷ [])
    ∷ (n d5 4 ∷ n e5 8 ∷ p cs5 8 ∷ n b4 16 ∷ n a4 4 ∷ n a4 8 ∷ [])
    ∷ (n e5 4 ∷ n d5 2 ∷ n a4 16 ∷ n b4 16 ∷ n d5 16 ∷ n b4 16 ∷ [])
    ∷ (p fs5 8 ∷ p fs5 8 ∷ p e5 4 ∷ n a4 16 ∷ n b4 16 ∷ n d5 16 ∷ n b4 16 ∷ [])
    ∷ (n a5 4 ∷ n cs5 8 ∷ p d5 8 ∷ n cs5 16 ∷ n b4 8 ∷ n a4 16 ∷ n b4 16 ∷ n d5 16 ∷ [])
    ∷ (n b4 16 ∷ [])
    ∷ (n d5 4 ∷ n e5 8 ∷ p cs5 8 ∷ n b4 16 ∷ n a4 4 ∷ n a4 8 ∷ [])
    ∷ (n e5 4 ∷ n d5 2 ∷ n a4 16 ∷ n b4 16 ∷ n d5 16 ∷ n b4 16 ∷ [])
    ∷ (p fs5 8 ∷ p fs5 8 ∷ p e5 4 ∷ n a4 16 ∷ n b4 16 ∷ n d5 16 ∷ n b4 16 ∷ [])
    ∷ (n a5 4 ∷ n cs5 8 ∷ p d5 8 ∷ n cs5 16 ∷ n b4 8 ∷ n a4 16 ∷ n b4 16 ∷ n d5 16 ∷ [])
    ∷ (n b4 16 ∷ [])
    ∷ (n d5 4 ∷ n e5 8 ∷ p cs5 8 ∷ n b4 16 ∷ n a4 4 ∷ n a4 8 ∷ [])
    ∷ (n e5 4 ∷ n d5 2 ∷ n a4 16 ∷ n b4 16 ∷ n d5 16 ∷ n b4 16 ∷ [])
    ∷ (p fs5 8 ∷ p fs5 8 ∷ p e5 4 ∷ n a4 16 ∷ n b4 16 ∷ n d5 16 ∷ n b4 16 ∷ [])
    ∷ (n a5 4 ∷ n cs5 8 ∷ p d5 8 ∷ n cs5 16 ∷ n b4 8 ∷ n a4 16 ∷ n b4 16 ∷ n d5 16 ∷ [])
    ∷ (n b4 16 ∷ [])
    ∷ (n d5 4 ∷ n e5 8 ∷ p cs5 8 ∷ n b4 16 ∷ n a4 4 ∷ n a4 8 ∷ [])
    ∷ (n e5 4 ∷ n d5 2 ∷ n rest 4 ∷ [])
    ∷ [])

unfoldable pub takeonme_melody : List (ℕ × ℤ)
takeonme_melody = rows (
    (n fs5 8 ∷ n fs5 8 ∷ n d5 8 ∷ n b4 8 ∷ n rest 8 ∷ n b4 8 ∷ n rest 8 ∷ n e5 8 ∷ [])
    ∷ (n rest 8 ∷ n e5 8 ∷ n rest 8 ∷ n e5 8 ∷ n gs5 8 ∷ n gs5 8 ∷ n a5 8 ∷ n b5 8 ∷ [])
    ∷ (n a5 8 ∷ n a5 8 ∷ n a5 8 ∷ n e5 8 ∷ n rest 8 ∷ n d5 8 ∷ n rest 8 ∷ n fs5 8 ∷ [])
    ∷ (n rest 8 ∷ n fs5 8 ∷ n rest 8 ∷ n fs5 8 ∷ n e5 8 ∷ n e5 8 ∷ n fs5 8 ∷ n e5 8 ∷ [])
    ∷ (n fs5 8 ∷ n fs5 8 ∷ n d5 8 ∷ n b4 8 ∷ n rest 8 ∷ n b4 8 ∷ n rest 8 ∷ n e5 8 ∷ [])
    ∷ (n rest 8 ∷ n e5 8 ∷ n rest 8 ∷ n e5 8 ∷ n gs5 8 ∷ n gs5 8 ∷ n a5 8 ∷ n b5 8 ∷ [])
    ∷ (n a5 8 ∷ n a5 8 ∷ n a5 8 ∷ n e5 8 ∷ n rest 8 ∷ n d5 8 ∷ n rest 8 ∷ n fs5 8 ∷ [])
    ∷ (n rest 8 ∷ n fs5 8 ∷ n rest 8 ∷ n fs5 8 ∷ n e5 8 ∷ n e5 8 ∷ n fs5 8 ∷ n e5 8 ∷ [])
    ∷ (n fs5 8 ∷ n fs5 8 ∷ n d5 8 ∷ n b4 8 ∷ n rest 8 ∷ n b4 8 ∷ n rest 8 ∷ n e5 8 ∷ [])
    ∷ (n rest 8 ∷ n e5 8 ∷ n rest 8 ∷ n e5 8 ∷ n gs5 8 ∷ n gs5 8 ∷ n a5 8 ∷ n b5 8 ∷ [])
    ∷ (n a5 8 ∷ n a5 8 ∷ n a5 8 ∷ n e5 8 ∷ n rest 8 ∷ n d5 8 ∷ n rest 8 ∷ n fs5 8 ∷ [])
    ∷ (n rest 8 ∷ n fs5 8 ∷ n rest 8 ∷ n fs5 8 ∷ n e5 8 ∷ n e5 8 ∷ n fs5 8 ∷ n e5 8 ∷ [])
    ∷ [])

unfoldable pub victory_melody : List (ℕ × ℤ)
victory_melody = rows (
    (n c5 16 ∷ n e5 16 ∷ n g5 16 ∷ n c6 16 ∷ [])
    ∷ (n c5 16 ∷ n e5 16 ∷ n g5 16 ∷ n c6 16 ∷ [])
    ∷ [])

unfoldable pub defeat_melody : List (ℕ × ℤ)
defeat_melody = rows (
    (n e4 16 ∷ n d4 16 ∷ n c4 16 ∷ n e4 16 ∷ n d4 16 ∷ n c4 16 ∷ [])
    ∷ (n d4 16 ∷ n c4 16 ∷ n b3 16 ∷ n c4 16 ∷ [])
    ∷ [])
