-- ===== src/User/Theme/Layton.antt =====
-- The melodies of user/theme_lib.c for Professor Layton.
-- A melody is the list of its pairs of entries.
use kernel_genesis_os.Base.{ℕ, ℤ, List, [], ◌∷◌}
use kernel_genesis_os.User.Theme.Notes.{
  n, p, rows, a4, as3, as4, as5, b3, b5, c4, c5, c6, cs5, d4, d5, d6, ds4, ds5, e5, f4, f5, fs4,
  fs5, g3, g4, g5, gs4, gs5, rest,
}

unfoldable pub professorlayton_melody : List (ℕ × ℤ)
professorlayton_melody = rows (
    (n d5 1 ∷ n ds5 1 ∷ n f5 1 ∷ n rest 4 ∷ p f5 4 ∷ n ds5 8 ∷ n d5 8 ∷ n f5 1 ∷ [])
    ∷ (n as4 8 ∷ [])
    ∷ (p g4 2 ∷ n f4 1 ∷ n f4 1 ∷ n rest 4 ∷ [])
    ∷ (n rest 8 ∷ n f4 8 ∷ n g4 8 ∷ n gs4 8 ∷ n as4 8 ∷ n c5 8 ∷ [])
    ∷ (n d5 1 ∷ n ds5 1 ∷ n f5 1 ∷ p f5 4 ∷ n ds5 8 ∷ n d5 8 ∷ n cs5 8 ∷ [])
    ∷ (p c5 2 ∷ n as4 8 ∷ n g4 1 ∷ p f4 1 ∷ [])
    ∷ (n rest 4 ∷ p d5 4 ∷ n rest 16 ∷ n d5 16 ∷ n d5 2 ∷ [])
    ∷ (n rest 4 ∷ n d5 8 ∷ n ds5 8 ∷ n f5 8 ∷ n g5 8 ∷ n f5 8 ∷ n ds5 8 ∷ n d5 8 ∷ [])
    ∷ (p d5 4 ∷ n ds5 16 ∷ n ds5 2 ∷ n rest 4 ∷ n g4 8 ∷ n c5 8 ∷ n d5 8 ∷ n ds5 8 ∷ [])
    ∷ (n f5 8 ∷ n ds5 8 ∷ n d5 8 ∷ [])
    ∷ (p c5 4 ∷ n rest 16 ∷ n g4 2 ∷ n rest 4 ∷ n g4 8 ∷ n gs4 8 ∷ n as4 8 ∷ n c5 8 ∷ [])
    ∷ (n as4 8 ∷ n gs4 8 ∷ n g5 8 ∷ [])
    ∷ (p f4 4 ∷ p as4 4 ∷ n g4 2 ∷ n rest 8 ∷ n c4 8 ∷ n d4 8 ∷ n ds4 8 ∷ n g4 8 ∷ [])
    ∷ (n c5 8 ∷ [])
    ∷ (p d5 4 ∷ n rest 16 ∷ p d5 16 ∷ n d5 2 ∷ [])
    ∷ (n rest 4 ∷ n d5 8 ∷ n ds5 8 ∷ n f5 8 ∷ n g5 8 ∷ n f5 8 ∷ n ds5 8 ∷ n d5 8 ∷ [])
    ∷ (p d5 4 ∷ p ds5 16 ∷ n ds5 2 ∷ n rest 4 ∷ n c5 8 ∷ n d5 8 ∷ n ds5 8 ∷ n f5 8 ∷ [])
    ∷ (n ds5 8 ∷ n d5 8 ∷ n as4 8 ∷ [])
    ∷ (p as4 4 ∷ p c5 4 ∷ p c5 4 ∷ p f4 4 ∷ n rest 8 ∷ n g4 4 ∷ n d5 4 ∷ n ds5 4 ∷ [])
    ∷ (p d5 4 ∷ n rest 16 ∷ n c5 16 ∷ n c5 2 ∷ [])
    ∷ (n rest 4 ∷ n d5 4 ∷ n ds5 4 ∷ n f5 4 ∷ [])
    ∷ (p g5 4 ∷ n rest 16 ∷ n f5 2 ∷ p as5 4 ∷ p g5 4 ∷ n ds5 4 ∷ [])
    ∷ (p d5 4 ∷ n rest 16 ∷ n ds5 2 ∷ n rest 4 ∷ n c5 8 ∷ n d5 8 ∷ n ds5 8 ∷ n e5 8 ∷ [])
    ∷ (n f5 8 ∷ n fs5 8 ∷ [])
    ∷ (p g5 4 ∷ p f5 4 ∷ n rest 4 ∷ n as5 2 ∷ [])
    ∷ (n g5 4 ∷ n f5 8 ∷ n g5 8 ∷ n rest 8 ∷ n e5 8 ∷ [])
    ∷ (n rest 8 ∷ n d5 8 ∷ p c5 2 ∷ n rest 8 ∷ n g4 8 ∷ n a4 8 ∷ n as4 8 ∷ n c5 8 ∷ [])
    ∷ (n d5 8 ∷ n ds5 8 ∷ [])
    ∷ (p ds5 4 ∷ p d5 4 ∷ n as4 4 ∷ n rest 4 ∷ n ds5 8 ∷ n e5 8 ∷ n f5 4 ∷ n e5 8 ∷ [])
    ∷ (n ds5 8 ∷ n d5 8 ∷ n as5 8 ∷ [])
    ∷ (n c5 4 ∷ n g4 8 ∷ n d5 4 ∷ n g4 8 ∷ n d5 4 ∷ [])
    ∷ (n rest 8 ∷ n fs5 8 ∷ n g5 8 ∷ n fs5 8 ∷ n f5 8 ∷ n ds5 8 ∷ n d5 8 ∷ n ds5 8 ∷ [])
    ∷ (n rest 8 ∷ n as5 8 ∷ n g5 8 ∷ n ds5 8 ∷ n f5 8 ∷ n rest 8 ∷ n g5 8 ∷ [])
    ∷ (n rest 8 ∷ n fs5 8 ∷ n f5 8 ∷ n ds5 8 ∷ n f5 8 ∷ n ds5 8 ∷ n d5 8 ∷ n ds5 8 ∷ [])
    ∷ (p d5 4 ∷ p c5 4 ∷ n rest 4 ∷ n rest 4 ∷ n c5 8 ∷ n d5 8 ∷ n ds5 8 ∷ n d5 8 ∷ [])
    ∷ (n c5 8 ∷ n as4 8 ∷ [])
    ∷ (n d5 8 ∷ n ds5 8 ∷ n f5 8 ∷ n g5 8 ∷ n d5 8 ∷ n c5 8 ∷ n d5 8 ∷ n ds5 8 ∷ [])
    ∷ (n f5 8 ∷ n g5 8 ∷ n as5 8 ∷ n gs5 8 ∷ n g5 8 ∷ n f5 8 ∷ n ds5 8 ∷ n f5 8 ∷ [])
    ∷ (n ds5 8 ∷ n d5 16 ∷ n ds5 16 ∷ n d5 16 ∷ n as4 8 ∷ n c5 8 ∷ n d5 8 ∷ n ds5 8 ∷ [])
    ∷ (n f5 8 ∷ [])
    ∷ (n g5 8 ∷ n as5 8 ∷ n gs5 8 ∷ n g5 8 ∷ n f5 8 ∷ n ds5 8 ∷ n d5 8 ∷ n ds5 8 ∷ [])
    ∷ (n c5 8 ∷ n d5 8 ∷ n ds5 8 ∷ n f5 8 ∷ n c5 8 ∷ n g4 8 ∷ n c5 8 ∷ n d5 8 ∷ [])
    ∷ (n ds5 8 ∷ n f5 8 ∷ n as5 8 ∷ n f5 8 ∷ n ds5 8 ∷ n d5 8 ∷ n as4 8 ∷ n ds5 8 ∷ [])
    ∷ (n d5 8 ∷ n d5 16 ∷ n ds5 16 ∷ n d5 16 ∷ n g4 8 ∷ n c5 8 ∷ n d5 8 ∷ n ds5 8 ∷ [])
    ∷ (n f5 8 ∷ [])
    ∷ (n f5 8 ∷ n as5 8 ∷ n f5 8 ∷ n ds5 8 ∷ n d5 8 ∷ n ds5 8 ∷ n d5 8 ∷ n as4 8 ∷ [])
    ∷ (n d5 8 ∷ n ds5 8 ∷ n f5 8 ∷ n g5 8 ∷ n as4 8 ∷ n g4 8 ∷ n as4 8 ∷ n ds5 8 ∷ [])
    ∷ (n as5 8 ∷ n ds5 8 ∷ n as5 8 ∷ n gs5 8 ∷ n g5 8 ∷ n gs5 8 ∷ n g5 8 ∷ n f5 8 ∷ [])
    ∷ (n ds5 8 ∷ n d5 16 ∷ n ds5 16 ∷ n d5 16 ∷ n as4 8 ∷ n c5 8 ∷ n d5 8 ∷ n ds5 8 ∷ [])
    ∷ (n f5 8 ∷ [])
    ∷ (n c6 8 ∷ n d5 8 ∷ n as5 8 ∷ n d5 8 ∷ n c5 8 ∷ n d5 8 ∷ n b5 8 ∷ n g4 8 ∷ [])
    ∷ (n c4 8 ∷ n ds4 8 ∷ n g4 8 ∷ n c5 8 ∷ n ds5 8 ∷ n g5 8 ∷ n rest 8 ∷ n c5 8 ∷ [])
    ∷ (n d5 8 ∷ n ds5 8 ∷ n d5 16 ∷ n ds5 16 ∷ n d5 16 ∷ n c5 8 ∷ n g4 8 ∷ n c5 8 ∷ [])
    ∷ (n g5 8 ∷ [])
    ∷ (p d5 4 ∷ n c5 8 ∷ n c5 1 ∷ n rest 4 ∷ [])
    ∷ (n ds4 8 ∷ p c4 4 ∷ n ds4 2 ∷ n d6 2 ∷ n b3 2 ∷ [])
    ∷ (n ds4 8 ∷ p c4 4 ∷ n g3 2 ∷ n d6 2 ∷ n b3 2 ∷ [])
    ∷ (n ds4 8 ∷ p c4 4 ∷ n g4 2 ∷ n fs4 2 ∷ n d4 2 ∷ [])
    ∷ (n f4 2 ∷ n d4 2 ∷ n d4 2 ∷ n g4 2 ∷ [])
    ∷ (n g4 1 ∷ n g4 1 ∷ n g4 1 ∷ n g4 1 ∷ [])
    ∷ (n rest 1 ∷ n rest 1 ∷ n g4 1 ∷ n g4 1 ∷ [])
    ∷ (n ds4 2 ∷ n g4 2 ∷ n g4 2 ∷ n c4 4 ∷ n d4 8 ∷ n ds4 8 ∷ [])
    ∷ (n f4 2 ∷ n as4 2 ∷ n as4 2 ∷ n c4 4 ∷ n d4 8 ∷ n ds4 8 ∷ [])
    ∷ (n ds4 2 ∷ p g4 2 ∷ n f4 2 ∷ n g4 8 ∷ n f4 8 ∷ [])
    ∷ (p g4 2 ∷ p d4 1 ∷ n c4 2 ∷ p g4 2 ∷ [])
    ∷ (n f4 2 ∷ n d4 8 ∷ n ds4 8 ∷ n f4 2 ∷ n as3 2 ∷ [])
    ∷ (n as4 2 ∷ n c4 4 ∷ n d4 8 ∷ n ds4 8 ∷ [])
    ∷ (n ds4 2 ∷ p as4 2 ∷ n gs4 2 ∷ n g4 8 ∷ n f4 8 ∷ n f4 8 ∷ [])
    ∷ (p g4 1 ∷ n ds4 2 ∷ n g4 2 ∷ n g4 2 ∷ n c4 4 ∷ n d4 8 ∷ n ds4 8 ∷ [])
    ∷ (n f4 2 ∷ n as4 2 ∷ n as4 2 ∷ n c4 4 ∷ n d4 8 ∷ n ds4 8 ∷ [])
    ∷ (n ds4 2 ∷ p g4 2 ∷ n f4 2 ∷ n g4 8 ∷ n f4 8 ∷ [])
    ∷ (p g4 2 ∷ p d4 1 ∷ n c4 2 ∷ p g4 2 ∷ [])
    ∷ (n f4 2 ∷ n d4 8 ∷ n ds4 8 ∷ n f4 2 ∷ n as3 2 ∷ [])
    ∷ (n as4 2 ∷ n c4 4 ∷ n d4 8 ∷ n ds4 8 ∷ [])
    ∷ (n ds4 2 ∷ p as4 2 ∷ n gs4 2 ∷ n g4 8 ∷ n f4 8 ∷ n f4 8 ∷ [])
    ∷ (p g4 1 ∷ [])
    ∷ [])
