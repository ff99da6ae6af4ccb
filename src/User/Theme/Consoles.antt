-- ===== src/User/Theme/Consoles.antt =====
-- The melodies of user/theme_lib.c for Miichannel, Super Mario and Tetris.
-- A melody is the list of its pairs of entries.
use kernel_genesis_os.Base.{ℕ, ℤ, List, [], ◌∷◌}
use kernel_genesis_os.User.Theme.Notes.{
  n, p, rows, a3, a4, a5, as3, as4, b3, b4, c4, c5, cs4, cs5, d4, d5, ds4, ds5, e4, e5, f4, f5, fs4,
  fs5, g4, g5, gs4, gs5, rest,
}

unfoldable pub miichannel_melody : List (ℕ × ℤ)
miichannel_melody = rows (
    (n fs4 8 ∷ n rest 8 ∷ n a4 8 ∷ n cs5 8 ∷ n rest 8 ∷ n a4 8 ∷ n rest 8 ∷ n fs4 8 ∷ [])
    ∷ (n d4 8 ∷ n d4 8 ∷ n d4 8 ∷ n rest 8 ∷ n rest 4 ∷ n rest 8 ∷ n cs4 8 ∷ [])
    ∷ (n d4 8 ∷ n fs4 8 ∷ n a4 8 ∷ n cs5 8 ∷ n rest 8 ∷ n a4 8 ∷ n rest 8 ∷ n f4 8 ∷ [])
    ∷ (p e5 4 ∷ n ds5 8 ∷ n d5 8 ∷ n rest 8 ∷ n rest 4 ∷ [])
    ∷ (n gs4 8 ∷ n rest 8 ∷ n cs5 8 ∷ n fs4 8 ∷ n rest 8 ∷ n cs5 8 ∷ n rest 8 ∷ n gs4 8 ∷ [])
    ∷ (n rest 8 ∷ n cs5 8 ∷ n g4 8 ∷ n fs4 8 ∷ n rest 8 ∷ n e4 8 ∷ n rest 8 ∷ [])
    ∷ (n e4 8 ∷ n e4 8 ∷ n e4 8 ∷ n rest 8 ∷ n rest 4 ∷ n e4 8 ∷ n e4 8 ∷ [])
    ∷ (n e4 8 ∷ n rest 8 ∷ n rest 4 ∷ n ds4 8 ∷ n d4 8 ∷ [])
    ∷ (n cs4 8 ∷ n rest 8 ∷ n a4 8 ∷ n cs5 8 ∷ n rest 8 ∷ n a4 8 ∷ n rest 8 ∷ n fs4 8 ∷ [])
    ∷ (n d4 8 ∷ n d4 8 ∷ n d4 8 ∷ n rest 8 ∷ n e5 8 ∷ n e5 8 ∷ n e5 8 ∷ n rest 8 ∷ [])
    ∷ (n rest 8 ∷ n fs4 8 ∷ n a4 8 ∷ n cs5 8 ∷ n rest 8 ∷ n a4 8 ∷ n rest 8 ∷ n f4 8 ∷ [])
    ∷ (n e5 2 ∷ n d5 8 ∷ n rest 8 ∷ n rest 4 ∷ [])
    ∷ (n b4 8 ∷ n g4 8 ∷ n d4 8 ∷ n cs4 4 ∷ n b4 8 ∷ n g4 8 ∷ n cs4 8 ∷ [])
    ∷ (n a4 8 ∷ n fs4 8 ∷ n c4 8 ∷ n b3 4 ∷ n f4 8 ∷ n d4 8 ∷ n b3 8 ∷ [])
    ∷ (n e4 8 ∷ n e4 8 ∷ n e4 8 ∷ n rest 4 ∷ n rest 4 ∷ n as4 4 ∷ [])
    ∷ (n cs5 8 ∷ n d5 8 ∷ n fs5 8 ∷ n a5 8 ∷ n rest 8 ∷ n rest 4 ∷ [])
    ∷ (n rest 2 ∷ n a3 4 ∷ n as3 4 ∷ p a3 4 ∷ n a3 8 ∷ n a3 2 ∷ [])
    ∷ (n rest 4 ∷ n a3 8 ∷ n as3 8 ∷ n a3 8 ∷ n f4 4 ∷ n c4 8 ∷ [])
    ∷ (p a3 4 ∷ n a3 8 ∷ n a3 2 ∷ n rest 2 ∷ n b3 4 ∷ n c4 4 ∷ [])
    ∷ (p cs4 4 ∷ n c4 8 ∷ n cs4 2 ∷ n rest 4 ∷ n cs4 8 ∷ n c4 8 ∷ n cs4 8 ∷ n gs4 4 ∷ [])
    ∷ (n ds4 8 ∷ [])
    ∷ (p cs4 4 ∷ n ds4 8 ∷ n b3 1 ∷ n e4 4 ∷ n e4 4 ∷ n e4 4 ∷ n rest 8 ∷ [])
    ∷ (n fs4 8 ∷ n rest 8 ∷ n a4 8 ∷ n cs5 8 ∷ n rest 8 ∷ n a4 8 ∷ n rest 8 ∷ n fs4 8 ∷ [])
    ∷ (n d4 8 ∷ n d4 8 ∷ n d4 8 ∷ n rest 8 ∷ n rest 4 ∷ n rest 8 ∷ n cs4 8 ∷ [])
    ∷ (n d4 8 ∷ n fs4 8 ∷ n a4 8 ∷ n cs5 8 ∷ n rest 8 ∷ n a4 8 ∷ n rest 8 ∷ n f4 8 ∷ [])
    ∷ (p e5 4 ∷ n ds5 8 ∷ n d5 8 ∷ n rest 8 ∷ n rest 4 ∷ [])
    ∷ (n gs4 8 ∷ n rest 8 ∷ n cs5 8 ∷ n fs4 8 ∷ n rest 8 ∷ n cs5 8 ∷ n rest 8 ∷ n gs4 8 ∷ [])
    ∷ (n rest 8 ∷ n cs5 8 ∷ n g4 8 ∷ n fs4 8 ∷ n rest 8 ∷ n e4 8 ∷ n rest 8 ∷ [])
    ∷ (n e4 8 ∷ n e4 8 ∷ n e4 8 ∷ n rest 8 ∷ n rest 4 ∷ n e4 8 ∷ n e4 8 ∷ [])
    ∷ (n e4 8 ∷ n rest 8 ∷ n rest 4 ∷ n ds4 8 ∷ n d4 8 ∷ [])
    ∷ (n cs4 8 ∷ n rest 8 ∷ n a4 8 ∷ n cs5 8 ∷ n rest 8 ∷ n a4 8 ∷ n rest 8 ∷ n fs4 8 ∷ [])
    ∷ (n d4 8 ∷ n d4 8 ∷ n d4 8 ∷ n rest 8 ∷ n e5 8 ∷ n e5 8 ∷ n e5 8 ∷ n rest 8 ∷ [])
    ∷ (n rest 8 ∷ n fs4 8 ∷ n a4 8 ∷ n cs5 8 ∷ n rest 8 ∷ n a4 8 ∷ n rest 8 ∷ n f4 8 ∷ [])
    ∷ (n e5 2 ∷ n d5 8 ∷ n rest 8 ∷ n rest 4 ∷ [])
    ∷ (n b4 8 ∷ n g4 8 ∷ n d4 8 ∷ n cs4 4 ∷ n b4 8 ∷ n g4 8 ∷ n cs4 8 ∷ [])
    ∷ (n a4 8 ∷ n fs4 8 ∷ n c4 8 ∷ n b3 4 ∷ n f4 8 ∷ n d4 8 ∷ n b3 8 ∷ [])
    ∷ (n e4 8 ∷ n e4 8 ∷ n e4 8 ∷ n rest 4 ∷ n rest 4 ∷ n as4 4 ∷ [])
    ∷ (n cs5 8 ∷ n d5 8 ∷ n fs5 8 ∷ n a5 8 ∷ n rest 8 ∷ n rest 4 ∷ [])
    ∷ (n rest 2 ∷ n a3 4 ∷ n as3 4 ∷ p a3 4 ∷ n a3 8 ∷ n a3 2 ∷ [])
    ∷ (n rest 4 ∷ n a3 8 ∷ n as3 8 ∷ n a3 8 ∷ n f4 4 ∷ n c4 8 ∷ [])
    ∷ (p a3 4 ∷ n a3 8 ∷ n a3 2 ∷ n rest 2 ∷ n b3 4 ∷ n c4 4 ∷ [])
    ∷ (p cs4 4 ∷ n c4 8 ∷ n cs4 2 ∷ n rest 4 ∷ n cs4 8 ∷ n c4 8 ∷ n cs4 8 ∷ n gs4 4 ∷ [])
    ∷ (n ds4 8 ∷ [])
    ∷ (p cs4 4 ∷ n ds4 8 ∷ n b3 1 ∷ n e4 4 ∷ n e4 4 ∷ n e4 4 ∷ n rest 8 ∷ [])
    ∷ (n fs4 8 ∷ n rest 8 ∷ n a4 8 ∷ n cs5 8 ∷ n rest 8 ∷ n a4 8 ∷ n rest 8 ∷ n fs4 8 ∷ [])
    ∷ [])

unfoldable pub supermario_melody : List (ℕ × ℤ)
supermario_melody = rows (
    (n e5 8 ∷ n e5 8 ∷ n rest 8 ∷ n e5 8 ∷ n rest 8 ∷ n c5 8 ∷ n e5 8 ∷ [])
    ∷ (n g5 4 ∷ n rest 4 ∷ n g4 8 ∷ n rest 4 ∷ [])
    ∷ (p c5 4 ∷ n g4 8 ∷ n rest 4 ∷ p e4 4 ∷ [])
    ∷ (n a4 4 ∷ n b4 4 ∷ n as4 8 ∷ n a4 4 ∷ [])
    ∷ (p g4 8 ∷ p e5 8 ∷ p g5 8 ∷ n a5 4 ∷ n f5 8 ∷ n g5 8 ∷ [])
    ∷ (n rest 8 ∷ n e5 4 ∷ n c5 8 ∷ n d5 8 ∷ p b4 4 ∷ [])
    ∷ (p c5 4 ∷ n g4 8 ∷ n rest 4 ∷ p e4 4 ∷ [])
    ∷ (n a4 4 ∷ n b4 4 ∷ n as4 8 ∷ n a4 4 ∷ [])
    ∷ (p g4 8 ∷ p e5 8 ∷ p g5 8 ∷ n a5 4 ∷ n f5 8 ∷ n g5 8 ∷ [])
    ∷ (n rest 8 ∷ n e5 4 ∷ n c5 8 ∷ n d5 8 ∷ p b4 4 ∷ [])
    ∷ (n rest 4 ∷ n g5 8 ∷ n fs5 8 ∷ n f5 8 ∷ n ds5 4 ∷ n e5 8 ∷ [])
    ∷ (n rest 8 ∷ n gs4 8 ∷ n a4 8 ∷ n c4 8 ∷ n rest 8 ∷ n a4 8 ∷ n c5 8 ∷ n d5 8 ∷ [])
    ∷ (n rest 4 ∷ n ds5 4 ∷ n rest 8 ∷ p d5 4 ∷ [])
    ∷ (n c5 2 ∷ n rest 2 ∷ n rest 4 ∷ n g5 8 ∷ n fs5 8 ∷ n f5 8 ∷ n ds5 4 ∷ n e5 8 ∷ [])
    ∷ (n rest 8 ∷ n gs4 8 ∷ n a4 8 ∷ n c4 8 ∷ n rest 8 ∷ n a4 8 ∷ n c5 8 ∷ n d5 8 ∷ [])
    ∷ (n rest 4 ∷ n ds5 4 ∷ n rest 8 ∷ p d5 4 ∷ [])
    ∷ (n c5 2 ∷ n rest 2 ∷ n c5 8 ∷ n c5 4 ∷ n c5 8 ∷ n rest 8 ∷ n c5 8 ∷ n d5 4 ∷ [])
    ∷ (n e5 8 ∷ n c5 4 ∷ n a4 8 ∷ n g4 2 ∷ [])
    ∷ (n c5 8 ∷ n c5 4 ∷ n c5 8 ∷ n rest 8 ∷ n c5 8 ∷ n d5 8 ∷ n e5 8 ∷ [])
    ∷ (n rest 1 ∷ n c5 8 ∷ n c5 4 ∷ n c5 8 ∷ n rest 8 ∷ n c5 8 ∷ n d5 4 ∷ [])
    ∷ (n e5 8 ∷ n c5 4 ∷ n a4 8 ∷ n g4 2 ∷ [])
    ∷ (n e5 8 ∷ n e5 8 ∷ n rest 8 ∷ n e5 8 ∷ n rest 8 ∷ n c5 8 ∷ n e5 4 ∷ [])
    ∷ (n g5 4 ∷ n rest 4 ∷ n g4 4 ∷ n rest 4 ∷ [])
    ∷ (p c5 4 ∷ n g4 8 ∷ n rest 4 ∷ p e4 4 ∷ [])
    ∷ (n a4 4 ∷ n b4 4 ∷ n as4 8 ∷ n a4 4 ∷ [])
    ∷ (p g4 8 ∷ p e5 8 ∷ p g5 8 ∷ n a5 4 ∷ n f5 8 ∷ n g5 8 ∷ [])
    ∷ (n rest 8 ∷ n e5 4 ∷ n c5 8 ∷ n d5 8 ∷ p b4 4 ∷ [])
    ∷ (p c5 4 ∷ n g4 8 ∷ n rest 4 ∷ p e4 4 ∷ [])
    ∷ (n a4 4 ∷ n b4 4 ∷ n as4 8 ∷ n a4 4 ∷ [])
    ∷ (p g4 8 ∷ p e5 8 ∷ p g5 8 ∷ n a5 4 ∷ n f5 8 ∷ n g5 8 ∷ [])
    ∷ (n rest 8 ∷ n e5 4 ∷ n c5 8 ∷ n d5 8 ∷ p b4 4 ∷ [])
    ∷ (n e5 8 ∷ n c5 4 ∷ n g4 8 ∷ n rest 4 ∷ n gs4 4 ∷ [])
    ∷ (n a4 8 ∷ n f5 4 ∷ n f5 8 ∷ n a4 2 ∷ [])
    ∷ (p d5 8 ∷ p a5 8 ∷ p a5 8 ∷ p a5 8 ∷ p g5 8 ∷ p f5 8 ∷ [])
    ∷ (n e5 8 ∷ n c5 4 ∷ n a4 8 ∷ n g4 2 ∷ [])
    ∷ (n e5 8 ∷ n c5 4 ∷ n g4 8 ∷ n rest 4 ∷ n gs4 4 ∷ [])
    ∷ (n a4 8 ∷ n f5 4 ∷ n f5 8 ∷ n a4 2 ∷ [])
    ∷ (n b4 8 ∷ n f5 4 ∷ n f5 8 ∷ p f5 8 ∷ p e5 8 ∷ p d5 8 ∷ [])
    ∷ (n c5 8 ∷ n e4 4 ∷ n e4 8 ∷ n c4 2 ∷ [])
    ∷ (n e5 8 ∷ n c5 4 ∷ n g4 8 ∷ n rest 4 ∷ n gs4 4 ∷ [])
    ∷ (n a4 8 ∷ n f5 4 ∷ n f5 8 ∷ n a4 2 ∷ [])
    ∷ (p d5 8 ∷ p a5 8 ∷ p a5 8 ∷ p a5 8 ∷ p g5 8 ∷ p f5 8 ∷ [])
    ∷ (n e5 8 ∷ n c5 4 ∷ n a4 8 ∷ n g4 2 ∷ [])
    ∷ (n e5 8 ∷ n c5 4 ∷ n g4 8 ∷ n rest 4 ∷ n gs4 4 ∷ [])
    ∷ (n a4 8 ∷ n f5 4 ∷ n f5 8 ∷ n a4 2 ∷ [])
    ∷ (n b4 8 ∷ n f5 4 ∷ n f5 8 ∷ p f5 8 ∷ p e5 8 ∷ p d5 8 ∷ [])
    ∷ (n c5 8 ∷ n e4 4 ∷ n e4 8 ∷ n c4 2 ∷ [])
    ∷ (n c5 8 ∷ n c5 4 ∷ n c5 8 ∷ n rest 8 ∷ n c5 8 ∷ n d5 8 ∷ n e5 8 ∷ [])
    ∷ (n rest 1 ∷ n c5 8 ∷ n c5 4 ∷ n c5 8 ∷ n rest 8 ∷ n c5 8 ∷ n d5 4 ∷ [])
    ∷ (n e5 8 ∷ n c5 4 ∷ n a4 8 ∷ n g4 2 ∷ [])
    ∷ (n e5 8 ∷ n e5 8 ∷ n rest 8 ∷ n e5 8 ∷ n rest 8 ∷ n c5 8 ∷ n e5 4 ∷ [])
    ∷ (n g5 4 ∷ n rest 4 ∷ n g4 4 ∷ n rest 4 ∷ [])
    ∷ (n e5 8 ∷ n c5 4 ∷ n g4 8 ∷ n rest 4 ∷ n gs4 4 ∷ [])
    ∷ (n a4 8 ∷ n f5 4 ∷ n f5 8 ∷ n a4 2 ∷ [])
    ∷ (p d5 8 ∷ p a5 8 ∷ p a5 8 ∷ p a5 8 ∷ p g5 8 ∷ p f5 8 ∷ [])
    ∷ (n e5 8 ∷ n c5 4 ∷ n a4 8 ∷ n g4 2 ∷ [])
    ∷ (n e5 8 ∷ n c5 4 ∷ n g4 8 ∷ n rest 4 ∷ n gs4 4 ∷ [])
    ∷ (n a4 8 ∷ n f5 4 ∷ n f5 8 ∷ n a4 2 ∷ [])
    ∷ (n b4 8 ∷ n f5 4 ∷ n f5 8 ∷ p f5 8 ∷ p e5 8 ∷ p d5 8 ∷ [])
    ∷ (n c5 8 ∷ n e4 4 ∷ n e4 8 ∷ n c4 2 ∷ [])
    ∷ (p c5 4 ∷ p g4 4 ∷ n e4 4 ∷ p a4 8 ∷ p b4 8 ∷ p a4 8 ∷ p gs4 8 ∷ p as4 8 ∷ [])
    ∷ (p gs4 8 ∷ [])
    ∷ (n g4 8 ∷ n d4 8 ∷ p e4 2 ∷ [])
    ∷ [])

unfoldable pub tetris_melody : List (ℕ × ℤ)
tetris_melody = rows (
    (n e5 4 ∷ n b4 8 ∷ n c5 8 ∷ n d5 4 ∷ n c5 8 ∷ n b4 8 ∷ [])
    ∷ (n a4 4 ∷ n a4 8 ∷ n c5 8 ∷ n e5 4 ∷ n d5 8 ∷ n c5 8 ∷ [])
    ∷ (p b4 4 ∷ n c5 8 ∷ n d5 4 ∷ n e5 4 ∷ [])
    ∷ (n c5 4 ∷ n a4 4 ∷ n a4 8 ∷ n a4 4 ∷ n b4 8 ∷ n c5 8 ∷ [])
    ∷ (p d5 4 ∷ n f5 8 ∷ n a5 4 ∷ n g5 8 ∷ n f5 8 ∷ [])
    ∷ (p e5 4 ∷ n c5 8 ∷ n e5 4 ∷ n d5 8 ∷ n c5 8 ∷ [])
    ∷ (n b4 4 ∷ n b4 8 ∷ n c5 8 ∷ n d5 4 ∷ n e5 4 ∷ [])
    ∷ (n c5 4 ∷ n a4 4 ∷ n a4 4 ∷ n rest 4 ∷ [])
    ∷ (n e5 4 ∷ n b4 8 ∷ n c5 8 ∷ n d5 4 ∷ n c5 8 ∷ n b4 8 ∷ [])
    ∷ (n a4 4 ∷ n a4 8 ∷ n c5 8 ∷ n e5 4 ∷ n d5 8 ∷ n c5 8 ∷ [])
    ∷ (p b4 4 ∷ n c5 8 ∷ n d5 4 ∷ n e5 4 ∷ [])
    ∷ (n c5 4 ∷ n a4 4 ∷ n a4 8 ∷ n a4 4 ∷ n b4 8 ∷ n c5 8 ∷ [])
    ∷ (p d5 4 ∷ n f5 8 ∷ n a5 4 ∷ n g5 8 ∷ n f5 8 ∷ [])
    ∷ (p e5 4 ∷ n c5 8 ∷ n e5 4 ∷ n d5 8 ∷ n c5 8 ∷ [])
    ∷ (n b4 4 ∷ n b4 8 ∷ n c5 8 ∷ n d5 4 ∷ n e5 4 ∷ [])
    ∷ (n c5 4 ∷ n a4 4 ∷ n a4 4 ∷ n rest 4 ∷ [])
    ∷ (n e5 2 ∷ n c5 2 ∷ n d5 2 ∷ n b4 2 ∷ [])
    ∷ (n c5 2 ∷ n a4 2 ∷ n gs4 2 ∷ n b4 4 ∷ n rest 8 ∷ [])
    ∷ (n e5 2 ∷ n c5 2 ∷ n d5 2 ∷ n b4 2 ∷ [])
    ∷ (n c5 4 ∷ n e5 4 ∷ n a5 2 ∷ n gs5 2 ∷ [])
    ∷ [])
