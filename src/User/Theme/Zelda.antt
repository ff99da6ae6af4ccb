-- ===== src/User/Theme/Zelda.antt =====
-- The melodies of user/theme_lib.c for Song of storms and the two of Zelda.
-- A melody is the list of its pairs of entries.
use kernel_genesis_os.Base.{ℕ, ℤ, List, [], ◌∷◌}
use kernel_genesis_os.User.Theme.Notes.{
  n, p, rows, a3, a4, a5, as4, as5, b4, c4, c5, c6, cs5, cs6, d4, d5, ds5, e4, e5, f4, f5, fs4, fs5,
  g4, g5, gs4, gs5, rest,
}

unfoldable pub songofstorms_melody : List (ℕ × ℤ)
songofstorms_melody = rows (
    (n d4 4 ∷ n a4 4 ∷ n a4 4 ∷ n rest 8 ∷ n e4 8 ∷ n b4 2 ∷ [])
    ∷ (n f4 4 ∷ n c5 4 ∷ n c5 4 ∷ n rest 8 ∷ n e4 8 ∷ n b4 2 ∷ [])
    ∷ (n d4 4 ∷ n a4 4 ∷ n a4 4 ∷ n rest 8 ∷ n e4 8 ∷ n b4 2 ∷ [])
    ∷ (n f4 4 ∷ n c5 4 ∷ n c5 4 ∷ n rest 8 ∷ n e4 8 ∷ n b4 2 ∷ [])
    ∷ (n d4 8 ∷ n f4 8 ∷ n d5 2 ∷ n d4 8 ∷ n f4 8 ∷ n d5 2 ∷ [])
    ∷ (p e5 4 ∷ n f5 8 ∷ n e5 8 ∷ n e5 8 ∷ [])
    ∷ (n e5 8 ∷ n c5 8 ∷ n a4 2 ∷ n a4 4 ∷ n d4 4 ∷ n f4 8 ∷ n g4 8 ∷ [])
    ∷ (p a4 2 ∷ n a4 4 ∷ n d4 4 ∷ n f4 8 ∷ n g4 8 ∷ [])
    ∷ (p e4 2 ∷ n d4 8 ∷ n f4 8 ∷ n d5 2 ∷ [])
    ∷ (n d4 8 ∷ n f4 8 ∷ n d5 2 ∷ p e5 4 ∷ n f5 8 ∷ n e5 8 ∷ n e5 8 ∷ [])
    ∷ (n e5 8 ∷ n c5 8 ∷ n a4 2 ∷ n a4 4 ∷ n d4 4 ∷ n f4 8 ∷ n g4 8 ∷ [])
    ∷ (n a4 2 ∷ n a4 4 ∷ n d4 1 ∷ [])
    ∷ [])

unfoldable pub zeldaslullaby_melody : List (ℕ × ℤ)
zeldaslullaby_melody = rows (
    (n e4 2 ∷ n g4 4 ∷ n d4 2 ∷ n c4 8 ∷ n d4 8 ∷ [])
    ∷ (n e4 2 ∷ n g4 4 ∷ p d4 2 ∷ n e4 2 ∷ n g4 4 ∷ [])
    ∷ (n d5 2 ∷ n c5 4 ∷ n g4 2 ∷ n f4 8 ∷ n e4 8 ∷ [])
    ∷ (p d4 2 ∷ n e4 2 ∷ n g4 4 ∷ n d4 2 ∷ n c4 8 ∷ n d4 8 ∷ [])
    ∷ (n e4 2 ∷ n g4 4 ∷ p d4 2 ∷ n e4 2 ∷ n g4 4 ∷ [])
    ∷ (n d5 2 ∷ n c5 4 ∷ n g4 2 ∷ n f4 8 ∷ n e4 8 ∷ [])
    ∷ (n f4 8 ∷ n e4 8 ∷ n c4 2 ∷ n f4 2 ∷ n e4 8 ∷ n d4 8 ∷ [])
    ∷ (n e4 8 ∷ n d4 8 ∷ n a3 2 ∷ n g4 2 ∷ n f4 8 ∷ n e4 8 ∷ [])
    ∷ (n f4 8 ∷ n e4 8 ∷ n c4 4 ∷ n f4 4 ∷ [])
    ∷ (p c5 2 ∷ [])
    ∷ [])

unfoldable pub zeldatheme_melody : List (ℕ × ℤ)
zeldatheme_melody = rows (
    (p as4 2 ∷ n f4 8 ∷ n f4 8 ∷ n as4 8 ∷ [])
    ∷ (n gs4 16 ∷ n fs4 16 ∷ p gs4 2 ∷ p as4 2 ∷ n fs4 8 ∷ n fs4 8 ∷ n as4 8 ∷ [])
    ∷ (n a4 16 ∷ n g4 16 ∷ p a4 2 ∷ n rest 1 ∷ [])
    ∷ (n as4 4 ∷ p f4 4 ∷ n as4 8 ∷ n as4 16 ∷ n c5 16 ∷ n d5 16 ∷ n ds5 16 ∷ [])
    ∷ (n f5 2 ∷ n f5 8 ∷ n f5 8 ∷ n f5 8 ∷ n fs5 16 ∷ n gs5 16 ∷ [])
    ∷ (p as5 2 ∷ n as5 8 ∷ n as5 8 ∷ n gs5 8 ∷ n fs5 16 ∷ [])
    ∷ (p gs5 8 ∷ n fs5 16 ∷ n f5 2 ∷ n f5 4 ∷ [])
    ∷ (p ds5 8 ∷ n f5 16 ∷ n fs5 2 ∷ n f5 8 ∷ n ds5 8 ∷ [])
    ∷ (p cs5 8 ∷ n ds5 16 ∷ n f5 2 ∷ n ds5 8 ∷ n cs5 8 ∷ [])
    ∷ (p c5 8 ∷ n d5 16 ∷ n e5 2 ∷ n g5 8 ∷ [])
    ∷ (n f5 16 ∷ n f4 16 ∷ n f4 16 ∷ n f4 16 ∷ n f4 16 ∷ n f4 16 ∷ n f4 16 ∷ n f4 16 ∷ [])
    ∷ (n f4 8 ∷ n f4 16 ∷ n f4 8 ∷ [])
    ∷ (n as4 4 ∷ p f4 4 ∷ n as4 8 ∷ n as4 16 ∷ n c5 16 ∷ n d5 16 ∷ n ds5 16 ∷ [])
    ∷ (n f5 2 ∷ n f5 8 ∷ n f5 8 ∷ n f5 8 ∷ n fs5 16 ∷ n gs5 16 ∷ [])
    ∷ (p as5 2 ∷ n cs6 4 ∷ n c6 4 ∷ n a5 2 ∷ n f5 4 ∷ [])
    ∷ (p fs5 2 ∷ n as5 4 ∷ n a5 4 ∷ n f5 2 ∷ n f5 4 ∷ [])
    ∷ (p fs5 2 ∷ n as5 4 ∷ n a5 4 ∷ n f5 2 ∷ n d5 4 ∷ [])
    ∷ (p ds5 2 ∷ n fs5 4 ∷ n f5 4 ∷ n cs5 2 ∷ n as4 4 ∷ [])
    ∷ (p c5 8 ∷ n d5 16 ∷ n e5 2 ∷ n g5 8 ∷ [])
    ∷ (n f5 16 ∷ n f4 16 ∷ n f4 16 ∷ n f4 16 ∷ n f4 16 ∷ n f4 16 ∷ n f4 16 ∷ n f4 16 ∷ [])
    ∷ (n f4 8 ∷ n f4 16 ∷ n f4 8 ∷ [])
    ∷ [])
