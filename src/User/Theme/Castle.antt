-- ===== src/User/Theme/Castle.antt =====
-- The melodies of user/theme_lib.c for Bloody tears and Vampire Killer.
-- A melody is the list of its pairs of entries.
use kernel_genesis_os.Base.{ℕ, ℤ, List, [], ◌∷◌}
use kernel_genesis_os.User.Theme.Notes.{
  n, p, rows, a4, a5, as4, as5, b3, b4, b5, b6, c4, c5, c6, cs4, cs5, cs6, d4, d5, d6, ds4, ds5,
  ds6, e4, e5, e6, f4, f5, f6, fs4, fs5, fs6, g4, g5, gs4, gs5, gs6, rest,
}

unfoldable pub bloodytears_melody : List (ℕ × ℤ)
bloodytears_melody = rows (
    (n rest 4 ∷ n g5 4 ∷ n a5 4 ∷ n as5 4 ∷ [])
    ∷ (n a5 4 ∷ n f5 4 ∷ n a5 4 ∷ n g5 4 ∷ [])
    ∷ (n rest 4 ∷ n g5 4 ∷ n a5 4 ∷ n as5 4 ∷ [])
    ∷ (n c6 4 ∷ n as5 4 ∷ n a5 4 ∷ n g5 4 ∷ [])
    ∷ (n rest 4 ∷ n g5 4 ∷ n a5 4 ∷ n as5 4 ∷ [])
    ∷ (n a5 4 ∷ n f5 4 ∷ n a5 4 ∷ n g5 4 ∷ [])
    ∷ (n d6 4 ∷ n rest 8 ∷ n c6 8 ∷ n rest 4 ∷ n as5 4 ∷ [])
    ∷ (n a5 4 ∷ n as5 8 ∷ n c6 8 ∷ n f6 8 ∷ n rest 8 ∷ n rest 4 ∷ [])
    ∷ (n g5 16 ∷ n d5 16 ∷ n d6 16 ∷ n d5 16 ∷ n c6 16 ∷ n d5 16 ∷ n as5 16 ∷ n d5 16 ∷ [])
    ∷ (n a5 16 ∷ n d5 16 ∷ n as5 16 ∷ n d5 16 ∷ n a5 16 ∷ n d5 16 ∷ n g5 16 ∷ n d5 16 ∷ [])
    ∷ (n a5 16 ∷ n d5 16 ∷ n as5 16 ∷ n d5 16 ∷ n c6 16 ∷ n d5 16 ∷ n as5 16 ∷ n d5 16 ∷ [])
    ∷ (n a5 16 ∷ n d5 16 ∷ n f5 16 ∷ n d5 16 ∷ n a5 16 ∷ n d5 16 ∷ n g5 16 ∷ n d5 16 ∷ [])
    ∷ (n g5 16 ∷ n d5 16 ∷ n d6 16 ∷ n d5 16 ∷ n c6 16 ∷ n d5 16 ∷ n as5 16 ∷ n d5 16 ∷ [])
    ∷ (n a5 16 ∷ n d5 16 ∷ n as5 16 ∷ n d5 16 ∷ n a5 16 ∷ n d5 16 ∷ n as5 16 ∷ n d5 16 ∷ [])
    ∷ (n a5 16 ∷ n d5 16 ∷ n as5 16 ∷ n d5 16 ∷ n c6 16 ∷ n d5 16 ∷ n as5 16 ∷ n d5 16 ∷ [])
    ∷ (n a5 16 ∷ n d5 16 ∷ n f5 16 ∷ n d5 16 ∷ n a5 16 ∷ n d5 16 ∷ n g5 16 ∷ n d5 16 ∷ [])
    ∷ (n g5 16 ∷ n d5 16 ∷ n d6 16 ∷ n d5 16 ∷ n c6 16 ∷ n d5 16 ∷ n as5 16 ∷ n d5 16 ∷ [])
    ∷ (n a5 16 ∷ n d5 16 ∷ n as5 16 ∷ n d5 16 ∷ n a5 16 ∷ n d5 16 ∷ n g5 16 ∷ n d5 16 ∷ [])
    ∷ (n a5 16 ∷ n d5 16 ∷ n as5 16 ∷ n d5 16 ∷ n c6 16 ∷ n d5 16 ∷ n as5 16 ∷ n d5 16 ∷ [])
    ∷ (n a5 16 ∷ n d5 16 ∷ n f5 16 ∷ n d5 16 ∷ n a5 16 ∷ n d5 16 ∷ n g5 16 ∷ n d5 16 ∷ [])
    ∷ (n as5 16 ∷ n d5 16 ∷ n d6 16 ∷ n d5 16 ∷ n c6 16 ∷ n d5 16 ∷ n as5 16 ∷ n d5 16 ∷ [])
    ∷ (n a5 16 ∷ n d5 16 ∷ n as5 16 ∷ n d5 16 ∷ n a5 16 ∷ n d5 16 ∷ n g5 16 ∷ n d5 16 ∷ [])
    ∷ (n a5 16 ∷ n d5 16 ∷ n as5 16 ∷ n d5 16 ∷ n c6 16 ∷ n d5 16 ∷ n as5 16 ∷ n d5 16 ∷ [])
    ∷ (n a5 16 ∷ n d5 16 ∷ n f5 16 ∷ n d5 16 ∷ n a5 16 ∷ n d5 16 ∷ n g5 16 ∷ n d5 16 ∷ [])
    ∷ (n c6 16 ∷ n c6 16 ∷ n f6 16 ∷ n d6 8 ∷ n rest 16 ∷ n rest 8 ∷ [])
    ∷ (n rest 4 ∷ n c6 16 ∷ n as5 16 ∷ p c6 8 ∷ p f6 8 ∷ p d6 4 ∷ [])
    ∷ (n c6 8 ∷ n as5 8 ∷ n c6 8 ∷ n f6 16 ∷ n d6 8 ∷ n rest 16 ∷ n rest 8 ∷ [])
    ∷ (n rest 4 ∷ n c6 8 ∷ n d6 8 ∷ p ds6 8 ∷ p f6 8 ∷ [])
    ∷ (p d6 8 ∷ n rest 16 ∷ n ds6 8 ∷ n rest 8 ∷ [])
    ∷ (n c6 8 ∷ n f6 16 ∷ n d6 8 ∷ n rest 16 ∷ n rest 8 ∷ [])
    ∷ (n rest 4 ∷ n c6 8 ∷ n as5 8 ∷ p c6 8 ∷ p f6 8 ∷ p d6 4 ∷ [])
    ∷ (n c6 8 ∷ n as5 8 ∷ n c6 8 ∷ n f6 16 ∷ n d6 8 ∷ n rest 16 ∷ n rest 8 ∷ [])
    ∷ (n rest 4 ∷ n c6 8 ∷ n d6 8 ∷ p ds6 8 ∷ p f6 8 ∷ [])
    ∷ (n d5 8 ∷ n fs5 8 ∷ n f5 8 ∷ n a5 8 ∷ [])
    ∷ (p a5 8 ∷ p g5 4 ∷ p a5 8 ∷ p g5 4 ∷ [])
    ∷ (p a5 8 ∷ p g5 4 ∷ n as5 8 ∷ n a5 8 ∷ n g5 8 ∷ n f5 8 ∷ [])
    ∷ (p a5 8 ∷ p g5 8 ∷ n d5 8 ∷ p a5 8 ∷ p g5 8 ∷ n d5 8 ∷ [])
    ∷ (p a5 8 ∷ p g5 8 ∷ n d5 8 ∷ n as5 4 ∷ n c6 4 ∷ n a5 4 ∷ n as5 4 ∷ [])
    ∷ (n g5 16 ∷ n d5 16 ∷ n d6 16 ∷ n d5 16 ∷ n c6 16 ∷ n d5 16 ∷ n as5 16 ∷ n d5 16 ∷ [])
    ∷ (n a5 16 ∷ n d5 16 ∷ n as5 16 ∷ n d5 16 ∷ n a5 16 ∷ n d5 16 ∷ n g5 16 ∷ n d5 16 ∷ [])
    ∷ (n a5 16 ∷ n d5 16 ∷ n as5 16 ∷ n d5 16 ∷ n c6 16 ∷ n d5 16 ∷ n as5 16 ∷ n d5 16 ∷ [])
    ∷ (n a5 16 ∷ n d5 16 ∷ n f5 16 ∷ n d5 16 ∷ n a5 16 ∷ n d5 16 ∷ n g5 16 ∷ n d5 16 ∷ [])
    ∷ (n g5 16 ∷ n d5 16 ∷ n d6 16 ∷ n d5 16 ∷ n c6 16 ∷ n d5 16 ∷ n as5 16 ∷ n d5 16 ∷ [])
    ∷ (n a5 16 ∷ n d5 16 ∷ n as5 16 ∷ n d5 16 ∷ n a5 16 ∷ n d5 16 ∷ n as5 16 ∷ n d5 16 ∷ [])
    ∷ (n a5 16 ∷ n d5 16 ∷ n as5 16 ∷ n d5 16 ∷ n c6 16 ∷ n d5 16 ∷ n as5 16 ∷ n d5 16 ∷ [])
    ∷ (n a5 16 ∷ n d5 16 ∷ n f5 16 ∷ n d5 16 ∷ n a5 16 ∷ n d5 16 ∷ n g5 16 ∷ n d5 16 ∷ [])
    ∷ (n g5 16 ∷ n d5 16 ∷ n d6 16 ∷ n d5 16 ∷ n c6 16 ∷ n d5 16 ∷ n as5 16 ∷ n d5 16 ∷ [])
    ∷ (n a5 16 ∷ n d5 16 ∷ n as5 16 ∷ n d5 16 ∷ n a5 16 ∷ n d5 16 ∷ n g5 16 ∷ n d5 16 ∷ [])
    ∷ (n a5 16 ∷ n d5 16 ∷ n as5 16 ∷ n d5 16 ∷ n c6 16 ∷ n d5 16 ∷ n as5 16 ∷ n d5 16 ∷ [])
    ∷ (n a5 16 ∷ n d5 16 ∷ n f5 16 ∷ n d5 16 ∷ n a5 16 ∷ n d5 16 ∷ n g5 16 ∷ n d5 16 ∷ [])
    ∷ (n as5 16 ∷ n d5 16 ∷ n d6 16 ∷ n d5 16 ∷ n c6 16 ∷ n d5 16 ∷ n as5 16 ∷ n d5 16 ∷ [])
    ∷ (n a5 16 ∷ n d5 16 ∷ n as5 16 ∷ n d5 16 ∷ n a5 16 ∷ n d5 16 ∷ n g5 16 ∷ n d5 16 ∷ [])
    ∷ (n a5 16 ∷ n d5 16 ∷ n as5 16 ∷ n d5 16 ∷ n c6 16 ∷ n d5 16 ∷ n as5 16 ∷ n d5 16 ∷ [])
    ∷ (n a5 16 ∷ n d5 16 ∷ n f5 16 ∷ n d5 16 ∷ n a5 8 ∷ n g5 32 ∷ n a5 32 ∷ n as5 32 ∷ [])
    ∷ (n c6 32 ∷ [])
    ∷ (n d6 16 ∷ n g5 16 ∷ n as5 16 ∷ n g5 16 ∷ n c6 16 ∷ n g5 16 ∷ n d6 16 ∷ n g5 16 ∷ [])
    ∷ (n c6 16 ∷ n g5 16 ∷ n a5 16 ∷ n g5 16 ∷ n f6 16 ∷ n g5 16 ∷ n d6 16 ∷ n ds5 16 ∷ [])
    ∷ (n d6 4 ∷ n rest 4 ∷ n c5 8 ∷ n rest 8 ∷ p a4 16 ∷ p as4 16 ∷ n c5 16 ∷ [])
    ∷ (n d6 16 ∷ n g4 16 ∷ n as4 16 ∷ n g4 16 ∷ n c5 16 ∷ n g4 16 ∷ n d6 16 ∷ n g4 16 ∷ [])
    ∷ (n c6 16 ∷ n f4 16 ∷ n a4 16 ∷ n f4 16 ∷ n f5 16 ∷ n f4 16 ∷ n d6 16 ∷ n ds4 16 ∷ [])
    ∷ (n d6 16 ∷ n rest 8 ∷ n e4 16 ∷ n f4 16 ∷ [])
    ∷ (n gs4 8 ∷ n rest 8 ∷ n as4 8 ∷ n rest 8 ∷ [])
    ∷ (n ds5 16 ∷ n gs4 16 ∷ n b4 16 ∷ n gs4 16 ∷ n cs5 16 ∷ n gs4 16 ∷ n ds5 16 ∷ n gs4 16 ∷ [])
    ∷ (n cs5 16 ∷ n fs4 16 ∷ n as4 16 ∷ n fs4 16 ∷ n fs5 16 ∷ n fs4 16 ∷ n ds5 16 ∷ n e5 16 ∷ [])
    ∷ (n d5 4 ∷ n rest 4 ∷ n cs5 8 ∷ n rest 8 ∷ p as4 16 ∷ p b4 16 ∷ n cs5 16 ∷ [])
    ∷ (n ds5 16 ∷ n gs4 16 ∷ n b4 16 ∷ n gs4 16 ∷ n cs5 16 ∷ n gs4 16 ∷ n ds5 16 ∷ n gs4 16 ∷ [])
    ∷ (n cs5 16 ∷ n fs4 16 ∷ n as4 16 ∷ n fs4 16 ∷ n fs5 16 ∷ n fs4 16 ∷ n ds5 16 ∷ n e5 16 ∷ [])
    ∷ (n ds5 4 ∷ n rest 8 ∷ n ds5 16 ∷ n e5 16 ∷ [])
    ∷ (n fs5 16 ∷ n cs5 16 ∷ n e5 16 ∷ n cs4 16 ∷ n ds5 16 ∷ n e5 16 ∷ n g5 16 ∷ n as5 16 ∷ [])
    ∷ (n gs5 16 ∷ n ds5 16 ∷ n ds6 16 ∷ n ds5 16 ∷ n cs6 16 ∷ n ds5 16 ∷ n b5 16 ∷ n ds5 16 ∷ [])
    ∷ (n as5 16 ∷ n ds5 16 ∷ n b5 16 ∷ n ds5 16 ∷ n as5 16 ∷ n ds5 16 ∷ n gs5 16 ∷ n ds5 16 ∷ [])
    ∷ (n as5 16 ∷ n ds5 16 ∷ n b5 16 ∷ n ds5 16 ∷ n cs6 16 ∷ n ds5 16 ∷ n b5 16 ∷ n ds5 16 ∷ [])
    ∷ (n as5 16 ∷ n ds5 16 ∷ n fs5 16 ∷ n ds5 16 ∷ n as5 16 ∷ n ds5 16 ∷ n gs5 16 ∷ n ds5 16 ∷ [])
    ∷ (n gs5 16 ∷ n ds5 16 ∷ n ds6 16 ∷ n ds5 16 ∷ n cs6 16 ∷ n ds5 16 ∷ n b5 16 ∷ n ds5 16 ∷ [])
    ∷ (n as5 16 ∷ n ds5 16 ∷ n b5 16 ∷ n ds5 16 ∷ n as5 16 ∷ n ds5 16 ∷ n gs5 16 ∷ n ds5 16 ∷ [])
    ∷ (n as5 16 ∷ n ds5 16 ∷ n b5 16 ∷ n ds5 16 ∷ n cs6 16 ∷ n ds5 16 ∷ n b5 16 ∷ n ds5 16 ∷ [])
    ∷ (n as5 16 ∷ n ds5 16 ∷ n fs5 16 ∷ n ds5 16 ∷ n as5 16 ∷ n ds5 16 ∷ n gs5 16 ∷ n ds5 16 ∷ [])
    ∷ (n gs5 16 ∷ n ds5 16 ∷ n ds6 16 ∷ n ds5 16 ∷ n cs6 16 ∷ n ds5 16 ∷ n b5 16 ∷ n ds5 16 ∷ [])
    ∷ (n as5 16 ∷ n ds5 16 ∷ n b5 16 ∷ n ds5 16 ∷ n as5 16 ∷ n ds5 16 ∷ n gs5 16 ∷ n ds5 16 ∷ [])
    ∷ (n as5 16 ∷ n ds5 16 ∷ n b5 16 ∷ n ds5 16 ∷ n cs6 16 ∷ n ds5 16 ∷ n b5 16 ∷ n ds5 16 ∷ [])
    ∷ (n as5 16 ∷ n ds5 16 ∷ n fs5 16 ∷ n ds5 16 ∷ n as5 16 ∷ n ds5 16 ∷ n gs5 16 ∷ n ds5 16 ∷ [])
    ∷ (n gs5 16 ∷ n ds5 16 ∷ n ds6 16 ∷ n ds5 16 ∷ n cs6 16 ∷ n ds5 16 ∷ n b5 16 ∷ n ds5 16 ∷ [])
    ∷ (n as5 16 ∷ n ds5 16 ∷ n b5 16 ∷ n ds5 16 ∷ n as5 16 ∷ n ds5 16 ∷ n gs5 16 ∷ n ds5 16 ∷ [])
    ∷ (n as5 16 ∷ n ds5 16 ∷ n b5 16 ∷ n ds5 16 ∷ n cs6 16 ∷ n ds5 16 ∷ n b5 16 ∷ n ds5 16 ∷ [])
    ∷ (n as5 16 ∷ n ds5 16 ∷ n fs5 16 ∷ n ds5 16 ∷ n as5 16 ∷ n ds5 16 ∷ n gs5 16 ∷ n ds5 16 ∷ [])
    ∷ (n cs6 8 ∷ n fs6 16 ∷ n ds6 8 ∷ n rest 16 ∷ n rest 8 ∷ [])
    ∷ (n rest 4 ∷ n cs6 8 ∷ n b5 8 ∷ p cs6 8 ∷ p fs6 8 ∷ p ds6 4 ∷ [])
    ∷ (n cs6 8 ∷ n b5 8 ∷ n cs6 8 ∷ n fs6 16 ∷ n ds6 8 ∷ n rest 16 ∷ n rest 8 ∷ [])
    ∷ (n rest 4 ∷ n cs6 8 ∷ n b5 8 ∷ p e6 8 ∷ p f6 8 ∷ [])
    ∷ (p ds6 8 ∷ n rest 16 ∷ n e6 8 ∷ n rest 16 ∷ n rest 16 ∷ [])
    ∷ (n cs6 8 ∷ n fs6 16 ∷ n ds6 8 ∷ n rest 16 ∷ n rest 8 ∷ [])
    ∷ (n rest 4 ∷ n cs6 8 ∷ n b5 8 ∷ p cs6 8 ∷ p fs6 8 ∷ p ds6 4 ∷ [])
    ∷ (n cs6 8 ∷ n b5 8 ∷ n cs6 8 ∷ n fs6 16 ∷ n ds6 8 ∷ n rest 16 ∷ n rest 8 ∷ [])
    ∷ (n rest 4 ∷ n cs5 8 ∷ n ds5 8 ∷ p e5 8 ∷ p f5 8 ∷ [])
    ∷ (n ds5 8 ∷ n g5 8 ∷ n gs5 8 ∷ n as5 8 ∷ [])
    ∷ (p as5 8 ∷ p gs5 8 ∷ p as5 8 ∷ p gs5 8 ∷ [])
    ∷ (p as5 8 ∷ p gs5 8 ∷ n b6 8 ∷ n as5 8 ∷ n gs5 8 ∷ n fs5 8 ∷ [])
    ∷ (p as5 8 ∷ p gs6 8 ∷ n ds5 8 ∷ p as5 8 ∷ p gs6 8 ∷ n ds5 8 ∷ [])
    ∷ (p as5 8 ∷ p gs6 8 ∷ n ds5 8 ∷ n b5 8 ∷ n cs6 8 ∷ n as5 8 ∷ n b5 8 ∷ [])
    ∷ (n gs5 8 ∷ n rest 8 ∷ n rest 16 ∷ [])
    ∷ [])

unfoldable pub vampirekiller_melody : List (ℕ × ℤ)
vampirekiller_melody = rows (
    (n e5 16 ∷ n e5 8 ∷ n d5 16 ∷ n rest 16 ∷ p cs5 4 ∷ n e4 8 ∷ n fs4 16 ∷ n g4 16 ∷ [])
    ∷ (n a4 16 ∷ [])
    ∷ (p b4 8 ∷ p e4 8 ∷ n b4 8 ∷ n a4 16 ∷ p d5 4 ∷ [])
    ∷ (n e5 16 ∷ n e5 8 ∷ n d5 16 ∷ n rest 16 ∷ p cs5 4 ∷ n e4 8 ∷ n fs4 16 ∷ n g4 16 ∷ [])
    ∷ (n a4 16 ∷ [])
    ∷ (p b4 8 ∷ p e4 8 ∷ n b4 8 ∷ n a4 16 ∷ p d4 4 ∷ [])
    ∷ (n rest 8 ∷ n e5 8 ∷ n rest 16 ∷ n b5 16 ∷ n rest 8 ∷ n as5 16 ∷ n b5 16 ∷ n as5 16 ∷ [])
    ∷ (n g5 16 ∷ n rest 4 ∷ [])
    ∷ (n b5 8 ∷ n b5 16 ∷ n as5 16 ∷ n rest 16 ∷ n as5 16 ∷ n a5 16 ∷ n rest 16 ∷ n b5 16 ∷ [])
    ∷ (n g5 16 ∷ n b5 16 ∷ n as5 16 ∷ n rest 16 ∷ n b5 16 ∷ n a5 16 ∷ n g5 16 ∷ [])
    ∷ (n rest 8 ∷ n e5 8 ∷ n rest 16 ∷ n b5 16 ∷ n rest 8 ∷ n as5 16 ∷ n b5 16 ∷ n as5 16 ∷ [])
    ∷ (n g5 16 ∷ n rest 4 ∷ [])
    ∷ (n b5 8 ∷ n b5 16 ∷ n as5 16 ∷ n rest 16 ∷ n as5 16 ∷ n a5 16 ∷ n rest 16 ∷ n b5 16 ∷ [])
    ∷ (n g5 16 ∷ n b5 16 ∷ n as5 16 ∷ n rest 16 ∷ n b5 16 ∷ n a5 16 ∷ n g5 16 ∷ [])
    ∷ (p ds4 8 ∷ p fs4 8 ∷ n c5 8 ∷ p b4 8 ∷ p g4 8 ∷ n e4 8 ∷ [])
    ∷ (p ds4 8 ∷ p fs4 8 ∷ n c5 8 ∷ p b4 8 ∷ p g4 8 ∷ n rest 8 ∷ [])
    ∷ (p ds4 8 ∷ p fs4 8 ∷ n c5 8 ∷ p b4 8 ∷ p g4 8 ∷ n e4 8 ∷ [])
    ∷ (p ds4 8 ∷ p fs4 8 ∷ n c5 8 ∷ p b4 8 ∷ p cs5 8 ∷ n ds5 8 ∷ [])
    ∷ (n e5 16 ∷ n e5 16 ∷ n e4 16 ∷ p e4 2 ∷ [])
    ∷ (n c4 8 ∷ n c4 8 ∷ n e4 16 ∷ p g4 8 ∷ n d4 8 ∷ n d4 8 ∷ n fs4 16 ∷ p a4 8 ∷ [])
    ∷ (n e5 16 ∷ n e5 16 ∷ n e4 16 ∷ p e4 2 ∷ [])
    ∷ (n c4 8 ∷ n c4 8 ∷ n e4 16 ∷ p g4 8 ∷ n d4 8 ∷ n d4 8 ∷ n b3 16 ∷ p d4 8 ∷ [])
    ∷ (n e5 16 ∷ n e5 8 ∷ n d5 16 ∷ n rest 16 ∷ p cs5 4 ∷ n e4 8 ∷ n fs4 16 ∷ n g4 16 ∷ [])
    ∷ (n a4 16 ∷ [])
    ∷ (p b4 8 ∷ p e4 8 ∷ n b4 8 ∷ n a4 16 ∷ p d5 4 ∷ [])
    ∷ (n e5 16 ∷ n e5 8 ∷ n d5 16 ∷ n rest 16 ∷ p cs5 4 ∷ n e4 8 ∷ n fs4 16 ∷ n g4 16 ∷ [])
    ∷ (n a4 16 ∷ [])
    ∷ (p b4 8 ∷ p e4 8 ∷ n b4 8 ∷ n a4 16 ∷ p d4 4 ∷ [])
    ∷ (n rest 8 ∷ n e5 8 ∷ n rest 16 ∷ n b5 16 ∷ n rest 8 ∷ n as5 16 ∷ n b5 16 ∷ n as5 16 ∷ [])
    ∷ (n g5 16 ∷ n rest 4 ∷ [])
    ∷ (n b5 8 ∷ n b5 16 ∷ n as5 16 ∷ n rest 16 ∷ n as5 16 ∷ n a5 16 ∷ n rest 16 ∷ n b5 16 ∷ [])
    ∷ (n g5 16 ∷ n b5 16 ∷ n as5 16 ∷ n rest 16 ∷ n b5 16 ∷ n a5 16 ∷ n g5 16 ∷ [])
    ∷ (n rest 8 ∷ n e5 8 ∷ n rest 16 ∷ n b5 16 ∷ n rest 8 ∷ n as5 16 ∷ n b5 16 ∷ n as5 16 ∷ [])
    ∷ (n g5 16 ∷ n rest 4 ∷ [])
    ∷ (n b5 8 ∷ n b5 16 ∷ n as5 16 ∷ n rest 16 ∷ n as5 16 ∷ n a5 16 ∷ n rest 16 ∷ n b5 16 ∷ [])
    ∷ (n g5 16 ∷ n b5 16 ∷ n as5 16 ∷ n rest 16 ∷ n b5 16 ∷ n a5 16 ∷ n g5 16 ∷ [])
    ∷ (p ds4 8 ∷ p fs4 8 ∷ n c5 8 ∷ p b4 8 ∷ p g4 8 ∷ n e4 8 ∷ [])
    ∷ (p ds4 8 ∷ p fs4 8 ∷ n c5 8 ∷ p b4 8 ∷ p g4 8 ∷ n rest 8 ∷ [])
    ∷ (p ds4 8 ∷ p fs4 8 ∷ n c5 8 ∷ p b4 8 ∷ p g4 8 ∷ n e4 8 ∷ [])
    ∷ (p ds4 8 ∷ p fs4 8 ∷ n c5 8 ∷ p b4 8 ∷ p cs5 8 ∷ n ds5 8 ∷ [])
    ∷ (n e5 16 ∷ n e5 16 ∷ n e4 16 ∷ p e4 2 ∷ [])
    ∷ (n c4 8 ∷ n c4 8 ∷ n e4 16 ∷ p g4 8 ∷ n d4 8 ∷ n d4 8 ∷ n fs4 16 ∷ p a4 8 ∷ [])
    ∷ (n e5 16 ∷ n e5 16 ∷ n e4 16 ∷ p e4 2 ∷ [])
    ∷ (n c4 8 ∷ n c4 8 ∷ n e4 16 ∷ p g4 8 ∷ n d4 8 ∷ n d4 8 ∷ n b3 16 ∷ p d4 8 ∷ [])
    ∷ [])
