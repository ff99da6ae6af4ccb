-- ===== src/User/Theme/Series.antt =====
-- The melodies of user/theme_lib.c for series.
-- A melody is the list of its pairs of entries.
use kernel_genesis_os.Base.{ℕ, ℤ, List, [], ◌∷◌}
use kernel_genesis_os.User.Theme.Notes.{
  n, p, rows, a4, as3, as4, as5, as6, b4, c4, c5, c6, c7, d4, d5, ds4, ds5, ds6, e4, e5, f4, f5, f6,
  g4, g5, g6, gs4, gs5, gs6, rest,
}

unfoldable pub startrek_intro_melody : List (ℕ × ℤ)
startrek_intro_melody =
    rows
      ((p d4 8 ∷ n g4 16 ∷ p c5 4 ∷ n b4 8 ∷ p g4 16 ∷ p e4 16 ∷ p a4 16 ∷ []) ∷ (n d5 2 ∷ []) ∷ [])

unfoldable pub gameofthrone_melody : List (ℕ × ℤ)
gameofthrone_melody = rows (
    (n g4 8 ∷ n c4 8 ∷ n ds4 16 ∷ n f4 16 ∷ n g4 8 ∷ n c4 8 ∷ n ds4 16 ∷ n f4 16 ∷ [])
    ∷ (n g4 8 ∷ n c4 8 ∷ n ds4 16 ∷ n f4 16 ∷ n g4 8 ∷ n c4 8 ∷ n ds4 16 ∷ n f4 16 ∷ [])
    ∷ (n g4 8 ∷ n c4 8 ∷ n e4 16 ∷ n f4 16 ∷ n g4 8 ∷ n c4 8 ∷ n e4 16 ∷ n f4 16 ∷ [])
    ∷ (n g4 8 ∷ n c4 8 ∷ n e4 16 ∷ n f4 16 ∷ n g4 8 ∷ n c4 8 ∷ n e4 16 ∷ n f4 16 ∷ [])
    ∷ (p g4 4 ∷ p c4 4 ∷ n ds4 16 ∷ n f4 16 ∷ n g4 4 ∷ n c4 4 ∷ n ds4 16 ∷ n f4 16 ∷ [])
    ∷ (p d4 1 ∷ p f4 4 ∷ p as3 4 ∷ n ds4 16 ∷ n d4 16 ∷ n f4 4 ∷ p as3 4 ∷ [])
    ∷ (n ds4 16 ∷ n d4 16 ∷ p c4 1 ∷ p g4 4 ∷ p c4 4 ∷ [])
    ∷ (n ds4 16 ∷ n f4 16 ∷ n g4 4 ∷ n c4 4 ∷ n ds4 16 ∷ n f4 16 ∷ [])
    ∷ (p d4 1 ∷ p f4 4 ∷ p as3 4 ∷ n ds4 16 ∷ n d4 16 ∷ n f4 4 ∷ p as3 4 ∷ [])
    ∷ (n ds4 16 ∷ n d4 16 ∷ p c4 1 ∷ p g4 4 ∷ p c4 4 ∷ [])
    ∷ (n ds4 16 ∷ n f4 16 ∷ n g4 4 ∷ n c4 4 ∷ n ds4 16 ∷ n f4 16 ∷ [])
    ∷ (p d4 2 ∷ p f4 4 ∷ p as3 4 ∷ p d4 8 ∷ p ds4 8 ∷ p d4 8 ∷ p as3 8 ∷ [])
    ∷ (p c4 1 ∷ p c5 2 ∷ p as4 2 ∷ p c4 2 ∷ [])
    ∷ (p g4 2 ∷ p ds4 2 ∷ p ds4 4 ∷ p f4 4 ∷ [])
    ∷ (p g4 1 ∷ p c5 2 ∷ p as4 2 ∷ p c4 2 ∷ [])
    ∷ (p g4 2 ∷ p ds4 2 ∷ p ds4 4 ∷ p d4 4 ∷ [])
    ∷ (n c5 8 ∷ n g4 8 ∷ n gs4 16 ∷ n as4 16 ∷ n c5 8 ∷ n g4 8 ∷ n gs4 16 ∷ n as4 16 ∷ [])
    ∷ (n c5 8 ∷ n g4 8 ∷ n gs4 16 ∷ n as4 16 ∷ n c5 8 ∷ n g4 8 ∷ n gs4 16 ∷ n as4 16 ∷ [])
    ∷ (n rest 4 ∷ n gs5 16 ∷ n as5 16 ∷ n c6 8 ∷ n g5 8 ∷ n gs5 16 ∷ n as5 16 ∷ [])
    ∷ (n c6 8 ∷ n g5 16 ∷ n gs5 16 ∷ n as5 16 ∷ n c6 8 ∷ n g5 8 ∷ n gs5 16 ∷ n as5 16 ∷ [])
    ∷ [])

unfoldable pub evangelion_melody : List (ℕ × ℤ)
evangelion_melody = rows (
    (n c4 2 ∷ n ds4 2 ∷ n f4 4 ∷ n ds4 2 ∷ [])
    ∷ (n f4 4 ∷ n f4 2 ∷ n as4 4 ∷ n gs4 4 ∷ [])
    ∷ (n g4 4 ∷ n f4 4 ∷ n g4 2 ∷ n g4 2 ∷ n as4 2 ∷ [])
    ∷ (n c5 4 ∷ n f4 2 ∷ n ds4 4 ∷ n as4 4 ∷ n as4 4 ∷ n g4 4 ∷ n as4 4 ∷ [])
    ∷ (n as4 2 ∷ p c5 1 ∷ n c4 4 ∷ p ds4 8 ∷ n ds4 16 ∷ p f4 8 ∷ p ds4 8 ∷ n f4 8 ∷ [])
    ∷ (n f4 8 ∷ n f4 8 ∷ n as4 8 ∷ n gs4 8 ∷ n g4 16 ∷ n f4 8 ∷ p g4 8 ∷ [])
    ∷ (n g4 4 ∷ p as4 8 ∷ n as4 16 ∷ p c5 8 ∷ p f4 8 ∷ n ds4 8 ∷ [])
    ∷ (n as4 8 ∷ n as4 8 ∷ n g4 8 ∷ n as4 8 ∷ p as4 8 ∷ n c5 4 ∷ n rest 16 ∷ [])
    ∷ (n ds5 8 ∷ n as4 8 ∷ n as4 2 ∷ n as4 16 ∷ [])
    ∷ (p ds5 8 ∷ p f5 8 ∷ n as4 8 ∷ p as4 4 ∷ n as4 8 ∷ [])
    ∷ (p g5 8 ∷ p gs5 8 ∷ n g5 8 ∷ p f5 8 ∷ p ds5 8 ∷ [])
    ∷ (p g5 8 ∷ p gs5 8 ∷ n g5 8 ∷ p c5 4 ∷ n c5 16 ∷ n d5 16 ∷ [])
    ∷ (p ds5 8 ∷ p ds5 8 ∷ n d5 8 ∷ p d5 4 ∷ n ds5 16 ∷ n f5 16 ∷ [])
    ∷ (p gs5 8 ∷ p g5 8 ∷ n f5 8 ∷ p ds5 4 ∷ p g5 8 ∷ [])
    ∷ (p g5 8 ∷ p f5 8 ∷ n e5 8 ∷ n f5 4 ∷ n c5 4 ∷ [])
    ∷ (p c5 4 ∷ n d5 8 ∷ p d5 4 ∷ n rest 8 ∷ [])
    ∷ (n ds5 8 ∷ n as4 8 ∷ n as4 2 ∷ n as4 16 ∷ [])
    ∷ (p ds5 8 ∷ p f5 8 ∷ n as4 8 ∷ p as4 4 ∷ n as4 8 ∷ [])
    ∷ (p g5 8 ∷ p gs5 8 ∷ n g5 8 ∷ p f5 8 ∷ p ds5 8 ∷ [])
    ∷ (p g5 8 ∷ p gs5 8 ∷ n g5 8 ∷ p c5 4 ∷ n c5 16 ∷ n d5 16 ∷ [])
    ∷ (p ds5 8 ∷ p ds5 8 ∷ n d5 8 ∷ p d5 4 ∷ n ds5 16 ∷ n f5 16 ∷ [])
    ∷ (p gs5 8 ∷ p g5 8 ∷ n f5 8 ∷ p ds5 4 ∷ p g5 8 ∷ [])
    ∷ (p g5 8 ∷ p f5 8 ∷ n e5 8 ∷ n f5 4 ∷ n c5 4 ∷ [])
    ∷ (p c5 4 ∷ n d5 8 ∷ p d5 4 ∷ n rest 8 ∷ [])
    ∷ (p ds5 8 ∷ p ds5 8 ∷ n d5 8 ∷ p d5 4 ∷ n ds5 16 ∷ n f5 16 ∷ [])
    ∷ (p gs5 8 ∷ p g5 8 ∷ n f5 8 ∷ p ds5 4 ∷ p g5 8 ∷ [])
    ∷ (p g5 8 ∷ p f5 8 ∷ n e5 8 ∷ n f5 4 ∷ n c5 4 ∷ [])
    ∷ (p c5 4 ∷ n d5 8 ∷ p d5 4 ∷ n rest 8 ∷ [])
    ∷ (n c5 4 ∷ n ds5 4 ∷ n f5 8 ∷ n ds5 4 ∷ n f5 8 ∷ [])
    ∷ (n f5 8 ∷ n f5 8 ∷ n as5 8 ∷ n gs5 8 ∷ n g5 16 ∷ n f5 8 ∷ p g5 8 ∷ [])
    ∷ (n g5 4 ∷ n as5 4 ∷ n c6 8 ∷ n f5 4 ∷ n ds5 8 ∷ [])
    ∷ (n d5 8 ∷ n d5 8 ∷ n c5 8 ∷ n d5 8 ∷ n f5 16 ∷ n ds5 8 ∷ p ds5 8 ∷ n rest 16 ∷ [])
    ∷ (n c5 4 ∷ n ds5 4 ∷ n f5 8 ∷ n ds5 4 ∷ n f5 8 ∷ [])
    ∷ (n f5 8 ∷ n f5 8 ∷ n as5 8 ∷ n gs5 8 ∷ n g5 16 ∷ n f5 8 ∷ p g5 8 ∷ [])
    ∷ (n g5 4 ∷ n as5 4 ∷ n c6 8 ∷ n f5 4 ∷ n ds5 8 ∷ [])
    ∷ (n as5 8 ∷ n as5 8 ∷ n g5 8 ∷ n as5 8 ∷ p as5 8 ∷ n c6 4 ∷ [])
    ∷ (n c5 4 ∷ n ds5 4 ∷ n f5 8 ∷ n ds5 4 ∷ n f5 8 ∷ [])
    ∷ (n f5 8 ∷ n f5 8 ∷ n as5 8 ∷ n gs5 8 ∷ n g5 16 ∷ n f5 8 ∷ p g5 8 ∷ [])
    ∷ (n g5 4 ∷ n as5 4 ∷ n c6 8 ∷ n f5 4 ∷ n ds5 8 ∷ [])
    ∷ (n as5 8 ∷ n as5 8 ∷ n g5 8 ∷ n as5 8 ∷ p as5 8 ∷ n c6 4 ∷ [])
    ∷ (n c5 4 ∷ n ds5 4 ∷ n f5 8 ∷ n ds5 4 ∷ n f5 8 ∷ [])
    ∷ (n f5 8 ∷ n f5 8 ∷ n as5 8 ∷ n gs5 8 ∷ n g5 16 ∷ n f5 8 ∷ p g5 8 ∷ [])
    ∷ (n g5 4 ∷ n as5 4 ∷ n c6 8 ∷ n f5 4 ∷ n ds5 8 ∷ [])
    ∷ (n as5 8 ∷ n as5 8 ∷ n g5 8 ∷ n as5 8 ∷ p as5 8 ∷ n c6 4 ∷ [])
    ∷ (n c6 4 ∷ n ds6 4 ∷ n f6 8 ∷ n ds6 4 ∷ n f6 8 ∷ [])
    ∷ (n f6 8 ∷ n f6 8 ∷ n as6 8 ∷ n gs6 8 ∷ n g6 16 ∷ n f6 8 ∷ p g6 8 ∷ [])
    ∷ (n g6 4 ∷ n as6 4 ∷ n c7 8 ∷ n f6 4 ∷ n ds6 8 ∷ [])
    ∷ (n as6 8 ∷ n as6 8 ∷ n g6 8 ∷ n as6 8 ∷ p as6 8 ∷ n c7 4 ∷ [])
    ∷ [])
