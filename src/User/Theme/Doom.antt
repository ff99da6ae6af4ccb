-- ===== src/User/Theme/Doom.antt =====
-- The melodies of user/theme_lib.c for Doom.
-- A melody is the list of its pairs of entries.
use kernel_genesis_os.Base.{ℕ, ℤ, List, [], ◌∷◌}
use kernel_genesis_os.User.Theme.Notes.{
  n, p, rows, a2, a3, as2, b2, b3, b4, c3, c4, cs3, cs4, d3, d4, ds3, ds4, e2, e3, e4, f3, fs3, g3,
  g4, gs3,
}

unfoldable pub doom_melody : List (ℕ × ℤ)
doom_melody = rows (
    (n e2 8 ∷ n e2 8 ∷ n e3 8 ∷ n e2 8 ∷ n e2 8 ∷ n d3 8 ∷ n e2 8 ∷ n e2 8 ∷ [])
    ∷ (n c3 8 ∷ n e2 8 ∷ n e2 8 ∷ n as2 8 ∷ n e2 8 ∷ n e2 8 ∷ n b2 8 ∷ n c3 8 ∷ [])
    ∷ (n e2 8 ∷ n e2 8 ∷ n e3 8 ∷ n e2 8 ∷ n e2 8 ∷ n d3 8 ∷ n e2 8 ∷ n e2 8 ∷ [])
    ∷ (n c3 8 ∷ n e2 8 ∷ n e2 8 ∷ p as2 2 ∷ [])
    ∷ (n e2 8 ∷ n e2 8 ∷ n e3 8 ∷ n e2 8 ∷ n e2 8 ∷ n d3 8 ∷ n e2 8 ∷ n e2 8 ∷ [])
    ∷ (n c3 8 ∷ n e2 8 ∷ n e2 8 ∷ n as2 8 ∷ n e2 8 ∷ n e2 8 ∷ n b2 8 ∷ n c3 8 ∷ [])
    ∷ (n e2 8 ∷ n e2 8 ∷ n e3 8 ∷ n e2 8 ∷ n e2 8 ∷ n d3 8 ∷ n e2 8 ∷ n e2 8 ∷ [])
    ∷ (n c3 8 ∷ n e2 8 ∷ n e2 8 ∷ p as2 2 ∷ [])
    ∷ (n e2 8 ∷ n e2 8 ∷ n e3 8 ∷ n e2 8 ∷ n e2 8 ∷ n d3 8 ∷ n e2 8 ∷ n e2 8 ∷ [])
    ∷ (n c3 8 ∷ n e2 8 ∷ n e2 8 ∷ n as2 8 ∷ n e2 8 ∷ n e2 8 ∷ n b2 8 ∷ n c3 8 ∷ [])
    ∷ (n e2 8 ∷ n e2 8 ∷ n e3 8 ∷ n e2 8 ∷ n e2 8 ∷ n d3 8 ∷ n e2 8 ∷ n e2 8 ∷ [])
    ∷ (n c3 8 ∷ n e2 8 ∷ n e2 8 ∷ p as2 2 ∷ [])
    ∷ (n e2 8 ∷ n e2 8 ∷ n e3 8 ∷ n e2 8 ∷ n e2 8 ∷ n d3 8 ∷ n e2 8 ∷ n e2 8 ∷ [])
    ∷ (n c3 8 ∷ n e2 8 ∷ n e2 8 ∷ n as2 8 ∷ n e2 8 ∷ n e2 8 ∷ n b2 8 ∷ n c3 8 ∷ [])
    ∷ (n e2 8 ∷ n e2 8 ∷ n e3 8 ∷ n e2 8 ∷ n e2 8 ∷ n d3 8 ∷ n e2 8 ∷ n e2 8 ∷ [])
    ∷ (p fs3 16 ∷ p d3 16 ∷ p b2 16 ∷ p a3 16 ∷ p fs3 16 ∷ p b2 16 ∷ p d3 16 ∷ p fs3 16 ∷ [])
    ∷ (p a3 16 ∷ p fs3 16 ∷ p d3 16 ∷ p b2 16 ∷ [])
    ∷ (n e2 8 ∷ n e2 8 ∷ n e3 8 ∷ n e2 8 ∷ n e2 8 ∷ n d3 8 ∷ n e2 8 ∷ n e2 8 ∷ [])
    ∷ (n c3 8 ∷ n e2 8 ∷ n e2 8 ∷ n as2 8 ∷ n e2 8 ∷ n e2 8 ∷ n b2 8 ∷ n c3 8 ∷ [])
    ∷ (n e2 8 ∷ n e2 8 ∷ n e3 8 ∷ n e2 8 ∷ n e2 8 ∷ n d3 8 ∷ n e2 8 ∷ n e2 8 ∷ [])
    ∷ (n c3 8 ∷ n e2 8 ∷ n e2 8 ∷ p as2 2 ∷ [])
    ∷ (n e2 8 ∷ n e2 8 ∷ n e3 8 ∷ n e2 8 ∷ n e2 8 ∷ n d3 8 ∷ n e2 8 ∷ n e2 8 ∷ [])
    ∷ (n c3 8 ∷ n e2 8 ∷ n e2 8 ∷ n as2 8 ∷ n e2 8 ∷ n e2 8 ∷ n b2 8 ∷ n c3 8 ∷ [])
    ∷ (n e2 8 ∷ n e2 8 ∷ n e3 8 ∷ n e2 8 ∷ n e2 8 ∷ n d3 8 ∷ n e2 8 ∷ n e2 8 ∷ [])
    ∷ (p b3 16 ∷ p g3 16 ∷ p e3 16 ∷ p g3 16 ∷ p b3 16 ∷ p e4 16 ∷ p g3 16 ∷ p b3 16 ∷ [])
    ∷ (p e4 16 ∷ p b3 16 ∷ p g4 16 ∷ p b4 16 ∷ [])
    ∷ (n a2 8 ∷ n a2 8 ∷ n a3 8 ∷ n a2 8 ∷ n a2 8 ∷ n g3 8 ∷ n a2 8 ∷ n a2 8 ∷ [])
    ∷ (n f3 8 ∷ n a2 8 ∷ n a2 8 ∷ n ds3 8 ∷ n a2 8 ∷ n a2 8 ∷ n e3 8 ∷ n f3 8 ∷ [])
    ∷ (n a2 8 ∷ n a2 8 ∷ n a3 8 ∷ n a2 8 ∷ n a2 8 ∷ n g3 8 ∷ n a2 8 ∷ n a2 8 ∷ [])
    ∷ (n f3 8 ∷ n a2 8 ∷ n a2 8 ∷ p ds3 2 ∷ [])
    ∷ (n a2 8 ∷ n a2 8 ∷ n a3 8 ∷ n a2 8 ∷ n a2 8 ∷ n g3 8 ∷ n a2 8 ∷ n a2 8 ∷ [])
    ∷ (n f3 8 ∷ n a2 8 ∷ n a2 8 ∷ n ds3 8 ∷ n a2 8 ∷ n a2 8 ∷ n e3 8 ∷ n f3 8 ∷ [])
    ∷ (n a2 8 ∷ n a2 8 ∷ n a3 8 ∷ n a2 8 ∷ n a2 8 ∷ n g3 8 ∷ n a2 8 ∷ n a2 8 ∷ [])
    ∷ (p a3 16 ∷ p f3 16 ∷ p d3 16 ∷ p a3 16 ∷ p f3 16 ∷ p d3 16 ∷ p c4 16 ∷ p a3 16 ∷ [])
    ∷ (p f3 16 ∷ p a3 16 ∷ p f3 16 ∷ p d3 16 ∷ [])
    ∷ (n e2 8 ∷ n e2 8 ∷ n e3 8 ∷ n e2 8 ∷ n e2 8 ∷ n d3 8 ∷ n e2 8 ∷ n e2 8 ∷ [])
    ∷ (n c3 8 ∷ n e2 8 ∷ n e2 8 ∷ n as2 8 ∷ n e2 8 ∷ n e2 8 ∷ n b2 8 ∷ n c3 8 ∷ [])
    ∷ (n e2 8 ∷ n e2 8 ∷ n e3 8 ∷ n e2 8 ∷ n e2 8 ∷ n d3 8 ∷ n e2 8 ∷ n e2 8 ∷ [])
    ∷ (n c3 8 ∷ n e2 8 ∷ n e2 8 ∷ p as2 2 ∷ [])
    ∷ (n e2 8 ∷ n e2 8 ∷ n e3 8 ∷ n e2 8 ∷ n e2 8 ∷ n d3 8 ∷ n e2 8 ∷ n e2 8 ∷ [])
    ∷ (n c3 8 ∷ n e2 8 ∷ n e2 8 ∷ n as2 8 ∷ n e2 8 ∷ n e2 8 ∷ n b2 8 ∷ n c3 8 ∷ [])
    ∷ (n e2 8 ∷ n e2 8 ∷ n e3 8 ∷ n e2 8 ∷ n e2 8 ∷ n d3 8 ∷ n e2 8 ∷ n e2 8 ∷ [])
    ∷ (n c3 8 ∷ n e2 8 ∷ n e2 8 ∷ p as2 2 ∷ [])
    ∷ (n cs3 8 ∷ n cs3 8 ∷ n cs4 8 ∷ n cs3 8 ∷ n cs3 8 ∷ n b3 8 ∷ n cs3 8 ∷ n cs3 8 ∷ [])
    ∷ (n a3 8 ∷ n cs3 8 ∷ n cs3 8 ∷ n g3 8 ∷ n cs3 8 ∷ n cs3 8 ∷ n gs3 8 ∷ n a3 8 ∷ [])
    ∷ (n b2 8 ∷ n b2 8 ∷ n b3 8 ∷ n b2 8 ∷ n b2 8 ∷ n a3 8 ∷ n b2 8 ∷ n b2 8 ∷ [])
    ∷ (n g3 8 ∷ n b2 8 ∷ n b2 8 ∷ p f3 2 ∷ [])
    ∷ (n e2 8 ∷ n e2 8 ∷ n e3 8 ∷ n e2 8 ∷ n e2 8 ∷ n d3 8 ∷ n e2 8 ∷ n e2 8 ∷ [])
    ∷ (n c3 8 ∷ n e2 8 ∷ n e2 8 ∷ n as2 8 ∷ n e2 8 ∷ n e2 8 ∷ n b2 8 ∷ n c3 8 ∷ [])
    ∷ (n e2 8 ∷ n e2 8 ∷ n e3 8 ∷ n e2 8 ∷ n e2 8 ∷ n d3 8 ∷ n e2 8 ∷ n e2 8 ∷ [])
    ∷ (p b3 16 ∷ p g3 16 ∷ p e3 16 ∷ p g3 16 ∷ p b3 16 ∷ p e4 16 ∷ p g3 16 ∷ p b3 16 ∷ [])
    ∷ (p e4 16 ∷ p b3 16 ∷ p g4 16 ∷ p b4 16 ∷ [])
    ∷ (n e2 8 ∷ n e2 8 ∷ n e3 8 ∷ n e2 8 ∷ n e2 8 ∷ n d3 8 ∷ n e2 8 ∷ n e2 8 ∷ [])
    ∷ (n c3 8 ∷ n e2 8 ∷ n e2 8 ∷ n as2 8 ∷ n e2 8 ∷ n e2 8 ∷ n b2 8 ∷ n c3 8 ∷ [])
    ∷ (n e2 8 ∷ n e2 8 ∷ n e3 8 ∷ n e2 8 ∷ n e2 8 ∷ n d3 8 ∷ n e2 8 ∷ n e2 8 ∷ [])
    ∷ (n c3 8 ∷ n e2 8 ∷ n e2 8 ∷ p as2 2 ∷ [])
    ∷ (n e2 8 ∷ n e2 8 ∷ n e3 8 ∷ n e2 8 ∷ n e2 8 ∷ n d3 8 ∷ n e2 8 ∷ n e2 8 ∷ [])
    ∷ (n c3 8 ∷ n e2 8 ∷ n e2 8 ∷ n as2 8 ∷ n e2 8 ∷ n e2 8 ∷ n b2 8 ∷ n c3 8 ∷ [])
    ∷ (n e2 8 ∷ n e2 8 ∷ n e3 8 ∷ n e2 8 ∷ n e2 8 ∷ n d3 8 ∷ n e2 8 ∷ n e2 8 ∷ [])
    ∷ (p fs3 16 ∷ p ds3 16 ∷ p b2 16 ∷ p fs3 16 ∷ p ds3 16 ∷ p b2 16 ∷ p g3 16 ∷ p d3 16 ∷ [])
    ∷ (p b2 16 ∷ p ds4 16 ∷ p ds3 16 ∷ p b2 16 ∷ [])
    ∷ (n e2 8 ∷ n e2 8 ∷ n e3 8 ∷ n e2 8 ∷ n e2 8 ∷ n d3 8 ∷ n e2 8 ∷ n e2 8 ∷ [])
    ∷ (n c3 8 ∷ n e2 8 ∷ n e2 8 ∷ n as2 8 ∷ n e2 8 ∷ n e2 8 ∷ n b2 8 ∷ n c3 8 ∷ [])
    ∷ (n e2 8 ∷ n e2 8 ∷ n e3 8 ∷ n e2 8 ∷ n e2 8 ∷ n d3 8 ∷ n e2 8 ∷ n e2 8 ∷ [])
    ∷ (n c3 8 ∷ n e2 8 ∷ n e2 8 ∷ p as2 2 ∷ [])
    ∷ (n e2 8 ∷ n e2 8 ∷ n e3 8 ∷ n e2 8 ∷ n e2 8 ∷ n d3 8 ∷ n e2 8 ∷ n e2 8 ∷ [])
    ∷ (n c3 8 ∷ n e2 8 ∷ n e2 8 ∷ n as2 8 ∷ n e2 8 ∷ n e2 8 ∷ n b2 8 ∷ n c3 8 ∷ [])
    ∷ (n e2 8 ∷ n e2 8 ∷ n e3 8 ∷ n e2 8 ∷ n e2 8 ∷ n d3 8 ∷ n e2 8 ∷ n e2 8 ∷ [])
    ∷ (p e4 16 ∷ p b3 16 ∷ p g3 16 ∷ p g4 16 ∷ p e4 16 ∷ p g3 16 ∷ p b3 16 ∷ p d4 16 ∷ [])
    ∷ (p e4 16 ∷ p g4 16 ∷ p e4 16 ∷ p g3 16 ∷ [])
    ∷ (n e2 8 ∷ n e2 8 ∷ n e3 8 ∷ n e2 8 ∷ n e2 8 ∷ n d3 8 ∷ n e2 8 ∷ n e2 8 ∷ [])
    ∷ (n c3 8 ∷ n e2 8 ∷ n e2 8 ∷ n as2 8 ∷ n e2 8 ∷ n e2 8 ∷ n b2 8 ∷ n c3 8 ∷ [])
    ∷ (n e2 8 ∷ n e2 8 ∷ n e3 8 ∷ n e2 8 ∷ n e2 8 ∷ n d3 8 ∷ n e2 8 ∷ n e2 8 ∷ [])
    ∷ (n c3 8 ∷ n e2 8 ∷ n e2 8 ∷ p as2 2 ∷ [])
    ∷ (n a2 8 ∷ n a2 8 ∷ n a3 8 ∷ n a2 8 ∷ n a2 8 ∷ n g3 8 ∷ n a2 8 ∷ n a2 8 ∷ [])
    ∷ (n f3 8 ∷ n a2 8 ∷ n a2 8 ∷ n ds3 8 ∷ n a2 8 ∷ n a2 8 ∷ n e3 8 ∷ n f3 8 ∷ [])
    ∷ (n a2 8 ∷ n a2 8 ∷ n a3 8 ∷ n a2 8 ∷ n a2 8 ∷ n g3 8 ∷ n a2 8 ∷ n a2 8 ∷ [])
    ∷ (p a3 16 ∷ p f3 16 ∷ p d3 16 ∷ p a3 16 ∷ p f3 16 ∷ p d3 16 ∷ p c4 16 ∷ p a3 16 ∷ [])
    ∷ (p f3 16 ∷ p a3 16 ∷ p f3 16 ∷ p d3 16 ∷ [])
    ∷ (n e2 8 ∷ n e2 8 ∷ n e3 8 ∷ n e2 8 ∷ n e2 8 ∷ n d3 8 ∷ n e2 8 ∷ n e2 8 ∷ [])
    ∷ (n c3 8 ∷ n e2 8 ∷ n e2 8 ∷ n as2 8 ∷ n e2 8 ∷ n e2 8 ∷ n b2 8 ∷ n c3 8 ∷ [])
    ∷ (n e2 8 ∷ n e2 8 ∷ n e3 8 ∷ n e2 8 ∷ n e2 8 ∷ n d3 8 ∷ n e2 8 ∷ n e2 8 ∷ [])
    ∷ (n c3 8 ∷ n e2 8 ∷ n e2 8 ∷ p as2 2 ∷ [])
    ∷ (n e2 8 ∷ n e2 8 ∷ n e3 8 ∷ n e2 8 ∷ n e2 8 ∷ n d3 8 ∷ n e2 8 ∷ n e2 8 ∷ [])
    ∷ (n c3 8 ∷ n e2 8 ∷ n e2 8 ∷ n as2 8 ∷ n e2 8 ∷ n e2 8 ∷ n b2 8 ∷ n c3 8 ∷ [])
    ∷ (n e2 8 ∷ n e2 8 ∷ n e3 8 ∷ n e2 8 ∷ n e2 8 ∷ n d3 8 ∷ n e2 8 ∷ n e2 8 ∷ [])
    ∷ (n c3 8 ∷ n e2 8 ∷ n e2 8 ∷ p as2 2 ∷ [])
    ∷ (n e2 8 ∷ n e2 8 ∷ n e3 8 ∷ n e2 8 ∷ n e2 8 ∷ n d3 8 ∷ n e2 8 ∷ n e2 8 ∷ [])
    ∷ (n c3 8 ∷ n e2 8 ∷ n e2 8 ∷ n as2 8 ∷ n e2 8 ∷ n e2 8 ∷ n b2 8 ∷ n c3 8 ∷ [])
    ∷ (n e2 8 ∷ n e2 8 ∷ n e3 8 ∷ n e2 8 ∷ n e2 8 ∷ n d3 8 ∷ n e2 8 ∷ n e2 8 ∷ [])
    ∷ (n c3 8 ∷ n e2 8 ∷ n e2 8 ∷ p as2 2 ∷ [])
    ∷ (n e2 8 ∷ n e2 8 ∷ n e3 8 ∷ n e2 8 ∷ n e2 8 ∷ n d3 8 ∷ n e2 8 ∷ n e2 8 ∷ [])
    ∷ (n c3 8 ∷ n e2 8 ∷ n e2 8 ∷ n as2 8 ∷ n e2 8 ∷ n e2 8 ∷ n b2 8 ∷ n c3 8 ∷ [])
    ∷ (n e2 8 ∷ n e2 8 ∷ n e3 8 ∷ n e2 8 ∷ n e2 8 ∷ n d3 8 ∷ n e2 8 ∷ n e2 8 ∷ [])
    ∷ (p b3 16 ∷ p g3 16 ∷ p e3 16 ∷ p b2 16 ∷ p e3 16 ∷ p g3 16 ∷ p c4 16 ∷ p b3 16 ∷ [])
    ∷ (p g3 16 ∷ p b3 16 ∷ p g3 16 ∷ p e3 16 ∷ [])
    ∷ [])
