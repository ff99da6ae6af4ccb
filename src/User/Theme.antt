-- ===== src/User/Theme.antt =====
-- The music of user/theme.c and user/theme_lib.c: what play_melody plays.
pub mod Notes
pub mod Castle
pub mod Consoles
pub mod Zelda
pub mod Adventures
pub mod Layton
pub mod Doom
pub mod Films
pub mod Series
pub mod Songs
pub mod Library
pub mod Menu
pub mod Playable
pub mod Playing
use kernel_genesis_os.Base.{
  ℕ, zero, suc, ◌*◌, ◌/◌, ℤ, pos, negsuc, Option, none, some, List, [], ◌∷◌, ◌==◌, if◌then◌else◌,
  length, ltb,
}
use mathlib.Core.Option

-- Theme. A melody is the list of its pairs of entries, a frequency and a divider.
pub record Theme : Type 0 where
  pub melody : List (ℕ × ℤ)
  pub nb_notes : ℕ
  pub tempo : ℕ

-- A theme of user/theme_lib.c: the number of its notes is half the size of its melody.
abbrev pub theme : List (ℕ × ℤ) → ℕ → Theme
theme melody tempo = record { melody = melody; nb_notes = length melody; tempo = tempo }

-- noteDuration, in milliseconds; a dotted note, of a negative divider, lasts half as long again.
unfoldable pub note_duration : (wholenote : ℕ) → ℤ → ℕ
note_duration wholenote (pos zero) = 0
note_duration wholenote (pos (suc d)) = wholenote / suc d
note_duration wholenote (negsuc d) = wholenote / suc d * 3 / 2

-- The loop of play_melody: the frequency of each sound, and its ticks, for which the caller then waits;
-- `none` is a read behind the melody.
unfoldable pub play_notes : (nb_notes wholenote : ℕ) → List (ℕ × ℤ) → Option (List (ℕ × ℕ))
unfolding note_duration
play_notes zero wholenote melody = some []
play_notes (suc k) wholenote [] = none
play_notes (suc k) wholenote ((frequency, divider) ∷ melody) =
    Option.map (λ sounds. (frequency, note_duration wholenote divider / 10) ∷ sounds)
      (play_notes k wholenote melody)

-- play_melody; `none` is also the division by a tempo of 0.
unfoldable pub play_melody : Theme → Option (List (ℕ × ℕ))
unfolding play_notes
play_melody t = if t.tempo == 0 then none else play_notes t.nb_notes (60000 * 4 / t.tempo) t.melody
