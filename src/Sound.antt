-- ===== src/Sound.antt =====
-- The loudspeaker of kernel/sound.c: play_sound, nosound and beep, and its end in tic_PIT.
--
-- The state is the global `duration`, the two bytes of the divisor that channel 2 of the timer was last
-- given, and the byte of port 0x61, whose two lowest bits switch the loudspeaker on.
use kernel_genesis_os.Base.{
  false, ℕ, ◌+◌, ◌*◌, ◌/◌, ◌%◌, ◌≤◌, ◌<◌, ◌≡◌, arith, ◌==◌, ◌&&◌, not, if◌then◌else◌,
}
use kernel_genesis_os.Horloge.{word32}

pub record Sound : Type 0 where
  pub duration : ℕ
  pub low : ℕ
  pub high : ℕ
  pub port_61 : ℕ

-- nosound: `inb(0x61) & 0xFC`
unfoldable pub nosound : Sound → Sound
nosound s = record s { port_61 = s.port_61 / 4 * 4 }

-- The part of play_sound behind its test for REST.
unfoldable pub sound_on : ℕ → Sound → Sound
sound_on frequency s =
    let divisor = 1193180 / frequency in
    let on = s.port_61 / 4 * 4 + 3 in
    record s {
      low = divisor % 256;
      high = divisor / 256 % 256;
      port_61 = if not (s.port_61 == on) then on else s.port_61;
    }

-- play_sound, with the clock as it is
unfoldable pub play_sound : (frequency t clock : ℕ) → Sound → Sound
unfolding nosound sound_on
play_sound frequency t clock s =
    let s' : Sound = record s { duration = word32 (clock + t) } in
    if frequency == 0 then nosound s' else sound_on frequency s'

-- beep
unfoldable pub beep : ℕ → Sound → Sound
unfolding play_sound
beep clock s = play_sound 500 5 clock s

-- The end of a sound in tic_PIT.
unfoldable pub end_sound : ℕ → Sound → Sound
unfolding nosound
end_sound ticks s = if not (s.duration == 0) && s.duration == ticks then nosound s else s

-- Whether the loudspeaker sounds: both of its bits are set.
abbrev pub sounds : Sound → ℕ
sounds s = s.port_61 % 4

-- The divisor that the timer has.
abbrev pub divisor : Sound → ℕ
divisor s = s.low + 256 * s.high

quotient-le : (f : ℕ) → 19 ≤ f → 1193180 / f ≤ 62798
quotient-le f h = grind arith

nonzero : (f : ℕ) → 19 ≤ f → (f == 0) ≡ false
nonzero f h = ground arith

-- A note of at least 19 hertz gives the timer its whole divisor and switches the loudspeaker on.
pub play_sound-exact :
    (frequency t clock : ℕ) (s : Sound)
    → 19 ≤ frequency
    → (divisor (play_sound frequency t clock s) ≡ 1193180 / frequency)
      × (sounds (play_sound frequency t clock s) ≡ 3)
unfolding play_sound
play_sound-exact frequency t clock s h =
    let q = quotient-le frequency h in rw (nonzero frequency h) (omega (arith, q), ground arith)

-- A note of at least 19 hertz ends at the tick that `duration` names, which is not 0: the loudspeaker is off and
-- the other bits of its port are those before the note.
pub end_sound-silent :
    (frequency t clock : ℕ) (s : Sound)
    → 19 ≤ frequency
    → 0 < word32 (clock + t)
    → (sounds (end_sound (word32 (clock + t)) (play_sound frequency t clock s)) ≡ 0)
      × ((end_sound (word32 (clock + t)) (play_sound frequency t clock s)).port_61
          ≡ (nosound s).port_61)
unfolding play_sound end_sound
end_sound-silent frequency t clock s h d = rw (nonzero frequency h) (ground arith, ground arith)
