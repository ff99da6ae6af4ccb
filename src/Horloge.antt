-- ===== src/Horloge.antt =====
-- The clock of kernel/horloge.c: tic_PIT, current_clock and clock_settings.
--
-- verifie_reveille, in the middle of tic_PIT, can leave the interrupted process: the rest, `tic_pit_end`,
-- runs when that process is elected again, and reads the counters as they are then. The time written to the
-- screen and the end of a sound are left aside.
use kernel_genesis_os.Base.{ℕ, ◌+◌, ◌*◌, ◌/◌, ◌%◌, ◌<◌, ◌≡◌, ◌==◌, if◌then◌else◌, arith}
use kernel_genesis_os.Kernel.{Kernel}
use kernel_genesis_os.Kernel.Result.{Result}
use kernel_genesis_os.Processus.{verifie_reveille, reschedule_if}

-- CLOCKFREQ, SCHEDFREQ, QUARTZ
abbrev pub clockfreq : ℕ
clockfreq = 100

abbrev pub schedfreq : ℕ
schedfreq = 50

abbrev pub quartz : ℕ
quartz = 0x1234dd

-- The counters: `cpt_ticks` of 16 bits, the others of 32.
pub record Horloge : Type 0 where
  pub ticks : ℕ
  pub cpt_ticks : ℕ
  pub secondes : ℕ
  pub minutes : ℕ
  pub heures : ℕ

abbrev pub word32 : ℕ → ℕ
word32 n = n % 4294967296

-- The end of a minute, and of an hour.
unfoldable pub carry_minute : Horloge → Horloge
carry_minute c =
    if c.secondes == 60 then record c { secondes = 0; minutes = word32 (c.minutes + 1) } else c

unfoldable pub carry_hour : Horloge → Horloge
carry_hour c =
    if c.minutes == 60 then record c { minutes = 0; heures = word32 (c.heures + 1) } else c

-- The counters of tic_PIT.
unfoldable pub count_tick : Horloge → Horloge
unfolding carry_minute carry_hour
count_tick c =
    let c₁ : Horloge = record c {
      ticks = word32 (c.ticks + 1);
      cpt_ticks = (c.cpt_ticks + 1) % 65536;
    } in
    if c₁.cpt_ticks == clockfreq
    then carry_hour
        (carry_minute (record c₁ { cpt_ticks = 0; secondes = word32 (c₁.secondes + 1) }))
    else c₁

-- tic_PIT, up to the calls of the scheduler in verifie_reveille.
unfoldable pub tic_pit : Horloge → Kernel → Horloge × Result Kernel
tic_pit c k = let c' = count_tick c in (c', verifie_reveille c'.ticks k)

-- The end of tic_PIT.
unfoldable pub tic_pit_end : Horloge → Kernel → Result Kernel
tic_pit_end c k = reschedule_if (c.cpt_ticks % (clockfreq / schedfreq) == 0) k

-- current_clock
unfoldable pub current_clock : Horloge → ℕ
current_clock c = c.ticks

-- clock_settings: what it puts in its two arguments.
unfoldable pub clock_settings : ℕ × ℕ
clock_settings = (quartz, quartz / clockfreq)

-- The counters are a time of the day.
pub record IsTime (c : Horloge) : Type 0 where
  pub cpt_ticks : c.cpt_ticks < 100
  pub secondes : c.secondes < 60
  pub minutes : c.minutes < 60

-- The hundredths of a second that the counters show.
unfoldable pub elapsed : Horloge → ℕ
elapsed c = c.cpt_ticks + 100 * (c.secondes + 60 * (c.minutes + 60 * c.heures))

-- A tick adds one hundredth of a second to the time that the counters show, and keeps the
-- hundredths below 100 and the seconds and minutes below 60, provided that they are so before and
-- that the hours are not at the largest number of 32 bits.
pub count_tick-IsTime :
    (c : Horloge)
    → IsTime c
    → c.heures < 4294967295
    → IsTime (count_tick c) × (elapsed (count_tick c) ≡ elapsed c + 1)
unfolding count_tick carry_minute carry_hour elapsed
count_tick-IsTime c t h = (
  record {
    cpt_ticks = ground (arith, t.cpt_ticks);
    secondes = ground (arith, t.secondes);
    minutes = ground (arith, t.minutes);
  },
  ground (arith, t.cpt_ticks, t.secondes, t.minutes),
)
