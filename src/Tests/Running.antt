-- ===== src/Tests/Running.antt =====
-- The kernel from its start on.
use kernel_genesis_os.Base.{ℕ, ◌≡◌, ◌≢◌, refl, pos, true, false, [], arith}
use kernel_genesis_os.Kernel.{Kernel, value}
use kernel_genesis_os.Kernel.Result.{Result, ok}
use kernel_genesis_os.Kernel.Resume.{Resume, returns}
use kernel_genesis_os.Processus.{waits_for_child, new_pid, reschedule_if, then_return}
use kernel_genesis_os.Processus.Start.{Memory, new_processus, install, adopt, start, refuses}
use kernel_genesis_os.Processus.Filiation.{kill}
use kernel_genesis_os.Processus.Boot.{init_ordonnanceur, init_idle, some_memory, zeroed}
use kernel_genesis_os.Queue.{queue_add, queue_out}
use kernel_genesis_os.Kernel.Queues.{add, out}
use kernel_genesis_os.Ordonnanceur.{
  ordonnanceur, free_mourant_queue, free_mourants, switch, give_up, elect,
}
use kernel_genesis_os.Horloge.{Horloge, tic_pit, tic_pit_end}
use kernel_genesis_os.Syscall.{Registers, Devices, wait_clock_, traitant_it_49_switch, unsigned}
use kernel_genesis_os.Coherence.{count}
use kernel_genesis_os.Coherence.Scheduler.{IsGood}
use kernel_genesis_os.Coherence.Caller.{HasLivingFather, StaysGood}
use kernel_genesis_os.Coherence.Kill.{IsMortal, kill-IsGood}
use kernel_genesis_os.Coherence.Alarm.{verifie_reveille-wakes}
use kernel_genesis_os.Processus.Sleepers.{sec_of}
use kernel_genesis_os.Processus.{wait_clock, verifie_reveille}
use kernel_genesis_os.Processus.Start.{user_stack}
use kernel_genesis_os.Ordonnanceur.{check_canary}
use kernel_genesis_os.Queue.Order.{IsSorted}
use kernel_genesis_os.Kernel.{endormi, proc_endormis}
use kernel_genesis_os.Kernel.Ends.{Ends-Holds}
use kernel_genesis_os.Base.{◌<◌}
use kernel_genesis_os.Coherence.Clock.{wait_clock-IsGood}
use kernel_genesis_os.Tests.Screen.{console}
use kernel_genesis_os.Coherence.Reach.{Reach, starts, later, call, Reach-IsGood, Reach-tick}

abbrev pub memory : Memory
memory = some_memory (λ i. 0) (λ i. value 0)

abbrev pub kernel_of : Result (Kernel × Resume) → Kernel
kernel_of (ok (k, r)) = k
kernel_of _ = zeroed

-- The kernel that init_ordonnanceur leaves: USER runs, and the idle process waits.
abbrev pub first : Kernel
first = kernel_of (init_ordonnanceur memory zeroed)

pub first-Reach : Reach memory first
unfolding init_ordonnanceur init_idle start new_pid reschedule_if then_return install adopt
    new_processus add out ordonnanceur free_mourant_queue free_mourants switch give_up elect
    queue_out queue_add refuses
first-Reach = starts {next = returns (pos 1)} refl

pub first-elu : first.elu ≢ 0
unfolding init_ordonnanceur init_idle start new_pid reschedule_if then_return install adopt
    new_processus add out ordonnanceur free_mourant_queue free_mourants switch give_up elect
    queue_out queue_add refuses
first-elu e = ground arith

first-HasLivingFather : HasLivingFather first first.elu
unfolding init_ordonnanceur init_idle start new_pid reschedule_if then_return install adopt
    new_processus add out ordonnanceur free_mourant_queue free_mourants switch give_up elect
    queue_out queue_add refuses count
first-HasLivingFather q t n = ground arith

-- Drivers that do nothing.
abbrev devices : Devices
devices = record {
  ticks = 0;
  text_at = λ a. [];
  memory = memory;
  sem_memory = true;
  layout = record { chainage = λ p. pos 4096; activables = pos 4096; low_word = pos 0 };
  clavier = record {
    tampon = λ i. pos 0;
    ptampon = 0;
    read = false;
    history = λ i. [];
    index_history = 0;
    current_idex_history = 0;
    console = console;
    kernel = first;
  };
  behind = [];
  drive = λ b r k. returns (pos 0);
}

abbrev registers : Registers
registers = record { ebx = pos 10; ecx = pos 0; edx = pos 0; esi = pos 0; edi = pos 0 }

-- USER asks to sleep until tick 10.
abbrev asleep : Kernel
asleep = (wait_clock-IsGood 10 first (Reach-IsGood first-Reach) first-elu).0.0

asleep-Reach : Reach memory asleep
unfolding traitant_it_49_switch unsigned
asleep-Reach = later first-Reach (
    call devices wait_clock_ registers first-elu (λ e. cc)
      (wait_clock-IsGood 10 first (Reach-IsGood first-Reach) first-elu).1)

abbrev nine : Horloge
nine = record { ticks = 9; cpt_ticks = 9; secondes = 0; minutes = 0; heures = 0 }

Reach-tick_example :
    ((l : Kernel) × ((tic_pit nine asleep).1 ≡ ok l) × Reach memory l)
    × ((l : Kernel) × (tic_pit_end nine asleep ≡ ok l) × Reach memory l)
Reach-tick_example = Reach-tick nine asleep-Reach

first-queued : (p : ℕ) → pos 1 ≡ pos p → waits_for_child (first.procs p).etat ≡ false
unfolding init_ordonnanceur init_idle start new_pid reschedule_if then_return install adopt
    new_processus add out ordonnanceur free_mourant_queue free_mourants switch give_up elect
    queue_out queue_add refuses
first-queued p e = ground arith

first-IsMortal : (p : ℕ) → pos 1 ≡ pos p → IsMortal first p
first-IsMortal p e = record { queued = first-queued p e; orphan = λ i. first-HasLivingFather }

kill-IsGood_example : StaysGood (kill (pos 1) first)
kill-IsGood_example = kill-IsGood (pos 1) first (Reach-IsGood first-Reach) first-elu first-IsMortal

-- The same kernel, computed.
abbrev sleeping : Kernel
sleeping = kernel_of (wait_clock 10 first)

sleeping-IsGood : IsGood sleeping
unfolding init_ordonnanceur init_idle start new_pid reschedule_if then_return install adopt
    new_processus add out ordonnanceur free_mourant_queue free_mourants switch give_up elect
    queue_out queue_add refuses wait_clock check_canary user_stack
sleeping-IsGood =
    Ends-Holds (λ x. IsGood x.0) (wait_clock 10 first)
      (wait_clock-IsGood 10 first (Reach-IsGood first-Reach) first-elu) (sleeping, returns (pos 0))
      refl

sleeping-IsSorted : IsSorted (sec_of sleeping) (sleeping.queue proc_endormis)
unfolding init_ordonnanceur init_idle start new_pid reschedule_if then_return install adopt
    new_processus add out ordonnanceur free_mourant_queue free_mourants switch give_up elect
    queue_out queue_add refuses wait_clock check_canary user_stack
sleeping-IsSorted = (tt, tt)

-- The tick at which USER wakes up.
verifie_reveille-wakes_example :
    (l : Kernel) × (verifie_reveille 10 sleeping ≡ ok l)
    × IsGood l
    × ((p : ℕ) → l.table p ≡ true → (l.procs p).etat ≡ endormi → 10 < (l.procs p).sec_reveille)
verifie_reveille-wakes_example =
    verifie_reveille-wakes 10 sleeping sleeping-IsGood sleeping-IsSorted
