-- ===== src/Tests/Waiting.antt =====
-- A process that waits at a semaphore, and what wakes it.
use kernel_genesis_os.Base.{
  ℕ, ◌<◌, ◌≡◌, ◌≢◌, refl, pos, negsuc, ◌+ℤ◌, ◌-ℤ◌, true, some, none, List, [], ◌∷◌, ◌++◌, arith,
}
use kernel_genesis_os.Queue.{queue_add, queue_out}
use kernel_genesis_os.Kernel.{Kernel, attend_semaphore, proc_activables, attente_sem}
use kernel_genesis_os.Kernel.Result.{ok}
use kernel_genesis_os.Kernel.Ends.{Ends-Holds}
use kernel_genesis_os.Kernel.Resume.{returns, after_wait}
use kernel_genesis_os.Kernel.Queues.{add, out}
use kernel_genesis_os.Ordonnanceur.{
  ordonnanceur, free_mourant_queue, free_mourants, switch, give_up, elect, check_canary,
}
use kernel_genesis_os.Processus.{new_pid, reschedule_if, then_return}
use kernel_genesis_os.Processus.Start.{new_processus, install, adopt, start, refuses, user_stack}
use kernel_genesis_os.Processus.Boot.{init_ordonnanceur, init_idle}
use kernel_genesis_os.Semaphore.{
  init_semaphores, add_sid, new_sid, screate, to_short, sem_at, sleep, wait, wait_at, signal,
  sdelete,
}
use kernel_genesis_os.Semaphore.Count.{IsCounted}
use kernel_genesis_os.Semaphore.Sleep.{wait-IsCounted}
use kernel_genesis_os.Coherence.{count}
use kernel_genesis_os.Coherence.Scheduler.{IsGood}
use kernel_genesis_os.Coherence.Semaphores.{screate-IsGood}
use kernel_genesis_os.Coherence.Waiting.{wait-sleeps, signal-wakes, sdelete-wakes}
use kernel_genesis_os.Coherence.Reach.{Reach-IsGood}
use kernel_genesis_os.Tests.Running.{first, first-Reach, kernel_of}

-- USER makes a semaphore with the count 0, and waits at it.
abbrev with_sem : Kernel
with_sem = kernel_of (screate true (pos 0) first)

abbrev waits : Kernel
waits = kernel_of (wait (pos 9) with_sem)

with_sem-IsGood : IsGood with_sem
unfolding init_ordonnanceur init_idle start new_pid reschedule_if then_return install adopt
    new_processus add out ordonnanceur free_mourant_queue free_mourants switch give_up elect
    queue_out queue_add refuses check_canary user_stack init_semaphores add_sid new_sid screate
    to_short
with_sem-IsGood =
    screate-IsGood true (pos 0) first (Reach-IsGood first-Reach) (with_sem, returns (pos 9)) refl

with_sem-IsCounted : IsCounted with_sem
unfolding init_ordonnanceur init_idle start new_pid reschedule_if then_return install adopt
    new_processus add out ordonnanceur free_mourant_queue free_mourants switch give_up elect
    queue_out queue_add refuses check_canary user_stack init_semaphores add_sid new_sid screate
    to_short
with_sem-IsCounted s c e = record {
  low = ground (arith, e);
  high = ground (arith, e);
  length = ground (arith, e);
}

with_sem-elu : (with_sem.elu ≢ 0) × (sem_at (pos 9) with_sem ≡ some (9, pos 0))
unfolding init_ordonnanceur init_idle start new_pid reschedule_if then_return install adopt
    new_processus add out ordonnanceur free_mourant_queue free_mourants switch give_up elect
    queue_out queue_add refuses check_canary user_stack init_semaphores add_sid new_sid screate
    to_short sem_at
with_sem-elu = (λ e. ground arith, refl)

with_sem-queue : with_sem.queue (attente_sem 9) ≡ []
unfolding init_ordonnanceur init_idle start new_pid reschedule_if then_return install adopt
    new_processus add out ordonnanceur free_mourant_queue free_mourants switch give_up elect
    queue_out queue_add refuses check_canary user_stack init_semaphores add_sid new_sid screate
    to_short sem_at
with_sem-queue = refl

wait-sleeps_example :
    (l : Kernel) × (wait (pos 9) with_sem ≡ ok (l, after_wait))
    × IsGood l
    × IsCounted l
    × (l.elu ≢ with_sem.elu)
    × ((l.procs with_sem.elu).etat ≡ attend_semaphore)
    × (l.sems 9 ≡ some (pos 0 -ℤ pos 1))
    × (l.queue (attente_sem 9) ≡ with_sem.elu ∷ with_sem.queue (attente_sem 9))
unfolding init_ordonnanceur init_idle start new_pid reschedule_if then_return install adopt
    new_processus add out ordonnanceur free_mourant_queue free_mourants switch give_up elect
    queue_out queue_add refuses check_canary user_stack init_semaphores add_sid new_sid screate
    to_short
wait-sleeps_example =
    wait-sleeps (pos 9) 9 (pos 0) with_sem with_sem-IsGood with_sem-IsCounted with_sem-elu.0
      with_sem-elu.1 (omega arith) (omega arith) tt

waits-IsGood : IsGood waits
unfolding init_ordonnanceur init_idle start new_pid reschedule_if then_return install adopt
    new_processus add out ordonnanceur free_mourant_queue free_mourants switch give_up elect
    queue_out queue_add refuses check_canary user_stack init_semaphores add_sid new_sid screate
    to_short sem_at wait wait_at sleep ◌+ℤ◌ ◌-ℤ◌
waits-IsGood =
    Ends-Holds (λ x. IsGood x.0) (wait (pos 9) with_sem)
      (let r = wait-sleeps_example in ((r.0, after_wait), r.1, r.2)) (waits, after_wait) refl

waits-IsCounted : IsCounted waits
unfolding init_ordonnanceur init_idle start new_pid reschedule_if then_return install adopt
    new_processus add out ordonnanceur free_mourant_queue free_mourants switch give_up elect
    queue_out queue_add refuses check_canary user_stack init_semaphores add_sid new_sid screate
    to_short sem_at wait wait_at sleep ◌+ℤ◌ ◌-ℤ◌
waits-IsCounted = wait-IsCounted (pos 9) with_sem waits after_wait with_sem-IsCounted refl

waits-sem : sem_at (pos 9) waits ≡ some (9, negsuc 0)
unfolding init_ordonnanceur init_idle start new_pid reschedule_if then_return install adopt
    new_processus add out ordonnanceur free_mourant_queue free_mourants switch give_up elect
    queue_out queue_add refuses check_canary user_stack init_semaphores add_sid new_sid screate
    to_short sem_at wait wait_at sleep ◌+ℤ◌ ◌-ℤ◌
waits-sem = refl

signal-wakes_example :
    (l : Kernel) × (p : ℕ) × (rest : List ℕ) × (signal (pos 9) waits ≡ ok (l, returns (pos 0)))
    × (waits.queue (attente_sem 9) ≡ rest ++ p ∷ [])
    × (l.queue (attente_sem 9) ≡ rest)
    × (l.sems 9 ≡ some (negsuc 0 +ℤ pos 1))
    × ((l.procs p).operation_status ≡ pos 1)
    × (0 < count p (l.queue proc_activables))
    × (l.elu ≡ waits.elu)
    × IsGood l
    × IsCounted l
signal-wakes_example =
    signal-wakes (pos 9) 9 (negsuc 0) waits waits-IsGood waits-IsCounted waits-sem (omega arith)

sdelete-wakes_example :
    (l : Kernel) × (sdelete (pos 9) waits ≡ ok (l, returns (pos 0)))
    × (l.sems 9 ≡ none)
    × (l.queue (attente_sem 9) ≡ [])
    × ((p : ℕ)
        → 0 < count p (waits.queue (attente_sem 9))
        → ((l.procs p).operation_status ≡ negsuc 2) × (0 < count p (l.queue proc_activables)))
    × (l.elu ≡ waits.elu)
    × IsGood l
    × IsCounted l
sdelete-wakes_example =
    sdelete-wakes (pos 9) 9 (negsuc 0) waits waits-IsGood waits-IsCounted waits-sem
