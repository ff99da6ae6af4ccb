-- ===== src/Tests/Ending.antt =====
-- A child that ends while its father waits for it, and a father that is killed.
use kernel_genesis_os.Base.{ℕ, ◌≡◌, ◌≢◌, refl, pos, negsuc, true, false, some, none, arith}
use kernel_genesis_os.Queue.{queue_add, queue_out}
use kernel_genesis_os.Kernel.{Kernel, attend_fils}
use kernel_genesis_os.Kernel.Result.{ok, crash, failed_assertion}
use kernel_genesis_os.Kernel.Ends.{Ends-Holds}
use kernel_genesis_os.Kernel.Resume.{returns, never, after_waitpid}
use kernel_genesis_os.Kernel.Queues.{add, out}
use kernel_genesis_os.Ordonnanceur.{
  ordonnanceur, free_mourant_queue, free_mourants, switch, give_up, elect, check_canary,
}
use kernel_genesis_os.Processus.{new_pid, reschedule_if, then_return, exit, waits_for_child}
use kernel_genesis_os.Processus.Start.{
  Launch, new_processus, install, adopt, start, refuses, user_stack,
}
use kernel_genesis_os.Processus.Boot.{init_ordonnanceur, init_idle}
use kernel_genesis_os.Processus.Filiation.{kill, waitpid_loop, first_zombie, await}
use kernel_genesis_os.Processus.Blocked.{kill_unqueued}
use kernel_genesis_os.Coherence.{count}
use kernel_genesis_os.Coherence.Scheduler.{IsGood}
use kernel_genesis_os.Coherence.Caller.{HasLivingFather}
use kernel_genesis_os.Coherence.Start.{start-IsGood}
use kernel_genesis_os.Coherence.Waitpid.{waitpid_loop-KeepsGood}
use kernel_genesis_os.Coherence.Leaving.{is_runnable, exit-elects}
use kernel_genesis_os.Coherence.Reach.{Reach-IsGood}
use kernel_genesis_os.Tests.Running.{memory, first, first-Reach, kernel_of}

abbrev child : Launch
child = record { pt_func = 16777216; ssize = 512; prio = pos 1; name = none; arg = 0 }

-- USER starts a child, and waits for it.
abbrev father : Kernel
father = kernel_of (start child memory first)

abbrev waiting : Kernel
waiting = kernel_of (waitpid_loop (negsuc 0) true father)

father-IsGood : IsGood father
unfolding init_ordonnanceur init_idle start new_pid reschedule_if then_return install adopt
    new_processus add out ordonnanceur free_mourant_queue free_mourants switch give_up elect
    queue_out queue_add refuses check_canary user_stack
father-IsGood =
    Ends-Holds (λ x. IsGood x.0) _ (start-IsGood child memory first (Reach-IsGood first-Reach))
      (father, returns (pos 2)) refl

waiting-IsGood : IsGood waiting
unfolding init_ordonnanceur init_idle start new_pid reschedule_if then_return install adopt
    new_processus add out ordonnanceur free_mourant_queue free_mourants switch give_up elect
    queue_out queue_add refuses check_canary user_stack waitpid_loop first_zombie await
waiting-IsGood =
    waitpid_loop-KeepsGood (negsuc 0) true father father-IsGood (λ e. ground arith)
      (waiting, after_waitpid (negsuc 0) true) refl

waiting-father :
    (waiting.elu ≡ 2) × (waiting.table 1 ≡ true) × ((waiting.procs 1).etat ≡ attend_fils)
unfolding init_ordonnanceur init_idle start new_pid reschedule_if then_return install adopt
    new_processus add out ordonnanceur free_mourant_queue free_mourants switch give_up elect
    queue_out queue_add refuses check_canary user_stack waitpid_loop first_zombie await
waiting-father = (refl, refl, refl)

waiting-HasLivingFather : HasLivingFather waiting waiting.elu
unfolding init_ordonnanceur init_idle start new_pid reschedule_if then_return install adopt
    new_processus add out ordonnanceur free_mourant_queue free_mourants switch give_up elect
    queue_out queue_add refuses check_canary user_stack waitpid_loop first_zombie await count
waiting-HasLivingFather q t n = ground arith

kill_unqueued_example : kill (pos 1) waiting ≡ crash failed_assertion
kill_unqueued_example =
    kill_unqueued 1 waiting waiting-IsGood waiting-father.1 (omega arith) waiting-father.2

exit-elects_example :
    (l : Kernel) × (exit (pos 5) waiting ≡ ok (l, never))
    × IsGood l
    × (l.elu ≢ waiting.elu)
    × (is_runnable (l.procs waiting.elu).etat ≡ false)
    × ((f : ℕ)
        → (waiting.procs waiting.elu).pere ≡ some f
        → waits_for_child (waiting.procs f).etat ≡ true
        → is_runnable (l.procs f).etat ≡ true)
exit-elects_example =
    exit-elects (pos 5) waiting waiting-IsGood (λ e. ground (arith, waiting-father.0))
      waiting-HasLivingFather
