-- ===== src/Tests/Orphan.antt =====
-- A run of kernel/processus.c: a process exits whose father has exited and is not freed yet.
use kernel_genesis_os.Base.{
  ℕ, ◌≡◌, refl, pos, true, false, some, none, List, [], ◌∷◌, ◌==◌, if◌then◌else◌,
}
use kernel_genesis_os.Queue.{queue_add, queue_out}
use kernel_genesis_os.Kernel.{
  Kernel, elu, mourant, activable, proc_mourants, proc_activables, same_head,
}
use kernel_genesis_os.Kernel.Result.{Result, ok, ◌>>=◌}
use kernel_genesis_os.Kernel.Queues.{add, out}
use kernel_genesis_os.Ordonnanceur.{
  free_mourant_queue, free_mourants, free_mort, free_childs, free_child, ordonnanceur, switch,
  give_up, elect, check_canary,
}
use kernel_genesis_os.Processus.{exit, leave, wake_father, then_return}
use kernel_genesis_os.Tests.{processus, busy}

-- The process 2 runs. Its father 1, which had no father, has exited and waits to be freed.
abbrev orphan : Kernel
orphan = record busy {
  procs = λ p.
      if p == 1
      then processus mourant 5 true (2 ∷ []) none
      else if p == 2
      then processus elu 3 false [] (some 1)
      else processus activable 0 true [] none;
  elu = 2;
  pids = 3 ∷ [];
  queue = λ h.
      if same_head h proc_mourants
      then 1 ∷ []
      else if same_head h proc_activables
      then 0 ∷ []
      else [];
}

pids_of : Result Kernel → List ℕ
pids_of (ok k) = k.pids
pids_of _ = []

-- The free pids after 2 exits and the dead are freed once more.
freed_twice : pids_of (exit (pos 5) orphan >>= λ r. free_mourant_queue r.0) ≡ 2 ∷ 2 ∷ 1 ∷ 3 ∷ []
unfolding pids_of exit leave wake_father then_return ordonnanceur switch give_up elect check_canary
    free_mourant_queue free_mourants free_mort free_childs free_child add out queue_add queue_out
freed_twice = refl
