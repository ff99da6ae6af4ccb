-- ===== src/Processus/Boot.antt =====
-- init_ordonnanceur of kernel/processus.c, without the programming of the clock and the interrupts.
--
-- The memory that the allocator gives and the kernel's data are zeroed when the kernel starts.
use kernel_genesis_os.Base.{
  ℕ, zero, suc, ◌-◌, ◌≡◌, refl, pos, true, false, none, some, List, [], ◌∷◌, arith, update,
}
use kernel_genesis_os.Queue.{queue_add, queue_out}
use kernel_genesis_os.Kernel.{
  Processus, Kernel, elu, value, Word, proc_activables, proc_endormis, proc_mourants,
  proc_bloque_es, proc_idle, set_queue,
}
use kernel_genesis_os.Kernel.Result.{Result, ok}
use kernel_genesis_os.Kernel.Resume.{Resume, returns}
use kernel_genesis_os.Kernel.Queues.{add, out}
use kernel_genesis_os.Ordonnanceur.{
  ordonnanceur, free_mourant_queue, free_mourants, switch, give_up, elect, max_process,
}
use kernel_genesis_os.Ordonnanceur.Reap.{IsReapable}
use kernel_genesis_os.Ordonnanceur.Elect.{IsOrdered, RunsHighest}
use kernel_genesis_os.Processus.{new_pid, then_return, reschedule_if}
use kernel_genesis_os.Processus.Start.{
  Launch, Memory, start, refuses, install, adopt, new_processus,
}
use kernel_genesis_os.Semaphore.{init_semaphores}
use kernel_genesis_os.Semaphore.Count.{IsCounted}
use kernel_genesis_os.Files.{init_files}

-- init_listes
unfoldable pub init_listes : Kernel → Kernel
init_listes k =
    set_queue proc_bloque_es []
      (set_queue proc_mourants [] (set_queue proc_endormis [] (set_queue proc_activables [] k)))

-- The pids from `i`, in the order in which they will be taken.
unfoldable pub pids_from : ℕ → ℕ → List ℕ
pids_from zero i = []
pids_from (suc n) i = i ∷ pids_from n (suc i)

-- The structure of the idle process, PRIO_IDLE its priority.
abbrev pub idle_processus : Processus
idle_processus = record {
  nom = 73 ∷ 68 ∷ 76 ∷ 69 ∷ [];
  etat = elu;
  prio = 0;
  sec_reveille = 0;
  pile_user = λ i. 0;
  pile_size_user = 0;
  pile_kernel = λ i. value 0;
  pile_size_kernel = 0;
  contexte_esp = 0;
  fils = [];
  retval = pos 0;
  pere = none;
  fid = pos 0;
  file_value = pos 0;
  operation_status = pos 0;
  place = 0;
  linked = false;
}

-- What init_ordonnanceur does before it starts the first process.
unfoldable pub init_idle : Kernel → Kernel
unfolding init_listes pids_from init_semaphores init_files
init_idle k =
    let k₁ = init_semaphores (init_listes (record k { pids = pids_from (max_process - 1) 1 })) in
    init_files (record k₁ {
      procs = update k₁.procs proc_idle idle_processus;
      table = update k₁.table proc_idle true;
      elu = proc_idle;
    })

-- The process USER, at USER_START.
abbrev pub user : Launch
user = record {
  pt_func = 0x1000000;
  ssize = 0;
  prio = pos 1;
  name = some (85 ∷ 83 ∷ 69 ∷ 82 ∷ []);
  arg = 0;
}

-- init_ordonnanceur
unfoldable pub init_ordonnanceur : Memory → Kernel → Result (Kernel × Resume)
init_ordonnanceur m k = start user m (init_idle k)

-- The kernel's data when it starts: all zero.
abbrev pub zeroed : Kernel
zeroed = record {
  procs = λ p. record idle_processus { nom = [] };
  table = λ p. false;
  pids = [];
  elu = 0;
  queue = λ h. [];
  sems = λ s. none;
  sids = [];
  files = λ f. none;
  fids = [];
  esp0 = (0, pos 0);
}

-- The kernel that init_ordonnanceur leaves is well formed and runs the first process.
pub record IsStarted (k : Kernel) : Type 0 where
  pub runs : k.elu ≡ 1
  pub waits : k.queue proc_activables ≡ 0 ∷ []
  pub table : (k.table 0 ≡ true) × (k.table 1 ≡ true)
  pub free_pids : k.pids ≡ pids_from 48 2
  pub free_sids : k.sids ≡ 0 ∷ 1 ∷ 2 ∷ 3 ∷ 4 ∷ 5 ∷ 6 ∷ 7 ∷ 8 ∷ 9 ∷ []
  pub free_fids : k.fids ≡ 0 ∷ 1 ∷ 2 ∷ 3 ∷ 4 ∷ 5 ∷ 6 ∷ 7 ∷ 8 ∷ 9 ∷ []
  pub reapable : IsReapable k
  pub ordered : IsOrdered k
  pub highest : RunsHighest k
  pub counted : IsCounted k

-- An allocator that has memory, which holds anything.
abbrev pub some_memory : (ℕ → ℕ) → (ℕ → Word) → Memory
some_memory u w = record {
  proc = true;
  user = true;
  kernel = true;
  user_words = u;
  kernel_words = w;
}

state_of : Result (Kernel × Resume) → Kernel
state_of (ok (k, r)) = k
state_of _ = zeroed

abbrev started : (ℕ → ℕ) → (ℕ → Word) → Kernel
started u w = state_of (init_ordonnanceur (some_memory u w) zeroed)

started-IsStarted : (u : ℕ → ℕ) (w : ℕ → Word) → IsStarted (started u w)
unfolding state_of init_ordonnanceur init_idle start new_pid reschedule_if then_return install adopt
    new_processus add out ordonnanceur free_mourant_queue free_mourants switch give_up elect
    queue_out queue_add refuses
started-IsStarted u w = record {
  runs = refl;
  waits = refl;
  table = (refl, refl);
  free_pids = refl;
  free_sids = refl;
  free_fids = refl;
  reapable = record { fils = λ p. ground arith; unlinked = λ p t. ground arith };
  ordered = (tt, tt);
  highest = (omega arith, tt);
  counted = λ s c e. ground arith;
}

-- init_ordonnanceur, from zeroed data and with an allocator that has memory whatever that memory
-- holds, ends without a fault, gives USER the pid 1 and the processor, and leaves the idle process
-- alone in the queue of runnable processes, the pids from 2 to 49 and all semaphores and message
-- queues free, no zombie in a queue, the queue of runnable processes in order, and the counts of
-- the semaphores in step.
pub init_ordonnanceur_ok :
    (u : ℕ → ℕ) (w : ℕ → Word)
    → (k : Kernel) × (init_ordonnanceur (some_memory u w) zeroed ≡ ok (k, returns (pos 1)))
      × IsStarted k
unfolding state_of init_ordonnanceur init_idle start new_pid reschedule_if then_return install adopt
    new_processus add out ordonnanceur free_mourant_queue free_mourants switch give_up elect
    queue_out queue_add refuses
init_ordonnanceur_ok u w = (started u w, refl, started-IsStarted u w)
