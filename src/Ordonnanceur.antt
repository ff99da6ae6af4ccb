-- ===== src/Ordonnanceur.antt =====
-- The scheduler of kernel/processus.c: free_childs, free_mourant_queue, checkCanary, ordonnanceur.
--
-- A call of `ordonnanceur` ends, here, where `ctx_sw` leaves the calling process: the registers and
-- stacks change hands, and what the caller does next runs when it is elected again.
pub mod Frame
pub mod Reap
pub mod Elect
pub mod Elsewhere
pub mod Total
use kernel_genesis_os.Base.{
  ℕ, zero, suc, ◌+◌, ◌-◌, ◌/◌, pos, ◌-ℤ◌, Bool, true, false, none, some, Option, List, [], ◌∷◌,
  ◌==◌, ◌&&◌, ◌||◌, if◌then◌else◌, update, length,
}
use kernel_genesis_os.Queue.{queue_empty}
use kernel_genesis_os.Kernel.{
  Etat, Processus, Kernel, Head, elu, activable, mourant, zombie, proc_activables, proc_mourants,
  proc_idle, modify, set_etat,
}
use kernel_genesis_os.Kernel.Result.{
  Result, ok, crash, out_of_fuel, ◌>>=◌, ◌>>◌, guard, null_pointer, os_panic,
}
use kernel_genesis_os.Kernel.Queues.{add, out}

-- MAX_PROCESS
abbrev pub max_process : ℕ
max_process = 50

-- (int32_t)0xDEADBEEF, as its bits
abbrev pub canary_value_a : ℕ
canary_value_a = 0xdeadbeef

abbrev pub by_prio : Processus → ℕ
by_prio r = r.prio

abbrev pub is_zombie : Etat → Bool
is_zombie zombie = true
is_zombie _ = false

-- One round of free_childs.
unfoldable pub free_child : ℕ → Kernel → Result Kernel
free_child f k =
    if is_zombie (k.procs f).etat
    then add by_prio proc_mourants f (set_etat f mourant k)
    else ok (modify f (λ r. record r { pere = none }) k)

-- free_childs, over the list of children.
unfoldable pub free_childs : List ℕ → Kernel → Result Kernel
free_childs [] k = ok k
free_childs (f ∷ fs) k = free_child f k >>= free_childs fs

-- One round of free_mourant_queue, for the dead process `p`. The memory goes back to the allocator.
unfoldable pub free_mort : ℕ → Kernel → Result Kernel
free_mort p k = do
  k' ← free_childs (k.procs p).fils k
  ok (record k' { table = update k'.table p false; pids = p ∷ k'.pids })

unfoldable pub free_mourants : ℕ → Kernel → Result Kernel
free_mourants zero k = out_of_fuel
free_mourants (suc fuel) k = elim (out proc_mourants k) [
  | none ↦ ok k
  | some (p, k') ↦ free_mort p k' >>= free_mourants fuel
]

-- free_mourant_queue: a round for each dead process, and one for each zombie child.
unfoldable pub free_mourant_queue : Kernel → Result Kernel
free_mourant_queue k = free_mourants (suc (length (k.queue proc_mourants) + max_process)) k

-- checkCanary: the first and the last word of the user stack.
unfoldable pub check_canary : Processus → Bool
check_canary r =
    (r.pile_user 0 == canary_value_a) && (r.pile_user (r.pile_size_user / 4 - 1) == canary_value_a)

-- The `switch` of ordonnanceur on the state of the process that gives the processor up.
unfoldable pub give_up : Etat → ℕ → Kernel → Result Kernel
give_up mourant p k = add by_prio proc_mourants p k
give_up elu p k = add by_prio proc_activables p (set_etat p activable k)
give_up activable p k = add by_prio proc_activables p (set_etat p activable k)
give_up _ p k = ok k

-- The first process of `proc_activables` takes the processor.
unfoldable pub elect : Kernel → Result Kernel
elect k = elim (out proc_activables k) [
  | none ↦ crash null_pointer
  | some (p, k') ↦ ok (record (set_etat p elu k') {
    elu = p;
    esp0 = (p, pos ((k'.procs p).pile_size_kernel / 4) -ℤ pos 1);
  })
]

unfoldable pub switch : Kernel → Result Kernel
switch k = do
  guard (k.elu == proc_idle || check_canary (k.procs k.elu)) os_panic
  k' ← give_up (k.procs k.elu).etat k.elu k
  elect k'

unfoldable pub ordonnanceur : Kernel → Result Kernel
ordonnanceur k = do
  k' ← free_mourant_queue k
  if queue_empty (k'.queue proc_activables) then ok k' else switch k'
