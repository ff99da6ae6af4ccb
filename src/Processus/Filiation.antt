-- ===== src/Processus/Filiation.antt =====
-- kill and waitpid of kernel/processus.c.
use kernel_genesis_os.Base.{
  ℕ, ℤ, pos, negsuc, leb_ℤ, Bool, true, false, Option, none, some, List, [], ◌∷◌, ltb, ◌==◌, ◌&&◌,
  if◌then◌else◌,
}
use kernel_genesis_os.Kernel.{
  Etat, Kernel, mourant, zombie, attend_fils, proc_mourants, modify, set_etat,
}
use kernel_genesis_os.Kernel.Result.{Result, crash, ◌>>=◌, null_pointer}
use kernel_genesis_os.Kernel.Resume.{Resume, returns, after_waitpid, returns_to}
use kernel_genesis_os.Kernel.Queues.{add, del}
use kernel_genesis_os.Ordonnanceur.{
  by_prio, is_zombie, max_process, free_mourant_queue, ordonnanceur,
}
use kernel_genesis_os.Processus.{error, then_return, proc_at, wake_father}

abbrev pub is_dead : Etat → Bool
is_dead zombie = true
is_dead mourant = true
is_dead _ = false

-- kill of the process that runs, up to its reschedule.
unfoldable pub kill_self : Option ℕ → ℕ → Kernel → Kernel
kill_self (some f) p k = set_etat p zombie k
kill_self none p k = set_etat p mourant k

-- kill of another process, when it was taken off its queue.
unfoldable pub kill_unlinked : Option ℕ → ℕ → Kernel → Result Kernel
kill_unlinked (some f) p k = wake_father f (set_etat p zombie k)
kill_unlinked none p k = add by_prio proc_mourants p (set_etat p mourant k)

-- kill of another process: queue_del asserts that it is in a queue.
unfoldable pub kill_other : ℕ → Kernel → Result Kernel
kill_other p k = do k₁ ← del p k; k₂ ← kill_unlinked (k₁.procs p).pere p k₁; free_mourant_queue k₂

unfoldable pub kill_at : ℕ → Kernel → Result (Kernel × Resume)
kill_at p k =
    if is_dead (k.procs p).etat
    then error k
    else if p == k.elu
    then then_return (returns (pos 0)) (ordonnanceur (kill_self (k.procs p).pere p k))
    else then_return (returns (pos 0)) (kill_other p k)

-- kill
unfoldable pub kill : ℤ → Kernel → Result (Kernel × Resume)
kill pid k =
    if leb_ℤ pid (pos 0)
    then error k
    else elim (proc_at pid k) [ none ↦ error k | some p ↦ kill_at p k ]

-- The first zombie of a list of children.
unfoldable pub first_zombie : List ℕ → Kernel → Option ℕ
first_zombie [] k = none
first_zombie (f ∷ fs) k = if is_zombie (k.procs f).etat then some f else first_zombie fs k

abbrev keep : ℕ → Option (List ℕ) → Option (List ℕ)
keep f none = none
keep f (some fs) = some (f ∷ fs)

-- Taking a child off the list; `none` is the walk past the end of the list.
unfoldable pub remove_fils : ℕ → List ℕ → Option (List ℕ)
remove_fils p [] = none
remove_fils p (f ∷ fs) = if f == p then some fs else keep f (remove_fils p fs)

-- The end of waitpid, for the zombie child `p`.
unfoldable pub collect : ℕ → Bool → Kernel → Result (Kernel × Resume)
collect p wanted k = elim (remove_fils p (k.procs k.elu).fils) [
  | none ↦ crash null_pointer
  | some fs ↦ do
    let k₁ : Kernel = modify k.elu (λ r. record r { fils = fs }) k
    k₂ ← add by_prio proc_mourants p (modify p (λ r. record r { etat = mourant; pere = none }) k₁)
    then_return (returns_to wanted (pos p) (k.procs p).retval) (free_mourant_queue k₂)
]

-- The caller of waitpid goes to sleep until a child ends.
unfoldable pub await : ℤ → Bool → Kernel → Result (Kernel × Resume)
await pid wanted k =
    then_return (after_waitpid pid wanted) (ordonnanceur (set_etat k.elu attend_fils k))

-- The loops of waitpid, from the test on: also what a caller that was elected again does.
unfoldable pub waitpid_loop : ℤ → Bool → Kernel → Result (Kernel × Resume)
waitpid_loop (pos p) wanted k =
    if is_zombie (k.procs p).etat then collect p wanted k else await (pos p) wanted k
waitpid_loop (negsuc n) wanted k = elim (first_zombie (k.procs k.elu).fils k) [
  | none ↦ await (negsuc n) wanted k
  | some p ↦ collect p wanted k
]

abbrev pub is_father : ℕ → Option ℕ → Bool
is_father f none = false
is_father f (some g) = g == f

abbrev pub has_fils : List ℕ → Bool
has_fils [] = false
has_fils (f ∷ fs) = true

-- waitpid; `wanted` says that the pointer for the exit code is not null.
unfoldable pub waitpid : ℤ → Bool → Kernel → Result (Kernel × Resume)
waitpid (pos p) wanted k =
    if ltb p max_process && k.table p && is_father k.elu (k.procs p).pere
    then waitpid_loop (pos p) wanted k
    else error k
waitpid (negsuc n) wanted k =
    if has_fils (k.procs k.elu).fils then waitpid_loop (negsuc n) wanted k else error k
