-- ===== src/Processus.antt =====
-- kernel/processus.c without the scheduler: pids, start, priorities, sleep, end and filiation.
pub mod Boot
pub mod Filiation
pub mod Priority
pub mod Start
pub mod Blocked
pub mod Sleepers
pub mod Family
use kernel_genesis_os.Base.{
  ℕ, zero, suc, ◌%◌, ℤ, pos, negsuc, leb_ℤ, ltb_ℤ, Bool, true, false, Option, none, some, List, [],
  ◌∷◌, ltb, leb, ◌==◌, ◌&&◌, ◌||◌, not, if◌then◌else◌, update,
}
use kernel_genesis_os.Kernel.{
  Etat, Processus, Kernel, File, Head, elu, activable, endormi, mourant, zombie, attend_fils,
  attend_file, attend_semaphore, attend_es, proc_activables, proc_endormis, proc_mourants,
  proc_bloque_es, attente_file, proc_idle, modify, set_etat,
}
use kernel_genesis_os.Kernel.Result.{
  Result, ok, crash, ◌>>=◌, ◌>>◌, guard, null_pointer, failed_assertion,
}
use kernel_genesis_os.Kernel.Resume.{Resume, returns, never, after_waitpid, returns_to}
use kernel_genesis_os.Kernel.Queues.{add, out, del}
use kernel_genesis_os.Ordonnanceur.{
  by_prio, is_zombie, max_process, free_mourant_queue, ordonnanceur,
}

-- PRIO_MAX
abbrev pub prio_max : ℤ
prio_max = pos 255

abbrev pub error : Kernel → Result (Kernel × Resume)
error k = ok (k, returns (negsuc 0))

-- `if (c) ordonnanceur();` at the end of a call
unfoldable pub reschedule_if : Bool → Kernel → Result Kernel
reschedule_if true k = ordonnanceur k
reschedule_if false k = ok k

unfoldable pub then_return : Resume → Result Kernel → Result (Kernel × Resume)
then_return r m = m >>= λ k. ok (k, r)

-- add_pid puts a pid at the head of the free ones.
unfoldable pub add_pid : ℕ → Kernel → Kernel
add_pid p k = record k { pids = p ∷ k.pids }

-- new_pid takes the head of the free pids.
unfoldable pub new_pid : Kernel → Option (ℕ × Kernel)
new_pid k = elim k.pids [ [] ↦ none | p ∷ ps ↦ some (p, record k { pids = ps }) ]

-- The process of a pid that the table holds.
unfoldable pub proc_at : ℤ → Kernel → Option ℕ
proc_at (pos p) k = if ltb p max_process && k.table p then some p else none
proc_at (negsuc n) k = none

-- getpid and getprio
unfoldable pub getpid : Kernel → ℤ
getpid k = pos k.elu

unfoldable pub getprio : ℤ → Kernel → ℤ
getprio pid k = elim (proc_at pid k) [ none ↦ negsuc 0 | some p ↦ pos (k.procs p).prio ]

-- wait_clock: `secReveille` has 32 bits.
unfoldable pub wait_clock : ℕ → Kernel → Result (Kernel × Resume)
wait_clock ticks k = do
  let k₁ : Kernel =
      modify k.elu (λ r. record r { etat = endormi; sec_reveille = ticks % 4294967296 }) k
  k₂ ← add (λ r. r.sec_reveille) proc_endormis k.elu k₁
  then_return (returns (pos 0)) (ordonnanceur k₂)

-- The body of the loop of verifie_reveille for a sleeper whose time has come.
unfoldable pub wake_sleeper : ℕ → Kernel → Result Kernel
wake_sleeper p k = do k₁ ← del p (set_etat p activable k); add by_prio proc_activables p k₁

-- The loop of verifie_reveille, from the front of the sleepers: it stops at the first that sleeps on.
-- The flag says that a process with a higher priority than `limit` woke up.
unfoldable pub wake_sleepers : ℕ → ℕ → List ℕ → Bool → Kernel → Result (Bool × Kernel)
wake_sleepers ticks limit [] b k = ok (b, k)
wake_sleepers ticks limit (p ∷ ps) b k =
    if leb (k.procs p).sec_reveille ticks
    then (wake_sleeper p k >>= wake_sleepers ticks limit ps (b || ltb limit (k.procs p).prio))
    else ok (b, k)

-- verifie_reveille
unfoldable pub verifie_reveille : ℕ → Kernel → Result Kernel
verifie_reveille ticks k = do
  (b, k₁) ← wake_sleepers ticks (k.procs k.elu).prio (k.queue proc_endormis) false k
  reschedule_if b k₁

-- verifie_es
unfoldable pub verifie_es : Kernel → Result Kernel
verifie_es k = elim (out proc_bloque_es k) [
  | none ↦ ok k
  | some (p, k₁) ↦ do
    k₂ ← add by_prio proc_activables p (set_etat p activable k₁)
    reschedule_if (ltb (k₂.procs p).prio (k₂.procs k₂.elu).prio) k₂
]

abbrev pub waits_for_child : Etat → Bool
waits_for_child attend_fils = true
waits_for_child _ = false

-- A father that waits for a child is made runnable.
unfoldable pub wake_father : ℕ → Kernel → Result Kernel
wake_father f k =
    if waits_for_child (k.procs f).etat
    then add by_prio proc_activables f (set_etat f activable k)
    else ok k

-- exit, up to its reschedule.
unfoldable pub leave : Option ℕ → ℕ → Kernel → Result Kernel
leave (some f) p k = wake_father f (set_etat p zombie k)
leave none p k = ok (set_etat p mourant k)

-- exit
unfoldable pub exit : ℤ → Kernel → Result (Kernel × Resume)
exit retval k = do
  k₁ ← leave (k.procs k.elu).pere k.elu (modify k.elu (λ r. record r { retval = retval }) k)
  then_return never (ordonnanceur k₁)
