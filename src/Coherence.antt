-- ===== src/Coherence.antt =====
-- What holds of the kernel's shared data between two operations: kernel/processus.c keeps each process
-- in at most one queue, which all use the same field `chainage`, and each pid either free or in use.
pub mod Moves
pub mod Changes
pub mod Reaping
pub mod Ready
pub mod Scheduler
pub mod Caller
pub mod Others
pub mod Processes
pub mod Kill
pub mod Start
pub mod Waitpid
pub mod Priority
pub mod Semaphores
pub mod Messages
pub mod Transfer
pub mod Handover
pub mod Leaving
pub mod Refilling
pub mod Waiting
pub mod Calls
pub mod Reach
pub mod Clock
pub mod Alarm
use kernel_genesis_os.Base.{
  ℕ, zero, suc, ◌+◌, ◌≤◌, ◌<◌, ◌≡◌, Bool, true, false, List, [], ◌∷◌, ◌==◌, ◌||◌, if◌then◌else◌,
  All,
}
use kernel_genesis_os.Kernel.{
  Etat, Processus, Kernel, Head, elu, zombie, attend_fils, activable, endormi, mourant, attend_file,
  attend_semaphore, attend_es, proc_activables, proc_endormis, proc_mourants, proc_bloque_es,
  attente_sem, attente_file, same_head, proc_idle,
}
use kernel_genesis_os.Ordonnanceur.{check_canary}

-- How often a pid stands in a list.
unfoldable pub count : ℕ → List ℕ → ℕ
count p [] = 0
count p (x ∷ xs) = if p == x then suc (count p xs) else count p xs

abbrev pub bit : Bool → ℕ
bit true = 1
bit false = 0

-- The state of the processes in a queue.
abbrev pub etat_of : Head → Etat
etat_of proc_activables = activable
etat_of proc_endormis = endormi
etat_of proc_mourants = mourant
etat_of proc_bloque_es = attend_es
etat_of (attente_sem s) = attend_semaphore
etat_of (attente_file f) = attend_file

-- The states in which a process can be in a queue.
abbrev pub is_queued : Etat → Bool
is_queued activable = true
is_queued endormi = true
is_queued mourant = true
is_queued attend_es = true
is_queued attend_semaphore = true
is_queued attend_file = true
is_queued _ = false

-- The queues of which there is one.
abbrev pub is_single : Head → Bool
is_single (attente_sem s) = false
is_single (attente_file f) = false
is_single _ = true

-- The states of a process that does not run: one that waits for a child or for its father is in no queue.
abbrev pub is_settled : Etat → Bool → Bool
is_settled elu linked = false
is_settled zombie linked = true
is_settled attend_fils linked = true
is_settled _ linked = linked

-- The states of a structure that is not in use: zeroed, or freed.
abbrev pub is_gone : Etat → Bool
is_gone elu = true
is_gone mourant = true
is_gone _ = false

-- The structures, the table, the free pids and the queues fit together: a process is in at most one
-- queue, once, and then its `chainage` is not null and its state is the queue's, and whose `chainage` is
-- not null is in the queue of its state, where there is one such queue; nothing is queued that
-- is not in the table; children have pids of the table; a pid is free once, or in the table; a user stack has its canaries.
pub record IsCoherent (procs : ℕ → Processus) (table : ℕ → Bool) (pids : List ℕ)
    (queue : Head → List ℕ) : Type 0 where
  pub once : (h : Head) (p : ℕ) → count p (queue h) ≤ bit (procs p).linked
  pub alone :
      (h j : Head) (p : ℕ)
      → same_head h j ≡ false
      → count p (queue h) + count p (queue j) ≤ bit (procs p).linked
  pub place : (h : Head) (p : ℕ) → 0 < count p (queue h) → (procs p).etat ≡ etat_of h
  pub kept :
      (h : Head) (p : ℕ)
      → is_single h ≡ true
      → (procs p).etat ≡ etat_of h
      → (procs p).linked ≡ true
      → 0 < count p (queue h)
  pub kind : (p : ℕ) → (procs p).linked ≡ true → is_queued (procs p).etat ≡ true
  pub gone :
      (p : ℕ) → table p ≡ false → ((procs p).linked ≡ false) × (is_gone (procs p).etat ≡ true)
  pub fils : (p : ℕ) → All (λ f. f < 50) (procs p).fils
  pub free : (p : ℕ) → table p ≡ true → count p pids ≡ 0
  pub distinct : (p : ℕ) → count p pids ≤ 1
  pub low : (p : ℕ) → 0 < count p pids → p < 50
  pub below : (p : ℕ) → table p ≡ true → p < 50
  pub canary : (p : ℕ) → table p ≡ true → (p == proc_idle || check_canary (procs p)) ≡ true

abbrev pub Coherent : Kernel → Type 0
Coherent k = IsCoherent k.procs k.table k.pids k.queue
