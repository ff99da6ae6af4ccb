-- ===== src/Semaphore.antt =====
-- kernel/semaphore.c.
--
-- A `short int` count is an integer that `to_short` brings back to 16 bits after each operation. An
-- operation gives the new kernel and what becomes of the caller (see Kernel/Resume.antt).
-- `mem_alloc`, the allocator's, is an argument where its failure is tested: whether it gave memory.
pub mod Count
pub mod Wakeups
pub mod Operations
pub mod Sleep
use kernel_genesis_os.Base.{
  ℕ, zero, suc, ◌-◌, ◌%◌, ◌≤◌, ℤ, pos, negsuc, ◌+ℤ◌, ◌-ℤ◌, leb_ℤ, ltb_ℤ, Bool, true, false, Option,
  none, some, List, [], ◌∷◌, ltb, if◌then◌else◌, update, pos_part, length,
}
use kernel_genesis_os.Queue.{queue_add, queue_out}
use kernel_genesis_os.Kernel.{
  Processus, Kernel, Head, activable, attend_semaphore, attente_sem, proc_activables, modify,
  set_etat, set_queue,
}
use kernel_genesis_os.Kernel.Result.{Result, ok, crash, out_of_fuel, ◌>>=◌, null_pointer}
use kernel_genesis_os.Kernel.Resume.{Resume, returns, after_wait}
use kernel_genesis_os.Kernel.Queues.{add, out}
use kernel_genesis_os.Ordonnanceur.{by_prio, ordonnanceur}

-- NBSEM, SHORTINT_MAX, SHORTINT_MIN
abbrev pub nbsem : ℕ
nbsem = 10

abbrev pub shortint_max : ℤ
shortint_max = pos 32767

abbrev pub shortint_min : ℤ
shortint_min = negsuc 32767

abbrev signed16 : ℕ → ℤ
signed16 m = if ltb m 32768 then pos m else negsuc (65535 - m)

-- The conversion to `short int`: the low 16 bits, read with a sign.
unfoldable pub to_short : ℤ → ℤ
to_short (pos n) = signed16 (n % 65536)
to_short (negsuc n) = signed16 (65535 - n % 65536)

-- add_sid and new_sid: the free identifications, the smallest first, the largest taken first.
unfoldable pub add_sid : ℕ → Kernel → Kernel
add_sid s k = record k { sids = queue_add (λ x. x) s k.sids }

abbrev taken_sid : Kernel → Option (ℕ × List ℕ) → Option (ℕ × Kernel)
taken_sid k none = none
taken_sid k (some (s, rest)) = some (s, record k { sids = rest })

unfoldable pub new_sid : Kernel → Option (ℕ × Kernel)
new_sid k = taken_sid k (queue_out k.sids)

add_sids : ℕ → ℕ → Kernel → Kernel
unfolding add_sid
add_sids zero i k = k
add_sids (suc n) i k = add_sids n (suc i) (add_sid i k)

-- init_semaphores
unfoldable pub init_semaphores : Kernel → Kernel
unfolding add_sids
init_semaphores k = add_sids nbsem 0 (record k { sids = [] })

abbrev existing : ℕ → Option ℤ → Option (ℕ × ℤ)
existing s none = none
existing s (some c) = some (s, c)

-- isSidValideAndExist, and the semaphore if it does: its identification and its count.
unfoldable pub sem_at : ℤ → Kernel → Option (ℕ × ℤ)
sem_at (pos s) k = if ltb s nbsem then existing s (k.sems s) else none
sem_at (negsuc n) k = none

abbrev pub error : Kernel → ℕ → Result (Kernel × Resume)
error k n = ok (k, returns (negsuc n))

abbrev pub success : Kernel → Result (Kernel × Resume)
success k = ok (k, returns (pos 0))

abbrev pub set_sem : ℕ → Option ℤ → Kernel → Kernel
set_sem s c k = record k { sems = update k.sems s c }

abbrev count_of : Option (ℕ × ℤ) → ℤ
count_of none = negsuc 0
count_of (some (s, c)) = c

-- scount
unfoldable pub scount : ℤ → Kernel → ℤ
scount sid k = count_of (sem_at sid k)

-- screate
unfoldable pub screate : Bool → ℤ → Kernel → Result (Kernel × Resume)
screate allocated count k = if ltb_ℤ count (pos 0) then error k 0 else elim (new_sid k) [
  | none ↦ error k 0
  | some (s, k') ↦
      if allocated
      then ok (set_queue (attente_sem s) [] (set_sem s (some count) k'), returns (pos s))
      else error (add_sid s k') 0
]

-- The wake-up of one waiting process, with the status that it returns.
unfoldable pub wake : ℤ → ℕ → Kernel → Result Kernel
wake status p k =
    add by_prio proc_activables p
      (modify p (λ r. record r { etat = activable; operation_status = status }) k)

-- The `while` loop of sdelete and sreset, a round for each process that waits.
unfoldable pub wake_all : ℕ → ℤ → ℕ → Kernel → Result Kernel
wake_all zero status s k = out_of_fuel
wake_all (suc fuel) status s k = elim (out (attente_sem s) k) [
  | none ↦ ok k
  | some (p, k') ↦ wake status p k' >>= wake_all fuel status s
]

-- The processes that wait at a semaphore, each woken with a status.
unfoldable pub release : ℤ → ℕ → Kernel → Result Kernel
release status s k = wake_all (suc (length (k.queue (attente_sem s)))) status s k

-- sdelete
unfoldable pub sdelete : ℤ → Kernel → Result (Kernel × Resume)
sdelete sid k = elim (sem_at sid k) [
  | none ↦ error k 0
  | some (s, c) ↦ release (negsuc 2) s k >>= λ k'. success (add_sid s (set_sem s none k'))
]

-- sreset
unfoldable pub sreset : ℤ → ℤ → Kernel → Result (Kernel × Resume)
sreset sid count k = elim (sem_at sid k) [
  | none ↦ error k 0
  | some (s, c) ↦
      if ltb_ℤ count (pos 0)
      then error k 0
      else (release (negsuc 3) s k >>= λ k'. success (set_sem s (some count) k'))
]

-- The wake-up of the process at the end of the queue; the code takes it to be there.
unfoldable pub wake_one : ℕ → Kernel → Result (Kernel × Resume)
wake_one s k = elim (out (attente_sem s) k) [
  | none ↦ crash null_pointer
  | some (p, k') ↦ wake (pos 1) p k' >>= success
]

-- signal, at a semaphore that exists.
unfoldable pub signal_at : ℕ → ℤ → Kernel → Result (Kernel × Resume)
signal_at s c k =
    if ltb_ℤ (shortint_max -ℤ pos 1) c
    then error k 1
    else let c' = to_short (c +ℤ pos 1) in
      let k' : Kernel = set_sem s (some c') k in
      if leb_ℤ c' (pos 0) then wake_one s k' else success k'

unfoldable pub signal : ℤ → Kernel → Result (Kernel × Resume)
signal sid k = elim (sem_at sid k) [ none ↦ error k 0 | some (s, c) ↦ signal_at s c k ]

-- The loop of signaln, whose calls of `signal` ignore what it returns.
unfoldable pub signal_times : ℕ → ℤ → Kernel → Result Kernel
signal_times zero sid k = ok k
signal_times (suc n) sid k = signal sid k >>= λ r. signal_times n sid r.0

-- signaln
unfoldable pub signaln : ℤ → ℤ → Kernel → Result (Kernel × Resume)
signaln sid count k = elim (sem_at sid k) [
  | none ↦ error k 0
  | some (s, c) ↦
      if ltb_ℤ (shortint_max -ℤ count) c
      then error k 1
      else (signal_times (pos_part count) sid k >>= success)
]

-- try_wait
unfoldable pub try_wait : ℤ → Kernel → Result (Kernel × Resume)
try_wait sid k = elim (sem_at sid k) [
  | none ↦ error k 0
  | some (s, c) ↦
      if ltb_ℤ c (shortint_min +ℤ pos 1)
      then error k 1
      else if leb_ℤ c (pos 0)
      then error k 2
      else success (set_sem s (some (to_short (c -ℤ pos 1))) k)
]

abbrev pub by_place : Processus → ℕ
by_place r = r.place

-- The caller of wait goes to sleep at the semaphore.
unfoldable pub sleep : ℕ → Kernel → Result (Kernel × Resume)
sleep s k = do
  k₁ ← add by_place (attente_sem s) k.elu (set_etat k.elu attend_semaphore k)
  k₂ ← ordonnanceur k₁
  ok (k₂, after_wait)

-- wait, at a semaphore that exists.
unfoldable pub wait_at : ℕ → ℤ → Kernel → Result (Kernel × Resume)
wait_at s c k =
    if ltb_ℤ c (shortint_min +ℤ pos 1)
    then error k 1
    else let c' = to_short (c -ℤ pos 1) in
      let k' : Kernel = set_sem s (some c') k in if ltb_ℤ c' (pos 0) then sleep s k' else success k'

unfoldable pub wait : ℤ → Kernel → Result (Kernel × Resume)
wait sid k = elim (sem_at sid k) [ none ↦ error k 0 | some (s, c) ↦ wait_at s c k ]

-- The end of wait, when its caller is elected again.
unfoldable pub wait_end : Kernel → Result (Kernel × Resume)
wait_end k =
    let status = (k.procs k.elu).operation_status in
    if ltb_ℤ status (pos 0) then ok (k, returns status) else success k
