-- ===== src/Semaphore/Count.antt =====
-- The count of a semaphore and the processes that wait at it.
use kernel_genesis_os.Base.{
  ℕ, ◌<◌, ◌≡◌, refl, ◌∙◌, ap, ℤ, pos, negsuc, ◌+ℤ◌, ◌-ℤ◌, ◌≤ℤ◌, ◌<ℤ◌, neg_part, false, some, List,
  [], ◌∷◌, ◌++◌, arith, inl, inr, length,
}
use kernel_genesis_os.Queue.Order.{last-cases}
use kernel_genesis_os.Kernel.{Kernel, activable, attente_sem, proc_activables, modify}
use kernel_genesis_os.Kernel.Result.{ok}
use kernel_genesis_os.Kernel.Resume.{returns}
use kernel_genesis_os.Kernel.Queues.{added, add_ok, without, out-some}
use kernel_genesis_os.Ordonnanceur.{by_prio}
use kernel_genesis_os.Semaphore.{
  to_short, shortint_max, shortint_min, sem_at, set_sem, wake, wake_one, signal_at,
}

pub to_short_id : (z : ℤ) → shortint_min ≤ℤ z → z ≤ℤ shortint_max → to_short z ≡ z
unfolding to_short
to_short_id (pos n) lo hi = ground arith
to_short_id (negsuc n) lo hi = ground arith

-- A count fits 16 bits, and a negative one says how many processes wait.
pub record IsCount (c : ℤ) (waiting : List ℕ) : Type 0 where
  pub low : shortint_min ≤ℤ c
  pub high : c ≤ℤ shortint_max
  pub length : length waiting ≡ neg_part c

abbrev pub IsCounted : Kernel → Type 0
IsCounted k = (s : ℕ) (c : ℤ) → k.sems s ≡ some c → IsCount c (k.queue (attente_sem s))

pub sem_at-some :
    (sid : ℤ) (k : Kernel) (s : ℕ) (c : ℤ)
    → sem_at sid k ≡ some (s, c)
    → (k.sems s ≡ some c) × (s < 10) × (sid ≡ pos s)
unfolding sem_at
sem_at-some (pos n) k s c e = ground arith
sem_at-some (negsuc n) k s c e = ground arith

-- The kernel after `p` was woken with a status.
abbrev pub woken : ℤ → ℕ → Kernel → Kernel
woken status p k =
    added by_prio proc_activables p
      (modify p (λ r. record r { etat = activable; operation_status = status }) k)

pub wake_ok :
    (status : ℤ) (p : ℕ) (k : Kernel)
    → (k.procs p).linked ≡ false
    → wake status p k ≡ ok (woken status p k)
unfolding wake
wake_ok status p k f = add_ok by_prio proc_activables p _ (ground arith)

-- The kernel after the process `p` that waited at `s` was woken.
abbrev pub woken_from : ℤ → ℕ → ℕ → List ℕ → Kernel → Kernel
woken_from status s p rest k = woken status p (without (attente_sem s) p rest k)

wake_one_ok :
    (s p : ℕ) (rest : List ℕ) (k : Kernel)
    → k.queue (attente_sem s) ≡ rest ++ p ∷ []
    → wake_one s k ≡ ok (woken_from (pos 1) s p rest k, returns (pos 0))
unfolding wake_one
wake_one_ok s p rest k q =
    rw (out-some (attente_sem s) k p rest q, wake_one)
      (rw (wake_ok (pos 1) p (without (attente_sem s) p rest k) (ground arith)))

-- A negative count says that somebody waits.
pub waiter :
    (c : ℤ) (q : List ℕ)
    → IsCount c q
    → c <ℤ pos 0
    → (rest : List ℕ) × (p : ℕ) × (q ≡ rest ++ p ∷ [])
waiter c q w n = elim (last-cases q) [
  | inl e ↦ absurd (omega (arith, w.length, ap length e))
  | inr (ys, y, e) ↦ (ys, y, e)
]

-- signal on a semaphore with a negative count, that is within 16 bits and equal to the number of
-- processes that wait, adds one to the count and makes the process at the end of the queue runnable
-- with a status that reports success.
pub signal_wakes :
    (s : ℕ) (c : ℤ) (k : Kernel) (rest : List ℕ) (p : ℕ)
    → IsCount c (k.queue (attente_sem s))
    → c <ℤ pos 0
    → k.queue (attente_sem s) ≡ rest ++ p ∷ []
    → signal_at s c k
      ≡ ok (woken_from (pos 1) s p rest (set_sem s (some (c +ℤ pos 1)) k), returns (pos 0))
unfolding signal_at ◌+ℤ◌ ◌-ℤ◌
signal_wakes s (pos n) k rest p w n' q = absurd (omega arith)
signal_wakes s (negsuc n) k rest p w n' q =
    let c' = negsuc n +ℤ pos 1 in
    let short : to_short c' ≡ c' = to_short_id c' (ground (arith, w.low)) (ground arith) in
    let step : signal_at s (negsuc n) k ≡ wake_one s (set_sem s (some c') k) =
      ground (arith, short) in
    step ∙ wake_one_ok s p rest (set_sem s (some c') k) q

-- signal on a semaphore at which nobody waits adds one to the count, and does no more.
pub signal_counts :
    (s : ℕ) (c : ℤ) (k : Kernel)
    → pos 0 ≤ℤ c
    → c <ℤ shortint_max
    → signal_at s c k ≡ ok (set_sem s (some (c +ℤ pos 1)) k, returns (pos 0))
unfolding signal_at ◌+ℤ◌ ◌-ℤ◌ to_short
signal_counts s (pos n) k lo hi = ground arith
signal_counts s (negsuc n) k lo hi = absurd (omega arith)

-- signal at the largest count refuses and changes nothing.
pub signal_full : (s : ℕ) (k : Kernel) → signal_at s shortint_max k ≡ ok (k, returns (negsuc 1))
unfolding signal_at ◌-ℤ◌
signal_full s k = refl
