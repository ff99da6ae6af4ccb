-- ===== src/Semaphore/Operations.antt =====
-- The counts and the queues in the operations of kernel/semaphore.c in which nobody falls asleep.
use kernel_genesis_os.Base.{
  ℕ, zero, suc, ◌≡◌, refl, ℤ, pos, negsuc, ◌+ℤ◌, ◌-ℤ◌, ◌≤ℤ◌, leb_ℤ, ltb_ℤ, pos_part, false, none,
  some, List, [], arith, inl, inr, Option-cases, Bool-cases, subst,
}
use kernel_genesis_os.Kernel.{Kernel, attente_sem}
use kernel_genesis_os.Kernel.Result.{ok}
use kernel_genesis_os.Semaphore.{
  to_short, shortint_max, shortint_min, sem_at, set_sem, release, signal, signal_times, signaln,
  try_wait, sdelete, sreset, add_sid,
}
use kernel_genesis_os.Semaphore.Count.{IsCount, IsCounted, sem_at-some}
use kernel_genesis_os.Semaphore.Wakeups.{
  Keeps, SameOthers, SameOthers-trans, IsCounted-at, IsCounted-set, set_sem-SameOthers,
  signal_at_ok, wake_all_ok,
}

-- signal returns to its caller, without a fault, for every semaphore number, and keeps every count
-- within 16 bits and every negative count equal to the number of processes that wait at its
-- semaphore, provided that this holds before.
pub signal_ok : (sid : ℤ) (k : Kernel) → IsCounted k → Keeps (signal sid k)
unfolding signal
signal_ok sid k w = elim (Option-cases (sem_at sid k)) [
  | inl n ↦ (k, negsuc 0, rw (n, signal), w)
  | inr ((s, c), e) ↦
      let (k', v, h, w') = signal_at_ok s c k (sem_at-some sid k s c e).0 w in
      (k', v, rw (e, signal) h, w')
]

signal_times_ok :
    (n : ℕ) (sid : ℤ) (k : Kernel)
    → IsCounted k
    → (k' : Kernel) × (signal_times n sid k ≡ ok k') × IsCounted k'
unfolding signal_times
signal_times_ok zero sid k w = (k, refl, w)
signal_times_ok (suc n) sid k w =
    let (l, v, e, w') = signal_ok sid k w in
    let (k', e', u) = signal_times_ok n sid l w' in (k', rw e e', u)

-- signaln returns to its caller, without a fault, for every semaphore number and count, and keeps
-- every count within 16 bits and every negative count equal to the number of processes that wait at
-- its semaphore, provided that this holds before.
pub signaln_ok : (sid count : ℤ) (k : Kernel) → IsCounted k → Keeps (signaln sid count k)
unfolding signaln
signaln_ok sid count k w = elim (Option-cases (sem_at sid k)) [
  | inl n ↦ (k, negsuc 0, rw (n, signaln), w)
  | inr ((s, c), e) ↦
      let (k', e', w') = signal_times_ok (pos_part count) sid k w in
      elim (Bool-cases (ltb_ℤ (shortint_max -ℤ count) c)) [
        | inl t ↦ (k, negsuc 1, rw (e, signaln) (rw t), w)
        | inr f ↦ (k', pos 0, rw (e, signaln) (rw f (rw e')), w')
      ]
]

pub down_free :
    (c : ℤ) (q : List ℕ) → IsCount c q → leb_ℤ c (pos 0) ≡ false → IsCount (to_short (c -ℤ pos 1)) q
unfolding ◌-ℤ◌ to_short
down_free (pos n) q w g = ground (arith, w.low, w.high, w.length)
down_free (negsuc n) q w g = absurd (ground arith)

-- try_wait returns to its caller, without a fault and without blocking, for every semaphore number,
-- and keeps every count within 16 bits and every negative count equal to the number of processes
-- that wait at its semaphore, provided that this holds before.
pub try_wait_ok : (sid : ℤ) (k : Kernel) → IsCounted k → Keeps (try_wait sid k)
unfolding try_wait
try_wait_ok sid k w = elim (Option-cases (sem_at sid k)) [
  | inl n ↦ (k, negsuc 0, rw (n, try_wait), w)
  | inr ((s, c), e) ↦ elim (Bool-cases (ltb_ℤ c (shortint_min +ℤ pos 1))) [
    | inl t ↦ (k, negsuc 1, rw (e, try_wait) (rw t), w)
    | inr f ↦ elim (Bool-cases (leb_ℤ c (pos 0))) [
      | inl t ↦ (k, negsuc 2, rw (e, try_wait) (rw (f, t)), w)
      | inr g ↦ (
        set_sem s (some (to_short (c -ℤ pos 1))) k,
        pos 0,
        rw (e, try_wait) (rw (f, g)),
        IsCounted-set s (to_short (c -ℤ pos 1)) k
            (down_free c _ (w s c (sem_at-some sid k s c e).0) g) w,
      )
    ]
  ]
]

-- What sdelete and sreset do to the processes that wait: all of them are woken.
release_ok :
    (status : ℤ) (s : ℕ) (k : Kernel)
    → (k' : Kernel) × (release status s k ≡ ok k')
      × (k'.queue (attente_sem s) ≡ [])
      × SameOthers s k k'
unfolding release
release_ok status s k =
    let (k', e, q, o, _, _) = wake_all_ok _ status s k (omega arith) in (k', e, q, o)

gone-SameOthers :
    (s : ℕ) (k k' : Kernel) → SameOthers s k k' → SameOthers s k (add_sid s (set_sem s none k'))
unfolding add_sid
gone-SameOthers s k k' o = record {
  sems = λ j n. ground (arith, o.sems j n);
  queue = λ j n. ground (arith, o.queue j n);
}

gone-sem : (s : ℕ) (k : Kernel) → (add_sid s (set_sem s none k)).sems s ≡ none
unfolding add_sid
gone-sem s k = ground arith

IsCount-nil :
    (c : ℤ) (q : List ℕ) → ltb_ℤ c (pos 0) ≡ false → c ≤ℤ shortint_max → q ≡ [] → IsCount c q
IsCount-nil c q f hi e = rw e (record { low = ground arith; high = hi; length = ground arith })

-- sdelete returns to its caller, without a fault, for every semaphore number, its loop with enough
-- fuel, and keeps every count within 16 bits and every negative count equal to the number of
-- processes that wait at its semaphore, provided that this holds before.
pub sdelete_ok : (sid : ℤ) (k : Kernel) → IsCounted k → Keeps (sdelete sid k)
unfolding sdelete
sdelete_ok sid k w = elim (Option-cases (sem_at sid k)) [
  | inl n ↦ (k, negsuc 0, rw (n, sdelete), w)
  | inr ((s, c), e) ↦
      let (k', r, q, o) = release_ok (negsuc 2) s k in
      (
        add_sid s (set_sem s none k'),
        pos 0,
        rw (e, sdelete) (rw r),
        IsCounted-at s k (add_sid s (set_sem s none k')) (gone-SameOthers s k k' o)
            (λ d i. cc (gone-sem s k')) w,
      )
]

-- sreset to a count of at most 32767 returns to its caller, without a fault, for every semaphore
-- number, its loop with enough fuel, and keeps every count within 16 bits and every negative count
-- equal to the number of processes that wait at its semaphore, provided that this holds before.
pub sreset_ok :
    (sid count : ℤ) (k : Kernel) → count ≤ℤ shortint_max → IsCounted k → Keeps (sreset sid count k)
unfolding sreset
sreset_ok sid count k hi w = elim (Option-cases (sem_at sid k)) [
  | inl n ↦ (k, negsuc 0, rw (n, sreset), w)
  | inr ((s, c), e) ↦
      let (k', r, q, o) = release_ok (negsuc 3) s k in
      elim (Bool-cases (ltb_ℤ count (pos 0))) [
        | inl t ↦ (k, negsuc 0, rw (e, sreset) (rw t), w)
        | inr f ↦ (
          set_sem s (some count) k',
          pos 0,
          rw (e, sreset) (rw f (rw r)),
          IsCounted-at s k (set_sem s (some count) k')
              (SameOthers-trans s k k' _ o (set_sem-SameOthers s (some count) k'))
              (λ d i.
                let j : count ≡ d = ground arith in
                subst (λ z. IsCount z (k'.queue (attente_sem s))) j (IsCount-nil count _ f hi q))
              w,
        )
      ]
]
