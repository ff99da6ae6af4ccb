-- ===== src/Coherence/Waiting.antt =====
-- Who waits at a semaphore, and who is woken: wait, signal and sdelete of kernel/semaphore.c.
use kernel_genesis_os.Base.{
  ℕ, zero, suc, ◌<◌, ◌≡◌, ◌≢◌, ◌⊎◌, refl, sym, ◌∙◌, ap, subst, ℤ, pos, negsuc, ◌+ℤ◌, ◌-ℤ◌, ◌≤ℤ◌,
  ◌<ℤ◌, true, some, none, List, [], ◌∷◌, ◌++◌, All, length, arith, ◌==◌, Option-cases, Bool-cases,
  inl, inr,
}
use kernel_genesis_os.Queue.{queue_add}
use kernel_genesis_os.Kernel.{
  Kernel, activable, attend_semaphore, proc_activables, attente_sem, set_etat,
}
use kernel_genesis_os.Kernel.Result.{ok}
use kernel_genesis_os.Kernel.Ends.{ok-injective}
use kernel_genesis_os.Kernel.Resume.{returns, after_wait}
use kernel_genesis_os.Kernel.Queues.{out, out-none, out-eq-some, without}
use kernel_genesis_os.Semaphore.{
  shortint_min, to_short, sem_at, set_sem, add_sid, sleep, wait_at, wait, signal, wake_all, release,
  sdelete,
}
use kernel_genesis_os.Semaphore.Count.{
  IsCount, IsCounted, sem_at-some, waiter, woken_from, wake_ok, signal_wakes,
}
use kernel_genesis_os.Semaphore.Wakeups.{wake_all_ok}
use kernel_genesis_os.Semaphore.Operations.{signal_ok, sdelete_ok}
use kernel_genesis_os.Semaphore.Sleep.{asleep, asleep-queue, sleep_lem, wait-IsCounted}
use kernel_genesis_os.Coherence.{count}
use kernel_genesis_os.Coherence.Moves.{count-append}
use kernel_genesis_os.Coherence.Scheduler.{IsGood}
use kernel_genesis_os.Coherence.Semaphores.{
  set_sem-IsGood, sleep-IsGood, signal-IsGood, sdelete-IsGood,
}
use kernel_genesis_os.Coherence.Leaving.{IsAside, ordonnanceur-Waits}

queue_add-first :
    (key : ℕ → ℕ) (x : ℕ) (q : List ℕ) → All (λ y. key y ≡ key x) q → queue_add key x q ≡ x ∷ q
unfolding queue_add
queue_add-first key x [] a = refl
queue_add-first key x (y ∷ q) (e, a) = ground (arith, e)

activable-queued :
    (p : ℕ) (k : Kernel)
    → IsGood k
    → (k.procs p).etat ≡ activable
    → 0 < count p (k.queue proc_activables)
activable-queued p k g e =
    let ne : p ≢ k.elu = λ i. ground (arith, g.runs) in
    let t : k.table p ≡ true = ground (arith, g.coherent.gone p) in
    let l : (k.procs p).linked ≡ true = ground (arith, g.held p) in
    g.coherent.kept proc_activables p refl e l

same_places :
    (s : ℕ) (c : ℤ) (k : Kernel) (q : List ℕ)
    → All (λ y. (k.procs y).place ≡ (k.procs k.elu).place) q
    → All
        (λ y.
          ((set_etat k.elu attend_semaphore (set_sem s (some c) k)).procs y).place
          ≡ ((set_etat k.elu attend_semaphore (set_sem s (some c) k)).procs k.elu).place)
        q
same_places s c k [] a = tt
same_places s c k (y ∷ q) (e, a) = (ground (arith, e), same_places s c k q a)

wait-sleep :
    (sid : ℤ) (s : ℕ) (c : ℤ) (k : Kernel)
    → sem_at sid k ≡ some (s, c)
    → IsCount c (k.queue (attente_sem s))
    → shortint_min <ℤ c
    → c ≤ℤ pos 0
    → wait sid k ≡ sleep s (set_sem s (some (c -ℤ pos 1)) k)
unfolding wait wait_at ◌-ℤ◌ ◌+ℤ◌ to_short
wait-sleep sid s (pos n) k e w lo hi = rw (e, wait) (ground arith)
wait-sleep sid s (negsuc n) k e w lo hi = rw (e, wait) (ground arith)

-- wait on a semaphore whose count is at most 0 and above the smallest short int takes one off the
-- count, ends without a fault and puts its caller to sleep: the caller stands in front of those
-- that wait, who are taken from the back, another process has the processor, and the kernel is good
-- and every count within 16 bits, a negative one equal to the number of processes that wait at its
-- semaphore. It is provided that the last two hold before, that the caller is not the idle process,
-- and that it has the same rank `place` as those that wait.
pub wait-sleeps :
    (sid : ℤ) (s : ℕ) (c : ℤ) (k : Kernel)
    → IsGood k
    → IsCounted k
    → k.elu ≢ 0
    → sem_at sid k ≡ some (s, c)
    → shortint_min <ℤ c
    → c ≤ℤ pos 0
    → All (λ q. (k.procs q).place ≡ (k.procs k.elu).place) (k.queue (attente_sem s))
    → (l : Kernel) × (wait sid k ≡ ok (l, after_wait))
      × IsGood l
      × IsCounted l
      × (l.elu ≢ k.elu)
      × ((l.procs k.elu).etat ≡ attend_semaphore)
      × (l.sems s ≡ some (c -ℤ pos 1))
      × (l.queue (attente_sem s) ≡ k.elu ∷ k.queue (attente_sem s))
wait-sleeps sid s c k g w ne at lo hi places =
    let k₁ = set_sem s (some (c -ℤ pos 1)) k in
    let e = wait-sleep sid s c k at (w s c (sem_at-some sid k s c at).0) lo hi in
    let ((l, r), f, h) = sleep-IsGood s k₁ (set_sem-IsGood s _ k g) ne in
    let (i, same, o) = sleep_lem s k₁ l r f in
    let done : wait sid k ≡ ok (l, after_wait) = e ∙ f ∙ ap (λ x. ok (l, x)) i in
    let aside : IsAside k.elu (asleep s k₁) = record {
      etat = ground arith;
      out = ground (arith, g.unlinked, g.coherent.once proc_activables k.elu);
    } in
    let z = ordonnanceur-Waits k.elu (asleep s k₁) l o aside in
    let q =
      queue_add-first (λ q. ((set_etat k.elu attend_semaphore k₁).procs q).place) k.elu
        (k.queue (attente_sem s)) (same_places s (c -ℤ pos 1) k _ places) in
    (
      l,
      done,
      h,
      wait-IsCounted sid k l after_wait w done,
      λ x. ground (arith, h.runs, z.aside.etat),
      ground (arith, z.keeps),
      ap (λ t. t s) same.sems ∙ ground arith,
      same.queue_sem s ∙ asleep-queue s k₁ ∙ q,
    )

woken_from-state :
    (s p : ℕ) (rest : List ℕ) (c : ℤ) (k : Kernel)
    → let l = woken_from (pos 1) s p rest (set_sem s (some c) k) in
      ((l.procs p).etat ≡ activable)
      × ((l.procs p).operation_status ≡ pos 1)
      × (l.queue (attente_sem s) ≡ rest)
      × (l.sems s ≡ some c)
      × (l.elu ≡ k.elu)
woken_from-state s p rest c k = (ground arith, ground arith, ground arith, ground arith, refl)

-- signal on a semaphore with a negative count returns 0 without a fault and adds one to the count.
-- The last process of the queue, there is one, is off it and in the queue of runnable processes
-- with a status that reports success; the others still wait, and the caller keeps the processor.
-- The kernel is good and every count within 16 bits, a negative one equal to the number of
-- processes that wait at its semaphore, provided that both hold before.
pub signal-wakes :
    (sid : ℤ) (s : ℕ) (c : ℤ) (k : Kernel)
    → IsGood k
    → IsCounted k
    → sem_at sid k ≡ some (s, c)
    → c <ℤ pos 0
    → (l : Kernel) × (p : ℕ) × (rest : List ℕ) × (signal sid k ≡ ok (l, returns (pos 0)))
      × (k.queue (attente_sem s) ≡ rest ++ p ∷ [])
      × (l.queue (attente_sem s) ≡ rest)
      × (l.sems s ≡ some (c +ℤ pos 1))
      × ((l.procs p).operation_status ≡ pos 1)
      × (0 < count p (l.queue proc_activables))
      × (l.elu ≡ k.elu)
      × IsGood l
      × IsCounted l
unfolding signal
signal-wakes sid s c k g w at n =
    let i = w s c (sem_at-some sid k s c at).0 in
    let (rest, p, q) = waiter c (k.queue (attente_sem s)) i n in
    let l = woken_from (pos 1) s p rest (set_sem s (some (c +ℤ pos 1)) k) in
    let e : signal sid k ≡ ok (l, returns (pos 0)) =
      rw (at, signal) (signal_wakes s c k rest p i n q) in
    let (x, y, z, u, v) = woken_from-state s p rest (c +ℤ pos 1) k in
    let h = signal-IsGood sid k g _ e in
    let (l', r', e', w') = signal_ok sid k w in
    let j : l' ≡ l = ap (λ x. x.0) (ok-injective (sym e' ∙ e)) in
    (l, p, rest, e, q, z, u, y, activable-queued p l h x, v, h, subst IsCounted j w')

-- A process that the loop has woken.
abbrev IsWoken : ℤ → ℕ → Kernel → Type 0
IsWoken status p k = ((k.procs p).etat ≡ activable) × ((k.procs p).operation_status ≡ status)

woken_from-IsWoken :
    (status : ℤ) (s p x : ℕ) (rest : List ℕ) (k : Kernel)
    → ((x ≡ p) ⊎ IsWoken status x k)
    → IsWoken status x (woken_from status s p rest k)
woken_from-IsWoken status s p x rest k (inl e) = (ground (arith, e), ground (arith, e))
woken_from-IsWoken status s p x rest k (inr (a, b)) = (ground (arith, a), ground (arith, b))

woken_from-rest :
    (status : ℤ) (s p : ℕ) (rest : List ℕ) (k : Kernel)
    → (woken_from status s p rest k).queue (attente_sem s) ≡ rest
woken_from-rest status s p rest k = ground arith

still_waits :
    (status : ℤ) (s p x : ℕ) (rest : List ℕ) (k : Kernel)
    → k.queue (attente_sem s) ≡ rest ++ p ∷ []
    → (0 < count x (k.queue (attente_sem s))) ⊎ IsWoken status x k
    → (0 < count x ((woken_from status s p rest k).queue (attente_sem s)))
      ⊎ IsWoken status x (woken_from status s p rest k)
unfolding count
still_waits status s p x rest k q (inr h) = inr (woken_from-IsWoken status s p x rest k (inr h))
still_waits status s p x rest k q (inl lt) = elim (Bool-cases (x == p)) [
  | inl t ↦ inr (woken_from-IsWoken status s p x rest k (inl (ground arith)))
  | inr f ↦
      let c : 0 < count x rest =
        ground (arith, f, subst (λ z. 0 < count x z) q lt, count-append x rest (p ∷ [])) in
      inl (rw (woken_from-rest status s p rest k) c)
]

-- The loop of sdelete and sreset wakes whoever waits, and whoever it has woken stays so.
wake_all-IsWoken :
    (fuel : ℕ) (status : ℤ) (s : ℕ) (k l : Kernel)
    → wake_all fuel status s k ≡ ok l
    → (l.elu ≡ k.elu)
      × ((x : ℕ)
          → (0 < count x (k.queue (attente_sem s))) ⊎ IsWoken status x k
          → IsWoken status x l)
unfolding wake_all count
wake_all-IsWoken zero status s k l e = cc
wake_all-IsWoken (suc fuel) status s k l e = elim (Option-cases (out (attente_sem s) k)) [
  | inl n ↦
      let i : k ≡ l = ok-injective (rw (n, wake_all) at e) in
      let q = out-none (attente_sem s) k n in
      rw (← i)
        (refl, λ x d. elim d [ inl lt ↦ absurd (omega (arith, lt, ap (count x) q)) | inr h ↦ h ])
  | inr ((p, m), o) ↦
      let (rest, q, i) = out-eq-some (attente_sem s) k m p o in
      let h : wake_all fuel status s (woken_from status s p rest k) ≡ ok l =
        rw (wake_ok status p (without (attente_sem s) p rest k) (ground arith)) at
          (rw (o, i, wake_all) at e) in
      let (u, f) = wake_all-IsWoken fuel status s (woken_from status s p rest k) l h in
      (u, λ x d. f x (still_waits status s p x rest k q d))
]

-- sdelete of a semaphore that exists returns 0 without a fault, its loop with enough fuel: the
-- semaphore is gone and nobody is in its queue, every process that waited is in the queue of
-- runnable processes with the status -3, and the caller keeps the processor. The kernel is good and
-- every count within 16 bits, a negative one equal to the number of processes that wait at its
-- semaphore, provided that both hold before.
pub sdelete-wakes :
    (sid : ℤ) (s : ℕ) (c : ℤ) (k : Kernel)
    → IsGood k
    → IsCounted k
    → sem_at sid k ≡ some (s, c)
    → (l : Kernel) × (sdelete sid k ≡ ok (l, returns (pos 0)))
      × (l.sems s ≡ none)
      × (l.queue (attente_sem s) ≡ [])
      × ((p : ℕ)
          → 0 < count p (k.queue (attente_sem s))
          → ((l.procs p).operation_status ≡ negsuc 2) × (0 < count p (l.queue proc_activables)))
      × (l.elu ≡ k.elu)
      × IsGood l
      × IsCounted l
unfolding sdelete release add_sid
sdelete-wakes sid s c k g w at =
    let (m, e, q, _, _, _) =
      wake_all_ok (suc (length (k.queue (attente_sem s)))) (negsuc 2) s k (omega arith) in
    let (u, f) = wake_all-IsWoken _ (negsuc 2) s k m e in
    let l = add_sid s (set_sem s none m) in
    let d : sdelete sid k ≡ ok (l, returns (pos 0)) = rw (at, sdelete) (rw e refl) in
    let h = sdelete-IsGood sid k g _ d in
    let (l', r', e', w') = sdelete_ok sid k w in
    let j : l' ≡ l = ap (λ x. x.0) (ok-injective (sym e' ∙ d)) in
    (
      l,
      d,
      ground arith,
      q,
      λ p lt. let (a, b) = f p (inl lt) in (b, activable-queued p l h a),
      u,
      h,
      subst IsCounted j w',
    )
