-- ===== src/Semaphore/Sleep.antt =====
-- The counts and the queues of kernel/semaphore.c in wait, whose caller may fall asleep.
use kernel_genesis_os.Base.{
  ℕ, ◌+◌, ◌≡◌, refl, sym, ◌∙◌, ap, ℤ, pos, negsuc, ◌+ℤ◌, ◌-ℤ◌, ltb_ℤ, false, true, some, List,
  arith, inl, inr, Option-cases, Bool-cases, length, subst,
}
use kernel_genesis_os.Queue.{queue_add}
use kernel_genesis_os.Queue.Order.{length-queue_add}
use kernel_genesis_os.Kernel.{Kernel, attend_semaphore, attente_sem, set_etat}
use kernel_genesis_os.Kernel.Result.{Result, ok, >>=-eq-ok}
use kernel_genesis_os.Kernel.Resume.{Resume, returns, after_wait}
use kernel_genesis_os.Kernel.Queues.{add, added, add-eq-ok}
use kernel_genesis_os.Ordonnanceur.{ordonnanceur}
use kernel_genesis_os.Ordonnanceur.Elsewhere.{SameSync, ordonnanceur-SameSync}
use kernel_genesis_os.Semaphore.{
  to_short, shortint_min, sem_at, set_sem, sleep, wait_at, wait, by_place,
}
use kernel_genesis_os.Semaphore.Count.{IsCount, IsCounted, sem_at-some}
use kernel_genesis_os.Semaphore.Wakeups.{
  SameOthers, SameOthers-trans, IsCounted-at, IsCounted-set, set_sem-SameOthers,
}

-- The caller of wait that sleeps at `s`, before the reschedule.
abbrev pub asleep : ℕ → Kernel → Kernel
asleep s k = added by_place (attente_sem s) k.elu (set_etat k.elu attend_semaphore k)

pub asleep-queue :
    (s : ℕ) (k : Kernel)
    → (asleep s k).queue (attente_sem s)
      ≡ queue_add
          (λ q. ((set_etat k.elu attend_semaphore k).procs q).place)
          k.elu
          (k.queue (attente_sem s))
asleep-queue s k = ground arith

asleep-SameOthers : (s : ℕ) (k : Kernel) → SameOthers s k (asleep s k)
asleep-SameOthers s k = record { sems = λ j n. refl; queue = λ j n. ground arith }

down_waiting :
    (c : ℤ) (q q' : List ℕ)
    → IsCount c q
    → ltb_ℤ c (shortint_min +ℤ pos 1) ≡ false
    → ltb_ℤ (to_short (c -ℤ pos 1)) (pos 0) ≡ true
    → length q' ≡ length q + 1
    → IsCount (to_short (c -ℤ pos 1)) q'
unfolding ◌-ℤ◌ ◌+ℤ◌ to_short
down_waiting (pos n) q q' w f t l = ground (arith, w.low, w.high, w.length)
down_waiting (negsuc n) q q' w f t l = ground (arith, w.low, w.high, w.length)

down_free_or :
    (c : ℤ) (q : List ℕ)
    → IsCount c q
    → ltb_ℤ c (shortint_min +ℤ pos 1) ≡ false
    → ltb_ℤ (to_short (c -ℤ pos 1)) (pos 0) ≡ false
    → IsCount (to_short (c -ℤ pos 1)) q
unfolding ◌-ℤ◌ ◌+ℤ◌ to_short
down_free_or (pos n) q w f g = ground (arith, w.low, w.high, w.length)
down_free_or (negsuc n) q w f g = ground (arith, w.low, w.high, w.length)

-- What the caller of wait leaves behind when it sleeps at `s`.
pub sleep_lem :
    (s : ℕ) (k k' : Kernel) (r : Resume)
    → sleep s k ≡ ok (k', r)
    → (r ≡ after_wait) × SameSync (asleep s k) k' × (ordonnanceur (asleep s k) ≡ ok k')
unfolding sleep
sleep_lem s k k' r e =
    let (l, a, e') =
      >>=-eq-ok (add by_place (attente_sem s) k.elu (set_etat k.elu attend_semaphore k)) _ e in
    let (m, o, last) = >>=-eq-ok (ordonnanceur l) _ e' in
    let (f, i) = add-eq-ok by_place (attente_sem s) k.elu (set_etat k.elu attend_semaphore k) l a in
    let w : SameSync l m = ordonnanceur-SameSync l m o in
    let j : (m ≡ k') × (after_wait ≡ r) = (ground arith, ground arith) in
    (
      sym j.1,
      subst (SameSync (asleep s k)) j.0 (subst (λ x. SameSync x m) i w),
      ap ordonnanceur (sym i) ∙ o ∙ ap ok j.0,
    )

IsCounted-SameSync : (k k' : Kernel) → SameSync k k' → IsCounted k → IsCounted k'
IsCounted-SameSync k k' x w s c e = rw (x.queue_sem s) (w s c (rw (x.sems) at e))

wait_at-IsCounted :
    (s : ℕ) (c : ℤ) (k k' : Kernel) (r : Resume)
    → k.sems s ≡ some c
    → IsCounted k
    → wait_at s c k ≡ ok (k', r)
    → IsCounted k'
unfolding wait_at
wait_at-IsCounted s c k k' r e w h = elim (Bool-cases (ltb_ℤ c (shortint_min +ℤ pos 1))) [
  | inl t ↦
      let g : ◌≡◌ {A = Result (Kernel × Resume)} (ok (k, returns (negsuc 1))) (ok (k', r)) =
        rw (t, wait_at) at h in
      let i : k ≡ k' = ground arith in subst IsCounted i w
  | inr f ↦ elim (Bool-cases (ltb_ℤ (to_short (c -ℤ pos 1)) (pos 0))) [
    | inl t ↦
        let k₁ : Kernel = set_sem s (some (to_short (c -ℤ pos 1))) k in
        let g : sleep s k₁ ≡ ok (k', r) = rw (f, t, wait_at) at h in
        IsCounted-SameSync (asleep s k₁) k' (sleep_lem s k₁ k' r g).1 (
          IsCounted-at s k (asleep s k₁)
            (SameOthers-trans s k k₁ (asleep s k₁) (set_sem-SameOthers s _ k)
              (asleep-SameOthers s k₁))
            (λ d i.
              let j : to_short (c -ℤ pos 1) ≡ d = ground arith in
              subst (λ z. IsCount z ((asleep s k₁).queue (attente_sem s))) j
                (down_waiting c (k.queue (attente_sem s)) _ (w s c e) f t
                  (ap length (asleep-queue s k₁) ∙ length-queue_add _ k.elu _)))
            w)
    | inr t ↦
        let g : ◌≡◌ {A = Result (Kernel × Resume)}
            (ok (set_sem s (some (to_short (c -ℤ pos 1))) k, returns (pos 0))) (ok (k', r)) =
          rw (f, t, wait_at) at h in
        let i : set_sem s (some (to_short (c -ℤ pos 1))) k ≡ k' = ground arith in
        subst IsCounted i
          (IsCounted-set s (to_short (c -ℤ pos 1)) k (down_free_or c _ (w s c e) f t) w)
  ]
]

-- wait keeps the counts and the queues in step, also where its caller sleeps and another process is
-- elected.
pub wait-IsCounted :
    (sid : ℤ) (k k' : Kernel) (r : Resume) → IsCounted k → wait sid k ≡ ok (k', r) → IsCounted k'
unfolding wait
wait-IsCounted sid k k' r w h = elim (Option-cases (sem_at sid k)) [
  | inl n ↦
      let g : ◌≡◌ {A = Result (Kernel × Resume)} (ok (k, returns (negsuc 0))) (ok (k', r)) =
        rw (n, wait) at h in
      let i : k ≡ k' = ground arith in subst IsCounted i w
  | inr ((s, c), e) ↦ wait_at-IsCounted s c k k' r (sem_at-some sid k s c e).0 w (rw (e, wait) at h)
]
