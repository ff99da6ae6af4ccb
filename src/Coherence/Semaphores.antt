-- ===== src/Coherence/Semaphores.antt =====
-- kernel/semaphore.c and the coherence of the kernel's data.
use kernel_genesis_os.Base.{
  ℕ, zero, suc, ◌≡◌, ◌≢◌, refl, Bool, Option, none, some, List, arith, ℤ, pos, negsuc, ltb_ℤ, leb_ℤ,
  ◌+ℤ◌, ◌-ℤ◌, Bool-cases, Option-cases, inl, inr, subst, pos_part,
}
use kernel_genesis_os.Kernel.{
  Processus, Kernel, activable, attend_semaphore, proc_activables, attente_sem, modify,
}
use kernel_genesis_os.Kernel.Result.{Result, ok}
use kernel_genesis_os.Kernel.Ends.{Ends-bind, Holds, Holds-ok, Holds-bind}
use kernel_genesis_os.Kernel.Resume.{Resume, returns, after_wait}
use kernel_genesis_os.Kernel.Queues.{add_ok, add-eq-ok, out, out-eq-some, without}
use kernel_genesis_os.Queue.{queue_out}
use kernel_genesis_os.Ordonnanceur.{by_prio, check_canary}
use kernel_genesis_os.Semaphore.{
  add_sid, new_sid, sem_at, set_sem, to_short, shortint_min, shortint_max, screate, wake, wake_all,
  release, sdelete, sreset, wake_one, signal_at, signal, signal_times, signaln, try_wait, by_place,
  sleep, wait_at, wait, success,
}
use kernel_genesis_os.Coherence.Scheduler.{IsGood, ordonnanceur-IsGood}
use kernel_genesis_os.Coherence.Caller.{IsMild, StaysGood, asleep-IsReady}
use kernel_genesis_os.Coherence.Others.{woken-IsGood, aside-IsGood, emptied-IsGood}

-- An operation that ends without a fault leaves a good kernel.
abbrev pub KeepsGood : Result (Kernel × Resume) → Type 0
KeepsGood m = Holds (λ x. IsGood x.0) m

pub returned : (k : Kernel) (r : Resume) → IsGood k → KeepsGood (ok (k, r))
returned k r g = Holds-ok (λ x. IsGood x.0) (k, r) g

pub set_sem-IsGood : (s : ℕ) (c : Option ℤ) (k : Kernel) → IsGood k → IsGood (set_sem s c k)
set_sem-IsGood s c k g = aside-IsGood k.elu k (set_sem s c k) g (refl, refl, refl, refl, refl)

with_sids-IsGood : (ss : List ℕ) (k : Kernel) → IsGood k → IsGood (record k { sids = ss })
with_sids-IsGood ss k g =
    aside-IsGood k.elu k (record k { sids = ss }) g (refl, refl, refl, refl, refl)

-- One waiting process is woken.
wake-IsGood :
    (status : ℤ) (s p : ℕ) (k l : Kernel)
    → IsGood k
    → out (attente_sem s) k ≡ some (p, l)
    → Holds IsGood (wake status p l)
unfolding wake check_canary
wake-IsGood status s p k l g o k' e =
    let (rest, q, i) = out-eq-some (attente_sem s) k l p o in
    let f : Processus → Processus = λ r. record r { etat = activable; operation_status = status } in
    let m : IsMild f ((without (attente_sem s) p rest k).procs p) = record {
      linked = refl;
      fils = refl;
      canary = refl;
    } in
    let (u, j) = add-eq-ok by_prio proc_activables p (modify p f l) k' e in
    let w = woken-IsGood k (attente_sem s) p rest f g q refl m refl in rw (j, i) w

wake_all-IsGood :
    (fuel : ℕ) (status : ℤ) (s : ℕ) (k : Kernel)
    → IsGood k
    → Holds IsGood (wake_all fuel status s k)
unfolding wake_all
wake_all-IsGood zero status s k g = λ k' e. cc
wake_all-IsGood (suc fuel) status s k g = elim (Option-cases (out (attente_sem s) k)) [
  | inl n ↦ rw (n, wake_all) (Holds-ok IsGood k g)
  | inr ((p, l), o) ↦
      rw (o, wake_all)
        (Holds-bind (wake status p l) _ (wake-IsGood status s p k l g o)
          (λ m h. wake_all-IsGood fuel status s m h))
]

-- sdelete.
pub sdelete-IsGood : (sid : ℤ) (k : Kernel) → IsGood k → KeepsGood (sdelete sid k)
unfolding sdelete release add_sid
sdelete-IsGood sid k g = elim (Option-cases (sem_at sid k)) [
  | inl n ↦ rw (n, sdelete) (returned k _ g)
  | inr ((s, c), e) ↦
      rw (e, sdelete)
        (Holds-bind (release (negsuc 2) s k) _ (wake_all-IsGood _ (negsuc 2) s k g)
          (λ l h. returned _ _ (with_sids-IsGood _ (set_sem s none l) (set_sem-IsGood s none l h))))
]

-- sreset.
pub sreset-IsGood : (sid count : ℤ) (k : Kernel) → IsGood k → KeepsGood (sreset sid count k)
unfolding sreset release
sreset-IsGood sid count k g = elim (Option-cases (sem_at sid k)) [
  | inl n ↦ rw (n, sreset) (returned k _ g)
  | inr ((s, c), e) ↦ elim (Bool-cases (ltb_ℤ count (pos 0))) [
    | inl t ↦ rw (e, t, sreset) (returned k _ g)
    | inr t ↦
        rw (e, t, sreset)
          (Holds-bind (release (negsuc 3) s k) _ (wake_all-IsGood _ (negsuc 3) s k g)
            (λ l h. returned _ _ (set_sem-IsGood s (some count) l h)))
  ]
]

new_sid-IsGood : (s : ℕ) (k l : Kernel) → IsGood k → new_sid k ≡ some (s, l) → IsGood l
unfolding new_sid
new_sid-IsGood s k l g e = elim (Option-cases (queue_out k.sids)) [
  | inl n ↦ cc (rw n at e)
  | inr ((i, rest), o) ↦
      let f : ◌≡◌ {A = Option (ℕ × Kernel)} (some (i, record k { sids = rest })) (some (s, l)) =
        rw o at e in
      let j : record k { sids = rest } ≡ l = ground arith in
      subst IsGood j (with_sids-IsGood rest k g)
]

-- screate.
pub screate-IsGood :
    (allocated : Bool) (count : ℤ) (k : Kernel) → IsGood k → KeepsGood (screate allocated count k)
unfolding screate add_sid
screate-IsGood allocated count k g = elim (Bool-cases (ltb_ℤ count (pos 0))) [
  | inl t ↦ rw (t, screate) (returned k _ g)
  | inr t ↦ elim (Option-cases (new_sid k)) [
    | inl n ↦ rw (t, n, screate) (returned k _ g)
    | inr ((s, l), e) ↦
        let h = new_sid-IsGood s k l g e in
        rw (t, e, screate)
          (elim (Bool-cases allocated) [
            | inl a ↦ rw a (
                returned _ _ (
                  emptied-IsGood _ (attente_sem s) (set_sem s (some count) l)
                    (set_sem-IsGood s (some count) l h) refl))
            | inr a ↦ rw a (returned _ _ (with_sids-IsGood _ l h))
          ])
  ]
]

wake_one-IsGood : (s : ℕ) (k : Kernel) → IsGood k → KeepsGood (wake_one s k)
unfolding wake_one
wake_one-IsGood s k g = elim (Option-cases (out (attente_sem s) k)) [
  | inl n ↦ rw (n, wake_one) (λ x e. cc)
  | inr ((p, l), o) ↦
      rw (o, wake_one)
        (Holds-bind (wake (pos 1) p l) success (wake-IsGood (pos 1) s p k l g o)
          (λ m h. returned m _ h))
]

-- signal.
pub signal-IsGood : (sid : ℤ) (k : Kernel) → IsGood k → KeepsGood (signal sid k)
unfolding signal signal_at
signal-IsGood sid k g = elim (Option-cases (sem_at sid k)) [
  | inl n ↦ rw (n, signal) (returned k _ g)
  | inr ((s, c), e) ↦ elim (Bool-cases (ltb_ℤ (shortint_max -ℤ pos 1) c)) [
    | inl t ↦ rw (e, signal) (rw (t, signal_at) (returned k _ g))
    | inr t ↦ elim (Bool-cases (leb_ℤ (to_short (c +ℤ pos 1)) (pos 0))) [
      | inl u ↦ rw (e, signal) (rw (t, u, signal_at) (wake_one-IsGood s _ (set_sem-IsGood s _ k g)))
      | inr u ↦ rw (e, signal) (rw (t, u, signal_at) (returned _ _ (set_sem-IsGood s _ k g)))
    ]
  ]
]

signal_times-IsGood :
    (n : ℕ) (sid : ℤ) (k : Kernel) → IsGood k → Holds IsGood (signal_times n sid k)
unfolding signal_times
signal_times-IsGood zero sid k g = Holds-ok IsGood k g
signal_times-IsGood (suc n) sid k g =
    Holds-bind (signal sid k) _ (signal-IsGood sid k g) (λ r h. signal_times-IsGood n sid r.0 h)

-- signaln.
pub signaln-IsGood : (sid count : ℤ) (k : Kernel) → IsGood k → KeepsGood (signaln sid count k)
unfolding signaln
signaln-IsGood sid count k g = elim (Option-cases (sem_at sid k)) [
  | inl n ↦ rw (n, signaln) (returned k _ g)
  | inr ((s, c), e) ↦ elim (Bool-cases (ltb_ℤ (shortint_max -ℤ count) c)) [
    | inl t ↦ rw (e, t, signaln) (returned k _ g)
    | inr t ↦
        rw (e, t, signaln)
          (Holds-bind (signal_times (pos_part count) sid k) success (signal_times-IsGood _ sid k g)
            (λ m h. returned m _ h))
  ]
]

-- try_wait.
pub try_wait-IsGood : (sid : ℤ) (k : Kernel) → IsGood k → KeepsGood (try_wait sid k)
unfolding try_wait
try_wait-IsGood sid k g = elim (Option-cases (sem_at sid k)) [
  | inl n ↦ rw (n, try_wait) (returned k _ g)
  | inr ((s, c), e) ↦ elim (Bool-cases (ltb_ℤ c (shortint_min +ℤ pos 1))) [
    | inl t ↦ rw (e, t, try_wait) (returned k _ g)
    | inr t ↦ elim (Bool-cases (leb_ℤ c (pos 0))) [
      | inl u ↦ rw (e, t, u, try_wait) (returned k _ g)
      | inr u ↦ rw (e, t, u, try_wait) (returned _ _ (set_sem-IsGood s _ k g))
    ]
  ]
]

pub sleep-IsGood : (s : ℕ) (k : Kernel) → IsGood k → k.elu ≢ 0 → StaysGood (sleep s k)
unfolding sleep check_canary
sleep-IsGood s k g ne =
    let f : Processus → Processus = λ r. record r { etat = attend_semaphore } in
    let m : IsMild f (k.procs k.elu) = record { linked = refl; fils = refl; canary = refl } in
    let w = asleep-IsReady k g ne f m by_place (attente_sem s) refl refl in
    let a = add_ok by_place (attente_sem s) k.elu (modify k.elu f k) (ground (arith, g.unlinked)) in
    rw a (Ends-bind _ _ (ordonnanceur-IsGood _ w) (λ l h. ((l, after_wait), refl, h)))

-- wait.
pub wait-IsGood : (sid : ℤ) (k : Kernel) → IsGood k → k.elu ≢ 0 → StaysGood (wait sid k)
unfolding wait wait_at
wait-IsGood sid k g ne = elim (Option-cases (sem_at sid k)) [
  | inl n ↦ ((k, returns (negsuc 0)), rw (n, wait) refl, g)
  | inr ((s, c), e) ↦ elim (Bool-cases (ltb_ℤ c (shortint_min +ℤ pos 1))) [
    | inl t ↦ ((k, returns (negsuc 1)), rw (e, wait) (rw (t, wait_at) refl), g)
    | inr t ↦
        let l : Kernel = set_sem s (some (to_short (c -ℤ pos 1))) k in
        let h = set_sem-IsGood s (some (to_short (c -ℤ pos 1))) k g in
        elim (Bool-cases (ltb_ℤ (to_short (c -ℤ pos 1)) (pos 0))) [
          | inl u ↦ rw (e, wait) (rw (t, u, wait_at) (sleep-IsGood s l h ne))
          | inr u ↦ ((l, returns (pos 0)), rw (e, wait) (rw (t, u, wait_at) refl), h)
        ]
  ]
]
