-- ===== src/Coherence/Clock.antt =====
-- wait_clock, verifie_reveille and verifie_es of kernel/processus.c and the coherence of the kernel's data.
use kernel_genesis_os.Base.{
  ℕ, ◌≡◌, ◌≢◌, refl, Bool, true, false, List, [], ◌∷◌, arith, pos, leb, ◌%◌, Bool-cases,
  Option-cases, inl, inr, ◌<◌, ◌≤◌,
}
use kernel_genesis_os.Queue.{queue_del}
use kernel_genesis_os.Kernel.{
  Processus, Kernel, endormi, activable, proc_activables, proc_endormis, proc_bloque_es, modify,
  set_etat,
}
use kernel_genesis_os.Kernel.Ends.{Ends, Ends-bind}
use kernel_genesis_os.Kernel.Resume.{returns}
use kernel_genesis_os.Kernel.Queues.{out, add_ok, without, out-eq-some}
use kernel_genesis_os.Ordonnanceur.{by_prio, check_canary}
use kernel_genesis_os.Processus.{wait_clock, verifie_es, verifie_reveille, wake_sleepers}
use kernel_genesis_os.Processus.Sleepers.{awake, wake_sleeper_ok}
use kernel_genesis_os.Coherence.{count}
use kernel_genesis_os.Coherence.Moves.{taken_lem, count-queue_del}
use kernel_genesis_os.Coherence.Changes.{deleted}
use kernel_genesis_os.Coherence.Scheduler.{IsGood, ordonnanceur-IsGood}
use kernel_genesis_os.Coherence.Caller.{
  IsMild, StaysGood, asleep-IsReady, then_return-StaysGood, reschedule_if-IsGood,
}
use kernel_genesis_os.Coherence.Others.{
  SameData, SameData-IsGood, added-SameData, deleted-IsGood, taken-IsGood, taken-elu, queued-IsGood,
}

asleep_until : ℕ → Processus → Processus
asleep_until ticks r = record r { etat = endormi; sec_reveille = ticks % 4294967296 }

-- wait_clock.
pub wait_clock-IsGood :
    (ticks : ℕ) (k : Kernel) → IsGood k → k.elu ≢ 0 → StaysGood (wait_clock ticks k)
unfolding wait_clock check_canary asleep_until
wait_clock-IsGood ticks k g ne =
    let m : IsMild (asleep_until ticks) (k.procs k.elu) = record {
      linked = refl;
      fils = refl;
      canary = refl;
    } in
    let s =
      asleep-IsReady k g ne (asleep_until ticks) m (λ r. r.sec_reveille) proc_endormis refl refl in
    let a =
      add_ok (λ r. r.sec_reveille) proc_endormis k.elu (modify k.elu (asleep_until ticks) k)
        (ground (arith, g.unlinked)) in
    rw a (then_return-StaysGood (returns (pos 0)) _ (ordonnanceur-IsGood _ s))

-- verifie_es.
pub verifie_es-IsGood : (k : Kernel) → IsGood k → Ends IsGood (verifie_es k)
unfolding verifie_es check_canary
verifie_es-IsGood k g = elim (Option-cases (out proc_bloque_es k)) [
  | inl n ↦ (k, rw (n, verifie_es), g)
  | inr ((p, l), o) ↦
      let (rest, q, i) = out-eq-some proc_bloque_es k l p o in
      let h = taken-IsGood k g proc_bloque_es p rest q refl in
      let t = taken_lem k g.coherent proc_bloque_es p rest q in
      let l : Kernel = without proc_bloque_es p rest k in
      let m : IsMild (λ r. record r { etat = activable }) (l.procs p) = record {
        linked = refl;
        fils = refl;
        canary = refl;
      } in
      let w =
        queued-IsGood l p h (λ r. record r { etat = activable }) m (ground arith) t.1
          (taken-elu k g proc_bloque_es p rest q refl) by_prio proc_activables refl in
      let a = add_ok by_prio proc_activables p (set_etat p activable l) (ground arith) in
      rw (o, i, verifie_es) (rw a (reschedule_if-IsGood _ _ w))
]

-- A sleeper is woken.
pub awake-IsGood :
    (p : ℕ) (k : Kernel) → IsGood k → 0 < count p (k.queue proc_endormis) → IsGood (awake p k)
unfolding check_canary
awake-IsGood p k g lt =
    let c = g.coherent in
    let l : (k.procs p).linked ≡ true = ground (arith, c.once proc_endormis p) in
    let ne : p ≢ k.elu = λ i. ground (arith, g.unlinked) in
    let d = deleted-IsGood k p g ne (λ z i.
      ground (arith, c.alone proc_activables proc_endormis 0 refl, c.once proc_activables 0)) in
    let m : IsMild (λ r. record r { etat = activable }) ((deleted p k).procs p) = record {
      linked = refl;
      fils = refl;
      canary = refl;
    } in
    let t : k.table p ≡ true = ground (arith, c.gone p) in
    let w =
      queued-IsGood (deleted p k) p d (λ r. record r { etat = activable }) m (ground arith) t ne
        by_prio proc_activables refl in
    let s : SameData (set_etat p activable (deleted p k)) (
        modify p (λ r. record r { linked = false })
          (record (set_etat p activable k) { queue = λ h. queue_del p (k.queue h) })) =
      record { procs = λ x. ground arith; table = refl; pids = refl; queue = λ h. refl } in
    SameData-IsGood k.elu _ _ (added-SameData by_prio proc_activables p _ _ s) refl w

wake_sleepers-IsGood :
    (ticks limit : ℕ) (ps : List ℕ) (b : Bool) (k : Kernel)
    → ((x : ℕ) → count x ps ≤ count x (k.queue proc_endormis))
    → IsGood k
    → Ends (λ x. IsGood x.1) (wake_sleepers ticks limit ps b k)
unfolding wake_sleepers count
wake_sleepers-IsGood ticks limit [] b k h g = ((b, k), refl, g)
wake_sleepers-IsGood ticks limit (p ∷ ps) b k h g =
    elim (Bool-cases (leb (k.procs p).sec_reveille ticks)) [
      | inl t ↦
          let c = g.coherent in
          let lt : 0 < count p (k.queue proc_endormis) = ground (arith, h p) in
          let w = wake_sleeper_ok p k (ground (arith, c.once proc_endormis p)) in
          let v = awake-IsGood p k g lt in
          let s : (x : ℕ) → count x ps ≤ count x ((awake p k).queue proc_endormis) = λ x.
            ground
              (arith, h x, c.once proc_endormis x, count-queue_del x p (k.queue proc_endormis)) in
          rw (t, w) (wake_sleepers-IsGood ticks limit ps _ (awake p k) s v)
      | inr f ↦ ((b, k), rw (f, wake_sleepers), g)
    ]

-- verifie_reveille.
pub verifie_reveille-IsGood :
    (ticks : ℕ) (k : Kernel) → IsGood k → Ends IsGood (verifie_reveille ticks k)
unfolding verifie_reveille
verifie_reveille-IsGood ticks k g =
    Ends-bind (wake_sleepers ticks (k.procs k.elu).prio (k.queue proc_endormis) false k) _
      (wake_sleepers-IsGood ticks _ (k.queue proc_endormis) false k (λ x. omega arith) g)
      (λ r s. reschedule_if-IsGood r.0 r.1 s)
