-- ===== src/Coherence/Kill.antt =====
-- kill of kernel/processus.c and the coherence of the kernel's data.
use kernel_genesis_os.Base.{
  ℕ, ◌≡◌, ◌≢◌, refl, sym, ◌∙◌, true, false, Option, none, some, ◌==◌, arith, ℤ, pos, negsuc, leb_ℤ,
  ltb, ◌&&◌, Bool-cases, Option-cases, inl, inr, subst, ap,
}
use kernel_genesis_os.Kernel.{
  Kernel, activable, mourant, zombie, proc_activables, proc_mourants, set_etat,
}
use kernel_genesis_os.Kernel.Result.{ok, crash, failed_assertion}
use kernel_genesis_os.Kernel.Ends.{Ends, Ends-bind, Ends-Holds}
use kernel_genesis_os.Kernel.Resume.{returns}
use kernel_genesis_os.Kernel.Queues.{add_ok, del}
use kernel_genesis_os.Ordonnanceur.{by_prio, check_canary, ordonnanceur, max_process}
use kernel_genesis_os.Processus.{wake_father, waits_for_child, then_return, proc_at}
use kernel_genesis_os.Processus.Filiation.{
  kill, kill_at, kill_other, kill_self, kill_unlinked, is_dead,
}
use kernel_genesis_os.Coherence.Changes.{deleted}
use kernel_genesis_os.Coherence.Semaphores.{KeepsGood, returned}
use kernel_genesis_os.Coherence.Processes.{free_mourant_queue-IsGood, dead-IsReady}
use kernel_genesis_os.Coherence.Scheduler.{IsGood, IsGoodBut, ordonnanceur-IsGood}
use kernel_genesis_os.Coherence.Caller.{IsMild, HasLivingFather, StaysGood, then_return-StaysGood}
use kernel_genesis_os.Coherence.Others.{deleted-IsGood, but-IsGood, queued-IsGood, other-IsGood}

-- Who can be killed: a process that does not wait for a child, and the caller if its father is not dead.
pub record IsMortal (k : Kernel) (p : ℕ) : Type 0 where
  pub queued : waits_for_child (k.procs p).etat ≡ false
  pub orphan : p ≡ k.elu → HasLivingFather k k.elu

-- A father that waits for a child is made runnable by another process.
wake_father-IsGood : (f : ℕ) (k : Kernel) → IsGood k → Ends IsGood (wake_father f k)
unfolding wake_father check_canary
wake_father-IsGood f k g = elim (Bool-cases (waits_for_child (k.procs f).etat)) [
  | inl t ↦
      let c = g.coherent in
      let u : (k.procs f).linked ≡ false = ground (arith, c.kind f) in
      let h : k.table f ≡ true = ground (arith, c.gone f) in
      let ne : f ≢ k.elu = λ i. ground (arith, g.runs) in
      let m : IsMild (λ r. record r { etat = activable }) (k.procs f) = record {
        linked = refl;
        fils = refl;
        canary = refl;
      } in
      let a = add_ok by_prio proc_activables f (set_etat f activable k) (ground arith) in
      (
        _,
        rw (t, wake_father) a,
        queued-IsGood k f (but-IsGood f k g) (λ r. record r { etat = activable }) m u h ne by_prio
            proc_activables refl,
      )
  | inr t ↦ (k, rw t refl, g)
]

kill_unlinked-IsGood :
    (pere : Option ℕ) (p : ℕ) (k : Kernel)
    → IsGoodBut p k
    → (k.procs p).linked ≡ false
    → k.table p ≡ true
    → p ≢ k.elu
    → Ends IsGood (kill_unlinked pere p k)
unfolding kill_unlinked check_canary
kill_unlinked-IsGood none p k g u t ne =
    let m : IsMild (λ r. record r { etat = mourant }) (k.procs p) = record {
      linked = refl;
      fils = refl;
      canary = refl;
    } in
    let a = add_ok by_prio proc_mourants p (set_etat p mourant k) (ground arith) in
    (
      _,
      a,
      queued-IsGood k p g (λ r. record r { etat = mourant }) m u t ne by_prio proc_mourants refl,
    )
kill_unlinked-IsGood (some f) p k g u t ne =
    let m : IsMild (λ r. record r { etat = zombie }) (k.procs p) = record {
      linked = refl;
      fils = refl;
      canary = refl;
    } in
    let o = other-IsGood k p g (λ r. record r { etat = zombie }) m u t ne in
    wake_father-IsGood f (set_etat p zombie k) (record {
      coherent = o.coherent;
      here = o.here;
      unlinked = o.unlinked;
      runs = o.runs;
      idle = o.idle;
      held = λ x n b v. ground (arith, o.held x);
    })

kill_self-IsGood :
    (pere : Option ℕ) (k : Kernel)
    → IsGood k
    → k.elu ≢ 0
    → HasLivingFather k k.elu
    → Ends IsGood (ordonnanceur (kill_self pere k.elu k))
unfolding kill_self
kill_self-IsGood none k g ne v = ordonnanceur-IsGood _ (dead-IsReady mourant k g ne refl v)
kill_self-IsGood (some f) k g ne v = ordonnanceur-IsGood _ (dead-IsReady zombie k g ne refl v)

kill_at-IsGood :
    (p : ℕ) (k : Kernel)
    → IsGood k
    → k.elu ≢ 0
    → p ≢ 0
    → k.table p ≡ true
    → IsMortal k p
    → StaysGood (kill_at p k)
unfolding kill_at kill_other del
kill_at-IsGood p k g nz np t v = elim (Bool-cases (is_dead (k.procs p).etat)) [
  | inl d ↦ ((k, returns (negsuc 0)), rw (d, kill_at) refl, g)
  | inr d ↦ elim (Bool-cases (p == k.elu)) [
    | inl i ↦
        let j : p ≡ k.elu = ground arith in
        let w = kill_self-IsGood (k.procs p).pere k g nz (v.orphan j) in
        let o : Ends IsGood (ordonnanceur (kill_self (k.procs p).pere p k)) =
          subst (λ x. Ends IsGood (ordonnanceur (kill_self (k.procs p).pere x k))) (sym j) w in
        rw (d, i, kill_at) (then_return-StaysGood (returns (pos 0)) _ o)
    | inr i ↦
        let ne : p ≢ k.elu = ground arith in
        let l : (k.procs p).linked ≡ true = ground (arith, g.held p, v.queued) in
        let b = deleted-IsGood k p g ne (λ z j. absurd (np j)) in
        let e : del p k ≡ ok (deleted p k) = rw (l, del) refl in
        let w =
          kill_unlinked-IsGood ((deleted p k).procs p).pere p (deleted p k) b (ground arith) t ne in
        rw (d, i, kill_at)
          (then_return-StaysGood (returns (pos 0)) (kill_other p k) (
            rw (e, kill_other)
              (Ends-bind (kill_unlinked ((deleted p k).procs p).pere p (deleted p k)) _ w
                (λ l h. free_mourant_queue-IsGood l h))))
  ]
]

pub proc_at-some :
    (pid : ℤ) (k : Kernel) (p : ℕ) → proc_at pid k ≡ some p → (pid ≡ pos p) × (k.table p ≡ true)
unfolding proc_at
proc_at-some (pos q) k p e = elim (Bool-cases (ltb q max_process && k.table q)) [
  | inl t ↦
      let g : ◌≡◌ {A = Option ℕ} (some q) (some p) = rw (t, proc_at) at e in
      let i : q ≡ p = ground arith in (ap pos i, subst (λ x. k.table x ≡ true) i (ground arith))
  | inr t ↦ cc (rw (t, proc_at) at e)
]
proc_at-some (negsuc n) k p e = cc

-- kill ends without a fault and leaves the kernel good, for every pid, provided that it is good
-- before, that the caller is not the idle process, that the target does not wait for a child, and,
-- if the caller is the target, that no dead process that is still in the table has it among its
-- children.
pub kill-IsGood :
    (pid : ℤ) (k : Kernel)
    → IsGood k
    → k.elu ≢ 0
    → ((p : ℕ) → pid ≡ pos p → IsMortal k p)
    → StaysGood (kill pid k)
unfolding kill
kill-IsGood pid k g ne v = elim (Bool-cases (leb_ℤ pid (pos 0))) [
  | inl t ↦ ((k, returns (negsuc 0)), rw (t, kill) refl, g)
  | inr t ↦ elim (Option-cases (proc_at pid k)) [
    | inl n ↦ ((k, returns (negsuc 0)), rw (t, n, kill) refl, g)
    | inr (p, e) ↦
        let (i, h) = proc_at-some pid k p e in
        let z : p ≢ 0 = λ x.
          let f : leb_ℤ (pos p) (pos 0) ≡ false = subst (λ y. leb_ℤ y (pos 0) ≡ false) i t in
          ground arith in
        rw (t, e, kill) (kill_at-IsGood p k g ne z h (v p i))
  ]
]

-- The assertion of queue_del stops the machine on a process that waits for a child.
pub kill-KeepsGood :
    (pid : ℤ) (k : Kernel)
    → IsGood k
    → k.elu ≢ 0
    → (pid ≡ pos k.elu → HasLivingFather k k.elu)
    → KeepsGood (kill pid k)
unfolding kill kill_at kill_other del then_return
kill-KeepsGood pid k g ne v = elim (Bool-cases (leb_ℤ pid (pos 0))) [
  | inl t ↦ rw (t, kill) (returned k _ g)
  | inr t ↦ elim (Option-cases (proc_at pid k)) [
    | inl n ↦ rw (t, n, kill) (returned k _ g)
    | inr (p, e) ↦
        let (i, h) = proc_at-some pid k p e in
        let z : p ≢ 0 = λ x.
          let f : leb_ℤ (pos p) (pos 0) ≡ false = subst (λ y. leb_ℤ y (pos 0) ≡ false) i t in
          ground arith in
        elim (Bool-cases (waits_for_child (k.procs p).etat)) [
          | inl w ↦
              let c : kill_at p k ≡ crash failed_assertion =
                ground (arith, g.runs, g.coherent.kind p) in
              rw (t, e, kill) (rw c (λ x y. cc))
          | inr w ↦
              rw (t, e, kill)
                (Ends-Holds (λ x. IsGood x.0) _
                  (kill_at-IsGood p k g ne z h
                    (record { queued = w; orphan = λ j. v (i ∙ ap pos j) })))
        ]
  ]
]
