-- ===== src/Coherence/Processes.antt =====
-- exit of kernel/processus.c and the coherence of the kernel's data.
use kernel_genesis_os.Base.{
  ℕ, ◌≡◌, ◌≢◌, refl, true, false, Option, none, some, arith, ℤ, Bool-cases, inl, inr,
}
use kernel_genesis_os.Kernel.{
  Etat, Processus, Kernel, elu, activable, mourant, zombie, proc_activables, modify, set_etat,
}
use kernel_genesis_os.Kernel.Ends.{Ends, Ends-bind}
use kernel_genesis_os.Kernel.Resume.{never}
use kernel_genesis_os.Kernel.Queues.{added, add_ok}
use kernel_genesis_os.Ordonnanceur.{by_prio, check_canary, free_mourant_queue}
use kernel_genesis_os.Ordonnanceur.Frame.{free_mourant_queue-SameWork}
use kernel_genesis_os.Ordonnanceur.Reap.{free_mourant_queue_ok}
use kernel_genesis_os.Processus.{exit, leave, wake_father, waits_for_child}
use kernel_genesis_os.Processus.Filiation.{is_dead}
use kernel_genesis_os.Coherence.Moves.{count-queue_add, added-Coherent}
use kernel_genesis_os.Coherence.Changes.{changed-Coherent}
use kernel_genesis_os.Coherence.Reaping.{free_mourant_queue-IsReady, IsReady-IsReapable}
use kernel_genesis_os.Coherence.Ready.{IsReady}
use kernel_genesis_os.Coherence.Scheduler.{IsGood, ordonnanceur-IsGood}
use kernel_genesis_os.Coherence.Caller.{
  IsMild, HasLivingFather, StaysGood, IsGood-IsReady, left-IsReady, then_return-StaysGood,
}
use kernel_genesis_os.Coherence.Others.{mild-IsGood}

-- free_mourant_queue on its own.
pub free_mourant_queue-IsGood : (k : Kernel) → IsGood k → Ends IsGood (free_mourant_queue k)
free_mourant_queue-IsGood k g =
    let r = IsGood-IsReady k g in
    let (l, f, _, _) = free_mourant_queue_ok k (IsReady-IsReapable k g.coherent) in
    let (s, i) = free_mourant_queue-IsReady k l r f in
    let w = free_mourant_queue-SameWork k l f in
    let e : (l.procs l.elu).etat ≡ elu = ground (arith, (w.procs k.elu).etat, g.runs) in
    (
      l,
      f,
      record {
        coherent = s.coherent;
        here = s.here;
        unlinked = ground (arith, s.unlinked);
        runs = e;
        idle = s.idle;
        held = s.held;
      },
    )

-- A father that waits for a child is made runnable, while the caller leaves.
wake_father-IsReady :
    (f : ℕ) (k : Kernel)
    → IsReady k.elu k
    → waits_for_child (k.procs k.elu).etat ≡ false
    → Ends (λ l. IsReady l.elu l) (wake_father f k)
unfolding wake_father check_canary
wake_father-IsReady f k r n = elim (Bool-cases (waits_for_child (k.procs f).etat)) [
  | inl t ↦
      let c = r.coherent in
      let u : (k.procs f).linked ≡ false = ground (arith, c.kind f) in
      let h : k.table f ≡ true = ground (arith, c.gone f) in
      let ne : f ≢ k.elu = λ i. ground arith in
      let s = changed-Coherent k f (λ r. record r { etat = activable }) c u h u (c.fils f) refl in
      let a = add_ok by_prio proc_activables f (set_etat f activable k) (ground arith) in
      (
        added by_prio proc_activables f (set_etat f activable k),
        rw (t, wake_father) a,
        record {
          coherent =
              added-Coherent (set_etat f activable k) s by_prio proc_activables f (ground arith) h
                (ground arith);
          here = r.here;
          unlinked = λ q. ground (arith, r.unlinked);
          settled = λ q. ground (arith, r.settled);
          guarded = λ z q y l. ground (arith, r.guarded (ground arith) q);
          idle = λ z. ground (
            arith,
            r.idle,
            count-queue_add (λ q. by_prio ((set_etat f activable k).procs q)) 0 f
                (k.queue proc_activables),
          );
          stays = λ z. ground (arith, r.stays);
          held = λ x l m v. ground (arith, r.held x);
        },
      )
  | inr t ↦ (k, rw t refl, r)
]

-- The caller dies, or becomes a zombie whose father is alive.
pub dead-IsReady :
    (e : Etat) (k : Kernel)
    → IsGood k
    → k.elu ≢ 0
    → is_dead e ≡ true
    → HasLivingFather k k.elu
    → IsReady k.elu (set_etat k.elu e k)
unfolding check_canary
dead-IsReady e k g ne d v =
    let m : IsMild (λ r. record r { etat = e }) (k.procs k.elu) = record {
      linked = refl;
      fils = refl;
      canary = refl;
    } in
    left-IsReady k g ne (λ r. record r { etat = e }) m (λ q. ground arith) (λ z. v)

leave-IsReady :
    (pere : Option ℕ) (k : Kernel)
    → IsGood k
    → k.elu ≢ 0
    → HasLivingFather k k.elu
    → Ends (λ l. IsReady l.elu l) (leave pere k.elu k)
unfolding leave
leave-IsReady none k g ne v = (set_etat k.elu mourant k, refl, dead-IsReady mourant k g ne refl v)
leave-IsReady (some f) k g ne v =
    wake_father-IsReady f (set_etat k.elu zombie k) (dead-IsReady zombie k g ne refl v)
      (ground arith)

-- exit ends without a fault and leaves the kernel good, provided that it is good before, that the
-- caller is not the idle process, and that no dead process of the table has it among its children.
pub exit-IsGood :
    (retval : ℤ) (k : Kernel)
    → IsGood k
    → k.elu ≢ 0
    → HasLivingFather k k.elu
    → StaysGood (exit retval k)
unfolding exit check_canary
exit-IsGood retval k g ne v =
    let f : Processus → Processus = λ r. record r { retval = retval } in
    let m : IsMild f (k.procs k.elu) = record { linked = refl; fils = refl; canary = refl } in
    let w =
      leave-IsReady (k.procs k.elu).pere (modify k.elu f k) (mild-IsGood k.elu k g k.elu f m refl)
        ne (λ q y n. ground (arith, v q)) in
    Ends-bind (leave (k.procs k.elu).pere k.elu (modify k.elu f k)) _ w
      (λ l r. then_return-StaysGood never _ (ordonnanceur-IsGood l r))
