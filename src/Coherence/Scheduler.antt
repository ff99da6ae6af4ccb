-- ===== src/Coherence/Scheduler.antt =====
-- ordonnanceur of kernel/processus.c and the coherence of the kernel's data.
use kernel_genesis_os.Base.{
  ℕ, ◌<◌, ◌≡◌, ◌≢◌, refl, true, false, List, [], ◌∷◌, ◌++◌, ◌==◌, arith, Bool-cases, inl, inr, ap,
}
use kernel_genesis_os.Queue.{queue_empty}
use kernel_genesis_os.Queue.Order.{last-cases}
use kernel_genesis_os.Kernel.{
  Etat, Kernel, elu, activable, mourant, proc_mourants, proc_activables, set_etat,
}
use kernel_genesis_os.Kernel.Result.{ok}
use kernel_genesis_os.Kernel.Queues.{added, without, add_ok, out-some}
use kernel_genesis_os.Ordonnanceur.{by_prio, give_up, elect, switch, ordonnanceur}
use kernel_genesis_os.Ordonnanceur.Elect.{elected, queue_empty-nil}
use kernel_genesis_os.Ordonnanceur.Reap.{free_mourant_queue_ok}
use kernel_genesis_os.Coherence.{count, Coherent, is_settled}
use kernel_genesis_os.Coherence.Moves.{
  added-Coherent, without-Coherent, taken_lem, last_one, count-queue_add,
}
use kernel_genesis_os.Coherence.Changes.{changed-Coherent}
use kernel_genesis_os.Coherence.Reaping.{free_mourant_queue-IsReady, IsReady-IsReapable}
use kernel_genesis_os.Coherence.Ready.{check_canary-etat, IsReady}

-- The kernel's data fit together, the running process has an entry of the table, the state ELU and a
-- place in no queue, and the idle process is runnable when it does not run; the others do not run, and who has to be in a
-- queue is in one, but for `skip`.
pub record IsGoodBut (skip : ℕ) (k : Kernel) : Type 0 where
  pub coherent : Coherent k
  pub here : k.table k.elu ≡ true
  pub unlinked : (k.procs k.elu).linked ≡ false
  pub runs : (k.procs k.elu).etat ≡ elu
  pub idle : k.elu ≢ 0 → 0 < count 0 (k.queue proc_activables)
  pub held :
      (p : ℕ)
      → p ≢ k.elu
      → p ≢ skip
      → k.table p ≡ true
      → is_settled (k.procs p).etat (k.procs p).linked ≡ true

abbrev pub IsGood : Kernel → Type 0
IsGood k = IsGoodBut k.elu k

-- The running process gave the processor up, and the idle process waits in the queue of runnable
-- processes.
record HasIdle (k : Kernel) : Type 0 where
  coherent : Coherent k
  idle : 0 < count 0 (k.queue proc_activables)
  held : (p : ℕ) → k.table p ≡ true → is_settled (k.procs p).etat (k.procs p).linked ≡ true

requeued-HasIdle :
    (k : Kernel)
    → IsReady k.elu k
    → (k.procs k.elu).linked ≡ false
    → HasIdle (added by_prio proc_activables k.elu (set_etat k.elu activable k))
requeued-HasIdle k r u =
    let p = k.elu in
    let c = r.coherent in
    let s =
      changed-Coherent k p (λ r. record r { etat = activable }) c u r.here u (c.fils p)
        (check_canary-etat p activable k) in
    record {
      coherent =
          added-Coherent (set_etat p activable k) s by_prio proc_activables p (ground arith) r.here
            (ground arith);
      idle = ground (
        arith,
        r.idle,
        count-queue_add (λ q. by_prio ((set_etat p activable k).procs q)) 0 p
            (k.queue proc_activables),
      );
      held = λ x t. ground (arith, r.held x);
    }

give_up-HasIdle :
    (e : Etat) (k : Kernel)
    → IsReady k.elu k
    → (k.procs k.elu).etat ≡ e
    → (l : Kernel) × (give_up e k.elu k ≡ ok l) × HasIdle l
unfolding give_up
give_up-HasIdle elu k r e =
    let u = r.unlinked (rw e refl) in
    (
      _,
      add_ok by_prio proc_activables k.elu (set_etat k.elu activable k) (ground arith),
      requeued-HasIdle k r u,
    )
give_up-HasIdle activable k r e =
    let u = r.unlinked (rw e refl) in
    (
      _,
      add_ok by_prio proc_activables k.elu (set_etat k.elu activable k) (ground arith),
      requeued-HasIdle k r u,
    )
give_up-HasIdle mourant k r e =
    let u = r.unlinked (rw e refl) in
    (
      _,
      add_ok by_prio proc_mourants k.elu k u,
      record {
        coherent = added-Coherent k r.coherent by_prio proc_mourants k.elu u r.here e;
        idle = ground (arith, r.idle, r.stays);
        held = λ x t. ground (arith, r.held x, e);
      },
    )
give_up-HasIdle e k r h = (
  k,
  refl,
  record {
    coherent = r.coherent;
    idle = ground (arith, r.idle, r.stays);
    held = λ x t. ground (arith, r.held x, r.settled, h);
  },
)

elected-IsGood :
    (p : ℕ) (rest : List ℕ) (k : Kernel)
    → HasIdle k
    → k.queue proc_activables ≡ rest ++ p ∷ []
    → IsGood (elected p rest k)
elected-IsGood p rest k b q =
    let c = b.coherent in
    let t = taken_lem k c proc_activables p rest q in
    let l : Kernel = without proc_activables p rest k in
    let d = without-Coherent k c proc_activables p rest q in
    let n = last_one k c proc_activables p rest q 0 in
    record {
      coherent =
          changed-Coherent l p (λ r. record r { etat = elu }) d (ground arith) t.1 (ground arith)
            (d.fils p) (check_canary-etat p elu l);
      here = t.1;
      unlinked = ground arith;
      runs = ground arith;
      idle = λ x. ground (arith, b.idle);
      held = λ x m n v. ground (arith, b.held x);
    }

elect-IsGood : (k : Kernel) → HasIdle k → (k' : Kernel) × (elect k ≡ ok k') × IsGood k'
unfolding elect count
elect-IsGood k h = elim (last-cases (k.queue proc_activables)) [
  | inl n ↦ absurd (omega (arith, h.idle, ap (count 0) n))
  | inr (ys, y, q) ↦
      (elected y ys k, rw (out-some proc_activables k y ys q, elect), elected-IsGood y ys k h q)
]

switch-IsGood : (k : Kernel) → IsReady k.elu k → (k' : Kernel) × (switch k ≡ ok k') × IsGood k'
unfolding switch
switch-IsGood k r =
    let (l, g, h) = give_up-HasIdle (k.procs k.elu).etat k r refl in
    let (k', e, s) = elect-IsGood l h in (k', rw (r.coherent.canary k.elu r.here, g) e, s)

idle-IsGood :
    (k : Kernel) → IsReady k.elu k → queue_empty (k.queue proc_activables) ≡ true → IsGood k
unfolding count
idle-IsGood k r n =
    let m : k.queue proc_activables ≡ [] = queue_empty-nil (k.queue proc_activables) n in
    let z : k.elu ≡ 0 = elim (Bool-cases (k.elu == 0)) [
      | inl t ↦ ground arith
      | inr b ↦ absurd (let lt = r.idle (ground arith) in omega (arith, lt, ap (count 0) m))
    ] in
    let e : (k.procs k.elu).etat ≡ elu = ground (arith, r.stays) in
    record {
      coherent = r.coherent;
      here = r.here;
      unlinked = r.unlinked (rw e refl);
      runs = e;
      idle = r.idle;
      held = r.held;
    }

pub ordonnanceur-IsGood :
    (k : Kernel) → IsReady k.elu k → (k' : Kernel) × (ordonnanceur k ≡ ok k') × IsGood k'
unfolding ordonnanceur
ordonnanceur-IsGood k r =
    let (l, f, _, _) = free_mourant_queue_ok k (IsReady-IsReapable k r.coherent) in
    let s = (free_mourant_queue-IsReady k l r f).0 in
    elim (Bool-cases (queue_empty (l.queue proc_activables))) [
      | inl n ↦ (l, rw (f, n, ordonnanceur), idle-IsGood l s n)
      | inr n ↦ let (k', h, g) = switch-IsGood l s in (k', rw (f, n, ordonnanceur) h, g)
    ]
