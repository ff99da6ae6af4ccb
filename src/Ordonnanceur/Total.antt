-- ===== src/Ordonnanceur/Total.antt =====
-- The faults of ordonnanceur in kernel/processus.c, by the state of the process that it leaves.
use kernel_genesis_os.Base.{
  ℕ, zero, suc, ◌≡◌, refl, Bool, false, true, some, List, [], ◌∷◌, arith, inl, inr, Option-cases,
  Bool-cases, ◌==◌, ◌||◌, subst, length, ◌≤◌, ◌<◌, ap, sym,
}
use kernel_genesis_os.Queue.{queue_empty}
use kernel_genesis_os.Queue.Order.{last-cases, length-queue_add}
use kernel_genesis_os.Kernel.{
  Kernel, Etat, elu, activable, mourant, proc_mourants, proc_activables, proc_idle, set_etat,
}
use kernel_genesis_os.Kernel.Result.{Result, ok, >>=-eq-ok}
use kernel_genesis_os.Kernel.Queues.{add, out, added, add_ok, out-some}
use kernel_genesis_os.Ordonnanceur.{
  free_child, free_childs, free_mort, free_mourants, free_mourant_queue, by_prio, is_zombie,
  check_canary, give_up, elect, switch, ordonnanceur,
}
use kernel_genesis_os.Ordonnanceur.Frame.{free_mourant_queue-SameWork}
use kernel_genesis_os.Ordonnanceur.Elect.{elected}
use kernel_genesis_os.Ordonnanceur.Reap.{IsReapable, free_mourant_queue_ok}

-- The states in which ordonnanceur puts the process that it takes the processor from in a queue.
abbrev pub is_queued_again : Etat → Bool
is_queued_again elu = true
is_queued_again activable = true
is_queued_again mourant = true
is_queued_again _ = false

-- A process that can give the processor up: it is no zombie, it is in no queue if it has to go into
-- one; `intact` says whether its user stack has its canaries, or it is the idle process.
pub record CanLeave (intact : Bool) (p : ℕ) (k : Kernel) : Type 0 where
  pub alive : is_zombie (k.procs p).etat ≡ false
  pub unlinked : is_queued_again (k.procs p).etat ≡ true → (k.procs p).linked ≡ false
  pub canary : (p == proc_idle || check_canary (k.procs p)) ≡ intact

free_child-CanLeave :
    {b : Bool} (p f : ℕ) (k k' : Kernel) → free_child f k ≡ ok k' → CanLeave b p k → CanLeave b p k'
unfolding free_child add check_canary
free_child-CanLeave p f k k' e c = record {
  alive = ground (arith, c.alive);
  unlinked = λ t. ground (arith, c.unlinked, c.alive);
  canary = ground (arith, c.canary);
}

free_childs-CanLeave :
    {b : Bool} (p : ℕ) (fs : List ℕ) (k k' : Kernel)
    → free_childs fs k ≡ ok k'
    → CanLeave b p k
    → CanLeave b p k'
unfolding free_childs
free_childs-CanLeave {b = b} p [] k k' e c =
    let i : k ≡ k' = ground arith in subst (CanLeave b p) i c
free_childs-CanLeave {b = b} p (f ∷ fs) k k' e c =
    let (l, a, b) = >>=-eq-ok (free_child f k) (free_childs fs) e in
    free_childs-CanLeave p fs l k' b (free_child-CanLeave p f k l a c)

free_mort-CanLeave :
    {b : Bool} (p q : ℕ) (k k' : Kernel) → free_mort q k ≡ ok k' → CanLeave b p k → CanLeave b p k'
unfolding free_mort check_canary
free_mort-CanLeave p q k k' e c =
    let (l, a, b) = >>=-eq-ok (free_childs (k.procs q).fils k) _ e in
    let d = free_childs-CanLeave p (k.procs q).fils k l a c in
    record {
      alive = ground (arith, d.alive);
      unlinked = λ t. ground (arith, d.unlinked);
      canary = ground (arith, d.canary);
    }

out-CanLeave :
    {b : Bool} (p q : ℕ) (k k' : Kernel)
    → out proc_mourants k ≡ some (q, k')
    → CanLeave b p k
    → CanLeave b p k'
unfolding out check_canary
out-CanLeave p q k k' e c = record {
  alive = ground (arith, c.alive);
  unlinked = λ t. ground (arith, c.unlinked);
  canary = ground (arith, c.canary);
}

free_mourants-CanLeave :
    {b : Bool} (p fuel : ℕ) (k k' : Kernel)
    → free_mourants fuel k ≡ ok k'
    → CanLeave b p k
    → CanLeave b p k'
unfolding free_mourants
free_mourants-CanLeave {b = b} p zero k k' e c = cc
free_mourants-CanLeave {b = b} p (suc fuel) k k' e c = elim (Option-cases (out proc_mourants k)) [
  | inl n ↦ let i : k ≡ k' = ground arith in subst (CanLeave b p) i c
  | inr ((q, l), o) ↦
      let (m, mort, rest) =
        >>=-eq-ok (free_mort q l) (free_mourants fuel) (rw (o, free_mourants) at e) in
      free_mourants-CanLeave p fuel m k' rest
        (free_mort-CanLeave p q l m mort (out-CanLeave p q k l o c))
]

-- The process gives the processor up without a fault, and the queue of runnable processes is no shorter.
abbrev GivesUp : Kernel → Result Kernel → Type 0
GivesUp k r =
    (k' : Kernel) × (r ≡ ok k')
    × (length (k.queue proc_activables) ≤ length (k'.queue proc_activables))

requeued_ok :
    (p : ℕ) (k : Kernel)
    → (k.procs p).linked ≡ false
    → GivesUp k (add by_prio proc_activables p (set_etat p activable k))
requeued_ok p k u = (
  added by_prio proc_activables p (set_etat p activable k),
  add_ok by_prio proc_activables p (set_etat p activable k) (ground arith),
  omega (
    arith,
    length-queue_add (λ q. by_prio ((set_etat p activable k).procs q)) p (k.queue proc_activables),
  ),
)

give_up_ok :
    (e : Etat) (p : ℕ) (k : Kernel)
    → (is_queued_again e ≡ true → (k.procs p).linked ≡ false)
    → GivesUp k (give_up e p k)
unfolding give_up
give_up_ok elu p k u = requeued_ok p k (u refl)
give_up_ok activable p k u = requeued_ok p k (u refl)
give_up_ok mourant p k u =
    (added by_prio proc_mourants p k, add_ok by_prio proc_mourants p k (u refl), omega arith)
give_up_ok e p k u = (k, refl, omega arith)

elect_ok : (k : Kernel) → 0 < length (k.queue proc_activables) → (k' : Kernel) × (elect k ≡ ok k')
unfolding elect
elect_ok k lt = elim (last-cases (k.queue proc_activables)) [
  | inl n ↦ absurd (omega (arith, lt, ap length n))
  | inr (ys, y, h) ↦ (elected y ys k, rw (out-some proc_activables k y ys h, elect))
]

switch_ok :
    (k : Kernel)
    → CanLeave true k.elu k
    → 0 < length (k.queue proc_activables)
    → (k' : Kernel) × (switch k ≡ ok k')
unfolding switch
switch_ok k c lt =
    let (l, g, le) = give_up_ok (k.procs k.elu).etat k.elu k c.unlinked in
    let (k', e) = elect_ok l (omega arith) in (k', rw (c.canary, g) e)

nonempty : (q : List ℕ) → queue_empty q ≡ false → 0 < length q
nonempty [] e = cc
nonempty (x ∷ xs) e = omega arith

pub ordonnanceur-runs :
    (k : Kernel) → IsReapable k → CanLeave true k.elu k → (k' : Kernel) × (ordonnanceur k ≡ ok k')
unfolding ordonnanceur free_mourant_queue
ordonnanceur-runs k r c =
    let (l, f, _, _) = free_mourant_queue_ok k r in
    let w = free_mourant_queue-SameWork k l f in
    let d = free_mourants-CanLeave k.elu _ k l f c in
    elim (Bool-cases (queue_empty (l.queue proc_activables))) [
      | inl n ↦ (l, rw (f, n, ordonnanceur))
      | inr n ↦
          let (k', h) = switch_ok l (subst (λ p. CanLeave true p l) (sym w.elu) d) (nonempty _ n) in
          (k', rw (f, n, ordonnanceur) h)
    ]
