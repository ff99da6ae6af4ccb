-- ===== src/Ordonnanceur/Elect.antt =====
-- Which process ordonnanceur elects, and what becomes of the others.
use mathlib.Core.Path.{fun_ext}
use kernel_genesis_os.Base.{
  ℕ, ◌-ℤ◌, pos, ◌/◌, ◌≤◌, ◌≡◌, refl, false, true, List, [], ◌∷◌, ◌++◌, arith, inl, inr,
  Option-cases, Bool-cases, All, ◌==◌, ◌||◌, subst,
}
use kernel_genesis_os.Queue.{queue_empty}
use kernel_genesis_os.Queue.Order.{IsSorted, IsSorted-append, queue_add-IsSorted}
use kernel_genesis_os.Kernel.{
  Kernel, Head, Etat, elu, activable, mourant, proc_activables, proc_mourants, proc_idle, same_head,
  Processus, set_etat,
}
use kernel_genesis_os.Kernel.Result.{Result, ok, >>=-eq-ok, guard-eq-ok, os_panic}
use kernel_genesis_os.Kernel.Queues.{add, out, added, add-eq-ok, without, out-eq-some}
use kernel_genesis_os.Ordonnanceur.{
  free_mourant_queue, by_prio, give_up, elect, switch, ordonnanceur, check_canary,
}
use kernel_genesis_os.Ordonnanceur.Frame.{free_mourant_queue-SameWork}

abbrev pub prio_of : Kernel → ℕ → ℕ
prio_of k p = (k.procs p).prio

-- The queue of runnable processes is in the order of the priorities.
abbrev pub IsOrdered : Kernel → Type 0
IsOrdered k = IsSorted (prio_of k) (k.queue proc_activables)

-- Nobody that waits for the processor has a higher priority than the process that has it.
abbrev pub RunsHighest : Kernel → Type 0
RunsHighest k = All (λ p. prio_of k p ≤ prio_of k k.elu) (k.queue proc_activables)

pub IsOrdered-same :
    (k k' : Kernel)
    → ((p : ℕ) → prio_of k' p ≡ prio_of k p)
    → k'.queue proc_activables ≡ k.queue proc_activables
    → IsOrdered k
    → IsOrdered k'
IsOrdered-same k k' h q s = rw (q, fun_ext h) s

-- Adding to the queue of runnable processes keeps its order.
pub add-IsOrdered :
    (p : ℕ) (k k' : Kernel) → add by_prio proc_activables p k ≡ ok k' → IsOrdered k → IsOrdered k'
add-IsOrdered p k k' e s =
    let (f, i) = add-eq-ok by_prio proc_activables p k k' e in
    let same : (q : ℕ) → prio_of (added by_prio proc_activables p k) q ≡ prio_of k q =
      λ q. ground arith in
    rw (i, fun_ext same) (queue_add-IsSorted (prio_of k) p (k.queue proc_activables) s)

-- Adding to another queue, too.
pub add-IsOrdered_other :
    (field : Processus → ℕ) (h : Head) (p : ℕ) (k k' : Kernel)
    → same_head proc_activables h ≡ false
    → add field h p k ≡ ok k'
    → IsOrdered k
    → IsOrdered k'
add-IsOrdered_other field h p k k' n e s =
    let (f, i) = add-eq-ok field h p k k' e in
    rw i (IsOrdered-same k (added field h p k) (λ q. ground arith) (ground arith) s)

set_etat-IsOrdered : (p : ℕ) (e : Etat) (k : Kernel) → IsOrdered k → IsOrdered (set_etat p e k)
set_etat-IsOrdered p e k s = IsOrdered-same k (set_etat p e k) (λ q. ground arith) refl s

unchanged-IsOrdered :
    (k k' : Kernel) → ◌≡◌ {A = Result Kernel} (ok k) (ok k') → IsOrdered k → IsOrdered k'
unchanged-IsOrdered k k' h s = let i : k ≡ k' = ground arith in subst IsOrdered i s

give_up-IsOrdered :
    (e : Etat) (p : ℕ) (k k' : Kernel) → give_up e p k ≡ ok k' → IsOrdered k → IsOrdered k'
unfolding give_up
give_up-IsOrdered elu p k k' h s = add-IsOrdered p _ k' h (set_etat-IsOrdered p activable k s)
give_up-IsOrdered activable p k k' h s = add-IsOrdered p _ k' h (set_etat-IsOrdered p activable k s)
give_up-IsOrdered mourant p k k' h s = add-IsOrdered_other by_prio proc_mourants p k k' refl h s
give_up-IsOrdered e p k k' h s = unchanged-IsOrdered k k' h s

-- The kernel in which `p` took the processor.
abbrev pub elected : ℕ → List ℕ → Kernel → Kernel
elected p rest k =
    let l = without proc_activables p rest k in
    record (set_etat p elu l) {
      elu = p;
      esp0 = (p, pos ((l.procs p).pile_size_kernel / 4) -ℤ pos 1);
    }

pub elect-eq-ok :
    (k k' : Kernel)
    → elect k ≡ ok k'
    → (p : ℕ) × (rest : List ℕ) × (k.queue proc_activables ≡ rest ++ p ∷ [])
      × (k' ≡ elected p rest k)
unfolding elect
elect-eq-ok k k' h = elim (Option-cases (out proc_activables k)) [
  | inl n ↦ cc (rw (n, elect) at h)
  | inr ((p, l), o) ↦
      let (rest, q, i) = out-eq-some proc_activables k l p o in
      let g : ◌≡◌ {A = Result Kernel} (ok (elected p rest k)) (ok k') = rw (o, i, elect) at h in
      (p, rest, q, ground arith)
]

-- elect gives the processor to a process of the highest priority in the queue.
elect-RunsHighest : (k k' : Kernel) → elect k ≡ ok k' → IsOrdered k → IsOrdered k' × RunsHighest k'
elect-RunsHighest k k' h s =
    let (p, rest, q, i) = elect-eq-ok k k' h in
    let t = IsSorted-append (prio_of k) rest p (subst (IsSorted (prio_of k)) q s) in
    let same : (r : ℕ) → prio_of (elected p rest k) r ≡ prio_of k r = λ r. ground arith in
    rw (i, fun_ext same) t

switch-RunsHighest :
    (k k' : Kernel) → switch k ≡ ok k' → IsOrdered k → IsOrdered k' × RunsHighest k'
unfolding switch
switch-RunsHighest k k' h s =
    let (_, h') = guard-eq-ok (k.elu == proc_idle || check_canary (k.procs k.elu)) os_panic _ h in
    let (l, g, e) = >>=-eq-ok (give_up (k.procs k.elu).etat k.elu k) elect h' in
    elect-RunsHighest l k' e (give_up-IsOrdered _ k.elu k l g s)

pub queue_empty-nil : (xs : List ℕ) → queue_empty xs ≡ true → xs ≡ []
queue_empty-nil [] e = refl
queue_empty-nil (x ∷ xs) e = cc

-- After ordonnanceur no process that waits for the processor has a higher priority than the one that
-- has it, and the queue is in order, provided that it was in order before.
pub ordonnanceur-RunsHighest :
    (k k' : Kernel) → IsOrdered k → ordonnanceur k ≡ ok k' → IsOrdered k' × RunsHighest k'
unfolding ordonnanceur
ordonnanceur-RunsHighest k k' s h =
    let (l, f, r) = >>=-eq-ok (free_mourant_queue k) _ h in
    let w = free_mourant_queue-SameWork k l f in
    let t = IsOrdered-same k l (λ p. (w.procs p).prio) (w.queue proc_activables refl) s in
    elim (Bool-cases (queue_empty (l.queue proc_activables))) [
      | inl n ↦
          let i : ◌≡◌ {A = Result Kernel} (ok l) (ok k') = rw n at r in
          let j : l ≡ k' = ground arith in
          rw (← j) (t, rw (queue_empty-nil (l.queue proc_activables) n) tt)
      | inr n ↦ switch-RunsHighest l k' (rw n at r) t
    ]
