-- ===== src/Coherence/Priority.antt =====
-- chprio of kernel/processus.c and the coherence of the kernel's data.
use kernel_genesis_os.Base.{
  ℕ, ◌≡◌, ◌≢◌, refl, true, some, ◌==◌, ◌||◌, arith, ℤ, pos, ltb_ℤ, leb_ℤ, pos_part, Bool-cases,
  Option-cases, inl, inr,
}
use kernel_genesis_os.Kernel.{
  Etat, Processus, Kernel, Head, activable, attend_file, proc_activables, attente_file, modify,
}
use kernel_genesis_os.Kernel.Result.{ok}
use kernel_genesis_os.Kernel.Ends.{Ends, Ends-Holds, Holds, Holds-ok}
use kernel_genesis_os.Kernel.Resume.{returns}
use kernel_genesis_os.Kernel.Queues.{add, added, add_ok, del}
use kernel_genesis_os.Ordonnanceur.{by_prio, check_canary, is_zombie}
use kernel_genesis_os.Processus.{proc_at, prio_max}
use kernel_genesis_os.Processus.Priority.{Layout, fid_file, requeue, chprio_at, chprio}
use kernel_genesis_os.Coherence.{etat_of}
use kernel_genesis_os.Coherence.Changes.{deleted}
use kernel_genesis_os.Coherence.Kill.{proc_at-some}
use kernel_genesis_os.Coherence.Scheduler.{IsGood}
use kernel_genesis_os.Coherence.Caller.{IsMild, reschedule_if-IsGood}
use kernel_genesis_os.Coherence.Others.{deleted-IsGood, mild-IsGood, readied-IsGood}
use kernel_genesis_os.Coherence.Semaphores.{KeepsGood, returned}
use kernel_genesis_os.Coherence.Messages.{then_return-KeepsGood, rescheduled}

-- A process that waits at a message queue has the number of one that exists.
abbrev pub HasFile : Kernel → ℕ → Type 0
HasFile k p = (k.procs p).etat ≡ attend_file → (f : ℕ) × (fid_file (k.procs p).fid k ≡ some f)

-- A process in a queue is taken off it and put in the queue of its state again.
moved-IsGood :
    (k : Kernel) (p : ℕ)
    → IsGood k
    → p ≢ k.elu
    → p ≢ 0
    → (k.procs p).linked ≡ true
    → k.table p ≡ true
    → (h : Head) → (k.procs p).etat ≡ etat_of h
    → (l : Kernel) × (del p k ≡ ok (deleted p k))
      × (add by_prio h p (deleted p k) ≡ ok l)
      × IsGood l
unfolding del
moved-IsGood k p g ne nz l t h e =
    let b = deleted-IsGood k p g ne (λ z j. absurd (nz j)) in
    let a = add_ok by_prio h p (deleted p k) (ground arith) in
    (
      added by_prio h p (deleted p k),
      rw l refl,
      a,
      readied-IsGood (deleted p k) p b (ground arith) t ne by_prio h (ground (arith, e)),
    )

requeue-IsGood :
    (e : Etat) (p : ℕ) (k : Kernel)
    → IsGood k
    → p ≢ k.elu
    → p ≢ 0
    → k.table p ≡ true
    → HasFile k p
    → (k.procs p).etat ≡ e
    → Ends IsGood (requeue e p k)
unfolding requeue
requeue-IsGood activable p k g ne nz t h e =
    let (l, d, a, w) = moved-IsGood k p g ne nz (ground (arith, g.held p)) t proc_activables e in
    rw (d, a) (reschedule_if-IsGood _ l w)
requeue-IsGood attend_file p k g ne nz t h e =
    let (f, i) = h e in
    let (l, d, a, w) = moved-IsGood k p g ne nz (ground (arith, g.held p)) t (attente_file f) e in
    (l, rw (i, requeue) (rw d a), w)
requeue-IsGood e p k g ne nz t h i = (k, refl, g)

differ : {e : Etat} → e ≡ activable → e ≢ attend_file
differ h i = cc

-- With a number that no message queue has, the assertion stops the machine.
requeue-KeepsGood :
    (e : Etat) (p : ℕ) (k : Kernel)
    → IsGood k
    → p ≢ k.elu
    → p ≢ 0
    → k.table p ≡ true
    → (k.procs p).etat ≡ e
    → Holds IsGood (requeue e p k)
unfolding requeue
requeue-KeepsGood attend_file p k g ne nz t e = elim (Option-cases (fid_file (k.procs p).fid k)) [
  | inl n ↦ rw (n, requeue) (λ x h. cc)
  | inr (f, i) ↦ Ends-Holds IsGood _ (requeue-IsGood attend_file p k g ne nz t (λ y. (f, i)) e)
]
requeue-KeepsGood activable p k g ne nz t e =
    Ends-Holds IsGood _ (requeue-IsGood activable p k g ne nz t (λ y. absurd (differ e y)) e)
requeue-KeepsGood e p k g ne nz t i = Holds-ok IsGood k g

-- chprio.
pub chprio-IsGood :
    (l : Layout) (pid prio : ℤ) (k : Kernel) → IsGood k → KeepsGood (chprio l pid prio k)
unfolding chprio chprio_at check_canary
chprio-IsGood l pid prio k g =
    elim (Bool-cases (leb_ℤ pid (pos 0) || leb_ℤ prio (pos 0) || ltb_ℤ prio_max prio)) [
      | inl t ↦ rw (t, chprio) (returned k _ g)
      | inr t ↦ elim (Option-cases (proc_at pid k)) [
        | inl n ↦ rw (t, n, chprio) (returned k _ g)
        | inr (p, e) ↦ elim (Bool-cases (is_zombie (k.procs p).etat)) [
          | inl z ↦ rw (t, e, z, chprio) (returned k _ g)
          | inr z ↦
              let f : Processus → Processus = λ r. record r { prio = pos_part prio } in
              let m : IsMild f (k.procs p) = record { linked = refl; fils = refl; canary = refl } in
              let b = mild-IsGood k.elu k g p f m refl in
              let (i, v) = proc_at-some pid k p e in
              let nz : p ≢ 0 = λ x.
                let y : pid ≡ pos 0 = ground arith in
                let w : leb_ℤ pid (pos 0) ≡ true = rw y refl in ground (arith, w) in
              rw (t, e, z, chprio)
                (then_return-KeepsGood (returns (pos (k.procs p).prio)) _
                  (elim (Bool-cases (p == k.elu)) [
                    | inl s ↦ rw (s, chprio_at) (rescheduled _ _ b)
                    | inr s ↦
                        rw (s, chprio_at)
                          (requeue-KeepsGood _ p (modify p f k) b (ground arith) nz v refl)
                  ]))
        ]
      ]
    ]
