-- ===== src/Processus/Blocked.antt =====
-- kill of a process that is in no queue, and chprio of the running process, in kernel/processus.c.
use kernel_genesis_os.Base.{
  ℕ, ◌≤◌, ◌<◌, ◌≡◌, ◌≢◌, ℤ, pos, ◌<ℤ◌, ltb_ℤ, true, false, List, [], ◌∷◌, arith,
}
use kernel_genesis_os.Kernel.{Kernel, attend_fils, proc_activables, modify}
use kernel_genesis_os.Kernel.Result.{crash, failed_assertion}
use kernel_genesis_os.Kernel.Queues.{del}
use kernel_genesis_os.Ordonnanceur.{ordonnanceur}
use kernel_genesis_os.Processus.{proc_at, reschedule_if, then_return}
use kernel_genesis_os.Processus.Filiation.{kill, kill_at, kill_other}
use kernel_genesis_os.Coherence.Scheduler.{IsGood}
use kernel_genesis_os.Processus.Priority.{Layout, chprio_at, top_word, prev_word}

-- In a good kernel, kill of a process of the table, other than the idle one, that waits for a child
-- stops the machine: it is in no queue, and the assertion of queue_del fails.
pub kill_unqueued :
    (p : ℕ) (k : Kernel)
    → IsGood k
    → k.table p ≡ true
    → p ≢ 0
    → (k.procs p).etat ≡ attend_fils
    → kill (pos p) k ≡ crash failed_assertion
unfolding kill kill_at kill_other del then_return proc_at
kill_unqueued p k g t ne e =
    let f : (k.procs p).linked ≡ false = ground (arith, g.coherent.kind p, e) in
    let other : p ≢ k.elu = λ i. ground (arith, g.runs, e) in
    let low : p < 50 = g.coherent.below p t in ground arith

-- Every word that the code reads as the priority at the top of the queue is an address.
pub record IsHigh (l : Layout) : Type 0 where
  pub chainage : (p : ℕ) → pos 255 <ℤ l.chainage p
  pub activables : pos 255 <ℤ l.activables

prev_word-high :
    (l : Layout) (b : ℤ) (x : ℕ) (xs : List ℕ)
    → IsHigh l
    → pos 255 <ℤ b
    → pos 255 <ℤ prev_word l b (x ∷ xs)
prev_word-high l b x [] h hb = hb
prev_word-high l b x (y ∷ ys) h hb = prev_word-high l (l.chainage x) y ys h (h.chainage x)

-- A process that changes its own priority, to at most 255, while another is runnable calls
-- ordonnanceur whatever the priorities of the others, provided that the links and the head of the
-- queue of runnable processes have addresses above 255: the code compares the new priority with
-- such an address.
pub chprio_self :
    (l : Layout) (p prio x : ℕ) (xs : List ℕ) (k : Kernel)
    → IsHigh l
    → p ≡ k.elu
    → prio ≤ 255
    → k.queue proc_activables ≡ x ∷ xs
    → chprio_at l p prio k ≡ ordonnanceur (modify p (λ r. record r { prio = prio }) k)
unfolding chprio_at reschedule_if top_word
chprio_self l p prio x xs k h e le q =
    let w = prev_word-high l l.activables x xs h h.activables in
    let t : ltb_ℤ (pos prio) (prev_word l l.activables (k.queue proc_activables)) ≡ true =
      rw q (ground (arith, w)) in
    ground (arith, t)
