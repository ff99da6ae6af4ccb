-- ===== src/Coherence/Changes.antt =====
-- Changes of processes that are in no queue, and of the table, and the coherence of the kernel's data.
use kernel_genesis_os.Base.{
  ℕ, suc, ◌<◌, ◌≡◌, true, false, List, ◌∷◌, ◌==◌, if◌then◌else◌, All, arith, update,
}
use kernel_genesis_os.Queue.{queue_del}
use kernel_genesis_os.Kernel.{Processus, Kernel, modify, mourant}
use kernel_genesis_os.Ordonnanceur.{check_canary}
use kernel_genesis_os.Coherence.{count, Coherent}
use kernel_genesis_os.Coherence.Moves.{count-queue_del}

-- A process taken off whatever queue it is in.
abbrev pub deleted : ℕ → Kernel → Kernel
deleted p k =
    modify p (λ r. record r { linked = false }) (record k { queue = λ h. queue_del p (k.queue h) })

pub deleted-Coherent : (k : Kernel) (p : ℕ) → Coherent k → Coherent (deleted p k)
unfolding check_canary
deleted-Coherent k p c = record {
  once = λ j x. ground (arith, count-queue_del x p (k.queue j), c.once j x);
  alone = λ i j x n.
      ground
        (arith, count-queue_del x p (k.queue i), count-queue_del x p (k.queue j), c.alone i j x);
  place = λ j x n. ground (arith, count-queue_del x p (k.queue j), c.place j x);
  kept = λ j x s e m. ground (arith, count-queue_del x p (k.queue j), c.kept j x);
  kind = λ x l. ground (arith, c.kind x);
  gone = λ x g. ground (arith, c.gone x);
  fils = λ x. ground (arith, c.fils x);
  free = c.free;
  distinct = c.distinct;
  low = c.low;
  below = c.below;
  canary = λ x m. ground (arith, c.canary x);
}

-- A change of the fields of a process that is in the table and in no queue.
pub changed-Coherent :
    (k : Kernel) (p : ℕ) (f : Processus → Processus)
    → Coherent k
    → (k.procs p).linked ≡ false
    → k.table p ≡ true
    → (f (k.procs p)).linked ≡ false
    → All (λ x. x < 50) (f (k.procs p)).fils
    → check_canary (f (k.procs p)) ≡ check_canary (k.procs p)
    → Coherent (modify p f k)
unfolding check_canary
changed-Coherent k p f c u t l b d = record {
  once = λ j x. ground (arith, c.once j x);
  alone = λ i j x n. ground (arith, c.alone i j x);
  place = λ j x n. ground (arith, c.place j x, c.once j x);
  kept = λ j x s e m. ground (arith, c.kept j x);
  kind = λ x m. ground (arith, c.kind x);
  gone = λ x g. ground (arith, c.gone x);
  fils = λ x. ground (arith, c.fils x);
  free = c.free;
  distinct = c.distinct;
  low = c.low;
  below = c.below;
  canary = λ x m. ground (arith, c.canary x);
}

-- A change of fields that say nothing of queues, states or children.
pub touched-Coherent :
    (k : Kernel) (p : ℕ) (f : Processus → Processus)
    → Coherent k
    → (f (k.procs p)).linked ≡ (k.procs p).linked
    → (f (k.procs p)).etat ≡ (k.procs p).etat
    → (f (k.procs p)).fils ≡ (k.procs p).fils
    → check_canary (f (k.procs p)) ≡ check_canary (k.procs p)
    → Coherent (modify p f k)
unfolding check_canary
touched-Coherent k p f c l e b d = record {
  once = λ j x. ground (arith, c.once j x);
  alone = λ i j x n. ground (arith, c.alone i j x);
  place = λ j x n. ground (arith, c.place j x, c.once j x);
  kept = λ j x s i m. ground (arith, c.kept j x, c.kept j p, e, l);
  kind = λ x m. ground (arith, c.kind x);
  gone = λ x g. ground (arith, c.gone x);
  fils = λ x. ground (arith, c.fils x);
  free = c.free;
  distinct = c.distinct;
  low = c.low;
  below = c.below;
  canary = λ x m. ground (arith, c.canary x);
}

-- A dead process that is in no queue gives its pid back.
pub freed-Coherent :
    (k : Kernel) (p : ℕ)
    → Coherent k
    → (k.procs p).linked ≡ false
    → k.table p ≡ true
    → (k.procs p).etat ≡ mourant
    → Coherent (record k { table = update k.table p false; pids = p ∷ k.pids })
unfolding count
freed-Coherent k p c u t e = record {
  once = c.once;
  alone = c.alone;
  place = c.place;
  kept = c.kept;
  kind = c.kind;
  gone = λ x g. ground (arith, c.gone x);
  fils = c.fils;
  free = λ x m. ground (arith, c.free x);
  distinct = λ x. ground (arith, c.distinct x, c.free x);
  low = λ x m. ground (arith, c.low x, c.below x);
  below = λ x m. ground (arith, c.below x);
  canary = λ x m. ground (arith, c.canary x);
}

-- A new process takes a free pid.
pub installed-Coherent :
    (k : Kernel) (p : ℕ) (rest : List ℕ) (r : Processus)
    → Coherent k
    → k.pids ≡ p ∷ rest
    → r.linked ≡ false
    → All (λ x. x < 50) r.fils
    → check_canary r ≡ true
    → Coherent (record k { procs = update k.procs p r; table = update k.table p true; pids = rest })
unfolding count
installed-Coherent k p rest r c q u b d =
    let n : (x : ℕ) → count x k.pids ≡ (if x == p then suc (count x rest) else count x rest) =
      λ x. rw q in
    record {
      once = λ j x. ground (arith, c.once j x, n p, c.free p, c.gone p);
      alone = λ i j x m. ground (arith, c.alone i j x, n p, c.free p, c.gone p);
      place = λ j x m. ground (arith, c.place j x, c.once j x, n p, c.free p, c.gone p);
      kept = λ j x s e m. ground (arith, c.kept j x, n p, c.free p, c.gone p);
      kind = λ x m. ground (arith, c.kind x);
      gone = λ x g. ground (arith, c.gone x);
      fils = λ x. ground (arith, c.fils x);
      free = λ x m. ground (arith, c.free x, n x, c.distinct x);
      distinct = λ x. ground (arith, c.distinct x, n x);
      low = λ x m. ground (arith, c.low x, n x);
      below = λ x m. ground (arith, c.below x, c.low x, n x);
      canary = λ x m. ground (arith, c.canary x);
    }
