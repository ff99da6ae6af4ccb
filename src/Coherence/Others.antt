-- ===== src/Coherence/Others.antt =====
-- What an operation does to the processes other than its caller.
use mathlib.Core.Path.{fun_ext}
use kernel_genesis_os.Base.{
  ℕ, ◌<◌, ◌≡◌, ◌≢◌, refl, true, false, List, [], ◌∷◌, ◌++◌, All, arith, sym, ap, subst, ◌∙◌,
}
use kernel_genesis_os.Kernel.{
  Processus, Kernel, Head, activable, proc_activables, modify, set_queue, same_head,
}
use kernel_genesis_os.Kernel.Queues.{added, without}
use kernel_genesis_os.Ordonnanceur.{by_prio}
use kernel_genesis_os.Coherence.{count, Coherent, etat_of, is_single}
use kernel_genesis_os.Coherence.Moves.{
  added-Coherent, count-queue_del, without-Coherent, taken_lem, count-queue_add, same_head_eq,
}
use kernel_genesis_os.Coherence.Changes.{
  deleted, deleted-Coherent, changed-Coherent, touched-Coherent,
}
use kernel_genesis_os.Coherence.Scheduler.{IsGood, IsGoodBut}
use kernel_genesis_os.Coherence.Caller.{IsMild}

module _ (k : Kernel) (g : IsGood k) (h : Head) (p : ℕ) (rest : List ℕ)
    (q : k.queue h ≡ rest ++ p ∷ []) (n : same_head h proc_activables ≡ false) where
  pub taken-elu : p ≢ k.elu
  taken-elu i = let t = (taken_lem k g.coherent h p rest q).0 in ground (arith, g.unlinked)

  pub taken-IsGood : IsGoodBut p (without h p rest k)
  taken-IsGood =
      let i = taken-elu in
      record {
        coherent = without-Coherent k g.coherent h p rest q;
        here = g.here;
        unlinked = ground (arith, g.unlinked);
        runs = ground (arith, g.runs);
        idle = λ z. ground (arith, g.idle);
        held = λ x n o t. ground (arith, g.held x);
      }

module _ (skip : ℕ) (k : Kernel) (g : IsGoodBut skip k) (p : ℕ) (f : Processus → Processus)
    (m : IsMild f (k.procs p)) where
  -- A change of a process that keeps its state.
  pub mild-IsGood : (f (k.procs p)).etat ≡ (k.procs p).etat → IsGoodBut skip (modify p f k)
  mild-IsGood e = record {
    coherent = touched-Coherent k p f g.coherent m.linked e m.fils m.canary;
    here = g.here;
    unlinked = ground (arith, m.linked, g.unlinked);
    runs = ground (arith, e, g.runs);
    idle = g.idle;
    held = λ x n o t. ground (arith, g.held x, e, m.linked);
  }

module _ (k : Kernel) (p : ℕ) (g : IsGoodBut p k) (f : Processus → Processus)
    (m : IsMild f (k.procs p)) (u : (k.procs p).linked ≡ false) (t : k.table p ≡ true)
    (ne : p ≢ k.elu) where
  -- A change of another process that is in no queue.
  pub other-IsGood : IsGoodBut p (modify p f k)
  other-IsGood = record {
    coherent =
        changed-Coherent k p f g.coherent u t (ground (arith, m.linked))
          (subst (All (λ x. x < 50)) (sym m.fils) (g.coherent.fils p)) m.canary;
    here = g.here;
    unlinked = ground (arith, g.unlinked);
    runs = ground (arith, g.runs);
    idle = g.idle;
    held = λ x n o t. ground (arith, g.held x);
  }

  -- Another process goes into the queue of its new state.
  pub queued-IsGood :
      (field : Processus → ℕ) (h : Head)
      → (f (k.procs p)).etat ≡ etat_of h
      → IsGood (added field h p (modify p f k))
  queued-IsGood field h e = record {
    coherent =
        added-Coherent (modify p f k) other-IsGood.coherent field h p (ground (arith, m.linked)) t
          (ground (arith, e));
    here = g.here;
    unlinked = ground (arith, g.unlinked);
    runs = ground (arith, g.runs);
    idle = λ z. ground (
      arith,
      g.idle,
      count-queue_add (λ q. field ((modify p f k).procs q)) 0 p (k.queue proc_activables),
    );
    held = λ x n o t. ground (arith, g.held x);
  }

-- Leaving a process out.
pub but-IsGood : (p : ℕ) (k : Kernel) → IsGood k → IsGoodBut p k
but-IsGood p k g = record {
  coherent = g.coherent;
  here = g.here;
  unlinked = g.unlinked;
  runs = g.runs;
  idle = g.idle;
  held = λ x m v t. g.held x m m t;
}

-- Two kernels with the same processes, table, free pids and queues.
pub record SameData (k k' : Kernel) : Type 0 where
  pub procs : (p : ℕ) → k'.procs p ≡ k.procs p
  pub table : k'.table ≡ k.table
  pub pids : k'.pids ≡ k.pids
  pub queue : (h : Head) → k'.queue h ≡ k.queue h

pub SameData-Coherent : (k k' : Kernel) → SameData k k' → Coherent k → Coherent k'
SameData-Coherent k k' s c = rw (fun_ext s.procs, s.table, s.pids, fun_ext s.queue) c

pub SameData-IsGood :
    (skip : ℕ) (k k' : Kernel)
    → SameData k k'
    → k'.elu ≡ k.elu
    → IsGoodBut skip k
    → IsGoodBut skip k'
SameData-IsGood skip k k' s e g = record {
  coherent = SameData-Coherent k k' s g.coherent;
  here = ground (arith, s.table, e, g.here);
  unlinked = ground (arith, s.procs k.elu, e, g.unlinked);
  runs = ground (arith, s.procs k.elu, e, g.runs);
  idle = λ z. rw (s.queue proc_activables) (g.idle (λ x. z (e ∙ x)));
  held = λ x n o t. ground (arith, g.held x, e, s.procs x, s.table);
}

-- Another process is taken off the queue that it is in.
pub deleted-IsGood :
    (k : Kernel) (p : ℕ)
    → IsGood k
    → p ≢ k.elu
    → (k.elu ≢ 0 → p ≡ 0 → count 0 (k.queue proc_activables) ≡ 0)
    → IsGoodBut p (deleted p k)
deleted-IsGood k p g ne w = record {
  coherent = deleted-Coherent k p g.coherent;
  here = g.here;
  unlinked = ground (arith, g.unlinked);
  runs = ground (arith, g.runs);
  idle = λ z. ground (arith, g.idle, w z, count-queue_del 0 p (k.queue proc_activables));
  held = λ x n o t. ground (arith, g.held x);
}

-- Adding the same process makes the same data of the same data.
pub added-SameData :
    (field : Processus → ℕ) (h : Head) (p : ℕ) (k l : Kernel)
    → SameData k l
    → SameData (added field h p k) (added field h p l)
added-SameData field h p k l s =
    let e : l.procs ≡ k.procs = fun_ext s.procs in
    let q : l.queue ≡ k.queue = fun_ext s.queue in
    record { procs = λ x. rw e refl; table = s.table; pids = s.pids; queue = λ j. rw (e, q) refl }

-- Another process goes into the queue of its state.
pub readied-IsGood :
    (k : Kernel) (p : ℕ)
    → IsGoodBut p k
    → (k.procs p).linked ≡ false
    → k.table p ≡ true
    → p ≢ k.elu
    → (field : Processus → ℕ) (h : Head) → (k.procs p).etat ≡ etat_of h
    → IsGood (added field h p k)
readied-IsGood k p g u t ne field h e =
    let m : IsMild (λ r. r) (k.procs p) = record { linked = refl; fils = refl; canary = refl } in
    let s : SameData (modify p (λ r. r) k) k = record {
      procs = λ x. ground arith;
      table = refl;
      pids = refl;
      queue = λ j. refl;
    } in
    SameData-IsGood k.elu _ _ (added-SameData field h p _ _ s) refl
      (queued-IsGood k p g (λ r. r) m u t ne field h e)

-- A process that waits is taken off its queue and made runnable.
pub woken-IsGood :
    (k : Kernel) (h : Head) (p : ℕ) (rest : List ℕ) (f : Processus → Processus)
    → IsGood k
    → k.queue h ≡ rest ++ p ∷ []
    → same_head h proc_activables ≡ false
    → IsMild f ((without h p rest k).procs p)
    → (f ((without h p rest k).procs p)).etat ≡ activable
    → IsGood (added by_prio proc_activables p (modify p f (without h p rest k)))
woken-IsGood k h p rest f g q n m e =
    let t = taken_lem k g.coherent h p rest q in
    queued-IsGood (without h p rest k) p (taken-IsGood k g h p rest q n) f m (ground arith) t.1
      (taken-elu k g h p rest q n) by_prio proc_activables e

-- A change of what is no data of the processes.
pub aside-IsGood :
    (skip : ℕ) (k k' : Kernel)
    → IsGoodBut skip k
    → (k'.procs ≡ k.procs)
      × (k'.table ≡ k.table)
      × (k'.pids ≡ k.pids)
      × (k'.queue ≡ k.queue)
      × (k'.elu ≡ k.elu)
    → IsGoodBut skip k'
aside-IsGood skip k k' g (a, b, c, d, e) =
    SameData-IsGood skip k k'
      (record { procs = λ x. ap (λ f. f x) a; table = b; pids = c; queue = λ h. ap (λ f. f h) d }) e
      g

-- A queue of which there are several is made empty.
pub emptied-IsGood :
    (skip : ℕ) (h : Head) (k : Kernel)
    → IsGoodBut skip k
    → is_single h ≡ false
    → IsGoodBut skip (set_queue h [] k)
unfolding count
emptied-IsGood skip h k g n =
    let c = g.coherent in
    record {
      coherent = record {
        once = λ j x. ground (arith, c.once j x);
        alone = λ i j x d. ground (arith, c.alone i j x);
        place = λ j x l. ground (arith, c.place j x);
        kept = λ j x s e m. ground (arith, c.kept j x, same_head_eq j h);
        kind = c.kind;
        gone = c.gone;
        fils = c.fils;
        free = c.free;
        distinct = c.distinct;
        low = c.low;
        below = c.below;
        canary = c.canary;
      };
      here = g.here;
      unlinked = g.unlinked;
      runs = g.runs;
      idle = λ z. ground (arith, g.idle);
      held = g.held;
    }
