-- ===== src/Ordonnanceur/Reap.antt =====
-- The rounds of free_mourant_queue in kernel/processus.c, by what is still to free.
use kernel_genesis_os.Base.{
  ℕ, zero, suc, ◌+◌, ◌≤◌, ◌<◌, ◌≡◌, ◌≢◌, refl, ◌∙◌, ap, Bool, false, true, none, some, List, [],
  ◌∷◌, arith, inl, inr, Option-cases, Bool-cases, All, length, length-append, ◌==◌, if◌then◌else◌,
  update,
}
use kernel_genesis_os.Queue.{queue_add}
use kernel_genesis_os.Queue.Order.{length-queue_add}
use kernel_genesis_os.Kernel.{Kernel, mourant, proc_mourants, set_etat, modify, set_queue}
use kernel_genesis_os.Kernel.Result.{Result, ok}
use kernel_genesis_os.Kernel.Queues.{add, out, without, out-eq-some, out-none}
use kernel_genesis_os.Ordonnanceur.{
  free_child, free_childs, free_mort, free_mourants, free_mourant_queue, by_prio, is_zombie,
  max_process,
}

-- How many of the pids below `n` pass a test.
count_below : ℕ → (ℕ → Bool) → ℕ
count_below zero b = 0
count_below (suc n) b = if b n then suc (count_below n b) else count_below n b

count_below-le : (n : ℕ) (b : ℕ → Bool) → count_below n b ≤ n
unfolding count_below
count_below-le zero b = omega arith
count_below-le (suc n) b = ground (arith, count_below-le n b)

count_below-same :
    (n : ℕ) (b c : ℕ → Bool) → ((p : ℕ) → p < n → c p ≡ b p) → count_below n c ≡ count_below n b
unfolding count_below
count_below-same zero b c h = refl
count_below-same (suc n) b c h =
    ground (arith, h n (omega arith), count_below-same n b c (λ p lt. h p (omega arith)))

count_below-clear :
    (n f : ℕ) (b c : ℕ → Bool)
    → f < n
    → b f ≡ true
    → c f ≡ false
    → ((p : ℕ) → p ≢ f → c p ≡ b p)
    → suc (count_below n c) ≡ count_below n b
unfolding count_below
count_below-clear zero f b c lt t u h = absurd (omega arith)
count_below-clear (suc n) f b c lt t u h = elim (Bool-cases (n == f)) [
  | inl e ↦
      let i : n ≡ f = ground arith in
      let same = count_below-same n b c (λ p l. h p (omega arith)) in ground (arith, same)
  | inr e ↦
      let i : n ≢ f = ground arith in
      ground (arith, h n i, count_below-clear n f b c (omega arith) t u h)
]

zombie_at : Kernel → ℕ → Bool
zombie_at k p = is_zombie (k.procs p).etat

-- What is still to free: the dead, and the zombies that may join them.
pub to_free : Kernel → ℕ
to_free k = length (k.queue proc_mourants) + count_below max_process (zombie_at k)

-- Children have pids of the table, and no zombie is in a queue.
pub record IsReapable (k : Kernel) : Type 0 where
  pub fils : (p : ℕ) → All (λ f. f < max_process) (k.procs p).fils
  pub unlinked : (p : ℕ) → is_zombie (k.procs p).etat ≡ true → (k.procs p).linked ≡ false

record Freed (k k' : Kernel) : Type 0 where
  reapable : IsReapable k'
  measure : to_free k' ≡ to_free k

-- A zombie child after its round, in the list of the dead.
bury : ℕ → Kernel → Kernel
bury f k =
    let k₁ : Kernel = set_etat f mourant k in
    modify f (λ r. record r { linked = true })
      (set_queue proc_mourants (queue_add (λ q. by_prio (k₁.procs q)) f (k₁.queue proc_mourants))
        k₁)

free_child-zombie :
    (f : ℕ) (k : Kernel)
    → IsReapable k
    → f < max_process
    → is_zombie (k.procs f).etat ≡ true
    → (free_child f k ≡ ok (bury f k)) × Freed k (bury f k)
unfolding free_child add bury to_free zombie_at
free_child-zombie f k r lt z = (
  ground (arith, r.unlinked f),
  record {
    reapable = record {
      fils = λ p. ground (arith, r.fils p);
      unlinked = λ p t. ground (arith, r.unlinked p);
    };
    measure = omega (
      arith,
      length-queue_add {0} (λ q. by_prio ((set_etat f mourant k).procs q)) f
          (k.queue proc_mourants),
      count_below-clear max_process f (zombie_at k) (zombie_at (bury f k)) lt z (ground arith)
          (λ p ne. ground arith),
    );
  },
)

orphan : ℕ → Kernel → Kernel
orphan f = modify f λ r. record r { pere = none }

free_child-live :
    (f : ℕ) (k : Kernel)
    → IsReapable k
    → is_zombie (k.procs f).etat ≡ false
    → (free_child f k ≡ ok (orphan f k)) × Freed k (orphan f k)
unfolding free_child orphan to_free zombie_at
free_child-live f k r z = (
  ground arith,
  record {
    reapable = record {
      fils = λ p. ground (arith, r.fils p);
      unlinked = λ p t. ground (arith, r.unlinked p);
    };
    measure = omega (
      arith,
      count_below-same max_process (zombie_at k) (zombie_at (orphan f k)) (λ p lt. ground arith),
    );
  },
)

-- A run that succeeds, with the dead and the zombies still in order.
abbrev Frees : Kernel → Result Kernel → Type 0
Frees k r = (k' : Kernel) × (r ≡ ok k') × Freed k k'

free_child_ok : (f : ℕ) (k : Kernel) → IsReapable k → f < max_process → Frees k (free_child f k)
free_child_ok f k r lt = elim (Bool-cases (is_zombie (k.procs f).etat)) [
  | inl z ↦ let h = free_child-zombie f k r lt z in (bury f k, h.0, h.1)
  | inr z ↦ let h = free_child-live f k r z in (orphan f k, h.0, h.1)
]

free_childs_ok :
    (fs : List ℕ) (k : Kernel)
    → IsReapable k
    → All (λ f. f < max_process) fs
    → Frees k (free_childs fs k)
unfolding free_childs
free_childs_ok [] k r b = (k, refl, record { reapable = r; measure = refl })
free_childs_ok (f ∷ fs) k r b =
    let (l, e, s) = free_child_ok f k r b.0 in
    let (m, e', t) = free_childs_ok fs l s.reapable b.1 in
    (m, rw e e', record { reapable = t.reapable; measure = t.measure ∙ s.measure })

free_mort_ok : (p : ℕ) (k : Kernel) → IsReapable k → Frees k (free_mort p k)
unfolding free_mort to_free zombie_at
free_mort_ok p k r =
    let (l, e, s) = free_childs_ok (k.procs p).fils k r (r.fils p) in
    (
      record l { table = update l.table p false; pids = p ∷ l.pids },
      rw e,
      record {
        reapable = record { fils = s.reapable.fils; unlinked = s.reapable.unlinked };
        measure = s.measure;
      },
    )

-- Taking one of the dead leaves one less to free.
out-less :
    (k k' : Kernel) (p : ℕ)
    → IsReapable k
    → out proc_mourants k ≡ some (p, k')
    → IsReapable k' × (suc (to_free k') ≡ to_free k)
unfolding out to_free zombie_at
out-less k k' p r o =
    let (rest, q, i) = out-eq-some proc_mourants k k' p o in
    rw i (
      record {
        fils = λ x. ground (arith, r.fils x);
        unlinked = λ x t. ground (arith, r.unlinked x);
      },
      omega (
        arith,
        ap length q,
        length-append rest (p ∷ []),
        count_below-same max_process (zombie_at k) (zombie_at (without proc_mourants p rest k))
            (λ x lt. ground arith),
      ),
    )

free_mourants_ok :
    (fuel : ℕ) (k : Kernel)
    → IsReapable k
    → to_free k < fuel
    → (k' : Kernel) × (free_mourants fuel k ≡ ok k') × IsReapable k' × (k'.queue proc_mourants ≡ [])
unfolding free_mourants
free_mourants_ok zero k r lt = absurd (omega arith)
free_mourants_ok (suc fuel) k r lt = elim (Option-cases (out proc_mourants k)) [
  | inl n ↦ (k, rw (n, free_mourants), r, out-none proc_mourants k n)
  | inr ((p, l), o) ↦
      let (s, less) = out-less k l p r o in
      let (m, e, t) = free_mort_ok p l s in
      let (k', e', u, v) = free_mourants_ok fuel m t.reapable (omega (arith, less, t.measure)) in
      (k', rw (o, free_mourants) (rw e e'), u, v)
]

-- free_mourant_queue frees all of the dead, the zombies that they orphan included: it ends by
-- itself with an empty list of the dead, and neither its fuel nor an assertion stops it, provided
-- that children have pids of the table and that no zombie is in a queue, which both hold
-- afterwards.
pub free_mourant_queue_ok :
    (k : Kernel)
    → IsReapable k
    → (k' : Kernel) × (free_mourant_queue k ≡ ok k') × IsReapable k' × (k'.queue proc_mourants ≡ [])
unfolding free_mourant_queue to_free
free_mourant_queue_ok k r =
    free_mourants_ok _ k r (omega (arith, count_below-le max_process (zombie_at k)))
