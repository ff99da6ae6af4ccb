-- ===== src/Coherence/Moves.antt =====
-- The small changes that every operation is made of, and that keep the kernel's data coherent.
use kernel_genesis_os.Base.{
  ℕ, suc, ◌+◌, ◌≡◌, refl, true, false, List, [], ◌∷◌, ◌++◌, ◌==◌, if◌then◌else◌, arith, ap,
}
use kernel_genesis_os.Queue.{queue_add, queue_del}
use kernel_genesis_os.Kernel.{
  Processus, Kernel, Head, proc_activables, proc_endormis, proc_mourants, proc_bloque_es,
  attente_sem, attente_file, same_head,
}
use kernel_genesis_os.Kernel.Queues.{added, without}
use kernel_genesis_os.Ordonnanceur.{check_canary}
use kernel_genesis_os.Coherence.{count, etat_of, is_single, Coherent}

pub count-queue_add :
    (key : ℕ → ℕ) (x p : ℕ) (q : List ℕ)
    → count x (queue_add key p q) ≡ (if x == p then suc (count x q) else count x q)
unfolding queue_add count
count-queue_add key x p [] = refl
count-queue_add key x p (y ∷ q) = ground (arith, count-queue_add key x p q)

pub count-queue_del :
    (x p : ℕ) (q : List ℕ) → count x (queue_del p q) ≡ (if x == p then 0 else count x q)
unfolding queue_del count
count-queue_del x p [] = ground arith
count-queue_del x p (y ∷ q) = ground (arith, count-queue_del x p q)

pub count-append : (x : ℕ) (q r : List ℕ) → count x (q ++ r) ≡ count x q + count x r
unfolding count
count-append x [] r = omega arith
count-append x (y ∷ q) r = ground (arith, count-append x q r)

pub same_head_eq : (h j : Head) → same_head h j ≡ true → h ≡ j
same_head_eq proc_activables proc_activables e = refl
same_head_eq proc_endormis proc_endormis e = refl
same_head_eq proc_mourants proc_mourants e = refl
same_head_eq proc_bloque_es proc_bloque_es e = refl
same_head_eq (attente_sem i) (attente_sem j) e = let n : i ≡ j = ground arith in ap attente_sem n
same_head_eq (attente_file i) (attente_file j) e = let n : i ≡ j = ground arith in ap attente_file n
same_head_eq h j e = cc

same_head_sym : (h j : Head) → same_head h j ≡ same_head j h
same_head_sym proc_activables j = ground arith
same_head_sym h j = ground arith

single_lem : (h j : Head) → is_single j ≡ true → etat_of h ≡ etat_of j → same_head j h ≡ true
single_lem proc_activables j s e = ground arith
single_lem proc_endormis j s e = ground arith
single_lem proc_mourants j s e = ground arith
single_lem proc_bloque_es j s e = ground arith
single_lem (attente_sem i) j s e = ground arith
single_lem (attente_file i) j s e = ground arith

module _ (k : Kernel) (c : Coherent k) (field : Processus → ℕ) (h : Head) (p : ℕ)
    (u : (k.procs p).linked ≡ false) (t : k.table p ≡ true) (e : (k.procs p).etat ≡ etat_of h) where
  -- Adding a process that is in no queue, in the state of the queue.
  pub added-Coherent : Coherent (added field h p k)
  unfolding check_canary
  added-Coherent = record {
    once = λ j x.
        ground
          (arith, count-queue_add (λ q. field (k.procs q)) x p (k.queue h), c.once j x, c.once h x);
    alone = λ i j x n. ground (
      arith,
      same_head_eq i h,
      same_head_eq j h,
      same_head_sym h j,
      c.alone i j x,
      c.alone h j x,
      c.alone i h x,
      c.once i x,
      c.once j x,
      c.once h x,
      count-queue_add (λ q. field (k.procs q)) x p (k.queue h),
    );
    place = λ j x n. ground (
      arith,
      same_head_eq j h,
      count-queue_add (λ q. field (k.procs q)) x p (k.queue h),
      c.place j x,
      c.place h x,
    );
    kept = λ j x s i m. ground (
      arith,
      e,
      same_head_eq j h,
      single_lem h j,
      count-queue_add (λ q. field (k.procs q)) x p (k.queue h),
      c.kept j x,
      c.kept h x,
    );
    kind = λ x l. ground (arith, c.kind x);
    gone = λ x g. ground (arith, c.gone x);
    fils = λ x. ground (arith, c.fils x);
    free = c.free;
    distinct = c.distinct;
    low = c.low;
    below = c.below;
    canary = λ x m. ground (arith, c.canary x);
  }

module _ (k : Kernel) (c : Coherent k) (h : Head) (p : ℕ) (rest : List ℕ)
    (q : k.queue h ≡ rest ++ p ∷ []) where
  pub last_one :
      (x : ℕ) → count x (k.queue h) ≡ (if x == p then suc (count x rest) else count x rest)
  unfolding count
  last_one x = rw q (ground (arith, count-append x rest (p ∷ [])))

  -- A process taken off a queue: it was in the table and in the state of the queue, and in no other.
  pub taken_lem : ((k.procs p).linked ≡ true) × (k.table p ≡ true) × ((k.procs p).etat ≡ etat_of h)
  taken_lem =
      let n = last_one p in
      let l : (k.procs p).linked ≡ true = ground (arith, n, c.once h p) in
      (l, ground (arith, c.gone p), ground (arith, n, c.place h p))

  pub without-Coherent : Coherent (without h p rest k)
  unfolding check_canary
  without-Coherent = record {
    once =
        λ j x. ground (arith, last_one x, c.once j x, c.alone h j x, c.once h x, same_head_sym h j);
    alone = λ i j x n. ground (
      arith,
      same_head_eq i h,
      same_head_eq j h,
      same_head_sym h j,
      same_head_sym h i,
      c.alone i j x,
      c.alone h j x,
      c.alone i h x,
      c.alone h i x,
      c.once i x,
      c.once j x,
      c.once h x,
      last_one x,
    );
    place = λ j x n. ground (arith, same_head_eq j h, last_one x, c.place j x, c.place h x);
    kept = λ j x s e m. ground (arith, same_head_eq j h, last_one x, c.kept j x, c.kept h x);
    kind = λ x l. ground (arith, c.kind x);
    gone = λ x g. ground (arith, c.gone x);
    fils = λ x. ground (arith, c.fils x);
    free = c.free;
    distinct = c.distinct;
    low = c.low;
    below = c.below;
    canary = λ x m. ground (arith, c.canary x);
  }
