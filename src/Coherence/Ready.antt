-- ===== src/Coherence/Ready.antt =====
-- What ordonnanceur of kernel/processus.c needs of its caller, and what free_childs leaves of it.
use kernel_genesis_os.Base.{
  ℕ, ◌<◌, ◌≡◌, ◌≢◌, refl, true, false, none, List, [], ◌∷◌, arith, Bool-cases, inl, inr, sym, subst,
  ◌∙◌,
}
use kernel_genesis_os.Kernel.{
  Etat, Kernel, elu, mourant, proc_mourants, proc_activables, modify, set_etat,
}
use kernel_genesis_os.Kernel.Result.{Result, ok, >>=-eq-ok}
use kernel_genesis_os.Kernel.Queues.{added, add-eq-ok}
use kernel_genesis_os.Ordonnanceur.{free_child, free_childs, by_prio, is_zombie, check_canary}
use kernel_genesis_os.Ordonnanceur.Total.{is_queued_again}
use kernel_genesis_os.Processus.Filiation.{is_dead}
use kernel_genesis_os.Coherence.{count, Coherent, is_settled}
use kernel_genesis_os.Coherence.Moves.{added-Coherent}
use kernel_genesis_os.Coherence.Changes.{changed-Coherent, touched-Coherent}

-- What ordonnanceur needs of the process that calls it: its entry of the table, a place in no queue if it
-- has to go into one. If it is a zombie, its father is alive. The idle process never blocks, and while
-- it does not run it is runnable. The others do not run, and who has to be in a queue is in one, but
-- for `skip`.
pub record IsReady (skip : ℕ) (k : Kernel) : Type 0 where
  pub coherent : Coherent k
  pub here : k.table k.elu ≡ true
  pub unlinked : is_queued_again (k.procs k.elu).etat ≡ true → (k.procs k.elu).linked ≡ false
  pub settled :
      is_queued_again (k.procs k.elu).etat ≡ false
      → is_settled (k.procs k.elu).etat (k.procs k.elu).linked ≡ true
  pub guarded :
      is_zombie (k.procs k.elu).etat ≡ true
      → (q : ℕ) → k.table q ≡ true
      → 0 < count k.elu (k.procs q).fils
      → is_dead (k.procs q).etat ≡ false
  pub idle : k.elu ≢ 0 → 0 < count 0 (k.queue proc_activables)
  pub stays : k.elu ≡ 0 → (k.procs 0).etat ≡ elu
  pub held :
      (p : ℕ)
      → p ≢ k.elu
      → p ≢ skip
      → k.table p ≡ true
      → is_settled (k.procs p).etat (k.procs p).linked ≡ true

-- What freeing others leaves of the process that calls ordonnanceur.
pub record Frees (skip : ℕ) (k k' : Kernel) : Type 0 where
  pub ready : IsReady skip k'
  pub same_elu : k'.elu ≡ k.elu
  pub same_etat : (k'.procs k.elu).etat ≡ (k.procs k.elu).etat
  pub same_table : k'.table ≡ k.table
  pub corpse :
      (q : ℕ)
      → (k.procs q).etat ≡ mourant
      → (k.procs q).linked ≡ false
      → ((k'.procs q).etat ≡ mourant) × ((k'.procs q).linked ≡ false)

pub check_canary-etat :
    (f : ℕ) (e : Etat) (k : Kernel)
    → check_canary (record (k.procs f) { etat = e }) ≡ check_canary (k.procs f)
unfolding check_canary
check_canary-etat f e k = refl

check_canary-pere :
    (f : ℕ) (k : Kernel)
    → check_canary (record (k.procs f) { pere = none }) ≡ check_canary (k.procs f)
unfolding check_canary
check_canary-pere f k = refl

-- A zombie other than the running process joins the dead.
bury-Frees :
    {s : ℕ} (f : ℕ) (k : Kernel)
    → IsReady s k
    → is_zombie (k.procs f).etat ≡ true
    → f ≢ k.elu
    → Frees s k (added by_prio proc_mourants f (set_etat f mourant k))
bury-Frees f k r z ne =
    let c = r.coherent in
    let u : (k.procs f).linked ≡ false = ground (arith, c.kind f) in
    let t : k.table f ≡ true = ground (arith, c.gone f) in
    let w =
      changed-Coherent k f (λ r. record r { etat = mourant }) c u t u (c.fils f)
        (check_canary-etat f mourant k) in
    record {
      ready = record {
        coherent =
            added-Coherent (set_etat f mourant k) w by_prio proc_mourants f (ground arith) t
              (ground arith);
        here = r.here;
        unlinked = λ q. ground (arith, r.unlinked);
        settled = λ q. ground (arith, r.settled);
        guarded = λ x q y n. ground (arith, r.guarded, r.guarded (ground arith) q);
        idle = r.idle;
        stays = λ x. ground (arith, r.stays);
        held = λ x m n t. ground (arith, r.held x);
      };
      same_elu = refl;
      same_etat = ground arith;
      same_table = refl;
      corpse = λ q m l. ground arith;
    }

-- A child that is no zombie loses its father.
orphan-Frees :
    {s : ℕ} (f : ℕ) (k : Kernel)
    → IsReady s k
    → Frees s k (modify f (λ r. record r { pere = none }) k)
orphan-Frees f k r = record {
  ready = record {
    coherent =
        touched-Coherent k f (λ r. record r { pere = none }) r.coherent refl refl refl
          (check_canary-pere f k);
    here = r.here;
    unlinked = λ q. ground (arith, r.unlinked);
    settled = λ q. ground (arith, r.settled);
    guarded = λ x q y n. ground (arith, r.guarded (ground arith) q);
    idle = r.idle;
    stays = λ x. ground (arith, r.stays);
    held = λ x m n t. ground (arith, r.held x);
  };
  same_elu = refl;
  same_etat = ground arith;
  same_table = refl;
  corpse = λ q m l. ground arith;
}

free_child-Frees :
    {s : ℕ} (f : ℕ) (k k' : Kernel)
    → IsReady s k
    → (is_zombie (k.procs k.elu).etat ≡ true → f ≢ k.elu)
    → free_child f k ≡ ok k'
    → Frees s k k'
unfolding free_child
free_child-Frees {s = s} f k k' r d e = elim (Bool-cases (is_zombie (k.procs f).etat)) [
  | inl z ↦
      let (u, i) =
        add-eq-ok by_prio proc_mourants f (set_etat f mourant k) k' (rw (z, free_child) at e) in
      let ne : f ≢ k.elu = λ x. d (subst (λ y. is_zombie (k.procs y).etat ≡ true) x z) x in
      subst (Frees s k) (sym i) (bury-Frees f k r z ne)
  | inr z ↦
      let g : ◌≡◌ {A = Result Kernel} (ok (modify f (λ r. record r { pere = none }) k)) (ok k') =
        rw (z, free_child) at e in
      let i : modify f (λ r. record r { pere = none }) k ≡ k' = ground arith in
      subst (Frees s k) i (orphan-Frees f k r)
]

Frees-trans : {s : ℕ} (k l m : Kernel) → Frees s k l → Frees s l m → Frees s k m
Frees-trans k l m a b = record {
  ready = b.ready;
  same_elu = b.same_elu ∙ a.same_elu;
  same_etat = ground (arith, a.same_elu, a.same_etat, b.same_etat);
  same_table = b.same_table ∙ a.same_table;
  corpse = λ q e l. let h = a.corpse q e l in b.corpse q h.0 h.1;
}

pub free_childs-Frees :
    {s : ℕ} (fs : List ℕ) (k k' : Kernel)
    → IsReady s k
    → (is_zombie (k.procs k.elu).etat ≡ true → count k.elu fs ≡ 0)
    → free_childs fs k ≡ ok k'
    → Frees s k k'
unfolding free_childs count
free_childs-Frees {s = s} [] k k' r d e =
    let i : k ≡ k' = ground arith in
    subst (Frees s k) i (record {
      ready = r;
      same_elu = refl;
      same_etat = refl;
      same_table = refl;
      corpse = λ q e l. (e, l);
    })
free_childs-Frees {s = s} (f ∷ fs) k k' r d e =
    let (l, a, b) = >>=-eq-ok (free_child f k) (free_childs fs) e in
    let h = free_child-Frees f k l r (λ z n. ground (arith, d)) a in
    let t = free_childs-Frees fs l k' h.ready (λ z. ground (arith, d, h.same_elu, h.same_etat)) b in
    Frees-trans k l k' h t
