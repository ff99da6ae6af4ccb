-- ===== src/Ordonnanceur/Frame.antt =====
-- What freeing the dead leaves alone: everything but the list of the dead, the states of zombies,
-- the parents of orphans, the table and the free pids.
use kernel_genesis_os.Base.{
  ℕ, zero, suc, ◌≡◌, refl, ◌∙◌, false, some, List, [], ◌∷◌, arith, ◌⊎◌, inl, inr, Option-cases,
}
use kernel_genesis_os.Kernel.{Kernel, Head, zombie, mourant, proc_mourants, same_head, Processus}
use kernel_genesis_os.Kernel.Result.{ok, >>=-eq-ok}
use kernel_genesis_os.Kernel.Queues.{add, out}
use kernel_genesis_os.Ordonnanceur.{
  free_child, free_childs, free_mort, free_mourants, free_mourant_queue,
}

-- The fields of a process that the freeing of others does not touch.
pub record SameProcessus (r s : Processus) : Type 0 where
  pub prio : s.prio ≡ r.prio
  pub place : s.place ≡ r.place
  pub sec_reveille : s.sec_reveille ≡ r.sec_reveille
  pub fils : s.fils ≡ r.fils
  pub retval : s.retval ≡ r.retval
  pub fid : s.fid ≡ r.fid
  pub file_value : s.file_value ≡ r.file_value
  pub operation_status : s.operation_status ≡ r.operation_status
  pub etat : (s.etat ≡ r.etat) ⊎ ((r.etat ≡ zombie) × (s.etat ≡ mourant))

pub record SameWork (k k' : Kernel) : Type 0 where
  pub elu : k'.elu ≡ k.elu
  pub queue : (h : Head) → same_head h proc_mourants ≡ false → k'.queue h ≡ k.queue h
  pub sems : k'.sems ≡ k.sems
  pub sids : k'.sids ≡ k.sids
  pub files : k'.files ≡ k.files
  pub fids : k'.fids ≡ k.fids
  pub procs : (p : ℕ) → SameProcessus (k.procs p) (k'.procs p)

SameProcessus-refl : (r : Processus) → SameProcessus r r
SameProcessus-refl r = ground arith

SameProcessus-trans :
    (r s t : Processus) → SameProcessus r s → SameProcessus s t → SameProcessus r t
SameProcessus-trans r s t a b = ground arith

SameWork-refl : (k : Kernel) → SameWork k k
SameWork-refl k = record {
  elu = refl;
  queue = λ h e. refl;
  sems = refl;
  sids = refl;
  files = refl;
  fids = refl;
  procs = λ p. SameProcessus-refl (k.procs p);
}

SameWork-trans : (k l m : Kernel) → SameWork k l → SameWork l m → SameWork k m
SameWork-trans k l m a b = record {
  elu = b.elu ∙ a.elu;
  queue = λ h e. b.queue h e ∙ a.queue h e;
  sems = b.sems ∙ a.sems;
  sids = b.sids ∙ a.sids;
  files = b.files ∙ a.files;
  fids = b.fids ∙ a.fids;
  procs = λ p. SameProcessus-trans _ _ _ (a.procs p) (b.procs p);
}

free_child-SameWork : (f : ℕ) (k k' : Kernel) → free_child f k ≡ ok k' → SameWork k k'
unfolding free_child add
free_child-SameWork f k k' e = record {
  elu = ground arith;
  queue = λ h q. ground arith;
  sems = ground arith;
  sids = ground arith;
  files = ground arith;
  fids = ground arith;
  procs = λ p. ground arith;
}

free_childs-SameWork : (fs : List ℕ) (k k' : Kernel) → free_childs fs k ≡ ok k' → SameWork k k'
unfolding free_childs
free_childs-SameWork [] k k' e = record {
  elu = ground arith;
  queue = λ h q. ground arith;
  sems = ground arith;
  sids = ground arith;
  files = ground arith;
  fids = ground arith;
  procs = λ p. ground arith;
}
free_childs-SameWork (f ∷ fs) k k' e =
    let (l, p, q) = >>=-eq-ok (free_child f k) (free_childs fs) e in
    SameWork-trans k l k' (free_child-SameWork f k l p) (free_childs-SameWork fs l k' q)

free_mort-SameWork : (p : ℕ) (k k' : Kernel) → free_mort p k ≡ ok k' → SameWork k k'
unfolding free_mort
free_mort-SameWork p k k' e =
    let (l, childs, last) = >>=-eq-ok (free_childs (k.procs p).fils k) _ e in
    SameWork-trans k l k' (free_childs-SameWork (k.procs p).fils k l childs) (record {
      elu = ground arith;
      queue = λ h q. ground arith;
      sems = ground arith;
      sids = ground arith;
      files = ground arith;
      fids = ground arith;
      procs = λ r. ground arith;
    })

out-SameWork : (k k' : Kernel) (p : ℕ) → out proc_mourants k ≡ some (p, k') → SameWork k k'
unfolding out
out-SameWork k k' p e = record {
  elu = ground arith;
  queue = λ h q. ground arith;
  sems = ground arith;
  sids = ground arith;
  files = ground arith;
  fids = ground arith;
  procs = λ r. ground arith;
}

free_mourants-SameWork : (fuel : ℕ) (k k' : Kernel) → free_mourants fuel k ≡ ok k' → SameWork k k'
unfolding free_mourants
free_mourants-SameWork zero k k' e = cc
free_mourants-SameWork (suc fuel) k k' e = elim (Option-cases (out proc_mourants k)) [
  | inl n ↦ let i : k ≡ k' = ground arith in rw i (SameWork-refl k')
  | inr ((p, l), o) ↦
      let (m, mort, rest) =
        >>=-eq-ok (free_mort p l) (free_mourants fuel) (rw (o, free_mourants) at e) in
      SameWork-trans k l k' (out-SameWork k l p o) (
        SameWork-trans l m k' (free_mort-SameWork p l m mort)
          (free_mourants-SameWork fuel m k' rest))
]

-- free_mourant_queue changes nothing that a live process or a queue other than that of the dead
-- relies on.
pub free_mourant_queue-SameWork : (k k' : Kernel) → free_mourant_queue k ≡ ok k' → SameWork k k'
unfolding free_mourant_queue
free_mourant_queue-SameWork k k' e = free_mourants-SameWork _ k k' e
