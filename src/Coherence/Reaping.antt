-- ===== src/Coherence/Reaping.antt =====
-- free_mourant_queue of kernel/processus.c and the coherence of the kernel's data.
use kernel_genesis_os.Base.{
  ℕ, zero, suc, ◌≡◌, ◌≢◌, true, false, List, [], ◌∷◌, ◌++◌, arith, Option-cases, inl, inr, sym, ap,
  subst, ◌∙◌, update,
}
use kernel_genesis_os.Kernel.{Kernel, mourant, proc_mourants}
use kernel_genesis_os.Kernel.Result.{ok, >>=-eq-ok}
use kernel_genesis_os.Kernel.Queues.{out, without, out-eq-some}
use kernel_genesis_os.Ordonnanceur.{free_childs, free_mort, free_mourants, free_mourant_queue}
use kernel_genesis_os.Ordonnanceur.Reap.{IsReapable}
use kernel_genesis_os.Coherence.{Coherent}
use kernel_genesis_os.Coherence.Moves.{without-Coherent, taken_lem}
use kernel_genesis_os.Coherence.Changes.{freed-Coherent}
use kernel_genesis_os.Coherence.Ready.{IsReady, free_childs-Frees}

-- One of the dead, taken off its list, is freed.
free_mort-IsReady :
    (p : ℕ) (k k' : Kernel)
    → IsReady p k
    → p ≢ k.elu
    → (k.procs p).etat ≡ mourant
    → (k.procs p).linked ≡ false
    → k.table p ≡ true
    → free_mort p k ≡ ok k'
    → IsReady k'.elu k' × (k'.elu ≡ k.elu)
unfolding free_mort
free_mort-IsReady p k k' r ne m u t e =
    let (l, a, b) = >>=-eq-ok (free_childs (k.procs p).fils k) _ e in
    let s = free_childs-Frees (k.procs p).fils k l r (λ z. ground (arith, r.guarded z p)) a in
    let h = s.corpse p m u in
    let c = s.ready in
    let w = freed-Coherent l p c.coherent h.1 (ground (arith, s.same_table)) h.0 in
    let i : record l { table = update l.table p false; pids = p ∷ l.pids } ≡ k' = ground arith in
    let n : p ≢ l.elu = λ x. ne (x ∙ s.same_elu) in
    (
      subst (λ x. IsReady x.elu x) i
          (record {
            coherent = w;
            here = ground (arith, c.here);
            unlinked = c.unlinked;
            settled = c.settled;
            guarded = λ x q y n. ground (arith, c.guarded x q);
            idle = c.idle;
            stays = c.stays;
            held = λ x m v t. ground (arith, c.held x);
          }),
      ap (λ x. x.elu) (sym i) ∙ s.same_elu,
    )

out-IsReady :
    (p : ℕ) (rest : List ℕ) (k : Kernel)
    → IsReady k.elu k
    → k.queue proc_mourants ≡ rest ++ p ∷ []
    → (p ≢ k.elu) × IsReady p (without proc_mourants p rest k)
out-IsReady p rest k r q =
    let c = r.coherent in
    let h = taken_lem k c proc_mourants p rest q in
    let ne : p ≢ k.elu = λ x. ground (arith, r.unlinked) in
    (
      ne,
      record {
        coherent = without-Coherent k c proc_mourants p rest q;
        here = r.here;
        unlinked = λ x. ground (arith, r.unlinked);
        settled = λ x. ground (arith, r.settled);
        guarded = λ x y o n. ground (arith, r.guarded (ground arith) y);
        idle = r.idle;
        stays = λ x. ground (arith, r.stays);
        held = λ x m v t. ground (arith, r.held x);
      },
    )

free_mourants-IsReady :
    (fuel : ℕ) (k k' : Kernel)
    → IsReady k.elu k
    → free_mourants fuel k ≡ ok k'
    → IsReady k'.elu k' × (k'.elu ≡ k.elu)
unfolding free_mourants
free_mourants-IsReady zero k k' r e = cc
free_mourants-IsReady (suc fuel) k k' r e = elim (Option-cases (out proc_mourants k)) [
  | inl n ↦
      let i : k ≡ k' = ground arith in (subst (λ x. IsReady x.elu x) i r, ap (λ x. x.elu) (sym i))
  | inr ((p, l), o) ↦
      let (rest, q, i) = out-eq-some proc_mourants k l p o in
      let h = taken_lem k r.coherent proc_mourants p rest q in
      let (ne, s) = out-IsReady p rest k r q in
      let (m, a, b) = >>=-eq-ok (free_mort p l) (free_mourants fuel) (rw (o, free_mourants) at e) in
      let (t, f) =
        free_mort-IsReady p (without proc_mourants p rest k) m s ne (ground arith) (ground arith)
          h.1 (rw i at a) in
      let (v, g) = free_mourants-IsReady fuel m k' t b in (v, g ∙ f)
]

-- free_mourant_queue keeps what ordonnanceur needs of its caller.
pub free_mourant_queue-IsReady :
    (k k' : Kernel)
    → IsReady k.elu k
    → free_mourant_queue k ≡ ok k'
    → IsReady k'.elu k' × (k'.elu ≡ k.elu)
unfolding free_mourant_queue
free_mourant_queue-IsReady k k' r e = free_mourants-IsReady _ k k' r e

pub IsReady-IsReapable : (k : Kernel) → Coherent k → IsReapable k
IsReady-IsReapable k c = record { fils = c.fils; unlinked = λ p z. ground (arith, c.kind p) }
