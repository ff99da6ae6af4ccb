-- ===== src/Coherence/Messages.antt =====
-- kernel/files.c and the coherence of the kernel's data.
use kernel_genesis_os.Base.{
  ℕ, zero, suc, ◌≡◌, ◌≢◌, refl, Bool, true, false, Option, none, some, List, arith, ℤ, pos, negsuc,
  ltb_ℤ, leb_ℤ, ltb, ◌||◌, Bool-cases, Option-cases, inl, inr, subst,
}
use kernel_genesis_os.Queue.{queue_out}
use kernel_genesis_os.Kernel.{
  Processus, Kernel, File, activable, proc_activables, attente_file, modify,
}
use kernel_genesis_os.Kernel.Result.{Result}
use kernel_genesis_os.Kernel.Ends.{Ends-Holds, Holds, Holds-ok, Holds-bind}
use kernel_genesis_os.Kernel.Resume.{Resume}
use kernel_genesis_os.Kernel.Queues.{add-eq-ok, out, out-eq-some}
use kernel_genesis_os.Ordonnanceur.{by_prio, check_canary}
use kernel_genesis_os.Processus.{then_return, reschedule_if}
use kernel_genesis_os.Files.{
  file_at, add_fid, new_fid, set_file, resume_proc, pcreate, pdelete, preset, expel, expel_all,
  nbqueue, maxmsg,
}
use kernel_genesis_os.Coherence.Scheduler.{IsGood, IsGoodBut}
use kernel_genesis_os.Coherence.Moves.{taken_lem}
use kernel_genesis_os.Coherence.Caller.{IsMild, reschedule_if-IsGood}
use kernel_genesis_os.Coherence.Others.{
  taken-IsGood, taken-elu, queued-IsGood, aside-IsGood, emptied-IsGood,
}
use kernel_genesis_os.Coherence.Semaphores.{KeepsGood, returned}

pub set_file-IsGood :
    (skip f : ℕ) (v : Option File) (k : Kernel) → IsGoodBut skip k → IsGoodBut skip (set_file f v k)
set_file-IsGood skip f v k g = aside-IsGood skip k (set_file f v k) g (refl, refl, refl, refl, refl)

with_fids-IsGood : (fs : List ℕ) (k : Kernel) → IsGood k → IsGood (record k { fids = fs })
with_fids-IsGood fs k g =
    aside-IsGood k.elu k (record k { fids = fs }) g (refl, refl, refl, refl, refl)

pub then_return-KeepsGood :
    (r : Resume) (m : Result Kernel) → Holds IsGood m → KeepsGood (then_return r m)
unfolding then_return
then_return-KeepsGood r m h = Holds-bind m _ h (λ k g. returned k r g)

pub rescheduled : (b : Bool) (k : Kernel) → IsGood k → Holds IsGood (reschedule_if b k)
rescheduled b k g = Ends-Holds IsGood _ (reschedule_if-IsGood b k g)

-- A process that was taken off a queue: it is in the table and in no queue, and it does not run.
pub record IsTaken (p : ℕ) (k : Kernel) : Type 0 where
  pub good : IsGoodBut p k
  pub unlinked : (k.procs p).linked ≡ false
  pub here : k.table p ≡ true
  pub other : p ≢ k.elu

pub out-IsTaken :
    (f p : ℕ) (k l : Kernel) → IsGood k → out (attente_file f) k ≡ some (p, l) → IsTaken p l
out-IsTaken f p k l g o =
    let (rest, q, i) = out-eq-some (attente_file f) k l p o in
    let t = taken_lem k g.coherent (attente_file f) p rest q in
    rw i (record {
      good = taken-IsGood k g (attente_file f) p rest q refl;
      unlinked = ground arith;
      here = t.1;
      other = taken-elu k g (attente_file f) p rest q refl;
    })

-- Its operation is over.
pub resume_proc-IsGood :
    (status : ℤ) (p : ℕ) (k : Kernel) → IsTaken p k → Holds IsGood (resume_proc status p k)
unfolding resume_proc check_canary
resume_proc-IsGood status p k t k' e =
    let f : Processus → Processus =
      λ r. record r { etat = activable; fid = negsuc 0; operation_status = status } in
    let m : IsMild f (k.procs p) = record { linked = refl; fils = refl; canary = refl } in
    let (u, j) = add-eq-ok by_prio proc_activables p (modify p f k) k' e in
    rw j (queued-IsGood k p t.good f m t.unlinked t.here t.other by_prio proc_activables refl)

expel-IsGood :
    (fuel limit f : ℕ) (b : Bool) (k : Kernel)
    → IsGood k
    → Holds (λ x. IsGood x.1) (expel fuel limit f b k)
unfolding expel
expel-IsGood zero limit f b k g = λ x e. cc
expel-IsGood (suc fuel) limit f b k g = elim (Option-cases (out (attente_file f) k)) [
  | inl n ↦ rw (n, expel) (Holds-ok (λ x. IsGood x.1) (b, k) g)
  | inr ((p, l), o) ↦
      rw (o, expel)
        (Holds-bind (resume_proc (pos 0) p l) _
          (resume_proc-IsGood (pos 0) p l (out-IsTaken f p k l g o))
          (λ m h. expel-IsGood fuel limit f _ m h))
]

-- pdelete.
pub pdelete-IsGood : (fid : ℤ) (k : Kernel) → IsGood k → KeepsGood (pdelete fid k)
unfolding pdelete expel_all add_fid
pdelete-IsGood fid k g = elim (Option-cases (file_at fid k)) [
  | inl n ↦ rw (n, pdelete) (returned k _ g)
  | inr (f, e) ↦
      rw (e, pdelete)
        (Holds-bind (expel_all f k) _ (expel-IsGood _ _ f.fid false k g) (λ r h.
          then_return-KeepsGood _ _
            (rescheduled r.0 _ (with_fids-IsGood _ _ (set_file-IsGood _ f.fid none r.1 h)))))
]

-- preset.
pub preset-IsGood : (fid : ℤ) (k : Kernel) → IsGood k → KeepsGood (preset fid k)
unfolding preset expel_all
preset-IsGood fid k g = elim (Option-cases (file_at fid k)) [
  | inl n ↦ rw (n, preset) (returned k _ g)
  | inr (f, e) ↦
      rw (e, preset)
        (Holds-bind (expel_all f k) _ (expel-IsGood _ _ f.fid false k g)
          (λ r h. then_return-KeepsGood _ _ (rescheduled r.0 _ (set_file-IsGood _ f.fid _ r.1 h))))
]

new_fid-IsGood : (f : ℕ) (k l : Kernel) → IsGood k → new_fid k ≡ some (f, l) → IsGood l
unfolding new_fid
new_fid-IsGood s k l g e = elim (Option-cases (queue_out k.fids)) [
  | inl n ↦ cc (rw n at e)
  | inr ((i, rest), o) ↦
      let f : ◌≡◌ {A = Option (ℕ × Kernel)} (some (i, record k { fids = rest })) (some (s, l)) =
        rw o at e in
      let j : record k { fids = rest } ≡ l = ground arith in
      subst IsGood j (with_fids-IsGood rest k g)
]

-- pcreate.
pub pcreate-IsGood : (max_msg : ℤ) (k : Kernel) → IsGood k → KeepsGood (pcreate max_msg k)
unfolding pcreate
pcreate-IsGood max_msg k g = elim (Bool-cases (leb_ℤ max_msg (pos 0) || ltb_ℤ maxmsg max_msg)) [
  | inl t ↦ rw (t, pcreate) (returned k _ g)
  | inr t ↦ elim (Option-cases (new_fid k)) [
    | inl n ↦ rw (t, n, pcreate) (returned k _ g)
    | inr ((f, l), e) ↦
        let h = new_fid-IsGood f k l g e in
        rw (t, e, pcreate)
          (elim (Bool-cases (ltb f nbqueue)) [
            | inl a ↦ rw a (
                returned _ _ (
                  emptied-IsGood _ (attente_file f) (set_file f _ l) (set_file-IsGood _ f _ l h)
                    refl))
            | inr a ↦ rw a (returned _ _ h)
          ])
  ]
]
