-- ===== src/Coherence/Handover.antt =====
-- A message that is sent while a process waits for one: psend of kernel/files.c, and the end of preceive.
use kernel_genesis_os.Base.{
  ℕ, ◌≡◌, refl, sym, ap, ◌∙◌, ℤ, pos, negsuc, Bool, false, some, List, [], ◌∷◌, ◌++◌, arith, ltb,
}
use kernel_genesis_os.Queue.{queue_empty}
use kernel_genesis_os.Kernel.{Kernel, File, attente_file, proc_activables, modify, activable}
use kernel_genesis_os.Kernel.Result.{ok, ◌>>=◌}
use kernel_genesis_os.Kernel.Resume.{returns, returns_to}
use kernel_genesis_os.Kernel.Queues.{without, out-some, added, add_ok}
use kernel_genesis_os.Ordonnanceur.{by_prio}
use kernel_genesis_os.Ordonnanceur.Elsewhere.{SameSync}
use kernel_genesis_os.Processus.{then_return}
use kernel_genesis_os.Files.{file_at, nb_msg, retire_proc, resume_proc}
use kernel_genesis_os.Files.Fifo.{psend-at}
use kernel_genesis_os.Files.Transfer.{prepare, hand_over, psend, psend_at, preceive_end}
use kernel_genesis_os.Coherence.Scheduler.{IsGood}
use kernel_genesis_os.Coherence.Caller.{reschedule_if-IsGood}
use kernel_genesis_os.Coherence.Alarm.{reschedule_if-SameSync}
use kernel_genesis_os.Coherence.Messages.{resume_proc-IsGood}
use kernel_genesis_os.Coherence.Transfer.{retire_proc-IsTaken, with_value-IsTaken, prepare-IsGood}

pub retire_proc-some :
    (f : File) (k : Kernel) (p : ℕ) (rest : List ℕ)
    → k.queue (attente_file f.fid) ≡ rest ++ p ∷ []
    → retire_proc f k ≡ ok (p, without (attente_file f.fid) p rest k)
unfolding retire_proc
retire_proc-some f k p rest q = rw (out-some (attente_file f.fid) k p rest q, retire_proc) refl

-- The kernel after `p` was resumed.
abbrev pub resumed : ℤ → ℕ → Kernel → Kernel
resumed status p k =
    added by_prio proc_activables p
      (modify p (λ r. record r { etat = activable; fid = negsuc 0; operation_status = status }) k)

pub resume_proc_ok :
    (status : ℤ) (p : ℕ) (k : Kernel)
    → (k.procs p).linked ≡ false
    → resume_proc status p k ≡ ok (resumed status p k)
unfolding resume_proc
resume_proc_ok status p k n = add_ok by_prio proc_activables p _ (ground arith)

-- The kernel in which `p` has its message, before a reschedule.
abbrev given : File → ℤ → ℕ → List ℕ → Kernel → Kernel
given f v p rest k =
    resumed (pos 1) p
      (modify p (λ r. record r { file_value = v }) (without (attente_file f.fid) p rest k))

given-IsGood :
    (f : File) (v : ℤ) (p : ℕ) (rest : List ℕ) (k : Kernel)
    → IsGood k
    → k.queue (attente_file f.fid) ≡ rest ++ p ∷ []
    → IsGood (given f v p rest k)
given-IsGood f v p rest k g q =
    let t = retire_proc-IsTaken f k g _ (retire_proc-some f k p rest q) in
    resume_proc-IsGood (pos 1) p _ (with_value-IsTaken p v _ t) _
      (resume_proc_ok (pos 1) p _ (ground arith))

hand_over_ok :
    (f : File) (v : ℤ) (p : ℕ) (rest : List ℕ) (k : Kernel)
    → IsGood k
    → k.queue (attente_file f.fid) ≡ rest ++ p ∷ []
    → (l : Kernel) × (hand_over f v k ≡ ok l) × IsGood l × SameSync (given f v p rest k) l
unfolding hand_over
hand_over_ok f v p rest k g q =
    let h = given-IsGood f v p rest k g q in
    let b = ltb (k.procs k.elu).prio ((given f v p rest k).procs p).prio in
    let (l, e, i) = reschedule_if-IsGood b (given f v p rest k) h in
    let u =
      resume_proc_ok (pos 1) p
        (modify p (λ r. record r { file_value = v }) (without (attente_file f.fid) p rest k))
        (ground arith) in
    (
      l,
      rw (retire_proc-some f k p rest q, ◌>>=◌) (rw (u, ◌>>=◌) e),
      i,
      reschedule_if-SameSync b (given f v p rest k) l e,
    )

pub not_empty : (rest : List ℕ) (p : ℕ) → queue_empty (rest ++ p ∷ []) ≡ false
not_empty [] p = refl
not_empty (r ∷ rest) p = refl

psend_at-hands :
    (f : File) (v : ℤ) (p : ℕ) (rest : List ℕ) (k : Kernel)
    → nb_msg f ≡ 0
    → k.queue (attente_file f.fid) ≡ rest ++ p ∷ []
    → psend_at f v k ≡ then_return (returns (pos 0)) (hand_over f v k)
unfolding psend_at
psend_at-hands f v p rest k n q =
    let e : queue_empty (k.queue (attente_file f.fid)) ≡ false =
      ap queue_empty q ∙ not_empty rest p in
    rw (n, e) refl

file_value-given :
    (f : File) (v : ℤ) (p : ℕ) (rest : List ℕ) (k : Kernel)
    → (((given f v p rest k).procs p).file_value ≡ v)
      × (((given f v p rest k).procs p).operation_status ≡ pos 1)
      × ((given f v p rest k).queue (attente_file f.fid) ≡ rest)
file_value-given f v p rest k = (ground arith, ground arith, ground arith)

-- psend to an empty message queue at which processes wait returns 0 without a fault, provided that
-- the kernel is good and that the queue has its own number: the process at the end of the waiting
-- ones, where retire_proc takes from, has the message and a status that reports success, so that
-- its preceive ends with that message if it is the running one; the others still wait, and the
-- kernel stays good.
pub psend-hands_over :
    (fid : ℕ) (f : File) (v : ℤ) (p : ℕ) (rest : List ℕ) (k : Kernel)
    → IsGood k
    → file_at (pos fid) k ≡ some f
    → f.fid ≡ fid
    → nb_msg f ≡ 0
    → k.queue (attente_file fid) ≡ rest ++ p ∷ []
    → (l : Kernel) × (psend (pos fid) v k ≡ ok (l, returns (pos 0)))
      × IsGood l
      × (l.queue (attente_file fid) ≡ rest)
      × ((l.procs p).file_value ≡ v)
      × ((l.procs p).operation_status ≡ pos 1)
      × ((wanted : Bool) → l.elu ≡ p → preceive_end wanted l ≡ ok (l, returns_to wanted (pos 0) v))
unfolding then_return preceive_end prepare
psend-hands_over fid f v p rest k g at own n q =
    let k₀ = prepare v k in
    let q₀ : k₀.queue (attente_file f.fid) ≡ rest ++ p ∷ [] =
      ap (λ i. k.queue (attente_file i)) own ∙ q in
    let (l, e, h, w) = hand_over_ok f v p rest k₀ (prepare-IsGood v k g) q₀ in
    let (x, y, z) = file_value-given f v p rest k₀ in
    let x' = w.file_value p ∙ x in
    let y' = w.operation_status p ∙ y in
    (
      l,
      psend-at fid f v k at ∙ psend_at-hands f v p rest k₀ n q₀ ∙ rw e refl,
      h,
      ap (λ i. l.queue (attente_file i)) (sym own) ∙ w.queue_file f.fid ∙ z,
      x',
      y',
      λ wanted i. rw (i, x', y') refl,
    )
