-- ===== src/Coherence/Refilling.antt =====
-- A place that becomes free while a process waits to send: preceive of kernel/files.c, and the end of psend.
use kernel_genesis_os.Base.{
  ℕ, ◌+◌, length, length-append, inl, inr, ◌<◌, ◌≡◌, refl, sym, ap, ◌∙◌, ℤ, pos, negsuc, Bool,
  false, some, List, [], ◌∷◌, ◌++◌, arith, ltb, ◌==◌,
}
use kernel_genesis_os.Queue.{queue_empty}
use kernel_genesis_os.Queue.Order.{last-cases}
use kernel_genesis_os.Kernel.{Kernel, File, Message, attente_file}
use kernel_genesis_os.Kernel.Result.{ok, ◌>>=◌}
use kernel_genesis_os.Kernel.Resume.{returns, returns_to}
use kernel_genesis_os.Kernel.Queues.{without}
use kernel_genesis_os.Ordonnanceur.Elsewhere.{SameSync}
use kernel_genesis_os.Processus.{then_return}
use kernel_genesis_os.Files.{file_at, nb_msg, add_msg, set_file}
use kernel_genesis_os.Files.Fifo.{
  preceive-at, pushed, add_msg_ok, with_messages, retire_msg-append, content, content_of,
  content-append, content-pushed, file_at-set, file_at-prepare, uncons,
}
use kernel_genesis_os.Files.Transfer.{prepare, refill, preceive, preceive_at, psend_end}
use kernel_genesis_os.Coherence.Scheduler.{IsGood}
use kernel_genesis_os.Coherence.Caller.{reschedule_if-IsGood}
use kernel_genesis_os.Coherence.Alarm.{reschedule_if-SameSync}
use kernel_genesis_os.Coherence.Messages.{resume_proc-IsGood, set_file-IsGood}
use kernel_genesis_os.Coherence.Transfer.{retire_proc-IsTaken, prepare-IsGood, set_file-IsTaken}
use kernel_genesis_os.Coherence.Handover.{retire_proc-some, resumed, resume_proc_ok, not_empty}

-- The kernel in which the message of `p` is behind the others and `p` is resumed, before a reschedule.
abbrev let_in : File → ℤ → ℕ → List ℕ → Kernel → Kernel
let_in f v p rest k =
    resumed (pos 1) p (set_file f.fid (some (pushed f v)) (without (attente_file f.fid) p rest k))

let_in-IsGood :
    (f : File) (v : ℤ) (p : ℕ) (rest : List ℕ) (k : Kernel)
    → IsGood k
    → k.queue (attente_file f.fid) ≡ rest ++ p ∷ []
    → IsGood (let_in f v p rest k)
let_in-IsGood f v p rest k g q =
    let t = retire_proc-IsTaken f k g _ (retire_proc-some f k p rest q) in
    resume_proc-IsGood (pos 1) p _ (set_file-IsTaken p f.fid (some (pushed f v)) _ t) _
      (resume_proc_ok (pos 1) p _ (ground arith))

refill_ok :
    (f : File) (v : ℤ) (p : ℕ) (rest : List ℕ) (k : Kernel)
    → IsGood k
    → k.queue (attente_file f.fid) ≡ rest ++ p ∷ []
    → nb_msg f < f.max_msg
    → (k.procs p).file_value ≡ v
    → (l : Kernel) × (refill f k ≡ ok l) × IsGood l × SameSync (let_in f v p rest k) l
unfolding refill
refill_ok f v p rest k g q lt value =
    let h = let_in-IsGood f v p rest k g q in
    let b = ltb (k.procs k.elu).prio ((let_in f v p rest k).procs p).prio in
    let (l, e, i) = reschedule_if-IsGood b (let_in f v p rest k) h in
    let w : Kernel = without (attente_file f.fid) p rest k in
    let x : (w.procs p).file_value ≡ v = ground arith in
    let a : add_msg f (w.procs p).file_value w ≡ ok (set_file f.fid (some (pushed f v)) w) =
      ap (λ m. add_msg f m w) x ∙ add_msg_ok f v w lt in
    let u = resume_proc_ok (pos 1) p (set_file f.fid (some (pushed f v)) w) (ground arith) in
    (
      l,
      rw (retire_proc-some f k p rest q, ◌>>=◌) (rw (a, ◌>>=◌) (rw (u, ◌>>=◌) e)),
      i,
      reschedule_if-SameSync b (let_in f v p rest k) l e,
    )

let_in-state :
    (f : File) (v : ℤ) (p : ℕ) (rest : List ℕ) (k : Kernel)
    → (((let_in f v p rest k).procs p).operation_status ≡ pos 1)
      × ((let_in f v p rest k).queue (attente_file f.fid) ≡ rest)
let_in-state f v p rest k = (ground arith, ground arith)

file_at-files :
    (fid : ℕ) (k l : Kernel) → l.files ≡ k.files → file_at (pos fid) l ≡ file_at (pos fid) k
unfolding file_at
file_at-files fid k l e = rw e refl

file_at-stored :
    (fid : ℕ) (f g h : File) (k : Kernel)
    → file_at (pos fid) k ≡ some h
    → f.fid ≡ fid
    → file_at (pos fid) (set_file f.fid (some g) k) ≡ some g
file_at-stored fid f g h k e own =
    ap (λ i. file_at (pos fid) (set_file i (some g) k)) own ∙ file_at-set fid h g k e

let_in-file :
    (fid : ℕ) (f h : File) (v : ℤ) (p : ℕ) (rest : List ℕ) (k : Kernel)
    → file_at (pos fid) k ≡ some h
    → f.fid ≡ fid
    → file_at (pos fid) (let_in f v p rest k) ≡ some (pushed f v)
let_in-file fid f h v p rest k e own =
    let w : Kernel = without (attente_file f.fid) p rest k in
    file_at-files fid (set_file f.fid (some (pushed f v)) w) (let_in f v p rest k) refl
    ∙ file_at-stored fid f (pushed f v) h w (file_at-files fid k w refl ∙ e) own

preceive_at-lets :
    (f : File) (ms : List Message) (m : Message) (p : ℕ) (rest : List ℕ) (b : Bool) (k : Kernel)
    → f.queue_msg ≡ ms ++ m ∷ []
    → k.queue (attente_file f.fid) ≡ rest ++ p ∷ []
    → preceive_at f b k
      ≡ then_return
          (returns_to b (pos 0) m.message)
          (refill (with_messages ms f) (set_file f.fid (some (with_messages ms f)) k))
unfolding preceive_at
preceive_at-lets f ms m p rest b k e q =
    let n : (nb_msg f == 0) ≡ false = rw (e, length-append ms (m ∷ [])) (ground arith) in
    let t : queue_empty (k.queue (attente_file f.fid)) ≡ false =
      ap queue_empty q ∙ not_empty rest p in
    rw (n, retire_msg-append f ms m k e, t) refl

-- preceive from a full message queue at which processes wait returns its oldest message without a
-- fault, provided that the kernel is good and that the queue has its own number: the message of the
-- process at the end of the waiting ones, where retire_proc takes from, goes behind those that are
-- left, so that the queue is full again, and that process has a status that reports success, so
-- that its psend returns 0 if it is the running one; the others still wait, and the kernel stays
-- good.
pub preceive-lets_in :
    (fid : ℕ) (f : File) (u v : ℤ) (us : List ℤ) (p : ℕ) (rest : List ℕ) (b : Bool) (k : Kernel)
    → IsGood k
    → file_at (pos fid) k ≡ some f
    → f.fid ≡ fid
    → nb_msg f ≡ f.max_msg
    → content f ≡ u ∷ us
    → k.queue (attente_file fid) ≡ rest ++ p ∷ []
    → (k.procs p).file_value ≡ v
    → (l : Kernel) × (f' : File) × (preceive (pos fid) b k ≡ ok (l, returns_to b (pos 0) u))
      × IsGood l
      × (file_at (pos fid) l ≡ some f')
      × (content f' ≡ us ++ v ∷ [])
      × (nb_msg f' ≡ f'.max_msg)
      × (l.queue (attente_file fid) ≡ rest)
      × (l.elu ≡ p → psend_end l ≡ ok (l, returns (pos 0)))
unfolding then_return psend_end prepare content
preceive-lets_in fid f u v us p rest b k g at own full c q value = elim (last-cases f.queue_msg) [
  | inl e ↦ cc (rw e at c)
  | inr (ms, m, e) ↦
      let h = uncons _ _ _ _ (sym (content-append ms m) ∙ ap content_of (sym e) ∙ c) in
      let k₀ = prepare (negsuc 0) k in
      let f' = with_messages ms f in
      let k₁ : Kernel = set_file f.fid (some f') k₀ in
      let g₀ = prepare-IsGood (negsuc 0) k g in
      let q₀ : k₀.queue (attente_file f.fid) ≡ rest ++ p ∷ [] =
        ap (λ i. k.queue (attente_file i)) own ∙ q in
      let t = retire_proc-IsTaken f k₀ g₀ _ (retire_proc-some f k₀ p rest q₀) in
      let x : (k₁.procs p).file_value ≡ v = ground (arith, t.other) in
      let size : nb_msg f ≡ length ms + 1 = ap length e ∙ length-append ms (m ∷ []) in
      let (l, r, i, w) =
        refill_ok f' v p rest k₁ (set_file-IsGood k.elu f.fid (some f') k₀ g₀) q₀
          (omega (arith, size, full)) x in
      let (y, z) = let_in-state f' v p rest k₁ in
      let y' = w.operation_status p ∙ y in
      (
        l,
        pushed f' v,
        preceive-at fid f b k at
            ∙ preceive_at-lets f ms m p rest b k₀ e q₀
            ∙ rw r (ap (λ s. ok (l, returns_to b (pos 0) s)) h.0),
        i,
        file_at-files fid (let_in f' v p rest k₁) l w.files
            ∙ let_in-file fid f' f' v p rest k₁
                (file_at-stored fid f f' f k₀ (file_at-prepare (pos fid) (negsuc 0) k ∙ at) own)
                own,
        content-pushed f' v ∙ ap (λ s. s ++ v ∷ []) h.1,
        omega (arith, size, full),
        ap (λ i. l.queue (attente_file i)) (sym own) ∙ w.queue_file f.fid ∙ z,
        λ j. rw (j, y') refl,
      )
]
