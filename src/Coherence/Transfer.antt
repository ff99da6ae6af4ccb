-- ===== src/Coherence/Transfer.antt =====
-- psend and preceive of kernel/files.c and the coherence of the kernel's data.
use mathlib.Core.Path.{fun_ext}
use kernel_genesis_os.Base.{
  ℕ, ◌≡◌, ◌≢◌, refl, Bool, true, false, Option, arith, ℤ, pos, negsuc, ltb, ◌&&◌, ◌==◌, not,
  Bool-cases, Option-cases, inl, inr, subst, sym, ap, ◌∙◌, if◌then◌else◌,
}
use kernel_genesis_os.Queue.{queue_out, queue_empty, queue_add}
use kernel_genesis_os.Kernel.{Processus, Kernel, File, attend_file, attente_file, modify, same_head}
use kernel_genesis_os.Kernel.Result.{ok, guard-eq-ok, failed_assertion}
use kernel_genesis_os.Kernel.Ends.{Ends-Holds, Holds, Holds-ok, Holds-bind, ok-injective}
use kernel_genesis_os.Kernel.Resume.{Resume, after_psend, after_preceive}
use kernel_genesis_os.Kernel.Queues.{add, added, add-eq-ok, out}
use kernel_genesis_os.Ordonnanceur.{by_prio, check_canary}
use kernel_genesis_os.Files.{
  file_at, nb_msg, set_file, add_msg, retire_msg, retire_proc, add_proc, resume_proc,
}
use kernel_genesis_os.Files.Transfer.{
  prepare, hand_over, sleep, psend_at, psend, refill, preceive_at, preceive,
}
use kernel_genesis_os.Coherence.Ready.{IsReady}
use kernel_genesis_os.Coherence.Scheduler.{IsGood, ordonnanceur-IsGood}
use kernel_genesis_os.Coherence.Caller.{IsMild, asleep-IsReady}
use kernel_genesis_os.Coherence.Others.{mild-IsGood}
use kernel_genesis_os.Coherence.Semaphores.{KeepsGood, returned}
use kernel_genesis_os.Coherence.Messages.{
  IsTaken, out-IsTaken, resume_proc-IsGood, rescheduled, then_return-KeepsGood, set_file-IsGood,
}

pub retire_proc-IsTaken :
    (f : File) (k : Kernel) → IsGood k → Holds (λ r. IsTaken r.0 r.1) (retire_proc f k)
unfolding retire_proc
retire_proc-IsTaken f k g = elim (Option-cases (out (attente_file f.fid) k)) [
  | inl n ↦ rw (n, retire_proc) (λ x e. cc)
  | inr ((p, l), o) ↦
      rw (o, retire_proc) (Holds-ok (λ r. IsTaken r.0 r.1) (p, l) (out-IsTaken f.fid p k l g o))
]

pub with_value-IsTaken :
    (p : ℕ) (value : ℤ) (k : Kernel)
    → IsTaken p k
    → IsTaken p (modify p (λ r. record r { file_value = value }) k)
unfolding check_canary
with_value-IsTaken p value k t =
    let f : Processus → Processus = λ r. record r { file_value = value } in
    let m : IsMild f (k.procs p) = record { linked = refl; fils = refl; canary = refl } in
    record {
      good = mild-IsGood p k t.good p f m refl;
      unlinked = ground (arith, t.unlinked);
      here = t.here;
      other = t.other;
    }

pub prepare-IsGood : (value : ℤ) (k : Kernel) → IsGood k → IsGood (prepare value k)
unfolding prepare check_canary
prepare-IsGood value k g =
    let f : Processus → Processus =
      λ r. record r { file_value = value; operation_status = pos 1 } in
    let m : IsMild f (k.procs k.elu) = record { linked = refl; fils = refl; canary = refl } in
    mild-IsGood k.elu k g k.elu f m refl

hand_over-IsGood :
    (f : File) (message : ℤ) (k : Kernel) → IsGood k → Holds IsGood (hand_over f message k)
unfolding hand_over
hand_over-IsGood f message k g = Holds-bind (retire_proc f k) _ (retire_proc-IsTaken f k g) (λ r t.
    Holds-bind (resume_proc (pos 1) r.0 (modify r.0 (λ x. record x { file_value = message }) r.1)) _
      (resume_proc-IsGood (pos 1) r.0 _ (with_value-IsTaken r.0 message r.1 t))
      (λ l h. rescheduled _ l h))

waiting : ℕ → Processus → Processus
waiting f r = record r { fid = pos f; etat = attend_file }

-- The order in which add_proc sets the state and adds the process does not matter.
add_proc_order :
    (f : ℕ) (k : Kernel)
    → added by_prio (attente_file f) k.elu (modify k.elu (waiting f) k)
      ≡ modify k.elu (waiting f) (added by_prio (attente_file f) k.elu k)
unfolding waiting
add_proc_order f k =
    let l : Kernel = added by_prio (attente_file f) k.elu (modify k.elu (waiting f) k) in
    let m : Kernel = modify k.elu (waiting f) (added by_prio (attente_file f) k.elu k) in
    let keys : (λ q. by_prio ((modify k.elu (waiting f) k).procs q)) ≡ (λ q. by_prio (k.procs q)) =
      fun_ext λ q. ground arith in
    let procs : l.procs ≡ m.procs = fun_ext λ x. ground arith in
    let queue : l.queue ≡ m.queue =
      ap
        (λ key. λ h.
          if same_head h (attente_file f)
          then queue_add key k.elu (k.queue (attente_file f))
          else k.queue h)
        keys in
    ap (λ p. record k { procs = p; queue = l.queue }) procs
    ∙ ap (λ q. record k { procs = m.procs; queue = q }) queue

add_proc-IsReady :
    (f : File) (k : Kernel) → IsGood k → k.elu ≢ 0 → Holds (λ l. IsReady l.elu l) (add_proc f k)
unfolding add_proc waiting check_canary
add_proc-IsReady f k g ne =
    let h = attente_file f.fid in
    let m : IsMild (waiting f.fid) (k.procs k.elu) = record {
      linked = refl;
      fils = refl;
      canary = refl;
    } in
    let w = asleep-IsReady k g ne (waiting f.fid) m by_prio h refl refl in
    let r = subst (λ x. IsReady x.elu x) (add_proc_order f.fid k) w in
    Holds-bind (add by_prio h k.elu k) _ (λ l e. (add-eq-ok by_prio h k.elu k l e).1)
      (λ l i. Holds-ok (λ x. IsReady x.elu x) _ (rw i r))

sleep-IsGood : (f : File) (r : Resume) (k : Kernel) → IsGood k → k.elu ≢ 0 → KeepsGood (sleep f r k)
unfolding sleep
sleep-IsGood f r k g ne =
    Holds-bind (add_proc f k) _ (add_proc-IsReady f k g ne)
      (λ l h. then_return-KeepsGood r _ (Ends-Holds IsGood _ (ordonnanceur-IsGood l h)))

add_msg-eq-ok :
    (f : File) (message : ℤ) (k l : Kernel)
    → add_msg f message k ≡ ok l
    → (v : Option File) × (l ≡ set_file f.fid v k)
unfolding add_msg
add_msg-eq-ok f message k l e =
    let (_, e') = guard-eq-ok (ltb (nb_msg f) f.max_msg) failed_assertion _ e in
    (_, sym (ok-injective e'))

psend_at-IsGood :
    (f : File) (message : ℤ) (k : Kernel) → IsGood k → k.elu ≢ 0 → KeepsGood (psend_at f message k)
unfolding psend_at
psend_at-IsGood f message k g ne =
    elim (Bool-cases (nb_msg f == 0 && not (queue_empty (k.queue (attente_file f.fid))))) [
      | inl t ↦ rw (t, psend_at) (then_return-KeepsGood _ _ (hand_over-IsGood f message k g))
      | inr t ↦ elim (Bool-cases (f.max_msg == nb_msg f)) [
        | inl u ↦ rw (t, u, psend_at) (sleep-IsGood f after_psend k g ne)
        | inr u ↦
            rw (t, u, psend_at)
              (then_return-KeepsGood _ _ (λ l e.
                let (v, i) = add_msg-eq-ok f message k l e in
                rw i (set_file-IsGood k.elu f.fid v k g)))
      ]
    ]

-- psend.
pub psend-IsGood :
    (fid message : ℤ) (k : Kernel) → IsGood k → k.elu ≢ 0 → KeepsGood (psend fid message k)
unfolding psend prepare
psend-IsGood fid message k g ne = elim (Option-cases (file_at fid k)) [
  | inl n ↦ rw (n, psend) (returned k _ g)
  | inr (f, e) ↦
      rw (e, psend) (psend_at-IsGood f message (prepare message k) (prepare-IsGood message k g) ne)
]

pub set_file-IsTaken :
    (p f : ℕ) (v : Option File) (k : Kernel) → IsTaken p k → IsTaken p (set_file f v k)
set_file-IsTaken p f v k t = record {
  good = set_file-IsGood p f v k t.good;
  unlinked = t.unlinked;
  here = t.here;
  other = t.other;
}

refill-IsGood : (f : File) (k : Kernel) → IsGood k → Holds IsGood (refill f k)
unfolding refill
refill-IsGood f k g = Holds-bind (retire_proc f k) _ (retire_proc-IsTaken f k g) (λ r t.
    Holds-bind {P = IsTaken r.0} (add_msg f (r.1.procs r.0).file_value r.1) _
      (λ l e. let (v, i) = add_msg-eq-ok f _ r.1 l e in rw i (set_file-IsTaken r.0 f.fid v r.1 t))
      (λ l u.
        Holds-bind (resume_proc (pos 1) r.0 l) _ (resume_proc-IsGood (pos 1) r.0 l u)
          (λ m h. rescheduled _ m h)))

retire_msg-IsGood : (f : File) (k : Kernel) → IsGood k → Holds (λ r. IsGood r.2) (retire_msg f k)
unfolding retire_msg
retire_msg-IsGood f k g = elim (Option-cases (queue_out f.queue_msg)) [
  | inl n ↦ rw (n, retire_msg) (λ x e. cc)
  | inr ((m, rest), o) ↦
      rw (o, retire_msg) (Holds-ok (λ r. IsGood r.2) _ (set_file-IsGood k.elu f.fid _ k g))
]

refilled :
    (b : Bool) (f : File) (k : Kernel) → IsGood k → Holds IsGood (if b then ok k else refill f k)
refilled true f k g = Holds-ok IsGood k g
refilled false f k g = refill-IsGood f k g

preceive_at-IsGood :
    (f : File) (wanted : Bool) (k : Kernel)
    → IsGood k
    → k.elu ≢ 0
    → KeepsGood (preceive_at f wanted k)
unfolding preceive_at
preceive_at-IsGood f wanted k g ne = elim (Bool-cases (nb_msg f == 0)) [
  | inl t ↦ rw (t, preceive_at) (sleep-IsGood f (after_preceive wanted) k g ne)
  | inr t ↦
      rw (t, preceive_at)
        (Holds-bind (retire_msg f k) _ (retire_msg-IsGood f k g) (λ r h.
          then_return-KeepsGood _ _
            (refilled (queue_empty (r.2.queue (attente_file f.fid))) r.1 r.2 h)))
]

-- preceive.
pub preceive-IsGood :
    (fid : ℤ) (wanted : Bool) (k : Kernel)
    → IsGood k
    → k.elu ≢ 0
    → KeepsGood (preceive fid wanted k)
unfolding preceive prepare
preceive-IsGood fid wanted k g ne = elim (Option-cases (file_at fid k)) [
  | inl n ↦ rw (n, preceive) (returned k _ g)
  | inr (f, e) ↦
      rw (e, preceive)
        (preceive_at-IsGood f wanted (prepare (negsuc 0) k) (prepare-IsGood (negsuc 0) k g) ne)
]
