-- ===== src/Coherence/Waitpid.antt =====
-- waitpid of kernel/processus.c and the coherence of the kernel's data.
use kernel_genesis_os.Base.{
  ℕ, ◌≡◌, ◌≢◌, refl, Bool, true, false, Option, none, some, List, [], ◌∷◌, ◌==◌, ◌&&◌, arith, ℤ,
  pos, negsuc, ltb, ◌<◌, Bool-cases, Option-cases, inl, inr, subst,
}
use kernel_genesis_os.Kernel.{Processus, Kernel, mourant, attend_fils, proc_mourants, modify}
use kernel_genesis_os.Kernel.Ends.{Ends-Holds}
use kernel_genesis_os.Kernel.Resume.{returns, returns_to, after_waitpid}
use kernel_genesis_os.Kernel.Queues.{add_ok}
use kernel_genesis_os.Ordonnanceur.{by_prio, check_canary, is_zombie, max_process}
use kernel_genesis_os.Processus.Filiation.{
  remove_fils, first_zombie, collect, await, waitpid_loop, waitpid, is_father, has_fils,
}
use kernel_genesis_os.Processus.Family.{remove_fils-All}
use kernel_genesis_os.Coherence.{count}
use kernel_genesis_os.Coherence.Semaphores.{KeepsGood, returned}
use kernel_genesis_os.Coherence.Processes.{free_mourant_queue-IsGood}
use kernel_genesis_os.Coherence.Scheduler.{IsGood, ordonnanceur-IsGood}
use kernel_genesis_os.Coherence.Caller.{
  IsMild, StaysGood, left-IsReady, with_fils-IsGood, then_return-StaysGood,
}
use kernel_genesis_os.Coherence.Others.{but-IsGood, queued-IsGood}

-- The table of children knows a process whose father is the caller.
abbrev pub KnowsChild : Kernel → ℕ → Type 0
KnowsChild k p = is_father k.elu (k.procs p).pere ≡ true → 0 < count p (k.procs k.elu).fils

remove_fils_ok :
    (p : ℕ) (fs : List ℕ) → 0 < count p fs → (gs : List ℕ) × (remove_fils p fs ≡ some gs)
unfolding remove_fils count
remove_fils_ok p [] lt = absurd (omega arith)
remove_fils_ok p (f ∷ fs) lt = elim (Bool-cases (f == p)) [
  | inl t ↦ (fs, rw t refl)
  | inr n ↦ let (gs, e) = remove_fils_ok p fs (ground arith) in (f ∷ gs, rw (n, e) refl)
]

first_zombie-count :
    (fs : List ℕ) (k : Kernel) (p : ℕ)
    → first_zombie fs k ≡ some p
    → (0 < count p fs) × (is_zombie (k.procs p).etat ≡ true)
unfolding first_zombie count
first_zombie-count [] k p e = cc
first_zombie-count (f ∷ fs) k p e = elim (Bool-cases (is_zombie (k.procs f).etat)) [
  | inl t ↦
      let g : ◌≡◌ {A = Option ℕ} (some f) (some p) = rw (t, first_zombie) at e in
      let i : f ≡ p = ground arith in
      (ground arith, subst (λ x. is_zombie (k.procs x).etat ≡ true) i t)
  | inr t ↦ let (lt, z) = first_zombie-count fs k p (rw (t, first_zombie) at e) in (ground arith, z)
]

collect-IsGood :
    (p : ℕ) (wanted : Bool) (k : Kernel)
    → IsGood k
    → is_zombie (k.procs p).etat ≡ true
    → 0 < count p (k.procs k.elu).fils
    → StaysGood (collect p wanted k)
unfolding collect check_canary
collect-IsGood p wanted k g z lt =
    let c = g.coherent in
    let (gs, e) = remove_fils_ok p (k.procs k.elu).fils lt in
    let l : Kernel = modify k.elu (λ r. record r { fils = gs }) k in
    let b =
      with_fils-IsGood k.elu gs k g
        (remove_fils-All (λ x. x < 50) p (k.procs k.elu).fils gs e (c.fils k.elu)) in
    let ne : p ≢ k.elu = λ i. ground (arith, g.runs) in
    let f : Processus → Processus = λ r. record r { etat = mourant; pere = none } in
    let m : IsMild f (l.procs p) = record { linked = refl; fils = refl; canary = refl } in
    let u : (l.procs p).linked ≡ false = ground (arith, c.kind p) in
    let t : k.table p ≡ true = ground (arith, c.gone p) in
    let w = queued-IsGood l p (but-IsGood p l b) f m u t ne by_prio proc_mourants refl in
    let a = add_ok by_prio proc_mourants p (modify p f l) (ground arith) in
    rw (e, collect)
      (rw a (
        then_return-StaysGood (returns_to wanted (pos p) (k.procs p).retval) _
          (free_mourant_queue-IsGood _ w)))

await-IsGood :
    (pid : ℤ) (wanted : Bool) (k : Kernel) → IsGood k → k.elu ≢ 0 → StaysGood (await pid wanted k)
unfolding await check_canary
await-IsGood pid wanted k g ne =
    let f : Processus → Processus = λ r. record r { etat = attend_fils } in
    let m : IsMild f (k.procs k.elu) = record { linked = refl; fils = refl; canary = refl } in
    then_return-StaysGood (after_waitpid pid wanted) _
      (ordonnanceur-IsGood _ (left-IsReady k g ne f m (λ q. refl) (λ z. cc)))

-- The loops of waitpid.
pub waitpid_loop-IsGood :
    (pid : ℤ) (wanted : Bool) (k : Kernel)
    → IsGood k
    → k.elu ≢ 0
    → ((p : ℕ) → pid ≡ pos p → 0 < count p (k.procs k.elu).fils)
    → StaysGood (waitpid_loop pid wanted k)
unfolding waitpid_loop
waitpid_loop-IsGood (pos p) wanted k g ne h = elim (Bool-cases (is_zombie (k.procs p).etat)) [
  | inl z ↦ rw (z, waitpid_loop) (collect-IsGood p wanted k g z (h p refl))
  | inr z ↦ rw (z, waitpid_loop) (await-IsGood (pos p) wanted k g ne)
]
waitpid_loop-IsGood (negsuc n) wanted k g ne h =
    elim (Option-cases (first_zombie (k.procs k.elu).fils k)) [
      | inl z ↦ rw (z, waitpid_loop) (await-IsGood (negsuc n) wanted k g ne)
      | inr (p, z) ↦
          let (lt, y) = first_zombie-count (k.procs k.elu).fils k p z in
          rw (z, waitpid_loop) (collect-IsGood p wanted k g y lt)
    ]

-- waitpid.
pub waitpid-IsGood :
    (pid : ℤ) (wanted : Bool) (k : Kernel)
    → IsGood k
    → k.elu ≢ 0
    → ((p : ℕ) → KnowsChild k p)
    → StaysGood (waitpid pid wanted k)
unfolding waitpid
waitpid-IsGood (pos p) wanted k g ne h =
    elim (Bool-cases (ltb p max_process && k.table p && is_father k.elu (k.procs p).pere)) [
      | inl t ↦
          let lt : 0 < count p (k.procs k.elu).fils = h p (ground arith) in
          rw (t, waitpid)
            (waitpid_loop-IsGood (pos p) wanted k g ne (λ q i.
              let j : p ≡ q = ground arith in subst (λ x. 0 < count x (k.procs k.elu).fils) j lt))
      | inr t ↦ ((k, returns (negsuc 0)), rw (t, waitpid) refl, g)
    ]
waitpid-IsGood (negsuc n) wanted k g ne h = elim (Bool-cases (has_fils (k.procs k.elu).fils)) [
  | inl t ↦ rw (t, waitpid) (waitpid_loop-IsGood (negsuc n) wanted k g ne (λ q i. cc))
  | inr t ↦ ((k, returns (negsuc 0)), rw (t, waitpid) refl, g)
]

remove_fils-count : (p : ℕ) (fs gs : List ℕ) → remove_fils p fs ≡ some gs → 0 < count p fs
unfolding remove_fils count
remove_fils-count p [] gs e = cc
remove_fils-count p (f ∷ fs) gs e = elim (Bool-cases (f == p)) [
  | inl t ↦ ground arith
  | inr n ↦ elim (Option-cases (remove_fils p fs)) [
    | inl z ↦ cc (rw (n, z, remove_fils) at e)
    | inr (hs, z) ↦ let lt = remove_fils-count p fs hs z in ground arith
  ]
]

-- The loops of waitpid on a process that is no child run into the null pointer.
pub waitpid_loop-KeepsGood :
    (pid : ℤ) (wanted : Bool) (k : Kernel)
    → IsGood k
    → k.elu ≢ 0
    → KeepsGood (waitpid_loop pid wanted k)
unfolding waitpid_loop collect
waitpid_loop-KeepsGood (pos p) wanted k g ne = elim (Bool-cases (is_zombie (k.procs p).etat)) [
  | inl z ↦ elim (Option-cases (remove_fils p (k.procs k.elu).fils)) [
    | inl n ↦ rw (z, waitpid_loop) (rw (n, collect) (λ x e. cc))
    | inr (gs, e) ↦
        rw (z, waitpid_loop)
          (Ends-Holds (λ x. IsGood x.0) _
            (collect-IsGood p wanted k g z (remove_fils-count p (k.procs k.elu).fils gs e)))
  ]
  | inr z ↦
      rw (z, waitpid_loop) (Ends-Holds (λ x. IsGood x.0) _ (await-IsGood (pos p) wanted k g ne))
]
waitpid_loop-KeepsGood (negsuc n) wanted k g ne =
    Ends-Holds (λ x. IsGood x.0) _ (waitpid_loop-IsGood (negsuc n) wanted k g ne (λ q i. cc))

pub waitpid-KeepsGood :
    (pid : ℤ) (wanted : Bool) (k : Kernel) → IsGood k → k.elu ≢ 0 → KeepsGood (waitpid pid wanted k)
unfolding waitpid
waitpid-KeepsGood (pos p) wanted k g ne =
    elim (Bool-cases (ltb p max_process && k.table p && is_father k.elu (k.procs p).pere)) [
      | inl t ↦ rw (t, waitpid) (waitpid_loop-KeepsGood (pos p) wanted k g ne)
      | inr t ↦ rw (t, waitpid) (returned k _ g)
    ]
waitpid-KeepsGood (negsuc n) wanted k g ne = elim (Bool-cases (has_fils (k.procs k.elu).fils)) [
  | inl t ↦ rw (t, waitpid) (waitpid_loop-KeepsGood (negsuc n) wanted k g ne)
  | inr t ↦ rw (t, waitpid) (returned k _ g)
]
