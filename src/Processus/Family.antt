-- ===== src/Processus/Family.antt =====
-- What start refuses and sets up, and what waitpid hands to a father.
use kernel_genesis_os.Base.{
  ℕ, ◌+◌, ◌<◌, ◌≤ℤ◌, ◌<ℤ◌, ◌⊎◌, ◌≡◌, ◌≢◌, refl, sym, ◌∙◌, pos, negsuc, Bool, true, false, none,
  some, List, [], ◌∷◌, All, arith, ◌==◌, subst, inl, inr, Bool-cases, Option, Option-cases,
}
use kernel_genesis_os.Kernel.{Kernel, zombie, mourant, proc_mourants, modify}
use kernel_genesis_os.Kernel.Result.{ok}
use kernel_genesis_os.Kernel.Resume.{returns, returns_to}
use kernel_genesis_os.Kernel.Queues.{added, add_ok}
use kernel_genesis_os.Ordonnanceur.{by_prio, is_zombie, max_process, check_canary}
use kernel_genesis_os.Ordonnanceur.Frame.{free_mourant_queue-SameWork}
use kernel_genesis_os.Ordonnanceur.Reap.{IsReapable, free_mourant_queue_ok}
use kernel_genesis_os.Processus.{then_return, add_pid, new_pid}
use kernel_genesis_os.Processus.Filiation.{remove_fils, collect, waitpid_loop}
use kernel_genesis_os.Processus.Start.{Launch, Memory, start, refuses, new_processus, user_stack}

-- What start does not accept: a priority out of 1 to 255, a stack that is too large for an unsigned number
-- of 32 bits with the 20480 bytes that are added, no memory for the structure or a stack.
pub data Unfit (a : Launch) (m : Memory) : Type 0 where
  low : a.prio ≤ℤ pos 0 → Unfit a m
  high : pos 255 <ℤ a.prio → Unfit a m
  large : 4294967295 < a.ssize + 20480 → Unfit a m
  no_structure : m.proc ≡ false → Unfit a m
  no_user_stack : m.user ≡ false → Unfit a m
  no_kernel_stack : m.kernel ≡ false → Unfit a m

Unfit-refuses : (a : Launch) (m : Memory) → Unfit a m → refuses a m ≡ true
unfolding refuses
Unfit-refuses a m (low h) = ground (arith, h)
Unfit-refuses a m (high h) = ground (arith, h)
Unfit-refuses a m (large h) = ground (arith, h)
Unfit-refuses a m (no_structure h) = ground (arith, h)
Unfit-refuses a m (no_user_stack h) = ground (arith, h)
Unfit-refuses a m (no_kernel_stack h) = ground (arith, h)

pub start_refused_at :
    (a : Launch) (m : Memory) (k : Kernel) (ps : List ℕ)
    → refuses a m ≡ true
    → start a m (record k { pids = ps }) ≡ ok (record k { pids = ps }, returns (negsuc 0))
unfolding start new_pid add_pid
start_refused_at a m k [] r = refl
start_refused_at a m k (p ∷ ps) r = rw r

-- start with a priority of at most 0 or above 255, a stack whose size with the 20480 bytes added
-- does not fit 32 bits, no memory for the structure or one of the stacks, or where no pid is free,
-- returns -1, and the kernel is as it was: the pid that was taken is given back to its place.
pub start_refused :
    (a : Launch) (m : Memory) (k : Kernel)
    → Unfit a m ⊎ (k.pids ≡ [])
    → start a m k ≡ ok (k, returns (negsuc 0))
unfolding start new_pid
start_refused a m k (inl u) = start_refused_at a m k k.pids (Unfit-refuses a m u)
start_refused a m k (inr e) = rw e refl

-- The user stack that start sets up passes the check of the scheduler, whatever its size, its
-- argument and the contents of the memory.
pub start_canary : (a : Launch) (m : Memory) → check_canary (new_processus a m) ≡ true
unfolding check_canary new_processus user_stack
start_canary a m = ground arith

pub remove_fils-All {ℓ} :
    (P : ℕ → Type ℓ) (p : ℕ) (fs gs : List ℕ) → remove_fils p fs ≡ some gs → All P fs → All P gs
unfolding remove_fils
remove_fils-All P p [] gs e h = cc
remove_fils-All P p (f ∷ fs) gs e h = elim (Bool-cases (f == p)) [
  | inl t ↦
      let g : ◌≡◌ {A = Option (List ℕ)} (some fs) (some gs) = rw (t, remove_fils) at e in
      let i : fs ≡ gs = ground arith in subst (All P) i h.1
  | inr n ↦ elim (Option-cases (remove_fils p fs)) [
    | inl z ↦ cc (rw (n, z, remove_fils) at e)
    | inr (hs, z) ↦
        let g : ◌≡◌ {A = Option (List ℕ)} (some (f ∷ hs)) (some gs) = rw (n, z, remove_fils) at e in
        let i : f ∷ hs ≡ gs = ground arith in subst (All P) i (h.0, remove_fils-All P p fs hs z h.1)
  ]
]

abbrev dying : ℕ → List ℕ → Kernel → Kernel
dying p fs k =
    modify p (λ r. record r { etat = mourant; pere = none })
      (modify k.elu (λ r. record r { fils = fs }) k)

dying-linked :
    (p : ℕ) (fs : List ℕ) (k : Kernel)
    → (k.procs p).linked ≡ false
    → ((dying p fs k).procs p).linked ≡ false
dying-linked p fs k e = ground arith

-- The kernel when the father let go of the zombie `p` and it joined the dead.
abbrev released : ℕ → List ℕ → Kernel → Kernel
released p fs k = added by_prio proc_mourants p (dying p fs k)

fils-father : (p : ℕ) (fs : List ℕ) (k : Kernel) → ((released p fs k).procs k.elu).fils ≡ fs
fils-father p fs k = ground arith

fils-others :
    (p x : ℕ) (fs : List ℕ) (k : Kernel)
    → (x == k.elu) ≡ false
    → ((released p fs k).procs x).fils ≡ (k.procs x).fils
fils-others p x fs k n = ground arith

released-IsReapable :
    (p : ℕ) (fs : List ℕ) (k : Kernel)
    → IsReapable k
    → remove_fils p (k.procs k.elu).fils ≡ some fs
    → IsReapable (released p fs k)
released-IsReapable p fs k r e = record {
  fils = λ x. elim (Bool-cases (x == k.elu)) [
    | inl t ↦
        let i : k.elu ≡ x = ground arith in
        subst (λ y. All (λ f. f < max_process) ((released p fs k).procs y).fils) i
          (subst (All (λ f. f < max_process)) (sym (fils-father p fs k))
            (remove_fils-All (λ f. f < max_process) p (k.procs k.elu).fils fs e (r.fils k.elu)))
    | inr n ↦ subst (All (λ f. f < max_process)) (sym (fils-others p x fs k n)) (r.fils x)
  ];
  unlinked = λ x t. ground (arith, r.unlinked x);
}

-- waitpid on a child of the running process that has ended gives its pid and its exit code, takes
-- it off the list of children and frees all of the dead, and the caller keeps the processor,
-- provided that children have pids of the table and that no zombie is in a queue.
pub waitpid_zombie :
    (p : ℕ) (wanted : Bool) (fs : List ℕ) (k : Kernel)
    → IsReapable k
    → (k.procs p).etat ≡ zombie
    → p ≢ k.elu
    → remove_fils p (k.procs k.elu).fils ≡ some fs
    → (k' : Kernel) × (waitpid_loop (pos p) wanted k
        ≡ ok (k', returns_to wanted (pos p) (k.procs p).retval))
      × (k'.queue proc_mourants ≡ [])
      × (k'.elu ≡ k.elu)
      × ((k'.procs k.elu).fils ≡ fs)
unfolding waitpid_loop collect then_return
waitpid_zombie p wanted fs k r z ne e =
    let k₂ : Kernel = released p fs k in
    let (k', f, _, q) = free_mourant_queue_ok k₂ (released-IsReapable p fs k r e) in
    let w = free_mourant_queue-SameWork k₂ k' f in
    let a : is_zombie (k.procs p).etat ≡ true = rw z refl in
    (
      k',
      rw a (
          rw (e, collect)
            (rw
              (add_ok by_prio proc_mourants p (dying p fs k) (dying-linked p fs k (r.unlinked p a)))
              (rw f))),
      q,
      w.elu,
      (w.procs k.elu).fils ∙ fils-father p fs k,
    )
