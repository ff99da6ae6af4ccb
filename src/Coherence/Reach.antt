-- ===== src/Coherence/Reach.antt =====
-- The kernel from its start on: the system calls of kernel/traitant_IT_49.c, the interrupts of kernel/horloge.c
-- and of the keyboard, and the programs between them.
use kernel_genesis_os.Base.{
  ℕ, zero, suc, ◌+◌, ◌≤◌, ◌<◌, ◌≡◌, ◌≢◌, refl, Bool, true, false, [], arith, ℤ, ap, Option, List,
  subst, sym, ◌∙◌,
}
use kernel_genesis_os.Kernel.{
  Processus, Kernel, Head, modify, activable, proc_activables, same_head,
}
use kernel_genesis_os.Kernel.Result.{ok}
use kernel_genesis_os.Kernel.Ends.{Ends, Ends-Holds}
use kernel_genesis_os.Kernel.Resume.{Resume}
use kernel_genesis_os.Ordonnanceur.{check_canary}
use kernel_genesis_os.Processus.{verifie_es}
use kernel_genesis_os.Processus.Boot.{
  init_idle, init_listes, pids_from, init_ordonnanceur, zeroed, user,
}
use kernel_genesis_os.Processus.Start.{Memory}
use kernel_genesis_os.Processus.Filiation.{waitpid_loop}
use kernel_genesis_os.Semaphore.{init_semaphores}
use kernel_genesis_os.Files.{init_files}
use kernel_genesis_os.Horloge.{Horloge, tic_pit, tic_pit_end}
use kernel_genesis_os.Syscall.{Builtin, Registers, Devices, traitant_it_49_switch}
use kernel_genesis_os.Keyboard.{Clavier, cons_read_loop}
use kernel_genesis_os.Keyboard.Reader.{cons_read_loop-IsGood}
use kernel_genesis_os.Coherence.{count}
use kernel_genesis_os.Coherence.Scheduler.{IsGood}
use kernel_genesis_os.Coherence.Caller.{IsMild, HasLivingFather, reschedule_if-IsGood}
use kernel_genesis_os.Coherence.Others.{mild-IsGood}
use kernel_genesis_os.Coherence.Start.{start-IsGood}
use kernel_genesis_os.Coherence.Clock.{verifie_reveille-IsGood, verifie_es-IsGood}
use kernel_genesis_os.Coherence.Waitpid.{waitpid_loop-KeepsGood}
use kernel_genesis_os.Coherence.Calls.{leaves, traitant_it_49_switch-IsGood}

-- What the machine does next. An exit, or a kill of itself, by a process whose father is dead and still in
-- the table, and a program that writes over the canaries of its stack, are no steps; the idle process makes
-- no system call.
pub data Step (k : Kernel) : Kernel → Type 0 where
  call :
      (d : Devices) (b : Builtin) (r : Registers) {l : Kernel} {next : Resume}
      → k.elu ≢ 0
      → (leaves b r k ≡ true → HasLivingFather k k.elu)
      → traitant_it_49_switch d b r k ≡ ok (l, next)
      → Step k l
  waitpid_again :
      (pid : ℤ) (wanted : Bool) {l : Kernel} {next : Resume}
      → k.elu ≢ 0
      → waitpid_loop pid wanted k ≡ ok (l, next)
      → Step k l
  read_again :
      (n : ℕ) (after : List ℤ) (c : Clavier) {o : Option (List ℤ)} {l : Clavier}
      → c.kernel ≡ k
      → k.elu ≢ 0
      → cons_read_loop n after c ≡ ok (o, l)
      → Step k l.kernel
  tick : (c : Horloge) {l : Kernel} → (tic_pit c k).1 ≡ ok l → Step k l
  tick_end : (c : Horloge) {l : Kernel} → tic_pit_end c k ≡ ok l → Step k l
  key : {l : Kernel} → verifie_es k ≡ ok l → Step k l
  compute :
      (words : ℕ → ℕ)
      → check_canary (record (k.procs k.elu) { pile_user = words }) ≡ check_canary (k.procs k.elu)
      → Step k (modify k.elu (λ r. record r { pile_user = words }) k)

-- The kernels that a start with the given memory can lead to.
pub data Reach (m : Memory) : Kernel → Type 0 where
  starts : {k : Kernel} {next : Resume} → init_ordonnanceur m zeroed ≡ ok (k, next) → Reach m k
  later : {k l : Kernel} → Reach m k → Step k l → Reach m l

count-pids_from :
    (n i p : ℕ)
    → (count p (pids_from n i) ≤ 1) × (0 < count p (pids_from n i) → (i ≤ p) × (p < i + n))
unfolding count pids_from
count-pids_from zero i p = (omega arith, λ lt. absurd (omega arith))
count-pids_from (suc n) i p =
    let h = count-pids_from n (suc i) p in
    (ground (arith, h.0, h.1), λ lt. (ground (arith, h.1), ground (arith, h.1)))

no_queue : (h : Head) → (init_idle zeroed).queue h ≡ []
unfolding init_idle init_listes init_semaphores init_files
no_queue h = ground arith

-- The kernel before the first process.
init_idle-IsGood : IsGood (init_idle zeroed)
unfolding init_idle init_listes init_semaphores init_files count
init_idle-IsGood =
    let n : (p : ℕ)
        → (count p (pids_from 49 1) ≤ 1) × (0 < count p (pids_from 49 1) → (1 ≤ p) × (p < 50)) =
      λ p. count-pids_from 49 1 p in
    record {
      coherent = record {
        once = λ h p. rw (no_queue h) (omega arith);
        alone = λ h j p d. rw (no_queue h, no_queue j) (omega arith);
        place = λ h p lt. absurd (omega (arith, lt, ap (count p) (no_queue h)));
        kept = λ h p s e l. ground arith;
        kind = λ p l. ground arith;
        gone = λ p t. ground arith;
        fils = λ p. ground arith;
        free = λ p t. ground (arith, (n p).1);
        distinct = λ p. (n p).0;
        low = λ p lt. let (a, b) = (n p).1 lt in omega arith;
        below = λ p t. ground arith;
        canary = λ p t. ground arith;
      };
      here = refl;
      unlinked = refl;
      runs = refl;
      idle = λ z. absurd (z refl);
      held = λ p x y t. ground arith;
    }

compute-IsGood :
    (words : ℕ → ℕ) (k : Kernel)
    → check_canary (record (k.procs k.elu) { pile_user = words }) ≡ check_canary (k.procs k.elu)
    → IsGood k
    → IsGood (modify k.elu (λ r. record r { pile_user = words }) k)
compute-IsGood words k e g =
    let f : Processus → Processus = λ r. record r { pile_user = words } in
    let m : IsMild f (k.procs k.elu) = record { linked = refl; fils = refl; canary = e } in
    mild-IsGood k.elu k g k.elu f m refl

tick-IsGood : (c : Horloge) (k : Kernel) → IsGood k → Ends IsGood (tic_pit c k).1
unfolding tic_pit
tick-IsGood c k g = verifie_reveille-IsGood _ k g

tick_end-IsGood : (c : Horloge) (k : Kernel) → IsGood k → Ends IsGood (tic_pit_end c k)
unfolding tic_pit_end
tick_end-IsGood c k g = reschedule_if-IsGood _ k g

Step-IsGood : {k l : Kernel} → Step k l → IsGood k → IsGood l
Step-IsGood {k = k} (call d b r ne v e) g = traitant_it_49_switch-IsGood d b r k g ne v _ e
Step-IsGood {k = k} (waitpid_again pid wanted ne e) g = waitpid_loop-KeepsGood pid wanted k g ne _ e
Step-IsGood {k = k} (read_again n after c i ne e) g =
    Ends-Holds (λ r. IsGood r.1.kernel) _
      (cons_read_loop-IsGood n after c (subst IsGood (sym i) g)
        (λ z. ne (ap (λ x. x.elu) (sym i) ∙ z)))
      _ e
Step-IsGood {k = k} (tick c e) g = Ends-Holds IsGood _ (tick-IsGood c k g) _ e
Step-IsGood {k = k} (tick_end c e) g = Ends-Holds IsGood _ (tick_end-IsGood c k g) _ e
Step-IsGood {k = k} (key e) g = Ends-Holds IsGood _ (verifie_es-IsGood k g) _ e
Step-IsGood {k = k} (compute words e) g = compute-IsGood words k e g

pub Reach-IsGood : {m : Memory} {k : Kernel} → Reach m k → IsGood k
unfolding init_ordonnanceur
Reach-IsGood {m = m} (starts e) =
    Ends-Holds (λ x. IsGood x.0) _ (start-IsGood user m (init_idle zeroed) init_idle-IsGood) _ e
Reach-IsGood (later r s) = Step-IsGood s (Reach-IsGood r)

-- In every kernel that a start and the steps above can lead to, so that no process has exited or
-- killed itself while its dead father was still in the table and no program has written over its
-- canaries, both parts of the clock interrupt end without a fault, whatever the counters, and lead
-- to such a kernel again.
pub Reach-tick :
    {m : Memory} {k : Kernel} (c : Horloge)
    → Reach m k
    → ((l : Kernel) × ((tic_pit c k).1 ≡ ok l) × Reach m l)
      × ((l : Kernel) × (tic_pit_end c k ≡ ok l) × Reach m l)
Reach-tick {k = k} c r =
    let (l, e, _) = tick-IsGood c k (Reach-IsGood r) in
    let (n, f, _) = tick_end-IsGood c k (Reach-IsGood r) in
    ((l, e, later r (tick c e)), (n, f, later r (tick_end c f)))

-- In every kernel that a start can lead to, a process of the table in the state ACTIVABLE is in the
-- queue of runnable processes, once, and in no other queue.
Reach-activable :
    {m : Memory} {k : Kernel} (p : ℕ)
    → Reach m k
    → k.table p ≡ true
    → (k.procs p).etat ≡ activable
    → (count p (k.queue proc_activables) ≡ 1)
      × ((h : Head) → same_head proc_activables h ≡ false → count p (k.queue h) ≡ 0)
Reach-activable {k = k} p r t e =
    let g = Reach-IsGood r in
    let c = g.coherent in
    let ne : p ≢ k.elu = λ i. ground (arith, g.runs) in
    let l : (k.procs p).linked ≡ true = ground (arith, g.held p) in
    (
      ground (arith, c.once proc_activables p, c.kept proc_activables p),
      λ h n. ground (arith, c.kept proc_activables p, c.alone proc_activables h p),
    )
