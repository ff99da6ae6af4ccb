-- ===== src/Coherence/Start.antt =====
-- start of kernel/processus.c and the coherence of the kernel's data.
use kernel_genesis_os.Base.{
  ℕ, ◌≡◌, ◌≢◌, refl, true, false, none, some, List, [], ◌∷◌, ◌==◌, arith, pos, negsuc, update, ◌<◌,
  Bool-cases, inl, inr,
}
use kernel_genesis_os.Kernel.{Processus, Kernel, activable, proc_activables, proc_idle, modify}
use kernel_genesis_os.Kernel.Ends.{Ends, Ends-bind}
use kernel_genesis_os.Kernel.Resume.{returns}
use kernel_genesis_os.Kernel.Queues.{added, add_ok}
use kernel_genesis_os.Ordonnanceur.{by_prio, check_canary}
use kernel_genesis_os.Processus.{new_pid}
use kernel_genesis_os.Processus.Start.{
  Launch, Memory, start, refuses, install, adopt, new_processus,
}
use kernel_genesis_os.Processus.Family.{start_refused_at, start_canary}
use kernel_genesis_os.Coherence.{count}
use kernel_genesis_os.Coherence.Changes.{installed-Coherent}
use kernel_genesis_os.Coherence.Scheduler.{IsGood, IsGoodBut}
use kernel_genesis_os.Coherence.Caller.{
  IsMild, StaysGood, then_return-StaysGood, reschedule_if-IsGood, with_fils-IsGood,
}
use kernel_genesis_os.Coherence.Others.{readied-IsGood, mild-IsGood}

-- A process that is in the table and in no queue yet.
record IsNew (p : ℕ) (k : Kernel) : Type 0 where
  good : IsGoodBut p k
  unlinked : (k.procs p).linked ≡ false
  here : k.table p ≡ true
  other : p ≢ k.elu
  ready : (k.procs p).etat ≡ activable

adopt-IsNew : (p : ℕ) (k : Kernel) → IsNew p k → p < 50 → IsNew p (adopt p k)
unfolding adopt check_canary
adopt-IsNew p k n lt = elim (Bool-cases (k.elu == proc_idle)) [
  | inl t ↦ rw (t, adopt) n
  | inr f ↦
      let g : Processus → Processus = λ r. record r { pere = some k.elu } in
      let m : IsMild g (k.procs p) = record { linked = refl; fils = refl; canary = refl } in
      let b = mild-IsGood p k n.good p g m refl in
      let w =
        with_fils-IsGood p (p ∷ ((modify p g k).procs k.elu).fils) (modify p g k) b
          (lt, b.coherent.fils k.elu) in
      let o : IsNew p (modify k.elu (λ r. record r { fils = p ∷ r.fils }) (modify p g k)) = record {
        good = w;
        unlinked = ground (arith, n.unlinked);
        here = n.here;
        other = n.other;
        ready = ground (arith, n.ready);
      } in
      rw (f, adopt) o
]

-- The kernel in which the process `p` has an entry of the table.
abbrev entered : ℕ → List ℕ → Processus → Kernel → Kernel
entered p rest r k = record k {
  procs = update k.procs p r;
  table = update k.table p true;
  pids = rest;
}

entered-IsNew :
    (p : ℕ) (rest : List ℕ) (a : Launch) (m : Memory) (k : Kernel)
    → IsGood k
    → k.pids ≡ p ∷ rest
    → IsNew p (entered p rest (new_processus a m) k) × (p < 50)
unfolding new_processus count
entered-IsNew p rest a m k g q =
    let c = g.coherent in
    let n : 0 < count p k.pids = rw q (ground arith) in
    let ne : p ≢ k.elu = λ i. ground (arith, c.free p, g.here) in
    (
      record {
        good = record {
          coherent = installed-Coherent k p rest (new_processus a m) c q refl tt (start_canary a m);
          here = ground (arith, g.here);
          unlinked = ground (arith, g.unlinked);
          runs = ground (arith, g.runs);
          idle = g.idle;
          held = λ x v o t. ground (arith, g.held x);
        };
        unlinked = ground arith;
        here = ground arith;
        other = ne;
        ready = ground arith;
      },
      c.low p n,
    )

install-IsGood :
    (p : ℕ) (rest : List ℕ) (a : Launch) (m : Memory) (k : Kernel)
    → IsGood k
    → k.pids ≡ p ∷ rest
    → Ends IsGood (install p (new_processus a m) (record k { pids = rest }))
unfolding install
install-IsGood p rest a m k g q =
    let (n, lt) = entered-IsNew p rest a m k g q in
    let l : Kernel = adopt p (entered p rest (new_processus a m) k) in
    let w = adopt-IsNew p (entered p rest (new_processus a m) k) n lt in
    (
      added by_prio proc_activables p l,
      add_ok by_prio proc_activables p l w.unlinked,
      readied-IsGood l p w.good w.unlinked w.here w.other by_prio proc_activables w.ready,
    )

new_pid-none : (k : Kernel) → k.pids ≡ [] → new_pid k ≡ none
unfolding new_pid
new_pid-none k q = rw q refl

new_pid-some :
    (k : Kernel) (p : ℕ) (rest : List ℕ)
    → k.pids ≡ p ∷ rest
    → new_pid k ≡ some (p, record k { pids = rest })
unfolding new_pid
new_pid-some k p rest q = rw q refl

start_at :
    (ps : List ℕ) (a : Launch) (m : Memory) (k : Kernel)
    → IsGood k
    → k.pids ≡ ps
    → refuses a m ≡ false
    → StaysGood (start a m k)
unfolding start
start_at [] a m k g q f = ((k, returns (negsuc 0)), rw (new_pid-none k q, start) refl, g)
start_at (p ∷ ps) a m k g q f =
    let w = install-IsGood p ps a m k g q in
    rw (new_pid-some k p ps q, f, start)
      (Ends-bind (install p (new_processus a m) (record k { pids = ps })) _ w
        (λ l h. then_return-StaysGood (returns (pos p)) _ (reschedule_if-IsGood _ l h)))

-- start.
pub start-IsGood : (a : Launch) (m : Memory) (k : Kernel) → IsGood k → StaysGood (start a m k)
start-IsGood a m k g = elim (Bool-cases (refuses a m)) [
  | inl t ↦ ((k, returns (negsuc 0)), start_refused_at a m k k.pids t, g)
  | inr f ↦ start_at k.pids a m k g refl f
]
