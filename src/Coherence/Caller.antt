-- ===== src/Coherence/Caller.antt =====
-- What an operation of kernel/processus.c, kernel/semaphore.c or kernel/files.c does to its caller and to
-- the process that it wakes.
use kernel_genesis_os.Base.{ℕ, ◌<◌, ◌≡◌, ◌≢◌, refl, Bool, true, false, List, All, arith, sym, subst}
use kernel_genesis_os.Kernel.{Processus, Kernel, Head, modify}
use kernel_genesis_os.Kernel.Result.{Result}
use kernel_genesis_os.Kernel.Ends.{Ends}
use kernel_genesis_os.Kernel.Resume.{Resume}
use kernel_genesis_os.Kernel.Queues.{added}
use kernel_genesis_os.Ordonnanceur.{is_zombie, check_canary}
use kernel_genesis_os.Ordonnanceur.Total.{is_queued_again}
use kernel_genesis_os.Processus.{then_return, reschedule_if}
use kernel_genesis_os.Processus.Filiation.{is_dead}
use kernel_genesis_os.Coherence.{count, Coherent, etat_of, is_settled}
use kernel_genesis_os.Coherence.Moves.{added-Coherent}
use kernel_genesis_os.Coherence.Changes.{changed-Coherent}
use kernel_genesis_os.Coherence.Ready.{IsReady}
use kernel_genesis_os.Coherence.Scheduler.{IsGood, IsGoodBut, ordonnanceur-IsGood}

-- A change of a process's fields that leaves its link, its children and its canaries alone.
pub record IsMild (f : Processus → Processus) (r : Processus) : Type 0 where
  pub linked : (f r).linked ≡ r.linked
  pub fils : (f r).fils ≡ r.fils
  pub canary : check_canary (f r) ≡ check_canary r

-- Nobody dead that is still in the table has this process among its children, and neither has the process itself.
abbrev pub HasLivingFather : Kernel → ℕ → Type 0
HasLivingFather k p =
    (q : ℕ)
    → k.table q ≡ true
    → 0 < count p (k.procs q).fils
    → (is_dead (k.procs q).etat ≡ false) × (q ≢ p)

pub IsGood-IsReady : (k : Kernel) → IsGood k → IsReady k.elu k
IsGood-IsReady k g = record {
  coherent = g.coherent;
  here = g.here;
  unlinked = λ q. g.unlinked;
  settled = λ q. ground (arith, g.runs);
  held = g.held;
  guarded = λ z q y n. ground (arith, g.runs);
  idle = g.idle;
  stays = λ z. ground (arith, g.runs);
}

module _ (k : Kernel) (g : IsGood k) (ne : k.elu ≢ 0) (f : Processus → Processus)
    (m : IsMild f (k.procs k.elu)) where
  -- The caller changes its state.
  pub left-Coherent : Coherent (modify k.elu f k)
  left-Coherent =
      let c = g.coherent in
      changed-Coherent k k.elu f c g.unlinked g.here (ground (arith, m.linked, g.unlinked))
        (subst (All (λ x. x < 50)) (sym m.fils) (c.fils k.elu)) m.canary

  pub left-IsReady :
      (is_queued_again (f (k.procs k.elu)).etat ≡ false
        → is_settled (f (k.procs k.elu)).etat false ≡ true)
      → (is_zombie (f (k.procs k.elu)).etat ≡ true → HasLivingFather k k.elu)
      → IsReady k.elu (modify k.elu f k)
  left-IsReady v w = record {
    coherent = left-Coherent;
    here = g.here;
    unlinked = λ q. ground (arith, m.linked, g.unlinked);
    settled = λ q. ground (arith, v, m.linked, g.unlinked);
    held = λ x n z t. ground (arith, g.held x);
    guarded = λ z q y n. ground (arith, w (ground arith) q, m.fils);
    idle = g.idle;
    stays = λ z. absurd (ne z);
  }

  -- The caller goes into a queue of processes that wait.
  pub asleep-IsReady :
      (field : Processus → ℕ) (h : Head)
      → (f (k.procs k.elu)).etat ≡ etat_of h
      → is_queued_again (etat_of h) ≡ false
      → IsReady k.elu (added field h k.elu (modify k.elu f k))
  asleep-IsReady field h e n = record {
    coherent =
        added-Coherent (modify k.elu f k) left-Coherent field h k.elu
          (ground (arith, m.linked, g.unlinked)) g.here (ground (arith, e));
    here = g.here;
    unlinked = λ q. ground (arith, e);
    settled = λ q. ground (arith, e);
    held = λ x l z t. ground (arith, g.held x);
    guarded = λ z q y l. ground (arith, e);
    idle = λ z. ground (arith, g.idle);
    stays = λ z. absurd (ne z);
  }

-- An operation ends without a fault, and leaves a good kernel.
abbrev pub StaysGood : Result (Kernel × Resume) → Type 0
StaysGood m = Ends (λ x. IsGood x.0) m

pub then_return-StaysGood :
    (r : Resume) (m : Result Kernel) → Ends IsGood m → StaysGood (then_return r m)
unfolding then_return
then_return-StaysGood r m (k, e, g) = ((k, r), rw e refl, g)

pub reschedule_if-IsGood : (b : Bool) (k : Kernel) → IsGood k → Ends IsGood (reschedule_if b k)
unfolding reschedule_if
reschedule_if-IsGood true k g = ordonnanceur-IsGood k (IsGood-IsReady k g)
reschedule_if-IsGood false k g = (k, refl, g)

-- The caller gets other children.
pub with_fils-IsGood :
    (skip : ℕ) (fs : List ℕ) (k : Kernel)
    → IsGoodBut skip k
    → All (λ x. x < 50) fs
    → IsGoodBut skip (modify k.elu (λ r. record r { fils = fs }) k)
unfolding check_canary
with_fils-IsGood skip fs k g lt =
    let c = g.coherent in
    record {
      coherent =
          changed-Coherent k k.elu (λ r. record r { fils = fs }) c g.unlinked g.here g.unlinked lt
            refl;
      here = g.here;
      unlinked = ground (arith, g.unlinked);
      runs = ground (arith, g.runs);
      idle = g.idle;
      held = λ x n o t. ground (arith, g.held x);
    }
