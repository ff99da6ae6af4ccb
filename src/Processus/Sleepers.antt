-- ===== src/Processus/Sleepers.antt =====
-- Which sleepers verifie_reveille wakes.
use mathlib.Core.Path.{fun_ext}
use kernel_genesis_os.Base.{
  ℕ, ◌≤◌, ◌<◌, ◌≡◌, refl, ◌∙◌, ap, Bool, true, false, List, [], ◌∷◌, ◌++◌, All, arith, leb, ltb,
  ◌||◌, subst, inl, inr, Bool-cases,
}
use kernel_genesis_os.Queue.{queue_del}
use kernel_genesis_os.Queue.Order.{All-mono}
use kernel_genesis_os.Queue.Ring.{Fresh, IsDistinct}
use kernel_genesis_os.Kernel.{Kernel, activable, proc_activables, proc_endormis, modify, set_etat}
use kernel_genesis_os.Kernel.Result.{ok}
use kernel_genesis_os.Kernel.Queues.{add, del, added}
use kernel_genesis_os.Ordonnanceur.{by_prio}
use kernel_genesis_os.Processus.{wake_sleeper, wake_sleepers}

abbrev pub sec_of : Kernel → ℕ → ℕ
sec_of k p = (k.procs p).sec_reveille

-- The kernel after the sleeper `p` was woken.
abbrev pub awake : ℕ → Kernel → Kernel
awake p k = added by_prio proc_activables p (
    modify p (λ r. record r { linked = false })
      (record (set_etat p activable k) { queue = λ h. queue_del p (k.queue h) }))

pub wake_sleeper_ok :
    (p : ℕ) (k : Kernel) → (k.procs p).linked ≡ true → wake_sleeper p k ≡ ok (awake p k)
unfolding wake_sleeper del add
wake_sleeper_ok p k e = ground arith

pub queue_del-head : (p : ℕ) (ps : List ℕ) → Fresh p ps → queue_del p (p ∷ ps) ≡ ps
unfolding queue_del
queue_del-head p ps f = ground (arith, rest p ps f)
  where
    rest : (p : ℕ) (ps : List ℕ) → Fresh p ps → queue_del p ps ≡ ps
    rest p [] f = refl
    rest p (x ∷ xs) f = ground (arith, f.0, rest p xs f.1)

pub same_sec : (p : ℕ) (k : Kernel) → sec_of (awake p k) ≡ sec_of k
same_sec p k = fun_ext λ x. ground arith

-- Nobody at the front of a list has to be woken.
abbrev pub SleepsOn : (ℕ → ℕ) → ℕ → List ℕ → Type 0
SleepsOn sec ticks [] = Unit {0}
SleepsOn sec ticks (p ∷ ps) = ticks < sec p

-- How a round of wake-ups ends: the first sleepers are woken, the others sleep on.
pub record Wakes (ticks limit : ℕ) (q : List ℕ) (b : Bool) (k : Kernel) : Type 0 where
  pub woken : List ℕ
  pub rest : List ℕ
  pub flag : Bool
  pub after : Kernel
  pub split : q ≡ woken ++ rest
  pub due : All (λ p. sec_of k p ≤ ticks) woken
  pub early : SleepsOn (sec_of k) ticks rest
  pub runs : wake_sleepers ticks limit q b k ≡ ok (flag, after)
  pub sleepers : after.queue proc_endormis ≡ rest
  pub runnable : All (λ p. (after.procs p).etat ≡ activable) woken
  pub keeps : (p : ℕ) → (k.procs p).etat ≡ activable → (after.procs p).etat ≡ activable

-- The loop of verifie_reveille never fails an assertion, provided that the sleepers are distinct
-- and marked as queued: it takes the sleepers off their queue from the front and makes them
-- runnable as long as their time has come, leaves the first whose time has not come and all behind
-- it in the queue, and keeps every process runnable that was.
pub wake_sleepers_lem :
    (ticks limit : ℕ) (q : List ℕ) (b : Bool) (k : Kernel)
    → k.queue proc_endormis ≡ q
    → IsDistinct q
    → All (λ p. (k.procs p).linked ≡ true) q
    → Wakes ticks limit q b k
unfolding wake_sleepers
wake_sleepers_lem ticks limit [] b k e d l = record {
  woken = [];
  rest = [];
  flag = b;
  after = k;
  split = refl;
  due = tt;
  early = tt;
  runs = refl;
  sleepers = e;
  runnable = tt;
  keeps = λ p h. h;
}
wake_sleepers_lem ticks limit (p ∷ ps) b k e d l = elim (Bool-cases (leb (sec_of k p) ticks)) [
  | inl t ↦
      let r : Wakes ticks limit ps (b || ltb limit (k.procs p).prio) (awake p k) =
        wake_sleepers_lem ticks limit ps (b || ltb limit (k.procs p).prio) (awake p k)
          (ap (queue_del p) e ∙ queue_del-head p ps d.0) d.1
          (All-mono (λ x h. ground arith) ps l.1) in
      record {
        woken = p ∷ r.woken;
        rest = r.rest;
        flag = r.flag;
        after = r.after;
        split = ap (λ x. p ∷ x) r.split;
        due = (ground arith, subst (λ s. All (λ x. s x ≤ ticks) r.woken) (same_sec p k) r.due);
        early = subst (λ s. SleepsOn s ticks r.rest) (same_sec p k) r.early;
        runs = rw (t, wake_sleepers) (rw (wake_sleeper_ok p k l.0) r.runs);
        sleepers = r.sleepers;
        runnable = (r.keeps p (ground arith), r.runnable);
        keeps = λ x h. r.keeps x (ground arith);
      }
  | inr f ↦ record {
    woken = [];
    rest = p ∷ ps;
    flag = b;
    after = k;
    split = refl;
    due = tt;
    early = ground arith;
    runs = rw f;
    sleepers = e;
    runnable = tt;
    keeps = λ x h. h;
  }
]
