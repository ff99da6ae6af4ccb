-- ===== src/Coherence/Alarm.antt =====
-- Who sleeps on after verifie_reveille of kernel/processus.c.
use kernel_genesis_os.Base.{
  ℕ, ◌<◌, ◌≡◌, ◌≢◌, refl, Bool, true, false, List, [], ◌∷◌, ◌==◌, ◌||◌, arith, leb, ltb, All,
  Bool-cases, inl, inr, subst, ap, ◌∙◌, sym,
}
use kernel_genesis_os.Queue.{queue_del}
use kernel_genesis_os.Queue.Order.{IsSorted, All-mono}
use kernel_genesis_os.Queue.Ring.{Fresh}
use kernel_genesis_os.Kernel.{Kernel, endormi, proc_endormis}
use kernel_genesis_os.Kernel.Result.{ok}
use kernel_genesis_os.Processus.{verifie_reveille, wake_sleepers, reschedule_if}
use kernel_genesis_os.Processus.Sleepers.{awake, wake_sleeper_ok, sec_of, queue_del-head, same_sec}
use kernel_genesis_os.Ordonnanceur.Elsewhere.{SameSync, SameSync-refl, ordonnanceur-SameSync}
use kernel_genesis_os.Coherence.{count}
use kernel_genesis_os.Coherence.Scheduler.{IsGood}
use kernel_genesis_os.Coherence.Caller.{reschedule_if-IsGood}
use kernel_genesis_os.Coherence.Clock.{awake-IsGood}

count-Fresh : (p : ℕ) (ps : List ℕ) → count p ps ≡ 0 → Fresh p ps
unfolding count
count-Fresh p [] e = tt
count-Fresh p (x ∷ xs) e = elim (Bool-cases (p == x)) [
  | inl t ↦ ground (arith, t)
  | inr f ↦ (λ i. ground (arith, i), count-Fresh p xs (ground (arith, f)))
]

All-count {ℓ} : (P : ℕ → Type ℓ) (p : ℕ) (xs : List ℕ) → All P xs → 0 < count p xs → P p
unfolding count
All-count P p [] h lt = absurd (omega arith)
All-count P p (x ∷ xs) h lt = elim (Bool-cases (p == x)) [
  | inl t ↦ let i : x ≡ p = ground arith in subst P i h.0
  | inr f ↦ All-count P p xs h.1 (ground (arith, f))
]

-- How the loop of verifie_reveille ends: who sleeps on has a time to come.
record Rings (ticks limit : ℕ) (q : List ℕ) (b : Bool) (k : Kernel) : Type 0 where
  flag : Bool
  after : Kernel
  runs : wake_sleepers ticks limit q b k ≡ ok (flag, after)
  good : IsGood after
  later : All (λ p. ticks < sec_of after p) (after.queue proc_endormis)

rings :
    (ticks limit : ℕ) (q : List ℕ) (b : Bool) (k : Kernel)
    → IsGood k
    → k.queue proc_endormis ≡ q
    → IsSorted (sec_of k) q
    → Rings ticks limit q b k
unfolding wake_sleepers count
rings ticks limit [] b k g e s = record {
  flag = b;
  after = k;
  runs = refl;
  good = g;
  later = rw e tt;
}
rings ticks limit (p ∷ ps) b k g e s = elim (Bool-cases (leb (k.procs p).sec_reveille ticks)) [
  | inl t ↦
      let c = g.coherent in
      let n : count p (k.queue proc_endormis) ≡ count p (p ∷ ps) = ap (count p) e in
      let lt : 0 < count p (k.queue proc_endormis) = ground (arith, n) in
      let z : count p ps ≡ 0 = ground (arith, n, c.once proc_endormis p) in
      let d : (awake p k).queue proc_endormis ≡ ps =
        ap (queue_del p) e ∙ queue_del-head p ps (count-Fresh p ps z) in
      let r : Rings ticks limit ps (b || ltb limit (k.procs p).prio) (awake p k) =
        rings ticks limit ps (b || ltb limit (k.procs p).prio) (awake p k) (awake-IsGood p k g lt) d
          (subst (λ f. IsSorted f ps) (sym (same_sec p k)) s.1) in
      record {
        flag = r.flag;
        after = r.after;
        runs =
            rw (t, wake_sleepers)
              (rw (wake_sleeper_ok p k (ground (arith, c.once proc_endormis p))) r.runs);
        good = r.good;
        later = r.later;
      }
  | inr f ↦ record {
    flag = b;
    after = k;
    runs = rw f;
    good = g;
    later = rw e (ground (arith, f), All-mono (λ x h. ground (arith, f, h)) ps s.0);
  }
]

pub reschedule_if-SameSync : (b : Bool) (k k' : Kernel) → reschedule_if b k ≡ ok k' → SameSync k k'
unfolding reschedule_if
reschedule_if-SameSync true k k' e = ordonnanceur-SameSync k k' e
reschedule_if-SameSync false k k' e =
    let i : k ≡ k' = ground arith in subst (SameSync k) i (SameSync-refl k)

-- verifie_reveille ends without a fault, and leaves a good kernel in which every process that still
-- sleeps has a time to wake up after the tick, provided that the kernel is good before and that the
-- queue of the sleepers is in the order of their times.
pub verifie_reveille-wakes :
    (ticks : ℕ) (k : Kernel)
    → IsGood k
    → IsSorted (sec_of k) (k.queue proc_endormis)
    → (l : Kernel) × (verifie_reveille ticks k ≡ ok l)
      × IsGood l
      × ((p : ℕ) → l.table p ≡ true → (l.procs p).etat ≡ endormi → ticks < (l.procs p).sec_reveille)
unfolding verifie_reveille
verifie_reveille-wakes ticks k g s =
    let r = rings ticks (k.procs k.elu).prio (k.queue proc_endormis) false k g refl s in
    let (l, e, h) = reschedule_if-IsGood r.flag r.after r.good in
    let w = reschedule_if-SameSync r.flag r.after l e in
    let c = h.coherent in
    (
      l,
      rw r.runs e,
      h,
      λ p t i.
          let ne : p ≢ l.elu = λ j. ground (arith, h.runs) in
          let u : (l.procs p).linked ≡ true = ground (arith, h.held p) in
          let n : 0 < count p (l.queue proc_endormis) = c.kept proc_endormis p refl i u in
          let v : ticks < sec_of r.after p =
            All-count (λ q. ticks < sec_of r.after q) p (r.after.queue proc_endormis) r.later
              (subst (λ q. 0 < count p q) w.sleepers n) in
          ground (arith, v, w.sec_reveille p),
    )
