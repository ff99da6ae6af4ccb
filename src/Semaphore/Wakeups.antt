-- ===== src/Semaphore/Wakeups.antt =====
-- The counts and the queues of kernel/semaphore.c where processes are woken.
use kernel_genesis_os.Base.{
  ℕ, zero, suc, ◌<◌, ◌≡◌, ◌≢◌, refl, sym, ◌∙◌, ap, ℤ, pos, negsuc, ◌+ℤ◌, ◌-ℤ◌, false, true, some,
  Option, List, [], ◌∷◌, ◌++◌, arith, inl, inr, Option-cases, Bool-cases, length, length-append,
  ◌==◌, ltb, subst,
}
use kernel_genesis_os.Kernel.{Kernel, attente_sem}
use kernel_genesis_os.Kernel.Result.{Result, ok}
use kernel_genesis_os.Kernel.Resume.{Resume, returns}
use kernel_genesis_os.Kernel.Queues.{without, out, out-none, out-eq-some}
use kernel_genesis_os.Semaphore.{set_sem, wake_all, signal_at}
use kernel_genesis_os.Semaphore.Count.{
  IsCount, IsCounted, woken_from, wake_ok, waiter, signal_wakes, signal_counts,
}

-- Only the semaphore `s` may differ.
pub record SameOthers (s : ℕ) (k k' : Kernel) : Type 0 where
  pub sems : (j : ℕ) → j ≢ s → k'.sems j ≡ k.sems j
  pub queue : (j : ℕ) → j ≢ s → k'.queue (attente_sem j) ≡ k.queue (attente_sem j)

pub SameOthers-trans :
    (s : ℕ) (k l m : Kernel) → SameOthers s k l → SameOthers s l m → SameOthers s k m
SameOthers-trans s k l m a b = record {
  sems = λ j n. b.sems j n ∙ a.sems j n;
  queue = λ j n. b.queue j n ∙ a.queue j n;
}

pub IsCounted-at :
    (s : ℕ) (k k' : Kernel)
    → SameOthers s k k'
    → ((c : ℤ) → k'.sems s ≡ some c → IsCount c (k'.queue (attente_sem s)))
    → IsCounted k
    → IsCounted k'
IsCounted-at s k k' o h w j c e = elim (Bool-cases (j == s)) [
  | inl t ↦ let i : j ≡ s = ground arith in rw i (h c (rw i at e))
  | inr f ↦ let n : j ≢ s = ground arith in rw (o.queue j n) (w j c (sym (o.sems j n) ∙ e))
]

-- An operation that returns to its caller at once and keeps the invariant.
abbrev pub Keeps : Result (Kernel × Resume) → Type 0
Keeps r = (k' : Kernel) × (v : ℤ) × (r ≡ ok (k', returns v)) × IsCounted k'

woken_from-SameOthers :
    (status : ℤ) (s p : ℕ) (rest : List ℕ) (k : Kernel)
    → SameOthers s k (woken_from status s p rest k)
woken_from-SameOthers status s p rest k = record { sems = λ j n. refl; queue = λ j n. ground arith }

pub set_sem-SameOthers : (s : ℕ) (c : Option ℤ) (k : Kernel) → SameOthers s k (set_sem s c k)
set_sem-SameOthers s c k = record { sems = λ j n. ground arith; queue = λ j n. refl }

woken_from-queue :
    (status : ℤ) (s p : ℕ) (rest : List ℕ) (k : Kernel)
    → (woken_from status s p rest k).queue (attente_sem s) ≡ rest
woken_from-queue status s p rest k = ground arith

pub IsCounted-set :
    (s : ℕ) (c : ℤ) (k : Kernel)
    → IsCount c (k.queue (attente_sem s))
    → IsCounted k
    → IsCounted (set_sem s (some c) k)
IsCounted-set s c k i w =
    IsCounted-at s k (set_sem s (some c) k) (set_sem-SameOthers s (some c) k)
      (λ d e. let j : c ≡ d = ground arith in rw (← j) i) w

up_free :
    (s n : ℕ) (k : Kernel)
    → IsCount (pos n) (k.queue (attente_sem s))
    → ltb n 32767 ≡ true
    → IsCount (pos n +ℤ pos 1) (k.queue (attente_sem s))
unfolding ◌+ℤ◌
up_free s n k w t = record {
  low = ground arith;
  high = ground arith;
  length = ground (arith, w.length);
}

up_waiting :
    (n : ℕ) (rest : List ℕ) (p : ℕ)
    → IsCount (negsuc n) (rest ++ p ∷ [])
    → IsCount (negsuc n +ℤ pos 1) rest
unfolding ◌+ℤ◌
up_waiting n rest p w =
    let l = length-append rest (p ∷ []) in
    record {
      low = ground (arith, w.low);
      high = ground arith;
      length = ground (arith, w.length, l);
    }

signal_at_full :
    (s n : ℕ) (k : Kernel)
    → IsCount (pos n) (k.queue (attente_sem s))
    → ltb n 32767 ≡ false
    → signal_at s (pos n) k ≡ ok (k, returns (negsuc 1))
unfolding signal_at ◌-ℤ◌
signal_at_full s n k w f = ground (arith, w.high)

pub signal_at_ok :
    (s : ℕ) (c : ℤ) (k : Kernel) → k.sems s ≡ some c → IsCounted k → Keeps (signal_at s c k)
signal_at_ok s (pos n) k e w = elim (Bool-cases (ltb n 32767)) [
  | inl t ↦ (
    set_sem s (some (pos n +ℤ pos 1)) k,
    pos 0,
    signal_counts s (pos n) k (omega arith) (ground arith),
    IsCounted-set s (pos n +ℤ pos 1) k (up_free s n k (w s (pos n) e) t) w,
  )
  | inr f ↦ (k, negsuc 1, signal_at_full s n k (w s (pos n) e) f, w)
]
signal_at_ok s (negsuc n) k e w =
    let (rest, p, q) = waiter (negsuc n) _ (w s (negsuc n) e) (omega arith) in
    (
      woken_from (pos 1) s p rest (set_sem s (some (negsuc n +ℤ pos 1)) k),
      pos 0,
      signal_wakes s (negsuc n) k rest p (w s (negsuc n) e) (omega arith) q,
      IsCounted-at s k _
          (SameOthers-trans s k _ _ (set_sem-SameOthers s (some (negsuc n +ℤ pos 1)) k)
            (woken_from-SameOthers (pos 1) s p rest (set_sem s (some (negsuc n +ℤ pos 1)) k)))
          (λ d e'.
            let j : negsuc n +ℤ pos 1 ≡ d = ground arith in
            subst (IsCount d)
              (sym (woken_from-queue (pos 1) s p rest (set_sem s (some (negsuc n +ℤ pos 1)) k)))
              (subst (λ z. IsCount z rest) j
                (up_waiting n rest p (subst (IsCount (negsuc n)) q (w s (negsuc n) e)))))
          w,
    )

-- The loop of sdelete and sreset wakes everybody who waits at `s`.
pub wake_all_ok :
    (fuel : ℕ) (status : ℤ) (s : ℕ) (k : Kernel)
    → length (k.queue (attente_sem s)) < fuel
    → (k' : Kernel) × (wake_all fuel status s k ≡ ok k')
      × (k'.queue (attente_sem s) ≡ [])
      × SameOthers s k k'
      × (k'.sems ≡ k.sems)
      × (k'.sids ≡ k.sids)
unfolding wake_all
wake_all_ok zero status s k lt = absurd (omega arith)
wake_all_ok (suc fuel) status s k lt = elim (Option-cases (out (attente_sem s) k)) [
  | inl n ↦ (
    k,
    rw (n, wake_all),
    out-none (attente_sem s) k n,
    record { sems = λ j n. refl; queue = λ j n. refl },
    refl,
    refl,
  )
  | inr ((p, l), o) ↦
      let (rest, q, i) = out-eq-some (attente_sem s) k l p o in
      let (k', e, h, same, u, v) = wake_all_ok fuel status s (woken_from status s p rest k) (
        omega (
          arith,
          ap length (woken_from-queue status s p rest k),
          ap length q,
          length-append rest (p ∷ []),
        )) in
      (
        k',
        rw (o, i, wake_all)
            (rw (wake_ok status p (without (attente_sem s) p rest k) (ground arith)) e),
        h,
        SameOthers-trans s k _ k' (woken_from-SameOthers status s p rest k) same,
        u,
        v,
      )
]
