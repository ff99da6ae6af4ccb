-- ===== src/Coherence/Leaving.antt =====
-- Who runs after a process of kernel/processus.c or kernel/semaphore.c gave the processor up.
use kernel_genesis_os.Base.{
  ℕ, ◌+◌, ◌≡◌, ◌≢◌, ◌⊎◌, refl, sym, ◌∙◌, ap, subst, Bool, true, false, Option, none, some, [], ◌∷◌,
  ℤ, ◌==◌, ◌||◌, arith, Bool-cases, inl, inr,
}
use kernel_genesis_os.Queue.{queue_empty}
use kernel_genesis_os.Kernel.{
  Etat, Kernel, elu, activable, zombie, mourant, proc_activables, proc_mourants, proc_idle, modify,
  set_etat,
}
use kernel_genesis_os.Kernel.Result.{Result, ok, os_panic, >>=-eq-ok, guard-eq-ok}
use kernel_genesis_os.Kernel.Resume.{never}
use kernel_genesis_os.Kernel.Queues.{add-eq-ok}
use kernel_genesis_os.Ordonnanceur.{
  by_prio, free_mourant_queue, give_up, elect, switch, ordonnanceur, check_canary,
}
use kernel_genesis_os.Ordonnanceur.Frame.{free_mourant_queue-SameWork}
use kernel_genesis_os.Ordonnanceur.Elect.{elect-eq-ok}
use kernel_genesis_os.Processus.{exit, leave, wake_father, waits_for_child, then_return}
use kernel_genesis_os.Coherence.{count}
use kernel_genesis_os.Coherence.Moves.{count-queue_add, count-append}
use kernel_genesis_os.Coherence.Scheduler.{IsGood}
use kernel_genesis_os.Coherence.Caller.{HasLivingFather}
use kernel_genesis_os.Coherence.Processes.{exit-IsGood}

-- The states of a process that has the processor or waits for it.
abbrev pub is_runnable : Etat → Bool
is_runnable elu = true
is_runnable activable = true
is_runnable _ = false

-- The process cannot be elected: its state, and its place in no queue of runnable processes.
pub record IsAside (q : ℕ) (k : Kernel) : Type 0 where
  pub etat : is_runnable (k.procs q).etat ≡ false
  pub out : count q (k.queue proc_activables) ≡ 0

-- What a reschedule leaves of a process: who waits goes on waiting, a zombie can be put with the dead.
abbrev pub KeepsEtat : ℕ → Kernel → Kernel → Type 0
KeepsEtat q k k' =
    ((k'.procs q).etat ≡ (k.procs q).etat)
    ⊎ (((k.procs q).etat ≡ zombie) × ((k'.procs q).etat ≡ mourant))

pub record Waits (q : ℕ) (k k' : Kernel) : Type 0 where
  pub aside : IsAside q k'
  pub keeps : KeepsEtat q k k'

give_up-Waits :
    (e : Etat) (p q : ℕ) (k k' : Kernel)
    → (k.procs p).etat ≡ e
    → give_up e p k ≡ ok k'
    → IsAside q k
    → Waits q k k'
unfolding give_up
give_up-Waits elu p q k k' i h a =
    let (u, j) = add-eq-ok by_prio proc_activables p (set_etat p activable k) k' h in
    let c =
      count-queue_add (λ x. by_prio ((set_etat p activable k).procs x)) q p
        (k.queue proc_activables) in
    rw j (record {
      aside = record {
        etat = ground (arith, a.etat, i);
        out = ground (arith, a.etat, a.out, i, c);
      };
      keeps = ground (arith, a.etat, i);
    })
give_up-Waits activable p q k k' i h a =
    let (u, j) = add-eq-ok by_prio proc_activables p (set_etat p activable k) k' h in
    let c =
      count-queue_add (λ x. by_prio ((set_etat p activable k).procs x)) q p
        (k.queue proc_activables) in
    rw j (record {
      aside = record {
        etat = ground (arith, a.etat, i);
        out = ground (arith, a.etat, a.out, i, c);
      };
      keeps = ground (arith, a.etat, i);
    })
give_up-Waits mourant p q k k' i h a =
    let (u, j) = add-eq-ok by_prio proc_mourants p k k' h in
    rw j (record {
      aside = record { etat = ground (arith, a.etat); out = ground (arith, a.out) };
      keeps = ground (arith, a.etat);
    })
give_up-Waits e p q k k' i h a =
    let j : k ≡ k' = ground arith in rw (← j) (record { aside = a; keeps = inl refl })

elect-Waits : (q : ℕ) (k k' : Kernel) → elect k ≡ ok k' → IsAside q k → Waits q k k'
unfolding count
elect-Waits q k k' h a =
    let (p, rest, e, i) = elect-eq-ok k k' h in
    let c : count q rest + count q (p ∷ []) ≡ 0 =
      sym (count-append q rest (p ∷ [])) ∙ ap (count q) (sym e) ∙ a.out in
    rw i (record {
      aside = record { etat = ground (arith, a.etat, c); out = ground (arith, c) };
      keeps = ground (arith, c);
    })

Waits-trans : (q : ℕ) (k l m : Kernel) → Waits q k l → Waits q l m → Waits q k m
Waits-trans q k l m a b = record { aside = b.aside; keeps = ground (arith, a.keeps, b.keeps) }

-- A process that does not run, and is not in the queue of runnable processes, is not elected.
pub ordonnanceur-Waits :
    (q : ℕ) (k k' : Kernel) → ordonnanceur k ≡ ok k' → IsAside q k → Waits q k k'
unfolding ordonnanceur switch
ordonnanceur-Waits q k k' h a =
    let (l, f, r) = >>=-eq-ok (free_mourant_queue k) _ h in
    let w = free_mourant_queue-SameWork k l f in
    let b : Waits q k l = record {
      aside = record {
        etat = ground (arith, a.etat, (w.procs q).etat);
        out = ap (count q) (w.queue proc_activables refl) ∙ a.out;
      };
      keeps = (w.procs q).etat;
    } in
    elim (Bool-cases (queue_empty (l.queue proc_activables))) [
      | inl n ↦
          let i : ◌≡◌ {A = Result Kernel} (ok l) (ok k') = rw n at r in
          let j : l ≡ k' = ground arith in subst (Waits q k) j b
      | inr n ↦
          let (_, h') =
            guard-eq-ok (l.elu == proc_idle || check_canary (l.procs l.elu)) os_panic _
              (rw n at r) in
          let (m, g, e) = >>=-eq-ok (give_up (l.procs l.elu).etat l.elu l) elect h' in
          let c = give_up-Waits (l.procs l.elu).etat l.elu q l m refl g b.aside in
          Waits-trans q k l k' b (Waits-trans q l m k' c (elect-Waits q m k' e c.aside))
    ]

-- Whoever is runnable stays so: a reschedule gives it the processor or leaves it in the queue.
IsRunnable : ℕ → Kernel → Type 0
IsRunnable q k = is_runnable (k.procs q).etat ≡ true

give_up-IsRunnable :
    (e : Etat) (p q : ℕ) (k k' : Kernel) → give_up e p k ≡ ok k' → IsRunnable q k → IsRunnable q k'
unfolding give_up IsRunnable
give_up-IsRunnable elu p q k k' h a =
    let (u, j) = add-eq-ok by_prio proc_activables p (set_etat p activable k) k' h in
    rw j (ground (arith, a))
give_up-IsRunnable activable p q k k' h a =
    let (u, j) = add-eq-ok by_prio proc_activables p (set_etat p activable k) k' h in
    rw j (ground (arith, a))
give_up-IsRunnable mourant p q k k' h a =
    let (u, j) = add-eq-ok by_prio proc_mourants p k k' h in rw j (ground (arith, a))
give_up-IsRunnable e p q k k' h a = let j : k ≡ k' = ground arith in rw (← j) a

pub ordonnanceur-IsRunnable :
    (q : ℕ) (k k' : Kernel)
    → ordonnanceur k ≡ ok k'
    → is_runnable (k.procs q).etat ≡ true
    → is_runnable (k'.procs q).etat ≡ true
unfolding ordonnanceur switch IsRunnable
ordonnanceur-IsRunnable q k k' h a =
    let (l, f, r) = >>=-eq-ok (free_mourant_queue k) _ h in
    let w = free_mourant_queue-SameWork k l f in
    let b : IsRunnable q l = ground (arith, a, (w.procs q).etat) in
    elim (Bool-cases (queue_empty (l.queue proc_activables))) [
      | inl n ↦
          let i : ◌≡◌ {A = Result Kernel} (ok l) (ok k') = rw n at r in
          let j : l ≡ k' = ground arith in subst (IsRunnable q) j b
      | inr n ↦
          let (_, h') =
            guard-eq-ok (l.elu == proc_idle || check_canary (l.procs l.elu)) os_panic _
              (rw n at r) in
          let (m, g, e) = >>=-eq-ok (give_up (l.procs l.elu).etat l.elu l) elect h' in
          let c = give_up-IsRunnable (l.procs l.elu).etat l.elu q l m g b in
          let (p, rest, u, i) = elect-eq-ok m k' e in rw i (ground (arith, c))
    ]

-- What exit leaves before its reschedule: its caller is aside, and the father that waited is runnable.
leave-IsAside :
    (pere : Option ℕ) (k l : Kernel)
    → (k.procs k.elu).etat ≡ elu
    → count k.elu (k.queue proc_activables) ≡ 0
    → leave pere k.elu k ≡ ok l
    → IsAside k.elu l
      × (l.elu ≡ k.elu)
      × ((f : ℕ)
          → pere ≡ some f
          → waits_for_child (k.procs f).etat ≡ true
          → is_runnable (l.procs f).etat ≡ true)
unfolding leave wake_father
leave-IsAside none k l r c h =
    let i : set_etat k.elu mourant k ≡ l = ground arith in
    rw (← i) (record { etat = ground arith; out = c }, refl, λ f e w. cc)
leave-IsAside (some f) k l r c h =
    let k₁ = set_etat k.elu zombie k in
    elim (Bool-cases (waits_for_child (k₁.procs f).etat)) [
      | inl t ↦
          let (u, i) =
            add-eq-ok by_prio proc_activables f (set_etat f activable k₁) l (rw t at h) in
          let n : f ≢ k.elu = λ x. ground arith in
          let d =
            count-queue_add (λ x. by_prio ((set_etat f activable k₁).procs x)) k.elu f
              (k.queue proc_activables) in
          rw i (
            record { etat = ground arith; out = ground (arith, c, d) },
            refl,
            λ g e w. ground arith,
          )
      | inr t ↦
          let j : ◌≡◌ {A = Result Kernel} (ok k₁) (ok l) = rw t at h in
          let i : k₁ ≡ l = ground arith in
          rw (← i) (record { etat = ground arith; out = c }, refl, λ g e w. ground arith)
    ]

-- exit ends without a fault and does not return, and leaves the kernel good, provided that it is
-- good before, that the caller is not the idle process, and that no dead process that is still in
-- the table has it among its children. Another process has the processor, the caller is not
-- runnable any more, and the caller's father, if it waited for a child, is.
pub exit-elects :
    (retval : ℤ) (k : Kernel)
    → IsGood k
    → k.elu ≢ 0
    → HasLivingFather k k.elu
    → (l : Kernel) × (exit retval k ≡ ok (l, never))
      × IsGood l
      × (l.elu ≢ k.elu)
      × (is_runnable (l.procs k.elu).etat ≡ false)
      × ((f : ℕ)
          → (k.procs k.elu).pere ≡ some f
          → waits_for_child (k.procs f).etat ≡ true
          → is_runnable (l.procs f).etat ≡ true)
unfolding exit then_return
exit-elects retval k g ne v =
    let ((l, r), e, h) = exit-IsGood retval k g ne v in
    let k₁ : Kernel = modify k.elu (λ r. record r { retval = retval }) k in
    let (m, a, b) = >>=-eq-ok (leave (k.procs k.elu).pere k.elu k₁) _ e in
    let (n, o, c) = >>=-eq-ok (ordonnanceur m) _ b in
    let i : n ≡ l = ground arith in
    let j : never ≡ r = ground arith in
    let out : count k.elu (k.queue proc_activables) ≡ 0 =
      ground (arith, g.unlinked, g.coherent.once proc_activables k.elu) in
    let (s, u, w) = leave-IsAside (k.procs k.elu).pere k₁ m (ground (arith, g.runs)) out a in
    let o' : ordonnanceur m ≡ ok l = o ∙ ap ok i in
    let z = ordonnanceur-Waits k.elu m l o' s in
    (
      l,
      e ∙ ap (λ x. ok (l, x)) (sym j),
      h,
      λ x. ground (arith, h.runs, z.aside.etat),
      z.aside.etat,
      λ f p t. ordonnanceur-IsRunnable f m l o' (w f p (ground (arith, t))),
    )
