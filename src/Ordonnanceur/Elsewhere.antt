-- ===== src/Ordonnanceur/Elsewhere.antt =====
-- What a reschedule leaves alone: the semaphores, the message queues and their waiting processes, the
-- sleepers, and what a process is to receive.
use kernel_genesis_os.Base.{
  ℕ, ◌≡◌, refl, ◌∙◌, Bool, true, false, arith, inl, inr, Bool-cases, ◌==◌, ◌||◌,
}
use kernel_genesis_os.Queue.{queue_empty}
use kernel_genesis_os.Kernel.{
  Kernel, Head, Processus, Etat, elu, activable, mourant, proc_activables, proc_idle, proc_endormis,
  attente_sem, attente_file, set_etat,
}
use kernel_genesis_os.Kernel.Result.{Result, ok, >>=-eq-ok, guard-eq-ok, os_panic}
use kernel_genesis_os.Kernel.Queues.{add, add-eq-ok}
use kernel_genesis_os.Ordonnanceur.{
  free_mourant_queue, give_up, elect, switch, ordonnanceur, check_canary,
}
use kernel_genesis_os.Ordonnanceur.Frame.{SameWork, free_mourant_queue-SameWork}
use kernel_genesis_os.Ordonnanceur.Elect.{elect-eq-ok}

pub record SameSync (k k' : Kernel) : Type 0 where
  pub sems : k'.sems ≡ k.sems
  pub sids : k'.sids ≡ k.sids
  pub files : k'.files ≡ k.files
  pub fids : k'.fids ≡ k.fids
  pub queue_sem : (s : ℕ) → k'.queue (attente_sem s) ≡ k.queue (attente_sem s)
  pub queue_file : (f : ℕ) → k'.queue (attente_file f) ≡ k.queue (attente_file f)
  pub place : (p : ℕ) → (k'.procs p).place ≡ (k.procs p).place
  pub prio : (p : ℕ) → (k'.procs p).prio ≡ (k.procs p).prio
  pub sleepers : k'.queue proc_endormis ≡ k.queue proc_endormis
  pub sec_reveille : (p : ℕ) → (k'.procs p).sec_reveille ≡ (k.procs p).sec_reveille
  pub file_value : (p : ℕ) → (k'.procs p).file_value ≡ (k.procs p).file_value
  pub operation_status : (p : ℕ) → (k'.procs p).operation_status ≡ (k.procs p).operation_status

pub SameSync-refl : (k : Kernel) → SameSync k k
SameSync-refl k = ground arith

pub SameSync-trans : (k l m : Kernel) → SameSync k l → SameSync l m → SameSync k m
SameSync-trans k l m a b = record {
  sems = b.sems ∙ a.sems;
  sids = b.sids ∙ a.sids;
  files = b.files ∙ a.files;
  fids = b.fids ∙ a.fids;
  queue_sem = λ s. b.queue_sem s ∙ a.queue_sem s;
  queue_file = λ s. b.queue_file s ∙ a.queue_file s;
  place = λ p. b.place p ∙ a.place p;
  prio = λ p. b.prio p ∙ a.prio p;
  sleepers = b.sleepers ∙ a.sleepers;
  sec_reveille = λ p. b.sec_reveille p ∙ a.sec_reveille p;
  file_value = λ p. b.file_value p ∙ a.file_value p;
  operation_status = λ p. b.operation_status p ∙ a.operation_status p;
}

-- A head at which a process waits for a semaphore, a message or a time.
abbrev pub is_sync : Head → Bool
is_sync (attente_sem s) = true
is_sync (attente_file f) = true
is_sync proc_endormis = true
is_sync _ = false

pub add-SameSync :
    (field : Processus → ℕ) (h : Head) (p : ℕ) (k k' : Kernel)
    → is_sync h ≡ false
    → add field h p k ≡ ok k'
    → SameSync k k'
add-SameSync field h p k k' n e =
    let (f, i) = add-eq-ok field h p k k' e in
    rw i (record {
      sems = refl;
      sids = refl;
      files = refl;
      fids = refl;
      queue_sem = λ s. ground arith;
      queue_file = λ s. ground arith;
      place = λ q. ground arith;
      prio = λ q. ground arith;
      sleepers = ground arith;
      sec_reveille = λ q. ground arith;
      file_value = λ q. ground arith;
      operation_status = λ q. ground arith;
    })

pub set_etat-SameSync : (p : ℕ) (e : Etat) (k : Kernel) → SameSync k (set_etat p e k)
set_etat-SameSync p e k = record {
  sems = refl;
  sids = refl;
  files = refl;
  fids = refl;
  queue_sem = λ s. refl;
  queue_file = λ s. refl;
  place = λ q. ground arith;
  prio = λ q. ground arith;
  sleepers = ground arith;
  sec_reveille = λ q. ground arith;
  file_value = λ q. ground arith;
  operation_status = λ q. ground arith;
}

give_up-SameSync : (e : Etat) (p : ℕ) (k k' : Kernel) → give_up e p k ≡ ok k' → SameSync k k'
unfolding give_up
give_up-SameSync elu p k k' h =
    SameSync-trans _ _ _ (set_etat-SameSync p activable k) (add-SameSync _ _ p _ k' refl h)
give_up-SameSync activable p k k' h =
    SameSync-trans _ _ _ (set_etat-SameSync p activable k) (add-SameSync _ _ p _ k' refl h)
give_up-SameSync mourant p k k' h = add-SameSync _ _ p k k' refl h
give_up-SameSync e p k k' h = ground arith

elect-SameSync : (k k' : Kernel) → elect k ≡ ok k' → SameSync k k'
elect-SameSync k k' h =
    let (p, rest, q, i) = elect-eq-ok k k' h in
    rw i (record {
      sems = refl;
      sids = refl;
      files = refl;
      fids = refl;
      queue_sem = λ s. refl;
      queue_file = λ s. refl;
      place = λ r. ground arith;
      prio = λ r. ground arith;
      sleepers = ground arith;
      sec_reveille = λ r. ground arith;
      file_value = λ r. ground arith;
      operation_status = λ r. ground arith;
    })

switch-SameSync : (k k' : Kernel) → switch k ≡ ok k' → SameSync k k'
unfolding switch
switch-SameSync k k' h =
    let (_, h') = guard-eq-ok (k.elu == proc_idle || check_canary (k.procs k.elu)) os_panic _ h in
    let (l, g, e) = >>=-eq-ok (give_up (k.procs k.elu).etat k.elu k) elect h' in
    SameSync-trans k l k' (give_up-SameSync _ k.elu k l g) (elect-SameSync l k' e)

SameWork-SameSync : (k k' : Kernel) → SameWork k k' → SameSync k k'
SameWork-SameSync k k' w = record {
  sems = w.sems;
  sids = w.sids;
  files = w.files;
  fids = w.fids;
  queue_sem = λ s. w.queue (attente_sem s) refl;
  queue_file = λ s. w.queue (attente_file s) refl;
  place = λ p. (w.procs p).place;
  prio = λ p. (w.procs p).prio;
  sleepers = w.queue proc_endormis refl;
  sec_reveille = λ p. (w.procs p).sec_reveille;
  file_value = λ p. (w.procs p).file_value;
  operation_status = λ p. (w.procs p).operation_status;
}

-- ordonnanceur touches no semaphore, no message queue and nobody who waits at one.
pub ordonnanceur-SameSync : (k k' : Kernel) → ordonnanceur k ≡ ok k' → SameSync k k'
unfolding ordonnanceur
ordonnanceur-SameSync k k' h =
    let (l, f, r) = >>=-eq-ok (free_mourant_queue k) _ h in
    SameSync-trans k l k' (SameWork-SameSync k l (free_mourant_queue-SameWork k l f))
      (elim (Bool-cases (queue_empty (l.queue proc_activables))) [
        | inl n ↦ let i : ◌≡◌ {A = Result Kernel} (ok l) (ok k') = rw n at r in ground arith
        | inr n ↦ switch-SameSync l k' (rw n at r)
      ])
