-- ===== src/Tests.antt =====
-- Concrete runs at which the theorems apply.
pub mod Scheduling
pub mod Synchronisation
pub mod Memory
pub mod Screen
pub mod Orphan
pub mod Running
pub mod Typing
pub mod Programs
pub mod Receiving
pub mod Ending
pub mod Waiting
use kernel_genesis_os.Base.{
  ℕ, ◌+◌, ◌≡◌, refl, ℤ, pos, negsuc, Bool, true, false, Option, some, none, List, [], ◌∷◌, arith,
  ◌==◌, if◌then◌else◌, All, ltb, Bool-cases, inl, inr, subst,
}
use kernel_genesis_os.Kernel.{
  Processus, Kernel, Head, Etat, File, Message, value, elu, activable, endormi, zombie,
  attend_semaphore, attend_fils, attend_file, proc_activables, proc_endormis, proc_mourants,
  proc_bloque_es, attente_sem, attente_file,
}
use kernel_genesis_os.Ordonnanceur.{canary_value_a}
use kernel_genesis_os.Ordonnanceur.Reap.{IsReapable}
use kernel_genesis_os.Semaphore.Count.{IsCount, IsCounted}

abbrev pub processus : Etat → ℕ → Bool → List ℕ → Option ℕ → Processus
processus etat prio linked fils pere = record {
  nom = [];
  etat = etat;
  prio = prio;
  sec_reveille = prio + 5;
  pile_user = λ i. canary_value_a;
  pile_size_user = 20480;
  pile_kernel = λ i. value 0;
  pile_size_kernel = 20480;
  contexte_esp = 5114;
  fils = fils;
  retval = pos 42;
  pere = pere;
  fid = negsuc 0;
  file_value = pos 0;
  operation_status = pos 1;
  place = 0;
  linked = linked;
}

-- The process 1 runs and has the children 2, which is runnable, and 4, a zombie; 3 waits at the
-- semaphore 0, 5 sleeps until tick 9 and 6 until tick 11, and 7 waits for a child.
abbrev pub people : ℕ → Processus
people p =
    if p == 1
    then processus elu 5 false (4 ∷ 2 ∷ []) none
    else if p == 2
    then processus activable 7 true [] (some 1)
    else if p == 3
    then processus attend_semaphore 3 true [] none
    else if p == 4
    then processus zombie 2 false [] (some 1)
    else if p == 5
    then processus endormi 4 true [] none
    else if p == 6
    then processus endormi 6 true [] none
    else processus attend_fils 0 false [] none

abbrev pub queues : Head → List ℕ
queues proc_activables = 2 ∷ []
queues proc_endormis = 5 ∷ 6 ∷ []
queues (attente_sem s) = if s == 0 then 3 ∷ [] else []
queues _ = []

abbrev pub letters : File
letters = record {
  fid = 2;
  max_msg = 3;
  queue_msg = record { message = pos 8; place = 0 } ∷ record { message = pos 7; place = 0 } ∷ [];
}

abbrev pub busy : Kernel
busy = record {
  procs = people;
  table = λ p. ltb p 8;
  pids = 8 ∷ 9 ∷ [];
  elu = 1;
  queue = queues;
  sems = λ s. if s == 0 then some (negsuc 0) else none;
  sids = 2 ∷ 1 ∷ [];
  files = λ f. if f == 2 then some letters else none;
  fids = 0 ∷ 1 ∷ [];
  esp0 = (1, pos 5119);
}

pub busy-IsReapable : IsReapable busy
busy-IsReapable = record { fils = λ p. ground arith; unlinked = λ p t. ground arith }

pub busy-IsCounted : IsCounted busy
busy-IsCounted s c e = elim (Bool-cases (s == 0)) [
  | inl t ↦
      let i : negsuc 0 ≡ c = ground arith in
      subst (λ z. IsCount z (busy.queue (attente_sem s))) i
        (record { low = ground arith; high = ground arith; length = ground arith })
  | inr f ↦ ground arith
]
