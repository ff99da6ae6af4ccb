-- ===== src/Kernel.antt =====
-- The kernel's shared state: kernel/processus.h, kernel/semaphore.h, kernel/files.h and the globals
-- of kernel/processus.c, kernel/semaphore.c and kernel/files.c.
--
-- A pointer to a Processus is its `pid`: the table's entry and the structure are made and freed
-- together. A list head is a `Head`, and a queue is a list (see Queue.antt). `linked` says
-- that the process's `chainage` is not null, which the assertions of queue.h test.
pub mod Result
pub mod Resume
pub mod Queues
pub mod Ends
use kernel_genesis_os.Base.{ℕ, ℤ, Bool, false, true, Option, List, ◌==◌, if◌then◌else◌, update}

-- enum Etat
pub data Etat : Type 0 where
  elu activable endormi mourant zombie attend_fils attend_file attend_semaphore attend_es : Etat

-- A word of a kernel stack: a number, the address of a word of the process's own user stack, or the
-- address of iret_func.
pub data Word : Type 0 where
  value user_word : ℕ → Word
  iret_func : Word

-- struct _Processus. A stack is its words; `contexte_esp` is the saved stack pointer, contexte[1], as
-- a word of the kernel stack, and the other saved registers are the hardware's.
pub record Processus : Type 0 where
  pub nom : List ℕ
  pub etat : Etat
  pub prio : ℕ
  pub sec_reveille : ℕ
  pub pile_user : ℕ → ℕ
  pub pile_size_user : ℕ
  pub pile_kernel : ℕ → Word
  pub pile_size_kernel : ℕ
  pub contexte_esp : ℕ
  pub fils : List ℕ
  pub retval : ℤ
  pub pere : Option ℕ
  pub fid : ℤ
  pub file_value : ℤ
  pub operation_status : ℤ
  pub place : ℕ
  pub linked : Bool

-- struct _Message
pub record Message : Type 0 where
  pub message : ℤ
  pub place : ℕ

-- struct _File, without `queueAttente`: that is the queue at `attente_file fid`.
pub record File : Type 0 where
  pub fid : ℕ
  pub max_msg : ℕ
  pub queue_msg : List Message

-- The list heads that a process's `chainage` can hang on.
pub data Head : Type 0 where
  proc_activables proc_endormis proc_mourants proc_bloque_es : Head
  attente_sem attente_file : ℕ → Head

abbrev pub same_head : Head → Head → Bool
same_head proc_activables proc_activables = true
same_head proc_endormis proc_endormis = true
same_head proc_mourants proc_mourants = true
same_head proc_bloque_es proc_bloque_es = true
same_head (attente_sem i) (attente_sem j) = i == j
same_head (attente_file i) (attente_file j) = i == j
same_head _ _ = false

pub record Kernel : Type 0 where
  pub procs : ℕ → Processus  -- the structures
  pub table : ℕ → Bool  -- tableDesProcs[pid] != NULL
  pub pids : List ℕ  -- PidLibreTete
  pub elu : ℕ  -- ProcElu
  pub queue : Head → List ℕ
  pub sems : ℕ → Option ℤ  -- tableauSem: the count of each semaphore
  pub sids : List ℕ  -- sid_liste
  pub files : ℕ → Option File  -- tableauFile
  pub fids : List ℕ  -- fid_liste
  pub esp0 : ℕ × ℤ  -- tss.esp0: a process and a word of its kernel stack

-- ProcIdle, the process of pid 0.
abbrev pub proc_idle : ℕ
proc_idle = 0

abbrev pub modify : ℕ → (Processus → Processus) → Kernel → Kernel
modify p f k = record k { procs = update k.procs p (f (k.procs p)) }

abbrev pub set_etat : ℕ → Etat → Kernel → Kernel
set_etat p e = modify p λ r. record r { etat = e }

abbrev pub set_queue : Head → List ℕ → Kernel → Kernel
set_queue h xs k = record k { queue = λ j. if same_head j h then xs else k.queue j }
