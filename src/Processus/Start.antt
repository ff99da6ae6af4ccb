-- ===== src/Processus/Start.antt =====
-- start of kernel/processus.c.
use kernel_genesis_os.Base.{
  ℕ, zero, suc, ◌+◌, ◌-◌, ◌/◌, ℤ, pos, leb_ℤ, ltb_ℤ, pos_part, Bool, true, false, Option, none,
  some, List, [], ◌∷◌, ltb, ◌==◌, ◌||◌, not, if◌then◌else◌, update,
}
use kernel_genesis_os.Kernel.{
  Processus, Kernel, Word, value, user_word, iret_func, activable, proc_activables, proc_idle,
  modify,
}
use kernel_genesis_os.Kernel.Result.{Result, ◌>>=◌}
use kernel_genesis_os.Kernel.Resume.{Resume, returns}
use kernel_genesis_os.Kernel.Queues.{add}
use kernel_genesis_os.Ordonnanceur.{by_prio, canary_value_a}
use kernel_genesis_os.Processus.{error, then_return, reschedule_if, add_pid, new_pid, prio_max}

abbrev pub ulong_max : ℕ
ulong_max = 4294967295

-- USER_STACK_SIZE * sizeof(int32_t), and the same of the kernel stack
abbrev pub stack_octets : ℕ
stack_octets = 20480

-- The arguments of start. Addresses are numbers, and a name is its bytes up to the final zero.
pub record Launch : Type 0 where
  pub pt_func : ℕ
  pub ssize : ℕ
  pub prio : ℤ
  pub name : Option (List ℕ)
  pub arg : ℕ

-- What the allocator answers: whether it has memory for the structure, the user stack and the kernel
-- stack, and what the stacks hold.
pub record Memory : Type 0 where
  pub proc : Bool
  pub user : Bool
  pub kernel : Bool
  pub user_words : ℕ → ℕ
  pub kernel_words : ℕ → Word

abbrev take_bytes : ℕ → List ℕ → List ℕ
take_bytes zero s = []
take_bytes (suc n) [] = []
take_bytes (suc n) (c ∷ s) = c ∷ take_bytes n s

-- strncpy(proc->nom, name, sizeof(proc->nom) - 1) into a zeroed field of 20 bytes.
unfoldable pub nom_of : Option (List ℕ) → List ℕ
nom_of none = 78 ∷ 111 ∷ 78 ∷ 97 ∷ 109 ∷ 101 ∷ []
nom_of (some s) = take_bytes 19 s

-- The four writes to the user stack of `n` words.
unfoldable pub user_stack : ℕ → ℕ → (ℕ → ℕ) → ℕ → ℕ
user_stack n arg w =
    let w₁ = update (update w 0 canary_value_a) (n - 1) canary_value_a in
    update (update w₁ (n - 2) arg) (n - 3) 0x1100000

-- The six writes to the kernel stack of `n` words: SS, ESP, EFLAGS, CS, EIP, and iret_func.
unfoldable pub kernel_stack : ℕ → ℕ → ℕ → (ℕ → Word) → ℕ → Word
kernel_stack n user_top pt_func w =
    let w₁ = update (update w (n - 1) (value 0x4b)) (n - 2) (user_word user_top) in
    let w₂ = update (update w₁ (n - 3) (value 0x202)) (n - 4) (value 0x43) in
    update (update w₂ (n - 5) (value pt_func)) (n - 6) iret_func

-- The new structure, before its father is known. The allocator zeroes the fields that are not set.
unfoldable pub new_processus : Launch → Memory → Processus
new_processus a m =
    let octets = a.ssize + stack_octets in
    let n = octets / 4 in
    let kn : ℕ = stack_octets / 4 in
    record {
      nom = nom_of a.name;
      etat = activable;
      prio = pos_part a.prio;
      sec_reveille = 0;
      pile_user = user_stack n a.arg m.user_words;
      pile_size_user = octets;
      pile_kernel = kernel_stack kn (n - 3) a.pt_func m.kernel_words;
      pile_size_kernel = stack_octets;
      contexte_esp = kn - 6;
      fils = [];
      retval = pos 0;
      pere = none;
      fid = pos 0;
      file_value = pos 0;
      operation_status = pos 0;
      place = 0;
      linked = false;
    }

-- The father of the new process `p`, and its list of children (add_fils).
unfoldable pub adopt : ℕ → Kernel → Kernel
adopt p k =
    if k.elu == proc_idle
    then k
    else modify k.elu (λ r. record r { fils = p ∷ r.fils })
        (modify p (λ r. record r { pere = some k.elu }) k)

-- The process `p` in the table and in the queue of runnable processes.
unfoldable pub install : ℕ → Processus → Kernel → Result Kernel
install p r k =
    let k₁ : Kernel = record k { procs = update k.procs p r; table = update k.table p true } in
    add by_prio proc_activables p (adopt p k₁)

-- Whether start refuses, its pid taken: a priority out of range, a stack too large, no memory.
unfoldable pub refuses : Launch → Memory → Bool
refuses a m =
    leb_ℤ a.prio (pos 0)
    || ltb_ℤ prio_max a.prio
    || ltb (ulong_max - stack_octets) a.ssize
    || not m.proc
    || not m.user
    || not m.kernel

-- start
unfoldable pub start : Launch → Memory → Kernel → Result (Kernel × Resume)
start a m k = elim (new_pid k) [
  | none ↦ error k
  | some (p, k₁) ↦ if refuses a m then error (add_pid p k₁) else do
    k₂ ← install p (new_processus a m) k₁
    then_return (returns (pos p)) (reschedule_if (ltb_ℤ (pos (k₂.procs k₂.elu).prio) a.prio) k₂)
]
