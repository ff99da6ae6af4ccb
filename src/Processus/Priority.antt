-- ===== src/Processus/Priority.antt =====
-- chprio of kernel/processus.c.
--
-- When the running process changes its own priority, the code reads the top of `proc_activables` by
-- `queue_top(&proc_activables, Processus, prio)`, with `prio` in the place of the field `chainage`. The
-- pointer is off by the distance of the two fields, so that its `prio` is the first word of the top
-- link: the address that the link's `prev` holds. `Layout` gives these addresses.
use kernel_genesis_os.Base.{
  ℕ, ℤ, pos, negsuc, ltb_ℤ, leb_ℤ, pos_part, false, Option, none, some, List, [], ◌∷◌, ltb, ◌==◌,
  ◌||◌, if◌then◌else◌,
}
use kernel_genesis_os.Kernel.{
  Etat, Kernel, activable, attend_file, proc_activables, attente_file, modify,
}
use kernel_genesis_os.Kernel.Result.{Result, ok, ◌>>=◌, ◌>>◌, guard, failed_assertion}
use kernel_genesis_os.Kernel.Resume.{Resume, returns}
use kernel_genesis_os.Kernel.Queues.{add, del}
use kernel_genesis_os.Ordonnanceur.{by_prio, is_zombie}
use kernel_genesis_os.Processus.{error, then_return, reschedule_if, proc_at, prio_max}

-- Addresses, as the 32-bit integers that the code compares: of each process's `chainage`, of the head
-- `proc_activables`, and the word at the distance of `prio` from the null pointer.
pub record Layout : Type 0 where
  pub chainage : ℕ → ℤ
  pub activables : ℤ
  pub low_word : ℤ

abbrev pub prev_word : Layout → ℤ → List ℕ → ℤ
prev_word l before [] = l.low_word
prev_word l before (x ∷ []) = before
prev_word l before (x ∷ y ∷ ys) = prev_word l (l.chainage x) (y ∷ ys)

-- `procActiablePrio->prio`, as the code reads it.
unfoldable pub top_word : Layout → List ℕ → ℤ
top_word l q = prev_word l l.activables q

abbrev pub fid_file : ℤ → Kernel → Option ℕ
fid_file (pos f) k = if ltb f 10 then elim (k.files f) [ none ↦ none | some _ ↦ some f ] else none
fid_file (negsuc n) k = none

-- What chprio does to a process other than the running one, by its state.
unfoldable pub requeue : Etat → ℕ → Kernel → Result Kernel
requeue activable p k = do
  k₁ ← del p k
  k₂ ← add by_prio proc_activables p k₁
  reschedule_if (ltb (k₂.procs k₂.elu).prio (k₂.procs p).prio) k₂
requeue attend_file p k = elim (fid_file (k.procs p).fid k) [
  | none ↦ guard false failed_assertion >> ok k
  | some f ↦ del p k >>= add by_prio (attente_file f) p
]
requeue _ p k = ok k

unfoldable pub chprio_at : Layout → ℕ → ℕ → Kernel → Result Kernel
chprio_at l p prio k =
    let k₁ : Kernel = modify p (λ r. record r { prio = prio }) k in
    if p == k.elu
    then reschedule_if (ltb_ℤ (pos prio) (top_word l (k₁.queue proc_activables))) k₁
    else requeue (k₁.procs p).etat p k₁

-- chprio
unfoldable pub chprio : Layout → ℤ → ℤ → Kernel → Result (Kernel × Resume)
chprio l pid prio k =
    if leb_ℤ pid (pos 0) || leb_ℤ prio (pos 0) || ltb_ℤ prio_max prio
    then error k
    else elim (proc_at pid k) [
      | none ↦ error k
      | some p ↦
          if is_zombie (k.procs p).etat
          then error k
          else then_return (returns (pos (k.procs p).prio)) (chprio_at l p (pos_part prio) k)
    ]
