-- ===== src/Files/Transfer.antt =====
-- psend and preceive of kernel/files.c.
use kernel_genesis_os.Base.{
  ℤ, pos, negsuc, eqb_ℤ, Bool, none, some, ltb, ◌==◌, ◌&&◌, not, if◌then◌else◌,
}
use kernel_genesis_os.Queue.{queue_empty}
use kernel_genesis_os.Kernel.{Kernel, File, attente_file, modify}
use kernel_genesis_os.Kernel.Result.{Result, ok, ◌>>=◌}
use kernel_genesis_os.Kernel.Resume.{Resume, returns, after_psend, after_preceive, returns_to}
use kernel_genesis_os.Ordonnanceur.{ordonnanceur}
use kernel_genesis_os.Processus.{error, then_return, reschedule_if}
use kernel_genesis_os.Files.{
  file_at, nb_msg, add_msg, retire_msg, retire_proc, add_proc, resume_proc,
}

-- What both calls save in the running process first.
unfoldable pub prepare : ℤ → Kernel → Kernel
prepare value k = modify k.elu (λ r. record r { file_value = value; operation_status = pos 1 }) k

-- psend to a process that waits for a message.
unfoldable pub hand_over : File → ℤ → Kernel → Result Kernel
hand_over f message k = do
  let limit = (k.procs k.elu).prio
  (p, k₁) ← retire_proc f k
  k₂ ← resume_proc (pos 1) p (modify p (λ r. record r { file_value = message }) k₁)
  reschedule_if (ltb limit (k₂.procs p).prio) k₂

-- The caller goes to sleep at the queue.
unfoldable pub sleep : File → Resume → Kernel → Result (Kernel × Resume)
sleep f r k = add_proc f k >>= λ k₁. then_return r (ordonnanceur k₁)

unfoldable pub psend_at : File → ℤ → Kernel → Result (Kernel × Resume)
psend_at f message k =
    if nb_msg f == 0 && not (queue_empty (k.queue (attente_file f.fid)))
    then then_return (returns (pos 0)) (hand_over f message k)
    else if f.max_msg == nb_msg f
    then sleep f after_psend k
    else then_return (returns (pos 0)) (add_msg f message k)

-- psend
unfoldable pub psend : ℤ → ℤ → Kernel → Result (Kernel × Resume)
psend fid message k = elim (file_at fid k) [
  | none ↦ error k
  | some f ↦ psend_at f message (prepare message k)
]

-- The end of psend, when its caller is elected again.
unfoldable pub psend_end : Kernel → Result (Kernel × Resume)
psend_end k =
    if eqb_ℤ (k.procs k.elu).operation_status (pos 0) then error k else ok (k, returns (pos 0))

-- preceive, when the message was taken from the full queue and a sender waits: its message follows.
unfoldable pub refill : File → Kernel → Result Kernel
refill f k = do
  let limit = (k.procs k.elu).prio
  (p, k₁) ← retire_proc f k
  k₂ ← add_msg f (k₁.procs p).file_value k₁
  k₃ ← resume_proc (pos 1) p k₂
  reschedule_if (ltb limit (k₃.procs p).prio) k₃

unfoldable pub preceive_at : File → Bool → Kernel → Result (Kernel × Resume)
preceive_at f wanted k = if nb_msg f == 0 then sleep f (after_preceive wanted) k else do
  (message, f', k₁) ← retire_msg f k
  then_return (returns_to wanted (pos 0) message)
      (if queue_empty (k₁.queue (attente_file f.fid)) then ok k₁ else refill f' k₁)

-- preceive; `wanted` says that the pointer for the message is not null.
unfoldable pub preceive : ℤ → Bool → Kernel → Result (Kernel × Resume)
preceive fid wanted k = elim (file_at fid k) [
  | none ↦ error k
  | some f ↦ preceive_at f wanted (prepare (negsuc 0) k)
]

-- The end of preceive, when its caller is elected again.
unfoldable pub preceive_end : Bool → Kernel → Result (Kernel × Resume)
preceive_end wanted k =
    if eqb_ℤ (k.procs k.elu).operation_status (pos 0)
    then error k
    else ok (k, returns_to wanted (pos 0) (k.procs k.elu).file_value)
