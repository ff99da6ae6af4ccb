-- ===== src/Files.antt =====
-- kernel/files.c: the message queues.
--
-- The head `attente_file f` holds the processes that wait at the queue `f`, and `File.queue_msg` its
-- messages. The allocations, whose failure the code does not test, are taken to succeed.
pub mod Transfer
pub mod Fifo
use kernel_genesis_os.Base.{
  ℕ, zero, suc, ◌+◌, ℤ, pos, negsuc, neg_ℤ, leb_ℤ, ltb_ℤ, eqb_ℤ, pos_part, Bool, true, false,
  Option, none, some, List, [], ◌∷◌, ltb, ◌==◌, ◌&&◌, ◌||◌, not, if◌then◌else◌, update, length,
}
use kernel_genesis_os.Queue.{queue_add, queue_out, queue_empty}
use kernel_genesis_os.Kernel.{
  Processus, Kernel, File, Message, Head, activable, attend_file, proc_activables, attente_file,
  modify, set_etat, set_queue,
}
use kernel_genesis_os.Kernel.Result.{
  Result, ok, crash, out_of_fuel, ◌>>=◌, ◌>>◌, guard, null_pointer, failed_assertion,
}
use kernel_genesis_os.Kernel.Resume.{Resume, returns, after_psend, after_preceive, returns_to}
use kernel_genesis_os.Kernel.Queues.{add, out}
use kernel_genesis_os.Ordonnanceur.{by_prio, ordonnanceur}
use kernel_genesis_os.Processus.{error, then_return, reschedule_if}

-- NBQUEUE, MAXMSG
abbrev pub nbqueue : ℕ
nbqueue = 10

abbrev pub maxmsg : ℤ
maxmsg = pos 10000

-- add_fid and new_fid: the free identifications, the smallest first, the largest taken first.
unfoldable pub add_fid : ℕ → Kernel → Kernel
add_fid f k = record k { fids = queue_add (λ x. x) f k.fids }

abbrev taken_fid : Kernel → Option (ℕ × List ℕ) → Option (ℕ × Kernel)
taken_fid k none = none
taken_fid k (some (f, rest)) = some (f, record k { fids = rest })

unfoldable pub new_fid : Kernel → Option (ℕ × Kernel)
new_fid k = taken_fid k (queue_out k.fids)

add_fids : ℕ → ℕ → Kernel → Kernel
unfolding add_fid
add_fids zero i k = k
add_fids (suc n) i k = add_fids n (suc i) (add_fid i k)

-- init_files
unfoldable pub init_files : Kernel → Kernel
unfolding add_fids
init_files k = add_fids nbqueue 0 (record k { fids = [] })

-- isFidValideAndExist, and the queue if it does.
unfoldable pub file_at : ℤ → Kernel → Option File
file_at (pos f) k = if ltb f nbqueue then k.files f else none
file_at (negsuc n) k = none

abbrev pub set_file : ℕ → Option File → Kernel → Kernel
set_file f v k = record k { files = update k.files f v }

-- getNbMsg and getNbProcs
abbrev pub nb_msg : File → ℕ
nb_msg f = length f.queue_msg

abbrev pub nb_procs : File → Kernel → ℕ
nb_procs f k = length (k.queue (attente_file f.fid))

abbrev pub by_place : Message → ℕ
by_place m = m.place

-- add_msg
unfoldable pub add_msg : File → ℤ → Kernel → Result Kernel
add_msg f message k = do
  guard (ltb (nb_msg f) f.max_msg) failed_assertion
  let m : Message = record { message = message; place = 0 }
  ok (set_file f.fid (some (record f { queue_msg = queue_add by_place m f.queue_msg })) k)

-- retire_msg: the message, and the queue without it.
unfoldable pub retire_msg : File → Kernel → Result (ℤ × File × Kernel)
retire_msg f k = elim (queue_out f.queue_msg) [
  | none ↦ crash null_pointer
  | some (m, rest) ↦
      let f' : File = record f { queue_msg = rest } in
      ok (m.message, f', set_file f.fid (some f') k)
]

-- retire_proc
unfoldable pub retire_proc : File → Kernel → Result (ℕ × Kernel)
retire_proc f k = elim (out (attente_file f.fid) k) [
  | none ↦ crash failed_assertion
  | some r ↦ ok r
]

-- add_proc, for the running process
unfoldable pub add_proc : File → Kernel → Result Kernel
add_proc f k = do
  k₁ ← add by_prio (attente_file f.fid) k.elu k
  ok (modify k.elu (λ r. record r { fid = pos f.fid; etat = attend_file }) k₁)

-- pcount; `wanted` says that the pointer for the count is not null.
unfoldable pub pcount : ℤ → Bool → Kernel → Resume
pcount fid wanted k = elim (file_at fid k) [
  | none ↦ returns (negsuc 0)
  | some f ↦
      if wanted
      then returns_to true (pos 0)
          (if nb_msg f == 0 then neg_ℤ (pos (nb_procs f k)) else pos (nb_msg f + nb_procs f k))
      else returns (negsuc 0)
]

-- pcreate
unfoldable pub pcreate : ℤ → Kernel → Result (Kernel × Resume)
pcreate max_msg k =
    if leb_ℤ max_msg (pos 0) || ltb_ℤ maxmsg max_msg then error k else elim (new_fid k) [
      | none ↦ error k
      | some (f, k₁) ↦
          if ltb f nbqueue
          then ok (
            set_queue (attente_file f) [] (
                set_file f (some (record { fid = f; max_msg = pos_part max_msg; queue_msg = [] }))
                  k₁),
            returns (pos f),
          )
          else error k₁
    ]

-- A waiting process whose operation is over: `status` says whether it succeeded.
unfoldable pub resume_proc : ℤ → ℕ → Kernel → Result Kernel
resume_proc status p k =
    add by_prio proc_activables p
      (modify p (λ r. record r { etat = activable; fid = negsuc 0; operation_status = status }) k)

-- The loop of pdelete and preset over the waiting processes, a round for each of them. The flag says
-- that one of them has a higher priority than `limit`.
unfoldable pub expel : ℕ → ℕ → ℕ → Bool → Kernel → Result (Bool × Kernel)
expel zero limit f b k = out_of_fuel
expel (suc fuel) limit f b k = elim (out (attente_file f) k) [
  | none ↦ ok (b, k)
  | some (p, k₁) ↦
      resume_proc (pos 0) p k₁ >>= expel fuel limit f (b || ltb limit (k₁.procs p).prio)
]

unfoldable pub expel_all : File → Kernel → Result (Bool × Kernel)
expel_all f k = expel (suc (nb_procs f k)) (k.procs k.elu).prio f.fid false k

-- pdelete
unfoldable pub pdelete : ℤ → Kernel → Result (Kernel × Resume)
pdelete fid k = elim (file_at fid k) [
  | none ↦ error k
  | some f ↦ do
    (b, k₁) ← expel_all f k
    then_return (returns (pos 0)) (reschedule_if b (add_fid f.fid (set_file f.fid none k₁)))
]

-- preset
unfoldable pub preset : ℤ → Kernel → Result (Kernel × Resume)
preset fid k = elim (file_at fid k) [
  | none ↦ error k
  | some f ↦ do
    (b, k₁) ← expel_all f k
    then_return (returns (pos 0))
        (reschedule_if b (set_file f.fid (some (record f { queue_msg = [] })) k₁))
]
