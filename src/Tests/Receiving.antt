-- ===== src/Tests/Receiving.antt =====
-- A message for a process that waits, and a place for one.
use kernel_genesis_os.Base.{◌≡◌, refl, pos, Bool, true, arith, some, [], ◌∷◌}
use kernel_genesis_os.Queue.{queue_add, queue_out}
use kernel_genesis_os.Kernel.{Kernel, File, attente_file}
use kernel_genesis_os.Kernel.Result.{ok}
use kernel_genesis_os.Kernel.Resume.{returns, returns_to, after_preceive, after_psend}
use kernel_genesis_os.Kernel.Queues.{add, out}
use kernel_genesis_os.Ordonnanceur.{
  ordonnanceur, free_mourant_queue, free_mourants, switch, give_up, elect, check_canary,
}
use kernel_genesis_os.Processus.{new_pid, reschedule_if, then_return}
use kernel_genesis_os.Processus.Start.{new_processus, install, adopt, start, refuses, user_stack}
use kernel_genesis_os.Processus.Boot.{init_ordonnanceur, init_idle}
use kernel_genesis_os.Files.{
  init_files, new_fid, add_fid, pcreate, file_at, add_proc, add_msg, nb_msg,
}
use kernel_genesis_os.Files.Transfer.{
  psend_at, psend, preceive, preceive_at, prepare, sleep, preceive_end, psend_end,
}
use kernel_genesis_os.Coherence.Scheduler.{IsGood}
use kernel_genesis_os.Coherence.Messages.{pcreate-IsGood}
use kernel_genesis_os.Coherence.Transfer.{preceive-IsGood, psend-IsGood}
use kernel_genesis_os.Coherence.Handover.{psend-hands_over}
use kernel_genesis_os.Coherence.Refilling.{preceive-lets_in}
use kernel_genesis_os.Files.Fifo.{content}
use kernel_genesis_os.Coherence.Reach.{Reach-IsGood}
use kernel_genesis_os.Tests.Running.{first, first-Reach, kernel_of}

-- USER makes the message queue 9, for three messages.
abbrev with_queue : Kernel
with_queue = kernel_of (pcreate (pos 3) first)

abbrev empty_file : File
empty_file = record { fid = 9; max_msg = 3; queue_msg = [] }

-- USER waits for a message.
abbrev receiving : Kernel
receiving = kernel_of (preceive (pos 9) true with_queue)

with_queue-IsGood : IsGood with_queue
unfolding init_ordonnanceur init_idle start new_pid reschedule_if then_return install adopt
    new_processus add out ordonnanceur free_mourant_queue free_mourants switch give_up elect
    queue_out queue_add refuses check_canary user_stack init_files new_fid add_fid pcreate file_at
    preceive preceive_at prepare sleep add_proc
with_queue-IsGood =
    pcreate-IsGood (pos 3) first (Reach-IsGood first-Reach) (with_queue, returns (pos 9)) refl

receiving-IsGood : IsGood receiving
unfolding init_ordonnanceur init_idle start new_pid reschedule_if then_return install adopt
    new_processus add out ordonnanceur free_mourant_queue free_mourants switch give_up elect
    queue_out queue_add refuses check_canary user_stack init_files new_fid add_fid pcreate file_at
    preceive preceive_at prepare sleep add_proc
receiving-IsGood =
    preceive-IsGood (pos 9) true with_queue with_queue-IsGood (λ e. ground arith)
      (receiving, after_preceive true) refl

receiving-file : file_at (pos 9) receiving ≡ some empty_file
unfolding init_ordonnanceur init_idle start new_pid reschedule_if then_return install adopt
    new_processus add out ordonnanceur free_mourant_queue free_mourants switch give_up elect
    queue_out queue_add refuses check_canary user_stack init_files new_fid add_fid pcreate file_at
    preceive preceive_at prepare sleep add_proc
receiving-file = refl

receiving-waits : receiving.queue (attente_file 9) ≡ 1 ∷ []
unfolding init_ordonnanceur init_idle start new_pid reschedule_if then_return install adopt
    new_processus add out ordonnanceur free_mourant_queue free_mourants switch give_up elect
    queue_out queue_add refuses check_canary user_stack init_files new_fid add_fid pcreate file_at
    preceive preceive_at prepare sleep add_proc
receiving-waits = refl

psend-hands_over_example :
    (l : Kernel) × (psend (pos 9) (pos 42) receiving ≡ ok (l, returns (pos 0)))
    × IsGood l
    × (l.queue (attente_file 9) ≡ [])
    × ((l.procs 1).file_value ≡ pos 42)
    × ((l.procs 1).operation_status ≡ pos 1)
    × ((wanted : Bool)
        → l.elu ≡ 1
        → preceive_end wanted l ≡ ok (l, returns_to wanted (pos 0) (pos 42)))
psend-hands_over_example =
    psend-hands_over 9 empty_file (pos 42) 1 [] receiving receiving-IsGood receiving-file refl refl
      receiving-waits

-- USER makes the message queue 9 for one message, sends 7, and waits to send 8.
abbrev with_place : Kernel
with_place = kernel_of (pcreate (pos 1) first)

abbrev full : Kernel
full = kernel_of (psend (pos 9) (pos 7) with_place)

abbrev sending : Kernel
sending = kernel_of (psend (pos 9) (pos 8) full)

abbrev full_file : File
full_file = record { fid = 9; max_msg = 1; queue_msg = record { message = pos 7; place = 0 } ∷ [] }

with_place-IsGood : IsGood with_place
unfolding init_ordonnanceur init_idle start new_pid reschedule_if then_return install adopt
    new_processus add out ordonnanceur free_mourant_queue free_mourants switch give_up elect
    queue_out queue_add refuses check_canary user_stack init_files new_fid add_fid pcreate file_at
with_place-IsGood =
    pcreate-IsGood (pos 1) first (Reach-IsGood first-Reach) (with_place, returns (pos 9)) refl

full-IsGood : IsGood full
unfolding init_ordonnanceur init_idle start new_pid reschedule_if then_return install adopt
    new_processus add out ordonnanceur free_mourant_queue free_mourants switch give_up elect
    queue_out queue_add refuses check_canary user_stack init_files new_fid add_fid pcreate file_at
    psend psend_at prepare sleep add_proc add_msg
full-IsGood =
    psend-IsGood (pos 9) (pos 7) with_place with_place-IsGood (λ e. ground arith)
      (full, returns (pos 0)) refl

sending-IsGood : IsGood sending
unfolding init_ordonnanceur init_idle start new_pid reschedule_if then_return install adopt
    new_processus add out ordonnanceur free_mourant_queue free_mourants switch give_up elect
    queue_out queue_add refuses check_canary user_stack init_files new_fid add_fid pcreate file_at
    psend psend_at prepare sleep add_proc add_msg
sending-IsGood =
    psend-IsGood (pos 9) (pos 8) full full-IsGood (λ e. ground arith) (sending, after_psend) refl

sending-file : file_at (pos 9) sending ≡ some full_file
unfolding init_ordonnanceur init_idle start new_pid reschedule_if then_return install adopt
    new_processus add out ordonnanceur free_mourant_queue free_mourants switch give_up elect
    queue_out queue_add refuses check_canary user_stack init_files new_fid add_fid pcreate file_at
    psend psend_at prepare sleep add_proc add_msg
sending-file = refl

sending-waits : (sending.queue (attente_file 9) ≡ 1 ∷ []) × ((sending.procs 1).file_value ≡ pos 8)
unfolding init_ordonnanceur init_idle start new_pid reschedule_if then_return install adopt
    new_processus add out ordonnanceur free_mourant_queue free_mourants switch give_up elect
    queue_out queue_add refuses check_canary user_stack init_files new_fid add_fid pcreate file_at
    psend psend_at prepare sleep add_proc add_msg
sending-waits = (refl, refl)

full_file-content : content full_file ≡ pos 7 ∷ []
unfolding content
full_file-content = refl

preceive-lets_in_example :
    (l : Kernel) × (f' : File) × (preceive (pos 9) true sending
      ≡ ok (l, returns_to true (pos 0) (pos 7)))
    × IsGood l
    × (file_at (pos 9) l ≡ some f')
    × (content f' ≡ pos 8 ∷ [])
    × (nb_msg f' ≡ f'.max_msg)
    × (l.queue (attente_file 9) ≡ [])
    × (l.elu ≡ 1 → psend_end l ≡ ok (l, returns (pos 0)))
preceive-lets_in_example =
    preceive-lets_in 9 full_file (pos 7) (pos 8) [] 1 [] true sending sending-IsGood sending-file
      refl refl full_file-content sending-waits.0 sending-waits.1
