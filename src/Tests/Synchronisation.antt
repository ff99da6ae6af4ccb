-- ===== src/Tests/Synchronisation.antt =====
-- The theorems on semaphores and message queues at concrete calls.
use kernel_genesis_os.Base.{◌≡◌, refl, pos, true, [], ◌∷◌, ◌++◌, arith}
use kernel_genesis_os.Kernel.{Kernel, attente_file}
use kernel_genesis_os.Kernel.Result.{ok}
use kernel_genesis_os.Kernel.Resume.{returns, returns_to}
use kernel_genesis_os.Files.{file_at}
use kernel_genesis_os.Files.Transfer.{psend, preceive}
use kernel_genesis_os.Files.Fifo.{IsAt, content, psend_appends, preceive_takes}
use kernel_genesis_os.Tests.{busy, letters}

letters-IsAt : IsAt 2 letters busy
unfolding file_at
letters-IsAt = record { found = refl; own = refl; ranks = (refl, (refl, tt)) }

psend_appends_example :
    (k' : Kernel) × (f' : _) × (psend (pos 2) (pos 9) busy ≡ ok (k', returns (pos 0)))
    × IsAt 2 f' k'
    × (content f' ≡ content letters ++ pos 9 ∷ [])
    × (f'.max_msg ≡ 3)
    × (k'.queue (attente_file 2) ≡ [])
psend_appends_example = psend_appends 2 letters (pos 9) busy letters-IsAt (omega arith) refl

preceive_takes_example :
    (k' : Kernel) × (f' : _) × (preceive (pos 2) true busy
      ≡ ok (k', returns_to true (pos 0) (pos 7)))
    × IsAt 2 f' k'
    × (content f' ≡ pos 8 ∷ [])
    × (f'.max_msg ≡ 3)
    × (k'.queue (attente_file 2) ≡ [])
unfolding content
preceive_takes_example =
    preceive_takes 2 letters (pos 7) (pos 8 ∷ []) true busy letters-IsAt refl refl
