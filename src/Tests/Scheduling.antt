-- ===== src/Tests/Scheduling.antt =====
-- The theorems on queues, processes and system calls at concrete states.
use kernel_genesis_os.Base.{
  ℕ, ◌+◌, ◌==◌, if◌then◌else◌, ◌≡◌, ◌≢◌, refl, pos, negsuc, true, inl, some, none, [], ◌∷◌, ◌++◌,
  arith,
}
use kernel_genesis_os.Queue.{queue_add, queue_out, queue_del}
use kernel_genesis_os.Queue.Order.{of_key, of_key-queue_add, queue_out-oldest}
use kernel_genesis_os.Queue.Links.{Store, add, del}
use kernel_genesis_os.Queue.Ring.{IsRing}
use kernel_genesis_os.Queue.Refine.{add-IsRing}
use kernel_genesis_os.Queue.Remove.{OutImplements, out-OutImplements, del-IsRing}
use kernel_genesis_os.Kernel.{Kernel, proc_mourants, value, modify}
use kernel_genesis_os.Kernel.Result.{ok}
use kernel_genesis_os.Kernel.Resume.{returns, returns_to}
use kernel_genesis_os.Ordonnanceur.{ordonnanceur}
use kernel_genesis_os.Processus.Filiation.{waitpid_loop, remove_fils}
use kernel_genesis_os.Processus.Priority.{Layout, chprio_at}
use kernel_genesis_os.Processus.Blocked.{chprio_self}
use kernel_genesis_os.Processus.Family.{high, waitpid_zombie, start_refused}
use kernel_genesis_os.Processus.Start.{Launch, Memory, start}
use kernel_genesis_os.Processus.Boot.{
  init_ordonnanceur, some_memory, zeroed, IsStarted, init_ordonnanceur_ok,
}
use kernel_genesis_os.Tests.{busy, busy-IsReapable}

-- The ring of the head 1 with the links 2 and 3.
abbrev ring : Store
ring = record {
  next = λ a. if a == 1 then 2 else if a == 2 then 3 else if a == 3 then 1 else 0;
  prev = λ a. if a == 1 then 3 else if a == 2 then 1 else if a == 3 then 2 else 0;
}

ring-IsRing : IsRing ring 1 (2 ∷ 3 ∷ [])
ring-IsRing = record {
  chain = (refl, refl, (refl, refl, (refl, refl)));
  distinct = ((omega arith, (omega arith, tt)), ((omega arith, tt), (tt, tt)));
  nonzero = (omega arith, (omega arith, (omega arith, tt)));
}

add-IsRing_example :
    (m' : Store) × (add (λ a. a) 3 1 4 ring ≡ some m')
    × IsRing m' 1 (queue_add (λ a. a) 4 (2 ∷ 3 ∷ []))
add-IsRing_example =
    add-IsRing (λ a. a) 3 1 4 ring (2 ∷ 3 ∷ []) ring-IsRing
      (omega arith, (omega arith, (omega arith, tt))) (omega arith) refl refl (omega arith)

out-OutImplements_example : OutImplements 1 ring (queue_out (2 ∷ 3 ∷ []))
out-OutImplements_example = out-OutImplements 1 ring (2 ∷ 3 ∷ []) ring-IsRing

del-IsRing_example :
    (m' : Store) × (del 2 ring ≡ some m')
    × IsRing m' 1 (queue_del 2 (2 ∷ 3 ∷ []))
    × (m'.prev 2 ≡ 0)
    × (m'.next 2 ≡ 0)
del-IsRing_example = del-IsRing 1 2 ring [] (3 ∷ []) ring-IsRing

queue_out-oldest_example :
    (of_key (λ a. a) 3 (3 ∷ 3 ∷ []) ≡ of_key (λ a. a) 3 (3 ∷ []) ++ 3 ∷ [])
    × ((k : ℕ) → k ≢ 3 → of_key (λ a. a) k (3 ∷ 3 ∷ []) ≡ of_key (λ a. a) k (3 ∷ []))
unfolding queue_out
queue_out-oldest_example = queue_out-oldest (λ a. a) (3 ∷ 3 ∷ []) {y = 3} {ys = 3 ∷ []} refl

waitpid_zombie_example :
    (k' : Kernel) × (waitpid_loop (pos 4) true busy ≡ ok (k', returns_to true (pos 4) (pos 42)))
    × (k'.queue proc_mourants ≡ [])
    × (k'.elu ≡ 1)
    × ((k'.procs 1).fils ≡ 2 ∷ [])
unfolding remove_fils
waitpid_zombie_example = waitpid_zombie 4 true (2 ∷ []) busy busy-IsReapable refl (omega arith) refl

abbrev layout : Layout
layout = record { chainage = λ p. pos (1000 + p); activables = pos 2000; low_word = pos 0 }

chprio_self_example :
    chprio_at layout 1 200 busy ≡ ordonnanceur (modify 1 (λ r. record r { prio = 200 }) busy)
chprio_self_example =
    chprio_self layout 1 200 2 [] busy
      (record { chainage = λ p. omega arith; activables = omega arith }) refl (omega arith) refl

abbrev too_high : Launch
too_high = record { pt_func = 16777216; ssize = 512; prio = pos 256; name = none; arg = 0 }

abbrev memory : Memory
memory = record {
  proc = true;
  user = true;
  kernel = true;
  user_words = λ i. 0;
  kernel_words = λ i. value 0;
}

start_refused_example : start too_high memory busy ≡ ok (busy, returns (negsuc 0))
start_refused_example = start_refused too_high memory busy (inl (high (omega arith)))

of_key-queue_add_example :
    of_key (λ a. a) 3 (queue_add (λ a. a) 3 (2 ∷ 3 ∷ [])) ≡ 3 ∷ of_key (λ a. a) 3 (2 ∷ 3 ∷ [])
of_key-queue_add_example = of_key-queue_add (λ a. a) 3 3 (2 ∷ 3 ∷ [])

init_ordonnanceur_ok_example :
    (k : Kernel) × (init_ordonnanceur (some_memory (λ i. i) (λ i. value i)) zeroed
      ≡ ok (k, returns (pos 1)))
    × IsStarted k
init_ordonnanceur_ok_example = init_ordonnanceur_ok (λ i. i) (λ i. value i)
