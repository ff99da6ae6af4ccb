-- ===== src/Kernel/Queues.antt =====
-- The macros of shared/queue.h at the lists of processes, with their assertions.
use kernel_genesis_os.Base.{
  ℕ, ◌≡◌, sym, inl, inr, true, false, not, Option, none, some, List, [], ◌∷◌, ◌++◌, arith,
  Option-cases, Bool-cases,
}
use kernel_genesis_os.Queue.{queue_add, queue_out, queue_del}
use kernel_genesis_os.Queue.Order.{queue_out-last, queue_out-append, queue_out-none}
use kernel_genesis_os.Kernel.{Processus, Kernel, Head, modify, set_queue}
use kernel_genesis_os.Kernel.Result.{Result, ok, ◌>>◌, guard, failed_assertion}

-- queue_add(p, &h, Processus, chainage, field)
unfoldable pub add : (Processus → ℕ) → Head → ℕ → Kernel → Result Kernel
add field h p k = do
  guard (not (k.procs p).linked) failed_assertion
  ok (
      modify p (λ r. record r { linked = true })
        (set_queue h (queue_add (λ q. field (k.procs q)) p (k.queue h)) k))

abbrev taken : Head → Kernel → Option (ℕ × List ℕ) → Option (ℕ × Kernel)
taken h k none = none
taken h k (some (p, rest)) =
    some (p, modify p (λ r. record r { linked = false }) (set_queue h rest k))

-- queue_out(&h, Processus, chainage); `none` is the null pointer.
unfoldable pub out : Head → Kernel → Option (ℕ × Kernel)
out h k = taken h k (queue_out (k.queue h))

-- queue_del(p, chainage), from whatever list `p` is in.
unfoldable pub del : ℕ → Kernel → Result Kernel
del p k = do
  guard (k.procs p).linked failed_assertion
  ok (
      modify p (λ r. record r { linked = false })
        (record k { queue = λ h. queue_del p (k.queue h) }))

-- The kernel after `p` was taken from `h`.
abbrev pub without : Head → ℕ → List ℕ → Kernel → Kernel
without h p rest k = modify p (λ r. record r { linked = false }) (set_queue h rest k)

pub out-eq-some :
    (h : Head) (k k' : Kernel) (p : ℕ)
    → out h k ≡ some (p, k')
    → (rest : List ℕ) × (k.queue h ≡ rest ++ p ∷ []) × (k' ≡ without h p rest k)
unfolding out
out-eq-some h k k' p e = elim (Option-cases (queue_out (k.queue h))) [
  | inl n ↦ cc (rw n at e)
  | inr ((q, rest), o) ↦
      let f : ◌≡◌ {A = Option (ℕ × Kernel)} (some (q, without h q rest k)) (some (p, k')) =
        rw o at e in
      let i : q ≡ p = ground arith in
      let j : without h q rest k ≡ k' = ground arith in
      (rest, rw (← i) (queue_out-last (k.queue h) o), rw (← i) (sym j))
]

pub out-some :
    (h : Head) (k : Kernel) (p : ℕ) (rest : List ℕ)
    → k.queue h ≡ rest ++ p ∷ []
    → out h k ≡ some (p, without h p rest k)
unfolding out
out-some h k p rest e = rw (e, queue_out-append rest p)

pub out-none : (h : Head) (k : Kernel) → out h k ≡ none → k.queue h ≡ []
unfolding out
out-none h k n = queue_out-none (k.queue h) (ground arith)

-- The kernel after `p` was added to `h`.
abbrev pub added : (Processus → ℕ) → Head → ℕ → Kernel → Kernel
added field h p k =
    modify p (λ r. record r { linked = true })
      (set_queue h (queue_add (λ q. field (k.procs q)) p (k.queue h)) k)

pub add-eq-ok :
    (field : Processus → ℕ) (h : Head) (p : ℕ) (k k' : Kernel)
    → add field h p k ≡ ok k'
    → ((k.procs p).linked ≡ false) × (k' ≡ added field h p k)
unfolding add
add-eq-ok field h p k k' e = elim (Bool-cases (k.procs p).linked) [
  | inl t ↦ cc (rw (t, add) at e)
  | inr f ↦
      let g : ◌≡◌ {A = Result Kernel} (ok (added field h p k)) (ok k') = rw (f, add) at e in
      (f, ground arith)
]

pub add_ok :
    (field : Processus → ℕ) (h : Head) (p : ℕ) (k : Kernel)
    → (k.procs p).linked ≡ false
    → add field h p k ≡ ok (added field h p k)
unfolding add
add_ok field h p k f = rw (f, add)
