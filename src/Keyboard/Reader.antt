-- ===== src/Keyboard/Reader.antt =====
-- cons_read: its caller may sleep, and the history grows.
use kernel_genesis_os.Base.{
  ℕ, zero, suc, ◌+◌, ◌≤◌, ◌<◌, ◌≡◌, ◌≢◌, refl, ℤ, false, none, some, List, [], ◌++◌, ltb, ◌==◌,
  ◌&&◌, not, if◌then◌else◌, length, length-append, arith, Bool-cases, inl, inr, sym, subst,
}
use kernel_genesis_os.Kernel.{Processus, Kernel, attend_es, proc_bloque_es, modify}
use kernel_genesis_os.Kernel.Ends.{Ends, Ends-bind}
use kernel_genesis_os.Kernel.Queues.{add_ok}
use kernel_genesis_os.Ordonnanceur.{by_prio, check_canary}
use kernel_genesis_os.Coherence.Scheduler.{IsGood, ordonnanceur-IsGood}
use kernel_genesis_os.Coherence.Caller.{IsMild, asleep-IsReady}
use kernel_genesis_os.Keyboard.{
  Clavier, chars, take_line, discard, remember, forget, await_key, cons_read_loop, cons_read, limit,
}
use kernel_genesis_os.Keyboard.Input.{IsInput, either}

await_key-IsGood : (k : Kernel) → IsGood k → k.elu ≢ 0 → Ends IsGood (await_key k)
unfolding await_key check_canary
await_key-IsGood k g ne =
    let f : Processus → Processus = λ r. record r { etat = attend_es } in
    let m : IsMild f (k.procs k.elu) = record { linked = refl; fils = refl; canary = refl } in
    let w = asleep-IsReady k g ne f m by_prio proc_bloque_es refl refl in
    let a = add_ok by_prio proc_bloque_es k.elu (modify k.elu f k) (ground (arith, g.unlinked)) in
    rw a (ordonnanceur-IsGood _ w)

take_line-kernel :
    (n : ℕ) (after : List ℤ) (k : Clavier) → (take_line n after k).1.kernel ≡ k.kernel
unfolding take_line discard remember forget
take_line-kernel n after k = ground arith

pub cons_read_loop-IsGood :
    (n : ℕ) (after : List ℤ) (k : Clavier)
    → IsGood k.kernel
    → k.kernel.elu ≢ 0
    → Ends (λ r. IsGood r.1.kernel) (cons_read_loop n after k)
unfolding cons_read_loop
cons_read_loop-IsGood n after k g ne = elim (Bool-cases (not k.read && ltb k.ptampon (limit n))) [
  | inl t ↦
      rw (t, cons_read_loop)
        (Ends-bind (await_key k.kernel) _ (await_key-IsGood k.kernel g ne)
          (λ l h. ((none, record k { kernel = l }), refl, h)))
  | inr f ↦
      let r = take_line n after k in
      (
        (some r.0, r.1),
        rw (f, cons_read_loop) refl,
        subst IsGood (sym (take_line-kernel n after k)) g,
      )
]

-- cons_read and the coherence of the kernel's data.
pub cons_read-IsGood :
    (n : ℕ) (after : List ℤ) (k : Clavier)
    → IsGood k.kernel
    → k.kernel.elu ≢ 0
    → Ends (λ r. IsGood r.1.kernel) (cons_read n after k)
unfolding cons_read
cons_read-IsGood n after k g ne = elim (Bool-cases (n == 0)) [
  | inl t ↦ ((some [], k), rw (t, cons_read) refl, g)
  | inr f ↦ rw (f, cons_read) (cons_read_loop-IsGood n after k g ne)
]

length-chars : (n i : ℕ) (f : ℕ → ℤ) → length (chars n i f) ≡ n
unfolding chars
length-chars zero i f = refl
length-chars (suc n) i f = omega (arith, length-chars n (suc i) f)

-- After forgetting there is room for a command.
forget_lem :
    (k : Clavier)
    → IsInput k
    → ((forget k).index_history < 25)
      × ((i : ℕ) → length ((forget k).history i) ≤ 256)
      × ((forget k).ptampon ≡ k.ptampon)
      × ((forget k).kernel ≡ k.kernel)
unfolding forget
forget_lem k h = elim (Bool-cases (k.index_history == 25)) [
  | inl t ↦
      rw (t, forget)
        (ground (arith, t), λ i. ground (arith, h.history i, h.history (i + 1)), refl, refl)
  | inr f ↦ rw (f, forget) (ground (arith, h.index), h.history, refl, refl)
]

remember-IsInput : (s : List ℤ) (k : Clavier) → IsInput k → length s ≤ 256 → IsInput (remember s k)
unfolding remember
remember-IsInput s k h le =
    let (lt, texts, p, e) = forget_lem k h in
    record {
      ptampon = omega (arith, p, h.ptampon);
      index = omega (arith, lt);
      current = omega arith;
      history = λ i. ground (arith, texts i);
      kernel = subst IsGood (sym e) h.kernel;
    }

discard-IsInput : (i : ℕ) (k : Clavier) → IsInput k → IsInput (discard i k)
unfolding discard
discard-IsInput i k h = record {
  ptampon = omega (arith, h.ptampon);
  index = h.index;
  current = h.current;
  history = h.history;
  kernel = h.kernel;
}

take_line-IsInput :
    (n : ℕ) (after : List ℤ) (k : Clavier)
    → IsInput k
    → (n ≤ 256 → n + length after ≤ 256)
    → IsInput (take_line n after k).1
unfolding take_line
take_line-IsInput n after k h room =
    let i = if ltb k.ptampon (limit n) then k.ptampon else limit n in
    let s = chars i 0 k.tampon in
    let command : List ℤ = if i == n then s ++ after else s in
    let l : Clavier = record k { read = false } in
    let g : IsInput l = record {
      ptampon = h.ptampon;
      index = h.index;
      current = h.current;
      history = h.history;
      kernel = h.kernel;
    } in
    let le : i ≤ 256 = ground (arith, h.ptampon) in
    let short : length command ≤ 256 =
      ground (arith, le, room, length-append s after, length-chars i 0 k.tampon) in
    discard-IsInput i _
      (either IsInput (ltb 1 n) (remember command l) l (remember-IsInput command l g short) g)

cons_read_loop-IsInput :
    (n : ℕ) (after : List ℤ) (k : Clavier)
    → IsInput k
    → k.kernel.elu ≢ 0
    → (n ≤ 256 → n + length after ≤ 256)
    → Ends (λ r. IsInput r.1) (cons_read_loop n after k)
unfolding cons_read_loop
cons_read_loop-IsInput n after k h ne room =
    elim (Bool-cases (not k.read && ltb k.ptampon (limit n))) [
      | inl t ↦
          rw (t, cons_read_loop)
            (Ends-bind (await_key k.kernel) _ (await_key-IsGood k.kernel h.kernel ne) (λ l g. (
              (none, record k { kernel = l }),
              refl,
              record {
                ptampon = h.ptampon;
                index = h.index;
                current = h.current;
                history = h.history;
                kernel = g;
              },
            )))
      | inr f ↦
          let r = take_line n after k in
          ((some r.0, r.1), rw (f, cons_read_loop) refl, take_line-IsInput n after k h room)
    ]

-- cons_read ends without a fault, with the characters read or with its caller asleep, and keeps
-- `ptampon`, the history and the kernel as keyboard_data needs them, provided that this holds
-- before, that the caller is not the idle process, and that the memory behind a caller's area of at
-- most 256 characters has a zero within that distance of its start.
pub cons_read-IsInput :
    (n : ℕ) (after : List ℤ) (k : Clavier)
    → IsInput k
    → k.kernel.elu ≢ 0
    → (n ≤ 256 → n + length after ≤ 256)
    → Ends (λ r. IsInput r.1) (cons_read n after k)
unfolding cons_read
cons_read-IsInput n after k h ne room = elim (Bool-cases (n == 0)) [
  | inl t ↦ ((some [], k), rw (t, cons_read) refl, h)
  | inr f ↦ rw (f, cons_read) (cons_read_loop-IsInput n after k h ne room)
]
