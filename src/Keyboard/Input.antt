-- ===== src/Keyboard/Input.antt =====
-- The bounds of the line input, and the processes that wait for it.
use kernel_genesis_os.Base.{
  ℕ, zero, suc, ◌+◌, ◌-◌, ◌≤◌, ◌<◌, ◌≡◌, refl, ℤ, pos, leb_ℤ, eqb_ℤ, Bool, true, false, List, [],
  ◌∷◌, ltb, ◌==◌, ◌&&◌, ◌||◌, if◌then◌else◌, length, arith, Bool-cases, inl, inr, update, ◌∙◌,
}
use kernel_genesis_os.Kernel.Result.{Result, ok, ◌>>=◌}
use kernel_genesis_os.Kernel.Ends.{Ends, Ends-bind}
use kernel_genesis_os.Processus.{verifie_es}
use kernel_genesis_os.Console.{Console, traite_car, avance_curseur}
use kernel_genesis_os.Console.View.{defillement_haut, defillement_bas}
use kernel_genesis_os.Coherence.Scheduler.{IsGood}
use kernel_genesis_os.Coherence.Clock.{verifie_es-IsGood}
use kernel_genesis_os.Keyboard.{
  Clavier, on_console, wake_reader, push, recall, older, newer, arrow, escape, erase, key, echoed,
  keyboard_loop, keyboard_data, buffer_size, copied,
}

-- The input is within its bounds, the history too, and the kernel is good.
pub record IsInput (k : Clavier) : Type 0 where
  pub ptampon : k.ptampon ≤ 256
  pub index : k.index_history ≤ 25
  pub current : k.current_idex_history ≤ k.index_history
  pub history : (i : ℕ) → length (k.history i) ≤ 256
  pub kernel : IsGood k.kernel

-- The same, with no command of the history as long as the buffer, and nothing written behind the buffer:
-- there is what was there before, `base`.
record IsTyped (base : ℕ → ℤ) (k : Clavier) : Type 0 where
  ptampon : k.ptampon ≤ 256
  index : k.index_history ≤ 25
  current : k.current_idex_history ≤ k.index_history
  history : (i : ℕ) → length (k.history i) < 256
  kernel : IsGood k.kernel
  inside : (i : ℕ) → 256 ≤ i → k.tampon i ≡ base i

pub either {ℓ} :
    {A : Type ℓ} (P : A → Type 0) (b : Bool) (x y : A) → P x → P y → P (if b then x else y)
either P true x y p q = p
either P false x y p q = q

copied-inside :
    (s : List ℤ) (j : ℕ) (t : ℕ → ℤ) → j + length s < 256 → (i : ℕ) → 256 ≤ i → copied s j t i ≡ t i
unfolding copied
copied-inside [] j t lt i le = ground arith
copied-inside (c ∷ s) j t lt i le =
    copied-inside s (suc j) (update t j c) (omega arith) i le ∙ ground arith

module _ (base : ℕ → ℤ) where
  wake_reader-IsTyped : (k : Clavier) → IsTyped base k → Ends (IsTyped base) (wake_reader k)
  wake_reader-IsTyped k h =
      Ends-bind (verifie_es k.kernel) _ (verifie_es-IsGood k.kernel h.kernel) (λ l g. (
        record k { kernel = l },
        refl,
        record {
          ptampon = h.ptampon;
          index = h.index;
          current = h.current;
          history = h.history;
          kernel = g;
          inside = h.inside;
        },
      ))

  push-IsTyped : (c : ℤ) (k : Clavier) → IsTyped base k → k.ptampon < 256 → IsTyped base (push c k)
  push-IsTyped c k h lt = record {
    ptampon = omega arith;
    index = h.index;
    current = h.current;
    history = h.history;
    kernel = h.kernel;
    inside = λ i le. ground (arith, lt, h.inside i le);
  }

  with_read-IsTyped :
      (b : Bool) (k : Clavier) → IsTyped base k → IsTyped base (record k { read = b })
  with_read-IsTyped b k h = record {
    ptampon = h.ptampon;
    index = h.index;
    current = h.current;
    history = h.history;
    kernel = h.kernel;
    inside = h.inside;
  }

  on_console-IsTyped :
      (f : Console → Console) (k : Clavier) → IsTyped base k → IsTyped base (on_console f k)
  on_console-IsTyped f k h = record {
    ptampon = h.ptampon;
    index = h.index;
    current = h.current;
    history = h.history;
    kernel = h.kernel;
    inside = h.inside;
  }

  -- A line of the history is within the buffer, and the next one to recall is in the history.
  recall-IsTyped :
      (i n : ℕ) (k : Clavier)
      → IsTyped base k
      → n ≤ k.index_history
      → IsTyped base (recall i (record k { current_idex_history = n }))
  unfolding recall
  recall-IsTyped i n k h le = record {
    ptampon = let lt = h.history i in omega arith;
    index = h.index;
    current = le;
    history = h.history;
    kernel = h.kernel;
    inside = λ j far.
        copied-inside (k.history i) 0 k.tampon (omega (arith, h.history i)) j far ∙ h.inside j far;
  }

  older-IsTyped : (k : Clavier) → IsTyped base k → IsTyped base (older k)
  unfolding older
  older-IsTyped k h = elim (Bool-cases (k.current_idex_history == 0)) [
    | inl t ↦ rw (t, older) h
    | inr f ↦
        rw (f, older)
          (recall-IsTyped (k.current_idex_history - 1) (k.current_idex_history - 1) k h
            (omega (arith, h.current)))
  ]

  newer-IsTyped : (k : Clavier) → IsTyped base k → IsTyped base (newer k)
  unfolding newer
  newer-IsTyped k h = elim (Bool-cases (ltb k.current_idex_history k.index_history)) [
    | inl t ↦
        rw (t, newer)
          (recall-IsTyped k.current_idex_history (k.current_idex_history + 1) k h (ground arith))
    | inr f ↦
        rw (f, newer)
          (record {
            ptampon = omega arith;
            index = h.index;
            current = h.current;
            history = h.history;
            kernel = h.kernel;
            inside = h.inside;
          })
  ]

  -- What a round of keyboard_data leaves: characters to pass over, and the input.
  unfoldable IsRound : ℕ × Clavier → Type 0
  IsRound r = IsTyped base r.1

  round_at : (n : ℕ) (k : Clavier) → IsTyped base k → IsRound (n, k)
  unfolding IsRound
  round_at n k h = h

  arrow-IsRound : (c : ℤ) (k : Clavier) → IsTyped base k → IsRound (arrow c k)
  unfolding arrow
  arrow-IsRound c k h = either IsRound (eqb_ℤ c (pos 65)) _ _ (round_at 2 _ (older-IsTyped k h)) (
      either IsRound (eqb_ℤ c (pos 66)) _ _ (round_at 2 _ (newer-IsTyped k h)) (
        either IsRound (eqb_ℤ c (pos 67)) _ _ (round_at 2 _ (on_console-IsTyped avance_curseur k h))
          (either IsRound (eqb_ℤ c (pos 68)) _ _
            (round_at 2 _ (on_console-IsTyped (traite_car (pos 8)) k h))
            (either IsRound (eqb_ℤ c (pos 53)) _ _
              (round_at 3 _ (on_console-IsTyped defillement_haut k h))
              (either IsRound (eqb_ℤ c (pos 54)) _ _
                (round_at 3 _ (on_console-IsTyped defillement_bas k h)) (round_at 2 k h))))))

  escape-IsRound : (s : List ℤ) (k : Clavier) → IsTyped base k → IsRound (escape s k)
  unfolding escape
  escape-IsRound [] k h = round_at 0 k h
  escape-IsRound (x ∷ []) k h = round_at 0 k h
  escape-IsRound (x ∷ y ∷ s) k h =
      either IsRound (eqb_ℤ x (pos 91)) _ _ (arrow-IsRound y k h) (round_at 0 k h)

  erase-IsTyped : (k : Clavier) → IsTyped base k → IsTyped base (erase k)
  unfolding erase
  erase-IsTyped k h =
      either (IsTyped base) (ltb 0 k.ptampon) (record k { ptampon = k.ptampon - 1 })
        (on_console (traite_car (pos 7)) k)
        (record {
          ptampon = omega (arith, h.ptampon);
          index = h.index;
          current = h.current;
          history = h.history;
          kernel = h.kernel;
          inside = h.inside;
        })
        (on_console-IsTyped (traite_car (pos 7)) k h)

  woken : (k : Clavier) → IsTyped base k → Ends IsRound (wake_reader k >>= λ l. ok (0, l))
  woken k h =
      Ends-bind (wake_reader k) _ (wake_reader-IsTyped k h) (λ l g. ((0, l), refl, round_at 0 l g))

  -- One round of keyboard_data.
  key-IsTyped :
      (c : ℤ) (s : List ℤ) (k : Clavier)
      → IsTyped base k
      → (eqb_ℤ c (pos 127) ≡ false → k.ptampon < 256)
      → Ends IsRound (key c s k)
  unfolding key
  key-IsTyped c s k h room =
      let P : Result (ℕ × Clavier) → Type 0 = Ends IsRound in
      either P (eqb_ℤ c (pos 27)) _ _ (escape s k, refl, escape-IsRound s k h)
        (elim (Bool-cases (eqb_ℤ c (pos 127))) [
          | inl t ↦ rw t ((0, erase k), refl, round_at 0 _ (erase-IsTyped k h))
          | inr f ↦ rw f (
              let g = push-IsTyped c k h (room f) in
              either P (eqb_ℤ c (pos 9)) _ _ (woken _ (with_read-IsTyped true (push c k) g)) (
                either P (eqb_ℤ c (pos 10)) _ _ (woken (push c k) g) (
                  either P (eqb_ℤ c (pos 13)) _ _ (woken _ (with_read-IsTyped true k h)) (
                    either P (leb_ℤ (pos 32) c && leb_ℤ c (pos 126)) _ _ (woken (push c k) g)
                      ((0, k), refl, round_at 0 k h)))))
        ])

  echoed_ok :
      (c : ℤ) (k : Clavier)
      → IsTyped base k
      → IsTyped base (echoed c k) × ((echoed c k).ptampon ≡ k.ptampon)
  echoed_ok c k h =
      either (λ l. IsTyped base l × (l.ptampon ≡ k.ptampon)) k.console.echo
        (on_console (traite_car c) k) k (on_console-IsTyped (traite_car c) k h, refl) (h, refl)

  keyboard_loop-IsTyped :
      (n : ℕ) (s : List ℤ) (k : Clavier)
      → IsTyped base k
      → Ends (IsTyped base) (keyboard_loop n s k)
  unfolding keyboard_loop IsRound
  keyboard_loop-IsTyped n [] k h = (k, refl, h)
  keyboard_loop-IsTyped (suc n) (c ∷ s) k h = keyboard_loop-IsTyped n s k h
  keyboard_loop-IsTyped zero (c ∷ s) k h =
      elim (Bool-cases (ltb k.ptampon buffer_size || eqb_ℤ c (pos 127))) [
        | inl t ↦
            let (g, e) = echoed_ok c k h in
            rw (t, keyboard_loop)
              (Ends-bind (key c s (echoed c k)) _
                (key-IsTyped c s (echoed c k) g (λ f. ground (arith, e)))
                (λ r i. keyboard_loop-IsTyped r.0 s r.1 i))
        | inr f ↦ (k, rw (f, keyboard_loop) refl, h)
      ]

  keyboard_data-IsTyped :
      (s : List ℤ) (k : Clavier) → IsTyped base k → Ends (IsTyped base) (keyboard_data s k)
  unfolding keyboard_data
  keyboard_data-IsTyped s k h =
      Ends-bind (keyboard_loop 0 s k) _ (keyboard_loop-IsTyped 0 s k h) (λ l g.
        either (Ends (IsTyped base)) (l.ptampon == buffer_size) _ _
          (Ends-bind (wake_reader l) _ (wake_reader-IsTyped l g) (λ m i.
            (on_console (traite_car (pos 7)) m, refl, on_console-IsTyped (traite_car (pos 7)) m i)))
          (l, refl, g))

-- keyboard_data, on any characters, ends without a fault, writes nothing behind the 256 bytes of
-- `tampon`, and keeps `ptampon` at most 256, the index of the history within the history, and the
-- kernel good, provided that this holds before and that every command of the history has less than
-- 256 characters.
pub keyboard_data-IsInput :
    (s : List ℤ) (k : Clavier)
    → IsInput k
    → ((i : ℕ) → length (k.history i) < 256)
    → Ends (λ l. IsInput l × ((i : ℕ) → 256 ≤ i → l.tampon i ≡ k.tampon i)) (keyboard_data s k)
keyboard_data-IsInput s k h short =
    let (l, e, t) = keyboard_data-IsTyped k.tampon s k (record {
      ptampon = h.ptampon;
      index = h.index;
      current = h.current;
      history = short;
      kernel = h.kernel;
      inside = λ i le. refl;
    }) in
    (
      l,
      e,
      (
        record {
          ptampon = t.ptampon;
          index = t.index;
          current = t.current;
          history = λ i. let lt = t.history i in omega arith;
          kernel = t.kernel;
        },
        t.inside,
      ),
    )
