-- ===== src/Tests/Typing.antt =====
-- The theorems on the line input at concrete keys.
use kernel_genesis_os.Base.{ℕ, ◌≤◌, ◌≡◌, refl, pos, false, some, [], ◌∷◌, arith}
use kernel_genesis_os.Kernel.{Kernel}
use kernel_genesis_os.Kernel.Result.{ok}
use kernel_genesis_os.Kernel.Ends.{Ends}
use kernel_genesis_os.Keyboard.{Clavier, keyboard_data, cons_read}
use kernel_genesis_os.Keyboard.Line.{keyboard_data-cons_read}
use kernel_genesis_os.Keyboard.Input.{IsInput, keyboard_data-IsInput}
use kernel_genesis_os.Keyboard.Reader.{cons_read-IsInput}
use kernel_genesis_os.Coherence.Reach.{Reach-IsGood}
use kernel_genesis_os.Tests.{busy}
use kernel_genesis_os.Tests.Screen.{console}
use kernel_genesis_os.Tests.Running.{first, first-Reach, first-elu}

-- An empty buffer and two commands in the history.
abbrev clavier : Kernel → Clavier
clavier k = record {
  tampon = λ i. pos 0;
  ptampon = 0;
  read = false;
  history = λ i. pos 108 ∷ pos 115 ∷ [];
  index_history = 2;
  current_idex_history = 2;
  console = console;
  kernel = k;
}

-- "ps"
keyboard_data-cons_read_example :
    (l m : Clavier) × (keyboard_data (pos 112 ∷ pos 115 ∷ pos 13 ∷ []) (clavier busy) ≡ ok l)
    × (cons_read 80 [] l ≡ ok (some (pos 112 ∷ pos 115 ∷ []), m))
    × (m.read ≡ false)
    × (m.ptampon ≡ 0)
keyboard_data-cons_read_example =
    keyboard_data-cons_read (pos 112 ∷ pos 115 ∷ []) 80 [] (clavier busy)
      ((omega arith, omega arith), ((omega arith, omega arith), tt)) refl refl (omega arith)
      (omega arith) (omega arith) (omega arith)

clavier-IsInput : IsInput (clavier first)
clavier-IsInput = record {
  ptampon = omega arith;
  index = omega arith;
  current = omega arith;
  history = λ i. omega arith;
  kernel = Reach-IsGood first-Reach;
}

-- The key up, and Backspace.
keyboard_data-IsInput_example :
    Ends
      (λ l. IsInput l × ((i : ℕ) → 256 ≤ i → l.tampon i ≡ (clavier first).tampon i))
      (keyboard_data (pos 27 ∷ pos 91 ∷ pos 65 ∷ pos 127 ∷ []) (clavier first))
keyboard_data-IsInput_example =
    keyboard_data-IsInput (pos 27 ∷ pos 91 ∷ pos 65 ∷ pos 127 ∷ []) (clavier first) clavier-IsInput
      (λ i. omega arith)

cons_read-IsInput_example : Ends (λ r. IsInput r.1) (cons_read 80 [] (clavier first))
cons_read-IsInput_example =
    cons_read-IsInput 80 [] (clavier first) clavier-IsInput first-elu (λ le. omega arith)
