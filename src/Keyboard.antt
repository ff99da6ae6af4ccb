-- ===== src/Keyboard.antt =====
-- The line input: keyboard_data of kernel/kbd.c, and cons_read of kernel/console.c.
--
-- A text is the list of its characters before the final zero, and a `char` an integer, with its sign.
-- verifie_es, in the middle of keyboard_data, can leave the interrupted process: the loop goes on when that
-- process is elected again, with the input as it is then. The sound of the bell is left aside.
pub mod Line
pub mod Input
pub mod Reader
use kernel_genesis_os.Base.{
  ℕ, zero, suc, ◌+◌, ◌-◌, ℤ, pos, leb_ℤ, eqb_ℤ, Bool, true, false, Option, none, some, List, [],
  ◌∷◌, ◌++◌, ltb, leb, ◌==◌, ◌&&◌, ◌||◌, not, if◌then◌else◌, update, length,
}
use kernel_genesis_os.Kernel.{Kernel, attend_es, proc_bloque_es, set_etat}
use kernel_genesis_os.Kernel.Result.{Result, ok, ◌>>=◌}
use kernel_genesis_os.Kernel.Queues.{add}
use kernel_genesis_os.Ordonnanceur.{by_prio, ordonnanceur}
use kernel_genesis_os.Processus.{verifie_es}
use kernel_genesis_os.Console.{Console, traite_car, cons_write, efface_ligne, avance_curseur}
use kernel_genesis_os.Console.View.{defillement_haut, defillement_bas}

-- BUFFER_SIZE, HISTORY_SIZE
abbrev pub buffer_size : ℕ
buffer_size = 256

abbrev pub history_size : ℕ
history_size = 25

-- The globals of kernel/kbd.c and the history of kernel/console.c, with the screen and the kernel that they
-- work on.
pub record Clavier : Type 0 where
  pub tampon : ℕ → ℤ
  pub ptampon : ℕ
  pub read : Bool
  pub history : ℕ → List ℤ
  pub index_history : ℕ
  pub current_idex_history : ℕ
  pub console : Console
  pub kernel : Kernel

abbrev pub on_console : (Console → Console) → Clavier → Clavier
on_console f k = record k { console = f k.console }

abbrev pub wake_reader : Clavier → Result Clavier
wake_reader k = verifie_es k.kernel >>= λ l. ok (record k { kernel = l })

-- tampon[ptampon] = c; ptampon++;
abbrev pub push : ℤ → Clavier → Clavier
push c k = record k { tampon = update k.tampon k.ptampon c; ptampon = suc k.ptampon }

-- strcpy(tampon, s): the text and its zero.
unfoldable pub copied : List ℤ → ℕ → (ℕ → ℤ) → ℕ → ℤ
copied [] i f = update f i (pos 0)
copied (c ∷ s) i f = copied s (suc i) (update f i c)

-- A line of the history takes the place of the input, in the buffer and on the screen.
unfoldable pub recall : ℕ → Clavier → Clavier
recall i k =
    let s = k.history i in
    on_console (λ c. cons_write s (efface_ligne c))
      (record k { tampon = copied s 0 k.tampon; ptampon = length s })

-- The key up.
unfoldable pub older : Clavier → Clavier
older k =
    if k.current_idex_history == 0
    then k
    else recall (k.current_idex_history - 1)
        (record k { current_idex_history = k.current_idex_history - 1 })

-- The key down.
unfoldable pub newer : Clavier → Clavier
newer k =
    if ltb k.current_idex_history k.index_history
    then recall k.current_idex_history
        (record k { current_idex_history = k.current_idex_history + 1 })
    else on_console efface_ligne (record k { ptampon = 0 })

-- The characters after `ESC [`: how many more of them are passed over, and what the key does.
unfoldable pub arrow : ℤ → Clavier → ℕ × Clavier
arrow c k =
    if eqb_ℤ c (pos 65)
    then (2, older k)
    else if eqb_ℤ c (pos 66)
    then (2, newer k)
    else if eqb_ℤ c (pos 67)
    then (2, on_console avance_curseur k)
    else if eqb_ℤ c (pos 68)
    then (2, on_console (traite_car (pos 8)) k)
    else if eqb_ℤ c (pos 53)
    then (3, on_console defillement_haut k)
    else if eqb_ℤ c (pos 54)
    then (3, on_console defillement_bas k)
    else (2, k)

unfoldable pub escape : List ℤ → Clavier → ℕ × Clavier
escape (x ∷ y ∷ s) k = if eqb_ℤ x (pos 91) then arrow y k else (0, k)
escape _ k = (0, k)

-- Backspace
unfoldable pub erase : Clavier → Clavier
erase k =
    if ltb 0 k.ptampon
    then record k { ptampon = k.ptampon - 1 }
    else on_console (traite_car (pos 7)) k

-- The `switch` of keyboard_data on the character `c`, which `s` follows.
unfoldable pub key : ℤ → List ℤ → Clavier → Result (ℕ × Clavier)
key c s k =
    if eqb_ℤ c (pos 27)
    then ok (escape s k)
    else if eqb_ℤ c (pos 127)
    then ok (0, erase k)
    else if eqb_ℤ c (pos 9)
    then (wake_reader (record (push c k) { read = true }) >>= λ l. ok (0, l))
    else if eqb_ℤ c (pos 10)
    then (wake_reader (push c k) >>= λ l. ok (0, l))
    else if eqb_ℤ c (pos 13)
    then (wake_reader (record k { read = true }) >>= λ l. ok (0, l))
    else if leb_ℤ (pos 32) c && leb_ℤ c (pos 126)
    then (wake_reader (push c k) >>= λ l. ok (0, l))
    else ok (0, k)

-- The echo of a character.
abbrev pub echoed : ℤ → Clavier → Clavier
echoed c k = if k.console.echo then on_console (traite_car c) k else k

-- The loop of keyboard_data, from the `n`th of the characters on.
unfoldable pub keyboard_loop : ℕ → List ℤ → Clavier → Result Clavier
keyboard_loop n [] k = ok k
keyboard_loop (suc n) (c ∷ s) k = keyboard_loop n s k
keyboard_loop zero (c ∷ s) k =
    if ltb k.ptampon buffer_size || eqb_ℤ c (pos 127)
    then (key c s (echoed c k) >>= λ r. keyboard_loop r.0 s r.1)
    else ok k

-- keyboard_data
unfoldable pub keyboard_data : List ℤ → Clavier → Result Clavier
keyboard_data s k = do
  l ← keyboard_loop 0 s k
  if l.ptampon == buffer_size
      then (wake_reader l >>= λ m. ok (on_console (traite_car (pos 7)) m))
      else ok l

-- The first `n` characters of a memory, from `i` on.
unfoldable pub chars : ℕ → ℕ → (ℕ → ℤ) → List ℤ
chars zero i f = []
chars (suc n) i f = f i ∷ chars n (suc i) f

-- (int)length, where only the comparison with a number from 0 on counts.
abbrev pub limit : ℕ → ℕ
limit n = if ltb n 2147483648 then n else 0

-- The oldest command of a full history gives way.
unfoldable pub forget : Clavier → Clavier
forget k =
    if k.index_history == history_size
    then record k {
      history = λ j. if ltb j (history_size - 1) then k.history (j + 1) else k.history j;
      index_history = k.index_history - 1;
    }
    else k

-- The command `s` at the end of the history.
unfoldable pub remember : List ℤ → Clavier → Clavier
remember s k =
    let l = forget k in
    record l {
      history = update l.history l.index_history s;
      index_history = l.index_history + 1;
      current_idex_history = l.index_history + 1;
    }

-- The first `i` characters leave the buffer, and what is behind the others is cleared.
unfoldable pub discard : ℕ → Clavier → Clavier
discard i k =
    let n = k.ptampon - i in
    let moved : ℕ → ℤ = λ j. if ltb j n then k.tampon (i + j) else k.tampon j in
    record k { tampon = λ j. if leb n j && ltb j buffer_size then pos 0 else moved j; ptampon = n }

-- cons_read, when there is something to read: the characters that it puts in `string`. `strlen` goes on in
-- the memory behind `string`, `after` up to a zero, where the characters fill it.
unfoldable pub take_line : (length : ℕ) → (after : List ℤ) → Clavier → List ℤ × Clavier
take_line n after k =
    let i = if ltb k.ptampon (limit n) then k.ptampon else limit n in
    let s = chars i 0 k.tampon in
    let command : List ℤ = if i == n then s ++ after else s in
    let l : Clavier = record k { read = false } in
    (s, discard i (if ltb 1 n then remember command l else l))

-- The caller of cons_read goes to sleep until a key is pressed.
unfoldable pub await_key : Kernel → Result Kernel
await_key k = add by_prio proc_bloque_es k.elu (set_etat k.elu attend_es k) >>= ordonnanceur

-- The loop of cons_read, and what follows it; `none` means that the caller sleeps, and looks again at the
-- input when it is elected.
unfoldable pub cons_read_loop :
    (length : ℕ) → (after : List ℤ) → Clavier → Result (Option (List ℤ) × Clavier)
cons_read_loop n after k =
    if not k.read && ltb k.ptampon (limit n)
    then (await_key k.kernel >>= λ l. ok (none, record k { kernel = l }))
    else let r = take_line n after k in ok (some r.0, r.1)

-- cons_read
unfoldable pub cons_read :
    (length : ℕ) → (after : List ℤ) → Clavier → Result (Option (List ℤ) × Clavier)
cons_read n after k = if n == 0 then ok (some [], k) else cons_read_loop n after k

-- afficher_historique
unfoldable pub afficher_from : ℕ → ℕ → Clavier → Clavier
afficher_from zero i k = k
afficher_from (suc n) i k =
    afficher_from n (suc i) (on_console (cons_write (k.history i ++ pos 10 ∷ [])) k)

unfoldable pub afficher_historique : Clavier → Clavier
afficher_historique k = afficher_from k.index_history 0 k
