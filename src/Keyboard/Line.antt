-- ===== src/Keyboard/Line.antt =====
-- What is typed and what cons_read gives.
use kernel_genesis_os.Base.{
  ℕ, zero, suc, ◌+◌, ◌≤◌, ◌<◌, ◌≡◌, refl, ℤ, pos, ◌≤ℤ◌, leb_ℤ, eqb_ℤ, Bool, true, false, none, some,
  List, [], ◌∷◌, ◌++◌, ltb, ◌==◌, ◌&&◌, ◌||◌, if◌then◌else◌, update, length, length-append,
  append_assoc, append-nil, All, arith, sym, ap, ◌∙◌,
}
use kernel_genesis_os.Queue.{queue_out}
use kernel_genesis_os.Kernel.{Kernel, proc_bloque_es}
use kernel_genesis_os.Kernel.Result.{ok}
use kernel_genesis_os.Kernel.Queues.{out}
use kernel_genesis_os.Processus.{verifie_es}
use kernel_genesis_os.Console.{Console, traite_car}
use kernel_genesis_os.Keyboard.{
  Clavier, on_console, push, echoed, key, keyboard_loop, keyboard_data, chars, take_line, discard,
  remember, forget, cons_read_loop, cons_read, limit, buffer_size,
}

-- The characters that stand for themselves.
abbrev pub IsPrintable : ℤ → Type 0
IsPrintable c = (pos 32 ≤ℤ c) × (c ≤ℤ pos 126)

-- One more character at the end.
chars-update :
    (n i j : ℕ) (c : ℤ) (f : ℕ → ℤ)
    → j ≡ i + n
    → chars (suc n) i (update f j c) ≡ chars n i f ++ c ∷ []
unfolding chars
chars-update zero i j c f e = let h : update f j c i ≡ c = ground arith in ap (λ x. x ∷ []) h
chars-update (suc n) i j c f e =
    let h : update f j c i ≡ f i = ground arith in
    rw h (ap (λ t. f i ∷ t) (chars-update n (suc i) j c f (omega (arith, e))))

nobody_waits : (k : Kernel) → k.queue proc_bloque_es ≡ [] → verifie_es k ≡ ok k
unfolding verifie_es out queue_out
nobody_waits k q = let n : out proc_bloque_es k ≡ none = rw (q, out) refl in rw (n, verifie_es) refl

-- What typing printable characters leaves.
record IsTyped (s : List ℤ) (k l : Clavier) : Type 0 where
  ptampon : l.ptampon ≡ k.ptampon + length s
  input : chars l.ptampon 0 l.tampon ≡ chars k.ptampon 0 k.tampon ++ s
  read : l.read ≡ k.read
  kernel : l.kernel ≡ k.kernel

key_printable :
    (c : ℤ) (s : List ℤ) (k : Clavier)
    → IsPrintable c
    → k.kernel.queue proc_bloque_es ≡ []
    → (l : Clavier) × (key c s k ≡ ok (0, l)) × IsTyped (c ∷ []) k l
unfolding key
key_printable c s k p q =
    let l : Clavier = push c k in
    let v = nobody_waits k.kernel q in
    let esc : eqb_ℤ c (pos 27) ≡ false = ground (arith, p) in
    let del : eqb_ℤ c (pos 127) ≡ false = ground (arith, p) in
    let tab : eqb_ℤ c (pos 9) ≡ false = ground (arith, p) in
    let line : eqb_ℤ c (pos 10) ≡ false = ground (arith, p) in
    let enter : eqb_ℤ c (pos 13) ≡ false = ground (arith, p) in
    let shown : (leb_ℤ (pos 32) c && leb_ℤ c (pos 126)) ≡ true = ground (arith, p) in
    (
      l,
      rw (esc, del, tab, line, enter, shown, v, key) refl,
      record {
        ptampon = omega arith;
        input = chars-update k.ptampon 0 k.ptampon c k.tampon (omega arith);
        read = refl;
        kernel = refl;
      },
    )

IsTyped-refl : (k : Clavier) → IsTyped [] k k
IsTyped-refl k = record {
  ptampon = omega arith;
  input = sym (append-nil _);
  read = refl;
  kernel = refl;
}

IsTyped-trans :
    (s t : List ℤ) (k l m : Clavier) → IsTyped s k l → IsTyped t l m → IsTyped (s ++ t) k m
IsTyped-trans s t k l m a b = record {
  ptampon = omega (arith, a.ptampon, b.ptampon, length-append s t);
  input = b.input ∙ ap (λ x. x ++ t) a.input ∙ append_assoc _ s t;
  read = b.read ∙ a.read;
  kernel = b.kernel ∙ a.kernel;
}

-- The echo is on the screen only.
shown-IsTyped :
    (b : Bool) (f : Console → Console) (k : Clavier)
    → IsTyped [] k (if b then on_console f k else k)
shown-IsTyped true f k = record {
  ptampon = omega arith;
  input = sym (append-nil _);
  read = refl;
  kernel = refl;
}
shown-IsTyped false f k = IsTyped-refl k

line_lem :
    (s t : List ℤ) (k : Clavier)
    → All IsPrintable s
    → k.kernel.queue proc_bloque_es ≡ []
    → k.ptampon + length s ≤ 256
    → (l : Clavier) × (keyboard_loop 0 (s ++ t) k ≡ keyboard_loop 0 t l) × IsTyped s k l
unfolding keyboard_loop
line_lem [] t k p q le = (k, refl, IsTyped-refl k)
line_lem (c ∷ s) t k p q le =
    let j : Clavier = echoed c k in
    let a : IsTyped [] k j = shown-IsTyped k.console.echo (traite_car c) k in
    let (l, e, b) =
      key_printable c (s ++ t) j p.0 (ap (λ x. x.queue proc_bloque_es) a.kernel ∙ q) in
    let d = IsTyped-trans [] (c ∷ []) k j l a b in
    let (m, h, n) =
      line_lem s t l p.1 (ap (λ x. x.queue proc_bloque_es) d.kernel ∙ q)
        (omega (arith, le, d.ptampon)) in
    let lt : (ltb k.ptampon buffer_size || eqb_ℤ c (pos 127)) ≡ true = ground (arith, le) in
    (m, rw (lt, e) h, IsTyped-trans (c ∷ []) s k l m d n)

-- The key Enter, which closes the line.
enter_lem :
    (k : Clavier)
    → k.kernel.queue proc_bloque_es ≡ []
    → k.ptampon < 256
    → (l : Clavier) × (keyboard_loop 0 (pos 13 ∷ []) k ≡ ok l)
      × (l.read ≡ true)
      × (l.ptampon ≡ k.ptampon)
      × (chars l.ptampon 0 l.tampon ≡ chars k.ptampon 0 k.tampon)
unfolding keyboard_loop key
enter_lem k q lt =
    let j : Clavier = echoed (pos 13) k in
    let b : IsTyped [] k j = shown-IsTyped k.console.echo (traite_car (pos 13)) k in
    let v : verifie_es j.kernel ≡ ok j.kernel =
      nobody_waits j.kernel (ap (λ x. x.queue proc_bloque_es) b.kernel ∙ q) in
    let t : (ltb k.ptampon buffer_size || eqb_ℤ (pos 13) (pos 127)) ≡ true = ground (arith, lt) in
    let e : keyboard_loop 0 (pos 13 ∷ []) k ≡ ok (record j { read = true }) = rw (t, v) refl in
    (record j { read = true }, e, refl, omega (arith, b.ptampon), b.input ∙ append-nil _)

-- A line of printable characters, and the key Enter.
whole_line :
    (s : List ℤ) (k : Clavier)
    → All IsPrintable s
    → k.kernel.queue proc_bloque_es ≡ []
    → k.ptampon + length s < 256
    → (l : Clavier) × (keyboard_data (s ++ pos 13 ∷ []) k ≡ ok l)
      × (l.read ≡ true)
      × (l.ptampon ≡ k.ptampon + length s)
      × (chars l.ptampon 0 l.tampon ≡ chars k.ptampon 0 k.tampon ++ s)
unfolding keyboard_data
whole_line s k p q lt =
    let (l, e, a) = line_lem s (pos 13 ∷ []) k p q (omega (arith, lt)) in
    let (m, f, r, n, c) =
      enter_lem l (ap (λ x. x.queue proc_bloque_es) a.kernel ∙ q) (omega (arith, lt, a.ptampon)) in
    let t : (m.ptampon == buffer_size) ≡ false = ground (arith, n, a.ptampon, lt) in
    (m, rw (e, f, t) refl, r, omega (arith, n, a.ptampon), c ∙ a.input)

-- The history is no part of the input.
remembered :
    (b : Bool) (s : List ℤ) (k : Clavier)
    → ((if b then remember s k else k).ptampon ≡ k.ptampon)
      × ((if b then remember s k else k).read ≡ k.read)
      × ((if b then remember s k else k).kernel ≡ k.kernel)
unfolding remember forget
remembered true s k = ground arith
remembered false s k = (refl, refl, refl)

-- cons_read, when the line is closed and the caller has room for it.
read_line :
    (n : ℕ) (after : List ℤ) (k : Clavier)
    → k.read ≡ true
    → 0 < n
    → n < 2147483648
    → k.ptampon ≤ n
    → (l : Clavier) × (cons_read n after k ≡ ok (some (chars k.ptampon 0 k.tampon), l))
      × (l.read ≡ false)
      × (l.ptampon ≡ 0)
      × (l.kernel ≡ k.kernel)
unfolding cons_read cons_read_loop take_line discard
read_line n after k r lt b le =
    let i = if ltb k.ptampon (limit n) then k.ptampon else limit n in
    let z : (n == 0) ≡ false = ground (arith, lt) in
    let e : i ≡ k.ptampon = ground (arith, b, le) in
    let command : List ℤ = if i == n then chars i 0 k.tampon ++ after else chars i 0 k.tampon in
    let h = remembered (ltb 1 n) command (record k { read = false }) in
    let l : Clavier = (take_line n after k).1 in
    let c : cons_read n after k ≡ ok (some (chars i 0 k.tampon), l) = rw (z, r) refl in
    (l, c ∙ ap (λ x. ok (some (chars x 0 k.tampon), l)) e, h.1, omega (arith, h.0, e), h.2)

-- A line of printable characters typed into the empty buffer, shorter than the buffer and no longer
-- than what a caller asks for, and ended by the key Enter, is what cons_read then returns to that
-- caller at once, which leaves the buffer empty and no line closed, provided that no process waits
-- for the keyboard.
pub keyboard_data-cons_read :
    (s : List ℤ) (n : ℕ) (after : List ℤ) (k : Clavier)
    → All IsPrintable s
    → k.kernel.queue proc_bloque_es ≡ []
    → k.ptampon ≡ 0
    → 0 < n
    → n < 2147483648
    → length s ≤ n
    → length s < 256
    → (l m : Clavier) × (keyboard_data (s ++ pos 13 ∷ []) k ≡ ok l)
      × (cons_read n after l ≡ ok (some s, m))
      × (m.read ≡ false)
      × (m.ptampon ≡ 0)
unfolding chars
keyboard_data-cons_read s n after k p q z lt b le u =
    let (l, e, r, i, c) = whole_line s k p q (omega (arith, z, u)) in
    let (m, f, o, j, _) = read_line n after l r lt b (omega (arith, i, z, le)) in
    let t : chars l.ptampon 0 l.tampon ≡ s = c ∙ ap (λ x. chars x 0 k.tampon ++ s) z in
    (l, m, e, f ∙ ap (λ x. ok (some x, m)) t, o, j)
