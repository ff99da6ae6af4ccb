-- ===== src/Console.antt =====
-- The screen of kernel/console.c: the cursor, the characters and the scrolling.
--
-- The screen's memory is a function from cells, `lig * LARGEUR + col`, to their 16 bits. All calls of
-- car_value have the background NOIR and do not blink, so that its attribute byte is the colour. The
-- ports that move the hardware's cursor and the sound of beep are left aside.
pub mod Cursor
pub mod View
use kernel_genesis_os.Base.{
  ℕ, suc, ◌+◌, ◌-◌, ◌*◌, ◌%◌, ℤ, pos, ◌+ℤ◌, leb_ℤ, ltb_ℤ, eqb_ℤ, pos_part, Bool, true, false, List,
  [], ◌∷◌, ltb, leb, ◌==◌, ◌&&◌, ◌||◌, ◌/◌, not, if◌then◌else◌, update,
}

-- LARGEUR, HAUTEUR
abbrev pub largeur : ℕ
largeur = 80

abbrev pub hauteur : ℕ
hauteur = 25

-- The globals of kernel/console.c that the screen has. `screen_buffer` has 2500 lines in the code,
-- which does not test that `buff_ligne` is one of them.
pub record Console : Type 0 where
  pub ligne : ℕ
  pub colonne : ℕ
  pub echo : Bool
  pub base_color : ℕ
  pub id_col_start : ℕ
  pub ecran : ℕ → ℕ
  pub screen_buffer : ℕ → ℕ → ℕ
  pub buff_ligne : ℕ
  pub buff_display_ligne : ℕ

-- A 16-bit counter.
abbrev pub word : ℕ → ℕ
word n = n % 65536

-- set_id_start
unfoldable pub set_id_start : ℤ → Console → Console
set_id_start i k =
    if ltb_ℤ i (pos 0) || ltb_ℤ (pos largeur) i then k else record k { id_col_start = pos_part i }

-- car_value
unfoldable pub car_value : (colour c : ℕ) → ℕ
car_value colour c = colour % 256 * 256 + c

-- ptr_mem and ecrit_car
unfoldable pub ecrit_car : (lig col value : ℕ) → Console → Console
ecrit_car lig col value k = record k { ecran = update k.ecran (lig * largeur + col) value }

-- The same cell of `screen_buffer`.
unfoldable pub ecrit_buffer : (lig col value : ℕ) → Console → Console
ecrit_buffer lig col value k = record k {
  screen_buffer = update k.screen_buffer lig (update (k.screen_buffer lig) col value);
}

abbrev blank : ℕ
blank = 32

-- `n` cells from `first` get the same value.
abbrev pub fill : (first n value : ℕ) → (ℕ → ℕ) → ℕ → ℕ
fill first n value f i = if leb first i && ltb i (first + n) then value else f i

-- set_color
unfoldable pub set_color : ℕ → Console → Console
set_color c k = record k { base_color = c }

-- efface_ecran
unfoldable pub efface_ecran : Console → Console
efface_ecran k = record k {
  ecran = fill 0 (hauteur * largeur) blank k.ecran;
  buff_display_ligne = k.buff_ligne;
}

-- place_curseur
unfoldable pub place_curseur : (lig col : ℕ) → Console → Console
place_curseur lig col k = record k { ligne = word lig; colonne = word col }

-- efface_ligne
unfoldable pub efface_ligne : Console → Console
unfolding place_curseur
efface_ligne k =
    let n = largeur - k.id_col_start in
    let row = fill k.id_col_start n blank (k.screen_buffer k.buff_ligne) in
    place_curseur k.ligne k.id_col_start (record k {
      ecran = fill (k.ligne * largeur + k.id_col_start) n blank k.ecran;
      screen_buffer = update k.screen_buffer k.buff_ligne row;
    })

-- avance_curseur
unfoldable pub avance_curseur : Console → Console
unfolding place_curseur
avance_curseur k =
    if (k.colonne + 1) % largeur == 0 then k else place_curseur k.ligne (k.colonne + 1) k

-- defilement: the lines move up by one, and the last is erased.
unfoldable pub defilement : Console → Console
unfolding place_curseur
defilement k =
    let n = (hauteur - 1) * largeur in
    let up : ℕ → ℕ = λ i. if ltb i n then k.ecran (i + largeur) else k.ecran i in
    place_curseur (hauteur - 1) 0 (record k { ecran = fill n largeur blank up })

-- The end of traite_car: the last line is never written to.
unfoldable pub scroll : Console → Console
unfolding defilement
scroll k =
    if k.ligne == hauteur - 1
    then (let k' : Console = defilement k in
        record k' { buff_display_ligne = word (k'.buff_display_ligne + 1); ligne = k'.ligne - 1 })
    else k

-- BS
unfoldable pub backspace : Console → Console
unfolding place_curseur
backspace k =
    if ltb k.id_col_start k.colonne
    then place_curseur k.ligne (k.colonne - 1) k
    else place_curseur k.ligne k.id_col_start k

-- `colonne + (8 - colonne) % 8`, by the remainder of C, which has the sign of `8 - colonne`.
abbrev pub tab_stop : ℕ → ℕ
tab_stop c = if leb c 8 then c + (8 - c) % 8 else c - (c - 8) % 8

-- HT
unfoldable pub tab : Console → Console
unfolding place_curseur
tab k =
    let c = if k.colonne % 8 == 0 then word (k.colonne + 1) else k.colonne in
    if ltb (tab_stop c) c
    then place_curseur (k.ligne + 1) (tab_stop c)
        (record k { buff_ligne = word (k.buff_ligne + 1) })
    else place_curseur k.ligne (tab_stop c) k

-- LF
unfoldable pub newline : Console → Console
unfolding place_curseur
newline k =
    let k' : Console = place_curseur ((k.ligne + 1) % hauteur) k.id_col_start k in
    record k' { buff_ligne = word (k.buff_ligne + 1) }

-- DEL
unfoldable pub delete : Console → Console
unfolding place_curseur ecrit_car ecrit_buffer
delete k =
    if ltb k.id_col_start k.colonne
    then place_curseur k.ligne (k.colonne - 1) (
        ecrit_buffer k.buff_ligne (k.colonne - 1) blank (ecrit_car k.ligne (k.colonne - 1) blank k))
    else k

-- A character with a place of its own, and the cursor behind it.
unfoldable pub put : ℤ → Console → Console
unfolding place_curseur ecrit_car ecrit_buffer car_value
put c k =
    let v = car_value k.base_color (pos_part c) in
    let k' : Console = ecrit_buffer k.buff_ligne k.colonne v (ecrit_car k.ligne k.colonne v k) in
    if leb_ℤ c (pos 126) && leb_ℤ (pos 32) c
    then (if (k.colonne + 1) % largeur == 0
        then place_curseur ((k.ligne + 1) % hauteur) 0 k'
        else place_curseur k.ligne (k.colonne + 1) k')
    else k

-- The `default` case: a control character is written as `^` and a letter.
unfoldable pub other : ℤ → Console → Console
unfolding put scroll
other c k = if ltb_ℤ c (pos 32) then put (pos 64 +ℤ c) (scroll (put (pos 94) k)) else put c k

-- The `switch` of traite_car, for a signed character.
unfoldable pub act : ℤ → Console → Console
unfolding place_curseur backspace tab newline efface_ecran delete other
act c k =
    if eqb_ℤ c (pos 8)
    then backspace k
    else if eqb_ℤ c (pos 9)
    then tab k
    else if eqb_ℤ c (pos 10)
    then newline k
    else if eqb_ℤ c (pos 12)
    then place_curseur 0 0 (efface_ecran k)
    else if eqb_ℤ c (pos 13)
    then place_curseur k.ligne k.id_col_start k
    else if eqb_ℤ c (pos 27)
    then k
    else if eqb_ℤ c (pos 127)
    then delete k
    else if eqb_ℤ c (pos 7)
    then k
    else other c k

-- traite_car
unfoldable pub traite_car : ℤ → Console → Console
unfolding act scroll
traite_car c k = scroll (act c k)

-- cons_write and console_putbytes, of a text.
unfoldable pub cons_write : List ℤ → Console → Console
unfolding traite_car
cons_write [] k = k
cons_write (c ∷ s) k = cons_write s (traite_car c k)

-- cons_echo and cons_switch_echo
unfoldable pub cons_echo : ℤ → Console → Console
cons_echo on k = record k { echo = not (eqb_ℤ on (pos 0)) }

unfoldable pub cons_switch_echo : Console → Console
cons_switch_echo k = record k { echo = not k.echo }
