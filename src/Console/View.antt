-- ===== src/Console/View.antt =====
-- display_buff, defillement_haut and defillement_bas of kernel/console.c: the older lines on the screen.
use kernel_genesis_os.Base.{ℕ, ◌+◌, ◌-◌, ◌*◌, ◌/◌, ◌%◌, ltb, leb, if◌then◌else◌}
use kernel_genesis_os.Console.{Console, largeur, hauteur, word, place_curseur, efface_ligne}

-- display_buff: the lines of the buffer from `buff_display_ligne` to `buff_ligne`.
unfoldable pub display_buff : Console → Console
display_buff k =
    let n = (k.buff_ligne + 1 - k.buff_display_ligne) * largeur in
    let shown : ℕ → ℕ = λ i.
      if ltb i n
      then k.screen_buffer (k.buff_display_ligne + i / largeur) (i % largeur)
      else k.ecran i in
    record k { ecran = shown }

-- defillement_haut and defillement_bas
unfoldable pub defillement_haut : Console → Console
unfolding display_buff
defillement_haut k =
    if ltb 0 k.buff_display_ligne
    then display_buff (record k { buff_display_ligne = k.buff_display_ligne - 1 })
    else k

unfoldable pub defillement_bas : Console → Console
unfolding display_buff place_curseur efface_ligne
defillement_bas k =
    if leb (k.buff_display_ligne + hauteur) (k.buff_ligne + 1)
    then efface_ligne (
        place_curseur (hauteur - 1) k.id_col_start
          (display_buff (record k { buff_display_ligne = word (k.buff_display_ligne + 1) })))
    else efface_ligne k
