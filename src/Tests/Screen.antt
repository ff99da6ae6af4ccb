-- ===== src/Tests/Screen.antt =====
-- The theorems on the screen and the clock at concrete states.
use kernel_genesis_os.Base.{◌+◌, ◌≡◌, pos, true, [], ◌∷◌, arith}
use kernel_genesis_os.Console.{Console, cons_write}
use kernel_genesis_os.Console.Cursor.{IsOnScreen, IsWithin, cons_write-IsOnScreen}
use kernel_genesis_os.Horloge.{Horloge, IsTime, count_tick, elapsed, count_tick-IsTime}

-- A console whose cursor is on the line before the last, in the last column.
abbrev pub console : Console
console = record {
  ligne = 23;
  colonne = 79;
  echo = true;
  base_color = 15;
  id_col_start = 2;
  ecran = λ i. 32;
  screen_buffer = λ i j. 32;
  buff_ligne = 40;
  buff_display_ligne = 17;
}

cons_write-IsOnScreen_example :
    IsOnScreen 24 (cons_write (pos 97 ∷ pos 9 ∷ pos 1 ∷ pos 10 ∷ []) console)
    × IsWithin console (cons_write (pos 97 ∷ pos 9 ∷ pos 1 ∷ pos 10 ∷ []) console)
cons_write-IsOnScreen_example =
    cons_write-IsOnScreen (pos 97 ∷ pos 9 ∷ pos 1 ∷ pos 10 ∷ []) console
      (record { ligne = omega arith; colonne = omega arith; start = omega arith })

-- The last hundredth of a second of an hour.
abbrev full_hour : Horloge
full_hour = record { ticks = 359999; cpt_ticks = 99; secondes = 59; minutes = 59; heures = 0 }

count_tick-IsTime_example :
    IsTime (count_tick full_hour) × (elapsed (count_tick full_hour) ≡ elapsed full_hour + 1)
count_tick-IsTime_example =
    count_tick-IsTime full_hour
      (record { cpt_ticks = omega arith; secondes = omega arith; minutes = omega arith })
      (omega arith)
