-- ===== src/Console/Cursor.antt =====
-- The place of the cursor and the cells that are written, in kernel/console.c.
use kernel_genesis_os.Base.{
  ℕ, ◌+◌, ◌≤◌, ◌<◌, ◌≡◌, refl, ◌∙◌, ℤ, pos, ltb_ℤ, eqb_ℤ, List, [], ◌∷◌, arith, Bool, if◌then◌else◌,
  Bool-cases, inl, inr, true, false, ◌+ℤ◌,
}
use kernel_genesis_os.Console.{
  Console, place_curseur, scroll, defilement, backspace, tab, newline, delete, put, other, act,
  efface_ecran, traite_car, cons_write, ecrit_car, ecrit_buffer,
}

-- The cursor is on the screen, the first `lines` lines of it, and lines begin on it.
pub record IsOnScreen (lines : ℕ) (k : Console) : Type 0 where
  pub ligne : k.ligne < lines
  pub colonne : k.colonne < 80
  pub start : k.id_col_start < 80

-- From `k` to `k'` no cell behind the screen changed, and lines begin where they did.
pub record IsWithin (k k' : Console) : Type 0 where
  pub cells : (i : ℕ) → 2000 ≤ i → k'.ecran i ≡ k.ecran i
  pub same_start : k'.id_col_start ≡ k.id_col_start

-- A step of the console that keeps the cursor on the first 24 or 25 lines.
abbrev Steps : ℕ → Console → Console → Type 0
Steps lines k k' = IsOnScreen lines k' × IsWithin k k'

scroll-Steps : (k : Console) → IsOnScreen 25 k → Steps 24 k (scroll k)
unfolding scroll defilement place_curseur
scroll-Steps k w = (
  record {
    ligne = ground (arith, w.ligne);
    colonne = ground (arith, w.colonne);
    start = ground (arith, w.start);
  },
  record { cells = λ i le. ground arith; same_start = ground arith },
)

put-Steps : (c : ℤ) (k : Console) → IsOnScreen 24 k → Steps 25 k (put c k)
unfolding put place_curseur ecrit_car ecrit_buffer
put-Steps c k w = (
  record {
    ligne = ground (arith, w.ligne);
    colonne = ground (arith, w.colonne);
    start = ground (arith, w.start);
  },
  record { cells = λ i le. ground (arith, w.ligne, w.colonne); same_start = ground arith },
)

backspace-Steps : (k : Console) → IsOnScreen 24 k → Steps 25 k (backspace k)
unfolding backspace place_curseur
backspace-Steps k w = (
  record {
    ligne = ground (arith, w.ligne, w.colonne, w.start);
    colonne = ground (arith, w.ligne, w.colonne, w.start);
    start = ground (arith, w.ligne, w.colonne, w.start);
  },
  record { cells = λ i le. ground (arith, w.ligne, w.colonne, w.start); same_start = ground arith },
)

tab-Steps : (k : Console) → IsOnScreen 24 k → Steps 25 k (tab k)
unfolding tab place_curseur
tab-Steps k w = (
  record {
    ligne = ground (arith, w.ligne, w.colonne, w.start);
    colonne = ground (arith, w.ligne, w.colonne, w.start);
    start = ground (arith, w.ligne, w.colonne, w.start);
  },
  record { cells = λ i le. ground (arith, w.ligne, w.colonne, w.start); same_start = ground arith },
)

newline-Steps : (k : Console) → IsOnScreen 24 k → Steps 25 k (newline k)
unfolding newline place_curseur
newline-Steps k w = (
  record {
    ligne = ground (arith, w.ligne, w.colonne, w.start);
    colonne = ground (arith, w.ligne, w.colonne, w.start);
    start = ground (arith, w.ligne, w.colonne, w.start);
  },
  record { cells = λ i le. ground (arith, w.ligne, w.colonne, w.start); same_start = ground arith },
)

delete-Steps : (k : Console) → IsOnScreen 24 k → Steps 25 k (delete k)
unfolding delete place_curseur ecrit_car ecrit_buffer
delete-Steps k w = (
  record {
    ligne = ground (arith, w.ligne, w.colonne, w.start);
    colonne = ground (arith, w.ligne, w.colonne, w.start);
    start = ground (arith, w.ligne, w.colonne, w.start);
  },
  record { cells = λ i le. ground (arith, w.ligne, w.colonne, w.start); same_start = ground arith },
)

erase-Steps : (k : Console) → IsOnScreen 24 k → Steps 25 k (place_curseur 0 0 (efface_ecran k))
unfolding place_curseur efface_ecran
erase-Steps k w = (
  record {
    ligne = omega arith;
    colonne = omega arith;
    start = ground (arith, w.ligne, w.colonne, w.start);
  },
  record { cells = λ i le. ground (arith, w.ligne, w.colonne, w.start); same_start = refl },
)

return-Steps : (k : Console) → IsOnScreen 24 k → Steps 25 k (place_curseur k.ligne k.id_col_start k)
unfolding place_curseur
return-Steps k w = (
  record {
    ligne = ground (arith, w.ligne, w.colonne, w.start);
    colonne = ground (arith, w.ligne, w.colonne, w.start);
    start = ground (arith, w.ligne, w.colonne, w.start);
  },
  record { cells = λ i le. refl; same_start = refl },
)

stay-Steps : (k : Console) → IsOnScreen 24 k → Steps 25 k k
stay-Steps k w = (
  record {
    ligne = ground (arith, w.ligne, w.colonne, w.start);
    colonne = ground (arith, w.ligne, w.colonne, w.start);
    start = ground (arith, w.ligne, w.colonne, w.start);
  },
  record { cells = λ i le. refl; same_start = refl },
)

IsWithin-trans : (k l m : Console) → IsWithin k l → IsWithin l m → IsWithin k m
IsWithin-trans k l m a b = record {
  cells = λ i le. b.cells i le ∙ a.cells i le;
  same_start = b.same_start ∙ a.same_start;
}

other-Steps : (c : ℤ) (k : Console) → IsOnScreen 24 k → Steps 25 k (other c k)
unfolding other
other-Steps c k w = elim (Bool-cases (ltb_ℤ c (pos 32))) [
  | inl t ↦
      let a = put-Steps (pos 94) k w in
      let b = scroll-Steps (put (pos 94) k) a.0 in
      let d = put-Steps (pos 64 +ℤ c) (scroll (put (pos 94) k)) b.0 in
      rw t (d.0, IsWithin-trans _ _ _ (IsWithin-trans _ _ _ a.1 b.1) d.1)
  | inr f ↦ rw f (put-Steps c k w)
]

if-Steps :
    (b : Bool) (k l m : Console) → Steps 25 k l → Steps 25 k m → Steps 25 k (if b then l else m)
if-Steps true k l m a b = a
if-Steps false k l m a b = b

act-Steps : (c : ℤ) (k : Console) → IsOnScreen 24 k → Steps 25 k (act c k)
unfolding act
act-Steps c k w = if-Steps (eqb_ℤ c (pos 8)) k _ _ (backspace-Steps k w) (
    if-Steps (eqb_ℤ c (pos 9)) k _ _ (tab-Steps k w) (
      if-Steps (eqb_ℤ c (pos 10)) k _ _ (newline-Steps k w) (
        if-Steps (eqb_ℤ c (pos 12)) k _ _ (erase-Steps k w) (
          if-Steps (eqb_ℤ c (pos 13)) k _ _ (return-Steps k w) (
            if-Steps (eqb_ℤ c (pos 27)) k _ _ (stay-Steps k w) (
              if-Steps (eqb_ℤ c (pos 127)) k _ _ (delete-Steps k w)
                (if-Steps (eqb_ℤ c (pos 7)) k _ _ (stay-Steps k w) (other-Steps c k w))))))))

-- One character keeps the cursor on the first 24 lines and writes to nothing behind the screen.
pub traite_car-IsOnScreen :
    (c : ℤ) (k : Console)
    → IsOnScreen 24 k
    → IsOnScreen 24 (traite_car c k) × IsWithin k (traite_car c k)
unfolding traite_car
traite_car-IsOnScreen c k w =
    let a = act-Steps c k w in
    let b = scroll-Steps (act c k) a.0 in (b.0, IsWithin-trans _ _ _ a.1 b.1)

-- Writing a text of any characters keeps the cursor on the first 24 of the 25 lines and on the 80
-- columns, changes no cell behind the screen's 2000, and keeps the column where lines begin,
-- provided that the cursor is there before and that this column is below 80.
pub cons_write-IsOnScreen :
    (s : List ℤ) (k : Console)
    → IsOnScreen 24 k
    → IsOnScreen 24 (cons_write s k) × IsWithin k (cons_write s k)
unfolding cons_write
cons_write-IsOnScreen [] k w = (w, record { cells = λ i le. refl; same_start = refl })
cons_write-IsOnScreen (c ∷ s) k w =
    let a = traite_car-IsOnScreen c k w in
    let b = cons_write-IsOnScreen s (traite_car c k) a.0 in (b.0, IsWithin-trans _ _ _ a.1 b.1)

-- A tab with the cursor from column 8 on, on the 80 columns and the first 24 lines, moves it to the
-- next line and not to a higher column.
pub tab-next_line :
    (k : Console)
    → 8 ≤ k.colonne
    → k.colonne < 80
    → k.ligne < 24
    → ((tab k).ligne ≡ k.ligne + 1) × ((tab k).colonne ≤ k.colonne)
unfolding tab place_curseur
tab-next_line k lo hi l = (ground arith, ground arith)
