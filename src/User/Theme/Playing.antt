-- ===== src/User/Theme/Playing.antt =====
-- Every theme can be played: there is no division by 0, no read behind a melody, and no note that the
-- timer has no divisor for.
use kernel_genesis_os.Base.{
  ℕ, zero, suc, ◌*◌, ◌/◌, ◌%◌, ◌≤◌, ◌<◌, ◌≡◌, ◌⊎◌, refl, ap, subst, Bool, true, false, ℤ, Option,
  none, some, List, [], ◌∷◌, ◌==◌, if◌then◌else◌, length, All, arith, Bool-cases, inl, inr,
}
use kernel_genesis_os.Sound.{Sound, play_sound, divisor, play_sound-exact}
use kernel_genesis_os.User.Random.{rand_int}
use kernel_genesis_os.User.Theme.Playable.{
  is_playable, all_playable, plays, bloodytears-plays, vampirekiller-plays, miichannel-plays,
  songofstorms-plays, supermario-plays, tetris-plays, zeldaslullaby-plays, zeldatheme-plays,
  greenhill-plays, princelgor-plays, professorlayton-plays, doom-plays, harrypotter-plays,
  imperialmarch-plays, pinkpanther-plays, startrek_intro-plays, thegodfather-plays,
  gameofthrone-plays, evangelion-plays, silentnight-plays, cannonind-plays, keyboardcat-plays,
  nvrgonnagiveuup-plays, takeonme-plays,
}
use kernel_genesis_os.User.Theme.Menu.{choose_theme, more_less_theme, pendu_theme}
use kernel_genesis_os.User.Theme.{Theme, note_duration, play_notes, play_melody}

-- A sound is a rest, or its divisor reaches the timer whole, and is not 0.
abbrev pub IsHeard : ℕ × ℕ → Type 0
IsHeard (f, t) =
    (f ≡ 0)
    ⊎ ((clock : ℕ) (s : Sound)
        → (divisor (play_sound f t clock s) ≡ 1193180 / f) × (0 < divisor (play_sound f t clock s)))

quotient_pos : (f : ℕ) → 0 < f → f ≤ 1193180 → 0 < 1193180 / f
quotient_pos f h k = grind arith

playable-IsHeard : (f t : ℕ) → is_playable f ≡ true → IsHeard (f, t)
unfolding is_playable
playable-IsHeard f t e = elim (Bool-cases (f == 0)) [
  | inl y ↦ inl (ground arith)
  | inr n ↦ inr λ clock s.
      let x = (play_sound-exact f t clock s (ground arith)).0 in
      (x, rw x (quotient_pos f (ground arith) (ground arith)))
]

play_notes-IsHeard :
    (melody : List (ℕ × ℤ)) (w : ℕ)
    → all_playable melody ≡ true
    → (l : List (ℕ × ℕ)) × (play_notes (length melody) w melody ≡ some l)
      × (length l ≡ length melody)
      × All IsHeard l
unfolding play_notes all_playable
play_notes-IsHeard [] w e = ([], refl, refl, tt)
play_notes-IsHeard ((f, d) ∷ melody) w e =
    let (l, g, k, a) = play_notes-IsHeard melody w (ground arith) in
    (
      (f, note_duration w d / 10) ∷ l,
      rw g refl,
      ap suc k,
      (playable-IsHeard f (note_duration w d / 10) (ground arith), a),
    )

abbrev pub IsPlayed : Theme → Type 0
IsPlayed t =
    (l : List (ℕ × ℕ)) × (play_melody t ≡ some l) × (length l ≡ length t.melody) × All IsHeard l

plays-IsPlayed : (t : Theme) → plays t ≡ true → IsPlayed t
unfolding plays play_melody
plays-IsPlayed t e =
    let (l, g, k, a) = play_notes-IsHeard t.melody (60000 * 4 / t.tempo) (ground arith) in
    let n : t.nb_notes ≡ length t.melody = ground arith in
    let z : (t.tempo == 0) ≡ false = ground arith in (l, rw (z, n) g, k, a)

-- What a program plays, if it plays something.
abbrev OptionPlays : Option Theme → Type 0
OptionPlays none = Unit
OptionPlays (some t) = plays t ≡ true

pick :
    (b : Bool) (t : Theme) (o : Option Theme)
    → plays t ≡ true
    → OptionPlays o
    → OptionPlays (if b then some t else o)
pick true t o p q = p
pick false t o p q = q

choose_theme-plays : (choice : ℕ) → OptionPlays (choose_theme choice)
unfolding choose_theme
choose_theme-plays choice = pick (choice == 1) _ _ bloodytears-plays (
    pick (choice == 2) _ _ silentnight-plays (
      pick (choice == 3) _ _ cannonind-plays (
        pick (choice == 4) _ _ greenhill-plays (
          pick (choice == 5) _ _ harrypotter-plays (
            pick (choice == 6) _ _ imperialmarch-plays (
              pick (choice == 7) _ _ keyboardcat-plays (
                pick (choice == 8) _ _ miichannel-plays (
                  pick (choice == 9) _ _ nvrgonnagiveuup-plays (
                    pick (choice == 11) _ _ pinkpanther-plays (
                      pick (choice == 12) _ _ princelgor-plays (
                        pick (choice == 13) _ _ professorlayton-plays (
                          pick (choice == 14) _ _ songofstorms-plays (
                            pick (choice == 15) _ _ startrek_intro-plays (
                              pick (choice == 16) _ _ supermario-plays (
                                pick (choice == 17) _ _ takeonme-plays (
                                  pick (choice == 18) _ _ tetris-plays (
                                    pick (choice == 19) _ _ thegodfather-plays (
                                      pick (choice == 20) _ _ vampirekiller-plays (
                                        pick (choice == 21) _ _ zeldaslullaby-plays (
                                          pick (choice == 22) _ _ zeldatheme-plays (
                                            pick (choice == 23) _ _ doom-plays (
                                              pick (choice == 24) _ _ gameofthrone-plays (
                                                pick (choice == 25) _ _ evangelion-plays
                                                  (tt))))))))))))))))))))))))

chosen : (o : Option Theme) (t : Theme) → OptionPlays o → o ≡ some t → IsPlayed t
chosen none t p e = absurd (ground arith)
chosen (some u) t p e = let h : u ≡ t = ground arith in subst IsPlayed h (plays-IsPlayed u p)

one_of_four :
    (r : ℕ) (a b c d : Theme)
    → r < 4
    → plays a ≡ true
    → plays b ≡ true
    → plays c ≡ true
    → plays d ≡ true
    → (t : Theme) × ((if r == 0
          then some a
          else if r == 1
          then some b
          else if r == 2
          then some c
          else if r == 3
          then some d
          else none)
        ≡ some t)
      × IsPlayed t
one_of_four zero a b c d lt p q r s = (a, refl, plays-IsPlayed a p)
one_of_four (suc zero) a b c d lt p q r s = (b, refl, plays-IsPlayed b q)
one_of_four (suc (suc zero)) a b c d lt p q r s = (c, refl, plays-IsPlayed c r)
one_of_four (suc (suc (suc zero))) a b c d lt p q r s = (d, refl, plays-IsPlayed d s)
one_of_four (suc (suc (suc (suc n)))) a b c d lt p q r s = absurd (omega arith)

-- Whatever is chosen in the menu of cmd_theme, if it names a theme, and whatever the seed and the
-- clock of the two games are, which always have a theme, play_melody of the theme ends: it divides
-- by no tempo of 0, reads nothing behind the melody and plays every note of it, and every sound is
-- a rest or has a divisor that is not 0 and that play_sound gives the timer whole.
pub themes-IsPlayed :
    (choice seed clock : ℕ)
    → ((t : Theme) → choose_theme choice ≡ some t → IsPlayed t)
      × ((t : Theme) × (more_less_theme seed clock ≡ some t) × IsPlayed t)
      × ((t : Theme) × (pendu_theme seed clock ≡ some t) × IsPlayed t)
unfolding more_less_theme pendu_theme
themes-IsPlayed choice seed clock = (
  λ t e. chosen (choose_theme choice) t (choose_theme-plays choice) e,
  one_of_four (rand_int seed clock % 4) _ _ _ _ (omega arith) keyboardcat-plays tetris-plays
      gameofthrone-plays takeonme-plays,
  one_of_four (rand_int seed clock % 4) _ _ _ _ (omega arith) harrypotter-plays pinkpanther-plays
      songofstorms-plays doom-plays,
)
