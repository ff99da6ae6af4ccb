-- ===== src/User/Theme/Playable.antt =====
-- The themes whose notes the timer has a divisor for.
use kernel_genesis_os.Base.{
  ℕ, ℤ, ◌≡◌, refl, Bool, true, List, [], ◌∷◌, ◌==◌, ◌&&◌, ◌||◌, not, length, leb,
}
use kernel_genesis_os.User.Theme.Library.{
  get_bloodytears, get_vampirekiller, get_miichannel, get_supermario, get_tetris, get_songofstorms,
  get_zeldaslullaby, get_zeldatheme, get_greenhill, get_princelgor, get_professorlayton, get_doom,
  get_harrypotter, get_imperialmarch, get_pinkpanther, get_thegodfather, get_startrek_intro,
  get_gameofthrone, get_evangelion, get_silentnight, get_cannonind, get_keyboardcat,
  get_nvrgonnagiveuup, get_takeonme, get_victory, get_defeat,
}
use kernel_genesis_os.User.Theme.Castle.{bloodytears_melody, vampirekiller_melody}
use kernel_genesis_os.User.Theme.Consoles.{miichannel_melody, supermario_melody, tetris_melody}
use kernel_genesis_os.User.Theme.Zelda.{
  songofstorms_melody, zeldaslullaby_melody, zeldatheme_melody,
}
use kernel_genesis_os.User.Theme.Adventures.{greenhill_melody, princelgor_melody}
use kernel_genesis_os.User.Theme.Layton.{professorlayton_melody}
use kernel_genesis_os.User.Theme.Doom.{doom_melody}
use kernel_genesis_os.User.Theme.Films.{
  harrypotter_melody, imperialmarch_melody, pinkpanther_melody, thegodfather_melody,
}
use kernel_genesis_os.User.Theme.Series.{
  startrek_intro_melody, gameofthrone_melody, evangelion_melody,
}
use kernel_genesis_os.User.Theme.Songs.{
  silentnight_melody, cannonind_melody, keyboardcat_melody, nvrgonnagiveuup_melody, takeonme_melody,
  victory_melody, defeat_melody,
}
use kernel_genesis_os.User.Theme.{Theme}

-- A frequency that the timer can be given: a rest, or a note whose divisor has 16 bits and is not 0.
unfoldable pub is_playable : ℕ → Bool
is_playable f = f == 0 || (leb 19 f && leb f 1193180)

unfoldable pub all_playable : List (ℕ × ℤ) → Bool
unfolding is_playable
all_playable [] = true
all_playable ((f, d) ∷ melody) = is_playable f && all_playable melody

unfoldable pub plays : Theme → Bool
unfolding all_playable
plays t = not (t.tempo == 0) && (t.nb_notes == length t.melody && all_playable t.melody)

pub bloodytears-plays : plays get_bloodytears ≡ true
unfolding plays get_bloodytears bloodytears_melody
bloodytears-plays = refl

pub vampirekiller-plays : plays get_vampirekiller ≡ true
unfolding plays get_vampirekiller vampirekiller_melody
vampirekiller-plays = refl

pub miichannel-plays : plays get_miichannel ≡ true
unfolding plays get_miichannel miichannel_melody
miichannel-plays = refl

pub supermario-plays : plays get_supermario ≡ true
unfolding plays get_supermario supermario_melody
supermario-plays = refl

pub tetris-plays : plays get_tetris ≡ true
unfolding plays get_tetris tetris_melody
tetris-plays = refl

pub songofstorms-plays : plays get_songofstorms ≡ true
unfolding plays get_songofstorms songofstorms_melody
songofstorms-plays = refl

pub zeldaslullaby-plays : plays get_zeldaslullaby ≡ true
unfolding plays get_zeldaslullaby zeldaslullaby_melody
zeldaslullaby-plays = refl

pub zeldatheme-plays : plays get_zeldatheme ≡ true
unfolding plays get_zeldatheme zeldatheme_melody
zeldatheme-plays = refl

pub greenhill-plays : plays get_greenhill ≡ true
unfolding plays get_greenhill greenhill_melody
greenhill-plays = refl

pub princelgor-plays : plays get_princelgor ≡ true
unfolding plays get_princelgor princelgor_melody
princelgor-plays = refl

pub professorlayton-plays : plays get_professorlayton ≡ true
unfolding plays get_professorlayton professorlayton_melody
professorlayton-plays = refl

pub doom-plays : plays get_doom ≡ true
unfolding plays get_doom doom_melody
doom-plays = refl

pub harrypotter-plays : plays get_harrypotter ≡ true
unfolding plays get_harrypotter harrypotter_melody
harrypotter-plays = refl

pub imperialmarch-plays : plays get_imperialmarch ≡ true
unfolding plays get_imperialmarch imperialmarch_melody
imperialmarch-plays = refl

pub pinkpanther-plays : plays get_pinkpanther ≡ true
unfolding plays get_pinkpanther pinkpanther_melody
pinkpanther-plays = refl

pub thegodfather-plays : plays get_thegodfather ≡ true
unfolding plays get_thegodfather thegodfather_melody
thegodfather-plays = refl

pub startrek_intro-plays : plays get_startrek_intro ≡ true
unfolding plays get_startrek_intro startrek_intro_melody
startrek_intro-plays = refl

pub gameofthrone-plays : plays get_gameofthrone ≡ true
unfolding plays get_gameofthrone gameofthrone_melody
gameofthrone-plays = refl

pub evangelion-plays : plays get_evangelion ≡ true
unfolding plays get_evangelion evangelion_melody
evangelion-plays = refl

pub silentnight-plays : plays get_silentnight ≡ true
unfolding plays get_silentnight silentnight_melody
silentnight-plays = refl

pub cannonind-plays : plays get_cannonind ≡ true
unfolding plays get_cannonind cannonind_melody
cannonind-plays = refl

pub keyboardcat-plays : plays get_keyboardcat ≡ true
unfolding plays get_keyboardcat keyboardcat_melody
keyboardcat-plays = refl

pub nvrgonnagiveuup-plays : plays get_nvrgonnagiveuup ≡ true
unfolding plays get_nvrgonnagiveuup nvrgonnagiveuup_melody
nvrgonnagiveuup-plays = refl

pub takeonme-plays : plays get_takeonme ≡ true
unfolding plays get_takeonme takeonme_melody
takeonme-plays = refl

pub victory-plays : plays get_victory ≡ true
unfolding plays get_victory victory_melody
victory-plays = refl

pub defeat-plays : plays get_defeat ≡ true
unfolding plays get_defeat defeat_melody
defeat-plays = refl
