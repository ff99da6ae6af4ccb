-- ===== src/User/Theme/Library.antt =====
-- The themes of user/theme_lib.c: each melody with the number of its notes and its tempo.
use kernel_genesis_os.User.Theme.{Theme, theme}
use kernel_genesis_os.User.Theme.Castle.{bloodytears_melody, vampirekiller_melody}
use kernel_genesis_os.User.Theme.Consoles.{miichannel_melody, supermario_melody, tetris_melody}
use kernel_genesis_os.User.Theme.Zelda.{
  songofstorms_melody, zeldaslullaby_melody, zeldatheme_melody,
}
use kernel_genesis_os.User.Theme.Adventures.{greenhill_melody, princelgor_melody}
use kernel_genesis_os.User.Theme.Layton.{professorlayton_melody}
use kernel_genesis_os.User.Theme.Doom.{doom_melody}
use kernel_genesis_os.User.Theme.Films.{
  harrypotter_melody, imperialmarch_melody, pinkpanther_melody, thegodfather_melody,
}
use kernel_genesis_os.User.Theme.Series.{
  startrek_intro_melody, gameofthrone_melody, evangelion_melody,
}
use kernel_genesis_os.User.Theme.Songs.{
  silentnight_melody, cannonind_melody, keyboardcat_melody, nvrgonnagiveuup_melody, takeonme_melody,
  victory_melody, defeat_melody,
}

unfoldable pub get_bloodytears : Theme
get_bloodytears = theme bloodytears_melody 144

unfoldable pub get_silentnight : Theme
get_silentnight = theme silentnight_melody 140

unfoldable pub get_cannonind : Theme
get_cannonind = theme cannonind_melody 100

unfoldable pub get_greenhill : Theme
get_greenhill = theme greenhill_melody 140

unfoldable pub get_harrypotter : Theme
get_harrypotter = theme harrypotter_melody 144

unfoldable pub get_imperialmarch : Theme
get_imperialmarch = theme imperialmarch_melody 120

unfoldable pub get_keyboardcat : Theme
get_keyboardcat = theme keyboardcat_melody 160

unfoldable pub get_miichannel : Theme
get_miichannel = theme miichannel_melody 114

unfoldable pub get_nvrgonnagiveuup : Theme
get_nvrgonnagiveuup = theme nvrgonnagiveuup_melody 144

unfoldable pub get_pinkpanther : Theme
get_pinkpanther = theme pinkpanther_melody 120

unfoldable pub get_princelgor : Theme
get_princelgor = theme princelgor_melody 110

unfoldable pub get_professorlayton : Theme
get_professorlayton = theme professorlayton_melody 140

unfoldable pub get_songofstorms : Theme
get_songofstorms = theme songofstorms_melody 108

unfoldable pub get_startrek_intro : Theme
get_startrek_intro = theme startrek_intro_melody 80

unfoldable pub get_supermario : Theme
get_supermario = theme supermario_melody 200

unfoldable pub get_takeonme : Theme
get_takeonme = theme takeonme_melody 140

unfoldable pub get_tetris : Theme
get_tetris = theme tetris_melody 144

unfoldable pub get_thegodfather : Theme
get_thegodfather = theme thegodfather_melody 80

unfoldable pub get_vampirekiller : Theme
get_vampirekiller = theme vampirekiller_melody 130

unfoldable pub get_zeldaslullaby : Theme
get_zeldaslullaby = theme zeldaslullaby_melody 108

unfoldable pub get_zeldatheme : Theme
get_zeldatheme = theme zeldatheme_melody 88

unfoldable pub get_doom : Theme
get_doom = theme doom_melody 225

unfoldable pub get_gameofthrone : Theme
get_gameofthrone = theme gameofthrone_melody 85

unfoldable pub get_victory : Theme
get_victory = theme victory_melody 120

unfoldable pub get_defeat : Theme
get_defeat = theme defeat_melody 120

unfoldable pub get_evangelion : Theme
get_evangelion = theme evangelion_melody 155
