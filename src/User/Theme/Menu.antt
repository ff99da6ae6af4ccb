-- ===== src/User/Theme/Menu.antt =====
-- Which theme a program of user/ plays: cmd_theme of user/theme.c, and the two games.
use kernel_genesis_os.Base.{ℕ, ◌%◌, Option, none, some, ◌==◌, if◌then◌else◌}
use kernel_genesis_os.User.Random.{rand_int}
use kernel_genesis_os.User.Theme.Library.{
  get_bloodytears, get_silentnight, get_cannonind, get_greenhill, get_harrypotter,
  get_imperialmarch, get_keyboardcat, get_miichannel, get_nvrgonnagiveuup, get_pinkpanther,
  get_princelgor, get_professorlayton, get_songofstorms, get_startrek_intro, get_supermario,
  get_takeonme, get_tetris, get_thegodfather, get_vampirekiller, get_zeldaslullaby, get_zeldatheme,
  get_doom, get_gameofthrone, get_evangelion,
}
use kernel_genesis_os.User.Theme.{Theme}

-- The `switch` of cmd_theme.
unfoldable pub choose_theme : ℕ → Option Theme
choose_theme choice =
    if choice == 1
    then some get_bloodytears
    else if choice == 2
    then some get_silentnight
    else if choice == 3
    then some get_cannonind
    else if choice == 4
    then some get_greenhill
    else if choice == 5
    then some get_harrypotter
    else if choice == 6
    then some get_imperialmarch
    else if choice == 7
    then some get_keyboardcat
    else if choice == 8
    then some get_miichannel
    else if choice == 9
    then some get_nvrgonnagiveuup
    else if choice == 11
    then some get_pinkpanther
    else if choice == 12
    then some get_princelgor
    else if choice == 13
    then some get_professorlayton
    else if choice == 14
    then some get_songofstorms
    else if choice == 15
    then some get_startrek_intro
    else if choice == 16
    then some get_supermario
    else if choice == 17
    then some get_takeonme
    else if choice == 18
    then some get_tetris
    else if choice == 19
    then some get_thegodfather
    else if choice == 20
    then some get_vampirekiller
    else if choice == 21
    then some get_zeldaslullaby
    else if choice == 22
    then some get_zeldatheme
    else if choice == 23
    then some get_doom
    else if choice == 24
    then some get_gameofthrone
    else if choice == 25
    then some get_evangelion
    else none

-- The `switch` of cmd_more_less_game, and of cmd_pendu, which have no default.
unfoldable pub more_less_theme : (seed clock : ℕ) → Option Theme
more_less_theme seed clock =
    let rdm = rand_int seed clock % 4 in
    if rdm == 0
    then some get_keyboardcat
    else if rdm == 1
    then some get_tetris
    else if rdm == 2
    then some get_gameofthrone
    else if rdm == 3
    then some get_takeonme
    else none

unfoldable pub pendu_theme : (seed clock : ℕ) → Option Theme
pendu_theme seed clock =
    let rdm = rand_int seed clock % 4 in
    if rdm == 0
    then some get_harrypotter
    else if rdm == 1
    then some get_pinkpanther
    else if rdm == 2
    then some get_songofstorms
    else if rdm == 3
    then some get_doom
    else none
