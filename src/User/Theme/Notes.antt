-- ===== src/User/Theme/Notes.antt =====
-- shared/sound_enum.h: the frequencies, in hertz, of the notes that the melodies have, under their names
-- without NOTE_.
use kernel_genesis_os.Base.{ℕ, pos, neg_ℤ, ℤ, List, [], ◌∷◌, ◌++◌}

abbrev pub rest : ℕ
rest = 0

abbrev pub e2 : ℕ
e2 = 82

abbrev pub a2 : ℕ
a2 = 110

abbrev pub as2 : ℕ
as2 = 117

abbrev pub b2 : ℕ
b2 = 123

abbrev pub c3 : ℕ
c3 = 131

abbrev pub cs3 : ℕ
cs3 = 139

abbrev pub d3 : ℕ
d3 = 147

abbrev pub ds3 : ℕ
ds3 = 156

abbrev pub e3 : ℕ
e3 = 165

abbrev pub f3 : ℕ
f3 = 175

abbrev pub fs3 : ℕ
fs3 = 185

abbrev pub g3 : ℕ
g3 = 196

abbrev pub gs3 : ℕ
gs3 = 208

abbrev pub a3 : ℕ
a3 = 220

abbrev pub as3 : ℕ
as3 = 233

abbrev pub b3 : ℕ
b3 = 247

abbrev pub c4 : ℕ
c4 = 261

abbrev pub cs4 : ℕ
cs4 = 277

abbrev pub d4 : ℕ
d4 = 293

abbrev pub ds4 : ℕ
ds4 = 311

abbrev pub e4 : ℕ
e4 = 329

abbrev pub f4 : ℕ
f4 = 349

abbrev pub fs4 : ℕ
fs4 = 369

abbrev pub g4 : ℕ
g4 = 392

abbrev pub gs4 : ℕ
gs4 = 415

abbrev pub a4 : ℕ
a4 = 440

abbrev pub as4 : ℕ
as4 = 466

abbrev pub b4 : ℕ
b4 = 493

abbrev pub c5 : ℕ
c5 = 523

abbrev pub cs5 : ℕ
cs5 = 554

abbrev pub d5 : ℕ
d5 = 587

abbrev pub ds5 : ℕ
ds5 = 622

abbrev pub e5 : ℕ
e5 = 659

abbrev pub f5 : ℕ
f5 = 698

abbrev pub fs5 : ℕ
fs5 = 739

abbrev pub g5 : ℕ
g5 = 783

abbrev pub gs5 : ℕ
gs5 = 830

abbrev pub a5 : ℕ
a5 = 880

abbrev pub as5 : ℕ
as5 = 932

abbrev pub b5 : ℕ
b5 = 987

abbrev pub c6 : ℕ
c6 = 1046

abbrev pub cs6 : ℕ
cs6 = 1108

abbrev pub d6 : ℕ
d6 = 1174

abbrev pub ds6 : ℕ
ds6 = 1244

abbrev pub e6 : ℕ
e6 = 1318

abbrev pub f6 : ℕ
f6 = 1396

abbrev pub fs6 : ℕ
fs6 = 1479

abbrev pub g6 : ℕ
g6 = 1567

abbrev pub gs6 : ℕ
gs6 = 1661

abbrev pub as6 : ℕ
as6 = 1864

abbrev pub b6 : ℕ
b6 = 1975

abbrev pub c7 : ℕ
c7 = 2093

-- A note of a melody, and a dotted one, by its frequency and its divider.
abbrev pub n : ℕ → ℕ → ℕ × ℤ
n frequency divider = (frequency, pos divider)

abbrev pub p : ℕ → ℕ → ℕ × ℤ
p frequency divider = (frequency, neg_ℤ (pos divider))

-- The lines of an array, one behind the other.
abbrev pub rows : List (List (ℕ × ℤ)) → List (ℕ × ℤ)
rows [] = []
rows (r ∷ rs) = r ++ rows rs
