-- ===== src/User/Utils.antt =====
-- atoi of user/utils.c. An `int` is its pattern of 32 bits, so that -1 is 4294967295.
use kernel_genesis_os.Base.{
  ℕ, zero, suc, ◌+◌, ◌-◌, ◌*◌, ◌/◌, ◌%◌, ◌≤◌, ◌<◌, ◌≡◌, ◌∙◌, refl, ap, false, true, Option, none,
  some, List, [], ◌∷◌, ◌++◌, ltb, ◌==◌, ◌||◌, if◌then◌else◌, length, length-append, All, ltb→lt,
  arith, Bool-cases, inl, inr,
}
use mathlib.Core.Option
use kernel_genesis_os.Base.{Bytes}

abbrev pub word : ℕ → ℕ
word n = n % 4294967296

-- The loop of atoi.
unfoldable pub atoi_loop : ℕ → (s result : ℕ) → Bytes → Option ℕ
atoi_loop zero s result m = none
atoi_loop (suc fuel) s result m =
    let rest = atoi_loop fuel (s + 1) (word (result * 10 + (m s - b'0'))) m in
    if m s == 0 then some result else if ltb (m s) b'0' || ltb b'9' (m s) then some 0 else rest

-- atoi
unfoldable pub atoi : ℕ → ℕ → Bytes → Option ℕ
unfolding atoi_loop
atoi fuel s m =
    if m s == b'-'
    then Option.map (λ n. word (4294967296 - n)) (atoi_loop fuel (s + 1) 0 m)
    else atoi_loop fuel s 0 m

-- The decimal digits of a number, with at most `f` of them.
unfoldable pub decimal : ℕ → ℕ → List ℕ
decimal zero n = []
decimal (suc f) n =
    let rest = decimal f (n / 10) ++ n % 10 ∷ [] in if ltb n 10 then n ∷ [] else rest

-- The numbers of at most `f` digits.
abbrev pub limit : ℕ → ℕ
limit zero = 1
limit (suc f) = 10 * limit f

-- The text at `s` shows these digits, and ends by a zero.
abbrev pub Shows : Bytes → ℕ → List ℕ → Type 0
Shows m s [] = m s ≡ 0
Shows m s (d ∷ ds) = (m s ≡ b'0' + d) × (d < 10) × Shows m (s + 1) ds

abbrev pub AllDigits : List ℕ → Type 0
AllDigits ds = All (λ d. d < 10) ds

AllDigits-append : (xs : List ℕ) (d : ℕ) → AllDigits xs → d < 10 → AllDigits (xs ++ d ∷ [])
AllDigits-append [] d h l = (l, tt)
AllDigits-append (x ∷ xs) d (a, h) l = (a, AllDigits-append xs d h l)

pub decimal-digits : (f n : ℕ) → AllDigits (decimal f n)
unfolding decimal
decimal-digits zero n = tt
decimal-digits (suc f) n = elim (Bool-cases (ltb n 10)) [
  | inl y ↦ rw y (omega (arith, ltb→lt n 10 y))
  | inr b ↦
      rw b
        (AllDigits-append (decimal f (n / 10)) (n % 10) (decimal-digits f (n / 10)) (omega arith))
]

horner : ℕ → List ℕ → ℕ
horner r [] = r
horner r (d ∷ ds) = horner (r * 10 + d) ds

horner-append : (r : ℕ) (ds : List ℕ) (d : ℕ) → horner r (ds ++ d ∷ []) ≡ horner r ds * 10 + d
unfolding horner
horner-append r [] d = refl
horner-append r (e ∷ ds) d = horner-append (r * 10 + e) ds d

horner_nil : horner 0 [] ≡ 0
unfolding horner
horner_nil = refl

horner_digit : (d : ℕ) → horner 0 (d ∷ []) ≡ d
unfolding horner
horner_digit d = omega arith

horner-decimal : (f n : ℕ) → n < limit f → horner 0 (decimal f n) ≡ n
unfolding decimal
horner-decimal zero n h = omega (arith, horner_nil)
horner-decimal (suc f) n h = elim (Bool-cases (ltb n 10)) [
  | inl y ↦ rw y (horner_digit n)
  | inr b ↦
      let ih = horner-decimal f (n / 10) (omega arith) in
      rw (b, horner-append 0 (decimal f (n / 10)) (n % 10), ih) (omega arith)
]

pub length-decimal : (f n : ℕ) → length (decimal f n) ≤ f
unfolding decimal
length-decimal zero n = omega arith
length-decimal (suc f) n = elim (Bool-cases (ltb n 10)) [
  | inl y ↦ rw y (omega arith)
  | inr b ↦
      rw b
        (omega (arith, length-append (decimal f (n / 10)) (n % 10 ∷ []), length-decimal f (n / 10)))
]

no_sign : (m : Bytes) (s : ℕ) (ds : List ℕ) → Shows m s ds → (m s == b'-') ≡ false
no_sign m s [] h = ground arith
no_sign m s (d ∷ ds) h = ground arith

atoi_loop-Shows :
    (fuel s r : ℕ) (ds : List ℕ) (m : Bytes)
    → Shows m s ds
    → length ds < fuel
    → atoi_loop fuel s (word r) m ≡ some (word (horner r ds))
unfolding atoi_loop horner
atoi_loop-Shows zero s r ds m h l = absurd (omega arith)
atoi_loop-Shows (suc fuel) s r [] m h l = ground arith
atoi_loop-Shows (suc fuel) s r (d ∷ ds) m (e, lt, h) l =
    let ih = atoi_loop-Shows fuel (s + 1) (r * 10 + d) ds m h (omega arith) in
    let w : word (word r * 10 + (m s - b'0')) ≡ word (r * 10 + d) = omega arith in
    rw w (ground (arith, ih))

-- atoi of the decimal digits of a number of 32 bits, ended by a zero, gives that number, and of the
-- same digits behind a `-` its negative, modulo 2 ^ 32, provided that there is more fuel than the
-- digits that `decimal` may use, which are enough for the number.
pub atoi-decimal :
    (fuel f s n : ℕ) (m : Bytes)
    → n < 4294967296
    → n < limit f
    → f < fuel
    → (Shows m s (decimal f n) → atoi fuel s m ≡ some n)
      × (m s ≡ b'-' → Shows m (s + 1) (decimal f n) → atoi fuel s m ≡ some (word (4294967296 - n)))
unfolding atoi
atoi-decimal fuel f s n m h k l =
    let c : length (decimal f n) < fuel = omega (arith, length-decimal f n) in
    let v : word (horner 0 (decimal f n)) ≡ n = rw (horner-decimal f n k) (omega arith) in
    (
      λ d.
          rw (no_sign m s (decimal f n) d)
            (atoi_loop-Shows fuel s 0 (decimal f n) m d c ∙ ap some v),
      λ e d.
          let y : (m s == b'-') ≡ true = rw e refl in
          let r = atoi_loop-Shows fuel (s + 1) 0 (decimal f n) m d c ∙ ap some v in rw (y, r) refl,
    )
