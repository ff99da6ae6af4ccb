-- ===== src/User/Philosophers/Forks.antt =====
-- Who holds which fork, from the places of the philosophers.
use mathlib.Core.Path.{fun_ext}
use kernel_genesis_os.Base.{
  ℕ, ◌+◌, ◌%◌, ◌≤◌, ◌<◌, ◌≡◌, Bool, true, false, ◌&&◌, ◌||◌, not, ltb, ◌==◌, update, arith, subst,
}

-- What a philosopher has to do with the forks: nothing, it has asked for them, it holds both, or it holds
-- the right one only.
pub data Role : Type 0 where
  rien : Role
  demande : Role
  tient : Role
  moitie : Role

abbrev pub asks : Role → Bool
asks demande = true
asks _ = false

-- With `n` for its semaphore, whether a philosopher holds its left and its right fork.
abbrev pub left : Role → ℕ → Bool
left rien n = false
left demande n = ltb 0 n
left tient n = true
left moitie n = false

abbrev pub right : Role → ℕ → Bool
right rien n = false
right demande n = ltb 0 n
right tient n = true
right moitie n = true

pub record IsServed (f bloque : ℕ → Bool) (s : ℕ → ℕ) (r : ℕ → Role) : Type 0 where
  pub forks :
      (j : ℕ) → j < 5 → f j ≡ (left (r j) (s j) || right (r ((j + 4) % 5)) (s ((j + 4) % 5)))
  pub alone :
      (j : ℕ) → j < 5 → (left (r j) (s j) && right (r ((j + 4) % 5)) (s ((j + 4) % 5))) ≡ false
  pub once : (j : ℕ) → j < 5 → s j ≤ 1
  pub asked : (j : ℕ) → j < 5 → asks (r j) ≡ false → s j ≡ 0
  pub blocked : (j : ℕ) → j < 5 → bloque j ≡ (asks (r j) && (s j == 0))
  pub short : (j : ℕ) → j < 5 → bloque j ≡ true → (f j || f ((j + 1) % 5)) ≡ true

pub after_before : (i : ℕ) → i < 5 → ((i + 1) % 5 + 4) % 5 ≡ i
after_before i h = omega arith

pub before_after : (i : ℕ) → i < 5 → ((i + 4) % 5 + 1) % 5 ≡ i
before_after i h = omega arith

pub after_two : (i : ℕ) → i < 5 → ((i + 1) % 5 + 1) % 5 ≡ (i + 2) % 5
after_two i h = omega arith

-- prendre_fourchettes with both forks free
pub served-takes :
    (f b : ℕ → Bool) (s : ℕ → ℕ) (r : ℕ → Role) (i : ℕ)
    → IsServed f b s r
    → i < 5
    → r i ≡ rien
    → f i ≡ false
    → f ((i + 1) % 5) ≡ false
    → IsServed
        (update (update f i true) ((i + 1) % 5) true)
        b
        (update s i (s i + 1))
        (update r i demande)
served-takes f b s r i h lt e p q = record {
  forks = λ j k.
      ground
        (arith, h.forks j k, h.forks i lt, h.asked i lt, h.forks ((i + 1) % 5), after_before i lt);
  alone = λ j k.
      ground
        (arith, h.alone j k, h.forks j k, h.forks i lt, h.forks ((i + 1) % 5), after_before i lt);
  once = λ j k. ground (arith, h.once j k, h.asked i lt);
  asked = λ j k g. ground (arith, h.asked j k, h.asked i lt);
  blocked = λ j k. ground (arith, h.blocked j k, h.asked i lt);
  short = λ j k g. ground (arith, h.short j k, h.blocked i lt);
}

-- prendre_fourchettes where a fork is taken
pub served-waits :
    (f b : ℕ → Bool) (s : ℕ → ℕ) (r : ℕ → Role) (i : ℕ)
    → IsServed f b s r
    → i < 5
    → r i ≡ rien
    → (not (f i) && not (f ((i + 1) % 5))) ≡ false
    → IsServed f (update b i true) s (update r i demande)
served-waits f b s r i h lt e p = record {
  forks = λ j k. ground (arith, h.forks j k, h.asked i lt);
  alone = λ j k. ground (arith, h.alone j k, h.forks j k, h.asked i lt);
  once = λ j k. ground (arith, h.once j k, h.asked i lt);
  asked = λ j k g. ground (arith, h.asked j k, h.asked i lt);
  blocked = λ j k. ground (arith, h.blocked j k, h.asked i lt);
  short = λ j k g. ground (arith, h.short j k, h.asked i lt);
}

-- wait(s[i]) after the forks were given
pub served-begins :
    (f b : ℕ → Bool) (s : ℕ → ℕ) (r : ℕ → Role) (i : ℕ)
    → IsServed f b s r
    → i < 5
    → r i ≡ demande
    → 0 < s i
    → IsServed f b (update s i 0) (update r i tient)
served-begins f b s r i h lt e m = record {
  forks = λ j k. ground (arith, h.forks j k, h.once i lt);
  alone = λ j k. ground (arith, h.alone j k, h.forks j k, h.once i lt);
  once = λ j k. ground (arith, h.once j k, h.once i lt);
  asked = λ j k g. ground (arith, h.asked j k, h.once i lt);
  blocked = λ j k. ground (arith, h.blocked j k, h.once i lt);
  short = λ j k g. ground (arith, h.short j k, h.once i lt);
}

pub served-same :
    (f b : ℕ → Bool) (s : ℕ → ℕ) (r q : ℕ → Role)
    → ((j : ℕ) → r j ≡ q j)
    → IsServed f b s r
    → IsServed f b s q
served-same f b s r q e h = subst (IsServed f b s) (fun_ext e) h
