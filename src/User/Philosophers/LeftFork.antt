-- ===== src/User/Philosophers/LeftFork.antt =====
-- The fork that poser_fourchettes puts back on the left.
use kernel_genesis_os.Base.{ℕ, ◌+◌, ◌%◌, ◌<◌, ◌≡◌, Bool, true, false, ◌&&◌, not, update, arith}
use kernel_genesis_os.User.Philosophers.Forks.{Role, tient, moitie, IsServed, before_after}

-- poser_fourchettes gives the fork on the left to a neighbour that waits for it
pub served-left_given :
    (f b : ℕ → Bool) (s : ℕ → ℕ) (r : ℕ → Role) (i : ℕ)
    → IsServed f b s r
    → i < 5
    → r i ≡ tient
    → b ((i + 4) % 5) ≡ true
    → f ((i + 4) % 5) ≡ false
    → IsServed
        (update f ((i + 4) % 5) true)
        (update b ((i + 4) % 5) false)
        (update s ((i + 4) % 5) (s ((i + 4) % 5) + 1))
        (update r i moitie)
served-left_given f b s r i h lt e p q = record {
  forks = λ j k. ground (
    arith,
    h.forks j k,
    h.forks ((i + 4) % 5),
    h.forks i lt,
    h.alone i lt,
    h.blocked ((i + 4) % 5),
    h.asked i lt,
    before_after i lt,
  );
  alone = λ j k. ground (
    arith,
    h.alone j k,
    h.forks j k,
    h.forks ((i + 4) % 5),
    h.forks i lt,
    h.alone i lt,
    h.blocked ((i + 4) % 5),
    h.asked i lt,
    before_after i lt,
  );
  once = λ j k. ground (
    arith,
    h.once j k,
    h.forks ((i + 4) % 5),
    h.forks i lt,
    h.alone i lt,
    h.blocked ((i + 4) % 5),
    h.asked i lt,
    before_after i lt,
  );
  asked = λ j k g. ground (
    arith,
    h.asked j k,
    h.forks ((i + 4) % 5),
    h.forks i lt,
    h.alone i lt,
    h.blocked ((i + 4) % 5),
    h.asked i lt,
    before_after i lt,
  );
  blocked = λ j k. ground (
    arith,
    h.blocked j k,
    h.forks ((i + 4) % 5),
    h.forks i lt,
    h.alone i lt,
    h.blocked ((i + 4) % 5),
    h.asked i lt,
    before_after i lt,
  );
  short = λ j k g. ground (
    arith,
    h.short j k,
    h.forks ((i + 4) % 5),
    h.forks i lt,
    h.alone i lt,
    h.blocked ((i + 4) % 5),
    h.asked i lt,
    before_after i lt,
  );
}

-- poser_fourchettes puts the fork on the left back
pub served-left_free :
    (f b : ℕ → Bool) (s : ℕ → ℕ) (r : ℕ → Role) (i : ℕ)
    → IsServed f b s r
    → i < 5
    → r i ≡ tient
    → (b ((i + 4) % 5) && not (f ((i + 4) % 5))) ≡ false
    → IsServed (update f i false) b s (update r i moitie)
served-left_free f b s r i h lt e p = record {
  forks = λ j k.
      ground (arith, h.forks j k, h.alone i lt, h.blocked i lt, h.asked i lt, before_after i lt);
  alone = λ j k. ground (
    arith,
    h.alone j k,
    h.forks j k,
    h.alone i lt,
    h.blocked i lt,
    h.asked i lt,
    before_after i lt,
  );
  once = λ j k.
      ground (arith, h.once j k, h.alone i lt, h.blocked i lt, h.asked i lt, before_after i lt);
  asked = λ j k g.
      ground (arith, h.asked j k, h.alone i lt, h.blocked i lt, h.asked i lt, before_after i lt);
  blocked = λ j k.
      ground (arith, h.blocked j k, h.alone i lt, h.blocked i lt, h.asked i lt, before_after i lt);
  short = λ j k g. ground (
    arith,
    h.short j k,
    h.blocked j k,
    h.alone i lt,
    h.blocked i lt,
    h.asked i lt,
    before_after i lt,
  );
}
