-- ===== src/User/Philosophers/RightFork.antt =====
-- The fork that poser_fourchettes puts back on the right.
use kernel_genesis_os.Base.{ℕ, ◌+◌, ◌%◌, ◌<◌, ◌≡◌, Bool, true, false, ◌&&◌, not, update, arith}
use kernel_genesis_os.User.Philosophers.Forks.{
  Role, rien, moitie, IsServed, after_before, after_two,
}

-- poser_fourchettes gives the fork on the right to a neighbour that waits for it
pub served-right_given :
    (f b : ℕ → Bool) (s : ℕ → ℕ) (r : ℕ → Role) (i : ℕ)
    → IsServed f b s r
    → i < 5
    → r i ≡ moitie
    → b ((i + 1) % 5) ≡ true
    → f ((i + 2) % 5) ≡ false
    → IsServed
        (update f ((i + 2) % 5) true)
        (update b ((i + 1) % 5) false)
        (update s ((i + 1) % 5) (s ((i + 1) % 5) + 1))
        (update r i rien)
served-right_given f b s r i h lt e p q = record {
  forks = λ j k. ground (
    arith,
    h.forks j k,
    h.forks ((i + 1) % 5),
    h.forks ((i + 2) % 5),
    h.alone ((i + 1) % 5),
    h.blocked ((i + 1) % 5),
    h.asked i lt,
    after_before i lt,
    after_two i lt,
  );
  alone = λ j k. ground (
    arith,
    h.alone j k,
    h.forks j k,
    h.forks ((i + 1) % 5),
    h.forks ((i + 2) % 5),
    h.alone ((i + 1) % 5),
    h.blocked ((i + 1) % 5),
    h.asked i lt,
    after_before i lt,
    after_two i lt,
  );
  once = λ j k. ground (
    arith,
    h.once j k,
    h.forks ((i + 1) % 5),
    h.forks ((i + 2) % 5),
    h.alone ((i + 1) % 5),
    h.blocked ((i + 1) % 5),
    h.asked i lt,
    after_before i lt,
    after_two i lt,
  );
  asked = λ j k g. ground (
    arith,
    h.asked j k,
    h.forks ((i + 1) % 5),
    h.forks ((i + 2) % 5),
    h.alone ((i + 1) % 5),
    h.blocked ((i + 1) % 5),
    h.asked i lt,
    after_before i lt,
    after_two i lt,
  );
  blocked = λ j k. ground (
    arith,
    h.blocked j k,
    h.forks ((i + 1) % 5),
    h.forks ((i + 2) % 5),
    h.alone ((i + 1) % 5),
    h.blocked ((i + 1) % 5),
    h.asked i lt,
    after_before i lt,
    after_two i lt,
  );
  short = λ j k g. ground (
    arith,
    h.short j k,
    h.forks ((i + 1) % 5),
    h.forks ((i + 2) % 5),
    h.alone ((i + 1) % 5),
    h.blocked ((i + 1) % 5),
    h.asked i lt,
    after_before i lt,
    after_two i lt,
  );
}

-- poser_fourchettes puts the fork on the right back
pub served-right_free :
    (f b : ℕ → Bool) (s : ℕ → ℕ) (r : ℕ → Role) (i : ℕ)
    → IsServed f b s r
    → i < 5
    → r i ≡ moitie
    → (b ((i + 1) % 5) && not (f ((i + 2) % 5))) ≡ false
    → IsServed (update f ((i + 1) % 5) false) b s (update r i rien)
served-right_free f b s r i h lt e p = record {
  forks = λ j k. ground (
    arith,
    h.forks j k,
    h.alone ((i + 1) % 5),
    h.forks ((i + 1) % 5),
    h.blocked i lt,
    h.asked i lt,
    after_before i lt,
    after_two i lt,
  );
  alone = λ j k. ground (
    arith,
    h.alone j k,
    h.forks j k,
    h.alone ((i + 1) % 5),
    h.forks ((i + 1) % 5),
    h.blocked i lt,
    h.asked i lt,
    after_before i lt,
    after_two i lt,
  );
  once = λ j k. ground (
    arith,
    h.once j k,
    h.alone ((i + 1) % 5),
    h.forks ((i + 1) % 5),
    h.blocked i lt,
    h.asked i lt,
    after_before i lt,
    after_two i lt,
  );
  asked = λ j k g. ground (
    arith,
    h.asked j k,
    h.alone ((i + 1) % 5),
    h.forks ((i + 1) % 5),
    h.blocked i lt,
    h.asked i lt,
    after_before i lt,
    after_two i lt,
  );
  blocked = λ j k. ground (
    arith,
    h.blocked j k,
    h.alone ((i + 1) % 5),
    h.forks ((i + 1) % 5),
    h.blocked i lt,
    h.asked i lt,
    after_before i lt,
    after_two i lt,
  );
  short = λ j k g. ground (
    arith,
    h.short j k,
    h.alone ((i + 1) % 5),
    h.forks ((i + 1) % 5),
    h.blocked i lt,
    h.asked i lt,
    after_before i lt,
    after_two i lt,
  );
}
