-- ===== src/Kernel/Result.antt =====
-- What running kernel code gives: a value, a stop of the machine, or no more fuel.
use kernel_genesis_os.Base.{◌≡◌, Bool, true, false, refl}

-- Why the machine stops: panic of an assertion, a write through the null pointer, OSPanic.
pub data Fault : Type 0 where
  failed_assertion null_pointer os_panic : Fault

pub data Result {ℓ} (A : Type ℓ) : Type ℓ where
  out_of_fuel : Result A
  crash : Fault → Result A
  ok : A → Result A

-- An assertion, with the fault of its failure.
abbrev pub guard : (holds : Bool) → Fault → Result (Unit {0})
guard false fault = crash fault
guard true fault = ok tt

infixl 5 ◌>>=◌
infixl 5 ◌>>◌
-- One step of the machine and the next.
abbrev pub ◌>>=◌ {κ ℓ} : {B : Type κ} {A : Type ℓ} → Result B → (B → Result A) → Result A
out_of_fuel >>= next = out_of_fuel
crash fault >>= next = crash fault
ok value >>= next = next value

abbrev pub ◌>>◌ {ℓ} : {A : Type ℓ} → (first : Result (Unit {0})) → Result A → Result A
first >> second = first >>= λ done. second

-- The parts of a run that succeeds.
pub >>=-eq-ok {κ ℓ} :
    {B : Type κ} {A : Type ℓ} (first : Result B) (next : B → Result A) {last : A}
    → (first >>= next) ≡ ok last
    → (value : B) × (first ≡ ok value) × (next value ≡ ok last)
>>=-eq-ok out_of_fuel next e = cc
>>=-eq-ok (crash fault) next e = cc
>>=-eq-ok (ok value) next e = (value, refl, e)

pub guard-eq-ok {ℓ} :
    {A : Type ℓ} (b : Bool) (e : Fault) (m : Result A) {a : A}
    → (guard b e >> m) ≡ ok a
    → (b ≡ true) × (m ≡ ok a)
guard-eq-ok true e m h = (refl, h)
guard-eq-ok false e m h = cc
