-- ===== src/Kernel/Ends.antt =====
-- What a run of kernel code leads to: the ways in which the statements on operations are put together.
use kernel_genesis_os.Base.{◌≡◌, sym, ◌∙◌, subst, ap}
use kernel_genesis_os.Kernel.Result.{Result, ok, ◌>>=◌, >>=-eq-ok}

-- The run ends without a fault and with enough fuel, and what it gives is in `P`.
abbrev pub Ends {κ ℓ} : {A : Type κ} → (A → Type ℓ) → Result A → Type (κ ⊔ ℓ)
Ends {A = A} P m = (a : A) × (m ≡ ok a) × P a

pub Ends-bind {κ ℓ} :
    {A B : Type κ} {P : A → Type ℓ} {Q : B → Type ℓ} (m : Result A) (f : A → Result B)
    → Ends P m
    → ((a : A) → P a → Ends Q (f a))
    → Ends Q (m >>= f)
Ends-bind m f (a, e, p) h = let (b, e', q) = h a p in (b, rw e e', q)

-- What the run gives, if it ends without a fault and with enough fuel, is in `P`.
abbrev pub Holds {κ ℓ} : {A : Type κ} → (A → Type ℓ) → Result A → Type (κ ⊔ ℓ)
Holds {A = A} P m = (a : A) → m ≡ ok a → P a

value_or {ℓ} : {A : Type ℓ} → A → Result A → A
value_or a (ok b) = b
value_or a _ = a

pub ok-injective {ℓ} : {A : Type ℓ} {a b : A} → ◌≡◌ {A = Result A} (ok a) (ok b) → a ≡ b
unfolding value_or
ok-injective {a = a} e = ap (value_or a) e

pub Holds-ok {κ ℓ} : {A : Type κ} (P : A → Type ℓ) (a : A) → P a → Holds P (ok a)
Holds-ok P a p b e = let i : a ≡ b = ok-injective e in subst P i p

pub Holds-bind {κ ℓ} :
    {A B : Type κ} {P : A → Type ℓ} {Q : B → Type ℓ} (m : Result A) (f : A → Result B)
    → Holds P m
    → ((a : A) → P a → Holds Q (f a))
    → Holds Q (m >>= f)
Holds-bind m f p h b e = let (a, e', e'') = >>=-eq-ok m f e in h a (p a e') b e''

pub Ends-Holds {κ ℓ} : {A : Type κ} (P : A → Type ℓ) (m : Result A) → Ends P m → Holds P m
Ends-Holds P m (a, e, p) b e' = let i : a ≡ b = ok-injective (sym e ∙ e') in subst P i p
