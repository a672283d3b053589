-- ===== src/Prelude/Results.antt =====
-- What a call of the Rust code ends in: a value, an error value (`Result::Err`), or a panic.

use mathlib.Core.Path.{◌≡◌, refl}

pub data Outcome {ℓ κ} (E : Type κ) (A : Type ℓ) : Type (ℓ ⊔ κ) where
  ok : A → Outcome E A
  err : E → Outcome E A
  panic : Outcome E A

infixl 5 ◌>>=◌ ◌>>◌
abbrev pub ◌>>=◌ {ℓ κ μ} :
    {E : Type κ} {A : Type ℓ} {B : Type μ} → Outcome E A → (A → Outcome E B) → Outcome E B
ok a >>= f = f a
err e >>= f = err e
panic >>= f = panic

abbrev pub ◌>>◌ {ℓ κ} : {E : Type κ} {B : Type ℓ} → Outcome E (Unit {0}) → Outcome E B → Outcome E B
m >> k = m >>= λ _. k

-- `Result::map_err`
abbrev pub map_err {ℓ κ μ} :
    {E : Type κ} {F : Type μ} {A : Type ℓ} → (E → F) → Outcome E A → Outcome F A
map_err f (ok a) = ok a
map_err f (err e) = err (f e)
map_err f panic = panic

-- What a call that returns went through.
pub >>=-eq-ok {ℓ κ μ} :
    {E : Type κ} {A : Type ℓ} {B : Type μ} (call : Outcome E A) (next : A → Outcome E B)
    {result : B}
    → (call >>= next) ≡ ok result
    → (mid : A) × (call ≡ ok mid) × (next mid ≡ ok result)
>>=-eq-ok panic next returns = cc
>>=-eq-ok (err e) next returns = cc
>>=-eq-ok (ok mid) next returns = (mid, refl, returns)

-- How a loop ends that is not given enough rounds.
pub data Stuck : Type 0 where
  out_of_fuel : Stuck

abbrev pub Exec : Type 0 → Type 0
Exec A = Outcome Stuck A

pub ok-injective {ℓ κ} :
    {E : Type κ} {A : Type ℓ} {a b : A} (m : Outcome E A) → m ≡ ok a → m ≡ ok b → a ≡ b
ok-injective m h k = cc
