-- ===== src/Prelude/Result.antt =====
-- Values with a reason for their absence, for code that throws or reports an error.
use mathlib.Core.Path.{◌≡◌, refl, subst}
use mathlib.Core.Bool.{Bool, true, false}
use mathlib.Core.Option.{Option, none, some}

pub data Result {ℓ κ} (E : Type ℓ) (A : Type κ) : Type (ℓ ⊔ κ) where
  ok : A → Result E A
  err : E → Result E A

module _ {ℓ κ μ} {E : Type ℓ} {A : Type κ} {B : Type μ} where
  infixl 5 ◌>>=◌
  abbrev pub ◌>>=◌ : Result E A → (A → Result E B) → Result E B
  err thrown >>= rest = err thrown
  ok value >>= rest = rest value

module _ {ℓ} {E : Type ℓ} where
  -- `if (!test) throw e;` before the rest
  infixl 5 ◌>>◌
  abbrev pub ◌>>◌ {κ} : {B : Type κ} → Result E (Unit {0}) → Result E B → Result E B
  ok u >> k = k
  err e >> k = err e

  abbrev pub require : Bool → E → Result E (Unit {0})
  require true e = ok tt
  require false e = err e

  -- `if (!value) throw e;`
  abbrev pub present {κ} : {B : Type κ} → Option B → E → Result E B
  present none e = err e
  present (some b) e = ok b

  pub present-eq-ok {κ} :
      {B : Type κ} (value : Option B) (e : E) {b : B} → present value e ≡ ok b → value ≡ some b
  present-eq-ok none e h = cc
  present-eq-ok (some a) e h = cc

-- Whatever is returned satisfies `P`.
abbrev pub Ensures {ℓ κ μ} :
    {E : Type ℓ} {A : Type κ} → (A → Type μ) → Result E A → Type (ℓ ⊔ κ ⊔ μ)
Ensures {A = A} P m = (a : A) → m ≡ ok a → P a

module _ {ℓ κ μ ν} {E : Type ℓ} {A : Type κ} {B : Type μ} where
  -- Of a chain, where the rest ensures it after whatever the first link returned.
  pub >>=-Ensures :
      (P : B → Type ν) (m : Result E A) (f : A → Result E B)
      → ((a : A) → m ≡ ok a → Ensures P (f a))
      → Ensures P (m >>= f)
  >>=-Ensures P (ok a) f rest b h = rest a refl b h
  >>=-Ensures P (err e) f rest b h = absurd cc

module _ {ℓ κ μ} {E : Type ℓ} {A : Type κ} where
  pub ok-Ensures : (P : A → Type μ) (a : A) → P a → Ensures {E = E} P (ok a)
  ok-Ensures P a holds b h = subst P (ok_injective h) holds
    where
      ok_injective : {x y : A} → Path (Result E A) (ok x) (ok y) → x ≡ y
      ok_injective p = cc p
