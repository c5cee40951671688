-- ===== src/Prelude/Panics.antt =====
-- How a piece of Go code ends: it returns a value, or it panics on an index out of range.
use mathlib.Core.Path.{◌≡◌, refl, subst}
use mathlib.Core.Bool.{Bool, true, false}
use mathlib.Core.List.{List}
use mathlib.Core.Option.{Option, none, some}
use vector_store.Prelude.Lists.{get_elem?, set, length}
use vector_store.Prelude.Int.{ℤ, pos, negsuc}
use vector_store.Prelude.Tests.{ltb, if◌then◌else◌}

pub data Run {ℓ} (A : Type ℓ) : Type ℓ where
  ok : A → Run A
  panic : Run A

pub ok-injective {ℓ} : {A : Type ℓ} (a b : A) → ok a ≡ ok b → a ≡ b
ok-injective a b h = cc

infixl 5 ◌>>=◌
abbrev pub ◌>>=◌ {ℓ κ} : {A : Type ℓ} {B : Type κ} → Run A → (A → Run B) → Run B
ok a >>= f = f a
panic >>= f = panic

abbrev pub or_panic {ℓ} : {A : Type ℓ} → Option A → Run A
or_panic none = panic
or_panic (some a) = ok a

-- `xs[i]`
abbrev pub load {ℓ} : {A : Type ℓ} → List A → ℤ → Run A
load xs (pos i) = or_panic (get_elem? xs i)
load xs (negsuc i) = panic

-- `xs[i] = v`
abbrev pub store {ℓ} : {A : Type ℓ} → List A → ℤ → A → Run (List A)
store xs (pos i) v = if ltb i (length xs) then ok (set xs i v) else panic
store xs (negsuc i) v = panic

-- Where the run returns, its value satisfies P.
pub data Ensures {ℓ κ} {A : Type ℓ} (P : A → Type κ) : Run A → Type (ℓ ⊔ κ) where
  returned : {a : A} → P a → Ensures P (ok a)
  panicked : Ensures P panic

module _ {ℓ κ} {A : Type ℓ} {P : A → Type κ} where
  pub Ensures-bind {ℓ'} :
      {B : Type ℓ'} {f : B → Run A} (m : Run B)
      → ((b : B) → m ≡ ok b → Ensures P (f b))
      → Ensures P (m >>= f)
  Ensures-bind (ok b) k = k b refl
  Ensures-bind panic k = panicked

  pub Ensures-if :
      {x y : Run A} (b : Bool)
      → (b ≡ true → Ensures P x)
      → (b ≡ false → Ensures P y)
      → Ensures P (if b then x else y)
  Ensures-if true p q = p refl
  Ensures-if false p q = q refl

  pub Ensures-run : {r : Run A} {a : A} → Ensures P r → r ≡ ok a → P a
  Ensures-run (returned p) h = subst P (cc) p
  Ensures-run panicked h = cc

  pub Ensures-map {κ'} :
      {Q : A → Type κ'} {r : Run A} → Ensures P r → ((a : A) → P a → Q a) → Ensures Q r
  Ensures-map (returned {a} p) k = returned (k a p)
  Ensures-map panicked k = panicked

  pub of_Ensures : (r : Run A) → ((a : A) → r ≡ ok a → P a) → Ensures P r
  of_Ensures (ok a) h = returned (h a refl)
  of_Ensures panic h = panicked

-- The run returns a value.
abbrev pub Returns {ℓ} : {A : Type ℓ} → Run A → Type ℓ
Returns {A = A} r = (a : A) × (r ≡ ok a)

pub Returns-bind {ℓ κ} :
    {A : Type ℓ} {B : Type κ} {f : A → Run B} (m : Run A)
    → Returns m
    → ((a : A) → m ≡ ok a → Returns (f a))
    → Returns (m >>= f)
Returns-bind (ok a) h k = k a refl
Returns-bind panic (a, h) k = cc

pub Returns-if {ℓ} :
    {A : Type ℓ} {x y : Run A} (b : Bool)
    → (b ≡ true → Returns x)
    → (b ≡ false → Returns y)
    → Returns (if b then x else y)
Returns-if true p q = p refl
Returns-if false p q = q refl
