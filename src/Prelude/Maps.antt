-- ===== src/Prelude/Maps.antt =====
-- Maps and sets with text keys, as lists.
use Prim.Native.String.{String}
use text.Mathlib.Text.{◌==◌ as str_eq}
use text.Mathlib.TextEquality.{eq_iff}
use mathlib.Core.Path.{◌≡◌, refl}
use mathlib.Core.Bool.{Bool, true, false, ◌||◌}
use mathlib.Core.List.{List, [], ◌∷◌}
use mathlib.Core.Option.{Option, none, some}
use native.Mathlib.Omega.{arith}
use mathlib.Core.Logic.{inl, inr}
use vector_store.Prelude.Tests.{if◌then◌else◌, Bool-cases}

pub str_eq_self : (s : String) → str_eq s s ≡ true
str_eq_self s = (eq_iff s s).1 refl

unfoldable pub mem_str : String → List String → Bool
mem_str a [] = false
mem_str a (b ∷ bs) = str_eq b a || mem_str a bs

pub mem_str_self : (a : String) (bs : List String) → mem_str a (a ∷ bs) ≡ true
unfolding mem_str
mem_str_self a bs = ground (arith, eq_iff a a)

pub mem_str_later :
    (a b : String) (bs : List String) → mem_str a bs ≡ true → mem_str a (b ∷ bs) ≡ true
unfolding mem_str
mem_str_later a b bs h = ground arith

module _ {ℓ} {V : Type ℓ} where
  unfoldable pub lookup : String → List (String × V) → Option V
  lookup key [] = none
  lookup key ((other, value) ∷ rest) = if str_eq other key then some value else lookup key rest

  -- A key that is there keeps its place.
  unfoldable pub insert : String → V → List (String × V) → List (String × V)
  insert key value [] = (key, value) ∷ []
  insert key value ((other, old) ∷ rest) =
      let placed : List (String × V) = (key, value) ∷ rest in
      if str_eq other key then placed else (other, old) ∷ insert key value rest

  pub lookup-insert :
      (key sought : String) (value : V) (entries : List (String × V))
      → lookup sought (insert key value entries)
        ≡ (if str_eq key sought then some value else lookup sought entries)
  unfolding lookup insert
  lookup-insert key sought value [] = refl
  lookup-insert key sought value ((other, old) ∷ rest) =
      let below = lookup-insert key sought value rest in
      ground (arith, below, eq_iff other key, eq_iff key sought, eq_iff other sought)

  -- Each key once, as in a Go map.
  abbrev pub KeysOnce : List (String × V) → Type ℓ
  KeysOnce [] = Unit {ℓ}
  KeysOnce ((key, value) ∷ rest) = (lookup key rest ≡ none) × KeysOnce rest

  pub insert-KeysOnce :
      (key : String) (value : V) (entries : List (String × V))
      → KeysOnce entries
      → KeysOnce (insert key value entries)
  unfolding lookup insert
  insert-KeysOnce key value [] once = (refl, tt)
  insert-KeysOnce key value ((other, old) ∷ rest) once = elim (Bool-cases (str_eq other key)) [
    | inl same ↦
        let is : other ≡ key = (eq_iff other key).0 same in rw same (rw (← is) once.0, once.1)
    | inr differs ↦
        let swapped : str_eq key other ≡ false =
          ground (arith, eq_iff other key, eq_iff key other) in
        let still : lookup other (insert key value rest) ≡ none =
          rw (lookup-insert key other value rest, swapped) once.0 in
        rw differs (still, insert-KeysOnce key value rest once.1)
  ]
