-- ===== src/Index/Search/Names.antt =====
-- Candidates by name: how often a name occurs in a heap, and how many nodes are not visited yet.
use Prim.Native.String.{String}
use text.Mathlib.Text.{◌==◌ as str_eq}
use text.Mathlib.TextEquality.{eq_iff}
use vector_store.Prelude.{
  ℕ, ◌+◌, ◌≤◌, ◌<◌, ◌≡◌, refl, ◌⊎◌, inl, inr, arith, true, false, Bool-cases, List, [], ◌∷◌, length,
  if◌then◌else◌, some, mem_str, lookup, str_eq_self,
}
use vector_store.Index.{Candidate}
use vector_store.Index.Heap.Items.{total, All}

abbrev pub is : {S : Type 0} → String → Candidate S → ℕ
is id c = if str_eq id c.id then 1 else 0

abbrev pub count : {S : Type 0} → String → List (Candidate S) → ℕ
count id h = total (is id) h

-- The visited name is the new one, or was visited before.
pub mem_str-cases :
    (id b : String) (v : List String) → mem_str b (id ∷ v) ≡ true → (id ≡ b) ⊎ (mem_str b v ≡ true)
unfolding mem_str
mem_str-cases id b v h = elim (Bool-cases (str_eq id b)) [
  | inl e ↦ inl ((eq_iff id b).0 e)
  | inr e ↦ inr (rw e at h)
]

pub count-fresh :
    {S : Type 0} (id : String) (v : List String) (h : List (Candidate S))
    → mem_str id v ≡ false
    → All (λ c. mem_str c.id v ≡ true) h
    → count id h ≡ 0
count-fresh id v [] fresh seen = refl
count-fresh id v (c ∷ h) fresh seen =
    ground (arith, eq_iff id c.id, count-fresh id v h fresh seen.1, seen.0)

-- A name that occurs is that of an entry.
pub count-All :
    {S : Type 0} (P : Candidate S → Type 0) (id : String) (h : List (Candidate S))
    → 1 ≤ count id h
    → All P h
    → (c : Candidate S) × (id ≡ c.id) × P c
count-All P id [] n p = elim n [ ]
count-All P id (c ∷ h) n p = elim (Bool-cases (str_eq id c.id)) [
  | inl e ↦ (c, (eq_iff id c.id).0 e, p.0)
  | inr e ↦ count-All P id h (ground arith) p.1
]

pub is-cases :
    {S : Type 0} (id : String) (c : Candidate S) → ((id ≡ c.id) × (is id c ≡ 1)) ⊎ (is id c ≡ 0)
is-cases id c = elim (Bool-cases (str_eq id c.id)) [
  | inl e ↦ inl ((eq_iff id c.id).0 e, rw e refl)
  | inr e ↦ inr (rw e refl)
]

pub count-length : {S : Type 0} (id : String) (h : List (Candidate S)) → count id h ≤ length h
count-length id [] = omega arith
count-length id (c ∷ h) = ground (arith, count-length id h)

pub is_self : {S : Type 0} (c : Candidate S) → is c.id c ≡ 1
is_self c = rw (str_eq_self c.id) refl

module _ {V : Type 0} where
  abbrev pub unvisited : List (String × V) → List String → ℕ
  unvisited [] v = 0
  unvisited ((k, n) ∷ m) v = (if mem_str k v then 0 else 1) + unvisited m v

  pub unvisited-length : (m : List (String × V)) (v : List String) → unvisited m v ≤ length m
  unvisited-length [] v = omega arith
  unvisited-length ((k, n) ∷ m) v = ground (arith, unvisited-length m v)

  pub unvisited-later :
      (m : List (String × V)) (id : String) (v : List String) → unvisited m (id ∷ v) ≤ unvisited m v
  unfolding mem_str
  unvisited-later [] id v = omega arith
  unvisited-later ((k, n) ∷ m) id v = ground (arith, unvisited-later m id v)

  -- Each stored node is counted once at least.
  pub unvisited-found :
      (m : List (String × V)) (id : String) (v : List String) (n : V)
      → lookup id m ≡ some n
      → mem_str id v ≡ false
      → unvisited m (id ∷ v) < unvisited m v
  unfolding mem_str lookup
  unvisited-found [] id v n h fresh = cc
  unvisited-found ((k, n') ∷ m) id v n h fresh = elim (Bool-cases (str_eq k id)) [
    | inl e ↦ ground (arith, eq_iff k id, eq_iff id k, unvisited-later m id v)
    | inr e ↦ ground (arith, unvisited-found m id v n (rw e at h) fresh)
  ]
