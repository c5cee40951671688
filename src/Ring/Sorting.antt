-- ===== src/Ring/Sorting.antt =====
-- The sorted list of ring points: order and membership.
use vector_store.Prelude.{
  ℕ, zero, suc, ◌≤◌, ◌≡◌, ◌⊎◌, inl, inr, ◌↔◌, true, false, arith, leb, List, [], ◌∷◌, ◌++◌,
  get_elem?, some, Bool-cases,
}
use vector_store.Ring.{insert_sorted, sort, contains, remove_all}

abbrev pub Has : ℕ → List ℕ → Type 0
Has p [] = ⊥
Has p (x ∷ xs) = (p ≡ x) ⊎ Has p xs

abbrev pub AllAbove : ℕ → List ℕ → Type 0
AllAbove b [] = Unit {0}
AllAbove b (x ∷ xs) = (b ≤ x) × AllAbove b xs

abbrev pub IsSorted : List ℕ → Type 0
IsSorted [] = Unit {0}
IsSorted (x ∷ xs) = AllAbove x xs × IsSorted xs

pub AllAbove-le : (a b : ℕ) (xs : List ℕ) → a ≤ b → AllAbove b xs → AllAbove a xs
AllAbove-le a b [] h k = tt
AllAbove-le a b (x ∷ xs) h k = (omega arith, AllAbove-le a b xs h k.1)

insert_sorted-AllAbove :
    (b h : ℕ) (xs : List ℕ) → b ≤ h → AllAbove b xs → AllAbove b (insert_sorted h xs)
unfolding insert_sorted
insert_sorted-AllAbove b h [] k a = (k, tt)
insert_sorted-AllAbove b h (x ∷ xs) k a = ground (arith, insert_sorted-AllAbove b h xs k)

insert_sorted-IsSorted : (h : ℕ) (xs : List ℕ) → IsSorted xs → IsSorted (insert_sorted h xs)
unfolding insert_sorted
insert_sorted-IsSorted h [] s = (tt, tt)
insert_sorted-IsSorted h (x ∷ xs) s = elim (Bool-cases (leb h x)) [
  | inl le ↦ rw le ((ground arith, AllAbove-le h x xs (ground arith) s.0), s)
  | inr gt ↦
      rw gt (insert_sorted-AllAbove x h xs (ground arith) s.0, insert_sorted-IsSorted h xs s.1)
]

pub sort-IsSorted : (xs : List ℕ) → IsSorted (sort xs)
unfolding sort
sort-IsSorted [] = tt
sort-IsSorted (x ∷ xs) = insert_sorted-IsSorted x (sort xs) (sort-IsSorted xs)

Has-insert_sorted : (p h : ℕ) (xs : List ℕ) → Has p (insert_sorted h xs) ↔ ((p ≡ h) ⊎ Has p xs)
unfolding insert_sorted
Has-insert_sorted p h [] = ground arith
Has-insert_sorted p h (x ∷ xs) = ground (arith, Has-insert_sorted p h xs)

pub Has-sort : (p : ℕ) (xs : List ℕ) → Has p (sort xs) ↔ Has p xs
unfolding sort
Has-sort p [] = ground arith
Has-sort p (x ∷ xs) = ground (arith, Has-insert_sorted p x (sort xs), Has-sort p xs)

pub Has-append : (p : ℕ) (xs ys : List ℕ) → Has p (xs ++ ys) ↔ (Has p xs ⊎ Has p ys)
Has-append p [] ys = ground arith
Has-append p (x ∷ xs) ys = ground (arith, Has-append p xs ys)

pub contains-Has : (p : ℕ) (xs : List ℕ) → (contains p xs ≡ true) ↔ Has p xs
unfolding contains
contains-Has p [] = ground arith
contains-Has p (x ∷ xs) = ground (arith, contains-Has p xs)

remove_all-AllAbove : (b : ℕ) (dead xs : List ℕ) → AllAbove b xs → AllAbove b (remove_all dead xs)
unfolding remove_all
remove_all-AllAbove b dead [] a = tt
remove_all-AllAbove b dead (x ∷ xs) a = ground (arith, remove_all-AllAbove b dead xs)

pub remove_all-IsSorted : (dead xs : List ℕ) → IsSorted xs → IsSorted (remove_all dead xs)
unfolding remove_all
remove_all-IsSorted dead [] s = tt
remove_all-IsSorted dead (x ∷ xs) s =
    ground (arith, remove_all-IsSorted dead xs, remove_all-AllAbove x dead xs)

pub Has-remove_all :
    (p : ℕ) (dead xs : List ℕ) → Has p (remove_all dead xs) ↔ (Has p xs × (contains p dead ≡ false))
unfolding remove_all
Has-remove_all p dead [] = ground arith
Has-remove_all p dead (x ∷ xs) = elim (Bool-cases (contains x dead)) [
  | inl gone ↦ rw gone (ground (arith, Has-remove_all p dead xs))
  | inr stays ↦ rw stays (ground (arith, Has-remove_all p dead xs))
]

pub get_elem?-Has : (xs : List ℕ) (i p : ℕ) → get_elem? xs i ≡ some p → Has p xs
get_elem?-Has [] i p h = cc
get_elem?-Has (x ∷ xs) zero p h = inl (ground arith)
get_elem?-Has (x ∷ xs) (suc i) p h = inr (get_elem?-Has xs i p h)
