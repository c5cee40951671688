-- ===== src/Ring/Routing.antt =====
-- The owner of a key is the first ring point clockwise from its hash.
use vector_store.Prelude.{
  ℕ, zero, suc, ◌≤◌, ◌<◌, ◌≡◌, sym, ◌⊎◌, inl, inr, true, false, arith, leb, List, [], ◌∷◌, length,
  get_elem?, get_elem?-some, some, Bool-cases, ap, lt-length_of_some, dec_lt,
}
use vector_store.Ring.{sort_search, at_least, owner_point}
use vector_store.Ring.Search.{IsMonotone, IsFirst, sort_search-IsFirst}
use vector_store.Ring.Sorting.{Has, AllAbove, IsSorted, get_elem?-Has}

Has-get_elem? :
    (xs : List ℕ) (q : ℕ) → Has q xs → (k : ℕ) × (get_elem? xs k ≡ some q) × (k < length xs)
Has-get_elem? [] q h = absurd h
Has-get_elem? (x ∷ xs) q (inl e) = (0, ap some (sym e), omega arith)
Has-get_elem? (x ∷ xs) q (inr h) =
    let (k, found, lt) = Has-get_elem? xs q h in (suc k, found, omega arith)

AllAbove-get : (b : ℕ) (xs : List ℕ) (i x : ℕ) → AllAbove b xs → get_elem? xs i ≡ some x → b ≤ x
AllAbove-get b [] i x a h = cc
AllAbove-get b (y ∷ xs) zero x a h = ground (arith, a.0)
AllAbove-get b (y ∷ xs) (suc i) x a h = AllAbove-get b xs i x a.1 h

IsSorted-get :
    (xs : List ℕ) (i j a b : ℕ)
    → IsSorted xs
    → get_elem? xs i ≡ some a
    → get_elem? xs j ≡ some b
    → i ≤ j
    → a ≤ b
IsSorted-get [] i j a b s h k le = cc
IsSorted-get (x ∷ xs) zero zero a b s h k le = ground arith
IsSorted-get (x ∷ xs) zero (suc j) a b s h k le = ground (arith, AllAbove-get x xs j b s.0 k)
IsSorted-get (x ∷ xs) (suc i) zero a b s h k le = absurd (omega arith)
IsSorted-get (x ∷ xs) (suc i) (suc j) a b s h k le = IsSorted-get xs i j a b s.1 h k (omega arith)

at_least-IsMonotone : (xs : List ℕ) (h : ℕ) → IsSorted xs → IsMonotone (length xs) (at_least xs h)
at_least-IsMonotone xs h s i j le inside holds =
    let (a, at_i) = get_elem?-some xs i (omega arith) in
    let (b, at_j) = get_elem?-some xs j inside in
    let above : leb h a ≡ true = rw (at_i, at_least) at holds in
    rw (at_j, at_least) (ground (arith, IsSorted-get xs i j a b s at_i at_j le))

-- p is the first point at or after h; or no point is, and p is the first of all.
abbrev pub IsOwner : List ℕ → ℕ → ℕ → Type 0
IsOwner hashes h p =
    Has p hashes
    × (((h ≤ p) × ((q : ℕ) → Has q hashes → h ≤ q → p ≤ q))
        ⊎ (((q : ℕ) → Has q hashes → q < h) × ((q : ℕ) → Has q hashes → p ≤ q)))

module _ (xs : List ℕ) (h : ℕ) (s : IsSorted xs) (r : ℕ)
    (f : IsFirst (length xs) (at_least xs h) r) where
  -- The search stopped within the list.
  found-IsOwner : (p : ℕ) → get_elem? xs r ≡ some p → IsOwner xs h p
  found-IsOwner p here =
      let here_holds : leb h p ≡ true =
        rw (here, at_least) at (f.after r (omega arith) (lt-length_of_some xs r p here)) in
      (get_elem?-Has xs r p here, inl (ground arith, λ q has le. least q has le))
    where
      least : (q : ℕ) → Has q xs → h ≤ q → p ≤ q
      least q has le =
          let (k, found, lt) = Has-get_elem? xs q has in
          elim (dec_lt k r) [
            | yes early ↦
                let fails : leb h q ≡ false = rw (found, at_least) at (f.before k early) in
                absurd (ground arith)
            | no late ↦ IsSorted-get xs r k p q s here found (omega arith)
          ]

  -- The search went through the list: the ring wraps around.
  wrapped-IsOwner : (p : ℕ) → length xs ≤ r → get_elem? xs 0 ≡ some p → IsOwner xs h p
  wrapped-IsOwner p past first = (get_elem?-Has xs 0 p first, inr (all_before, least))
    where
      all_before : (q : ℕ) → Has q xs → q < h
      all_before q has =
          let (k, found, lt) = Has-get_elem? xs q has in
          let fails : leb h q ≡ false = rw (found, at_least) at (f.before k (omega arith)) in
          ground arith

      least : (q : ℕ) → Has q xs → p ≤ q
      least q has =
          let (k, found, lt) = Has-get_elem? xs q has in
          IsSorted-get xs 0 k p q s first found (omega arith)

-- On a sorted ring with points, every hash has an owner: the first ring point at or after it, or
-- the first of all if there is none.
pub owner_point-IsOwner :
    (xs : List ℕ) (h : ℕ)
    → IsSorted xs
    → 0 < length xs
    → (p : ℕ) × (owner_point xs h ≡ some p) × IsOwner xs h p
unfolding owner_point
owner_point-IsOwner xs h s some_point =
    let r = sort_search (length xs) (at_least xs h) in
    let f = sort_search-IsFirst (length xs) (at_least xs h) (at_least-IsMonotone xs h s) in
    elim (Bool-cases (leb (length xs) r)) [
      | inl past ↦
          let (p, first) = get_elem?-some xs 0 some_point in
          (p, rw past first, wrapped-IsOwner xs h s r f p (ground arith) first)
      | inr inside ↦
          let (p, here) = get_elem?-some xs r (ground arith) in
          (p, rw inside here, found-IsOwner xs h s r f p here)
    ]

-- A hash has one owner, which the points alone determine.
pub IsOwner-unique : (xs : List ℕ) (h p q : ℕ) → IsOwner xs h p → IsOwner xs h q → p ≡ q
IsOwner-unique xs h p q (hp, inl op) (hq, inl oq) = omega (arith, op.1 q hq oq.0, oq.1 p hp op.0)
IsOwner-unique xs h p q (hp, inl op) (hq, inr oq) = absurd (omega (arith, oq.0 p hp))
IsOwner-unique xs h p q (hp, inr op) (hq, inl oq) = absurd (omega (arith, op.0 q hq))
IsOwner-unique xs h p q (hp, inr op) (hq, inr oq) = omega (arith, op.1 q hq, oq.1 p hp)

-- Among fewer points, an owner that is still there is the owner.
pub IsOwner-fewer :
    (xs ys : List ℕ) (h p : ℕ)
    → ((q : ℕ) → Has q xs → Has q ys)
    → Has p xs
    → IsOwner ys h p
    → IsOwner xs h p
IsOwner-fewer xs ys h p sub has (hp, inl o) = (has, inl (o.0, λ q hq. o.1 q (sub q hq)))
IsOwner-fewer xs ys h p sub has (hp, inr o) =
    (has, inr (λ q hq. o.0 q (sub q hq), λ q hq. o.1 q (sub q hq)))

pub Has-pos : (p : ℕ) (xs : List ℕ) → Has p xs → 0 < length xs
Has-pos p [] h = absurd h
Has-pos p (x ∷ xs) h = omega arith
