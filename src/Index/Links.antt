-- ===== src/Index/Links.antt =====
-- addBackConnection: the links of a graph stay within their bounds and name nodes of the graph.
use Prim.Native.String.{String}
use vector_store.Prelude.{
  ℕ, zero, suc, ◌≤◌, ◌≡◌, refl, ◌⊎◌, inl, inr, true, arith, List, [], ◌∷◌, ◌++◌, map, take, set,
  some, Bool-cases, leb, ltb, length, length-take, length-map, get_elem?, lt-length_of_some, ok,
}
use vector_store.Index.{Candidate, Node, keep_best, wire_back}

-- x is among the names.
unfoldable pub Names : String → List String → Type 0
Names x [] = ⊥
Names x (y ∷ ys) = (x ≡ y) ⊎ Names x ys

abbrev pub ids : {S : Type 0} → List (Candidate S) → List String
ids cs = map (λ c. c.id) cs

Names-append : (x y : String) (xs : List String) → Names x (xs ++ y ∷ []) → Names x xs ⊎ (x ≡ y)
unfolding Names
Names-append x y [] (inl e) = inr e
Names-append x y [] (inr h) = elim h [ ]
Names-append x y (z ∷ xs) (inl e) = inl (inl e)
Names-append x y (z ∷ xs) (inr h) = elim (Names-append x y xs h) [
  | inl i ↦ inl (inr i)
  | inr e ↦ inr e
]

pub Names-take :
    {S : Type 0} (x : String) (n : ℕ) (cs : List (Candidate S))
    → Names x (ids (take n cs))
    → Names x (ids cs)
unfolding Names
Names-take x zero cs h = elim h [ ]
Names-take x (suc n) [] h = h
Names-take x (suc n) (c ∷ cs) (inl e) = inl e
Names-take x (suc n) (c ∷ cs) (inr h) = inr (Names-take x n cs h)

length-keep_best : {S : Type 0} (cs : List (Candidate S)) (m : ℕ) → length (keep_best cs m) ≤ m
unfolding keep_best
length-keep_best cs m = elim (Bool-cases (ltb m (length cs))) [
  | inl many ↦ rw many (omega (arith, length-take m cs))
  | inr few ↦ rw few (ground arith)
]

Names-keep_best :
    {S : Type 0} (x : String) (cs : List (Candidate S)) (m : ℕ)
    → Names x (ids (keep_best cs m))
    → Names x (ids cs)
unfolding keep_best
Names-keep_best x cs m h = elim (Bool-cases (ltb m (length cs))) [
  | inl many ↦ Names-take x m cs (let some_of = rw many at h in some_of)
  | inr few ↦ let all = rw few at h in all
]

-- What a sort of candidates keeps: it names no one else.
abbrev pub OnlySorts : {S : Type 0} → (List (Candidate S) → List (Candidate S)) → Type 0
OnlySorts {S} f = (x : String) (cs : List (Candidate S)) → Names x (ids (f cs)) → Names x (ids cs)

-- The neighbour after Phase B: its list at the layer is at most max_links long, and names the new
-- node, old links and candidates only; nothing else changed.
pub record Wired {F S : Type 0} (nbr : Node F) (new_id : String) (lc max_links : ℕ)
    (links : List String) (candidates : List (Candidate S)) (nbr' : Node F) : Type 0 where
  pub links' : List String
  pub changes : nbr' ≡ record nbr { neighbors = set nbr.neighbors lc links' }
  pub bounded : length links' ≤ max_links
  pub drawn :
      (x : String) → Names x links' → Names x links ⊎ (x ≡ new_id) ⊎ Names x (ids candidates)

module _ {F S : Type 0} (similarity : List F → List F → S)
    (sort_descending : List (Candidate S) → List (Candidate S))
    (sorts : OnlySorts sort_descending) where
  -- Phase B of addBackConnection, on a neighbour that any other goroutines changed since Phase A:
  -- it succeeds at a layer of the neighbour, the list there is no longer than the limit, whatever
  -- length it had, and it names only old links, the new node and the candidates of Phase A.
  pub wire_back-Wired :
      (nbr : Node F) (new_id : String) (lc max_links : ℕ) (links : List String)
      (cs : List (Candidate S))
      → get_elem? nbr.neighbors lc ≡ some links
      → (nbr' : Node F) × (wire_back similarity sort_descending nbr new_id lc max_links cs
          ≡ ok nbr')
        × Wired nbr new_id lc max_links links cs nbr'
  unfolding wire_back
  wire_back-Wired nbr new_id lc max_links links cs found =
      let inside : ltb lc (length nbr.neighbors) ≡ true =
        ground (arith, lt-length_of_some nbr.neighbors lc links found) in
      let grown = links ++ new_id ∷ [] in
      let best = keep_best (sort_descending cs) max_links in
      elim (Bool-cases (leb (length grown) max_links)) [
        | inl fits ↦ (
          record nbr { neighbors = set nbr.neighbors lc grown },
          rw (found, fits, inside) refl,
          record {
            links' = grown;
            changes = refl;
            bounded = ground arith;
            drawn = λ x h. elim (Names-append x new_id links h) [
              | inl old ↦ inl old
              | inr new ↦ inr (inl new)
            ];
          },
        )
        | inr over ↦ (
          record nbr { neighbors = set nbr.neighbors lc (ids best) },
          rw (found, over, inside) refl,
          record {
            links' = ids best;
            changes = refl;
            bounded = omega (
              arith,
              length-map (λ (c : Candidate S). c.id) best,
              length-keep_best (sort_descending cs) max_links,
            );
            drawn =
                λ x h. inr (inr (sorts x cs (Names-keep_best x (sort_descending cs) max_links h)));
          },
        )
      ]
