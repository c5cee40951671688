-- ===== src/Index/Examples.antt =====
-- A graph of three linked nodes with vectors of one number, and instances of the theorems on it.
use Prim.Native.String.{String}
use vector_store.Prelude.{
  ℕ, zero, suc, ◌-◌, ◌≡◌, refl, subst, some-injective, inl, inr, Bool-cases, List, [], ◌∷◌, some,
  ltb, if◌then◌else◌, get_elem?, ok,
}
use vector_store.Index.{Candidate, Node, wire_back, keep_best}
use vector_store.Index.Links.{Names, ids, OnlySorts, Wired, wire_back-Wired}

-- The similarity of two numbers: less for numbers that are further apart.
abbrev pub near : List ℕ → List ℕ → ℕ
near (a ∷ _) (b ∷ _) = 100 - (a - b) - (b - a)
near _ _ = 0

abbrev pub place : Candidate ℕ → List (Candidate ℕ) → List (Candidate ℕ)
place c [] = c ∷ []
place c (d ∷ ds) = if ltb c.score d.score then d ∷ place c ds else c ∷ d ∷ ds

abbrev pub by_score : List (Candidate ℕ) → List (Candidate ℕ)
by_score [] = []
by_score (c ∷ cs) = place c (by_score cs)

place-Names :
    (x : String) (c : Candidate ℕ) (ds : List (Candidate ℕ))
    → Names x (ids (place c ds))
    → Names x (ids (c ∷ ds))
unfolding Names
place-Names x c [] h = h
place-Names x c (d ∷ ds) h = elim (Bool-cases (ltb c.score d.score)) [
  | inl less ↦
      let is : place c (d ∷ ds) ≡ d ∷ place c ds = rw less refl in
      let below = subst (λ cs. Names x (ids cs)) is h in
      elim below [
        | inl e ↦ inr (inl e)
        | inr rest ↦ elim (place-Names x c ds rest) [ inl e ↦ inl e | inr i ↦ inr (inr i) ]
      ]
  | inr more ↦
      let is : place c (d ∷ ds) ≡ c ∷ d ∷ ds = rw more refl in subst (λ cs. Names x (ids cs)) is h
]

pub by_score-OnlySorts : OnlySorts by_score
unfolding Names
by_score-OnlySorts x [] h = h
by_score-OnlySorts x (c ∷ cs) h = elim (place-Names x c (by_score cs) h) [
  | inl e ↦ inl e
  | inr rest ↦ inr (by_score-OnlySorts x cs rest)
]

abbrev pub at_zero : String → ℕ → List String → Node ℕ
at_zero id v links = record { id = id; vector = v ∷ []; max_layer = 0; neighbors = links ∷ [] }

-- Two links at most at layer 0, and "a" has them; "d" is new.
abbrev hub : Node ℕ
hub = at_zero "a" 5 ("b" ∷ "c" ∷ [])

abbrev scored : List (Candidate ℕ)
scored =
    record { id = "d"; score = 99 }
    ∷ record { id = "b"; score = 96 }
    ∷ record { id = "c"; score = 99 }
    ∷ []

-- The weakest link goes.
pruned : wire_back near by_score hub "d" 0 2 scored ≡ ok (at_zero "a" 5 ("d" ∷ "c" ∷ []))
unfolding wire_back keep_best
pruned = refl

wire_back-Wired_example :
    (nbr' : Node ℕ) × (wire_back near by_score hub "d" 0 2 scored ≡ ok nbr')
    × Wired hub "d" 0 2 ("b" ∷ "c" ∷ []) scored nbr'
wire_back-Wired_example =
    wire_back-Wired near by_score by_score-OnlySorts hub "d" 0 2 ("b" ∷ "c" ∷ []) scored refl

pub only_list :
    (lc : ℕ) (all links : List String)
    → get_elem? (all ∷ []) lc ≡ some links
    → (lc ≡ 0) × (all ≡ links)
only_list zero all links h = (refl, some-injective all links h)
only_list (suc lc) all links h = cc
