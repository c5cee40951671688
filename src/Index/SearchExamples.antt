-- ===== src/Index/SearchExamples.antt =====
-- Searches of a small graph with vectors of one number.
use Prim.Native.Nat.{min}
use vector_store.Prelude.{ℕ, ◌≡◌, refl, arith, List, [], ◌∷◌, ltb, ok, pos, Bool, lookup, mem_str}
use vector_store.Index.{Candidate, HnswGraph}
use vector_store.Index.Examples.{near, at_zero}
use vector_store.Index.Heap.{push, pop, less_at, swap_at, up_loop, lesser_child, down_loop}
use vector_store.Index.Search.{
  search_layer, search, cut, descend, drain, explore_loop, expand, visit_all, visit_one, score_one,
  admit, admits, stops,
}
use vector_store.Index.Search.Invariant.{Ranked}
use vector_store.Index.Search.Result.{IsBeam, search_layer-IsBeam}
use vector_store.Index.Search.Exact.{IsExhaustive, search_layer-IsExhaustive}

-- A link to "x", which is not in the graph, and links back.
abbrev chain : HnswGraph ℕ
chain = record {
  nodes =
      ("a", at_zero "a" 1 ("b" ∷ []))
      ∷ ("b", at_zero "b" 2 ("a" ∷ "c" ∷ []))
      ∷ ("c", at_zero "c" 7 ("b" ∷ "d" ∷ "x" ∷ []))
      ∷ ("d", at_zero "d" 9 ("c" ∷ []))
      ∷ [];
  entry_point = "a";
  max_layer = 0;
  m = 1;
  m_max0 = 2;
  ef_construction = 4;
  ef_search = 3;
}

abbrev found : List (Candidate ℕ)
found =
    record { id = "d"; score = 99 }
    ∷ record { id = "c"; score = 99 }
    ∷ record { id = "b"; score = 94 }
    ∷ []

-- The search climbs from 1 to the two nodes next to 8.
near_eight : search near ltb chain (8 ∷ []) (pos 3) ≡ ok found
unfolding search cut descend search_layer drain explore_loop expand visit_all visit_one score_one
    admit admits stops push pop less_at swap_at up_loop lesser_child down_loop lookup mem_str
near_eight = refl

-- Scores are numbers up to 100.
abbrev pub below : ℕ → ℕ → Bool
below a b = ltb (min a 100) (min b 100)

abbrev pub ranks : Ranked below
ranks = record {
  rank = λ a. min a 100;
  greatest = 100;
  bounded = λ a. omega arith;
  below_rank = λ a b. refl;
}

search_layer-IsBeam_example :
    (out : List (Candidate ℕ)) × (search_layer near below chain (8 ∷ []) 3 0 "a" ≡ ok out)
    × IsBeam near below ranks chain (8 ∷ []) 3 0 "a" (at_zero "a" 1 ("b" ∷ [])) out
unfolding lookup
search_layer-IsBeam_example =
    search_layer-IsBeam near below ranks chain (8 ∷ []) 3 0 "a" (at_zero "a" 1 ("b" ∷ []))
      (omega arith) refl

search_layer-IsExhaustive_example :
    (out : List (Candidate ℕ)) × (search_layer near below chain (8 ∷ []) 5 0 "a" ≡ ok out)
    × IsExhaustive near below ranks chain (8 ∷ []) 5 0 "a" out
unfolding lookup
search_layer-IsExhaustive_example =
    search_layer-IsExhaustive near below ranks chain (8 ∷ []) 5 0 "a" (at_zero "a" 1 ("b" ∷ []))
      (omega arith) refl
