-- ===== src/Index/InsertExamples.antt =====
-- Insertions into small graphs, vectors of one number, and instances of the theorems on them.
use Prim.Native.String.{String}
use native.Mathlib.Nat.{mul_comm}
use vector_store.Prelude.{
  ℕ, zero, suc, ◌+◌, ◌-◌, ◌*◌, ◌/◌, ◌==◌, ◌≡◌, refl, ◌≤◌, arith, List, [], ◌∷◌, ◌++◌, ltb, ok, pos,
  Bool, some, ◌⊎◌, lookup, mem_str, length, Run, ◌>>=◌, inl, ℤ,
}
use vector_store.Index.{
  Candidate, HnswGraph, new_hnsw_graph, new_node, select_neighbors, add_back_connection,
  collect_links, score_links, wire_back, keep_best,
}
use vector_store.Index.Examples.{near, by_score, by_score-OnlySorts}
use vector_store.Index.SearchExamples.{below, ranks}
use vector_store.Index.Heap.{push, pop, less_at, swap_at, up_loop, lesser_child, down_loop}
use vector_store.Index.Search.{
  search_layer, search, cut, descend, drain, explore_loop, expand, visit_all, visit_one, score_one,
  admit, admits, stops,
}
use vector_store.Index.Insert.{insert, set_links, wire_all, connect_layer, connect_layers}
use vector_store.Index.Insert.Keeping.{IsIndex, Inserted, new_hnsw_graph-IsIndex}
use vector_store.Index.Insert.Inserting.{insert-IsIndex}
use vector_store.Index.Insert.Refines.{Insertion, insert_all, insert_all-Refines, vector_of, latest}
use vector_store.Index.Distance.{FloatOps, cosine_similarity, cosine_similarity-symmetric}

abbrev call : String → ℕ → ℕ → Insertion ℕ
call id v level = record { id = id; vector = v ∷ []; level = level }

abbrev two_calls : List (Insertion ℕ)
two_calls = call "a" 5 1 ∷ call "b" 9 0 ∷ []

abbrev searched : List (Insertion ℕ) → Run (List (Candidate ℕ))
searched calls = insert_all near ltb by_score calls (new_hnsw_graph (pos 4) (pos 8)) >>= λ g.
    search near ltb g (8 ∷ []) (pos 2)

both_found :
    searched two_calls ≡ ok (record { id = "b"; score = 99 } ∷ record { id = "a"; score = 97 } ∷ [])
unfolding insert_all insert set_links wire_all connect_layer connect_layers new_hnsw_graph new_node
    select_neighbors add_back_connection collect_links score_links wire_back keep_best search cut
    descend search_layer drain explore_loop expand visit_all visit_one score_one admit admits stops
    push pop less_at swap_at up_loop lesser_child down_loop lookup mem_str
    vector_store.Prelude.insert
both_found = refl

-- The entry point is inserted again: its new node links to itself alone, and "b" is not found.
one_lost : searched (two_calls ++ call "a" 6 0 ∷ []) ≡ ok (record { id = "a"; score = 98 } ∷ [])
unfolding insert_all insert set_links wire_all connect_layer connect_layers new_hnsw_graph new_node
    select_neighbors add_back_connection collect_links score_links wire_back keep_best search cut
    descend search_layer drain explore_loop expand visit_all visit_one score_one admit admits stops
    push pop less_at swap_at up_loop lesser_child down_loop lookup mem_str
    vector_store.Prelude.insert
one_lost = refl

insert-IsIndex_example :
    (g' : HnswGraph ℕ) × (insert near below by_score "a" (5 ∷ []) (new_hnsw_graph (pos 4) (pos 8)) 1
      ≡ ok g')
    × IsIndex g'
    × Inserted (new_hnsw_graph (pos 4) (pos 8)) "a" (5 ∷ []) 1 g'
insert-IsIndex_example =
    insert-IsIndex near below ranks by_score by_score-OnlySorts (new_hnsw_graph (pos 4) (pos 8)) "a"
      (5 ∷ []) 1 (new_hnsw_graph-IsIndex (pos 4) (pos 8)) refl

insert_all-Refines_example :
    (g' : HnswGraph ℕ) × (insert_all near below by_score two_calls (new_hnsw_graph (pos 4) (pos 8))
      ≡ ok g')
    × IsIndex g'
    × ((x : String)
        → vector_of x g' ≡ latest x two_calls (vector_of x (new_hnsw_graph (pos 4) (pos 8))))
insert_all-Refines_example =
    insert_all-Refines near below by_score ranks by_score-OnlySorts two_calls
      (new_hnsw_graph (pos 4) (pos 8)) (new_hnsw_graph-IsIndex (pos 4) (pos 8)) (refl, (refl, tt))

-- Whole numbers in place of floats.
abbrev whole : FloatOps ℕ ℕ
whole = record {
  zero32 = 0;
  zero64 = 0;
  widen = λ n. n;
  narrow = λ n. n;
  add = ◌+◌;
  mul = ◌*◌;
  div = ◌/◌;
  sqrt = λ n. n / 2 + 1;
  is_zero = λ n. n == 0;
}

cosine_similarity-symmetric_example :
    (r : ℕ) × (cosine_similarity whole (30 ∷ 40 ∷ []) (3 ∷ 5 ∷ []) ≡ ok r)
    × (cosine_similarity whole (3 ∷ 5 ∷ []) (30 ∷ 40 ∷ []) ≡ ok r)
    × ((r ≡ 0)
        ⊎ ((length {A = ℕ} (30 ∷ 40 ∷ []) ≡ length {A = ℕ} (3 ∷ 5 ∷ []))
            × (1 ≤ length {A = ℕ} (30 ∷ 40 ∷ []))))
cosine_similarity-symmetric_example =
    cosine_similarity-symmetric whole mul_comm (30 ∷ 40 ∷ []) (3 ∷ 5 ∷ [])
