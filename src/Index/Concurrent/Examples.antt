-- ===== src/Index/Concurrent/Examples.antt =====
-- Three Inserts into an empty graph; two of them run at once.
use Prim.Native.String.{String}
use vector_store.Prelude.{
  ℕ, ◌≡◌, refl, inl, inr, List, [], ◌∷◌, none, some, pos, ok, lookup, update, insert, length, ◌>>=◌,
}
use vector_store.Index.{Candidate, HnswGraph, new_hnsw_graph, new_node, select_neighbors, wire_back}
use vector_store.Index.Links.{Names}
use vector_store.Index.Examples.{near, by_score, by_score-OnlySorts}
use vector_store.Index.Insert.{set_links}
use vector_store.Index.Insert.Keeping.{new_hnsw_graph-IsIndex}
use vector_store.Index.Concurrent.{
  Inserting, linking, wiring, scored, enter, joining, advance_at, Busy, Known, begins, goes_on,
  Steps, here, next, NewNames,
}
use vector_store.Index.Concurrent.Safety.{Consistent, inserts-Consistent}

abbrev idle : Busy ℕ ℕ
idle = record { graph = new_hnsw_graph (pos 4) (pos 8); running = λ k. none }

-- The state after an Insert began at the place k.
abbrev begun : Busy ℕ ℕ → ℕ → String → ℕ → ℕ → Busy ℕ ℕ
begun s k id v level = record {
  graph = (enter {S = ℕ} s.graph id (v ∷ []) level).0;
  running = update s.running k (enter s.graph id (v ∷ []) level).1;
}

abbrev with_a : Busy ℕ ℕ
with_a = begun idle 0 "a" 5 0

abbrev with_b : Busy ℕ ℕ
with_b = begun with_a 1 "b" 9 2

abbrev b_joins : Inserting ℕ ℕ
b_joins = joining with_a.graph "b" (9 ∷ []) 2

-- The search of b finds a.
abbrev a_found : List (Candidate ℕ)
a_found = record { id = "a"; score = 96 } ∷ []

abbrev b_links : Inserting ℕ ℕ
b_links = record b_joins { stage = linking 0 a_found }

abbrev b_found : Busy ℕ ℕ
b_found = record { graph = with_b.graph; running = update with_b.running 1 (some b_links) }

-- c begins before b writes its links.
abbrev with_c : Busy ℕ ℕ
with_c = begun b_found 0 "c" 7 1

abbrev linked : HnswGraph ℕ
linked = record with_c.graph {
  nodes =
      ("a", new_node "a" (5 ∷ []) 0)
      ∷ ("b", record (new_node "b" (9 ∷ []) 2) { neighbors = ("a" ∷ []) ∷ [] ∷ [] ∷ [] })
      ∷ ("c", new_node "c" (7 ∷ []) 1)
      ∷ [];
}

abbrev b_linked : Busy ℕ ℕ
b_linked = record {
  graph = linked;
  running = update with_c.running 1 (some (record b_joins { stage = wiring 0 a_found }));
}

no_nodes : length idle.graph.nodes ≡ 0
unfolding new_hnsw_graph
no_nodes = refl

searches :
    advance_at near by_score b_joins.stage with_b.graph b_joins a_found
    ≡ ok (with_b.graph, some b_links)
unfolding advance_at enter new_hnsw_graph select_neighbors insert
searches = refl

links :
    advance_at near by_score b_links.stage with_c.graph b_links []
    ≡ ok (linked, some (record b_joins { stage = wiring 0 a_found }))
unfolding advance_at enter new_hnsw_graph select_neighbors insert set_links lookup new_node
links = refl

a-Known : Known with_b.graph a_found
unfolding Names enter new_hnsw_graph insert lookup new_node
a-Known x (inl e) = (new_node "a" (5 ∷ []) 0, rw e refl)
a-Known x (inr none_left) = elim none_left [ ]

none-Known : Known {S = ℕ} with_c.graph []
unfolding Names
none-Known x m = elim m [ ]

empty_place : with_a.running 0 ≡ none
unfolding update enter new_hnsw_graph
empty_place = refl

second_place : with_a.running 1 ≡ none
unfolding update enter new_hnsw_graph
second_place = refl

third_place : b_found.running 0 ≡ none
unfolding update enter new_hnsw_graph
third_place = refl

b_runs : with_b.running 1 ≡ some b_joins
unfolding update enter new_hnsw_graph insert
b_runs = refl

b_runs_on : with_c.running 1 ≡ some b_links
unfolding update enter new_hnsw_graph insert
b_runs_on = refl

abbrev run : Steps near by_score idle b_linked
run =
    next
      (next
        (next
          (next (next here (begins 0 "a" (5 ∷ []) 0 refl refl))
            (begins 1 "b" (9 ∷ []) 2 second_place refl))
          (goes_on 1 b_joins a_found with_b.graph (some b_links) b_runs a-Known searches refl))
        (begins 0 "c" (7 ∷ []) 1 third_place refl))
      (goes_on 1 b_links [] linked (some (record b_joins { stage = wiring 0 a_found })) b_runs_on
        none-Known links refl)

new_names : NewNames near by_score idle b_linked run
unfolding enter new_hnsw_graph insert lookup
new_names = (((((tt, (refl, refl)), (refl, refl)), tt), (refl, refl)), tt)

inserts-Consistent_example : Consistent near by_score idle b_linked run
inserts-Consistent_example =
    inserts-Consistent near by_score by_score-OnlySorts idle b_linked run new_names
      (new_hnsw_graph-IsIndex (pos 4) (pos 8)) (λ k. refl) (inl no_nodes)

-- b is about to write its links of layer 0, which it chose before; c links back to b first.
abbrev b_late : Inserting ℕ ℕ
b_late = record b_joins { stage = linking 0 a_found }

abbrev c_scored : Inserting ℕ ℕ
c_scored = record (joining with_b.graph "c" (7 ∷ []) 1) {
  stage = scored 0 "b" (record { id = "c"; score = 98 } ∷ []) [];
}

-- The link from b to c is lost.
lost_link :
    (advance_at near by_score c_scored.stage with_c.graph c_scored [] >>= λ r.
    advance_at near by_score b_late.stage r.0 b_late [])
    ≡ ok (linked, some (record b_joins { stage = wiring 0 a_found }))
unfolding advance_at enter new_hnsw_graph select_neighbors insert set_links lookup new_node
    wire_back
lost_link = refl
