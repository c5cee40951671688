-- ===== src/Index.antt =====
-- internal/vectorindex/hnsw.go: the nodes and links of the graph. Scores, the cosine similarity of
-- two vectors and sort.Slice by descending score are parameters.
pub mod Heap
pub mod Links
pub mod Search
pub mod Distance
pub mod Insert
pub mod Concurrent
pub mod WellLinked
pub mod Examples
pub mod SearchExamples
mod InsertExamples
use Prim.Native.String.{String}
use text.Mathlib.Text.{◌==◌ as str_eq}
use vector_store.Prelude.{
  ℕ, zero, suc, ◌+◌, ◌*◌, ◌≡◌, Bool, true, false, List, [], ◌∷◌, ◌++◌, map, take, set, Option, none,
  some, ◌==◌, if◌then◌else◌, leb, ltb, length, ℤ, pos, pos_part, leb_ℤ, Run, ok, panic, ◌>>=◌, load,
  store, get_elem?, lookup, insert,
}

-- S is float32.
pub record Candidate (S : Type 0) : Type 0 where
  pub id : String
  pub score : S

pub record Node (F : Type 0) : Type 0 where
  pub id : String
  pub vector : List F
  pub max_layer : ℕ
  pub neighbors : List (List String)

-- The parts of the graph that its links depend on.
pub record HnswGraph (F : Type 0) : Type 0 where
  pub nodes : List (String × Node F)
  pub entry_point : String
  pub max_layer : ℕ
  pub m : ℕ
  pub m_max0 : ℕ
  pub ef_construction : ℕ
  pub ef_search : ℕ

abbrev pub default_m : ℕ
default_m = 16

abbrev pub default_ef_construction : ℕ
default_ef_construction = 200

abbrev pub default_ef_search : ℕ
default_ef_search = 50

unfoldable pub new_hnsw_graph : {F : Type 0} → ℤ → ℤ → HnswGraph F
new_hnsw_graph m ef =
    let m' = if leb_ℤ m (pos 0) then default_m else pos_part m in
    record {
      nodes = [];
      entry_point = "";
      max_layer = 0;
      m = m';
      m_max0 = 2 * m';
      ef_construction = if leb_ℤ ef (pos 0) then default_ef_construction else pos_part ef;
      ef_search = default_ef_search;
    }

abbrev pub max_links_at_layer : {F : Type 0} → HnswGraph F → ℕ → ℕ
max_links_at_layer g layer = if layer == 0 then g.m_max0 else g.m

unfoldable pub select_neighbors : {S : Type 0} → List (Candidate S) → ℕ → List (Candidate S)
select_neighbors candidates m = if leb (length candidates) m then candidates else take m candidates

-- The node that Insert makes: no links at the layers up to its level.
unfoldable pub no_links : ℕ → List (List String)
no_links zero = [] ∷ []
no_links (suc level) = [] ∷ no_links level

unfoldable pub new_node : {F : Type 0} → String → List F → ℕ → Node F
unfolding no_links
new_node id vector level = record {
  id = id;
  vector = vector;
  max_layer = level;
  neighbors = no_links level;
}

abbrev pub put_node : {F : Type 0} → HnswGraph F → String → Node F → HnswGraph F
put_node g id n = record g { nodes = insert id n g.nodes }

-- The strongest max_links candidates.
unfoldable pub keep_best : {S : Type 0} → List (Candidate S) → ℕ → List (Candidate S)
keep_best candidates max_links =
    if ltb max_links (length candidates) then take max_links candidates else candidates

module _ {F S : Type 0} (similarity : List F → List F → S)
    (sort_descending : List (Candidate S) → List (Candidate S)) where
  -- The existing links that name a node, with their scores.
  unfoldable pub score_links : HnswGraph F → Node F → List String → List (Candidate S)
  score_links g nbr [] = []
  score_links g nbr (eid ∷ ids) =
      let rest = score_links g nbr ids in
      elim (lookup eid g.nodes) [
        | none ↦ rest
        | some en ↦ record { id = eid; score = similarity nbr.vector en.vector } ∷ rest
      ]

  -- Phase A of addBackConnection, for a neighbour that is there: the new node and the neighbour's
  -- links, scored.
  unfoldable pub collect_links :
      HnswGraph F → Node F → String → List F → ℕ → Run (List (Candidate S))
  unfolding score_links
  collect_links g nbr new_id new_vec lc = load nbr.neighbors (pos lc) >>= λ existing.
      ok
        (record { id = new_id; score = similarity nbr.vector new_vec } ∷ score_links g nbr existing)

  -- Phase B, on the neighbour as it is by then.
  unfoldable pub wire_back : Node F → String → ℕ → ℕ → List (Candidate S) → Run (Node F)
  unfolding keep_best
  wire_back nbr new_id lc max_links candidates = load nbr.neighbors (pos lc) >>= λ links.
      let grown = links ++ new_id ∷ [] in
      let best = keep_best (sort_descending candidates) max_links in
      let links' =
        if leb (length grown) max_links then grown else map (λ (c : Candidate S). c.id) best in
      store nbr.neighbors (pos lc) links' >>= λ layers. ok (record nbr { neighbors = layers })

  -- addBackConnection, where no other goroutine touches the neighbour between its phases.
  unfoldable pub add_back_connection :
      HnswGraph F → String → String → List F → ℕ → Run (HnswGraph F)
  unfolding collect_links
  add_back_connection g nbr_id new_id new_vec lc =
      let wired : Node F → Run (HnswGraph F) = λ nbr.
        (collect_links g nbr new_id new_vec lc >>= λ all.
        wire_back nbr new_id lc (max_links_at_layer g lc) all >>= λ nbr'.
        ok (put_node g nbr_id nbr')) in
      elim (lookup nbr_id g.nodes) [
        | none ↦ ok g
        | some nbr ↦ if ltb nbr.max_layer lc then ok g else wired nbr
      ]
