-- ===== src/Index/Insert.antt =====
-- Insert of internal/vectorindex/hnsw.go, where no other goroutine changes the graph meanwhile. The
-- level is an argument of Insert: the number that assignLevel returns, a natural one. For an M of 1 the
-- code converts an infinity to int there, and no such number stands for it.
pub mod Grows
pub mod Layers
pub mod Keeping
pub mod Phases
pub mod Inserting
pub mod Refines
use Prim.Native.String.{String}
use Prim.Native.Nat.{min}
use vector_store.Prelude.{
  ℤ, ℕ, zero, suc, Bool, ◌&&◌, List, [], ◌∷◌, map, none, some, ◌==◌, if◌then◌else◌, leb, ltb,
  length, pos, Run, ok, ◌>>=◌, store, lookup,
}
use vector_store.Index.{
  Candidate, Node, HnswGraph, put_node, new_node, max_links_at_layer, select_neighbors,
  add_back_connection,
}
use vector_store.Index.Search.{search_layer, descend}

-- The float64 operations and the random source of assignLevel, with the numbers D and the state R
-- of the source; tiny is 1e-10.
pub record LevelOps (D R : Type 0) : Type 0 where
  pub float64 : R → D × R
  pub tiny : D
  pub less : D → D → Bool
  pub log : D → D
  pub neg : D → D
  pub mul : D → D → D
  pub to_int : D → ℤ

-- assignLevel, with the level and the source after it; m_l is g.mL.
unfoldable pub assign_level : {D R : Type 0} → LevelOps D R → D → R → ℤ × R
assign_level ops m_l rng =
    let (r, rng') = ops.float64 rng in
    let guarded = if ops.less r ops.tiny then ops.tiny else r in
    (ops.to_int (ops.mul (ops.neg (ops.log guarded)) m_l), rng')

-- newNode.neighbors[lc] = ids, for the node of that id
unfoldable pub set_links : {F : Type 0} → HnswGraph F → String → ℕ → List String → Run (HnswGraph F)
set_links g id lc ids = elim (lookup id g.nodes) [
  | none ↦ ok g
  | some n ↦ store n.neighbors (pos lc) ids >>= λ layers.
      ok (put_node g id (record n { neighbors = layers }))
]

-- Phase 1: the node joins the graph, and the top layer rises to its level.
abbrev pub register_node : {F : Type 0} → HnswGraph F → String → List F → ℕ → HnswGraph F
register_node g id vector level = record (put_node g id (new_node id vector level)) {
  max_layer = if ltb g.max_layer level then level else g.max_layer;
}

module _ {F S : Type 0} (similarity : List F → List F → S) (below : S → S → Bool)
    (sort_descending : List (Candidate S) → List (Candidate S)) (id : String)
    (vector : List F) where
  -- for i := range neighbours { g.addBackConnection(neighbours[i].id, id, vector, lc) }
  unfoldable pub wire_all : ℕ → List (Candidate S) → HnswGraph F → Run (HnswGraph F)
  wire_all lc [] g = ok g
  wire_all lc (c ∷ cs) g =
      add_back_connection similarity sort_descending g c.id id vector lc >>= λ g'. wire_all lc cs g'

  -- Phase 3 at the layer lc, from the entry point ep; with the entry point of the next layer.
  unfoldable pub connect_layer : ℕ → HnswGraph F → String → Run (HnswGraph F × String)
  connect_layer lc g ep =
      search_layer similarity below g vector g.ef_construction lc ep >>= λ candidates.
      (let neighbours = select_neighbors candidates (max_links_at_layer g lc) in
        elim candidates [
          | [] ↦ ok (g, ep)
          | best ∷ _ ↦ set_links g id lc (map (λ (c : Candidate S). c.id) neighbours) >>= λ g'.
              wire_all lc neighbours g' >>= λ g''. ok (g'', best.id)
        ])

  -- The layers below `layers`, from the top.
  unfoldable pub connect_layers : ℕ → HnswGraph F → String → Run (HnswGraph F)
  connect_layers zero g ep = ok g
  connect_layers (suc lc) g ep = connect_layer lc g ep >>= λ r. connect_layers lc r.0 r.1

  unfoldable pub insert : HnswGraph F → ℕ → Run (HnswGraph F)
  insert g level =
      let alone = record (put_node g id (new_node id vector level)) {
        entry_point = id;
        max_layer = level;
      } in
      let joined =
        descend similarity below (register_node g id vector level) vector level g.max_layer
          g.entry_point
        >>= λ ep.
            connect_layers (suc (min level g.max_layer)) (register_node g id vector level) ep
            >>= λ g'. ok (
                if ltb g.max_layer level && leb g'.max_layer level
                then record g' { entry_point = id }
                else g') in
      if length g.nodes == 0 then ok alone else joined
