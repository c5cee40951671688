-- ===== src/Index/Insert/Keeping.antt =====
-- Insert as a whole: the invariant of the graph, and what it changes.
use Prim.Native.String.{String}
use text.Mathlib.Text.{◌==◌ as str_eq}
use vector_store.Prelude.{
  KeysOnce, ℕ, zero, suc, ◌≤◌, ◌≡◌, refl, ap, ◌⊎◌, inl, arith, true, false, List, [], length, some,
  none, some-injective, lookup, get_elem?, ltb, if◌then◌else◌, ◌==◌, ℤ,
}
use vector_store.Index.{Node, HnswGraph, new_node, no_links, new_hnsw_graph}
use vector_store.Index.Links.{Names}
use vector_store.Index.WellLinked.{Stores, IsLinked, WellLinked}

-- The invariant of the graph: its links, each name once, its settings, no node above the top layer, and an entry
-- point that is there, unless the graph is empty.
pub record IsIndex {F : Type 0} (g : HnswGraph F) : Type 0 where
  pub linked : WellLinked g
  pub once : KeysOnce g.nodes
  pub some_ef : 1 ≤ g.ef_construction
  pub some_ef_search : 1 ≤ g.ef_search
  pub under_top : (x : String) (n : Node F) → lookup x g.nodes ≡ some n → n.max_layer ≤ g.max_layer
  pub entry :
      ((length g.nodes ≡ 0) × (str_eq g.entry_point "" ≡ true))
      ⊎ ((str_eq g.entry_point "" ≡ false) × Stores g g.entry_point)

-- The node of the id is the new one, and the other nodes keep their vectors and layers.
pub record Inserted {F : Type 0} (g : HnswGraph F) (id : String) (vector : List F) (level : ℕ)
    (g' : HnswGraph F) : Type 0 where
  pub added :
      (n : Node F) × (lookup id g'.nodes ≡ some n)
      × (n.id ≡ id)
      × (n.vector ≡ vector)
      × (n.max_layer ≡ level)
  pub keeps :
      (x : String) (n : Node F)
      → str_eq id x ≡ false
      → lookup x g.nodes ≡ some n
      → (n' : Node F) × (lookup x g'.nodes ≡ some n')
        × (n'.id ≡ n.id)
        × (n'.vector ≡ n.vector)
        × (n'.max_layer ≡ n.max_layer)
  pub adds_none_else :
      (x : String) → str_eq id x ≡ false → lookup x g.nodes ≡ none → lookup x g'.nodes ≡ none
  pub enters_at :
      g'.entry_point
      ≡ (if length g.nodes == 0 then id else if ltb g.max_layer level then id else g.entry_point)

pub WellLinked-same :
    {F : Type 0} (g g' : HnswGraph F)
    → g'.nodes ≡ g.nodes
    → g'.m ≡ g.m
    → g'.m_max0 ≡ g.m_max0
    → WellLinked g
    → WellLinked g'
WellLinked-same g g' nodes m m0 w id n h =
    let l = w id n (rw nodes at h) in
    record {
      layers = l.layers;
      bounded = λ lc links e. rw (m, m0) (l.bounded lc links e);
      stored = λ lc links x e mem. rw nodes (l.stored lc links x e mem);
    }

length-no_links : (level : ℕ) → length (no_links level) ≡ suc level
unfolding no_links
length-no_links zero = refl
length-no_links (suc level) = ap suc (length-no_links level)

no_links_empty :
    (level lc : ℕ) (links : List String) → get_elem? (no_links level) lc ≡ some links → [] ≡ links
unfolding no_links
no_links_empty zero zero links h = some-injective [] links h
no_links_empty zero (suc lc) links h = cc
no_links_empty (suc level) zero links h = some-injective [] links h
no_links_empty (suc level) (suc lc) links h = no_links_empty level lc links h

pub new_node-IsLinked :
    {F : Type 0} (g : HnswGraph F) (id : String) (vector : List F) (level : ℕ)
    → IsLinked g (new_node id vector level)
unfolding new_node Names
new_node-IsLinked g id vector level = record {
  layers = length-no_links level;
  bounded = λ lc links h. rw (← no_links_empty level lc links h) (omega arith);
  stored = λ lc links x h m.
      let in_none : Names x [] = rw (← no_links_empty level lc links h) at m in elim in_none [ ];
}

-- NewHNSWGraph returns an empty graph that keeps the invariant, whatever M and efConstruction are.
pub new_hnsw_graph-IsIndex : {F : Type 0} (m ef : ℤ) → IsIndex (new_hnsw_graph {F = F} m ef)
unfolding new_hnsw_graph lookup
new_hnsw_graph-IsIndex m ef = record {
  linked = λ id n h. cc;
  once = tt;
  some_ef = ground arith;
  some_ef_search = omega arith;
  under_top = λ x n h. cc;
  entry = inl (refl, refl);
}
