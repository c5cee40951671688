-- ===== src/Index/Insert/Layers.antt =====
-- Phase 3 of Insert keeps the graph well linked, layer by layer.
use Prim.Native.String.{String}
use vector_store.Prelude.{
  ℕ, zero, suc, ◌≤◌, ◌≡◌, refl, inl, inr, arith, Bool, true, Bool-cases, List, [], ◌∷◌, length,
  length-take, length-map, set, some, ok, Run, lookup, get_elem?-some, leb, ltb,
}
use vector_store.Index.{Candidate, Node, HnswGraph, put_node, max_links_at_layer, select_neighbors}
use vector_store.Index.Heap.Items.{All}
use vector_store.Index.Links.{Names, ids, Names-take, OnlySorts, Wired}
use vector_store.Index.WellLinked.{
  Stores, WellLinked, WellLinked-put_node, Wired-IsLinked, add_back_connection-WellLinked,
}
use vector_store.Index.Search.{search_layer}
use vector_store.Index.Search.Invariant.{Ranked, IsFound}
use vector_store.Index.Search.Result.{search_layer-IsBeam}
use vector_store.Index.Insert.{set_links, wire_all, connect_layer, connect_layers}
use vector_store.Index.Insert.Grows.{
  Grows, Grows-refl, Grows-trans, Grows-put_node, add_back_connection-Grows,
}

-- A step succeeds, and leaves a graph with the same nodes that is well linked.
pub record Connected {F : Type 0} (g : HnswGraph F) (r : Run (HnswGraph F)) : Type 0 where
  pub graph : HnswGraph F
  pub ran : r ≡ ok graph
  pub linked : WellLinked graph
  pub grows : Grows g graph

pub Stores-Grows :
    {F : Type 0} (g g' : HnswGraph F) (x : String) → Grows g g' → Stores g x → Stores g' x
Stores-Grows g g' x w (n, h) = let (n', h', _, _, _) = w.keeps x n h in (n', h')

pub length-select_neighbors :
    {S : Type 0} (cs : List (Candidate S)) (m : ℕ) → length (select_neighbors cs m) ≤ m
unfolding select_neighbors
length-select_neighbors cs m = elim (Bool-cases (leb (length cs) m)) [
  | inl few ↦ rw few (ground arith)
  | inr many ↦ rw many (omega (arith, length-take m cs))
]

pub Names-select_neighbors :
    {S : Type 0} (x : String) (cs : List (Candidate S)) (m : ℕ)
    → Names x (ids (select_neighbors cs m))
    → Names x (ids cs)
unfolding select_neighbors
Names-select_neighbors x cs m h = elim (Bool-cases (leb (length cs) m)) [
  | inl few ↦ let all = rw few at h in all
  | inr many ↦ Names-take x m cs (let some_of = rw many at h in some_of)
]

module _ {F S : Type 0} (similarity : List F → List F → S)
    (sort_descending : List (Candidate S) → List (Candidate S)) (sorts : OnlySorts sort_descending)
    (id : String) where
  pub set_links-Connected :
      (g : HnswGraph F) (n : Node F) (lc : ℕ) (cs : List (Candidate S))
      → WellLinked g
      → lookup id g.nodes ≡ some n
      → lc ≤ n.max_layer
      → length cs ≤ max_links_at_layer g lc
      → ((x : String) → Names x (ids cs) → Stores g x)
      → Connected g (set_links g id lc (ids cs))
  unfolding set_links
  set_links-Connected g n lc cs w there within few known =
      let l = w id n there in
      let (links, found) = get_elem?-some n.neighbors lc (omega (arith, l.layers)) in
      let inside : ltb lc (length n.neighbors) ≡ true = ground (arith, l.layers) in
      let n' : Node F = record n { neighbors = set n.neighbors lc (ids cs) } in
      let wired : Wired n id lc (max_links_at_layer g lc) links cs n' = record {
        links' = ids cs;
        changes = refl;
        bounded = omega (arith, length-map (λ (c : Candidate S). c.id) cs);
        drawn = λ x h. inr (inr h);
      } in
      record {
        graph = put_node g id n';
        ran = rw (set_links, there, inside) refl;
        linked = WellLinked-put_node g id n' w (
            Wired-IsLinked similarity sort_descending sorts g n n' id lc links cs l found (n, there)
              known wired);
        grows = Grows-put_node g id n (set n.neighbors lc (ids cs)) there;
      }

module _ {F S : Type 0} (similarity : List F → List F → S) (below : S → S → Bool)
    (ranks : Ranked below) (sort_descending : List (Candidate S) → List (Candidate S))
    (sorts : OnlySorts sort_descending) (id : String) (vector : List F) where
  found-Stores :
      (g : HnswGraph F) (ef lc : ℕ) (ep x : String) (cs : List (Candidate S))
      → All (IsFound similarity below ranks g vector ef lc ep) cs
      → Names x (ids cs)
      → Stores g x
  unfolding Names
  found-Stores g ef lc ep x [] f h = elim h [ ]
  found-Stores g ef lc ep x (c ∷ cs) f (inl e) = (f.0.node, rw e f.0.stored)
  found-Stores g ef lc ep x (c ∷ cs) f (inr h) = found-Stores g ef lc ep x cs f.1 h

  wire_all-Connected :
      (lc : ℕ) (cs : List (Candidate S)) (g : HnswGraph F)
      → WellLinked g
      → Stores g id
      → Connected g (wire_all similarity below sort_descending id vector lc cs g)
  unfolding wire_all
  wire_all-Connected lc [] g w new = record {
    graph = g;
    ran = refl;
    linked = w;
    grows = Grows-refl g;
  }
  wire_all-Connected lc (c ∷ cs) g w new =
      let (g', ran, w') =
        add_back_connection-WellLinked similarity sort_descending sorts g c.id id vector lc w new in
      let grows = add_back_connection-Grows similarity sort_descending g g' c.id id vector lc ran in
      let rest = wire_all-Connected lc cs g' w' (Stores-Grows g g' id grows new) in
      record {
        graph = rest.graph;
        ran = rw ran rest.ran;
        linked = rest.linked;
        grows = Grows-trans g g' rest.graph grows rest.grows;
      }

  connect_layer-Connected :
      (lc : ℕ) (g : HnswGraph F) (ep : String) (n : Node F)
      → WellLinked g
      → 1 ≤ g.ef_construction
      → lookup id g.nodes ≡ some n
      → lc ≤ n.max_layer
      → Stores g ep
      → (g' : HnswGraph F) × (ep' : String) × (connect_layer similarity below sort_descending id
            vector lc g ep
          ≡ ok (g', ep'))
        × WellLinked g'
        × Grows g g'
        × Stores g' ep'
  unfolding connect_layer
  connect_layer-Connected lc g ep n w some_ef there within (e, entry) =
      let (out, ran, beam) =
        search_layer-IsBeam similarity below ranks g vector g.ef_construction lc ep e some_ef
          entry in
      go out ran beam.found
    where
      go :
          (out : List (Candidate S))
          → search_layer similarity below g vector g.ef_construction lc ep ≡ ok out
          → All (IsFound similarity below ranks g vector g.ef_construction lc ep) out
          → (g' : HnswGraph F) × (ep' : String) × (connect_layer similarity below sort_descending id
                vector lc g ep
              ≡ ok (g', ep'))
            × WellLinked g'
            × Grows g g'
            × Stores g' ep'
      go [] ran found = (g, ep, rw ran refl, w, Grows-refl g, (e, entry))
      go (c ∷ cs) ran found =
          let chosen = select_neighbors (c ∷ cs) (max_links_at_layer g lc) in
          let s =
            set_links-Connected similarity sort_descending sorts id g n lc chosen w there within
              (length-select_neighbors (c ∷ cs) (max_links_at_layer g lc))
              (λ x h.
                found-Stores g g.ef_construction lc ep x (c ∷ cs) found
                  (Names-select_neighbors x (c ∷ cs) (max_links_at_layer g lc) h)) in
          let t =
            wire_all-Connected lc chosen s.graph s.linked
              (Stores-Grows g s.graph id s.grows (n, there)) in
          let both = Grows-trans g s.graph t.graph s.grows t.grows in
          (
            t.graph,
            c.id,
            rw (ran, s.ran, t.ran) refl,
            t.linked,
            both,
            Stores-Grows g t.graph c.id both (found.0.node, found.0.stored),
          )

  -- The layers that the new node has are connected from the top down.
  pub connect_layers-Connected :
      (layers : ℕ) (g : HnswGraph F) (ep : String) (n : Node F)
      → WellLinked g
      → 1 ≤ g.ef_construction
      → lookup id g.nodes ≡ some n
      → layers ≤ suc n.max_layer
      → Stores g ep
      → Connected g (connect_layers similarity below sort_descending id vector layers g ep)
  unfolding connect_layers
  connect_layers-Connected zero g ep n w some_ef there within entry = record {
    graph = g;
    ran = refl;
    linked = w;
    grows = Grows-refl g;
  }
  connect_layers-Connected (suc lc) g ep n w some_ef there within entry =
      let (g', ep', ran, w', grows, entry') =
        connect_layer-Connected lc g ep n w some_ef there (omega arith) entry in
      let (n', there', _, _, level) = grows.keeps id n there in
      let rest =
        connect_layers-Connected lc g' ep' n' w' (omega (arith, grows.same_ef)) there'
          (omega (arith, level)) entry' in
      record {
        graph = rest.graph;
        ran = rw ran rest.ran;
        linked = rest.linked;
        grows = Grows-trans g g' rest.graph grows rest.grows;
      }
