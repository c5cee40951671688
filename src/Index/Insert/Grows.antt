-- ===== src/Index/Insert/Grows.antt =====
-- What no step of Insert after Phase 1 changes: the nodes of the graph but for their links.
use Prim.Native.String.{String}
use text.Mathlib.Text.{◌==◌ as str_eq}
use text.Mathlib.TextEquality.{eq_iff}
use vector_store.Prelude.{
  KeysOnce, insert-KeysOnce, ℕ, ◌≡◌, refl, sym, ap, ◌∙◌, inl, inr, Bool-cases, Option-cases, List,
  some, none, some-injective, ok, lookup, lookup-insert, Ensures, returned, Ensures-bind,
  Ensures-if, Ensures-run, ltb, load, store, pos,
}
use vector_store.Index.{
  Candidate, Node, HnswGraph, put_node, add_back_connection, wire_back, collect_links,
  max_links_at_layer,
}

-- The same settings and the same nodes, with the same vectors and layers.
pub record Grows {F : Type 0} (g g' : HnswGraph F) : Type 0 where
  pub same_m : g'.m ≡ g.m
  pub same_m_max0 : g'.m_max0 ≡ g.m_max0
  pub same_ef : g'.ef_construction ≡ g.ef_construction
  pub same_ef_search : g'.ef_search ≡ g.ef_search
  pub same_entry : g'.entry_point ≡ g.entry_point
  pub same_max_layer : g'.max_layer ≡ g.max_layer
  pub keeps :
      (x : String) (n : Node F)
      → lookup x g.nodes ≡ some n
      → (n' : Node F) × (lookup x g'.nodes ≡ some n')
        × (n'.id ≡ n.id)
        × (n'.vector ≡ n.vector)
        × (n'.max_layer ≡ n.max_layer)
  pub once : KeysOnce g.nodes → KeysOnce g'.nodes
  pub adds_none : (x : String) → lookup x g.nodes ≡ none → lookup x g'.nodes ≡ none

pub Grows-refl : {F : Type 0} (g : HnswGraph F) → Grows g g
Grows-refl g = record {
  same_m = refl;
  same_m_max0 = refl;
  same_ef = refl;
  same_ef_search = refl;
  same_entry = refl;
  same_max_layer = refl;
  keeps = λ x n h. (n, h, refl, refl, refl);
  once = λ k. k;
  adds_none = λ x h. h;
}

pub Grows-trans : {F : Type 0} (g g' g'' : HnswGraph F) → Grows g g' → Grows g' g'' → Grows g g''
Grows-trans g g' g'' a b = record {
  same_m = b.same_m ∙ a.same_m;
  same_m_max0 = b.same_m_max0 ∙ a.same_m_max0;
  same_ef = b.same_ef ∙ a.same_ef;
  same_ef_search = b.same_ef_search ∙ a.same_ef_search;
  same_entry = b.same_entry ∙ a.same_entry;
  same_max_layer = b.same_max_layer ∙ a.same_max_layer;
  keeps = λ x n h.
      let (n', h', i, v, l) = a.keeps x n h in
      let (n'', h'', i', v', l') = b.keeps x n' h' in (n'', h'', i' ∙ i, v' ∙ v, l' ∙ l);
  once = λ k. b.once (a.once k);
  adds_none = λ x h. b.adds_none x (a.adds_none x h);
}

-- A stored node gets other links.
pub Grows-put_node :
    {F : Type 0} (g : HnswGraph F) (id : String) (n : Node F) (links : List (List String))
    → lookup id g.nodes ≡ some n
    → Grows g (put_node g id (record n { neighbors = links }))
Grows-put_node {F} g id n links there =
    let n' : Node F = record n { neighbors = links } in
    record {
      same_m = refl;
      same_m_max0 = refl;
      same_ef = refl;
      same_ef_search = refl;
      same_entry = refl;
      same_max_layer = refl;
      keeps = λ x k h. elim (Bool-cases (str_eq id x)) [
        | inr other ↦ (k, rw (lookup-insert id x n' g.nodes, other) h, refl, refl, refl)
        | inl same ↦
            let is : id ≡ x = (eq_iff id x).0 same in
            let k_is : n ≡ k = some-injective n k (sym there ∙ (rw is h)) in
            (
              n',
              rw (lookup-insert id x n' g.nodes, same) refl,
              ap (λ (m : Node F). m.id) k_is,
              ap (λ (m : Node F). m.vector) k_is,
              ap (λ (m : Node F). m.max_layer) k_is,
            )
      ];
      once = insert-KeysOnce id n' g.nodes;
      adds_none = λ x h. elim (Bool-cases (str_eq id x)) [
        | inr other ↦ rw (lookup-insert id x n' g.nodes, other) h
        | inl same ↦ let gone : lookup id g.nodes ≡ none = rw ((eq_iff id x).0 same) h in cc
      ];
    }

module _ {F S : Type 0} (similarity : List F → List F → S)
    (sort_descending : List (Candidate S) → List (Candidate S)) where
  -- Phase B changes the links only.
  abbrev pub OnlyLinks : Node F → Node F → Type 0
  OnlyLinks n n' = (links : List (List String)) × (n' ≡ record n { neighbors = links })

  pub wire_back-OnlyLinks :
      (n : Node F) (new_id : String) (lc max_links : ℕ) (cs : List (Candidate S))
      → Ensures (OnlyLinks n) (wire_back similarity sort_descending n new_id lc max_links cs)
  unfolding wire_back
  wire_back-OnlyLinks n new_id lc max_links cs =
      Ensures-bind (load n.neighbors (pos lc)) λ links found.
        Ensures-bind (store n.neighbors (pos lc) _) λ layers stored. returned (layers, refl)

  pub relinked :
      (g : HnswGraph F) (id : String) (n n' : Node F)
      → lookup id g.nodes ≡ some n
      → OnlyLinks n n'
      → Grows g (put_node g id n')
  relinked g id n n' there (links, is) = rw is (Grows-put_node g id n links there)

  pub add_back_connection-Grows :
      (g g' : HnswGraph F) (nbr_id new_id : String) (new_vec : List F) (lc : ℕ)
      → add_back_connection similarity sort_descending g nbr_id new_id new_vec lc ≡ ok g'
      → Grows g g'
  unfolding add_back_connection
  add_back_connection-Grows g g' nbr_id new_id new_vec lc ran =
      Ensures-run {P = Grows g}
        (elim (Option-cases (lookup nbr_id g.nodes)) [
          | inl gone ↦ rw (add_back_connection, gone) (returned (Grows-refl g))
          | inr (nbr, there) ↦
              rw (add_back_connection, there)
                (Ensures-if (ltb nbr.max_layer lc) (λ high. returned (Grows-refl g))
                  (λ low.
                    Ensures-bind (collect_links similarity sort_descending g nbr new_id new_vec lc)
                      λ all scored.
                        Ensures-bind
                          (wire_back similarity sort_descending nbr new_id lc
                            (max_links_at_layer g lc) all)
                          λ nbr' wired. returned {a = put_node g nbr_id nbr'} (
                            relinked g nbr_id nbr nbr' there (
                              Ensures-run
                                (wire_back-OnlyLinks nbr new_id lc (max_links_at_layer g lc) all)
                                wired))))
        ])
        ran
