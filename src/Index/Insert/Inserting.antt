-- ===== src/Index/Insert/Inserting.antt =====
-- Insert runs to its end, keeps the invariant of the graph, and adds the one node.
use Prim.Native.String.{String}
use Prim.Native.Nat.{min}
use text.Mathlib.Text.{◌==◌ as str_eq}
use vector_store.Prelude.{
  ℕ, suc, ◌≡◌, refl, inl, inr, arith, Bool, false, Bool-cases, List, length, ok, ◌==◌,
}
use vector_store.Index.{Candidate, HnswGraph, put_node, new_node}
use vector_store.Index.Links.{OnlySorts}
use vector_store.Index.WellLinked.{Stores}
use vector_store.Index.Search.{descend}
use vector_store.Index.Search.Invariant.{Ranked}
use vector_store.Index.Search.Answer.{descend-IsBelow}
use vector_store.Index.Insert.{register_node, insert, connect_layers}
use vector_store.Index.Insert.Layers.{connect_layers-Connected}
use vector_store.Index.Insert.Keeping.{IsIndex, Inserted, WellLinked-same}
use vector_store.Index.Insert.Phases.{
  lookup-new, put_node-Stores, put_node-WellLinked, alone-IsIndex, alone-Inserted, promoted,
  promoted-IsIndex, promoted-Inserted,
}

module _ {F S : Type 0} (similarity : List F → List F → S) (below : S → S → Bool)
    (ranks : Ranked below) (sort_descending : List (Candidate S) → List (Candidate S))
    (sorts : OnlySorts sort_descending) where
  insert_runs :
      (g g' : HnswGraph F) (id : String) (vector : List F) (level : ℕ) (ep : String)
      → (length g.nodes == 0) ≡ false
      → descend similarity below
          (register_node g id vector level)
          vector
          level
          g.max_layer
          g.entry_point
        ≡ ok ep
      → connect_layers similarity below sort_descending id vector
          (suc (min level g.max_layer))
          (register_node g id vector level)
          ep
        ≡ ok g'
      → insert similarity below sort_descending id vector g level
        ≡ ok (promoted g id vector level g')
  unfolding insert
  insert_runs g g' id vector level ep some_nodes went ran = rw (some_nodes, went, ran) refl

  joins :
      (g : HnswGraph F) (id : String) (vector : List F) (level : ℕ)
      → IsIndex g
      → str_eq id "" ≡ false
      → (length g.nodes == 0) ≡ false
      → str_eq g.entry_point "" ≡ false
      → Stores g g.entry_point
      → (g' : HnswGraph F) × (insert similarity below sort_descending id vector g level ≡ ok g')
        × IsIndex g'
        × Inserted g id vector level g'
  unfolding new_node
  joins g id vector level i named some_nodes was_named stored =
      let h = register_node g id vector level in
      let new = lookup-new g id vector level in
      let linked =
        WellLinked-same (put_node g id (new_node id vector level)) h refl refl refl
          (put_node-WellLinked g id vector level i.linked) in
      let (e, entry) = put_node-Stores g id vector level g.entry_point stored in
      let (ep, went, b) =
        descend-IsBelow similarity below ranks h vector level g.max_layer g.entry_point e entry in
      let c =
        connect_layers-Connected similarity below ranks sort_descending sorts id vector
          (suc (min level g.max_layer)) h ep (new_node id vector level) linked i.some_ef new
          (omega arith) (b.node, b.stored) in
      (
        promoted g id vector level c.graph,
        insert_runs g c.graph id vector level ep some_nodes went c.ran,
        promoted-IsIndex g id vector level c.graph c.grows c.linked named was_named stored i,
        promoted-Inserted g id vector level c.graph c.grows c.linked some_nodes,
      )

  -- Where scores compare like numbers, and the sort of links names no one else, Insert under a name
  -- that is not empty succeeds on a graph that keeps the invariant, empty or
  -- not, and whether or not the name is there: the graph after it keeps the invariant, has the new
  -- node under the name with its vector and level, has no other new node, and the other nodes have
  -- the vectors and layers that they had. The entry point is the new node where the graph was
  -- empty or the level is above its top layer, and the old one otherwise.
  pub insert-IsIndex :
      (g : HnswGraph F) (id : String) (vector : List F) (level : ℕ)
      → IsIndex g
      → str_eq id "" ≡ false
      → (g' : HnswGraph F) × (insert similarity below sort_descending id vector g level ≡ ok g')
        × IsIndex g'
        × Inserted g id vector level g'
  unfolding insert
  insert-IsIndex g id vector level i named = elim (Bool-cases (length g.nodes == 0)) [
    | inl none_yet ↦ (
      _,
      rw none_yet refl,
      alone-IsIndex g id vector level (ground arith) named i,
      alone-Inserted g id vector level (ground arith),
    )
    | inr some_nodes ↦ elim i.entry [
      | inl none_yet ↦ absurd (ground (arith, none_yet.0))
      | inr (was_named, stored) ↦ joins g id vector level i named some_nodes was_named stored
    ]
  ]
