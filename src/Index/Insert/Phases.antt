-- ===== src/Index/Insert/Phases.antt =====
-- Insert's Phases 1 and 4: the graph with the new node, and its entry point.
use Prim.Native.String.{String}
use text.Mathlib.Text.{◌==◌ as str_eq}
use vector_store.Prelude.{
  insert-KeysOnce, ℕ, ◌≤◌, ◌≡◌, refl, sym, ◌∙◌, inl, inr, arith, false, Bool-cases, Option-cases,
  ◌&&◌, List, [], ◌∷◌, length, some, none, some-injective, lookup, lookup-insert, leb, ltb,
  if◌then◌else◌, ◌==◌, str_eq_self,
}
use vector_store.Index.{Node, HnswGraph, put_node, new_node}
use vector_store.Index.WellLinked.{Stores, WellLinked, WellLinked-put_node}
use vector_store.Index.Insert.{register_node}
use vector_store.Index.Insert.Grows.{Grows}
use vector_store.Index.Insert.Keeping.{IsIndex, Inserted, WellLinked-same, new_node-IsLinked}

pub lookup-empty :
    {V : Type 0} (x : String) (m : List (String × V)) → length m ≡ 0 → lookup x m ≡ none
unfolding lookup
lookup-empty x [] h = refl
lookup-empty x (e ∷ m) h = absurd (omega arith)

module _ {F : Type 0} (g : HnswGraph F) (id : String) (vector : List F) (level : ℕ) where
  abbrev pub new : Node F
  new = new_node id vector level

  pub lookup-new : lookup id (put_node g id new).nodes ≡ some new
  lookup-new = rw (lookup-insert id id new g.nodes, str_eq_self id) refl

  pub lookup-old :
      (x : String) → str_eq id x ≡ false → lookup x (put_node g id new).nodes ≡ lookup x g.nodes
  lookup-old x other = rw (lookup-insert id x new g.nodes, other) refl

  pub put_node-Stores : (x : String) → Stores g x → Stores (put_node g id new) x
  put_node-Stores x (n, h) = elim (Bool-cases (str_eq id x)) [
    | inl same ↦ (new, rw (lookup-insert id x new g.nodes, same) refl)
    | inr other ↦ (n, lookup-old x other ∙ h)
  ]

  pub put_node-WellLinked : WellLinked g → WellLinked (put_node g id new)
  put_node-WellLinked w = WellLinked-put_node g id new w (new_node-IsLinked g id vector level)

  -- No node is above a top that the level and the graph before are under.
  pub put_node_under :
      (top : ℕ)
      → level ≤ top
      → ((x : String) (n : Node F) → lookup x g.nodes ≡ some n → n.max_layer ≤ top)
      → (x : String) (n : Node F) → lookup x (put_node g id new).nodes ≡ some n
      → n.max_layer ≤ top
  unfolding new_node
  put_node_under top high old x n h = elim (Bool-cases (str_eq id x)) [
    | inr other ↦ old x n (sym (lookup-old x other) ∙ h)
    | inl same ↦
        let is_new : some new ≡ some n = sym (rw (lookup-insert id x new g.nodes, same) refl) ∙ h in
        rw (← some-injective new n is_new) high
  ]

  -- The first insertion.
  pub alone-IsIndex :
      length g.nodes ≡ 0
      → str_eq id "" ≡ false
      → IsIndex g
      → IsIndex (record (put_node g id new) { entry_point = id; max_layer = level })
  alone-IsIndex size named i = record {
    linked = WellLinked-same (put_node g id new) _ refl refl refl (put_node-WellLinked i.linked);
    once = insert-KeysOnce id new g.nodes i.once;
    some_ef = i.some_ef;
    some_ef_search = i.some_ef_search;
    under_top =
        put_node_under level (omega arith) (λ x n h. let gone = lookup-empty x g.nodes size in cc);
    entry = inr (named, (new, lookup-new));
  }

  pub alone-Inserted :
      length g.nodes ≡ 0
      → Inserted g id vector level
          (record (put_node g id new) { entry_point = id; max_layer = level })
  unfolding new_node
  alone-Inserted size = record {
    added = (new, lookup-new, refl, refl, refl);
    keeps = λ x n other h. (n, lookup-old x other ∙ h, refl, refl, refl);
    adds_none_else = λ x other h. lookup-old x other ∙ h;
    enters_at = ground arith;
  }

  -- Phase 4, on a graph that grew from the one of Phase 1.
  abbrev pub promoted : HnswGraph F → HnswGraph F
  promoted g' =
      if ltb g.max_layer level && leb g'.max_layer level then record g' { entry_point = id } else g'

  module _ (g' : HnswGraph F) (grows : Grows (register_node g id vector level) g')
      (linked : WellLinked g') where
    id_stored :
        (n : Node F) × (lookup id g'.nodes ≡ some n)
        × (n.id ≡ id)
        × (n.vector ≡ vector)
        × (n.max_layer ≡ level)
    unfolding new_node
    id_stored = grows.keeps id new lookup-new

    under :
        IsIndex g
        → (x : String) (n : Node F) → lookup x g'.nodes ≡ some n
        → n.max_layer ≤ g'.max_layer
    under i x n h = elim (Option-cases (lookup x (register_node g id vector level).nodes)) [
      | inl gone ↦ let still = grows.adds_none x gone in cc
      | inr (k, there) ↦
          let (n', there', _, _, same) = grows.keeps x k there in
          let is : n' ≡ n = some-injective n' n (sym there' ∙ h) in
          let low =
            put_node_under (if ltb g.max_layer level then level else g.max_layer) (ground arith)
              (λ y m l. ground (arith, i.under_top y m l)) x k there in
          rw (← is) (omega (arith, low, same, grows.same_max_layer))
    ]

    pub promoted-IsIndex :
        str_eq id "" ≡ false
        → (str_eq g.entry_point "" ≡ false)
        → Stores g g.entry_point
        → IsIndex g
        → IsIndex (promoted g')
    promoted-IsIndex named was_named stored i =
        elim (Bool-cases (ltb g.max_layer level && leb g'.max_layer level)) [
          | inl rises ↦ rw rises (record {
            linked = WellLinked-same g' _ refl refl refl linked;
            once = grows.once (insert-KeysOnce id new g.nodes i.once);
            some_ef = omega (arith, grows.same_ef, i.some_ef);
            some_ef_search = omega (arith, grows.same_ef_search, i.some_ef_search);
            under_top = under i;
            entry = inr (named, (id_stored.0, id_stored.1));
          })
          | inr stays ↦ rw stays (record {
            linked = linked;
            once = grows.once (insert-KeysOnce id new g.nodes i.once);
            some_ef = omega (arith, grows.same_ef, i.some_ef);
            some_ef_search = omega (arith, grows.same_ef_search, i.some_ef_search);
            under_top = under i;
            entry =
                let (k, there) = put_node-Stores g.entry_point stored in
                let (n', there', _, _, _) = grows.keeps g.entry_point k there in
                inr (rw grows.same_entry (was_named, (n', there')));
          })
        ]

    pub promoted-Inserted : (length g.nodes == 0) ≡ false → Inserted g id vector level (promoted g')
    promoted-Inserted some_nodes =
        elim (Bool-cases (ltb g.max_layer level && leb g'.max_layer level)) [
          | inl rises ↦ rw rises (record {
            added = id_stored;
            keeps = λ x n other h. grows.keeps x n (lookup-old x other ∙ h);
            adds_none_else = λ x other h. grows.adds_none x (lookup-old x other ∙ h);
            enters_at = ground arith;
          })
          | inr stays ↦ rw stays (record {
            added = id_stored;
            keeps = λ x n other h. grows.keeps x n (lookup-old x other ∙ h);
            adds_none_else = λ x other h. grows.adds_none x (lookup-old x other ∙ h);
            enters_at =
                let stays_low : ltb g.max_layer level ≡ false =
                  ground (arith, grows.same_max_layer) in
                rw (some_nodes, stays_low) grows.same_entry;
          })
        ]
