-- ===== src/Index/Concurrent/Running.antt =====
-- What holds while Inserts run at once, and what Phases 1 and 4 do to the graph.
use Prim.Native.String.{String}
use text.Mathlib.Text.{◌==◌ as str_eq}
use text.Mathlib.TextEquality.{eq_iff}
use vector_store.Prelude.{
  ℕ, ◌<◌, ◌≡◌, refl, sym, ◌∙◌, ◌⊎◌, inl, inr, false, arith, List, ◌&&◌, none, some, Bool-cases,
  Option-cases, ltb, leb, length, lookup, some-injective, if◌then◌else◌, insert-KeysOnce,
}
use vector_store.Index.{Node, HnswGraph, put_node, new_node}
use vector_store.Index.WellLinked.{Stores, WellLinked}
use vector_store.Index.Insert.{register_node}
use vector_store.Index.Insert.Grows.{Grows}
use vector_store.Index.Insert.Keeping.{IsIndex, WellLinked-same}
use vector_store.Index.Insert.Phases.{
  lookup-empty, lookup-old, put_node-Stores, put_node-WellLinked, put_node_under,
}
use vector_store.Index.Concurrent.{Inserting, promote, Busy}
use vector_store.Index.Concurrent.Ready.{Extends, HasNode, IsReady}

pub Grows-IsIndex :
    {F : Type 0} (g g' : HnswGraph F) (x : String) (n : Node F)
    → lookup x g.nodes ≡ some n
    → Grows g g'
    → WellLinked g'
    → IsIndex g
    → IsIndex g'
Grows-IsIndex g g' x n there w linked i = record {
  linked = linked;
  once = w.once i.once;
  some_ef = omega (arith, w.same_ef, i.some_ef);
  some_ef_search = omega (arith, w.same_ef_search, i.some_ef_search);
  under_top = λ y m h. elim (Option-cases (lookup y g.nodes)) [
    | inl gone ↦ let still = w.adds_none y gone in cc
    | inr (k, was) ↦
        let (k', is, _, _, same) = w.keeps y k was in
        let m_is : k' ≡ m = some-injective k' m (sym is ∙ h) in
        rw (← m_is) (omega (arith, i.under_top y k was, same, w.same_max_layer))
  ];
  entry = elim i.entry [
    | inl (empty, _) ↦ let gone = lookup-empty x g.nodes empty in cc
    | inr (named, (e, at)) ↦
        let (e', at', _, _, _) = w.keeps g.entry_point e at in
        inr (rw w.same_entry (named, (e', at')))
  ];
}

pub promote-IsIndex :
    {F S : Type 0} (g : HnswGraph F) (t : Inserting F S)
    → HasNode g t
    → IsIndex g
    → IsIndex (promote g t)
unfolding promote
promote-IsIndex g t has i =
    elim (Bool-cases (ltb t.cur_max_layer t.level && leb g.max_layer t.level)) [
      | inl rises ↦ rw rises (record {
        linked = WellLinked-same g _ refl refl refl i.linked;
        once = i.once;
        some_ef = i.some_ef;
        some_ef_search = i.some_ef_search;
        under_top = i.under_top;
        entry = inr (has.named, (has.node, has.there));
      })
      | inr stays ↦ rw stays i
    ]

pub promote-Extends : {F S : Type 0} (g : HnswGraph F) (t : Inserting F S) → Extends g (promote g t)
unfolding promote
promote-Extends g t = elim (Bool-cases (ltb t.cur_max_layer t.level && leb g.max_layer t.level)) [
  | inl rises ↦
      rw rises (record { same_m = refl; same_m_max0 = refl; keeps = λ x n h. (n, h, refl, refl) })
  | inr stays ↦
      rw stays (record { same_m = refl; same_m_max0 = refl; keeps = λ x n h. (n, h, refl, refl) })
]

-- The entry point is a node of the top layer.
abbrev pub AtTop : {F : Type 0} → HnswGraph F → Type 0
AtTop {F} g = (n : Node F) × (lookup g.entry_point g.nodes ≡ some n) × (n.max_layer ≡ g.max_layer)

-- An Insert that has raised the top layer has not returned.
abbrev pub IsRaising : {F S : Type 0} → Busy F S → Type 0
IsRaising {F} {S} s =
    (k : ℕ) × (t : Inserting F S) × (s.running k ≡ some t)
    × (t.level ≡ s.graph.max_layer)
    × (t.cur_max_layer < t.level)

pub record Sound {F S : Type 0} (s : Busy F S) : Type 0 where
  pub index : IsIndex s.graph
  pub ready : (k : ℕ) (t : Inserting F S) → s.running k ≡ some t → IsReady s.graph t
  pub top : (length s.graph.nodes ≡ 0) ⊎ (AtTop s.graph ⊎ IsRaising s)

module _ {F : Type 0} (g : HnswGraph F) (id : String) (vector : List F) (level : ℕ)
    (fresh : lookup id g.nodes ≡ none) where
  pub fresh_other : (x : String) (n : Node F) → lookup x g.nodes ≡ some n → str_eq id x ≡ false
  fresh_other x n h = elim (Bool-cases (str_eq id x)) [
    | inr other ↦ other
    | inl same ↦
        let is : id ≡ x = (eq_iff id x).0 same in
        let gone : lookup x g.nodes ≡ none = rw (← is) fresh in cc
  ]

  pub register_node-Extends : Extends g (register_node g id vector level)
  register_node-Extends = record {
    same_m = refl;
    same_m_max0 = refl;
    keeps = λ x n h. (n, lookup-old g id vector level x (fresh_other x n h) ∙ h, refl, refl);
  }

  pub register_node-IsIndex :
      str_eq g.entry_point "" ≡ false
      → Stores g g.entry_point
      → IsIndex g
      → IsIndex (register_node g id vector level)
  register_node-IsIndex named stored i = record {
    linked =
        WellLinked-same (put_node g id (new_node id vector level)) _ refl refl refl
          (put_node-WellLinked g id vector level i.linked);
    once = insert-KeysOnce id (new_node id vector level) g.nodes i.once;
    some_ef = i.some_ef;
    some_ef_search = i.some_ef_search;
    under_top =
        put_node_under g id vector level (if ltb g.max_layer level then level else g.max_layer)
          (ground arith) (λ y m l. ground (arith, i.under_top y m l));
    entry = inr (named, put_node-Stores g id vector level g.entry_point stored);
  }
