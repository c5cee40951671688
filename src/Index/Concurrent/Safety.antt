-- ===== src/Index/Concurrent/Safety.antt =====
-- Any number of Inserts at once, in any order of their critical sections.
use Prim.Native.String.{String}
use vector_store.Prelude.{
  ℕ, ◌≡◌, refl, sym, ap, ◌∙◌, ◌⊎◌, inl, inr, arith, List, Option, none, some, Bool-cases, ◌==◌,
  length, ok, lookup, ok-injective,
}
use vector_store.Index.{Candidate, Node, HnswGraph, new_node}
use vector_store.Index.Links.{OnlySorts}
use vector_store.Index.Insert.Keeping.{IsIndex}
use vector_store.Index.Insert.Phases.{lookup-empty, lookup-new}
use vector_store.Index.Concurrent.{
  Inserting, enter, advance, Busy, Known, Step, begins, goes_on, Steps, here, next, NewName,
  NewNames,
}
use vector_store.Index.Concurrent.Ready.{Extends, Extends-trans, Grows-Extends}
use vector_store.Index.Concurrent.Going.{advance_at-Goes}
use vector_store.Index.Concurrent.Running.{promote-Extends, AtTop, Sound, register_node-Extends}
use vector_store.Index.Concurrent.Interleaved.{begins-Sound, goes_on-Sound, returns-Sound}

-- The node of an Insert is stored, with its vector and at its level.
abbrev pub Holds : {F : Type 0} → HnswGraph F → String → List F → ℕ → Type 0
Holds {F} g id vector level =
    (n : Node F) × (lookup id g.nodes ≡ some n) × (n.vector ≡ vector) × (n.max_layer ≡ level)

enter-Extends :
    {F : Type 0} (S : Type 0) (g : HnswGraph F) (id : String) (vector : List F) (level : ℕ)
    → lookup id g.nodes ≡ none
    → Extends g (enter {S = S} g id vector level).0
unfolding enter
enter-Extends S g id vector level fresh = elim (Bool-cases (length g.nodes == 0)) [
  | inl empty ↦ rw empty (record {
    same_m = refl;
    same_m_max0 = refl;
    keeps = λ x n h. let gone = lookup-empty x g.nodes (ground arith) in cc;
  })
  | inr some_nodes ↦ rw some_nodes (register_node-Extends g id vector level fresh)
]

enter-Holds :
    {F : Type 0} (S : Type 0) (g : HnswGraph F) (id : String) (vector : List F) (level : ℕ)
    → Holds (enter {S = S} g id vector level).0 id vector level
unfolding enter new_node
enter-Holds S g id vector level = elim (Bool-cases (length g.nodes == 0)) [
  | inl empty ↦ rw empty (new_node id vector level, lookup-new g id vector level, refl, refl)
  | inr some_nodes ↦
      rw some_nodes (new_node id vector level, lookup-new g id vector level, refl, refl)
]

module _ {F S : Type 0} (similarity : List F → List F → S)
    (sort_descending : List (Candidate S) → List (Candidate S)) where
  -- The vector of every Insert that began in the steps is in the graph.
  abbrev pub Begun : HnswGraph F → (s s' : Busy F S) → Step similarity sort_descending s s' → Type 0
  Begun g s s' (begins k id vector level _ _) = Holds g id vector level
  Begun g s s' _ = Unit {0}

  abbrev pub AllBegun :
      HnswGraph F → (s s' : Busy F S) → Steps similarity sort_descending s s' → Type 0
  AllBegun g s s' here = Unit {0}
  AllBegun g s s' (next {a} {b} steps step) = AllBegun g s a steps × Begun g a b step

  -- What the steps lead to: the graph keeps its invariant, its nodes with their vectors and layers,
  -- and the vector of every Insert that began; each Insert that runs can take its next step,
  -- whatever a search finds; and where none runs, the entry point is a node of the top layer.
  pub record Consistent (s s' : Busy F S) (steps : Steps similarity sort_descending s s')
      : Type 0 where
    pub index : IsIndex s'.graph
    pub keeps :
        (x : String) (n : Node F)
        → lookup x s.graph.nodes ≡ some n
        → Holds s'.graph x n.vector n.max_layer
    pub holds : AllBegun s'.graph s s' steps
    pub can_go :
        (k : ℕ) (t : Inserting F S) (found : List (Candidate S))
        → s'.running k ≡ some t
        → Known s'.graph found
        → (r : HnswGraph F × Option (Inserting F S)) × (advance similarity sort_descending s'.graph
              t found
            ≡ ok r)
    pub quiet : ((k : ℕ) → s'.running k ≡ none) → (length s'.graph.nodes ≡ 0) ⊎ AtTop s'.graph

module _ {F S : Type 0} (similarity : List F → List F → S)
    (sort_descending : List (Candidate S) → List (Candidate S))
    (sorts : OnlySorts sort_descending) where
  Step-Sound :
      (s s' : Busy F S) (step : Step similarity sort_descending s s')
      → NewName similarity sort_descending s s' step
      → Sound s
      → Sound s' × Extends s.graph s'.graph
  Step-Sound s s' (begins k id vector level empty is) (fresh, named) sound = rw is (
    begins-Sound s k id vector level empty fresh named sound,
    enter-Extends S s.graph id vector level fresh,
  )
  Step-Sound s s' (goes_on k t found g' t' at known ran is) _ sound =
      let r = sound.ready k t at in
      rw is
        (elim (advance_at-Goes similarity sort_descending sorts s.graph t t.stage found
          sound.index.linked r.has r.placed known) [
            | inl c ↦
                let same = ok-injective _ _ (sym ran ∙ c.ran) in
                rw (ap (λ p. p.0) same, ap (λ p. p.1) same)
                  (
                    goes_on-Sound s k t at sound c.graph c.stage c.linked c.grows c.placed,
                    Grows-Extends s.graph c.graph c.grows,
                  )
            | inr (_, returns) ↦
                let same = ok-injective _ _ (sym ran ∙ returns) in
                rw (ap (λ p. p.0) same, ap (λ p. p.1) same)
                  (returns-Sound s k t at sound, promote-Extends s.graph t)
          ])

  Begun-Extends :
      (g g' : HnswGraph F) (s s' : Busy F S) (step : Step similarity sort_descending s s')
      → Extends g g'
      → Begun similarity sort_descending g s s' step
      → Begun similarity sort_descending g' s s' step
  Begun-Extends g g' s s' (begins k id vector level _ _) w (n, at, v, l) =
      let (n', at', v', l') = w.keeps id n at in (n', at', v' ∙ v, l' ∙ l)
  Begun-Extends g g' s s' (goes_on k t found g'' t' at known ran is) w h = tt

  AllBegun-Extends :
      (g g' : HnswGraph F) (s s' : Busy F S) (steps : Steps similarity sort_descending s s')
      → Extends g g'
      → AllBegun similarity sort_descending g s s' steps
      → AllBegun similarity sort_descending g' s s' steps
  AllBegun-Extends g g' s s' here w h = tt
  AllBegun-Extends g g' s s' (next {a} {b} steps step) w h =
      (AllBegun-Extends g g' s a steps w h.0, Begun-Extends g g' a s' step w h.1)

  Step-Begun :
      (s s' : Busy F S) (step : Step similarity sort_descending s s')
      → Begun similarity sort_descending s'.graph s s' step
  Step-Begun s s' (begins k id vector level empty is) =
      rw is (enter-Holds S s.graph id vector level)
  Step-Begun s s' (goes_on k t found g' t' at known ran is) = tt

  -- What the steps keep, with the graph that they start from.
  record Kept (s s' : Busy F S) (steps : Steps similarity sort_descending s s') : Type 0 where
    sound : Sound s'
    extends : Extends s.graph s'.graph
    begun : AllBegun similarity sort_descending s'.graph s s' steps

  Steps-Kept :
      (s s' : Busy F S) (steps : Steps similarity sort_descending s s')
      → NewNames similarity sort_descending s s' steps
      → Sound s
      → Kept s s' steps
  Steps-Kept s s' here named sound = record {
    sound = sound;
    extends = record { same_m = refl; same_m_max0 = refl; keeps = λ x n h. (n, h, refl, refl) };
    begun = tt;
  }
  Steps-Kept s s' (next {a} {b} steps step) named sound =
      let before = Steps-Kept s a steps named.0 sound in
      let (sound', w) = Step-Sound a s' step named.1 before.sound in
      record {
        sound = sound';
        extends = Extends-trans s.graph a.graph s'.graph before.extends w;
        begun = (AllBegun-Extends a.graph s'.graph s a steps w before.begun, Step-Begun a s' step);
      }

  goes :
      (s : Busy F S) (k : ℕ) (t : Inserting F S) (found : List (Candidate S))
      → Sound s
      → s.running k ≡ some t
      → Known s.graph found
      → (r : HnswGraph F × Option (Inserting F S)) × (advance similarity sort_descending s.graph t
            found
          ≡ ok r)
  goes s k t found sound at known =
      let r = sound.ready k t at in
      elim (advance_at-Goes similarity sort_descending sorts s.graph t t.stage found
        sound.index.linked r.has r.placed known) [
          | inl c ↦ (_, c.ran)
          | inr (_, returns) ↦ (_, returns)
        ]

  -- Where the sort of links names no one else: from a graph that keeps its invariant, with an entry
  -- point of its top layer unless it is empty, any number of Inserts under new names that are not
  -- empty may run at once, and their critical sections may follow each other in any order. At every
  -- moment the graph keeps its invariant, all its nodes with their vectors and layers, and the
  -- vector of every Insert that began, at its level; each Insert that runs can take its next step
  -- without a panic, whatever stored nodes a search finds; and whenever none runs, the entry point
  -- is again a node of the top layer.
  pub inserts-Consistent :
      (s s' : Busy F S) (steps : Steps similarity sort_descending s s')
      → NewNames similarity sort_descending s s' steps
      → IsIndex s.graph
      → ((k : ℕ) → s.running k ≡ none)
      → (length s.graph.nodes ≡ 0) ⊎ AtTop s.graph
      → Consistent similarity sort_descending s s' steps
  inserts-Consistent s s' steps named index idle top =
      let all = Steps-Kept s s' steps named (record {
        index = index;
        ready = λ k t h. let none_runs = idle k in cc;
        top = elim top [ inl empty ↦ inl empty | inr at_top ↦ inr (inl at_top) ];
      }) in
      record {
        index = all.sound.index;
        keeps = all.extends.keeps;
        holds = all.begun;
        can_go = λ k t found at known. goes s' k t found all.sound at known;
        quiet = λ returned. elim all.sound.top [
          | inl empty ↦ inl empty
          | inr (inl at_top) ↦ inr at_top
          | inr (inr (k, t, runs, _, _)) ↦ let none_runs = returned k in cc
        ];
      }
