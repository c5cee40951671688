-- ===== src/Index/Concurrent.antt =====
-- Inserts of internal/vectorindex/hnsw.go that run at once. Each step is one critical section of one
-- Insert, between its locks; the steps of different Inserts follow each other in any order. Phase 2
-- only chooses where searchLayer starts, and links are written while searchLayer runs, so a search
-- of Phase 3 finds any candidates that are there.
pub mod Ready
pub mod Going
pub mod Running
pub mod Interleaved
pub mod Safety
mod Examples
use Prim.Native.String.{String}
use Prim.Native.Nat.{min}
use text.Mathlib.Text.{◌==◌ as str_eq}
use vector_store.Prelude.{
  ℕ, zero, suc, ◌≡◌, false, ◌&&◌, List, [], ◌∷◌, Option, none, some, ◌==◌, if◌then◌else◌, leb, ltb,
  length, Run, ok, ◌>>=◌, lookup, update,
}
use vector_store.Index.{
  Candidate, Node, HnswGraph, put_node, new_node, max_links_at_layer, select_neighbors,
  collect_links, wire_back,
}
use vector_store.Index.Links.{Names, ids}
use vector_store.Index.WellLinked.{Stores}
use vector_store.Index.Insert.{register_node, set_links}

-- Where an Insert is in Phase 3: before the search of the layer below, with that many layers left;
-- before it writes its own links of a layer; with these neighbours of the layer left to link back;
-- and between the phases of addBackConnection for the neighbour of that name. With no layer left,
-- Phase 4 is next.
pub data Stage (S : Type 0) : Type 0 where
  connecting : ℕ → Stage S
  linking wiring : ℕ → List (Candidate S) → Stage S
  scored : ℕ → String → List (Candidate S) → List (Candidate S) → Stage S

-- The local variables of an Insert after Phase 1.
pub record Inserting (F S : Type 0) : Type 0 where
  pub id : String
  pub vector : List F
  pub level : ℕ
  pub cur_max_layer : ℕ
  pub stage : Stage S

abbrev pub at_stage : {F S : Type 0} → Inserting F S → Stage S → Option (Inserting F S)
at_stage t stage = some (record t { stage = stage })

module _ {F S : Type 0} where
  -- What Phase 1 leaves to an Insert that is not the first.
  abbrev pub joining : HnswGraph F → String → List F → ℕ → Inserting F S
  joining g id vector level = record {
    id = id;
    vector = vector;
    level = level;
    cur_max_layer = g.max_layer;
    stage = connecting (suc (min level g.max_layer));
  }

  -- Phase 1. A first insertion is done.
  unfoldable pub enter : HnswGraph F → String → List F → ℕ → HnswGraph F × Option (Inserting F S)
  enter g id vector level =
      let alone = record (put_node g id (new_node id vector level)) {
        entry_point = id;
        max_layer = level;
      } in
      if length g.nodes == 0
      then (alone, none)
      else (register_node g id vector level, some (joining g id vector level))

  -- Phase 4.
  unfoldable pub promote : HnswGraph F → Inserting F S → HnswGraph F
  promote g t =
      if ltb t.cur_max_layer t.level && leb g.max_layer t.level
      then record g { entry_point = t.id }
      else g

  -- The neighbours chosen from what the search of a layer found.
  unfoldable pub choose : HnswGraph F → ℕ → List (Candidate S) → Stage S
  choose g lc [] = connecting lc
  choose g lc (c ∷ cs) = linking lc (select_neighbors (c ∷ cs) (max_links_at_layer g lc))

module _ {F S : Type 0} (similarity : List F → List F → S)
    (sort_descending : List (Candidate S) → List (Candidate S)) where
  -- Phase A of addBackConnection for the next neighbour.
  unfoldable pub score_next :
      HnswGraph F → Inserting F S → ℕ → Candidate S → List (Candidate S) → Run (Stage S)
  score_next g t lc c cs =
      let read : Node F → Run (Stage S) = λ nbr.
        collect_links similarity sort_descending g nbr t.id t.vector lc >>= λ all.
        ok (scored lc c.id all cs) in
      elim (lookup c.id g.nodes) [
        | none ↦ ok (wiring lc cs)
        | some nbr ↦ if ltb nbr.max_layer lc then ok (wiring lc cs) else read nbr
      ]

  -- Phase B, on the neighbour as it is by then.
  unfoldable pub write_back :
      HnswGraph F → Inserting F S → ℕ → String → List (Candidate S) → Run (HnswGraph F)
  write_back g t lc nbr_id all = elim (lookup nbr_id g.nodes) [
    | none ↦ ok g
    | some nbr ↦
        wire_back similarity sort_descending nbr t.id lc (max_links_at_layer g lc) all >>= λ nbr'.
        ok (put_node g nbr_id nbr')
  ]

  -- The next critical section of an Insert, where `found` is what a search finds; `none`: it
  -- returned.
  unfoldable pub advance_at :
      Stage S
      → HnswGraph F
      → Inserting F S
      → List (Candidate S)
      → Run (HnswGraph F × Option (Inserting F S))
  unfolding promote choose score_next write_back
  advance_at (connecting zero) g t found = ok (promote g t, none)
  advance_at (connecting (suc lc)) g t found = ok (g, at_stage t (choose g lc found))
  advance_at (linking lc cs) g t found =
      set_links g t.id lc (ids cs) >>= λ g'. ok (g', at_stage t (wiring lc cs))
  advance_at (wiring lc []) g t found = ok (g, at_stage t (connecting lc))
  advance_at (wiring lc (c ∷ cs)) g t found =
      score_next g t lc c cs >>= λ stage. ok (g, at_stage t stage)
  advance_at (scored lc nbr_id all cs) g t found =
      write_back g t lc nbr_id all >>= λ g'. ok (g', at_stage t (wiring lc cs))

  abbrev pub advance :
      HnswGraph F → Inserting F S → List (Candidate S) → Run (HnswGraph F × Option (Inserting F S))
  advance g t found = advance_at t.stage g t found

-- The graph, and the Inserts that have entered it and not returned.
pub record Busy (F S : Type 0) : Type 0 where
  pub graph : HnswGraph F
  pub running : ℕ → Option (Inserting F S)

-- What a search of the graph may find.
abbrev pub Known : {F S : Type 0} → HnswGraph F → List (Candidate S) → Type 0
Known g cs = (x : String) → Names x (ids cs) → Stores g x

module _ {F S : Type 0} (similarity : List F → List F → S)
    (sort_descending : List (Candidate S) → List (Candidate S)) where
  pub data Step (s s' : Busy F S) : Type 0 where
    -- an Insert begins
    begins :
        (k : ℕ) (id : String) (vector : List F) (level : ℕ)
        → s.running k ≡ none
        → s' ≡ record {
          graph = (enter {S = S} s.graph id vector level).0;
          running = update s.running k (enter s.graph id vector level).1;
        }
        → Step s s'
    -- an Insert goes on
    goes_on :
        (k : ℕ) (t : Inserting F S) (found : List (Candidate S)) (g' : HnswGraph F)
        (t' : Option (Inserting F S))
        → s.running k ≡ some t
        → Known s.graph found
        → advance similarity sort_descending s.graph t found ≡ ok (g', t')
        → s' ≡ record { graph = g'; running = update s.running k t' }
        → Step s s'

  pub data Steps (s : Busy F S) : Busy F S → Type 0 where
    here : Steps s s
    next : {a b : Busy F S} → Steps s a → Step a b → Steps s b

  -- The name that an Insert begins with is new, and not empty.
  abbrev pub NewName : (s s' : Busy F S) → Step s s' → Type 0
  NewName s s' (begins k id vector level _ _) =
      (lookup id s.graph.nodes ≡ none) × (str_eq id "" ≡ false)
  NewName s s' _ = Unit {0}

  abbrev pub NewNames : (s s' : Busy F S) → Steps s s' → Type 0
  NewNames s s' here = Unit {0}
  NewNames s s' (next {a} {b} steps step) = NewNames s a steps × NewName a b step
