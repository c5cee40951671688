-- ===== src/Applier/Indexing.antt =====
-- The applier and the index together: Run with the graph of internal/vectorindex/hnsw.go.
use Prim.Native.String.{String}
use text.Mathlib.Text.{◌==◌ as str_eq}
use vector_store.Prelude.{
  ℕ, ◌+◌, ◌≡◌, refl, ◌⊎◌, inl, inr, Bool, true, false, not, Bool-cases, Option, none, some, lookup,
  List, [], ◌∷◌, if◌then◌else◌, ℤ, Run, ok, ◌>>=◌,
}
use vector_store.Raft.Lifecycle.{ApplyMsg}
use vector_store.Index.{Candidate, HnswGraph, new_hnsw_graph}
use vector_store.Index.Links.{OnlySorts}
use vector_store.Index.Search.Invariant.{Ranked}
use vector_store.Index.Insert.{insert}
use vector_store.Index.Insert.Keeping.{IsIndex, new_hnsw_graph-IsIndex}
use vector_store.Index.Insert.Inserting.{insert-IsIndex}
use vector_store.Index.Insert.Refines.{vector_of, vector_of-Inserted}
use vector_store.Applier.{CommitNotifier, run_applier, replay, apply_to_graph}
use vector_store.Applier.Notifying.{IsReady}
use vector_store.Applier.Running.{Drained, run_applier-replay}

-- The graph of a node, and the levels that it draws, one for each insertion. A panic stays.
pub record LocalIndex (F : Type 0) : Type 0 where
  pub graph : Run (HnswGraph F)
  pub levels : ℕ → ℕ
  pub drawn : ℕ

module _ {F : Type 0} where
  -- The vector committed last under the name, or the one before.
  abbrev pub committed : String → List (ApplyMsg F) → Option (List F) → Option (List F)
  committed x [] v = v
  committed x (msg ∷ msgs) v = committed x msgs (
      if not msg.command_valid
      then v
      else if str_eq msg.command.id x
      then some msg.command.vector
      else v)

  -- Every message but the no-ops has a name.
  abbrev pub AllNamed : List (ApplyMsg F) → Type 0
  AllNamed [] = Unit {0}
  AllNamed (msg ∷ msgs) =
      ((not msg.command_valid ≡ true) ⊎ (str_eq msg.command.id "" ≡ false)) × AllNamed msgs

module _ {F S : Type 0} (similarity : List F → List F → S) (below : S → S → Bool)
    (sort_descending : List (Candidate S) → List (Candidate S)) where
  unfoldable pub local_insert : LocalIndex F → String → List F → LocalIndex F
  local_insert s id vector = record s {
    graph = s.graph >>= λ g. insert similarity below sort_descending id vector g (s.levels s.drawn);
    drawn = s.drawn + 1;
  }

  module _ (ranks : Ranked below) (sorts : OnlySorts sort_descending) where
    is_named :
        (msg : ApplyMsg F) (msgs : List (ApplyMsg F))
        → AllNamed (msg ∷ msgs)
        → not msg.command_valid ≡ false
        → str_eq msg.command.id "" ≡ false
    is_named msg msgs named valid = elim named.0 [ inl no_op ↦ cc | inr has_name ↦ has_name ]

    replay-IsIndex :
        (msgs : List (ApplyMsg F)) (s : LocalIndex F) (g : HnswGraph F)
        → s.graph ≡ ok g
        → IsIndex g
        → AllNamed msgs
        → (g' : HnswGraph F) × ((replay local_insert s msgs).graph ≡ ok g')
          × IsIndex g'
          × ((x : String) → vector_of x g' ≡ committed x msgs (vector_of x g))
    unfolding replay apply_to_graph local_insert
    replay-IsIndex [] s g at i named = (g, at, i, λ x. refl)
    replay-IsIndex (msg ∷ msgs) s g at i named = elim (Bool-cases (not msg.command_valid)) [
      | inl no_op ↦
          let (g', ran, i', all) = replay-IsIndex msgs s g at i named.1 in
          (g', rw (replay, apply_to_graph, no_op) ran, i', λ x. rw no_op (all x))
      | inr valid ↦
          let (g₁, inserted, i₁, added) =
            insert-IsIndex similarity below ranks sort_descending sorts g msg.command.id
              msg.command.vector (s.levels s.drawn) i (is_named msg msgs named valid) in
          let (g', ran, i', all) =
            replay-IsIndex msgs (local_insert s msg.command.id msg.command.vector) g₁
              (rw at inserted) i₁ named.1 in
          (
            g',
            rw (replay, apply_to_graph, valid) ran,
            i',
            λ x.
                rw
                  (
                    valid,
                    ← vector_of-Inserted similarity below sort_descending ranks sorts g g₁
                        (record {
                          id = msg.command.id;
                          vector = msg.command.vector;
                          level = s.levels s.drawn;
                        })
                        x added,
                  )
                  (all x),
          )
    ]

    -- Where scores compare like numbers, and the sort of links names no one else: Run, from a ready
    -- notifier and an empty graph, takes any messages whose commands have names, whatever levels the
    -- node draws. No insertion panics, the graph after them keeps its invariant, and it holds under
    -- each name the vector committed last, and no other vectors.
    pub run_applier-IsIndex :
        (m ef : ℤ) (levels : ℕ → ℕ) (n : CommitNotifier) (msgs : List (ApplyMsg F))
        → IsReady n
        → AllNamed msgs
        → (s : LocalIndex F) × (n' : CommitNotifier) × (run_applier local_insert
              (record { graph = ok (new_hnsw_graph m ef); levels = levels; drawn = 0 }, n)
              msgs
            ≡ ok (s, n'))
          × Drained n msgs n'
          × ((g : HnswGraph F) × (s.graph ≡ ok g)
              × IsIndex g
              × ((x : String) → vector_of x g ≡ committed x msgs none))
    unfolding new_hnsw_graph lookup
    run_applier-IsIndex m ef levels n msgs ready named =
        let s : LocalIndex F = record {
          graph = ok (new_hnsw_graph m ef);
          levels = levels;
          drawn = 0;
        } in
        let (n', ran, drained) = run_applier-replay local_insert s n msgs ready in
        (
          replay local_insert s msgs,
          n',
          ran,
          drained,
          replay-IsIndex msgs s (new_hnsw_graph m ef) refl (new_hnsw_graph-IsIndex m ef) named,
        )
