-- ===== src/Applier/Examples.antt =====
-- A graph that remembers the identifiers put into it, and instances of the theorems on it.
use Prim.Native.String.{String}
use vector_store.Prelude.{
  ◌>>=◌, Bool, Run, ℕ, ◌≡◌, refl, none, Bool, true, false, List, [], ◌∷◌, pos, arith, ok, inl, inr,
}
use vector_store.Raft.Lifecycle.{ApplyMsg}
use vector_store.Applier.{
  CommitNotifier, new_commit_notifier, register, run_applier, replay, apply_to_graph,
}
use vector_store.Applier.Notifying.{new_commit_notifier-IsReady, register-IsReady}
use vector_store.Index.{HnswGraph, new_hnsw_graph}
use vector_store.Index.Examples.{near, by_score, by_score-OnlySorts}
use vector_store.Index.SearchExamples.{below, ranks}
use vector_store.Index.Insert.Keeping.{IsIndex}
use vector_store.Index.Insert.Refines.{vector_of}
use vector_store.Applier.Indexing.{LocalIndex, local_insert, committed, run_applier-IsIndex}
use vector_store.Applier.Running.{HasIndex, Drained, run_applier-Drained, register-late}

abbrev remember : List String → String → List ℕ → List String
remember g id v = id ∷ g

abbrev message : Bool → String → ℕ → ApplyMsg ℕ
message valid id i = record {
  command_valid = valid;
  command = record { id = id; vector = 7 ∷ [] };
  command_index = pos i;
  command_term = pos 1;
}

-- A no-op and two insertions.
abbrev messages : List (ApplyMsg ℕ)
messages = message false "" 0 ∷ message true "a" 1 ∷ message true "b" 2 ∷ []

built : replay remember [] messages ≡ "b" ∷ "a" ∷ []
unfolding replay apply_to_graph
built = refl

-- Two handlers register for index 1; channel 1 replaces channel 0 there.
abbrev both_wait : CommitNotifier
both_wait = (register (register new_commit_notifier (pos 1)).0 (pos 1)).0

abbrev closed_two : List String × CommitNotifier → Run (Bool × Bool)
closed_two (g, n) = ok (n.closed 0, n.closed 1)

-- Channel 1 is closed, and channel 0 is not.
woken : (run_applier remember ([], both_wait) messages >>= closed_two) ≡ ok (false, true)
unfolding run_applier register new_commit_notifier
woken = refl

run_applier-Drained_example :
    (n' : CommitNotifier) × (run_applier remember ([], both_wait) messages
      ≡ ok ("b" ∷ "a" ∷ [], n'))
    × Drained both_wait messages n'
run_applier-Drained_example = run_applier-Drained remember [] both_wait messages (
    register-IsReady (register new_commit_notifier (pos 1)).0 (pos 1)
      (register-IsReady new_commit_notifier (pos 1) new_commit_notifier-IsReady))

not_again : ¬ HasIndex (pos 1) (message true "c" 3 ∷ [])
unfolding HasIndex
not_again (inl e) = absurd (ground arith)
not_again (inr none_left) = none_left

register-late_example :
    (n₁ n₂ : CommitNotifier) × (run_applier remember ([], new_commit_notifier) messages
      ≡ ok (replay remember [] messages, n₁))
    × (run_applier remember
          (replay remember [] messages, (register n₁ (pos 1)).0)
          (message true "c" 3 ∷ [])
        ≡ ok (replay remember (replay remember [] messages) (message true "c" 3 ∷ []), n₂))
    × (n₂.closed (register n₁ (pos 1)).1 ≡ false)
register-late_example =
    register-late remember [] new_commit_notifier messages (message true "c" 3 ∷ []) (pos 1)
      new_commit_notifier-IsReady not_again

-- Four neighbours for a node, a width of eight, and the levels 0, 1, 2, ...
abbrev start : LocalIndex ℕ
start = record { graph = ok (new_hnsw_graph (pos 4) (pos 8)); levels = λ i. i; drawn = 0 }

run_applier-IsIndex_example :
    (s : LocalIndex ℕ) × (n' : CommitNotifier) × (run_applier
        (local_insert near below by_score)
        (start, new_commit_notifier)
        messages
      ≡ ok (s, n'))
    × Drained new_commit_notifier messages n'
    × ((g : HnswGraph ℕ) × (s.graph ≡ ok g)
        × IsIndex g
        × ((x : String) → vector_of x g ≡ committed x messages none))
run_applier-IsIndex_example =
    run_applier-IsIndex near below by_score ranks by_score-OnlySorts (pos 4) (pos 8) (λ i. i)
      new_commit_notifier messages new_commit_notifier-IsReady
      (inl refl, (inr refl, (inr refl, tt)))
