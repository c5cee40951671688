-- ===== src/Raft/RestartExamples.antt =====
-- A restart and two rounds of the apply loop at concrete inputs, and instances of the theorems on
-- them.
use vector_store.Prelude.{
  ℕ, some-injective, ap, ◌≤ℤ◌, ◌≡◌, refl, true, false, arith, List, [], ◌∷◌, none, some, pos,
  minus_one, ok, int32,
}
use vector_store.Raft.State.{Raft, LogEntry, VoteResponse}
use vector_store.Raft.Lifecycle.{blank_node}
use vector_store.Raft.Persistence.{
  PersistentState, Disk, written, write_failed, snapshot, persist, shutdown, make, load_state,
  rename_file, put_file,
}
use vector_store.Raft.Election.{request_vote}
use vector_store.Raft.Persistence.Restart.{Atomic, persist-Atomic, make-shutdown}
use vector_store.Raft.State.Commit.{IsSized}
use vector_store.Raft.Steps.{here, next, vote}
use vector_store.Raft.Steps.Sized.{SoundSnapshot, Steps-IsSized}
use vector_store.Raft.Examples.{entry, node, three, k_codec, term_codec, read_term, ask}

-- A node of term 3 that keeps its state in a file.
abbrev stored : Raft
stored = record (node 1 3 []) { persist_path = "raft-state.json"; leader_id = pos 0 }

abbrev no_files : Disk
no_files path = none

stored-marshal : term_codec.marshal (snapshot stored) ≡ some (3 ∷ [])
unfolding snapshot
stored-marshal = refl

make-shutdown_example :
    make term_codec three
      (true ∷ false ∷ true ∷ [])
      1
      "raft-state.json"
      40
      (shutdown term_codec stored no_files written true).1
    ≡ record (blank_node three (true ∷ false ∷ true ∷ []) 1 "raft-state.json" 40) {
      current_term = pos 3;
      voted_for = minus_one;
      log = [];
      commit_index = minus_one;
    }
make-shutdown_example =
    make-shutdown term_codec stored no_files (3 ∷ []) three (true ∷ false ∷ true ∷ []) 1 40 refl
      stored-marshal

persist-Atomic_example :
    Atomic term_codec stored no_files
      (persist term_codec stored no_files (write_failed (some (9 ∷ []))) true)
persist-Atomic_example =
    persist-Atomic term_codec stored no_files (write_failed (some (9 ∷ []))) true

abbrev log_of_two : List LogEntry
log_of_two = entry 1 [] ∷ entry 1 (1 ∷ 7 ∷ []) ∷ []

abbrev first_round : Raft
first_round = record (node 1 1 log_of_two) { commit_index = pos 0 }

abbrev second_round : Raft
second_round = record (node 1 1 log_of_two) { commit_index = pos 1; last_applied = pos 0 }

-- The node is made again from its snapshot of term 3, and refuses node 0 a vote of term 1.
abbrev saved : Disk
saved = (shutdown term_codec stored no_files written true).1

abbrev again : Raft
again = make term_codec three (true ∷ false ∷ true ∷ []) 1 "raft-state.json" 40 saved

abbrev late : VoteResponse
late = record { term = pos 3; vote_granted = false }

late_vote : request_vote again (ask 1 0) 50 ≡ ok (again, late)
unfolding make shutdown persist rename_file put_file load_state snapshot blank_node request_vote
    int32
late_vote = refl

saved-SoundSnapshot : SoundSnapshot k_codec term_codec saved "raft-state.json"
saved-SoundSnapshot b st read decoded = read_low b st decoded
  where
    read_low :
        (b : List ℕ) (st : PersistentState) → read_term b ≡ some st → minus_one ≤ℤ st.commit_index
    read_low [] st h = cc
    read_low (t ∷ []) st h =
        let at = ap (λ s. s.commit_index) (some-injective _ st h) in rw (← at) (omega arith)
    read_low (t ∷ u ∷ v) st h = cc

Steps-IsSized_example : IsSized again
Steps-IsSized_example =
    Steps-IsSized k_codec term_codec three (true ∷ false ∷ true ∷ []) 1 "raft-state.json" 40 saved
      again refl (omega arith) saved-SoundSnapshot (next here (vote (ask 1 0) 50 late late_vote))
