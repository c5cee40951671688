-- ===== src/Raft/RoundExamples.antt =====
-- Log replication between two nodes at concrete inputs, and instances of the theorems on it.
use vector_store.Prelude.{
  ℕ, zero, suc, ◌≡◌, refl, true, arith, List, [], ◌∷◌, ◌++◌, some, take, get_elem?, pos, minus_one,
  ok, InInt32, ◌+ℤ◌, ◌-ℤ◌, int32,
}
use vector_store.Raft.State.{
  Raft, LogEntry, leader, advance_commit_index, AppendRequest, AppendResponse,
}
use vector_store.Raft.Replication.{Round, append_entries, build_round}
use vector_store.Raft.Replication.Append.{Branches, append_entries-Branches}
use vector_store.Raft.Replication.Wire.{FitsWire}
use vector_store.Raft.Replication.Rounds.{LogMatching, round_replicates}
use vector_store.Raft.State.Commit.{IsSized}
use vector_store.Raft.Replication.{reply_success, append_reply}
use vector_store.Raft.Replication.Progress.{Progress, reply_success-Progress}
use vector_store.Raft.Lifecycle.{InsertCommand, start, command_bytes}
use vector_store.Raft.Steps.{here, next, propose, appended}
use vector_store.Raft.Steps.Leading.{leader-append_only}
use vector_store.Raft.Examples.{entry, node, k_codec, term_codec}

abbrev two : List LogEntry
two = entry 1 [] ∷ entry 2 (7 ∷ []) ∷ []

-- Node 0 leads term 2 with two entries, and takes node 1 to have the first of them.
abbrev sender : Raft
sender = record (node 0 2 two) {
  role = leader;
  next_index = pos 2 ∷ pos 1 ∷ pos 0 ∷ [];
  match_index = pos 1 ∷ pos 0 ∷ minus_one ∷ [];
}

abbrev receiver : Raft
receiver = node 1 1 (entry 1 [] ∷ [])

two-InInt32 : (i : ℕ) (e : LogEntry) → get_elem? two i ≡ some e → InInt32 e.term
two-InInt32 zero e h = ground arith
two-InInt32 (suc zero) e h = ground arith
two-InInt32 (suc (suc i)) e h = cc

sender-FitsWire : FitsWire sender
sender-FitsWire = record {
  terms = two-InInt32;
  size = omega arith;
  self = omega arith;
  term = omega arith;
  commit = omega arith;
}

logs-LogMatching : LogMatching sender.log receiver.log
logs-LogMatching zero a b h k t = refl
logs-LogMatching (suc i) a b h k t = cc

round_replicates_example :
    (round : Round) × (r : Raft × AppendResponse) × (build_round sender 1 (pos 2) ≡ ok round)
    × (append_entries receiver round.request 7 ≡ ok r)
    × (r.1.success ≡ true → take 2 r.0.log ≡ sender.log)
round_replicates_example =
    round_replicates sender receiver 1 1 7 sender-FitsWire refl (omega arith) logs-LogMatching

abbrev second : AppendRequest
second = record {
  term = pos 2;
  leader_id = pos 0;
  prev_log_index = pos 0;
  prev_log_term = pos 1;
  entries = entry 2 (7 ∷ []) ∷ [];
  leader_commit = pos 0;
}

-- The request is taken, and commits the entry before it.
taken :
    append_entries receiver second 7
    ≡ ok (
      record (node 1 2 two) { leader_id = pos 0; heartbeat_time = 7; commit_index = pos 0 },
      record { term = pos 2; success = true; conflict_index = pos 0; conflict_term = minus_one },
    )
unfolding append_entries int32 ◌+ℤ◌ ◌-ℤ◌
taken = refl

append_entries-Branches_example :
    (r : Raft × AppendResponse) × (append_entries receiver second 7 ≡ ok r)
    × Branches receiver second 7 1 r
append_entries-Branches_example = append_entries-Branches receiver second 7 1 refl

sender-IsSized : IsSized sender
sender-IsSized = omega arith

-- The round that brings node 1 up to date.
abbrev last_round : Round
last_round = record {
  peer = 1;
  term = pos 2;
  prev_log_idx = pos 0;
  sent = entry 2 (7 ∷ []) ∷ [];
  request = second;
}

reply_success-Progress_example :
    (rf' : Raft) × (reply_success sender last_round ≡ ok rf') × Progress sender last_round rf'
reply_success-Progress_example =
    reply_success-Progress sender last_round sender-IsSized (omega arith)

abbrev stored : InsertCommand ℕ
stored = record { id = "k"; vector = 4 ∷ [] }

-- Node 0 after Start.
abbrev grown : Raft
grown = record sender {
  log = two ++ record { term = pos 2; command = command_bytes k_codec stored } ∷ [];
  match_index = pos 2 ∷ pos 0 ∷ minus_one ∷ [];
}

started : start k_codec sender stored ≡ ok (grown, pos 2, pos 2, true)
unfolding start advance_commit_index ◌+ℤ◌ ◌-ℤ◌
started = refl

abbrev caught_up : AppendResponse
caught_up = record {
  term = pos 2;
  success = true;
  conflict_index = pos 0;
  conflict_term = minus_one;
}

-- Node 0 after node 1 has its second entry too.
abbrev committed : Raft
committed = record grown {
  next_index = pos 2 ∷ pos 2 ∷ pos 0 ∷ [];
  match_index = pos 2 ∷ pos 1 ∷ minus_one ∷ [];
  commit_index = pos 1;
}

answered : append_reply grown last_round caught_up ≡ ok committed
unfolding append_reply advance_commit_index ◌+ℤ◌ ◌-ℤ◌
answered = refl

leader-append_only_example : (added : List LogEntry) × (committed.log ≡ two ++ added)
leader-append_only_example =
    leader-append_only k_codec term_codec sender committed
      (next (next here (propose stored (pos 2) (pos 2) true started))
        (appended last_round caught_up answered))
      refl refl refl
