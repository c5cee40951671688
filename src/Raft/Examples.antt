-- ===== src/Raft/Examples.antt =====
-- A cluster of three nodes at concrete inputs: tests of the handlers, and instances of the theorems.
use Prim.Native.String.{String}
use text.Mathlib.Text.{◌==◌ as str_eq}
use text.Mathlib.TextEquality.{eq_iff}
use vector_store.Prelude.{
  ℕ, zero, ◌≡◌, refl, inr, true, false, arith, List, [], ◌∷◌, Option, none, some, length, ltb,
  if◌then◌else◌, ℤ, pos, negsuc, minus_one, ok, int32,
}
use vector_store.Raft.State.{
  Raft, LogEntry, follower, leader, VoteRequest, VoteResponse, AppendRequest, AppendResponse,
  advance_commit_index, last_log_index_term, step_down,
}
use vector_store.Raft.State.Commit.{IsSized, Highest, advance_commit_index-Highest}
use vector_store.Raft.State.Last.{last_info}
use vector_store.Raft.Election.{request_vote}
use vector_store.Raft.Election.Vote.{Outcome, request_vote-Outcome}
use vector_store.Raft.Replication.{append_entries}
use vector_store.Raft.Lifecycle.{InsertCommand, CommandCodec}
use vector_store.Raft.Persistence.{PersistentState, StateCodec}
use vector_store.Raft.Steps.{vote, Steps, here, next}
use vector_store.Raft.Steps.Votes.{request_vote_once, append_entries-forgets_vote}

abbrev pub entry : ℕ → List ℕ → LogEntry
entry t c = record { term = pos t; command = c }

abbrev pub three : List String
three = "a:1" ∷ "b:2" ∷ "c:3" ∷ []

abbrev pub node : ℕ → ℕ → List LogEntry → Raft
node me term log = record {
  addrs = three;
  peers = true ∷ true ∷ true ∷ [];
  me = me;
  current_term = pos term;
  voted_for = minus_one;
  log = log;
  commit_index = minus_one;
  last_applied = minus_one;
  next_index = pos 0 ∷ pos 0 ∷ pos 0 ∷ [];
  match_index = minus_one ∷ minus_one ∷ minus_one ∷ [];
  role = follower;
  leader_id = minus_one;
  heartbeat_time = 0;
  dead = false;
  persist_path = "";
}

-- Node 0 leads term 2; node 1 has its first two entries.
abbrev pub head : Raft
head = record (node 0 2 (entry 1 [] ∷ entry 2 [] ∷ entry 2 (7 ∷ []) ∷ [])) {
  role = leader;
  leader_id = pos 0;
  next_index = pos 3 ∷ pos 2 ∷ pos 3 ∷ [];
  match_index = pos 2 ∷ pos 1 ∷ minus_one ∷ [];
}

pub head-IsSized : IsSized head
head-IsSized = omega arith

advance_head : advance_commit_index head ≡ ok (record head { commit_index = pos 1 })
unfolding advance_commit_index
advance_head = refl

advance_commit_index-Highest_example :
    (c : ℤ) × (advance_commit_index head ≡ ok (record head { commit_index = c })) × Highest head 3 c
advance_commit_index-Highest_example = advance_commit_index-Highest head head-IsSized

abbrev pub ask : ℕ → ℕ → VoteRequest
ask term who = record {
  term = pos term;
  candidate_id = pos who;
  last_log_index = minus_one;
  last_log_term = pos 0;
}

request_vote-Outcome_example :
    (r : Raft × VoteResponse) × (request_vote (node 1 0 []) (ask 1 0) 5 ≡ ok r)
    × Outcome (node 1 0 []) (ask 1 0) 5 r
request_vote-Outcome_example = request_vote-Outcome (node 1 0 []) (ask 1 0) 5

-- A codec of the commands that store under "k".
abbrev pub write_k : InsertCommand ℕ → Option (List ℕ)
write_k c = if str_eq c.id "k" then some (1 ∷ c.vector) else none

abbrev pub read_k : List ℕ → Option (InsertCommand ℕ)
read_k [] = none
read_k (tag ∷ v) = some (record { id = "k"; vector = v })

pub read_k-write_k : (c : InsertCommand ℕ) (b : List ℕ) → write_k c ≡ some b → read_k b ≡ some c
read_k-write_k c b h = ground (arith, eq_iff c.id "k")

pub write_k-nonempty :
    (c : InsertCommand ℕ) (b : List ℕ) → write_k c ≡ some b → ltb 0 (length b) ≡ true
write_k-nonempty c b h = ground arith

abbrev pub k_codec : CommandCodec ℕ
k_codec = record {
  marshal = write_k;
  unmarshal = read_k;
  leaves = λ b. record { id = ""; vector = [] };
  unmarshal-marshal = read_k-write_k;
  marshal-nonempty = write_k-nonempty;
}

-- A codec of the states with no entry and no vote.
abbrev pub write_parts : ℤ → ℤ → Option (List LogEntry) → ℤ → Option (List ℕ)
write_parts (pos t) (negsuc zero) (some []) (negsuc zero) = some (t ∷ [])
write_parts _ _ _ _ = none

abbrev pub read_term : List ℕ → Option PersistentState
read_term (t ∷ []) = some (record {
  current_term = pos t;
  voted_for = minus_one;
  log = some [];
  commit_index = minus_one;
})
read_term _ = none

pub read_term-write_parts :
    (t v : ℤ) (log : Option (List LogEntry)) (c : ℤ) (b : List ℕ)
    → write_parts t v log c ≡ some b
    → read_term b ≡ some (record { current_term = t; voted_for = v; log = log; commit_index = c })
read_term-write_parts (pos t) (negsuc zero) (some []) (negsuc zero) b h = ground arith
read_term-write_parts _ _ _ _ b h = cc

abbrev pub term_codec : StateCodec
term_codec = record {
  marshal = λ s. write_parts s.current_term s.voted_for s.log s.commit_index;
  unmarshal = read_term;
  unmarshal-marshal =
      λ s b h. read_term-write_parts s.current_term s.voted_for s.log s.commit_index b h;
}

-- Node 1 has voted for node 0 in term 1.
abbrev pub voter : Raft
voter = record (node 1 1 []) { voted_for = pos 0; heartbeat_time = 5 }

abbrev pub yes_vote : VoteResponse
yes_vote = record { term = pos 1; vote_granted = true }

pub first_vote : request_vote (node 1 0 []) (ask 1 0) 5 ≡ ok (voter, yes_vote)
unfolding request_vote last_log_index_term step_down int32
first_vote = refl

abbrev no_vote : VoteResponse
no_vote = record { term = pos 1; vote_granted = false }

-- Node 2 is refused in the same term.
other_vote : request_vote voter (ask 1 2) 6 ≡ ok (voter, no_vote)
unfolding request_vote last_log_index_term step_down int32
other_vote = refl

again_vote : request_vote voter (ask 1 0) 9 ≡ ok (record voter { heartbeat_time = 9 }, yes_vote)
unfolding request_vote last_log_index_term step_down int32
again_vote = refl

abbrev refused_step : Steps k_codec term_codec voter voter
refused_step = next here (vote (ask 1 2) 6 no_vote other_vote)

request_vote_once_example : ◌≡◌ {A = ℤ} (pos 0) (pos 0)
request_vote_once_example =
    request_vote_once k_codec term_codec (node 1 0 []) voter voter
      (record voter { heartbeat_time = 9 }) (ask 1 0) (ask 1 0) 5 9 yes_vote yes_vote first_vote
      refl refused_step (tt, tt) again_vote refl refl (λ e. cc)

abbrev beat : AppendRequest
beat = record {
  term = pos 1;
  leader_id = pos 0;
  prev_log_index = pos 0;
  prev_log_term = pos 1;
  entries = [];
  leader_commit = minus_one;
}

abbrev short_reply : AppendResponse
short_reply = record {
  term = pos 1;
  success = false;
  conflict_index = pos 0;
  conflict_term = minus_one;
}

abbrev forgetful : Raft
forgetful = record (node 1 1 []) { leader_id = pos 0; heartbeat_time = 7 }

refused_beat : append_entries voter beat 7 ≡ ok (forgetful, short_reply)
unfolding append_entries int32
refused_beat = refl

append_entries-forgets_vote_example :
    (r : Raft × VoteResponse) × (request_vote forgetful (ask 1 2) 8 ≡ ok r)
    × (r.1.vote_granted ≡ true)
    × (r.0.voted_for ≡ pos 2)
append_entries-forgets_vote_example =
    append_entries-forgets_vote voter forgetful beat 7 8 short_reply (ask 1 2) refused_beat refl
      refl (unfold last_info in inr (refl, omega arith))
