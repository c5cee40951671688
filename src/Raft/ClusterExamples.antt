-- ===== src/Raft/ClusterExamples.antt =====
-- An election in a cluster of three: node 0 stands, node 1 gives its vote, node 0 leads.
use vector_store.Prelude.{
  update, ℕ, ◌≡◌, refl, true, arith, none, some, [], ◌∷◌, pos, minus_one, ◌+ℤ◌, ◌-ℤ◌, int32, ok,
}
use vector_store.Raft.State.{
  Raft, leader, is_leader, VoteRequest, VoteResponse, last_log_index_term, step_down,
  advance_commit_index, targets,
}
use vector_store.Raft.Election.{
  Election, stand, election_of, request_vote, start_election, election_tick, become_leader,
  vote_reply,
}
use vector_store.Raft.Cluster.{
  Cluster, idle, answered, delivered, sent, opened, with_node, with_call, with_campaign, stand_up,
  ask, count, Moves, here, next,
}
use vector_store.Raft.Cluster.Safety.{Fresh, one_leader}
use vector_store.Raft.Examples.{entry, node, k_codec, term_codec}

abbrev begin : Cluster
begin = record { node = λ i. node i 1 []; campaign = λ i. none; calls = λ i p. idle }

begin-Fresh : Fresh 3 (pos 2) begin
begin-Fresh = record {
  me = λ i. refl;
  size = λ i. refl;
  none_called = λ i p. refl;
  none_runs = λ i. refl;
  none_leads = λ i l at_t. cc;
}

abbrev candidate_0 : Raft
candidate_0 = record (stand (node 0 1 []) 9) { current_term = pos 2 }

abbrev election_0 : Election
election_0 = election_of candidate_0 (minus_one, pos 0) (1 ∷ 2 ∷ [])

abbrev standing : Cluster
standing = opened (pos 2) (with_node begin 0 candidate_0) 0 (election_0 ∷ [])

stands : election_tick (begin.node 0) 5 9 ≡ ok (candidate_0, election_0 ∷ [])
unfolding election_tick start_election last_log_index_term targets ◌+ℤ◌ int32
stands = refl

abbrev request_0 : VoteRequest
request_0 = record {
  term = pos 2;
  candidate_id = pos 0;
  last_log_index = minus_one;
  last_log_term = pos 0;
}

-- Node 1 after its vote.
abbrev voter_1 : Raft
voter_1 = record (node 1 2 []) { voted_for = pos 0; heartbeat_time = 10 }

abbrev yes_vote : VoteResponse
yes_vote = record { term = pos 2; vote_granted = true }

asked : standing.calls 0 1 ≡ sent request_0
unfolding opened update int32
asked = refl

votes : request_vote (standing.node 1) request_0 10 ≡ ok (voter_1, yes_vote)
unfolding request_vote opened update last_log_index_term step_down int32
votes = refl

abbrev replied : Cluster
replied = with_call (with_node standing 1 voter_1) 0 1 (answered yes_vote)

arrives : replied.calls 0 1 ≡ answered yes_vote
unfolding update
arrives = refl

runs : replied.campaign 0 ≡ some election_0
unfolding opened update int32
runs = refl

abbrev elected_0 : Raft
elected_0 = record candidate_0 {
  role = leader;
  leader_id = pos 0;
  match_index = pos 0 ∷ minus_one ∷ minus_one ∷ [];
  log = entry 2 [] ∷ [];
}

wins :
    vote_reply (replied.node 0) election_0 yes_vote
    ≡ ok (elected_0, record election_0 { votes = 2 })
unfolding vote_reply opened update become_leader advance_commit_index ◌-ℤ◌ ◌+ℤ◌
wins = refl

abbrev elected : Cluster
elected =
    with_node
      (with_campaign (with_call replied 0 1 (delivered yes_vote)) 0
        (record election_0 { votes = 2 }))
      0 elected_0

abbrev run : Moves k_codec term_codec 3 (pos 2) begin elected
run =
    next
      (next (next here (stand_up 0 5 9 candidate_0 (election_0 ∷ []) (omega arith) stands refl))
        (ask 0 1 10 request_0 voter_1 yes_vote asked votes refl))
      (count 0 1 yes_vote election_0 (record election_0 { votes = 2 }) elected_0 (omega arith)
        arrives runs wins refl)

leads : is_leader (elected.node 0).role ≡ true
unfolding update
leads = refl

in_term : (elected.node 0).current_term ≡ pos 2
unfolding update ◌+ℤ◌
in_term = refl

one_leader_example : ◌≡◌ {A = ℕ} 0 0
one_leader_example =
    one_leader k_codec term_codec 3 (pos 2) begin elected run 0 0 (omega arith) (omega arith)
      begin-Fresh (((tt, tt), tt), tt) leads in_term leads in_term
