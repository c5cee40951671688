-- ===== src/Raft/ElectionExamples.antt =====
-- Elections in a cluster of three at concrete inputs, and instances of the theorems on them.
use vector_store.Prelude.{
  ◌≡◌, refl, true, arith, [], ◌∷◌, ℤ, pos, ◌+ℤ◌, ◌-ℤ◌, int32, Run, ok, ◌>>=◌,
}
use vector_store.Raft.State.{
  Raft, Role, candidate, leader, VoteResponse, last_log_index_term, step_down, advance_commit_index,
}
use vector_store.Raft.State.Commit.{IsSized}
use vector_store.Raft.Election.{Election, request_vote, start_election, become_leader, vote_reply}
use vector_store.Raft.Election.Winning.{Leads, become_leader-Leads, Tally, vote_reply-Tally}
use vector_store.Raft.Replication.{append_entries, build_round}
use vector_store.Raft.Examples.{entry, node, ask}

-- One term, two leaders: node 0 wins node 1's vote, its refused AppendEntries takes the vote back,
-- and node 2 wins it again.
abbrev rivals : Run ((Role × ℤ) × (Role × ℤ))
rivals = do
  (a, ea) ← start_election (node 0 1 (entry 1 [] ∷ [])) 0
  (c, ec) ← start_election (node 2 1 []) 0
  (b, ra) ←
      request_vote (node 1 1 [])
        (record (ask 2 0) { last_log_index = pos 0; last_log_term = pos 1 }) 1
  (a', _) ← vote_reply a ea ra
  round ← build_round a' 1 a'.current_term
  (b', _) ← append_entries b round.request 2
  (b'', rc) ← request_vote b' (ask 2 2) 3
  (c', _) ← vote_reply c ec rc
  ok ((a'.role, a'.current_term), (c'.role, c'.current_term))

two_leaders : rivals ≡ ok ((leader, pos 2), (leader, pos 2))
unfolding start_election become_leader vote_reply request_vote last_log_index_term step_down
    build_round append_entries advance_commit_index int32 ◌-ℤ◌ ◌+ℤ◌
two_leaders = refl

-- Node 0 stands for term 3 with one entry, and has its own vote.
abbrev standing : Raft
standing = record (node 0 3 (entry 1 [] ∷ [])) { role = candidate; voted_for = pos 0 }

standing-IsSized : IsSized standing
standing-IsSized = omega arith

become_leader-Leads_example : (rf' : Raft) × (become_leader standing ≡ ok rf') × Leads standing rf'
become_leader-Leads_example = become_leader-Leads standing standing-IsSized refl

abbrev running : Election
running = record { term = pos 3; votes = 1; majority = 2; requests = [] }

abbrev yes_vote : VoteResponse
yes_vote = record { term = pos 3; vote_granted = true }

vote_reply-Tally_example :
    (r : Raft × Election) × (vote_reply standing running yes_vote ≡ ok r)
    × Tally standing running yes_vote r
vote_reply-Tally_example = vote_reply-Tally standing running yes_vote standing-IsSized
