-- ===== src/Raft/Election.antt =====
-- internal/consensus/raft.go, elections (§5.2): RequestVote, the ticker's test, startElection,
-- sendRequestVote's treatment of a reply, and becomeLeader.
pub mod Vote
pub mod Winning
use vector_store.Prelude.{
  ℕ, ◌+◌, Bool, true, false, ◌&&◌, ◌||◌, not, List, [], ◌∷◌, ◌++◌, map, ltb, leb, if◌then◌else◌,
  length, ℤ, pos, minus_one, ◌+ℤ◌, ◌-ℤ◌, ltb_ℤ, leb_ℤ, eqb_ℤ, int32, Run, ok, panic, ◌>>=◌, store,
}
use vector_store.Raft.State.{
  Raft, LogEntry, candidate, leader, is_leader, is_candidate, VoteRequest, VoteResponse, int_length,
  step_down, last_log_index_term, majority_of, advance_commit_index, targets,
}

-- The candidate's log is at least as up to date as one that ends in (my_index, my_term) (§5.4.1).
abbrev pub up_to_date : VoteRequest → ℤ → ℤ → Bool
up_to_date args my_index my_term =
    ltb_ℤ my_term args.last_log_term
    || (eqb_ℤ args.last_log_term my_term && leb_ℤ my_index args.last_log_index)

abbrev pub request_vote_after : Raft → VoteRequest → ℕ → VoteResponse → Run (Raft × VoteResponse)
request_vote_after rf args now resp =
    let checked : Run (Raft × VoteResponse) = last_log_index_term rf >>= λ (my_index, my_term). ok (
      if up_to_date args my_index my_term
      then (
        record rf { voted_for = args.candidate_id; heartbeat_time = now },
        record { term = int32 rf.current_term; vote_granted = true },
      )
      else (rf, resp)) in
    if ltb_ℤ args.term rf.current_term
    then ok (rf, resp)
    else if not (eqb_ℤ rf.voted_for minus_one) && not (eqb_ℤ rf.voted_for args.candidate_id)
    then ok (rf, resp)
    else checked

-- The reply of a refusal carries the term before the step down.
unfoldable pub request_vote : Raft → VoteRequest → ℕ → Run (Raft × VoteResponse)
request_vote rf args now =
    let resp : VoteResponse = record { term = int32 rf.current_term; vote_granted = false } in
    request_vote_after (if ltb_ℤ rf.current_term args.term then step_down rf args.term else rf) args
      now resp

-- nextIndex[i] = next, or matchIndex[i] = -1, for every i in range addrs
unfoldable pub fill : {A B : Type 0} → List A → List B → B → Run (List B)
fill [] xs v = ok xs
fill (a ∷ addrs) [] v = panic
fill (a ∷ addrs) (x ∷ xs) v = fill addrs xs v >>= λ rest. ok (v ∷ rest)

unfoldable pub become_leader : Raft → Run Raft
unfolding fill
become_leader rf =
    let elected : Run Raft = (do
      nexts ← fill rf.addrs rf.next_index (int_length rf.log)
      blank ← fill rf.addrs rf.match_index minus_one
      own ←
          if ltb 0 (length rf.log)
          then store blank (pos rf.me) (int_length rf.log -ℤ pos 1)
          else ok blank
      let grown : List LogEntry = rf.log ++ record { term = rf.current_term; command = [] } ∷ []
      matches ← store own (pos rf.me) (int_length grown -ℤ pos 1)
      advance_commit_index (record rf {
        role = leader;
        leader_id = pos rf.me;
        next_index = nexts;
        match_index = matches;
        log = grown;
      })) in
    if not (is_candidate rf.role) then ok rf else elected

-- What a new election leaves behind: the vote counter that its goroutines share, the majority that
-- they wait for, and the requests that they send.
pub record Election : Type 0 where
  pub term : ℤ
  pub votes : ℕ
  pub majority : ℕ
  pub requests : List (ℕ × VoteRequest)

-- The request that sendRequestVote builds.
abbrev pub vote_request : Raft → ℤ → ℤ → ℤ → VoteRequest
vote_request rf term last_idx last_term = record {
  term = int32 term;
  candidate_id = int32 (pos rf.me);
  last_log_index = int32 last_idx;
  last_log_term = int32 last_term;
}

-- startElection up to its log line: the node stands for the next term and votes for itself.
abbrev pub stand : Raft → ℕ → Raft
stand rf now = record rf {
  current_term = rf.current_term +ℤ pos 1;
  role = candidate;
  voted_for = pos rf.me;
  leader_id = minus_one;
  heartbeat_time = now;
}

-- A majority of one is won at once.
abbrev pub win_if_alone : Raft → Run Raft
win_if_alone rf = if leb (majority_of rf) 1 then become_leader rf else ok rf

abbrev pub election_of : Raft → ℤ × ℤ → List ℕ → Election
election_of rf (last_idx, last_term) to = record {
  term = rf.current_term;
  votes = 1;
  majority = majority_of rf;
  requests = map (λ peer. (peer, vote_request rf rf.current_term last_idx last_term)) to;
}

unfoldable pub start_election : Raft → ℕ → Run (Raft × Election)
unfolding become_leader targets
start_election rf now = do
  let rf' = stand rf now
  last ← last_log_index_term rf'
  to ← targets rf'
  rf'' ← win_if_alone rf'
  ok (rf'', election_of rf' last to)

-- The body of electionTicker after its sleep, which began at `start`.
unfoldable pub election_tick : Raft → ℕ → ℕ → Run (Raft × List Election)
election_tick rf start now =
    if not (is_leader rf.role) && ltb rf.heartbeat_time start
    then (start_election rf now >>= λ (rf', e). ok (rf', e ∷ []))
    else ok (rf, [])

-- The counter after `*votes++`: at the majority the node becomes leader.
abbrev pub count_vote : Raft → Election → Run (Raft × Election)
count_vote rf e =
    (if leb e.majority e.votes then become_leader rf else ok rf) >>= λ rf'. ok (rf', e)

-- sendRequestVote after its RPC returned `resp`; an RPC that fails changes nothing.
unfoldable pub vote_reply : Raft → Election → VoteResponse → Run (Raft × Election)
vote_reply rf e resp =
    if ltb_ℤ rf.current_term resp.term
    then ok (step_down rf resp.term, e)
    else if not (is_candidate rf.role) || not (eqb_ℤ rf.current_term e.term)
    then ok (rf, e)
    else if not resp.vote_granted
    then ok (rf, e)
    else count_vote rf (record e { votes = e.votes + 1 })
