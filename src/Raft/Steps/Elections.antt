-- ===== src/Raft/Steps/Elections.antt =====
-- startElection, the ticker and the treatment of a vote's reply: the vote and the log.
use vector_store.Prelude.{
  ℕ, inl, Bool, not, ◌||◌, ◌&&◌, ◌+◌, arith, ltb, leb, pos, +ℤ_parts, ltb_ℤ, eqb_ℤ, ok,
  if◌then◌else◌, Ensures, returned, Ensures-bind, Ensures-if, Ensures-run, Ensures-map,
}
use vector_store.Raft.State.{
  Raft, is_candidate, is_leader, last_log_index_term, targets, majority_of, VoteResponse,
}
use vector_store.Raft.Election.{
  stand, win_if_alone, become_leader, start_election, Election, election_tick, vote_reply,
}
use vector_store.Raft.Steps.Frames.{
  VoteOrder, Continues, Continues-refl, Continues-Grows, Grows, Grows-refl, step_down-Grows,
  become_leader-Continues,
}

won :
    (rf base : Raft) (b : Bool)
    → ((rf' : Raft) → Continues base rf' → Grows rf rf')
    → Ensures (Grows rf) (if b then become_leader base else ok base)
won rf base b k =
    Ensures-if b (λ _. Ensures-map (become_leader-Continues base) k)
      (λ _. returned (k base (Continues-refl base)))

stand-Grows : (rf rf' : Raft) (now : ℕ) → Continues (stand rf now) rf' → Grows rf rf'
unfolding VoteOrder
stand-Grows rf rf' now c = record {
  order = inl (rw c.term (omega (arith, +ℤ_parts rf.current_term (pos 1))));
  added = c.added;
  appends = c.appends;
}

pub start_election-Grows :
    (rf : Raft) (now : ℕ) → Ensures (λ r. Grows rf r.0) (start_election rf now)
unfolding start_election
start_election-Grows rf now = Ensures-bind (last_log_index_term (stand rf now)) λ last _.
    Ensures-bind (targets (stand rf now)) λ to _.
      Ensures-bind (win_if_alone (stand rf now)) λ rf' h.
        returned (
          Ensures-run (won rf (stand rf now) (leb (majority_of rf) 1) (λ r. stand-Grows rf r now))
            h)

pub election_tick-Grows :
    (rf : Raft) (begin now : ℕ) → Ensures (λ r. Grows rf r.0) (election_tick rf begin now)
unfolding election_tick
election_tick-Grows rf begin now =
    Ensures-if (not (is_leader rf.role) && ltb rf.heartbeat_time begin)
      (λ _.
        Ensures-bind (start_election rf now)
          λ r h. returned (Ensures-run (start_election-Grows rf now) h))
      (λ _. returned (Grows-refl rf))

pub vote_reply-Grows :
    (rf : Raft) (e : Election) (resp : VoteResponse)
    → Ensures (λ r. Grows rf r.0) (vote_reply rf e resp)
unfolding vote_reply
vote_reply-Grows rf e resp =
    Ensures-if (ltb_ℤ rf.current_term resp.term)
      (λ later. returned (step_down-Grows rf resp.term later))
      λ _.
        Ensures-if (not (is_candidate rf.role) || not (eqb_ℤ rf.current_term e.term))
          (λ _. returned (Grows-refl rf))
          λ _.
            Ensures-if (not resp.vote_granted) (λ _. returned (Grows-refl rf))
              λ _.
                Ensures-bind (if leb e.majority (e.votes + 1) then become_leader rf else ok rf)
                  λ rf' h.
                    returned (
                      Ensures-run (won rf rf (leb e.majority (e.votes + 1)) (Continues-Grows rf)) h)
