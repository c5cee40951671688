-- ===== src/Raft/Steps/ListReplies.antt =====
-- Elections and replies keep lists that fit the cluster.
use vector_store.Prelude.{
  ℕ, ◌+◌, ◌≡◌, refl, ◌∙◌, inl, inr, Bool, true, not, ◌||◌, ◌&&◌, arith, ltb, leb, pos, ◌+ℤ◌, ltb_ℤ,
  eqb_ℤ, ok, load, store, if◌then◌else◌, Ensures, returned, Ensures-bind, Ensures-if, Ensures-run,
  of_Ensures,
}
use vector_store.Raft.State.{
  Raft, is_leader, is_candidate, int_length, AppendResponse, VoteResponse, majority_of, targets,
  last_log_index_term,
}
use vector_store.Raft.State.Frame.{advance_commit_index-OnlyCommits}
use vector_store.Raft.State.Commit.{IsSized}
use vector_store.Raft.Election.{
  Election, stand, win_if_alone, become_leader, start_election, election_tick, vote_reply,
}
use vector_store.Raft.Election.Winning.{elected-IsSized, become_leader-Leads}
use vector_store.Raft.Replication.{Round, reply_success, backtrack, reply_failure, append_reply}
use vector_store.Raft.Steps.Lists.{
  length-store, length-stored_if, OnlyCommits-IsSized, step_down-IsSized,
}

become_leader-IsSized :
    (rf : Raft) → is_candidate rf.role ≡ true → IsSized rf → Ensures IsSized (become_leader rf)
become_leader-IsSized rf stands s =
    let (rf', ran, (c, is, highest)) = become_leader-Leads rf s stands in
    let e = elected-IsSized rf s in
    rw ran (
      returned (
        rw is (record {
          matches = e.matches;
          nexts = e.nexts;
          clients = e.clients;
          self = e.self;
          commits = elim highest [
            | inl (same, _) ↦ rw same s.commits
            | inr found ↦ rw found.1 (omega arith)
          ];
        })))

won-IsSized :
    (rf : Raft) (b : Bool)
    → is_candidate rf.role ≡ true
    → IsSized rf
    → Ensures IsSized (if b then become_leader rf else ok rf)
won-IsSized rf b stands s = Ensures-if b (λ _. become_leader-IsSized rf stands s) (λ _. returned s)

start_election-IsSized :
    (rf : Raft) (now : ℕ) → IsSized rf → Ensures (λ r. IsSized r.0) (start_election rf now)
unfolding start_election
start_election-IsSized rf now s = Ensures-bind (last_log_index_term (stand rf now)) λ last _.
    Ensures-bind (targets (stand rf now)) λ to _.
      Ensures-bind (win_if_alone (stand rf now)) λ rf' h. returned (
        Ensures-run (won-IsSized (stand rf now) (leb (majority_of rf) 1) refl (omega (arith, s))) h)

pub election_tick-IsSized :
    (rf : Raft) (begin now : ℕ)
    → IsSized rf
    → Ensures (λ r. IsSized r.0) (election_tick rf begin now)
unfolding election_tick
election_tick-IsSized rf begin now s =
    Ensures-if (not (is_leader rf.role) && ltb rf.heartbeat_time begin)
      (λ _.
        Ensures-bind (start_election rf now)
          λ r h. returned (Ensures-run (start_election-IsSized rf now s) h))
      (λ _. returned s)

pub vote_reply-IsSized :
    (rf : Raft) (e : Election) (resp : VoteResponse)
    → IsSized rf
    → Ensures (λ r. IsSized r.0) (vote_reply rf e resp)
unfolding vote_reply
vote_reply-IsSized rf e resp s =
    Ensures-if (ltb_ℤ rf.current_term resp.term) (λ _. returned (step_down-IsSized rf resp.term s))
      λ _.
        Ensures-if (not (is_candidate rf.role) || not (eqb_ℤ rf.current_term e.term))
          (λ _. returned s)
          λ running.
            Ensures-if (not resp.vote_granted) (λ _. returned s)
              λ _.
                Ensures-bind (if leb e.majority (e.votes + 1) then become_leader rf else ok rf)
                  λ rf' h.
                    returned (
                      Ensures-run (won-IsSized rf (leb e.majority (e.votes + 1)) (ground arith) s)
                        h)

reply_success-IsSized : (rf : Raft) (r : Round) → IsSized rf → Ensures IsSized (reply_success rf r)
unfolding reply_success
reply_success-IsSized rf r s =
    let new_match = r.prev_log_idx +ℤ int_length r.sent in
    Ensures-bind (load rf.match_index (pos r.peer)) λ m _.
      Ensures-bind
        (if ltb_ℤ m new_match
          then store rf.match_index (pos r.peer) new_match
          else ok rf.match_index)
        λ matches raised. Ensures-bind (load matches (pos r.peer)) λ m' _.
          Ensures-bind (store rf.next_index (pos r.peer) (m' +ℤ pos 1)) λ nexts stored.
            of_Ensures _ λ rf' h.
              OnlyCommits-IsSized _ rf'
                (record {
                  matches =
                      length-stored_if rf.match_index matches (pos r.peer) new_match
                        (ltb_ℤ m new_match) raised
                      ∙ s.matches;
                  nexts =
                      length-store rf.next_index nexts (pos r.peer) (m' +ℤ pos 1) stored ∙ s.nexts;
                  clients = s.clients;
                  self = s.self;
                  commits = s.commits;
                })
                (advance_commit_index-OnlyCommits _ rf' h)

reply_failure-IsSized :
    (rf : Raft) (r : Round) (resp : AppendResponse)
    → IsSized rf
    → Ensures IsSized (reply_failure rf r resp)
unfolding reply_failure
reply_failure-IsSized rf r resp s = Ensures-bind (backtrack rf.log resp) λ next _.
    Ensures-bind (store rf.next_index (pos r.peer) next) λ nexts stored.
      Ensures-bind (if ltb_ℤ next (pos 0) then store nexts (pos r.peer) (pos 0) else ok nexts)
        λ nexts' raised. returned (record {
          matches = s.matches;
          nexts =
              length-stored_if nexts nexts' (pos r.peer) (pos 0) (ltb_ℤ next (pos 0)) raised
              ∙ length-store rf.next_index nexts (pos r.peer) next stored
              ∙ s.nexts;
          clients = s.clients;
          self = s.self;
          commits = s.commits;
        })

pub append_reply-IsSized :
    (rf : Raft) (r : Round) (resp : AppendResponse)
    → IsSized rf
    → Ensures IsSized (append_reply rf r resp)
unfolding append_reply
append_reply-IsSized rf r resp s =
    Ensures-if (ltb_ℤ rf.current_term resp.term) (λ _. returned (step_down-IsSized rf resp.term s))
      λ _.
        Ensures-if (not (is_leader rf.role) || not (eqb_ℤ rf.current_term r.term)) (λ _. returned s)
          λ _.
            Ensures-if resp.success (λ _. reply_success-IsSized rf r s)
              (λ _. reply_failure-IsSized rf r resp s)
