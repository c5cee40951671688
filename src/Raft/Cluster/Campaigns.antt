-- ===== src/Raft/Cluster/Campaigns.antt =====
-- What the ticker and a vote's reply do to an election.
use vector_store.Prelude.{
  ℕ, ◌+◌, ◌/◌, ◌≤◌, ◌≡◌, refl, ap, ◌∙◌, ◌⊎◌, inl, inr, true, not, ◌||◌, ◌&&◌, List, [], ◌∷◌, map,
  ◌==◌, arith, length, ltb, leb, ℤ, pos, ◌+ℤ◌, ltb_ℤ, eqb_ℤ, eqb_ℤ→eq, int32, Ensures, returned,
  Ensures-bind, Ensures-if, Ensures-run, of_Ensures, Bool-cases,
}
use vector_store.Raft.State.{
  Raft, is_leader, is_candidate, VoteRequest, VoteResponse, step_down, majority_of, targets,
  last_log_index_term,
}
use vector_store.Raft.Election.{
  Election, stand, win_if_alone, become_leader, vote_request, start_election, election_tick,
  vote_reply, election_of,
}
use vector_store.Raft.Steps.Frames.{become_leader-Continues}
use vector_store.Raft.Cluster.{sent, call_to}
use vector_store.Raft.Cluster.Roles.{SameNode, SameNode-refl, become_leader-SameNode}

-- The reply changed the count by the vote that it brought, if any; a node that leads after it led
-- before, or has the majority.
pub record Counted (rf : Raft) (e : Election) (resp : VoteResponse) (r : Raft × Election)
    : Type 0 where
  pub same : SameNode rf r.0
  pub term : r.1.term ≡ e.term
  pub majority : r.1.majority ≡ e.majority
  pub votes : (r.1.votes ≡ e.votes) ⊎ ((r.1.votes ≡ e.votes + 1) × (resp.vote_granted ≡ true))
  pub leads :
      is_leader r.0.role ≡ true
      → ((is_leader rf.role ≡ true) × (r.0.current_term ≡ rf.current_term))
        ⊎ ((r.1.majority ≤ r.1.votes) × (r.0.current_term ≡ e.term))
  pub ran : is_leader r.0.role ≡ true → (is_leader rf.role ≡ true) ⊎ (is_candidate rf.role ≡ true)
  pub stands : is_candidate r.0.role ≡ true → is_candidate rf.role ≡ true

uncounted : (rf : Raft) (e : Election) (resp : VoteResponse) → Counted rf e resp (rf, e)
uncounted rf e resp = record {
  same = SameNode-refl rf;
  term = refl;
  majority = refl;
  votes = inl refl;
  leads = λ l. inl (l, refl);
  ran = λ l. inl l;
  stands = λ h. h;
}

pub vote_reply-Counted :
    (rf : Raft) (e : Election) (resp : VoteResponse)
    → Ensures (Counted rf e resp) (vote_reply rf e resp)
unfolding vote_reply step_down
vote_reply-Counted rf e resp =
    Ensures-if (ltb_ℤ rf.current_term resp.term)
      (λ later. returned (record {
        same = record { me = refl; addrs = refl };
        term = refl;
        majority = refl;
        votes = inl refl;
        leads = λ l. cc;
        ran = λ l. cc;
        stands = λ h. cc;
      }))
      λ _.
        Ensures-if (not (is_candidate rf.role) || not (eqb_ℤ rf.current_term e.term))
          (λ _. returned (uncounted rf e resp))
          λ running.
            Ensures-if (not resp.vote_granted) (λ _. returned (uncounted rf e resp))
              λ granted.
                let this_term : rf.current_term ≡ e.term =
                  eqb_ℤ→eq rf.current_term e.term (ground arith) in
                let stood : is_candidate rf.role ≡ true = ground arith in
                let yes_vote : resp.vote_granted ≡ true = ground arith in
                elim (Bool-cases (leb e.majority (e.votes + 1))) [
                  | inl enough ↦ rw enough (
                      Ensures-bind (become_leader rf) λ rf' h. returned (record {
                        same = (Ensures-run (become_leader-SameNode rf) h).0;
                        term = refl;
                        majority = refl;
                        votes = inr (refl, yes_vote);
                        leads = λ l. inr (
                          ground arith,
                          (Ensures-run (become_leader-SameNode rf) h).1 ∙ this_term,
                        );
                        ran = λ l. inr stood;
                        stands = λ h. stood;
                      }))
                  | inr short ↦ rw short (
                      returned (record {
                        same = SameNode-refl rf;
                        term = refl;
                        majority = refl;
                        votes = inr (refl, yes_vote);
                        leads = λ l. inl (l, refl);
                        ran = λ l. inl l;
                        stands = λ h. h;
                      }))
                ]

-- The node stands for the election: it is in its term, has given itself its vote, and asks for
-- votes in its own name.
pub record Entered (rf rf' : Raft) (e : Election) : Type 0 where
  pub same : SameNode rf rf'
  pub term : rf'.current_term ≡ e.term
  pub next : e.term ≡ rf.current_term +ℤ pos 1
  pub vote : rf'.voted_for ≡ pos rf.me
  pub votes : e.votes ≡ 1
  pub majority : e.majority ≡ length rf.addrs / 2 + 1
  pub asks :
      (p : ℕ) (req : VoteRequest)
      → call_to p e.requests ≡ sent req
      → (req.term ≡ int32 e.term) × (req.candidate_id ≡ int32 (pos rf.me))
  pub leads : is_leader rf'.role ≡ true → e.majority ≤ 1

abbrev pub Ticked : Raft → Raft × List Election → Type 0
Ticked rf (rf', []) = rf' ≡ rf
Ticked rf (rf', e ∷ es) = Entered rf rf' e

call_to-map :
    (p : ℕ) (to : List ℕ) (q req : VoteRequest)
    → call_to p (map (λ peer. (peer, q)) to) ≡ sent req
    → req ≡ q
unfolding call_to
call_to-map p [] q req h = cc
call_to-map p (peer ∷ to) q req h = elim (Bool-cases (p == peer)) [
  | inl here ↦ let is : sent q ≡ sent req = rw here at h in cc
  | inr later ↦ call_to-map p to q req (rw later at h)
]

-- The candidate, as it stands or as it won alone.
record Alone (base rf' : Raft) : Type 0 where
  same : SameNode base rf'
  term : rf'.current_term ≡ base.current_term
  vote : rf'.voted_for ≡ base.voted_for
  leads : is_leader rf'.role ≡ true → (is_leader base.role ≡ true) ⊎ (majority_of base ≤ 1)

win_if_alone-Alone : (base : Raft) → Ensures (Alone base) (win_if_alone base)
win_if_alone-Alone base =
    Ensures-if (leb (majority_of base) 1)
      (λ won. of_Ensures (become_leader base) λ rf' h.
        let (same, term) = Ensures-run (become_leader-SameNode base) h in
        let c = Ensures-run (become_leader-Continues base) h in
        record { same = same; term = term; vote = c.vote; leads = λ l. inr (ground arith) })
      (λ short.
        returned
          (record { same = SameNode-refl base; term = refl; vote = refl; leads = λ l. inl l }))

Alone-Entered :
    (rf rf' : Raft) (now : ℕ) (last : ℤ × ℤ) (to : List ℕ)
    → Alone (stand rf now) rf'
    → Entered rf rf' (election_of (stand rf now) last to)
Alone-Entered rf rf' now (last_idx, last_term) to a = record {
  same = record { me = a.same.me; addrs = a.same.addrs };
  term = a.term;
  next = refl;
  vote = a.vote;
  votes = refl;
  majority = refl;
  asks = λ p req h.
      let is =
        call_to-map p to
          (vote_request (stand rf now) (stand rf now).current_term last_idx last_term) req h in
      (ap (λ q. q.term) is, ap (λ q. q.candidate_id) is);
  leads = λ l. elim (a.leads l) [ inl led ↦ cc | inr alone ↦ alone ];
}

pub election_tick-Ticked :
    (rf : Raft) (begin now : ℕ) → Ensures (Ticked rf) (election_tick rf begin now)
unfolding election_tick start_election
election_tick-Ticked rf begin now =
    Ensures-if (not (is_leader rf.role) && ltb rf.heartbeat_time begin)
      (λ _.
        Ensures-bind (start_election rf now)
          λ (rf', e) h. returned (Ensures-run {P = λ r. Entered rf r.0 r.1} (entered rf now) h))
      (λ _. returned refl)
  where
    entered : (rf : Raft) (now : ℕ) → Ensures (λ r. Entered rf r.0 r.1) (start_election rf now)
    entered rf now = Ensures-bind (last_log_index_term (stand rf now)) λ last _.
        Ensures-bind (targets (stand rf now)) λ to _.
          Ensures-bind (win_if_alone (stand rf now)) λ rf' h.
            returned
              (Alone-Entered rf rf' now last to (Ensures-run (win_if_alone-Alone (stand rf now)) h))
