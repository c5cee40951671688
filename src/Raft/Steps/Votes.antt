-- ===== src/Raft/Steps/Votes.antt =====
-- The term of a node never falls, and its vote within a term stands unless AppendEntries of that
-- term takes it back.
use vector_store.Prelude.{
  ℕ, ◌≡◌, ◌≢◌, refl, sym, ap, ◌∙◌, inl, inr, true, arith, minus_one, ◌≤ℤ◌, ◌<ℤ◌, ok, Ensures-run,
  ≤ℤ_antisymm,
}
use vector_store.Raft.State.{
  Raft, step_down, VoteRequest, VoteResponse, AppendRequest, AppendResponse,
}
use vector_store.Raft.State.Last.{last_info}
use vector_store.Raft.Election.{request_vote}
use vector_store.Raft.Election.Vote.{Grants, granted, IsUpToDate, request_vote-Outcome, caught_up}
use vector_store.Raft.Replication.{append_entries}
use vector_store.Raft.Replication.Accept.{append_entries-Recognised}
use vector_store.Raft.Lifecycle.{CommandCodec}
use vector_store.Raft.Persistence.{StateCodec}
use vector_store.Raft.Steps.{
  Step, vote, append, tick, voted, appended, propose, applied, stopped, Steps, here, next,
}
use vector_store.Raft.Steps.Frames.{
  VoteOrder, VoteOrder-refl, VoteOrder-trans, VoteOrder-term, request_vote-Grows,
}
use vector_store.Raft.Steps.Elections.{election_tick-Grows, vote_reply-Grows}
use vector_store.Raft.Steps.Replies.{
  append_reply-Grows, start-Grows, batch_sent-Grows, shutdown-Grows,
}

append_entries-VoteOrder :
    (rf rf' : Raft) (args : AppendRequest) (now : ℕ) (resp : AppendResponse)
    → append_entries rf args now ≡ ok (rf', resp)
    → args.term ≢ rf.current_term
    → VoteOrder rf rf'
unfolding VoteOrder
append_entries-VoteOrder rf rf' args now resp h other =
    elim (Ensures-run (append_entries-Recognised rf args now) h) [
      | inl (stale, same, _, _) ↦ rw same (inr (refl, inr refl))
      | inr (current, same) ↦ inl (
          rw (ap (λ r. r.current_term) same)
            (ground (arith, ≤ℤ_antisymm rf.current_term args.term)))
    ]

append_entries-term :
    (rf rf' : Raft) (args : AppendRequest) (now : ℕ) (resp : AppendResponse)
    → append_entries rf args now ≡ ok (rf', resp)
    → rf.current_term ≤ℤ rf'.current_term
append_entries-term rf rf' args now resp h =
    elim (Ensures-run (append_entries-Recognised rf args now) h) [
      | inl (stale, same, _, _) ↦ rw same (omega arith)
      | inr (current, same) ↦ rw (ap (λ r. r.current_term) same) current
    ]

module _ {F : Type 0} (commands : CommandCodec F) (states : StateCodec) where
  -- The step is no AppendEntries of the node's own term.
  abbrev pub KeepsVote : (rf rf' : Raft) → Step commands states rf rf' → Type 0
  KeepsVote rf rf' (append args now resp h) = args.term ≢ rf.current_term
  KeepsVote rf rf' _ = Unit {0}

  abbrev pub AllKeepVote : (rf rf' : Raft) → Steps commands states rf rf' → Type 0
  AllKeepVote rf rf' here = Unit {0}
  AllKeepVote rf rf' (next {a} {b} steps s) = AllKeepVote rf a steps × KeepsVote a b s

  pub Step-VoteOrder :
      (rf rf' : Raft) (s : Step commands states rf rf') → KeepsVote rf rf' s → VoteOrder rf rf'
  Step-VoteOrder rf rf' (vote args now resp h) k =
      (Ensures-run (request_vote-Grows rf args now) h).order
  Step-VoteOrder rf rf' (append args now resp h) k =
      append_entries-VoteOrder rf rf' args now resp h k
  Step-VoteOrder rf rf' (tick begin now started h) k =
      (Ensures-run (election_tick-Grows rf begin now) h).order
  Step-VoteOrder rf rf' (voted e e' resp h) k = (Ensures-run (vote_reply-Grows rf e resp) h).order
  Step-VoteOrder rf rf' (appended r resp h) k = (Ensures-run (append_reply-Grows rf r resp) h).order
  Step-VoteOrder rf rf' (propose cmd index term accepted h) k =
      (Ensures-run (start-Grows commands rf cmd) h).order
  Step-VoteOrder rf rf' (applied last h) k = rw h (batch_sent-Grows rf last).order
  Step-VoteOrder rf rf' (stopped disk wrote renamed h) k =
      rw h (shutdown-Grows states rf disk wrote renamed).order

  Steps-VoteOrder :
      (rf rf' : Raft) (steps : Steps commands states rf rf')
      → AllKeepVote rf rf' steps
      → VoteOrder rf rf'
  Steps-VoteOrder rf rf' here k = VoteOrder-refl rf
  Steps-VoteOrder rf rf' (next {a} {b} steps s) k =
      VoteOrder-trans rf a b (Steps-VoteOrder rf a steps k.0) (Step-VoteOrder a b s k.1)

  pub Step-term :
      (rf rf' : Raft) → Step commands states rf rf' → rf.current_term ≤ℤ rf'.current_term
  Step-term rf rf' (append args now resp h) = append_entries-term rf rf' args now resp h
  Step-term rf rf' s = VoteOrder-term rf rf' (Step-VoteOrder rf rf' s tt)

caught_up-term :
    (rf : Raft) (args : VoteRequest)
    → rf.current_term ≤ℤ args.term
    → (caught_up rf args).current_term ≡ args.term
unfolding caught_up step_down
caught_up-term rf args h = ground (arith, ≤ℤ_antisymm rf.current_term args.term)

-- A node that gave its vote is in the request's term, and remembers the candidate.
pub record Voted (rf rf' : Raft) (args : VoteRequest) : Type 0 where
  pub grants : Grants rf args
  pub term : rf'.current_term ≡ args.term
  pub vote : rf'.voted_for ≡ args.candidate_id

pub request_vote-Voted :
    (rf rf' : Raft) (args : VoteRequest) (now : ℕ) (resp : VoteResponse)
    → request_vote rf args now ≡ ok (rf', resp)
    → resp.vote_granted ≡ true
    → Voted rf rf' args
request_vote-Voted rf rf' args now resp h yes_vote =
    let (r, e, o) = request_vote-Outcome rf args now in
    let same : r ≡ (rf', resp) = cc in
    elim o [
      | inl (g, is) ↦
          let now_is : (rf', resp) ≡ granted (caught_up rf args) args now = sym same ∙ is in
          record {
            grants = g;
            term = ap (λ p. p.0.current_term) now_is ∙ caught_up-term rf args g.current;
            vote = ap (λ p. p.0.voted_for) now_is;
          }
      | inr (refused, is) ↦
          let is_false = ap (λ (p : Raft × VoteResponse). p.1.vote_granted) (sym same ∙ is) in cc
    ]

module _ {F : Type 0} (commands : CommandCodec F) (states : StateCodec) where
  -- Two votes of one node in one term go to one candidate, whatever handlers ran between them, if
  -- none of these is an AppendEntries of the node's own term (a candidate's id is not -1).
  pub request_vote_once :
      (rf rf₁ rf₂ rf₃ : Raft) (a b : VoteRequest) (now later : ℕ) (ra rb : VoteResponse)
      → request_vote rf a now ≡ ok (rf₁, ra)
      → ra.vote_granted ≡ true
      → (steps : Steps commands states rf₁ rf₂) → AllKeepVote commands states rf₁ rf₂ steps
      → request_vote rf₂ b later ≡ ok (rf₃, rb)
      → rb.vote_granted ≡ true
      → a.term ≡ b.term
      → a.candidate_id ≢ minus_one
      → a.candidate_id ≡ b.candidate_id
  unfolding VoteOrder
  request_vote_once rf rf₁ rf₂ rf₃ a b now later ra rb h ga steps kept k gb same real =
      let first = request_vote-Voted rf rf₁ a now ra h ga in
      let second = request_vote-Voted rf₂ rf₃ b later rb k gb in
      let order = Steps-VoteOrder commands states rf₁ rf₂ steps kept in
      ground (arith, order, first.term, first.vote, second.grants.current, second.grants.free)

Recognised-free :
    (rf rf' : Raft) (args : AppendRequest) (now : ℕ) (resp : AppendResponse)
    → append_entries rf args now ≡ ok (rf', resp)
    → args.term ≡ rf.current_term
    → (rf'.current_term ≡ rf.current_term) × (rf'.voted_for ≡ minus_one)
Recognised-free rf rf' args now resp h same =
    elim (Ensures-run (append_entries-Recognised rf args now) h) [
      | inl (stale, _, _, _) ↦
          let bad : rf.current_term <ℤ rf.current_term = rw same at stale in absurd (omega arith)
      | inr (current, is) ↦ (ap (λ r. r.current_term) is ∙ same, ap (λ r. r.voted_for) is)
    ]

-- AppendEntries of the node's own term takes its vote back: after it the node gives a vote of that
-- term to any candidate whose log is up to date, whomever it voted for before.
pub append_entries-forgets_vote :
    (rf rf' : Raft) (args : AppendRequest) (now later : ℕ) (resp : AppendResponse) (b : VoteRequest)
    → append_entries rf args now ≡ ok (rf', resp)
    → args.term ≡ rf.current_term
    → b.term ≡ rf.current_term
    → IsUpToDate b (last_info rf'.log)
    → (r : Raft × VoteResponse) × (request_vote rf' b later ≡ ok r)
      × (r.1.vote_granted ≡ true)
      × (r.0.voted_for ≡ b.candidate_id)
append_entries-forgets_vote rf rf' args now later resp b h own again recent =
    let (same_term, no_vote) = Recognised-free rf rf' args now resp h own in
    let g : Grants rf' b = record {
      current = rw (same_term, again) (omega arith);
      free = inr (inl no_vote);
      recent = recent;
    } in
    let (r, e, o) = request_vote-Outcome rf' b later in
    elim o [
      | inl (_, is) ↦ (r, e, ap (λ p. p.1.vote_granted) is, ap (λ p. p.0.voted_for) is)
      | inr (refused, _) ↦ absurd (refused g)
    ]
