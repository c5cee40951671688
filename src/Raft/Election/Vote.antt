-- ===== src/Raft/Election/Vote.antt =====
-- RequestVote: when it grants a vote, and what it changes.
use vector_store.Prelude.{
  ℕ, ◌≡◌, refl, ◌⊎◌, ◌↔◌, inl, inr, Bool, true, false, not, ◌&&◌, arith, ℤ, minus_one, ◌≤ℤ◌, ◌<ℤ◌,
  ltb_ℤ, eqb_ℤ, eqb_ℤ→eq, eqb_ℤ_self, int32, ok, if◌then◌else◌, Bool-cases,
}
use vector_store.Raft.State.{Raft, VoteRequest, VoteResponse, step_down}
use vector_store.Raft.State.Last.{last_info, last_log_index_term-ok}
use vector_store.Raft.Election.{request_vote, request_vote_after, up_to_date}

-- The candidate's last entry is of a later term than (index, term), or of the same and not before.
abbrev pub IsUpToDate : VoteRequest → ℤ × ℤ → Type 0
IsUpToDate args (index, term) =
    (term <ℤ args.last_log_term) ⊎ ((args.last_log_term ≡ term) × (index ≤ℤ args.last_log_index))

-- The request may have the vote of this node.
pub record Grants (rf : Raft) (args : VoteRequest) : Type 0 where
  pub current : rf.current_term ≤ℤ args.term
  pub free :
      (rf.current_term <ℤ args.term)
      ⊎ ((rf.voted_for ≡ minus_one) ⊎ (rf.voted_for ≡ args.candidate_id))
  pub recent : IsUpToDate args (last_info rf.log)

up_to_date_iff :
    (args : VoteRequest) (info : ℤ × ℤ)
    → (up_to_date args info.0 info.1 ≡ true) ↔ IsUpToDate args info
up_to_date_iff args (index, term) =
    ground (arith, eqb_ℤ→eq args.last_log_term term, eqb_ℤ_self term)

abbrev pub granted : Raft → VoteRequest → ℕ → Raft × VoteResponse
granted rf args now = (
  record rf { voted_for = args.candidate_id; heartbeat_time = now },
  record { term = int32 rf.current_term; vote_granted = true },
)

-- The node as the request finds it, after the step down of rule 1.
unfoldable pub caught_up : Raft → VoteRequest → Raft
caught_up rf args = if ltb_ℤ rf.current_term args.term then step_down rf args.term else rf

-- The vote is given: it is recorded with the time, in the reply's term.
-- It is refused: nothing changes but for the step down, and the reply has the term before it.
abbrev pub Outcome : Raft → VoteRequest → ℕ → Raft × VoteResponse → Type 0
Outcome rf args now r =
    (Grants rf args × (r ≡ granted (caught_up rf args) args now))
    ⊎ ((¬ Grants rf args)
        × (r ≡ (caught_up rf args, record { term = int32 rf.current_term; vote_granted = false })))

-- The conditions on a node that has caught up with the request's term.
record Free (rf : Raft) (args : VoteRequest) : Type 0 where
  current : rf.current_term ≤ℤ args.term
  free : (rf.voted_for ≡ minus_one) ⊎ (rf.voted_for ≡ args.candidate_id)
  recent : IsUpToDate args (last_info rf.log)

abbrev taken : Raft → VoteRequest → Bool
taken rf args = not (eqb_ℤ rf.voted_for minus_one) && not (eqb_ℤ rf.voted_for args.candidate_id)

taken-free :
    (rf : Raft) (args : VoteRequest)
    → taken rf args ≡ false
    → (rf.voted_for ≡ minus_one) ⊎ (rf.voted_for ≡ args.candidate_id)
taken-free rf args h =
    ground (arith, eqb_ℤ→eq rf.voted_for minus_one, eqb_ℤ→eq rf.voted_for args.candidate_id)

free-taken :
    (rf : Raft) (args : VoteRequest)
    → taken rf args ≡ true
    → (rf.voted_for ≡ minus_one) ⊎ (rf.voted_for ≡ args.candidate_id)
    → ⊥
free-taken rf args h (inl e) = let e' : taken rf args ≡ false = rw e in cc
free-taken rf args h (inr e) = ground (arith, eqb_ℤ_self args.candidate_id)

abbrev AfterOutcome : Raft → VoteRequest → ℕ → VoteResponse → Raft × VoteResponse → Type 0
AfterOutcome rf args now resp r =
    (Free rf args × (r ≡ granted rf args now)) ⊎ ((¬ Free rf args) × (r ≡ (rf, resp)))

after-Outcome :
    (rf : Raft) (args : VoteRequest) (now : ℕ) (resp : VoteResponse)
    → (r : Raft × VoteResponse) × (request_vote_after rf args now resp ≡ ok r)
      × AfterOutcome rf args now resp r
after-Outcome rf args now resp = elim (Bool-cases (ltb_ℤ args.term rf.current_term)) [
  | inl stale ↦ ((rf, resp), rw stale, inr (λ f. ground (arith, f.current), refl))
  | inr current ↦ elim (Bool-cases (taken rf args)) [
    | inl other ↦
        ((rf, resp), rw (current, other), inr (λ f. free-taken rf args other f.free, refl))
    | inr free ↦
        let info = last_info rf.log in
        elim (Bool-cases (up_to_date args info.0 info.1)) [
          | inl recent ↦ (
            granted rf args now,
            rw (current, free, last_log_index_term-ok rf, recent),
            inl (
              record {
                current = ground arith;
                free = taken-free rf args free;
                recent = (up_to_date_iff args info).0 recent;
              },
              refl,
            ),
          )
          | inr behind ↦ (
            (rf, resp),
            rw (current, free, last_log_index_term-ok rf, behind),
            inr (λ f. cc ((up_to_date_iff args info).1 f.recent), refl),
          )
        ]
  ]
]

Free-caught_up : (rf : Raft) (args : VoteRequest) → Free (caught_up rf args) args → Grants rf args
unfolding caught_up step_down
Free-caught_up rf args f = elim (Bool-cases (ltb_ℤ rf.current_term args.term)) [
  | inl later ↦ record {
    current = ground arith;
    free = inl (ground arith);
    recent = rw later at f.recent;
  }
  | inr same ↦ record {
    current = ground (arith, f.current);
    free = inr (rw same at f.free);
    recent = rw same at f.recent;
  }
]

Grants-caught_up : (rf : Raft) (args : VoteRequest) → Grants rf args → Free (caught_up rf args) args
unfolding caught_up step_down
Grants-caught_up rf args g = elim (Bool-cases (ltb_ℤ rf.current_term args.term)) [
  | inl later ↦ rw later (record { current = omega arith; free = inl refl; recent = g.recent })
  | inr same ↦ rw same (record {
    current = g.current;
    free = elim g.free [ inl later ↦ absurd (ground arith) | inr free ↦ free ];
    recent = g.recent;
  })
]

-- RequestVote returns. It gives its vote exactly if the request is of no older term, the vote of
-- that term is free or the candidate's already, and the candidate's log is up to date; all that it
-- changes besides is the step down to a newer term.
pub request_vote-Outcome :
    (rf : Raft) (args : VoteRequest) (now : ℕ)
    → (r : Raft × VoteResponse) × (request_vote rf args now ≡ ok r) × Outcome rf args now r
unfolding request_vote caught_up
request_vote-Outcome rf args now =
    let resp : VoteResponse = record { term = int32 rf.current_term; vote_granted = false } in
    let (r, e, o) = after-Outcome (caught_up rf args) args now resp in
    (
      r,
      e,
      elim o [
        | inl (f, same) ↦ inl (Free-caught_up rf args f, same)
        | inr (none_free, same) ↦ inr (λ g. none_free (Grants-caught_up rf args g), same)
      ],
    )
