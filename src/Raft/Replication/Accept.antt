-- ===== src/Raft/Replication/Accept.antt =====
-- AppendEntries: what a node changes when it recognises a leader.
use vector_store.Prelude.{
  ℕ, ◌≡◌, refl, ◌⊎◌, inl, inr, true, false, not, arith, pos, minus_one, ◌≤ℤ◌, ◌<ℤ◌, ltb_ℤ, leb_ℤ,
  eqb_ℤ, pos_part, int32, load, Ensures, returned, Ensures-bind, Ensures-if, Ensures-map, ◌+ℤ◌,
}
use vector_store.Raft.State.{Raft, AppendRequest, AppendResponse, int_length, follower, step_down}
use vector_store.Raft.Replication.{
  append_all, append_accept, append_check, append_entries, first_of_term,
}

-- The node is `rf` but for its log and its commit index.
abbrev pub OnlyLog : Raft → Raft → Type 0
OnlyLog rf rf' = rf' ≡ record rf { log = rf'.log; commit_index = rf'.commit_index }

pub append_accept-OnlyLog :
    (rf : Raft) (args : AppendRequest) (resp : AppendResponse)
    → Ensures (λ r. OnlyLog rf r.0) (append_accept rf args resp)
unfolding append_accept
append_accept-OnlyLog rf args resp =
    Ensures-bind (append_all (args.prev_log_index +ℤ pos 1) args.entries rf.log)
      λ log _. returned refl

pub append_check-OnlyLog :
    (rf : Raft) (args : AppendRequest) (resp : AppendResponse)
    → Ensures (λ r. OnlyLog rf r.0) (append_check rf args resp)
unfolding append_check
append_check-OnlyLog rf args resp =
    Ensures-if (leb_ℤ (pos 0) args.prev_log_index)
      (λ _.
        Ensures-if (leb_ℤ (int_length rf.log) args.prev_log_index) (λ _. returned refl)
          λ _. Ensures-bind (load rf.log args.prev_log_index) λ e _.
            Ensures-if (not (eqb_ℤ e.term args.prev_log_term))
              (λ _.
                Ensures-bind (first_of_term rf.log e.term (pos_part args.prev_log_index))
                  λ ci _. returned refl)
              (λ _. append_accept-OnlyLog rf args resp))
      (λ _. append_accept-OnlyLog rf args resp)

abbrev pub Recognised : Raft → AppendRequest → ℕ → Raft × AppendResponse → Type 0
Recognised rf args now r =
    ((args.term <ℤ rf.current_term)
      × (r.0 ≡ rf)
      × (r.1.success ≡ false)
      × (r.1.term ≡ int32 rf.current_term))
    ⊎ ((rf.current_term ≤ℤ args.term)
        × OnlyLog
            (record rf {
              current_term = args.term;
              role = follower;
              voted_for = minus_one;
              leader_id = args.leader_id;
              heartbeat_time = now;
            })
            r.0)

-- Where AppendEntries returns: a request of an older term is refused with the node's term and
-- changes nothing; any other leaves a follower of its sender, in the request's term and with no
-- vote, that differs from before in nothing else but its log and its commit index.
pub append_entries-Recognised :
    (rf : Raft) (args : AppendRequest) (now : ℕ)
    → Ensures (Recognised rf args now) (append_entries rf args now)
unfolding append_entries step_down
append_entries-Recognised rf args now =
    Ensures-if (ltb_ℤ args.term rf.current_term)
      (λ stale. returned (inl (ground arith, refl, refl, refl)))
      λ current.
        let known : leb_ℤ rf.current_term args.term ≡ true = ground arith in
        rw known (Ensures-map (append_check-OnlyLog _ args _) λ r same. inr (ground arith, same))
