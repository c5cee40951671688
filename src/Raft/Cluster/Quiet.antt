-- ===== src/Raft/Cluster/Quiet.antt =====
-- Handlers that take no part in an election of the term.
use vector_store.Prelude.{
  ℕ, ◌≡◌, ◌≢◌, sym, ap, ◌∙◌, inl, inr, true, arith, ℤ, ≤ℤ_antisymm, ok, Ensures-run,
}
use vector_store.Raft.State.{Raft, is_leader, VoteResponse, AppendRequest, AppendResponse}
use vector_store.Raft.Election.{Election}
use vector_store.Raft.Replication.{append_entries}
use vector_store.Raft.Replication.Accept.{append_entries-Recognised}
use vector_store.Raft.Lifecycle.{CommandCodec}
use vector_store.Raft.Persistence.{StateCodec}
use vector_store.Raft.Steps.{Step, vote, append, tick, voted, appended, propose, applied, stopped}
use vector_store.Raft.Steps.Votes.{Step-VoteOrder}
use vector_store.Raft.Cluster.{Elsewhere, Calm}
use vector_store.Raft.Cluster.Roles.{
  SameNode, Steady, request_vote-Steady, append_entries-Steady, append_reply-Steady, start-Steady,
  batch_sent-Steady, shutdown-Steady,
}
use vector_store.Raft.Cluster.Campaigns.{Counted, vote_reply-Counted}
use vector_store.Raft.Cluster.Invariant.{Bound, Bound-later}

append-Bound :
    (t : ℤ) (rf rf' : Raft) (args : AppendRequest) (now : ℕ) (resp : AppendResponse)
    → append_entries rf args now ≡ ok (rf', resp)
    → (args.term ≡ t → rf.current_term ≢ t)
    → (i : ℕ) → Bound t rf i
    → Bound t rf' i
append-Bound t rf rf' args now resp h calm i b =
    elim (Ensures-run (append_entries-Recognised rf args now) h) [
      | inl (_, same, _, _) ↦ rw same b
      | inr (current, same) ↦
          let term : rf'.current_term ≡ args.term = ap (λ r. r.current_term) same in
          inl (
            rw term (elim b [
              | inl past ↦ omega arith
              | inr (here, _) ↦ ground (arith, here, calm, ≤ℤ_antisymm t args.term)
            ]))
    ]

-- The node stays who it is, and leads the term only if it did.
pub record Quiet (t : ℤ) (rf rf' : Raft) : Type 0 where
  pub same : SameNode rf rf'
  pub leads :
      is_leader rf'.role ≡ true
      → rf'.current_term ≡ t
      → (is_leader rf.role ≡ true) × (rf.current_term ≡ t)

pub Steady-Quiet : (t : ℤ) (rf rf' : Raft) → Steady rf rf' → Quiet t rf rf'
Steady-Quiet t rf rf' s = record {
  same = s.same;
  leads = λ l at. let (led, stays) = s.leads l in (led, sym stays ∙ at);
}

Counted-Quiet :
    (t : ℤ) (rf rf' : Raft) (e e' : Election) (resp : VoteResponse)
    → Counted rf e resp (rf', e')
    → e.term ≢ t
    → Quiet t rf rf'
Counted-Quiet t rf rf' e e' resp k away = record {
  same = k.same;
  leads = λ l at. elim (k.leads l) [
    | inl (led, stays) ↦ (led, sym stays ∙ at)
    | inr (_, won) ↦ absurd (away (sym won ∙ at))
  ];
}

module _ {F : Type 0} (commands : CommandCodec F) (states : StateCodec) (n : ℕ) (t : ℤ) where
  -- A handler that takes no part in an election of the term.
  pub Step-Quiet :
      (rf rf' : Raft) (s : Step commands states rf rf')
      → Elsewhere commands states n t rf rf' s
      → Quiet t rf rf'
  Step-Quiet rf rf' (vote args now resp h) away =
      Steady-Quiet t rf rf' (Ensures-run (request_vote-Steady rf args now) h)
  Step-Quiet rf rf' (append args now resp h) away =
      Steady-Quiet t rf rf' (Ensures-run (append_entries-Steady rf args now) h)
  Step-Quiet rf rf' (tick begin now started h) away = absurd away
  Step-Quiet rf rf' (voted e e' resp h) away =
      Counted-Quiet t rf rf' e e' resp (Ensures-run (vote_reply-Counted rf e resp) h) away
  Step-Quiet rf rf' (appended r resp h) away =
      Steady-Quiet t rf rf' (Ensures-run (append_reply-Steady rf r resp) h)
  Step-Quiet rf rf' (propose cmd index term accepted h) away =
      Steady-Quiet t rf rf' (Ensures-run (start-Steady commands rf cmd) h)
  Step-Quiet rf rf' (applied last h) away = Steady-Quiet t rf rf' (rw h (batch_sent-Steady rf last))
  Step-Quiet rf rf' (stopped disk wrote renamed h) away =
      Steady-Quiet t rf rf' (rw h (shutdown-Steady states rf disk wrote renamed))

  pub Step-Bound :
      (rf rf' : Raft) (s : Step commands states rf rf')
      → Calm commands states n t rf rf' s
      → (i : ℕ) → Bound t rf i
      → Bound t rf' i
  Step-Bound rf rf' (append args now resp h) calm i b =
      append-Bound t rf rf' args now resp h calm i b
  Step-Bound rf rf' s calm i b =
      Bound-later t rf rf' i (Step-VoteOrder commands states rf rf' s tt) b
