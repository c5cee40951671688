-- ===== src/Raft/Steps/Leading.antt =====
-- What a node does to its log while it leads.
use vector_store.Prelude.{
  ℕ, Bool-cases, ◌≡◌, refl, sym, ap, ◌∙◌, ◌⊎◌, inl, inr, true, false, List, [], ◌∷◌, ◌++◌, arith,
  pos, ◌<ℤ◌, ltb_ℤ, ≤ℤ_antisymm, ◌≤ℤ◌, +ℤ_parts, ok, Ensures-run,
}
use mathlib.Core.List.{append-nil, append_assoc}
use vector_store.Raft.State.{
  Raft, Role, LogEntry, is_leader, is_candidate, AppendRequest, AppendResponse,
}
use vector_store.Raft.Replication.{append_entries}
use vector_store.Raft.Election.{Election}
use vector_store.Raft.Replication.Accept.{append_entries-Recognised}
use vector_store.Raft.Lifecycle.{CommandCodec}
use vector_store.Raft.Persistence.{StateCodec}
use vector_store.Raft.Steps.{
  Step, vote, append, tick, voted, appended, propose, applied, stopped, Steps, here, next,
}
use vector_store.Raft.Steps.Frames.{Grows, request_vote-Grows}
use vector_store.Raft.Steps.Elections.{vote_reply-Grows}
use vector_store.Raft.Steps.Replies.{
  append_reply-Grows, start-Grows, batch_sent-Grows, shutdown-Grows,
}
use vector_store.Raft.Steps.Votes.{Step-term}
use vector_store.Raft.Cluster.Roles.{
  Steady, request_vote-Steady, append_entries-Steady, append_reply-Steady, start-Steady,
  batch_sent-Steady, shutdown-Steady,
}
use vector_store.Raft.Cluster.Campaigns.{Ticked, election_tick-Ticked, vote_reply-Counted}

Extends : Raft → Raft → Type 0
Extends rf rf' = (added : List LogEntry) × (rf'.log ≡ rf.log ++ added)

-- Within a term no node starts to stand, only a candidate starts to lead, and the log of a leader
-- grows at its end.
record Leading (rf rf' : Raft) : Type 0 where
  stands : is_candidate rf'.role ≡ true → is_candidate rf.role ≡ true
  leads : is_leader rf'.role ≡ true → (is_leader rf.role ≡ true) ⊎ (is_candidate rf.role ≡ true)
  extends : is_leader rf'.role ≡ true → Extends rf rf'

Steady-Leading : (rf rf' : Raft) → Steady rf rf' → Grows rf rf' → Leading rf rf'
unfolding Extends
Steady-Leading rf rf' s g = record {
  stands = s.stands;
  leads = λ l. inl (s.leads l).0;
  extends = λ l. (g.added, g.appends);
}

append_entries-Extends :
    (rf rf' : Raft) (args : AppendRequest) (now : ℕ) (resp : AppendResponse)
    → append_entries rf args now ≡ ok (rf', resp)
    → is_leader rf'.role ≡ true
    → Extends rf rf'
unfolding Extends
append_entries-Extends rf rf' args now resp h l =
    elim (Ensures-run (append_entries-Recognised rf args now) h) [
      | inl (stale, same, _, _) ↦ ([], rw same (sym (append-nil rf.log)))
      | inr (current, same) ↦ let follows = ap (λ x. is_leader x.role) same in cc
    ]

-- A tick changes nothing, or begins the next term.
tick-later :
    (rf : Raft) (r : Raft × List Election)
    → Ticked rf r
    → (rf.current_term <ℤ r.0.current_term) ⊎ Leading rf r.0
unfolding Extends
tick-later rf (rf', []) same = inr (record {
  stands = rw same (λ h. h);
  leads = rw same (λ l. inl l);
  extends = λ l. ([], rw same (sym (append-nil rf.log)));
})
tick-later rf (rf', e ∷ es) entered =
    inl (rw (entered.term, entered.next) (omega (arith, +ℤ_parts rf.current_term (pos 1))))

leader-stands : (r : Role) → is_leader r ≡ true → is_candidate r ≡ false
leader-stands r h = ground arith

-- From a leader on: a later term, or no candidate, and, where it leads, the leader's log with more
-- entries.
Reigned : Raft → Raft → Type 0
Reigned rf a =
    (rf.current_term <ℤ a.current_term)
    ⊎ ((a.current_term ≡ rf.current_term)
        × (is_candidate a.role ≡ false)
        × (is_leader a.role ≡ true → Extends rf a))

Extends-trans : (rf a b : Raft) → Extends rf a → Extends a b → Extends rf b
unfolding Extends
Extends-trans rf a b (added, is) (more, then_is) =
    (added ++ more, then_is ∙ ap (λ log. log ++ more) is ∙ append_assoc rf.log added more)

Leading-Reigned :
    (rf a b : Raft)
    → Reigned rf a
    → (a.current_term <ℤ b.current_term) ⊎ Leading a b
    → a.current_term ≤ℤ b.current_term
    → Reigned rf b
unfolding Reigned
Leading-Reigned rf a b (inl past) step up = inl (omega arith)
Leading-Reigned rf a b (inr (at, stood, log)) (inl later) up = inl (rw at at later)
Leading-Reigned rf a b (inr (at, stood, log)) (inr k) up =
    let rf_up : rf.current_term ≤ℤ b.current_term = rw (← at) up in
    elim (Bool-cases (ltb_ℤ rf.current_term b.current_term)) [
      | inl later ↦ inl (ground arith)
      | inr no_later ↦ inr (
        ≤ℤ_antisymm b.current_term rf.current_term (ground arith) rf_up,
        elim (Bool-cases (is_candidate b.role)) [
          | inl stands ↦ let stands_before = k.stands stands in cc
          | inr none_stands ↦ none_stands
        ],
        λ l. elim (k.leads l) [
          | inl led ↦ Extends-trans rf a b (log led) (k.extends l)
          | inr stands ↦ cc
        ],
      )
    ]

module _ {F : Type 0} (commands : CommandCodec F) (states : StateCodec) where
  -- A step begins a later term, or goes on as in one term.
  Step-Leading :
      (rf rf' : Raft)
      → Step commands states rf rf'
      → (rf.current_term <ℤ rf'.current_term) ⊎ Leading rf rf'
  unfolding Extends
  Step-Leading rf rf' (vote args now resp h) = inr (
      Steady-Leading rf rf' (Ensures-run (request_vote-Steady rf args now) h)
        (Ensures-run (request_vote-Grows rf args now) h))
  Step-Leading rf rf' (append args now resp h) =
      let s = Ensures-run (append_entries-Steady rf args now) h in
      inr (record {
        stands = s.stands;
        leads = λ l. inl (s.leads l).0;
        extends = append_entries-Extends rf rf' args now resp h;
      })
  Step-Leading rf rf' (tick begin now started h) =
      tick-later rf (rf', started) (Ensures-run (election_tick-Ticked rf begin now) h)
  Step-Leading rf rf' (voted e e' resp h) =
      let c = Ensures-run (vote_reply-Counted rf e resp) h in
      let g = Ensures-run (vote_reply-Grows rf e resp) h in
      inr (record { stands = c.stands; leads = c.ran; extends = λ l. (g.added, g.appends) })
  Step-Leading rf rf' (appended r resp h) = inr (
      Steady-Leading rf rf' (Ensures-run (append_reply-Steady rf r resp) h)
        (Ensures-run (append_reply-Grows rf r resp) h))
  Step-Leading rf rf' (propose cmd index term accepted h) = inr (
      Steady-Leading rf rf' (Ensures-run (start-Steady commands rf cmd) h)
        (Ensures-run (start-Grows commands rf cmd) h))
  Step-Leading rf rf' (applied last h) =
      inr
        (Steady-Leading rf rf' (rw h (batch_sent-Steady rf last)) (rw h (batch_sent-Grows rf last)))
  Step-Leading rf rf' (stopped disk wrote renamed h) = inr (
      Steady-Leading rf rf' (rw h (shutdown-Steady states rf disk wrote renamed))
        (rw h (shutdown-Grows states rf disk wrote renamed)))

  Steps-Reigned :
      (rf a : Raft) → is_leader rf.role ≡ true → Steps commands states rf a → Reigned rf a
  unfolding Reigned Extends
  Steps-Reigned rf a led here =
      inr (refl, leader-stands rf.role led, λ _. ([], sym (append-nil rf.log)))
  Steps-Reigned rf b led (next {a} steps s) =
      Leading-Reigned rf a b (Steps-Reigned rf a led steps) (Step-Leading a b s)
        (Step-term commands states a b s)

  -- Leader append-only: where a node leads a term, and after whatever handlers in whatever order
  -- leads the same term, its log is the one that it had, with more entries at its end or none.
  pub leader-append_only :
      (rf rf' : Raft)
      → Steps commands states rf rf'
      → is_leader rf.role ≡ true
      → is_leader rf'.role ≡ true
      → rf'.current_term ≡ rf.current_term
      → (added : List LogEntry) × (rf'.log ≡ rf.log ++ added)
  unfolding Reigned Extends
  leader-append_only rf rf' steps led leads same = elim (Steps-Reigned rf rf' led steps) [
    | inl past ↦
        (let past' : rf.current_term <ℤ rf.current_term = rw same at past in absurd (omega arith))
    | inr (_, _, log) ↦ log leads
  ]
