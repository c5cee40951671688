-- ===== src/Raft/Cluster/Roles.antt =====
-- Who a node is, and whether it leads, after each handler.
use vector_store.Prelude.{
  ℕ, ◌≡◌, refl, sym, ap, ◌∙◌, inl, inr, Bool, true, not, ◌||◌, [], ◌∷◌, ◌++◌, length, ltb, ℤ, pos,
  minus_one, ◌+ℤ◌, ◌-ℤ◌, ltb_ℤ, eqb_ℤ, ok, load, store, if◌then◌else◌, Ensures, returned,
  Ensures-bind, Ensures-if, Ensures-map, of_Ensures, Bool-cases,
}
use vector_store.Raft.State.{
  Raft, LogEntry, is_leader, is_candidate, int_length, VoteRequest, AppendRequest, AppendResponse,
  advance_commit_index, step_down,
}
use vector_store.Raft.State.Frame.{OnlyCommits, advance_commit_index-OnlyCommits}
use vector_store.Raft.Election.{fill, become_leader, request_vote}
use vector_store.Raft.Election.Vote.{request_vote-Outcome, caught_up}
use vector_store.Raft.Replication.{
  Round, append_entries, reply_success, backtrack, reply_failure, append_reply,
}
use vector_store.Raft.Replication.Accept.{append_entries-Recognised}
use vector_store.Raft.Lifecycle.{InsertCommand, CommandCodec, start, command_bytes, batch_sent}
use vector_store.Raft.Persistence.{StateCodec, Disk, WriteResult, shutdown}

-- The node is the same member of the same cluster.
pub record SameNode (rf rf' : Raft) : Type 0 where
  pub me : rf'.me ≡ rf.me
  pub addrs : rf'.addrs ≡ rf.addrs

pub SameNode-refl : (rf : Raft) → SameNode rf rf
SameNode-refl rf = record { me = refl; addrs = refl }

-- The node becomes no leader and no candidate: it leads afterwards only if it led that term before.
pub record Steady (rf rf' : Raft) : Type 0 where
  pub same : SameNode rf rf'
  pub leads :
      is_leader rf'.role ≡ true → (is_leader rf.role ≡ true) × (rf'.current_term ≡ rf.current_term)
  pub stands : is_candidate rf'.role ≡ true → is_candidate rf.role ≡ true

pub Steady-refl : (rf : Raft) → Steady rf rf
Steady-refl rf = record { same = SameNode-refl rf; leads = λ h. (h, refl); stands = λ h. h }

-- The node's role and term stay.
Steady-role :
    (rf rf' : Raft)
    → rf'.me ≡ rf.me
    → rf'.addrs ≡ rf.addrs
    → rf'.role ≡ rf.role
    → rf'.current_term ≡ rf.current_term
    → Steady rf rf'
Steady-role rf rf' m a r t = record {
  same = record { me = m; addrs = a };
  leads = λ h. (ap is_leader (sym r) ∙ h, t);
  stands = λ h. ap is_candidate (sym r) ∙ h;
}

OnlyCommits-Steady :
    (rf base rf' : Raft)
    → base.me ≡ rf.me
    → base.addrs ≡ rf.addrs
    → base.role ≡ rf.role
    → base.current_term ≡ rf.current_term
    → OnlyCommits base rf'
    → Steady rf rf'
OnlyCommits-Steady rf base rf' m a r t o =
    Steady-role rf rf' (ap (λ x. x.me) o.frame ∙ m) (ap (λ x. x.addrs) o.frame ∙ a)
      (ap (λ x. x.role) o.frame ∙ r) (ap (λ x. x.current_term) o.frame ∙ t)

pub step_down-Steady : (rf : Raft) (term : ℤ) → Steady rf (step_down rf term)
unfolding step_down
step_down-Steady rf term = record {
  same = record { me = refl; addrs = refl };
  leads = λ h. cc;
  stands = λ h. cc;
}

caught_up-Steady : (rf : Raft) (args : VoteRequest) → Steady rf (caught_up rf args)
unfolding caught_up
caught_up-Steady rf args = elim (Bool-cases (ltb_ℤ rf.current_term args.term)) [
  | inl later ↦ rw later (step_down-Steady rf args.term)
  | inr current ↦ rw current (Steady-refl rf)
]

pub request_vote-Steady :
    (rf : Raft) (args : VoteRequest) (now : ℕ)
    → Ensures (λ r. Steady rf r.0) (request_vote rf args now)
request_vote-Steady rf args now =
    let (r, e, o) = request_vote-Outcome rf args now in
    let s = caught_up-Steady rf args in
    rw e (
      returned (elim o [
        | inl (g, is) ↦ rw is (record {
          same = record { me = s.same.me; addrs = s.same.addrs };
          leads = s.leads;
          stands = s.stands;
        })
        | inr (g, is) ↦ rw is s
      ]))

pub append_entries-Steady :
    (rf : Raft) (args : AppendRequest) (now : ℕ)
    → Ensures (λ r. Steady rf r.0) (append_entries rf args now)
append_entries-Steady rf args now = Ensures-map (append_entries-Recognised rf args now) λ r h.
    elim h [
      | inl (stale, is, _, _) ↦ rw is (Steady-refl rf)
      | inr (current, is) ↦ record {
        same = record { me = ap (λ x. x.me) is; addrs = ap (λ x. x.addrs) is };
        leads = λ l. let follows = ap (λ x. is_leader x.role) is in cc;
        stands = λ l. let follows = ap (λ x. is_candidate x.role) is in cc;
      }
    ]

reply_success-Steady : (rf : Raft) (r : Round) → Ensures (Steady rf) (reply_success rf r)
unfolding reply_success
reply_success-Steady rf r =
    let new_match = r.prev_log_idx +ℤ int_length r.sent in
    Ensures-bind (load rf.match_index (pos r.peer)) λ m _.
      Ensures-bind
        (if ltb_ℤ m new_match
          then store rf.match_index (pos r.peer) new_match
          else ok rf.match_index)
        λ matches _. Ensures-bind (load matches (pos r.peer)) λ m' _.
          Ensures-bind (store rf.next_index (pos r.peer) (m' +ℤ pos 1)) λ nexts _.
            of_Ensures _ λ rf' h.
              OnlyCommits-Steady rf _ rf' refl refl refl refl
                (advance_commit_index-OnlyCommits _ rf' h)

reply_failure-Steady :
    (rf : Raft) (r : Round) (resp : AppendResponse) → Ensures (Steady rf) (reply_failure rf r resp)
unfolding reply_failure
reply_failure-Steady rf r resp = Ensures-bind (backtrack rf.log resp) λ next _.
    Ensures-bind (store rf.next_index (pos r.peer) next) λ nexts _.
      Ensures-bind (if ltb_ℤ next (pos 0) then store nexts (pos r.peer) (pos 0) else ok nexts)
        λ nexts' _. returned (Steady-role rf _ refl refl refl refl)

pub append_reply-Steady :
    (rf : Raft) (r : Round) (resp : AppendResponse) → Ensures (Steady rf) (append_reply rf r resp)
unfolding append_reply
append_reply-Steady rf r resp =
    Ensures-if (ltb_ℤ rf.current_term resp.term) (λ later. returned (step_down-Steady rf resp.term))
      λ _.
        Ensures-if (not (is_leader rf.role) || not (eqb_ℤ rf.current_term r.term))
          (λ _. returned (Steady-refl rf))
          λ _.
            Ensures-if resp.success (λ _. reply_success-Steady rf r)
              (λ _. reply_failure-Steady rf r resp)

module _ {F : Type 0} (codec : CommandCodec F) where
  pub start-Steady :
      (rf : Raft) (cmd : InsertCommand F) → Ensures (λ r. Steady rf r.0) (start codec rf cmd)
  unfolding start
  start-Steady rf cmd =
      Ensures-if (not (is_leader rf.role)) (λ _. returned (Steady-refl rf))
        λ _.
          Ensures-bind (store rf.match_index (pos rf.me) (int_length (rf.log ++ e ∷ []) -ℤ pos 1))
            λ matches _.
              Ensures-bind
                (advance_commit_index (record rf { log = rf.log ++ e ∷ []; match_index = matches }))
                λ rf' h. returned (
                  OnlyCommits-Steady rf _ rf' refl refl refl refl
                    (advance_commit_index-OnlyCommits _ rf' h))
    where
      e : LogEntry
      e = record { term = rf.current_term; command = command_bytes codec cmd }

pub batch_sent-Steady : (rf : Raft) (last : ℤ) → Steady rf (batch_sent rf last)
unfolding batch_sent
batch_sent-Steady rf last = elim (Bool-cases (ltb_ℤ rf.last_applied last)) [
  | inl more ↦ rw more (Steady-role rf _ refl refl refl refl)
  | inr none_left ↦ rw none_left (Steady-refl rf)
]

pub shutdown-Steady :
    (states : StateCodec) (rf : Raft) (disk : Disk) (wrote : WriteResult) (renamed : Bool)
    → Steady rf (shutdown states rf disk wrote renamed).0
unfolding shutdown
shutdown-Steady states rf disk wrote renamed = elim (Bool-cases (is_leader rf.role)) [
  | inl led ↦
      rw led
        (record { same = record { me = refl; addrs = refl }; leads = λ h. cc; stands = λ h. cc })
  | inr followed ↦ rw followed (Steady-role rf _ refl refl refl refl)
]

-- becomeLeader changes neither the term nor who the node is.
pub become_leader-SameNode :
    (rf : Raft)
    → Ensures (λ rf'. SameNode rf rf' × (rf'.current_term ≡ rf.current_term)) (become_leader rf)
unfolding become_leader
become_leader-SameNode rf =
    Ensures-if (not (is_candidate rf.role)) (λ _. returned (SameNode-refl rf, refl))
      λ _. Ensures-bind (fill rf.addrs rf.next_index (int_length rf.log)) λ nexts _.
        Ensures-bind (fill rf.addrs rf.match_index minus_one) λ blank _.
          Ensures-bind
            (if ltb 0 (length rf.log)
              then store blank (pos rf.me) (int_length rf.log -ℤ pos 1)
              else ok blank)
            λ own _.
              Ensures-bind (store own (pos rf.me) (int_length (rf.log ++ noop ∷ []) -ℤ pos 1))
                λ matches _. of_Ensures _ λ rf' h.
                  let o = advance_commit_index-OnlyCommits _ rf' h in
                  (
                    record { me = ap (λ x. x.me) o.frame; addrs = ap (λ x. x.addrs) o.frame },
                    ap (λ x. x.current_term) o.frame,
                  )
  where
    noop : LogEntry
    noop = record { term = rf.current_term; command = [] }
