-- ===== src/Raft/Steps/Frames.antt =====
-- What each handler leaves alone: the vote within a term, and the log of a node that is no follower.
use vector_store.Prelude.{
  ℕ, ◌≡◌, refl, sym, ap, ◌∙◌, ◌⊎◌, inl, inr, true, not, List, [], ◌∷◌, ◌++◌, arith, ltb, length, ℤ,
  pos, minus_one, ◌-ℤ◌, ◌≤ℤ◌, ◌<ℤ◌, ltb_ℤ, ok, store, if◌then◌else◌, Ensures, returned,
  Ensures-bind, Ensures-if, of_Ensures,
}
use mathlib.Core.List.{append-nil}
use vector_store.Raft.State.{
  Raft, LogEntry, is_candidate, int_length, VoteRequest, VoteResponse, step_down,
}
use vector_store.Raft.State.Frame.{OnlyCommits, advance_commit_index-OnlyCommits}
use vector_store.Raft.Election.{fill, become_leader, request_vote}
use vector_store.Raft.Election.Vote.{Grants, granted, Outcome, request_vote-Outcome, caught_up}

-- The term grows, or stays and keeps a vote that was given in it.
unfoldable pub VoteOrder : Raft → Raft → Type 0
VoteOrder rf rf' =
    (rf.current_term <ℤ rf'.current_term)
    ⊎ ((rf'.current_term ≡ rf.current_term)
        × ((rf.voted_for ≡ minus_one) ⊎ (rf'.voted_for ≡ rf.voted_for)))

pub VoteOrder-refl : (rf : Raft) → VoteOrder rf rf
unfolding VoteOrder
VoteOrder-refl rf = inr (refl, inr refl)

pub VoteOrder-trans : (a b c : Raft) → VoteOrder a b → VoteOrder b c → VoteOrder a c
unfolding VoteOrder
VoteOrder-trans a b c p q = ground arith

pub VoteOrder-term : (a b : Raft) → VoteOrder a b → a.current_term ≤ℤ b.current_term
unfolding VoteOrder
VoteOrder-term a b p = ground arith

-- A node that goes on in its term: what stays, and a log that only grows at its end.
pub record Continues (rf rf' : Raft) : Type 0 where
  pub term : rf'.current_term ≡ rf.current_term
  pub vote : rf'.voted_for ≡ rf.voted_for
  pub added : List LogEntry
  pub appends : rf'.log ≡ rf.log ++ added

pub OnlyCommits-Continues :
    (rf base rf' : Raft) (added : List LogEntry)
    → base.current_term ≡ rf.current_term
    → base.voted_for ≡ rf.voted_for
    → base.log ≡ rf.log ++ added
    → OnlyCommits base rf'
    → Continues rf rf'
OnlyCommits-Continues rf base rf' added t v l o = record {
  term = ap (λ r. r.current_term) o.frame ∙ t;
  vote = ap (λ r. r.voted_for) o.frame ∙ v;
  added = added;
  appends = ap (λ r. r.log) o.frame ∙ l;
}

pub Continues-refl : (rf : Raft) → Continues rf rf
Continues-refl rf = record {
  term = refl;
  vote = refl;
  added = [];
  appends = sym (append-nil rf.log);
}

pub become_leader-Continues : (rf : Raft) → Ensures (Continues rf) (become_leader rf)
unfolding become_leader
become_leader-Continues rf =
    Ensures-if (not (is_candidate rf.role)) (λ _. returned (Continues-refl rf))
      λ _. Ensures-bind (fill rf.addrs rf.next_index (int_length rf.log)) λ nexts _.
        Ensures-bind (fill rf.addrs rf.match_index minus_one) λ blank _.
          Ensures-bind
            (if ltb 0 (length rf.log)
              then store blank (pos rf.me) (int_length rf.log -ℤ pos 1)
              else ok blank)
            λ own _.
              Ensures-bind (store own (pos rf.me) (int_length (rf.log ++ noop ∷ []) -ℤ pos 1))
                λ matches _. of_Ensures _ λ rf' h.
                  OnlyCommits-Continues rf _ rf' (noop ∷ []) refl refl refl
                    (advance_commit_index-OnlyCommits _ rf' h)
  where
    noop : LogEntry
    noop = record { term = rf.current_term; command = [] }

-- What every handler but AppendEntries does to the vote and the log.
pub record Grows (rf rf' : Raft) : Type 0 where
  pub order : VoteOrder rf rf'
  pub added : List LogEntry
  pub appends : rf'.log ≡ rf.log ++ added

pub Continues-Grows : (rf rf' : Raft) → Continues rf rf' → Grows rf rf'
unfolding VoteOrder
Continues-Grows rf rf' c = record {
  order = inr (c.term, inr c.vote);
  added = c.added;
  appends = c.appends;
}

pub Grows-refl : (rf : Raft) → Grows rf rf
Grows-refl rf = Continues-Grows rf rf (Continues-refl rf)

-- A node that goes on with the log as it is.
pub same_log : (rf rf' : Raft) → VoteOrder rf rf' → rf'.log ≡ rf.log → Grows rf rf'
same_log rf rf' o e = record { order = o; added = []; appends = e ∙ sym (append-nil rf.log) }

pub step_down-Grows :
    (rf : Raft) (term : ℤ) → ltb_ℤ rf.current_term term ≡ true → Grows rf (step_down rf term)
unfolding step_down VoteOrder
step_down-Grows rf term h = same_log rf (step_down rf term) (inl (ground arith)) refl

caught_up-log : (rf : Raft) (args : VoteRequest) → (caught_up rf args).log ≡ rf.log
unfolding caught_up step_down
caught_up-log rf args = ground arith

granted-VoteOrder :
    (rf : Raft) (args : VoteRequest) (now : ℕ)
    → Grants rf args
    → VoteOrder rf (granted (caught_up rf args) args now).0
unfolding caught_up VoteOrder step_down
granted-VoteOrder rf args now g = ground (arith, g.free)

refused-VoteOrder : (rf : Raft) (args : VoteRequest) → VoteOrder rf (caught_up rf args)
unfolding caught_up VoteOrder step_down
refused-VoteOrder rf args = ground arith

Outcome-Grows :
    (rf : Raft) (args : VoteRequest) (now : ℕ) (r : Raft × VoteResponse)
    → Outcome rf args now r
    → Grows rf r.0
Outcome-Grows rf args now r (inl (g, same)) =
    rw same (same_log rf _ (granted-VoteOrder rf args now g) (caught_up-log rf args))
Outcome-Grows rf args now r (inr (g, same)) =
    rw same (same_log rf _ (refused-VoteOrder rf args) (caught_up-log rf args))

pub request_vote-Grows :
    (rf : Raft) (args : VoteRequest) (now : ℕ)
    → Ensures (λ r. Grows rf r.0) (request_vote rf args now)
request_vote-Grows rf args now =
    let (r, e, o) = request_vote-Outcome rf args now in
    rw e (returned (Outcome-Grows rf args now r o))
