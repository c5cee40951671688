-- ===== src/Raft/Election/Winning.antt =====
-- Winning an election: becomeLeader, and the counting of votes by sendRequestVote.
use Prim.Native.String.{String}
use vector_store.Prelude.{
  ℕ, zero, suc, ◌+◌, ◌≤◌, ◌<◌, ◌≡◌, refl, ap, ◌∙◌, ◌⊎◌, inl, inr, true, false, Bool-cases, not,
  ◌||◌, arith, List, [], ◌∷◌, ◌++◌, ltb, leb, set, replicate, length, length-set, length-append,
  length-replicate, if◌then◌else◌, ℤ, pos, minus_one, ◌-ℤ◌, ◌≤ℤ◌, ◌<ℤ◌, ltb_ℤ, eqb_ℤ, eqb_ℤ→eq,
  eqb_ℤ_self, ok, store,
}
use vector_store.Raft.State.{
  Raft, LogEntry, leader, is_candidate, VoteResponse, int_length, step_down,
}
use vector_store.Raft.State.Commit.{IsSized, Highest, advance_commit_index-Highest}
use vector_store.Raft.Lifecycle.Submission.{grown_last}
use vector_store.Raft.Election.{Election, fill, become_leader, vote_reply}

set_twice : (xs : List ℤ) (i : ℕ) (v w : ℤ) → set (set xs i v) i w ≡ set xs i w
set_twice [] i v w = refl
set_twice (x ∷ xs) zero v w = refl
set_twice (x ∷ xs) (suc i) v w = ap (◌∷◌ x) (set_twice xs i v w)

fill-replicate :
    (addrs : List String) (xs : List ℤ) (v : ℤ)
    → length xs ≡ length addrs
    → fill addrs xs v ≡ ok (replicate (length addrs) v)
unfolding fill
fill-replicate [] [] v h = refl
fill-replicate [] (x ∷ xs) v h = absurd (omega arith)
fill-replicate (a ∷ addrs) [] v h = absurd (omega arith)
fill-replicate (a ∷ addrs) (x ∷ xs) v h = rw (fill-replicate addrs xs v (omega arith)) refl

-- A new leader, before its first look at the commit index: every peer is taken to have its whole
-- log, and none is known to have any of it but the node itself; the log ends in a no-op of its term.
abbrev pub elected : Raft → Raft
elected rf = record rf {
  role = leader;
  leader_id = pos rf.me;
  next_index = replicate (length rf.addrs) (int_length rf.log);
  match_index = set (replicate (length rf.addrs) minus_one) rf.me (int_length rf.log);
  log = rf.log ++ record { term = rf.current_term; command = [] } ∷ [];
}

-- The node leads, and has committed what it may.
abbrev pub Leads : Raft → Raft → Type 0
Leads rf rf' =
    (c : ℤ) × (rf' ≡ record (elected rf) { commit_index = c })
    × Highest (elected rf) (suc (length rf.log)) c

pub elected-IsSized : (rf : Raft) → IsSized rf → IsSized (elected rf)
elected-IsSized rf s = record {
  matches =
      length-set (replicate (length rf.addrs) minus_one) rf.me (int_length rf.log)
      ∙ length-replicate (length rf.addrs) minus_one;
  nexts = length-replicate (length rf.addrs) (int_length rf.log);
  clients = s.clients;
  self = s.self;
  commits = s.commits;
}

-- The list after `if len(log) > 0 { matchIndex[me] = last }`, which the next store overwrites.
own_place :
    (blank : List ℤ) (me len : ℕ) (last : ℤ)
    → me < length blank
    → (own : List ℤ) × ((if ltb 0 len then store blank (pos me) last else ok blank) ≡ ok own)
      × (ltb me (length own) ≡ true)
      × ((v : ℤ) → set own me v ≡ set blank me v)
own_place blank me zero last h = (blank, refl, ground arith, λ v. refl)
own_place blank me (suc len) last h =
    let inside : ltb me (length blank) ≡ true = ground arith in
    let filled : ltb 0 (suc len) ≡ true = ground arith in
    (
      set blank me last,
      rw (inside, filled) refl,
      rw (length-set blank me last) inside,
      λ v. set_twice blank me last v,
    )

-- A candidate whose lists fit its cluster becomes leader without a panic: it takes every peer to
-- have its whole log, knows of its own entries only, ends its log in a no-op of its term, commits
-- the highest entry that this allows, and changes nothing else.
pub become_leader-Leads :
    (rf : Raft)
    → IsSized rf
    → is_candidate rf.role ≡ true
    → (rf' : Raft) × (become_leader rf ≡ ok rf') × Leads rf rf'
unfolding become_leader
become_leader-Leads rf s stands =
    let (c, ran, highest) = advance_commit_index-Highest (elected rf) (elected-IsSized rf s) in
    let no_op : LogEntry = record { term = rf.current_term; command = [] } in
    let size : length (rf.log ++ no_op ∷ []) ≡ suc (length rf.log) =
      omega (arith, length-append rf.log (no_op ∷ [])) in
    let blank = replicate (length rf.addrs) minus_one in
    let room : rf.me < length blank = rw (length-replicate (length rf.addrs) minus_one) s.self in
    let (own, stored, inside, same) =
      own_place blank rf.me (length rf.log) (int_length rf.log -ℤ pos 1) room in
    (
      record (elected rf) { commit_index = c },
      rw
          (
            stands,
            fill-replicate rf.addrs rf.next_index (int_length rf.log) s.nexts,
            fill-replicate rf.addrs rf.match_index minus_one s.matches,
            stored,
            grown_last rf.log no_op,
            inside,
            same (int_length rf.log),
          )
          ran,
      (c, refl, rw (← size) highest),
    )

-- The reply counts: the node is a candidate of the term that it was asked for, and has the vote.
pub record Counts (rf : Raft) (e : Election) (resp : VoteResponse) : Type 0 where
  pub stands : is_candidate rf.role ≡ true
  pub same_term : rf.current_term ≡ e.term
  pub granted : resp.vote_granted ≡ true

abbrev pub one_more : Election → Election
one_more e = record e { votes = e.votes + 1 }

abbrev pub Tally : Raft → Election → VoteResponse → Raft × Election → Type 0
Tally rf e resp r =
    ((rf.current_term <ℤ resp.term) × (r ≡ (step_down rf resp.term, e)))
    ⊎ ((resp.term ≤ℤ rf.current_term) × (¬ Counts rf e resp) × (r ≡ (rf, e)))
    ⊎ ((resp.term ≤ℤ rf.current_term)
        × Counts rf e resp
        × (r.1 ≡ one_more e)
        × (((e.votes + 1 < e.majority) × (r.0 ≡ rf)) ⊎ ((e.majority ≤ e.votes + 1) × Leads rf r.0)))

counted :
    (rf : Raft) (e : Election) (resp : VoteResponse)
    → IsSized rf
    → resp.term ≤ℤ rf.current_term
    → Counts rf e resp
    → (r : Raft × Election) × (vote_reply rf e resp ≡ ok r) × Tally rf e resp r
unfolding vote_reply
counted rf e resp s old c =
    let current : ltb_ℤ rf.current_term resp.term ≡ false = ground arith in
    let this_term : eqb_ℤ rf.current_term e.term ≡ true = rw c.same_term (eqb_ℤ_self e.term) in
    elim (Bool-cases (leb e.majority (e.votes + 1))) [
      | inl won ↦
          let (rf', ran, leads) = become_leader-Leads rf s c.stands in
          (
            (rf', one_more e),
            rw (current, c.stands, this_term, c.granted, won, ran) refl,
            inr (inr (old, c, refl, inr (ground arith, leads))),
          )
      | inr short ↦ (
        (rf, one_more e),
        rw (current, c.stands, this_term, c.granted, short) refl,
        inr (inr (old, c, refl, inl (ground arith, refl))),
      )
    ]

-- A vote reply never panics, on a node whose lists fit its cluster. A later term makes the node a
-- follower of that term. A reply to an election that is over, or a refusal, changes nothing. Any
-- other is counted: below the majority that is all, and with the majority the node leads.
pub vote_reply-Tally :
    (rf : Raft) (e : Election) (resp : VoteResponse)
    → IsSized rf
    → (r : Raft × Election) × (vote_reply rf e resp ≡ ok r) × Tally rf e resp r
unfolding vote_reply
vote_reply-Tally rf e resp s = elim (Bool-cases (ltb_ℤ rf.current_term resp.term)) [
  | inl later ↦ ((step_down rf resp.term, e), rw later refl, inl (ground arith, refl))
  | inr current ↦
      let old : resp.term ≤ℤ rf.current_term = ground arith in
      elim (Bool-cases (not (is_candidate rf.role) || not (eqb_ℤ rf.current_term e.term))) [
        | inl over ↦ (
          (rf, e),
          rw (current, over) refl,
          inr (inl (old, λ c. ground (arith, c.stands, c.same_term, eqb_ℤ_self e.term), refl)),
        )
        | inr running ↦ elim (Bool-cases resp.vote_granted) [
          | inl granted ↦ counted rf e resp s old (record {
            stands = ground arith;
            same_term = eqb_ℤ→eq rf.current_term e.term (ground arith);
            granted = granted;
          })
          | inr refused ↦
              ((rf, e), rw (current, running, refused) refl, inr (inl (old, λ c. cc, refl)))
        ]
      ]
]
