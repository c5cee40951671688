-- ===== src/Raft/Steps/Lists.antt =====
-- RequestVote and AppendEntries keep lists that fit the cluster.
use vector_store.Prelude.{
  ℕ, ◌≡◌, refl, subst, inl, inr, Bool, true, false, not, arith, List, Bool-cases, ltb, length, set,
  length-set, ℤ, pos, negsuc, minus_one, ◌+ℤ◌, -ℤ_parts, ◌≤ℤ◌, ltb_ℤ, leb_ℤ, eqb_ℤ, pos_part, ok,
  load, store, ok-injective, if◌then◌else◌, Ensures, returned, Ensures-bind, Ensures-if,
}
use vector_store.Raft.State.{
  Raft, LogEntry, int_length, AppendRequest, AppendResponse, VoteRequest, step_down,
}
use vector_store.Raft.State.Frame.{OnlyCommits}
use vector_store.Raft.State.Commit.{IsSized}
use vector_store.Raft.Election.{request_vote}
use vector_store.Raft.Election.Vote.{request_vote-Outcome, caught_up}
use vector_store.Raft.Replication.{
  append_all, append_accept, append_check, append_entries, first_of_term, commit_up_to,
}

pub length-store :
    {A : Type 0} (xs ys : List A) (i : ℤ) (v : A) → store xs i v ≡ ok ys → length ys ≡ length xs
length-store xs ys (pos i) v h = elim (Bool-cases (ltb i (length xs))) [
  | inl inside ↦
      (let is : ok (set xs i v) ≡ ok ys = rw inside at h in
        subst (λ zs. length zs ≡ length xs) (ok-injective _ _ is) (length-set xs i v))
  | inr outside ↦ (let bad = rw outside at h in cc)
]
length-store xs ys (negsuc i) v h = cc

pub length-stored_if :
    {A : Type 0} (xs ys : List A) (i : ℤ) (v : A) (b : Bool)
    → (if b then store xs i v else ok xs) ≡ ok ys
    → length ys ≡ length xs
length-stored_if xs ys i v true h = length-store xs ys i v h
length-stored_if xs ys i v false h = subst (λ zs. length zs ≡ length xs) (ok-injective _ _ h) refl

pub OnlyCommits-IsSized : (rf rf' : Raft) → IsSized rf → OnlyCommits rf rf' → IsSized rf'
OnlyCommits-IsSized rf rf' s o =
    let up : minus_one ≤ℤ rf'.commit_index = omega (arith, s.commits, o.grows) in
    rw o.frame (record {
      matches = s.matches;
      nexts = s.nexts;
      clients = s.clients;
      self = s.self;
      commits = up;
    })

pub step_down-IsSized : (rf : Raft) (term : ℤ) → IsSized rf → IsSized (step_down rf term)
unfolding step_down
step_down-IsSized rf term s = omega (arith, s)

caught_up-IsSized : (rf : Raft) (args : VoteRequest) → IsSized rf → IsSized (caught_up rf args)
unfolding caught_up
caught_up-IsSized rf args s = elim (Bool-cases (ltb_ℤ rf.current_term args.term)) [
  | inl later ↦ rw later (step_down-IsSized rf args.term s)
  | inr current ↦ rw current s
]

pub request_vote-IsSized :
    (rf : Raft) (args : VoteRequest) (now : ℕ)
    → IsSized rf
    → Ensures (λ r. IsSized r.0) (request_vote rf args now)
request_vote-IsSized rf args now s =
    let (r, e, o) = request_vote-Outcome rf args now in
    let c = caught_up-IsSized rf args s in
    rw e (returned (elim o [ inl (g, is) ↦ rw is (omega (arith, c)) | inr (g, is) ↦ rw is c ]))

commit_up_to-low :
    (lc : ℤ) (log : List LogEntry) (commit : ℤ)
    → minus_one ≤ℤ commit
    → minus_one ≤ℤ commit_up_to lc log commit
commit_up_to-low lc log commit h = ground (arith, -ℤ_parts (int_length log) (pos 1))

append_accept-IsSized :
    (rf : Raft) (args : AppendRequest) (resp : AppendResponse)
    → IsSized rf
    → Ensures (λ r. IsSized r.0) (append_accept rf args resp)
unfolding append_accept
append_accept-IsSized rf args resp s =
    Ensures-bind (append_all (args.prev_log_index +ℤ pos 1) args.entries rf.log) λ log _.
      returned (record {
        matches = s.matches;
        nexts = s.nexts;
        clients = s.clients;
        self = s.self;
        commits = commit_up_to-low args.leader_commit log rf.commit_index s.commits;
      })

append_check-IsSized :
    (rf : Raft) (args : AppendRequest) (resp : AppendResponse)
    → IsSized rf
    → Ensures (λ r. IsSized r.0) (append_check rf args resp)
unfolding append_check
append_check-IsSized rf args resp s =
    Ensures-if (leb_ℤ (pos 0) args.prev_log_index)
      (λ _.
        Ensures-if (leb_ℤ (int_length rf.log) args.prev_log_index) (λ _. returned s)
          λ _. Ensures-bind (load rf.log args.prev_log_index) λ e _.
            Ensures-if (not (eqb_ℤ e.term args.prev_log_term))
              (λ _.
                Ensures-bind (first_of_term rf.log e.term (pos_part args.prev_log_index))
                  λ ci _. returned s)
              (λ _. append_accept-IsSized rf args resp s))
      (λ _. append_accept-IsSized rf args resp s)

pub append_entries-IsSized :
    (rf : Raft) (args : AppendRequest) (now : ℕ)
    → IsSized rf
    → Ensures (λ r. IsSized r.0) (append_entries rf args now)
unfolding append_entries step_down
append_entries-IsSized rf args now s =
    Ensures-if (ltb_ℤ args.term rf.current_term) (λ _. returned s)
      λ current.
        let known : leb_ℤ rf.current_term args.term ≡ true = ground arith in
        rw known (append_check-IsSized _ args _ (omega (arith, s)))
