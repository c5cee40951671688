-- ===== src/Raft/Replication/Append.antt =====
-- AppendEntries, branch by branch.
use vector_store.Prelude.{
  ℕ, zero, suc, ◌≤◌, ◌<◌, ◌≡◌, ◌≢◌, refl, ◌⊎◌, inl, inr, true, false, arith, ◌++◌, List, ◌-ℤ◌, some,
  length, take, drop, get_elem?, get_elem?-some, ℤ, pos, minus_one, pos-+ℤ-one, minus_one-+ℤ-one,
  ◌≤ℤ◌, ◌<ℤ◌, ltb_ℤ, leb_ℤ, eqb_ℤ, eqb_ℤ→eq, eqb_ℤ_self, int32, ok, Bool-cases,
}
use vector_store.Raft.State.{
  Raft, LogEntry, AppendRequest, AppendResponse, int_length, follower, step_down,
}
use vector_store.Raft.Replication.{append_check, append_entries, commit_up_to}
use vector_store.Raft.Replication.Overwrite.{overwrite, append_all-overwrite}
use vector_store.Raft.Replication.Conflict.{HasTerm, IsRunStart, first_of_term-IsRunStart}

-- The index before the n-th entry, -1 for n = 0.
abbrev pub prev_of : ℕ → ℤ
prev_of zero = minus_one
prev_of (suc p) = pos p

-- The log after the entries that begin at n.
abbrev pub taken_log : Raft → AppendRequest → ℕ → List LogEntry
taken_log rf args n = take n rf.log ++ overwrite (drop n rf.log) args.entries

-- The commit index stays, unless the leader's is ahead of it: then it becomes the leader's, or the
-- last index of the log, whichever is less.
pub record Commits (leader_commit commit : ℤ) (size : ℕ) (commit' : ℤ) : Type 0 where
  pub stays : leader_commit ≤ℤ commit → commit' ≡ commit
  pub moves :
      commit <ℤ leader_commit
      → (commit' ≤ℤ leader_commit)
        × (commit' ≤ℤ prev_of size)
        × ((commit' ≡ leader_commit) ⊎ (commit' ≡ prev_of size))

-- The log ends before the entry that precedes the new ones.
abbrev pub TooShort : Raft → ℕ → AppendResponse → Raft × AppendResponse → Type 0
TooShort rf n resp r =
    (length rf.log < n)
    × (r ≡ (
      rf,
      record resp { conflict_index = int32 (int_length rf.log); conflict_term = minus_one },
    ))

-- That entry has another term, whose run of entries begins at `start`.
pub record Conflicts (rf : Raft) (args : AppendRequest) (n : ℕ) (resp : AppendResponse)
    (r : Raft × AppendResponse) : Type 0 where
  pub index : ℕ
  pub index_eq : n ≡ suc index
  pub entry : LogEntry
  pub found : get_elem? rf.log index ≡ some entry
  pub differs : entry.term ≢ args.prev_log_term
  pub start : ℕ
  pub run : IsRunStart rf.log entry.term index start
  pub result :
      r ≡ (rf, record resp { conflict_term = int32 entry.term; conflict_index = int32 (pos start) })

-- That entry is there with the term that the leader gives, or there is none to compare.
abbrev pub Consistent : Raft → AppendRequest → ℕ → Type 0
Consistent rf args zero = Unit {0}
Consistent rf args (suc p) = HasTerm rf.log p args.prev_log_term

pub record Accepts (rf : Raft) (args : AppendRequest) (n : ℕ) (resp : AppendResponse)
    (r : Raft × AppendResponse) : Type 0 where
  pub fits : n ≤ length rf.log
  pub consistent : Consistent rf args n
  pub commit : ℤ
  pub commits : Commits args.leader_commit rf.commit_index (length (taken_log rf args n)) commit
  pub result : r ≡ (
    record rf { log = taken_log rf args n; commit_index = commit },
    record resp { success = true },
  )

abbrev pub Checked : Raft → AppendRequest → ℕ → AppendResponse → Raft × AppendResponse → Type 0
Checked rf args n resp r =
    TooShort rf n resp r ⊎ Conflicts rf args n resp r ⊎ Accepts rf args n resp r

last_index : (size : ℕ) → pos size -ℤ pos 1 ≡ prev_of size
unfolding ◌-ℤ◌
last_index zero = refl
last_index (suc n) = ground arith

commit_up_to-Commits :
    (lc commit : ℤ) (log : List LogEntry)
    → Commits lc commit (length log) (commit_up_to lc log commit)
commit_up_to-Commits lc commit log =
    rw (last_index (length log)) (elim (Bool-cases (ltb_ℤ commit lc)) [
      | inr behind ↦
          rw behind (record { stays = λ _. refl; moves = λ ahead. absurd (ground arith) })
      | inl ahead ↦ elim (Bool-cases (ltb_ℤ (prev_of (length log)) lc)) [
        | inl beyond ↦
            rw (ahead, beyond)
              (record {
                stays = λ behind. absurd (ground arith);
                moves = λ _. (ground arith, omega arith, inr refl);
              })
        | inr within ↦
            rw (ahead, within)
              (record {
                stays = λ behind. absurd (ground arith);
                moves = λ _. (omega arith, ground arith, inl refl);
              })
      ]
    ])

-- The node and its answer after it took the entries.
abbrev accepted : Raft → AppendRequest → ℕ → AppendResponse → Raft × AppendResponse
accepted rf args n resp =
    let log = taken_log rf args n in
    (
      record rf { log = log; commit_index = commit_up_to args.leader_commit log rf.commit_index },
      record resp { success = true },
    )

accepted-Accepts :
    (rf : Raft) (args : AppendRequest) (n : ℕ) (resp : AppendResponse)
    → n ≤ length rf.log
    → Consistent rf args n
    → Accepts rf args n resp (accepted rf args n resp)
accepted-Accepts rf args n resp fits consistent = record {
  fits = fits;
  consistent = consistent;
  commit = commit_up_to args.leader_commit (taken_log rf args n) rf.commit_index;
  commits = commit_up_to-Commits args.leader_commit rf.commit_index (taken_log rf args n);
  result = refl;
}

append_check-Checked :
    (rf : Raft) (args : AppendRequest) (n : ℕ) (resp : AppendResponse)
    → args.prev_log_index ≡ prev_of n
    → (r : Raft × AppendResponse) × (append_check rf args resp ≡ ok r) × Checked rf args n resp r
unfolding append_check
append_check-Checked rf args zero resp e = (
  accepted rf args 0 resp,
  rw (e, minus_one-+ℤ-one, append_all-overwrite 0 args.entries rf.log (omega arith)),
  inr (inr (accepted-Accepts rf args 0 resp (omega arith) tt)),
)
append_check-Checked rf args (suc p) resp e =
    let inside : leb_ℤ (pos 0) (pos p) ≡ true = ground arith in
    elim (Bool-cases (leb_ℤ (int_length rf.log) (pos p))) [
      | inl short ↦ (
        (rf, record resp { conflict_index = int32 (int_length rf.log); conflict_term = minus_one }),
        rw (e, inside, short),
        inl (ground arith, refl),
      )
      | inr long ↦
          let h : p < length rf.log = ground arith in
          let (x, found) = get_elem?-some rf.log p h in
          elim (Bool-cases (eqb_ℤ x.term args.prev_log_term)) [
            | inl same ↦ (
              accepted rf args (suc p) resp,
              rw (
                e,
                inside,
                long,
                found,
                same,
                pos-+ℤ-one p,
                append_all-overwrite (suc p) args.entries rf.log h,
              ),
              inr (
                  inr (
                    accepted-Accepts rf args (suc p) resp h
                      (x, found, eqb_ℤ→eq x.term args.prev_log_term same))),
            )
            | inr other ↦
                let (ci, scanned, run) = first_of_term-IsRunStart rf.log x.term p (omega arith) in
                (
                  (
                    rf,
                    record resp { conflict_term = int32 x.term; conflict_index = int32 (pos ci) },
                  ),
                  rw (e, inside, long, found, other, scanned),
                  inr (
                      inl (record {
                        index = p;
                        index_eq = refl;
                        entry = x;
                        found = found;
                        differs = λ same. ground (arith, eqb_ℤ_self args.prev_log_term);
                        start = ci;
                        run = run;
                        result = refl;
                      })),
                )
          ]
    ]

-- The node after the leader is recognised, when the request is not of an older term.
abbrev pub follower_of : Raft → AppendRequest → ℕ → Raft
follower_of rf args now = record rf {
  current_term = args.term;
  role = follower;
  voted_for = minus_one;
  leader_id = args.leader_id;
  heartbeat_time = now;
}

abbrev pub refusal : ℤ → AppendResponse
refusal term = record {
  term = int32 term;
  success = false;
  conflict_index = pos 0;
  conflict_term = minus_one;
}

abbrev pub Branches : Raft → AppendRequest → ℕ → ℕ → Raft × AppendResponse → Type 0
Branches rf args now n r =
    ((args.term <ℤ rf.current_term) × (r ≡ (rf, refusal rf.current_term)))
    ⊎ ((rf.current_term ≤ℤ args.term)
        × Checked (follower_of rf args now) args n (refusal args.term) r)

-- AppendEntries returns, for a PrevLogIndex of -1 or more. It refuses a request of an older term
-- and changes nothing. Otherwise it follows the sender; if its log ends before the entry that
-- precedes the new ones, it answers with its length; if that entry has another term, with that term
-- and the start of its run; else it takes the entries over its log, and where the leader's commit
-- index is ahead of its own, it commits up to the leader's or to its last entry, whichever is less.
pub append_entries-Branches :
    (rf : Raft) (args : AppendRequest) (now n : ℕ)
    → args.prev_log_index ≡ prev_of n
    → (r : Raft × AppendResponse) × (append_entries rf args now ≡ ok r) × Branches rf args now n r
unfolding append_entries step_down
append_entries-Branches rf args now n e = elim (Bool-cases (ltb_ℤ args.term rf.current_term)) [
  | inl stale ↦ ((rf, refusal rf.current_term), rw stale, inl (ground arith, refl))
  | inr current ↦
      let known : leb_ℤ rf.current_term args.term ≡ true = ground arith in
      let (r, runs, c) =
        append_check-Checked (follower_of rf args now) args n (refusal args.term) e in
      (r, rw (current, known) runs, inr (ground arith, c))
]
