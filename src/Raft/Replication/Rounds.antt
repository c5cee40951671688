-- ===== src/Raft/Replication/Rounds.antt =====
-- A whole round of replication: the leader's request meets the follower's AppendEntries.
use vector_store.Prelude.{
  ℕ, zero, suc, ◌+◌, ◌≤◌, ◌≡◌, refl, ap, ◌∙◌, sym, inl, inr, true, arith, List, some, length, take,
  drop, get_elem?, get_elem?-take, get_elem?-drop, take-append_at, take-append-drop, length-take,
  length-drop, pos, ok,
}
use vector_store.Raft.State.{Raft, LogEntry, AppendRequest, AppendResponse}
use vector_store.Raft.Replication.{Round, build_round, append_entries}
use vector_store.Raft.Replication.Append.{
  taken_log, Branches, Consistent, append_entries-Branches, follower_of,
}
use vector_store.Raft.Replication.Overwrite.{overwrite, Matching-of, Matching, take-overwrite}
use vector_store.Raft.Replication.Wire.{FitsWire, PrevTerm, round_of, build_round-ok}

-- Raft's Log Matching property: logs that have an entry of one term at one index are the same up
-- to that index.
abbrev pub LogMatching : List LogEntry → List LogEntry → Type 0
LogMatching l f =
    (i : ℕ) (a b : LogEntry)
    → get_elem? l i ≡ some a
    → get_elem? f i ≡ some b
    → a.term ≡ b.term
    → take (suc i) l ≡ take (suc i) f

same_entry :
    (l f : List LogEntry) (i : ℕ) (a b : LogEntry)
    → LogMatching l f
    → get_elem? l i ≡ some a
    → get_elem? f i ≡ some b
    → a.term ≡ b.term
    → a ≡ b
same_entry l f i a b m la fb t =
    let in_l = get_elem?-take (suc i) l i (omega arith) in
    let in_f = get_elem?-take (suc i) f i (omega arith) in
    let prefixes = ap (λ xs. get_elem? xs i) (m i a b la fb t) in cc

drop-Matching : (l f : List LogEntry) (n : ℕ) → LogMatching l f → Matching (drop n f) (drop n l)
drop-Matching l f n m = Matching-of (drop n f) (drop n l) λ i o e fo le t. sym (
    same_entry l f (n + i) e o m (sym (get_elem?-drop n l i) ∙ le) (sym (get_elem?-drop n f i) ∙ fo)
      (sym t))

-- The check on the entry before the new ones makes the logs equal up to there.
same_prefix :
    (l f : Raft) (n : ℕ) (args : AppendRequest)
    → LogMatching l.log f.log
    → PrevTerm l.log n args.prev_log_term
    → Consistent f args n
    → take n f.log ≡ take n l.log
same_prefix l f zero args m p c = refl
same_prefix l f (suc i) args m (a, la, ta) (b, fb, tb) = sym (m i a b la fb (ta ∙ sym tb))

-- Taking the leader's entries gives the leader's log.
take-taken_log :
    (l f : Raft) (n : ℕ) (args : AppendRequest)
    → LogMatching l.log f.log
    → n ≤ length l.log
    → n ≤ length f.log
    → args.entries ≡ drop n l.log
    → take n f.log ≡ take n l.log
    → take (length l.log) (taken_log f args n) ≡ l.log
take-taken_log l f n args m hl hf sent prefix =
    let new = overwrite (drop n f.log) args.entries in
    let k = length (drop n l.log) in
    let whole : length l.log ≡ n + k = omega (arith, length-drop n l.log) in
    let kept : take k new ≡ drop n l.log =
      rw sent (take-overwrite (drop n f.log) (drop n l.log) (drop-Matching l.log f.log n m)) in
    let size : length (take n f.log) ≡ n = omega (arith, length-take n f.log) in
    rw whole
      (take-append_at n k (take n f.log) new size ∙ rw (kept, prefix) (take-append-drop n l.log))

after_success :
    (l f : Raft) (n now : ℕ) (args : AppendRequest) (r : Raft × AppendResponse)
    → n ≤ length l.log
    → LogMatching l.log f.log
    → PrevTerm l.log n args.prev_log_term
    → args.entries ≡ drop n l.log
    → Branches f args now n r
    → r.1.success ≡ true
    → take (length l.log) r.0.log ≡ l.log
after_success l f n now args r h m prev sent (inl (stale, is)) success =
    let refused = ap (λ (p : Raft × AppendResponse). p.1.success) is in cc
after_success l f n now args r h m prev sent (inr (cur, inl (short, is))) success =
    let refused = ap (λ (p : Raft × AppendResponse). p.1.success) is in cc
after_success l f n now args r h m prev sent (inr (cur, inr (inl c))) success =
    let refused = ap (λ (p : Raft × AppendResponse). p.1.success) c.result in cc
after_success l f n now args r h m prev sent (inr (cur, inr (inr a))) success =
    let base = follower_of f args now in
    rw a.result
      (take-taken_log l base n args m h a.fits sent (same_prefix l base n args m prev a.consistent))

-- A leader's round for a peer meets that peer's AppendEntries (whose logs match, with a next index
-- within the leader's log and numbers that fit the wire). Both return, and if the answer is a
-- success, the follower's log begins with the leader's whole log.
pub round_replicates :
    (l f : Raft) (peer n now : ℕ)
    → FitsWire l
    → get_elem? l.next_index peer ≡ some (pos n)
    → n ≤ length l.log
    → LogMatching l.log f.log
    → (round : Round) × (r : Raft × AppendResponse) × (build_round l peer l.current_term ≡ ok round)
      × (append_entries f round.request now ≡ ok r)
      × (r.1.success ≡ true → take (length l.log) r.0.log ≡ l.log)
round_replicates l f peer n now w next h m =
    let (t, built, prev) = build_round-ok l peer n w next h in
    let round = round_of l peer n t in
    let (r, ran, branch) = append_entries-Branches f round.request now n refl in
    (
      round,
      r,
      built,
      ran,
      λ success. after_success l f n now round.request r h m prev refl branch success,
    )
