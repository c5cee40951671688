-- ===== src/Raft/Replication.antt =====
-- internal/consensus/raft.go, log replication (§5.3): AppendEntries, and replicateToPeer's two
-- halves, before and after its RPC.
pub mod Accept
pub mod Overwrite
pub mod Conflict
pub mod Append
pub mod Wire
pub mod Rounds
pub mod Progress
use vector_store.Prelude.{
  ℕ, zero, suc, true, false, ◌&&◌, ◌||◌, not, List, [], ◌∷◌, ◌++◌, map, Option, none, some,
  if◌then◌else◌, length, take, drop, ℤ, pos, negsuc, pos_part, minus_one, ◌+ℤ◌, ◌-ℤ◌, ltb_ℤ, leb_ℤ,
  eqb_ℤ, int32, Run, ok, panic, ◌>>=◌, load, store,
}
use vector_store.Raft.State.{
  Raft, LogEntry, is_leader, AppendRequest, AppendResponse, int_length, step_down,
  advance_commit_index, targets,
}

-- for ci > 0 && log[ci-1].Term == ct { ci-- }
unfoldable pub first_of_term : List LogEntry → ℤ → ℕ → Run ℕ
first_of_term log ct zero = ok 0
first_of_term log ct (suc c) =
    let rest = first_of_term log ct c in
    load log (pos c) >>= λ e. if eqb_ℤ e.term ct then rest else ok (suc c)

-- The body of the loop over args.Entries, for the entry that belongs at idx.
unfoldable pub append_one : ℤ → LogEntry → List LogEntry → Run (List LogEntry)
append_one idx e log =
    if ltb_ℤ idx (int_length log)
    then (load log idx >>= λ old.
        ok (if not (eqb_ℤ old.term e.term) then take (pos_part idx) log ++ e ∷ [] else log))
    else ok (log ++ e ∷ [])

unfoldable pub append_all : ℤ → List LogEntry → List LogEntry → Run (List LogEntry)
unfolding append_one
append_all idx [] log = ok log
append_all idx (e ∷ es) log = append_one idx e log >>= λ log'. append_all (idx +ℤ pos 1) es log'

-- min(leaderCommit, last index), if leaderCommit is ahead
abbrev pub commit_up_to : ℤ → List LogEntry → ℤ → ℤ
commit_up_to lc log commit =
    let last = int_length log -ℤ pos 1 in
    if ltb_ℤ commit lc then (if ltb_ℤ last lc then last else lc) else commit

-- AppendEntries from its log append on.
unfoldable pub append_accept : Raft → AppendRequest → AppendResponse → Run (Raft × AppendResponse)
unfolding append_all
append_accept rf args resp =
    append_all (args.prev_log_index +ℤ pos 1) args.entries rf.log >>= λ log. ok (
      record rf { log = log; commit_index = commit_up_to args.leader_commit log rf.commit_index },
      record resp { success = true },
    )

-- AppendEntries from its log consistency check on.
unfoldable pub append_check : Raft → AppendRequest → AppendResponse → Run (Raft × AppendResponse)
unfolding append_accept first_of_term
append_check rf args resp =
    let prev = args.prev_log_index in
    let conflict : LogEntry → Run (Raft × AppendResponse) = λ e.
      first_of_term rf.log e.term (pos_part prev) >>= λ ci.
      ok (rf, record resp { conflict_term = int32 e.term; conflict_index = int32 (pos ci) }) in
    let compared : Run (Raft × AppendResponse) = load rf.log prev >>= λ e.
    if not (eqb_ℤ e.term args.prev_log_term) then conflict e else append_accept rf args resp in
    if leb_ℤ (pos 0) prev
    then (if leb_ℤ (int_length rf.log) prev
        then ok (
          rf,
          record resp { conflict_index = int32 (int_length rf.log); conflict_term = minus_one },
        )
        else compared)
    else append_accept rf args resp

-- The leader is recognised: back to follower at its term, and the election timer starts again.
abbrev pub recognise : Raft → AppendRequest → ℕ → Raft
recognise rf args now =
    let known : Raft =
      if leb_ℤ rf.current_term args.term
      then record (step_down rf args.term) { leader_id = args.leader_id }
      else rf in
    record known { heartbeat_time = now }

unfoldable pub append_entries : Raft → AppendRequest → ℕ → Run (Raft × AppendResponse)
unfolding append_check step_down
append_entries rf args now =
    let resp : AppendResponse = record {
      term = int32 rf.current_term;
      success = false;
      conflict_index = pos 0;
      conflict_term = minus_one;
    } in
    let rf' = recognise rf args now in
    if ltb_ℤ args.term rf.current_term
    then ok (rf, resp)
    else append_check rf' args (record resp { term = int32 rf'.current_term })

-- `log[i:]`
abbrev pub slice_from : List LogEntry → ℤ → Run (List LogEntry)
slice_from log (pos i) = ok (drop i log)
slice_from log (negsuc i) = panic

-- An entry as the wire carries it.
abbrev pub to_proto : LogEntry → LogEntry
to_proto e = record { term = int32 e.term; command = e.command }

-- One call of replicateToPeer: its local variables, and the request that it sends.
pub record Round : Type 0 where
  pub peer : ℕ
  pub term : ℤ
  pub prev_log_idx : ℤ
  pub sent : List LogEntry
  pub request : AppendRequest

abbrev pub prev_term_of : List LogEntry → ℤ → Run ℤ
prev_term_of log prev =
    if leb_ℤ (pos 0) prev && ltb_ℤ prev (int_length log)
    then (load log prev >>= λ e. ok e.term)
    else ok (pos 0)

unfoldable pub build_round : Raft → ℕ → ℤ → Run Round
build_round rf peer term = load rf.next_index (pos peer) >>= λ next_idx.
    let prev = next_idx -ℤ pos 1 in
    prev_term_of rf.log prev >>= λ prev_term.
    (if ltb_ℤ next_idx (int_length rf.log) then slice_from rf.log next_idx else ok []) >>= λ sent.
    ok (record {
      peer = peer;
      term = term;
      prev_log_idx = prev;
      sent = sent;
      request = record {
        term = int32 term;
        leader_id = int32 (pos rf.me);
        prev_log_index = int32 prev;
        prev_log_term = int32 prev_term;
        entries = map to_proto sent;
        leader_commit = int32 rf.commit_index;
      };
    })

-- `none`: no longer the leader of this term, so nothing is sent.
unfoldable pub replicate_to_peer : Raft → ℕ → ℤ → Run (Option Round)
unfolding build_round
replicate_to_peer rf peer term =
    if not (is_leader rf.role) || not (eqb_ℤ rf.current_term term)
    then ok none
    else (build_round rf peer term >>= λ r. ok (some r))

-- broadcastAppendEntries: the peers, each with the term captured at the call.
unfoldable pub broadcast : Raft → ℤ → Run (List (ℕ × ℤ))
broadcast rf term = targets rf >>= λ to. ok (map (λ peer. (peer, term)) to)

-- for j := len(log)-1; j >= 0; j-- { if log[j].Term == ct … }, from j = rounds - 1
unfoldable pub last_of_term : List LogEntry → ℤ → ℕ → Run ℤ
last_of_term log ct zero = ok minus_one
last_of_term log ct (suc j) =
    let rest = last_of_term log ct j in
    load log (pos j) >>= λ e. if eqb_ℤ e.term ct then ok (pos j) else rest

unfoldable pub reply_success : Raft → Round → Run Raft
reply_success rf r = do
  let new_match = r.prev_log_idx +ℤ int_length r.sent
  m ← load rf.match_index (pos r.peer)
  matches ←
      if ltb_ℤ m new_match then store rf.match_index (pos r.peer) new_match else ok rf.match_index
  m' ← load matches (pos r.peer)
  nexts ← store rf.next_index (pos r.peer) (m' +ℤ pos 1)
  advance_commit_index (record rf { match_index = matches; next_index = nexts })

-- Where a refused leader goes on, before the clamp.
unfoldable pub backtrack : List LogEntry → AppendResponse → Run ℤ
unfolding last_of_term
backtrack log resp =
    let searched : Run ℤ = last_of_term log resp.conflict_term (length log) >>= λ last.
    ok (if leb_ℤ (pos 0) last then last +ℤ pos 1 else resp.conflict_index) in
    if ltb_ℤ resp.conflict_term (pos 0) then ok resp.conflict_index else searched

unfoldable pub reply_failure : Raft → Round → AppendResponse → Run Raft
unfolding backtrack
reply_failure rf r resp = do
  next ← backtrack rf.log resp
  nexts ← store rf.next_index (pos r.peer) next
  nexts' ← if ltb_ℤ next (pos 0) then store nexts (pos r.peer) (pos 0) else ok nexts
  ok (record rf { next_index = nexts' })

-- replicateToPeer after its RPC returned `resp`; an RPC that fails changes nothing.
unfoldable pub append_reply : Raft → Round → AppendResponse → Run Raft
unfolding reply_success reply_failure step_down
append_reply rf r resp =
    if ltb_ℤ rf.current_term resp.term
    then ok (step_down rf resp.term)
    else if not (is_leader rf.role) || not (eqb_ℤ rf.current_term r.term)
    then ok rf
    else if resp.success
    then reply_success rf r
    else reply_failure rf r resp
