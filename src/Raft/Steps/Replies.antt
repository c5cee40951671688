-- ===== src/Raft/Steps/Replies.antt =====
-- Start, the treatment of an AppendEntries reply, the apply loop and Shutdown: the vote and the log.
use vector_store.Prelude.{
  refl, sym, Bool, not, ◌||◌, [], ◌∷◌, ◌++◌, arith, ℤ, pos, ◌+ℤ◌, ◌-ℤ◌, ltb_ℤ, eqb_ℤ, ok, load,
  store, if◌then◌else◌, Ensures, returned, Ensures-bind, Ensures-if, Ensures-map, of_Ensures,
}
use vector_store.Raft.State.{
  Raft, LogEntry, is_leader, int_length, AppendResponse, advance_commit_index,
}
use vector_store.Raft.State.Frame.{advance_commit_index-OnlyCommits}
use vector_store.Raft.Replication.{Round, reply_success, backtrack, reply_failure, append_reply}
use vector_store.Raft.Lifecycle.{InsertCommand, CommandCodec, start, command_bytes, batch_sent}
use vector_store.Raft.Persistence.{StateCodec, Disk, WriteResult, shutdown}
use vector_store.Raft.Steps.Frames.{
  VoteOrder, Continues, Continues-Grows, OnlyCommits-Continues, Grows, Grows-refl, same_log,
  step_down-Grows,
}
use mathlib.Core.List.{append-nil}

reply_success-Continues : (rf : Raft) (r : Round) → Ensures (Continues rf) (reply_success rf r)
unfolding reply_success
reply_success-Continues rf r =
    let new_match = r.prev_log_idx +ℤ int_length r.sent in
    Ensures-bind (load rf.match_index (pos r.peer)) λ m _.
      Ensures-bind
        (if ltb_ℤ m new_match
          then store rf.match_index (pos r.peer) new_match
          else ok rf.match_index)
        λ matches _. Ensures-bind (load matches (pos r.peer)) λ m' _.
          Ensures-bind (store rf.next_index (pos r.peer) (m' +ℤ pos 1)) λ nexts _.
            of_Ensures _ λ rf' h.
              OnlyCommits-Continues rf _ rf' [] refl refl (sym (append-nil rf.log))
                (advance_commit_index-OnlyCommits _ rf' h)

reply_failure-Continues :
    (rf : Raft) (r : Round) (resp : AppendResponse)
    → Ensures (Continues rf) (reply_failure rf r resp)
unfolding reply_failure
reply_failure-Continues rf r resp = Ensures-bind (backtrack rf.log resp) λ next _.
    Ensures-bind (store rf.next_index (pos r.peer) next) λ nexts _.
      Ensures-bind (if ltb_ℤ next (pos 0) then store nexts (pos r.peer) (pos 0) else ok nexts)
        λ nexts' _.
          returned
            (record { term = refl; vote = refl; added = []; appends = sym (append-nil rf.log) })

pub append_reply-Grows :
    (rf : Raft) (r : Round) (resp : AppendResponse) → Ensures (Grows rf) (append_reply rf r resp)
unfolding append_reply
append_reply-Grows rf r resp =
    Ensures-if (ltb_ℤ rf.current_term resp.term)
      (λ later. returned (step_down-Grows rf resp.term later))
      λ _.
        Ensures-if (not (is_leader rf.role) || not (eqb_ℤ rf.current_term r.term))
          (λ _. returned (Grows-refl rf))
          λ _.
            Ensures-if resp.success
              (λ _. Ensures-map (reply_success-Continues rf r) (Continues-Grows rf))
              (λ _. Ensures-map (reply_failure-Continues rf r resp) (Continues-Grows rf))

module _ {F : Type 0} (codec : CommandCodec F) where
  pub start-Grows :
      (rf : Raft) (cmd : InsertCommand F) → Ensures (λ r. Grows rf r.0) (start codec rf cmd)
  unfolding start
  start-Grows rf cmd =
      Ensures-if (not (is_leader rf.role)) (λ _. returned (Grows-refl rf))
        λ _.
          Ensures-bind (store rf.match_index (pos rf.me) (int_length (rf.log ++ e ∷ []) -ℤ pos 1))
            λ matches _.
              Ensures-bind
                (advance_commit_index (record rf { log = rf.log ++ e ∷ []; match_index = matches }))
                λ rf' h. returned (
                  Continues-Grows rf rf' (
                    OnlyCommits-Continues rf _ rf' (e ∷ []) refl refl refl
                      (advance_commit_index-OnlyCommits _ rf' h)))
    where
      e : LogEntry
      e = record { term = rf.current_term; command = command_bytes codec cmd }

pub batch_sent-Grows : (rf : Raft) (last : ℤ) → Grows rf (batch_sent rf last)
unfolding batch_sent VoteOrder
batch_sent-Grows rf last = same_log rf _ (ground arith) (ground arith)

pub shutdown-Grows :
    (codec : StateCodec) (rf : Raft) (disk : Disk) (wrote : WriteResult) (renamed : Bool)
    → Grows rf (shutdown codec rf disk wrote renamed).0
unfolding shutdown VoteOrder
shutdown-Grows codec rf disk wrote renamed = same_log rf _ (ground arith) (ground arith)
