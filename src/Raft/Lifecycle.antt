-- ===== src/Raft/Lifecycle.antt =====
-- internal/consensus/raft.go: the public API (Make, Start, GetState, GetLeaderAddress, Kill), the
-- heartbeat loop, and the batches that commitApplyLoop sends.
pub mod Submission
pub mod Batches
use Prim.Native.String.{String}
use vector_store.Prelude.{
  ℕ, ◌+◌, Bool, true, false, ◌&&◌, ◌||◌, not, List, [], ◌∷◌, ◌++◌, Option, none, some, ◌==◌, leb,
  ltb, if◌then◌else◌, length, take, drop, replicate, ℤ, pos, negsuc, minus_one, ◌+ℤ◌, ◌-ℤ◌, ltb_ℤ,
  leb_ℤ, Run, ok, panic, ◌>>=◌, load, store, ◌≡◌,
}
use vector_store.Raft.State.{Raft, LogEntry, follower, is_leader, int_length, advance_commit_index}
use vector_store.Raft.Replication.{broadcast}

-- F is float32.
pub record InsertCommand (F : Type 0) : Type 0 where
  pub id : String
  pub vector : List F

pub record ApplyMsg (F : Type 0) : Type 0 where
  pub command_valid : Bool
  pub command : InsertCommand F
  pub command_index : ℤ
  pub command_term : ℤ

-- What encoding/json does to an InsertCommand: it refuses a vector that holds NaN or an infinity,
-- and reads back what it wrote.
pub record CommandCodec (F : Type 0) : Type 0 where
  pub marshal : InsertCommand F → Option (List ℕ)
  pub unmarshal : List ℕ → Option (InsertCommand F)
  -- What Unmarshal leaves in the command where it fails.
  pub leaves : List ℕ → InsertCommand F
  pub unmarshal-marshal :
      (c : InsertCommand F) (b : List ℕ) → marshal c ≡ some b → unmarshal b ≡ some c
  pub marshal-nonempty :
      (c : InsertCommand F) (b : List ℕ) → marshal c ≡ some b → ltb 0 (length b) ≡ true

-- A node as Make builds it, before loadState. `dials` says which grpc.NewClient calls succeed.
unfoldable pub blank_node : List String → List Bool → ℕ → String → ℕ → Raft
blank_node addrs dials me state_path now = record {
  addrs = addrs;
  peers = dials;
  me = me;
  current_term = pos 0;
  voted_for = minus_one;
  log = [];
  commit_index = minus_one;
  last_applied = minus_one;
  next_index = replicate (length addrs) (pos 0);
  match_index = replicate (length addrs) minus_one;
  role = follower;
  leader_id = minus_one;
  heartbeat_time = now;
  dead = false;
  persist_path = state_path;
}

abbrev pub get_state : Raft → ℤ × Bool
get_state rf = (rf.current_term, is_leader rf.role)

unfoldable pub get_leader_address : Raft → Run String
get_leader_address rf =
    if ltb_ℤ rf.leader_id (pos 0) || leb_ℤ (int_length rf.addrs) rf.leader_id
    then ok ""
    else load rf.addrs rf.leader_id

unfoldable pub kill : Raft → Raft
kill rf = record rf { dead = true }

-- The body of heartbeatLoop: the term of the broadcast that it starts, if any.
unfoldable pub heartbeat_tick : Raft → Run (List (ℕ × ℤ))
heartbeat_tick rf = if is_leader rf.role then broadcast rf rf.current_term else ok []

module _ {F : Type 0} (codec : CommandCodec F) where
  -- The bytes of an entry: the error of json.Marshal is dropped, and leaves none.
  unfoldable pub command_bytes : InsertCommand F → List ℕ
  command_bytes cmd = elim (codec.marshal cmd) [ none ↦ [] | some b ↦ b ]

  -- (node, index, term, isLeader), and whether a broadcast is started
  unfoldable pub start : Raft → InsertCommand F → Run (Raft × ℤ × ℤ × Bool)
  unfolding command_bytes
  start rf cmd =
      let log = rf.log ++ record { term = rf.current_term; command = command_bytes cmd } ∷ [] in
      let index = int_length log -ℤ pos 1 in
      let appended : Run (Raft × ℤ × ℤ × Bool) =
        store rf.match_index (pos rf.me) index >>= λ matches.
        advance_commit_index (record rf { log = log; match_index = matches }) >>= λ rf'.
        ok (rf', index, rf.current_term, true) in
      if not (is_leader rf.role) then ok (rf, minus_one, minus_one, false) else appended

  -- The message of one committed entry.
  unfoldable pub apply_msg : ℤ → LogEntry → ApplyMsg F
  apply_msg index e =
      let refused : ApplyMsg F = record {
        command_valid = false;
        command = record { id = ""; vector = [] };
        command_index = index;
        command_term = e.term;
      } in
      let decoded : ApplyMsg F = elim (codec.unmarshal e.command) [
        | none ↦ record refused { command = codec.leaves e.command }
        | some c ↦ record refused { command_valid = true; command = c }
      ] in
      if ltb 0 (length e.command) then decoded else refused

  unfoldable pub apply_msgs : ℤ → List LogEntry → List (ApplyMsg F)
  unfolding apply_msg
  apply_msgs index [] = []
  apply_msgs index (e ∷ es) = apply_msg index e ∷ apply_msgs (index +ℤ pos 1) es

-- log[start : end+1], for a slice that ends within the log
abbrev pub slice : List LogEntry → ℤ → ℤ → Run (List LogEntry)
slice log (pos s) (pos e) =
    if leb s (e + 1) && leb (e + 1) (length log) then ok (drop s (take (e + 1) log)) else panic
slice log (pos s) (negsuc e) = if (s == 0) && (e == 0) then ok [] else panic
slice log (negsuc s) end = panic

-- What one round of commitApplyLoop collects under the lock: the start index, the end index and
-- the entries. `none`: the loop waits for applyCond.
unfoldable pub collect_batch : Raft → Run (Option (ℤ × ℤ × List LogEntry))
collect_batch rf =
    let first = rf.last_applied +ℤ pos 1 in
    let last = rf.commit_index in
    if leb_ℤ rf.commit_index rf.last_applied
    then ok none
    else (slice rf.log first last >>= λ batch. ok (some (first, last, batch)))

-- The end of that round, after the batch was sent.
unfoldable pub batch_sent : Raft → ℤ → Raft
batch_sent rf last = if ltb_ℤ rf.last_applied last then record rf { last_applied = last } else rf
