-- ===== src/Raft/State.antt =====
-- internal/consensus/raft.go: the data of a node, the messages of api/proto, and the helpers that
-- every handler calls. `now` is the clock's value at a call of time.Now().
pub mod Commit
pub mod Last
pub mod Frame
use Prim.Native.String.{String}
use vector_store.Prelude.{
  ℕ, zero, suc, ◌+◌, ◌/◌, Bool, true, false, ◌||◌, not, List, [], ◌∷◌, leb, ◌==◌, if◌then◌else◌,
  length, ℤ, pos, minus_one, ◌-ℤ◌, ltb_ℤ, leb_ℤ, eqb_ℤ, Run, ok, panic, ◌>>=◌, load,
}

pub data Role : Type 0 where
  follower candidate leader : Role

abbrev pub is_leader : Role → Bool
is_leader leader = true
is_leader _ = false

abbrev pub is_candidate : Role → Bool
is_candidate candidate = true
is_candidate _ = false

-- A command is its JSON bytes; no bytes are a no-op.
pub record LogEntry : Type 0 where
  pub term : ℤ
  pub command : List ℕ

pub record Raft : Type 0 where
  pub addrs : List String
  -- peers[i] != nil
  pub peers : List Bool
  pub me : ℕ
  pub current_term : ℤ
  pub voted_for : ℤ
  pub log : List LogEntry
  pub commit_index : ℤ
  pub last_applied : ℤ
  pub next_index : List ℤ
  pub match_index : List ℤ
  pub role : Role
  pub leader_id : ℤ
  pub heartbeat_time : ℕ
  pub dead : Bool
  pub persist_path : String

pub record VoteRequest : Type 0 where
  pub term : ℤ
  pub candidate_id : ℤ
  pub last_log_index : ℤ
  pub last_log_term : ℤ

pub record VoteResponse : Type 0 where
  pub term : ℤ
  pub vote_granted : Bool

pub record AppendRequest : Type 0 where
  pub term : ℤ
  pub leader_id : ℤ
  pub prev_log_index : ℤ
  pub prev_log_term : ℤ
  pub entries : List LogEntry
  pub leader_commit : ℤ

pub record AppendResponse : Type 0 where
  pub term : ℤ
  pub success : Bool
  pub conflict_index : ℤ
  pub conflict_term : ℤ

-- `len(xs)`
abbrev pub int_length {ℓ} : {A : Type ℓ} → List A → ℤ
int_length xs = pos (length xs)

unfoldable pub step_down : Raft → ℤ → Raft
step_down rf new_term = record rf {
  current_term = new_term;
  role = follower;
  voted_for = minus_one;
  leader_id = minus_one;
}

-- The index and term of the last entry, or (-1, 0).
unfoldable pub last_log_index_term : Raft → Run (ℤ × ℤ)
last_log_index_term rf =
    let last = int_length rf.log -ℤ pos 1 in
    if length rf.log == 0
    then ok (minus_one, pos 0)
    else load rf.log last >>= λ e. ok (last, e.term)

abbrev pub majority_of : Raft → ℕ
majority_of rf = length rf.addrs / 2 + 1

-- for i := range addrs { if matchIndex[i] >= n { count++ } }
unfoldable pub count_replicas : List String → List ℤ → ℤ → ℕ → Run ℕ
count_replicas [] matches n count = ok count
count_replicas (a ∷ addrs) [] n count = panic
count_replicas (a ∷ addrs) (m ∷ matches) n count =
    count_replicas addrs matches n (if leb_ℤ n m then count + 1 else count)

-- The loop of advanceCommitIndex from n = rounds - 1 downwards; below 0 the log has no entry.
unfoldable pub advance_from : ℕ → Raft → Run Raft
unfolding count_replicas
advance_from zero rf = if ltb_ℤ rf.commit_index minus_one then panic else ok rf
advance_from (suc n) rf =
    let rest = advance_from n rf in
    let count_it : Run Raft = count_replicas rf.addrs rf.match_index (pos n) 0 >>= λ count.
    if leb (majority_of rf) count then ok (record rf { commit_index = pos n }) else rest in
    let round : Run Raft =
      load rf.log (pos n) >>= λ e. if eqb_ℤ e.term rf.current_term then count_it else rest in
    if ltb_ℤ rf.commit_index (pos n) then round else ok rf

unfoldable pub advance_commit_index : Raft → Run Raft
unfolding advance_from
advance_commit_index rf = advance_from (length rf.log) rf

-- The peers that a `for i := range rf.addrs` loop sends to: not this node, and dialled.
unfoldable pub targets_from : ℕ → ℕ → List String → List Bool → Run (List ℕ)
targets_from me i [] peers = ok []
targets_from me i (a ∷ addrs) [] =
    let rest = targets_from me (suc i) addrs [] in if i == me then rest else panic
targets_from me i (a ∷ addrs) (p ∷ peers) = targets_from me (suc i) addrs peers >>= λ rest.
    ok (if (i == me) || not p then rest else i ∷ rest)

unfoldable pub targets : Raft → Run (List ℕ)
unfolding targets_from
targets rf = targets_from rf.me 0 rf.addrs rf.peers
