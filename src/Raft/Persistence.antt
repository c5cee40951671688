-- ===== src/Raft/Persistence.antt =====
-- internal/consensus/raft.go: the snapshot of a graceful shutdown (persistLocked, Shutdown) and
-- its restoration (loadState, and so Make).
pub mod Restart
use Prim.Native.String.{String, ◌++◌ as append}
use text.Mathlib.Text.{◌==◌ as str_eq}
use vector_store.Prelude.{ℕ, Bool, List, Option, none, some, if◌then◌else◌, ℤ, minus_one, ◌≡◌}
use vector_store.Raft.State.{Raft, LogEntry, follower, is_leader}
use vector_store.Raft.Lifecycle.{kill, blank_node}

-- `log = none` stands for a nil slice, or a file without the field.
pub record PersistentState : Type 0 where
  pub current_term : ℤ
  pub voted_for : ℤ
  pub log : Option (List LogEntry)
  pub commit_index : ℤ

-- What encoding/json does to a PersistentState: it reads back what it wrote.
pub record StateCodec : Type 0 where
  pub marshal : PersistentState → Option (List ℕ)
  pub unmarshal : List ℕ → Option PersistentState
  pub unmarshal-marshal :
      (s : PersistentState) (b : List ℕ) → marshal s ≡ some b → unmarshal b ≡ some s

-- The files of a disk, by path.
abbrev pub Disk : Type 0
Disk = String → Option (List ℕ)

-- How os.WriteFile ends: a failed one leaves any contents, or no file, behind.
pub data WriteResult : Type 0 where
  written : WriteResult
  write_failed : Option (List ℕ) → WriteResult

unfoldable pub put_file : Disk → String → Option (List ℕ) → Disk
put_file disk path contents p = if str_eq p path then contents else disk p

abbrev pub write_file : Disk → String → List ℕ → WriteResult → Disk
write_file disk path bytes written = put_file disk path (some bytes)
write_file disk path bytes (write_failed left) = put_file disk path left

-- os.Rename of a file that is there; one that fails changes nothing.
unfoldable pub rename_file : Disk → String → String → Bool → Disk
unfolding put_file
rename_file disk from to renamed =
    if renamed then put_file (put_file disk to (disk from)) from none else disk

unfoldable pub snapshot : Raft → PersistentState
snapshot rf = record {
  current_term = rf.current_term;
  voted_for = rf.voted_for;
  log = some rf.log;
  commit_index = rf.commit_index;
}

abbrev pub tmp_path : String → String
tmp_path path = append path ".tmp"

module _ (codec : StateCodec) where
  -- After the write: a failed one returns before the rename.
  abbrev pub commit_file : Disk → String → List ℕ → WriteResult → Bool → Disk
  commit_file disk path bytes written renamed =
      rename_file (write_file disk (tmp_path path) bytes written) (tmp_path path) path renamed
  commit_file disk path bytes (write_failed left) renamed =
      write_file disk (tmp_path path) bytes (write_failed left)

  unfoldable pub persist : Raft → Disk → WriteResult → Bool → Disk
  unfolding rename_file snapshot
  persist rf disk wrote renamed =
      let path = rf.persist_path in
      let saved : Disk = elim (codec.marshal (snapshot rf)) [
        | none ↦ disk
        | some bytes ↦ commit_file disk path bytes wrote renamed
      ] in
      if str_eq path "" then disk else saved

  unfoldable pub shutdown : Raft → Disk → WriteResult → Bool → Raft × Disk
  unfolding kill
  shutdown rf disk wrote renamed =
      let stopped : Raft =
        if is_leader rf.role then record rf { role = follower; leader_id = minus_one } else rf in
      (kill stopped, persist stopped disk wrote renamed)

  abbrev pub restore : Raft → PersistentState → Raft
  restore rf st = record rf {
    current_term = st.current_term;
    voted_for = st.voted_for;
    log = elim st.log [ none ↦ rf.log | some log ↦ log ];
    commit_index = st.commit_index;
  }

  -- `read` is what os.ReadFile gives: `none` for a file that is missing or cannot be read.
  abbrev pub load_bytes : Raft → Option (List ℕ) → Raft
  load_bytes rf none = rf
  load_bytes rf (some bytes) = elim (codec.unmarshal bytes) [ none ↦ rf | some st ↦ restore rf st ]

  unfoldable pub load_state : Raft → Disk → Raft
  load_state rf disk =
      if str_eq rf.persist_path "" then rf else load_bytes rf (disk rf.persist_path)

  unfoldable pub make : List String → List Bool → ℕ → String → ℕ → Disk → Raft
  unfolding load_state blank_node
  make addrs dials me state_path now disk =
      load_state (blank_node addrs dials me state_path now) disk
