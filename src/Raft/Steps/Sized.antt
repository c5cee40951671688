-- ===== src/Raft/Steps/Sized.antt =====
-- The lists of a node fit its cluster, whatever handlers run.
use Prim.Native.String.{String}
use text.Mathlib.Text.{◌==◌ as str_eq}
use vector_store.Prelude.{
  ℕ, ◌<◌, ◌≡◌, ◌∙◌, inl, inr, Bool, not, arith, List, [], ◌∷◌, ◌++◌, Bool-cases, length,
  length-replicate, ℤ, pos, minus_one, ◌≤ℤ◌, some, Option-cases, ◌-ℤ◌, ltb_ℤ, store, Ensures,
  returned, Ensures-bind, Ensures-if, Ensures-run,
}
use vector_store.Raft.State.{Raft, is_leader, int_length, advance_commit_index}
use vector_store.Raft.State.Frame.{advance_commit_index-OnlyCommits}
use vector_store.Raft.State.Commit.{IsSized}
use vector_store.Raft.Lifecycle.{
  InsertCommand, CommandCodec, start, command_bytes, batch_sent, blank_node,
}
use vector_store.Raft.Persistence.{
  PersistentState, StateCodec, Disk, WriteResult, shutdown, load_bytes, load_state, make,
}
use vector_store.Raft.Steps.{
  Step, vote, append, tick, voted, appended, propose, applied, stopped, Steps, here, next,
}
use vector_store.Raft.Steps.Lists.{
  length-store, OnlyCommits-IsSized, request_vote-IsSized, append_entries-IsSized,
}
use vector_store.Raft.Steps.ListReplies.{
  election_tick-IsSized, vote_reply-IsSized, append_reply-IsSized,
}

blank_node-IsSized :
    (addrs : List String) (dials : List Bool) (me : ℕ) (path : String) (now : ℕ)
    → length dials ≡ length addrs
    → me < length addrs
    → IsSized (blank_node addrs dials me path now)
unfolding blank_node
blank_node-IsSized addrs dials me path now d m = record {
  matches = length-replicate (length addrs) minus_one;
  nexts = length-replicate (length addrs) (pos 0);
  clients = d;
  self = m;
  commits = omega arith;
}

module _ {F : Type 0} (commands : CommandCodec F) (states : StateCodec) where
  start-IsSized :
      (rf : Raft) (cmd : InsertCommand F)
      → IsSized rf
      → Ensures (λ r. IsSized r.0) (start commands rf cmd)
  unfolding start
  start-IsSized rf cmd s =
      let log =
        rf.log ++ record { term = rf.current_term; command = command_bytes commands cmd } ∷ [] in
      let index = int_length log -ℤ pos 1 in
      Ensures-if (not (is_leader rf.role)) (λ _. returned s)
        λ _. Ensures-bind (store rf.match_index (pos rf.me) index) λ matches stored.
          Ensures-bind (advance_commit_index (record rf { log = log; match_index = matches }))
            λ rf' h. returned (
              OnlyCommits-IsSized _ rf'
                (record {
                  matches =
                      length-store rf.match_index matches (pos rf.me) index stored ∙ s.matches;
                  nexts = s.nexts;
                  clients = s.clients;
                  self = s.self;
                  commits = s.commits;
                })
                (advance_commit_index-OnlyCommits _ rf' h))

  shutdown-IsSized :
      (rf : Raft) (disk : Disk) (wrote : WriteResult) (renamed : Bool)
      → IsSized rf
      → IsSized (shutdown states rf disk wrote renamed).0
  unfolding shutdown
  shutdown-IsSized rf disk wrote renamed s = elim (Bool-cases (is_leader rf.role)) [
    | inl leads ↦ rw leads (omega (arith, s))
    | inr follows ↦ rw follows (omega (arith, s))
  ]

  batch_sent-IsSized : (rf : Raft) (last : ℤ) → IsSized rf → IsSized (batch_sent rf last)
  unfolding batch_sent
  batch_sent-IsSized rf last s = elim (Bool-cases (ltb_ℤ rf.last_applied last)) [
    | inl more ↦ rw more (omega (arith, s))
    | inr none_left ↦ rw none_left s
  ]

  Step-IsSized : (rf rf' : Raft) → Step commands states rf rf' → IsSized rf → IsSized rf'
  Step-IsSized rf rf' (vote args now resp h) s = Ensures-run (request_vote-IsSized rf args now s) h
  Step-IsSized rf rf' (append args now resp h) s =
      Ensures-run (append_entries-IsSized rf args now s) h
  Step-IsSized rf rf' (tick begin now started h) s =
      Ensures-run (election_tick-IsSized rf begin now s) h
  Step-IsSized rf rf' (voted e e' resp h) s = Ensures-run (vote_reply-IsSized rf e resp s) h
  Step-IsSized rf rf' (appended r resp h) s = Ensures-run (append_reply-IsSized rf r resp s) h
  Step-IsSized rf rf' (propose cmd index term accepted h) s = Ensures-run (start-IsSized rf cmd s) h
  Step-IsSized rf rf' (applied last h) s = rw h (batch_sent-IsSized rf last s)
  Step-IsSized rf rf' (stopped disk wrote renamed h) s =
      rw h (shutdown-IsSized rf disk wrote renamed s)

  from-IsSized : (rf rf' : Raft) → IsSized rf → Steps commands states rf rf' → IsSized rf'
  from-IsSized rf rf' s here = s
  from-IsSized rf rf' s (next {a} steps step) = Step-IsSized a rf' step (from-IsSized rf a s steps)

  -- The snapshot that a node reads at its start, if any, has a commit index of -1 or more.
  abbrev pub SoundSnapshot : Disk → String → Type 0
  SoundSnapshot disk path =
      (b : List ℕ) (st : PersistentState)
      → disk path ≡ some b
      → states.unmarshal b ≡ some st
      → minus_one ≤ℤ st.commit_index

  make-IsSized :
      (addrs : List String) (dials : List Bool) (me : ℕ) (path : String) (now : ℕ) (disk : Disk)
      → length dials ≡ length addrs
      → me < length addrs
      → SoundSnapshot disk path
      → IsSized (make states addrs dials me path now disk)
  unfolding make load_state blank_node
  make-IsSized addrs dials me path now disk d m sound =
      let s = blank_node-IsSized addrs dials me path now d m in
      elim (Bool-cases (str_eq path "")) [
        | inl off ↦ rw off s
        | inr on ↦ elim (Option-cases (disk path)) [
          | inl missing ↦ rw (on, missing) s
          | inr (b, read) ↦ elim (Option-cases (states.unmarshal b)) [
            | inl broken ↦ rw (on, read, load_bytes, broken) s
            | inr (st, decoded) ↦
                rw (on, read, load_bytes, decoded)
                  (record {
                    matches = s.matches;
                    nexts = s.nexts;
                    clients = s.clients;
                    self = s.self;
                    commits = sound b st read decoded;
                  })
          ]
        ]
      ]

  -- Whatever handlers run, in whatever order, on a node that Make built, from no snapshot or from
  -- one with a commit index of -1 or more, with a place for each peer's client: its lists have a
  -- place for each node of the cluster, its own id is one of them, and its commit index is -1 or
  -- more.
  pub Steps-IsSized :
      (addrs : List String) (dials : List Bool) (me : ℕ) (path : String) (now : ℕ) (disk : Disk)
      (rf : Raft)
      → length dials ≡ length addrs
      → me < length addrs
      → SoundSnapshot disk path
      → Steps commands states (make states addrs dials me path now disk) rf
      → IsSized rf
  Steps-IsSized addrs dials me path now disk rf d m sound steps =
      from-IsSized (make states addrs dials me path now disk) rf
        (make-IsSized addrs dials me path now disk d m sound) steps
