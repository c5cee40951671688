-- ===== src/Raft/Steps.antt =====
-- internal/consensus/raft.go: the histories of one node. rf.mu makes each handler one step; what
-- the network, the clock and the disk bring is chosen by the environment.
pub mod Frames
pub mod Elections
pub mod Replies
pub mod Votes
pub mod Leading
pub mod Lists
pub mod ListReplies
pub mod Sized
use vector_store.Prelude.{ℕ, ℤ, Bool, ◌≡◌, ok, List}
use vector_store.Raft.State.{Raft, VoteRequest, VoteResponse, AppendRequest, AppendResponse}
use vector_store.Raft.Election.{request_vote, Election, election_tick, vote_reply}
use vector_store.Raft.Replication.{Round, append_entries, append_reply}
use vector_store.Raft.Lifecycle.{InsertCommand, CommandCodec, start, batch_sent}
use vector_store.Raft.Persistence.{StateCodec, Disk, WriteResult, shutdown}

module _ {F : Type 0} (commands : CommandCodec F) (states : StateCodec) where
  -- One handler ran and returned.
  pub data Step (rf rf' : Raft) : Type 0 where
    vote :
        (args : VoteRequest) (now : ℕ) (resp : VoteResponse)
        → request_vote rf args now ≡ ok (rf', resp)
        → Step rf rf'
    append :
        (args : AppendRequest) (now : ℕ) (resp : AppendResponse)
        → append_entries rf args now ≡ ok (rf', resp)
        → Step rf rf'
    tick :
        (begin now : ℕ) (started : List Election)
        → election_tick rf begin now ≡ ok (rf', started)
        → Step rf rf'
    voted :
        (e e' : Election) (resp : VoteResponse) → vote_reply rf e resp ≡ ok (rf', e') → Step rf rf'
    appended : (r : Round) (resp : AppendResponse) → append_reply rf r resp ≡ ok rf' → Step rf rf'
    propose :
        (cmd : InsertCommand F) (index term : ℤ) (accepted : Bool)
        → start commands rf cmd ≡ ok (rf', index, term, accepted)
        → Step rf rf'
    applied : (last : ℤ) → rf' ≡ batch_sent rf last → Step rf rf'
    stopped :
        (disk : Disk) (wrote : WriteResult) (renamed : Bool)
        → rf' ≡ (shutdown states rf disk wrote renamed).0
        → Step rf rf'

  pub data Steps (rf : Raft) : Raft → Type 0 where
    here : Steps rf rf
    next : {a b : Raft} → Steps rf a → Step a b → Steps rf b
