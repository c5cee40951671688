-- ===== src/Raft/Cluster.antt =====
-- internal/consensus/raft.go: a cluster of n nodes during the elections of one term. Each move is
-- one handler of one node; the RPCs of an election of that term are delivered once at most, in any
-- order, or never. Requests and replies of other terms are the environment's.
pub mod Roles
pub mod Campaigns
pub mod Invariant
pub mod Kept
pub mod Quiet
pub mod Moving
pub mod Safety
use vector_store.Prelude.{
  ℕ, ◌<◌, ◌≡◌, ◌≢◌, Bool, true, false, List, [], ◌∷◌, Option, none, some, ◌==◌, if◌then◌else◌, ℤ,
  eqb_ℤ, ok, update,
}
use vector_store.Raft.State.{Raft, VoteRequest, VoteResponse}
use vector_store.Raft.Election.{request_vote, Election, election_tick, vote_reply}
use vector_store.Raft.Lifecycle.{CommandCodec}
use vector_store.Raft.Persistence.{StateCodec}
use vector_store.Raft.Steps.{Step, vote, append, tick, voted, appended, propose, applied, stopped}

-- One RequestVote call: not made, on its way, answered on its way back, or counted.
pub data VoteCall : Type 0 where
  idle : VoteCall
  sent : VoteRequest → VoteCall
  answered delivered : VoteResponse → VoteCall

-- The nodes, and for each of them its election of the term with the calls that it makes.
pub record Cluster : Type 0 where
  pub node : ℕ → Raft
  pub campaign : ℕ → Option Election
  pub calls : ℕ → ℕ → VoteCall

unfoldable pub call_to : ℕ → List (ℕ × VoteRequest) → VoteCall
call_to p [] = idle
call_to p ((q, req) ∷ requests) = if p == q then sent req else call_to p requests

-- The calls of an election: the node's own vote is counted from the start.
unfoldable pub calls_of : ℕ → Election → ℕ → VoteCall
unfolding call_to
calls_of i e p =
    if p == i
    then delivered (record { term = e.term; vote_granted = true })
    else call_to p e.requests

abbrev pub with_node : Cluster → ℕ → Raft → Cluster
with_node c i rf = record c { node = update c.node i rf }

abbrev pub with_call : Cluster → ℕ → ℕ → VoteCall → Cluster
with_call c i p call = record c { calls = update c.calls i (update (c.calls i) p call) }

abbrev pub with_campaign : Cluster → ℕ → Election → Cluster
with_campaign c i e = record c { campaign = update c.campaign i (some e) }

module _ (t : ℤ) where
  -- The ticker's round of a node: an election of the term is entered.
  unfoldable pub opened : Cluster → ℕ → List Election → Cluster
  unfolding calls_of
  opened c i [] = c
  opened c i (e ∷ es) =
      if eqb_ℤ e.term t
      then record (with_campaign c i e) { calls = update c.calls i (calls_of i e) }
      else c

module _ {F : Type 0} (commands : CommandCodec F) (states : StateCodec) (n : ℕ) (t : ℤ) where
  -- The step has nothing to do with an election of the term.
  abbrev pub Elsewhere : (rf rf' : Raft) → Step commands states rf rf' → Type 0
  Elsewhere rf rf' (vote args now resp h) = args.term ≢ t
  Elsewhere rf rf' (voted e e' resp h) = e.term ≢ t
  Elsewhere rf rf' (tick begin now started h) = ⊥
  Elsewhere rf rf' _ = Unit {0}

  pub data Move (c c' : Cluster) : Type 0 where
    -- any other handler of a node
    other :
        (i : ℕ) (rf' : Raft) (s : Step commands states (c.node i) rf')
        → Elsewhere (c.node i) rf' s
        → c' ≡ with_node c i rf'
        → Move c c'
    -- a round of a node's ticker, which may start an election
    stand_up :
        (i begin now : ℕ) (rf' : Raft) (started : List Election)
        → i < n
        → election_tick (c.node i) begin now ≡ ok (rf', started)
        → c' ≡ opened t (with_node c i rf') i started
        → Move c c'
    -- node p answers a request of node i
    ask :
        (i p now : ℕ) (req : VoteRequest) (rf' : Raft) (resp : VoteResponse)
        → c.calls i p ≡ sent req
        → request_vote (c.node p) req now ≡ ok (rf', resp)
        → c' ≡ with_call (with_node c p rf') i p (answered resp)
        → Move c c'
    -- node i takes the answer of node p
    count :
        (i p : ℕ) (resp : VoteResponse) (e e' : Election) (rf' : Raft)
        → p < n
        → c.calls i p ≡ answered resp
        → c.campaign i ≡ some e
        → vote_reply (c.node i) e resp ≡ ok (rf', e')
        → c' ≡ with_node (with_campaign (with_call c i p (delivered resp)) i e') i rf'
        → Move c c'

  pub data Moves (c : Cluster) : Cluster → Type 0 where
    here : Moves c c
    next : {a b : Cluster} → Moves c a → Move a b → Moves c b

  -- The step is no AppendEntries of the term that meets the node in the term.
  abbrev pub Calm : (rf rf' : Raft) → Step commands states rf rf' → Type 0
  Calm rf rf' (append args now resp h) = args.term ≡ t → rf.current_term ≢ t
  Calm rf rf' _ = Unit {0}

  abbrev pub Undisturbed : (c c' : Cluster) → Move c c' → Type 0
  Undisturbed c c' (other i rf' s _ _) = Calm (c.node i) rf' s
  Undisturbed c c' _ = Unit {0}

  abbrev pub AllUndisturbed : (c c' : Cluster) → Moves c c' → Type 0
  AllUndisturbed c c' here = Unit {0}
  AllUndisturbed c c' (next {a} {b} moves m) = AllUndisturbed c a moves × Undisturbed a b m
