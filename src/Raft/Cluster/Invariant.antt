-- ===== src/Raft/Cluster/Invariant.antt =====
-- What holds of the elections of one term in a cluster of n nodes, and the changes that keep it.
use vector_store.Prelude.{
  update, update_at, update_other, ℕ, ◌+◌, ◌/◌, ◌≤◌, ◌≡◌, ◌≢◌, ap, ◌∙◌, ◌⊎◌, Bool, true, false,
  some, arith, length, ℤ, pos, ◌<ℤ◌, ℕ_discrete,
}
use vector_store.Raft.State.{Raft, VoteRequest, is_leader}
use vector_store.Raft.Election.{Election}
use vector_store.Raft.Steps.Frames.{VoteOrder}
use vector_store.Raft.Cluster.{
  VoteCall, idle, sent, answered, delivered, Cluster, with_node, with_call,
}
use vector_store.Raft.Cluster.Roles.{SameNode}
use vector_store.Prelude.Counting.{count_below}

-- The called node gave its vote.
abbrev pub is_yes : VoteCall → Bool
is_yes (answered resp) = resp.vote_granted
is_yes (delivered resp) = resp.vote_granted
is_yes _ = false

-- Its vote has been counted.
abbrev pub is_tallied : VoteCall → Bool
is_tallied (delivered resp) = resp.vote_granted
is_tallied _ = false

pub is_tallied-is_yes : (call : VoteCall) → is_tallied call ≡ true → is_yes call ≡ true
is_tallied-is_yes idle h = cc
is_tallied-is_yes (sent req) h = cc
is_tallied-is_yes (answered resp) h = cc
is_tallied-is_yes (delivered resp) h = h

-- The counted votes of node i.
abbrev pub tally : ℕ → Cluster → ℕ → ℕ
tally n c i = count_below n (λ p. is_tallied (c.calls i p))

-- Node p's vote in the term is node i's, or node p is past the term.
abbrev pub Bound : ℤ → Raft → ℕ → Type 0
Bound t rf i = (t <ℤ rf.current_term) ⊎ ((rf.current_term ≡ t) × (rf.voted_for ≡ pos i))

pub record IsCounting (n : ℕ) (t : ℤ) (e : Election) (votes : ℕ) : Type 0 where
  pub term : e.term ≡ t
  pub majority : e.majority ≡ n / 2 + 1
  pub counted : e.votes ≤ votes

pub record Fair (n : ℕ) (t : ℤ) (c : Cluster) : Type 0 where
  pub me : (i : ℕ) → (c.node i).me ≡ i
  pub size : (i : ℕ) → length (c.node i).addrs ≡ n
  -- a request is of the term and in its sender's name
  pub asks :
      (i p : ℕ) (req : VoteRequest)
      → c.calls i p ≡ sent req
      → (req.term ≡ t) × (req.candidate_id ≡ pos i)
  -- a node that gave its vote is bound by it
  pub bound : (i p : ℕ) → is_yes (c.calls i p) ≡ true → Bound t (c.node p) i
  -- no node gave its vote to two
  pub agree : (i j p : ℕ) → is_yes (c.calls i p) ≡ true → is_yes (c.calls j p) ≡ true → i ≡ j
  -- no election counts more votes than were given
  pub counts : (i : ℕ) (e : Election) → c.campaign i ≡ some e → IsCounting n t e (tally n c i)

pub Bound-later : (t : ℤ) (rf rf' : Raft) (i : ℕ) → VoteOrder rf rf' → Bound t rf i → Bound t rf' i
unfolding VoteOrder
Bound-later t rf rf' i o b = ground arith

-- A property of the nodes after one of them changed.
pub with_node-each {ℓ} :
    (P : ℕ → Raft → Type ℓ) (c : Cluster) (k : ℕ) (rf : Raft)
    → P k rf
    → ((i : ℕ) → i ≢ k → P i (c.node i))
    → (i : ℕ) → P i ((with_node c k rf).node i)
with_node-each P c k rf here elsewhere i = elim (ℕ_discrete i k) [
  | yes e ↦ rw (e, update_at c.node k rf) here
  | no ne ↦ rw (update_other c.node k i rf ne) (elsewhere i ne)
]

-- A handler that keeps the node's identity and its vote.
pub with_node-Fair :
    (n : ℕ) (t : ℤ) (c : Cluster) (k : ℕ) (rf : Raft)
    → SameNode (c.node k) rf
    → ((i : ℕ) → Bound t (c.node k) i → Bound t rf i)
    → Fair n t c
    → Fair n t (with_node c k rf)
with_node-Fair n t c k rf same keeps f = record {
  me = with_node-each (λ i r. r.me ≡ i) c k rf (same.me ∙ f.me k) (λ i ne. f.me i);
  size =
      with_node-each (λ i r. length r.addrs ≡ n) c k rf (ap length same.addrs ∙ f.size k)
        (λ i ne. f.size i);
  asks = f.asks;
  bound = λ i.
      with_node-each (λ p r. is_yes (c.calls i p) ≡ true → Bound t r i) c k rf
        (λ h. keeps i (f.bound i k h)) (λ p ne. f.bound i p);
  agree = f.agree;
  counts = f.counts;
}

-- The calls after one of them changed.
pub with_call-each {ℓ} :
    (P : ℕ → ℕ → VoteCall → Type ℓ) (c : Cluster) (k q : ℕ) (call : VoteCall)
    → P k q call
    → ((i p : ℕ) → P i p (c.calls i p))
    → (i p : ℕ) → P i p ((with_call c k q call).calls i p)
with_call-each P c k q call here elsewhere i p = elim (ℕ_discrete i k) [
  | yes e ↦
      rw (e, update_at c.calls k (update (c.calls k) q call))
        (elim (ℕ_discrete p q) [
          | yes d ↦ rw (d, update_at (c.calls k) q call) here
          | no nd ↦ rw (update_other (c.calls k) q p call nd) (elsewhere k p)
        ])
  | no ne ↦ rw (update_other c.calls k i (update (c.calls k) q call) ne) (elsewhere i p)
]

-- The node's election of the term has its majority.
abbrev pub Won : Cluster → ℕ → Type 0
Won c i = (e : Election) × (c.campaign i ≡ some e) × (e.majority ≤ e.votes)

-- Who leads the term has won it.
abbrev pub LeadersWon : ℤ → Cluster → Type 0
LeadersWon t c = (i : ℕ) → is_leader (c.node i).role ≡ true → (c.node i).current_term ≡ t → Won c i

pub with_node-LeadersWon :
    (t : ℤ) (c : Cluster) (k : ℕ) (rf : Raft)
    → (is_leader rf.role ≡ true → rf.current_term ≡ t → Won c k)
    → LeadersWon t c
    → LeadersWon t (with_node c k rf)
with_node-LeadersWon t c k rf leads w =
    with_node-each (λ i r. is_leader r.role ≡ true → r.current_term ≡ t → Won c i) c k rf leads
      (λ i ne. w i)
