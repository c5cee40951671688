-- ===== src/Raft/Cluster/Kept.antt =====
-- An answer to a request, the count of an answer, and a new election keep the elections fair.
use vector_store.Prelude.{
  update, update_at, update_other, update-some, ℕ, suc, ◌+◌, ◌/◌, ◌≤◌, ◌<◌, ◌≡◌, ◌≢◌, refl, sym,
  ◌∙◌, ◌⊎◌, inl, inr, true, false, some, arith, ℤ, pos, ℕ_discrete, ◌==◌, ==_iff, Bool-cases, List,
  [], ◌∷◌,
}
use vector_store.Raft.State.{Raft, VoteRequest, VoteResponse}
use vector_store.Raft.Election.{Election}
use vector_store.Raft.Cluster.{
  VoteCall, sent, answered, delivered, Cluster, with_call, with_campaign, call_to, calls_of,
}
use vector_store.Prelude.Counting.{count_below_mono, count_below-more, count_below-pos}
use vector_store.Raft.Cluster.Invariant.{
  is_yes, is_tallied, tally, Bound, IsCounting, Fair, with_call-each,
}

IsCounting-more :
    (n : ℕ) (t : ℤ) (e : Election) (a b : ℕ) → a ≤ b → IsCounting n t e a → IsCounting n t e b
IsCounting-more n t e a b le k = record {
  term = k.term;
  majority = k.majority;
  counted = omega (arith, k.counted);
}

-- A node that has given its vote in the term is bound to no other.
pub Bound-once :
    (t : ℤ) (rf : Raft) (i j : ℕ)
    → rf.current_term ≡ t
    → rf.voted_for ≡ pos i
    → Bound t rf j
    → j ≡ i
Bound-once t rf i j term vote (inl later) = absurd (ground (arith, term))
Bound-once t rf i j term vote (inr (_, other)) = ground (arith, vote, other)

module _ (n : ℕ) (t : ℤ) (c : Cluster) (k q : ℕ) (call : VoteCall) where
  pub tally-with_call :
      (is_tallied (c.calls k q) ≡ true → is_tallied call ≡ true)
      → (i : ℕ) → tally n c i ≤ tally n (with_call c k q call) i
  tally-with_call keeps i = count_below_mono n _ _ (
      with_call-each (λ i p x. is_tallied (c.calls i p) ≡ true → is_tallied x ≡ true) c k q call
        keeps (λ i p h. h) i)

  was_yes :
      (i p : ℕ)
      → is_yes ((with_call c k q call).calls i p) ≡ true
      → ((i ≡ k) × (p ≡ q) × (is_yes call ≡ true)) ⊎ (is_yes (c.calls i p) ≡ true)
  was_yes =
      with_call-each
        (λ i p x.
          is_yes x ≡ true
          → ((i ≡ k) × (p ≡ q) × (is_yes call ≡ true)) ⊎ (is_yes (c.calls i p) ≡ true))
        c k q call (λ h. inl (refl, refl, h)) (λ i p h. inr h)

  -- A call changes to one that holds no request and loses no counted vote; a vote in it binds the
  -- node, which gave no other.
  pub with_call-Fair :
      ((req : VoteRequest) → call ≢ sent req)
      → (is_tallied (c.calls k q) ≡ true → is_tallied call ≡ true)
      → (is_yes call ≡ true → Bound t (c.node q) k)
      → (is_yes call ≡ true → (j : ℕ) → is_yes (c.calls j q) ≡ true → j ≡ k)
      → Fair n t c
      → Fair n t (with_call c k q call)
  with_call-Fair held keeps binds once f = record {
    me = f.me;
    size = f.size;
    asks =
        with_call-each
          (λ i p x.
            (req : VoteRequest) → x ≡ sent req → (req.term ≡ t) × (req.candidate_id ≡ pos i))
          c k q call (λ req h. absurd (held req h)) f.asks;
    bound =
        with_call-each (λ i p x. is_yes x ≡ true → Bound t (c.node p) i) c k q call binds f.bound;
    agree = λ i j p yi yj. elim (was_yes i p yi) [
      | inl (ik, pq, now) ↦ elim (was_yes j p yj) [
        | inl (jk, _, _) ↦ ik ∙ sym jk
        | inr old ↦ ik ∙ sym (once now j (rw pq at old))
      ]
      | inr old ↦ elim (was_yes j p yj) [
        | inl (jk, pq, now) ↦ once now i (rw pq at old) ∙ sym jk
        | inr old' ↦ f.agree i j p old old'
      ]
    ];
    counts = λ i e h. IsCounting-more n t e _ _ (tally-with_call keeps i) (f.counts i e h);
  }

-- The counter of an election changes.
pub with_campaign-Fair :
    (n : ℕ) (t : ℤ) (c : Cluster) (k : ℕ) (e : Election)
    → IsCounting n t e (tally n c k)
    → Fair n t c
    → Fair n t (with_campaign c k e)
with_campaign-Fair n t c k e counting f = record {
  me = f.me;
  size = f.size;
  asks = f.asks;
  bound = f.bound;
  agree = f.agree;
  counts = λ i e' h. elim (update-some c.campaign k e i e' h) [
    | inl (is, same) ↦ rw (is, ← same) counting
    | inr (ne, old) ↦ f.counts i e' old
  ];
}

-- A vote that is counted is one more.
pub tally-delivered :
    (n : ℕ) (c : Cluster) (k q : ℕ) (resp : VoteResponse)
    → q < n
    → c.calls k q ≡ answered resp
    → resp.vote_granted ≡ true
    → suc (tally n c k) ≤ tally n (with_call c k q (delivered resp)) k
tally-delivered n c k q resp lt at granted =
    let row = update_at c.calls k (update (c.calls k) q (delivered resp)) in
    let place : (with_call c k q (delivered resp)).calls k q ≡ delivered resp =
      rw row (update_at (c.calls k) q (delivered resp)) in
    count_below-more n _ _ q
      (λ j.
        with_call-each (λ i p x. is_tallied (c.calls i p) ≡ true → is_tallied x ≡ true) c k q
          (delivered resp) (λ h. granted) (λ i p h. h) k j)
      lt (rw at refl) (rw place granted)

call_to-silent : (p : ℕ) (requests : List (ℕ × VoteRequest)) → is_yes (call_to p requests) ≡ false
unfolding call_to
call_to-silent p [] = refl
call_to-silent p ((q, req) ∷ requests) = elim (Bool-cases (p == q)) [
  | inl here ↦ rw here refl
  | inr later ↦ rw later (call_to-silent p requests)
]

calls_of-yes : (i : ℕ) (e : Election) (p : ℕ) → is_yes (calls_of i e p) ≡ true → p ≡ i
unfolding calls_of
calls_of-yes i e p h = elim (Bool-cases (p == i)) [
  | inl own ↦ (==_iff p i).0 own
  | inr other ↦ cc (call_to-silent p e.requests, (rw other at h))
]

calls_of-own : (i : ℕ) (e : Election) → is_tallied (calls_of i e i) ≡ true
unfolding calls_of
calls_of-own i e = rw ((==_iff i i).1 refl) refl

calls_of-sent :
    (i : ℕ) (e : Election) (p : ℕ) (req : VoteRequest)
    → calls_of i e p ≡ sent req
    → call_to p e.requests ≡ sent req
unfolding calls_of
calls_of-sent i e p req h = elim (Bool-cases (p == i)) [
  | inl own ↦
      let is : delivered (record { term = e.term; vote_granted = true }) ≡ sent req = rw own at h in
      cc
  | inr other ↦ rw other at h
]

-- The cluster after a node entered an election: its calls are those of the election.
abbrev pub entered : Cluster → ℕ → Election → Cluster
entered c i e = record (with_campaign c i e) { calls = update c.calls i (calls_of i e) }

module _ (n : ℕ) (t : ℤ) (c : Cluster) (k : ℕ) (e : Election) where
  -- The calls of the new election, and those of the others.
  entered-each {ℓ} :
      (P : ℕ → (ℕ → VoteCall) → Type ℓ)
      → P k (calls_of k e)
      → ((i : ℕ) → i ≢ k → P i (c.calls i))
      → (i : ℕ) → P i ((entered c k e).calls i)
  entered-each P here elsewhere i = elim (ℕ_discrete i k) [
    | yes is ↦ rw (is, update_at c.calls k (calls_of k e)) here
    | no ne ↦ rw (update_other c.calls k i (calls_of k e) ne) (elsewhere i ne)
  ]

  entered-yes :
      (i p : ℕ)
      → is_yes ((entered c k e).calls i p) ≡ true
      → ((i ≡ k) × (p ≡ k)) ⊎ (is_yes (c.calls i p) ≡ true)
  entered-yes i p =
      entered-each
        (λ i row. is_yes (row p) ≡ true → ((i ≡ k) × (p ≡ k)) ⊎ (is_yes (c.calls i p) ≡ true))
        (λ h. inl (refl, calls_of-yes k e p h)) (λ i ne h. inr h) i

  entered-counts :
      k < n
      → e.term ≡ t
      → e.majority ≡ n / 2 + 1
      → e.votes ≡ 1
      → Fair n t c
      → (i : ℕ) (e' : Election) → (entered c k e).campaign i ≡ some e'
      → IsCounting n t e' (tally n (entered c k e) i)
  entered-counts lt term majority votes f i e' h = elim (update-some c.campaign k e i e' h) [
    | inl (is, same) ↦
        let own : is_tallied ((entered c k e).calls k k) ≡ true =
          rw (update_at c.calls k (calls_of k e)) (calls_of-own k e) in
        let some_vote = count_below-pos n (λ p. is_tallied ((entered c k e).calls k p)) k lt own in
        rw (is, ← same) (record { term = term; majority = majority; counted = omega arith })
    | inr (ne, old) ↦ rw (update_other c.calls k i (calls_of k e) ne) (f.counts i e' old)
  ]

  -- A node enters an election of the term, with its own vote.
  pub entered-Fair :
      k < n
      → e.term ≡ t
      → e.majority ≡ n / 2 + 1
      → e.votes ≡ 1
      → (c.node k).current_term ≡ t
      → (c.node k).voted_for ≡ pos k
      → ((p : ℕ) (req : VoteRequest)
          → call_to p e.requests ≡ sent req
          → (req.term ≡ t) × (req.candidate_id ≡ pos k))
      → Fair n t c
      → Fair n t (entered c k e)
  entered-Fair lt term majority votes in_term voted asks f = record {
    me = f.me;
    size = f.size;
    asks = λ i p req.
        entered-each (λ i row. row p ≡ sent req → (req.term ≡ t) × (req.candidate_id ≡ pos i))
          (λ h. asks p req (calls_of-sent k e p req h)) (λ i ne. f.asks i p req) i;
    bound = λ i p.
        entered-each (λ i row. is_yes (row p) ≡ true → Bound t (c.node p) i)
          (λ h. rw (calls_of-yes k e p h) (inr (in_term, voted))) (λ i ne. f.bound i p) i;
    agree = λ i j p yi yj. elim (entered-yes i p yi) [
      | inl (ik, pk) ↦ elim (entered-yes j p yj) [
        | inl (jk, _) ↦ ik ∙ sym jk
        | inr old ↦ ik ∙ sym (bound_to j (rw pk at old))
      ]
      | inr old ↦ elim (entered-yes j p yj) [
        | inl (jk, pk) ↦ bound_to i (rw pk at old) ∙ sym jk
        | inr old' ↦ f.agree i j p old old'
      ]
    ];
    counts = entered-counts lt term majority votes f;
  }
    where
      bound_to : (j : ℕ) → is_yes (c.calls j k) ≡ true → j ≡ k
      bound_to j h = Bound-once t (c.node k) k j in_term voted (f.bound j k h)
