-- ===== src/Raft/Cluster/Safety.antt =====
-- Election safety (§5.2): the leaders of one term.
use vector_store.Prelude.{ℕ, ◌^◌, ◌≤◌, ◌≡◌, ap, true, none, arith, length, ℤ, InInt32}
use vector_store.Raft.State.{is_leader}
use vector_store.Raft.Lifecycle.{CommandCodec}
use vector_store.Raft.Persistence.{StateCodec}
use vector_store.Raft.Cluster.{Cluster, idle, Moves, here, next, AllUndisturbed}
use vector_store.Prelude.Counting.{count_below-meet}
use vector_store.Raft.Cluster.Invariant.{is_tallied, is_tallied-is_yes, is_yes, Fair, Won}
use vector_store.Raft.Cluster.Moving.{Elects, Move-Elects}

-- n nodes, none of which has begun an election of the term or leads it.
pub record Fresh (n : ℕ) (t : ℤ) (c : Cluster) : Type 0 where
  pub me : (i : ℕ) → (c.node i).me ≡ i
  pub size : (i : ℕ) → length (c.node i).addrs ≡ n
  pub none_called : (i p : ℕ) → c.calls i p ≡ idle
  pub none_runs : (i : ℕ) → c.campaign i ≡ none
  pub none_leads : (i : ℕ) → is_leader (c.node i).role ≡ true → (c.node i).current_term ≡ t → ⊥

Fresh-Elects : (n : ℕ) (t : ℤ) (c : Cluster) → Fresh n t c → Elects n t c
Fresh-Elects n t c f = record {
  fair = record {
    me = f.me;
    size = f.size;
    asks = λ i p req h. let no_call = f.none_called i p in cc;
    bound = λ i p h. let silent = ap is_yes (f.none_called i p) in cc;
    agree = λ i j p h _. let silent = ap is_yes (f.none_called i p) in cc;
    counts = λ i e h. let no_election = f.none_runs i in cc;
  };
  won = λ i l at_t. absurd (f.none_leads i l at_t);
}

-- Two elections that have their majorities have a voter in common.
Won-unique : (n : ℕ) (t : ℤ) (c : Cluster) → Fair n t c → (i j : ℕ) → Won c i → Won c j → i ≡ j
Won-unique n t c f i j (e, runs, won) (d, runs', won') =
    let a = f.counts i e runs in
    let b = f.counts j d runs' in
    let (p, yi, yj) =
      count_below-meet n (λ p. is_tallied (c.calls i p)) (λ p. is_tallied (c.calls j p))
        (omega (arith, a.majority, a.counted, b.majority, b.counted)) in
    f.agree i j p (is_tallied-is_yes (c.calls i p) yi) (is_tallied-is_yes (c.calls j p) yj)

module _ {F : Type 0} (commands : CommandCodec F) (states : StateCodec) (n : ℕ) (t : ℤ) where
  Moves-Elects :
      (c c' : Cluster) (moves : Moves commands states n t c c')
      → InInt32 t
      → n ≤ 2 ^ 31
      → AllUndisturbed commands states n t c c' moves
      → Elects n t c
      → Elects n t c'
  Moves-Elects c c' here fits few calm h = h
  Moves-Elects c c' (next {a} {b} moves m) fits few calm h =
      Move-Elects commands states n t a c' m fits few calm.1
        (Moves-Elects c a moves fits few calm.0 h)

  -- A term has one leader at most: in a cluster of n nodes that has not begun an election of the
  -- term (with n and the term within int32), whatever handlers run, and in whatever order requests
  -- and replies arrive or are lost, two nodes that lead the term are one, if no node that was
  -- already in the term took an AppendEntries of it.
  pub one_leader :
      (c c' : Cluster) (moves : Moves commands states n t c c') (i j : ℕ)
      → InInt32 t
      → n ≤ 2 ^ 31
      → Fresh n t c
      → AllUndisturbed commands states n t c c' moves
      → is_leader (c'.node i).role ≡ true
      → (c'.node i).current_term ≡ t
      → is_leader (c'.node j).role ≡ true
      → (c'.node j).current_term ≡ t
      → i ≡ j
  one_leader c c' moves i j fits few fresh calm li ti lj tj =
      let h = Moves-Elects c c' moves fits few calm (Fresh-Elects n t c fresh) in
      Won-unique n t c' h.fair i j (h.won i li ti) (h.won j lj tj)
