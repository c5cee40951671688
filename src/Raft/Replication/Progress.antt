-- ===== src/Raft/Replication/Progress.antt =====
-- A successful answer to AppendEntries: what the leader then knows of the peer.
use vector_store.Prelude.{
  ℕ, zero, suc, ◌<◌, ◌≡◌, refl, sym, subst, ap, ◌∙◌, ◌⊎◌, inl, inr, true, false, Bool-cases, arith,
  List, [], ◌∷◌, some, ltb, set, length, length-set, get_elem?, get_elem?-some, get_elem?-set_self,
  ℤ, pos, ◌+ℤ◌, ◌≤ℤ◌, ◌<ℤ◌, ltb_ℤ, ok,
}
use vector_store.Raft.State.{Raft, int_length}
use vector_store.Raft.State.Commit.{IsSized, Highest, advance_commit_index-Highest}
use vector_store.Raft.Replication.{Round, reply_success}

set_same : (xs : List ℤ) (i : ℕ) (v : ℤ) → get_elem? xs i ≡ some v → set xs i v ≡ xs
set_same [] i v h = refl
set_same (x ∷ xs) zero v h = ap (λ y. y ∷ xs) (cc)
set_same (x ∷ xs) (suc i) v h = ap (◌∷◌ x) (set_same xs i v h)

-- The last index of the entries that a round carried, or of the one before them.
abbrev pub reached : Round → ℤ
reached r = r.prev_log_idx +ℤ int_length r.sent

-- The leader, before its look at the commit index, once the peer is known to match up to `top`.
abbrev pub known_to : Raft → ℕ → ℤ → Raft
known_to rf peer top = record rf {
  match_index = set rf.match_index peer top;
  next_index = set rf.next_index peer (top +ℤ pos 1);
}

-- The peer's match index goes up to what the round reached, and never down.
abbrev pub IsTop : Raft → Round → ℤ → Type 0
IsTop rf r top =
    (m : ℤ) × (get_elem? rf.match_index r.peer ≡ some m)
    × (((m <ℤ reached r) × (top ≡ reached r)) ⊎ ((reached r ≤ℤ m) × (top ≡ m)))

-- The node is `base`, but for the commit index that its lists allow.
abbrev pub Commits : Raft → Raft → Type 0
Commits base rf' =
    (c : ℤ) × (rf' ≡ record base { commit_index = c }) × Highest base (length base.log) c

abbrev pub Progress : Raft → Round → Raft → Type 0
Progress rf r rf' = (top : ℤ) × IsTop rf r top × Commits (known_to rf r.peer top) rf'

known_to-IsSized : (rf : Raft) (peer : ℕ) (top : ℤ) → IsSized rf → IsSized (known_to rf peer top)
known_to-IsSized rf peer top s = record {
  matches = length-set rf.match_index peer top ∙ s.matches;
  nexts = length-set rf.next_index peer (top +ℤ pos 1) ∙ s.nexts;
  clients = s.clients;
  self = s.self;
  commits = s.commits;
}

-- A round that reached no further than the peer's match index.
no_further :
    (rf : Raft) (r : Round) (m : ℤ)
    → IsSized rf
    → r.peer < length rf.addrs
    → get_elem? rf.match_index r.peer ≡ some m
    → ltb_ℤ m (reached r) ≡ false
    → (rf' : Raft) × (reply_success rf r ≡ ok rf') × Commits (known_to rf r.peer m) rf'
unfolding reply_success
no_further rf r m s h found less =
    let inside : ltb r.peer (length rf.next_index) ≡ true = ground (arith, s.nexts) in
    let base : Raft = record rf { next_index = set rf.next_index r.peer (m +ℤ pos 1) } in
    let sized : IsSized base = record {
      matches = s.matches;
      nexts = length-set rf.next_index r.peer (m +ℤ pos 1) ∙ s.nexts;
      clients = s.clients;
      self = s.self;
      commits = s.commits;
    } in
    let (c, ran, highest) = advance_commit_index-Highest base sized in
    let rf' : Raft = record base { commit_index = c } in
    let same : base ≡ known_to rf r.peer m =
      ap (λ xs. record base { match_index = xs }) (sym (set_same rf.match_index r.peer m found)) in
    (rf', rw (found, less, found, inside) ran, subst (λ p. Commits p rf') same (c, refl, highest))

-- After a peer of the cluster answered a round with success, the leader's record of it does not
-- panic: the peer's match index is the highest that any round reached, its next index is one more,
-- and the commit index goes to the highest entry that this makes committable. Nothing else changes.
pub reply_success-Progress :
    (rf : Raft) (r : Round)
    → IsSized rf
    → r.peer < length rf.addrs
    → (rf' : Raft) × (reply_success rf r ≡ ok rf') × Progress rf r rf'
unfolding reply_success
reply_success-Progress rf r s h =
    let (m, found) = get_elem?-some rf.match_index r.peer (omega (arith, s.matches)) in
    let inside : ltb r.peer (length rf.match_index) ≡ true = ground (arith, s.matches) in
    let inside' : ltb r.peer (length rf.next_index) ≡ true = ground (arith, s.nexts) in
    elim (Bool-cases (ltb_ℤ m (reached r))) [
      | inl more ↦
          let (c, ran, highest) =
            advance_commit_index-Highest (known_to rf r.peer (reached r))
              (known_to-IsSized rf r.peer (reached r) s) in
          let stored =
            get_elem?-set_self rf.match_index r.peer (reached r) (omega (arith, s.matches)) in
          (
            record (known_to rf r.peer (reached r)) { commit_index = c },
            rw (found, more, inside, stored, inside') ran,
            (reached r, (m, found, inl (ground arith, refl)), (c, refl, highest)),
          )
      | inr less ↦
          let (rf', ran, commits) = no_further rf r m s h found less in
          (rf', ran, (m, (m, found, inr (ground arith, refl)), commits))
    ]
