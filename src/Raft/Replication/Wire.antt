-- ===== src/Raft/Replication/Wire.antt =====
-- The request that a leader builds, when its numbers fit the wire's int32 fields.
use vector_store.Prelude.{
  ℕ, zero, suc, ◌+◌, ◌^◌, ◌≤◌, ◌<◌, ◌≡◌, refl, ap, ◌∙◌, sym, true, arith, List, [], ◌∷◌, map, some,
  length, drop, get_elem?, get_elem?-some, get_elem?-drop, drop-all, ℤ, pos, minus_one, ◌-ℤ◌,
  pos-suc--ℤ-one, ltb_ℤ, leb_ℤ, int32, int32-eq, InInt32, ok, if◌then◌else◌, Bool-cases, inl, inr,
}
use vector_store.Raft.State.{Raft, LogEntry, int_length}
use vector_store.Raft.Replication.{Round, build_round, to_proto, prev_term_of, slice_from}
use vector_store.Raft.Replication.Append.{prev_of}
use vector_store.Raft.Replication.Conflict.{HasTerm}

-- What the leader puts into int32 fields fits them.
pub record FitsWire (rf : Raft) : Type 0 where
  pub terms : (i : ℕ) (e : LogEntry) → get_elem? rf.log i ≡ some e → InInt32 e.term
  pub size : length rf.log < 2 ^ 31
  pub self : rf.me < 2 ^ 31
  pub term : InInt32 rf.current_term
  pub commit : InInt32 rf.commit_index

map-to_proto :
    (es : List LogEntry)
    → ((i : ℕ) (e : LogEntry) → get_elem? es i ≡ some e → InInt32 e.term)
    → map to_proto es ≡ es
map-to_proto [] h = refl
map-to_proto (e ∷ es) h =
    rw (int32-eq e.term (h 0 e refl)) (ap (◌∷◌ e) (map-to_proto es (λ i. h (suc i))))

int32-prev_of : (n : ℕ) → n < 2 ^ 31 → int32 (prev_of n) ≡ prev_of n
int32-prev_of zero h = int32-eq minus_one (omega arith)
int32-prev_of (suc p) h = int32-eq (pos p) (omega arith)

pos--ℤ-one : (n : ℕ) → pos n -ℤ pos 1 ≡ prev_of n
unfolding ◌-ℤ◌
pos--ℤ-one zero = refl
pos--ℤ-one (suc p) = pos-suc--ℤ-one p

-- The term of the entry before the n-th; 0 if there is none.
abbrev pub PrevTerm : List LogEntry → ℕ → ℤ → Type 0
PrevTerm log zero t = t ≡ pos 0
PrevTerm log (suc p) t = HasTerm log p t

PrevTerm-InInt32 : (rf : Raft) (n : ℕ) (t : ℤ) → FitsWire rf → PrevTerm rf.log n t → InInt32 t
PrevTerm-InInt32 rf zero t w h = rw h (omega arith)
PrevTerm-InInt32 rf (suc p) t w (e, found, same) = rw (← same) (w.terms p e found)

prev_term_of-PrevTerm :
    (log : List LogEntry) (n : ℕ)
    → n ≤ length log
    → (t : ℤ) × (prev_term_of log (prev_of n) ≡ ok t) × PrevTerm log n t
prev_term_of-PrevTerm log zero h = (pos 0, refl, refl)
prev_term_of-PrevTerm log (suc p) h =
    let (e, found) = get_elem?-some log p h in
    let at_least : leb_ℤ (pos 0) (pos p) ≡ true = ground arith in
    let inside : ltb_ℤ (pos p) (int_length log) ≡ true = ground arith in
    (e.term, rw (at_least, inside, found), (e, found, refl))

entries_to_send :
    (log : List LogEntry) (n : ℕ)
    → n ≤ length log
    → (if ltb_ℤ (pos n) (int_length log) then slice_from log (pos n) else ok []) ≡ ok (drop n log)
entries_to_send log n h = elim (Bool-cases (ltb_ℤ (pos n) (int_length log))) [
  | inl inside ↦ rw inside
  | inr outside ↦ rw (outside, drop-all n log (ground arith))
]

-- The round for a peer whose next index is n, with the term of the entry before.
abbrev pub round_of : Raft → ℕ → ℕ → ℤ → Round
round_of rf peer n prev_term = record {
  peer = peer;
  term = rf.current_term;
  prev_log_idx = prev_of n;
  sent = drop n rf.log;
  request = record {
    term = rf.current_term;
    leader_id = pos rf.me;
    prev_log_index = prev_of n;
    prev_log_term = prev_term;
    entries = drop n rf.log;
    leader_commit = rf.commit_index;
  };
}

-- A leader whose numbers fit the wire sends a peer its whole log from that peer's next index on,
-- with the index and the term of the entry before.
pub build_round-ok :
    (rf : Raft) (peer n : ℕ)
    → FitsWire rf
    → get_elem? rf.next_index peer ≡ some (pos n)
    → n ≤ length rf.log
    → (t : ℤ) × (build_round rf peer rf.current_term ≡ ok (round_of rf peer n t))
      × PrevTerm rf.log n t
unfolding build_round
build_round-ok rf peer n w next h =
    let (t, prev, is) = prev_term_of-PrevTerm rf.log n h in
    let sent =
      map-to_proto (drop n rf.log)
        (λ i e found. w.terms (n + i) e (sym (get_elem?-drop n rf.log i) ∙ found)) in
    (
      t,
      rw (
        next,
        pos--ℤ-one n,
        prev,
        entries_to_send rf.log n h,
        sent,
        int32-eq rf.current_term w.term,
        int32-eq (pos rf.me) (w.self, omega arith),
        int32-prev_of n (omega (arith, w.size)),
        int32-eq t (PrevTerm-InInt32 rf n t w is),
        int32-eq rf.commit_index w.commit,
      ),
      is,
    )
