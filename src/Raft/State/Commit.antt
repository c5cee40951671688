-- ===== src/Raft/State/Commit.antt =====
-- advanceCommitIndex: it finds the highest entry that may be committed, and changes nothing else.
use vector_store.Prelude.{
  ℕ, zero, suc, ◌+◌, ◌≤◌, ◌<◌, ◌≡◌, refl, ap, ◌∙◌, at_or_below, ◌⊎◌, inl, inr, true, false, List,
  [], ◌∷◌, some, arith, leb, length, get_elem?, get_elem?-some, if◌then◌else◌, Bool-cases, ℤ, pos,
  minus_one, ◌≤ℤ◌, ◌<ℤ◌, ltb_ℤ, leb_ℤ, eqb_ℤ, eqb_ℤ→eq, eqb_ℤ_self, Run, ok,
}
use Prim.Native.String.{String}
use vector_store.Raft.State.{
  Raft, LogEntry, majority_of, count_replicas, advance_from, advance_commit_index,
}

-- The per-peer lists have an entry for each node, and the commit index is at least -1.
pub record IsSized (rf : Raft) : Type 0 where
  pub matches : length rf.match_index ≡ length rf.addrs
  pub nexts : length rf.next_index ≡ length rf.addrs
  pub clients : length rf.peers ≡ length rf.addrs
  pub self : rf.me < length rf.addrs
  pub commits : minus_one ≤ℤ rf.commit_index

-- The nodes known to hold the entry at n.
pub replicas : List ℤ → ℤ → ℕ
replicas [] n = 0
replicas (m ∷ matches) n = (if leb_ℤ n m then 1 else 0) + replicas matches n

count_replicas-ok :
    (addrs : List String) (matches : List ℤ) (n : ℤ) (count : ℕ)
    → length matches ≡ length addrs
    → count_replicas addrs matches n count ≡ ok (count + replicas matches n)
unfolding count_replicas replicas
count_replicas-ok [] [] n count h = ground arith
count_replicas-ok [] (m ∷ matches) n count h = absurd (omega arith)
count_replicas-ok (a ∷ addrs) [] n count h = absurd (omega arith)
count_replicas-ok (a ∷ addrs) (m ∷ matches) n count h =
    ground (arith, count_replicas-ok addrs matches n (if leb_ℤ n m then count + 1 else count))

count-ok :
    (rf : Raft) (n : ℤ)
    → IsSized rf
    → count_replicas rf.addrs rf.match_index n 0 ≡ ok (replicas rf.match_index n)
count-ok rf n s = count_replicas-ok rf.addrs rf.match_index n 0 s.matches ∙ ap ok (omega arith)

-- A majority holds the entry at n, and it is of the current term (§5.4.2).
abbrev pub Committable : Raft → ℕ → Type 0
Committable rf n =
    (e : LogEntry) × (get_elem? rf.log n ≡ some e)
    × (e.term ≡ rf.current_term)
    × (majority_of rf ≤ replicas rf.match_index (pos n))

-- `c` is the highest committable index above the commit index and below `n`, or the commit index.
abbrev pub Highest : Raft → ℕ → ℤ → Type 0
Highest rf n c =
    ((c ≡ rf.commit_index) × ((k : ℕ) → rf.commit_index <ℤ pos k → k < n → ¬ Committable rf k))
    ⊎ ((m : ℕ) × (c ≡ pos m)
        × (rf.commit_index <ℤ pos m)
        × (m < n)
        × Committable rf m
        × ((k : ℕ) → m < k → k < n → ¬ Committable rf k))

Highest-suc :
    (rf : Raft) (n : ℕ) (c : ℤ) → ¬ Committable rf n → Highest rf n c → Highest rf (suc n) c
Highest-suc rf n c h (inl (e, none_below)) =
    inl (e, λ k p q. at_or_below (λ j. ¬ Committable rf j) n k h (none_below k p) q)
Highest-suc rf n c h (inr (m, e, above, below, holds, none_above)) = inr (
  m,
  e,
  above,
  omega arith,
  holds,
  λ k p q. at_or_below (λ j. ¬ Committable rf j) n k h (none_above k p) q,
)

-- One round of the loop, by what it finds at n.
module _ (n : ℕ) (rf : Raft) (s : IsSized rf) (e : LogEntry) (found : get_elem? rf.log n ≡ some e)
    (ahead : ltb_ℤ rf.commit_index (pos n) ≡ true) where
  abbrev count : ℕ
  count = replicas rf.match_index (pos n)

  advance_from-hit :
      eqb_ℤ e.term rf.current_term ≡ true
      → leb (majority_of rf) count ≡ true
      → advance_from (suc n) rf ≡ ok (record rf { commit_index = pos n })
  unfolding advance_from
  advance_from-hit t c = rw (ahead, found, t, count-ok rf (pos n) s, c)

  advance_from-few :
      eqb_ℤ e.term rf.current_term ≡ true
      → leb (majority_of rf) count ≡ false
      → advance_from (suc n) rf ≡ advance_from n rf
  unfolding advance_from
  advance_from-few t c = rw (ahead, found, t, count-ok rf (pos n) s, c)

  advance_from-old :
      eqb_ℤ e.term rf.current_term ≡ false → advance_from (suc n) rf ≡ advance_from n rf
  unfolding advance_from
  advance_from-old t = rw (ahead, found, t)

-- The outcome of the loop over the indices below n: no panic, and only the commit index changes.
abbrev Advanced : Raft → ℕ → Run Raft → Type 0
Advanced rf n r = (c : ℤ) × (r ≡ ok (record rf { commit_index = c })) × Highest rf n c

-- Going past an entry that is not committable.
skip :
    (n : ℕ) (rf : Raft)
    → ¬ Committable rf n
    → advance_from (suc n) rf ≡ advance_from n rf
    → Advanced rf n (advance_from n rf)
    → Advanced rf (suc n) (advance_from (suc n) rf)
skip n rf no_entry same (c, e, hc) = (c, same ∙ e, Highest-suc rf n c no_entry hc)

advance_from-behind :
    (n : ℕ) (rf : Raft)
    → ltb_ℤ rf.commit_index (pos n) ≡ false
    → Advanced rf (suc n) (advance_from (suc n) rf)
unfolding advance_from
advance_from-behind n rf behind =
    (rf.commit_index, rw behind, inl (refl, λ k p q. absurd (ground arith)))

advance_from-here :
    (n : ℕ) (rf : Raft)
    → IsSized rf
    → (e : LogEntry) → get_elem? rf.log n ≡ some e
    → ltb_ℤ rf.commit_index (pos n) ≡ true
    → Advanced rf n (advance_from n rf)
    → Advanced rf (suc n) (advance_from (suc n) rf)
advance_from-here n rf s e found ahead ih = elim (Bool-cases (eqb_ℤ e.term rf.current_term)) [
  | inr old ↦
      skip n rf (λ (e', found', t, many). cc (eqb_ℤ_self rf.current_term))
        (advance_from-old n rf s e found ahead old) ih
  | inl t ↦ elim (Bool-cases (leb (majority_of rf) (replicas rf.match_index (pos n)))) [
    | inl many ↦ (
      pos n,
      advance_from-hit n rf s e found ahead t many,
      inr (
        n,
        refl,
        ground arith,
        omega arith,
        (e, found, eqb_ℤ→eq e.term rf.current_term t, ground arith),
        λ k p q. absurd (omega arith),
      ),
    )
    | inr few ↦
        skip n rf (λ (e', found', t', many). ground arith)
          (advance_from-few n rf s e found ahead t few) ih
  ]
]

advance_from-ok :
    (n : ℕ) (rf : Raft) → IsSized rf → n ≤ length rf.log → Advanced rf n (advance_from n rf)
advance_from-ok zero rf s h = (
  rf.commit_index,
  unfold advance_from in ground (arith, s.commits),
  inl (refl, λ k p q. absurd (omega arith)),
)
advance_from-ok (suc n) rf s h = elim (Bool-cases (ltb_ℤ rf.commit_index (pos n))) [
  | inr behind ↦ advance_from-behind n rf behind
  | inl ahead ↦
      let (e, found) = get_elem?-some rf.log n (omega arith) in
      advance_from-here n rf s e found ahead (advance_from-ok n rf s (omega arith))
]

-- advanceCommitIndex does not panic and changes only the commit index. That goes to the highest
-- index past it whose entry is of the current term and held by a majority, and stays where there
-- is none.
pub advance_commit_index-Highest :
    (rf : Raft)
    → IsSized rf
    → (c : ℤ) × (advance_commit_index rf ≡ ok (record rf { commit_index = c }))
      × Highest rf (length rf.log) c
unfolding advance_commit_index
advance_commit_index-Highest rf s = advance_from-ok (length rf.log) rf s (omega arith)
