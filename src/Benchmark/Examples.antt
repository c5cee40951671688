-- ===== src/Benchmark/Examples.antt =====
-- A search of two nodes against the brute force.
use Prim.Native.String.{String}
use Prim.Native.Nat.{min}
use text.Mathlib.Text.{◌==◌ as str_eq}
use text.Mathlib.TextEquality.{eq_iff}
use vector_store.Prelude.{
  some-injective, subst, ℕ, ◌+◌, ◌≤◌, ◌≡◌, refl, sym, ◌⊎◌, inl, inr, arith, Bool-cases, List, [],
  ◌∷◌, map, some, lookup, mem_str, ltb, if◌then◌else◌, ok, pos,
}
use vector_store.Index.{Candidate, Node, HnswGraph}
use vector_store.Index.Links.{Names}
use vector_store.Index.WellLinked.{Stores, IsLinked}
use vector_store.Index.Insert.Keeping.{IsIndex}
use vector_store.Index.Examples.{only_list, near, at_zero}
use vector_store.Index.SearchExamples.{below, ranks}
use vector_store.Index.Heap.Items.{total, All}
use vector_store.Index.Search.{search}
use vector_store.Index.Search.Invariant.{here, link, value}
use vector_store.Index.Search.Ranking.{Falling}
use vector_store.Benchmark.{Sc, top_k_brute}
use vector_store.Benchmark.Recall.{SortsScores, IsLoaded, rank_at, search-top_k_brute}

abbrev rank_of : Sc ℕ → ℕ
rank_of c = min c.s 100

abbrev place : Sc ℕ → List (Sc ℕ) → List (Sc ℕ)
place c [] = c ∷ []
place c (d ∷ ds) = if ltb (rank_of c) (rank_of d) then d ∷ place c ds else c ∷ d ∷ ds

abbrev by_rank : List (Sc ℕ) → List (Sc ℕ)
by_rank [] = []
by_rank (c ∷ cs) = place c (by_rank cs)

total-place : (w : Sc ℕ → ℕ) (c : Sc ℕ) (ds : List (Sc ℕ)) → total w (place c ds) ≡ w c + total w ds
total-place w c [] = refl
total-place w c (d ∷ ds) = elim (Bool-cases (ltb (rank_of c) (rank_of d))) [
  | inl less ↦ rw less (omega (arith, total-place w c ds))
  | inr more ↦ rw more refl
]

All-place : (P : Sc ℕ → Type 0) (c : Sc ℕ) (ds : List (Sc ℕ)) → P c → All P ds → All P (place c ds)
All-place P c [] p h = (p, tt)
All-place P c (d ∷ ds) p h = elim (Bool-cases (ltb (rank_of c) (rank_of d))) [
  | inl less ↦ rw less (h.0, All-place P c ds p h.1)
  | inr more ↦ rw more (p, h)
]

All-ranks :
    (n : ℕ) (ds : List (Sc ℕ)) → All (λ d. rank_of d ≤ n) ds → All (λ m. m ≤ n) (map rank_of ds)
All-ranks n [] h = tt
All-ranks n (d ∷ ds) h = (h.0, All-ranks n ds h.1)

ranks-All :
    (n : ℕ) (ds : List (Sc ℕ)) → All (λ m. m ≤ n) (map rank_of ds) → All (λ d. rank_of d ≤ n) ds
ranks-All n [] h = tt
ranks-All n (d ∷ ds) h = (h.0, ranks-All n ds h.1)

up_to :
    (n k : ℕ) (ds : List (Sc ℕ))
    → n ≤ k
    → All (λ m. m ≤ n) (map rank_of ds)
    → All (λ m. m ≤ k) (map rank_of ds)
up_to n k [] l h = tt
up_to n k (d ∷ ds) l h = (omega (arith, h.0), up_to n k ds l h.1)

Falling-place :
    (c : Sc ℕ) (ds : List (Sc ℕ)) → Falling (map rank_of ds) → Falling (map rank_of (place c ds))
Falling-place c [] h = (tt, tt)
Falling-place c (d ∷ ds) h = elim (Bool-cases (ltb (rank_of c) (rank_of d))) [
  | inl less ↦
      let low : rank_of c ≤ rank_of d = ground arith in
      let rest = All-place (λ x. rank_of x ≤ rank_of d) c ds low (ranks-All (rank_of d) ds h.0) in
      rw less (All-ranks (rank_of d) (place c ds) rest, Falling-place c ds h.1)
  | inr more ↦
      let low : rank_of d ≤ rank_of c = ground arith in
      rw more ((low, up_to (rank_of d) (rank_of c) ds low h.0), h)
]

total-by_rank : (w : Sc ℕ → ℕ) (cs : List (Sc ℕ)) → total w (by_rank cs) ≡ total w cs
total-by_rank w [] = refl
total-by_rank w (c ∷ cs) = omega (arith, total-place w c (by_rank cs), total-by_rank w cs)

All-by_rank : (P : Sc ℕ → Type 0) (cs : List (Sc ℕ)) → All P cs → All P (by_rank cs)
All-by_rank P [] h = tt
All-by_rank P (c ∷ cs) h = All-place P c (by_rank cs) h.0 (All-by_rank P cs h.1)

Falling-by_rank : (cs : List (Sc ℕ)) → Falling (map rank_of (by_rank cs))
Falling-by_rank [] = tt
Falling-by_rank (c ∷ cs) = Falling-place c (by_rank cs) (Falling-by_rank cs)

by_rank-SortsScores : SortsScores ranks.rank by_rank
by_rank-SortsScores = record {
  totals = total-by_rank;
  keeps = All-by_rank;
  order = Falling-by_rank;
}

abbrev node_a : Node ℕ
node_a = at_zero "a" 1 ("b" ∷ [])

abbrev node_b : Node ℕ
node_b = at_zero "b" 6 ("a" ∷ [])

abbrev pair : HnswGraph ℕ
pair = record {
  nodes = ("a", node_a) ∷ ("b", node_b) ∷ [];
  entry_point = "a";
  max_layer = 0;
  m = 1;
  m_max0 = 2;
  ef_construction = 4;
  ef_search = 3;
}

one_of :
    (x : String) (n : Node ℕ)
    → lookup x pair.nodes ≡ some n
    → ((x ≡ "a") × (node_a ≡ n)) ⊎ ((x ≡ "b") × (node_b ≡ n))
unfolding lookup
one_of x n h = elim (Bool-cases (str_eq "a" x)) [
  | inl a ↦
      let found : some node_a ≡ some n = rw a at h in
      inl (sym ((eq_iff "a" x).0 a), some-injective node_a n found)
  | inr other ↦ elim (Bool-cases (str_eq "b" x)) [
    | inl b ↦
        let found : some node_b ≡ some n = rw (other, b) at h in
        inr (sym ((eq_iff "b" x).0 b), some-injective node_b n found)
    | inr neither ↦ let none_left = rw (other, neither) at h in cc
  ]
]

-- A node whose only link is to a stored node.
at_zero-IsLinked :
    (id to : String) (v : ℕ) → Stores pair to → IsLinked pair (at_zero id v (to ∷ []))
unfolding Names
at_zero-IsLinked id to v there = record {
  layers = refl;
  bounded = λ lc links h.
      let (at_0, same) = only_list lc (to ∷ []) links h in rw (at_0, ← same) (omega arith);
  stored = λ lc links x h m.
      let named = subst (Names x) (sym (only_list lc (to ∷ []) links h).1) m in
      elim named [ inl e ↦ rw e there | inr none_left ↦ elim none_left [ ] ];
}

pair-IsIndex : IsIndex pair
unfolding lookup
pair-IsIndex = record {
  linked = λ x n h. elim (one_of x n h) [
    | inl (_, is) ↦ subst (IsLinked pair) is (at_zero-IsLinked "a" "b" 1 (node_b, refl))
    | inr (_, is) ↦ subst (IsLinked pair) is (at_zero-IsLinked "b" "a" 6 (node_a, refl))
  ];
  once = (refl, (refl, tt));
  some_ef = omega arith;
  some_ef_search = omega arith;
  under_top = λ x n h. elim (one_of x n h) [
    | inl (_, is) ↦ rw (← is) (omega arith)
    | inr (_, is) ↦ rw (← is) (omega arith)
  ];
  entry = inr (refl, (node_a, refl));
}

pair-IsLoaded :
    IsLoaded near below ranks by_rank by_rank-SortsScores (8 ∷ []) pair ((1 ∷ []) ∷ (6 ∷ []) ∷ [])
unfolding lookup mem_str
pair-IsLoaded = record {
  vectors = refl;
  connected = λ x y n m h k. elim (one_of x n h) [
    | inl a ↦ elim (one_of y m k) [
      | inl a' ↦ rw (a.0, a'.0) here
      | inr b' ↦ rw (a.0, b'.0) (link "a" "b" node_a here refl refl)
    ]
    | inr b ↦ elim (one_of y m k) [
      | inl a' ↦ rw (b.0, a'.0) (link "b" "a" node_b here refl refl)
      | inr b' ↦ rw (b.0, b'.0) here
    ]
  ];
}

search-top_k_brute_example :
    (out : List (Candidate ℕ)) × (search near below pair (8 ∷ []) (pos 1) ≡ ok out)
    × (map (value below ranks) out
        ≡ map
            (rank_at near below ranks by_rank by_rank-SortsScores
              (8 ∷ [])
              ((1 ∷ []) ∷ (6 ∷ []) ∷ []))
            (top_k_brute near by_rank (8 ∷ []) ((1 ∷ []) ∷ (6 ∷ []) ∷ []) 1))
search-top_k_brute_example =
    search-top_k_brute near below ranks by_rank by_rank-SortsScores (8 ∷ []) pair
      ((1 ∷ []) ∷ (6 ∷ []) ∷ []) 1 pair-IsIndex pair-IsLoaded (omega arith)
