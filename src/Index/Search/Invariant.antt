-- ===== src/Index/Search/Invariant.antt =====
-- What holds of the two heaps and the visited set all through searchLayer.
use Prim.Native.String.{String}
use vector_store.Prelude.{
  ℕ, ◌-◌, ◌≤◌, ◌≡◌, sym, ap, ◌∙◌, some-injective, ◌⊎◌, inl, inr, arith, Bool, true, List, ◌∷◌,
  length, some, ltb, mem_str, mem_str_later, lookup,
}
use vector_store.Index.{Candidate, Node, HnswGraph}
use vector_store.Index.Heap.Items.{All, All-map}
use vector_store.Index.Heap.Order.{IsHeap}
use vector_store.Index.Search.{Frontier, links_at, better, worse}
use vector_store.Index.Search.Names.{count, mem_str-cases}

-- How float32 values compare where none is NaN: as numbers up to some greatest one.
pub record Ranked {S : Type 0} (below : S → S → Bool) : Type 0 where
  pub rank : S → ℕ
  pub greatest : ℕ
  pub bounded : (a : S) → rank a ≤ greatest
  pub below_rank : (a b : S) → below a b ≡ ltb (rank a) (rank b)

module _ {S : Type 0} (below : S → S → Bool) (ranks : Ranked below) where
  abbrev pub value : Candidate S → ℕ
  value c = ranks.rank c.score

  abbrev pub distance : Candidate S → ℕ
  distance c = ranks.greatest - value c

  pub worse-value : (a b : Candidate S) → worse below a b ≡ ltb (value a) (value b)
  worse-value a b = ranks.below_rank a.score b.score

  pub better-distance : (a b : Candidate S) → better below a b ≡ ltb (distance a) (distance b)
  better-distance a b =
      rw (ranks.below_rank b.score a.score)
        (ground (arith, ranks.bounded a.score, ranks.bounded b.score))

  -- The root is a worst entry.
  abbrev pub WorstFirst : Candidate S → List (Candidate S) → Type 0
  WorstFirst d h = IsHeap (worse below) value worse-value d h

  -- The root is a best entry.
  abbrev pub BestFirst : Candidate S → List (Candidate S) → Type 0
  BestFirst d h = IsHeap (better below) distance better-distance d h

-- A name that the links of a layer lead to.
pub data Reaches {F : Type 0} (g : HnswGraph F) (layer : ℕ) (ep : String) : String → Type 0 where
  here : Reaches g layer ep ep
  link :
      (a b : String) (n : Node F)
      → Reaches g layer ep a
      → lookup a g.nodes ≡ some n
      → mem_str b (links_at n layer) ≡ true
      → Reaches g layer ep b

module _ {F S : Type 0} (similarity : List F → List F → S) (below : S → S → Bool)
    (ranks : Ranked below) (g : HnswGraph F) (query : List F) (ef layer : ℕ) (ep : String) where
  -- A stored node with its score, reached over the links of the layer.
  pub record IsFound (c : Candidate S) : Type 0 where
    pub node : Node F
    pub stored : lookup c.id g.nodes ≡ some node
    pub score : c.score ≡ similarity query node.vector
    pub reached : Reaches g layer ep c.id

  pub score-IsFound :
      (c : Candidate S) (id : String) (n : Node F)
      → IsFound c
      → id ≡ c.id
      → lookup id g.nodes ≡ some n
      → c.score ≡ similarity query n.vector
  score-IsFound c id n found e l =
      let same : some found.node ≡ some n = sym found.stored ∙ (rw (← e) l) in
      found.score
      ∙ ap (λ (k : Node F). similarity query k.vector) (some-injective found.node n same)

  pub same_score : (a b : Candidate S) → IsFound a → IsFound b → a.id ≡ b.id → a.score ≡ b.score
  same_score a b found found' e =
      found.score ∙ sym (score-IsFound b a.id found.node found' e found.stored)

  -- The node is among the results, or there are ef results, and none of them is worse.
  abbrev pub Kept : String → Node F → List (Candidate S) → Type 0
  Kept id n res =
      (1 ≤ count id res)
      ⊎ ((ef ≤ length res)
          × All (λ y. ranks.rank (similarity query n.vector) ≤ ranks.rank y.score) res)

  -- All its neighbours were visited.
  abbrev pub IsExpanded : List String → String → Type 0
  IsExpanded visited id =
      (n : Node F) (b : String)
      → lookup id g.nodes ≡ some n
      → mem_str b (links_at n layer) ≡ true
      → mem_str b visited ≡ true

  -- At most `limit` results; a result is to be expanded, was expanded, or is being expanded.
  pub record Searching (now : String → Type 0) (limit : ℕ) (d : Candidate S) (f : Frontier S)
      : Type 0 where
    pub best_first : BestFirst below ranks d f.exp
    pub worst_first : WorstFirst below ranks d f.res
    pub at_most : length f.res ≤ limit
    pub at_least : 1 ≤ length f.res
    pub exp_found : All IsFound f.exp
    pub res_found : All IsFound f.res
    pub res_visited : All (λ c. mem_str c.id f.visited ≡ true) f.res
    pub distinct : (id : String) → count id f.res ≤ 1
    pub kept :
        (id : String) (n : Node F)
        → mem_str id f.visited ≡ true
        → lookup id g.nodes ≡ some n
        → Kept id n f.res
    pub progress : All (λ c. (1 ≤ count c.id f.exp) ⊎ IsExpanded f.visited c.id ⊎ now c.id) f.res
    pub entered : mem_str ep f.visited ≡ true

  -- A further name is visited that is not in the graph, or is kept.
  pub visit-Searching :
      (now : String → Type 0) (limit : ℕ) (d : Candidate S) (f : Frontier S) (id : String)
      → Searching now limit d f
      → ((n : Node F) → lookup id g.nodes ≡ some n → Kept id n f.res)
      → Searching now limit d (record f { visited = id ∷ f.visited })
  visit-Searching now limit d f id s keeps = record {
    best_first = s.best_first;
    worst_first = s.worst_first;
    at_most = s.at_most;
    at_least = s.at_least;
    exp_found = s.exp_found;
    res_found = s.res_found;
    res_visited = All-map f.res (λ c m. mem_str_later c.id id f.visited m) s.res_visited;
    distinct = s.distinct;
    kept = λ id' n m l. elim (mem_str-cases id id' f.visited m) [
      | inl e ↦ rw (← e) (keeps n (rw e l))
      | inr old ↦ s.kept id' n old l
    ];
    progress =
        All-map f.res
          (λ c p. elim p [
            | inl open_ ↦ inl open_
            | inr (inl done) ↦ inr (inl (λ n b l m. mem_str_later b id f.visited (done n b l m)))
            | inr (inr q) ↦ inr (inr q)
          ])
          s.progress;
    entered = mem_str_later ep id f.visited s.entered;
  }

  -- Each result is to be expanded, was expanded, or is `now`.
  abbrev pub Progress : (String → Type 0) → List (Candidate S) → Frontier S → Type 0
  Progress now exp f = All (λ c. (1 ≤ count c.id exp) ⊎ IsExpanded f.visited c.id ⊎ now c.id) f.res

  -- The candidates to expand, or what is known of the results' progress, change.
  pub change-Searching :
      (now now' : String → Type 0) (limit limit' : ℕ) (d : Candidate S) (f : Frontier S)
      (exp : List (Candidate S))
      → Searching now limit d f
      → length f.res ≤ limit'
      → BestFirst below ranks d exp
      → All IsFound exp
      → Progress now' exp f
      → Searching now' limit' d (record f { exp = exp })
  change-Searching now now' limit limit' d f exp s fits order found progress' = record {
    best_first = order;
    worst_first = s.worst_first;
    at_most = fits;
    at_least = s.at_least;
    exp_found = found;
    res_found = s.res_found;
    res_visited = s.res_visited;
    distinct = s.distinct;
    kept = s.kept;
    progress = progress';
    entered = s.entered;
  }
