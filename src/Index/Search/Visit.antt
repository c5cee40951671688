-- ===== src/Index/Search/Visit.antt =====
-- The neighbours of a candidate are visited.
use Prim.Native.String.{String}
use vector_store.Prelude.{
  ℕ, ◌+◌, ◌≤◌, ◌≡◌, refl, inl, inr, arith, Bool, true, false, Bool-cases, Option-cases, List, [],
  ◌∷◌, length, some, ltb, ok, Run, mem_str, mem_str_self, mem_str_later, lookup, if◌then◌else◌,
}
use vector_store.Index.{Candidate, Node, HnswGraph}
use vector_store.Index.Heap.Items.{All, All-of_get_or, get_or, get_elem?-get_or}
use vector_store.Index.Heap.Order.{root_least}
use vector_store.Index.Search.{Frontier, worse, admits, score_one, visit_one}
use vector_store.Index.Search.Names.{mem_str-cases, unvisited, unvisited-later, unvisited-found}
use vector_store.Index.Search.Invariant.{
  Ranked, value, worse-value, WorstFirst, Reaches, IsFound, score-IsFound, Searching,
  visit-Searching,
}
use vector_store.Index.Search.Admit.{admit-Admitted}

module _ {S : Type 0} (below : S → S → Bool) (ranks : Ranked below) (d : Candidate S) where
  -- Whether a score gets in: there is room, or it is better than the worst result.
  admits-ok :
      (ef : ℕ) (score : S) (res : List (Candidate S))
      → 1 ≤ length res
      → admits below ef score res
        ≡ ok (
            if ltb (length res) ef
            then true
            else ltb (ranks.rank (get_or res 0 d).score) (ranks.rank score))
  unfolding admits
  admits-ok ef score res some_res =
      rw (get_elem?-get_or res 0 d (omega arith), ranks.below_rank (get_or res 0 d).score score)
        (ground arith)

  pub above_root :
      (res : List (Candidate S)) (k : ℕ)
      → WorstFirst below ranks d res
      → k ≤ ranks.rank (get_or res 0 d).score
      → All (λ y. k ≤ ranks.rank y.score) res
  above_root res k order low = All-of_get_or _ res d (λ i l. omega (
    arith,
    low,
    root_least (worse below) (value below ranks) (worse-value below ranks) d res i order l,
  ))

module _ {F S : Type 0} (similarity : List F → List F → S) (below : S → S → Bool)
    (ranks : Ranked below) (g : HnswGraph F) (query : List F) (ef layer : ℕ) (ep : String)
    (now : String → Type 0) (d : Candidate S) where
  -- A frontier that a step leaves: no fewer names visited, and no more work left.
  pub record Visited (ids : List String) (f : Frontier S) (r : Run (Frontier S)) : Type 0 where
    pub after : Frontier S
    pub ran : r ≡ ok after
    pub searching : Searching similarity below ranks g query ef layer ep now ef d after
    pub later : (b : String) → mem_str b f.visited ≡ true → mem_str b after.visited ≡ true
    pub visits : (b : String) → mem_str b ids ≡ true → mem_str b after.visited ≡ true
    pub less_work :
        unvisited g.nodes after.visited + length after.exp
        ≤ unvisited g.nodes f.visited + length f.exp

  only_one :
      (id b : String) (v : List String)
      → mem_str b (id ∷ []) ≡ true
      → mem_str id v ≡ true
      → mem_str b v ≡ true
  unfolding mem_str
  only_one id b v one h = elim (mem_str-cases id b [] one) [ inl e ↦ rw (← e) h | inr never ↦ cc ]

  score_one-Visited :
      (id : String) (n : Node F) (f : Frontier S)
      → 1 ≤ ef
      → Searching similarity below ranks g query ef layer ep now ef d f
      → mem_str id f.visited ≡ false
      → lookup id g.nodes ≡ some n
      → Reaches g layer ep id
      → Visited
          (id ∷ [])
          f
          (score_one similarity below g query ef layer id n (record f { visited = id ∷ f.visited }))
  unfolding score_one
  score_one-Visited id n f pos s fresh l reached =
      let c : Candidate S = record { id = id; score = similarity query n.vector } in
      let tested = admits-ok below ranks d ef c.score f.res s.at_least in
      let fewer = unvisited-found g.nodes id f.visited n l fresh in
      elim (Bool-cases (
        if ltb (length f.res) ef
        then true
        else ltb (ranks.rank (get_or f.res 0 d).score) (ranks.rank c.score))) [
          | inl worth ↦
              let found : IsFound similarity below ranks g query ef layer ep c = record {
                node = n;
                stored = l;
                score = refl;
                reached = reached;
              } in
              let a =
                admit-Admitted similarity below ranks g query ef layer ep now d f c pos s fresh
                  found (ground arith) in
              record {
                after = a.after;
                ran = rw (tested, worth) a.ran;
                searching = a.searching;
                later = λ b m. rw a.visits (mem_str_later b id f.visited m);
                visits = λ b m.
                    rw a.visits (only_one id b (id ∷ f.visited) m (mem_str_self id f.visited));
                less_work = rw a.visits (omega (arith, a.one_more, fewer));
              }
          | inr poor ↦ record {
            after = record f { visited = id ∷ f.visited };
            ran = rw (tested, poor) refl;
            searching =
                visit-Searching similarity below ranks g query ef layer ep now ef d f id s (λ m k.
                  let same =
                    score-IsFound similarity below ranks g query ef layer ep c id m
                      (record { node = n; stored = l; score = refl; reached = reached }) refl k in
                  inr (
                    ground arith,
                    rw (← same) (
                        above_root below ranks d f.res (ranks.rank c.score) s.worst_first
                          (ground arith)),
                  ));
            later = λ b m. mem_str_later b id f.visited m;
            visits = λ b m. only_one id b (id ∷ f.visited) m (mem_str_self id f.visited);
            less_work = omega (arith, fewer);
          }
        ]

  pub visit_one-Visited :
      (id : String) (f : Frontier S)
      → 1 ≤ ef
      → Searching similarity below ranks g query ef layer ep now ef d f
      → Reaches g layer ep id
      → Visited (id ∷ []) f (visit_one similarity below g query ef layer id f)
  unfolding visit_one
  visit_one-Visited id f pos s reached = elim (Bool-cases (mem_str id f.visited)) [
    | inl seen ↦ record {
      after = f;
      ran = rw seen refl;
      searching = s;
      later = λ b m. m;
      visits = λ b m. only_one id b f.visited m seen;
      less_work = omega arith;
    }
    | inr fresh ↦ elim (Option-cases (lookup id g.nodes)) [
      | inl missing ↦ record {
        after = record f { visited = id ∷ f.visited };
        ran = rw (fresh, missing) refl;
        searching =
            visit-Searching similarity below ranks g query ef layer ep now ef d f id s (λ n l. cc);
        later = λ b m. mem_str_later b id f.visited m;
        visits = λ b m. only_one id b (id ∷ f.visited) m (mem_str_self id f.visited);
        less_work = omega (arith, unvisited-later g.nodes id f.visited);
      }
      | inr (n, l) ↦ rw (fresh, l) (score_one-Visited id n f pos s fresh l reached)
    ]
  ]
