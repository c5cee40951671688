-- ===== src/Index/Search.antt =====
-- searchLayer and Search of internal/vectorindex/hnsw.go. The similarity of two vectors and the
-- float32 comparison `a < b` are parameters; the visited set is a list.
pub mod Names
pub mod Invariant
pub mod Admit
pub mod Visit
pub mod Expand
pub mod Loop
pub mod Drain
pub mod Result
pub mod Exact
pub mod Answer
pub mod Ranking
use Prim.Native.String.{String}
use text.Mathlib.Text.{◌==◌ as str_eq}
use vector_store.Prelude.{
  ℕ, zero, suc, ◌+◌, Bool, true, false, List, [], ◌∷◌, map, take, none, some, ◌==◌, if◌then◌else◌,
  leb, ltb, length, ℤ, pos, negsuc, pos_part, leb_ℤ, Run, ok, panic, ◌>>=◌, load, get_elem?,
  mem_str, lookup,
}
use vector_store.Index.{Candidate, Node, HnswGraph}
use vector_store.Index.Heap.{push, pop}

-- What searchLayer works on: the candidates to expand, the best so far and the scored names.
pub record Frontier (S : Type 0) : Type 0 where
  pub exp : List (Candidate S)
  pub res : List (Candidate S)
  pub visited : List String

-- nbrIDs: the links at the layer, where the node has that layer.
abbrev pub links_at : {F : Type 0} → Node F → ℕ → List String
links_at n layer = elim (get_elem? n.neighbors layer) [ none ↦ [] | some ids ↦ ids ]

module _ {S : Type 0} (below : S → S → Bool) where
  -- explorerHeap.Less
  abbrev pub better : Candidate S → Candidate S → Bool
  better a b = below b.score a.score

  -- resultsHeap.Less
  abbrev pub worse : Candidate S → Candidate S → Bool
  worse a b = below a.score b.score

  -- The candidate joins both heaps, and the worst result leaves where there are more than ef.
  unfoldable pub admit : ℕ → Candidate S → Frontier S → Run (Frontier S)
  admit ef c f = push better f.exp c >>= λ exp. push worse f.res c >>= λ res.
      (let evict = pop worse res >>= λ r. ok (record f { exp = exp; res = r.1 }) in
        if ltb ef (length res) then evict else ok (record f { exp = exp; res = res }))

  -- res.Len() < ef || score > (*res)[0].score
  unfoldable pub admits : ℕ → S → List (Candidate S) → Run Bool
  admits ef score res =
      let beats = load res (pos 0) >>= λ worst. ok (below worst.score score) in
      if ltb (length res) ef then ok true else beats

  -- res.Len() >= ef && cur.score < (*res)[0].score
  unfoldable pub stops : ℕ → Candidate S → List (Candidate S) → Run Bool
  stops ef cur res =
      let beaten = load res (pos 0) >>= λ worst. ok (below cur.score worst.score) in
      if leb ef (length res) then beaten else ok false

  -- heap.Pop, len(out) times, from the last place to the first
  unfoldable pub drain : ℕ → List (Candidate S) → List (Candidate S) → Run (List (Candidate S))
  drain zero h out = ok out
  drain (suc n) h out = pop worse h >>= λ r. drain n r.1 (r.0 ∷ out)

module _ {F S : Type 0} (similarity : List F → List F → S) (below : S → S → Bool) (g : HnswGraph F)
    (query : List F) (ef layer : ℕ) where
  -- One neighbour that is in the graph.
  unfoldable pub score_one : String → Node F → Frontier S → Run (Frontier S)
  score_one id n f =
      let c : Candidate S = record { id = id; score = similarity query n.vector } in
      admits below ef c.score f.res >>= λ better_than_worst.
      (if better_than_worst then admit below ef c f else ok f)

  -- The body of `for _, nbrID := range nbrIDs`.
  unfoldable pub visit_one : String → Frontier S → Run (Frontier S)
  visit_one id f =
      let f' = record f { visited = id ∷ f.visited } in
      let found : Run (Frontier S) = elim (lookup id g.nodes) [
        | none ↦ ok f'
        | some n ↦ score_one id n f'
      ] in
      if mem_str id f.visited then ok f else found

  unfoldable pub visit_all : List String → Frontier S → Run (Frontier S)
  visit_all [] f = ok f
  visit_all (id ∷ ids) f = visit_one id f >>= λ f'. visit_all ids f'

  -- The neighbours of cur, where cur is in the graph.
  unfoldable pub expand : Candidate S → Frontier S → Run (Frontier S)
  expand cur f = elim (lookup cur.id g.nodes) [
    | none ↦ ok f
    | some n ↦ visit_all (links_at n layer) f
  ]

  -- for exp.Len() > 0 { ... }
  unfoldable pub explore_loop : ℕ → Frontier S → Run (Frontier S)
  explore_loop zero f = panic
  explore_loop (suc fuel) f =
      let round : Run (Frontier S) = pop (better below) f.exp >>= λ r.
      stops below ef r.0 f.res >>= λ stop.
      (let f' = record f { exp = r.1 } in
        let go = expand r.0 f' >>= λ f''. explore_loop fuel f'' in if stop then ok f' else go) in
      if length f.exp == 0 then ok f else round

  -- Every stored node is expanded once at most.
  unfoldable pub search_layer : String → Run (List (Candidate S))
  search_layer ep = elim (lookup ep g.nodes) [
    | none ↦ ok []
    | some n ↦
        let start : List (Candidate S) =
          record { id = ep; score = similarity query n.vector } ∷ [] in
        explore_loop (length g.nodes + 1) (record { exp = start; res = start; visited = ep ∷ [] })
        >>= λ f. drain below (length f.res) f.res []
  ]

-- candidates[:topK], where there are more
unfoldable pub cut : {A : Type 0} → List A → ℤ → Run (List A)
cut xs (pos k) = ok (if ltb k (length xs) then take k xs else xs)
cut xs (negsuc k) = panic

module _ {F S : Type 0} (similarity : List F → List F → S) (below : S → S → Bool) (g : HnswGraph F)
    (query : List F) where
  -- for lc := curMaxLayer; lc > level; lc-- { ... }, which ends with the next layer's entry point
  unfoldable pub descend : ℕ → ℕ → String → Run String
  descend level zero ep = ok ep
  descend level (suc lc) ep =
      let further = search_layer similarity below g query 1 (suc lc) ep >>= λ upper.
      descend level lc (elim upper [ [] ↦ ep | c ∷ _ ↦ c.id ]) in
      if ltb level (suc lc) then further else ok ep

  -- Search, on a graph that does not change meanwhile. A candidate is its SearchResult.
  unfoldable pub search : ℤ → Run (List (Candidate S))
  search top_k =
      let ef = if leb_ℤ top_k (pos g.ef_search) then g.ef_search else pos_part top_k in
      let found = descend 0 g.max_layer g.entry_point >>= λ ep.
      search_layer similarity below g query ef 0 ep >>= λ candidates. cut candidates top_k in
      if str_eq g.entry_point "" then ok [] else found
