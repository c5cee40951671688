-- ===== src/Index/Search/Loop.antt =====
-- The main loop of searchLayer ends, and every result was expanded by then.
use Prim.Native.String.{String}
use vector_store.Prelude.{
  ℕ, zero, suc, ◌+◌, ◌-◌, ◌≤◌, ◌<◌, ◌≡◌, refl, inl, inr, arith, Bool, true, false, Bool-cases, List,
  length, some, ok, Run, mem_str, lookup, leb, ltb, if◌then◌else◌, ◌==◌,
}
use vector_store.Index.{Candidate, Node, HnswGraph}
use vector_store.Index.Heap.{pop}
use vector_store.Index.Heap.Items.{All, All-map, All-both, get_or, get_elem?-get_or}
use vector_store.Index.Heap.Queue.{Popped, pop-Popped, total-one}
use vector_store.Index.Search.{Frontier, stops, explore_loop, better}
use vector_store.Index.Search.Names.{count, count-All, count-length, is, is-cases, unvisited}
use vector_store.Index.Search.Invariant.{
  Ranked, value, distance, better-distance, WorstFirst, IsFound, same_score, Kept, IsExpanded,
  Searching, change-Searching,
}
use vector_store.Index.Search.Visit.{above_root}
use vector_store.Index.Search.Expand.{Never, expand-Expanded}

module _ {S : Type 0} (below : S → S → Bool) (ranks : Ranked below) (d : Candidate S) where
  stops-ok :
      (ef : ℕ) (cur : Candidate S) (res : List (Candidate S))
      → 1 ≤ length res
      → stops below ef cur res
        ≡ ok (
            if leb ef (length res)
            then ltb (ranks.rank cur.score) (ranks.rank (get_or res 0 d).score)
            else false)
  unfolding stops
  stops-ok ef cur res some_res =
      rw (get_elem?-get_or res 0 d (omega arith), ranks.below_rank cur.score (get_or res 0 d).score)
        (ground arith)

module _ {F S : Type 0} (similarity : List F → List F → S) (below : S → S → Bool)
    (ranks : Ranked below) (g : HnswGraph F) (query : List F) (ef layer : ℕ) (ep : String)
    (d : Candidate S) where
  -- The results once the loop has ended: each was expanded.
  pub record Ended (f : Frontier S) : Type 0 where
    pub worst_first : WorstFirst below ranks d f.res
    pub at_most : length f.res ≤ ef
    pub found : All (IsFound similarity below ranks g query ef layer ep) f.res
    pub distinct : (id : String) → count id f.res ≤ 1
    pub kept :
        (id : String) (n : Node F)
        → mem_str id f.visited ≡ true
        → lookup id g.nodes ≡ some n
        → Kept similarity below ranks g query ef layer ep id n f.res
    pub expanded :
        All (λ c. IsExpanded similarity below ranks g query ef layer ep f.visited c.id) f.res
    pub entered : mem_str ep f.visited ≡ true

  -- The loop ends in such a frontier.
  abbrev pub Ends : Run (Frontier S) → Type 0
  Ends r = (f : Frontier S) × (r ≡ ok f) × Ended f

  end :
      (f : Frontier S) (exp : List (Candidate S))
      → Searching similarity below ranks g query ef layer ep Never ef d f
      → All (λ c. IsExpanded similarity below ranks g query ef layer ep f.visited c.id) f.res
      → Ended (record f { exp = exp })
  end f exp s all = record {
    worst_first = s.worst_first;
    at_most = s.at_most;
    found = s.res_found;
    distinct = s.distinct;
    kept = s.kept;
    expanded = all;
    entered = s.entered;
  }

  abbrev TakesBest : Frontier S → Type 1
  TakesBest f =
      Popped (better below) (distance below ranks) (better-distance below ranks) d f.exp
        (pop (better below) f.exp)

  -- The best candidate has left the explorer heap and is being expanded.
  taken-Searching :
      (f : Frontier S)
      → Searching similarity below ranks g query ef layer ep Never ef d f
      → (p : TakesBest f)
      → Searching similarity below ranks g query ef layer ep
          (λ id. id ≡ p.top.id)
          ef
          d
          (record f { exp = p.rest })
  taken-Searching f s p =
      change-Searching similarity below ranks g query ef layer ep Never (λ id. id ≡ p.top.id) ef ef
        d f p.rest s s.at_most p.order (p.keeps _ s.exp_found).1
        (All-map f.res
          (λ c q. elim q [
            | inr (inl done) ↦ inr (inl done)
            | inr (inr none_left) ↦ elim none_left [ ]
            | inl open_ ↦ elim (is-cases c.id p.top) [
              | inl (e, one) ↦ inr (inr e)
              | inr other ↦ inl (omega (arith, p.totals (is c.id), other))
            ]
          ])
          s.progress)

  -- A candidate that waits to be expanded is no better than the best one.
  waiting :
      (f : Frontier S) (p : TakesBest f) (c : Candidate S)
      → 1 ≤ count c.id f.exp
      → IsFound similarity below ranks g query ef layer ep p.top
      → All (IsFound similarity below ranks g query ef layer ep) p.rest
      → IsFound similarity below ranks g query ef layer ep c
      → value below ranks c ≤ value below ranks p.top
  waiting f p c open_ top_found rest_found found = elim (is-cases c.id p.top) [
    | inl (e, one) ↦
        let same =
          same_score similarity below ranks g query ef layer ep c p.top found top_found e in
        rw same (omega arith)
    | inr other ↦
        let (x, e, (x_found, further)) =
          count-All _ c.id p.rest (omega (arith, p.totals (is c.id), other))
            (All-both _ _ p.rest rest_found p.least) in
        let same = same_score similarity below ranks g query ef layer ep c x found x_found e in
        rw same (omega (arith, further, ranks.bounded x.score, ranks.bounded p.top.score))
  ]

  -- No result waits to be expanded where the best candidate is worse than the worst result.
  stopped-Ended :
      (f : Frontier S)
      → Searching similarity below ranks g query ef layer ep Never ef d f
      → (p : TakesBest f) → value below ranks p.top < value below ranks (get_or f.res 0 d)
      → Ended (record f { exp = p.rest })
  stopped-Ended f s p worse_than_all =
      let high =
        above_root below ranks d f.res (suc (value below ranks p.top)) s.worst_first
          worse_than_all in
      let (top_found, rest_found) = p.keeps _ s.exp_found in
      end f p.rest s (
        All-map f.res
          (λ c q. elim q.0 [
            | inr (inl done) ↦ done
            | inr (inr none_left) ↦ elim none_left [ ]
            | inl open_ ↦
                absurd (omega (arith, waiting f p c open_ top_found rest_found q.1.0, q.1.1))
          ])
          (All-both _ _ f.res s.progress (All-both _ _ f.res s.res_found high)))

  pub explore_loop-Ends :
      (fuel : ℕ) (f : Frontier S)
      → 1 ≤ ef
      → unvisited g.nodes f.visited + length f.exp < fuel
      → Searching similarity below ranks g query ef layer ep Never ef d f
      → Ends (explore_loop similarity below g query ef layer fuel f)
  unfolding explore_loop
  explore_loop-Ends zero f pos fits s = elim fits [ ]
  explore_loop-Ends (suc fuel) f pos fits s = elim (Bool-cases (length f.exp == 0)) [
    | inl done ↦ (
      f,
      rw done refl,
      end f f.exp s (
          All-map f.res
            (λ c q. elim q [
              | inr (inl done') ↦ done'
              | inr (inr none_left) ↦ elim none_left [ ]
              | inl open_ ↦ absurd (ground (arith, count-length c.id f.exp))
            ])
            s.progress),
    )
    | inr more ↦
        let p : TakesBest f =
          pop-Popped (better below) (distance below ranks) (better-distance below ranks) d f.exp
            (length f.exp - 1) (ground arith) s.best_first in
        let tested = stops-ok below ranks d ef p.top f.res s.at_least in
        elim (Bool-cases (
          if leb ef (length f.res)
          then ltb (value below ranks p.top) (value below ranks (get_or f.res 0 d))
          else false)) [
            | inl stop ↦ (
              record f { exp = p.rest },
              rw (more, p.ran, tested, stop) refl,
              stopped-Ended f s p (ground arith),
            )
            | inr go ↦
                let t = taken-Searching f s p in
                let e =
                  expand-Expanded similarity below ranks g query ef layer ep d p.top
                    (record f { exp = p.rest }) pos (p.keeps _ s.exp_found).0 t in
                let shorter : length f.exp ≡ suc (length p.rest) =
                  omega (arith, p.totals (λ _. 1), total-one p.rest, total-one f.exp) in
                rw (more, p.ran, tested, go, e.ran)
                  (explore_loop-Ends fuel e.after pos (omega (arith, e.less_work, shorter))
                    e.searching)
          ]
  ]
