-- ===== src/Index/Search/Admit.antt =====
-- A candidate joins the results, and the worst of them leaves.
use Prim.Native.String.{String}
use vector_store.Prelude.{
  ℕ, suc, ◌≤◌, ◌<◌, ◌≡◌, refl, inl, inr, arith, Bool, true, false, Bool-cases, List, ◌∷◌, length,
  some, ltb, ok, Run, mem_str, mem_str_self, mem_str_later, lookup,
}
use vector_store.Index.{Candidate, Node, HnswGraph}
use vector_store.Index.Heap.{push, pop}
use vector_store.Index.Heap.Items.{All-map, All-get_or, get_or}
use vector_store.Index.Heap.Queue.{total-one, Pushed, Popped, push-Pushed, pop-Popped}
use vector_store.Index.Search.{Frontier, better, worse, admit}
use vector_store.Index.Search.Names.{count, is, is_self, is-cases, count-fresh, mem_str-cases}
use vector_store.Index.Search.Invariant.{
  Ranked, value, distance, worse-value, better-distance, IsFound, score-IsFound, Kept, Searching,
  change-Searching,
}

module _ {F S : Type 0} (similarity : List F → List F → S) (below : S → S → Bool)
    (ranks : Ranked below) (g : HnswGraph F) (query : List F) (ef layer : ℕ) (ep : String)
    (now : String → Type 0) (d : Candidate S) where
  abbrev JoinsBest : Frontier S → Candidate S → Type 1
  JoinsBest f c =
      Pushed (better below) (distance below ranks) (better-distance below ranks) d f.exp c
        (push (better below) f.exp c)

  abbrev JoinsResults : Frontier S → Candidate S → Type 1
  JoinsResults f c =
      Pushed (worse below) (value below ranks) (worse-value below ranks) d f.res c
        (push (worse below) f.res c)

  abbrev LeavesResults : Frontier S → Type 1
  LeavesResults f =
      Popped (worse below) (value below ranks) (worse-value below ranks) d f.res
        (pop (worse below) f.res)

  abbrev joined : (f : Frontier S) (c : Candidate S) → JoinsBest f c → JoinsResults f c → Frontier S
  joined f c p q = record { exp = p.heap; res = q.heap; visited = c.id ∷ f.visited }

  module _ (f : Frontier S) (c : Candidate S)
      (s : Searching similarity below ranks g query ef layer ep now ef d f)
      (fresh : mem_str c.id f.visited ≡ false) (p : JoinsBest f c) (q : JoinsResults f c) where
    length-joined : length q.heap ≡ suc (length f.res)
    length-joined = omega (arith, q.totals (λ _. 1), total-one q.heap, total-one f.res)

    joined_distinct : (id : String) → count id q.heap ≤ 1
    joined_distinct id = elim (is-cases id c) [
      | inl (e, one) ↦
          let none_yet = count-fresh c.id f.visited f.res fresh s.res_visited in
          let none_here : count id f.res ≡ 0 = rw e none_yet in
          omega (arith, q.totals (is id), one, none_here)
      | inr other ↦ omega (arith, q.totals (is id), other, s.distinct id)
    ]

    -- What was kept is kept, since the new candidate is better than the worst result.
    joined_kept :
        (c_found : IsFound similarity below ranks g query ef layer ep c)
        → (ef ≤ length f.res → value below ranks (get_or f.res 0 d) < value below ranks c)
        → (id : String) (n : Node F) → mem_str id (c.id ∷ f.visited) ≡ true
        → lookup id g.nodes ≡ some n
        → Kept similarity below ranks g query ef layer ep id n q.heap
    joined_kept c_found worth id n m l = elim (mem_str-cases c.id id f.visited m) [
      | inl e ↦
          let one : is id c ≡ 1 = rw (← e) (is_self c) in inl (omega (arith, q.totals (is id), one))
      | inr old ↦ elim (s.kept id n old l) [
        | inl among ↦ inl (omega (arith, q.totals (is id)))
        | inr (full, beaten) ↦
            let root = All-get_or _ f.res 0 d (omega (arith, s.at_least)) beaten in
            inr (omega (arith, length-joined), q.keeps _ beaten (omega (arith, root, worth full)))
      ]
    ]

    join-Searching :
        (c_found : IsFound similarity below ranks g query ef layer ep c)
        → (ef ≤ length f.res → value below ranks (get_or f.res 0 d) < value below ranks c)
        → Searching similarity below ranks g query ef layer ep now (suc ef) d (joined f c p q)
    join-Searching c_found worth = record {
      best_first = p.order;
      worst_first = q.order;
      at_most = omega (arith, length-joined, s.at_most);
      at_least = omega (arith, length-joined);
      exp_found = p.keeps _ s.exp_found c_found;
      res_found = q.keeps _ s.res_found c_found;
      res_visited =
          q.keeps _ (All-map f.res (λ x m. mem_str_later x.id c.id f.visited m) s.res_visited)
            (mem_str_self c.id f.visited);
      distinct = joined_distinct;
      kept = joined_kept c_found worth;
      progress =
          q.keeps _
            (All-map f.res
              (λ x old. elim old [
                | inl open_ ↦ inl (omega (arith, p.totals (is x.id)))
                | inr (inl done) ↦
                    inr (inl (λ n b l m. mem_str_later b c.id f.visited (done n b l m)))
                | inr (inr r) ↦ inr (inr r)
              ])
              s.progress)
            (inl (omega (arith, p.totals (is c.id), is_self c)));
      entered = mem_str_later ep c.id f.visited s.entered;
    }

  evict-Searching :
      (f : Frontier S)
      → 1 ≤ ef
      → length f.res ≡ suc ef
      → Searching similarity below ranks g query ef layer ep now (suc ef) d f
      → (q : LeavesResults f)
      → Searching similarity below ranks g query ef layer ep now ef d (record f { res = q.rest })
  evict-Searching f pos size s q =
      let left : length q.rest ≡ ef =
        omega (arith, q.totals (λ _. 1), total-one q.rest, total-one f.res) in
      let (top_found, rest_found) = q.keeps _ s.res_found in
      record {
        best_first = s.best_first;
        worst_first = q.order;
        at_most = omega arith;
        at_least = omega arith;
        exp_found = s.exp_found;
        res_found = rest_found;
        res_visited = (q.keeps _ s.res_visited).1;
        distinct = λ id. omega (arith, q.totals (is id), s.distinct id);
        kept = λ id n m l. elim (s.kept id n m l) [
          | inr (full, beaten) ↦ inr (omega arith, (q.keeps _ beaten).1)
          | inl among ↦ elim (is-cases id q.top) [
            | inr other ↦ inl (omega (arith, q.totals (is id), other))
            | inl (e, one) ↦
                let scored =
                  score-IsFound similarity below ranks g query ef layer ep q.top id n top_found e
                    l in
                inr (omega arith, rw (← scored) q.least)
          ]
        ];
        progress = (q.keeps _ s.progress).1;
        entered = s.entered;
      }

  -- What admit leaves: a frontier with the candidate's name visited and one candidate more to
  -- expand.
  pub record Admitted (f : Frontier S) (c : Candidate S) (r : Run (Frontier S)) : Type 0 where
    pub after : Frontier S
    pub ran : r ≡ ok after
    pub searching : Searching similarity below ranks g query ef layer ep now ef d after
    pub visits : after.visited ≡ c.id ∷ f.visited
    pub one_more : length after.exp ≤ suc (length f.exp)

  pub admit-Admitted :
      (f : Frontier S) (c : Candidate S)
      → 1 ≤ ef
      → Searching similarity below ranks g query ef layer ep now ef d f
      → mem_str c.id f.visited ≡ false
      → IsFound similarity below ranks g query ef layer ep c
      → (ef ≤ length f.res → value below ranks (get_or f.res 0 d) < value below ranks c)
      → Admitted f c (admit below ef c (record f { visited = c.id ∷ f.visited }))
  unfolding admit
  admit-Admitted f c pos s fresh found worth =
      let p : JoinsBest f c =
        push-Pushed (better below) (distance below ranks) (better-distance below ranks) d f.exp c
          s.best_first in
      let q : JoinsResults f c =
        push-Pushed (worse below) (value below ranks) (worse-value below ranks) d f.res c
          s.worst_first in
      let both = join-Searching f c s fresh p q found worth in
      let size = length-joined f c s fresh p q in
      let more : length p.heap ≤ suc (length f.exp) =
        omega (arith, p.totals (λ _. 1), total-one p.heap, total-one f.exp) in
      elim (Bool-cases (ltb ef (length q.heap))) [
        | inr fits ↦ record {
          after = joined f c p q;
          ran = rw (p.ran, q.ran, fits) refl;
          searching =
              change-Searching similarity below ranks g query ef layer ep now now (suc ef) ef d
                (joined f c p q) p.heap both (ground arith) both.best_first both.exp_found
                both.progress;
          visits = refl;
          one_more = more;
        }
        | inl over ↦
            let full : length q.heap ≡ suc ef = ground (arith, s.at_most) in
            let r : LeavesResults (joined f c p q) =
              pop-Popped (worse below) (value below ranks) (worse-value below ranks) d q.heap ef
                full q.order in
            record {
              after = record { exp = p.heap; res = r.rest; visited = c.id ∷ f.visited };
              ran = rw (p.ran, q.ran, over, r.ran) refl;
              searching = evict-Searching (joined f c p q) pos full both r;
              visits = refl;
              one_more = more;
            }
      ]
