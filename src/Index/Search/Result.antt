-- ===== src/Index/Search/Result.antt =====
-- What searchLayer returns.
use Prim.Native.String.{String}
use vector_store.Prelude.{
  ℕ, ◌+◌, ◌≤◌, ◌≡◌, refl, inl, inr, arith, Bool, true, List, [], ◌∷◌, length, some, ok, Run,
  mem_str, mem_str_self, lookup,
}
use vector_store.Index.{Candidate, Node, HnswGraph}
use vector_store.Index.Heap.Items.{total, All, All-map}
use vector_store.Index.Heap.Queue.{total-one}
use vector_store.Index.Search.{Frontier, search_layer, links_at}
use vector_store.Index.Search.Names.{
  count, is, is_self, is-cases, unvisited-length, unvisited-found, mem_str-cases,
}
use vector_store.Index.Search.Invariant.{Ranked, here, IsFound, Kept, Searching}
use vector_store.Index.Search.Expand.{Never}
use vector_store.Index.Search.Loop.{Ended, explore_loop-Ends}
use vector_store.Index.Search.Drain.{Descending, Drained, drain-Drained}

module _ {F S : Type 0} (similarity : List F → List F → S) (below : S → S → Bool)
    (ranks : Ranked below) (g : HnswGraph F) (query : List F) (ef layer : ℕ) (ep : String) where
  -- The results of a search of a layer from an entry point that is there: in order, each a stored
  -- node with its score that the links of the layer lead to, each once, at most ef. The entry point
  -- is among them, and so is each stored neighbour of a result, except where ef results are no
  -- worse.
  pub record IsBeam (n : Node F) (out : List (Candidate S)) : Type 0 where
    pub order : Descending below ranks out
    pub at_most : length out ≤ ef
    pub found : All (IsFound similarity below ranks g query ef layer ep) out
    pub distinct : (id : String) → count id out ≤ 1
    pub entry : Kept similarity below ranks g query ef layer ep ep n out
    pub closed :
        All
          (λ c.
            (k m : Node F) (b : String)
            → lookup c.id g.nodes ≡ some k
            → mem_str b (links_at k layer) ≡ true
            → lookup b g.nodes ≡ some m
            → Kept similarity below ranks g query ef layer ep b m out)
          out

  start-Searching :
      (d : Candidate S)
      → 1 ≤ ef
      → IsFound similarity below ranks g query ef layer ep d
      → d.id ≡ ep
      → Searching similarity below ranks g query ef layer ep Never ef d
          (record { exp = d ∷ []; res = d ∷ []; visited = ep ∷ [] })
  unfolding mem_str
  start-Searching d pos found e =
      let entered : mem_str ep (ep ∷ []) ≡ true = mem_str_self ep [] in
      record {
        best_first = λ c p q. absurd (omega arith);
        worst_first = λ c p q. absurd (omega arith);
        at_most = pos;
        at_least = omega arith;
        exp_found = (found, tt);
        res_found = (found, tt);
        res_visited = (rw e entered, tt);
        distinct = λ id. elim (is-cases id d) [
          | inl (same, one) ↦ omega (arith, one)
          | inr other ↦ omega (arith, other)
        ];
        kept = λ id n m l. elim (mem_str-cases ep id [] m) [
          | inr never_in ↦ cc
          | inl same ↦
              (let one : is id d ≡ 1 = rw (← same, ← e) (is_self d) in inl (omega (arith, one)))
        ];
        progress = (inl (omega (arith, is_self d)), tt);
        entered = entered;
      }

  Ended-IsBeam :
      (d : Candidate S) (n : Node F) (f : Frontier S)
      → lookup ep g.nodes ≡ some n
      → Ended similarity below ranks g query ef layer ep d f
      → {r : Run (List (Candidate S))} (t : Drained below ranks f.res [] r) → IsBeam n t.slice
  Ended-IsBeam d n f l e t =
      let same : (w : Candidate S → ℕ) → total w t.slice ≡ total w f.res =
        λ w. omega (arith, t.totals w) in
      let long : length t.slice ≡ length f.res =
        omega (arith, same (λ _. 1), total-one t.slice, total-one f.res) in
      let stays : (id : String) (m : Node F)
          → Kept similarity below ranks g query ef layer ep id m f.res
          → Kept similarity below ranks g query ef layer ep id m t.slice =
        λ id m k. elim k [
          | inl among ↦ inl (omega (arith, same (is id)))
          | inr (full, beaten) ↦ inr (omega arith, t.keeps _ beaten tt)
        ] in
      record {
        order = t.order;
        at_most = omega (arith, e.at_most);
        found = t.keeps _ e.found tt;
        distinct = λ id. omega (arith, same (is id), e.distinct id);
        entry = stays ep n (e.kept ep n e.entered l);
        closed =
            t.keeps _
              (All-map f.res
                (λ c done. λ k m b lk mb lb. stays b m (e.kept b m (done k b lk mb) lb)) e.expanded)
              tt;
      }

  -- Where scores compare like numbers, searchLayer with an ef that is not 0, from an entry point that
  -- is there, returns within its rounds and never panics. Its results are stored nodes that the layer's links lead to, with
  -- their scores, in descending order, each once, and at most ef. The entry point is among them,
  -- and so is each stored neighbour of a result, except where ef results are no worse than it.
  pub search_layer-IsBeam :
      (n : Node F)
      → 1 ≤ ef
      → lookup ep g.nodes ≡ some n
      → (out : List (Candidate S)) × (search_layer similarity below g query ef layer ep ≡ ok out)
        × IsBeam n out
  unfolding search_layer mem_str
  search_layer-IsBeam n pos l =
      let d : Candidate S = record { id = ep; score = similarity query n.vector } in
      let start : Frontier S = record { exp = d ∷ []; res = d ∷ []; visited = ep ∷ [] } in
      let (f, ran, e) =
        explore_loop-Ends similarity below ranks g query ef layer ep d (length g.nodes + 1) start
          pos (omega (arith, unvisited-found g.nodes ep [] n l refl, unvisited-length g.nodes []))
          (start-Searching d pos (record { node = n; stored = l; score = refl; reached = here })
            refl) in
      let t = drain-Drained below ranks d (length f.res) f.res [] refl e.worst_first tt tt in
      (t.slice, rw (search_layer, l, ran, t.ran) refl, Ended-IsBeam d n f l e t)
