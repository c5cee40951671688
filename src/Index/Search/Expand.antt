-- ===== src/Index/Search/Expand.antt =====
-- All neighbours of the best candidate are visited, and it counts as expanded.
use Prim.Native.String.{String}
use vector_store.Prelude.{
  ℕ, ◌+◌, ◌≤◌, ◌≡◌, refl, sym, ◌∙◌, inl, inr, arith, Bool, true, List, [], ◌∷◌, length,
  some-injective, ok, Run, mem_str, mem_str_self, mem_str_later,
}
use vector_store.Index.{Candidate, HnswGraph}
use vector_store.Index.Heap.Items.{All-map}
use vector_store.Index.Search.{Frontier, visit_all, expand, links_at}
use vector_store.Index.Search.Names.{mem_str-cases, unvisited}
use vector_store.Index.Search.Invariant.{
  Ranked, Reaches, link, IsFound, Searching, change-Searching,
}
use vector_store.Index.Search.Visit.{Visited, visit_one-Visited}

-- No name.
abbrev pub Never : String → Type 0
Never id = ⊥

module _ {F S : Type 0} (similarity : List F → List F → S) (below : S → S → Bool)
    (ranks : Ranked below) (g : HnswGraph F) (query : List F) (ef layer : ℕ) (ep : String)
    (d : Candidate S) where
  visit_all-Visited :
      (now : String → Type 0) (ids : List String) (f : Frontier S)
      → 1 ≤ ef
      → Searching similarity below ranks g query ef layer ep now ef d f
      → ((b : String) → mem_str b ids ≡ true → Reaches g layer ep b)
      → Visited similarity below ranks g query ef layer ep now d ids f
          (visit_all similarity below g query ef layer ids f)
  unfolding visit_all mem_str
  visit_all-Visited now [] f pos s reached = record {
    after = f;
    ran = refl;
    searching = s;
    later = λ b m. m;
    visits = λ b m. cc;
    less_work = omega arith;
  }
  visit_all-Visited now (id ∷ ids) f pos s reached =
      let v =
        visit_one-Visited similarity below ranks g query ef layer ep now d id f pos s
          (reached id (mem_str_self id ids)) in
      let w =
        visit_all-Visited now ids v.after pos v.searching
          (λ b m. reached b (mem_str_later b id ids m)) in
      record {
        after = w.after;
        ran = rw v.ran w.ran;
        searching = w.searching;
        later = λ b m. w.later b (v.later b m);
        visits = λ b m. elim (mem_str-cases id b ids m) [
          | inl e ↦ w.later b (v.visits b (rw e (mem_str_self b [])))
          | inr rest ↦ w.visits b rest
        ];
        less_work = omega (arith, v.less_work, w.less_work);
      }

  pub record Expanded (f : Frontier S) (r : Run (Frontier S)) : Type 0 where
    pub after : Frontier S
    pub ran : r ≡ ok after
    pub searching : Searching similarity below ranks g query ef layer ep Never ef d after
    pub less_work :
        unvisited g.nodes after.visited + length after.exp
        ≤ unvisited g.nodes f.visited + length f.exp

  pub expand-Expanded :
      (cur : Candidate S) (f : Frontier S)
      → 1 ≤ ef
      → IsFound similarity below ranks g query ef layer ep cur
      → Searching similarity below ranks g query ef layer ep (λ id. id ≡ cur.id) ef d f
      → Expanded f (expand similarity below g query ef layer cur f)
  unfolding expand
  expand-Expanded cur f pos found s =
      let v =
        visit_all-Visited (λ id. id ≡ cur.id) (links_at found.node layer) f pos s
          (λ b m. link cur.id b found.node found.reached found.stored m) in
      let t = v.searching in
      record {
        after = v.after;
        ran = rw (expand, found.stored) v.ran;
        searching =
            change-Searching similarity below ranks g query ef layer ep (λ id. id ≡ cur.id) Never ef
              ef d v.after v.after.exp t t.at_most t.best_first t.exp_found
              (All-map v.after.res
                (λ c p. elim p [
                  | inl open_ ↦ inl open_
                  | inr (inl done) ↦ inr (inl done)
                  | inr (inr e) ↦ inr (
                      inl (λ n b l m.
                        let same : found.node ≡ n =
                          some-injective found.node n (sym found.stored ∙ (rw (← e) l)) in
                        v.visits b (rw same m)))
                ])
                t.progress);
        less_work = v.less_work;
      }
