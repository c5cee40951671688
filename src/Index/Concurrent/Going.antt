-- ===== src/Index/Concurrent/Going.antt =====
-- An Insert that is ready goes on without a panic, and is ready again.
use Prim.Native.String.{String}
use vector_store.Prelude.{
  ℕ, zero, suc, ◌≤◌, ◌≡◌, refl, ◌⊎◌, inl, inr, arith, List, [], ◌∷◌, Option, none, some, Bool-cases,
  Option-cases, ltb, get_elem?-some, Run, ok, lookup, Ensures-run, ◌>>=◌,
}
use vector_store.Index.{
  Candidate, HnswGraph, put_node, max_links_at_layer, collect_links, score_links,
}
use vector_store.Index.Links.{Names, ids, OnlySorts, wire_back-Wired}
use vector_store.Index.WellLinked.{
  Stores, WellLinked, WellLinked-put_node, Wired-IsLinked, score_links-Stores,
}
use vector_store.Index.Insert.Grows.{Grows, Grows-refl, relinked, wire_back-OnlyLinks}
use vector_store.Index.Insert.Layers.{
  set_links-Connected, length-select_neighbors, Names-select_neighbors,
}
use vector_store.Index.Concurrent.{
  Stage, connecting, linking, wiring, scored, Inserting, promote, choose, score_next, write_back,
  advance_at, Known,
}
use vector_store.Index.Concurrent.Ready.{Grows-Extends, Known-Extends, HasNode, Placed}

-- The next section ran: the graph has the same nodes and is well linked, and the Insert, with the
-- same node, is ready for the section after it.
pub record Goes {F S : Type 0} (g : HnswGraph F) (t : Inserting F S)
    (r : Run (HnswGraph F × Option (Inserting F S))) : Type 0 where
  pub graph : HnswGraph F
  pub stage : Stage S
  pub ran : r ≡ ok (graph, some (record t { stage = stage }))
  pub linked : WellLinked graph
  pub grows : Grows g graph
  pub placed : Placed graph t.level stage

-- The section reads the graph only.
stays :
    {F S : Type 0} (g : HnswGraph F) (t : Inserting F S) (stage : Stage S)
    → WellLinked g
    → Placed g t.level stage
    → Goes g t (ok (g, some (record t { stage = stage })))
stays g t stage w p = record {
  graph = g;
  stage = stage;
  ran = refl;
  linked = w;
  grows = Grows-refl g;
  placed = p;
}

Known-tail :
    {F S : Type 0} (g : HnswGraph F) (c : Candidate S) (cs : List (Candidate S))
    → Known g (c ∷ cs)
    → Known g cs
unfolding Names
Known-tail g c cs k x m = k x (inr m)

choose-Placed :
    {F S : Type 0} (g : HnswGraph F) (level lc : ℕ) (found : List (Candidate S))
    → lc ≤ level
    → Known g found
    → Placed g level (choose g lc found)
unfolding choose
choose-Placed g level lc [] low known = omega arith
choose-Placed g level lc (c ∷ cs) low known = (
  low,
  length-select_neighbors (c ∷ cs) (max_links_at_layer g lc),
  λ x m. known x (Names-select_neighbors x (c ∷ cs) (max_links_at_layer g lc) m),
)

module _ {F S : Type 0} (similarity : List F → List F → S)
    (sort_descending : List (Candidate S) → List (Candidate S)) (sorts : OnlySorts sort_descending)
    (g : HnswGraph F) (t : Inserting F S) where
  -- Phase A reads the neighbour's list, which is there, and names stored nodes only.
  score_next-Placed :
      (lc : ℕ) (c : Candidate S) (cs : List (Candidate S))
      → WellLinked g
      → HasNode g t
      → lc ≤ t.level
      → Known g (c ∷ cs)
      → (stage : Stage S) × (score_next similarity sort_descending g t lc c cs ≡ ok stage)
        × Placed g t.level stage
  unfolding score_next collect_links Names
  score_next-Placed lc c cs w has low known = elim (Option-cases (lookup c.id g.nodes)) [
    | inl gone ↦ (wiring lc cs, rw (score_next, gone) refl, (low, Known-tail g c cs known))
    | inr (nbr, there) ↦ elim (Bool-cases (ltb nbr.max_layer lc)) [
      | inl high ↦ (wiring lc cs, rw (score_next, there, high) refl, (low, Known-tail g c cs known))
      | inr within ↦
          let l = w c.id nbr there in
          let (links, found) = get_elem?-some nbr.neighbors lc (ground (arith, l.layers)) in
          let all : List (Candidate S) =
            record { id = t.id; score = similarity nbr.vector t.vector }
            ∷ score_links similarity sort_descending g nbr links in
          let known_all : (x : String) → Names x (ids all) → Stores g x = λ x h. elim h [
            | inl is ↦ (has.node, rw is has.there)
            | inr rest ↦ score_links-Stores similarity sort_descending sorts g nbr links x rest
          ] in
          (
            scored lc c.id all cs,
            rw (score_next, there, within, collect_links, found) refl,
            (low, Known-tail g c cs known, known_all, (nbr, there, ground arith)),
          )
    ]
  ]

  -- Phase B writes to the neighbour as it is.
  write_back-Goes :
      (lc : ℕ) (nbr_id : String) (all cs : List (Candidate S))
      → WellLinked g
      → HasNode g t
      → Placed g t.level (scored lc nbr_id all cs)
      → Goes g t (
          write_back similarity sort_descending g t lc nbr_id all >>= λ g'.
          ok (g', some (record t { stage = wiring lc cs })))
  unfolding write_back
  write_back-Goes lc nbr_id all cs w has (low, known, known_all, (nbr, there, within)) =
      let l = w nbr_id nbr there in
      let (links, found) = get_elem?-some nbr.neighbors lc (omega (arith, l.layers)) in
      let (nbr', ran, wired) =
        wire_back-Wired similarity sort_descending sorts nbr t.id lc (max_links_at_layer g lc) links
          all found in
      let grows = relinked similarity sort_descending g nbr_id nbr nbr' there (
        Ensures-run
          (wire_back-OnlyLinks similarity sort_descending nbr t.id lc (max_links_at_layer g lc) all)
          ran) in
      record {
        graph = put_node g nbr_id nbr';
        stage = wiring lc cs;
        ran = rw (write_back, there, ran) refl;
        linked = WellLinked-put_node g nbr_id nbr' w (
            Wired-IsLinked similarity sort_descending sorts g nbr nbr' t.id lc links all l found
              (has.node, has.there) known_all wired);
        grows = grows;
        placed = (low, Known-Extends g (put_node g nbr_id nbr') cs (Grows-Extends g _ grows) known);
      }

  -- Phase 4 comes at the end only.
  pub advance_at-Goes :
      (stage : Stage S) (found : List (Candidate S))
      → WellLinked g
      → HasNode g t
      → Placed g t.level stage
      → Known g found
      → Goes g t (advance_at similarity sort_descending stage g t found)
        ⊎ ((stage ≡ connecting 0)
            × (advance_at similarity sort_descending stage g t found ≡ ok (promote g t, none)))
  unfolding advance_at
  advance_at-Goes (connecting zero) found w has p known = inr (refl, refl)
  advance_at-Goes (connecting (suc lc)) found w has p known =
      inl (stays g t (choose g lc found) w (choose-Placed g t.level lc found (omega arith) known))
  advance_at-Goes (linking lc cs) found w has (low, few, known) _ =
      let c =
        set_links-Connected similarity sort_descending sorts t.id g has.node lc cs w has.there
          (omega (arith, has.level)) few known in
      inl (record {
        graph = c.graph;
        stage = wiring lc cs;
        ran = rw c.ran refl;
        linked = c.linked;
        grows = c.grows;
        placed = (low, Known-Extends g c.graph cs (Grows-Extends g c.graph c.grows) known);
      })
  advance_at-Goes (wiring lc []) found w has p known =
      inl (stays g t (connecting lc) w (omega arith))
  advance_at-Goes (wiring lc (c ∷ cs)) found w has (low, known) _ =
      let (stage, ran, placed) = score_next-Placed lc c cs w has low known in
      inl (rw ran (stays g t stage w placed))
  advance_at-Goes (scored lc nbr_id all cs) found w has p known =
      inl (write_back-Goes lc nbr_id all cs w has p)
