-- ===== src/Index/Search/Answer.antt =====
-- Search: the descent to layer 0 and the answer.
use Prim.Native.String.{String}
use text.Mathlib.Text.{◌==◌ as str_eq}
use Prim.Native.Nat.{max}
use vector_store.Prelude.{
  ℕ, zero, suc, ◌-◌, ◌≤◌, ◌≡◌, refl, ap, ◌∙◌, inl, inr, arith, Bool, false, Bool-cases, List, [],
  ◌∷◌, length, take, take-all, some, ok, ◌>>=◌, lookup, if◌then◌else◌, pos, leb_ℤ, pos_part, ltb,
}
use vector_store.Index.{Candidate, Node, HnswGraph}
use vector_store.Index.Heap.Items.{All-both}
use vector_store.Index.Search.{search_layer, descend, search, cut}
use vector_store.Index.Search.Names.{count-All}
use vector_store.Index.Search.Invariant.{Ranked, IsFound, score-IsFound}
use vector_store.Index.Search.Result.{IsBeam, search_layer-IsBeam}

module _ {F S : Type 0} (similarity : List F → List F → S) (below : S → S → Bool)
    (ranks : Ranked below) (g : HnswGraph F) (query : List F) where
  abbrev rank_of : Node F → ℕ
  rank_of n = ranks.rank (similarity query n.vector)

  -- The first candidate is no worse than the entry point, and is a stored node.
  record IsFirst (ef layer : ℕ) (ep : String) (n : Node F) (out : List (Candidate S)) : Type 0 where
    first : Candidate S
    others : List (Candidate S)
    is_first : out ≡ first ∷ others
    found : IsFound similarity below ranks g query ef layer ep first
    no_worse : rank_of n ≤ ranks.rank first.score

  beam-IsFirst :
      (ef layer : ℕ) (ep : String) (n : Node F) (out : List (Candidate S))
      → 1 ≤ ef
      → lookup ep g.nodes ≡ some n
      → IsBeam similarity below ranks g query ef layer ep n out
      → IsFirst ef layer ep n out
  beam-IsFirst ef layer ep n [] some_ef l b = elim b.entry [
    | inl among ↦ elim among [ ]
    | inr full ↦ absurd (omega (arith, full.0))
  ]
  beam-IsFirst ef layer ep n (c ∷ cs) some_ef l b = record {
    first = c;
    others = cs;
    is_first = refl;
    found = b.found.0;
    no_worse = elim b.entry [
      | inr full ↦ full.1.0
      | inl among ↦
          let (x, e, (f, low)) =
            count-All _ ep (c ∷ cs) among
              (All-both _ _ (c ∷ cs) b.found ((omega arith), b.order.0)) in
          let same = score-IsFound similarity below ranks g query ef layer ep x ep n f e l in
          omega (arith, low, ap ranks.rank same)
    ];
  }

  -- The entry point of layer 0: a stored node that is no worse than the graph's entry point.
  pub record IsBelow (n : Node F) (ep : String) : Type 0 where
    pub node : Node F
    pub stored : lookup ep g.nodes ≡ some node
    pub no_worse : rank_of n ≤ rank_of node

  descend_runs :
      (level lc : ℕ) (ep : String) (out : List (Candidate S)) (c : Candidate S)
      (cs : List (Candidate S)) (ep' : String)
      → search_layer similarity below g query 1 (suc lc) ep ≡ ok out
      → out ≡ c ∷ cs
      → descend similarity below g query level lc c.id ≡ ok ep'
      → (search_layer similarity below g query 1 (suc lc) ep >>= λ upper.
          descend similarity below g query level lc (elim upper [ [] ↦ ep | x ∷ _ ↦ x.id ]))
        ≡ ok ep'
  descend_runs level lc ep out c cs ep' ran is_first went = rw (ran, is_first) went

  pub descend-IsBelow :
      (level lc : ℕ) (ep : String) (n : Node F)
      → lookup ep g.nodes ≡ some n
      → (ep' : String) × (descend similarity below g query level lc ep ≡ ok ep') × IsBelow n ep'
  unfolding descend
  descend-IsBelow level zero ep n l =
      (ep, refl, record { node = n; stored = l; no_worse = omega arith })
  descend-IsBelow level (suc lc) ep n l = elim (Bool-cases (ltb level (suc lc))) [
    | inr done ↦ (ep, rw done refl, record { node = n; stored = l; no_worse = omega arith })
    | inl above ↦
        let (out, ran, b) =
          search_layer-IsBeam similarity below ranks g query 1 (suc lc) ep n (omega arith) l in
        let i = beam-IsFirst 1 (suc lc) ep n out (omega arith) l b in
        let (ep', went, under) = descend-IsBelow level lc i.first.id i.found.node i.found.stored in
        (
          ep',
          rw above (descend_runs level lc ep out i.first i.others ep' ran i.is_first went),
          record {
            node = under.node;
            stored = under.stored;
            no_worse = omega (arith, i.no_worse, under.no_worse, ap ranks.rank i.found.score);
          },
        )
  ]

  -- The answer to a query for the top k: the first k of the beam at layer 0, of max(k, efSearch)
  -- candidates, from an entry point that is no worse than the graph's.
  pub record IsAnswer (n : Node F) (k : ℕ) (out : List (Candidate S)) : Type 0 where
    pub entry : String
    pub below_entry : IsBelow n entry
    pub beam : List (Candidate S)
    pub is_beam :
        IsBeam similarity below ranks g query (max k g.ef_search) 0 entry below_entry.node beam
    pub first_k : out ≡ take k beam
    pub best :
        1 ≤ k
        → (c : Candidate S) × (cs : List (Candidate S)) × (out ≡ c ∷ cs)
          × (rank_of n ≤ ranks.rank c.score)

  take_first :
      (k : ℕ) (c : Candidate S) (cs : List (Candidate S))
      → 1 ≤ k
      → take k (c ∷ cs) ≡ c ∷ take (k - 1) cs
  take_first zero c cs h = elim h [ ]
  take_first (suc k) c cs h = ground arith

  cut_lem : (k : ℕ) (xs : List (Candidate S)) → cut xs (pos k) ≡ ok (take k xs)
  unfolding cut
  cut_lem k xs = elim (Bool-cases (ltb k (length xs))) [
    | inl more ↦ rw more refl
    | inr fits ↦ rw (fits, take-all k xs (ground arith)) refl
  ]

  search_runs :
      (k w : ℕ) (ep : String) (beam : List (Candidate S))
      → str_eq g.entry_point "" ≡ false
      → descend similarity below g query 0 g.max_layer g.entry_point ≡ ok ep
      → (if leb_ℤ (pos k) (pos g.ef_search) then g.ef_search else pos_part (pos k)) ≡ w
      → search_layer similarity below g query w 0 ep ≡ ok beam
      → search similarity below g query (pos k) ≡ ok (take k beam)
  unfolding search
  search_runs k w ep beam named went width ran = rw (named, went, width, ran) (cut_lem k beam)

  -- Where the entry point is in the graph, and efSearch is not 0, Search for the top k returns
  -- the first k of a beam at layer 0, whose entry point is no worse than the graph's; where k is
  -- not 0, it returns a result that is no worse than the entry point.
  pub search-IsAnswer :
      (n : Node F) (k : ℕ)
      → 1 ≤ g.ef_search
      → str_eq g.entry_point "" ≡ false
      → lookup g.entry_point g.nodes ≡ some n
      → (out : List (Candidate S)) × (search similarity below g query (pos k) ≡ ok out)
        × IsAnswer n k out
  search-IsAnswer n k some_ef named l =
      let (ep, went, under) = descend-IsBelow 0 g.max_layer g.entry_point n l in
      let width : (if leb_ℤ (pos k) (pos g.ef_search) then g.ef_search else pos_part (pos k))
          ≡ max k g.ef_search =
        ground arith in
      let (beam, ran, b) =
        search_layer-IsBeam similarity below ranks g query (max k g.ef_search) 0 ep under.node
          (omega arith) under.stored in
      let i = beam-IsFirst (max k g.ef_search) 0 ep under.node beam (omega arith) under.stored b in
      (
        take k beam,
        search_runs k (max k g.ef_search) ep beam named went width ran,
        record {
          entry = ep;
          below_entry = under;
          beam = beam;
          is_beam = b;
          first_k = refl;
          best = λ some_k. (
            i.first,
            take (k - 1) i.others,
            ap (take k) i.is_first ∙ take_first k i.first i.others some_k,
            omega (arith, under.no_worse, i.no_worse),
          );
        },
      )
