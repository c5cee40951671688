-- ===== src/Benchmark/Recall.antt =====
-- A search with room for every node finds what the brute force finds.
use Prim.Native.String.{String}
use Prim.Native.Nat.{max}
use vector_store.Prelude.{
  KeysOnce, length-map, length-take, ℕ, zero, suc, ◌≤◌, ◌<◌, ◌≡◌, refl, sym, ap, ◌∙◌, inl, inr,
  arith, Bool, Bool-cases, List, [], ◌∷◌, length, map, take, take-all, some, none, get_elem?, drop,
  ltb, if◌then◌else◌, lookup, ok, pos,
}
use vector_store.Index.{Candidate, Node, HnswGraph}
use vector_store.Index.Heap.Items.{total, All, All-map}
use vector_store.Index.Heap.Queue.{total-one}
use vector_store.Index.Search.{search}
use vector_store.Index.Search.Invariant.{Ranked, Reaches, value}
use vector_store.Index.Search.Names.{count}
use vector_store.Index.Search.Drain.{Descending}
use vector_store.Index.Search.Result.{IsBeam}
use vector_store.Index.Search.Exact.{beam_complete, beam_fits}
use vector_store.Index.Insert.Keeping.{IsIndex}
use vector_store.Index.Insert.Refines.{search-Answers}
use vector_store.Index.Search.Ranking.{Falling, Falling-unique, total-map, total-entries}
use vector_store.Index.Distance.{drop-split}
use vector_store.Benchmark.{Sc, score_data, top_k_brute}

-- sort.Slice by descending score: the same entries, none above one before it.
pub record SortsScores {S : Type 0} (rank : S → ℕ) (sort : List (Sc S) → List (Sc S)) : Type 1 where
  pub totals : (w : Sc S → ℕ) (xs : List (Sc S)) → total w (sort xs) ≡ total w xs
  pub keeps : (P : Sc S → Type 0) (xs : List (Sc S)) → All P xs → All P (sort xs)
  pub order : (xs : List (Sc S)) → Falling (map (λ c. rank c.s) (sort xs))

module _ {F S : Type 0} (similarity : List F → List F → S) (below : S → S → Bool)
    (ranks : Ranked below) (sort_scores : List (Sc S) → List (Sc S))
    (sorts : SortsScores ranks.rank sort_scores) (query : List F) where
  -- The rank of the vector of that index.
  abbrev pub rank_at : List (List F) → ℕ → ℕ
  rank_at dataset i = elim (get_elem? dataset i) [
    | none ↦ 0
    | some v ↦ ranks.rank (similarity query v)
  ]

  map-take :
      {A B : Type 0} (f : A → B) (n : ℕ) (xs : List A) → map f (take n xs) ≡ take n (map f xs)
  map-take f zero xs = refl
  map-take f (suc n) [] = refl
  map-take f (suc n) (x ∷ xs) = ap (◌∷◌ (f x)) (map-take f n xs)

  map-All : {A : Type 0} (f h : A → ℕ) (xs : List A) → All (λ x. f x ≡ h x) xs → map f xs ≡ map h xs
  map-All f h [] all = refl
  map-All f h (x ∷ xs) all = rw (all.0, map-All f h xs all.1) refl

  -- The scores of the brute force are those of the vectors of their indices.
  score_data-rank_at :
      (dataset rest : List (List F)) (i : ℕ)
      → drop i dataset ≡ rest
      → All
          (λ (c : Sc S). rank_at dataset c.idx ≡ ranks.rank c.s)
          (score_data similarity sort_scores query i rest)
  unfolding score_data
  score_data-rank_at dataset [] i h = tt
  score_data-rank_at dataset (v ∷ rest) i h =
      let (at_i, next) = drop-split i dataset v rest h in
      (rw (rank_at, at_i) refl, score_data-rank_at dataset rest (suc i) next)

  total-score_data :
      (w : ℕ → ℕ) (dataset : List (List F)) (i : ℕ)
      → total (λ (c : Sc S). w (ranks.rank c.s)) (score_data similarity sort_scores query i dataset)
        ≡ total (λ v. w (ranks.rank (similarity query v))) dataset
  unfolding score_data
  total-score_data w [] i = refl
  total-score_data w (v ∷ dataset) i = omega (arith, total-score_data w dataset (suc i))

  Descending-Falling :
      (cs : List (Candidate S)) → Descending below ranks cs → Falling (map (value below ranks) cs)
  Descending-Falling [] h = tt
  Descending-Falling (c ∷ cs) h = (All-values cs h.0, Descending-Falling cs h.1)
    where
      All-values :
          (xs : List (Candidate S))
          → All (λ y. value below ranks y ≤ value below ranks c) xs
          → All (λ n. n ≤ value below ranks c) (map (value below ranks) xs)
      All-values [] a = tt
      All-values (x ∷ xs) a = (a.0, All-values xs a.1)

  nil_of_length : {A : Type 0} (xs : List A) → length xs ≡ 0 → xs ≡ []
  nil_of_length [] h = refl
  nil_of_length (x ∷ xs) h = absurd (omega arith)

  map-map :
      {A B C : Type 0} (f : B → C) (h : A → B) (xs : List A)
      → map f (map h xs) ≡ map (λ x. f (h x)) xs
  map-map f h [] = refl
  map-map f h (x ∷ xs) = ap (◌∷◌ (f (h x))) (map-map f h xs)

  take-capped :
      {A : Type 0} (k : ℕ) (xs : List A)
      → take (if ltb (length xs) k then length xs else k) xs ≡ take k xs
  take-capped k xs = elim (Bool-cases (ltb (length xs) k)) [
    | inl less ↦
        rw less (take-all (length xs) xs (omega arith) ∙ sym (take-all k xs (ground arith)))
    | inr more ↦ rw more refl
  ]

  abbrev sorted : List (List F) → List (Sc S)
  sorted dataset = sort_scores (score_data similarity sort_scores query 0 dataset)

  -- The ranks of the brute force are the first k of all ranks in order.
  brute_ranks :
      (dataset : List (List F)) (k : ℕ)
      → map (rank_at dataset) (top_k_brute similarity sort_scores query dataset k)
        ≡ take k (map (λ c. ranks.rank c.s) (sorted dataset))
  unfolding top_k_brute
  brute_ranks dataset k =
      let all = sorted dataset in
      let right = sorts.keeps _ _ (score_data-rank_at dataset dataset 0 refl) in
      ap (λ (cs : List (Sc S)). map (rank_at dataset) (map (λ c. c.idx) cs)) (take-capped k all)
      ∙ map-map (rank_at dataset) (λ (c : Sc S). c.idx) (take k all)
      ∙ map-take (λ (c : Sc S). rank_at dataset c.idx) k all
      ∙ ap (take k) (map-All (λ c. rank_at dataset c.idx) (λ c. ranks.rank c.s) all right)

  -- The index holds the vectors of the dataset, in its order; the links of layer
  -- 0 lead from any node to any other.
  pub record IsLoaded (g : HnswGraph F) (dataset : List (List F)) : Type 0 where
    pub vectors : map (λ e. e.1.vector) g.nodes ≡ dataset
    pub connected :
        (a b : String) (n m : Node F)
        → lookup a g.nodes ≡ some n
        → lookup b g.nodes ≡ some m
        → Reaches g 0 a b

  -- A beam with room for every node has the ranks of all vectors, in order.
  beam_ranks :
      (g : HnswGraph F) (dataset : List (List F)) (ef : ℕ) (ep : String) (n : Node F)
      (beam : List (Candidate S))
      → KeysOnce g.nodes
      → IsLoaded g dataset
      → length g.nodes < ef
      → lookup ep g.nodes ≡ some n
      → IsBeam similarity below ranks g query ef 0 ep n beam
      → map (value below ranks) beam ≡ map (λ c. ranks.rank c.s) (sorted dataset)
  beam_ranks g dataset ef ep n beam once loaded room entry b =
      let fits = beam_fits similarity below ranks g query ef 0 ep n beam b in
      let weight : (ℕ → ℕ) → Node F → ℕ = λ w m. w (ranks.rank (similarity query m.vector)) in
      let each : (k : String) (m : Node F) → lookup k g.nodes ≡ some m → count k beam ≡ 1 = λ k m h.
        (let some_k =
            beam_complete similarity below ranks g query ef 0 ep n beam entry b (omega arith) k m
              (loaded.connected ep k n m entry h) h in
          omega (arith, some_k, b.distinct k)) in
      Falling-unique _ _ (Descending-Falling beam b.order) (sorts.order _) λ w.
        (total-map (value below ranks) w beam
          ∙ total-entries (weight w) g.nodes beam (λ c. w (value below ranks c)) once
              (All-map beam (λ c f. (f.node, f.stored, ap (λ s. w (ranks.rank s)) f.score)) b.found)
              each
          ∙ sym (total-map (λ e. e.1.vector) (λ v. w (ranks.rank (similarity query v))) g.nodes)
          ∙ ap (total (λ v. w (ranks.rank (similarity query v)))) loaded.vectors
          ∙ sym (total-score_data w dataset 0)
          ∙ sym (sorts.totals (λ c. w (ranks.rank c.s)) _)
          ∙ sym (total-map (λ c. ranks.rank c.s) w (sorted dataset)))

  no_ranks :
      (g : HnswGraph F) (dataset : List (List F)) (k : ℕ)
      → IsLoaded g dataset
      → length g.nodes ≡ 0
      → take k (map (λ c. ranks.rank c.s) (sorted dataset)) ≡ []
  no_ranks g dataset k loaded empty =
      let none_given : length dataset ≡ 0 =
        sym (ap length loaded.vectors) ∙ length-map (λ e. e.1.vector) g.nodes ∙ empty in
      let all = sorted dataset in
      let none_sorted : length (map (λ (c : Sc S). ranks.rank c.s) all) ≡ 0 =
        length-map (λ (c : Sc S). ranks.rank c.s) all
        ∙ sym (total-one all)
        ∙ sorts.totals (λ _. 1) _
        ∙ total-score_data (λ _. 1) dataset 0
        ∙ total-one dataset
        ∙ none_given in
      nil_of_length _
        (omega (arith, none_sorted, length-take k (map (λ (c : Sc S). ranks.rank c.s) all)))

  -- Where scores compare like numbers, and on a graph that keeps the invariant of Insert, holds the vectors of the dataset in its order,
  -- and whose links of layer 0 lead from every node to every other: where efSearch or k exceeds the
  -- number of nodes, the scores of Search's answer for the top k rank like those of the vectors that
  -- topKBrute selects from the dataset, one by one.
  pub search-top_k_brute :
      (g : HnswGraph F) (dataset : List (List F)) (k : ℕ)
      → IsIndex g
      → IsLoaded g dataset
      → length g.nodes < max k g.ef_search
      → (out : List (Candidate S)) × (search similarity below g query (pos k) ≡ ok out)
        × (map (value below ranks) out
            ≡ map (rank_at dataset) (top_k_brute similarity sort_scores query dataset k))
  search-top_k_brute g dataset k index loaded room =
      let (out, ran, answers) = search-Answers similarity below ranks g query k index in
      (
        out,
        ran,
        elim answers [
          | inl (empty, none_found) ↦
              ap (map (value below ranks)) none_found
              ∙ sym (brute_ranks dataset k ∙ no_ranks g dataset k loaded empty)
          | inr (n, entry, a) ↦
              let all =
                beam_ranks g dataset (max k g.ef_search) a.entry a.below_entry.node a.beam
                  index.once loaded room a.below_entry.stored a.is_beam in
              ap (map (value below ranks)) a.first_k
              ∙ map-take (value below ranks) k a.beam
              ∙ ap (take k) all
              ∙ sym (brute_ranks dataset k)
        ],
      )
