-- ===== src/Benchmark.antt =====
-- cmd/benchmarker/main.go: topKBrute, the exact baseline of the recall measurement.
pub mod Pool
pub mod Measure
pub mod Vectors
pub mod Recall
mod Examples
mod RunExamples
use vector_store.Prelude.{ℕ, zero, suc, Bool, List, [], ◌∷◌, length, map, take, ltb, if◌then◌else◌}

pub record Sc (S : Type 0) : Type 0 where
  pub idx : ℕ
  pub s : S

module _ {F S : Type 0} (similarity : List F → List F → S)
    (sort_scores : List (Sc S) → List (Sc S)) where
  -- scores[i] = sc{i, CosineSimilarity(q, dataset[i])}, from index i on
  unfoldable pub score_data : List F → ℕ → List (List F) → List (Sc S)
  score_data q i [] = []
  score_data q i (v ∷ dataset) =
      record { idx = i; s = similarity q v } ∷ score_data q (suc i) dataset

  -- topKBrute, where sort_scores is sort.Slice by descending score.
  unfoldable pub top_k_brute : List F → List (List F) → ℕ → List ℕ
  top_k_brute q dataset k =
      let scores = sort_scores (score_data q 0 dataset) in
      let k' = if ltb (length scores) k then length scores else k in
      map (λ (c : Sc S). c.idx) (take k' scores)
