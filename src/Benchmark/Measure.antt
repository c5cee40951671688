-- ===== src/Benchmark/Measure.antt =====
-- measureRecall, percentile and ratePerSec of cmd/benchmarker/main.go. Durations are integers, as in
-- Go; the operations of float64 are parameters.
pub mod Bounds
use Prim.Native.String.{String}
use vector_store.Prelude.{
  ℕ, zero, suc, ◌+◌, ◌*◌, Bool, List, [], ◌∷◌, map, Option, none, some, ◌==◌, ◌||◌, if◌then◌else◌,
  length, mem_str, ℤ, pos, ◌-ℤ◌, ltb_ℤ, leb_ℤ, Run, ok, load,
}
use vector_store.Benchmark.{Sc, top_k_brute}

-- for _, r := range resp.Results { if _, ok := truthSet[r.Id]; ok { hits++ } }
unfoldable pub count_hits : List String → List String → ℕ
count_hits truth_set [] = 0
count_hits truth_set (id ∷ ids) = (if mem_str id truth_set then 1 else 0) + count_hits truth_set ids

-- The operations of float64 that measureRecall, percentile and ratePerSec call. ceil_rank is
-- int(math.Ceil(p/100*float64(n))).
pub record StatOps (D : Type 0) : Type 0 where
  pub zero : D
  pub from_int : ℤ → D
  pub div : D → D → D
  pub seconds : ℤ → D
  pub ceil_rank : D → ℕ → ℤ

module _ {F S : Type 0} (similarity : List F → List F → S) (sort_scores : List (Sc S) → List (Sc S))
    (vec_name : ℕ → String) where
  -- The job of one query: what it adds to hits. `answer` has the ids of the response, and is `none`
  -- where the call failed.
  unfoldable pub recall_job : List (List F) → ℕ → List F → Option (List String) → ℕ
  unfolding count_hits
  recall_job dataset k q answer = elim answer [
    | none ↦ 0
    | some ids ↦ count_hits (map vec_name (top_k_brute similarity sort_scores q dataset k)) ids
  ]

  -- The jobs add up in any order.
  unfoldable pub total_hits : List (List F) → ℕ → List (List F × Option (List String)) → ℕ
  unfolding recall_job
  total_hits dataset k [] = 0
  total_hits dataset k ((q, answer) ∷ queries) =
      recall_job dataset k q answer + total_hits dataset k queries

  unfoldable pub measure_recall :
      {D : Type 0} → StatOps D → List (List F) → ℕ → List (List F × Option (List String)) → D
  unfolding total_hits
  measure_recall ops dataset k queries =
      if (length queries == 0) || (k == 0)
      then ops.zero
      else ops.div (ops.from_int (pos (total_hits dataset k queries)))
          (ops.from_int (pos (length queries * k)))

unfoldable pub percentile : {D : Type 0} → StatOps D → List ℤ → D → Run ℤ
percentile ops sorted p =
    let rank = ops.ceil_rank p (length sorted) -ℤ pos 1 in
    let low = if ltb_ℤ rank (pos 0) then pos 0 else rank in
    let idx = if leb_ℤ (pos (length sorted)) low then pos (length sorted) -ℤ pos 1 else low in
    if length sorted == 0 then ok (pos 0) else load sorted idx

unfoldable pub rate_per_sec : {D : Type 0} → StatOps D → ℤ → ℤ → D
rate_per_sec ops count elapsed =
    if leb_ℤ elapsed (pos 0) then ops.zero else ops.div (ops.from_int count) (ops.seconds elapsed)
