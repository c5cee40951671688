-- ===== src/Benchmark/RunExamples.antt =====
-- Runs of runPool, measureRecall, percentile and main's data on small inputs.
use Prim.Native.String.{String}
use vector_store.Prelude.{
  get_elem?, ◌≤ℤ◌, update_at, mem_str, ℕ, zero, suc, ◌+◌, ◌*◌, ◌%◌, ◌≤◌, ◌≡◌, refl, arith, List, [],
  ◌∷◌, Option, none, some, ◌==◌, ℤ, pos, negsuc, ok,
}
use vector_store.Benchmark.{Sc, score_data, top_k_brute}
use vector_store.Benchmark.Pool.{Pool, new_pool, send, receive, call, holds, Steps, here, next}
use vector_store.Benchmark.Measure.{StatOps, measure_recall, percentile}
use vector_store.Benchmark.Measure.Bounds.{measure_recall-IsRatio, Rises, percentile_mono}
use vector_store.Benchmark.Vectors.{
  RandomOps, Settings, Prepared, prepare, at_least, random_vectors,
}
use vector_store.Benchmark.Vectors.Fitting.{Fits, prepare-Fits}

-- workers is 0, which becomes 1: job 0 is sent, and worker 0 takes it and runs fn.
abbrev sent_one : Pool
sent_one = record new_pool { sent = 1; queue = 0 ∷ [] }

abbrev three_steps : (p : Pool) × Steps 1 2 3 p
unfolding new_pool
three_steps = (
  _,
  next
      (next (next here (send (omega arith) (omega arith) refl))
        (receive 0 0 [] (omega arith) refl refl refl refl))
      (call 0 0 (omega arith) (update_at new_pool.stage 0 (holds 0)) refl),
)

-- A ratio of durations is what it is a ratio of.
abbrev pairs : StatOps (ℤ × ℤ)
pairs = record {
  zero = (pos 0, pos 1);
  from_int = λ x. (x, pos 1);
  div = λ x y. (x.0, y.0);
  seconds = λ x. (x, pos 1000000000);
  ceil_rank = λ x n. x.0;
}

-- The vectors are numbers, more similar where they are larger; the response names one neighbour of two.
abbrev first_of : List ℕ → ℕ
first_of [] = 0
first_of (x ∷ xs) = x

abbrev similar : List ℕ → List ℕ → ℕ
similar q v = first_of v

abbrev as_they_are : List (Sc ℕ) → List (Sc ℕ)
as_they_are scores = scores

abbrev vec_name : ℕ → String
vec_name zero = "vec-0"
vec_name (suc n) = "vec-1"

abbrev answered : List (List ℕ × Option (List String))
answered = ((1 ∷ []), some ("vec-1" ∷ "vec-9" ∷ [])) ∷ ((2 ∷ []), none) ∷ []

one_hit :
    measure_recall similar as_they_are vec_name pairs
      ((5 ∷ []) ∷ (4 ∷ []) ∷ (3 ∷ []) ∷ [])
      2
      answered
    ≡ (pos 1, pos 4)
unfolding measure_recall mem_str top_k_brute score_data
one_hit = refl

measure_recall-IsRatio_example :
    (hits : ℕ) × (measure_recall similar as_they_are vec_name pairs
        ((5 ∷ []) ∷ (4 ∷ []) ∷ (3 ∷ []) ∷ [])
        2
        answered
      ≡ (pos hits, pos 4))
    × (hits ≤ 4)
unfolding mem_str
measure_recall-IsRatio_example =
    measure_recall-IsRatio similar as_they_are vec_name pairs ((5 ∷ []) ∷ (4 ∷ []) ∷ (3 ∷ []) ∷ [])
      2 answered (omega arith) (omega arith) ((refl, (refl, tt)), tt)

abbrev latencies : List ℤ
latencies = pos 3 ∷ pos 4 ∷ pos 9 ∷ []

latencies-Rises : Rises latencies
latencies-Rises i j a b le at_i at_j = ground (arith, at_i, at_j)

percentile_mono_example :
    (i j : ℕ) × (a : ℤ) × (b : ℤ) × (percentile pairs latencies (pos 2, pos 1) ≡ ok a)
    × (get_elem? latencies i ≡ some a)
    × (percentile pairs latencies (pos 7, pos 1) ≡ ok b)
    × (get_elem? latencies j ≡ some b)
    × (a ≤ℤ b)
percentile_mono_example =
    percentile_mono pairs latencies (pos 2, pos 1) (pos 7, pos 1) (omega arith) latencies-Rises
      (omega arith)

-- A generator that counts, with components that are numbers.
abbrev counting : RandomOps ℕ ℕ ℕ
counting = record {
  norm_float64 = λ r. (r, suc r);
  intn = λ r n. (r % n, suc r);
  intn_lt = λ r n h. omega arith;
  narrow = λ x. x;
  widen = λ x. x;
  zero = 0;
  add64 = λ x y. x + y;
  mul64 = λ x y. x * y;
  is_zero = λ x. x == 0;
  inv_sqrt = λ x. 1;
  add32 = λ x y. x + y;
  mul32 = λ x y. x * y;
}

two_vectors : random_vectors counting 2 2 1 ≡ ((1 ∷ 2 ∷ []) ∷ (3 ∷ 4 ∷ []) ∷ [], 5)
unfolding random_vectors
two_vectors = refl

-- clusters, conns and recall-queries are below their least values, and topk is above n.
abbrev small : Settings ℕ
small = record {
  n = pos 3;
  dim = pos 2;
  clusters = negsuc 4;
  noise = 1;
  conns = pos 0;
  top_k = pos 10;
  recall_q = pos 5;
}

prepare-Fits_example :
    (p : Prepared ℕ) × (prepare counting small 7 ≡ ok p) × Fits {C = ℕ} (5 ∷ []) small p
unfolding at_least
prepare-Fits_example = prepare-Fits counting small 7 (5 ∷ []) (omega arith) (omega arith) refl
