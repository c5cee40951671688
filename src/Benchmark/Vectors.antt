-- ===== src/Benchmark/Vectors.antt =====
-- cmd/benchmarker/main.go: the synthetic data (randomVectors, clusteredVectors, normalize), and what
-- main prepares before it measures.
pub mod Shaped
pub mod Fitting
use vector_store.Prelude.{
  ℕ, zero, suc, ◌+◌, ◌%◌, ◌<◌, Bool, List, [], ◌∷◌, map, ◌==◌, if◌then◌else◌, length, ℤ, pos,
  negsuc, pos_part, ltb_ℤ, Run, ok, panic, ◌>>=◌, load,
}

-- The generator of package rand, with its state R, and the operations of float32 and float64. Intn
-- gives a number below a positive n.
pub record RandomOps (F D R : Type 0) : Type 0 where
  pub norm_float64 : R → D × R
  pub intn : R → ℕ → ℕ × R
  pub intn_lt : (r : R) (n : ℕ) → 0 < n → (intn r n).0 < n
  pub narrow : D → F
  pub widen : F → D
  pub zero : D
  pub add64 : D → D → D
  pub mul64 : D → D → D
  pub is_zero : D → Bool
  -- float32(1 / math.Sqrt(s))
  pub inv_sqrt : D → F
  pub add32 : F → F → F
  pub mul32 : F → F → F

-- What make does with a length.
abbrev pub make_length : ℤ → Run ℕ
make_length (pos n) = ok n
make_length (negsuc n) = panic

module _ {F D R : Type 0} (ops : RandomOps F D R) where
  unfoldable pub sum_squares : D → List F → D
  sum_squares s [] = s
  sum_squares s (x ∷ v) = sum_squares (ops.add64 s (ops.mul64 (ops.widen x) (ops.widen x))) v

  unfoldable pub normalize : List F → List F
  unfolding sum_squares
  normalize v =
      let s = sum_squares ops.zero v in
      if ops.is_zero s then v else map (λ x. ops.mul32 x (ops.inv_sqrt s)) v

  -- for d := range v { v[d] = float32(rng.NormFloat64()) }
  unfoldable pub fill_normal : ℕ → R → List F × R
  fill_normal zero r = ([], r)
  fill_normal (suc dim) r =
      let (z, r') = ops.norm_float64 r in
      let (v, r'') = fill_normal dim r' in (ops.narrow z ∷ v, r'')

  unfoldable pub random_vectors : ℕ → ℕ → R → List (List F) × R
  unfolding fill_normal normalize
  random_vectors zero dim r = ([], r)
  random_vectors (suc count) dim r =
      let (v, r') = fill_normal dim r in
      let (out, r'') = random_vectors count dim r' in (normalize v ∷ out, r'')

  -- for d := range v { v[d] = c[d] + float32(rng.NormFloat64()*noise) }, from d on
  unfoldable pub fill_near : ℕ → ℕ → List F → D → R → Run (List F × R)
  fill_near zero d c noise r = ok ([], r)
  fill_near (suc dim) d c noise r = do
    x ← load c (pos d)
    let drawn = ops.norm_float64 r
    rest ← fill_near dim (suc d) c noise drawn.1
    ok (ops.add32 x (ops.narrow (ops.mul64 drawn.0 noise)) ∷ rest.0, rest.1)

  -- rng.Intn, which panics for 0
  unfoldable pub intn_of : R → ℕ → Run (ℕ × R)
  intn_of r n = if n == 0 then panic else ok (ops.intn r n)

  unfoldable pub clustered_vectors : ℕ → ℕ → List (List F) → D → R → Run (List (List F) × R)
  unfolding fill_near normalize intn_of
  clustered_vectors zero dim centers noise r = ok ([], r)
  clustered_vectors (suc count) dim centers noise r = do
    chosen ← intn_of r (length centers)
    c ← load centers (pos chosen.0)
    near ← fill_near dim 0 c noise chosen.1
    rest ← clustered_vectors count dim centers noise near.1
    ok (normalize near.0 ∷ rest.0, rest.1)

-- The flags that the data depends on.
pub record Settings (D : Type 0) : Type 0 where
  pub n : ℤ
  pub dim : ℤ
  pub clusters : ℤ
  pub noise : D
  pub conns : ℤ
  pub top_k : ℤ
  pub recall_q : ℤ

-- What main measures with: the connections, the k of the searches, the vectors, and the queries.
pub record Prepared (F : Type 0) : Type 0 where
  pub conns : ℤ
  pub k : ℤ
  pub dataset : List (List F)
  pub query_pool : List (List F)

-- `if x < low { x = low }`
unfoldable pub at_least : ℤ → ℤ → ℤ
at_least low x = if ltb_ℤ x low then low else x

module _ {F D R : Type 0} (ops : RandomOps F D R) where
  unfoldable pub prepare : Settings D → R → Run (Prepared F)
  unfolding random_vectors clustered_vectors at_least
  prepare s r = do
    clusters ← make_length (at_least (pos 1) s.clusters)
    dim ← make_length s.dim
    let centers = random_vectors ops clusters dim r
    n ← make_length s.n
    data_set ← clustered_vectors ops n dim centers.0 s.noise centers.1
    size ← make_length (at_least (pos 1000) s.recall_q)
    pool ← clustered_vectors ops size dim centers.0 s.noise data_set.1
    ok (record {
      conns = at_least (pos 1) s.conns;
      k = if ltb_ℤ s.n s.top_k then s.n else s.top_k;
      dataset = data_set.0;
      query_pool = pool.0;
    })

-- clients[wid%*conns]: conns is at least 1 here, so that it is its natural number.
unfoldable pub client_of : {C : Type 0} → ℤ → List C → ℕ → Run C
client_of conns clients wid = load clients (pos (wid % pos_part conns))

-- The client and the vector that one insertion job takes.
unfoldable pub ingest_job : {C F : Type 0} → ℤ → List C → List (List F) → ℕ → ℕ → Run (C × List F)
unfolding client_of
ingest_job conns clients dataset wid j = do
  client ← client_of conns clients wid
  vector ← load dataset (pos j)
  ok (client, vector)

-- The client and the query that one search job takes.
unfoldable pub query_job : {C F : Type 0} → ℤ → List C → List (List F) → ℕ → ℕ → Run (C × List F)
unfolding client_of
query_job conns clients query_pool wid j = do
  q ← load query_pool (pos (j % length query_pool))
  client ← client_of conns clients wid
  ok (client, q)
