-- ===== src/Benchmark/Vectors/Fitting.antt =====
-- main prepares data that fits its flags, with which no job of its phases is out of range.
use vector_store.Prelude.{
  ℕ, ◌%◌, ◌≤◌, ◌<◌, ◌≡◌, refl, sym, ◌∙◌, ap, arith, List, [], ◌∷◌, length, get_elem?-some, dec_lt,
  if◌then◌else◌, ℤ, pos, negsuc, ◌≤ℤ◌, pos_part, ltb_ℤ, ok,
}
use vector_store.Index.Heap.Items.{All}
use vector_store.Benchmark.Vectors.{
  RandomOps, random_vectors, Settings, Prepared, at_least, prepare, client_of, ingest_job,
  query_job,
}
use vector_store.Benchmark.Vectors.Shaped.{random_vectors-IsShaped, clustered_vectors-IsShaped}

-- What main prepared fits its flags, and the jobs of its phases find a client and a vector.
pub record Fits {C F D : Type 0} (clients : List C) (s : Settings D) (p : Prepared F) : Type 0 where
  pub few : p.k ≤ℤ s.n
  pub size : pos (length p.dataset) ≡ s.n
  pub dataset : All (λ v. pos (length v) ≡ s.dim) p.dataset
  pub pool : All (λ v. pos (length v) ≡ s.dim) p.query_pool
  -- queryPool[:*recallQ]
  pub recalled : s.recall_q ≤ℤ pos (length p.query_pool)
  pub ingests :
      (wid j : ℕ)
      → j < length p.dataset
      → (r : C × List F) × (ingest_job p.conns clients p.dataset wid j ≡ ok r)
  pub queries :
      (wid j : ℕ) → (r : C × List F) × (query_job p.conns clients p.query_pool wid j ≡ ok r)

at_least-pos :
    (low : ℕ) (x : ℤ) → (n : ℕ) × (at_least (pos low) x ≡ pos n) × (low ≤ n) × (x ≤ℤ pos n)
unfolding at_least
at_least-pos low (pos x) = elim (dec_lt x low) [
  | yes less ↦ (low, ground arith, omega arith, omega arith)
  | no more ↦ (x, ground arith, omega arith, omega arith)
]
at_least-pos low (negsuc x) = (low, ground arith, omega arith, ground arith)

module _ {C : Type 0} (conns : ℤ) (clients : List C) (some_conn : 1 ≤ pos_part conns)
    (size : pos (length clients) ≡ conns) where
  client_of-ok : (wid : ℕ) → (c : C) × (client_of conns clients wid ≡ ok c)
  unfolding client_of
  client_of-ok wid =
      let many : length clients ≡ pos_part conns = ap pos_part size in
      let (c, at) = get_elem?-some clients (wid % pos_part conns) (omega arith) in (c, rw at refl)

  ingest_job-ok :
      {F : Type 0} (dataset : List (List F)) (wid j : ℕ)
      → j < length dataset
      → (r : C × List F) × (ingest_job conns clients dataset wid j ≡ ok r)
  unfolding ingest_job
  ingest_job-ok dataset wid j lt =
      let (c, found) = client_of-ok wid in
      let (v, at) = get_elem?-some dataset j lt in ((c, v), rw (found, at) refl)

  query_job-ok :
      {F : Type 0} (pool : List (List F)) (wid j : ℕ)
      → 1 ≤ length pool
      → (r : C × List F) × (query_job conns clients pool wid j ≡ ok r)
  unfolding query_job
  query_job-ok pool wid j some_query =
      let (c, found) = client_of-ok wid in
      let (q, at) = get_elem?-some pool (j % length pool) (omega arith) in
      ((c, q), rw (at, found) refl)

All-pos :
    {F : Type 0} (n : ℕ) (x : ℤ) (vs : List (List F))
    → x ≡ pos n
    → All (λ v. length v ≡ n) vs
    → All (λ v. pos (length v) ≡ x) vs
All-pos n x [] is long = tt
All-pos n x (v ∷ vs) is long = (ap pos long.0 ∙ sym is, All-pos n x vs is long.1)

ℤ-pos : (x : ℤ) → pos 0 ≤ℤ x → (n : ℕ) × (x ≡ pos n)
ℤ-pos (pos n) h = (n, refl)
ℤ-pos (negsuc n) h = ground arith

-- With flags n and dim that are not negative, main prepares without a panic, whatever the generator
-- draws: n vectors and at least recall-queries queries, all of dim components, and a k of n at most.
-- With as many clients as conns says, one at least, each job of the insertion phase and each of the
-- search phase finds its client and its vector.
pub prepare-Fits :
    {C F D R : Type 0} (ops : RandomOps F D R) (s : Settings D) (r : R) (clients : List C)
    → pos 0 ≤ℤ s.n
    → pos 0 ≤ℤ s.dim
    → pos (length clients) ≡ at_least (pos 1) s.conns
    → (p : Prepared F) × (prepare ops s r ≡ ok p) × Fits clients s p
unfolding prepare
prepare-Fits {F = F} ops s r clients n_pos dim_pos size =
    let (n, n_is) = ℤ-pos s.n n_pos in
    let (dim, dim_is) = ℤ-pos s.dim dim_pos in
    let (clusters, clusters_is, some_cluster, _) = at_least-pos 1 s.clusters in
    let (count, count_is, many, all) = at_least-pos 1000 s.recall_q in
    let (conns, conns_is, some_conn, _) = at_least-pos 1 s.conns in
    let centers = random_vectors ops clusters dim r in
    let centers_ok = random_vectors-IsShaped ops clusters dim r in
    let some_center : 0 < length centers.0 = omega (arith, centers_ok.size) in
    let (data_set, made, shaped) =
      clustered_vectors-IsShaped ops n dim centers.0 s.noise centers.1 some_center
        centers_ok.long in
    let (pool, drawn, pool_shaped) =
      clustered_vectors-IsShaped ops count dim centers.0 s.noise data_set.1 some_center
        centers_ok.long in
    let k = if ltb_ℤ s.n s.top_k then s.n else s.top_k in
    let p : Prepared F = record {
      conns = at_least (pos 1) s.conns;
      k = k;
      dataset = data_set.0;
      query_pool = pool.0;
    } in
    let some_client : 1 ≤ pos_part p.conns = rw conns_is some_conn in
    (
      p,
      rw (clusters_is, dim_is, n_is, made, count_is, drawn) refl,
      record {
        few = ground arith;
        size = ap pos shaped.size ∙ sym n_is;
        dataset = All-pos dim s.dim data_set.0 dim_is shaped.long;
        pool = All-pos dim s.dim pool.0 dim_is pool_shaped.long;
        recalled = rw pool_shaped.size all;
        ingests = λ wid j lt. ingest_job-ok p.conns clients some_client size data_set.0 wid j lt;
        queries = λ wid j.
            query_job-ok p.conns clients some_client size pool.0 wid j
              (omega (arith, pool_shaped.size));
      },
    )
