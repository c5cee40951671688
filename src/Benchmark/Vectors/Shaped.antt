-- ===== src/Benchmark/Vectors/Shaped.antt =====
-- The data of the benchmark has its shape, and the jobs of its phases stay within it.
use vector_store.Prelude.{
  ℕ, zero, suc, ◌+◌, ◌<◌, ◌≡◌, refl, ap, inl, inr, false, ◌==◌, Bool-cases, arith, List, [], ◌∷◌,
  some, length, length-map, get_elem?, get_elem?-some, ok,
}
use vector_store.Index.Heap.Items.{All}
use vector_store.Benchmark.Vectors.{
  RandomOps, sum_squares, normalize, fill_normal, random_vectors, fill_near, clustered_vectors,
  intn_of,
}

-- So many vectors of that dimension.
pub record IsShaped {F : Type 0} (count dim : ℕ) (vs : List (List F)) : Type 0 where
  pub size : length vs ≡ count
  pub long : All (λ v. length v ≡ dim) vs

All-at :
    {A : Type 0} (P : A → Type 0) (xs : List A) (i : ℕ) (x : A)
    → All P xs
    → get_elem? xs i ≡ some x
    → P x
All-at P [] i x h at = cc
All-at P (y ∷ xs) zero x h at = let same : y ≡ x = cc in rw (← same) h.0
All-at P (y ∷ xs) (suc i) x h at = All-at P xs i x h.1 at

module _ {F D R : Type 0} (ops : RandomOps F D R) where
  length-normalize : (v : List F) → length (normalize ops v) ≡ length v
  unfolding normalize
  length-normalize v =
      let s = sum_squares ops ops.zero v in
      elim (Bool-cases (ops.is_zero s)) [
        | inl blank ↦ rw blank refl
        | inr more ↦ rw more (length-map (λ x. ops.mul32 x (ops.inv_sqrt s)) v)
      ]

  length-fill_normal : (dim : ℕ) (r : R) → length (fill_normal ops dim r).0 ≡ dim
  unfolding fill_normal
  length-fill_normal zero r = refl
  length-fill_normal (suc dim) r = ap suc (length-fill_normal dim (ops.norm_float64 r).1)

  pub random_vectors-IsShaped :
      (count dim : ℕ) (r : R) → IsShaped count dim (random_vectors ops count dim r).0
  unfolding random_vectors
  random_vectors-IsShaped zero dim r = record { size = refl; long = tt }
  random_vectors-IsShaped (suc count) dim r =
      let first = fill_normal ops dim r in
      let rest = random_vectors-IsShaped count dim first.1 in
      record {
        size = ap suc rest.size;
        long = (omega (arith, length-normalize first.0, length-fill_normal dim r), rest.long);
      }

  fill_near-ok :
      (dim d : ℕ) (c : List F) (noise : D) (r : R)
      → length c ≡ d + dim
      → (out : List F × R) × (fill_near ops dim d c noise r ≡ ok out) × (length out.0 ≡ dim)
  unfolding fill_near
  fill_near-ok zero d c noise r h = (([], r), refl, refl)
  fill_near-ok (suc dim) d c noise r h =
      let (x, at) = get_elem?-some c d (omega arith) in
      let (rest, ran, size) =
        fill_near-ok dim (suc d) c noise (ops.norm_float64 r).1 (omega arith) in
      let drawn = ops.norm_float64 r in
      (
        (ops.add32 x (ops.narrow (ops.mul64 drawn.0 noise)) ∷ rest.0, rest.1),
        rw (at, ran) refl,
        ap suc size,
      )

  pub clustered_vectors-IsShaped :
      (count dim : ℕ) (centers : List (List F)) (noise : D) (r : R)
      → 0 < length centers
      → All (λ c. length c ≡ dim) centers
      → (out : List (List F) × R) × (clustered_vectors ops count dim centers noise r ≡ ok out)
        × IsShaped count dim out.0
  unfolding clustered_vectors intn_of
  clustered_vectors-IsShaped zero dim centers noise r some_center long =
      (([], r), refl, record { size = refl; long = tt })
  clustered_vectors-IsShaped (suc count) dim centers noise r some_center long =
      let chosen = ops.intn r (length centers) in
      let not_none : (length centers == 0) ≡ false = ground arith in
      let (c, at) = get_elem?-some centers chosen.0 (ops.intn_lt r (length centers) some_center) in
      let (near, filled, size) =
        fill_near-ok dim 0 c noise chosen.1
          (omega (arith, All-at (λ v. length v ≡ dim) centers chosen.0 c long at)) in
      let (rest, ran, shaped) =
        clustered_vectors-IsShaped count dim centers noise near.1 some_center long in
      (
        (normalize ops near.0 ∷ rest.0, rest.1),
        rw (not_none, at, filled, ran) refl,
        record {
          size = ap suc shaped.size;
          long = (omega (arith, length-normalize near.0, size), shaped.long);
        },
      )
