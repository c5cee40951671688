-- ===== src/Benchmark/Measure/Bounds.antt =====
-- The recall that is measured lies between none and all, and percentiles grow with their rank.
use Prim.Native.String.{String}
use Prim.Native.Nat.{min}
use text.Mathlib.Text.{◌==◌ as str_eq}
use text.Mathlib.TextEquality.{eq_iff}
use native.Mathlib.Nat.{suc-mul}
use vector_store.Prelude.{
  ℕ, zero, suc, ◌+◌, ◌-◌, ◌*◌, ◌≤◌, ◌≡◌, refl, ap, inl, inr, false, arith, Bool-cases, List, [],
  ◌∷◌, map, take, Option, none, some, length, length-map, length-take, mem_str, get_elem?,
  get_elem?-some, ltb, ltb_ℤ, leb_ℤ, if◌then◌else◌, ℤ, pos, negsuc, pos_part, ◌-ℤ◌, ◌≤ℤ◌, ok, load,
  ◌∙◌, ◌==◌, ◌||◌,
}
use vector_store.Benchmark.{Sc, score_data, top_k_brute}
use vector_store.Benchmark.Measure.{count_hits, StatOps, total_hits, measure_recall, percentile}

-- No id stands twice in the list.
abbrev pub IdsOnce : List String → Type 0
IdsOnce [] = Unit {0}
IdsOnce (x ∷ xs) = (mem_str x xs ≡ false) × IdsOnce xs

not_mem-cons :
    (x y : String) (xs : List String)
    → mem_str y (x ∷ xs) ≡ false
    → (str_eq y x ≡ false) × (mem_str y xs ≡ false)
unfolding mem_str
not_mem-cons x y xs h = ground (arith, eq_iff x y, eq_iff y x)

count_hits-absent :
    (y : String) (ys xs : List String)
    → mem_str y xs ≡ false
    → count_hits (y ∷ ys) xs ≡ count_hits ys xs
unfolding count_hits mem_str
count_hits-absent y ys [] h = refl
count_hits-absent y ys (x ∷ xs) h =
    let (other, later) = not_mem-cons x y xs h in rw (other, count_hits-absent y ys xs later) refl

-- One more id in the set is hit once at most.
count_hits-cons :
    (y : String) (ys xs : List String) → IdsOnce xs → count_hits (y ∷ ys) xs ≤ count_hits ys xs + 1
unfolding count_hits mem_str
count_hits-cons y ys [] h = omega arith
count_hits-cons y ys (x ∷ xs) h = elim (Bool-cases (str_eq y x)) [
  | inl same ↦
      let is : y ≡ x = (eq_iff y x).0 same in
      let absent = count_hits-absent y ys xs (rw is h.0) in ground (arith, same, absent)
  | inr other ↦ ground (arith, other, count_hits-cons y ys xs h.1)
]

count_hits-none : (xs : List String) → count_hits [] xs ≡ 0
unfolding count_hits mem_str
count_hits-none [] = refl
count_hits-none (x ∷ xs) = omega (arith, count_hits-none xs)

count_hits-le : (ys xs : List String) → IdsOnce xs → count_hits ys xs ≤ length ys
count_hits-le [] xs h = omega (arith, count_hits-none xs)
count_hits-le (y ∷ ys) xs h = omega (arith, count_hits-cons y ys xs h, count_hits-le ys xs h)

module _ {F S : Type 0} (similarity : List F → List F → S) (sort_scores : List (Sc S) → List (Sc S))
    (vec_name : ℕ → String) where
  length-top_k_brute :
      (q : List F) (dataset : List (List F)) (k : ℕ)
      → length (top_k_brute similarity sort_scores q dataset k) ≤ k
  unfolding top_k_brute
  length-top_k_brute q dataset k =
      let scores = sort_scores (score_data similarity sort_scores q 0 dataset) in
      let k' = if ltb (length scores) k then length scores else k in
      let low : k' ≤ k = ground arith in
      omega (arith, length-map (λ (c : Sc S). c.idx) (take k' scores), length-take k' scores)

  -- No response has an id twice.
  abbrev pub AnswersOnce : List (List F × Option (List String)) → Type 0
  AnswersOnce [] = Unit {0}
  AnswersOnce ((q, none) ∷ queries) = AnswersOnce queries
  AnswersOnce ((q, some ids) ∷ queries) = IdsOnce ids × AnswersOnce queries

  total_hits-le :
      (dataset : List (List F)) (k : ℕ) (queries : List (List F × Option (List String)))
      → AnswersOnce queries
      → total_hits similarity sort_scores vec_name dataset k queries ≤ length queries * k
  unfolding total_hits
  total_hits-le dataset k [] h = omega arith
  total_hits-le dataset k ((q, none) ∷ queries) h = grind (arith, total_hits-le dataset k queries h)
  total_hits-le dataset k ((q, some ids) ∷ queries) h =
      let truth = map vec_name (top_k_brute similarity sort_scores q dataset k) in
      let this : count_hits truth ids ≤ k = omega (
        arith,
        count_hits-le truth ids h.0,
        length-map vec_name (top_k_brute similarity sort_scores q dataset k),
        length-top_k_brute q dataset k,
      ) in
      let rest = total_hits-le dataset k queries h.1 in
      let next : suc (length queries) * k ≡ length queries * k + k = suc-mul (length queries) k in
      omega arith

  -- measureRecall over some queries, with k at least 1 and no id twice in a response, is a ratio of
  -- hits to the |Q| * k that are possible, and the hits are no more than these.
  pub measure_recall-IsRatio :
      {D : Type 0} (ops : StatOps D) (dataset : List (List F)) (k : ℕ)
      (queries : List (List F × Option (List String)))
      → 1 ≤ length queries
      → 1 ≤ k
      → AnswersOnce queries
      → (hits : ℕ) × (measure_recall similarity sort_scores vec_name ops dataset k queries
          ≡ ops.div (ops.from_int (pos hits)) (ops.from_int (pos (length queries * k))))
        × (hits ≤ length queries * k)
  unfolding measure_recall
  measure_recall-IsRatio ops dataset k queries some_query some_k once =
      let more : (length queries == 0) || (k == 0) ≡ false = ground arith in
      (
        total_hits similarity sort_scores vec_name dataset k queries,
        rw more refl,
        total_hits-le dataset k queries once,
      )

-- The place that percentile reads, for a rank from 1 on: the rank less one, within the list.
abbrev pub place : ℤ → ℕ → ℕ
place rank n = min (pos_part rank - 1) (n - 1)

-- The index after the clamps, from the rank less one.
abbrev clamped : ℤ → ℕ → ℤ
clamped rank n =
    let low = if ltb_ℤ rank (pos 0) then pos 0 else rank in
    if leb_ℤ (pos n) low then pos n -ℤ pos 1 else low

clamped-place : (rank : ℤ) (n : ℕ) → 1 ≤ n → clamped (rank -ℤ pos 1) n ≡ pos (place rank n)
unfolding ◌-ℤ◌
clamped-place (pos zero) n h = ground arith
clamped-place (pos (suc m)) n h = ground arith
clamped-place (negsuc m) n h = ground arith

percentile-reads :
    {D : Type 0} (ops : StatOps D) (sorted : List ℤ) (p : D)
    → 1 ≤ length sorted
    → percentile ops sorted p
      ≡ load sorted (pos (place (ops.ceil_rank p (length sorted)) (length sorted)))
unfolding percentile
percentile-reads ops sorted p some_left =
    let not_empty : (length sorted == 0) ≡ false = ground arith in
    rw not_empty
      (ap (load sorted) (clamped-place (ops.ceil_rank p (length sorted)) (length sorted) some_left))

pos_part_mono : (a b : ℤ) → a ≤ℤ b → pos_part a ≤ pos_part b
pos_part_mono (pos a) (pos b) h = omega arith
pos_part_mono (pos a) (negsuc b) h = omega arith
pos_part_mono (negsuc a) b h = omega arith

-- The list is in ascending order.
abbrev pub Rises : List ℤ → Type 0
Rises sorted =
    (i j : ℕ) (a b : ℤ) → i ≤ j → get_elem? sorted i ≡ some a → get_elem? sorted j ≡ some b → a ≤ℤ b

-- percentile of durations in ascending order returns one of them, and a higher rank returns no
-- shorter one.
pub percentile_mono :
    {D : Type 0} (ops : StatOps D) (sorted : List ℤ) (p q : D)
    → 1 ≤ length sorted
    → Rises sorted
    → ops.ceil_rank p (length sorted) ≤ℤ ops.ceil_rank q (length sorted)
    → (i j : ℕ) × (a : ℤ) × (b : ℤ) × (percentile ops sorted p ≡ ok a)
      × (get_elem? sorted i ≡ some a)
      × (percentile ops sorted q ≡ ok b)
      × (get_elem? sorted j ≡ some b)
      × (a ≤ℤ b)
percentile_mono ops sorted p q some_left rises up =
    let n = length sorted in
    let i = place (ops.ceil_rank p n) n in
    let j = place (ops.ceil_rank q n) n in
    let (a, at_i) = get_elem?-some sorted i (omega arith) in
    let (b, at_j) = get_elem?-some sorted j (omega arith) in
    (
      i,
      j,
      a,
      b,
      percentile-reads ops sorted p some_left ∙ (rw at_i refl),
      at_i,
      percentile-reads ops sorted q some_left ∙ (rw at_j refl),
      at_j,
      rises i j a b (omega (arith, pos_part_mono (ops.ceil_rank p n) (ops.ceil_rank q n) up)) at_i
          at_j,
    )
