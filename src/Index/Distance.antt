-- ===== src/Index/Distance.antt =====
-- internal/vectorindex/distance.go: CosineSimilarity. The float32 and float64 operations are
-- parameters.
use vector_store.Prelude.{
  ℕ, zero, suc, ◌≡◌, refl, ap, ◌∙◌, ◌⊎◌, ◌≤◌, some, inl, inr, arith, Bool, true, false, Bool-cases,
  ◌||◌, not, List, [], ◌∷◌, length, get_elem?, drop, ◌==◌, if◌then◌else◌, pos, Run, ok, ◌>>=◌, load,
}

-- F is float32 and D is float64.
pub record FloatOps (F D : Type 0) : Type 0 where
  pub zero32 : F
  pub zero64 : D
  pub widen : F → D
  pub narrow : D → F
  pub add : D → D → D
  pub mul : D → D → D
  pub div : D → D → D
  pub sqrt : D → D
  pub is_zero : D → Bool

pub record Sums (D : Type 0) : Type 0 where
  pub dot : D
  pub norm_a : D
  pub norm_b : D

pub drop-split :
    {A : Type 0} (i : ℕ) (b : List A) (y : A) (ys : List A)
    → drop i b ≡ y ∷ ys
    → (get_elem? b i ≡ some y) × (drop (suc i) b ≡ ys)
drop-split zero [] y ys h = cc
drop-split (suc i) [] y ys h = cc
drop-split zero (z ∷ b) y ys h = (cc, cc)
drop-split (suc i) (z ∷ b) y ys h = drop-split i b y ys h

module _ {F D : Type 0} (ops : FloatOps F D) where
  -- The body of the loop, on a[i] and b[i].
  abbrev add_terms : F → F → Sums D → Sums D
  add_terms x y s =
      let ai = ops.widen x in
      let bi = ops.widen y in
      record {
        dot = ops.add s.dot (ops.mul ai bi);
        norm_a = ops.add s.norm_a (ops.mul ai ai);
        norm_b = ops.add s.norm_b (ops.mul bi bi);
      }

  -- for i := range a { ... }, from index i on, where a's entries from i on are left
  unfoldable pub accumulate : List F → ℕ → List F → Sums D → Run (Sums D)
  accumulate [] i b s = ok s
  accumulate (x ∷ xs) i b s = load b (pos i) >>= λ y. accumulate xs (suc i) b (add_terms x y s)

  -- The guarded division.
  abbrev pub quotient : Sums D → F
  quotient s =
      let denom = ops.mul (ops.sqrt s.norm_a) (ops.sqrt s.norm_b) in
      if ops.is_zero denom then ops.zero32 else ops.narrow (ops.div s.dot denom)

  unfoldable pub cosine_similarity : List F → List F → Run F
  cosine_similarity a b =
      let start : Sums D = record { dot = ops.zero64; norm_a = ops.zero64; norm_b = ops.zero64 } in
      let computed = accumulate a 0 b start >>= λ s. ok (quotient s) in
      if not (length a == length b) || (length a == 0) then ok ops.zero32 else computed

  -- The sums over pairs.
  abbrev sums : List F → List F → Sums D → Sums D
  sums (x ∷ xs) (y ∷ ys) s = sums xs ys (add_terms x y s)
  sums _ _ s = s

  accumulate-sums :
      (xs ys b : List F) (i : ℕ) (s : Sums D)
      → drop i b ≡ ys
      → length xs ≡ length ys
      → accumulate xs i b s ≡ ok (sums xs ys s)
  unfolding accumulate
  accumulate-sums [] ys b i s there same = refl
  accumulate-sums (x ∷ xs) [] b i s there same = absurd (omega arith)
  accumulate-sums (x ∷ xs) (y ∷ ys) b i s there same =
      let (at_i, next) = drop-split i b y ys there in
      rw at_i (accumulate-sums xs ys b (suc i) (add_terms x y s) next (omega arith))

  computed_value :
      (a b : List F)
      → length a ≡ length b
      → (length a == 0) ≡ false
      → cosine_similarity a b
        ≡ ok (
            quotient
              (sums a b (record { dot = ops.zero64; norm_a = ops.zero64; norm_b = ops.zero64 })))
  unfolding cosine_similarity
  computed_value a b same some_a =
      let equal : not (length a == length b) || (length a == 0) ≡ false = ground arith in
      rw (equal, accumulate-sums a b b 0 _ refl same) refl

  abbrev turned : Sums D → Sums D
  turned s = record { dot = s.dot; norm_a = s.norm_b; norm_b = s.norm_a }

  module _ (mul_comm : (x y : D) → ops.mul x y ≡ ops.mul y x) where
    sums-turned : (xs ys : List F) (s : Sums D) → sums ys xs (turned s) ≡ turned (sums xs ys s)
    sums-turned [] [] s = refl
    sums-turned [] (y ∷ ys) s = refl
    sums-turned (x ∷ xs) [] s = refl
    sums-turned (x ∷ xs) (y ∷ ys) s =
        ap
          (λ (d : D). sums ys xs (record {
            dot = ops.add s.dot d;
            norm_a = ops.add s.norm_b (ops.mul (ops.widen y) (ops.widen y));
            norm_b = ops.add s.norm_a (ops.mul (ops.widen x) (ops.widen x));
          }))
          (mul_comm (ops.widen y) (ops.widen x))
        ∙ sums-turned xs ys (add_terms x y s)

    quotient-turned : (s : Sums D) → quotient (turned s) ≡ quotient s
    quotient-turned s =
        ap (λ (d : D). if ops.is_zero d then ops.zero32 else ops.narrow (ops.div s.dot d))
          (mul_comm (ops.sqrt s.norm_b) (ops.sqrt s.norm_a))

    -- Where multiplication commutes, CosineSimilarity of any two vectors returns, and returns the
    -- same for them in the other order; it returns 0, or the vectors have one length, which is not 0.
    pub cosine_similarity-symmetric :
        (a b : List F)
        → (r : F) × (cosine_similarity a b ≡ ok r)
          × (cosine_similarity b a ≡ ok r)
          × ((r ≡ ops.zero32) ⊎ ((length a ≡ length b) × (1 ≤ length a)))
    unfolding cosine_similarity
    cosine_similarity-symmetric a b =
        elim (Bool-cases (not (length a == length b) || (length a == 0))) [
          | inl guarded ↦
              let guarded' : not (length b == length a) || (length b == 0) ≡ true = ground arith in
              (ops.zero32, rw guarded refl, rw guarded' refl, inl refl)
          | inr computes ↦
              let s =
                sums a b (record { dot = ops.zero64; norm_a = ops.zero64; norm_b = ops.zero64 }) in
              (
                quotient s,
                computed_value a b (ground arith) (ground arith),
                computed_value b a (ground arith) (ground arith)
                    ∙ ap ok (ap quotient (sums-turned a b _) ∙ quotient-turned s),
                inr (ground arith, ground arith),
              )
        ]
