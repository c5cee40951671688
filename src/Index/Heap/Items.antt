-- ===== src/Index/Heap/Items.antt =====
-- What a heap holds, whatever the order: sums of weights over it, and what holds of every entry.
use vector_store.Prelude.{
  ℕ, zero, suc, ◌+◌, ◌<◌, ◌≡◌, refl, ◌∙◌, arith, List, [], ◌∷◌, ◌++◌, length, set, take, get_elem?,
  some, ◌==◌, if◌then◌else◌,
}

module _ {A : Type 0} where
  -- The sum of the weights of the entries. Two lists with the same sums for all weights hold the
  -- same entries, as often.
  abbrev pub total : (A → ℕ) → List A → ℕ
  total w [] = 0
  total w (x ∷ xs) = w x + total w xs

  abbrev pub All : (A → Type 0) → List A → Type 0
  All P [] = Unit {0}
  All P (x ∷ xs) = P x × All P xs

  pub total-append : (w : A → ℕ) (xs ys : List A) → total w (xs ++ ys) ≡ total w xs + total w ys
  total-append w [] ys = omega arith
  total-append w (x ∷ xs) ys = omega (arith, total-append w xs ys)

  pub All-append : (P : A → Type 0) (xs ys : List A) → All P xs → All P ys → All P (xs ++ ys)
  All-append P [] ys h k = k
  All-append P (x ∷ xs) ys h k = (h.0, All-append P xs ys h.1 k)

  pub All-map : {P Q : A → Type 0} (xs : List A) → ((x : A) → P x → Q x) → All P xs → All Q xs
  All-map [] f h = tt
  All-map (x ∷ xs) f h = (f x h.0, All-map xs f h.1)

  pub All-both : (P Q : A → Type 0) (xs : List A) → All P xs → All Q xs → All (λ x. P x × Q x) xs
  All-both P Q [] h k = tt
  All-both P Q (x ∷ xs) h k = ((h.0, k.0), All-both P Q xs h.1 k.1)

  -- The entry at i, or d.
  abbrev pub get_or : List A → ℕ → A → A
  get_or [] i d = d
  get_or (x ∷ xs) zero d = x
  get_or (x ∷ xs) (suc i) d = get_or xs i d

  pub get_elem?-get_or :
      (xs : List A) (i : ℕ) (d : A) → i < length xs → get_elem? xs i ≡ some (get_or xs i d)
  get_elem?-get_or [] i d h = elim h [ ]
  get_elem?-get_or (x ∷ xs) zero d h = refl
  get_elem?-get_or (x ∷ xs) (suc i) d h = get_elem?-get_or xs i d (omega arith)

  pub get_or-set :
      (xs : List A) (i j : ℕ) (v d : A)
      → i < length xs
      → get_or (set xs i v) j d ≡ (if i == j then v else get_or xs j d)
  get_or-set [] i j v d h = elim h [ ]
  get_or-set (x ∷ xs) zero zero v d h = refl
  get_or-set (x ∷ xs) zero (suc j) v d h = ground arith
  get_or-set (x ∷ xs) (suc i) zero v d h = ground arith
  get_or-set (x ∷ xs) (suc i) (suc j) v d h = ground (arith, get_or-set xs i j v d)

  pub get_or-append :
      (xs ys : List A) (i : ℕ) (d : A) → i < length xs → get_or (xs ++ ys) i d ≡ get_or xs i d
  get_or-append [] ys i d h = elim h [ ]
  get_or-append (x ∷ xs) ys zero d h = refl
  get_or-append (x ∷ xs) ys (suc i) d h = get_or-append xs ys i d (omega arith)

  pub get_or-take :
      (n : ℕ) (xs : List A) (i : ℕ) (d : A) → i < n → get_or (take n xs) i d ≡ get_or xs i d
  get_or-take zero xs i d h = elim h [ ]
  get_or-take (suc n) [] i d h = refl
  get_or-take (suc n) (x ∷ xs) zero d h = refl
  get_or-take (suc n) (x ∷ xs) (suc i) d h = get_or-take n xs i d (omega arith)

  pub total-set :
      (w : A → ℕ) (xs : List A) (i : ℕ) (v d : A)
      → i < length xs
      → total w (set xs i v) + w (get_or xs i d) ≡ total w xs + w v
  total-set w [] i v d h = elim h [ ]
  total-set w (x ∷ xs) zero v d h = omega arith
  total-set w (x ∷ xs) (suc i) v d h = omega (arith, total-set w xs i v d)

  pub All-set : (P : A → Type 0) (xs : List A) (i : ℕ) (v : A) → P v → All P xs → All P (set xs i v)
  All-set P [] i v p h = tt
  All-set P (x ∷ xs) zero v p h = (p, h.1)
  All-set P (x ∷ xs) (suc i) v p h = (h.0, All-set P xs i v p h.1)

  pub All-get_or :
      (P : A → Type 0) (xs : List A) (i : ℕ) (d : A) → i < length xs → All P xs → P (get_or xs i d)
  All-get_or P [] i d l h = elim l [ ]
  All-get_or P (x ∷ xs) zero d l h = h.0
  All-get_or P (x ∷ xs) (suc i) d l h = All-get_or P xs i d (omega arith) h.1

  pub All-of_get_or :
      (P : A → Type 0) (xs : List A) (d : A)
      → ((i : ℕ) → i < length xs → P (get_or xs i d))
      → All P xs
  All-of_get_or P [] d h = tt
  All-of_get_or P (x ∷ xs) d h =
      (h 0 (omega arith), All-of_get_or P xs d (λ i l. h (suc i) (omega arith)))

  pub All-take : (P : A → Type 0) (n : ℕ) (xs : List A) → All P xs → All P (take n xs)
  All-take P zero xs h = tt
  All-take P (suc n) [] h = tt
  All-take P (suc n) (x ∷ xs) h = (h.0, All-take P n xs h.1)

  pub total-take :
      (w : A → ℕ) (n : ℕ) (xs : List A) (d : A)
      → length xs ≡ suc n
      → total w (take n xs) + w (get_or xs n d) ≡ total w xs
  total-take w n [] d h = absurd (omega arith)
  total-take w zero (x ∷ []) d h = omega arith
  total-take w zero (x ∷ y ∷ xs) d h = absurd (omega arith)
  total-take w (suc n) (x ∷ xs) d h = omega (arith, total-take w n xs d)

-- `b` holds what `a` holds.
pub record Same {A : Type 0} (a b : List A) : Type 1 where
  pub totals : (w : A → ℕ) → total w b ≡ total w a
  pub keeps : (P : A → Type 0) → All P a → All P b

pub Same-refl : {A : Type 0} (a : List A) → Same a a
Same-refl a = record { totals = λ w. refl; keeps = λ P h. h }

pub Same-trans : {A : Type 0} (a b c : List A) → Same a b → Same b c → Same a c
Same-trans a b c s t = record {
  totals = λ w. t.totals w ∙ s.totals w;
  keeps = λ P h. t.keeps P (s.keeps P h);
}

-- Two entries change places.
abbrev pub swapped : {A : Type 0} → List A → ℕ → ℕ → A → List A
swapped h i j d = set (set h i (get_or h j d)) j (get_or h i d)
