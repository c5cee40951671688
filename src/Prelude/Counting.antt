-- ===== src/Prelude/Counting.antt =====
-- Counting the numbers below n that pass a test.
use vector_store.Prelude.{
  ℕ, zero, suc, ◌+◌, ◌≤◌, ◌<◌, ◌≡◌, ◌≢◌, sym, refl, inl, inr, Bool, true, false, arith, Bool-cases,
  if◌then◌else◌, ℕ_discrete, ◌⊎◌, at_or_below,
}

-- How many k below n pass the test.
unfoldable pub count_below : ℕ → (ℕ → Bool) → ℕ
count_below zero f = 0
count_below (suc n) f = (if f n then 1 else 0) + count_below n f

-- Two tests that are passed more often than there are numbers are passed by one of them together.
pub count_below-meet :
    (n : ℕ) (f g : ℕ → Bool)
    → n < count_below n f + count_below n g
    → (k : ℕ) × (f k ≡ true) × (g k ≡ true)
unfolding count_below
count_below-meet zero f g h = absurd (omega arith)
count_below-meet (suc n) f g h = elim (Bool-cases (f n)) [
  | inl ft ↦ elim (Bool-cases (g n)) [
    | inl gt ↦ (n, ft, gt)
    | inr gf ↦ count_below-meet n f g (ground (arith, ft, gf))
  ]
  | inr ff ↦ count_below-meet n f g (ground (arith, ff))
]

pub count_below_mono :
    (n : ℕ) (f g : ℕ → Bool)
    → ((k : ℕ) → f k ≡ true → g k ≡ true)
    → count_below n f ≤ count_below n g
unfolding count_below
count_below_mono zero f g h = omega arith
count_below_mono (suc n) f g h = elim (Bool-cases (f n)) [
  | inl ft ↦ ground (arith, ft, h n ft, count_below_mono n f g h)
  | inr ff ↦ ground (arith, ff, count_below_mono n f g h)
]

-- A test that one more number passes.
pub count_below-more :
    (n : ℕ) (f g : ℕ → Bool) (k : ℕ)
    → ((j : ℕ) → f j ≡ true → g j ≡ true)
    → k < n
    → f k ≡ false
    → g k ≡ true
    → suc (count_below n f) ≤ count_below n g
unfolding count_below
count_below-more zero f g k h lt ff gt = absurd (omega arith)
count_below-more (suc n) f g k h lt ff gt = elim (ℕ_discrete k n) [
  | yes e ↦
      let here : g n ≡ true = rw (← e) gt in
      let not_here : f n ≡ false = rw (← e) ff in
      ground (arith, here, not_here, count_below_mono n f g h)
  | no ne ↦ elim (Bool-cases (f n)) [
    | inl ft ↦ ground (arith, ft, h n ft, count_below-more n f g k h (omega arith) ff gt)
    | inr fn ↦ ground (arith, fn, count_below-more n f g k h (omega arith) ff gt)
  ]
]

pub count_below-pos : (n : ℕ) (g : ℕ → Bool) (k : ℕ) → k < n → g k ≡ true → 1 ≤ count_below n g
count_below-pos n g k lt gt =
    omega (arith, count_below-more n (λ _. false) g k (λ j e. cc) lt refl gt)

-- 1 for a test that is passed.
abbrev pub bit : Bool → ℕ
bit b = if b then 1 else 0

pub count_below-same :
    (n : ℕ) (f g : ℕ → Bool) → ((j : ℕ) → j < n → f j ≡ g j) → count_below n f ≡ count_below n g
unfolding count_below
count_below-same zero f g h = refl
count_below-same (suc n) f g h =
    ground (arith, h n, count_below-same n f g (λ j lt. h j (omega arith)))

-- A test that changes at one number.
pub count_below-change :
    (n : ℕ) (f g : ℕ → Bool) (k : ℕ)
    → k < n
    → ((j : ℕ) → j ≢ k → f j ≡ g j)
    → count_below n f + bit (g k) ≡ count_below n g + bit (f k)
unfolding count_below
count_below-change zero f g k lt h = absurd (omega arith)
count_below-change (suc n) f g k lt h = elim (ℕ_discrete k n) [
  | yes e ↦
      let rest = count_below-same n f g (λ j below. h j (λ is. absurd (omega arith))) in
      rw e (omega arith)
  | no ne ↦
      let last : f n ≡ g n = h n (λ is. ne (sym is)) in
      let rest = count_below-change n f g k (omega arith) h in rw last (omega arith)
]

-- A number below n that passes the test, or none does.
pub find_below :
    (n : ℕ) (f : ℕ → Bool) → ((k : ℕ) × (k < n) × (f k ≡ true)) ⊎ ((k : ℕ) → k < n → f k ≡ false)
find_below zero f = inr (λ k h. elim h [ ])
find_below (suc n) f = elim (Bool-cases (f n)) [
  | inl ft ↦ inl (n, omega arith, ft)
  | inr ff ↦ elim (find_below n f) [
    | inl (k, lt, ft) ↦ inl (k, omega arith, ft)
    | inr all ↦ inr (λ k h. at_or_below (λ j. f j ≡ false) n k ff (all k) h)
  ]
]

pub count_below-none : (n : ℕ) → count_below n (λ _. false) ≡ 0
unfolding count_below
count_below-none zero = refl
count_below-none (suc n) = omega (arith, count_below-none n)

pub count_below-all : (n : ℕ) → count_below n (λ _. true) ≡ n
unfolding count_below
count_below-all zero = refl
count_below-all (suc n) = omega (arith, count_below-all n)
