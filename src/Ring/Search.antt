-- ===== src/Ring/Search.antt =====
-- sort.Search finds the first index at which a monotone test holds.
use vector_store.Prelude.{
  ℕ, zero, suc, ◌+◌, ◌-◌, ◌/◌, ◌≤◌, ◌<◌, ◌≡◌, Bool, true, false, arith, ltb, Bool-cases, inl, inr,
}
use vector_store.Ring.{search_loop, sort_search}

-- Once the test holds it goes on holding, below n.
abbrev pub IsMonotone : ℕ → (ℕ → Bool) → Type 0
IsMonotone n f = (i j : ℕ) → i ≤ j → j < n → f i ≡ true → f j ≡ true

-- r is the first index below n at which the test holds, or n.
pub record IsFirst (n : ℕ) (f : ℕ → Bool) (r : ℕ) : Type 0 where
  pub bound : r ≤ n
  pub before : (k : ℕ) → k < r → f k ≡ false
  pub after : (k : ℕ) → r ≤ k → k < n → f k ≡ true

-- The test fails below i and holds from j on.
record Brackets (n : ℕ) (f : ℕ → Bool) (i j : ℕ) : Type 0 where
  order : i ≤ j
  bound : j ≤ n
  before : (k : ℕ) → k < i → f k ≡ false
  after : (k : ℕ) → j ≤ k → k < n → f k ≡ true

fails_below :
    (n : ℕ) (f : ℕ → Bool) → IsMonotone n f → (c k : ℕ) → c < n → k ≤ c → f c ≡ false → f k ≡ false
fails_below n f m c k h p fails = elim (Bool-cases (f k)) [
  | inl holds ↦ let bad = m k c p h holds in cc
  | inr e ↦ e
]

search_loop-IsFirst :
    (fuel n : ℕ) (f : ℕ → Bool) (i j : ℕ)
    → IsMonotone n f
    → Brackets n f i j
    → j - i < fuel
    → IsFirst n f (search_loop fuel f i j)
unfolding search_loop
search_loop-IsFirst zero n f i j m b h = absurd (omega arith)
search_loop-IsFirst (suc fuel) n f i j m b h = elim (Bool-cases (ltb i j)) [
  | inr done ↦
      let e : i ≡ j = ground (arith, b.order) in
      rw done (record {
        bound = omega (arith, b.bound);
        before = b.before;
        after = λ k p q. b.after k (omega arith) q;
      })
  | inl more ↦
      let c = (i + j) / 2 in
      let lt : i < j = ground arith in
      let range : c < j = omega arith in
      elim (Bool-cases (f c)) [
        | inl holds ↦
            rw (more, holds)
              (search_loop-IsFirst fuel n f i c m
                (record {
                  order = omega arith;
                  bound = omega (arith, b.bound);
                  before = b.before;
                  after = λ k p q. m c k p q holds;
                })
                (omega arith))
        | inr fails ↦
            rw (more, fails)
              (search_loop-IsFirst fuel n f (c + 1) j m
                (record {
                  order = omega arith;
                  bound = b.bound;
                  before =
                      λ k p. fails_below n f m c k (omega (arith, b.bound)) (omega arith) fails;
                  after = b.after;
                })
                (omega arith))
      ]
]

-- sort.Search returns, within its n + 1 rounds, the first index below n at which a monotone test
-- holds, or n where it holds at none.
pub sort_search-IsFirst : (n : ℕ) (f : ℕ → Bool) → IsMonotone n f → IsFirst n f (sort_search n f)
unfolding sort_search
sort_search-IsFirst n f m =
    search_loop-IsFirst (n + 1) n f 0 n m
      (record {
        order = omega arith;
        bound = omega arith;
        before = λ k p. absurd (omega arith);
        after = λ k p q. absurd (omega arith);
      })
      (omega arith)
