-- ===== src/Index/Search/Drain.antt =====
-- The results heap is drained into a slice in descending order.
use vector_store.Prelude.{
  ℕ, zero, suc, ◌+◌, ◌≤◌, ◌≡◌, refl, arith, Bool, List, [], ◌∷◌, length, ok, Run,
}
use vector_store.Index.{Candidate}
use vector_store.Index.Heap.Items.{total, All, All-map}
use vector_store.Index.Heap.Queue.{pop-Popped, total-one}
use vector_store.Index.Search.{drain, worse}
use vector_store.Index.Search.Invariant.{Ranked, value, worse-value, WorstFirst}

module _ {S : Type 0} (below : S → S → Bool) (ranks : Ranked below) where
  -- No candidate is better than one before it.
  abbrev pub Descending : List (Candidate S) → Type 0
  Descending [] = Unit {0}
  Descending (c ∷ cs) = All (λ y. value below ranks y ≤ value below ranks c) cs × Descending cs

  -- The slice is in order and holds what the heap and the slice before held.
  pub record Drained (h out : List (Candidate S)) (r : Run (List (Candidate S))) : Type 1 where
    pub slice : List (Candidate S)
    pub ran : r ≡ ok slice
    pub order : Descending slice
    pub totals : (w : Candidate S → ℕ) → total w slice ≡ total w h + total w out
    pub keeps : (P : Candidate S → Type 0) → All P h → All P out → All P slice

  module _ (d : Candidate S) where
    pub drain-Drained :
        (n : ℕ) (h out : List (Candidate S))
        → length h ≡ n
        → WorstFirst below ranks d h
        → Descending out
        → All (λ o. All (λ x. value below ranks o ≤ value below ranks x) h) out
        → Drained h out (drain below n h out)
    unfolding drain
    drain-Drained zero [] out size order desc above = record {
      slice = out;
      ran = refl;
      order = desc;
      totals = λ w. omega arith;
      keeps = λ P p q. q;
    }
    drain-Drained zero (x ∷ h) out size order desc above = absurd (omega arith)
    drain-Drained (suc n) h out size order desc above =
        let p =
          pop-Popped (worse below) (value below ranks) (worse-value below ranks) d h n size order in
        let left : length p.rest ≡ n =
          omega (arith, p.totals (λ _. 1), total-one h, total-one p.rest) in
        let first = All-map out (λ o a. (p.keeps _ a).0) above in
        let r =
          drain-Drained n p.rest (p.top ∷ out) left p.order (first, desc)
            (p.least, All-map out (λ o a. (p.keeps _ a).1) above) in
        record {
          slice = r.slice;
          ran = rw p.ran r.ran;
          order = r.order;
          totals = λ w. omega (arith, p.totals w, r.totals w);
          keeps = λ P a b. r.keeps P (p.keeps P a).1 ((p.keeps P a).0, b);
        }
