-- ===== src/Index/Heap/Queue.antt =====
-- The two operations of container/heap as a client sees them: what a push leaves and what a pop
-- takes out.
use vector_store.Prelude.{
  ℕ, suc, ◌+◌, ◌-◌, ◌≤◌, ◌≡◌, refl, ◌∙◌, arith, Bool, List, [], ◌∷◌, length, length-take, take, ltb,
  ok, Run,
}
use vector_store.Index.Heap.{parent, push, pop}
use vector_store.Index.Heap.Items.{
  total, total-append, total-take, All, All-append, All-get_or, All-of_get_or, All-take, Same,
  get_or, get_elem?-get_or, get_or-take, swapped,
}
use vector_store.Index.Heap.Order.{
  length-swapped, get_or-swapped, swapped-Same, at, IsHeap, swap_at-ok, root_least,
}
use vector_store.Index.Heap.Up.{push-Settled}
use vector_store.Index.Heap.Down.{Sinks, down_loop-Settled}

pub total-one : {A : Type 0} (xs : List A) → total (λ _. 1) xs ≡ length xs
total-one [] = refl
total-one (x ∷ xs) = omega (arith, total-one xs)

module _ {A : Type 0} (less : A → A → Bool) (key : A → ℕ)
    (by_key : (x y : A) → less x y ≡ ltb (key x) (key y)) (d : A) where
  pub record Pushed (h : List A) (x : A) (r : Run (List A)) : Type 1 where
    pub heap : List A
    pub ran : r ≡ ok heap
    pub order : IsHeap less key by_key d heap
    pub totals : (w : A → ℕ) → total w heap ≡ total w h + w x
    pub keeps : (P : A → Type 0) → All P h → P x → All P heap

  pub record Popped (h : List A) (r : Run (A × List A)) : Type 1 where
    pub top : A
    pub rest : List A
    pub ran : r ≡ ok (top, rest)
    pub order : IsHeap less key by_key d rest
    pub totals : (w : A → ℕ) → total w h ≡ w top + total w rest
    pub keeps : (P : A → Type 0) → All P h → P top × All P rest
    pub least : All (λ y. key top ≤ key y) rest

  pub push-Pushed : (h : List A) (x : A) → IsHeap less key by_key d h → Pushed h x (push less h x)
  push-Pushed h x order =
      let (h', ran, order', same) = push-Settled less key by_key d h x order in
      record {
        heap = h';
        ran = ran;
        order = order';
        totals = λ w. omega (arith, same.totals w, total-append w h (x ∷ []));
        keeps = λ P p q. same.keeps P (All-append P h (x ∷ []) p (q, tt));
      }

  least_first :
      (h : List A) → IsHeap less key by_key d h → All (λ y. at less key by_key d h 0 ≤ key y) h
  least_first h order = All-of_get_or _ h d (λ i l. root_least less key by_key d h i order l)

  rest-Sinks :
      (h : List A) (n : ℕ)
      → length h ≡ suc n
      → IsHeap less key by_key d h
      → Sinks less key by_key d (take n (swapped h 0 n d)) 0
  rest-Sinks h n size order =
      let entry = get_or-swapped h 0 n d (omega arith) (omega arith) in
      let within = length-take n (swapped h 0 n d) in
      let below = λ (c : ℕ). get_or-take n (swapped h 0 n d) c d in
      record {
        others = λ c p q r.
            ground (arith, within, entry c, entry (parent c), below c, below (parent c), order c);
        over = λ c p q e r. absurd (omega arith);
      }

  -- Where keys order the entries, and none is less than its parent, pop of a heap that is not empty succeeds, takes out an
  -- entry that is no greater than any of the others, and leaves a heap of exactly the others.
  pub pop-Popped :
      (h : List A) (n : ℕ) → length h ≡ suc n → IsHeap less key by_key d h → Popped h (pop less h)
  unfolding pop
  pop-Popped h n size order =
      let moved = swapped h 0 n d in
      let same : Same h moved = swapped-Same h 0 n d (omega arith) (omega arith) in
      let long : length moved ≡ suc n = length-swapped h 0 n d ∙ size in
      let top = get_or h 0 d in
      let last : get_or moved n d ≡ top =
        ground (arith, get_or-swapped h 0 n d (omega arith) (omega arith) n) in
      let short : length (take n moved) ≡ n = omega (arith, length-take n moved) in
      let (rest, ran, order', sunk) =
        down_loop-Settled less key by_key d (n + 1) (take n moved) 0 (omega arith)
          (rest-Sinks h n size order) in
      let keeps : (P : A → Type 0) → All P h → P top × All P rest = λ P p.
        (All-get_or P h 0 d (omega arith) p, sunk.keeps P (All-take P n moved (same.keeps P p))) in
      let index : length h - 1 ≡ n = omega arith in
      record {
        top = top;
        rest = rest;
        ran =
            rw
              (
                index,
                swap_at-ok less key by_key d h 0 n (omega arith) (omega arith),
                get_elem?-get_or moved n d (omega arith),
                last,
                ran,
              )
              refl;
        order = order';
        totals = λ w.
            let a = rw last at (total-take w n moved d long) in
            omega (arith, a, same.totals w, sunk.totals w);
        keeps = keeps;
        least = (keeps _ (least_first h order)).1;
      }
