-- ===== src/Index/Heap/Order.antt =====
-- The heap order by a key, and the two primitive operations where they do not panic.
use vector_store.Prelude.{
  ℕ, zero, suc, ◌≤◌, ◌<◌, ◌≡◌, refl, ◌∙◌, arith, Bool, List, length, length-set, set, ltb,
  if◌then◌else◌, ok, ◌==◌, true,
}
use vector_store.Index.Heap.{parent, less_at, swap_at}
use vector_store.Index.Heap.Items.{
  All-set, All-get_or, get_or, get_elem?-get_or, get_or-set, total-set, Same, swapped,
}

pub length-swapped :
    {A : Type 0} (h : List A) (i j : ℕ) (d : A) → length (swapped h i j d) ≡ length h
length-swapped h i j d =
    length-set (set h i (get_or h j d)) j (get_or h i d) ∙ length-set h i (get_or h j d)

module _ {A : Type 0} (h : List A) (i j : ℕ) (d : A) (hi : i < length h) (hj : j < length h) where
  pub get_or-swapped :
      (c : ℕ)
      → get_or (swapped h i j d) c d
        ≡ (if j == c then get_or h i d else if i == c then get_or h j d else get_or h c d)
  get_or-swapped c =
      rw
        (
          get_or-set (set h i (get_or h j d)) j c (get_or h i d) d
              (rw (length-set h i (get_or h j d)) hj),
          get_or-set h i c (get_or h j d) d hi,
        )
        refl

  pub swapped-Same : Same h (swapped h i j d)
  swapped-Same = record {
    totals = λ w.
        let a = total-set w h i (get_or h j d) d hi in
        let b =
          total-set w (set h i (get_or h j d)) j (get_or h i d) d
            (rw (length-set h i (get_or h j d)) hj) in
        let kept : get_or (set h i (get_or h j d)) j d ≡ get_or h j d =
          ground (arith, get_or-set h i j (get_or h j d) d hi) in
        let b' = rw kept at b in omega (arith, a, b');
    keeps = λ P p.
        All-set P (set h i (get_or h j d)) j (get_or h i d) (All-get_or P h i d hi p)
          (All-set P h i (get_or h j d) (All-get_or P h j d hj p) p);
  }

module _ {A : Type 0} (less : A → A → Bool) (key : A → ℕ)
    (by_key : (x y : A) → less x y ≡ ltb (key x) (key y)) where
  -- The key of the entry at i.
  abbrev pub at : A → List A → ℕ → ℕ
  at d h i = key (get_or h i d)

  -- No entry but the root is less than its parent.
  abbrev pub IsHeap : A → List A → Type 0
  IsHeap d h = (c : ℕ) → 0 < c → c < length h → at d h (parent c) ≤ at d h c

  pub less_at-ok :
      (d : A) (h : List A) (i j : ℕ)
      → i < length h
      → j < length h
      → less_at less h i j ≡ ok (ltb (at d h i) (at d h j))
  unfolding less_at
  less_at-ok d h i j hi hj = rw (get_elem?-get_or h i d hi, get_elem?-get_or h j d hj, by_key) refl

  pub swap_at-ok :
      (d : A) (h : List A) (i j : ℕ)
      → i < length h
      → j < length h
      → swap_at less h i j ≡ ok (swapped h i j d)
  unfolding swap_at
  swap_at-ok d h i j hi hj =
      let a : ltb i (length h) ≡ true = ground arith in
      let b : ltb j (length (set h i (get_or h j d))) ≡ true =
        rw (length-set h i (get_or h j d)) (ground arith) in
      rw (get_elem?-get_or h i d hi, get_elem?-get_or h j d hj, a, b) refl

  least_below :
      (n : ℕ) (d : A) (h : List A) (i : ℕ) → IsHeap d h → i < n → i < length h → at d h 0 ≤ at d h i
  least_below zero d h i p l k = elim l [ ]
  least_below (suc n) d h zero p l k = omega arith
  least_below (suc n) d h (suc i) p l k =
      let up : at d h 0 ≤ at d h (parent (suc i)) =
        least_below n d h (parent (suc i)) p (omega arith) (omega arith) in
      omega (arith, up, p (suc i) (omega arith) k)

  -- The root of a heap is a least entry.
  pub root_least : (d : A) (h : List A) (i : ℕ) → IsHeap d h → i < length h → at d h 0 ≤ at d h i
  root_least d h i p k = least_below (suc i) d h i p (omega arith) k
