-- ===== src/Index/Heap/Up.antt =====
-- heap.Push: one entry climbs to its place.
use vector_store.Prelude.{
  ℕ, zero, suc, ◌+◌, ◌≤◌, ◌<◌, ◌≡◌, ◌≢◌, refl, inl, inr, arith, Bool, Bool-cases, List, [], ◌∷◌,
  ◌++◌, length, length-append, ltb, ok, Run,
}
use vector_store.Index.Heap.{parent, up_loop, push}
use vector_store.Index.Heap.Items.{Same, Same-refl, Same-trans, get_or-append, swapped}
use vector_store.Index.Heap.Order.{
  length-swapped, get_or-swapped, swapped-Same, at, IsHeap, less_at-ok, swap_at-ok,
}

module _ {A : Type 0} (less : A → A → Bool) (key : A → ℕ)
    (by_key : (x y : A) → less x y ≡ ltb (key x) (key y)) (d : A) where
  -- Only the entry at j may be less than its parent; its children are no less than that parent.
  record Climbs (h : List A) (j : ℕ) : Type 0 where
    inside : j < length h
    others :
        (c : ℕ)
        → 0 < c
        → c < length h
        → c ≢ j
        → at less key by_key d h (parent c) ≤ at less key by_key d h c
    over :
        (c : ℕ)
        → 0 < c
        → c < length h
        → parent c ≡ j
        → 0 < j
        → at less key by_key d h (parent j) ≤ at less key by_key d h c

  Climbs-swapped :
      (h : List A) (j : ℕ)
      → Climbs h j
      → 0 < j
      → at less key by_key d h j < at less key by_key d h (parent j)
      → Climbs (swapped h (parent j) j d) (parent j)
  Climbs-swapped h j v pos less_than =
      grind (arith, length-swapped h (parent j) j d, get_or-swapped h (parent j) j d)

  -- The heap after the operation: in order, with the entries of before.
  abbrev pub Settled : List A → Run (List A) → Type 1
  Settled h r = (h' : List A) × (r ≡ ok h') × IsHeap less key by_key d h' × Same h h'

  up_loop-Settled :
      (fuel : ℕ) (h : List A) (j : ℕ) → j < fuel → Climbs h j → Settled h (up_loop less fuel h j)
  unfolding up_loop
  up_loop-Settled zero h j f v = elim f [ ]
  up_loop-Settled (suc fuel) h j f v = elim (Bool-cases (ltb 0 j)) [
    | inr root ↦ (h, rw root refl, λ c p q. v.others c p q (ground arith), Same-refl h)
    | inl pos ↦
        let above : parent j < length h = omega (arith, v.inside) in
        let compared = less_at-ok less key by_key d h j (parent j) v.inside above in
        elim (Bool-cases (ltb (at less key by_key d h j) (at less key by_key d h (parent j)))) [
          | inr settled ↦ (
            h,
            rw (pos, compared, settled) refl,
            λ c p q. ground (arith, v.others c p q),
            Same-refl h,
          )
          | inl rises ↦
              let (h', ran, order, same) =
                up_loop-Settled fuel (swapped h (parent j) j d) (parent j) (ground arith)
                  (Climbs-swapped h j v (ground arith) (ground arith)) in
              (
                h',
                rw
                    (
                      pos,
                      compared,
                      rises,
                      swap_at-ok less key by_key d h (parent j) j above v.inside,
                    )
                    ran,
                order,
                Same-trans h (swapped h (parent j) j d) h'
                    (swapped-Same h (parent j) j d above v.inside) same,
              )
        ]
  ]

  last-Climbs : (h : List A) (x : A) → IsHeap less key by_key d h → Climbs (h ++ x ∷ []) (length h)
  last-Climbs h x order =
      let size = length-append h (x ∷ []) in
      record {
        inside = omega (arith, size);
        others = λ c p q other.
            let below : c < length h = omega (arith, size) in
            let above : parent c < length h = omega (arith) in
            rw (get_or-append h (x ∷ []) c d below, get_or-append h (x ∷ []) (parent c) d above)
              (order c p below);
        over = λ c p q is pos. absurd (omega (arith, size));
      }

  pub push-Settled :
      (h : List A) (x : A) → IsHeap less key by_key d h → Settled (h ++ x ∷ []) (push less h x)
  unfolding push
  push-Settled h x order =
      up_loop-Settled (length h + 1) (h ++ x ∷ []) (length h) (omega arith) (last-Climbs h x order)
