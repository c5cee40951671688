-- ===== src/Index/Heap/Down.antt =====
-- heap.Pop's second half: one entry sinks to its place.
use vector_store.Prelude.{
  ℕ, zero, suc, ◌+◌, ◌-◌, ◌*◌, ◌≤◌, ◌<◌, ◌≡◌, ◌≢◌, refl, ◌⊎◌, inl, inr, arith, Bool, Bool-cases,
  List, length, ltb, ok,
}
use vector_store.Index.Heap.{parent, lesser_child, down_loop}
use vector_store.Index.Heap.Items.{Same-refl, Same-trans, swapped}
use vector_store.Index.Heap.Order.{
  length-swapped, get_or-swapped, swapped-Same, at, less_at-ok, swap_at-ok,
}
use vector_store.Index.Heap.Up.{Settled}

module _ {A : Type 0} (less : A → A → Bool) (key : A → ℕ)
    (by_key : (x y : A) → less x y ≡ ltb (key x) (key y)) (d : A) where
  -- Only the children of i may be less than it; they are no less than its parent.
  pub record Sinks (h : List A) (i : ℕ) : Type 0 where
    pub others :
        (c : ℕ)
        → 0 < c
        → c < length h
        → parent c ≢ i
        → at less key by_key d h (parent c) ≤ at less key by_key d h c
    pub over :
        (c : ℕ)
        → 0 < c
        → c < length h
        → parent c ≡ i
        → 0 < i
        → at less key by_key d h (parent i) ≤ at less key by_key d h c

  record IsLesserChild (h : List A) (i m : ℕ) : Type 0 where
    inside : m < length h
    side : (m ≡ suc (2 * i)) ⊎ (m ≡ suc (suc (2 * i)))
    least :
        (c : ℕ)
        → 0 < c
        → c < length h
        → parent c ≡ i
        → at less key by_key d h m ≤ at less key by_key d h c

  lesser_child-IsLesserChild :
      (h : List A) (i : ℕ)
      → 2 * i + 1 < length h
      → (m : ℕ) × (lesser_child less h i ≡ ok m) × IsLesserChild h i m
  unfolding lesser_child
  lesser_child-IsLesserChild h i left = elim (Bool-cases (ltb (2 * i + 1 + 1) (length h))) [
    | inr alone ↦ (
      2 * i + 1,
      rw alone refl,
      record { inside = left; side = inl (omega arith); least = λ c p q e. grind arith },
    )
    | inl both ↦
        let compared =
          less_at-ok less key by_key d h (2 * i + 1 + 1) (2 * i + 1) (ground arith) left in
        elim (Bool-cases
          (ltb (at less key by_key d h (2 * i + 1 + 1)) (at less key by_key d h (2 * i + 1)))) [
            | inl right ↦ (
              2 * i + 1 + 1,
              rw (both, compared, right) refl,
              record {
                inside = ground arith;
                side = inr (omega arith);
                least = λ c p q e. grind arith;
              },
            )
            | inr first ↦ (
              2 * i + 1,
              rw (both, compared, first) refl,
              record { inside = left; side = inl (omega arith); least = λ c p q e. grind arith },
            )
          ]
  ]

  Sinks-swapped :
      (h : List A) (i m : ℕ)
      → Sinks h i
      → IsLesserChild h i m
      → at less key by_key d h m < at less key by_key d h i
      → Sinks (swapped h i m d) m
  Sinks-swapped h i m v s below =
      let size = length-swapped h i m d in
      let entry = get_or-swapped h i m d (omega (arith, s.inside, s.side)) s.inside in
      record {
        others =
            λ c p q r. ground (arith, entry c, entry (parent c), v.others c, v.over m, s.least c);
        over = λ c p q r t. ground (arith, entry c, entry (parent m), v.others c);
      }

  pub down_loop-Settled :
      (fuel : ℕ) (h : List A) (i : ℕ)
      → length h - i < fuel
      → Sinks h i
      → Settled less key by_key d h (down_loop less fuel h i)
  unfolding down_loop
  down_loop-Settled zero h i f v = elim f [ ]
  down_loop-Settled (suc fuel) h i f v = elim (Bool-cases (ltb (2 * i + 1) (length h))) [
    | inr leaf ↦ (h, rw leaf refl, λ c p q. ground (arith, v.others c), Same-refl h)
    | inl left ↦
        let (m, chosen, s) = lesser_child-IsLesserChild h i (ground arith) in
        let here : i < length h = ground arith in
        let compared = less_at-ok less key by_key d h m i s.inside here in
        elim (Bool-cases (ltb (at less key by_key d h m) (at less key by_key d h i))) [
          | inr settled ↦ (
            h,
            rw (left, chosen, compared, settled) refl,
            λ c p q. ground (arith, v.others c, s.least c),
            Same-refl h,
          )
          | inl below ↦
              let (h', ran, order, same) =
                down_loop-Settled fuel (swapped h i m d) m
                  (omega (arith, length-swapped h i m d, s.inside, s.side))
                  (Sinks-swapped h i m v s (ground arith)) in
              (
                h',
                rw (left, chosen, compared, below, swap_at-ok less key by_key d h i m here s.inside)
                    ran,
                order,
                Same-trans h (swapped h i m d) h' (swapped-Same h i m d here s.inside) same,
              )
        ]
  ]
