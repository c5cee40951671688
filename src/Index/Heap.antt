-- ===== src/Index/Heap.antt =====
-- container/heap as internal/vectorindex/hnsw.go uses it: the heap is the slice, and `less` is the
-- Less of explorerHeap or resultsHeap. What is of the two heaps themselves is their Less, Swap, Push,
-- which appends, and Pop, which cuts off the last entry; the loops are those of the standard library.
-- Fuel that runs out counts as a panic.
pub mod Items
pub mod Order
pub mod Up
pub mod Down
pub mod Queue
use vector_store.Prelude.{
  ℕ, zero, suc, ◌+◌, ◌-◌, ◌*◌, ◌/◌, Bool, List, [], ◌∷◌, ◌++◌, length, take, if◌then◌else◌, ltb,
  pos, Run, ok, panic, ◌>>=◌, load, store,
}

abbrev pub parent : ℕ → ℕ
parent c = (c - 1) / 2

module _ {A : Type 0} (less : A → A → Bool) where
  -- h.Less(i, j)
  unfoldable pub less_at : List A → ℕ → ℕ → Run Bool
  less_at h i j = do x ← load h (pos i); y ← load h (pos j); ok (less x y)

  -- h.Swap(i, j)
  unfoldable pub swap_at : List A → ℕ → ℕ → Run (List A)
  swap_at h i j = do
    x ← load h (pos i)
    y ← load h (pos j)
    h' ← store h (pos i) y
    store h' (pos j) x

  -- for { i := (j - 1) / 2; if i == j || !Less(j, i) { break }; Swap(i, j); j = i }
  unfoldable pub up_loop : ℕ → List A → ℕ → Run (List A)
  up_loop zero h j = panic
  up_loop (suc fuel) h j =
      let climb = swap_at h (parent j) j >>= λ h'. up_loop fuel h' (parent j) in
      let step = less_at h j (parent j) >>= λ above. if above then climb else ok h in
      if ltb 0 j then step else ok h

  -- Push: append(*h, x), then up from the last index
  unfoldable pub push : List A → A → Run (List A)
  push h x = up_loop (length h + 1) (h ++ x ∷ []) (length h)

  -- The child of i that is less, of one or two children.
  unfoldable pub lesser_child : List A → ℕ → Run ℕ
  lesser_child h i =
      let left = 2 * i + 1 in
      let both = less_at h (left + 1) left >>= λ right. ok (if right then left + 1 else left) in
      if ltb (left + 1) (length h) then both else ok left

  unfoldable pub down_loop : ℕ → List A → ℕ → Run (List A)
  down_loop zero h i = panic
  down_loop (suc fuel) h i =
      let step : Run (List A) = lesser_child h i >>= λ j. less_at h j i >>= λ below.
      (let sink = swap_at h i j >>= λ h'. down_loop fuel h' j in if below then sink else ok h) in
      if ltb (2 * i + 1) (length h) then step else ok h

  -- Pop: Swap(0, n) for the last index n, down(0, n) on what stands before n, and the last entry.
  unfoldable pub pop : List A → Run (A × List A)
  pop h =
      let n = length h - 1 in
      swap_at h 0 n >>= λ h'.
      load h' (pos n) >>= λ x. down_loop (n + 1) (take n h') 0 >>= λ rest. ok (x, rest)
