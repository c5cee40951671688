-- ===== src/Prelude/Families.antt =====
-- A family over the numbers with one entry changed.
use Prim.Native.Nat.{ℕ}
use mathlib.Core.Path.{◌≡◌, refl, sym, ◌∙◌}
use mathlib.Core.Logic.{◌≢◌, ◌⊎◌, inl, inr}
use mathlib.Core.Option.{Option, some}
use native.Mathlib.Decide.{ℕ_discrete}
use vector_store.Prelude.Tests.{◌==◌, ==_iff, Bool-cases, if◌then◌else◌}

unfoldable pub update {ℓ} : {A : Type ℓ} → (ℕ → A) → ℕ → A → ℕ → A
update f k v j = if j == k then v else f j

pub update_at {ℓ} : {A : Type ℓ} (f : ℕ → A) (k : ℕ) (v : A) → update f k v k ≡ v
unfolding update
update_at f k v = rw ((==_iff k k).1 refl) refl

pub update_other {ℓ} : {A : Type ℓ} (f : ℕ → A) (k j : ℕ) (v : A) → j ≢ k → update f k v j ≡ f j
unfolding update
update_other f k j v h = elim (Bool-cases (j == k)) [
  | inl same ↦ absurd (h ((==_iff j k).0 same))
  | inr other ↦ rw other refl
]

pub update-some {ℓ} :
    {A : Type ℓ} (f : ℕ → Option A) (k : ℕ) (v : A) (i : ℕ) (w : A)
    → update f k (some v) i ≡ some w
    → ((i ≡ k) × (v ≡ w)) ⊎ ((i ≢ k) × (f i ≡ some w))
update-some f k v i w h = elim (ℕ_discrete i k) [
  | yes e ↦ let same : some v ≡ some w = sym (update_at f k (some v)) ∙ (rw e at h) in inl (e, (cc))
  | no ne ↦ inr (ne, sym (update_other f k i (some v) ne) ∙ h)
]
