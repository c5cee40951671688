-- ===== src/Index/Search/Ranking.antt =====
-- Descending lists of numbers, and the scores of all the nodes of a graph.
use Prim.Native.String.{String}
use text.Mathlib.Text.{◌==◌ as str_eq}
use text.Mathlib.TextEquality.{eq_iff}
use vector_store.Prelude.{
  KeysOnce, ℕ, ◌+◌, ◌*◌, ◌≤◌, ◌≡◌, refl, sym, ap, ap₂, ◌∙◌, inl, inr, arith, Bool-cases, List, [],
  ◌∷◌, length, some, none, some-injective, map, lookup, if◌then◌else◌, ltb, str_eq_self,
}
use vector_store.Index.{Candidate}
use vector_store.Index.Heap.Items.{total, All, All-map}
use vector_store.Index.Search.Names.{count}

-- No number is greater than one before it.
abbrev pub Falling : List ℕ → Type 0
Falling [] = Unit {0}
Falling (x ∷ xs) = All (λ y. y ≤ x) xs × Falling xs

abbrev above : ℕ → ℕ → ℕ
above x n = if ltb x n then 1 else 0

none_above : (x : ℕ) (xs : List ℕ) → All (λ y. y ≤ x) xs → total (above x) xs ≡ 0
none_above x [] h = refl
none_above x (y ∷ xs) h = ground (arith, none_above x xs h.1)

not_less :
    (x y : ℕ) (xs ys : List ℕ)
    → All (λ z. z ≤ x) xs
    → total (above x) (x ∷ xs) ≡ total (above x) (y ∷ ys)
    → y ≤ x
not_less x y xs ys low same = ground (arith, none_above x xs low)

-- A falling list is known by how often its entries occur.
pub Falling-unique :
    (xs ys : List ℕ) → Falling xs → Falling ys → ((w : ℕ → ℕ) → total w xs ≡ total w ys) → xs ≡ ys
Falling-unique [] [] f f' same = refl
Falling-unique [] (y ∷ ys) f f' same = absurd (omega (arith, same (λ _. 1)))
Falling-unique (x ∷ xs) [] f f' same = absurd (omega (arith, same (λ _. 1)))
Falling-unique (x ∷ xs) (y ∷ ys) f f' same =
    let heads : x ≡ y = omega (
      arith,
      not_less x y xs ys f.0 (same (above x)),
      not_less y x ys xs f'.0 (sym (same (above y))),
    ) in
    ap₂ ◌∷◌ heads (Falling-unique xs ys f.1 f'.1 λ w. omega (arith, same w, ap w heads))

pub total-map :
    {A B : Type 0} (f : A → B) (w : B → ℕ) (xs : List A)
    → total w (map f xs) ≡ total (λ x. w (f x)) xs
total-map f w [] = refl
total-map f w (x ∷ xs) = omega (arith, total-map f w xs)

module _ {V : Type 0} where
  KeysOnce-lookup : (m : List (String × V)) → KeysOnce m → All (λ e. lookup e.0 m ≡ some e.1) m
  unfolding lookup
  KeysOnce-lookup [] h = tt
  KeysOnce-lookup ((k, v) ∷ m) h = (
    rw (str_eq_self k) refl,
    All-map m
        (λ e found. elim (Bool-cases (str_eq k e.0)) [
          | inr other ↦ rw other found
          | inl same ↦ (let gone : lookup e.0 m ≡ none = rw (← (eq_iff k e.0).0 same) h.0 in cc)
        ])
        (KeysOnce-lookup m h.1),
  )

module _ {S V : Type 0} (weight : V → ℕ) where
  -- The weights of the entries, as often as their keys occur.
  abbrev spread : List (String × V) → List (Candidate S) → ℕ
  spread [] out = 0
  spread ((k, v) ∷ m) out = count k out * weight v + spread m out

  spread-nil :
      (m : List (String × V)) (out : List (Candidate S)) → length out ≡ 0 → spread m out ≡ 0
  spread-nil m (c ∷ out) h = absurd (omega arith)
  spread-nil [] [] h = refl
  spread-nil ((k, v) ∷ m) [] h = omega (arith, spread-nil m [] refl)

  spread-other :
      (m : List (String × V)) (c : Candidate S) (out : List (Candidate S))
      → lookup c.id m ≡ none
      → spread m (c ∷ out) ≡ spread m out
  unfolding lookup
  spread-other [] c out h = refl
  spread-other ((k, v) ∷ m) c out h = elim (Bool-cases (str_eq k c.id)) [
    | inl same ↦ (let found = rw same at h in cc)
    | inr other ↦
        let rest : lookup c.id m ≡ none = rw other at h in
        rw (other, spread-other m c out rest) (omega arith)
  ]

  spread-found :
      (m : List (String × V)) (c : Candidate S) (out : List (Candidate S)) (v : V)
      → KeysOnce m
      → lookup c.id m ≡ some v
      → spread m (c ∷ out) ≡ weight v + spread m out
  unfolding lookup
  spread-found [] c out v once h = cc
  spread-found ((k, v') ∷ m) c out v once h = elim (Bool-cases (str_eq k c.id)) [
    | inl same ↦
        let is_v : some v' ≡ some v = rw same at h in
        let gone : lookup c.id m ≡ none = rw (← (eq_iff k c.id).0 same) once.0 in
        rw (same, spread-other m c out gone, ← some-injective v' v is_v) (omega arith)
    | inr other ↦
        let rest : lookup c.id m ≡ some v = rw other at h in
        rw (other, spread-found m c out v once.1 rest) (omega arith)
  ]

  spread-out :
      (m : List (String × V)) (out : List (Candidate S)) (value : Candidate S → ℕ)
      → KeysOnce m
      → All (λ c. (v : V) × (lookup c.id m ≡ some v) × (value c ≡ weight v)) out
      → spread m out ≡ total value out
  spread-out m [] value once found = spread-nil m [] refl
  spread-out m (c ∷ out) value once found =
      let (v, there, is_v) = found.0 in
      omega (arith, spread-found m c out v once there, spread-out m out value once found.1, is_v)

  spread-each :
      (m : List (String × V)) (out : List (Candidate S))
      → All (λ e. count e.0 out ≡ 1) m
      → spread m out ≡ total (λ e. weight e.1) m
  spread-each [] out h = refl
  spread-each ((k, v) ∷ m) out h = rw (h.0, spread-each m out h.1) (omega arith)

  -- Where every key occurs once, and every candidate is an entry of the map with its weight, the
  -- weights of the candidates are those of the map.
  pub total-entries :
      (m : List (String × V)) (out : List (Candidate S)) (value : Candidate S → ℕ)
      → KeysOnce m
      → All (λ c. (v : V) × (lookup c.id m ≡ some v) × (value c ≡ weight v)) out
      → ((k : String) (v : V) → lookup k m ≡ some v → count k out ≡ 1)
      → total value out ≡ total (λ e. weight e.1) m
  total-entries m out value once found each =
      sym (spread-out m out value once found)
      ∙ spread-each m out (All-map m (λ e h. each e.0 e.1 h) (KeysOnce-lookup m once))
