-- ===== src/Index/Insert/Refines.antt =====
-- A sequence of insertions, as the applier makes them, against the map that it builds.
use Prim.Native.String.{String}
use text.Mathlib.Text.{◌==◌ as str_eq}
use text.Mathlib.TextEquality.{eq_iff}
use vector_store.Prelude.{
  ℕ, ◌≡◌, refl, ap, ◌∙◌, ◌⊎◌, inl, inr, Bool, false, Bool-cases, Option-cases, Option, List, [],
  ◌∷◌, length, some, none, ok, Run, lookup, if◌then◌else◌, ◌>>=◌, pos,
}
use vector_store.Index.{Candidate, Node, HnswGraph}
use vector_store.Index.Links.{OnlySorts}
use vector_store.Index.Search.{search}
use vector_store.Index.Search.Invariant.{Ranked}
use vector_store.Index.Search.Answer.{IsAnswer, search-IsAnswer}
use vector_store.Index.Insert.{insert}
use vector_store.Index.Insert.Keeping.{IsIndex, Inserted}
use vector_store.Index.Insert.Inserting.{insert-IsIndex}

-- One call of Insert, with the level that assignLevel drew.
pub record Insertion (F : Type 0) : Type 0 where
  pub id : String
  pub vector : List F
  pub level : ℕ

abbrev stored_vector : {F : Type 0} → Option (Node F) → Option (List F)
stored_vector none = none
stored_vector (some n) = some n.vector

-- The vector that the graph has under the name.
abbrev pub vector_of : {F : Type 0} → String → HnswGraph F → Option (List F)
vector_of x g = stored_vector (lookup x g.nodes)

-- The vector inserted last under the name, or the one before them all.
abbrev pub latest : {F : Type 0} → String → List (Insertion F) → Option (List F) → Option (List F)
latest x [] v = v
latest x (c ∷ cs) v = latest x cs (if str_eq c.id x then some c.vector else v)

abbrev pub AllNamed : {F : Type 0} → List (Insertion F) → Type 0
AllNamed [] = Unit {0}
AllNamed (c ∷ cs) = (str_eq c.id "" ≡ false) × AllNamed cs

module _ {F S : Type 0} (similarity : List F → List F → S) (below : S → S → Bool) where
  -- The answer on an index: none on an empty one, and else the best of a beam.
  abbrev pub Answers :
      (ranks : Ranked below) → HnswGraph F → List F → ℕ → List (Candidate S) → Type 0
  Answers ranks g query k out =
      ((length g.nodes ≡ 0) × (out ≡ []))
      ⊎ ((n : Node F) × (lookup g.entry_point g.nodes ≡ some n)
          × IsAnswer similarity below ranks g query n k out)

  pub search-Answers :
      (ranks : Ranked below) (g : HnswGraph F) (query : List F) (k : ℕ)
      → IsIndex g
      → (out : List (Candidate S)) × (search similarity below g query (pos k) ≡ ok out)
        × Answers ranks g query k out
  unfolding search
  search-Answers ranks g query k i = elim i.entry [
    | inl (empty, unnamed) ↦ ([], rw unnamed refl, inl (empty, refl))
    | inr (named, (n, there)) ↦
        let (out, ran, answer) =
          search-IsAnswer similarity below ranks g query n k i.some_ef_search named there in
        (out, ran, inr (n, there, answer))
  ]

module _ {F S : Type 0} (similarity : List F → List F → S) (below : S → S → Bool)
    (sort_descending : List (Candidate S) → List (Candidate S)) where
  unfoldable pub insert_all : List (Insertion F) → HnswGraph F → Run (HnswGraph F)
  insert_all [] g = ok g
  insert_all (c ∷ cs) g =
      insert similarity below sort_descending c.id c.vector g c.level >>= λ g'. insert_all cs g'

  module _ (ranks : Ranked below) (sorts : OnlySorts sort_descending) where
    pub vector_of-Inserted :
        (g g' : HnswGraph F) (c : Insertion F) (x : String)
        → Inserted g c.id c.vector c.level g'
        → vector_of x g' ≡ (if str_eq c.id x then some c.vector else vector_of x g)
    vector_of-Inserted g g' c x i = elim (Bool-cases (str_eq c.id x)) [
      | inl same ↦
          let (n, there, _, is, _) = i.added in
          let found : lookup x g'.nodes ≡ some n = rw (← (eq_iff c.id x).0 same) there in
          rw same (ap stored_vector found ∙ ap some is)
      | inr other ↦ elim (Option-cases (lookup x g.nodes)) [
        | inl gone ↦ rw (other, gone) (ap stored_vector (i.adds_none_else x other gone))
        | inr (n, there) ↦
            let (n', there', _, is, _) = i.keeps x n other there in
            rw (other, there) (ap stored_vector there' ∙ ap some is)
      ]
    ]

    -- Where scores compare like numbers, and the sort of links names no one else: insertions under
    -- names that are not empty, on a graph that keeps the invariant, succeed
    -- whatever the levels are, the graph after them keeps the invariant, and it holds under each
    -- name the vector inserted last, or the one from before.
    pub insert_all-Refines :
        (cs : List (Insertion F)) (g : HnswGraph F)
        → IsIndex g
        → AllNamed cs
        → (g' : HnswGraph F) × (insert_all cs g ≡ ok g')
          × IsIndex g'
          × ((x : String) → vector_of x g' ≡ latest x cs (vector_of x g))
    unfolding insert_all
    insert_all-Refines [] g i named = (g, refl, i, λ x. refl)
    insert_all-Refines (c ∷ cs) g i named =
        let (g', ran, i', added) =
          insert-IsIndex similarity below ranks sort_descending sorts g c.id c.vector c.level i
            named.0 in
        let (g'', ran', i'', all) = insert_all-Refines cs g' i' named.1 in
        (g'', rw ran ran', i'', λ x. rw (← vector_of-Inserted g g' c x added) (all x))
