-- ===== src/Index/Search/Exact.antt =====
-- A search with room for all that it reaches is exhaustive.
use Prim.Native.String.{String}
use text.Mathlib.Text.{◌==◌ as str_eq}
use vector_store.Prelude.{
  ℕ, ◌+◌, ◌≤◌, ◌<◌, ◌≡◌, inl, inr, arith, Bool, Bool-cases, List, [], ◌∷◌, length, some, ok, lookup,
}
use vector_store.Index.{Candidate, Node, HnswGraph}
use vector_store.Index.Heap.Items.{All, All-map}
use vector_store.Index.Search.{search_layer}
use vector_store.Index.Search.Names.{count, count-All}
use vector_store.Index.Search.Invariant.{Ranked, Reaches, here, link, IsFound}
use vector_store.Index.Search.Drain.{Descending}
use vector_store.Index.Search.Result.{IsBeam, search_layer-IsBeam}

module _ {S V : Type 0} where
  -- How often the keys occur.
  abbrev occurs : List (String × V) → List (Candidate S) → ℕ
  occurs [] out = 0
  occurs ((k, n) ∷ m) out = count k out + occurs m out

  occurs-later :
      (m : List (String × V)) (c : Candidate S) (out : List (Candidate S))
      → occurs m out ≤ occurs m (c ∷ out)
  occurs-later [] c out = omega arith
  occurs-later ((k, n) ∷ m) c out = omega (arith, occurs-later m c out)

  occurs-found :
      (m : List (String × V)) (c : Candidate S) (out : List (Candidate S)) (n : V)
      → lookup c.id m ≡ some n
      → occurs m out < occurs m (c ∷ out)
  unfolding lookup
  occurs-found [] c out n h = cc
  occurs-found ((k, n') ∷ m) c out n h = elim (Bool-cases (str_eq k c.id)) [
    | inl e ↦ ground (arith, occurs-later m c out)
    | inr e ↦ ground (arith, occurs-found m c out n (rw e at h))
  ]

  length-occurs :
      (m : List (String × V)) (out : List (Candidate S))
      → All (λ c. (n : V) × (lookup c.id m ≡ some n)) out
      → length out ≤ occurs m out
  length-occurs m [] h = omega arith
  length-occurs m (c ∷ out) h =
      omega (arith, occurs-found m c out h.0.0 h.0.1, length-occurs m out h.1)

  occurs-length :
      (m : List (String × V)) (out : List (Candidate S))
      → ((id : String) → count id out ≤ 1)
      → occurs m out ≤ length m
  occurs-length [] out h = omega arith
  occurs-length ((k, n) ∷ m) out h = omega (arith, h k, occurs-length m out h)

module _ {F S : Type 0} (similarity : List F → List F → S) (below : S → S → Bool)
    (ranks : Ranked below) (g : HnswGraph F) (query : List F) (ef layer : ℕ) (ep : String) where
  -- A beam holds no more candidates than there are nodes.
  pub beam_fits :
      (n : Node F) (out : List (Candidate S))
      → IsBeam similarity below ranks g query ef layer ep n out
      → length out ≤ length g.nodes
  beam_fits n out b = omega (
    arith,
    length-occurs g.nodes out (All-map out (λ c f. (f.node, f.stored)) b.found),
    occurs-length g.nodes out b.distinct,
  )

  pub beam_complete :
      (n : Node F) (out : List (Candidate S))
      → lookup ep g.nodes ≡ some n
      → IsBeam similarity below ranks g query ef layer ep n out
      → length out < ef
      → (id : String) (m : Node F) → Reaches g layer ep id
      → lookup id g.nodes ≡ some m
      → 1 ≤ count id out
  beam_complete n out l b room id m here h = elim b.entry [
    | inl among ↦ among
    | inr full ↦ absurd (omega (arith, full.0))
  ]
  beam_complete n out l b room id m (link a _ k reached la mb) h =
      let (c, e, near) = count-All _ a out (beam_complete n out l b room a k reached la) b.closed in
      elim (near k m id (rw (← e) la) mb h) [
        | inl among ↦ among
        | inr full ↦ absurd (omega (arith, full.0))
      ]

  -- In order, the stored nodes that the links lead to, each once and with its score, and all of
  -- them.
  pub record IsExhaustive (out : List (Candidate S)) : Type 0 where
    pub order : Descending below ranks out
    pub found : All (IsFound similarity below ranks g query ef layer ep) out
    pub once :
        (id : String) (m : Node F)
        → Reaches g layer ep id
        → lookup id g.nodes ≡ some m
        → count id out ≡ 1

  -- Where scores compare like numbers, and with an ef greater than the number of nodes, searchLayer
  -- from an entry point that is there
  -- returns all stored nodes that the layer's links lead to from it, each once and with its score,
  -- in descending order of score.
  pub search_layer-IsExhaustive :
      (n : Node F)
      → length g.nodes < ef
      → lookup ep g.nodes ≡ some n
      → (out : List (Candidate S)) × (search_layer similarity below g query ef layer ep ≡ ok out)
        × IsExhaustive out
  search_layer-IsExhaustive n room l =
      let (out, ran, b) =
        search_layer-IsBeam similarity below ranks g query ef layer ep n (omega arith) l in
      let fits = beam_fits n out b in
      (
        out,
        ran,
        record {
          order = b.order;
          found = b.found;
          once = λ id m reached h.
              omega (arith, beam_complete n out l b (omega arith) id m reached h, b.distinct id);
        },
      )
