-- ===== src/Index/WellLinked.antt =====
-- The invariant of the links: their number, their layers, and the nodes that they name.
use Prim.Native.String.{String}
use text.Mathlib.Text.{◌==◌ as str_eq}
use vector_store.Prelude.{
  ℕ, suc, ◌≤◌, ◌<◌, ◌≡◌, refl, sym, ◌∙◌, ◌⊎◌, inl, inr, false, arith, List, [], ◌∷◌, set, some,
  Option-cases, Bool-cases, subst, ltb, length, length-set, get_elem?, get_elem?-some,
  get_elem?-set_self, get_elem?-set_ne, lt-length_of_some, ℕ_discrete, ok, lookup, lookup-insert,
}
use vector_store.Index.{
  Candidate, Node, HnswGraph, max_links_at_layer, score_links, collect_links, add_back_connection,
  put_node,
}
use vector_store.Index.Links.{Names, ids, OnlySorts, Wired, wire_back-Wired}

-- A node of this name is in the graph.
abbrev pub Stores : {F : Type 0} → HnswGraph F → String → Type 0
Stores {F} g x = (n : Node F) × (lookup x g.nodes ≡ some n)

-- A node has one list for each of its layers, none longer than the layer's limit, and all of nodes
-- of the graph.
pub record IsLinked {F : Type 0} (g : HnswGraph F) (n : Node F) : Type 0 where
  pub layers : length n.neighbors ≡ suc n.max_layer
  pub bounded :
      (lc : ℕ) (links : List String)
      → get_elem? n.neighbors lc ≡ some links
      → length links ≤ max_links_at_layer g lc
  pub stored :
      (lc : ℕ) (links : List String) (x : String)
      → get_elem? n.neighbors lc ≡ some links
      → Names x links
      → Stores g x

abbrev pub WellLinked : {F : Type 0} → HnswGraph F → Type 0
WellLinked {F} g = (id : String) (n : Node F) → lookup id g.nodes ≡ some n → IsLinked g n

Stores-put_node :
    {F : Type 0} (g : HnswGraph F) (id x : String) (n : Node F)
    → Stores g x
    → Stores (put_node g id n) x
Stores-put_node g id x n (y, h) = elim (Bool-cases (str_eq id x)) [
  | inl here ↦ (n, rw (lookup-insert id x n g.nodes, here) refl)
  | inr other ↦ (y, rw (lookup-insert id x n g.nodes, other) h)
]

IsLinked-put_node :
    {F : Type 0} (g : HnswGraph F) (id : String) (n k : Node F)
    → IsLinked g k
    → IsLinked (put_node g id n) k
IsLinked-put_node g id n k l = record {
  layers = l.layers;
  bounded = λ lc links h. l.bounded lc links h;
  stored = λ lc links x h m. Stores-put_node g id x n (l.stored lc links x h m);
}

pub WellLinked-put_node :
    {F : Type 0} (g : HnswGraph F) (id : String) (n : Node F)
    → WellLinked g
    → IsLinked g n
    → WellLinked (put_node g id n)
WellLinked-put_node g id n w l k m h = elim (Bool-cases (str_eq id k)) [
  | inl here ↦
      let found : some n ≡ some m = rw (lookup-insert id k n g.nodes, here) at h in
      let same : n ≡ m = cc in
      subst (IsLinked (put_node g id n)) same (IsLinked-put_node g id n n l)
  | inr other ↦
      let found : lookup k g.nodes ≡ some m = rw (lookup-insert id k n g.nodes, other) at h in
      IsLinked-put_node g id n m (w k m found)
]

get_elem?-of_set :
    (xs : List (List String)) (lc i : ℕ) (v y : List String)
    → lc < length xs
    → get_elem? (set xs lc v) i ≡ some y
    → ((lc ≡ i) × (v ≡ y)) ⊎ (get_elem? xs i ≡ some y)
get_elem?-of_set xs lc i v y inside h = elim (ℕ_discrete lc i) [
  | yes same ↦
      let at_lc = get_elem?-set_self xs lc v inside in
      let there : get_elem? (set xs lc v) lc ≡ some y = rw (← same) at h in inl (same, cc)
  | no other ↦ inr (sym (get_elem?-set_ne xs lc i v other) ∙ h)
]

module _ {F S : Type 0} (similarity : List F → List F → S)
    (sort_descending : List (Candidate S) → List (Candidate S))
    (sorts : OnlySorts sort_descending) where
  pub score_links-Stores :
      (g : HnswGraph F) (nbr : Node F) (links : List String) (x : String)
      → Names x (ids (score_links similarity sort_descending g nbr links))
      → Stores g x
  unfolding score_links Names
  score_links-Stores g nbr [] x h = elim h [ ]
  score_links-Stores g nbr (e ∷ es) x h = elim (Option-cases (lookup e g.nodes)) [
    | inl gone ↦
        let e_out : score_links similarity sort_descending g nbr (e ∷ es)
            ≡ score_links similarity sort_descending g nbr es =
          rw (score_links, gone) refl in
        let rest = rw e_out at h in score_links-Stores g nbr es x rest
    | inr (en, there) ↦
        let e_in : score_links similarity sort_descending g nbr (e ∷ es)
            ≡ record { id = e; score = similarity nbr.vector en.vector }
              ∷ score_links similarity sort_descending g nbr es =
          rw (score_links, there) refl in
        let kept = rw e_in at h in
        elim kept [ inl is ↦ (en, rw is there) | inr rest ↦ score_links-Stores g nbr es x rest ]
  ]

  pub Wired-IsLinked :
      (g : HnswGraph F) (nbr nbr' : Node F) (new_id : String) (lc : ℕ) (links : List String)
      (cs : List (Candidate S))
      → IsLinked g nbr
      → get_elem? nbr.neighbors lc ≡ some links
      → Stores g new_id
      → ((x : String) → Names x (ids cs) → Stores g x)
      → Wired nbr new_id lc (max_links_at_layer g lc) links cs nbr'
      → IsLinked g nbr'
  Wired-IsLinked g nbr nbr' new_id lc links cs l found new known w = rw w.changes (record {
    layers = length-set nbr.neighbors lc w.links' ∙ l.layers;
    bounded = λ i ls h. elim (get_elem?-of_set nbr.neighbors lc i w.links' ls inside h) [
      | inl (here, new_list) ↦ rw (← here, ← new_list) w.bounded
      | inr old_list ↦ l.bounded i ls old_list
    ];
    stored = λ i ls x h m. elim (get_elem?-of_set nbr.neighbors lc i w.links' ls inside h) [
      | inl (here, new_list) ↦ elim (w.drawn x (rw new_list m)) [
        | inl old ↦ l.stored lc links x found old
        | inr (inl is_new) ↦ rw is_new new
        | inr (inr scored) ↦ known x scored
      ]
      | inr old_list ↦ l.stored i ls x old_list m
    ];
  })
    where
      inside : lc < length nbr.neighbors
      inside = lt-length_of_some nbr.neighbors lc links found

  -- The case of a neighbour that has the layer.
  wired-WellLinked :
      (g : HnswGraph F) (nbr : Node F) (nbr_id new_id : String) (new_vec : List F) (lc : ℕ)
      (links : List String)
      → WellLinked g
      → Stores g new_id
      → lookup nbr_id g.nodes ≡ some nbr
      → ltb nbr.max_layer lc ≡ false
      → get_elem? nbr.neighbors lc ≡ some links
      → (g' : HnswGraph F) × (add_back_connection similarity sort_descending g nbr_id new_id new_vec
            lc
          ≡ ok g')
        × WellLinked g'
  unfolding Names add_back_connection collect_links
  wired-WellLinked g nbr nbr_id new_id new_vec lc links w new there low found =
      let all : List (Candidate S) =
        record { id = new_id; score = similarity nbr.vector new_vec }
        ∷ score_links similarity sort_descending g nbr links in
      let (nbr', ran, wired) =
        wire_back-Wired similarity sort_descending sorts nbr new_id lc (max_links_at_layer g lc)
          links all found in
      let known : (x : String) → Names x (ids all) → Stores g x =
        λ x h. elim h [ inl is ↦ rw is new | inr rest ↦ score_links-Stores g nbr links x rest ] in
      (
        put_node g nbr_id nbr',
        rw (add_back_connection, there, low, collect_links, found, ran) refl,
        WellLinked-put_node g nbr_id nbr' w (
            Wired-IsLinked g nbr nbr' new_id lc links all (w nbr_id nbr there) found new known
              wired),
      )

  -- addBackConnection of a stored node keeps the graph well linked: it succeeds, each node has a
  -- list for every one of its layers, no list is longer than its layer's limit, and every link
  -- names a node of the graph.
  pub add_back_connection-WellLinked :
      (g : HnswGraph F) (nbr_id new_id : String) (new_vec : List F) (lc : ℕ)
      → WellLinked g
      → Stores g new_id
      → (g' : HnswGraph F) × (add_back_connection similarity sort_descending g nbr_id new_id new_vec
            lc
          ≡ ok g')
        × WellLinked g'
  unfolding add_back_connection
  add_back_connection-WellLinked g nbr_id new_id new_vec lc w new =
      elim (Option-cases (lookup nbr_id g.nodes)) [
        | inl gone ↦ (g, rw (add_back_connection, gone) refl, w)
        | inr (nbr, there) ↦ elim (Bool-cases (ltb nbr.max_layer lc)) [
          | inl high ↦ (g, rw (add_back_connection, there, high) refl, w)
          | inr low ↦
              let l = w nbr_id nbr there in
              let (links, found) = get_elem?-some nbr.neighbors lc (ground (arith, l.layers)) in
              wired-WellLinked g nbr nbr_id new_id new_vec lc links w new there low found
        ]
      ]
