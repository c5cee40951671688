-- ===== src/Ring.antt =====
-- internal/sharding/hashring.go: the consistent-hashing ring. The read-write lock makes each method
-- one step. CRC-32 of a key, and of a virtual point's name "<address>-<i>", are parameters: nothing
-- below depends on the values that they give.
pub mod Search
pub mod Sorting
pub mod Points
pub mod Routing
pub mod Nodes
pub mod Keys
mod Examples
use Prim.Native.String.{String}
use text.Mathlib.Text.{◌==◌ as str_eq}
use vector_store.Prelude.{
  ℕ, zero, suc, ◌+◌, ◌/◌, Bool, true, false, ◌||◌, List, [], ◌∷◌, ◌++◌, Option, none, some, ltb,
  leb, ◌==◌, if◌then◌else◌, length, mem_str, get_elem?, ℤ, pos, pos_part, leb_ℤ,
}

-- A Go map as an association list: the first pair of a key counts.
module _ {V : Type 0} where
  unfoldable pub lookup : ℕ → List (ℕ × V) → Option V
  lookup k [] = none
  lookup k ((j, v) ∷ m) = if j == k then some v else lookup k m

  unfoldable pub delete : ℕ → List (ℕ × V) → List (ℕ × V)
  delete k [] = []
  delete k ((j, v) ∷ m) = if j == k then delete k m else (j, v) ∷ delete k m

  abbrev pub insert : ℕ → V → List (ℕ × V) → List (ℕ × V)
  insert k v m = (k, v) ∷ delete k m

pub record HashRing : Type 0 where
  pub sorted_hashes : List ℕ
  pub hash_to_node : List (ℕ × String)
  pub virtual_nodes : ℕ

abbrev pub default_virtual_nodes : ℕ
default_virtual_nodes = 150

unfoldable pub new_hash_ring : ℤ → HashRing
new_hash_ring virtual_nodes = record {
  sorted_hashes = [];
  hash_to_node = [];
  virtual_nodes =
      if leb_ℤ virtual_nodes (pos 0) then default_virtual_nodes else pos_part virtual_nodes;
}

-- sort.Slice by <: equal hashes cannot be told apart, so every sort gives this list.
unfoldable pub insert_sorted : ℕ → List ℕ → List ℕ
insert_sorted h [] = h ∷ []
insert_sorted h (x ∷ xs) = if leb h x then h ∷ x ∷ xs else x ∷ insert_sorted h xs

unfoldable pub sort : List ℕ → List ℕ
unfolding insert_sorted
sort [] = []
sort (x ∷ xs) = insert_sorted x (sort xs)

-- sort.Search: i and j close in on the first index at which f holds; `fuel` bounds the rounds.
unfoldable pub search_loop : ℕ → (ℕ → Bool) → ℕ → ℕ → ℕ
search_loop zero f i j = i
search_loop (suc fuel) f i j =
    let h = (i + j) / 2 in
    let right = search_loop fuel f (h + 1) j in
    let left = search_loop fuel f i h in if ltb i j then (if f h then left else right) else i

unfoldable pub sort_search : ℕ → (ℕ → Bool) → ℕ
unfolding search_loop
sort_search n f = search_loop (n + 1) f 0 n

-- `hashes[i] >= h`; sort.Search asks below the length only.
abbrev pub at_least : List ℕ → ℕ → ℕ → Bool
at_least hashes h i = elim (get_elem? hashes i) [ none ↦ false | some x ↦ leb h x ]

-- a `toRemove[h]` test
unfoldable pub contains : ℕ → List ℕ → Bool
contains h [] = false
contains h (x ∷ xs) = (x == h) || contains h xs

unfoldable pub remove_all : List ℕ → List ℕ → List ℕ
unfolding contains
remove_all dead [] = []
remove_all dead (x ∷ xs) = if contains x dead then remove_all dead xs else x ∷ remove_all dead xs

-- The values of the map, each once. Go's order of iteration is arbitrary.
unfoldable pub distinct : List (ℕ × String) → List String → List String
unfolding mem_str
distinct [] seen = seen
distinct ((h, a) ∷ m) seen = distinct m (if mem_str a seen then seen else a ∷ seen)

unfoldable pub delete_all : List ℕ → List (ℕ × String) → List (ℕ × String)
unfolding delete
delete_all [] m = m
delete_all (h ∷ hs) m = delete_all hs (delete h m)

module _ (point : String → ℕ → ℕ) where
  -- for i < virtualNodes { append the point; hashToNode[h] = address }, from i on
  unfoldable pub add_points : ℕ → ℕ → String → HashRing → HashRing
  add_points zero i address r = r
  add_points (suc n) i address r =
      let h = point address i in
      add_points n (suc i) address (record r {
        sorted_hashes = r.sorted_hashes ++ h ∷ [];
        hash_to_node = insert h address r.hash_to_node;
      })

  unfoldable pub add_node : HashRing → String → HashRing
  unfolding add_points sort
  add_node r address =
      let r' = add_points r.virtual_nodes 0 address r in
      record r' { sorted_hashes = sort r'.sorted_hashes }

  -- The node's points, from i on.
  unfoldable pub points_of : ℕ → ℕ → String → List ℕ
  points_of zero i address = []
  points_of (suc n) i address = point address i ∷ points_of n (suc i) address

  unfoldable pub remove_node : HashRing → String → HashRing
  unfolding points_of delete_all remove_all
  remove_node r address =
      let dead = points_of r.virtual_nodes 0 address in
      record r {
        sorted_hashes = remove_all dead r.sorted_hashes;
        hash_to_node = delete_all dead r.hash_to_node;
      }

-- The ring point that owns a key of hash h, on a ring with points.
unfoldable pub owner_point : List ℕ → ℕ → Option ℕ
unfolding sort_search
owner_point hashes h =
    let idx = sort_search (length hashes) (at_least hashes h) in
    get_elem? hashes (if leb (length hashes) idx then 0 else idx)

-- A missing key of a Go map reads as "".
abbrev pub or_empty : Option String → String
or_empty none = ""
or_empty (some a) = a

unfoldable pub get_responsible_node : (String → ℕ) → HashRing → String → String
unfolding owner_point lookup
get_responsible_node checksum r vector_id =
    if length r.sorted_hashes == 0
    then ""
    else elim (owner_point r.sorted_hashes (checksum vector_id)) [
      | none ↦ ""
      | some p ↦ or_empty (lookup p r.hash_to_node)
    ]

unfoldable pub nodes : HashRing → List String
unfolding distinct
nodes r = distinct r.hash_to_node []
