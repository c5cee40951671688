-- ===== src/Ring/Examples.antt =====
-- A ring of two nodes with two points each, and instances of the theorems on it.
use Prim.Native.String.{String}
use text.Mathlib.Text.{◌==◌ as str_eq}
use vector_store.Prelude.{
  ℕ, ◌+◌, ◌*◌, ◌<◌, ◌≡◌, refl, ◌⊎◌, inl, inr, false, arith, [], ◌∷◌, length, some, none,
  if◌then◌else◌, pos,
}
use vector_store.Ring.{
  HashRing, new_hash_ring, add_node, remove_node, get_responsible_node, lookup, delete, nodes,
  contains, points_of,
}
use vector_store.Ring.Sorting.{Has}
use vector_store.Ring.Nodes.{
  IsConsistent, new_hash_ring-IsConsistent, add_node-IsConsistent, fresh, added, removed,
  Built-IsConsistent, own_points,
}
use vector_store.Ring.Keys.{
  Routed, get_responsible_node-Routed, add_node-moves_to_new, remove_node-keeps,
  remove_node-takes_shared,
}

-- Node "a" has the points 5 and 15, node "b" has 0 and 10, and "c" shares 15 with "a".
abbrev place : String → ℕ → ℕ
place name i =
    if str_eq name "a" then 10 * i + 5 else if str_eq name "b" then 10 * i else 15 + 20 * i

abbrev key_at : ℕ → String → ℕ
key_at h key = h

abbrev ring_a : HashRing
ring_a = add_node place (new_hash_ring (pos 2)) "a"

abbrev ring_ab : HashRing
ring_ab = add_node place ring_a "b"

points_ab : ring_ab.sorted_hashes ≡ 0 ∷ 5 ∷ 10 ∷ 15 ∷ []
unfolding add_node new_hash_ring
points_ab = refl

nodes_ab : nodes ring_ab ≡ "a" ∷ "b" ∷ []
unfolding add_node new_hash_ring delete nodes
nodes_ab = refl

route_ab :
    (get_responsible_node (key_at 7) ring_ab "k" ≡ "b")
    × (get_responsible_node (key_at 12) ring_ab "k" ≡ "a")
    × (get_responsible_node (key_at 99) ring_ab "k" ≡ "b")
unfolding add_node new_hash_ring delete get_responsible_node
route_ab = (refl, refl, refl)

ring_a-IsConsistent : IsConsistent ring_a
ring_a-IsConsistent =
    add_node-IsConsistent place (new_hash_ring (pos 2)) "a" (new_hash_ring-IsConsistent (pos 2))

ring_ab-IsConsistent : IsConsistent ring_ab
ring_ab-IsConsistent = add_node-IsConsistent place ring_a "b" ring_a-IsConsistent

ring_a-pos : 0 < length ring_a.sorted_hashes
unfolding add_node new_hash_ring
ring_a-pos = omega arith

-- "a" and "b" are added, "a" once more, and "b" is removed.
Built-IsConsistent_example : IsConsistent (remove_node place (add_node place ring_ab "a") "b")
Built-IsConsistent_example =
    Built-IsConsistent place (pos 2) (remove_node place (add_node place ring_ab "a") "b")
      (removed (added (added (added fresh "a") "b") "a") "b")

get_responsible_node-Routed_example : (a : String) × Routed (key_at 7) ring_a "k" a
get_responsible_node-Routed_example =
    get_responsible_node-Routed (key_at 7) ring_a "k" ring_a-IsConsistent ring_a-pos

add_node-moves_to_new_example :
    (get_responsible_node (key_at 7) (add_node place ring_a "b") "k" ≡ "b")
    ⊎ (get_responsible_node (key_at 7) (add_node place ring_a "b") "k"
        ≡ get_responsible_node (key_at 7) ring_a "k")
add_node-moves_to_new_example =
    add_node-moves_to_new (key_at 7) place ring_a "b" "k" ring_a-IsConsistent ring_a-pos

-- The key of hash 12 belongs to the point 15 of "a", and "b" goes.
at_15 : Routed (key_at 12) ring_ab "k" "a"
unfolding add_node new_hash_ring delete get_responsible_node
at_15 = record {
  point = 15;
  owner = (inr (inr (inr (inl refl))), inl (omega arith, λ q has le. ground arith));
  node = refl;
  answer = refl;
}

at_15_stays : contains 15 (own_points place ring_ab "b") ≡ false
unfolding add_node new_hash_ring contains points_of
at_15_stays = refl

remove_node-keeps_example :
    get_responsible_node (key_at 12) (remove_node place ring_ab "b") "k" ≡ "a"
unfolding at_15
remove_node-keeps_example =
    remove_node-keeps (key_at 12) place ring_ab "b" "k" "a" ring_ab-IsConsistent at_15 at_15_stays

shared_15 : Has 15 (own_points place ring_ab "c")
unfolding add_node new_hash_ring points_of
shared_15 = inl refl

owned_15 : lookup 15 ring_ab.hash_to_node ≡ some "a"
unfolding add_node new_hash_ring delete lookup
owned_15 = refl

remove_node-takes_shared_example :
    (lookup 15 (remove_node place ring_ab "c").hash_to_node ≡ none)
    × (¬ Has 15 (remove_node place ring_ab "c").sorted_hashes)
remove_node-takes_shared_example =
    remove_node-takes_shared place ring_ab "c" "a" 15 shared_15 owned_15
