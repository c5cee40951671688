-- ===== src/Ring/Nodes.antt =====
-- AddNode and RemoveNode: the ring stays consistent, and only the keys concerned change their node.
use Prim.Native.String.{String}
use vector_store.Prelude.{
  ℕ, ◌≡◌, ◌⊎◌, inl, inr, ◌↔◌, false, arith, List, some, none, Bool-cases, if◌then◌else◌, ℤ,
}
use vector_store.Ring.{
  HashRing, new_hash_ring, lookup, contains, points_of, add_points, add_node, remove_node,
}
use vector_store.Ring.Sorting.{
  Has, IsSorted, Has-sort, sort-IsSorted, contains-Has, remove_all-IsSorted, Has-remove_all,
}
use vector_store.Ring.Points.{Has-add_points, lookup-add_points, lookup-delete_all}

-- The points are sorted, and are those that the map has a node for.
pub record IsConsistent (r : HashRing) : Type 0 where
  pub sorted : IsSorted r.sorted_hashes
  pub mapped : (p : ℕ) → Has p r.sorted_hashes → (a : String) × (lookup p r.hash_to_node ≡ some a)
  pub listed : (p : ℕ) (a : String) → lookup p r.hash_to_node ≡ some a → Has p r.sorted_hashes

-- A new ring is consistent.
pub new_hash_ring-IsConsistent : (n : ℤ) → IsConsistent (new_hash_ring n)
unfolding new_hash_ring lookup
new_hash_ring-IsConsistent n = record {
  sorted = tt;
  mapped = λ p h. absurd h;
  listed = λ p a h. cc;
}

module _ (point : String → ℕ → ℕ) (r : HashRing) (address : String) where
  abbrev pub own_points : List ℕ
  own_points = points_of point r.virtual_nodes 0 address

  pub Has-add_node :
      (p : ℕ)
      → Has p (add_node point r address).sorted_hashes ↔ (Has p r.sorted_hashes ⊎ Has p own_points)
  unfolding add_node
  Has-add_node p = ground (
    arith,
    Has-sort p (add_points point r.virtual_nodes 0 address r).sorted_hashes,
    Has-add_points point p r.virtual_nodes 0 address r,
  )

  pub lookup-add_node :
      (p : ℕ)
      → lookup p (add_node point r address).hash_to_node
        ≡ (if contains p own_points then some address else lookup p r.hash_to_node)
  unfolding add_node
  lookup-add_node p = lookup-add_points point p r.virtual_nodes 0 address r

  -- AddNode keeps the ring consistent.
  pub add_node-IsConsistent : IsConsistent r → IsConsistent (add_node point r address)
  add_node-IsConsistent c = record {
    sorted =
        unfold add_node in
        sort-IsSorted (add_points point r.virtual_nodes 0 address r).sorted_hashes;
    mapped = λ p h. elim (Bool-cases (contains p own_points)) [
      | inl own ↦ (address, rw (lookup-add_node p, own))
      | inr other ↦
          let (a, found) = c.mapped p (ground (arith, Has-add_node p, contains-Has p own_points)) in
          (a, rw (lookup-add_node p, other) found)
    ];
    listed = λ p a h. elim (Bool-cases (contains p own_points)) [
      | inl own ↦ (Has-add_node p).1 (inr ((contains-Has p own_points).0 own))
      | inr other ↦ (Has-add_node p).1 (inl (c.listed p a (rw (lookup-add_node p, other) at h)))
    ];
  }

  pub Has-remove_node :
      (p : ℕ)
      → Has p (remove_node point r address).sorted_hashes
        ↔ (Has p r.sorted_hashes × (contains p own_points ≡ false))
  unfolding remove_node
  Has-remove_node p = Has-remove_all p own_points r.sorted_hashes

  pub lookup-remove_node :
      (p : ℕ)
      → lookup p (remove_node point r address).hash_to_node
        ≡ (if contains p own_points then none else lookup p r.hash_to_node)
  unfolding remove_node
  lookup-remove_node p = lookup-delete_all own_points p r.hash_to_node

  -- RemoveNode keeps the ring consistent.
  pub remove_node-IsConsistent : IsConsistent r → IsConsistent (remove_node point r address)
  remove_node-IsConsistent c = record {
    sorted = unfold remove_node in remove_all-IsSorted own_points r.sorted_hashes c.sorted;
    mapped = λ p h.
        let (old, other) = (Has-remove_node p).0 h in
        let (a, found) = c.mapped p old in (a, rw (lookup-remove_node p, other) found);
    listed = λ p a h. elim (Bool-cases (contains p own_points)) [
      | inl own ↦ (let bad = rw (lookup-remove_node p, own) at h in cc)
      | inr other ↦
          (Has-remove_node p).1 (c.listed p a (rw (lookup-remove_node p, other) at h), other)
    ];
  }

-- The rings that calls of NewHashRing, AddNode and RemoveNode lead to.
pub data Built (point : String → ℕ → ℕ) (virtual_nodes : ℤ) : HashRing → Type 0 where
  fresh : Built point virtual_nodes (new_hash_ring virtual_nodes)
  added :
      {r : HashRing}
      → Built point virtual_nodes r
      → (address : String) → Built point virtual_nodes (add_node point r address)
  removed :
      {r : HashRing}
      → Built point virtual_nodes r
      → (address : String) → Built point virtual_nodes (remove_node point r address)

-- Whatever nodes were added and removed, in any order and also more than once: the points of the
-- ring are sorted, and they are those that the map has a node for.
pub Built-IsConsistent :
    (point : String → ℕ → ℕ) (virtual_nodes : ℤ) (r : HashRing)
    → Built point virtual_nodes r
    → IsConsistent r
Built-IsConsistent point n r fresh = new_hash_ring-IsConsistent n
Built-IsConsistent point n r (added {r = old} built address) =
    add_node-IsConsistent point old address (Built-IsConsistent point n old built)
Built-IsConsistent point n r (removed {r = old} built address) =
    remove_node-IsConsistent point old address (Built-IsConsistent point n old built)
