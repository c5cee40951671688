-- ===== src/Ring/Points.antt =====
-- The points and the map after AddNode and RemoveNode.
use Prim.Native.String.{String}
use vector_store.Prelude.{
  ℕ, zero, suc, ◌≡◌, refl, ◌⊎◌, ◌↔◌, arith, ◌==◌, List, [], ◌∷◌, ◌++◌, some, none, if◌then◌else◌,
}
use vector_store.Ring.{
  HashRing, lookup, delete, insert, contains, points_of, add_points, delete_all,
}
use vector_store.Ring.Sorting.{Has, Has-append}

module _ {V : Type 0} where
  lookup-delete :
      (k j : ℕ) (m : List (ℕ × V)) → lookup j (delete k m) ≡ (if k == j then none else lookup j m)
  unfolding lookup delete
  lookup-delete k j [] = ground arith
  lookup-delete k j ((i, v) ∷ m) = ground (arith, lookup-delete k j m)

  lookup-insert :
      (k j : ℕ) (v : V) (m : List (ℕ × V))
      → lookup j (insert k v m) ≡ (if k == j then some v else lookup j m)
  unfolding lookup
  lookup-insert k j v m = ground (arith, lookup-delete k j m)

pub lookup-delete_all :
    (hs : List ℕ) (j : ℕ) (m : List (ℕ × String))
    → lookup j (delete_all hs m) ≡ (if contains j hs then none else lookup j m)
unfolding delete_all contains
lookup-delete_all [] j m = refl
lookup-delete_all (h ∷ hs) j m =
    ground (arith, lookup-delete_all hs j (delete h m), lookup-delete h j m)

module _ (point : String → ℕ → ℕ) where
  pub Has-add_points :
      (p n i : ℕ) (a : String) (r : HashRing)
      → Has p (add_points point n i a r).sorted_hashes
        ↔ (Has p r.sorted_hashes ⊎ Has p (points_of point n i a))
  unfolding add_points points_of
  Has-add_points p zero i a r = ground arith
  Has-add_points p (suc n) i a r =
      let r' = record r {
        sorted_hashes = r.sorted_hashes ++ point a i ∷ [];
        hash_to_node = insert (point a i) a r.hash_to_node;
      } in
      ground (arith, Has-add_points p n (suc i) a r', Has-append p r.sorted_hashes (point a i ∷ []))

  pub lookup-add_points :
      (p n i : ℕ) (a : String) (r : HashRing)
      → lookup p (add_points point n i a r).hash_to_node
        ≡ (if contains p (points_of point n i a) then some a else lookup p r.hash_to_node)
  unfolding add_points points_of contains
  lookup-add_points p zero i a r = refl
  lookup-add_points p (suc n) i a r =
      let r' = record r {
        sorted_hashes = r.sorted_hashes ++ point a i ∷ [];
        hash_to_node = insert (point a i) a r.hash_to_node;
      } in
      ground
        (arith, lookup-add_points p n (suc i) a r', lookup-insert (point a i) p a r.hash_to_node)
