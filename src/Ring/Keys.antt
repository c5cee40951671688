-- ===== src/Ring/Keys.antt =====
-- GetResponsibleNode, and what a change of the ring does to the nodes of the keys.
use Prim.Native.String.{String}
use vector_store.Prelude.{
  ℕ, ◌<◌, ◌≡◌, sym, ◌∙◌, ◌⊎◌, inl, inr, false, arith, List, ◌==◌, length, some, none, Bool-cases,
}
use vector_store.Ring.{
  HashRing, lookup, contains, add_node, remove_node, owner_point, get_responsible_node,
}
use vector_store.Ring.Sorting.{Has, contains-Has}
use vector_store.Ring.Routing.{IsOwner, owner_point-IsOwner, IsOwner-unique, IsOwner-fewer, Has-pos}
use vector_store.Ring.Nodes.{
  IsConsistent, own_points, Has-add_node, lookup-add_node, add_node-IsConsistent, Has-remove_node,
  lookup-remove_node, remove_node-IsConsistent,
}

-- The node of the key is `a`, by the owner of its hash.
pub record Routed (checksum : String → ℕ) (r : HashRing) (key a : String) : Type 0 where
  pub point : ℕ
  pub owner : IsOwner r.sorted_hashes (checksum key) point
  pub node : lookup point r.hash_to_node ≡ some a
  pub answer : get_responsible_node checksum r key ≡ a

nonempty-test : (n : ℕ) → 0 < n → (n == 0) ≡ false
nonempty-test n h = ground arith

answer_of :
    (checksum : String → ℕ) (r : HashRing) (key : String) (p : ℕ) (a : String)
    → 0 < length r.sorted_hashes
    → owner_point r.sorted_hashes (checksum key) ≡ some p
    → lookup p r.hash_to_node ≡ some a
    → get_responsible_node checksum r key ≡ a
unfolding get_responsible_node
answer_of checksum r key p a h found node =
    simp (nonempty-test (length r.sorted_hashes) h, found, node)

-- On a consistent ring with points, GetResponsibleNode gives the node of the first ring point
-- clockwise from the key's hash.
pub get_responsible_node-Routed :
    (checksum : String → ℕ) (r : HashRing) (key : String)
    → IsConsistent r
    → 0 < length r.sorted_hashes
    → (a : String) × Routed checksum r key a
get_responsible_node-Routed checksum r key c h =
    let (p, found, owner) = owner_point-IsOwner r.sorted_hashes (checksum key) c.sorted h in
    let (a, node) = c.mapped p owner.0 in
    (
      a,
      record {
        point = p;
        owner = owner;
        node = node;
        answer = answer_of checksum r key p a h found node;
      },
    )

module _ (checksum : String → ℕ) (point : String → ℕ → ℕ) (r : HashRing)
    (address key : String) where
  abbrev own : List ℕ
  own = own_points point r address

  moved :
      (a b : String)
      → Routed checksum r key a
      → Routed checksum (add_node point r address) key b
      → (b ≡ address) ⊎ (b ≡ a)
  moved a b old new =
      let q = new.point in
      let grown = add_node point r address in
      let named = lookup-add_node point r address q in
      elim (Bool-cases (contains q own)) [
        | inl mine ↦ let named' = rw mine at named in inl (cc new.node)
        | inr other ↦
            let still : Has q r.sorted_hashes =
              ground (arith, Has-add_node point r address q, new.owner.0, contains-Has q own) in
            let restricted =
              IsOwner-fewer r.sorted_hashes grown.sorted_hashes (checksum key) q
                (λ p has. (Has-add_node point r address p).1 (inl has)) still new.owner in
            let same =
              IsOwner-unique r.sorted_hashes (checksum key) q old.point restricted old.owner in
            let named' = rw other at named in inr (cc (new.node, old.node))
      ]

  -- AddNode moves keys to the new node only: on a consistent ring with points, every key has the
  -- new node or the one it had.
  pub add_node-moves_to_new :
      IsConsistent r
      → 0 < length r.sorted_hashes
      → (get_responsible_node checksum (add_node point r address) key ≡ address)
        ⊎ (get_responsible_node checksum (add_node point r address) key
            ≡ get_responsible_node checksum r key)
  add_node-moves_to_new c h =
      let (a, old) = get_responsible_node-Routed checksum r key c h in
      let grown = add_node point r address in
      let has_old = (Has-add_node point r address old.point).1 (inl old.owner.0) in
      let (b, new) =
        get_responsible_node-Routed checksum grown key (add_node-IsConsistent point r address c)
          (Has-pos old.point grown.sorted_hashes has_old) in
      elim (moved a b old new) [
        | inl e ↦ inl (new.answer ∙ e)
        | inr e ↦ inr (new.answer ∙ e ∙ sym old.answer)
      ]

  kept :
      (a b : String) (old : Routed checksum r key a)
      → contains old.point own ≡ false
      → Routed checksum (remove_node point r address) key b
      → b ≡ a
  kept a b old stays new =
      let p = old.point in
      let cut = remove_node point r address in
      let still = (Has-remove_node point r address p).1 (old.owner.0, stays) in
      let restricted =
        IsOwner-fewer cut.sorted_hashes r.sorted_hashes (checksum key) p
          (λ q has. ((Has-remove_node point r address q).0 has).0) still old.owner in
      let same = IsOwner-unique cut.sorted_hashes (checksum key) p new.point restricted new.owner in
      let named = rw stays at (lookup-remove_node point r address p) in cc (new.node, old.node)

  -- RemoveNode leaves the other keys where they are: on a consistent ring, a key whose ring point
  -- is none of the removed node's points keeps its node.
  pub remove_node-keeps :
      (a : String)
      → IsConsistent r
      → (old : Routed checksum r key a) → contains old.point own ≡ false
      → get_responsible_node checksum (remove_node point r address) key ≡ a
  remove_node-keeps a c old stays =
      let cut = remove_node point r address in
      let still = (Has-remove_node point r address old.point).1 (old.owner.0, stays) in
      let (b, new) =
        get_responsible_node-Routed checksum cut key (remove_node-IsConsistent point r address c)
          (Has-pos old.point cut.sorted_hashes still) in
      new.answer ∙ kept a b old stays new

-- RemoveNode takes every point of the node's points off the ring, also one that the map gives to
-- another node because of equal hashes.
pub remove_node-takes_shared :
    (point : String → ℕ → ℕ) (r : HashRing) (address other : String) (p : ℕ)
    → Has p (own_points point r address)
    → lookup p r.hash_to_node ≡ some other
    → (lookup p (remove_node point r address).hash_to_node ≡ none)
      × (¬ Has p (remove_node point r address).sorted_hashes)
remove_node-takes_shared point r address other p mine theirs =
    let listed = (contains-Has p (own_points point r address)).1 mine in
    (
      rw (lookup-remove_node point r address p, listed),
      λ h. let (_, off) = (Has-remove_node point r address p).0 h in cc,
    )
