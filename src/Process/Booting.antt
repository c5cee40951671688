-- ===== src/Process/Booting.antt =====
-- What main starts: the ring knows the peers and no other node, and the parts keep their invariants.
use Prim.Native.String.{String}
use vector_store.Prelude.{
  ℕ, ◌<◌, ◌≡◌, refl, sym, ◌∙◌, ◌⊎◌, inl, inr, arith, Bool, true, Bool-cases, ◌||◌, List, [], ◌∷◌,
  none, some, some-injective, get_elem?, get_elem?-some, length, pos, pos_part, leb_ℤ, ltb_ℤ,
  mem_str, mem_str_self, mem_str_later,
}
use vector_store.Index.Insert.Keeping.{IsIndex, new_hnsw_graph-IsIndex}
use vector_store.Index.{new_hnsw_graph, default_m, default_ef_construction}
use vector_store.Ring.{
  HashRing, lookup, contains, new_hash_ring, add_node, get_responsible_node, points_of,
}
use vector_store.Ring.Sorting.{Has}
use vector_store.Ring.Routing.{Has-pos}
use vector_store.Ring.Nodes.{
  IsConsistent, new_hash_ring-IsConsistent, add_node-IsConsistent, Has-add_node, lookup-add_node,
  own_points,
}
use vector_store.Ring.Keys.{get_responsible_node-Routed}
use vector_store.Raft.Persistence.{Disk, StateCodec}
use vector_store.Process.{NodeConfig, Host, Process, add_peers, started, boot}

module _ (point : String → ℕ → ℕ) where
  -- Every point of the ring is that of a known node.
  record IsRingOf (known : List String) (r : HashRing) : Type 0 where
    consistent : IsConsistent r
    from_known : (p : ℕ) (a : String) → lookup p r.hash_to_node ≡ some a → mem_str a known ≡ true

  add_node-IsRingOf :
      (known : List String) (r : HashRing) (address : String)
      → IsRingOf known r
      → mem_str address known ≡ true
      → IsRingOf known (add_node point r address)
  add_node-IsRingOf known r address i m = record {
    consistent = add_node-IsConsistent point r address i.consistent;
    from_known = λ p a h. elim (Bool-cases (contains p (own_points point r address))) [
      | inl own ↦
          let new : some address ≡ some a =
            sym (rw (lookup-add_node point r address p, own) refl) ∙ h in
          rw (← some-injective address a new) m
      | inr other ↦
          let old : lookup p r.hash_to_node ≡ some a =
            sym (rw (lookup-add_node point r address p, other) refl) ∙ h in
          i.from_known p a old
    ];
  }

  add_peers-IsRingOf :
      (known ps : List String) (r : HashRing)
      → IsRingOf known r
      → ((a : String) → mem_str a ps ≡ true → mem_str a known ≡ true)
      → IsRingOf known (add_peers point ps r)
  unfolding add_peers
  add_peers-IsRingOf known [] r i all = i
  add_peers-IsRingOf known (p ∷ ps) r i all =
      add_peers-IsRingOf known ps (add_node point r p)
        (add_node-IsRingOf known r p i (all p (mem_str_self p ps)))
        (λ a m. all a (mem_str_later a p ps m))

  Has-add_peers :
      (ps : List String) (r : HashRing) (q : ℕ)
      → Has q r.sorted_hashes
      → Has q (add_peers point ps r).sorted_hashes
  unfolding add_peers
  Has-add_peers [] r q h = h
  Has-add_peers (p ∷ ps) r q h =
      Has-add_peers ps (add_node point r p) q ((Has-add_node point r p q).1 (inl h))

  first_point : (p : String) → Has (point p 0) (own_points point (new_hash_ring (pos 0)) p)
  unfolding new_hash_ring points_of
  first_point p = inl refl

  some_points :
      (ps : List String)
      → 0 < length ps
      → 0 < length (add_peers point ps (new_hash_ring (pos 0))).sorted_hashes
  unfolding add_peers
  some_points [] h = elim h [ ]
  some_points (p ∷ ps) h = Has-pos (point p 0) _ (
      Has-add_peers ps (add_node point (new_hash_ring (pos 0)) p) (point p 0)
        ((Has-add_node point (new_hash_ring (pos 0)) p (point p 0)).1 (inr (first_point p))))

  routed :
      (checksum : String → ℕ) (known : List String) (r : HashRing) (key : String)
      → IsRingOf known r
      → 0 < length r.sorted_hashes
      → mem_str (get_responsible_node checksum r key) known ≡ true
  routed checksum known r key i some_hashes =
      let (a, found) = get_responsible_node-Routed checksum r key i.consistent some_hashes in
      rw found.answer (i.from_known found.point a found.node)

  peers_ring :
      (peers : List String) → IsRingOf peers (add_peers point peers (new_hash_ring (pos 0)))
  unfolding new_hash_ring lookup
  peers_ring peers =
      add_peers-IsRingOf peers peers (new_hash_ring (pos 0))
        (record { consistent = new_hash_ring-IsConsistent (pos 0); from_known = λ p a h. cc })
        (λ a m. m)

-- A node that started: it is a peer, it routes every key to a peer, and its index, which is empty,
-- and its ring keep their invariants.
pub record IsStarted {F : Type 0} (checksum : String → ℕ) (cfg : NodeConfig) (p : Process F)
    : Type 0 where
  pub self_is_peer : get_elem? cfg.peers (pos_part cfg.id) ≡ some p.server.self
  pub routes_to_peers :
      (key : String) → mem_str (get_responsible_node checksum p.server.ring key) cfg.peers ≡ true
  pub ring : IsConsistent p.server.ring
  pub index : IsIndex p.graph
  pub empty : length p.graph.nodes ≡ 0

module _ {F : Type 0} (codec : StateCodec) (point : String → ℕ → ℕ) (checksum : String → ℕ) where
  -- main with a node id that is an index of the peers starts the node of that peer: every key is
  -- routed to one of the peers, the ring is consistent, and the index is empty and keeps its
  -- invariant. With any other id it starts none.
  pub boot-IsStarted :
      (host : Host) (cfg : NodeConfig) (dials : List Bool) (now : ℕ) (disk : Disk)
      → ((ltb_ℤ cfg.id (pos 0) || leb_ℤ (pos (length cfg.peers)) cfg.id ≡ true)
          × (boot {F = F} codec point host cfg dials now disk ≡ none))
        ⊎ ((n : ℕ) × (cfg.id ≡ pos n)
            × (n < length cfg.peers)
            × ((p : Process F) × (boot codec point host cfg dials now disk ≡ some p)
                × IsStarted checksum cfg p))
  unfolding boot new_hnsw_graph
  boot-IsStarted host cfg dials now disk =
      elim (Bool-cases (ltb_ℤ cfg.id (pos 0) || leb_ℤ (pos (length cfg.peers)) cfg.id)) [
        | inl out ↦ inl (out, rw out refl)
        | inr fine ↦
            let n = pos_part cfg.id in
            let within : n < length cfg.peers = ground arith in
            let (self, is_self) = get_elem?-some cfg.peers n within in
            inr (
              n,
              ground arith,
              within,
              (
                started codec point host cfg dials now disk self,
                rw (fine, is_self) refl,
                record {
                  self_is_peer = is_self;
                  routes_to_peers = λ key.
                      routed point checksum cfg.peers
                        (add_peers point cfg.peers (new_hash_ring (pos 0))) key
                        (peers_ring point cfg.peers) (some_points point cfg.peers (omega arith));
                  ring = (peers_ring point cfg.peers).consistent;
                  index = new_hnsw_graph-IsIndex (pos default_m) (pos default_ef_construction);
                  empty = refl;
                },
              ),
            )
      ]
