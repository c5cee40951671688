-- ===== src/Server/Outcomes.antt =====
-- Insert: how it ends, where it returns.
use Prim.Native.String.{String}
use text.Mathlib.Text.{◌==◌ as str_eq}
use vector_store.Prelude.{
  ℕ, ◌≤◌, ◌≡◌, ◌⊎◌, refl, sym, inl, inr, Bool, true, false, ◌&&◌, not, arith, ◌∷◌, Bool-cases,
  length, ◌==◌, ℤ, pos, ◌+ℤ◌, ◌≤ℤ◌, ◌<ℤ◌, +ℤ_parts, pos-+ℤ-one, ltb_ℤ, eqb_ℤ, eqb_ℤ→eq, subst, ok,
  if◌then◌else◌, Ensures, returned, Ensures-bind, Ensures-if, Ensures-run,
}
use vector_store.Raft.State.{Raft, is_leader}
use vector_store.Raft.Lifecycle.{InsertCommand, CommandCodec, start, get_leader_address}
use vector_store.Raft.Lifecycle.Submission.{Submitted, start-Ensures}
use vector_store.Ring.{get_responsible_node}
use vector_store.Applier.{CommitNotifier, register}
use vector_store.Server.{
  VectorDbServer, InsertRequest, InsertStep, refused, forwarded, waiting, has_client,
  get_peer_client, forward_insert, submit, insert, max_hops, unavailable, invalid_argument,
}

-- A request that Insert rejects at once, and one that it does not.
abbrev pub Malformed : {F : Type 0} → InsertRequest F → Type 0
Malformed req = (str_eq req.id "" ≡ true) ⊎ (length req.vector ≡ 0)

abbrev pub WellFormed : {F : Type 0} → InsertRequest F → Type 0
WellFormed req = (str_eq req.id "" ≡ false) × (1 ≤ length req.vector)

-- Raft and the notifier of a server.
abbrev pub states_of : VectorDbServer → Raft × CommitNotifier
states_of s = (s.raft, s.notifier)

module _ {F : Type 0} (codec : CommandCodec F) (checksum : String → ℕ) (dials : String → Bool)
    (between : Raft × CommitNotifier → Raft × CommitNotifier) where
  -- Insert itself changes neither Raft nor the notifier.
  abbrev pub Untouched : VectorDbServer → VectorDbServer → Type 0
  Untouched s s' = (states_of s' ≡ states_of s) ⊎ (states_of s' ≡ between (states_of s))

  -- The leader that the node knows of when it asks.
  abbrev pub KnowsLeader : VectorDbServer → String → Type 0
  KnowsLeader s addr = get_leader_address (between (states_of s)).0 ≡ ok addr

  -- Where a request has to go: first to the node that the ring gives for its id, and from a node
  -- that is no leader to the one that it takes for the leader.
  abbrev pub GoesTo : VectorDbServer → InsertRequest F → ℤ → String → Type 0
  GoesTo s req hops addr =
      ((hops ≡ pos 0) × (addr ≡ get_responsible_node checksum s.ring req.id))
      ⊎ ((is_leader s.raft.role ≡ false) × KnowsLeader s addr)

  -- The step sends the request to another node, with one hop more, up to two.
  pub record Forwards (s : VectorDbServer) (req : InsertRequest F) (hops : ℤ) (s' : VectorDbServer)
      (addr : String) (k : ℤ) (sent : InsertRequest F) : Type 0 where
    pub counts : k ≡ hops +ℤ pos 1
    pub bounded : k ≤ℤ pos 2
    pub named : str_eq addr "" ≡ false
    pub leaves : str_eq addr s.self ≡ false
    pub to : GoesTo s req hops addr
    pub well_formed : WellFormed req
    pub same : sent ≡ req
    pub untouched : Untouched s s'

  -- Why a well-formed request is refused: the node that it has to go to cannot be dialled, or this
  -- node is no leader, and there is no hop left or no other node that it takes for the leader.
  abbrev pub Unserved : VectorDbServer → InsertRequest F → ℤ → Type 0
  Unserved s req hops =
      ((addr : String) × GoesTo s req hops addr
        × (has_client addr s.peer_clients ≡ false)
        × (dials addr ≡ false))
      ⊎ ((addr : String) × (is_leader s.raft.role ≡ false)
          × KnowsLeader s addr
          × ((max_hops ≤ℤ hops) ⊎ (str_eq addr "" ≡ true) ⊎ (str_eq addr s.self ≡ true)))

  -- How Insert ends: it refuses the request or sends it on, and leaves Raft and the notifier alone;
  -- or the leader has a new last entry for the command, and a new channel waits for its index.
  abbrev pub Outcome : VectorDbServer → InsertRequest F → ℤ → VectorDbServer × InsertStep F → Type 0
  Outcome s req hops (s', refused code) =
      Untouched s s'
      × (((code ≡ invalid_argument) × Malformed req)
          ⊎ ((code ≡ unavailable) × WellFormed req × Unserved s req hops))
  Outcome s req hops (s', forwarded addr k sent) = Forwards s req hops s' addr k sent
  Outcome s req hops (s', waiting index ch) =
      WellFormed req
      × ((grown : Raft) × Submitted codec s.raft (record { id = req.id; vector = req.vector }) grown
            index
          × (s'.raft ≡ (between (grown, s.notifier)).0)
          × ((s'.notifier, ch) ≡ register (between (grown, s.notifier)).1 index))

  module _ (s : VectorDbServer) (req : InsertRequest F) (hops : ℤ) (ready : WellFormed req) where
    -- The server where Raft and the notifier have these states.
    abbrev at_states : Raft → CommitNotifier → VectorDbServer
    at_states r n = record s { raft = r; notifier = n }

    forward_insert-Ensures :
        (r : Raft) (n : CommitNotifier) (addr : String)
        → Untouched s (at_states r n)
        → hops +ℤ pos 1 ≤ℤ pos 2
        → str_eq addr "" ≡ false
        → str_eq addr s.self ≡ false
        → GoesTo s req hops addr
        → Outcome s req hops (forward_insert dials (at_states r n) addr req hops)
    unfolding forward_insert get_peer_client
    forward_insert-Ensures r n addr u b named l to =
        elim (Bool-cases (has_client addr s.peer_clients)) [
          | inl cached ↦
              through (at_states r n) u (rw (forward_insert, get_peer_client, cached) refl)
          | inr none_yet ↦ elim (Bool-cases (dials addr)) [
            | inl dialled ↦
                through (record (at_states r n) { peer_clients = addr ∷ s.peer_clients }) u
                  (rw (forward_insert, get_peer_client, none_yet, dialled) refl)
            | inr failed ↦
                let e : forward_insert dials (at_states r n) addr req hops
                    ≡ (at_states r n, refused unavailable) =
                  rw (forward_insert, get_peer_client, none_yet, failed) refl in
                subst (Outcome s req hops) (sym e)
                  (u, inr (refl, ready, inl (addr, to, none_yet, failed)))
          ]
        ]
      where
        through :
            (s' : VectorDbServer)
            → Untouched s s'
            → forward_insert dials (at_states r n) addr req hops
              ≡ (s', forwarded addr (hops +ℤ pos 1) req)
            → Outcome s req hops (forward_insert dials (at_states r n) addr req hops)
        through s' same e = subst (Outcome s req hops) (sym e) (record {
          counts = refl;
          bounded = b;
          named = named;
          leaves = l;
          to = to;
          well_formed = ready;
          same = refl;
          untouched = same;
        })

    -- A node that is no leader sends a request with fewer than two hops to the leader that it knows,
    -- if that is another node.
    to_leader-Ensures :
        (r : Raft) (n : CommitNotifier) (addr : String)
        → states_of (at_states r n) ≡ between (states_of s)
        → is_leader s.raft.role ≡ false
        → KnowsLeader s addr
        → Outcome s req hops (
            if ltb_ℤ hops max_hops && (not (str_eq addr "") && not (str_eq addr s.self))
            then forward_insert dials (at_states r n) addr req hops
            else (at_states r n, refused unavailable))
    to_leader-Ensures r n addr later follows known =
        elim (Bool-cases
          (ltb_ℤ hops max_hops && (not (str_eq addr "") && not (str_eq addr s.self)))) [
            | inl goes ↦
                let few_hops : hops <ℤ max_hops = ground arith in
                rw goes (
                  forward_insert-Ensures r n addr (inr later)
                    (omega (arith, +ℤ_parts hops (pos 1), few_hops)) (ground arith) (ground arith)
                    (inr (follows, known)))
            | inr stays ↦
                rw stays (inr later, inr (refl, ready, inr (addr, follows, known, ground arith)))
          ]

    first_hop-Ensures :
        (addr : String)
        → addr ≡ get_responsible_node checksum s.ring req.id
        → (eqb_ℤ hops (pos 0) && (not (str_eq addr "") && not (str_eq addr s.self))) ≡ true
        → Outcome s req hops (forward_insert dials s addr req hops)
    first_hop-Ensures addr is h =
        let none_yet : hops ≡ pos 0 = eqb_ℤ→eq hops (pos 0) (ground arith) in
        forward_insert-Ensures s.raft s.notifier addr (inl refl)
          (rw (none_yet, pos-+ℤ-one 0) (omega arith)) (ground arith) (ground arith)
          (inl (none_yet, is))

    submit-Ensures : Ensures (Outcome s req hops) (submit codec checksum dials between s req hops)
    unfolding submit
    submit-Ensures =
        let cmd : InsertCommand F = record { id = req.id; vector = req.vector } in
        Ensures-bind (start codec s.raft cmd) λ (raft', idx, term, accepted) h.
          let started = Ensures-run (start-Ensures codec s.raft cmd) h in
          Ensures-if (not accepted)
            (λ no. elim started [
              | inl (_, follows, same) ↦ rw same (
                  let now = between (states_of s) in
                  Ensures-bind (get_leader_address now.0)
                    λ addr known. returned (to_leader-Ensures now.0 now.1 addr refl follows known))
              | inr (took, _, _) ↦ absurd (ground arith)
            ])
            (λ yes. elim started [
              | inl (idle, _, _) ↦ absurd (ground arith)
              | inr (_, _, submitted) ↦ returned (ready, (raft', submitted, refl, refl))
            ])

  pub insert-Ensures :
      (s : VectorDbServer) (req : InsertRequest F) (hops : ℤ)
      → Ensures (Outcome s req hops) (insert codec checksum dials between s req hops)
  unfolding insert
  insert-Ensures s req hops =
      Ensures-if (str_eq req.id "") (λ blank. returned (inl refl, inl (refl, inl blank)))
        λ named.
          Ensures-if (length req.vector == 0)
            (λ empty. returned (inl refl, inl (refl, inr (ground arith))))
            λ some_vector.
              let ready : WellFormed req = (named, ground arith) in
              Ensures-if
                (eqb_ℤ hops (pos 0)
                  && (not (str_eq (get_responsible_node checksum s.ring req.id) "")
                      && not (str_eq (get_responsible_node checksum s.ring req.id) s.self)))
                (λ first. returned (first_hop-Ensures s req hops ready _ refl first))
                (λ _. submit-Ensures s req hops ready)
