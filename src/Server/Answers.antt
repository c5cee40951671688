-- ===== src/Server/Answers.antt =====
-- Insert returns.
use Prim.Native.String.{String}
use text.Mathlib.Text.{◌==◌ as str_eq}
use vector_store.Prelude.{
  ℕ, ◌≡◌, refl, Bool, false, not, ◌||◌, ◌&&◌, arith, length, ◌==◌, get_elem?-some, ℤ, pos, negsuc,
  ltb_ℤ, leb_ℤ, eqb_ℤ, ok, Ensures-run, Returns, Returns-bind, Returns-if, load,
}
use vector_store.Raft.State.{Raft, int_length}
use vector_store.Raft.State.Commit.{IsSized}
use vector_store.Raft.Lifecycle.{InsertCommand, CommandCodec, start, get_leader_address}
use vector_store.Raft.Lifecycle.Submission.{start-Started}
use vector_store.Applier.{CommitNotifier}
use vector_store.Ring.{get_responsible_node}
use vector_store.Server.{VectorDbServer, InsertRequest, InsertStep, submit, insert}
use vector_store.Server.Outcomes.{Outcome, insert-Ensures}

get_leader_address-Returns : (rf : Raft) → Returns (get_leader_address rf)
unfolding get_leader_address
get_leader_address-Returns rf =
    Returns-if (ltb_ℤ rf.leader_id (pos 0) || leb_ℤ (int_length rf.addrs) rf.leader_id)
      (λ _. ("", refl)) λ known. in_range rf.leader_id known
  where
    in_range :
        (i : ℤ)
        → (ltb_ℤ i (pos 0) || leb_ℤ (int_length rf.addrs) i) ≡ false
        → Returns (load rf.addrs i)
    in_range (pos i) known =
        let (addr, at) = get_elem?-some rf.addrs i (ground arith) in rw at (addr, refl)
    in_range (negsuc i) known = ground arith

module _ {F : Type 0} (codec : CommandCodec F) (checksum : String → ℕ) (dials : String → Bool)
    (between : Raft × CommitNotifier → Raft × CommitNotifier) where
  submit-Returns :
      (s : VectorDbServer) (req : InsertRequest F) (hops : ℤ)
      → IsSized s.raft
      → Returns (submit codec checksum dials between s req hops)
  unfolding submit
  submit-Returns s req hops sized =
      let cmd : InsertCommand F = record { id = req.id; vector = req.vector } in
      let (started, ran, _) = start-Started codec s.raft cmd sized in
      Returns-bind (start codec s.raft cmd) (started, ran)
        λ (raft', idx, term, accepted) _.
          Returns-if (not accepted)
            (λ _.
              Returns-bind (get_leader_address (between (raft', s.notifier)).0)
                (get_leader_address-Returns (between (raft', s.notifier)).0) λ addr _. (_, refl))
            λ _. (_, refl)

  insert-Returns :
      (s : VectorDbServer) (req : InsertRequest F) (hops : ℤ)
      → IsSized s.raft
      → Returns (insert codec checksum dials between s req hops)
  unfolding insert
  insert-Returns s req hops sized =
      let responsible = get_responsible_node checksum s.ring req.id in
      Returns-if (str_eq req.id "") (λ _. (_, refl))
        λ _.
          Returns-if (length req.vector == 0) (λ _. (_, refl))
            λ _.
              Returns-if
                (eqb_ℤ hops (pos 0)
                  && (not (str_eq responsible "") && not (str_eq responsible s.self)))
                (λ _. (_, refl)) λ _. submit-Returns s req hops sized

  -- Insert returns, up to its wait, on a node whose lists fit its cluster, whatever other goroutines
  -- do between its own steps. It refuses a request without an id or a vector as invalid. It refuses
  -- any other only where the node that the request has to go to cannot be dialled, or where this
  -- node is no leader, and there is no hop left or no other node that it takes for the leader. Else
  -- it sends the request, with one hop more and two at most, to the ring's node for the id or from a
  -- node that is no leader to the leader; or this node leads, and Start gives it a new last entry,
  -- from which the apply loop delivers the command where it can be encoded, and a new channel waits
  -- for the entry's index. Where the request is refused or sent on, Insert itself leaves Raft and
  -- the notifier alone.
  pub insert-Outcome :
      (s : VectorDbServer) (req : InsertRequest F) (hops : ℤ)
      → IsSized s.raft
      → (r : VectorDbServer × InsertStep F) × (insert codec checksum dials between s req hops
          ≡ ok r)
        × Outcome codec checksum dials between s req hops r
  insert-Outcome s req hops sized =
      let (r, ran) = insert-Returns s req hops sized in
      (r, ran, Ensures-run (insert-Ensures codec checksum dials between s req hops) ran)
