-- ===== src/Server.antt =====
-- internal/network/grpc_server.go: the front end that clients call. An Insert is split where it
-- waits for its channel: `insert` up to there, `finish_insert` after it.
pub mod Outcomes
pub mod Routing
pub mod Answers
pub mod Searching
mod Examples
use Prim.Native.String.{String}
use text.Mathlib.Text.{◌==◌ as str_eq}
use vector_store.Prelude.{
  ℕ, zero, suc, ◌+◌, ◌≡◌, Bool, true, false, ◌&&◌, ◌||◌, not, List, [], ◌∷◌, map, take, Option,
  none, some, ◌==◌, if◌then◌else◌, length, ℤ, pos, ◌+ℤ◌, ltb_ℤ, leb_ℤ, eqb_ℤ, Run, ok, panic, ◌>>=◌,
}
use vector_store.Raft.State.{Raft}
use vector_store.Raft.Lifecycle.{InsertCommand, CommandCodec, start, get_leader_address}
use vector_store.Ring.{HashRing, get_responsible_node}
use vector_store.Applier.{CommitNotifier, register}

abbrev pub max_hops : ℤ
max_hops = pos 2

-- strconv: Atoi reads back the natural numbers that Itoa wrote.
pub record Decimal : Type 0 where
  pub itoa : ℤ → String
  pub atoi : String → Option ℤ
  pub atoi-itoa : (n : ℕ) → atoi (itoa (pos n)) ≡ some (pos n)

-- F is float32. peer_clients holds the addresses with a cached client; the index is shared with
-- the Applier, and Insert does not touch it.
pub record VectorDbServer : Type 0 where
  pub raft : Raft
  pub ring : HashRing
  pub self : String
  pub notifier : CommitNotifier
  pub peer_clients : List String

pub record InsertRequest (F : Type 0) : Type 0 where
  pub id : String
  pub vector : List F

pub data Code : Type 0 where
  invalid_argument unavailable deadline_exceeded canceled : Code

-- How Insert goes on: it answers an error, sends the request on with a number of hops, or waits for
-- the channel of an index.
pub data InsertStep (F : Type 0) : Type 0 where
  refused : Code → InsertStep F
  forwarded : String → ℤ → InsertRequest F → InsertStep F
  waiting : ℤ → ℕ → InsertStep F

-- incomingHops, on the metadata of the context: none, or the values of the key x-vdb-hop.
unfoldable pub incoming_hops : Decimal → Option (List String) → ℤ
incoming_hops dec none = pos 0
incoming_hops dec (some []) = pos 0
incoming_hops dec (some (v ∷ vals)) = elim (dec.atoi v) [
  | none ↦ pos 0
  | some n ↦ if ltb_ℤ n (pos 0) then pos 0 else n
]

unfoldable pub has_client : String → List String → Bool
has_client addr [] = false
has_client addr (a ∷ cached) = str_eq a addr || has_client addr cached

-- getPeerClient: the server's state after it, if there is a client. `dials` says whether
-- grpc.NewClient succeeds.
unfoldable pub get_peer_client : (String → Bool) → VectorDbServer → String → Option VectorDbServer
unfolding has_client
get_peer_client dials s addr =
    if has_client addr s.peer_clients
    then some s
    else if dials addr
    then some (record s { peer_clients = addr ∷ s.peer_clients })
    else none

unfoldable pub forward_insert :
    {F : Type 0}
    → (String → Bool)
    → VectorDbServer
    → String
    → InsertRequest F
    → ℤ
    → VectorDbServer × InsertStep F
unfolding get_peer_client
forward_insert dials s addr req hops = elim (get_peer_client dials s addr) [
  | none ↦ (s, refused unavailable)
  | some s' ↦ (s', forwarded addr (hops +ℤ pos 1) req)
]

-- Raft and the notifier have their own locks: `between` is what the node's other goroutines make of
-- them after Start has returned, before GetLeaderAddress or Register.
module _ {F : Type 0} (codec : CommandCodec F) (checksum : String → ℕ) (dials : String → Bool)
    (between : Raft × CommitNotifier → Raft × CommitNotifier) where
  -- Not the leader: on to the leader, if it is known, is another node, and a hop is left.
  abbrev pub to_leader : VectorDbServer → InsertRequest F → ℤ → Run (VectorDbServer × InsertStep F)
  to_leader s req hops = get_leader_address s.raft >>= λ leader_addr. ok (
      if ltb_ℤ hops max_hops && (not (str_eq leader_addr "") && not (str_eq leader_addr s.self))
      then forward_insert dials s leader_addr req hops
      else (s, refused unavailable))

  -- Insert from its Raft submission on, up to its wait.
  unfoldable pub submit : VectorDbServer → InsertRequest F → ℤ → Run (VectorDbServer × InsertStep F)
  submit s req hops =
      start codec s.raft (record { id = req.id; vector = req.vector })
      >>= λ (raft', log_idx, _, accepted).
          let now = between (raft', s.notifier) in
          let registered = register now.1 log_idx in
          if not accepted
          then to_leader (record s { raft = now.0; notifier = now.1 }) req hops
          else ok (record s { raft = now.0; notifier = registered.0 }, waiting log_idx registered.1)

  unfoldable pub insert : VectorDbServer → InsertRequest F → ℤ → Run (VectorDbServer × InsertStep F)
  unfolding submit forward_insert
  insert s req hops =
      let responsible = get_responsible_node checksum s.ring req.id in
      let submitted = submit s req hops in
      if str_eq req.id ""
      then ok (s, refused invalid_argument)
      else if length req.vector == 0
      then ok (s, refused invalid_argument)
      else if eqb_ℤ hops (pos 0) && (not (str_eq responsible "") && not (str_eq responsible s.self))
      then ok (forward_insert dials s responsible req hops)
      else submitted

-- What ends the wait: the channel is closed, the timer fires, or the context ends with a code.
pub data Wakeup : Type 0 where
  notified timed_out : Wakeup
  context_done : Code → Wakeup

pub data InsertResponse : Type 0 where
  success : String → InsertResponse
  failure : Code → InsertResponse

abbrev pub finish_insert : {F : Type 0} → InsertRequest F → Wakeup → InsertResponse
finish_insert req notified = success req.id
finish_insert req timed_out = failure deadline_exceeded
finish_insert req (context_done code) = failure code
