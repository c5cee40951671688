-- ===== src/Server/Examples.antt =====
-- A server on node 0 of three, and instances of the theorems on it.
use Prim.Native.Char.{nul}
use Prim.Native.String.{String, [] as end_of_text, ◌∷◌ as add_char}
use vector_store.Prelude.{
  ℕ, zero, suc, ◌≤◌, ◌≡◌, refl, ap, pos_part, Bool, true, [], ◌∷◌, none, some, pos, ok, ℤ, ◌+ℤ◌,
  ◌-ℤ◌,
}
use vector_store.Raft.State.{Raft, advance_commit_index}
use vector_store.Raft.Examples.{node, head, head-IsSized, k_codec}
use vector_store.Raft.Lifecycle.{start, command_bytes, InsertCommand, get_leader_address}
use vector_store.Raft.Lifecycle.Submission.{Started, start-Started}
use vector_store.Ring.{new_hash_ring, get_responsible_node}
use vector_store.Applier.{CommitNotifier, new_commit_notifier, register}
use vector_store.Server.{
  Decimal, VectorDbServer, InsertRequest, InsertStep, forwarded, waiting, insert, incoming_hops,
}
use vector_store.Server.Outcomes.{Outcome}
use vector_store.Server.Routing.{arrived, sent_on, Trail-bounded}
use vector_store.Server.Answers.{insert-Outcome}
use vector_store.Server.Searching.{SearchReply, serve_search, Served, serve_search-Served}
use vector_store.Index.{new_hnsw_graph}
use vector_store.Index.Examples.{near}
use vector_store.Index.SearchExamples.{below, ranks}
use vector_store.Index.Insert.Keeping.{new_hnsw_graph-IsIndex}

-- Numbers as strings of one character each.
tally : ℕ → String
tally zero = end_of_text
tally (suc n) = add_char nul (tally n)

size : String → ℕ
size end_of_text = 0
size (add_char c s) = suc (size s)

size-tally : (n : ℕ) → size (tally n) ≡ n
unfolding size tally
size-tally zero = refl
size-tally (suc n) = ap suc (size-tally n)

abbrev unary : Decimal
unary = record {
  itoa = λ z. tally (pos_part z);
  atoi = λ s. some (pos (size s));
  atoi-itoa = λ n. ap (λ k. some (pos k)) (size-tally n);
}

abbrev server_of : Raft → VectorDbServer
server_of rf = record {
  raft = rf;
  ring = new_hash_ring (pos 3);
  self = "a:1";
  notifier = new_commit_notifier;
  peer_clients = [];
}

abbrev request : InsertRequest ℕ
request = record { id = "k"; vector = 4 ∷ 5 ∷ [] }

abbrev no_hash : String → ℕ
no_hash key = 0

abbrev all_dial : String → Bool
all_dial addr = true

-- No other goroutine runs.
abbrev no_one : Raft × CommitNotifier → Raft × CommitNotifier
no_one states = states

abbrev command : InsertCommand ℕ
command = record { id = "k"; vector = 4 ∷ 5 ∷ [] }

start-Started_example :
    (r : Raft × ℤ × ℤ × Bool) × (start k_codec head command ≡ ok r) × Started k_codec head command r
start-Started_example = start-Started k_codec head command head-IsSized

insert-Outcome_example :
    (r : VectorDbServer × InsertStep ℕ) × (insert k_codec no_hash all_dial no_one
        (server_of head)
        request
        (pos 0)
      ≡ ok r)
    × Outcome k_codec no_hash all_dial no_one (server_of head) request (pos 0) r
insert-Outcome_example =
    insert-Outcome k_codec no_hash all_dial no_one (server_of head) request (pos 0) head-IsSized

-- The leader takes the request as its entry 3, and waits for it on channel 0.
accepted :
    (s : VectorDbServer) × (insert k_codec no_hash all_dial no_one (server_of head) request (pos 0)
      ≡ ok (s, waiting (pos 3) 0))
unfolding insert start command_bytes advance_commit_index register get_responsible_node
    new_hash_ring ◌+ℤ◌ ◌-ℤ◌ new_commit_notifier
accepted = (_, refl)

-- A follower that knows node 1 for the leader sends the request there.
abbrev follows : VectorDbServer
follows = server_of (record (node 0 2 []) { leader_id = pos 1 })

abbrev dialled : VectorDbServer
dialled = record follows { peer_clients = "b:2" ∷ [] }

sent :
    insert k_codec no_hash all_dial no_one follows request (pos 0)
    ≡ ok (dialled, forwarded "b:2" (pos 1) request)
unfolding insert start get_leader_address get_responsible_node new_hash_ring ◌+ℤ◌ ◌-ℤ◌
sent = refl

Trail-bounded_example : 1 ≤ 2
unfolding incoming_hops
Trail-bounded_example =
    Trail-bounded unary k_codec no_hash request none 1
      (sent_on all_dial no_one follows dialled "b:2" (pos 1) sent arrived)

serve_search-Served_example :
    (reply : SearchReply ℕ) × (serve_search near below
        (new_hnsw_graph (pos 4) (pos 8))
        (8 ∷ [])
        (pos 2)
      ≡ ok reply)
    × Served near below ranks (new_hnsw_graph (pos 4) (pos 8)) (8 ∷ []) (pos 2) reply
serve_search-Served_example =
    serve_search-Served near below ranks (new_hnsw_graph (pos 4) (pos 8)) (8 ∷ []) (pos 2)
      (new_hnsw_graph-IsIndex (pos 4) (pos 8))
