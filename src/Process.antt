-- ===== src/Process.antt =====
-- cmd/server/main.go: the configuration of a node, and the parts that main builds from it. The
-- environment, strconv.Atoi and the functions of strings and filepath are parameters.
pub mod Booting
mod Examples
use Prim.Native.String.{String}
use text.Mathlib.Text.{◌==◌ as str_eq}
use vector_store.Prelude.{
  ℕ, Bool, false, ◌||◌, List, [], ◌∷◌, Option, none, some, get_elem?, length, ltb, leb,
  if◌then◌else◌, ℤ, pos, pos_part, leb_ℤ, ltb_ℤ,
}
use vector_store.Index.{HnswGraph, new_hnsw_graph, default_m, default_ef_construction}
use vector_store.Ring.{HashRing, new_hash_ring, add_node}
use vector_store.Applier.{new_commit_notifier}
use vector_store.Raft.Persistence.{Disk, StateCodec}
use vector_store.Raft.Persistence.{make}
use vector_store.Server.{VectorDbServer}

pub record NodeConfig : Type 0 where
  pub id : ℤ
  pub port : String
  pub peers : List String
  pub data_dir : String
  pub pprof_addr : String

-- The values of the command-line flags; peers is the text of --peers.
pub record Flags : Type 0 where
  pub id : ℤ
  pub port : String
  pub peers : String
  pub data_dir : String
  pub pprof_addr : String

-- split is strings.Split at commas, after_dash is what follows the last "-" of a text that has one,
-- make_dir says whether MkdirAll succeeds, and join is filepath.Join.
pub record Host : Type 0 where
  pub getenv : String → String
  pub hostname : String
  pub atoi : String → Option ℤ
  pub split : String → List String
  pub after_dash : String → Option String
  pub make_dir : String → Bool
  pub join : String → String → String

unfoldable pub env_or : Host → String → String → String
env_or host key default = if str_eq (host.getenv key) "" then default else host.getenv key

unfoldable pub ordinal_from_hostname : Host → ℤ
ordinal_from_hostname host = elim (host.after_dash (env_or host "POD_NAME" host.hostname)) [
  | none ↦ pos 0
  | some suffix ↦ elim (host.atoi suffix) [ none ↦ pos 0 | some n ↦ n ]
]

-- The switch on the node id; none where log.Fatalf ends the process.
unfoldable pub resolve_id : Host → Flags → Option ℤ
resolve_id host flags =
    if leb_ℤ (pos 0) flags.id
    then some flags.id
    else if str_eq (host.getenv "VECTORDB_ID") ""
    then some (ordinal_from_hostname host)
    else host.atoi (host.getenv "VECTORDB_ID")

-- The configuration but for the switch: an environment variable wins over its flag.
abbrev pub config_of : Host → Flags → ℤ → NodeConfig
config_of host flags id = record {
  id = id;
  port = env_or host "VECTORDB_PORT" flags.port;
  peers = host.split (env_or host "VECTORDB_PEERS" flags.peers);
  data_dir = env_or host "VECTORDB_DATA_DIR" flags.data_dir;
  pprof_addr = env_or host "VECTORDB_PPROF_ADDR" flags.pprof_addr;
}

unfoldable pub resolve_config : Host → Flags → Option NodeConfig
resolve_config host flags = elim (resolve_id host flags) [
  | none ↦ none
  | some id ↦ some (config_of host flags id)
]

unfoldable pub raft_state_path : Host → NodeConfig → String
raft_state_path host cfg =
    if str_eq cfg.data_dir ""
    then ""
    else if host.make_dir cfg.data_dir
    then host.join cfg.data_dir "raft-state.json"
    else ""

-- for _, p := range cfg.peers { ring.AddNode(p) }
unfoldable pub add_peers : (String → ℕ → ℕ) → List String → HashRing → HashRing
add_peers point [] r = r
add_peers point (p ∷ ps) r = add_peers point ps (add_node point r p)

-- The parts that main connects: the server holds the Raft node, the ring and the notifier, and shares
-- the graph with the applier.
pub record Process (F : Type 0) : Type 0 where
  pub server : VectorDbServer
  pub graph : HnswGraph F

module _ {F : Type 0} (codec : StateCodec) (point : String → ℕ → ℕ) where
  -- The parts of the node of address self.
  abbrev pub started : Host → NodeConfig → List Bool → ℕ → Disk → String → Process F
  started host cfg dials now disk self = record {
    server = record {
      raft = make codec cfg.peers dials (pos_part cfg.id) (raft_state_path host cfg) now disk;
      ring = add_peers point cfg.peers (new_hash_ring (pos 0));
      self = self;
      notifier = new_commit_notifier;
      peer_clients = [];
    };
    graph = new_hnsw_graph (pos default_m) (pos default_ef_construction);
  }

  -- main up to its listener; none where log.Fatalf ends the process. `dials` says which clients
  -- Make connects, and now is the clock.
  unfoldable pub boot : Host → NodeConfig → List Bool → ℕ → Disk → Option (Process F)
  boot host cfg dials now disk =
      let booted : Option (Process F) = elim (get_elem? cfg.peers (pos_part cfg.id)) [
        | none ↦ none
        | some self ↦ some (started host cfg dials now disk self)
      ] in
      if ltb_ℤ cfg.id (pos 0) || leb_ℤ (pos (length cfg.peers)) cfg.id then none else booted
