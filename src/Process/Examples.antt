-- ===== src/Process/Examples.antt =====
-- Configurations of a node, in a pod and on one machine.
use Prim.Native.String.{String}
use text.Mathlib.Text.{◌==◌ as str_eq}
use vector_store.Prelude.{
  ℕ, ◌<◌, ◌≡◌, refl, ◌⊎◌, ◌||◌, ltb_ℤ, leb_ℤ, true, [], ◌∷◌, none, some, length, if◌then◌else◌, pos,
  negsuc,
}
use vector_store.Raft.Examples.{term_codec}
use vector_store.Process.{
  NodeConfig, Flags, Host, Process, env_or, resolve_id, resolve_config, boot,
}
use vector_store.Process.Booting.{IsStarted, boot-IsStarted}

-- The pod "db-1" of three.
abbrev pod : Host
pod = record {
  getenv = λ key.
      if str_eq key "POD_NAME" then "db-1" else if str_eq key "VECTORDB_PEERS" then "x,y,z" else "";
  hostname = "";
  atoi = λ s. if str_eq s "1" then some (pos 1) else none;
  split = λ s. if str_eq s "x,y,z" then "x" ∷ "y" ∷ "z" ∷ [] else s ∷ [];
  after_dash = λ s. if str_eq s "db-1" then some "1" else none;
  make_dir = λ s. true;
  join = λ dir file. file;
}

abbrev no_flags : Flags
no_flags = record {
  id = negsuc 0;
  port = "50051";
  peers = "localhost:50051";
  data_dir = "";
  pprof_addr = "";
}

-- A flag for the port gives way to the environment, and one for the id does not.
flag_wins_for_id :
    resolve_config (record pod { getenv = λ key. "7" }) (record no_flags { id = pos 2 })
    ≡ some (record { id = pos 2; port = "7"; peers = "7" ∷ []; data_dir = "7"; pprof_addr = "7" })
unfolding resolve_config resolve_id env_or
flag_wins_for_id = refl

abbrev two_peers : NodeConfig
two_peers = record {
  id = pos 1;
  port = "50051";
  peers = "x" ∷ "y" ∷ [];
  data_dir = "";
  pprof_addr = "";
}

boot-IsStarted_example :
    ((ltb_ℤ (pos 1) (pos 0) || leb_ℤ (pos (length {A = String} ("x" ∷ "y" ∷ []))) (pos 1) ≡ true)
      × (boot {F = ℕ} term_codec (λ address i. i) pod two_peers [] 0 (λ path. none) ≡ none))
    ⊎ ((n : ℕ) × (pos 1 ≡ pos n)
        × (n < length {A = String} ("x" ∷ "y" ∷ []))
        × ((p : Process ℕ) × (boot term_codec (λ address i. i) pod two_peers [] 0 (λ path. none)
              ≡ some p)
            × IsStarted (λ key. 3) two_peers p))
boot-IsStarted_example =
    boot-IsStarted term_codec (λ address i. i) (λ key. 3) pod two_peers [] 0 (λ path. none)
