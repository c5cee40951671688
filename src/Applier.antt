-- ===== src/Applier.antt =====
-- internal/consensus/applier.go: CommitNotifier and Applier. A channel is a number, in the order
-- of their making; a closed channel is what wakes the handler that waits on it.
pub mod Notifying
pub mod Running
pub mod Indexing
mod Examples
use Prim.Native.String.{String}
use vector_store.Prelude.{
  ℕ, zero, suc, ◌+◌, Bool, true, false, not, List, [], ◌∷◌, Option, none, some, ◌==◌, if◌then◌else◌,
  ℤ, eqb_ℤ, Run, ok, panic, ◌>>=◌,
}
use vector_store.Raft.Lifecycle.{ApplyMsg}

pub record CommitNotifier : Type 0 where
  pub chs : ℤ → Option ℕ
  pub closed : ℕ → Bool
  -- the channels made so far
  pub made : ℕ

unfoldable pub new_commit_notifier : CommitNotifier
new_commit_notifier = record { chs = λ i. none; closed = λ ch. false; made = 0 }

-- A later registration of one index takes the place of the earlier one.
unfoldable pub register : CommitNotifier → ℤ → CommitNotifier × ℕ
register n log_index = (
  record n { chs = λ i. if eqb_ℤ i log_index then some n.made else n.chs i; made = n.made + 1 },
  n.made,
)

-- `close(ch)`, which panics on a closed channel
unfoldable pub close_channel : CommitNotifier → ℕ → Run CommitNotifier
close_channel n ch =
    if n.closed ch
    then panic
    else ok (record n { closed = λ c. if c == ch then true else n.closed c })

unfoldable pub notify : CommitNotifier → ℤ → Run CommitNotifier
unfolding close_channel
notify n log_index = elim (n.chs log_index) [
  | none ↦ ok n
  | some ch ↦ close_channel (record n { chs = λ i. if eqb_ℤ i log_index then none else n.chs i }) ch
]

module _ {F G : Type 0} (graph_insert : G → String → List F → G) where
  -- The graph after one message.
  unfoldable pub apply_to_graph : G → ApplyMsg F → G
  apply_to_graph g msg =
      if not msg.command_valid then g else graph_insert g msg.command.id msg.command.vector

  -- One round of Run's loop.
  unfoldable pub apply_one : G × CommitNotifier → ApplyMsg F → Run (G × CommitNotifier)
  unfolding apply_to_graph notify
  apply_one (g, n) msg = notify n msg.command_index >>= λ n'. ok (apply_to_graph g msg, n')

  -- Run, on the messages that applyCh brings.
  unfoldable pub run_applier : G × CommitNotifier → List (ApplyMsg F) → Run (G × CommitNotifier)
  unfolding apply_one
  run_applier s [] = ok s
  run_applier s (msg ∷ msgs) = apply_one s msg >>= λ s'. run_applier s' msgs

  -- The graph after all messages, whoever waits for them.
  unfoldable pub replay : G → List (ApplyMsg F) → G
  unfolding apply_to_graph
  replay g [] = g
  replay g (msg ∷ msgs) = replay (apply_to_graph g msg) msgs
