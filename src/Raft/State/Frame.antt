-- ===== src/Raft/State/Frame.antt =====
-- What the helpers leave alone, when they return.
use vector_store.Prelude.{ℕ, zero, suc, ◌≡◌, arith, length, ok, ◌≤ℤ◌}
use vector_store.Raft.State.{Raft, advance_from, advance_commit_index}

-- The node changed its commit index only, and not downwards.
pub record OnlyCommits (rf rf' : Raft) : Type 0 where
  pub frame : rf' ≡ record rf { commit_index = rf'.commit_index }
  pub grows : rf.commit_index ≤ℤ rf'.commit_index

advance_from-OnlyCommits : (n : ℕ) (rf rf' : Raft) → advance_from n rf ≡ ok rf' → OnlyCommits rf rf'
unfolding advance_from
advance_from-OnlyCommits zero rf rf' h = ground arith
advance_from-OnlyCommits (suc n) rf rf' h = ground (arith, advance_from-OnlyCommits n rf rf')

pub advance_commit_index-OnlyCommits :
    (rf rf' : Raft) → advance_commit_index rf ≡ ok rf' → OnlyCommits rf rf'
unfolding advance_commit_index
advance_commit_index-OnlyCommits rf rf' h = advance_from-OnlyCommits (length rf.log) rf rf' h
