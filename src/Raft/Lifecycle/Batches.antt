-- ===== src/Raft/Lifecycle/Batches.antt =====
-- commitApplyLoop: successive rounds send every committed entry once, in the order of the log.
use vector_store.Prelude.{
  ℕ, zero, suc, ◌+◌, ◌≤◌, ◌<◌, ◌≡◌, refl, true, false, arith, List, some, leb, length, take, drop,
  ℤ, pos, minus_one, ◌+ℤ◌, pos-+ℤ-one, minus_one-+ℤ-one, leb_ℤ, ok,
}
use vector_store.Raft.State.{Raft, LogEntry}
use vector_store.Raft.Lifecycle.{collect_batch}

-- The index before the n-th entry.
abbrev pub before : ℕ → ℤ
before zero = minus_one
before (suc p) = pos p

before_suc : (n : ℕ) → before n +ℤ pos 1 ≡ pos n
before_suc zero = minus_one-+ℤ-one
before_suc (suc n) = pos-+ℤ-one n

-- The entries of a log from n to c.
abbrev pub between : List LogEntry → ℕ → ℕ → List LogEntry
between log n c = drop n (take (suc c) log)

ahead : (n c : ℕ) → n ≤ c → leb_ℤ (pos c) (before n) ≡ false
ahead zero c h = ground arith
ahead (suc n) c h = ground arith

-- A round that has entries to send.
pub collect_batch-between :
    (rf : Raft) (n c : ℕ)
    → rf.last_applied ≡ before n
    → rf.commit_index ≡ pos c
    → n ≤ c
    → c < length rf.log
    → collect_batch rf ≡ ok (some (pos n, pos c, between rf.log n c))
unfolding collect_batch
collect_batch-between rf n c applied commit h inside =
    let waits : leb_ℤ (pos c) (before n) ≡ false = ahead n c h in
    let ordered : leb n (c + 1) ≡ true = ground arith in
    let fits : leb (c + 1) (length rf.log) ≡ true = ground arith in
    let next : c + 1 ≡ suc c = omega arith in
    rw (applied, commit, waits, before_suc n, ordered, fits, next) refl
