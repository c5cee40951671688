-- ===== src/Benchmark/Pool/Ending.antt =====
-- runPool ends: how many steps a pool has before it, and that it is never stuck.
use vector_store.Prelude.{
  ℕ, ◌+◌, ◌-◌, ◌*◌, ◌<◌, ◌≡◌, ◌⊎◌, Bool, true, false, not, map, length, ltb, if◌then◌else◌,
}
use vector_store.Prelude.Counting.{count_below, bit}
use vector_store.Index.Heap.Items.{All}
use vector_store.Benchmark.Pool.{WorkerState, idle, holds, Pool, Step, Returned}
use vector_store.Benchmark.Pool.Invariant.{job, worker, times}

abbrev is_busy : WorkerState → Bool
is_busy idle = false
is_busy _ = true

abbrev is_holding : WorkerState → Bool
is_holding (holds j) = true
is_holding _ = false

abbrev busy : ℕ → Pool → ℕ
busy n p = count_below n (λ w. is_busy (p.stage w))

abbrev holding : ℕ → Pool → ℕ
holding n p = count_below n (λ w. is_holding (p.stage w))

abbrev staying : ℕ → Pool → ℕ
staying n p = count_below n (λ w. not (p.left w))

-- The steps that are left: four for each job that is not sent, three for each that is queued, two
-- for each that a worker holds, one for each that runs, one to close the channel, and one for each
-- worker to leave.
pub steps_left : ℕ → ℕ → Pool → ℕ
steps_left workers jobs p =
    4 * (jobs - p.sent)
    + 3 * length p.queue
    + busy workers p
    + holding workers p
    + bit (not p.closed)
    + staying workers p

-- The pool goes on, or runPool has returned.
abbrev CanStep : ℕ → ℕ → Pool → Type 0
CanStep workers jobs p = Returned workers jobs p ⊎ ((p' : Pool) × Step workers jobs p p')

-- runPool is done: fn ran once for every job and for no other number, each time with the id of one
-- of the workers, and no worker has a job left.
pub record Ran (workers jobs : ℕ) (p : Pool) : Type 0 where
  pub returned : Returned workers jobs p
  pub every_job : (j : ℕ) → times j (map job p.calls) ≡ (if ltb j jobs then 1 else 0)
  pub by_workers : All (λ c. worker c < workers) p.calls
  pub done : (w : ℕ) → w < workers → p.stage w ≡ idle
