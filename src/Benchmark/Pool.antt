-- ===== src/Benchmark/Pool.antt =====
-- runPool of cmd/benchmarker/main.go: the goroutines as steps that follow each other in any order. The
-- calls of fn are a list of workers and jobs, in the order in which they start.
pub mod Invariant
pub mod Ending
use vector_store.Prelude.{
  ℕ, zero, suc, ◌+◌, ◌*◌, ◌<◌, ◌≡◌, Bool, true, false, List, [], ◌∷◌, ◌++◌, if◌then◌else◌, length,
  ℤ, pos, pos_part, ltb_ℤ, update,
}

-- A worker waits for a job, has received one, or runs fn on it.
pub data WorkerState : Type 0 where
  idle : WorkerState
  holds runs : ℕ → WorkerState

-- sent is the loop variable of the sender; stage is for the workers that have not left.
pub record Pool : Type 0 where
  pub sent : ℕ
  pub queue : List ℕ
  pub closed : Bool
  pub stage : ℕ → WorkerState
  pub left : ℕ → Bool
  pub calls : List (ℕ × ℕ)

-- `if workers < 1 { workers = 1 }`
unfoldable pub worker_count : ℤ → ℕ
worker_count workers = if ltb_ℤ workers (pos 1) then 1 else pos_part workers

-- The capacity of the channel.
abbrev pub capacity : ℕ → ℕ
capacity workers = workers * 2

unfoldable pub new_pool : Pool
new_pool = record {
  sent = 0;
  queue = [];
  closed = false;
  stage = λ w. idle;
  left = λ w. false;
  calls = [];
}

module _ (workers jobs : ℕ) where
  pub data Step (p p' : Pool) : Type 0 where
    -- ch <- j, which waits while the channel is full
    send :
        p.sent < jobs
        → length p.queue < capacity workers
        → p' ≡ record p { queue = p.queue ++ p.sent ∷ []; sent = p.sent + 1 }
        → Step p p'
    -- close(ch), after the loop
    close : p.sent ≡ jobs → p.closed ≡ false → p' ≡ record p { closed = true } → Step p p'
    -- a worker takes the next job of the channel
    receive :
        (w j : ℕ) (queue : List ℕ)
        → w < workers
        → p.stage w ≡ idle
        → p.left w ≡ false
        → p.queue ≡ j ∷ queue
        → p' ≡ record p { queue = queue; stage = update p.stage w (holds j) }
        → Step p p'
    -- fn(id, j) begins
    call :
        (w j : ℕ)
        → w < workers
        → p.stage w ≡ holds j
        → p' ≡ record p { stage = update p.stage w (runs j); calls = p.calls ++ (w, j) ∷ [] }
        → Step p p'
    -- fn returns
    finish :
        (w j : ℕ)
        → w < workers
        → p.stage w ≡ runs j
        → p' ≡ record p { stage = update p.stage w idle }
        → Step p p'
    -- the range over the channel ends, and with it the worker
    leave :
        (w : ℕ)
        → w < workers
        → p.stage w ≡ idle
        → p.left w ≡ false
        → p.queue ≡ []
        → p.closed ≡ true
        → p' ≡ record p { left = update p.left w true }
        → Step p p'

  -- So many steps from the start lead to the pool.
  pub data Steps : ℕ → Pool → Type 0 where
    here : Steps 0 new_pool
    next : {k : ℕ} {p p' : Pool} → Steps k p → Step p p' → Steps (suc k) p'

  -- wg.Wait() returns, after close(ch).
  abbrev pub Returned : Pool → Type 0
  Returned p = (p.closed ≡ true) × ((w : ℕ) → w < workers → p.left w ≡ true)
