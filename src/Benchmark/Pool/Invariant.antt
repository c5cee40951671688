-- ===== src/Benchmark/Pool/Invariant.antt =====
-- What holds of a pool at every moment.
use vector_store.Prelude.{
  ℕ, ◌+◌, ◌≤◌, ◌<◌, ◌≡◌, ◌≢◌, refl, sym, ap, ◌∙◌, Bool, true, false, arith, List, [], ◌∷◌, ◌++◌,
  map, ltb, ◌==◌, update, update_at, update_other, ℕ_discrete,
}
use mathlib.Core.List.{map-append}
use vector_store.Prelude.Counting.{count_below, count_below-change, count_below-none, bit}
use vector_store.Index.Heap.Items.{All, All-append}
use vector_store.Benchmark.Pool.{
  WorkerState, idle, holds, runs, Pool, new_pool, Step, send, close, receive, call, finish, leave,
  Steps, here, next,
}

abbrev pub job : ℕ × ℕ → ℕ
job (w, j) = j

abbrev pub worker : ℕ × ℕ → ℕ
worker (w, j) = w

-- How often j stands in the list.
unfoldable pub times : ℕ → List ℕ → ℕ
times j [] = 0
times j (x ∷ xs) = bit (x == j) + times j xs

times-append : (j : ℕ) (xs ys : List ℕ) → times j (xs ++ ys) ≡ times j xs + times j ys
unfolding times
times-append j [] ys = omega arith
times-append j (x ∷ xs) ys = omega (arith, times-append j xs ys)

times-one : (j x : ℕ) → times j (x ∷ []) ≡ bit (x == j)
unfolding times
times-one j x = omega arith

abbrev pub holds_job : ℕ → WorkerState → Bool
holds_job j (holds x) = x == j
holds_job j _ = false

-- The workers below n that hold j.
abbrev pub held : ℕ → ℕ → (ℕ → WorkerState) → ℕ
held n j stage = count_below n (λ w. holds_job j (stage w))

-- What changes in a count of workers where one worker's stage changes.
pub count_below-update :
    (test : WorkerState → Bool) (n : ℕ) (stage : ℕ → WorkerState) (w : ℕ) (o : WorkerState)
    → w < n
    → count_below n (λ v. test (stage v)) + bit (test o)
      ≡ count_below n (λ v. test (update stage w o v)) + bit (test (stage w))
count_below-update test n stage w o lt =
    let changes =
      count_below-change n (λ v. test (stage v)) (λ v. test (update stage w o v)) w lt
        (λ v ne. ap test (sym (update_other stage w v o ne))) in
    rw (update_at stage w o) at changes

pub record Fair (workers jobs : ℕ) (p : Pool) : Type 0 where
  pub within : p.sent ≤ jobs
  -- what was called, what a worker holds and what is queued is what was sent, each once
  pub handed :
      (j : ℕ)
      → times j (map job p.calls) + held workers j p.stage + times j p.queue ≡ bit (ltb j p.sent)
  pub workers_of : All (λ c. worker c < workers) p.calls
  pub all_sent : p.closed ≡ true → p.sent ≡ jobs
  pub left_closed : (w : ℕ) → p.left w ≡ true → p.closed ≡ true
  pub left_empty : (w : ℕ) → p.left w ≡ true → p.queue ≡ []
  pub left_idle : (w : ℕ) → p.left w ≡ true → p.stage w ≡ idle

new_pool-Fair : (workers jobs : ℕ) → Fair workers jobs new_pool
unfolding new_pool times
new_pool-Fair workers jobs = record {
  within = omega arith;
  handed = λ j. let none_held = count_below-none workers in ground arith;
  workers_of = tt;
  all_sent = λ h. cc;
  left_closed = λ w h. cc;
  left_empty = λ w h. cc;
  left_idle = λ w h. cc;
}

module _ (workers jobs : ℕ) (p : Pool) (f : Fair workers jobs p) where
  send-Fair :
      p.sent < jobs
      → Fair workers jobs (record p { queue = p.queue ++ p.sent ∷ []; sent = p.sent + 1 })
  send-Fair more = record {
    within = omega arith;
    handed = λ j.
        let before = f.handed j in
        let one = times-one j p.sent in
        let grown = times-append j p.queue (p.sent ∷ []) in ground arith;
    workers_of = f.workers_of;
    all_sent = λ h. absurd (omega (arith, f.all_sent h));
    left_closed = f.left_closed;
    left_empty = λ w h. absurd (omega (arith, f.all_sent (f.left_closed w h)));
    left_idle = f.left_idle;
  }

  close-Fair : p.sent ≡ jobs → Fair workers jobs (record p { closed = true })
  close-Fair all = record {
    within = f.within;
    handed = f.handed;
    workers_of = f.workers_of;
    all_sent = λ h. all;
    left_closed = λ w h. refl;
    left_empty = f.left_empty;
    left_idle = f.left_idle;
  }

  receive-Fair :
      (w j : ℕ) (queue : List ℕ)
      → w < workers
      → p.stage w ≡ idle
      → p.queue ≡ j ∷ queue
      → Fair workers jobs (record p { queue = queue; stage = update p.stage w (holds j) })
  unfolding times
  receive-Fair w j queue lt idles front = record {
    within = f.within;
    handed = λ i.
        let moved = count_below-update (holds_job i) workers p.stage w (holds j) lt in
        omega (arith, (rw front at f.handed i), (rw idles at moved));
    workers_of = f.workers_of;
    all_sent = f.all_sent;
    left_closed = f.left_closed;
    left_empty = λ v h. let empty = f.left_empty v h in cc;
    left_idle = λ v h. let empty = f.left_empty v h in cc;
  }

  -- A worker that has a job has not left.
  other_left :
      (w : ℕ) (o : WorkerState)
      → p.stage w ≢ idle
      → (v : ℕ) → p.left v ≡ true
      → update p.stage w o v ≡ idle
  other_left w o busy v h = elim (ℕ_discrete v w) [
    | yes e ↦ let idles = f.left_idle v h in absurd (busy (rw e at idles))
    | no ne ↦ update_other p.stage w v o ne ∙ f.left_idle v h
  ]

  call-Fair :
      (w j : ℕ)
      → w < workers
      → p.stage w ≡ holds j
      → Fair workers jobs
          (record p { stage = update p.stage w (runs j); calls = p.calls ++ (w, j) ∷ [] })
  call-Fair w j lt holding = record {
    within = f.within;
    handed = λ i.
        let moved = count_below-update (holds_job i) workers p.stage w (runs j) lt in
        let grown = ap (times i) (map-append job p.calls ((w, j) ∷ [])) in
        omega (
          arith,
          f.handed i,
          (rw holding at moved),
          grown,
          times-append i (map job p.calls) (j ∷ []),
          times-one i j,
        );
    workers_of = All-append (λ c. worker c < workers) p.calls ((w, j) ∷ []) f.workers_of (lt, tt);
    all_sent = f.all_sent;
    left_closed = f.left_closed;
    left_empty = f.left_empty;
    left_idle = other_left w (runs j) (λ idles. cc);
  }

  finish-Fair :
      (w j : ℕ)
      → w < workers
      → p.stage w ≡ runs j
      → Fair workers jobs (record p { stage = update p.stage w idle })
  finish-Fair w j lt running = record {
    within = f.within;
    handed = λ i.
        let moved = count_below-update (holds_job i) workers p.stage w idle lt in
        omega (arith, f.handed i, (rw running at moved));
    workers_of = f.workers_of;
    all_sent = f.all_sent;
    left_closed = f.left_closed;
    left_empty = f.left_empty;
    left_idle = other_left w idle (λ idles. cc);
  }

  leave-Fair :
      (w : ℕ)
      → p.stage w ≡ idle
      → p.queue ≡ []
      → p.closed ≡ true
      → Fair workers jobs (record p { left = update p.left w true })
  leave-Fair w idles empty closed = record {
    within = f.within;
    handed = f.handed;
    workers_of = f.workers_of;
    all_sent = f.all_sent;
    left_closed = λ v h. closed;
    left_empty = λ v h. empty;
    left_idle = λ v h. elim (ℕ_discrete v w) [
      | yes e ↦ rw e idles
      | no ne ↦ f.left_idle v (sym (update_other p.left w v true ne) ∙ h)
    ];
  }

pub Step-Fair :
    (workers jobs : ℕ) (p p' : Pool)
    → Step workers jobs p p'
    → Fair workers jobs p
    → Fair workers jobs p'
Step-Fair workers jobs p p' (send more room is) f = rw is (send-Fair workers jobs p f more)
Step-Fair workers jobs p p' (close all open_yet is) f = rw is (close-Fair workers jobs p f all)
Step-Fair workers jobs p p' (receive w j queue lt idles stays front is) f =
    rw is (receive-Fair workers jobs p f w j queue lt idles front)
Step-Fair workers jobs p p' (call w j lt holding is) f =
    rw is (call-Fair workers jobs p f w j lt holding)
Step-Fair workers jobs p p' (finish w j lt running is) f =
    rw is (finish-Fair workers jobs p f w j lt running)
Step-Fair workers jobs p p' (leave w lt idles stays empty closed is) f =
    rw is (leave-Fair workers jobs p f w idles empty closed)

pub Steps-Fair : (workers jobs k : ℕ) (p : Pool) → Steps workers jobs k p → Fair workers jobs p
Steps-Fair workers jobs k p here = new_pool-Fair workers jobs
Steps-Fair workers jobs k p (next {k = m} {p = q} steps step) =
    Step-Fair workers jobs q p step (Steps-Fair workers jobs m q steps)
