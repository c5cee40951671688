-- ===== src/Raft/State/Last.antt =====
-- lastLogIndexTerm reads the last entry, and never panics.
use vector_store.Prelude.{
  suc, ◌≡◌, refl, ap, suc-==-zero, pos-suc--ℤ-one, List, [], ◌∷◌, length, ℤ, pos, minus_one, ok,
  load,
}
use vector_store.Raft.State.{Raft, LogEntry, last_log_index_term}

-- The index and term of the last entry, with -1 and 0 for an empty log.
unfoldable pub last_info : List LogEntry → ℤ × ℤ
last_info [] = (minus_one, pos 0)
last_info (e ∷ []) = (pos 0, e.term)
last_info (e ∷ e' ∷ log) = (pos (suc (length log)), (last_info (e' ∷ log)).1)

load-last :
    (e : LogEntry) (log : List LogEntry)
    → (x : LogEntry) × (load (e ∷ log) (pos (length log)) ≡ ok x)
      × ((pos (length log), x.term) ≡ last_info (e ∷ log))
unfolding last_info
load-last e [] = (e, refl, refl)
load-last e (e' ∷ log) =
    let (x, found, same) = load-last e' log in (x, found, λ i. (pos (suc (length log)), (same i).1))

last_log_index_term-of :
    (rf : Raft) (log : List LogEntry) → rf.log ≡ log → last_log_index_term rf ≡ ok (last_info log)
unfolding last_log_index_term last_info
last_log_index_term-of rf [] h = rw h
last_log_index_term-of rf (e ∷ log) h =
    let (x, found, same) = load-last e log in
    rw (h, last_log_index_term, pos-suc--ℤ-one (length log), suc-==-zero (length log))
      (rw found (ap ok same))

pub last_log_index_term-ok : (rf : Raft) → last_log_index_term rf ≡ ok (last_info rf.log)
last_log_index_term-ok rf = last_log_index_term-of rf rf.log refl
