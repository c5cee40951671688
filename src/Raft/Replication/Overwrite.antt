-- ===== src/Raft/Replication/Overwrite.antt =====
-- The loop over args.Entries against a plain recursion on the two logs.
use mathlib.Core.List.{append_assoc, append-nil}
use vector_store.Prelude.{
  ℕ, zero, suc, ◌≤◌, ◌<◌, ◌≡◌, refl, sym, ap, ◌∙◌, inl, inr, true, false, arith, List, [], ◌∷◌,
  ◌++◌, some, length, take, drop, get_elem?, get_elem?-some, take-all, drop-all, take-suc,
  drop-cons, length-append, length-take, take-append-drop, dec_lt, pos, pos-+ℤ-one, ltb_ℤ, eqb_ℤ,
  eqb_ℤ→eq, eqb_ℤ_self, ok, if◌then◌else◌, Bool-cases,
}
use vector_store.Raft.State.{LogEntry, int_length}
use vector_store.Raft.Replication.{append_one, append_all}

-- `old` with the entries `es` written over it: an old entry of the same term stays, and the first
-- one of another term goes with all that follow it.
pub overwrite : List LogEntry → List LogEntry → List LogEntry
overwrite old [] = old
overwrite [] (e ∷ es) = e ∷ es
overwrite (o ∷ old) (e ∷ es) = if eqb_ℤ o.term e.term then o ∷ overwrite old es else e ∷ es

overwrite-nil : (es : List LogEntry) → overwrite [] es ≡ es
unfolding overwrite
overwrite-nil [] = refl
overwrite-nil (e ∷ es) = refl

-- An entry past the end is appended.
append_one-past :
    (n : ℕ) (e : LogEntry) (log : List LogEntry)
    → length log ≤ n
    → append_one (pos n) e log ≡ ok (log ++ e ∷ [])
unfolding append_one
append_one-past n e log h = ground arith

append_one-same :
    (n : ℕ) (e o : LogEntry) (log : List LogEntry)
    → get_elem? log n ≡ some o
    → n < length log
    → eqb_ℤ o.term e.term ≡ true
    → append_one (pos n) e log ≡ ok log
unfolding append_one
append_one-same n e o log found h same =
    let inside : ltb_ℤ (pos n) (int_length log) ≡ true = ground arith in rw (inside, found, same)

append_one-conflict :
    (n : ℕ) (e o : LogEntry) (log : List LogEntry)
    → get_elem? log n ≡ some o
    → n < length log
    → eqb_ℤ o.term e.term ≡ false
    → append_one (pos n) e log ≡ ok (take n log ++ e ∷ [])
unfolding append_one
append_one-conflict n e o log found h other =
    let inside : ltb_ℤ (pos n) (int_length log) ≡ true = ground arith in rw (inside, found, other)

-- With nothing behind index n, the loop appends all entries.
append_all-past :
    (n : ℕ) (es log : List LogEntry) → length log ≡ n → append_all (pos n) es log ≡ ok (log ++ es)
unfolding append_all
append_all-past n [] log h = ap ok (sym (append-nil log))
append_all-past n (e ∷ es) log h =
    let ih =
      append_all-past (suc n) es (log ++ e ∷ []) (omega (arith, length-append log (e ∷ []))) in
    rw (append_one-past n e log (omega arith), append_all, pos-+ℤ-one n)
      (ih ∙ ap ok (append_assoc log (e ∷ []) es))

-- One round of the loop within the log.
append_all-inside :
    (n : ℕ) (e o : LogEntry) (es log : List LogEntry)
    → get_elem? log n ≡ some o
    → n < length log
    → append_all (pos (suc n)) es log ≡ ok (take (suc n) log ++ overwrite (drop (suc n) log) es)
    → append_all (pos n) (e ∷ es) log ≡ ok (take n log ++ overwrite (drop n log) (e ∷ es))
unfolding append_all overwrite
append_all-inside n e o es log found h ih = elim (Bool-cases (eqb_ℤ o.term e.term)) [
  | inl same ↦
      rw
        (
          append_one-same n e o log found h same,
          append_all,
          pos-+ℤ-one n,
          drop-cons n log o found,
          same,
        )
        (ih
          ∙ ap ok (
              rw (take-suc n log o found)
                (append_assoc (take n log) (o ∷ []) (overwrite (drop (suc n) log) es))))
  | inr other ↦
      rw
        (
          append_one-conflict n e o log found h other,
          append_all,
          pos-+ℤ-one n,
          drop-cons n log o found,
          other,
        )
        (append_all-past (suc n) es (take n log ++ e ∷ [])
            (omega (arith, length-append (take n log) (e ∷ []), length-take n log))
          ∙ ap ok (append_assoc (take n log) (e ∷ []) es))
]

-- The loop over args.Entries is `overwrite` from index n on, for an n that is at most the log's
-- length.
pub append_all-overwrite :
    (n : ℕ) (es log : List LogEntry)
    → n ≤ length log
    → append_all (pos n) es log ≡ ok (take n log ++ overwrite (drop n log) es)
unfolding append_all overwrite
append_all-overwrite n [] log h = ap ok (sym (take-append-drop n log))
append_all-overwrite n (e ∷ es) log h = elim (dec_lt n (length log)) [
  | yes inside ↦
      let (o, found) = get_elem?-some log n inside in
      append_all-inside n e o es log found inside (append_all-overwrite (suc n) es log inside)
  | no outside ↦
      let size : length log ≡ n = omega arith in
      append_all-past n (e ∷ es) log size
      ∙ ap ok (rw (take-all n log (omega arith), drop-all n log (omega arith)) refl)
]

-- Entries of one term at one place are one entry (Raft's Log Matching property).
pub Matching : List LogEntry → List LogEntry → Type 0
Matching [] es = Unit
Matching (o ∷ old) [] = Unit
Matching (o ∷ old) (e ∷ es) = (o.term ≡ e.term → o ≡ e) × Matching old es

-- Logs that agree entry by entry match from their beginning on.
pub Matching-of :
    (old es : List LogEntry)
    → ((i : ℕ) (o e : LogEntry)
        → get_elem? old i ≡ some o
        → get_elem? es i ≡ some e
        → o.term ≡ e.term
        → o ≡ e)
    → Matching old es
unfolding Matching
Matching-of [] es h = tt
Matching-of (o ∷ old) [] h = tt
Matching-of (o ∷ old) (e ∷ es) h = (h 0 o e refl refl, Matching-of old es (λ i. h (suc i)))

-- The new log begins with the entries, for logs that match.
pub take-overwrite :
    (old es : List LogEntry) → Matching old es → take (length es) (overwrite old es) ≡ es
unfolding overwrite Matching
take-overwrite old [] m = refl
take-overwrite [] (e ∷ es) m = take-all (length (e ∷ es)) (e ∷ es) (omega arith)
take-overwrite (o ∷ old) (e ∷ es) m = elim (Bool-cases (eqb_ℤ o.term e.term)) [
  | inl same ↦ rw (same, m.0 (eqb_ℤ→eq o.term e.term same)) (ap (◌∷◌ e) (take-overwrite old es m.1))
  | inr other ↦ rw other (take-all (length (e ∷ es)) (e ∷ es) (omega arith))
]

pub length-overwrite-le : (old es : List LogEntry) → length es ≤ length (overwrite old es)
unfolding overwrite
length-overwrite-le old [] = omega arith
length-overwrite-le [] (e ∷ es) = omega arith
length-overwrite-le (o ∷ old) (e ∷ es) = ground (arith, length-overwrite-le old es)

-- No entry of `old` has another term than the entry of `es` at its place.
pub Agree : List LogEntry → List LogEntry → Type 0
Agree [] es = Unit
Agree (o ∷ old) [] = Unit
Agree (o ∷ old) (e ∷ es) = (o.term ≡ e.term) × Agree old es

-- Where no term differs, no entry goes.
pub overwrite-Agree :
    (old es : List LogEntry) → Agree old es → overwrite old es ≡ old ++ drop (length old) es
unfolding overwrite Agree
overwrite-Agree [] [] a = refl
overwrite-Agree (o ∷ old) [] a = sym (append-nil (o ∷ old))
overwrite-Agree [] (e ∷ es) a = refl
overwrite-Agree (o ∷ old) (e ∷ es) a =
    let same : eqb_ℤ o.term e.term ≡ true = rw a.0 (eqb_ℤ_self e.term) in
    rw same (ap (◌∷◌ o) (overwrite-Agree old es a.1))

-- The first k entries stay, if no new entry at their places has another term.
pub take-overwrite_kept :
    (k : ℕ) (old es : List LogEntry)
    → Agree (take k old) es
    → k ≤ length old
    → take k (overwrite old es) ≡ take k old
unfolding overwrite Agree
take-overwrite_kept k old [] a h = refl
take-overwrite_kept zero old (e ∷ es) a h = refl
take-overwrite_kept (suc k) [] (e ∷ es) a h = elim h [ ]
take-overwrite_kept (suc k) (o ∷ old) (e ∷ es) a h =
    let same : eqb_ℤ o.term e.term ≡ true = rw a.0 (eqb_ℤ_self e.term) in
    rw same (ap (◌∷◌ o) (take-overwrite_kept k old es a.1 (omega arith)))
