-- ===== src/Raft/Replication/Conflict.antt =====
-- The scan back over a conflicting term, and the leader's scan for its last entry of a term.
use vector_store.Prelude.{
  ℕ, zero, suc, ◌≤◌, ◌<◌, ◌≡◌, refl, ◌⊎◌, inl, inr, arith, List, some, length, get_elem?,
  get_elem?-some, ℤ, pos, minus_one, eqb_ℤ, eqb_ℤ→eq, eqb_ℤ_self, ok, Bool-cases, at_or_below,
}
use vector_store.Raft.State.{LogEntry}
use vector_store.Raft.Replication.{first_of_term, last_of_term}

-- The entry at i is there and of term t.
abbrev pub HasTerm : List LogEntry → ℕ → ℤ → Type 0
HasTerm log i t = (e : LogEntry) × (get_elem? log i ≡ some e) × (e.term ≡ t)

-- `ci` is where the run of entries of term ct that reaches up to `c` begins.
pub record IsRunStart (log : List LogEntry) (ct : ℤ) (c ci : ℕ) : Type 0 where
  pub below : ci ≤ c
  pub run : (i : ℕ) → ci ≤ i → i < c → HasTerm log i ct
  pub first : (ci ≡ 0) ⊎ ((p : ℕ) × (ci ≡ suc p) × ¬ HasTerm log p ct)

-- The scan does not panic within the log, and finds the first index of the conflicting term's run.
pub first_of_term-IsRunStart :
    (log : List LogEntry) (ct : ℤ) (c : ℕ)
    → c ≤ length log
    → (ci : ℕ) × (first_of_term log ct c ≡ ok ci) × IsRunStart log ct c ci
unfolding first_of_term
first_of_term-IsRunStart log ct zero h =
    (0, refl, record { below = omega arith; run = λ i p q. absurd (omega arith); first = inl refl })
first_of_term-IsRunStart log ct (suc c) h =
    let (e, found) = get_elem?-some log c (omega arith) in
    elim (Bool-cases (eqb_ℤ e.term ct)) [
      | inl same ↦
          let (ci, runs, s) = first_of_term-IsRunStart log ct c (omega arith) in
          let here : HasTerm log c ct = (e, found, eqb_ℤ→eq e.term ct same) in
          (
            ci,
            rw (found, same) runs,
            record {
              below = omega (arith, s.below);
              run = λ i p q. at_or_below (λ j. HasTerm log j ct) c i here (s.run i p) q;
              first = s.first;
            },
          )
      | inr other ↦ (
        suc c,
        rw (found, other),
        record {
          below = omega arith;
          run = λ i p q. absurd (omega arith);
          first = inr (c, refl, λ (e', found', same). ground (arith, eqb_ℤ_self ct));
        },
      )
    ]

-- The highest index of an entry of term ct, or -1.
abbrev pub IsLastOfTerm : List LogEntry → ℤ → ℕ → ℤ → Type 0
IsLastOfTerm log ct n j =
    ((j ≡ minus_one) × ((i : ℕ) → i < n → ¬ HasTerm log i ct))
    ⊎ ((m : ℕ) × (j ≡ pos m)
        × (m < n)
        × HasTerm log m ct
        × ((i : ℕ) → m < i → i < n → ¬ HasTerm log i ct))

IsLastOfTerm-suc :
    (log : List LogEntry) (ct : ℤ) (n : ℕ) (j : ℤ)
    → ¬ HasTerm log n ct
    → IsLastOfTerm log ct n j
    → IsLastOfTerm log ct (suc n) j
IsLastOfTerm-suc log ct n j h (inl (e, no_entry)) =
    inl (e, λ i p. at_or_below (λ k. ¬ HasTerm log k ct) n i h (no_entry i) p)
IsLastOfTerm-suc log ct n j h (inr (m, e, below, here, above)) =
    inr
      (m, e, omega arith, here, λ i p q. at_or_below (λ k. ¬ HasTerm log k ct) n i h (above i p) q)

-- The leader's search for a conflicting term does not panic within the log, and finds the highest
-- index of an entry of that term, or -1 if there is none.
pub last_of_term-IsLastOfTerm :
    (log : List LogEntry) (ct : ℤ) (n : ℕ)
    → n ≤ length log
    → (j : ℤ) × (last_of_term log ct n ≡ ok j) × IsLastOfTerm log ct n j
unfolding last_of_term
last_of_term-IsLastOfTerm log ct zero h = (minus_one, refl, inl (refl, λ i p. absurd (omega arith)))
last_of_term-IsLastOfTerm log ct (suc n) h =
    let (e, found) = get_elem?-some log n (omega arith) in
    elim (Bool-cases (eqb_ℤ e.term ct)) [
      | inl same ↦ (
        pos n,
        rw (found, same),
        inr (
          n,
          refl,
          omega arith,
          (e, found, eqb_ℤ→eq e.term ct same),
          λ i p q. absurd (omega arith),
        ),
      )
      | inr other ↦
          let not_here : ¬ HasTerm log n ct = λ (e', found', same). ground (arith, eqb_ℤ_self ct) in
          let (j, runs, l) = last_of_term-IsLastOfTerm log ct n (omega arith) in
          (j, rw (found, other) runs, IsLastOfTerm-suc log ct n j not_here l)
    ]
