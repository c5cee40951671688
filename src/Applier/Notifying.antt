-- ===== src/Applier/Notifying.antt =====
-- CommitNotifier: what its map and its channels promise each other.
use vector_store.Prelude.{
  ℕ, ◌≤◌, ◌<◌, ◌≡◌, ◌≢◌, refl, sym, ap, ◌∙◌, ==_iff, ◌⊎◌, inl, inr, true, false, arith, none, some,
  ◌==◌, Option-cases, if◌then◌else◌, ℤ, eqb_ℤ, eqb_ℤ→eq, eqb_ℤ_self, ok, Bool-cases,
}
use vector_store.Applier.{CommitNotifier, new_commit_notifier, register, notify, close_channel}

-- The channels of the map are open, each stands under one index, and only channels that were made
-- are closed.
pub record IsReady (n : CommitNotifier) : Type 0 where
  pub waits : (i : ℤ) (ch : ℕ) → n.chs i ≡ some ch → n.closed ch ≡ false
  pub known : (i : ℤ) (ch : ℕ) → n.chs i ≡ some ch → ch < n.made
  pub single : (i j : ℤ) (ch : ℕ) → n.chs i ≡ some ch → n.chs j ≡ some ch → i ≡ j
  pub fresh : (ch : ℕ) → n.made ≤ ch → n.closed ch ≡ false

pub new_commit_notifier-IsReady : IsReady new_commit_notifier
unfolding new_commit_notifier
new_commit_notifier-IsReady = record {
  waits = λ i ch h. refl;
  known = λ i ch h. cc;
  single = λ i j ch h l. cc;
  fresh = λ ch h. refl;
}

-- Register of any index keeps the notifier ready: its new channel is open and stands under no
-- other index.
pub register-IsReady : (n : CommitNotifier) (i : ℤ) → IsReady n → IsReady (register n i).0
unfolding register
register-IsReady n i r = record {
  waits = λ j ch h. ground (arith, r.waits j ch, r.fresh n.made);
  known = λ j ch h. ground (arith, r.known j ch);
  single = λ j k ch h l.
      ground (arith, eqb_ℤ→eq j i, eqb_ℤ→eq k i, r.single j k ch, r.known j ch, r.known k ch);
  fresh = λ ch h. r.fresh ch (omega arith);
}

-- The notifier after Notify closed the channel ch of index i.
abbrev pub closing : CommitNotifier → ℤ → ℕ → CommitNotifier
closing n i ch = record n {
  chs = λ j. if eqb_ℤ j i then none else n.chs j;
  closed = λ c. if c == ch then true else n.closed c;
}

closing-kept :
    (n : CommitNotifier) (i j : ℤ) (ch c : ℕ)
    → (closing n i ch).chs j ≡ some c
    → (n.chs j ≡ some c) × (j ≢ i)
closing-kept n i j ch c h = elim (Bool-cases (eqb_ℤ j i)) [
  | inl same ↦ let bad : none ≡ some c = rw same at h in cc
  | inr other ↦
      ((let kept : n.chs j ≡ some c = rw other at h in kept), λ e. ground (arith, eqb_ℤ_self i))
]

closing-other : (n : CommitNotifier) (i j : ℤ) (ch : ℕ) → j ≢ i → (closing n i ch).chs j ≡ n.chs j
closing-other n i j ch d = elim (Bool-cases (eqb_ℤ j i)) [
  | inl same ↦ absurd (d (eqb_ℤ→eq j i same))
  | inr other ↦ rw other refl
]

closing-IsReady :
    (n : CommitNotifier) (i : ℤ) (ch : ℕ) → IsReady n → n.chs i ≡ some ch → IsReady (closing n i ch)
closing-IsReady n i ch r there = record {
  waits = λ j c h.
      let (before, other) = closing-kept n i j ch c h in
      let not_it : c ≢ ch = λ e. other (r.single j i c before (rw e there)) in
      ground (arith, r.waits j c before);
  known = λ j c h. r.known j c (closing-kept n i j ch c h).0;
  single = λ j k c h l. r.single j k c (closing-kept n i j ch c h).0 (closing-kept n i k ch c l).0;
  fresh = λ c h. ground (arith, r.fresh c h, r.known i ch there);
}

-- What Notify of an index does to the other ones, and to the channel that waits for it.
pub record Notified (n : CommitNotifier) (i : ℤ) (n' : CommitNotifier) : Type 0 where
  pub ready : IsReady n'
  pub woken : (ch : ℕ) → n.chs i ≡ some ch → n'.closed ch ≡ true
  pub gone : n'.chs i ≡ none
  pub others : (j : ℤ) → j ≢ i → n'.chs j ≡ n.chs j
  pub stays : (ch : ℕ) → n.closed ch ≡ true → n'.closed ch ≡ true
  pub only : (ch : ℕ) → n'.closed ch ≡ true → (n.closed ch ≡ true) ⊎ (n.chs i ≡ some ch)

-- Notify of a ready notifier never closes a channel twice. It closes the channel of its index, if
-- there is one, and leaves no channel there; every other index keeps its own.
pub notify-Notified :
    (n : CommitNotifier) (i : ℤ)
    → IsReady n
    → (n' : CommitNotifier) × (notify n i ≡ ok n') × Notified n i n'
unfolding notify close_channel
notify-Notified n i r = elim (Option-cases (n.chs i)) [
  | inl none_there ↦ (
    n,
    rw (none_there, notify) refl,
    record {
      ready = r;
      woken = λ ch h. cc;
      gone = none_there;
      others = λ j h. refl;
      stays = λ ch h. h;
      only = λ ch h. inl h;
    },
  )
  | inr (ch, there) ↦ (
    closing n i ch,
    rw (there, r.waits i ch there, notify, close_channel) refl,
    record {
      ready = closing-IsReady n i ch r there;
      woken = λ c h. ground arith;
      gone = rw (eqb_ℤ_self i) refl;
      others = λ j d. closing-other n i j ch d;
      stays = λ c h. ground arith;
      only = λ c h. elim (Bool-cases (c == ch)) [
        | inl same ↦ inr (there ∙ ap some (sym ((==_iff c ch).0 same)))
        | inr other ↦ inl (rw other at h)
      ];
    },
  )
]
