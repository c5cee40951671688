-- ===== src/Applier/Running.antt =====
-- Applier.Run: the graph that it builds, and whom it wakes.
use Prim.Native.String.{String}
use vector_store.Prelude.{
  ℕ, ◌≡◌, ◌≢◌, refl, sym, ◌∙◌, none, if◌then◌else◌, ◌⊎◌, inl, inr, true, false, arith, List, [],
  ◌∷◌, some, ℤ, eqb_ℤ, eqb_ℤ→eq, eqb_ℤ_self, ok, Bool-cases,
}
use vector_store.Raft.Lifecycle.{ApplyMsg, InsertCommand}
use vector_store.Applier.{CommitNotifier, register, apply_one, run_applier, replay, apply_to_graph}
use vector_store.Applier.Notifying.{IsReady, register-IsReady, Notified, notify-Notified}

-- An index without a channel gets none.
KeepsNone : CommitNotifier → CommitNotifier → Type 0
KeepsNone n n' = (i : ℤ) → n.chs i ≡ none → n'.chs i ≡ none

index-cases : (i j : ℤ) → (i ≡ j) ⊎ (i ≢ j)
index-cases i j = elim (Bool-cases (eqb_ℤ i j)) [
  | inl same ↦ inl (eqb_ℤ→eq i j same)
  | inr other ↦ inr (λ e. ground (arith, eqb_ℤ_self i))
]

KeepsNone-cons :
    (n n₁ n' : CommitNotifier) (i : ℤ) → Notified n i n₁ → KeepsNone n₁ n' → KeepsNone n n'
unfolding KeepsNone
KeepsNone-cons n n₁ n' i one rest j h = elim (index-cases j i) [
  | inl same ↦ rest j (rw same one.gone)
  | inr other ↦ rest j (one.others j other ∙ h)
]

module _ {F : Type 0} where
  -- A message has this index.
  unfoldable pub HasIndex : ℤ → List (ApplyMsg F) → Type 0
  HasIndex i [] = ⊥
  HasIndex i (msg ∷ msgs) = (i ≡ msg.command_index) ⊎ HasIndex i msgs

  -- The notifier after the messages: the channels that wait for their indices are closed and off
  -- the map, the other indices keep their channels, and no other channel is closed.
  pub record Drained (n : CommitNotifier) (msgs : List (ApplyMsg F)) (n' : CommitNotifier)
      : Type 0 where
    pub ready : IsReady n'
    pub woken : (i : ℤ) (ch : ℕ) → n.chs i ≡ some ch → HasIndex i msgs → n'.closed ch ≡ true
    pub gone : (i : ℤ) → HasIndex i msgs → n'.chs i ≡ none
    pub asleep : (i : ℤ) → ¬ HasIndex i msgs → n'.chs i ≡ n.chs i
    pub stays : (ch : ℕ) → n.closed ch ≡ true → n'.closed ch ≡ true
    pub only :
        (ch : ℕ)
        → n'.closed ch ≡ true
        → (n.closed ch ≡ true) ⊎ ((i : ℤ) × (n.chs i ≡ some ch) × HasIndex i msgs)

  Drained-cons :
      (n n₁ n' : CommitNotifier) (msg : ApplyMsg F) (msgs : List (ApplyMsg F))
      → Notified n msg.command_index n₁
      → Drained n₁ msgs n'
      → KeepsNone n₁ n'
      → Drained n (msg ∷ msgs) n'
  unfolding HasIndex KeepsNone
  Drained-cons n n₁ n' msg msgs one rest none_new = record {
    ready = rest.ready;
    woken = λ i ch h has. elim (index-cases i msg.command_index) [
      | inl same ↦ rest.stays ch (one.woken ch (rw (← same) h))
      | inr other ↦ elim has [
        | inl e ↦ absurd (other e)
        | inr later ↦ rest.woken i ch (one.others i other ∙ h) later
      ]
    ];
    gone = λ i has. elim has [ inl e ↦ none_new i (rw e one.gone) | inr later ↦ rest.gone i later ];
    asleep = λ i away. rest.asleep i (λ later. away (inr later)) ∙ one.others i (λ e. away (inl e));
    stays = λ ch h. rest.stays ch (one.stays ch h);
    only = λ ch h. elim (rest.only ch h) [
      | inl closed ↦ elim (one.only ch closed) [
        | inl before ↦ inl before
        | inr there ↦ inr (msg.command_index, there, inl refl)
      ]
      | inr (i, there, later) ↦ elim (index-cases i msg.command_index) [
        | inl same ↦ let none_left = one.gone in let at = rw same at there in cc
        | inr other ↦ inr (i, sym (one.others i other) ∙ there, inr later)
      ]
    ];
  }

  -- The commands of the messages that have one.
  abbrev pub commands_of : List (ApplyMsg F) → List (InsertCommand F)
  commands_of [] = []
  commands_of (msg ∷ msgs) =
      if msg.command_valid then msg.command ∷ commands_of msgs else commands_of msgs

module _ {F G : Type 0} (graph_insert : G → String → List F → G) where
  abbrev pub insert_commands : G → List (InsertCommand F) → G
  insert_commands g [] = g
  insert_commands g (cmd ∷ cmds) = insert_commands (graph_insert g cmd.id cmd.vector) cmds

  replay-commands :
      (g : G) (msgs : List (ApplyMsg F))
      → replay graph_insert g msgs ≡ insert_commands g (commands_of msgs)
  unfolding replay apply_to_graph
  replay-commands g [] = refl
  replay-commands g (msg ∷ msgs) = elim (Bool-cases msg.command_valid) [
    | inl valid ↦ rw valid (replay-commands (graph_insert g msg.command.id msg.command.vector) msgs)
    | inr no_op ↦ rw no_op (replay-commands g msgs)
  ]

  run_applier-KeepsNone :
      (g : G) (n : CommitNotifier) (msgs : List (ApplyMsg F))
      → IsReady n
      → (n' : CommitNotifier) × (run_applier graph_insert (g, n) msgs
          ≡ ok (replay graph_insert g msgs, n'))
        × Drained n msgs n'
        × KeepsNone n n'
  unfolding run_applier replay apply_one HasIndex KeepsNone
  run_applier-KeepsNone g n [] r = (
    n,
    refl,
    record {
      ready = r;
      woken = λ i ch h has. elim has [ ];
      gone = λ i has. elim has [ ];
      asleep = λ i away. refl;
      stays = λ ch h. h;
      only = λ ch h. inl h;
    },
    λ i h. h,
  )
  run_applier-KeepsNone g n (msg ∷ msgs) r =
      let (n₁, ran, one) = notify-Notified n msg.command_index r in
      let (n', rest, drained, none_new) =
        run_applier-KeepsNone (apply_to_graph graph_insert g msg) n₁ msgs one.ready in
      (
        n',
        rw ran rest,
        Drained-cons n n₁ n' msg msgs one drained none_new,
        KeepsNone-cons n n₁ n' msg.command_index one none_new,
      )

  pub run_applier-replay :
      (g : G) (n : CommitNotifier) (msgs : List (ApplyMsg F))
      → IsReady n
      → (n' : CommitNotifier) × (run_applier graph_insert (g, n) msgs
          ≡ ok (replay graph_insert g msgs, n'))
        × Drained n msgs n'
  run_applier-replay g n msgs r =
      let (n', ran, drained, _) = run_applier-KeepsNone g n msgs r in (n', ran, drained)

  -- From a ready notifier and any graph, Run takes any messages without a panic. The graph is then
  -- the old one with the commands of the messages inserted in their order, where a message without a
  -- command inserts nothing. Of the channels, those that wait for an index among the messages are
  -- closed and off the map; the other indices keep theirs; and no other channel is closed, not even
  -- one that a later Register of such an index replaced.
  pub run_applier-Drained :
      (g : G) (n : CommitNotifier) (msgs : List (ApplyMsg F))
      → IsReady n
      → (n' : CommitNotifier) × (run_applier graph_insert (g, n) msgs
          ≡ ok (insert_commands g (commands_of msgs), n'))
        × Drained n msgs n'
  run_applier-Drained g n msgs r =
      let (n', ran, drained) = run_applier-replay g n msgs r in
      (n', rw (← replay-commands g msgs) ran, drained)

  -- A channel is closed by messages after its registration only: when Run took messages before
  -- it (of the same index too), and none of that index comes after it, the channel stays open.
  pub register-late :
      (g : G) (n : CommitNotifier) (before after : List (ApplyMsg F)) (i : ℤ)
      → IsReady n
      → ¬ HasIndex i after
      → (n₁ n₂ : CommitNotifier) × (run_applier graph_insert (g, n) before
          ≡ ok (replay graph_insert g before, n₁))
        × (run_applier graph_insert (replay graph_insert g before, (register n₁ i).0) after
            ≡ ok (replay graph_insert (replay graph_insert g before) after, n₂))
        × (n₂.closed (register n₁ i).1 ≡ false)
  unfolding register
  register-late g n before after i r away =
      let (n₁, first, d) = run_applier-replay g n before r in
      let (n₂, second, e) =
        run_applier-replay (replay graph_insert g before) (register n₁ i).0 after
          (register-IsReady n₁ i d.ready) in
      let kept : n₂.chs i ≡ some n₁.made = e.asleep i away ∙ (rw (eqb_ℤ_self i) refl) in
      (n₁, n₂, first, second, e.ready.waits i n₁.made kept)
