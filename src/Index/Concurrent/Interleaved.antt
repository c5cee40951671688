-- ===== src/Index/Concurrent/Interleaved.antt =====
-- Inserts that run at once keep the invariant of the graph, whatever the order of their steps.
use Prim.Native.String.{String}
use text.Mathlib.Text.{◌==◌ as str_eq}
use vector_store.Prelude.{
  ℕ, ◌≤◌, ◌<◌, ◌≡◌, ◌≢◌, refl, sym, ap, ◌∙◌, inl, inr, false, arith, List, ◌&&◌, Option, none, some,
  Bool-cases, ltb, leb, ◌==◌, length, lookup, some-injective, subst, update, update_at,
  update_other, ℕ_discrete, ap,
}
use vector_store.Index.{HnswGraph, put_node, new_node}
use vector_store.Index.WellLinked.{WellLinked}
use vector_store.Index.Insert.{register_node}
use vector_store.Index.Insert.Grows.{Grows}
use vector_store.Index.Insert.Phases.{lookup-empty, lookup-new, lookup-old, alone-IsIndex}
use vector_store.Index.Concurrent.{Stage, Inserting, enter, promote, Busy, joining}
use vector_store.Index.Concurrent.Ready.{
  Grows-Extends, HasNode-Extends, IsReady, IsReady-Extends, Placed,
}
use vector_store.Index.Concurrent.Running.{
  Grows-IsIndex, promote-IsIndex, promote-Extends, IsRaising, Sound, fresh_other,
  register_node-Extends, register_node-IsIndex,
}

-- The Inserts that run, after one of them changed.
running-each {ℓ} :
    {A : Type 0} (P : ℕ → A → Type ℓ) (f : ℕ → Option A) (k : ℕ) (o : Option A)
    → ((t : A) → o ≡ some t → P k t)
    → ((i : ℕ) (t : A) → i ≢ k → f i ≡ some t → P i t)
    → (i : ℕ) (t : A) → update f k o i ≡ some t
    → P i t
running-each P f k o changed others i t h = elim (ℕ_discrete i k) [
  | yes is ↦ rw is (changed t (sym (update_at f k o) ∙ (rw is at h)))
  | no ne ↦ others i t ne (sym (update_other f k i o ne) ∙ h)
]

module _ {F S : Type 0} (s : Busy F S) (k : ℕ) where
  -- An Insert that has raised the top layer, at a place that is not k.
  IsRaising-elsewhere :
      (g : HnswGraph F) (o : Option (Inserting F S))
      → s.running k ≡ none
      → g.max_layer ≡ s.graph.max_layer
      → IsRaising s
      → IsRaising (record { graph = g; running = update s.running k o })
  IsRaising-elsewhere g o empty same (i, t, at, level, high) = (
    i,
    t,
    update_other s.running k i o (λ is. let at_k = ap s.running is in cc) ∙ at,
    level ∙ sym same,
    high,
  )

  module _ (id : String) (vector : List F) (level : ℕ) (empty : s.running k ≡ none)
      (fresh : lookup id s.graph.nodes ≡ none) (named : str_eq id "" ≡ false)
      (sound : Sound s) where
    begins_alone :
        length s.graph.nodes ≡ 0
        → Sound (record {
          graph = record (put_node s.graph id (new_node id vector level)) {
            entry_point = id;
            max_layer = level;
          };
          running = update s.running k none;
        })
    unfolding new_node
    begins_alone size = record {
      index = alone-IsIndex s.graph id vector level size named sound.index;
      ready =
          running-each (λ i t. IsReady _ t) s.running k none (λ t h. cc)
            λ i t ne h.
              let was = sound.ready i t h in
              let gone = lookup-empty t.id s.graph.nodes size in let there = was.has.there in cc;
      top = inr (inl (new_node id vector level, lookup-new s.graph id vector level, refl));
    }

    begins_joining :
        (length s.graph.nodes ≡ 0 → ⊥)
        → Sound (record {
          graph = register_node s.graph id vector level;
          running = update s.running k (some (joining s.graph id vector level));
        })
    unfolding new_node
    begins_joining some_nodes =
        let g' = register_node s.graph id vector level in
        let t : Inserting F S = joining s.graph id vector level in
        let grown = register_node-Extends s.graph id vector level fresh in
        record {
          index = elim sound.index.entry [
            | inl (size, _) ↦ absurd (some_nodes size)
            | inr (was_named, stored) ↦
                register_node-IsIndex s.graph id vector level fresh was_named stored sound.index
          ];
          ready =
              running-each (λ i t'. IsReady g' t') s.running k (some t)
                (λ t' h. subst (IsReady g') (some-injective t t' h) (record {
                  has = record {
                    node = new_node id vector level;
                    there = lookup-new s.graph id vector level;
                    vector = refl;
                    level = refl;
                    named = named;
                  };
                  placed = omega arith;
                }))
                (λ i t' ne h. IsReady-Extends s.graph g' t' grown (sound.ready i t' h));
          top = elim (Bool-cases (ltb s.graph.max_layer level)) [
            | inl higher ↦
                inr (inr (k, t, update_at s.running k (some t), rw higher refl, ground arith))
            | inr lower ↦
                let same : g'.max_layer ≡ s.graph.max_layer = rw lower refl in
                elim sound.top [
                  | inl size ↦ absurd (some_nodes size)
                  | inr (inl (n, at, level_of)) ↦ inr (
                      inl (
                        n,
                        lookup-old s.graph id vector level s.graph.entry_point
                              (fresh_other s.graph id vector level fresh s.graph.entry_point n at)
                            ∙ at,
                        level_of ∙ sym same,
                      ))
                  | inr (inr r) ↦ inr (inr (IsRaising-elsewhere g' (some t) empty same r))
                ]
          ];
        }

    pub begins-Sound : Sound (record {
      graph = (enter {S = S} s.graph id vector level).0;
      running = update s.running k (enter s.graph id vector level).1;
    })
    unfolding enter
    begins-Sound = elim (Bool-cases (length s.graph.nodes == 0)) [
      | inl size ↦ rw size (begins_alone (ground arith))
      | inr some_nodes ↦ rw some_nodes (begins_joining (λ size. ground arith))
    ]

  module _ (t : Inserting F S) (at : s.running k ≡ some t) (sound : Sound s) where
    pub goes_on-Sound :
        (c : HnswGraph F) (stage : Stage S)
        → WellLinked c
        → Grows s.graph c
        → Placed c t.level stage
        → Sound
            (record { graph = c; running = update s.running k (some (record t { stage = stage })) })
    goes_on-Sound c stage linked grows placed =
        let r = sound.ready k t at in
        let grown = Grows-Extends s.graph c grows in
        let t' : Inserting F S = record t { stage = stage } in
        let has = HasNode-Extends s.graph c t grown r.has in
        record {
          index = Grows-IsIndex s.graph c t.id r.has.node r.has.there grows linked sound.index;
          ready =
              running-each (λ i u. IsReady c u) s.running k (some t')
                (λ u h. subst (IsReady c) (some-injective t' u h) (record {
                  has = record {
                    node = has.node;
                    there = has.there;
                    vector = has.vector;
                    level = has.level;
                    named = has.named;
                  };
                  placed = placed;
                }))
                (λ i u ne h. IsReady-Extends s.graph c u grown (sound.ready i u h));
          top = elim sound.top [
            | inl size ↦
                let gone = lookup-empty t.id s.graph.nodes size in let there = r.has.there in cc
            | inr (inl (n, entry, level)) ↦
                let (n', entry', _, same) = grown.keeps s.graph.entry_point n entry in
                inr (inl (n', rw grows.same_entry entry', same ∙ level ∙ sym grows.same_max_layer))
            | inr (inr (i, u, runs, level, high)) ↦ inr (
                inr (elim (ℕ_discrete i k) [
                  | yes is ↦
                      let u_is : u ≡ t = some-injective u t (sym runs ∙ (rw is at)) in
                      (
                        k,
                        t',
                        update_at s.running k (some t'),
                        sym (ap (λ (x : Inserting F S). x.level) u_is)
                            ∙ level
                            ∙ sym grows.same_max_layer,
                        subst (λ (x : Inserting F S). x.cur_max_layer < x.level) u_is high,
                      )
                  | no ne ↦ (
                    i,
                    u,
                    update_other s.running k i (some t') ne ∙ runs,
                    level ∙ sym grows.same_max_layer,
                    high,
                  )
                ]))
          ];
        }

    pub returns-Sound :
        Sound (record { graph = promote s.graph t; running = update s.running k none })
    unfolding promote
    returns-Sound =
        let r = sound.ready k t at in
        let low : t.level ≤ s.graph.max_layer =
          omega (arith, sound.index.under_top t.id r.has.node r.has.there, r.has.level) in
        record {
          index = promote-IsIndex s.graph t r.has sound.index;
          ready =
              running-each (λ i u. IsReady (promote s.graph t) u) s.running k none (λ u h. cc)
                (λ i u ne h.
                  IsReady-Extends s.graph (promote s.graph t) u (promote-Extends s.graph t)
                    (sound.ready i u h));
          top = elim (Bool-cases (ltb t.cur_max_layer t.level && leb s.graph.max_layer t.level)) [
            | inl rises ↦
                inr (inl (rw rises (r.has.node, r.has.there, ground (arith, r.has.level, low))))
            | inr stays ↦ rw stays (elim sound.top [
              | inl size ↦ inl size
              | inr (inl top) ↦ inr (inl top)
              | inr (inr (i, u, runs, level, high)) ↦ elim (ℕ_discrete i k) [
                | yes is ↦
                    let u_is : u ≡ t = some-injective u t (sym runs ∙ (rw is at)) in
                    let level' : t.level ≡ s.graph.max_layer =
                      subst (λ (x : Inserting F S). x.level ≡ s.graph.max_layer) u_is level in
                    let high' : t.cur_max_layer < t.level =
                      subst (λ (x : Inserting F S). x.cur_max_layer < x.level) u_is high in
                    absurd (ground arith)
                | no ne ↦ inr (inr (i, u, update_other s.running k i none ne ∙ runs, level, high))
              ]
            ])
          ];
        }
