-- ===== src/Index/Concurrent/Ready.antt =====
-- What an Insert that runs beside others may rely on: its node, and the nodes that its lists name.
use Prim.Native.String.{String}
use text.Mathlib.Text.{◌==◌ as str_eq}
use vector_store.Prelude.{ℕ, suc, ◌≤◌, ◌≡◌, ◌∙◌, false, List, some, length, lookup}
use vector_store.Index.{Candidate, Node, HnswGraph, max_links_at_layer}
use vector_store.Index.Insert.Grows.{Grows}
use vector_store.Index.Concurrent.{Stage, connecting, linking, wiring, scored, Inserting, Known}

-- The nodes stay, with their vectors and layers, and so do the limits of their lists.
pub record Extends {F : Type 0} (g g' : HnswGraph F) : Type 0 where
  pub same_m : g'.m ≡ g.m
  pub same_m_max0 : g'.m_max0 ≡ g.m_max0
  pub keeps :
      (x : String) (n : Node F)
      → lookup x g.nodes ≡ some n
      → (n' : Node F) × (lookup x g'.nodes ≡ some n')
        × (n'.vector ≡ n.vector)
        × (n'.max_layer ≡ n.max_layer)

pub Grows-Extends : {F : Type 0} (g g' : HnswGraph F) → Grows g g' → Extends g g'
Grows-Extends g g' w = record {
  same_m = w.same_m;
  same_m_max0 = w.same_m_max0;
  keeps = λ x n h. let (n', h', _, v, l) = w.keeps x n h in (n', h', v, l);
}

pub Extends-trans :
    {F : Type 0} (g g' g'' : HnswGraph F) → Extends g g' → Extends g' g'' → Extends g g''
Extends-trans g g' g'' a b = record {
  same_m = b.same_m ∙ a.same_m;
  same_m_max0 = b.same_m_max0 ∙ a.same_m_max0;
  keeps = λ x n h.
      let (n', h', v, l) = a.keeps x n h in
      let (n'', h'', v', l') = b.keeps x n' h' in (n'', h'', v' ∙ v, l' ∙ l);
}

pub Known-Extends :
    {F S : Type 0} (g g' : HnswGraph F) (cs : List (Candidate S))
    → Extends g g'
    → Known g cs
    → Known g' cs
Known-Extends g g' cs w k x m = let (n, h) = k x m in let (n', h', _, _) = w.keeps x n h in (n', h')

-- The Insert's node, which is in the graph since Phase 1.
pub record HasNode {F S : Type 0} (g : HnswGraph F) (t : Inserting F S) : Type 0 where
  pub node : Node F
  pub there : lookup t.id g.nodes ≡ some node
  pub vector : node.vector ≡ t.vector
  pub level : node.max_layer ≡ t.level
  pub named : str_eq t.id "" ≡ false

-- The layer is one of the Insert's node, the lists name stored nodes, the links to write are few
-- enough, and the neighbour to link back has the layer.
abbrev pub Placed : {F S : Type 0} → HnswGraph F → ℕ → Stage S → Type 0
Placed g level (connecting layers) = layers ≤ suc level
Placed g level (linking lc cs) = (lc ≤ level) × (length cs ≤ max_links_at_layer g lc) × Known g cs
Placed g level (wiring lc cs) = (lc ≤ level) × Known g cs
Placed {F} g level (scored lc nbr_id all cs) =
    (lc ≤ level)
    × Known g cs
    × Known g all
    × ((nbr : Node F) × (lookup nbr_id g.nodes ≡ some nbr) × (lc ≤ nbr.max_layer))

pub record IsReady {F S : Type 0} (g : HnswGraph F) (t : Inserting F S) : Type 0 where
  pub has : HasNode g t
  pub placed : Placed g t.level t.stage

pub HasNode-Extends :
    {F S : Type 0} (g g' : HnswGraph F) (t : Inserting F S)
    → Extends g g'
    → HasNode g t
    → HasNode g' t
HasNode-Extends g g' t w h =
    let (n', there, v, l) = w.keeps t.id h.node h.there in
    record { node = n'; there = there; vector = v ∙ h.vector; level = l ∙ h.level; named = h.named }

Placed-Extends :
    {F S : Type 0} (g g' : HnswGraph F) (level : ℕ) (stage : Stage S)
    → Extends g g'
    → Placed g level stage
    → Placed g' level stage
Placed-Extends g g' level (connecting layers) w p = p
Placed-Extends g g' level (linking lc cs) w p =
    (p.0, rw (w.same_m, w.same_m_max0) p.1, Known-Extends g g' cs w p.2)
Placed-Extends g g' level (wiring lc cs) w p = (p.0, Known-Extends g g' cs w p.1)
Placed-Extends g g' level (scored lc nbr_id all cs) w
      (low, known, known_all, (nbr, there, within)) =
    let (nbr', there', _, l) = w.keeps nbr_id nbr there in
    (
      low,
      Known-Extends g g' cs w known,
      Known-Extends g g' all w known_all,
      (nbr', there', rw l within),
    )

pub IsReady-Extends :
    {F S : Type 0} (g g' : HnswGraph F) (t : Inserting F S)
    → Extends g g'
    → IsReady g t
    → IsReady g' t
IsReady-Extends g g' t w r = record {
  has = HasNode-Extends g g' t w r.has;
  placed = Placed-Extends g g' t.level t.stage w r.placed;
}
