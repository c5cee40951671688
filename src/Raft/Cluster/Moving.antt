-- ===== src/Raft/Cluster/Moving.antt =====
-- Every move of the cluster keeps the elections of the term fair, and its leaders elected.
use vector_store.Prelude.{
  update_at, update_other, ℕ, ◌+◌, ◌/◌, ◌^◌, ◌≤◌, ◌<◌, ◌≡◌, sym, ap, ◌∙◌, inl, inr, true, some,
  subst, ℕ_discrete, arith, length, ℤ, pos, eqb_ℤ, eqb_ℤ→eq, eqb_ℤ_self, int32, int32-eq, InInt32,
  Bool-cases, List, [], ◌∷◌, ok, Ensures-run,
}
use vector_store.Raft.State.{Raft, is_leader, VoteRequest, VoteResponse}
use vector_store.Raft.Election.{request_vote, Election, election_tick, vote_reply}
use vector_store.Raft.Lifecycle.{CommandCodec}
use vector_store.Raft.Persistence.{StateCodec}
use vector_store.Raft.Steps.Frames.{request_vote-Grows}
use vector_store.Raft.Steps.Elections.{election_tick-Grows, vote_reply-Grows}
use vector_store.Raft.Steps.Votes.{request_vote-Voted}
use vector_store.Raft.Cluster.{
  sent, answered, delivered, Cluster, with_node, with_call, with_campaign, opened, Move, other,
  stand_up, ask, count, Undisturbed,
}
use vector_store.Raft.Cluster.Roles.{Steady-refl, request_vote-Steady}
use vector_store.Raft.Cluster.Campaigns.{vote_reply-Counted, Entered, election_tick-Ticked}
use vector_store.Raft.Cluster.Invariant.{
  is_yes, is_tallied, tally, Bound, Bound-later, IsCounting, Fair, with_node-each, with_node-Fair,
  Won, LeadersWon, with_node-LeadersWon,
}
use vector_store.Raft.Cluster.Kept.{
  Bound-once, tally-with_call, with_call-Fair, with_campaign-Fair, tally-delivered, entered,
  entered-Fair,
}
use vector_store.Raft.Cluster.Quiet.{Quiet, Steady-Quiet, Step-Quiet, Step-Bound}

some-injective_at : (e e₁ : Election) → some e ≡ some e₁ → e ≡ e₁
some-injective_at e e₁ h = cc

Won-with_campaign :
    (c : Cluster) (k : ℕ) (e e' : Election)
    → c.campaign k ≡ some e
    → (e.majority ≤ e.votes → e'.majority ≤ e'.votes)
    → (i : ℕ) → Won c i
    → Won (with_campaign c k e') i
Won-with_campaign c k e e' mine kept i (e₁, at, won) = elim (ℕ_discrete i k) [
  | yes is ↦
      let same : some e ≡ some e₁ = sym mine ∙ (rw is at at) in
      let old : e.majority ≤ e.votes =
        subst (λ x. x.majority ≤ x.votes) (sym (some-injective_at e e₁ same)) won in
      (e', rw is (update_at c.campaign k (some e')), kept old)
  | no ne ↦ (e₁, update_other c.campaign k i (some e') ne ∙ at, won)
]

-- What the moves keep.
pub record Elects (n : ℕ) (t : ℤ) (c : Cluster) : Type 0 where
  pub fair : Fair n t c
  pub won : LeadersWon t c

module _ (n : ℕ) (t : ℤ) (c : Cluster) (k : ℕ) where
  -- A node goes on, and leads the term only if it did.
  goes_on-Elects :
      (rf : Raft)
      → Quiet t (c.node k) rf
      → ((i : ℕ) → Bound t (c.node k) i → Bound t rf i)
      → Elects n t c
      → Elects n t (with_node c k rf)
  goes_on-Elects rf q keeps s = record {
    fair = with_node-Fair n t c k rf q.same keeps s.fair;
    won =
        with_node-LeadersWon t c k rf
          (λ l at. let (led, before) = q.leads l at in s.won k led before) s.won;
  }

  -- Node p answers node k.
  ask-Elects :
      (p now : ℕ) (req : VoteRequest) (rf : Raft) (resp : VoteResponse)
      → c.calls k p ≡ sent req
      → request_vote (c.node p) req now ≡ ok (rf, resp)
      → Elects n t c
      → Elects n t (with_call (with_node c p rf) k p (answered resp))
  ask-Elects p now req rf resp at h s =
      let order = (Ensures-run (request_vote-Grows (c.node p) req now) h).order in
      let quiet =
        Steady-Quiet t (c.node p) rf (Ensures-run (request_vote-Steady (c.node p) req now) h) in
      let (in_term, own_name) = s.fair.asks k p req at in
      let fair =
        with_node-Fair n t c p rf quiet.same (λ i. Bound-later t (c.node p) rf i order) s.fair in
      let now_is : (with_node c p rf).node p ≡ rf = update_at c.node p rf in
      let voted : resp.vote_granted ≡ true → (rf.current_term ≡ t) × (rf.voted_for ≡ pos k) =
        λ yes_vote.
          let v = request_vote-Voted (c.node p) rf req now resp h yes_vote in
          (v.term ∙ in_term, v.vote ∙ own_name) in
      record {
        fair =
            with_call-Fair n t (with_node c p rf) k p (answered resp) (λ r e. cc)
              (λ counted. let silent = ap is_tallied at in cc)
              (λ yes_vote. rw now_is (inr (voted yes_vote)))
              (λ yes_vote j other.
                Bound-once t rf k j (voted yes_vote).0 (voted yes_vote).1
                  (rw now_is at (fair.bound j p other)))
              fair;
        won =
            with_node-LeadersWon t c p rf
              (λ l at_t. let (led, before) = quiet.leads l at_t in s.won p led before) s.won;
      }

  -- Node k counts the answer of node p.
  count-Elects :
      (p : ℕ) (resp : VoteResponse) (e e' : Election) (rf : Raft)
      → p < n
      → c.calls k p ≡ answered resp
      → c.campaign k ≡ some e
      → vote_reply (c.node k) e resp ≡ ok (rf, e')
      → Elects n t c
      → Elects n t (with_node (with_campaign (with_call c k p (delivered resp)) k e') k rf)
  count-Elects p resp e e' rf lt at mine h s =
      let counted = Ensures-run (vote_reply-Counted (c.node k) e resp) h in
      let order = (Ensures-run (vote_reply-Grows (c.node k) e resp) h).order in
      let is = s.fair.counts k e mine in
      let told = with_call c k p (delivered resp) in
      let silent : is_tallied (c.calls k p) ≡ true → is_tallied (delivered resp) ≡ true =
        λ h. let untold = ap is_tallied at in cc in
      let fair : Fair n t told =
        with_call-Fair n t c k p (delivered resp) (λ r e. cc) silent
          (λ granted. s.fair.bound k p (ap is_yes at ∙ granted))
          (λ granted j other. s.fair.agree j k p other (ap is_yes at ∙ granted)) s.fair in
      let enough : e'.votes ≤ tally n told k = elim counted.votes [
        | inl same ↦
            omega (arith, is.counted, same, tally-with_call n t c k p (delivered resp) silent k)
        | inr (more, granted) ↦
            omega (arith, is.counted, more, tally-delivered n c k p resp lt at granted)
      ] in
      let counting : IsCounting n t e' (tally n told k) = record {
        term = counted.term ∙ is.term;
        majority = counted.majority ∙ is.majority;
        counted = enough;
      } in
      let kept : e.majority ≤ e.votes → e'.majority ≤ e'.votes =
        λ won. ground (arith, counted.majority, counted.votes) in
      record {
        fair =
            with_node-Fair n t (with_campaign told k e') k rf counted.same
              (λ i. Bound-later t (c.node k) rf i order)
              (with_campaign-Fair n t told k e' counting fair);
        won =
            with_node-LeadersWon t (with_campaign told k e') k rf
              (λ l at_t. elim (counted.leads l) [
                | inl (led, stays) ↦
                    Won-with_campaign told k e e' mine kept k (s.won k led (sym stays ∙ at_t))
                | inr (won, _) ↦ (e', update_at c.campaign k (some e'), won)
              ])
              (λ i l at_t. Won-with_campaign told k e e' mine kept i (s.won i l at_t));
      }

  -- Node k stands for the term.
  enters-Elects :
      (rf : Raft) (e : Election)
      → InInt32 t
      → n ≤ 2 ^ 31
      → k < n
      → Entered (c.node k) rf e
      → ((i : ℕ) → Bound t (c.node k) i → Bound t rf i)
      → e.term ≡ t
      → Elects n t c
      → Elects n t (entered (with_node c k rf) k e)
  enters-Elects rf e fits few lt entering keeps ours s =
      let now_is : (with_node c k rf).node k ≡ rf = update_at c.node k rf in
      let who : (c.node k).me ≡ k = s.fair.me k in
      let own_name : int32 (pos k) ≡ pos k = int32-eq (pos k) (omega arith) in
      let size : length (c.node k).addrs ≡ n = s.fair.size k in
      record {
        fair =
            entered-Fair n t (with_node c k rf) k e lt ours
              (entering.majority ∙ ap (λ (m : ℕ). m / 2 + 1) size) entering.votes
              (ap (λ r. r.current_term) now_is ∙ entering.term ∙ ours)
              (ap (λ r. r.voted_for) now_is ∙ entering.vote ∙ ap pos who)
              (λ p req h.
                let (in_term, in_name) = entering.asks p req h in
                (
                  in_term ∙ ap int32 ours ∙ int32-eq t fits,
                  in_name ∙ ap (λ m. int32 (pos m)) who ∙ own_name,
                ))
              (with_node-Fair n t c k rf entering.same keeps s.fair);
        won =
            with_node-each
              (λ i r. is_leader r.role ≡ true → r.current_term ≡ t → Won (with_campaign c k e) i) c
              k rf
              (λ l at_t. (e, update_at c.campaign k (some e), rw entering.votes (entering.leads l)))
              (λ i ne l at_t.
                let (e₁, at, won) = s.won i l at_t in
                (e₁, update_other c.campaign k i (some e) ne ∙ at, won));
      }

  -- A round of the ticker of node k.
  stand_up-Elects :
      (begin now : ℕ) (rf : Raft) (started : List Election)
      → InInt32 t
      → n ≤ 2 ^ 31
      → k < n
      → election_tick (c.node k) begin now ≡ ok (rf, started)
      → Elects n t c
      → Elects n t (opened t (with_node c k rf) k started)
  unfolding opened
  stand_up-Elects begin now rf [] fits few lt h s =
      let same : rf ≡ c.node k = Ensures-run (election_tick-Ticked (c.node k) begin now) h in
      goes_on-Elects rf (rw same (Steady-Quiet t (c.node k) (c.node k) (Steady-refl (c.node k))))
        (λ i b. rw same b) s
  stand_up-Elects begin now rf (e ∷ es) fits few lt h s =
      let entering = Ensures-run (election_tick-Ticked (c.node k) begin now) h in
      let order = (Ensures-run (election_tick-Grows (c.node k) begin now) h).order in
      let keeps = λ (i : ℕ). Bound-later t (c.node k) rf i order in
      elim (Bool-cases (eqb_ℤ e.term t)) [
        | inl ours ↦
            rw ours (enters-Elects rf e fits few lt entering keeps (eqb_ℤ→eq e.term t ours) s)
        | inr theirs ↦ rw theirs (
            goes_on-Elects rf
              (record {
                same = entering.same;
                leads = λ l at.
                    let bad : eqb_ℤ e.term t ≡ true = rw (sym entering.term ∙ at) (eqb_ℤ_self t) in
                    cc;
              })
              keeps s)
      ]

module _ {F : Type 0} (commands : CommandCodec F) (states : StateCodec) (n : ℕ) (t : ℤ) where
  -- Every move that takes no vote of the term back keeps the elections fair.
  pub Move-Elects :
      (c c' : Cluster) (m : Move commands states n t c c')
      → InInt32 t
      → n ≤ 2 ^ 31
      → Undisturbed commands states n t c c' m
      → Elects n t c
      → Elects n t c'
  Move-Elects c c' (other i rf s away is) fits few calm h = rw is (
      goes_on-Elects n t c i rf (Step-Quiet commands states n t (c.node i) rf s away)
        (Step-Bound commands states n t (c.node i) rf s calm) h)
  Move-Elects c c' (stand_up i begin now rf started lt ran is) fits few calm h =
      rw is (stand_up-Elects n t c i begin now rf started fits few lt ran h)
  Move-Elects c c' (ask i p now req rf resp at ran is) fits few calm h =
      rw is (ask-Elects n t c i p now req rf resp at ran h)
  Move-Elects c c' (count i p resp e e' rf lt at mine ran is) fits few calm h =
      rw is (count-Elects n t c i p resp e e' rf lt at mine ran h)
