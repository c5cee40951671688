-- ===== src/Server/Routing.antt =====
-- Insert: how often a request is sent on.
use Prim.Native.String.{String}
use vector_store.Prelude.{
  ℕ, zero, suc, ◌+◌, ◌≤◌, ◌≡◌, refl, inl, inr, Bool, false, arith, List, [], ◌∷◌, Option, some,
  none, Option-cases, Bool-cases, ℤ, pos, negsuc, pos_part, neg_part, ◌+ℤ◌, ◌≤ℤ◌, +ℤ_parts, ltb_ℤ,
  ok, Ensures-run,
}
use vector_store.Raft.State.{Raft}
use vector_store.Raft.Lifecycle.{CommandCodec}
use vector_store.Applier.{CommitNotifier}
use vector_store.Server.{Decimal, VectorDbServer, InsertRequest, forwarded, incoming_hops, insert}
use vector_store.Server.Outcomes.{insert-Ensures}

-- The passage of one request through the cluster: any nodes, whose clients can be dialled or not,
-- each send it on to the next, until one does not, with any steps of their other goroutines. The index is the metadata that it comes with.
module _ {F : Type 0} (dec : Decimal) (codec : CommandCodec F) (checksum : String → ℕ) where
  pub data Trail (req : InsertRequest F) : Option (List String) → ℕ → Type 0 where
    arrived : {md : Option (List String)} → Trail req md 0
    sent_on :
        {md : Option (List String)} {n : ℕ} (dials : String → Bool)
        (between : Raft × CommitNotifier → Raft × CommitNotifier) (s s' : VectorDbServer)
        (addr : String) (k : ℤ)
        → insert codec checksum dials between s req (incoming_hops dec md)
          ≡ ok (s', forwarded addr k req)
        → Trail req (some (dec.itoa k ∷ [])) n
        → Trail req md (suc n)

  incoming_hops-itoa : (k : ℤ) → pos 0 ≤ℤ k → incoming_hops dec (some (dec.itoa k ∷ [])) ≡ k
  unfolding incoming_hops
  incoming_hops-itoa (pos n) h =
      let sound : ltb_ℤ (pos n) (pos 0) ≡ false = ground arith in
      rw (incoming_hops, dec.atoi-itoa n, sound) refl
  incoming_hops-itoa (negsuc n) h = absurd (omega arith)

  incoming_hops-natural : (md : Option (List String)) → neg_part (incoming_hops dec md) ≡ 0
  unfolding incoming_hops
  incoming_hops-natural none = refl
  incoming_hops-natural (some []) = refl
  incoming_hops-natural (some (v ∷ vals)) = elim (Option-cases (dec.atoi v)) [
    | inl unreadable ↦ rw (unreadable, incoming_hops) refl
    | inr (n, read) ↦ elim (Bool-cases (ltb_ℤ n (pos 0))) [
      | inl negative ↦ rw (read, negative, incoming_hops) refl
      | inr natural ↦ rw (read, natural, incoming_hops) (ground arith)
    ]
  ]

  Trail-hops :
      (req : InsertRequest F) (md : Option (List String)) (n : ℕ)
      → Trail req md (suc n)
      → suc n + pos_part (incoming_hops dec md) ≤ 2
  Trail-hops req md zero (sent_on dials between s s' addr k h t) =
      let f =
        Ensures-run (insert-Ensures codec checksum dials between s req (incoming_hops dec md)) h in
      let one = +ℤ_parts (incoming_hops dec md) (pos 1) in
      let bounded : incoming_hops dec md +ℤ pos 1 ≤ℤ pos 2 = rw (← f.counts) f.bounded in
      omega (arith, one, bounded, incoming_hops-natural md)
  Trail-hops req md (suc n) (sent_on dials between s s' addr k h t) =
      let f =
        Ensures-run (insert-Ensures codec checksum dials between s req (incoming_hops dec md)) h in
      let one = +ℤ_parts (incoming_hops dec md) (pos 1) in
      let before = incoming_hops-natural md in
      let natural : pos 0 ≤ℤ k = rw f.counts (omega (arith, one, before)) in
      let carried = incoming_hops-itoa k natural in
      let later = Trail-hops req (some (dec.itoa k ∷ [])) n t in
      let rest : suc n + pos_part k ≤ 2 = rw carried at later in
      let fewer : suc n + pos_part (incoming_hops dec md +ℤ pos 1) ≤ 2 = rw (← f.counts) rest in
      omega (arith, one, before, fewer)

  -- However the nodes know the ring and the leader, a request is sent on at most twice, whatever
  -- hop count it comes with.
  pub Trail-bounded :
      (req : InsertRequest F) (md : Option (List String)) (n : ℕ) → Trail req md n → n ≤ 2
  Trail-bounded req md zero t = omega arith
  Trail-bounded req md (suc n) t = omega (arith, Trail-hops req md n t)
