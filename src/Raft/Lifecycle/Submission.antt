-- ===== src/Raft/Lifecycle/Submission.antt =====
-- Start: what becomes of a proposed command.
use vector_store.Prelude.{
  ℕ, suc, ◌≡◌, refl, ap, ◌⊎◌, inl, inr, Bool, true, false, some, none, not, arith, List, [], ◌∷◌,
  ◌++◌, length, length-append, ℤ, pos, ◌-ℤ◌, pos-suc--ℤ-one, store, Ensures, returned, Ensures-bind,
  Ensures-if, Ensures-run, Returns, Returns-if, ltb, set, length-set, ◌∙◌, ok,
}
use vector_store.Raft.State.{Raft, LogEntry, is_leader, int_length, advance_commit_index}
use vector_store.Raft.State.Commit.{IsSized, advance_commit_index-Highest}
use vector_store.Raft.State.Frame.{advance_commit_index-OnlyCommits}
use vector_store.Raft.Lifecycle.{InsertCommand, CommandCodec, start, command_bytes, apply_msg}

pub grown_last :
    (log : List LogEntry) (e : LogEntry) → int_length (log ++ e ∷ []) -ℤ pos 1 ≡ pos (length log)
unfolding ◌-ℤ◌
grown_last log e =
    let size : length (log ++ e ∷ []) ≡ suc (length log) =
      omega (arith, length-append log (e ∷ [])) in
    rw size (pos-suc--ℤ-one (length log))

module _ {F : Type 0} (codec : CommandCodec F) where
  -- The entry of a command that a node proposes.
  abbrev pub entry_of : Raft → InsertCommand F → LogEntry
  entry_of rf cmd = record { term = rf.current_term; command = command_bytes codec cmd }

  -- The leader put an entry of its term at the end of its log, and says where. Where the command
  -- has an encoding, the apply loop delivers it from that entry; where it has none, the apply loop
  -- takes the entry for a no-op.
  pub record Submitted (rf : Raft) (cmd : InsertCommand F) (rf' : Raft) (index : ℤ) : Type 0 where
    pub leads : is_leader rf.role ≡ true
    pub entry : LogEntry
    pub appends : rf'.log ≡ rf.log ++ entry ∷ []
    pub at_term : entry.term ≡ rf.current_term
    pub at_end : index ≡ pos (length rf.log)
    pub delivers :
        (b : List ℕ)
        → codec.marshal cmd ≡ some b
        → (entry.command ≡ b)
          × ((apply_msg codec index entry).command_valid ≡ true)
          × ((apply_msg codec index entry).command ≡ cmd)
    pub loses : codec.marshal cmd ≡ none → (apply_msg codec index entry).command_valid ≡ false

  abbrev pub Started : Raft → InsertCommand F → Raft × ℤ × ℤ × Bool → Type 0
  Started rf cmd (rf', index, term, accepted) =
      ((accepted ≡ false) × (is_leader rf.role ≡ false) × (rf' ≡ rf))
      ⊎ ((accepted ≡ true) × (term ≡ rf.current_term) × Submitted rf cmd rf' index)

  bytes-some :
      (cmd : InsertCommand F) (b : List ℕ)
      → codec.marshal cmd ≡ some b
      → command_bytes codec cmd ≡ b
  unfolding command_bytes
  bytes-some cmd b e = rw (e, command_bytes) refl

  bytes-none : (cmd : InsertCommand F) → codec.marshal cmd ≡ none → command_bytes codec cmd ≡ []
  unfolding command_bytes
  bytes-none cmd e = rw (e, command_bytes) refl

  entry_of-delivers :
      (rf : Raft) (cmd : InsertCommand F) (index : ℤ) (b : List ℕ)
      → codec.marshal cmd ≡ some b
      → ((entry_of rf cmd).command ≡ b)
        × ((apply_msg codec index (entry_of rf cmd)).command_valid ≡ true)
        × ((apply_msg codec index (entry_of rf cmd)).command ≡ cmd)
  unfolding apply_msg
  entry_of-delivers rf cmd index b e =
      let some_bytes = codec.marshal-nonempty cmd b e in
      let back = codec.unmarshal-marshal cmd b e in
      rw (bytes-some cmd b e, some_bytes, back) (refl, refl, refl)

  entry_of-loses :
      (rf : Raft) (cmd : InsertCommand F) (index : ℤ)
      → codec.marshal cmd ≡ none
      → (apply_msg codec index (entry_of rf cmd)).command_valid ≡ false
  unfolding apply_msg
  entry_of-loses rf cmd index e = rw (bytes-none cmd e) refl

  pub start-Ensures :
      (rf : Raft) (cmd : InsertCommand F) → Ensures (Started rf cmd) (start codec rf cmd)
  unfolding start
  start-Ensures rf cmd =
      let grown = rf.log ++ entry_of rf cmd ∷ [] in
      Ensures-if (not (is_leader rf.role)) (λ no. returned (inl (refl, ground arith, refl)))
        λ yes.
          Ensures-bind (store rf.match_index (pos rf.me) (int_length grown -ℤ pos 1)) λ matches _.
            Ensures-bind (advance_commit_index (record rf { log = grown; match_index = matches }))
              λ rf' h. returned (
                inr (
                  refl,
                  refl,
                  record {
                    leads = ground arith;
                    entry = entry_of rf cmd;
                    appends = ap (λ r. r.log) (advance_commit_index-OnlyCommits _ rf' h).frame;
                    at_term = refl;
                    at_end = grown_last rf.log (entry_of rf cmd);
                    delivers = entry_of-delivers rf cmd (int_length grown -ℤ pos 1);
                    loses = entry_of-loses rf cmd (int_length grown -ℤ pos 1);
                  },
                ))

  -- The leader with the command's entry, which it holds itself.
  abbrev grown : Raft → InsertCommand F → Raft
  grown rf cmd = record rf {
    log = rf.log ++ entry_of rf cmd ∷ [];
    match_index = set rf.match_index rf.me (pos (length rf.log));
  }

  grown-IsSized : (rf : Raft) (cmd : InsertCommand F) → IsSized rf → IsSized (grown rf cmd)
  grown-IsSized rf cmd s = record {
    matches = length-set rf.match_index rf.me (pos (length rf.log)) ∙ s.matches;
    nexts = s.nexts;
    clients = s.clients;
    self = s.self;
    commits = s.commits;
  }

  start-Returns : (rf : Raft) (cmd : InsertCommand F) → IsSized rf → Returns (start codec rf cmd)
  unfolding start
  start-Returns rf cmd s =
      let (c, ran, _) = advance_commit_index-Highest (grown rf cmd) (grown-IsSized rf cmd s) in
      let inside : ltb rf.me (length rf.match_index) ≡ true = ground (arith, s.matches, s.self) in
      Returns-if (not (is_leader rf.role)) (λ _. (_, refl))
        λ _. rw (grown_last rf.log (entry_of rf cmd), inside, ran) (_, refl)

  -- Start returns, on a node whose lists fit its cluster. A node that is no leader refuses and
  -- changes nothing. A leader has one more entry at the end of its log, of its term, and answers
  -- with the entry's index and term: where the command can be encoded, the entry holds its bytes,
  -- and the message that the apply loop makes of it is valid and has the command; where it cannot,
  -- that message is one of a no-op.
  pub start-Started :
      (rf : Raft) (cmd : InsertCommand F)
      → IsSized rf
      → (r : Raft × ℤ × ℤ × Bool) × (start codec rf cmd ≡ ok r) × Started rf cmd r
  start-Started rf cmd s =
      let (r, ran) = start-Returns rf cmd s in (r, ran, Ensures-run (start-Ensures rf cmd) ran)
