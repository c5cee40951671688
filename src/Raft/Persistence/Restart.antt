-- ===== src/Raft/Persistence/Restart.antt =====
-- A snapshot and its restoration: what survives a restart, and what a failing disk leaves.
use Prim.Native.String.{String, [] as end_of_text, ◌∷◌ as add_char, count, ◌++◌ as append}
use Prim.Native.String.append.{nil as append_nil, cons as append_cons}
use Prim.Native.String.count.{nil as count_nil, cons as count_cons}
use text.Mathlib.Text.{◌==◌ as str_eq}
use text.Mathlib.TextEquality.{eq_iff}
use vector_store.Prelude.{
  str_eq_self, ℕ, suc, ◌+◌, ◌≡◌, refl, ap, ◌∙◌, ◌⊎◌, inl, inr, Bool, true, false, Bool-cases,
  Option-cases, arith, List, some, if◌then◌else◌, minus_one,
}
use vector_store.Raft.State.{Raft, follower, is_leader}
use vector_store.Raft.Lifecycle.{blank_node}
use vector_store.Raft.Persistence.{
  StateCodec, Disk, WriteResult, written, write_failed, put_file, rename_file, snapshot, tmp_path,
  commit_file, persist, shutdown, load_bytes, load_state, make,
}

longer : (s t : String) → count (append s t) ≡ count s + count t
longer end_of_text t =
    let whole : count (append end_of_text t) ≡ count t = ap count (append_nil t) in
    let zero_long : count end_of_text ≡ 0 = count_nil in omega (arith, whole, zero_long)
longer (add_char c s) t =
    let moved : append (add_char c s) t ≡ add_char c (append s t) = append_cons c s t in
    let whole : count (append (add_char c s) t) ≡ suc (count (append s t)) =
      ap count moved ∙ count_cons c (append s t) in
    let one_more : count (add_char c s) ≡ suc (count s) = count_cons c s in
    omega (arith, whole, one_more, longer s t)

-- A temporary file has another path.
tmp_path-other : (path : String) → str_eq path (tmp_path path) ≡ false
tmp_path-other path = elim (Bool-cases (str_eq path (tmp_path path))) [
  | inl same ↦
      let equal : path ≡ append path ".tmp" = (eq_iff path (tmp_path path)).0 same in
      absurd (omega (arith, ap count equal, longer path ".tmp"))
  | inr other ↦ other
]

-- What a snapshot may leave: the file that was there or all of the new one, and every file but the
-- snapshot and its temporary file as before.
pub record Atomic (codec : StateCodec) (rf : Raft) (disk after : Disk) : Type 0 where
  pub whole :
      (after rf.persist_path ≡ disk rf.persist_path)
      ⊎ ((b : List ℕ) × (codec.marshal (snapshot rf) ≡ some b) × (after rf.persist_path ≡ some b))
  pub others :
      (q : String)
      → str_eq q rf.persist_path ≡ false
      → str_eq q (tmp_path rf.persist_path) ≡ false
      → after q ≡ disk q

module _ (codec : StateCodec) where
  commit_file-saved :
      (disk : Disk) (path : String) (bytes : List ℕ)
      → commit_file codec disk path bytes written true path ≡ some bytes
  unfolding put_file rename_file
  commit_file-saved disk path bytes =
      rw (tmp_path-other path, str_eq_self path, str_eq_self (tmp_path path)) refl

  commit_file-Atomic :
      (rf : Raft) (disk : Disk) (bytes : List ℕ) (wrote : WriteResult) (renamed : Bool)
      → codec.marshal (snapshot rf) ≡ some bytes
      → Atomic codec rf disk (commit_file codec disk rf.persist_path bytes wrote renamed)
  unfolding put_file rename_file
  commit_file-Atomic rf disk bytes written true e = record {
    whole = inr (bytes, e, commit_file-saved disk rf.persist_path bytes);
    others = λ q no_path no_tmp. rw (no_path, no_tmp) refl;
  }
  commit_file-Atomic rf disk bytes written false e = record {
    whole = inl (rw (tmp_path-other rf.persist_path) refl);
    others = λ q no_path no_tmp. rw no_tmp refl;
  }
  commit_file-Atomic rf disk bytes (write_failed left) renamed e = record {
    whole = inl (rw (tmp_path-other rf.persist_path) refl);
    others = λ q no_path no_tmp. rw no_tmp refl;
  }

  -- However the writing and the renaming of a snapshot end, the file at the node's path is the one
  -- that was there or the whole new snapshot, and no file changes but it and its temporary file.
  pub persist-Atomic :
      (rf : Raft) (disk : Disk) (wrote : WriteResult) (renamed : Bool)
      → Atomic codec rf disk (persist codec rf disk wrote renamed)
  unfolding persist
  persist-Atomic rf disk wrote renamed = elim (Bool-cases (str_eq rf.persist_path "")) [
    | inl disabled ↦
        let none_written : persist codec rf disk wrote renamed ≡ disk =
          rw (persist, disabled) refl in
        rw none_written (record { whole = inl refl; others = λ q a b. refl })
    | inr enabled ↦ elim (Option-cases (codec.marshal (snapshot rf))) [
      | inl refused ↦
          let none_written : persist codec rf disk wrote renamed ≡ disk =
            rw (persist, enabled, refused) refl in
          rw none_written (record { whole = inl refl; others = λ q a b. refl })
      | inr (bytes, e) ↦
          let is : persist codec rf disk wrote renamed
              ≡ commit_file codec disk rf.persist_path bytes wrote renamed =
            rw (persist, enabled, e) refl in
          rw is (commit_file-Atomic rf disk bytes wrote renamed e)
    ]
  ]

  persist-saved :
      (rf : Raft) (disk : Disk) (bytes : List ℕ)
      → str_eq rf.persist_path "" ≡ false
      → codec.marshal (snapshot rf) ≡ some bytes
      → persist codec rf disk written true rf.persist_path ≡ some bytes
  unfolding persist
  persist-saved rf disk bytes enabled e =
      let is : persist codec rf disk written true
          ≡ commit_file codec disk rf.persist_path bytes written true =
        rw (persist, enabled, e) refl in
      rw is (commit_file-saved disk rf.persist_path bytes)

  shutdown-saved :
      (rf : Raft) (disk : Disk) (bytes : List ℕ)
      → str_eq rf.persist_path "" ≡ false
      → codec.marshal (snapshot rf) ≡ some bytes
      → (shutdown codec rf disk written true).1 rf.persist_path ≡ some bytes
  unfolding shutdown snapshot
  shutdown-saved rf disk bytes enabled e = either (is_leader rf.role)
    where
      either :
          (b : Bool)
          → persist codec
              (if b then record rf { role = follower; leader_id = minus_one } else rf)
              disk
              written
              true
              rf.persist_path
            ≡ some bytes
      either true =
          persist-saved (record rf { role = follower; leader_id = minus_one }) disk bytes enabled e
      either false = persist-saved rf disk bytes enabled e

  -- A node that is shut down with persistence on, where its state can be encoded and the file is
  -- written and renamed, and is made again on that path, has its term, its vote, its log and its
  -- commit index again, and is in all else a new node that has applied nothing.
  pub make-shutdown :
      (rf : Raft) (disk : Disk) (bytes : List ℕ) (addrs : List String) (dials : List Bool)
      (me now : ℕ)
      → str_eq rf.persist_path "" ≡ false
      → codec.marshal (snapshot rf) ≡ some bytes
      → make codec addrs dials me rf.persist_path now (shutdown codec rf disk written true).1
        ≡ record (blank_node addrs dials me rf.persist_path now) {
          current_term = rf.current_term;
          voted_for = rf.voted_for;
          log = rf.log;
          commit_index = rf.commit_index;
        }
  unfolding make load_state blank_node snapshot
  make-shutdown rf disk bytes addrs dials me now enabled e =
      rw
        (
          enabled,
          shutdown-saved rf disk bytes enabled e,
          load_bytes,
          codec.unmarshal-marshal (snapshot rf) bytes e,
        )
        refl
