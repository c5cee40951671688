-- ===== src/Server/Searching.antt =====
-- Search of internal/network/grpc_server.go, which the local index answers.
use vector_store.Prelude.{
  ℕ, ◌≤◌, ◌≡◌, refl, ◌⊎◌, inl, inr, arith, Bool, true, Bool-cases, List, length, ◌==◌,
  if◌then◌else◌, ℤ, pos, negsuc, leb_ℤ, Run, ok, ◌>>=◌,
}
use vector_store.Index.{Candidate, HnswGraph}
use vector_store.Index.Search.{search}
use vector_store.Index.Search.Invariant.{Ranked}
use vector_store.Index.Insert.Keeping.{IsIndex}
use vector_store.Index.Insert.Refines.{Answers, search-Answers}
use vector_store.Server.{Code, invalid_argument}

-- S is float32. A pb.SearchResult has a name and a score.
pub data SearchReply (S : Type 0) : Type 0 where
  rejected : Code → SearchReply S
  results : List (Candidate S) → SearchReply S

module _ {F S : Type 0} (similarity : List F → List F → S) (below : S → S → Bool) where
  unfoldable pub serve_search : HnswGraph F → List F → ℤ → Run (SearchReply S)
  serve_search index query_vector top_k =
      let searched =
        search similarity below index query_vector top_k >>= λ found. ok (results found) in
      if length query_vector == 0
      then ok (rejected invalid_argument)
      else if leb_ℤ top_k (pos 0)
      then ok (rejected invalid_argument)
      else searched

  -- What the client is told: an error for an empty query or a top_k that is not positive, and else
  -- the answer of the index.
  pub data Served (ranks : Ranked below) (g : HnswGraph F) (query : List F) (top_k : ℤ)
      : SearchReply S → Type 0 where
    bad_request :
        ((length query ≡ 0) ⊎ (leb_ℤ top_k (pos 0) ≡ true))
        → Served ranks g query top_k (rejected invalid_argument)
    answered :
        (k : ℕ) (out : List (Candidate S))
        → top_k ≡ pos k
        → 1 ≤ k
        → 1 ≤ length query
        → Answers similarity below ranks g query k out
        → Served ranks g query top_k (results out)

  -- Where scores compare like numbers, the Search call returns on any index that keeps the invariant, whatever the query and top_k
  -- are: it rejects an empty query and a top_k that is not positive as invalid, and answers every
  -- other request from the index.
  pub serve_search-Served :
      (ranks : Ranked below) (g : HnswGraph F) (query : List F) (top_k : ℤ)
      → IsIndex g
      → (reply : SearchReply S) × (serve_search g query top_k ≡ ok reply)
        × Served ranks g query top_k reply
  unfolding serve_search
  serve_search-Served ranks g query (negsuc n) i = elim (Bool-cases (length query == 0)) [
    | inl empty ↦ (_, rw empty refl, bad_request (inl (ground arith)))
    | inr asked ↦
        let low : leb_ℤ (negsuc n) (pos 0) ≡ true = ground arith in
        (_, rw (asked, low) refl, bad_request (inr low))
  ]
  serve_search-Served ranks g query (pos k) i = elim (Bool-cases (length query == 0)) [
    | inl empty ↦ (_, rw empty refl, bad_request (inl (ground arith)))
    | inr asked ↦ elim (Bool-cases (leb_ℤ (pos k) (pos 0))) [
      | inl low ↦ (_, rw (asked, low) refl, bad_request (inr low))
      | inr some_k ↦
          let (out, ran, a) = search-Answers similarity below ranks g query k i in
          (_, rw (asked, some_k, ran) refl, answered k out refl (ground arith) (ground arith) a)
    ]
  ]
