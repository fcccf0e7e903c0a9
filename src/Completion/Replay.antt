-- ===== src/Completion/Replay.antt =====
-- A recorded response is replayed until it expires.
use veilid_http.Prelude.{
  ℕ, zero, suc, ◌≤◌, ◌<◌, ◌≡◌, refl, ap, sym, ◌∙◌, true, false, Option, none, some, [], ◌∷◌, ltb,
  leb, bytes_eq, bytes_eq_refl, arith, Bool-cases, Option-cases, inl, inr, length,
}
use veilid_http.Prelude.Words.{u64_max, saturating_add}
use veilid_http.Prelude.HashMap.{
  Key, get, insert, remove, Distinct, get-insert, get-remove, Distinct-remove, Distinct-insert,
}
use veilid_http.Completion.{
  Bytes, Entries, Entry, in_flight, complete, CompletionStore, retained, CompletionClaim, replay,
  completed_count, oldest, evict, enforce_completed_limit_locked, record_completion, claim,
  expired_keys, prune_locked,
}
use veilid_http.Completion.Claims.{get-prune_locked, has_expired, Distinct-remove_all}
use veilid_http.Completion.Retention.{earlier-from}

oldest-other :
    (p i : Key) (u : ℕ) (m : Entries) → oldest (some p) m ≡ some (i, u) → bytes_eq i p ≡ false
unfolding oldest
oldest-other p i u [] e = cc
oldest-other p i u ((id, in_flight n) ∷ m) e = oldest-other p i u m e
oldest-other p i u ((id, complete r t) ∷ m) e = elim (Bool-cases (bytes_eq id p)) [
  | inl q ↦ oldest-other p i u m (rw q at e)
  | inr q ↦ elim (earlier-from id i t u (oldest (some p) m) (rw q at e)) [
    | inl same ↦ ap (λ k. bytes_eq k p) (sym same) ∙ q
    | inr found ↦ oldest-other p i u m found
  ]
]

-- Eviction keeps the entry that has just been recorded.
pub get-evict :
    (fuel : ℕ) (p : Key) (limit : ℕ) (m : Entries)
    → Distinct m
    → (get p (evict fuel (some p) limit m).1 ≡ get p m) × Distinct (evict fuel (some p) limit m).1
unfolding evict
get-evict zero p limit m d = (refl, d)
get-evict (suc fuel) p limit m d = elim (Bool-cases (ltb limit (completed_count m))) [
  | inr q ↦ rw (q, evict) (refl, d)
  | inl q ↦ elim (Option-cases (oldest (some p) m)) [
    | inl e ↦ rw (q, e, evict) (refl, d)
    | inr ((i, u), e) ↦
        let (same, d') = get-evict fuel p limit (remove i m) (Distinct-remove i m d) in
        rw (q, e, evict) (same ∙ (get-remove i p m d ∙ rw (oldest-other p i u m e) refl), d')
  ]
]

-- What was recorded is there until it expires.
get-record_completion :
    (now pruned_at now' : ℕ) (id : Key) (body : Option Bytes) (s : CompletionStore)
    → Distinct s.entries
    → now' < saturating_add u64_max now s.retention
    → get id (prune_locked now' (record_completion (some now) pruned_at id body s).1).entries
      ≡ some
          (complete (retained s.max_response_bytes body) (saturating_add u64_max now s.retention))
unfolding record_completion enforce_completed_limit_locked prune_locked has_expired
get-record_completion now pruned_at now' id body s d fresh =
    get-prune_locked now' id s' evicted.1 ∙ rw found (ground arith)
  where
    s' : CompletionStore
    s' = (record_completion (some now) pruned_at id body s).1

    pruned : Distinct (prune_locked pruned_at s).entries
    pruned = Distinct-remove_all (expired_keys pruned_at s.entries) s.entries d

    entry : Entry
    entry = complete (retained s.max_response_bytes body) (saturating_add u64_max now s.retention)

    m : Entries
    m = insert id entry (remove id (prune_locked pruned_at s).entries)

    distinct : Distinct m
    distinct =
        Distinct-insert id entry (remove id (prune_locked pruned_at s).entries)
          (Distinct-remove id (prune_locked pruned_at s).entries pruned)

    evicted : (get id s'.entries ≡ get id m) × Distinct s'.entries
    evicted = get-evict (length m) id s.max_completed_entries m distinct

    found : get id s'.entries ≡ some entry
    found =
        evicted.0
        ∙ (get-insert id id entry (remove id (prune_locked pruned_at s).entries)
            ∙ rw (bytes_eq_refl id) refl)

-- On entries with distinct keys: once a response of at most `max_response_bytes` has been recorded
-- while the clock read `now`, a claim of its transaction that is the next operation on the store, at
-- any time before `now + retention`, is answered that response, also where `record` pruned and evicted
-- other entries.
pub claim-record_completion :
    (now pruned_at now' : ℕ) (id : Key) (body : Bytes) (s : CompletionStore)
    → Distinct s.entries
    → length body ≤ s.max_response_bytes
    → now' < saturating_add u64_max now s.retention
    → (claim now' id (record_completion (some now) pruned_at id (some body) s).1).0 ≡ replay body
unfolding claim
claim-record_completion now pruned_at now' id body s d small fresh =
    let fits : leb (length body) s.max_response_bytes ≡ true = ground arith in
    rw (get-record_completion now pruned_at now' id (some body) s d fresh, claim, fits) refl

-- A transaction that was recorded without a response is a tombstone until it expires, and the claim
-- leaves the store as `prune_locked` does.
pub claim-record_tombstone :
    (now pruned_at now' : ℕ) (id : Key) (s : CompletionStore)
    → Distinct s.entries
    → now' < saturating_add u64_max now s.retention
    → claim now' id (record_completion (some now) pruned_at id none s).1 ≡ (
      CompletionClaim.tombstone,
      prune_locked now' (record_completion (some now) pruned_at id none s).1,
    )
unfolding claim
claim-record_tombstone now pruned_at now' id s d fresh =
    rw (get-record_completion now pruned_at now' id none s d fresh, claim) refl
