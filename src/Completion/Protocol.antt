-- ===== src/Completion/Protocol.antt =====
-- The completion store as its users drive it, in any order of operations.
use veilid_http.Prelude.{
  ℕ, ◌≤◌, ◌<◌, ◌≡◌, refl, Bool, true, false, ◌&&◌, Option, none, some, List, [], ltb, arith,
}
use veilid_http.Prelude.HashMap.{Key, get, Distinct}
use veilid_http.Wire.Reader.{Bytes}
use veilid_http.Completion.{
  Entry, in_flight, complete, CompletionStore, CompletionClaim, execute, prune_locked, claim,
  claim_entry, lookup, abandon, record_completion,
}
use veilid_http.Completion.Claims.{has_expired}
use veilid_http.Completion.Flights.{
  flying, holders, release, Held, after, prune-flying, prune-Held, claim_entry-Held, remove-Held,
  record_completion-Held,
}

abbrev pub executes : CompletionClaim → Bool
executes execute = true
executes _ = false

-- What the users of a store do, in any order and at any times; `held` are those that were answered
-- `execute` and have neither recorded nor abandoned their transaction yet.
pub data Run : List Key → CompletionStore → Type 0 where
  opened : (s : CompletionStore) → Distinct s.entries → Run [] s
  claimed :
      {held : List Key} {s : CompletionStore}
      → Run held s
      → (now : ℕ) (id : Key) → Run (after (claim now id s).0 id held) (claim now id s).1
  looked_up :
      {held : List Key} {s : CompletionStore}
      → Run held s
      → (now : ℕ) (id : Key) → Run held (lookup now id s).1
  recorded :
      {held : List Key} {s : CompletionStore}
      → Run held s
      → (now : Option ℕ) (pruned_at : ℕ) (id : Key) (body : Option Bytes) → 0 < holders id held
      → Run (release id held) (record_completion now pruned_at id body s).1
  abandoned :
      {held : List Key} {s : CompletionStore}
      → Run held s
      → (id : Key) → 0 < holders id held
      → Run (release id held) (abandon id s).1

Run-Held : {held : List Key} {s : CompletionStore} → Run held s → Held held s.entries
unfolding claim lookup abandon
Run-Held (opened s d) = record {
  distinct = d;
  single = λ id. omega arith;
  flies = λ id h. absurd (omega arith);
}
Run-Held (claimed {held} {s} r now id) =
    claim_entry-Held held id (prune_locked now s) (get id (prune_locked now s).entries) refl
      (prune-Held now held s (Run-Held r))
Run-Held (looked_up {held} {s} r now id) = prune-Held now held s (Run-Held r)
Run-Held (recorded {held} {s} r now pruned_at id body h) =
    record_completion-Held held now pruned_at id body s (Run-Held r)
Run-Held (abandoned {held} {s} r id h) = remove-Held held id s.entries (Run-Held r)

-- From any store with distinct identifiers, and as long as a transaction is recorded or abandoned only
-- by a user that was answered `execute` for it and has done neither yet: whatever the order and the
-- times of claims, lookups, records and abandonments of any transactions, at most one user holds a
-- transaction for execution, and while one does, no claim of it is answered `execute`.
pub Run-single :
    {held : List Key} {s : CompletionStore} (now : ℕ) (id : Key)
    → Run held s
    → (holders id held ≤ 1) × (ltb 0 (holders id held) && executes (claim now id s).0 ≡ false)
unfolding claim has_expired
Run-single {held} {s} now id r =
    let p = Run-Held r in
    (
      p.single id,
      refused (get id (prune_locked now s).entries)
          (λ h. prune-flying now id s p.distinct (p.flies id h)),
    )
  where
    refused :
        (o : Option Entry)
        → (0 < holders id held → flying o ≡ true)
        → (ltb 0 (holders id held) && executes (claim_entry id (prune_locked now s) o).0) ≡ false
    refused none h = ground (arith, h)
    refused (some (in_flight n)) h = ground arith
    refused (some (complete none t)) h = ground arith
    refused (some (complete (some x) t)) h = ground arith
