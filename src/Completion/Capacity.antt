-- ===== src/Completion/Capacity.antt =====
-- No more transactions execute at a time than the store allows.
use veilid_http.Prelude.{
  ℕ, suc, ◌≤◌, Bool, some, none, Option, List, [], ◌∷◌, leb, arith, Bool-cases, inl, inr,
}
use veilid_http.Prelude.HashMap.{Key, get, insert, remove, count}
use veilid_http.Completion.{
  Entries, Entry, in_flight, complete, CompletionStore, is_in_flight, remove_all, expired_keys,
  prune_locked, claim, claim_entry, transaction_notify,
}

abbrev pub active : CompletionStore → ℕ
active s = count is_in_flight s.entries

count-remove : (p : Entry → Bool) (k : Key) (m : Entries) → count p (remove k m) ≤ count p m
count-remove p k [] = omega arith
count-remove p k ((j, e) ∷ m) = ground (arith, count-remove p k m)

count-insert :
    (p : Entry → Bool) (k : Key) (v : Entry) (m : Entries)
    → count p (insert k v m) ≤ suc (count p m)
count-insert p k v [] = ground arith
count-insert p k v ((j, e) ∷ m) = ground (arith, count-insert p k v m)

count-remove_all :
    (p : Entry → Bool) (ks : List Key) (m : Entries) → count p (remove_all ks m) ≤ count p m
unfolding remove_all
count-remove_all p [] m = omega arith
count-remove_all p (k ∷ ks) m =
    omega (arith, count-remove_all p ks (remove k m), count-remove p k m)

claim_entry-active :
    (id : Key) (s : CompletionStore) (found : Option Entry)
    → active s ≤ s.max_in_flight
    → active (claim_entry id s found).1 ≤ s.max_in_flight
claim_entry-active id s (some (in_flight n)) h = h
claim_entry-active id s (some (complete (some bytes) e)) h = h
claim_entry-active id s (some (complete none e)) h = h
claim_entry-active id s none h = elim (Bool-cases (leb s.max_in_flight (active s))) [
  | inl q ↦ rw q h
  | inr q ↦
      rw q
        (ground (arith, count-insert is_in_flight id (in_flight (transaction_notify id)) s.entries))
]

-- Whatever is claimed, and whether the claim is granted or not, at most `max_in_flight`
-- transactions are in flight afterwards if at most so many were before.
pub claim-active :
    (now : ℕ) (id : Key) (s : CompletionStore)
    → active s ≤ s.max_in_flight
    → active (claim now id s).1 ≤ s.max_in_flight
unfolding claim prune_locked
claim-active now id s h =
    claim_entry-active id (prune_locked now s) (get id (prune_locked now s).entries)
      (omega (arith, h, count-remove_all is_in_flight (expired_keys now s.entries) s.entries))
