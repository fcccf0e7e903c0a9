-- ===== src/Completion/Claims.antt =====
-- A claimed transaction is executed once: until it is recorded or abandoned, all others wait.
use veilid_http.Prelude.{
  ℕ, ◌≡◌, refl, ap, ◌∙◌, sym, Bool, true, false, none, some, Option, List, [], ◌∷◌, if◌then◌else◌,
  leb, bytes_eq, bytes_eq_iff, bytes_eq_refl, arith, Bool-cases, inl, inr,
}
use veilid_http.Prelude.HashMap.{
  Key, get, insert, remove, count, Distinct, get-insert, get-remove, get-absent, Distinct-remove,
  Distinct-insert,
}
use veilid_http.Completion.{
  Entries, Entry, in_flight, complete, CompletionStore, execute, wait, Notify, transaction_notify,
  is_expired, is_in_flight, expired_keys, remove_all, prune_locked, claim, claim_entry,
}

mem_key : Key → List Key → Bool
mem_key i [] = false
mem_key i (k ∷ ks) = if bytes_eq k i then true else mem_key i ks

unfoldable pub has_expired : ℕ → Option Entry → Bool
has_expired now none = false
has_expired now (some e) = is_expired now e

get-remove_all :
    (ks : List Key) (i : Key) (m : Entries)
    → Distinct m
    → get i (remove_all ks m) ≡ (if mem_key i ks then none else get i m)
unfolding remove_all mem_key
get-remove_all [] i m d = refl
get-remove_all (k ∷ ks) i m d =
    ground (arith, get-remove_all ks i (remove k m) (Distinct-remove k m d), get-remove k i m d)

pub Distinct-remove_all : (ks : List Key) (m : Entries) → Distinct m → Distinct (remove_all ks m)
unfolding remove_all
Distinct-remove_all [] m d = d
Distinct-remove_all (k ∷ ks) m d = Distinct-remove_all ks (remove k m) (Distinct-remove k m d)

mem_key-expired_keys :
    (now : ℕ) (i : Key) (m : Entries)
    → Distinct m
    → mem_key i (expired_keys now m) ≡ has_expired now (get i m)
unfolding expired_keys mem_key has_expired
mem_key-expired_keys now i [] d = refl
mem_key-expired_keys now i ((j, e) ∷ m) d =
    ground (arith, bytes_eq_iff j i, mem_key-expired_keys now i m d.1, get-absent j m d.0, same)
  where
    same : j ≡ i → get j m ≡ get i m
    same q = ap (λ x. get x m) q

-- What pruning leaves, at every key: an entry that has expired is gone, all others are kept.
pub get-prune_locked :
    (now : ℕ) (i : Key) (s : CompletionStore)
    → Distinct s.entries
    → get i (prune_locked now s).entries
      ≡ (if has_expired now (get i s.entries) then none else get i s.entries)
unfolding prune_locked
get-prune_locked now i s d =
    get-remove_all (expired_keys now s.entries) i s.entries d
    ∙ rw (mem_key-expired_keys now i s.entries d) refl

claim_entry-execute :
    (id : Key) (p s' : CompletionStore) (found : Option Entry)
    → claim_entry id p found ≡ (execute, s')
    → s'.entries ≡ insert id (in_flight (transaction_notify id)) p.entries
claim_entry-execute id p s' (some (in_flight n)) e = absurd (ground arith)
claim_entry-execute id p s' (some (complete (some bytes) x)) e = absurd (ground arith)
claim_entry-execute id p s' (some (complete none x)) e = absurd (ground arith)
claim_entry-execute id p s' none e =
    elim (Bool-cases (leb p.max_in_flight (count is_in_flight p.entries))) [
      | inl q ↦ absurd (ground (arith, q))
      | inr q ↦ sym (ap (λ x. x.1.entries) (rw q at e))
    ]

-- After a claim that was answered `execute`, on entries with distinct keys, the same transaction
-- can be claimed again at any time before another operation, and the answer is always to wait for
-- its completion: it is not executed a second time.
pub claim-once :
    (now now' : ℕ) (id : Key) (s s' : CompletionStore)
    → Distinct s.entries
    → claim now id s ≡ (execute, s')
    → (claim now' id s').0 ≡ wait (transaction_notify id)
unfolding claim has_expired prune_locked
claim-once now now' id s s' d e = rw (kept, claim) refl
  where
    added : s'.entries ≡ insert id (in_flight (transaction_notify id)) (prune_locked now s).entries
    added = claim_entry-execute id (prune_locked now s) s' (get id (prune_locked now s).entries) e

    distinct : Distinct s'.entries
    distinct = rw added (
        Distinct-insert id (in_flight (transaction_notify id)) (prune_locked now s).entries
          (Distinct-remove_all (expired_keys now s.entries) s.entries d))

    found : get id s'.entries ≡ some (in_flight (transaction_notify id))
    found = rw added (
        get-insert id id (in_flight (transaction_notify id)) (prune_locked now s).entries
        ∙ rw (bytes_eq_refl id) refl)

    kept : get id (prune_locked now' s').entries ≡ some (in_flight (transaction_notify id))
    kept = get-prune_locked now' id s' distinct ∙ rw found refl

-- A transaction in flight is waited for.
pub claim-in_flight :
    (now : ℕ) (id : Key) (n : Notify) (s : CompletionStore)
    → Distinct s.entries
    → get id s.entries ≡ some (in_flight n)
    → claim now id s ≡ (wait n, prune_locked now s)
unfolding claim has_expired
claim-in_flight now id n s d e = rw (get-prune_locked now id s d, e, claim) refl
