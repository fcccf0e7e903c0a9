-- ===== src/Completion/Flights.antt =====
-- Who was answered `execute`, and that each operation keeps their transactions in flight.
use veilid_http.Prelude.{
  ℕ, ◌+◌, ◌≤◌, ◌<◌, ◌≡◌, refl, sym, ap, ◌∙◌, Bool, true, false, Option, none, some, List, [], ◌∷◌,
  if◌then◌else◌, ltb, leb, bytes_eq, bytes_eq_iff, bytes_eq_refl, arith, Bool-cases, Option-cases,
  inl, inr, zero, suc,
}
use veilid_http.Prelude.HashMap.{
  Key, get, insert, remove, count, Distinct, get-insert, get-remove, Distinct-remove,
  Distinct-insert, contains_key,
}
use veilid_http.Wire.Reader.{Bytes}
use veilid_http.Completion.Retention.{earlier-from, oldest-contains}
use veilid_http.Completion.Replay.{get-evict}
use veilid_http.Completion.{
  Entries, Entry, in_flight, complete, CompletionStore, CompletionClaim, execute, is_in_flight,
  Notify, transaction_notify, prune_locked, expired_keys, claim_entry, record_completion,
  enforce_completed_limit_locked, oldest, evict, completed_count,
}
use veilid_http.Completion.Claims.{has_expired, get-prune_locked, Distinct-remove_all}

abbrev pub flying : Option Entry → Bool
flying none = false
flying (some e) = is_in_flight e

abbrev pub holders : Key → List Key → ℕ
holders id [] = 0
holders id (k ∷ ks) = if bytes_eq k id then 1 + holders id ks else holders id ks

abbrev pub release : Key → List Key → List Key
release id [] = []
release id (k ∷ ks) = if bytes_eq k id then release id ks else k ∷ release id ks

holders-release :
    (id i : Key) (ks : List Key)
    → holders i (release id ks) ≡ (if bytes_eq id i then 0 else holders i ks)
holders-release id i [] = ground arith
holders-release id i (k ∷ ks) =
    ground (arith, holders-release id i ks, bytes_eq_iff k id, bytes_eq_iff k i, bytes_eq_iff id i)

-- Each transaction has one holder at most, and is in flight as long as it has one.
pub record Held (held : List Key) (m : Entries) : Type 0 where
  pub distinct : Distinct m
  pub single : (id : Key) → holders id held ≤ 1
  pub flies : (id : Key) → 0 < holders id held → flying (get id m) ≡ true

pub prune-flying :
    (now : ℕ) (i : Key) (s : CompletionStore)
    → Distinct s.entries
    → flying (get i s.entries) ≡ true
    → flying (get i (prune_locked now s).entries) ≡ true
unfolding has_expired
prune-flying now i s d e = rw (get-prune_locked now i s d) (kept (get i s.entries) e)
  where
    kept :
        (o : Option Entry) → flying o ≡ true → flying (if has_expired now o then none else o) ≡ true
    kept none h = absurd (ground arith)
    kept (some (in_flight n)) h = refl
    kept (some (complete r t)) h = absurd (ground arith)

pub prune-Held :
    (now : ℕ) (held : List Key) (s : CompletionStore)
    → Held held s.entries
    → Held held (prune_locked now s).entries
unfolding prune_locked
prune-Held now held s p = record {
  distinct = Distinct-remove_all (expired_keys now s.entries) s.entries p.distinct;
  single = p.single;
  flies = λ id h. prune-flying now id s p.distinct (p.flies id h);
}

-- The holders after a claim: who was answered `execute` is one more.
abbrev pub after : CompletionClaim → Key → List Key → List Key
after execute id held = id ∷ held
after _ id held = held

granted-Held :
    (held : List Key) (id : Key) (n : Notify) (m : Entries)
    → get id m ≡ none
    → Held held m
    → Held (id ∷ held) (insert id (in_flight n) m)
granted-Held held id n m e p = record {
  distinct = Distinct-insert id (in_flight n) m p.distinct;
  single = λ k. elim (Bool-cases (bytes_eq id k)) [
    | inl q ↦ rw q (omega (arith, free k q))
    | inr q ↦ rw q (p.single k)
  ];
  flies = λ k h. elim (Bool-cases (bytes_eq id k)) [
    | inl q ↦ rw (get-insert id k (in_flight n) m, q) refl
    | inr q ↦ rw (get-insert id k (in_flight n) m, q) (p.flies k (rw q at h))
  ];
}
  where
    free : (k : Key) → bytes_eq id k ≡ true → holders k held ≤ 0
    free k q = elim (Bool-cases (ltb 0 (holders k held))) [
      | inl some_holder ↦
          absurd (ground (arith, p.flies k (ground arith), bytes_eq_iff id k, same k))
      | inr no_holder ↦ ground arith
    ]
      where
        same : (k : Key) → id ≡ k → get k m ≡ none
        same k x = ap (λ j. get j m) (sym x) ∙ e

pub claim_entry-Held :
    (held : List Key) (id : Key) (s : CompletionStore) (o : Option Entry)
    → get id s.entries ≡ o
    → Held held s.entries
    → Held (after (claim_entry id s o).0 id held) (claim_entry id s o).1.entries
claim_entry-Held held id s (some (in_flight n)) e p = p
claim_entry-Held held id s (some (complete none t)) e p = p
claim_entry-Held held id s (some (complete (some r) t)) e p = p
claim_entry-Held held id s none e p =
    elim (Bool-cases (leb s.max_in_flight (count is_in_flight s.entries))) [
      | inl q ↦ rw q p
      | inr q ↦ rw q (granted-Held held id (transaction_notify id) s.entries e p)
    ]

-- An entry that is chosen for eviction is not in flight.
oldest-flying :
    (p i : Key) (u : ℕ) (m : Entries)
    → Distinct m
    → oldest (some p) m ≡ some (i, u)
    → flying (get i m) ≡ false
unfolding oldest
oldest-flying p i u [] d e = cc
oldest-flying p i u ((id, in_flight n) ∷ m) d e = ground (
  arith,
  bytes_eq_iff id i,
  oldest-flying p i u m d.1 e,
  oldest-contains p i u m e,
  d.0,
  ap (λ k. contains_key k m) {x = id} {y = i},
)
oldest-flying p i u ((id, complete r t) ∷ m) d e = elim (Bool-cases (bytes_eq id p)) [
  | inl q ↦ ground (arith, oldest-flying p i u m d.1 (rw q at e))
  | inr q ↦ elim (earlier-from id i t u (oldest (some p) m) (rw q at e)) [
    | inl same ↦ ground (arith, bytes_eq_iff id i, same)
    | inr found ↦ ground (arith, oldest-flying p i u m d.1 found)
  ]
]

evict-flying :
    (fuel : ℕ) (p i : Key) (limit : ℕ) (m : Entries)
    → Distinct m
    → flying (get i m) ≡ true
    → flying (get i (evict fuel (some p) limit m).1) ≡ true
unfolding evict
evict-flying zero p i limit m d h = h
evict-flying (suc fuel) p i limit m d h = elim (Bool-cases (ltb limit (completed_count m))) [
  | inr q ↦ rw (q, evict) h
  | inl q ↦ elim (Option-cases (oldest (some p) m)) [
    | inl e ↦ rw (q, e, evict) h
    | inr ((j, u), e) ↦
        rw (q, e, evict)
          (evict-flying fuel p i limit (remove j m) (Distinct-remove j m d)
            (rw (get-remove j i m d) (kept j u e)))
  ]
]
  where
    kept :
        (j : Key) (u : ℕ)
        → oldest (some p) m ≡ some (j, u)
        → flying (if bytes_eq j i then none else get i m) ≡ true
    kept j u e = ground (arith, h, bytes_eq_iff j i, oldest-flying p j u m d e, same)
      where
        same : j ≡ i → get j m ≡ get i m
        same x = ap (λ k. get k m) x

-- The others stay in flight when an entry is removed.
pub remove-Held :
    (held : List Key) (id : Key) (m : Entries) → Held held m → Held (release id held) (remove id m)
remove-Held held id m p = record {
  distinct = Distinct-remove id m p.distinct;
  single = λ k. ground (arith, holders-release id k held, p.single k);
  flies = λ k h.
      rw (get-remove id k m p.distinct)
        (ground (arith, rw (holders-release id k held) at h, p.flies k));
}

complete-Held :
    (held : List Key) (id : Key) (r : Option Bytes) (t : ℕ) (m : Entries)
    → holders id held ≡ 0
    → Held held m
    → Held held (insert id (complete r t) m)
complete-Held held id r t m free p = record {
  distinct = Distinct-insert id (complete r t) m p.distinct;
  single = p.single;
  flies = λ k h.
      rw (get-insert id k (complete r t) m)
        (ground (arith, h, p.flies k, bytes_eq_iff id k, same k));
}
  where
    same : (k : Key) → id ≡ k → holders k held ≡ 0
    same k x = ap (λ j. holders j held) (sym x) ∙ free

evict-Held :
    (held : List Key) (fuel : ℕ) (p : Key) (limit : ℕ) (m : Entries)
    → Held held m
    → Held held (evict fuel (some p) limit m).1
evict-Held held fuel p limit m h = record {
  distinct = (get-evict fuel p limit m h.distinct).1;
  single = h.single;
  flies = λ k f. evict-flying fuel p k limit m h.distinct (h.flies k f);
}

pub record_completion-Held :
    (held : List Key) (now : Option ℕ) (pruned_at : ℕ) (id : Key) (body : Option Bytes)
    (s : CompletionStore)
    → Held held s.entries
    → Held (release id held) (record_completion now pruned_at id body s).1.entries
unfolding record_completion enforce_completed_limit_locked evict prune_locked
record_completion-Held held none pruned_at id body s p = record {
  distinct = p.distinct;
  single = λ k. ground (arith, holders-release id k held, p.single k);
  flies = λ k h. ground (arith, rw (holders-release id k held) at h, p.flies k);
}
record_completion-Held held (some now) pruned_at id body s p =
    evict-Held (release id held) _ id s.max_completed_entries _ (
      complete-Held (release id held) id _ _ _
        (ground (arith, holders-release id id held, bytes_eq_refl id))
        (remove-Held held id _ (prune-Held pruned_at held s p)))
