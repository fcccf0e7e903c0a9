-- ===== src/Completion/Retention.antt =====
-- How many completed transactions are retained.
use veilid_http.Prelude.{
  ℕ, zero, suc, ◌+◌, ◌≤◌, ◌≡◌, refl, ap, true, false, some, none, Option, [], ◌∷◌, ltb, bytes_eq,
  bytes_eq_iff, arith, Bool-cases, Option-cases, inl, inr, length, ◌⊎◌, leb,
}
use veilid_http.Prelude.HashMap.{
  Key, remove, count, contains_key, Distinct, Distinct-remove, Distinct-insert,
}
use veilid_http.Completion.Claims.{Distinct-remove_all}
use veilid_http.Completion.{
  Bytes, Entries, in_flight, complete, CompletionStore, is_complete, completed_count, oldest,
  earlier, evict, enforce_completed_limit_locked, record_completion, expired_keys, prune_locked,
}

earlier-some : (id : Key) (t : ℕ) (found : Option (Key × ℕ)) → earlier id t found ≡ none → ⊥
earlier-some id t none e = cc
earlier-some id t (some (id', t')) e = ground arith

-- Where the protected key is absent, no oldest entry means that none is complete.
oldest-none_absent :
    (p : Key) (m : Entries)
    → contains_key p m ≡ false
    → oldest (some p) m ≡ none
    → count is_complete m ≡ 0
unfolding oldest
oldest-none_absent p [] h e = refl
oldest-none_absent p ((id, in_flight n) ∷ m) h e = oldest-none_absent p m (ground arith) e
oldest-none_absent p ((id, complete r t) ∷ m) h e = elim (Bool-cases (bytes_eq id p)) [
  | inl q ↦ absurd (ground (arith, q))
  | inr q ↦ absurd (earlier-some id t (oldest (some p) m) (rw q at e))
]

oldest-none :
    (p : Key) (m : Entries) → Distinct m → oldest (some p) m ≡ none → count is_complete m ≤ 1
unfolding oldest
oldest-none p [] d e = omega arith
oldest-none p ((id, in_flight n) ∷ m) d e = oldest-none p m d.1 e
oldest-none p ((id, complete r t) ∷ m) d e = elim (Bool-cases (bytes_eq id p)) [
  | inl q ↦
      let same : contains_key p m ≡ false = ground (arith, bytes_eq_iff id p, d.0, moved) in
      omega (arith, oldest-none_absent p m same (rw q at e))
  | inr q ↦ absurd (earlier-some id t (oldest (some p) m) (rw q at e))
]
  where
    moved : id ≡ p → contains_key id m ≡ contains_key p m
    moved q = ap (λ k. contains_key k m) q

length-remove :
    (k : Key) (m : Entries) → contains_key k m ≡ true → length (remove k m) + 1 ≡ length m
length-remove k [] h = absurd (ground arith)
length-remove k ((j, e) ∷ m) h = ground (arith, length-remove k m)

pub earlier-from :
    (id i : Key) (t u : ℕ) (found : Option (Key × ℕ))
    → earlier id t found ≡ some (i, u)
    → (id ≡ i) ⊎ (found ≡ some (i, u))
earlier-from id i t u none e = inl (ap (λ x. elim x [ none ↦ i | some y ↦ y.0 ]) e)
earlier-from id i t u (some (id', t')) e = elim (Bool-cases (leb t t')) [
  | inl q ↦ inl (ap (λ x. elim x [ none ↦ i | some y ↦ y.0 ]) (rw q at e))
  | inr q ↦ inr (rw q at e)
]

pub oldest-contains :
    (p i : Key) (u : ℕ) (m : Entries) → oldest (some p) m ≡ some (i, u) → contains_key i m ≡ true
unfolding oldest
oldest-contains p i u [] e = cc
oldest-contains p i u ((id, in_flight n) ∷ m) e = ground (arith, oldest-contains p i u m e)
oldest-contains p i u ((id, complete r t) ∷ m) e = elim (Bool-cases (bytes_eq id p)) [
  | inl q ↦ ground (arith, oldest-contains p i u m (rw q at e))
  | inr q ↦ elim (earlier-from id i t u (oldest (some p) m) (rw q at e)) [
    | inl same ↦ ground (arith, bytes_eq_iff id i, same)
    | inr found ↦ ground (arith, oldest-contains p i u m found)
  ]
]

evict-bounded :
    (fuel : ℕ) (p : Key) (limit : ℕ) (m : Entries)
    → 1 ≤ limit
    → Distinct m
    → length m ≤ fuel
    → completed_count (evict fuel (some p) limit m).1 ≤ limit
unfolding evict completed_count
evict-bounded zero p limit [] h d l = omega arith
evict-bounded zero p limit (x ∷ m) h d l = absurd (omega arith)
evict-bounded (suc fuel) p limit m h d l = elim (Bool-cases (ltb limit (count is_complete m))) [
  | inr q ↦ rw (q, evict) (ground arith)
  | inl q ↦ elim (Option-cases (oldest (some p) m)) [
    | inl e ↦ rw (q, e, evict) (omega (arith, oldest-none p m d e))
    | inr ((i, u), e) ↦
        rw (q, e, evict)
          (evict-bounded fuel p limit (remove i m) h (Distinct-remove i m d)
            (omega (arith, length-remove i m (oldest-contains p i u m e))))
  ]
]

-- On entries with distinct keys and for a limit of at least one, which `open_with_active_limit`
-- sets: after a `record` that could read the clock, at most `max_completed_entries` completed transactions are retained.
pub record_completion-bounded :
    (now pruned_at : ℕ) (id : Key) (body : Option Bytes) (s : CompletionStore)
    → Distinct s.entries
    → 1 ≤ s.max_completed_entries
    → completed_count (record_completion (some now) pruned_at id body s).1.entries
      ≤ s.max_completed_entries
unfolding record_completion enforce_completed_limit_locked prune_locked
record_completion-bounded now pruned_at id body s d h =
    evict-bounded _ id s.max_completed_entries _ h
      (Distinct-insert id _ _
        (Distinct-remove id _ (Distinct-remove_all (expired_keys pruned_at s.entries) s.entries d)))
      (omega arith)
