-- ===== src/Core/TransactionJournal/Expiry.antt =====
-- The journal's operations as seen through `get`.
use veilid_http.Prelude.{
  ℕ, ◌+◌, ◌==◌, ◌||◌, leb, ◌≡◌, refl, ap, Bool, true, false, not, ◌&&◌, Option, none, some, List,
  [], ◌∷◌, if◌then◌else◌, arith, bytes_eq, bytes_eq_iff, inl, inr, Option-cases,
}
use veilid_http.Prelude.HashMap.{
  Key, HashMap, Distinct, get as lookup, contains_key, get-insert, contains_key-get, absent-get,
}
use mathlib.Core.Option
use veilid_http.Core.TransactionJournal.{
  TransactionState, JournalEntry, TransactionJournal, receiving, forwarding, responding, completed,
  cancelled, expired, begin, transition, get, is_idle, expire_entries, expire_idle,
}

abbrev pub is_none {ℓ} : {A : Type ℓ} → Option A → Bool
is_none none = true
is_none (some a) = false

-- `begin` answers whether the transaction is new. In either case its entry becomes a fresh
-- `receiving` one, so a duplicate restarts a transaction in any state; the others are kept.
pub begin_lem :
    (j : TransactionJournal) (id i : Key) (now : ℕ)
    → let (new, j') = begin j id now in
      (new ≡ is_none (get j id))
      × (get j' i ≡ (
          if bytes_eq id i
          then some (record { state = receiving; last_activity_ms = now })
          else get j i))
unfolding begin get
begin_lem j id i now = (fresh, get-insert id i _ j.entries)
  where
    fresh : not (contains_key id j.entries) ≡ is_none (lookup id j.entries)
    fresh = elim (Option-cases (lookup id j.entries)) [
      | inl e ↦ rw (e, absent-get id j.entries e)
      | inr (v, e) ↦ rw (e, contains_key-get id j.entries v e)
    ]

-- `transition` changes the entry of a known transaction only, and answers whether it is known.
transition_lem :
    (j : TransactionJournal) (id i : Key) (state : TransactionState) (now : ℕ)
    → let (known, j') = transition j id state now in
      (known ≡ not (is_none (get j id)))
      × (get j' i ≡ (
          if known && bytes_eq id i
          then some (record { state = state; last_activity_ms = now })
          else get j i))
unfolding transition get
transition_lem j id i state now = elim (Option-cases (lookup id j.entries)) [
  | inl e ↦ rw (e, transition) (refl, refl)
  | inr (v, e) ↦
      rw (e, transition)
        (refl, get-insert id i (record { state = state; last_activity_ms = now }) j.entries)
]

-- The states in which a transaction can expire.
abbrev pub can_expire : TransactionState → Bool
can_expire receiving = true
can_expire forwarding = true
can_expire responding = true
can_expire completed = false
can_expire cancelled = false
can_expire expired = true

-- `idle` milliseconds have passed since the last activity; none need to where `idle` is 0.
abbrev pub must_expire : ℕ → ℕ → JournalEntry → Bool
must_expire now idle entry =
    can_expire entry.state && (idle == 0 || leb (entry.last_activity_ms + idle) now)

is_idle_lem :
    (now idle : ℕ) (entry : JournalEntry) → is_idle now idle entry ≡ must_expire now idle entry
is_idle_lem now idle entry =
    elim entry.state
      as (λ state.
        is_idle now idle (record entry { state = state })
        ≡ must_expire now idle (record entry { state = state })) [
          | receiving ↦ ground arith
          | forwarding ↦ ground arith
          | responding ↦ ground arith
          | completed ↦ refl
          | cancelled ↦ refl
          | expired ↦ ground arith
        ]

abbrev pub expire_entry : ℕ → ℕ → JournalEntry → JournalEntry
expire_entry now idle entry =
    if must_expire now idle entry then record entry { state = expired } else entry

abbrev pub expires : ℕ → ℕ → Option JournalEntry → Bool
expires now idle none = false
expires now idle (some entry) = must_expire now idle entry

abbrev pub listed : Key → List Key → Bool
listed i [] = false
listed i (k ∷ ks) = if bytes_eq k i then true else listed i ks

module _ (now idle : ℕ) where
  get-expire_entries :
      (i : Key) (m : HashMap JournalEntry)
      → lookup i (expire_entries now idle m).1 ≡ Option.map (expire_entry now idle) (lookup i m)
  unfolding expire_entries
  get-expire_entries i [] = refl
  get-expire_entries i ((k, entry) ∷ m) =
      rw (is_idle_lem now idle entry) (ground (arith, get-expire_entries i m))

  listed-absent :
      (i : Key) (m : HashMap JournalEntry)
      → contains_key i m ≡ false
      → listed i (expire_entries now idle m).0 ≡ false
  unfolding expire_entries
  listed-absent i [] h = refl
  listed-absent i ((k, entry) ∷ m) h = ground (arith, listed-absent i m)

  listed-expire_entries :
      (i : Key) (m : HashMap JournalEntry)
      → Distinct m
      → listed i (expire_entries now idle m).0 ≡ expires now idle (lookup i m)
  unfolding expire_entries
  listed-expire_entries i [] d = refl
  listed-expire_entries i ((k, entry) ∷ m) d =
      rw (is_idle_lem now idle entry) (
        ground
          (arith, bytes_eq_iff k i, listed-absent k m d.0, same, listed-expire_entries i m d.1))
    where
      same : k ≡ i → listed k (expire_entries now idle m).0 ≡ listed i (expire_entries now idle m).0
      same e = ap (λ x. listed x (expire_entries now idle m).0) e

  -- On a journal whose identifiers are distinct: `expire_idle` lists exactly the transactions whose
  -- state is `receiving`, `forwarding`, `responding` or `expired`, not `completed` or `cancelled`, and
  -- whose last activity is at least `idle` before `now` (with `idle` 0, at any time). It marks exactly
  -- these as expired; their times and the others are kept.
  pub expire_idle_lem :
      (j : TransactionJournal) (i : Key)
      → Distinct j.entries
      → let (ids, j') = expire_idle j now idle in
        (listed i ids ≡ expires now idle (get j i))
        × (get j' i ≡ Option.map (expire_entry now idle) (get j i))
  unfolding expire_idle get
  expire_idle_lem j i d = (listed-expire_entries i j.entries d, get-expire_entries i j.entries)
