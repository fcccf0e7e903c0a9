-- ===== src/Completion.antt =====
-- `CompletionStore` of apps/veilid-http-bridge/src/completion.rs: at most one execution for each
-- transaction. The clock is the argument `now`; the durable files are a list of writes and removals.
pub mod Claims
pub mod Flights
pub mod Protocol
pub mod Capacity
pub mod Retention
pub mod Replay
mod Tests
use veilid_http.Prelude.{
  ℕ, zero, suc, ◌+◌, Bool, true, false, not, ◌&&◌, Option, none, some, List, [], ◌∷◌, ◌++◌, ltb,
  leb, if◌then◌else◌, length, max, bytes_eq,
}
use veilid_http.Prelude.HashMap.{Key, HashMap, get, insert, remove, count}
use veilid_http.Prelude.Words.{u64_max, saturating_add}

abbrev pub Bytes : Type 0
Bytes = List ℕ

abbrev pub default_max_in_flight : ℕ
default_max_in_flight = 128

-- Who is woken: the waiters of one transaction, or those for capacity.
pub data Notify : Type 0 where
  transaction_notify : Key → Notify
  capacity_notify : Notify

pub data CompletionClaim : Type 0 where
  execute : CompletionClaim
  replay : Bytes → CompletionClaim
  tombstone : CompletionClaim
  wait : Notify → CompletionClaim

pub data CompletionLookup : Type 0 where
  response : Bytes → CompletionLookup
  tombstone : CompletionLookup
  in_flight : CompletionLookup

pub data Entry : Type 0 where
  in_flight : Notify → Entry
  complete : (response : Option Bytes) (expires_at_unix_seconds : ℕ) → Entry

-- `fs::write` with `fs::rename`, and `fs::remove_file`, of the file of a transaction.
pub data FileOperation : Type 0 where
  write_file : Key → (response : Option Bytes) → (expires_at : ℕ) → FileOperation
  remove_file : Key → FileOperation

abbrev pub Entries : Type 0
Entries = HashMap Entry

pub record CompletionStore : Type 0 where
  pub retention : ℕ
  pub max_response_bytes : ℕ
  pub max_completed_entries : ℕ
  pub max_in_flight : ℕ
  pub entries : Entries
  pub files : List FileOperation

abbrev pub is_complete : Entry → Bool
is_complete (in_flight n) = false
is_complete (complete r e) = true

abbrev pub is_in_flight : Entry → Bool
is_in_flight (in_flight n) = true
is_in_flight (complete r e) = false

pub completed_count : Entries → ℕ
completed_count entries = count is_complete entries

-- `*expires_at_unix_seconds <= now` in `prune_locked`.
abbrev pub is_expired : ℕ → Entry → Bool
is_expired now (in_flight n) = false
is_expired now (complete r expires_at) = leb expires_at now

pub expired_keys : ℕ → Entries → List Key
expired_keys now [] = []
expired_keys now ((id, e) ∷ m) =
    let rest = expired_keys now m in if is_expired now e then id ∷ rest else rest

pub remove_all : List Key → Entries → Entries
remove_all [] m = m
remove_all (id ∷ ids) m = remove_all ids (remove id m)

abbrev pub removals : List Key → List FileOperation
removals [] = []
removals (id ∷ ids) = remove_file id ∷ removals ids

pub prune_locked : ℕ → CompletionStore → CompletionStore
prune_locked now s =
    let expired = expired_keys now s.entries in
    record s { entries = remove_all expired s.entries; files = s.files ++ removals expired }

abbrev claim_entry : Key → CompletionStore → Option Entry → CompletionClaim × CompletionStore
claim_entry id s (some (in_flight notify)) = (wait notify, s)
claim_entry id s (some (complete (some bytes) e)) = (replay bytes, s)
claim_entry id s (some (complete none e)) = (CompletionClaim.tombstone, s)
claim_entry id s none =
    if leb s.max_in_flight (count is_in_flight s.entries)
    then (wait capacity_notify, s)
    else (execute, record s { entries = insert id (in_flight (transaction_notify id)) s.entries })

pub claim : ℕ → Key → CompletionStore → CompletionClaim × CompletionStore
claim now id s = let s' = prune_locked now s in claim_entry id s' (get id s'.entries)

abbrev looked_up : Entry → CompletionLookup
looked_up (in_flight n) = in_flight
looked_up (complete (some bytes) e) = response bytes
looked_up (complete none e) = CompletionLookup.tombstone

pub lookup : ℕ → Key → CompletionStore → Option CompletionLookup × CompletionStore
lookup now id s =
    let s' = prune_locked now s in
    (elim (get id s'.entries) [ none ↦ none | some e ↦ some (looked_up e) ], s')

-- `filter(..).min_by_key(expires_at)` over the completed entries but the protected one: the first
-- of those that expire first.
abbrev earlier : Key → ℕ → Option (Key × ℕ) → Option (Key × ℕ)
earlier id expires_at none = some (id, expires_at)
earlier id expires_at (some (id', e')) =
    if leb expires_at e' then some (id, expires_at) else some (id', e')

pub oldest : Option Key → Entries → Option (Key × ℕ)
oldest protected [] = none
oldest protected ((id, in_flight n) ∷ m) = oldest protected m
oldest protected ((id, complete r expires_at) ∷ m) =
    let rest = oldest protected m in
    elim protected [
      | none ↦ earlier id expires_at rest
      | some p ↦ if bytes_eq id p then rest else earlier id expires_at rest
    ]

-- The loop of `enforce_completed_limit_locked` and of `trim_loaded_entries`. A round removes an
-- entry, so the number of entries is enough fuel.
pub evict : ℕ → Option Key → ℕ → Entries → List Key × Entries
evict zero protected limit m = ([], m)
evict (suc fuel) protected limit m =
    if ltb limit (completed_count m)
    then (elim (oldest protected m) [
      | none ↦ ([], m)
      | some (id, e) ↦
          let (evicted, m') = evict fuel protected limit (remove id m) in (id ∷ evicted, m')
    ])
    else ([], m)

pub enforce_completed_limit_locked : CompletionStore → Key → List Key × Entries
enforce_completed_limit_locked s protected_id =
    evict (length s.entries) (some protected_id) s.max_completed_entries s.entries

pub trim_loaded_entries : ℕ → Entries → Entries × List FileOperation
trim_loaded_entries max_completed_entries m =
    let (evicted, m') = evict (length m) none max_completed_entries m in (m', removals evicted)

-- `response.filter(|bytes| bytes.len() <= self.max_response_bytes)`.
abbrev pub retained : ℕ → Option Bytes → Option Bytes
retained limit none = none
retained limit (some bytes) = if leb (length bytes) limit then some bytes else none

-- The waiters that are woken: of the transaction, if it was in flight, then those for capacity.
abbrev woken : Option Entry → List Notify
woken (some (in_flight notify)) = notify ∷ capacity_notify ∷ []
woken (some (complete r e)) = capacity_notify ∷ []
woken none = capacity_notify ∷ []

-- `record`, where the durable write succeeds. `now` is what the clock reads first, none before 1970,
-- where `record` fails; `pruned_at` is what `prune_locked` reads, `u64::MAX` before 1970.
pub record_completion :
    Option ℕ → ℕ → Key → Option Bytes → CompletionStore → Option (List Notify) × CompletionStore
record_completion none pruned_at id body s = (none, s)
record_completion (some now) pruned_at id body s =
    let body' = retained s.max_response_bytes body in
    let expires_at = saturating_add u64_max now s.retention in
    let s' = prune_locked pruned_at s in
    let s'' = record s' {
      entries = insert id (complete body' expires_at) (remove id s'.entries);
    } in
    let (evicted, entries) = enforce_completed_limit_locked s'' id in
    (
      some (woken (get id s'.entries)),
      record s'' {
        entries = entries;
        files = s'.files ++ write_file id body' expires_at ∷ removals evicted;
      },
    )

pub abandon : Key → CompletionStore → List Notify × CompletionStore
abandon id s = (woken (get id s.entries), record s { entries = remove id s.entries })

-- The records that `open_with_active_limit` loads: those that have not expired are inserted in
-- the order in which the directory lists them, the files of the others removed.
abbrev Loaded : Type 0
Loaded = List (Key × Option Bytes × ℕ)

pub load_all : ℕ → Loaded → Entries → Entries × List FileOperation
load_all now [] m = (m, [])
load_all now ((id, body, expires_at) ∷ rs) m =
    if ltb now expires_at
    then load_all now rs (insert id (complete body expires_at) m)
    else let (m', files) = load_all now rs m in (m', remove_file id ∷ files)

pub open_with_active_limit : ℕ → Loaded → ℕ → ℕ → ℕ → ℕ → CompletionStore
open_with_active_limit now loaded retention max_response_bytes max_completed_entries max_in_flight =
    let (m, removed) = load_all now loaded [] in
    let (m', trimmed) = trim_loaded_entries (max max_completed_entries 1) m in
    record {
      retention = retention;
      max_response_bytes = max_response_bytes;
      max_completed_entries = max max_completed_entries 1;
      max_in_flight = max max_in_flight 1;
      entries = m';
      files = removed ++ trimmed;
    }

pub open_default : ℕ → Loaded → ℕ → ℕ → ℕ → CompletionStore
open_default now loaded retention max_response_bytes max_completed_entries =
    open_with_active_limit now loaded retention max_response_bytes max_completed_entries
      default_max_in_flight
