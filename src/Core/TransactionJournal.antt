-- ===== src/Core/TransactionJournal.antt =====
-- `TransactionState`, `JournalEntry` and `TransactionJournal` of crates/veilid-http-core/src/lib.rs.
pub mod Expiry
mod Tests
use veilid_http.Prelude.{
  ℕ, ◌-◌, Bool, true, false, not, ◌&&◌, Option, none, some, List, [], ◌∷◌, leb, if◌then◌else◌,
}
use veilid_http.Prelude.HashMap.{Key, HashMap, get as lookup, contains_key, insert}

pub data TransactionState : Type 0 where
  receiving forwarding responding completed cancelled expired : TransactionState

pub record JournalEntry : Type 0 where
  pub state : TransactionState
  pub last_activity_ms : ℕ

pub record TransactionJournal : Type 0 where
  pub entries : HashMap JournalEntry

abbrev pub default : TransactionJournal
default = record { entries = [] }

-- `HashMap::insert` writes the entry also when the key is there; `is_none()` is about the old one.
pub begin : TransactionJournal → Key → ℕ → Bool × TransactionJournal
begin j id now_ms = (
  not (contains_key id j.entries),
  record {
    entries = insert id (record { state = receiving; last_activity_ms = now_ms }) j.entries;
  },
)

pub transition : TransactionJournal → Key → TransactionState → ℕ → Bool × TransactionJournal
transition j id state now_ms = elim (lookup id j.entries) [
  | none ↦ (false, j)
  | some entry ↦ (
    true,
    record { entries = insert id (record { state = state; last_activity_ms = now_ms }) j.entries },
  )
]

pub get : TransactionJournal → Key → Option JournalEntry
get j id = lookup id j.entries

abbrev is_final : TransactionState → Bool
is_final receiving = false
is_final forwarding = false
is_final responding = false
is_final completed = true
is_final cancelled = true
is_final expired = false

-- The condition of the loop of `expire_idle`.
abbrev pub is_idle : ℕ → ℕ → JournalEntry → Bool
is_idle now_ms idle_ms entry =
    not (is_final entry.state) && leb idle_ms (now_ms - entry.last_activity_ms)

-- `for (id, entry) in &mut self.entries`: the ids pushed, and the entries afterwards.
expire_entries : ℕ → ℕ → HashMap JournalEntry → List Key × HashMap JournalEntry
expire_entries now_ms idle_ms [] = ([], [])
expire_entries now_ms idle_ms ((id, entry) ∷ rest) =
    let (ids, rest') = expire_entries now_ms idle_ms rest in
    if is_idle now_ms idle_ms entry
    then (id ∷ ids, (id, record entry { state = expired }) ∷ rest')
    else (ids, (id, entry) ∷ rest')

pub expire_idle : TransactionJournal → ℕ → ℕ → List Key × TransactionJournal
expire_idle j now_ms idle_ms =
    let (ids, entries) = expire_entries now_ms idle_ms j.entries in
    (ids, record { entries = entries })
