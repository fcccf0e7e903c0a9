-- ===== src/Core/TransactionJournal/Tests.antt =====
-- Runs of the journal, and its theorems at concrete inputs.
use veilid_http.Prelude.{◌≡◌, refl, false, some, [], ◌∷◌, if◌then◌else◌}
use mathlib.Core.Option
use veilid_http.Prelude.HashMap.{Key}
use veilid_http.Core.TransactionJournal.{
  TransactionJournal, begin, get, expire_idle, expire_entries, receiving, forwarding, completed,
}
use veilid_http.Core.TransactionJournal.Expiry.{
  begin_lem, expire_idle_lem, expire_entry, expires, listed,
}

abbrev id : Key
id = 9 ∷ 9 ∷ []

abbrev other : Key
other = 8 ∷ 9 ∷ []

abbrev two_entries : TransactionJournal
two_entries = record {
  entries =
      (id, record { state = completed; last_activity_ms = 0 })
      ∷ (other, record { state = forwarding; last_activity_ms = 5 })
      ∷ [];
}

-- A duplicate `begin` is reported, and restarts the completed transaction.
restarted :
    get (begin two_entries id 11).1 id ≡ some (record { state = receiving; last_activity_ms = 11 })
unfolding begin get
restarted = refl

idle_ids : (expire_idle two_entries 20 10).0 ≡ other ∷ []
unfolding expire_idle expire_entries
idle_ids = refl

begin_lem_example :
    let (new, j') = begin two_entries id 11 in
    (new ≡ false)
    × (get j' other ≡ (
        if false
        then some (record { state = receiving; last_activity_ms = 11 })
        else get two_entries other))
unfolding get
begin_lem_example = begin_lem two_entries id other 11

expire_idle_lem_example :
    let (ids, j') = expire_idle two_entries 20 10 in
    (listed other ids ≡ expires 20 10 (get two_entries other))
    × (get j' other ≡ Option.map (expire_entry 20 10) (get two_entries other))
expire_idle_lem_example = expire_idle_lem 20 10 two_entries other (refl, (refl, tt))
