-- ===== src/Completion/Tests.antt =====
-- Claims of one transaction by two callers.
use veilid_http.Prelude.{false, ltb, ◌&&◌, ◌≤◌, some, arith, ◌≡◌, refl, [], ◌∷◌}
use veilid_http.Prelude.HashMap.{Key}
use veilid_http.Completion.{
  CompletionStore, execute, wait, transaction_notify, in_flight, claim, prune_locked, expired_keys,
  remove_all,
}
use veilid_http.Completion.Flights.{holders}
use veilid_http.Completion.Protocol.{executes, Run, opened, Run-single}
use veilid_http.Completion.Claims.{claim-once}
use veilid_http.Completion.Capacity.{active, claim-active}
use veilid_http.Completion.Retention.{record_completion-bounded}
use veilid_http.Completion.Replay.{claim-record_completion}
use veilid_http.Completion.{record_completion, completed_count, replay}

abbrev fresh : CompletionStore
fresh = record {
  retention = 60;
  max_response_bytes = 1024;
  max_completed_entries = 16;
  max_in_flight = 1;
  entries = [];
  files = [];
}

abbrev id : Key
id = 7 ∷ []

abbrev claimed : CompletionStore
claimed = record fresh { entries = (id, in_flight (transaction_notify id)) ∷ [] }

first : claim 10 id fresh ≡ (execute, claimed)
unfolding claim prune_locked expired_keys remove_all
first = refl

claim-once_example : (claim 11 id claimed).0 ≡ wait (transaction_notify id)
claim-once_example = claim-once 10 11 id fresh claimed tt first

claim-active_example : active (claim 10 id fresh).1 ≤ 1
claim-active_example = claim-active 10 id fresh (omega arith)

record_completion-bounded_example :
    completed_count (record_completion (some 10) 10 id (some (1 ∷ [])) claimed).1.entries ≤ 16
record_completion-bounded_example =
    record_completion-bounded 10 10 id (some (1 ∷ [])) claimed (refl, tt) (omega arith)

claim-record_completion_example :
    (claim 69 id (record_completion (some 10) 11 id (some (1 ∷ [])) claimed).1).0 ≡ replay (1 ∷ [])
claim-record_completion_example =
    claim-record_completion 10 11 69 id (1 ∷ []) claimed (refl, tt) (omega arith) (omega arith)

-- One caller executes, and a second one claims.
Run-single_example :
    (holders id (id ∷ []) ≤ 1)
    × ((ltb 0 (holders id (id ∷ [])) && executes (claim 12 id claimed).0) ≡ false)
unfolding claim prune_locked expired_keys remove_all
Run-single_example = Run-single 12 id (Run.claimed (opened fresh tt) 10 id)
