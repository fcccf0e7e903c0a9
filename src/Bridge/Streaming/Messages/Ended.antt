-- ===== src/Bridge/Streaming/Messages/Ended.antt =====
-- What the end of a task leaves.
use veilid_http.Prelude.{ℕ, ◌≡◌, refl, ap, Option, none, some, Result-cases, inl, inr, false}
use veilid_http.Prelude.HashMap.{Key, remove}
use veilid_http.Prelude.Text.{Text, ascii}
use veilid_http.Stream.Codec.{encode_error}
use veilid_http.Completion.{record_completion}
use veilid_http.Transport.{RouteTarget}
use veilid_http.Bridge.Streaming.{Task, BridgeCrates, Bridge}
use veilid_http.Bridge.Streaming.Messages.{
  record_tombstone, send_error, report_failure, leave_table, exit_task, end_task,
}

module _ {Method Hasher Encoder Decoder W : Type 0}
    (crates : BridgeCrates Method Hasher Encoder Decoder W) where
  -- The error report changes the world only.
  pub report_failure-fields :
      (target : RouteTarget) (id : Key) (failure : Option Text) (s : Bridge crates)
      → ((report_failure crates target id failure s).transactions ≡ s.transactions)
        × ((report_failure crates target id failure s).completion ≡ s.completion)
  unfolding report_failure send_error
  report_failure-fields target id none s = (refl, refl)
  report_failure-fields target id (some message) s =
      elim (Result-cases (
        encode_error crates.mp id (record {
          code = ascii "stream-transaction-failed";
          message = message;
          retryable = false;
        }))) [
          | inl (frame, e) ↦ rw (e, report_failure) (refl, refl)
          | inr (x, e) ↦ rw (e, report_failure) (refl, refl)
        ]

  -- A task leaves no transaction in the table, and a tombstone in the completion store.
  pub end_task-fields :
      (now : ℕ) (task : Task) (target : RouteTarget) (failure : Option Text) (s : Bridge crates)
      → ((end_task crates now task target failure s).transactions
          ≡ remove task.transaction_id s.transactions)
        × ((end_task crates now task target failure s).completion
            ≡ (record_completion (some now) now task.transaction_id none s.completion).1)
  unfolding end_task record_tombstone leave_table exit_task
  end_task-fields now task target failure s =
      let (table, store) =
        report_failure-fields target task.transaction_id failure
          (leave_table crates task.transaction_id s) in
      (table, ap (λ c. (record_completion (some now) now task.transaction_id none c).1) store)
