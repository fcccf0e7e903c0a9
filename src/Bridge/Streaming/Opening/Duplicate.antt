-- ===== src/Bridge/Streaming/Opening/Duplicate.antt =====
-- A transaction that has ended is not executed again.
use veilid_http.Prelude.{
  ℕ, ◌<◌, ◌≡◌, refl, ap, ◌∙◌, Option, none, some, [], bytes_eq_refl, Result-cases, inl, inr,
}
use veilid_http.Prelude.HashMap.{Key, get, remove, Distinct, get-remove}
use veilid_http.Prelude.Text.{Text}
use veilid_http.Prelude.Words.{u64_max, saturating_add}
use veilid_http.Wire.Reader.{Bytes, done}
use veilid_http.Stream.Types.{RequestOpen, request_open}
use veilid_http.Stream.Codec.{decode, encode_error}
use veilid_http.Completion.{CompletionClaim, Notify, in_flight, claim, prune_locked}
use veilid_http.Completion.Claims.{claim-in_flight}
use veilid_http.Completion.Replay.{claim-record_tombstone}
use veilid_http.Transport.{RouteTarget}
use veilid_http.Bridge.Streaming.{Task, BridgeCrates, Bridge}
use veilid_http.Bridge.Streaming.Messages.{leave_table, report_failure, end_task}
use veilid_http.Bridge.Streaming.Messages.Ended.{report_failure-fields, end_task-fields}
use veilid_http.Bridge.Streaming.Opening.{
  already_seen, refuse_duplicate, act_on_claim, open_transaction, handle_open,
}

module _ {Method Hasher Encoder Decoder W : Type 0}
    (crates : BridgeCrates Method Hasher Encoder Decoder W) where
  refuse_duplicate-fields :
      (call_id : Text) (id : Key) (s : Bridge crates)
      → ((refuse_duplicate crates call_id id s).1.running ≡ s.running)
        × ((refuse_duplicate crates call_id id s).1.transactions ≡ s.transactions)
  unfolding refuse_duplicate
  refuse_duplicate-fields call_id id s =
      elim (Result-cases (encode_error crates.mp id already_seen)) [
        | inl (reply, e) ↦ rw e (refl, refl)
        | inr (x, e) ↦ rw e (refl, refl)
      ]

  -- The bridge has the same executions and transactions.
  abbrev pub SameExecutions : Bridge crates → Bridge crates → Type 0
  SameExecutions s s' = (s'.running ≡ s.running) × (s'.transactions ≡ s.transactions)

  open_transaction-tombstone :
      (now : ℕ) (call_id site : Text) (id : Key) (opening : RequestOpen) (s : Bridge crates)
      → get id s.transactions ≡ none
      → (claim now id s.completion).0 ≡ CompletionClaim.tombstone
      → SameExecutions s (open_transaction crates now call_id site id opening s).1
  unfolding open_transaction act_on_claim
  open_transaction-tombstone now call_id site id opening s e seen =
      rw (e, open_transaction, seen)
        (refuse_duplicate-fields call_id id
          (record s { completion = (claim now id s.completion).1 }))

  open_transaction-in_flight :
      (now : ℕ) (call_id site : Text) (id : Key) (opening : RequestOpen) (n : Notify)
      (s : Bridge crates)
      → get id s.transactions ≡ none
      → Distinct s.completion.entries
      → get id s.completion.entries ≡ some (in_flight n)
      → SameExecutions s (open_transaction crates now call_id site id opening s).1
  unfolding open_transaction act_on_claim
  open_transaction-in_flight now call_id site id opening n s e d seen =
      rw (e, open_transaction, claim-in_flight now id n s.completion d seen)
        (refuse_duplicate-fields call_id id
          (record s { completion = prune_locked now s.completion }))

  -- Where the table and the completion store have distinct identifiers, and the store has the
  -- transaction in flight: while a task of it ends, with success or failure, an opening with its
  -- identifier at a time before `now + retention` starts nothing and registers nothing, whether it
  -- arrives after the task has left the table and before the failure is reported, after that and
  -- before the tombstone is recorded, or as the next operation after the record at `now`.
  pub handle_open-end_task :
      (now now' : ℕ) (task : Task) (target : RouteTarget) (failure : Option Text)
      (call_id site : Text) (encoded : Bytes) (opening : RequestOpen) (n : Notify)
      (s : Bridge crates)
      → Distinct s.transactions
      → Distinct s.completion.entries
      → get task.transaction_id s.completion.entries ≡ some (in_flight n)
      → decode crates.mp encoded ≡ done (request_open task.transaction_id opening [])
      → now' < saturating_add u64_max now s.completion.retention
      → let left = leave_table crates task.transaction_id s in
        let reported = report_failure crates target task.transaction_id failure left in
        let over = end_task crates now task target failure s in
        let opened = λ (v : Bridge crates). (handle_open crates now' call_id site encoded v).1 in
        SameExecutions left (opened left)
        × SameExecutions reported (opened reported)
        × SameExecutions over (opened over)
  unfolding handle_open leave_table
  handle_open-end_task now now' task target failure call_id site encoded opening n s d d' flying e
        fresh =
      rw (e, handle_open)
        (
          open_transaction-in_flight now' call_id site task.transaction_id opening n
              (leave_table crates task.transaction_id s) gone d' flying,
          open_transaction-in_flight now' call_id site task.transaction_id opening n
              (report_failure crates target task.transaction_id failure
                (leave_table crates task.transaction_id s))
              (ap (get task.transaction_id) fields.0 ∙ gone) (rw fields.1 d') (rw fields.1 flying),
          open_transaction-tombstone now' call_id site task.transaction_id opening
              (end_task crates now task target failure s) absent seen,
        )
    where
      fields :
          ((report_failure crates target task.transaction_id failure
              (leave_table crates task.transaction_id s)).transactions
            ≡ remove task.transaction_id s.transactions)
          × ((report_failure crates target task.transaction_id failure
                (leave_table crates task.transaction_id s)).completion
              ≡ s.completion)
      fields =
          report_failure-fields crates target task.transaction_id failure
            (leave_table crates task.transaction_id s)

      gone : get task.transaction_id (remove task.transaction_id s.transactions) ≡ none
      gone =
          get-remove task.transaction_id task.transaction_id s.transactions d
          ∙ rw (bytes_eq_refl task.transaction_id) refl

      absent :
          get task.transaction_id (end_task crates now task target failure s).transactions ≡ none
      absent =
          ap (get task.transaction_id) (end_task-fields crates now task target failure s).0 ∙ gone

      seen :
          (claim now' task.transaction_id (end_task crates now task target failure s).completion).0
          ≡ CompletionClaim.tombstone
      seen =
          ap (λ c. (claim now' task.transaction_id c).0)
            (end_task-fields crates now task target failure s).1
          ∙ ap (λ r. r.0)
              (claim-record_tombstone now now now' task.transaction_id s.completion d' fresh)
