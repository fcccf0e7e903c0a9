-- ===== src/Bridge/Atomic/Calls/Waiting.antt =====
-- A call that waits for another execution of its transaction returns.
use veilid_http.Prelude.{
  ℕ, zero, suc, ◌+◌, ◌-◌, ◌*◌, min, ◌≤◌, ◌<◌, ◌≡◌, refl, Bool, true, false, ◌⊎◌, inl, inr, arith,
  Bool-cases, leb, if◌then◌else◌,
}
use veilid_http.Prelude.HashMap.{Key}
use veilid_http.Prelude.Text.{Text}
use veilid_http.Wire.Reader.{Bytes, Outcome, Fine, done, failed, panicked}
use veilid_http.Wire.Frame.{Frame, decode}
use veilid_http.Wire.Error.{WireError}
use veilid_http.Wire.Frame.Safety.{decode-Fine}
use veilid_http.Http.Translation.{Urls}
use veilid_http.Http.Atomic.{AtomicCrates}
use veilid_http.Completion.{CompletionStore, CompletionClaim, execute, replay, wait, Notify, claim}
use veilid_http.Bridge.Upstream.{HeaderTypes, UpstreamRequest}
use veilid_http.Bridge.Config.{Config}
use veilid_http.Bridge.Atomic.{Display, World}
use veilid_http.Bridge.Atomic.Calls.{
  seconds_or_max, claimed, rounds, handle_frame, handle_atomic_call,
}

module _ {Method Decoder Url Name Value W : Type 0} (crates : AtomicCrates Method Decoder)
    (urls : Urls Url) (types : HeaderTypes Name Value) (display : Display)
    (world : World (UpstreamRequest Method Url Name Value) W) (config : Config)
    (others : W → CompletionStore → CompletionStore) (pending : W → ℕ) where
  -- A round returns, or it sleeps before the deadline.
  Sleeps : ℕ → W → Bool × CompletionStore × W → Type 0
  Sleeps elapsed w (returned, store, w') =
      (elapsed < 1000 * config.overall_timeout)
      × ((n : Notify) × (w'
            ≡ (world.sleep n (min (1000 * config.overall_timeout - elapsed) 50) w).1))

  claimed_cases :
      (site_fingerprint call_id : Text) (payload : Bytes) (id : Key) (elapsed : ℕ)
      (c : CompletionClaim × CompletionStore) (w : W)
      → ((claimed crates urls types display world config others site_fingerprint call_id payload id
            elapsed c w).0
          ≡ true)
        ⊎ Sleeps elapsed w (
            claimed crates urls types display world config others site_fingerprint call_id payload
              id elapsed c w)
  unfolding claimed Sleeps
  claimed_cases site_fingerprint call_id payload id elapsed (execute, store) w = inl refl
  claimed_cases site_fingerprint call_id payload id elapsed (replay response, store) w = inl refl
  claimed_cases site_fingerprint call_id payload id elapsed (CompletionClaim.tombstone, store) w =
      inl refl
  claimed_cases site_fingerprint call_id payload id elapsed (wait notify, store) w =
      elim (Bool-cases (leb (1000 * config.overall_timeout) elapsed)) [
        | inl over ↦ inl (rw over refl)
        | inr before ↦ inr (rw before (ground arith, (notify, refl)))
      ]

  -- A sleep lasts as long as it was asked to, or it uses up one of the pending notifications.
  abbrev pub Timed : ℕ → W → Bool × W → Type 0
  Timed d w (true, w') = (world.instant w ≤ world.instant w') × (pending w' + 1 ≤ pending w)
  Timed d w (false, w') = (world.instant w + d ≤ world.instant w') × (pending w' ≤ pending w)

  -- The rounds that are enough from a state on.
  abbrev Enough : ℕ → ℕ → W → Type 0
  Enough started fuel w =
      started + 1000 * config.overall_timeout + 50 * pending w ≤ world.instant w + 50 * fuel

  slept-Enough :
      (started fuel : ℕ) (w : W) (r : Bool × W)
      → Timed (min (1000 * config.overall_timeout - (world.instant w - started)) 50) w r
      → started ≤ world.instant w
      → world.instant w - started < 1000 * config.overall_timeout
      → Enough started (suc fuel) w
      → (started ≤ world.instant r.1) × Enough started fuel r.1
  slept-Enough started fuel w (true, w') (later, fewer) begun before enough =
      (omega arith, omega arith)
  slept-Enough started fuel w (false, w') (later, fewer) begun before enough =
      (omega arith, omega arith)

  -- A round that does not return leaves enough rounds.
  Sleeps-Enough :
      (started fuel : ℕ) (w : W) (r : Bool × CompletionStore × W)
      → ((n : Notify) (d : ℕ) (v : W) → Timed d v (world.sleep n d v))
      → started ≤ world.instant w
      → Sleeps (world.instant w - started) w r
      → Enough started (suc fuel) w
      → (started ≤ world.instant r.2) × Enough started fuel r.2
  unfolding Sleeps
  Sleeps-Enough started fuel w (returned, store, w') timed begun (before, (n, slept)) enough =
      rw slept (
        slept-Enough started fuel w _
          (timed n (min (1000 * config.overall_timeout - (world.instant w - started)) 50) w) begun
          before enough)

  chosen :
      (c : Bool) (x r : Bool × CompletionStore × W)
      → x.0 ≡ true
      → (c ≡ true) ⊎ (r.0 ≡ true)
      → (if c then x else r).0 ≡ true
  chosen true x r h e = h
  chosen false x r h (inl e) = absurd (ground arith)
  chosen false x r h (inr e) = e

  abbrev round : Text → Text → Bytes → Key → ℕ → CompletionStore → W → Bool × CompletionStore × W
  round site_fingerprint call_id payload id started store w =
      claimed crates urls types display world config others site_fingerprint call_id payload id
        (world.instant w - started) (claim (seconds_or_max (world.unix_seconds w)) id store) w

  rounds_end :
      (fuel : ℕ) (site_fingerprint call_id : Text) (payload : Bytes) (id : Key) (started : ℕ)
      (store : CompletionStore) (w : W)
      → ((n : Notify) (d : ℕ) (v : W) → Timed d v (world.sleep n d v))
      → started ≤ world.instant w
      → Enough started fuel w
      → (rounds crates urls types display world config others
          (suc fuel)
          site_fingerprint
          call_id
          payload
          id
          started
          store
          w).0
        ≡ true
  unfolding rounds Sleeps
  rounds_end zero site_fingerprint call_id payload id started store w timed begun enough =
      chosen _ _ _ refl
        (elim (claimed_cases site_fingerprint call_id payload id (world.instant w - started)
          (claim (seconds_or_max (world.unix_seconds w)) id store) w) [
            | inl returned ↦ inl returned
            | inr sleeps ↦ absurd (at_deadline sleeps.0)
          ])
    where
      at_deadline : ¬ (world.instant w - started < 1000 * config.overall_timeout)
      at_deadline before = omega arith
  rounds_end (suc fuel) site_fingerprint call_id payload id started store w timed begun enough =
      chosen _ _ _ refl
        (elim (claimed_cases site_fingerprint call_id payload id (world.instant w - started)
          (claim (seconds_or_max (world.unix_seconds w)) id store) w) [
            | inl returned ↦ inl returned
            | inr sleeps ↦
                let (begun', left) =
                  Sleeps-Enough started fuel w
                    (round site_fingerprint call_id payload id started store w) timed begun sleeps
                    enough in
                inr (
                  rounds_end fuel site_fingerprint call_id payload id started
                    (others (round site_fingerprint call_id payload id started store w).2
                      (round site_fingerprint call_id payload id started store w).1)
                    (round site_fingerprint call_id payload id started store w).2 timed begun' left)
          ])

  -- Where each `timeout(duration, notify.notified())` lasts for its duration unless a notification or
  -- a stored permit ends it, of which there are at most `pending w` to come: for any payload, and
  -- whatever other tasks do to the store, `handle_atomic_call` returns within one round, one for each
  -- span of 50 ms of the overall timeout, and one for each of these notifications, also where its
  -- transaction never completes.
  pub handle_atomic_call-returns :
      (fuel : ℕ) (call_id site_fingerprint : Text) (payload : Bytes) (store : CompletionStore)
      (w : W)
      → ((n : Notify) (d : ℕ) (v : W) → Timed d v (world.sleep n d v))
      → 1000 * config.overall_timeout + 50 * pending w ≤ 50 * fuel
      → (handle_atomic_call crates urls types display world config others
          (suc fuel)
          call_id
          site_fingerprint
          payload
          store
          w).0
        ≡ true
  unfolding handle_atomic_call handle_frame
  handle_atomic_call-returns fuel call_id site_fingerprint payload store w timed enough =
      frame_returns (decode crates.metadata.from_slice payload)
        (decode-Fine crates.metadata.from_slice payload)
    where
      frame_returns :
          (r : Outcome WireError Frame)
          → Fine r
          → (handle_frame crates urls types display world config others
              (suc fuel)
              call_id
              site_fingerprint
              payload
              r
              store
              w).0
            ≡ true
      frame_returns (done frame) fine =
          rounds_end fuel site_fingerprint call_id payload frame.transaction_id (world.instant w)
            store w timed (omega arith) (omega arith)
      frame_returns (failed error) fine = refl
      frame_returns panicked fine = absurd fine
