-- ===== src/Engine/Outgoing/Operations/Safety.antt =====
-- Every operation of `OutboundBody` keeps its invariant, so every reachable body has it.
use veilid_http.Prelude.{
  ℕ, ◌<◌, ◌≡◌, refl, Bool, ◌||◌, [], ltb, ◌==◌, arith, ok, min, Answers, bind-Answers, ok-Answers,
  reject_if, ok_or, map_err,
}
use veilid_http.Prelude.Int.{ℤ}
use veilid_http.Prelude.HashMap.{Key}
use veilid_http.Prelude.Words.{usize_max, checked_mul}
use veilid_http.Wire.Reader.{Bytes}
use veilid_http.Wire.Limits.{default_frame_limit}
use veilid_http.Core.FrameBatcher
use veilid_http.Core.RetryPolicy.{RetryPolicy}
use veilid_http.Stream.Types.{StreamDirection, CompressionMode, Ack}
use veilid_http.Stream.Crates.{MessagePack, Blake3, Zstd}
use veilid_http.Stream.Encoder.{new as new_encoder}
use veilid_http.Engine.Error.{stream, invalid_window, invalid_pending_bound}
use veilid_http.Engine.Outgoing.{OutboundBody, new}
use veilid_http.Engine.Outgoing.Operations.{
  push, finish_input, set_peer_window, acknowledge, take_sendable,
}
use veilid_http.Engine.Outgoing.Validity.{IsValid, Books}
use veilid_http.Engine.Outgoing.Operations.Kept.{
  push-IsValid, finish_input-IsValid, set_peer_window-IsValid, acknowledge-IsValid,
  take_sendable-IsValid,
}

opened : (window max_bytes : ℕ) → max_bytes < usize_max → Books [] 0 [] 0 0 max_bytes window
opened window max_bytes small = record {
  ascending = tt;
  below = tt;
  next_le = omega arith;
  pending_accounted = refl;
  in_flight_accounted = refl;
  within = omega arith;
  limit = small;
  window = omega arith;
}

new-IsValid :
    {Hasher Encoder Decoder : Type 0} (b : Blake3 Hasher) (z : Zstd Encoder Decoder) (id : Key)
    (direction : StreamDirection) (mode : CompressionMode) (level : ℤ)
    (frame_limit reserved window max_bytes : ℕ)
    → max_bytes < usize_max
    → Answers IsValid (new b z id direction mode level frame_limit reserved window max_bytes)
unfolding new
new-IsValid b z id direction mode level frame_limit reserved window max_bytes small =
    bind-Answers (reject_if (window == 0 || ltb 64 window) (invalid_window window)) (λ u.
      bind-Answers
        (ok_or (checked_mul usize_max (min frame_limit default_frame_limit) window)
          (invalid_pending_bound max_bytes))
        (λ minimum.
          bind-Answers
            (reject_if
              (ltb max_bytes minimum
                || ltb max_bytes (FrameBatcher.new frame_limit reserved).target_payload)
              (invalid_pending_bound max_bytes))
            (λ u'.
              bind-Answers (map_err stream (new_encoder b z direction mode level))
                (λ encoder. ok-Answers (opened window max_bytes small)))))

module _ {Hasher Encoder Decoder : Type 0} (mp : MessagePack) (b : Blake3 Hasher)
    (z : Zstd Encoder Decoder) where
  -- The bodies that a caller can have: created, then changed by any operations, whether these
  -- succeed or fail.
  pub data Reachable : OutboundBody Hasher Encoder → Type 0 where
    created :
        (id : Key) (direction : StreamDirection) (mode : CompressionMode) (level : ℤ)
        (frame_limit reserved window max_bytes : ℕ) (o : OutboundBody Hasher Encoder)
        → max_bytes < usize_max
        → new b z id direction mode level frame_limit reserved window max_bytes ≡ ok o
        → Reachable o
    pushed :
        (logical : Bytes) (flush : Bool) (o : OutboundBody Hasher Encoder)
        → Reachable o
        → Reachable (push mp b z logical flush o).1
    finished : (o : OutboundBody Hasher Encoder) → Reachable o → Reachable (finish_input mp b z o).1
    windowed :
        (n : ℕ) (o : OutboundBody Hasher Encoder)
        → Reachable o
        → Reachable (set_peer_window mp b z n o).1
    acknowledged :
        (a : Ack) (o : OutboundBody Hasher Encoder)
        → Reachable o
        → Reachable (acknowledge mp b z a o).1
    sent :
        (now_ms : ℕ) (policy : RetryPolicy) (o : OutboundBody Hasher Encoder)
        → Reachable o
        → Reachable (take_sendable now_ms policy o).1

  -- However a body with a bound below `usize::MAX` has been used, by operations that succeed or
  -- fail: its byte counts are exact, at most `max_buffered_bytes` are buffered, at most
  -- `local_window` frames are retained, and their numbers are ascending and below the next
  -- sequence number.
  pub Reachable-IsValid : (o : OutboundBody Hasher Encoder) → Reachable o → IsValid o
  Reachable-IsValid _
        (created id direction mode level frame_limit reserved window max_bytes o small e) =
      (new-IsValid b z id direction mode level frame_limit reserved window max_bytes small).at o e
  Reachable-IsValid o (pushed logical flush o' r) =
      push-IsValid mp b z logical flush o' (Reachable-IsValid o' r)
  Reachable-IsValid o (finished o' r) = finish_input-IsValid mp b z o' (Reachable-IsValid o' r)
  Reachable-IsValid o (windowed n o' r) =
      set_peer_window-IsValid mp b z n o' (Reachable-IsValid o' r)
  Reachable-IsValid o (acknowledged a o' r) =
      acknowledge-IsValid mp b z a o' (Reachable-IsValid o' r)
  Reachable-IsValid o (sent now_ms policy o' r) =
      take_sendable-IsValid now_ms policy o' (Reachable-IsValid o' r)
