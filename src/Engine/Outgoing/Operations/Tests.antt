-- ===== src/Engine/Outgoing/Operations/Tests.antt =====
-- A body that is created, pushed to, acknowledged and finished.
use veilid_http.Prelude.{refl, [], ◌∷◌, some, true, false, arith}
use veilid_http.Prelude.Int.{pos}
use veilid_http.Wire.Reader.{Bytes}
use veilid_http.Core.FrameBatcher
use veilid_http.Core.FrameBatcher.{new as new_batcher}
use veilid_http.Stream.Types.{request, uncompressed}
use veilid_http.Stream.Encoder.{new as new_encoder}
use veilid_http.Stream.Encoder
use veilid_http.Stream.Sample.{sample_mp, sample_hash, sample_zstd}
use veilid_http.Engine.Outgoing.{OutboundBody, new}
use veilid_http.Engine.Outgoing.Operations.{push, finish_input}
use veilid_http.Engine.Outgoing.Validity.{IsValid}
use veilid_http.Engine.Outgoing.Operations.Safety.{
  Reachable, created, pushed, finished, Reachable-IsValid,
}

abbrev opened : OutboundBody Bytes Bytes
opened = record {
  transaction_id = 7 ∷ [];
  direction = request;
  encoder = some (record {
    direction = request;
    compression = Encoder.plain [];
    hasher = [];
    logical_length = 0;
  });
  batcher = FrameBatcher.new 100 0;
  pending = [];
  pending_bytes = 0;
  in_flight_bytes = 0;
  max_buffered_bytes = 400;
  local_window = 4;
  peer_window = 4;
  next_sequence = 0;
  in_flight = [];
  input_finished = false;
}

abbrev used : OutboundBody Bytes Bytes
used =
    (finish_input sample_mp sample_hash sample_zstd
      (push sample_mp sample_hash sample_zstd (1 ∷ 2 ∷ []) true opened).1).1

used-Reachable : Reachable sample_mp sample_hash sample_zstd used
unfolding new new_encoder new_batcher
used-Reachable = finished _ (
    pushed (1 ∷ 2 ∷ []) true opened
      (created (7 ∷ []) request uncompressed (pos 3) 100 0 4 400 opened (omega arith) refl))

Reachable-IsValid_example : IsValid used
Reachable-IsValid_example = Reachable-IsValid sample_mp sample_hash sample_zstd used used-Reachable
