-- ===== src/Engine/Incoming/Tests.antt =====
-- An empty body whose end frame has arrived.
use veilid_http.Prelude.{◌≡◌, refl, [], ◌∷◌, some, true, false, arith}
use veilid_http.Wire.Reader.{Bytes}
use veilid_http.Core.ReceiveWindow.{default}
use veilid_http.Core.Reassembler
use veilid_http.Stream.Types.{request, same_direction, StreamEnd}
use veilid_http.Stream.Decoder.{plain, finish}
use veilid_http.Stream.Sample.{sample_hash, sample_zstd}
use veilid_http.Engine.Incoming.{InboundBody, try_finish}
use veilid_http.Engine.Incoming.Completion.{try_finish-completed}

abbrev last : StreamEnd
last = record { direction = request; logical_length = 0; blake3 = [] }

abbrev ended : InboundBody Bytes Bytes
ended = record {
  transaction_id = 7 ∷ [];
  direction = request;
  decoder = some (record {
    direction = request;
    decompression = plain [];
    hasher = [];
    logical_length = 0;
    max_logical_length = 4;
  });
  receive = default;
  reassembler = Reassembler.new 16;
  capacity = 4;
  pending_end = some (0, last);
  completed = false;
}

try_finish-completed_example : (try_finish sample_hash sample_zstd [] ended).1.completed ≡ true
unfolding finish same_direction
try_finish-completed_example =
    try_finish-completed sample_hash sample_zstd [] ended refl (omega arith)
