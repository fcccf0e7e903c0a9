-- ===== src/Ipc/Tests.antt =====
-- A frame written and read back from a stream with one more byte.
use veilid_http.Prelude.{◌≡◌, refl, [], ◌∷◌, ◌++◌, ok, arith}
use veilid_http.Wire.Reader.{Bytes, done}
use veilid_http.Ipc.{IpcFrame, hello, to_u8, encode, read_frame}
use veilid_http.Ipc.RoundTrip.{InRange, read_frame-encode}

abbrev sent : IpcFrame
sent = record {
  kind = hello;
  flags = 0;
  request_id = 42;
  metadata = 9 ∷ [];
  payload = b'o' ∷ b'k' ∷ [];
}

abbrev sent_bytes : Bytes
sent_bytes =
    b'V' ∷ b'H' ∷ b'I' ∷ b'P' ∷ 1 ∷ 1 ∷ 0 ∷ 0 ∷ 0 ∷ 0 ∷ 0 ∷ 0 ∷ 0 ∷ 0 ∷ 0 ∷ 42 ∷ 0 ∷ 0 ∷ 0 ∷ 1 ∷ 0
    ∷ 0 ∷ 0 ∷ 2 ∷ 9 ∷ b'o' ∷ b'k' ∷ []

sent-InRange : InRange sent
sent-InRange = record { flags = omega arith; request_id = omega arith }

written : encode sent ≡ ok sent_bytes
unfolding encode to_u8
written = refl

read_frame-encode_example : read_frame (sent_bytes ++ 1 ∷ []) ≡ done (sent, 1 ∷ [])
read_frame-encode_example = read_frame-encode sent sent_bytes (1 ∷ []) sent-InRange written
