-- ===== src/Stream/Types.antt =====
-- The names and values of crates/veilid-http-stream/src/lib.rs: extensions, metadata and frames.
-- Texts are their UTF-8 bytes; 16-byte identifiers and 32-byte digests are lists of bytes.
use veilid_http.Prelude.{ℕ, Bool, true, false, ◌&&◌, Option, List, [], ◌∷◌, ◌++◌, ◌==◌, bytes_eq}
use veilid_http.Prelude.HashMap.{Key}
use veilid_http.Core.ReceiveWindow.{AckSnapshot}
use veilid_http.Wire.Reader.{Bytes}
use veilid_http.Wire.Frame.{Frame}

abbrev pub Text : Type 0
Text = List ℕ

-- "org.veilidhttp.", and the "/v1" that each name ends in.
abbrev prefix : Text
prefix =
    b'o' ∷ b'r' ∷ b'g' ∷ b'.' ∷ b'v' ∷ b'e' ∷ b'i' ∷ b'l' ∷ b'i' ∷ b'd' ∷ b'h' ∷ b't' ∷ b't' ∷ b'p'
    ∷ b'.' ∷ []

abbrev named : Text → Text
named name = prefix ++ (name ++ b'/' ∷ b'v' ∷ b'1' ∷ [])

abbrev pub request_open_extension : Key
request_open_extension =
    named (b'r' ∷ b'e' ∷ b'q' ∷ b'u' ∷ b'e' ∷ b's' ∷ b't' ∷ b'-' ∷ b'o' ∷ b'p' ∷ b'e' ∷ b'n' ∷ [])

abbrev pub request_accepted_extension : Key
request_accepted_extension = named (
    b'r' ∷ b'e' ∷ b'q' ∷ b'u' ∷ b'e' ∷ b's' ∷ b't' ∷ b'-' ∷ b'a' ∷ b'c' ∷ b'c' ∷ b'e' ∷ b'p' ∷ b't'
    ∷ b'e' ∷ b'd' ∷ [])

abbrev pub response_open_extension : Key
response_open_extension =
    named (
      b'r' ∷ b'e' ∷ b's' ∷ b'p' ∷ b'o' ∷ b'n' ∷ b's' ∷ b'e' ∷ b'-' ∷ b'o' ∷ b'p' ∷ b'e' ∷ b'n' ∷ [])

abbrev pub stream_end_extension : Key
stream_end_extension =
    named (b's' ∷ b't' ∷ b'r' ∷ b'e' ∷ b'a' ∷ b'm' ∷ b'-' ∷ b'e' ∷ b'n' ∷ b'd' ∷ [])

abbrev pub ack_extension : Key
ack_extension = named (b'a' ∷ b'c' ∷ b'k' ∷ [])

abbrev pub cancel_extension : Key
cancel_extension = named (b'c' ∷ b'a' ∷ b'n' ∷ b'c' ∷ b'e' ∷ b'l' ∷ [])

abbrev pub error_extension : Key
error_extension = named (b'e' ∷ b'r' ∷ b'r' ∷ b'o' ∷ b'r' ∷ [])

pub data StreamDirection : Type 0 where
  request response : StreamDirection

-- The derived equality.
unfoldable pub same_direction : StreamDirection → StreamDirection → Bool
same_direction request request = true
same_direction request response = false
same_direction response request = false
same_direction response response = true

pub data CompressionMode : Type 0 where
  zstd uncompressed : CompressionMode

-- `HeaderField`, `RequestHead` and `ResponseHead` of crates/veilid-http-http/src/lib.rs.
pub record HeaderField : Type 0 where
  pub name : Text
  pub value : Text

pub record RequestHead : Type 0 where
  pub method : Text
  pub path_and_query : Text
  pub headers : List HeaderField

pub record ResponseHead : Type 0 where
  pub status : ℕ
  pub headers : List HeaderField

pub record RequestOpen : Type 0 where
  pub head : RequestHead
  pub return_route_blob : Bytes
  pub request_compression : CompressionMode
  pub request_body : Bool
  pub response_receive_window : ℕ

pub record RequestAccepted : Type 0 where
  pub request_receive_window : ℕ

pub record ResponseOpen : Type 0 where
  pub head : ResponseHead
  pub response_compression : CompressionMode
  pub response_body : Bool
  pub request_receive_window : ℕ

pub record StreamEnd : Type 0 where
  pub direction : StreamDirection
  pub logical_length : ℕ
  pub blake3 : Bytes

-- The derived equality of `StreamEnd`.
pub same_end : StreamEnd → StreamEnd → Bool
same_end a b =
    same_direction a.direction b.direction
    && (a.logical_length == b.logical_length && bytes_eq a.blake3 b.blake3)

pub record Ack : Type 0 where
  pub direction : StreamDirection
  pub cumulative : Option ℕ
  pub selective : ℕ
  pub receive_window : ℕ

pub from_snapshot : StreamDirection → AckSnapshot → ℕ → Ack
from_snapshot direction snapshot receive_window = record {
  direction = direction;
  cumulative = snapshot.cumulative;
  selective = snapshot.selective;
  receive_window = receive_window;
}

-- `Ack::snapshot`.
pub ack_snapshot : Ack → AckSnapshot
ack_snapshot a = record { cumulative = a.cumulative; selective = a.selective }

pub record Cancel : Type 0 where
  pub reason : Text

pub record StreamError : Type 0 where
  pub code : Text
  pub message : Text
  pub retryable : Bool

pub data DecodedFrame : Type 0 where
  request_open :
      (transaction_id : Key) (value : RequestOpen) (initial_payload : Bytes) → DecodedFrame
  request_accepted : (transaction_id : Key) (value : RequestAccepted) → DecodedFrame
  response_open :
      (transaction_id : Key) (value : ResponseOpen) (initial_payload : Bytes) → DecodedFrame
  data_frame :
      (transaction_id : Key) (direction : StreamDirection) (sequence : ℕ) (payload : Bytes)
      → DecodedFrame
  end_frame : (transaction_id : Key) (sequence : ℕ) (value : StreamEnd) → DecodedFrame
  ack : (transaction_id : Key) (value : Ack) → DecodedFrame
  cancel : (transaction_id : Key) (value : Cancel) → DecodedFrame
  error : (transaction_id : Key) (value : StreamError) → DecodedFrame
  other : Frame → DecodedFrame
