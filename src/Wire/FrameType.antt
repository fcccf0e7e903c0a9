-- ===== src/Wire/FrameType.antt =====
-- `FrameType` of crates/veilid-http-wire/src/lib.rs, and its byte.
use veilid_http.Prelude.{ℕ, ◌<◌, ◌≡◌, refl, ◌==◌, if◌then◌else◌, Result, ok, err, arith}
use veilid_http.Wire.Error.{WireError, unknown_frame_type}

pub data FrameType : Type 0 where
  negotiate request_open request_accepted request_data request_end : FrameType
  response_open response_data response_end atomic_response : FrameType
  ack cancel error status : FrameType

-- `self.frame_type as u8`.
unfoldable pub to_u8 : FrameType → ℕ
to_u8 negotiate = 1
to_u8 request_open = 2
to_u8 request_accepted = 3
to_u8 request_data = 4
to_u8 request_end = 5
to_u8 response_open = 6
to_u8 response_data = 7
to_u8 response_end = 8
to_u8 atomic_response = 9
to_u8 ack = 10
to_u8 cancel = 11
to_u8 error = 12
to_u8 status = 13

unfoldable pub try_from : ℕ → Result WireError FrameType
try_from value =
    if value == 1
    then ok negotiate
    else if value == 2
    then ok request_open
    else if value == 3
    then ok request_accepted
    else if value == 4
    then ok request_data
    else if value == 5
    then ok request_end
    else if value == 6
    then ok response_open
    else if value == 7
    then ok response_data
    else if value == 8
    then ok response_end
    else if value == 9
    then ok atomic_response
    else if value == 10
    then ok ack
    else if value == 11
    then ok cancel
    else if value == 12
    then ok error
    else if value == 13
    then ok status
    else err (unknown_frame_type value)

pub try_from-to_u8 : (t : FrameType) → try_from (to_u8 t) ≡ ok t
unfolding try_from to_u8
try_from-to_u8 negotiate = refl
try_from-to_u8 request_open = refl
try_from-to_u8 request_accepted = refl
try_from-to_u8 request_data = refl
try_from-to_u8 request_end = refl
try_from-to_u8 response_open = refl
try_from-to_u8 response_data = refl
try_from-to_u8 response_end = refl
try_from-to_u8 atomic_response = refl
try_from-to_u8 ack = refl
try_from-to_u8 cancel = refl
try_from-to_u8 error = refl
try_from-to_u8 status = refl

pub to_u8-lt : (t : FrameType) → to_u8 t < 256
unfolding to_u8
to_u8-lt negotiate = omega arith
to_u8-lt t = ground arith
