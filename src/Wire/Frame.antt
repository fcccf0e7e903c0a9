-- ===== src/Wire/Frame.antt =====
-- `Frame` of crates/veilid-http-wire/src/lib.rs. MessagePack (rmp_serde) is a parameter.
pub mod Delimited
pub mod RoundTrip
pub mod Safety
mod Tests
use Prim.Native.String.{String}
use veilid_http.Prelude.{
  ℕ, ◌+◌, Bool, true, false, not, List, [], ◌∷◌, ◌++◌, ltb, leb, ◌==◌, if◌then◌else◌, length, min,
  take, ◌≤◌, ◌≡◌, refl, ◌∙◌, drop, arith, Bool-cases, inl, inr, Result, ok, err, map_err, reject_if,
  ok_or, bytes_eq, ◌>>=◌ as bind, Option, none, some,
}
use veilid_http.Prelude.HashMap.{Key}
use veilid_http.Prelude.Words.{u16_max, u32_max}
use veilid_http.Wire.Limits.{
  header_len, max_metadata_len, veilid_message_limit, default_frame_limit, magic, version,
}
use veilid_http.Wire.Error.{
  WireError, truncated_header, invalid_magic, unsupported_version, reserved_field,
  metadata_too_large, frame_too_large, length_mismatch, metadata_encode, metadata_decode,
}
use veilid_http.Wire.Reader.{
  Bytes, Outcome, done, failed, panicked, Reader, ◌>>=◌, ◌>>◌, pure, lift, reject, get_u8, get_u16,
  get_u32, get_bytes, get_bytes-run,
}
use veilid_http.Wire.Writer.{put_u8, put_u16, put_u32}
use veilid_http.Wire.FrameType.{FrameType, to_u8, try_from}
use veilid_http.Wire.Metadata.{Metadata}

pub record Frame : Type 0 where
  pub frame_type : FrameType
  pub flags : ℕ
  pub transaction_id : Key
  pub sequence : ℕ
  pub cumulative_ack : ℕ
  pub metadata : Metadata
  pub payload : Bytes

-- The bytes that `encode_with_limit` writes once the lengths are known to fit.
layout : Frame → Bytes → Bytes
layout f metadata =
    magic
    ++ (put_u8 version
        ++ (put_u8 (to_u8 f.frame_type)
            ++ (put_u16 f.flags
                ++ (f.transaction_id
                    ++ (put_u32 f.sequence
                        ++ (put_u32 f.cumulative_ack
                            ++ (put_u16 (length metadata)
                                ++ (put_u16 0
                                    ++ (put_u32 (length f.payload)
                                        ++ (metadata ++ f.payload))))))))))

-- `u16::try_from(metadata.len())` and `u32::try_from(self.payload.len())` fail past the type's range.
write_frame : Frame → ℕ → ℕ → Bytes → Result WireError Bytes
write_frame f limit total metadata =
    if ltb u16_max (length metadata)
    then err (metadata_too_large (length metadata))
    else if ltb u32_max (length f.payload)
    then err (frame_too_large total limit)
    else ok (layout f metadata)

check_and_write : Frame → ℕ → Bytes → Result WireError Bytes
check_and_write f limit metadata =
    let total = header_len + length metadata + length f.payload in
    if ltb max_metadata_len (length metadata)
    then err (metadata_too_large (length metadata))
    else if ltb (min limit veilid_message_limit) total
    then err (frame_too_large total limit)
    else write_frame f limit total metadata

module _ (to_vec_named : Metadata → Result String Bytes) where
  unfoldable pub encode_with_limit : Frame → ℕ → Result WireError Bytes
  unfolding check_and_write write_frame layout
  encode_with_limit f limit =
      bind (map_err metadata_encode (to_vec_named f.metadata)) (check_and_write f limit)

  unfoldable pub encode : Frame → Result WireError Bytes
  unfolding encode_with_limit
  encode f = encode_with_limit f default_frame_limit

module _ (from_slice : Bytes → Result String Metadata) where
  -- The cursor's part of `decode`; `input_len` is `input.len()`.
  read_frame : ℕ → Reader WireError Frame
  read_frame input_len = do
    magic' ← get_bytes 4
    reject (not (bytes_eq magic' magic)) invalid_magic
    version' ← get_u8
    reject (not (version' == version)) (unsupported_version version')
    type_byte ← get_u8
    frame_type ← lift (try_from type_byte)
    flags ← get_u16
    transaction_id ← get_bytes 16
    sequence ← get_u32
    cumulative_ack ← get_u32
    metadata_len ← get_u16
    reserved ← get_u16
    reject (not (reserved == 0)) reserved_field
    payload_len ← get_u32
    reject (ltb max_metadata_len metadata_len) (metadata_too_large metadata_len)
    reject (not (header_len + metadata_len + payload_len == input_len)) length_mismatch
    metadata_bytes ← get_bytes metadata_len
    metadata ← lift (map_err metadata_decode (from_slice metadata_bytes))
    payload ← get_bytes payload_len
    pure (record {
      frame_type = frame_type;
      flags = flags;
      transaction_id = transaction_id;
      sequence = sequence;
      cumulative_ack = cumulative_ack;
      metadata = metadata;
      payload = payload;
    })

  abbrev drop_cursor : Outcome WireError (Frame × Bytes) → Outcome WireError Frame
  drop_cursor (done (f, rest)) = done f
  drop_cursor (failed e) = failed e
  drop_cursor panicked = panicked

  unfoldable pub decode : Bytes → Outcome WireError Frame
  unfolding read_frame
  decode input =
      if ltb (length input) header_len
      then failed truncated_header
      else if ltb veilid_message_limit (length input)
      then failed (frame_too_large (length input) veilid_message_limit)
      else drop_cursor (read_frame (length input) input)
