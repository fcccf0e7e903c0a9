-- ===== src/Wire/Frame/RoundTrip.antt =====
-- `Frame::decode` reads back what `Frame::encode_with_limit` wrote.
use Prim.Native.String.{String}
use veilid_http.Prelude.{
  ℕ, ◌+◌, ◌≤◌, ◌≡◌, refl, ap, not, [], ◌++◌, ltb, ◌==◌, length, Result, ok, arith, map_err, inl,
  inr, Result-cases, length-append,
}
use veilid_http.Prelude.Words.{u16_max, u32_max}
use veilid_http.Wire.Limits.{header_len, max_metadata_len, magic, version, veilid_message_limit}
use veilid_http.Wire.Error.{metadata_decode, invalid_magic, unsupported_version, reserved_field}
use veilid_http.Wire.Reader.{
  Bytes, done, bind-Parses, reject-Parses, lift-Parses, pure-Parses, Parses,
}
use veilid_http.Wire.Writer.{
  put_u16, put_u32, get-put_u8, get-put_u16, get-put_u32, get-put_bytes, get-put_bytes_last,
}
use veilid_http.Wire.FrameType.{to_u8, try_from-to_u8, to_u8-lt}
use veilid_http.Wire.Metadata.{Metadata}
use veilid_http.Wire.Frame.{Frame, decode, read_frame, encode_with_limit, layout}

-- The fields of a Rust `Frame` lie within their types.
pub record InRange (f : Frame) : Type 0 where
  pub flags : f.flags ≤ u16_max
  pub id : length f.transaction_id ≡ 16
  pub sequence : f.sequence ≤ u32_max
  pub cumulative_ack : f.cumulative_ack ≤ u32_max

length-layout :
    (f : Frame) (m : Bytes)
    → length f.transaction_id ≡ 16
    → length (layout f m) ≡ header_len + length m + length f.payload
unfolding layout
length-layout f m h =
    omega (arith, length-append f.transaction_id tail, length-append m f.payload, h)
  where
    tail : Bytes
    tail =
        put_u32 f.sequence
        ++ (put_u32 f.cumulative_ack
            ++ (put_u16 (length m)
                ++ (put_u16 0 ++ (put_u32 (length f.payload) ++ (m ++ f.payload)))))

module _ (from_slice : Bytes → Result String Metadata) where
  read_frame-layout :
      (f : Frame) (m : Bytes)
      → InRange f
      → from_slice m ≡ ok f.metadata
      → length m ≤ max_metadata_len
      → length f.payload ≤ u32_max
      → Parses (read_frame from_slice (header_len + length m + length f.payload)) (layout f m) f []
  unfolding read_frame layout
  read_frame-layout f m r e hm hp = bind-Parses _ (get-put_bytes 4 magic _ refl) (
      reject-Parses _ invalid_magic refl (
        bind-Parses _ (get-put_u8 version _ (omega arith)) (
          reject-Parses _ (unsupported_version version) refl (
            bind-Parses _ (get-put_u8 (to_u8 f.frame_type) _ (to_u8-lt f.frame_type)) (
              lift-Parses _ (try_from-to_u8 f.frame_type) (
                bind-Parses _ (get-put_u16 f.flags _ (omega (arith, r.flags))) (
                  bind-Parses _ (get-put_bytes 16 f.transaction_id _ r.id) (
                    bind-Parses _ (get-put_u32 f.sequence _ (omega (arith, r.sequence))) (
                      bind-Parses _
                        (get-put_u32 f.cumulative_ack _ (omega (arith, r.cumulative_ack)))
                        (bind-Parses _ (get-put_u16 (length m) _ (omega arith)) (
                          bind-Parses _ (get-put_u16 0 _ (omega arith)) (
                            reject-Parses _ reserved_field refl (
                              bind-Parses _ (get-put_u32 (length f.payload) _ (omega arith)) (
                                reject-Parses (ltb max_metadata_len (length m)) _ (ground arith) (
                                  reject-Parses
                                    (not (
                                      header_len + length m + length f.payload
                                      == header_len + length m + length f.payload))
                                    _ (ground arith)
                                    (bind-Parses _ (get-put_bytes (length m) m f.payload refl) (
                                      lift-Parses _ (ap (map_err metadata_decode) e) (
                                        bind-Parses _
                                          (get-put_bytes_last (length f.payload) f.payload refl)
                                          (pure-Parses f [])))))))))))))))))))

-- The named law of MessagePack: what is written for a value is read back as that value.
abbrev pub Decodes : (Metadata → Result String Bytes) → (Bytes → Result String Metadata) → Type 0
Decodes to_vec_named from_slice =
    (m : Metadata) (bytes : Bytes) → to_vec_named m ≡ ok bytes → from_slice bytes ≡ ok m

module _ (to_vec_named : Metadata → Result String Bytes)
    (from_slice : Bytes → Result String Metadata) where
  -- The metadata's bytes of a frame that `encode_with_limit` accepts, and the bounds it has checked.
  encoded_as :
      (f : Frame) (limit : ℕ) (bytes : Bytes)
      → encode_with_limit to_vec_named f limit ≡ ok bytes
      → (m : Bytes) × (to_vec_named f.metadata ≡ ok m)
        × (bytes ≡ layout f m)
        × (length m ≤ max_metadata_len)
        × (header_len + length m + length f.payload ≤ veilid_message_limit)
        × (header_len + length m + length f.payload ≤ limit)
  unfolding encode_with_limit
  encoded_as f limit bytes e = elim (Result-cases (to_vec_named f.metadata)) [
    | inl (m, q) ↦
        (m, q, ground (arith, q), ground (arith, q), ground (arith, q), ground (arith, q))
    | inr (x, q) ↦ absurd (ground (arith, q))
  ]

  -- Where MessagePack restores the metadata it wrote: whatever frame with fields in range
  -- `encode_with_limit` accepts, under any limit, `decode` reads back unchanged, and its bytes
  -- exceed neither the limit nor Veilid's ceiling.
  pub decode-encode_with_limit :
      (f : Frame) (limit : ℕ) (bytes : Bytes)
      → Decodes to_vec_named from_slice
      → InRange f
      → encode_with_limit to_vec_named f limit ≡ ok bytes
      → (decode from_slice bytes ≡ done f)
        × (length bytes ≤ limit)
        × (length bytes ≤ veilid_message_limit)
  unfolding decode
  decode-encode_with_limit f limit bytes law r e =
      let (m, q, same, hm, hl, hb) = encoded_as f limit bytes e in
      let size = length-layout f m r.id in
      let parsed =
        (read_frame-layout from_slice f m r (law f.metadata m q) hm (omega arith)).runs in
      rw same (rw (size, parsed) (ground arith), omega arith, omega arith)
