-- ===== src/Wire/Frame/Safety.antt =====
-- `Frame::decode` never reads past the end of its input, whatever that holds.
use Prim.Native.String.{String}
use veilid_http.Prelude.{
  ℕ, ◌+◌, ◌≤◌, refl, not, ltb, ◌==◌, length, Result, arith, map_err, Bool-cases, inl, inr, bytes_eq,
}
use veilid_http.Wire.Limits.{header_len, max_metadata_len, magic, version, veilid_message_limit}
use veilid_http.Wire.Error.{WireError, metadata_decode}
use veilid_http.Wire.Reader.{
  Bytes, Outcome, done, failed, panicked, Fine, Safe, bind-Safe, reject-Safe, pure-Safe, lift-Safe,
  get_u8-Takes, get_u16-Takes, get_u32-Takes, get_bytes-Takes,
}
use veilid_http.Wire.FrameType.{try_from}
use veilid_http.Wire.Metadata.{Metadata}
use veilid_http.Wire.Frame.{Frame, decode, read_frame, drop_cursor}

module _ (from_slice : Bytes → Result String Metadata) where
  read_frame-Safe : (n : ℕ) → header_len ≤ n → Safe n (read_frame from_slice n)
  unfolding read_frame
  read_frame-Safe n h = bind-Safe 4 (get_bytes-Takes 4) (omega arith) λ magic'.
      reject-Safe (not (bytes_eq magic' magic)) _ λ _.
        bind-Safe 1 get_u8-Takes (omega arith) λ version'.
          reject-Safe (not (version' == version)) _ λ _.
            bind-Safe 1 get_u8-Takes (omega arith) λ type_byte.
              lift-Safe (try_from type_byte) λ frame_type _.
                bind-Safe 2 get_u16-Takes (omega arith) λ flags.
                  bind-Safe 16 (get_bytes-Takes 16) (omega arith) λ transaction_id.
                    bind-Safe 4 get_u32-Takes (omega arith) λ sequence.
                      bind-Safe 4 get_u32-Takes (omega arith) λ cumulative_ack.
                        bind-Safe 2 get_u16-Takes (omega arith) λ metadata_len.
                          bind-Safe 2 get_u16-Takes (omega arith) λ reserved.
                            reject-Safe (not (reserved == 0)) _ λ _.
                              bind-Safe 4 get_u32-Takes (omega arith) λ payload_len.
                                reject-Safe (ltb max_metadata_len metadata_len) _ λ _.
                                  reject-Safe (not (header_len + metadata_len + payload_len == n)) _
                                    λ fits.
                                      bind-Safe metadata_len (get_bytes-Takes metadata_len)
                                        (ground arith)
                                        λ metadata_bytes.
                                          lift-Safe
                                            (map_err metadata_decode (from_slice metadata_bytes))
                                            λ metadata _.
                                              bind-Safe payload_len (get_bytes-Takes payload_len)
                                                (ground arith) λ payload. pure-Safe _

  -- On every input, of any length and with any bytes, `decode` returns a frame or an error and
  -- does not panic.
  pub decode-Fine : (input : Bytes) → Fine (decode from_slice input)
  unfolding decode
  decode-Fine input = elim (Bool-cases (ltb (length input) header_len)) [
    | inl e ↦ rw e tt
    | inr e ↦ rw e (elim (Bool-cases (ltb veilid_message_limit (length input))) [
      | inl q ↦ rw q tt
      | inr q ↦ rw q (
          cursor_dropped (read_frame from_slice (length input) input)
            ((read_frame-Safe (length input) (ground arith)).at input refl))
    ])
  ]
    where
      cursor_dropped :
          (r : Outcome WireError (Frame × Bytes)) → Fine r → Fine (drop_cursor from_slice r)
      cursor_dropped (done (f, s)) h = tt
      cursor_dropped (failed e) h = tt
      cursor_dropped panicked h = h
