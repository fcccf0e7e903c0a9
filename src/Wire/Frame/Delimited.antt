-- ===== src/Wire/Frame/Delimited.antt =====
-- What the length checks and the magic of `Frame::decode` say of an input that it accepts.
use Prim.Native.String.{String}
use veilid_http.Prelude.{
  ℕ, ◌≤◌, ◌≡◌, refl, true, false, length, take, Result, arith, Bool-cases, inl, inr, bytes_eq,
}
use veilid_http.Wire.Limits.{header_len, veilid_message_limit, magic}
use veilid_http.Wire.Error.{WireError, invalid_magic}
use veilid_http.Wire.Reader.{Bytes, done, failed, ◌>>=◌, get_bytes-run}
use veilid_http.Wire.Metadata.{Metadata}
use veilid_http.Wire.Frame.{Frame, read_frame, decode}

-- An input whose length is within the bounds, and which starts with the magic.
pub record Delimited (input : Bytes) : Type 0 where
  pub complete : header_len ≤ length input
  pub fits : length input ≤ veilid_message_limit
  pub starts : bytes_eq (take 4 input) magic ≡ true

read_frame-magic :
    (from_slice : Bytes → Result String Metadata) (n : ℕ) (input : Bytes)
    → 4 ≤ length input
    → bytes_eq (take 4 input) magic ≡ false
    → read_frame from_slice n input ≡ failed invalid_magic
unfolding read_frame
read_frame-magic from_slice n input h e =
    rw (get_bytes-run {E = WireError} 4 input h, ◌>>=◌, e) refl

pub decode-Delimited :
    (from_slice : Bytes → Result String Metadata) (input : Bytes) (f : Frame)
    → decode from_slice input ≡ done f
    → Delimited input
unfolding decode
decode-Delimited from_slice input f e = record {
  complete = ground (arith, e);
  fits = ground (arith, e);
  starts = elim (Bool-cases (bytes_eq (take 4 input) magic)) [
    | inl q ↦ q
    | inr q ↦
        absurd (
          ground (arith, e, read_frame-magic from_slice (length input) input (ground (arith, e)) q))
  ];
}
