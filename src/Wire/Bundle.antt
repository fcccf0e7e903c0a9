-- ===== src/Wire/Bundle.antt =====
-- `FrameBundle` of crates/veilid-http-wire/src/lib.rs: the list of its encoded frames.
pub mod RoundTrip
pub mod Safety
pub mod Separation
mod Tests
use Prim.Native.String.{String}
use veilid_http.Prelude.{
  ℕ, zero, suc, ◌+◌, ◌*◌, Bool, true, false, not, List, [], ◌∷◌, ◌++◌, ltb, ◌==◌, if◌then◌else◌,
  length, Result, ok, err, bytes_eq, ok_or, Option, none, some, map, sum, concat, ◌>>=◌ as bind,
}
use veilid_http.Prelude.Words.{u16_max, u32_max, usize_max, checked_add, checked_mul}
use veilid_http.Wire.Limits.{bundle_header_len, veilid_message_limit, bundle_magic}
use veilid_http.Wire.Error.{
  WireError, truncated_bundle, invalid_bundle_magic, empty_bundle, bundle_count, bundle_length,
  reserved_field, frame_too_large, length_mismatch,
}
use veilid_http.Wire.Reader.{
  Bytes, Outcome, done, failed, panicked, Reader, ◌>>=◌, ◌>>◌, pure, lift, reject, remaining,
  get_u16, get_u32, get_bytes,
}
use veilid_http.Wire.Writer.{put_u16, put_u32}
use veilid_http.Wire.Metadata.{Metadata}
use veilid_http.Wire.Frame.{Frame, decode as decode_frame}

abbrev pub lengths_of : List Bytes → List ℕ
lengths_of [] = []
lengths_of (f ∷ fs) = length f ∷ lengths_of fs

-- `for frame in &self.frames { output.put_u32(u32::try_from(frame.len())?) }`.
length_table : List Bytes → Result WireError Bytes
length_table [] = ok []
length_table (f ∷ fs) =
    if ltb u32_max (length f)
    then err bundle_length
    else bind (length_table fs) (λ rest. ok (put_u32 (length f) ++ rest))

write_bundle : List Bytes → Result WireError Bytes
write_bundle frames =
    if ltb u16_max (length frames)
    then err bundle_count
    else bind (length_table frames) (λ table.
      ok (bundle_magic ++ (put_u16 (length frames) ++ (put_u16 0 ++ (table ++ concat frames)))))

pub encode : List Bytes → Result WireError Bytes
unfolding write_bundle
encode [] = err empty_bundle
encode (f ∷ fs) =
    let total = bundle_header_len + length (f ∷ fs) * 4 + sum (lengths_of (f ∷ fs)) in
    if ltb veilid_message_limit total
    then err (frame_too_large total veilid_message_limit)
    else write_bundle (f ∷ fs)

-- `lengths.push(cursor.get_u32() as usize)`, once for each frame.
read_lengths : ℕ → Reader WireError (List ℕ)
read_lengths zero = pure []
read_lengths (suc n) = do x ← get_u32; xs ← read_lengths n; pure (x ∷ xs)

-- `try_fold(0_usize, |sum, length| sum.checked_add(*length))`.
checked_sum : ℕ → List ℕ → Option ℕ
checked_sum acc [] = some acc
checked_sum acc (x ∷ xs) = elim (checked_add usize_max acc x) [
  | none ↦ none
  | some acc' ↦ checked_sum acc' xs
]

-- `Frame::decode(frame.clone())?` inside the loop.
abbrev checked : Outcome WireError Frame → Reader WireError (Unit {0})
checked (done f) s = done (tt, s)
checked (failed e) s = failed e
checked panicked s = panicked

module _ (from_slice : Bytes → Result String Metadata) where
  read_frames : List ℕ → Reader WireError (List Bytes)
  read_frames [] = pure []
  read_frames (n ∷ ns) = do
    frame ← get_bytes n
    checked (decode_frame from_slice frame)
    frames ← read_frames ns
    pure (frame ∷ frames)

  read_bundle : Reader WireError (List Bytes)
  read_bundle = do
    magic ← get_bytes 4
    reject (not (bytes_eq magic bundle_magic)) invalid_bundle_magic
    count ← get_u16
    reserved ← get_u16
    reject (count == 0) empty_bundle
    reject (not (reserved == 0)) reserved_field
    lengths_bytes ← lift (ok_or (checked_mul usize_max count 4) bundle_length)
    left ← remaining
    reject (ltb left lengths_bytes) truncated_bundle
    lengths ← read_lengths count
    expected ← lift (ok_or (checked_sum 0 lengths) bundle_length)
    left' ← remaining
    reject (not (left' == expected)) length_mismatch
    read_frames lengths

  abbrev drop_cursor : Outcome WireError (List Bytes × Bytes) → Outcome WireError (List Bytes)
  drop_cursor (done (frames, rest)) = done frames
  drop_cursor (failed e) = failed e
  drop_cursor panicked = panicked

  pub decode : Bytes → Outcome WireError (List Bytes)
  unfolding read_bundle read_lengths read_frames checked_sum
  decode input =
      if ltb (length input) bundle_header_len
      then failed truncated_bundle
      else if ltb veilid_message_limit (length input)
      then failed (frame_too_large (length input) veilid_message_limit)
      else drop_cursor (read_bundle input)
