-- ===== src/Wire/Bundle/Safety.antt =====
-- `FrameBundle::decode` never reads past the end of its input, whatever that holds.
use Prim.Native.String.{String}
use veilid_http.Prelude.{
  ℕ, zero, suc, ◌+◌, ◌*◌, ◌-◌, ◌≤◌, ◌≡◌, refl, not, ltb, ◌==◌, length, Result, ok, arith,
  Bool-cases, Option-cases, inl, inr, bytes_eq, List, [], ◌∷◌, some, sum, ok_or,
}
use veilid_http.Prelude.Words.{usize_max, checked_mul}
use veilid_http.Wire.Limits.{bundle_header_len, bundle_magic, veilid_message_limit}
use veilid_http.Wire.Error.{
  WireError, invalid_bundle_magic, empty_bundle, reserved_field, truncated_bundle, length_mismatch,
  bundle_length,
}
use veilid_http.Wire.Reader.{
  Bytes, Outcome, done, failed, panicked, Reader, ◌>>=◌, ◌>>◌, Takes, Fine, Safe, map-Safe,
  remaining-Safe, bind-Safe, reject-Safe, lift-Safe, pure-Safe, get_u16-Takes, get_u32-Takes,
  get_bytes-Takes,
}
use veilid_http.Wire.Metadata.{Metadata}
use veilid_http.Wire.Frame.{Frame, decode as decode_frame}
use veilid_http.Wire.Frame.Safety.{decode-Fine as decode_frame-Fine}
use veilid_http.Wire.Bundle.{
  read_lengths, checked_sum, checked, read_frames, read_bundle, drop_cursor, decode,
}

-- The length table takes four bytes for each entry.
read_lengths-Takes : (n : ℕ) → Takes (n * 4) (read_lengths n)
unfolding read_lengths
read_lengths-Takes zero s h = ([], s, refl, omega arith)
read_lengths-Takes (suc n) s h =
    let (x, rest, p, l) = get_u32-Takes {E = WireError} s (omega arith) in
    let (xs, rest', q, k) = read_lengths-Takes n rest (omega arith) in
    (x ∷ xs, rest', rw (p, ◌>>=◌) (rw (q, ◌>>=◌) refl), omega arith)

checked_sum-sum : (acc e : ℕ) (xs : List ℕ) → checked_sum acc xs ≡ some e → e ≡ acc + sum xs
unfolding checked_sum
checked_sum-sum acc e [] h = ground arith
checked_sum-sum acc e (x ∷ xs) h = ground (arith, checked_sum-sum (acc + x) e xs)

checked-Safe :
    {B : Type 0} {k : ℕ} {m : Reader WireError B} (r : Outcome WireError Frame)
    → Fine r
    → Safe k m
    → Safe k (checked r >> m)
checked-Safe (done f) h safe = record { at = λ s l. safe.at s l }
checked-Safe (failed e) h safe = record { at = λ s l. tt }
checked-Safe panicked h safe = absurd h

module _ (from_slice : Bytes → Result String Metadata) where
  read_frames-Safe : (k : ℕ) (ns : List ℕ) → k ≡ sum ns → Safe k (read_frames from_slice ns)
  unfolding read_frames
  read_frames-Safe k [] h = pure-Safe []
  read_frames-Safe k (n ∷ ns) h = bind-Safe n (get_bytes-Takes n) (omega arith) λ frame.
      checked-Safe (decode_frame from_slice frame) (decode_frame-Fine from_slice frame)
        (map-Safe (◌∷◌ frame) (read_frames-Safe (k - n) ns (omega arith)))

  expected_sum : (xs : List ℕ) (e : ℕ) → ok_or (checked_sum 0 xs) bundle_length ≡ ok e → e ≡ sum xs
  expected_sum xs e h = elim (Option-cases (checked_sum 0 xs)) [
    | inl q ↦ absurd (ground (arith, q))
    | inr (v, q) ↦ ground (arith, q, checked_sum-sum 0 v xs q)
  ]

  read_bundle-Safe : (n : ℕ) → bundle_header_len ≤ n → Safe n (read_bundle from_slice)
  unfolding read_bundle
  read_bundle-Safe n h = bind-Safe 4 (get_bytes-Takes 4) (omega arith) λ magic.
      reject-Safe (not (bytes_eq magic bundle_magic)) invalid_bundle_magic λ _.
        bind-Safe 2 get_u16-Takes (omega arith) λ count.
          bind-Safe 2 get_u16-Takes (omega arith) λ reserved.
            reject-Safe (count == 0) empty_bundle λ _.
              reject-Safe (not (reserved == 0)) reserved_field λ _.
                lift-Safe (ok_or (checked_mul usize_max count 4) bundle_length)
                  λ lengths_bytes product. remaining-Safe λ left left_eq.
                    reject-Safe (ltb left lengths_bytes) truncated_bundle λ enough.
                      bind-Safe (count * 4) (read_lengths-Takes count) (ground arith) λ lengths.
                        lift-Safe (ok_or (checked_sum 0 lengths) bundle_length) λ expected added.
                          remaining-Safe λ left' left'_eq.
                            reject-Safe (not (left' == expected)) length_mismatch λ fits.
                              read_frames-Safe _ lengths
                                (ground (arith, expected_sum lengths expected added))

  -- On every input, of any length and with any bytes, `FrameBundle::decode` returns the frames or
  -- an error and does not panic.
  pub decode-Fine_bundle : (input : Bytes) → Fine (decode from_slice input)
  unfolding decode
  decode-Fine_bundle input = elim (Bool-cases (ltb (length input) bundle_header_len)) [
    | inl e ↦ rw e tt
    | inr e ↦ rw e (elim (Bool-cases (ltb veilid_message_limit (length input))) [
      | inl q ↦ rw q tt
      | inr q ↦ rw q (
          cursor_dropped (read_bundle from_slice input)
            ((read_bundle-Safe (length input) (ground arith)).at input refl))
    ])
  ]
    where
      cursor_dropped :
          (r : Outcome WireError (List Bytes × Bytes)) → Fine r → Fine (drop_cursor from_slice r)
      cursor_dropped (done (f, s)) h = tt
      cursor_dropped (failed e) h = tt
      cursor_dropped panicked h = h
