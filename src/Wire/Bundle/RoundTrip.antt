-- ===== src/Wire/Bundle/RoundTrip.antt =====
-- `FrameBundle::decode` reads back the frames that `FrameBundle::encode` wrote.
use Prim.Native.String.{String}
use veilid_http.Prelude.{
  ℕ, ◌+◌, ◌*◌, ◌≤◌, ◌<◌, ◌≡◌, refl, ap, not, ltb, ◌==◌, length, Result, ok, arith, inl, inr, List,
  [], ◌∷◌, ◌++◌, some, sum, ok_or, concat, All, length-append, Result-cases,
}
use veilid_http.Prelude.Words.{usize_max, u16_max, checked_mul}
use veilid_http.Wire.Limits.{bundle_header_len, bundle_magic, veilid_message_limit}
use veilid_http.Wire.Error.{
  WireError, invalid_bundle_magic, empty_bundle, reserved_field, truncated_bundle, length_mismatch,
  bundle_length,
}
use veilid_http.Wire.Reader.{
  Bytes, Outcome, done, Reader, ◌>>=◌, ◌>>◌, Parses, bind-Parses, lift-Parses, reject-Parses,
  pure-Parses, remaining-Parses, map-Parses,
}
use veilid_http.Wire.Writer.{put_u16, put_u32, get-put_u16, get-put_u32, get-put_bytes}
use veilid_http.Wire.Metadata.{Metadata}
use veilid_http.Wire.Frame.{Frame, decode as decode_frame}
use veilid_http.Wire.Bundle.{
  lengths_of, length_table, write_bundle, encode, read_lengths, checked_sum, checked, read_frames,
  read_bundle, decode,
}

length-concat : (fs : List Bytes) → length (concat fs) ≡ sum (lengths_of fs)
length-concat [] = refl
length-concat (f ∷ fs) = omega (arith, length-append f (concat fs), length-concat fs)

-- What `length_table` writes, read back; it has four bytes for each frame.
length_table-Parses :
    (fs : List Bytes) (table rest : Bytes)
    → length_table fs ≡ ok table
    → Parses (read_lengths (length fs)) (table ++ rest) (lengths_of fs) rest
      × (length table ≡ length fs * 4)
unfolding length_table read_lengths
length_table-Parses [] table rest e = rw none_left (pure-Parses [] rest, refl)
  where
    none_left : table ≡ []
    none_left = ground arith
length_table-Parses (f ∷ fs) table rest e = elim (Result-cases (length_table fs)) [
  | inr (x, q) ↦ absurd (ground (arith, q))
  | inl (t, q) ↦
      let (parses, size) = length_table-Parses fs t rest q in
      let same : table ≡ put_u32 (length f) ++ t = ground (arith, q) in
      let small : length f < 4294967296 = ground (arith, q) in
      rw same (
        bind-Parses _ (get-put_u32 (length f) (t ++ rest) small)
            (map-Parses (◌∷◌ (length f)) parses),
        omega arith,
      )
]

checked_sum-sum :
    (acc : ℕ) (xs : List ℕ) → acc + sum xs ≤ usize_max → checked_sum acc xs ≡ some (acc + sum xs)
unfolding checked_sum
checked_sum-sum acc [] h = ap some (omega arith)
checked_sum-sum acc (x ∷ xs) h = ground (arith, checked_sum-sum (acc + x) xs)

checked-Parses :
    {r : Outcome WireError Frame} {B : Type 0} {m : Reader WireError B} {s rest : Bytes} {b : B}
    (g : Frame)
    → r ≡ done g
    → Parses m s b rest
    → Parses (checked r >> m) s b rest
checked-Parses g e p = record { runs = rw (e, ◌>>=◌) p.runs }

-- What an accepted bundle consists of.
encoded_as :
    (fs : List Bytes) (bytes : Bytes)
    → encode fs ≡ ok bytes
    → (table : Bytes) × (length_table fs ≡ ok table)
      × (bytes ≡ bundle_magic ++ (put_u16 (length fs) ++ (put_u16 0 ++ (table ++ concat fs))))
      × (0 < length fs)
      × (length fs ≤ u16_max)
      × (bundle_header_len + length fs * 4 + sum (lengths_of fs) ≤ veilid_message_limit)
unfolding encode
encoded_as [] bytes e = absurd (ground arith)
encoded_as (f ∷ fs) bytes e = elim (Result-cases (length_table (f ∷ fs))) [
  | inr (x, q) ↦ absurd (ground (arith, q))
  | inl (t, q) ↦ (t, q, ground (arith, q), omega arith, ground (arith, q), ground (arith, q))
]

module _ (from_slice : Bytes → Result String Metadata) where
  -- A complete encoded frame.
  abbrev pub Decodable : Bytes → Type 0
  Decodable bytes = (f : Frame) × (decode_frame from_slice bytes ≡ done f)

  read_frames-Parses :
      (fs : List Bytes)
      → All Decodable fs
      → Parses (read_frames from_slice (lengths_of fs)) (concat fs) fs []
  unfolding read_frames
  read_frames-Parses [] h = pure-Parses [] []
  read_frames-Parses (f ∷ fs) ((g, d), hs) =
      bind-Parses _ (get-put_bytes (length f) f (concat fs) refl)
        (checked-Parses g d (map-Parses (◌∷◌ f) (read_frames-Parses fs hs)))

  read_bundle-Parses :
      (fs : List Bytes) (table : Bytes)
      → length_table fs ≡ ok table
      → All Decodable fs
      → 0 < length fs
      → length fs ≤ u16_max
      → sum (lengths_of fs) ≤ usize_max
      → Parses
          (read_bundle from_slice)
          (bundle_magic ++ (put_u16 (length fs) ++ (put_u16 0 ++ (table ++ concat fs))))
          fs
          []
  unfolding read_bundle
  read_bundle-Parses fs table e hs some_frame few fits =
      let (parses, size) = length_table-Parses fs table (concat fs) e in
      bind-Parses _ (get-put_bytes 4 bundle_magic _ refl) (
        reject-Parses _ invalid_bundle_magic refl (
          bind-Parses _ (get-put_u16 (length fs) _ (omega arith)) (
            bind-Parses _ (get-put_u16 0 _ (omega arith)) (
              reject-Parses (length fs == 0) empty_bundle (ground arith) (
                reject-Parses _ reserved_field refl (
                  lift-Parses _ (product (length fs) few) (
                    remaining-Parses _ (
                      reject-Parses (ltb (length (table ++ concat fs)) (length fs * 4))
                        truncated_bundle (ground (arith, size, length-append table (concat fs)))
                        (bind-Parses _ parses (
                          lift-Parses _
                            (ap (λ o. ok_or o bundle_length)
                              (checked_sum-sum 0 (lengths_of fs) (omega arith)))
                            (remaining-Parses _ (
                              reject-Parses (not (length (concat fs) == 0 + sum (lengths_of fs)))
                                length_mismatch (ground (arith, length-concat fs))
                                (read_frames-Parses fs hs)))))))))))))
    where
      product : (n : ℕ) → n ≤ u16_max → ok_or (checked_mul usize_max n 4) bundle_length ≡ ok (n * 4)
      product n h = ground arith

  -- Whatever list of frames that each decode `FrameBundle::encode` accepts, `decode` reads back
  -- unchanged, and the bundle does not exceed Veilid's ceiling.
  pub decode-encode :
      (fs : List Bytes) (bytes : Bytes)
      → All Decodable fs
      → encode fs ≡ ok bytes
      → (decode from_slice bytes ≡ done fs) × (length bytes ≤ veilid_message_limit)
  unfolding decode
  decode-encode fs bytes h e =
      let (table, q, same, some_frame, few, fits) = encoded_as fs bytes e in
      let (_, size) = length_table-Parses fs table (concat fs) q in
      let parsed = (read_bundle-Parses fs table q h some_frame few (omega arith)).runs in
      let len : length (table ++ concat fs) ≡ length fs * 4 + sum (lengths_of fs) =
        omega (arith, length-append table (concat fs), length-concat fs) in
      rw same (rw (len, parsed) (ground arith), omega arith)

length_table-fits :
    (fs : List Bytes)
    → sum (lengths_of fs) ≤ veilid_message_limit
    → (table : Bytes) × (length_table fs ≡ ok table)
unfolding length_table
length_table-fits [] h = ([], refl)
length_table-fits (f ∷ fs) h =
    let (table, e) = length_table-fits fs (omega arith) in
    (put_u32 (length f) ++ table, rw e (ground arith))

-- The frames of a bundle that fits are accepted.
pub encode-fits :
    (fs : List Bytes)
    → 0 < length fs
    → bundle_header_len + length fs * 4 + sum (lengths_of fs) ≤ veilid_message_limit
    → (bytes : Bytes) × (encode fs ≡ ok bytes)
unfolding encode write_bundle
encode-fits [] some_frame fits = absurd (omega arith)
encode-fits (f ∷ fs) some_frame fits =
    let (table, e) = length_table-fits (f ∷ fs) (omega arith) in
    (
      bundle_magic ++ (put_u16 (length (f ∷ fs)) ++ (put_u16 0 ++ (table ++ concat (f ∷ fs)))),
      rw e (ground arith),
    )
