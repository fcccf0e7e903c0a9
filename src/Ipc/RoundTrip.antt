-- ===== src/Ipc/RoundTrip.antt =====
-- `read_frame` reads back what `IpcFrame::encode` wrote, and answers bounded frames only.
use veilid_http.Prelude.{
  ℕ, ◌≤◌, ◌≡◌, refl, ap, [], ◌++◌, ltb, length, ok, arith, length-append, take-append_length,
  drop-append_length, ◌∙◌,
}
use mathlib.Core.List.{append_assoc}
use veilid_http.Prelude.Words.{u16_max, u64_max}
use veilid_http.Wire.Reader.{
  Bytes, Reader, done, bind-Parses, reject-Parses, lift-Parses, pure-Parses, Parses,
}
use veilid_http.Wire.Writer.{
  put_u8, put_u16, put_u32, put_u64, get-put_u8, get-put_u16, get-put_u32, get-put_u64,
  get-put_bytes,
}
use veilid_http.Ipc.{
  IpcFrame, IpcError, FrameKind, hello, to_u8, try_from, invalid_magic, unsupported_version, magic,
  version, max_metadata_bytes, max_payload_bytes, encode, layout, validate, read_exact, read_header,
  within, read_frame,
}

-- The fields of a Rust `IpcFrame` lie within their types.
pub record InRange (f : IpcFrame) : Type 0 where
  pub flags : f.flags ≤ u16_max
  pub request_id : f.request_id ≤ u64_max

try_from-to_u8 : (k : FrameKind) → try_from (to_u8 k) ≡ ok k
unfolding try_from to_u8
try_from-to_u8 hello = refl
try_from-to_u8 k = ground arith

to_u8-lt : (k : FrameKind) → to_u8 k ≤ 255
unfolding to_u8
to_u8-lt hello = omega arith
to_u8-lt k = ground arith

read_exact-Parses : (n : ℕ) (xs s : Bytes) → length xs ≡ n → Parses (read_exact n) (xs ++ s) xs s
unfolding read_exact
read_exact-Parses n xs s h = record {
  runs =
      ground (arith, length-append xs s, take-append_length n xs s h, drop-append_length n xs s h);
}

within-Parses :
    {A : Type 0} {m : Reader IpcError A} {header : Bytes} {a : A} (s : Bytes)
    → Parses m header a []
    → Parses (within m header) s a s
unfolding within
within-Parses s p = record { runs = rw (p.runs, within) refl }

header_of : IpcFrame → Bytes
header_of f =
    magic
    ++ (put_u8 version
        ++ (put_u8 (to_u8 f.kind)
            ++ (put_u16 f.flags
                ++ (put_u64 f.request_id
                    ++ (put_u32 (length f.metadata) ++ (put_u32 (length f.payload) ++ []))))))

length-header_of : (f : IpcFrame) → length (header_of f) ≡ 24
unfolding header_of
length-header_of f = refl

module _ (f : IpcFrame) (r : InRange f) (hm : length f.metadata ≤ max_metadata_bytes)
    (hp : length f.payload ≤ max_payload_bytes) where
  read_header-header_of :
      Parses read_header
        (header_of f)
        (f.kind, f.flags, f.request_id, length f.metadata, length f.payload)
        []
  unfolding read_header header_of
  read_header-header_of = bind-Parses _ (get-put_bytes 4 magic _ refl) (
      reject-Parses _ invalid_magic refl (
        bind-Parses _ (get-put_u8 version _ (omega arith)) (
          reject-Parses _ (unsupported_version version) refl (
            bind-Parses _ (get-put_u8 (to_u8 f.kind) _ (omega (arith, to_u8-lt f.kind))) (
              lift-Parses _ (try_from-to_u8 f.kind) (
                bind-Parses _ (get-put_u16 f.flags _ (omega (arith, r.flags))) (
                  bind-Parses _ (get-put_u64 f.request_id _ (omega (arith, r.request_id))) (
                    bind-Parses _ (get-put_u32 (length f.metadata) _ (omega arith)) (
                      bind-Parses _ (get-put_u32 (length f.payload) _ (omega arith)) (
                        reject-Parses (ltb max_metadata_bytes (length f.metadata)) _ (ground arith)
                          (reject-Parses (ltb max_payload_bytes (length f.payload)) _ (ground arith)
                            (pure-Parses _ []))))))))))))

  read_frame-layout :
      (rest : Bytes) → Parses read_frame (header_of f ++ (f.metadata ++ (f.payload ++ rest))) f rest
  unfolding read_frame
  read_frame-layout rest =
      bind-Parses _ (read_exact-Parses 24 (header_of f) _ (length-header_of f)) (
        bind-Parses _ (within-Parses _ read_header-header_of) (
          bind-Parses _ (read_exact-Parses (length f.metadata) f.metadata _ refl) (
            bind-Parses _ (read_exact-Parses (length f.payload) f.payload rest refl)
              (pure-Parses f rest))))

encoded_as :
    (f : IpcFrame) (bytes : Bytes)
    → encode f ≡ ok bytes
    → (bytes ≡ layout f)
      × (length f.metadata ≤ max_metadata_bytes)
      × (length f.payload ≤ max_payload_bytes)
unfolding encode validate
encoded_as f bytes e = (ground arith, ground arith, ground arith)

layout-split :
    (f : IpcFrame) (rest : Bytes)
    → layout f ++ rest ≡ header_of f ++ (f.metadata ++ (f.payload ++ rest))
unfolding layout header_of
layout-split f rest = ap (λ t. header_of f ++ t) (append_assoc f.metadata f.payload rest)

-- Whatever frame with fields in range `encode` accepts, `read_frame` reads back unchanged from a
-- stream that starts with its bytes, and leaves the rest of the stream.
pub read_frame-encode :
    (f : IpcFrame) (bytes rest : Bytes)
    → InRange f
    → encode f ≡ ok bytes
    → read_frame (bytes ++ rest) ≡ done (f, rest)
read_frame-encode f bytes rest r e =
    let (same, hm, hp) = encoded_as f bytes e in
    ap (λ b. read_frame (b ++ rest)) same
    ∙ (ap read_frame (layout-split f rest) ∙ (read_frame-layout f r hm hp rest).runs)
