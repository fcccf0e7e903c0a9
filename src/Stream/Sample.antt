-- ===== src/Stream/Sample.antt =====
-- Crates for the tests: a codec for empty metadata, a hasher that keeps all its input and a zstd
-- that stores the bytes as they are.
use Prim.Native.String.{String}
use veilid_http.Prelude.{
  ◌≡◌, refl, sym, ok_unique, Bool, true, false, ◌&&◌, if◌then◌else◌, bytes_eq, [], ◌∷◌, ◌++◌,
  length, take, drop, take-append_length, drop-append_length, Result, ok, err, arith,
}
use veilid_http.Prelude.HashMap.{HashMap}
use veilid_http.Wire.Metadata.{Metadata}
use veilid_http.Wire.Reader.{Bytes}
use veilid_http.Wire.Sample.{to_vec, of_slice, sample-Decodes}
use veilid_http.Stream.Crates.{Codec, MessagePack, Blake3, Zstd}
use veilid_http.Stream.Codec.RoundTrip.{Restores, Lawful}

abbrev refusing : {T : Type 0} → Codec T
refusing = record { to_vec_named = λ v. err "refused"; from_slice = λ s. err "refused" }

abbrev pub sample_mp : MessagePack
sample_mp = record {
  metadata = record { to_vec_named = to_vec; from_slice = of_slice };
  request_open = refusing;
  request_accepted = refusing;
  response_open = refusing;
  stream_end = refusing;
  ack = refusing;
  cancel = refusing;
  stream_error = refusing;
}

refusing-Restores : {T : Type 0} → Restores (refusing {T = T})
refusing-Restores v bytes e = cc

pub sample-Lawful : Lawful sample_mp
sample-Lawful = record {
  metadata = sample-Decodes;
  request_open = refusing-Restores;
  request_accepted = refusing-Restores;
  response_open = refusing-Restores;
  stream_end = refusing-Restores;
  ack = refusing-Restores;
  cancel = refusing-Restores;
  stream_error = refusing-Restores;
}

abbrev pub sample_hash : Blake3 Bytes
sample_hash = record { new_hasher = []; update = λ h s. h ++ s; finalize = λ h. h }

abbrev pub sample_zstd : Zstd Bytes Bytes
sample_zstd = record {
  new_encoder = λ level. ok [];
  write_encoder = λ e s. (ok tt, e ++ s);
  flush_encoder = λ e. (ok tt, e);
  take_encoder = λ e. (e, []);
  finish_encoder = λ e. ok e;
  new_decoder = ok [];
  write_decoder = λ d s. (ok tt, d ++ s);
  flush_decoder = λ d. (ok tt, d);
  take_decoder = λ d. (d, []);
}

-- A codec that knows one value, by a test for it, and writes it as one byte.
abbrev pub only : {T : Type 0} → T → (T → Bool) → Codec T
only v same = record {
  to_vec_named = λ t. if same t then ok (1 ∷ []) else err "unknown";
  from_slice = λ s. if bytes_eq s (1 ∷ []) then ok v else err "unknown";
}

pub only-Restores :
    {T : Type 0} (v : T) (same : T → Bool)
    → ((t : T) → same t ≡ true → v ≡ t)
    → Restores (only v same)
only-Restores v same h t bytes e = ground (arith, h t)

-- A codec for metadata with one extension: the length of its name, the name and the value.
abbrev write_extension : HashMap Bytes → Result String Bytes
write_extension [] = err "no extension"
write_extension ((k, v) ∷ []) = ok (length k ∷ (k ++ v))
write_extension (x ∷ y ∷ m) = err "extensions"

abbrev none_of : HashMap Bytes → Bool
none_of [] = true
none_of (x ∷ m) = false

abbrev read_extension : Bytes → Result String Metadata
read_extension [] = err "empty"
read_extension (n ∷ s) =
    ok (record { http = []; vhttp = []; extensions = (take n s, drop n s) ∷ [] })

abbrev pub one_extension : Codec Metadata
one_extension = record {
  to_vec_named =
      λ m. if none_of m.http && none_of m.vhttp then write_extension m.extensions else err "fields";
  from_slice = read_extension;
}

none_of-nil : (m : HashMap Bytes) → none_of m ≡ true → m ≡ []
none_of-nil [] e = refl
none_of-nil (x ∷ m) e = absurd (ground arith)

write_extension-read :
    (m : HashMap Bytes) (bytes : Bytes)
    → write_extension m ≡ ok bytes
    → read_extension bytes ≡ ok (record { http = []; vhttp = []; extensions = m })
write_extension-read [] bytes e = absurd (ground arith)
write_extension-read ((k, v) ∷ []) bytes e =
    rw
      (
        sym (ok_unique refl e),
        take-append_length (length k) k v refl,
        drop-append_length (length k) k v refl,
      )
      refl
write_extension-read (x ∷ y ∷ m) bytes e = absurd (ground arith)

pub one_extension-Restores : Restores one_extension
one_extension-Restores m bytes e =
    ground (arith, none_of-nil m.http, none_of-nil m.vhttp, write_extension-read m.extensions bytes)
