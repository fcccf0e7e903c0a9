-- ===== src/Core/Compression/Tests.antt =====
-- The compression helpers over a codec that stores the bytes as they are.
use veilid_http.Prelude.{ℕ, ◌≡◌, refl, [], ◌∷◌, arith, Result, ok, err, take}
use Prim.Native.String.{String}
use veilid_http.Prelude.Int.{ℤ, pos}
use veilid_http.Core.Error.{decompressed_limit}
use veilid_http.Core.Compression.{
  Bytes, compress, decompress_bounded, Restores, decompress_bounded-compress,
}

abbrev store : Bytes → ℤ → Result String Bytes
store bytes level = ok bytes

abbrev open_stored : Bytes → Result String Bytes
open_stored bytes = ok bytes

abbrev read_stored : Bytes → ℕ → Result String Bytes
read_stored bytes n = ok (take n bytes)

store-Restores : Restores store open_stored read_stored
store-Restores original compressed level e = (original, cc, λ n. refl)

decompress_bounded-compress_example :
    decompress_bounded open_stored read_stored (1 ∷ 2 ∷ 3 ∷ []) 2 ≡ err (decompressed_limit 3 2)
unfolding compress
decompress_bounded-compress_example =
    decompress_bounded-compress store open_stored read_stored (1 ∷ 2 ∷ 3 ∷ []) (1 ∷ 2 ∷ 3 ∷ [])
      (pos 3) 2 store-Restores (omega arith) (omega arith) refl
