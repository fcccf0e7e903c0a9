-- ===== src/Wire/Writer.antt =====
-- `BufMut` of the `bytes` crate: big-endian writes, and that the reads of `Buf` undo them.
use veilid_http.Prelude.{
  ℕ, ◌/◌, ◌%◌, ◌<◌, ◌≡◌, ap, [], ◌∷◌, ◌++◌, length, arith, take-append_length, drop-append_length,
  length-append, subst,
}
use mathlib.Core.List.{append-nil}
use veilid_http.Wire.Reader.{Bytes, Parses, done, get_u8, get_u16, get_u32, get_u64, get_bytes}

abbrev pub put_u8 : ℕ → Bytes
put_u8 n = n % 256 ∷ []

abbrev pub put_u16 : ℕ → Bytes
put_u16 n = n / 256 % 256 ∷ n % 256 ∷ []

abbrev pub put_u32 : ℕ → Bytes
put_u32 n = put_u16 (n / 65536) ++ put_u16 n

abbrev pub put_u64 : ℕ → Bytes
put_u64 n = put_u32 (n / 4294967296) ++ put_u32 n

module _ {E : Type 0} where
  pub get-put_u8 : (n : ℕ) (s : Bytes) → n < 256 → Parses (get_u8 {E = E}) (put_u8 n ++ s) n s
  unfolding get_u8
  get-put_u8 n s h = record { runs = ap (λ k. done (k, s)) (omega arith) }

  pub get-put_u16 : (n : ℕ) (s : Bytes) → n < 65536 → Parses (get_u16 {E = E}) (put_u16 n ++ s) n s
  unfolding get_u16
  get-put_u16 n s h = record { runs = ap (λ k. done (k, s)) (omega arith) }

  pub get-put_u32 :
      (n : ℕ) (s : Bytes) → n < 4294967296 → Parses (get_u32 {E = E}) (put_u32 n ++ s) n s
  unfolding get_u32
  get-put_u32 n s h = record { runs = ap (λ k. done (k, s)) (omega arith) }

  pub get-put_u64 :
      (n : ℕ) (s : Bytes) → n < 18446744073709551616 → Parses (get_u64 {E = E}) (put_u64 n ++ s) n s
  unfolding get_u64
  get-put_u64 n s h = record { runs = ap (λ k. done (k, s)) (omega arith) }

  pub get-put_bytes :
      (n : ℕ) (xs s : Bytes) → length xs ≡ n → Parses (get_bytes {E = E} n) (xs ++ s) xs s
  unfolding get_bytes
  get-put_bytes n xs s h = record {
    runs =
        ground
          (arith, length-append xs s, take-append_length n xs s h, drop-append_length n xs s h);
  }

  pub get-put_bytes_last :
      (n : ℕ) (xs : Bytes) → length xs ≡ n → Parses (get_bytes {E = E} n) xs xs []
  get-put_bytes_last n xs h =
      subst (λ s. Parses (get_bytes {E = E} n) s xs []) (append-nil xs) (get-put_bytes n xs [] h)
