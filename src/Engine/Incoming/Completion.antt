-- ===== src/Engine/Incoming/Completion.antt =====
-- When `InboundBody` counts a body as complete.
use veilid_http.Prelude.{
  is_ok, ℕ, ◌==◌, ◌≤◌, ◌≡◌, refl, Bool, false, ◌&&◌, Option, some, none, List, arith, Bool-cases,
  Option-cases, Result-cases, inl, inr,
}
use veilid_http.Prelude.Words.{u32_max}
use veilid_http.Wire.Reader.{Bytes}
use veilid_http.Core.ReceiveWindow.{ReceiveWindow, snapshot}
use veilid_http.Stream.Types.{StreamEnd}
use veilid_http.Stream.Crates.{Blake3, Zstd}
use veilid_http.Stream.Decoder.{StreamDecoder, finish}
use veilid_http.Engine.Incoming.{InboundBody, data_complete, close, try_finish}

data_complete_lem :
    (w : ReceiveWindow) (n : ℕ)
    → w.next_contiguous ≤ u32_max
    → data_complete (snapshot w).cumulative n ≡ (w.next_contiguous == n)
unfolding snapshot
data_complete_lem w n h = ground arith

module _ {Hasher Encoder Decoder : Type 0} (b : Blake3 Hasher) (z : Zstd Encoder Decoder) where
  abbrev decoder_accepts : StreamEnd → Option (StreamDecoder Hasher Decoder) → Bool
  decoder_accepts last none = false
  decoder_accepts last (some decoder) = is_ok (finish b z decoder last)

  abbrev pub can_complete :
      ℕ → Option (StreamDecoder Hasher Decoder) → Option (ℕ × StreamEnd) → Bool
  can_complete next decoder none = false
  can_complete next decoder (some (n, last)) = next == n && decoder_accepts last decoder

  close-completed :
      (n : ℕ) (last : StreamEnd) (chunks : List Bytes) (i : InboundBody Hasher Decoder)
      → i.completed ≡ false
      → (close b z n last chunks i).1.completed ≡ decoder_accepts last i.decoder
  unfolding close
  close-completed n last chunks i fresh = elim (Option-cases i.decoder) [
    | inl q ↦ rw (q, close) fresh
    | inr (decoder, q) ↦ elim (Result-cases (finish b z decoder last)) [
      | inr (x, r) ↦ rw (q, r, close) fresh
      | inl (tail, r) ↦ rw (q, r, close) refl
    ]
  ]

  -- On a body that is not complete and whose next number is at most `u32::MAX`: `try_finish`
  -- completes it exactly if its end frame has arrived, the number of that frame is the next one that
  -- the receive window awaits, and the body still has its decoder, whose `finish` accepts the end.
  pub try_finish-completed :
      (chunks : List Bytes) (i : InboundBody Hasher Decoder)
      → i.completed ≡ false
      → i.receive.next_contiguous ≤ u32_max
      → (try_finish b z chunks i).1.completed
        ≡ can_complete i.receive.next_contiguous i.decoder i.pending_end
  unfolding try_finish
  try_finish-completed chunks i fresh small = elim (Option-cases i.pending_end) [
    | inl p ↦ rw (p, try_finish) fresh
    | inr ((n, last), p) ↦
        rw (p, try_finish, data_complete_lem i.receive n small)
          (elim (Bool-cases (i.receive.next_contiguous == n)) [
            | inl c ↦ rw c (close-completed n last chunks i fresh)
            | inr c ↦ rw c fresh
          ])
  ]
