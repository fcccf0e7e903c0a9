-- ===== src/Bridge/Config/Sender.antt =====
-- Which of the configurations that `main` accepts can create the sender of a response.
use native.Mathlib.Nat.{mul-le-mul}
use veilid_http.Prelude.{
  is_ok, if◌then◌else◌, none, reject_if, ◌>>◌, ℕ, ◌*◌, ◌==◌, ◌||◌, min, some, ◌<◌, ◌≤◌, ◌≡◌, Bool,
  false, ltb, leb, ok, arith, Option-cases, inl, inr,
}
use veilid_http.Prelude.HashMap.{Key}
use veilid_http.Prelude.Int.{ℤ}
use veilid_http.Prelude.Words.{usize_max, checked_mul}
use veilid_http.Wire.Limits.{default_frame_limit}
use veilid_http.Stream.Types.{StreamDirection, CompressionMode}
use veilid_http.Stream.Crates.{Blake3, Zstd}
use veilid_http.Stream.Encoder.{StreamEncoder, new as new_encoder}
use veilid_http.Core.FrameBatcher.{new as new_batcher}
use veilid_http.Engine.Outgoing.{new}
use veilid_http.Http.Translation.{Urls}
use veilid_http.Bridge.Config.{Config, check_config}

module _ {Url Hasher Encoder Decoder : Type 0} (urls : Urls Url) (b : Blake3 Hasher)
    (z : Zstd Encoder Decoder) where
  -- What the checks say of the window.
  window_bounds :
      (config : Config)
      → check_config urls config ≡ ok tt
      → (config.frame_bytes ≤ 30720)
        × (0 < config.send_window_frames)
        × (config.send_window_frames ≤ 64)
        × (config.frame_bytes ≤ config.max_pending_bytes)
  unfolding check_config
  window_bounds config e = elim (Option-cases (urls.parse config.upstream_url)) [
    | inl none_eq ↦ absurd (ground (arith, none_eq))
    | inr (url, found) ↦
        (ground (arith, found), ground (arith, found), ground (arith, found), ground (arith, found))
  ]

  -- For a configuration that the checks of `main` accept, with frames of at least one byte, and an
  -- encoder that opens: `OutboundBody::new`, called as for a response, succeeds exactly if the
  -- pending bound holds a whole window of frames.
  pub new-check_config :
      (config : Config) (id : Key) (direction : StreamDirection) (mode : CompressionMode)
      (level : ℤ) (encoder : StreamEncoder Hasher Encoder)
      → check_config urls config ≡ ok tt
      → 0 < config.frame_bytes
      → new_encoder b z direction mode level ≡ ok encoder
      → is_ok (
          new b z id direction mode level config.frame_bytes 256 config.send_window_frames
            config.max_pending_bytes)
        ≡ leb (config.frame_bytes * config.send_window_frames) config.max_pending_bytes
  unfolding new new_batcher
  new-check_config config id direction mode level encoder e some_frame opened =
      let (small, some_window, few, held) = window_bounds config e in
      rw
        (
          new,
          window config.send_window_frames some_window few,
          product config.frame_bytes config.send_window_frames small few,
          new,
          opened,
        )
        (checked _ _ (config.frame_bytes * config.send_window_frames) config.max_pending_bytes
          (batch config.frame_bytes config.max_pending_bytes some_frame held))
    where
      window : (w : ℕ) → 0 < w → w ≤ 64 → (w == 0 || ltb 64 w) ≡ false
      window w some_window few = ground arith

      product :
          (f w : ℕ)
          → f ≤ 30720
          → w ≤ 64
          → checked_mul usize_max (min f default_frame_limit) w ≡ some (f * w)
      product f w small few = rw (min_eq f small) (fits (f * w) (mul-le-mul small few))
        where
          min_eq : (n : ℕ) → n ≤ 30720 → min n default_frame_limit ≡ n
          min_eq n h = omega arith

          fits : (n : ℕ) → n ≤ 30720 * 64 → (if leb n usize_max then some n else none) ≡ some n
          fits n h = ground arith

      batch : (f m : ℕ) → 0 < f → f ≤ m → ltb m (new_batcher f 256).target_payload ≡ false
      batch f m some_frame held = ground arith

      checked :
          {A E : Type 0} (a : A) (e : E)
          → (p m : ℕ) → {t : Bool} → t ≡ false
          → is_ok (reject_if (ltb m p || t) e >> ok a) ≡ leb p m
      checked a e p m t_eq = ground (arith, t_eq)
