-- ===== src/Bridge/Bundling.antt =====
-- `send_encoded_frames`, `send_bundle` and `split_frames` of apps/veilid-http-bridge/src/streaming.rs.
-- The transport is a parameter; `W` is the state of the world that it changes.
pub mod RoundTrip
mod Tests
use Prim.Native.String.{String}
use veilid_http.Prelude.{
  ℕ, ◌+◌, Bool, true, false, not, ◌&&◌, List, [], ◌∷◌, ◌++◌, ltb, if◌then◌else◌, length, is_empty,
  Result, ok, err, map_err,
}
use veilid_http.Prelude.Words.{usize_max, saturating_add}
use veilid_http.Prelude.Stateful.{Action, and_then}
use veilid_http.Wire.Reader.{Bytes, Outcome, done, failed, panicked}
use veilid_http.Wire.Limits.{veilid_message_limit}
use veilid_http.Wire.Metadata.{Metadata}
use veilid_http.Wire.Frame.{decode as decode_frame}
use veilid_http.Wire.Bundle.{encode as encode_bundle, decode as decode_bundle}
use veilid_http.Transport.{RouteTarget, TransportError}
use veilid_http.Bridge.Error.{BridgeError, wire, transport}

-- `encoded_bytes.saturating_add(4).saturating_add(frame.len())`.
abbrev projected : ℕ → Bytes → ℕ
projected encoded_bytes frame =
    saturating_add usize_max (saturating_add usize_max encoded_bytes 4) (length frame)

module _ {W : Type 0} (app_message : RouteTarget → Bytes → Action TransportError W (Unit {0})) where
  abbrev send : RouteTarget → Bytes → Action BridgeError W (Unit {0})
  send target payload w = let (r, w') = app_message target payload w in (map_err transport r, w')

  pub send_bundle : RouteTarget → List Bytes → Action BridgeError W (Unit {0})
  send_bundle target (frame ∷ []) w = send target frame w
  send_bundle target frames w = elim (encode_bundle frames) [
    | err e ↦ (err (wire e), w)
    | ok payload ↦ send target payload w
  ]

  -- The `for` loop and what follows it, from the locals `bundle` and `encoded_bytes`.
  send_rest : RouteTarget → List Bytes → ℕ → List Bytes → Action BridgeError W (Unit {0})
  send_rest target bundle encoded_bytes [] w =
      if is_empty bundle then (ok tt, w) else send_bundle target bundle w
  send_rest target bundle encoded_bytes (frame ∷ frames) w =
      if not (is_empty bundle) && ltb veilid_message_limit (projected encoded_bytes frame)
      then and_then (send_bundle target bundle w)
          (λ u. send_rest target (frame ∷ []) (projected 8 frame) frames)
      else send_rest target (bundle ++ frame ∷ []) (projected encoded_bytes frame) frames w

  pub send_encoded_frames : RouteTarget → List Bytes → Action BridgeError W (Unit {0})
  unfolding send_rest
  send_encoded_frames target frames = send_rest target [] 8 frames

module _ (from_slice : Bytes → Result String Metadata) where
  pub split_frames : Bytes → Outcome BridgeError (List Bytes)
  split_frames payload = elim (decode_bundle from_slice payload) [
    | done frames ↦ done frames
    | panicked ↦ panicked
    | failed e ↦ elim (decode_frame from_slice payload) [
      | done frame ↦ done (payload ∷ [])
      | failed e' ↦ failed (wire e')
      | panicked ↦ panicked
    ]
  ]
