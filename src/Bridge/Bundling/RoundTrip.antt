-- ===== src/Bridge/Bundling/RoundTrip.antt =====
-- What `send_encoded_frames` sends, `split_frames` of the receiver gives back.
use Prim.Native.String.{String}
use mathlib.Core.List.{append_assoc, append-nil}
use veilid_http.Prelude.{
  ℕ, ◌+◌, ◌*◌, ◌≤◌, ◌<◌, ◌≡◌, refl, sym, ap, subst, ◌∙◌, false, not, ◌&&◌, List, [], ◌∷◌, ◌++◌, map,
  ltb, length, is_empty, sum, Result, ok, arith, inl, inr, Bool-cases, All, All-append, ◌⊎◌,
}
use veilid_http.Prelude.Stateful.{Action}
use veilid_http.Wire.Reader.{Bytes, done}
use veilid_http.Wire.Limits.{veilid_message_limit}
use veilid_http.Wire.Metadata.{Metadata}
use veilid_http.Wire.Frame.Delimited.{decode-Delimited}
use veilid_http.Wire.Bundle.{lengths_of}
use veilid_http.Wire.Bundle.RoundTrip.{Decodable, decode-encode, encode-fits}
use veilid_http.Wire.Bundle.Separation.{decode-Delimited_frame}
use veilid_http.Transport.{RouteTarget, TransportError}
use veilid_http.Bridge.Error.{BridgeError}
use veilid_http.Bridge.Bundling.{
  send_bundle, projected, send_rest, send_encoded_frames, split_frames,
}

-- A transport that accepts every message, and the messages that it has accepted.
pub record Accepts {W : Type 0}
    (app_message : RouteTarget → Bytes → Action TransportError W (Unit {0}))
    (log : W → List (RouteTarget × Bytes)) : Type 0 where
  pub accepts :
      (target : RouteTarget) (payload : Bytes) (w : W)
      → (w' : W) × (app_message target payload w ≡ (ok tt, w'))
        × (log w' ≡ log w ++ (target, payload) ∷ [])

module _ (from_slice : Bytes → Result String Metadata) where
  -- The payloads fit a Veilid message, and split, in order, into the frames.
  abbrev pub Splits : List Bytes → List Bytes → Type 0
  Splits [] frames = frames ≡ []
  Splits (payload ∷ payloads) frames =
      (here rest : List Bytes) × (length payload ≤ veilid_message_limit)
      × (split_frames from_slice payload ≡ done here)
      × (frames ≡ here ++ rest)
      × Splits payloads rest

  -- The bytes of a bundle, and what the loop keeps of it: it is one frame, or it fits.
  abbrev size : List Bytes → ℕ
  size frames = 8 + length frames * 4 + sum (lengths_of frames)

  abbrev Sendable : List Bytes → Type 0
  Sendable frames =
      All (Decodable from_slice) frames
      × (0 < length frames)
      × ((length frames ≡ 1) ⊎ (size frames ≤ veilid_message_limit))

  size-snoc :
      (bundle : List Bytes) (f : Bytes) → size (bundle ++ f ∷ []) ≡ size bundle + 4 + length f
  size-snoc [] f = omega arith
  size-snoc (b ∷ bs) f = omega (arith, size-snoc bs f)

  -- The locals of the loop: the bundle's size is known, and more than one frame are known to fit.
  record Pending (bundle : List Bytes) (encoded_bytes : ℕ) : Type 0 where
    decodable : All (Decodable from_slice) bundle
    counted : encoded_bytes ≡ size bundle
    fit : (length bundle ≤ 1) ⊎ (size bundle ≤ veilid_message_limit)
    small : encoded_bytes ≤ 40000

  length-Decodable : (f : Bytes) → Decodable from_slice f → length f ≤ veilid_message_limit
  length-Decodable f (frame, e) = (decode-Delimited from_slice f frame e).fits

  Pending-nil : Pending [] 8
  Pending-nil = record {
    decodable = tt;
    counted = refl;
    fit = inl (omega arith);
    small = omega arith;
  }

  Pending-snoc :
      (bundle : List Bytes) (encoded_bytes : ℕ) (f : Bytes)
      → Pending bundle encoded_bytes
      → Decodable from_slice f
      → not (is_empty bundle) && ltb veilid_message_limit (projected encoded_bytes f) ≡ false
      → Pending (bundle ++ f ∷ []) (projected encoded_bytes f)
  Pending-snoc [] encoded_bytes f p d e = record {
    decodable = (d, tt);
    counted = ground (arith, p.counted, length-Decodable f d);
    fit = inl (omega arith);
    small = ground (arith, p.counted, length-Decodable f d);
  }
  Pending-snoc (b ∷ bs) encoded_bytes f p d e = record {
    decodable = All-append (Decodable from_slice) (b ∷ bs) (f ∷ []) p.decodable (d, tt);
    counted = grown;
    fit = inr (ground (arith, e, sym grown));
    small = ground arith;
  }
    where
      grown : projected encoded_bytes f ≡ size ((b ∷ bs) ++ f ∷ [])
      grown = omega (arith, p.counted, size-snoc (b ∷ bs) f, length-Decodable f d)

  Pending-Sendable :
      (b : Bytes) (bs : List Bytes) (encoded_bytes : ℕ)
      → Pending (b ∷ bs) encoded_bytes
      → Sendable (b ∷ bs)
  Pending-Sendable b bs encoded_bytes p =
      (p.decodable, omega arith, elim p.fit [ inl e ↦ inl (omega arith) | inr e ↦ inr e ])

  split_frames-frame :
      (frame : Bytes)
      → Decodable from_slice frame
      → (split_frames from_slice frame ≡ done (frame ∷ [])) × (length frame ≤ veilid_message_limit)
  unfolding split_frames
  split_frames-frame frame (f, e) =
      let d = decode-Delimited from_slice frame f e in
      (rw (decode-Delimited_frame from_slice frame d, split_frames, e) refl, d.fits)

  module _ {W : Type 0} (app_message : RouteTarget → Bytes → Action TransportError W (Unit {0}))
      (log : W → List (RouteTarget × Bytes)) (law : Accepts app_message log) where
    -- An action that succeeds with one message to the target, which splits into the frames.
    abbrev Sends : RouteTarget → List Bytes → W → Result BridgeError (Unit {0}) × W → Type 0
    Sends target frames w result =
        (w' : W) × (payload : Bytes) × (result ≡ (ok tt, w'))
        × (log w' ≡ log w ++ (target, payload) ∷ [])
        × (length payload ≤ veilid_message_limit)
        × (split_frames from_slice payload ≡ done frames)

    send_bundle-Sends :
        (target : RouteTarget) (frames : List Bytes) (w : W)
        → Sendable frames
        → Sends target frames w (send_bundle app_message target frames w)
    unfolding send_bundle split_frames
    send_bundle-Sends target [] w (h, some_frame, fit) = absurd (omega arith)
    send_bundle-Sends target (f ∷ []) w ((h, _), some_frame, fit) =
        let (w', sent, logged) = law.accepts target f w in
        let (split, fits) = split_frames-frame f h in (w', f, rw sent refl, logged, fits, split)
    send_bundle-Sends target (f ∷ g ∷ fs) w (h, some_frame, fit) =
        let (payload, encoded) =
          encode-fits (f ∷ g ∷ fs) some_frame
            (elim fit [ inl e ↦ absurd (omega arith) | inr e ↦ e ]) in
        let (w', sent, logged) = law.accepts target payload w in
        let (decoded, fits) = decode-encode from_slice (f ∷ g ∷ fs) payload h encoded in
        (
          w',
          payload,
          rw (encoded, send_bundle, sent) refl,
          logged,
          fits,
          rw (decoded, split_frames) refl,
        )

    -- The rest of the loop sends payloads that split into the bundle and the frames that follow.
    abbrev pub SendsAll : RouteTarget → List Bytes → W → Result BridgeError (Unit {0}) × W → Type 0
    SendsAll target frames w result =
        (w' : W) × (payloads : List Bytes) × (result ≡ (ok tt, w'))
        × (log w' ≡ log w ++ map (λ payload. (target, payload)) payloads)
        × Splits payloads frames

    send_rest-SendsAll :
        (target : RouteTarget) (bundle : List Bytes) (encoded_bytes : ℕ) (frames : List Bytes)
        (w : W)
        → Pending bundle encoded_bytes
        → All (Decodable from_slice) frames
        → SendsAll target
            (bundle ++ frames)
            w
            (send_rest app_message target bundle encoded_bytes frames w)
    unfolding send_rest
    send_rest-SendsAll target [] encoded_bytes [] w p h =
        (w, [], refl, sym (append-nil (log w)), refl)
    send_rest-SendsAll target (b ∷ bs) encoded_bytes [] w p h =
        let (w', payload, sent, logged, fits, split) =
          send_bundle-Sends target (b ∷ bs) w (Pending-Sendable b bs encoded_bytes p) in
        (w', payload ∷ [], sent, logged, (b ∷ bs, [], fits, split, refl, refl))
    send_rest-SendsAll target [] encoded_bytes (f ∷ fs) w p (d, ds) =
        send_rest-SendsAll target (f ∷ []) (projected encoded_bytes f) fs w
          (Pending-snoc [] encoded_bytes f p d refl) ds
    send_rest-SendsAll target (b ∷ bs) encoded_bytes (f ∷ fs) w p (d, ds) =
        elim (Bool-cases (ltb veilid_message_limit (projected encoded_bytes f))) [
          | inr q ↦
              rw (q, send_rest)
                (subst
                  (λ all. SendsAll target all w (
                    send_rest app_message target ((b ∷ bs) ++ f ∷ []) (projected encoded_bytes f) fs
                      w))
                  (append_assoc (b ∷ bs) (f ∷ []) fs)
                  (send_rest-SendsAll target ((b ∷ bs) ++ f ∷ []) (projected encoded_bytes f) fs w
                    (Pending-snoc (b ∷ bs) encoded_bytes f p d q) ds))
          | inl q ↦
              let (w', payload, sent, logged, fits, split) =
                send_bundle-Sends target (b ∷ bs) w (Pending-Sendable b bs encoded_bytes p) in
              let (w'', payloads, sent', logged', splits) =
                send_rest-SendsAll target (f ∷ []) (projected 8 f) fs w'
                  (Pending-snoc [] 8 f Pending-nil d refl) ds in
              (
                w'',
                payload ∷ payloads,
                rw (q, send_rest, sent) sent',
                logged'
                    ∙ (ap (λ l. l ++ map (λ payload. (target, payload)) payloads) logged
                        ∙ append_assoc (log w) ((target, payload) ∷ []) _),
                (b ∷ bs, f ∷ fs, fits, split, refl, splits),
              )
        ]

    -- With a transport that accepts every message: for every list of encoded frames, whatever their
    -- number and lengths, `send_encoded_frames` succeeds; each payload that it sends, in order, fits
    -- a Veilid message, and `split_frames` of the payloads gives back the frames, all and in order.
    pub send_encoded_frames-SendsAll :
        (target : RouteTarget) (frames : List Bytes) (w : W)
        → All (Decodable from_slice) frames
        → SendsAll target frames w (send_encoded_frames app_message target frames w)
    unfolding send_encoded_frames
    send_encoded_frames-SendsAll target frames w h =
        send_rest-SendsAll target [] 8 frames w Pending-nil h
