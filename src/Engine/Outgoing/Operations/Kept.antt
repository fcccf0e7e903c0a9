-- ===== src/Engine/Outgoing/Operations/Kept.antt =====
-- Each operation of `OutboundBody` keeps its invariant, whether it succeeds or fails.
use veilid_http.Prelude.{
  ℕ, ◌≡◌, refl, Bool, true, false, not, List, [], ◌∷◌, ltb, length, arith, Option-cases, inl, inr,
  Result, if-holds,
}
use veilid_http.Prelude.Stateful.{Keeps, bind-Keeps, and_then-Keeps, pure}
use veilid_http.Prelude.SortedMap.{
  Map, get, keys, insert, total, Ascending, Below, Ascending-insert, Ascending-remove, Below-insert,
  Below-remove, Below-contains, length-remove_present, contains_key-get, total-remove,
  length-insert_present, total-insert_present,
}
use veilid_http.Wire.Reader.{Bytes}
use veilid_http.Core.FrameBatcher
use veilid_http.Core.RetryPolicy.{RetryPolicy}
use veilid_http.Core.SendWindow.{acknowledged_keys}
use veilid_http.Stream.Types.{Ack, ack_snapshot, same_direction}
use veilid_http.Stream.Crates.{MessagePack, Blake3, Zstd}
use veilid_http.Engine.Error.{EngineError}
use veilid_http.Engine.Outgoing.{
  RetainedFrame, data_item, end_item, OutboundBody, max_input_chunk, pump,
}
use veilid_http.Engine.Outgoing.Operations.{
  flush_batcher, flush_if, mark_finished, release_one, release, encode_input, push_input, push,
  close_encoder, close_input, finish_input, set_peer_window, acknowledge, ready_keys, dispatched,
  dispatch, take_sendable,
}
use veilid_http.Engine.Outgoing.Validity.{
  IsValid, frame_size, queue-IsValid, queue_compressed-IsValid, pump-IsValid,
}

module _ {Hasher Encoder : Type 0} where
  -- What a failed or completed operation leaves is valid.
  abbrev Left : {A : Type 0} → Result EngineError A × OutboundBody Hasher Encoder → Type 0
  Left x = IsValid x.1

  flush_batcher-IsValid : Keeps IsValid (flush_batcher {Hasher = Hasher} {Encoder = Encoder})
  unfolding flush_batcher
  flush_batcher-IsValid = record { at = kept }
    where
      kept : (o : OutboundBody Hasher Encoder) → IsValid o → IsValid (flush_batcher o).1
      kept o v = elim (Option-cases (FrameBatcher.flush o.batcher).0) [
        | inl e ↦ rw (e, flush_batcher) v
        | inr (payload, e) ↦
            rw (e, flush_batcher)
              (queue-IsValid (data_item payload)
                (record o { batcher = (FrameBatcher.flush o.batcher).1 }) v)
      ]

  flush_if-IsValid :
      (flush : Bool) → Keeps IsValid (flush_if {Hasher = Hasher} {Encoder = Encoder} flush)
  unfolding flush_if
  flush_if-IsValid true = flush_batcher-IsValid
  flush_if-IsValid false = record { at = λ o v. v }

  mark_finished-IsValid : Keeps IsValid (mark_finished {Hasher = Hasher} {Encoder = Encoder})
  unfolding mark_finished
  mark_finished-IsValid = record { at = λ o v. v }

  release_one-IsValid :
      (o : OutboundBody Hasher Encoder) (s : ℕ) → IsValid o → IsValid (release_one o s)
  unfolding release_one
  release_one-IsValid o s v = elim (Option-cases (get s o.in_flight)) [
    | inl e ↦ rw (e, release_one) v
    | inr (frame, e) ↦
        let freed = total-remove frame_size s frame o.in_flight e in
        rw (e, release_one)
          (record {
            ascending = Ascending-remove 0 s o.in_flight v.ascending;
            below = Below-remove o.next_sequence s o.in_flight v.below;
            next_le = v.next_le;
            pending_accounted = v.pending_accounted;
            in_flight_accounted = omega (arith, freed, v.in_flight_accounted);
            within = omega (arith, v.within);
            limit = v.limit;
            window = omega (
              arith,
              length-remove_present s o.in_flight (contains_key-get s o.in_flight frame e),
              v.window,
            );
          })
  ]

  release-IsValid :
      (o : OutboundBody Hasher Encoder) (ss : List ℕ) → IsValid o → IsValid (release o ss)
  unfolding release
  release-IsValid o [] v = v
  release-IsValid o (s ∷ ss) v = release-IsValid (release_one o s) ss (release_one-IsValid o s v)

  module _ {Decoder : Type 0} (mp : MessagePack) (b : Blake3 Hasher)
      (z : Zstd Encoder Decoder) where
    encode_input-IsValid :
        (logical : Bytes) (flush : Bool) → Keeps IsValid (encode_input mp b z logical flush)
    unfolding encode_input
    encode_input-IsValid logical flush = record { at = kept }
      where
        kept :
            (o : OutboundBody Hasher Encoder)
            → IsValid o
            → IsValid (encode_input mp b z logical flush o).1
        kept o v = elim (Option-cases o.encoder) [
          | inl e ↦ rw (e, encode_input) v
          | inr (x, e) ↦ rw (e, encode_input) v
        ]

    push_input-IsValid :
        (logical : Bytes) (flush : Bool) → Keeps IsValid (push_input mp b z logical flush)
    unfolding push_input
    push_input-IsValid logical flush = bind-Keeps (encode_input-IsValid logical flush) (λ encoded.
        bind-Keeps (record { at = queue_compressed-IsValid encoded })
          (λ u. bind-Keeps (flush_if-IsValid flush) (λ u'. record { at = pump-IsValid mp })))

    pub push-IsValid :
        (logical : Bytes) (flush : Bool) (o : OutboundBody Hasher Encoder)
        → IsValid o
        → IsValid (push mp b z logical flush o).1
    unfolding push
    push-IsValid logical flush o v = if-holds Left o.input_finished v (
        if-holds Left (ltb (max_input_chunk o) (length logical)) v
          ((push_input-IsValid logical flush).at o v))

    close_encoder-IsValid : Keeps IsValid (close_encoder mp b z)
    unfolding close_encoder
    close_encoder-IsValid = record { at = kept }
      where
        kept : (o : OutboundBody Hasher Encoder) → IsValid o → IsValid (close_encoder mp b z o).1
        kept o v = elim (Option-cases o.encoder) [
          | inl e ↦ rw (e, close_encoder) v
          | inr (x, e) ↦ rw (e, close_encoder) v
        ]

    close_input-IsValid : Keeps IsValid (close_input mp b z)
    unfolding close_input
    close_input-IsValid = bind-Keeps close_encoder-IsValid (λ closed.
        bind-Keeps (record { at = queue_compressed-IsValid closed.0 })
          (λ u. bind-Keeps flush_batcher-IsValid (λ u1.
            bind-Keeps (record { at = queue-IsValid (end_item closed.1) })
              (λ u2. bind-Keeps mark_finished-IsValid (λ u3. record { at = pump-IsValid mp })))))

    pub finish_input-IsValid :
        (o : OutboundBody Hasher Encoder) → IsValid o → IsValid (finish_input mp b z o).1
    unfolding finish_input
    finish_input-IsValid o v = if-holds Left o.input_finished v (close_input-IsValid.at o v)

    pub set_peer_window-IsValid :
        (n : ℕ) (o : OutboundBody Hasher Encoder)
        → IsValid o
        → IsValid (set_peer_window mp b z n o).1
    unfolding set_peer_window
    set_peer_window-IsValid n o v =
        if-holds Left (ltb 64 n) v (pump-IsValid mp (record o { peer_window = n }) v)

    pub acknowledge-IsValid :
        (a : Ack) (o : OutboundBody Hasher Encoder) → IsValid o → IsValid (acknowledge mp b z a o).1
    unfolding acknowledge
    acknowledge-IsValid a o v =
        let acknowledged = acknowledged_keys (ack_snapshot a) (keys o.in_flight) in
        let o' = release (record o { peer_window = a.receive_window }) acknowledged in
        if-holds Left (not (same_direction a.direction o.direction)) v (
          if-holds Left (ltb 64 a.receive_window) v (
            and_then-Keeps {P = IsValid} {f = λ u. pure acknowledged} (pump mp o')
              (pump-IsValid mp o'
                (release-IsValid (record o { peer_window = a.receive_window }) acknowledged v))
              (λ u. record { at = λ o'' v''. v'' })))

dispatch-total :
    (now_ms : ℕ) (ss : List ℕ) (next local : ℕ) (m : Map RetainedFrame)
    → Ascending 0 m
    → Below next m
    → Ascending 0 (dispatch now_ms ss m).1
      × Below next (dispatch now_ms ss m).1
      × (total frame_size (dispatch now_ms ss m).1 ≡ total frame_size m)
      × (length (dispatch now_ms ss m).1 ≡ length m)
unfolding dispatch
dispatch-total now_ms [] next local m a b = (a, b, refl, refl)
dispatch-total now_ms (s ∷ ss) next local m a b = elim (Option-cases (get s m)) [
  | inl e ↦ rw (e, dispatch) (dispatch-total now_ms ss next local m a b)
  | inr (frame, e) ↦
      let m' = insert s (dispatched now_ms frame) m in
      let (a', b', t, l) =
        dispatch-total now_ms ss next local m'
          (Ascending-insert 0 s (dispatched now_ms frame) m (omega arith) a)
          (Below-insert next s (dispatched now_ms frame) m
            (Below-contains next s m b (contains_key-get s m frame e)) b) in
      rw (e, dispatch)
        (
          a',
          b',
          omega (arith, t, total-insert_present frame_size s (dispatched now_ms frame) frame m a e),
          omega (arith, l, length-insert_present s (dispatched now_ms frame) frame m a e),
        )
]

pub take_sendable-IsValid :
    {Hasher Encoder : Type 0} (now_ms : ℕ) (policy : RetryPolicy) (o : OutboundBody Hasher Encoder)
    → IsValid o
    → IsValid (take_sendable now_ms policy o).1
unfolding take_sendable
take_sendable-IsValid now_ms policy o v =
    let (a, b, t, l) =
      dispatch-total now_ms (ready_keys now_ms policy o.in_flight) o.next_sequence o.local_window
        o.in_flight v.ascending v.below in
    record {
      ascending = a;
      below = b;
      next_le = v.next_le;
      pending_accounted = v.pending_accounted;
      in_flight_accounted = omega (arith, t, v.in_flight_accounted);
      within = v.within;
      limit = v.limit;
      window = omega (arith, l, v.window);
    }
