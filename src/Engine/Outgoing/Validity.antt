-- ===== src/Engine/Outgoing/Validity.antt =====
-- The invariant of `OutboundBody`: exact byte counts within the bound, and a bounded window.
use veilid_http.Prelude.{
  ℕ, ◌+◌, ◌-◌, ◌≤◌, ◌<◌, ◌≡◌, refl, ap, ◌∙◌, false, List, [], ◌∷◌, ◌++◌, ltb, leb, length, arith,
  Bool-cases, Result-cases, inl, inr, ok,
}
use veilid_http.Prelude.Words.{u32_max, usize_max, saturating_add}
use veilid_http.Prelude.Stateful.{and_then-Keeps, and_then-kept}
use veilid_http.Prelude.SortedMap.{
  Map, contains_key, total, Ascending, Below, Ascending-insert, Below-insert, length-insert_absent,
  total-insert_absent,
}
use veilid_http.Wire.Reader.{Bytes}
use veilid_http.Core.FrameBatcher
use veilid_http.Stream.Crates.{MessagePack}
use veilid_http.Engine.Outgoing.{
  RetainedFrame, PendingItem, data_item, retained_bytes, OutboundBody, buffered_bytes,
  effective_window, queue, queue_payloads, queue_compressed, encode_item, popped, moved, move_front,
  pump_items, pump,
}

abbrev pub items_total : List PendingItem → ℕ
items_total [] = 0
items_total (i ∷ is) = retained_bytes i + items_total is

abbrev pub frame_size : RetainedFrame → ℕ
frame_size frame = length frame.encoded

-- The fields that the invariant reads.
pub record Books (in_flight : Map RetainedFrame) (next_sequence : ℕ) (pending : List PendingItem)
    (pending_bytes in_flight_bytes max_buffered_bytes local_window : ℕ) : Type 0 where
  pub ascending : Ascending 0 in_flight
  pub below : Below next_sequence in_flight
  pub next_le : next_sequence ≤ u32_max
  pub pending_accounted : pending_bytes ≡ items_total pending
  pub in_flight_accounted : in_flight_bytes ≡ total frame_size in_flight
  pub within : pending_bytes + in_flight_bytes ≤ max_buffered_bytes
  pub limit : max_buffered_bytes < usize_max
  pub window : length in_flight ≤ local_window

abbrev pub IsValid : {Hasher Encoder : Type 0} → OutboundBody Hasher Encoder → Type 0
IsValid o =
    Books o.in_flight o.next_sequence o.pending o.pending_bytes o.in_flight_bytes
      o.max_buffered_bytes o.local_window

items_total-append :
    (is js : List PendingItem) → items_total (is ++ js) ≡ items_total is + items_total js
items_total-append [] js = omega arith
items_total-append (i ∷ is) js = omega (arith, items_total-append is js)

Below-absent : (n : ℕ) (m : Map RetainedFrame) → Below n m → contains_key n m ≡ false
Below-absent n [] b = refl
Below-absent n ((j, v) ∷ m) b = ground (arith, Below-absent n m b.1)

Below-weaken : (n n' : ℕ) (m : Map RetainedFrame) → n ≤ n' → Below n m → Below n' m
Below-weaken n n' [] h b = tt
Below-weaken n n' ((j, v) ∷ m) h b = (omega arith, Below-weaken n n' m h b.1)

module _ {Hasher Encoder : Type 0} where
  pub queue-IsValid :
      (item : PendingItem) (o : OutboundBody Hasher Encoder) → IsValid o → IsValid (queue item o).1
  unfolding queue
  queue-IsValid item o v =
      elim (Bool-cases (
        ltb o.max_buffered_bytes
          (saturating_add usize_max (buffered_bytes o) (retained_bytes item)))) [
            | inl e ↦ rw e v
            | inr e ↦
                let fits : o.pending_bytes + o.in_flight_bytes + retained_bytes item
                    ≤ o.max_buffered_bytes =
                  ground (arith, v.within, v.limit) in
                rw e (record {
                  ascending = v.ascending;
                  below = v.below;
                  next_le = v.next_le;
                  pending_accounted = omega (
                    arith,
                    items_total-append o.pending (item ∷ []),
                    v.pending_accounted,
                    v.limit,
                  );
                  in_flight_accounted = v.in_flight_accounted;
                  within = omega (arith, v.limit);
                  limit = v.limit;
                  window = v.window;
                })
          ]

  queue_payloads-IsValid :
      (ps : List Bytes) (o : OutboundBody Hasher Encoder)
      → IsValid o
      → IsValid (queue_payloads ps o).1
  unfolding queue_payloads
  queue_payloads-IsValid [] o v = v
  queue_payloads-IsValid (p ∷ ps) o v =
      and_then-Keeps (queue (data_item p) o) (queue-IsValid (data_item p) o v)
        (λ u. record { at = λ o' v'. queue_payloads-IsValid ps o' v' })

  pub queue_compressed-IsValid :
      (compressed : Bytes) (o : OutboundBody Hasher Encoder)
      → IsValid o
      → IsValid (queue_compressed compressed o).1
  unfolding queue_compressed
  queue_compressed-IsValid compressed o v =
      let (payloads, batcher) = FrameBatcher.push o.batcher compressed in
      queue_payloads-IsValid payloads (record o { batcher = batcher }) v

  module _ (item : PendingItem) (rest : List PendingItem) (o : OutboundBody Hasher Encoder)
      (v : IsValid o) (front : o.pending ≡ item ∷ rest) where
    shrunk : o.pending_bytes ≡ retained_bytes item + items_total rest
    shrunk = v.pending_accounted ∙ ap items_total front

    popped-IsValid : IsValid (popped o item rest)
    popped-IsValid = record {
      ascending = v.ascending;
      below = v.below;
      next_le = v.next_le;
      pending_accounted = omega (arith, shrunk);
      in_flight_accounted = v.in_flight_accounted;
      within = omega (arith, v.within);
      limit = v.limit;
      window = v.window;
    }

    moved-IsValid :
        (encoded : Bytes)
        → length o.in_flight < effective_window o
        → saturating_add usize_max (buffered_bytes o - retained_bytes item) (length encoded)
          ≤ o.max_buffered_bytes
        → o.next_sequence < u32_max
        → IsValid (moved o item rest (o.next_sequence + 1) encoded)
    moved-IsValid encoded room fits left =
        let absent = Below-absent o.next_sequence o.in_flight v.below in
        record {
          ascending = Ascending-insert 0 o.next_sequence _ o.in_flight (omega arith) v.ascending;
          below = Below-insert (o.next_sequence + 1) o.next_sequence _ o.in_flight (omega arith) (
              Below-weaken o.next_sequence (o.next_sequence + 1) o.in_flight (omega arith) v.below);
          next_le = omega arith;
          pending_accounted = omega (arith, shrunk);
          in_flight_accounted = omega (
            arith,
            total-insert_absent frame_size o.next_sequence _ o.in_flight absent,
            v.in_flight_accounted,
            v.within,
            v.limit,
            shrunk,
          );
          within = omega (arith, v.within, v.limit, shrunk);
          limit = v.limit;
          window = omega (arith, length-insert_absent o.next_sequence _ o.in_flight absent, room);
        }

    move_front-IsValid :
        (encoded : Bytes)
        → length o.in_flight < effective_window o
        → IsValid (move_front o item rest encoded).1
    unfolding move_front
    move_front-IsValid encoded room =
        elim (Bool-cases (
          ltb o.max_buffered_bytes
            (saturating_add usize_max (buffered_bytes o - retained_bytes item) (length encoded)))) [
              | inl e ↦ rw e v
              | inr e ↦ elim (Bool-cases (leb (o.next_sequence + 1) u32_max)) [
                | inl q ↦ rw (e, q) (moved-IsValid encoded room (ground arith) (ground arith))
                | inr q ↦ rw (e, q) popped-IsValid
              ]
            ]

    -- The loop goes on with the items that are left.
    move_front-pending :
        (encoded : Bytes) (o' : OutboundBody Hasher Encoder)
        → move_front o item rest encoded ≡ (ok tt, o')
        → o'.pending ≡ rest
    unfolding move_front
    move_front-pending encoded o' e = ground arith

  pump_items-IsValid :
      (mp : MessagePack) (items : List PendingItem) (o : OutboundBody Hasher Encoder)
      → IsValid o
      → o.pending ≡ items
      → IsValid (pump_items mp items o).1
  unfolding pump_items
  pump_items-IsValid mp [] o v front = v
  pump_items-IsValid mp (item ∷ rest) o v front =
      elim (Bool-cases (ltb (length o.in_flight) (effective_window o))) [
        | inr e ↦ rw (e, pump_items) v
        | inl e ↦ elim (Result-cases (encode_item mp o item)) [
          | inr (x, q) ↦ rw (e, q, pump_items) v
          | inl (encoded, q) ↦
              rw (e, q, pump_items)
                (and_then-kept (λ u. pump_items mp rest) (move_front o item rest encoded)
                  (move_front-IsValid item rest o v front encoded (ground arith))
                  (λ u o' same v'.
                    pump_items-IsValid mp rest o' v'
                      (move_front-pending item rest o v front encoded o' same)))
        ]
      ]

  pub pump-IsValid :
      (mp : MessagePack) (o : OutboundBody Hasher Encoder) → IsValid o → IsValid (pump mp o).1
  unfolding pump
  pump-IsValid mp o v = pump_items-IsValid mp o.pending o v refl
