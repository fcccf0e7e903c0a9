-- ===== src/Core/Reassembler.antt =====
-- `Reassembler` of crates/veilid-http-core/src/lib.rs. A chunk is a list of bytes.
pub mod Validity
pub mod Delivery
mod Tests
use veilid_http.Prelude.{
  ℕ, zero, suc, ◌+◌, ◌-◌, Bool, true, false, ◌||◌, Option, none, some, List, [], ◌∷◌, ◌++◌, ltb,
  if◌then◌else◌, length, Result, ok, err,
}
use veilid_http.Prelude.Words.{u32_max, usize_max, saturating_add}
use veilid_http.Prelude.SortedMap.{Map, get, contains_key, insert, remove}
use veilid_http.Core.Error.{CoreError, pending_limit}

abbrev pub Bytes : Type 0
Bytes = List ℕ

pub record Reassembler : Type 0 where
  pub next_sequence : ℕ
  pub pending : Map Bytes
  pub pending_bytes : ℕ
  pub max_pending_bytes : ℕ

pub new : ℕ → Reassembler
new max_pending_bytes = record {
  next_sequence = 0;
  pending = [];
  pending_bytes = 0;
  max_pending_bytes = max_pending_bytes;
}

abbrev took : Reassembler → Bytes → Reassembler
took r chunk = record r {
  next_sequence = saturating_add u32_max r.next_sequence 1;
  pending = remove r.next_sequence r.pending;
  pending_bytes = r.pending_bytes - length chunk;
}

-- `while let Some(chunk) = self.pending.remove(&self.next_sequence)`.
deliver : ℕ → Reassembler → List Bytes × Reassembler
deliver zero r = ([], r)
deliver (suc fuel) r = elim (get r.next_sequence r.pending) [
  | none ↦ ([], r)
  | some chunk ↦ let (ready, r') = deliver fuel (took r chunk) in (chunk ∷ ready, r')
]

-- Each round of the loop removes a chunk, so the number of pending chunks is enough fuel.
insert_and_deliver : Reassembler → ℕ → Bytes → ℕ → Result CoreError (List Bytes) × Reassembler
insert_and_deliver r sequence bytes new_total =
    let pending = insert sequence bytes r.pending in
    let (ready, r') =
      deliver (length pending) (record r { pending_bytes = new_total; pending = pending }) in
    (ok ready, r')

pub push : Reassembler → ℕ → Bytes → Result CoreError (List Bytes) × Reassembler
unfolding insert_and_deliver
push r sequence bytes =
    if ltb sequence r.next_sequence || contains_key sequence r.pending
    then (ok [], r)
    else let new_total = saturating_add usize_max r.pending_bytes (length bytes) in
      if ltb r.max_pending_bytes new_total
      then (err (pending_limit new_total r.max_pending_bytes), r)
      else insert_and_deliver r sequence bytes new_total
