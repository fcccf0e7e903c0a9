-- ===== src/Core/Reassembler/Validity.antt =====
-- The invariant of a reassembler: bounded, exactly accounted, and waiting for its next chunk.
use veilid_http.Prelude.{
  ℕ, zero, suc, ◌≤◌, ◌<◌, ◌≡◌, refl, false, ◌||◌, none, some, [], ◌∷◌, ltb, length, arith,
  Bool-cases, Option-cases, inl, inr,
}
use veilid_http.Prelude.Words.{u32_max, usize_max, saturating_add}
use veilid_http.Prelude.SortedMap.{
  Map, get, contains_key, insert, remove, total, Ascending, Below, Ascending-insert,
  Ascending-remove, Ascending-weaken, Below-insert, Below-remove, Below-contains,
  length-remove_present, contains_key-get, total-insert_absent, total-remove,
}
use veilid_http.Core.Reassembler.{Reassembler, Bytes, new, took, deliver, push}

-- The byte count is that of the pending chunks, within the limit, so `-=` never wraps.
pub record IsBounded (r : Reassembler) : Type 0 where
  pub ascending : Ascending r.next_sequence r.pending
  pub below : Below u32_max r.pending
  pub next_le : r.next_sequence ≤ u32_max
  pub accounted : r.pending_bytes ≡ total length r.pending
  pub within : r.pending_bytes ≤ r.max_pending_bytes
  pub limit : r.max_pending_bytes < usize_max

pub record IsValid (r : Reassembler) : Type 0 where
  pub bounded : IsBounded r
  pub missing : contains_key r.next_sequence r.pending ≡ false

pub new-IsValid : (limit : ℕ) → limit < usize_max → IsValid (new limit)
unfolding new
new-IsValid limit h = record {
  bounded = record {
    ascending = tt;
    below = tt;
    next_le = omega arith;
    accounted = refl;
    within = omega arith;
    limit = h;
  };
  missing = refl;
}

Ascending-remove_first : (n : ℕ) (m : Map Bytes) → Ascending n m → Ascending (suc n) (remove n m)
Ascending-remove_first n [] a = tt
Ascending-remove_first n ((j, v) ∷ m) a =
    ground (arith, Ascending-remove (suc j) n m a.1, Ascending-weaken (suc j) (suc n) m)

pub took-IsBounded :
    (r : Reassembler) (chunk : Bytes)
    → IsBounded r
    → get r.next_sequence r.pending ≡ some chunk
    → IsBounded (took r chunk)
took-IsBounded r chunk b e =
    let t = total-remove length r.next_sequence chunk r.pending e in
    let k =
      Below-contains u32_max r.next_sequence r.pending b.below
        (contains_key-get r.next_sequence r.pending chunk e) in
    let n : saturating_add u32_max r.next_sequence 1 ≡ suc r.next_sequence = omega arith in
    record {
      ascending = rw n (Ascending-remove_first r.next_sequence r.pending b.ascending);
      below = Below-remove u32_max r.next_sequence r.pending b.below;
      next_le = omega arith;
      accounted = omega (arith, b.accounted);
      within = omega (arith, b.within);
      limit = b.limit;
    }

contains_key-empty : (k : ℕ) (m : Map Bytes) → length m ≤ 0 → contains_key k m ≡ false
contains_key-empty k [] h = refl
contains_key-empty k (p ∷ m) h = absurd (omega arith)

pub contains_key-get-none : (k : ℕ) (m : Map Bytes) → get k m ≡ none → contains_key k m ≡ false
contains_key-get-none k [] h = refl
contains_key-get-none k ((j, v) ∷ m) h = ground (arith, contains_key-get-none k m)

deliver-IsValid :
    (fuel : ℕ) (r : Reassembler)
    → IsBounded r
    → length r.pending ≤ fuel
    → IsValid (deliver fuel r).1
unfolding deliver
deliver-IsValid zero r b h = record {
  bounded = b;
  missing = contains_key-empty r.next_sequence r.pending h;
}
deliver-IsValid (suc fuel) r b h = elim (Option-cases (get r.next_sequence r.pending)) [
  | inl e ↦
      rw (e, deliver)
        (record { bounded = b; missing = contains_key-get-none r.next_sequence r.pending e })
  | inr (chunk, e) ↦
      rw (e, deliver)
        (deliver-IsValid fuel (took r chunk) (took-IsBounded r chunk b e) (
          omega (
            arith,
            length-remove_present r.next_sequence r.pending
                (contains_key-get r.next_sequence r.pending chunk e),
          )))
]

-- The state in which the loop of an accepted `push` starts.
abbrev pub grown : Reassembler → ℕ → Bytes → Reassembler
grown r s bytes = record r {
  pending_bytes = saturating_add usize_max r.pending_bytes (length bytes);
  pending = insert s bytes r.pending;
}

pub grown-IsBounded :
    (r : Reassembler) (s : ℕ) (bytes : Bytes)
    → IsValid r
    → s < u32_max
    → (ltb s r.next_sequence || contains_key s r.pending) ≡ false
    → saturating_add usize_max r.pending_bytes (length bytes) ≤ r.max_pending_bytes
    → IsBounded (grown r s bytes)
grown-IsBounded r s bytes v h new fits = record {
  ascending = Ascending-insert r.next_sequence s bytes r.pending (ground arith) v.bounded.ascending;
  below = Below-insert u32_max s bytes r.pending h v.bounded.below;
  next_le = v.bounded.next_le;
  accounted = omega (
    arith,
    total-insert_absent length s bytes r.pending (ground arith),
    v.bounded.accounted,
    v.bounded.limit,
  );
  within = fits;
  limit = v.bounded.limit;
}

-- Every `push` of a sequence number below `u32::MAX` keeps the invariant of a reassembler,
-- accepted or not: its byte count is exact and within the limit, and the next chunk is not among
-- those that wait.
pub push-IsValid :
    (r : Reassembler) (s : ℕ) (bytes : Bytes) → IsValid r → s < u32_max → IsValid (push r s bytes).1
unfolding push
push-IsValid r s bytes v h = elim (Bool-cases (ltb s r.next_sequence || contains_key s r.pending)) [
  | inl e ↦ rw e v
  | inr e ↦
      rw e
        (elim (Bool-cases
          (ltb r.max_pending_bytes (saturating_add usize_max r.pending_bytes (length bytes)))) [
            | inl q ↦ rw q v
            | inr q ↦ rw q (
                deliver-IsValid (length (grown r s bytes).pending) (grown r s bytes)
                  (grown-IsBounded r s bytes v h e (ground arith)) (omega arith))
          ])
]
