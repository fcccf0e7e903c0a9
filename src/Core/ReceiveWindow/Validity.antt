-- ===== src/Core/ReceiveWindow/Validity.antt =====
-- What a receive window has seen, and that `record` adds one sequence number to it.
use veilid_http.Prelude.{
  ℕ, zero, suc, ◌≤◌, ◌<◌, ◌≡◌, refl, ◌∙◌, Bool, true, false, ◌||◌, [], ◌∷◌, ltb, ◌==◌, length,
  arith, Bool-cases, inl, inr,
}
use veilid_http.Prelude.Words.{u32_max, saturating_add}
use veilid_http.Prelude.SortedMap.{
  Map, contains_key, insert, remove, Ascending, Below, Ascending-insert, Ascending-remove,
  Below-insert, Below-remove, Below-contains, contains_key-insert, contains_key-remove,
  length-remove_present,
}
use veilid_http.Core.ReceiveWindow.{ReceiveWindow, default, advance, record_sequence}

-- A window in use: the set is ascending and bounded.
pub record IsBounded (w : ReceiveWindow) : Type 0 where
  pub ascending : Ascending 0 w.received
  pub below : Below u32_max w.received
  pub next_le : w.next_contiguous ≤ u32_max

-- A settled window: besides, the next contiguous number is still missing.
pub record IsValid (w : ReceiveWindow) : Type 0 where
  pub bounded : IsBounded w
  pub missing : contains_key w.next_contiguous w.received ≡ false

-- The sequence numbers that the window has received.
abbrev pub seen : ReceiveWindow → ℕ → Bool
seen w s = ltb s w.next_contiguous || contains_key s w.received

pub default-IsValid : IsValid default
default-IsValid = record { bounded = omega arith; missing = refl }

abbrev pub advanced : ReceiveWindow → ReceiveWindow
advanced w = record {
  received = remove w.next_contiguous w.received;
  next_contiguous = saturating_add u32_max w.next_contiguous 1;
}

pub advanced-IsBounded :
    (w : ReceiveWindow)
    → IsBounded w
    → contains_key w.next_contiguous w.received ≡ true
    → IsBounded (advanced w)
advanced-IsBounded w b h = record {
  ascending = Ascending-remove 0 w.next_contiguous w.received b.ascending;
  below = Below-remove u32_max w.next_contiguous w.received b.below;
  next_le = omega arith;
}

advanced-seen :
    (w : ReceiveWindow) (t : ℕ)
    → IsBounded w
    → contains_key w.next_contiguous w.received ≡ true
    → seen (advanced w) t ≡ seen w t
advanced-seen w t b h = ground (
  arith,
  Below-contains u32_max w.next_contiguous w.received b.below h,
  contains_key-remove 0 w.next_contiguous t w.received b.ascending,
)

contains_key-empty : (k : ℕ) (m : Map (Unit {0})) → length m ≤ 0 → contains_key k m ≡ false
contains_key-empty k [] h = refl
contains_key-empty k (p ∷ m) h = absurd (omega arith)

-- Enough fuel settles the window.
advance-IsValid :
    (fuel : ℕ) (w : ReceiveWindow)
    → IsBounded w
    → length w.received ≤ fuel
    → IsValid (advance fuel w)
unfolding advance
advance-IsValid zero w b h = record {
  bounded = b;
  missing = contains_key-empty w.next_contiguous w.received h;
}
advance-IsValid (suc fuel) w b h = elim (Bool-cases (contains_key w.next_contiguous w.received)) [
  | inl e ↦ rw e (
      advance-IsValid fuel (advanced w) (advanced-IsBounded w b e)
        (omega (arith, length-remove_present w.next_contiguous w.received e)))
  | inr e ↦ rw e (record { bounded = b; missing = e })
]

-- It keeps what the window has seen, with any fuel.
advance-seen :
    (fuel : ℕ) (w : ReceiveWindow) (t : ℕ) → IsBounded w → seen (advance fuel w) t ≡ seen w t
unfolding advance
advance-seen zero w t b = refl
advance-seen (suc fuel) w t b = elim (Bool-cases (contains_key w.next_contiguous w.received)) [
  | inl e ↦
      rw e (advance-seen fuel (advanced w) t (advanced-IsBounded w b e) ∙ advanced-seen w t b e)
  | inr e ↦ rw e
]

-- It never moves the contiguous bound back, and passes every number that follows without a gap.
advance-grows :
    (fuel : ℕ) (w : ReceiveWindow)
    → IsBounded w
    → w.next_contiguous ≤ (advance fuel w).next_contiguous
unfolding advance
advance-grows zero w b = omega arith
advance-grows (suc fuel) w b = elim (Bool-cases (contains_key w.next_contiguous w.received)) [
  | inl e ↦
      rw e (omega (arith, advance-grows fuel (advanced w) (advanced-IsBounded w b e), b.next_le))
  | inr e ↦ rw e (omega arith)
]

module _ (w : ReceiveWindow) (s : ℕ) (v : IsValid w) (h : s < u32_max) where
  abbrev pub inserted : ReceiveWindow
  inserted = record w { received = insert s tt w.received }

  pub inserted-IsBounded : IsBounded inserted
  inserted-IsBounded = record {
    ascending = Ascending-insert 0 s tt w.received (omega arith) v.bounded.ascending;
    below = Below-insert u32_max s tt w.received h v.bounded.below;
    next_le = v.bounded.next_le;
  }

  -- Recording a sequence number below `u32::MAX` keeps the window valid.
  pub record_sequence-IsValid : IsValid (record_sequence w s).0
  unfolding record_sequence
  record_sequence-IsValid =
      advance-IsValid (length inserted.received) inserted inserted-IsBounded (omega arith)

  -- Recording a sequence number below `u32::MAX` in a valid window adds just this number to those
  -- that the window has seen.
  pub seen-record_sequence : (t : ℕ) → seen (record_sequence w s).0 t ≡ (s == t) || seen w t
  unfolding record_sequence
  seen-record_sequence t =
      advance-seen (length inserted.received) inserted t inserted-IsBounded
      ∙ ground (arith, contains_key-insert s t tt w.received)

  pub next_contiguous-record_sequence : w.next_contiguous ≤ (record_sequence w s).0.next_contiguous
  unfolding record_sequence
  next_contiguous-record_sequence =
      advance-grows (length inserted.received) inserted inserted-IsBounded
