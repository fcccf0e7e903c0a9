-- ===== src/Core/Reassembler/Delivery.antt =====
-- Chunks that arrive in any order, with repetitions, are delivered in order and once.
use mathlib.Core.List.{append_assoc, append-nil}
use veilid_http.Prelude.{
  ℕ, zero, suc, ◌+◌, ◌<◌, ◌≡◌, ◌⊎◌, refl, ◌∙◌, sym, ap, Bool, true, false, ◌||◌, some, List, [],
  ◌∷◌, ◌++◌, ltb, ◌==◌, length, arith, Bool-cases, Option-cases, inl, inr, ok, err, All, Result,
}
use veilid_http.Prelude.Words.{u32_max, usize_max, saturating_add}
use veilid_http.Prelude.SortedMap.{
  Map, get, contains_key, insert, remove, Below-contains, contains_key-get, contains_key-insert,
  contains_key-remove,
}
use veilid_http.Core.Error.{CoreError}
use veilid_http.Core.Reassembler.{Reassembler, Bytes, new, took, deliver, insert_and_deliver, push}
use veilid_http.Core.Reassembler.Validity.{
  IsBounded, IsValid, new-IsValid, took-IsBounded, grown, grown-IsBounded, push-IsValid,
}

module _ (f : ℕ → Bytes) where
  -- The stream's first `n` chunks.
  abbrev pub chunks : ℕ → List Bytes
  chunks zero = []
  chunks (suc n) = chunks n ++ f n ∷ []

  -- Every pending chunk is the stream's chunk of that number.
  abbrev pub Agrees : Map Bytes → Type 0
  Agrees [] = Unit {0}
  Agrees ((k, v) ∷ m) = (v ≡ f k) × Agrees m

  get-Agrees : (k : ℕ) (v : Bytes) (m : Map Bytes) → Agrees m → get k m ≡ some v → v ≡ f k
  get-Agrees k v [] a e = absurd (ground arith)
  get-Agrees k v ((j, w) ∷ m) a e = elim (Bool-cases (j == k)) [
    | inl q ↦ ground (arith, ap f (same q))
    | inr q ↦ get-Agrees k v m a.1 (ground arith)
  ]
    where
      same : (j == k) ≡ true → j ≡ k
      same q = ground arith

  Agrees-insert : (k : ℕ) (v : Bytes) (m : Map Bytes) → v ≡ f k → Agrees m → Agrees (insert k v m)
  Agrees-insert k v [] e a = (e, tt)
  Agrees-insert k v ((j, w) ∷ m) e a = ground (arith, Agrees-insert k v m e a.1)

  Agrees-remove : (k : ℕ) (m : Map Bytes) → Agrees m → Agrees (remove k m)
  Agrees-remove k [] a = tt
  Agrees-remove k ((j, v) ∷ m) a = ground (arith, Agrees-remove k m a.1)

  extend :
      (r : Reassembler) (chunk : Bytes)
      → IsBounded r
      → Agrees r.pending
      → get r.next_sequence r.pending ≡ some chunk
      → (ready : List Bytes)
      → chunks r.next_sequence ++ chunk ∷ ready ≡ chunks (took r chunk).next_sequence ++ ready
  extend r chunk b a e ready =
      ap (λ c. chunks r.next_sequence ++ c ∷ ready) (get-Agrees r.next_sequence chunk r.pending a e)
      ∙ sym (append_assoc (chunks r.next_sequence) (f r.next_sequence ∷ []) ready)
      ∙ ap (λ n. chunks n ++ ready) next
    where
      next : suc r.next_sequence ≡ saturating_add u32_max r.next_sequence 1
      next = omega (
        arith,
        Below-contains u32_max r.next_sequence r.pending b.below
            (contains_key-get r.next_sequence r.pending chunk e),
      )

  -- The loop hands out the next chunks of the stream and keeps the others.
  deliver-chunks :
      (fuel : ℕ) (r : Reassembler)
      → IsBounded r
      → Agrees r.pending
      → (chunks r.next_sequence ++ (deliver fuel r).0 ≡ chunks (deliver fuel r).1.next_sequence)
        × Agrees (deliver fuel r).1.pending
  unfolding deliver
  deliver-chunks zero r b a = (append-nil (chunks r.next_sequence), a)
  deliver-chunks (suc fuel) r b a = elim (Option-cases (get r.next_sequence r.pending)) [
    | inl e ↦ rw (e, deliver) (append-nil (chunks r.next_sequence), a)
    | inr (chunk, e) ↦
        let (front, kept) =
          deliver-chunks fuel (took r chunk) (took-IsBounded r chunk b e)
            (Agrees-remove r.next_sequence r.pending a) in
        rw (e, deliver) (extend r chunk b a e (deliver fuel (took r chunk)).0 ∙ front, kept)
  ]

  abbrev output : Result CoreError (List Bytes) → List Bytes
  output (ok ready) = ready
  output (err e) = []

  -- One `push` of the stream's chunk `s` hands out the stream from where the last one stopped.
  push-chunks :
      (r : Reassembler) (s : ℕ)
      → IsValid r
      → s < u32_max
      → Agrees r.pending
      → (chunks r.next_sequence ++ output (push r s (f s)).0
          ≡ chunks (push r s (f s)).1.next_sequence)
        × Agrees (push r s (f s)).1.pending
  unfolding push
  push-chunks r s v h a = elim (Bool-cases (ltb s r.next_sequence || contains_key s r.pending)) [
    | inl e ↦ rw e (append-nil (chunks r.next_sequence), a)
    | inr e ↦
        rw e
          (elim (Bool-cases
            (ltb r.max_pending_bytes (saturating_add usize_max r.pending_bytes (length (f s))))) [
              | inl q ↦ rw q (append-nil (chunks r.next_sequence), a)
              | inr q ↦ rw q (
                  deliver-chunks (length (grown r s (f s)).pending) (grown r s (f s))
                    (grown-IsBounded r s (f s) v h e (ground arith))
                    (Agrees-insert s (f s) r.pending refl a))
            ])
  ]

  -- The chunks with the listed numbers are pushed one after another; the outputs are joined.
  unfoldable pub run : Reassembler → List ℕ → List Bytes × Reassembler
  run r [] = ([], r)
  run r (s ∷ ss) =
      let (out, r') = push r s (f s) in let (rest, r'') = run r' ss in (output out ++ rest, r'')

  run-chunks :
      (r : Reassembler) (ss : List ℕ)
      → IsValid r
      → All (λ s. s < u32_max) ss
      → Agrees r.pending
      → chunks r.next_sequence ++ (run r ss).0 ≡ chunks (run r ss).1.next_sequence
  unfolding run
  run-chunks r [] v h a = append-nil (chunks r.next_sequence)
  run-chunks r (s ∷ ss) v h a =
      let (front, kept) = push-chunks r s v h.0 a in
      sym (
        append_assoc (chunks r.next_sequence) (output (push r s (f s)).0)
          (run (push r s (f s)).1 ss).0)
      ∙ ap (λ c. c ++ (run (push r s (f s)).1 ss).0) front
      ∙ run-chunks (push r s (f s)).1 ss (push-IsValid r s (f s) v h.0) h.1 kept

  -- Whatever the order and the repetitions in which chunks numbered below `u32::MAX` arrive, and
  -- also where the limit, itself below `usize::MAX`, refuses some: what a new reassembler has
  -- handed out is the stream's first chunks, each once.
  pub run_in_order :
      (limit : ℕ) (ss : List ℕ)
      → limit < usize_max
      → All (λ s. s < u32_max) ss
      → (run (new limit) ss).0 ≡ chunks (run (new limit) ss).1.next_sequence
  unfolding new
  run_in_order limit ss l h = run-chunks (new limit) ss (new-IsValid limit l) h tt

-- A chunk is held when it was handed out or waits for the ones before it.
abbrev pub held : Reassembler → ℕ → Bool
held r s = ltb s r.next_sequence || contains_key s r.pending

deliver-held :
    (fuel : ℕ) (r : Reassembler) (t : ℕ) → IsBounded r → held (deliver fuel r).1 t ≡ held r t
unfolding deliver
deliver-held zero r t b = refl
deliver-held (suc fuel) r t b = elim (Option-cases (get r.next_sequence r.pending)) [
  | inl e ↦ rw (e, deliver) refl
  | inr (chunk, e) ↦
      rw (e, deliver)
        (deliver-held fuel (took r chunk) t (took-IsBounded r chunk b e)
          ∙ ground (
            arith,
            contains_key-remove r.next_sequence r.next_sequence t r.pending b.ascending,
            contains_key-get r.next_sequence r.pending chunk e,
            Below-contains u32_max r.next_sequence r.pending b.below,
          ))
]

-- On a valid reassembler and for a number below `u32::MAX`, a `push` that succeeds adds its
-- sequence number to those held; one that fails changes nothing, and fails only for a chunk that
-- is not held and would exceed the limit.
pub push-held :
    (r : Reassembler) (s t : ℕ) (bytes : Bytes)
    → IsValid r
    → s < u32_max
    → let (answer, r') = push r s bytes in
      ((ready : List Bytes) × (answer ≡ ok ready) × (held r' t ≡ (s == t) || held r t))
      ⊎ ((e : CoreError) × (answer ≡ err e)
          × (r' ≡ r)
          × (held r s ≡ false)
          × (r.max_pending_bytes < r.pending_bytes + length bytes))
unfolding push insert_and_deliver
push-held r s t bytes v h = elim (Bool-cases (held r s)) [
  | inl e ↦ rw e (inl ([], refl, ground arith))
  | inr e ↦
      rw e
        (elim (Bool-cases
          (ltb r.max_pending_bytes (saturating_add usize_max r.pending_bytes (length bytes)))) [
            | inl q ↦ rw q (inr (_, refl, refl, refl, ground arith))
            | inr q ↦ rw q (
                inl (
                  _,
                  refl,
                  deliver-held (length (grown r s bytes).pending) (grown r s bytes) t
                        (grown-IsBounded r s bytes v h e (ground arith))
                      ∙ ground (arith, contains_key-insert s t bytes r.pending),
                ))
          ])
]
