-- ===== src/Core/Reassembler/Tests.antt =====
-- Runs of the reassembler, and its theorems at concrete inputs.
use veilid_http.Prelude.{
  ℕ, ◌+◌, ◌<◌, ◌≡◌, ◌⊎◌, refl, false, ◌||◌, List, [], ◌∷◌, ◌==◌, arith, ok, err,
}
use veilid_http.Core.Error.{CoreError, pending_limit}
use veilid_http.Core.Reassembler.{Bytes, new, deliver, push}
use veilid_http.Core.Reassembler.Validity.{IsValid, new-IsValid, push-IsValid}
use veilid_http.Core.Reassembler.Delivery.{chunks, run, run_in_order, push-held, held}

-- The chunk of a number is a single byte.
abbrev letter : ℕ → Bytes
letter n = (b'a' + n) ∷ []

-- `reassembler_delivers_in_order_and_deduplicates`.
reordered : (run letter (new 1024) (1 ∷ 0 ∷ 1 ∷ [])).0 ≡ (b'a' ∷ []) ∷ (b'b' ∷ []) ∷ []
unfolding run push deliver new
reordered = refl

refused : (push (new 1) 0 (1 ∷ 2 ∷ [])).0 ≡ err (pending_limit 2 1)
unfolding push new
refused = refl

run_in_order_example :
    (run letter (new 1024) (1 ∷ 0 ∷ 1 ∷ [])).0
    ≡ chunks letter (run letter (new 1024) (1 ∷ 0 ∷ 1 ∷ [])).1.next_sequence
run_in_order_example = run_in_order letter 1024 (1 ∷ 0 ∷ 1 ∷ []) (omega arith) (omega arith)

push-IsValid_example : IsValid (push (new 8) 3 (1 ∷ 2 ∷ [])).1
push-IsValid_example =
    push-IsValid (new 8) 3 (1 ∷ 2 ∷ []) (new-IsValid 8 (omega arith)) (omega arith)

push-held_example :
    let (answer, r') = push (new 8) 3 (1 ∷ 2 ∷ []) in
    ((ready : List Bytes) × (answer ≡ ok ready) × (held r' 3 ≡ (3 == 3) || held (new 8) 3))
    ⊎ ((e : CoreError) × (answer ≡ err e)
        × (r' ≡ new 8)
        × (held (new 8) 3 ≡ false)
        × ((new 8).max_pending_bytes < (new 8).pending_bytes + 2))
push-held_example = push-held (new 8) 3 3 (1 ∷ 2 ∷ []) (new-IsValid 8 (omega arith)) (omega arith)
