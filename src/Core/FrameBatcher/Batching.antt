-- ===== src/Core/FrameBatcher/Batching.antt =====
-- The batcher cuts its input into frames of the target size and loses nothing.
use mathlib.Core.List.{append_assoc, append-nil}
use veilid_http.Prelude.{
  ℕ, zero, suc, ◌-◌, ◌≤◌, ◌<◌, ◌≡◌, refl, ◌∙◌, sym, ap, Option, none, some, List, [], ◌∷◌, ◌++◌,
  ◌==◌, length, take, drop, min, concat, All, arith, Bool-cases, inl, inr, length-append,
  length-take, length-drop, take-append-drop, All-append, subst,
}
use veilid_http.Core.FrameBatcher.{FrameBatcher, Bytes, new, push_loop, push, flush}

-- The buffer never holds a whole frame between calls.
abbrev pub IsPartial : FrameBatcher → Type 0
IsPartial b = length b.buffer < b.target_payload

abbrev pub HasLength : ℕ → Bytes → Type 0
HasLength n frame = length frame ≡ n

pub new-IsPartial : (frame_limit reserved : ℕ) → IsPartial (new frame_limit reserved)
unfolding new
new-IsPartial frame_limit reserved = omega arith

-- What a call promises: no byte is lost, added or moved; each frame is full; the rest is partial.
pub record Batched (b : FrameBatcher) (input : Bytes) (result : List Bytes × FrameBatcher)
    : Type 0 where
  pub kept : concat result.0 ++ result.1.buffer ≡ b.buffer ++ input
  pub full : All (HasLength b.target_payload) result.0
  pub target : result.1.target_payload ≡ b.target_payload
  pub partial : length result.1.buffer < b.target_payload

push_loop-Batched :
    (fuel : ℕ) (b : FrameBatcher) (input : Bytes)
    → IsPartial b
    → length input ≤ fuel
    → Batched b input (push_loop fuel b input)
unfolding push_loop
push_loop-Batched zero b [] p h = record {
  kept = sym (append-nil b.buffer);
  full = tt;
  target = refl;
  partial = p;
}
push_loop-Batched zero b (x ∷ xs) p h = absurd (omega arith)
push_loop-Batched (suc fuel) b [] p h = record {
  kept = sym (append-nil b.buffer);
  full = tt;
  target = refl;
  partial = p;
}
push_loop-Batched (suc fuel) b (x ∷ xs) p h =
    elim (Bool-cases (length buffer == b.target_payload)) [
      | inl e ↦ rw e (
          let r = push_loop-Batched fuel (record b { buffer = [] }) rest (omega arith) shorter in
          record {
            kept = append_assoc buffer _ _ ∙ ap (◌++◌ buffer) r.kept ∙ together;
            full = (ground arith, r.full);
            target = r.target;
            partial = r.partial;
          })
      | inr e ↦ rw e (
          let r =
            push_loop-Batched fuel (record b { buffer = buffer }) rest (ground (arith, size))
              shorter in
          record {
            kept = r.kept ∙ together;
            full = r.full;
            target = r.target;
            partial = r.partial;
          })
    ]
  where
    taken : ℕ
    taken = min (b.target_payload - length b.buffer) (length (x ∷ xs))

    buffer : Bytes
    buffer = b.buffer ++ take taken (x ∷ xs)

    rest : Bytes
    rest = drop taken (x ∷ xs)

    size : length buffer ≤ b.target_payload
    size = omega (arith, length-append b.buffer (take taken (x ∷ xs)), length-take taken (x ∷ xs))

    shorter : length rest ≤ fuel
    shorter = omega (arith, length-drop taken (x ∷ xs))

    together : buffer ++ rest ≡ b.buffer ++ x ∷ xs
    together =
        append_assoc b.buffer (take taken (x ∷ xs)) rest
        ∙ ap (◌++◌ b.buffer) (take-append-drop taken (x ∷ xs))

pub push-Batched : (b : FrameBatcher) (input : Bytes) → IsPartial b → Batched b input (push b input)
unfolding push
push-Batched b input p = push_loop-Batched (length input) b input p (omega arith)

abbrev pub frame_of : Option Bytes → Bytes
frame_of none = []
frame_of (some bytes) = bytes

pub flush_lem :
    (b : FrameBatcher)
    → IsPartial b
    → (frame_of (flush b).0 ≡ b.buffer)
      × ((flush b).1.buffer ≡ [])
      × ((flush b).1.target_payload ≡ b.target_payload)
unfolding flush
flush_lem b p = empty_or b.buffer refl
  where
    empty_or :
        (xs : Bytes)
        → b.buffer ≡ xs
        → (frame_of (flush b).0 ≡ b.buffer)
          × ((flush b).1.buffer ≡ [])
          × ((flush b).1.target_payload ≡ b.target_payload)
    empty_or [] e = ground arith
    empty_or (x ∷ xs) e = ground arith

-- A whole stream: the writes are pushed one after another, and the last partial frame is flushed.
unfoldable pub push_all : FrameBatcher → List Bytes → List Bytes × FrameBatcher
push_all b [] = ([], b)
push_all b (w ∷ ws) =
    let (out, b') = push b w in let (rest, b'') = push_all b' ws in (out ++ rest, b'')

concat-append : (xs ys : List Bytes) → concat (xs ++ ys) ≡ concat xs ++ concat ys
concat-append [] ys = refl
concat-append (x ∷ xs) ys =
    ap (◌++◌ x) (concat-append xs ys) ∙ sym (append_assoc x (concat xs) (concat ys))

-- Two calls in a row promise together what one call on both inputs would.
Batched-trans :
    (b : FrameBatcher) (xs ys : Bytes) (p q : List Bytes × FrameBatcher)
    → Batched b xs p
    → Batched p.1 ys q
    → Batched b (xs ++ ys) (p.0 ++ q.0, q.1)
Batched-trans b xs ys p q first rest = record {
  kept =
      ap (λ c. c ++ q.1.buffer) (concat-append p.0 q.0)
      ∙ append_assoc (concat p.0) (concat q.0) q.1.buffer
      ∙ ap (◌++◌ (concat p.0)) rest.kept
      ∙ sym (append_assoc (concat p.0) p.1.buffer ys)
      ∙ ap (λ c. c ++ ys) first.kept
      ∙ append_assoc b.buffer xs ys;
  full =
      All-append (HasLength b.target_payload) p.0 q.0 first.full
        (subst (λ n. All (HasLength n) q.0) first.target rest.full);
  target = rest.target ∙ first.target;
  partial = omega (arith, rest.partial, first.target);
}

push_all-Batched :
    (b : FrameBatcher) (ws : List Bytes) → IsPartial b → Batched b (concat ws) (push_all b ws)
unfolding push_all
push_all-Batched b [] p = record {
  kept = sym (append-nil b.buffer);
  full = tt;
  target = refl;
  partial = p;
}
push_all-Batched b (w ∷ ws) p =
    let first = push-Batched b w p in
    Batched-trans b w (concat ws) (push b w) (push_all (push b w).1 ws) first
      (push_all-Batched (push b w).1 ws (omega (arith, first.partial, first.target)))

-- Any sequence of writes to a new batcher comes out again, in order and whole, as the frames of
-- `push`, all of the target size, and what the final `flush` returns, which is shorter.
pub push_all-flush :
    (frame_limit reserved : ℕ) (ws : List Bytes)
    → let b = new frame_limit reserved in
      let (frames, b') = push_all b ws in
      (concat frames ++ frame_of (flush b').0 ≡ concat ws)
      × All (HasLength b.target_payload) frames
      × (length (frame_of (flush b').0) < b.target_payload)
unfolding new
push_all-flush frame_limit reserved ws =
    (ap (λ c. concat frames ++ c) last ∙ r.kept, r.full, omega (arith, ap length last, r.partial))
  where
    b : FrameBatcher
    b = new frame_limit reserved

    frames : List Bytes
    frames = (push_all b ws).0

    r : Batched b (concat ws) (push_all b ws)
    r = push_all-Batched b ws (new-IsPartial frame_limit reserved)

    last : frame_of (flush (push_all b ws).1).0 ≡ (push_all b ws).1.buffer
    last = (flush_lem (push_all b ws).1 (omega (arith, r.partial, r.target))).0
