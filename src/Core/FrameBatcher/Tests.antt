-- ===== src/Core/FrameBatcher/Tests.antt =====
-- Runs of the batcher, and its theorems at concrete inputs.
use veilid_http.Prelude.{◌<◌, ◌≡◌, refl, [], ◌∷◌, ◌++◌, length, All, concat}
use veilid_http.Core.FrameBatcher.{FrameBatcher, new, push_loop, push, flush}
use veilid_http.Core.FrameBatcher.Batching.{push_all, push_all-flush, frame_of, HasLength}

abbrev small : FrameBatcher
small = record { target_payload = 2; buffer = 1 ∷ [] }

cut : (push small (2 ∷ 3 ∷ 4 ∷ 5 ∷ [])).0 ≡ (1 ∷ 2 ∷ []) ∷ (3 ∷ 4 ∷ []) ∷ []
unfolding push push_loop
cut = refl

target : (new 1024 128).target_payload ≡ 856
unfolding new
target = refl

push_all-flush_example :
    let b = new 50 8 in
    let (frames, b') = push_all b ((1 ∷ 2 ∷ []) ∷ (3 ∷ []) ∷ []) in
    (concat frames ++ frame_of (flush b').0 ≡ 1 ∷ 2 ∷ 3 ∷ [])
    × All (HasLength b.target_payload) frames
    × (length (frame_of (flush b').0) < b.target_payload)
push_all-flush_example = push_all-flush 50 8 ((1 ∷ 2 ∷ []) ∷ (3 ∷ []) ∷ [])
