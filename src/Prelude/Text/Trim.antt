-- ===== src/Prelude/Text/Trim.antt =====
-- What `split` and `trim` make of ASCII words between spaces and tabs.
use veilid_http.Prelude.Lists.{All, All-append, length-append}
use Prim.Native.Nat.{ℕ, ◌≤◌}
use mathlib.Core.List.{[], ◌∷◌, ◌++◌, reverse, reverse-append, reverse-reverse, reverse-cons}
use mathlib.Core.Path.{◌≡◌, refl, sym, ap, ◌∙◌}
use mathlib.Core.Option.{Option, none, some}
use veilid_http.Prelude.{length, Bool, true, not, leb, ◌==◌, ◌&&◌, ◌||◌, arith}
use veilid_http.Prelude.Text.{Text, split, skip_front, skip_back, skip_all, trim}

abbrev pub is_pad : ℕ → Bool
is_pad c = c == 32 || c == 9

-- Visible ASCII but the comma.
abbrev pub is_word_byte : ℕ → Bool
is_word_byte c = leb 33 c && (leb c 126 && not (c == b','))

abbrev pub Padding : Text → Type 0
Padding s = All (λ c. is_pad c ≡ true) s

abbrev pub Word : Text → Type 0
Word s = All (λ c. is_word_byte c ≡ true) s

-- Bytes that `skip` passes over one by one, or stops at.
Passes : (Text → Option Text) → ℕ → Type 0
Passes skip c = (s : Text) → skip (c ∷ s) ≡ some s

Stops : (Text → Option Text) → ℕ → Type 0
Stops skip c = (s : Text) → skip (c ∷ s) ≡ none

skip_front-Passes : (c : ℕ) → is_pad c ≡ true → Passes skip_front c
unfolding Passes skip_front
skip_front-Passes c h [] = ground arith
skip_front-Passes c h (a ∷ []) = ground arith
skip_front-Passes c h (a ∷ b ∷ s) = ground arith

skip_back-Passes : (c : ℕ) → is_pad c ≡ true → Passes skip_back c
unfolding Passes skip_back
skip_back-Passes c h [] = ground arith
skip_back-Passes c h (a ∷ []) = ground arith
skip_back-Passes c h (a ∷ b ∷ s) = ground arith

skip_front-Stops : (c : ℕ) → is_word_byte c ≡ true → Stops skip_front c
unfolding Stops skip_front
skip_front-Stops c h [] = ground arith
skip_front-Stops c h (a ∷ []) = ground arith
skip_front-Stops c h (a ∷ b ∷ s) = ground arith

skip_back-Stops : (c : ℕ) → is_word_byte c ≡ true → Stops skip_back c
unfolding Stops skip_back
skip_back-Stops c h [] = ground arith
skip_back-Stops c h (a ∷ []) = ground arith
skip_back-Stops c h (a ∷ b ∷ s) = ground arith

skip_all-padded :
    (skip : Text → Option Text) (p : Text) (c : ℕ) (s : Text)
    → All (Passes skip) p
    → Stops skip c
    → skip_all skip (length (p ++ c ∷ s)) (p ++ c ∷ s) ≡ c ∷ s
unfolding skip_all Passes Stops
skip_all-padded skip [] c s passes stops = rw (stops s) refl
skip_all-padded skip (a ∷ p) c s passes stops =
    rw (passes.0 (p ++ c ∷ s)) (skip_all-padded skip p c s passes.1 stops)

All-map : {P Q : ℕ → Type 0} (f : (c : ℕ) → P c → Q c) (s : Text) → All P s → All Q s
All-map f [] h = tt
All-map f (c ∷ s) h = (f c h.0, All-map f s h.1)

All-reverse : (P : ℕ → Type 0) (s : Text) → All P s → All P (reverse s)
All-reverse P [] h = tt
All-reverse P (c ∷ s) h =
    rw (reverse-cons c s) (All-append P (reverse s) (c ∷ []) (All-reverse P s h.1) (h.0, tt))

-- The back of a word that is not empty.
skip_all-back :
    (q r : Text)
    → Padding q
    → Word r
    → 1 ≤ length r
    → skip_all skip_back (length (q ++ r)) (q ++ r) ≡ r
skip_all-back q [] hq hr some_byte = absurd (omega arith)
skip_all-back q (c ∷ r) hq hr some_byte =
    skip_all-padded skip_back q c r (All-map skip_back-Passes q hq) (skip_back-Stops c hr.0)

length-reverse_lem : (s : Text) → length (reverse s) ≡ length s
length-reverse_lem [] = refl
length-reverse_lem (c ∷ s) =
    rw (reverse-cons c s) (omega (arith, length-append (reverse s) (c ∷ []), length-reverse_lem s))

trim_back :
    (t q : Text)
    → Word t
    → 1 ≤ length t
    → Padding q
    → reverse (skip_all skip_back (length (t ++ q)) (reverse (t ++ q))) ≡ t
trim_back t q ht some_byte hq =
    ap reverse (
      ap (λ n. skip_all skip_back n (reverse (t ++ q))) (sym (length-reverse_lem (t ++ q)))
      ∙ (ap (λ u. skip_all skip_back (length u) u) (reverse-append t q)
          ∙ skip_all-back (reverse q) (reverse t) (All-reverse _ q hq) (All-reverse _ t ht)
              (omega (arith, length-reverse_lem t))))
    ∙ reverse-reverse t

pub trim-padded :
    (p t q : Text) → Padding p → Word t → 1 ≤ length t → Padding q → trim (p ++ (t ++ q)) ≡ t
unfolding trim
trim-padded p [] q hp ht some_byte hq = absurd (omega arith)
trim-padded p (c ∷ t) q hp ht some_byte hq =
    rw
      (skip_all-padded skip_front p c (t ++ q) (All-map skip_front-Passes p hp)
        (skip_front-Stops c ht.0))
      (trim_back (c ∷ t) q ht some_byte hq)

pub split-word : (s : Text) → All (λ c. not (c == b',') ≡ true) s → split b',' s ≡ s ∷ []
unfolding split
split-word [] h = refl
split-word (c ∷ s) h = ground (arith, split-word s h.1)

pub split-more :
    (s rest : Text)
    → All (λ c. not (c == b',') ≡ true) s
    → split b',' (s ++ b',' ∷ rest) ≡ s ∷ split b',' rest
unfolding split
split-more [] rest h = refl
split-more (c ∷ s) rest h = rw (split-more s rest h.1) (ground arith)
