-- ===== src/Wire/Reader.antt =====
-- The cursor of the `bytes` crate (`Buf`): big-endian reads that panic past the end.
use veilid_http.Prelude.{
  ℕ, ◌+◌, ◌-◌, ◌*◌, ◌≤◌, ◌≡◌, refl, Bool, true, false, List, [], ◌∷◌, if◌then◌else◌, length, take,
  drop, ltb, Result, ok, err, arith, length-drop,
}

abbrev pub Bytes : Type 0
Bytes = List ℕ

-- What a function that may panic does: return, fail, or panic.
pub data Outcome {ℓ κ} (E : Type ℓ) (A : Type κ) : Type (ℓ ⊔ κ) where
  done : A → Outcome E A
  failed : E → Outcome E A
  panicked : Outcome E A

-- An action on the cursor.
abbrev pub Reader {ℓ} : Type 0 → Type ℓ → Type ℓ
Reader E A = Bytes → Outcome E (A × Bytes)

infixl 5 ◌>>=◌ ◌>>◌
abbrev pub ◌>>=◌ {ℓ κ} :
    {E : Type 0} {A : Type ℓ} {B : Type κ} → Reader E A → (A → Reader E B) → Reader E B
◌>>=◌ m f s = elim (m s) [ done (a, s') ↦ f a s' | failed e ↦ failed e | panicked ↦ panicked ]

abbrev pub ◌>>◌ {ℓ} : {E : Type 0} {B : Type ℓ} → Reader E (Unit {0}) → Reader E B → Reader E B
m >> k = m >>= λ _. k

module _ {E : Type 0} where
  abbrev pub pure {ℓ} : {A : Type ℓ} → A → Reader E A
  pure a s = done (a, s)

  abbrev pub lift {ℓ} : {A : Type ℓ} → Result E A → Reader E A
  lift (ok a) s = done (a, s)
  lift (err e) s = failed e

  -- `if test { return Err(e) }`.
  abbrev pub reject : Bool → E → Reader E (Unit {0})
  reject true e s = failed e
  reject false e s = done (tt, s)

  unfoldable pub remaining : Reader E ℕ
  remaining s = done (length s, s)

  unfoldable pub get_u8 : Reader E ℕ
  get_u8 [] = panicked
  get_u8 (b ∷ s) = done (b, s)

  unfoldable pub get_u16 : Reader E ℕ
  unfolding get_u8
  get_u16 = do a ← get_u8; b ← get_u8; pure (a * 256 + b)

  unfoldable pub get_u32 : Reader E ℕ
  unfolding get_u16
  get_u32 = do a ← get_u16; b ← get_u16; pure (a * 65536 + b)

  unfoldable pub get_u64 : Reader E ℕ
  unfolding get_u32
  get_u64 = do a ← get_u32; b ← get_u32; pure (a * 4294967296 + b)

  -- `copy_to_slice` into an array of `n` bytes, and `copy_to_bytes(n)`.
  unfoldable pub get_bytes : ℕ → Reader E Bytes
  get_bytes n s = if ltb (length s) n then panicked else done (take n s, drop n s)

  -- The reader takes exactly `n` bytes of an input that has them.
  abbrev pub Takes {ℓ} : {A : Type ℓ} → ℕ → Reader E A → Type ℓ
  Takes {A = A} n m =
      (s : Bytes)
      → n ≤ length s
      → (a : A) × (rest : Bytes) × (m s ≡ done (a, rest)) × (length rest + n ≡ length s)

  pub get_u8-Takes : Takes 1 get_u8
  unfolding get_u8
  get_u8-Takes [] h = absurd (omega arith)
  get_u8-Takes (b ∷ s) h = (b, s, refl, omega arith)

  pub get_u16-Takes : Takes 2 get_u16
  unfolding get_u16
  get_u16-Takes [] h = absurd (omega arith)
  get_u16-Takes (a ∷ []) h = absurd (omega arith)
  get_u16-Takes (a ∷ b ∷ s) h = (a * 256 + b, s, refl, omega arith)

  pub get_u32-Takes : Takes 4 get_u32
  unfolding get_u32
  get_u32-Takes [] h = absurd (omega arith)
  get_u32-Takes (a ∷ []) h = absurd (omega arith)
  get_u32-Takes (a ∷ b ∷ []) h = absurd (omega arith)
  get_u32-Takes (a ∷ b ∷ c ∷ []) h = absurd (omega arith)
  get_u32-Takes (a ∷ b ∷ c ∷ d ∷ s) h =
      ((a * 256 + b) * 65536 + (c * 256 + d), s, refl, omega arith)

  pub get_bytes-Takes : (n : ℕ) → Takes n (get_bytes n)
  unfolding get_bytes
  get_bytes-Takes n s h = (take n s, drop n s, ground arith, omega (arith, length-drop n s))

  -- No panic on an input of length `n`.
  abbrev pub Fine {ℓ} : {A : Type ℓ} → Outcome E A → Type 0
  Fine (done a) = Unit {0}
  Fine (failed e) = Unit {0}
  Fine panicked = ⊥

  pub record Safe {ℓ} {A : Type ℓ} (n : ℕ) (m : Reader E A) : Type 0 where
    pub at : (s : Bytes) → length s ≡ n → Fine (m s)

  module _ {ℓ κ} {A : Type ℓ} {B : Type κ} where
    pub bind-Safe :
        (n : ℕ) {k : ℕ} {m : Reader E A} {f : A → Reader E B}
        → Takes n m
        → n ≤ k
        → ((a : A) → Safe (k - n) (f a))
        → Safe k (m >>= f)
    bind-Safe n {k} {m} {f} takes h safe = record { at = step }
      where
        step : (s : Bytes) → length s ≡ k → Fine ((m >>= f) s)
        step s e =
            let (a, rest, q, l) = takes s (omega arith) in
            rw (q, ◌>>=◌) ((safe a).at rest (omega arith))

    pub lift-Safe :
        {k : ℕ} {f : A → Reader E B} (r : Result E A)
        → ((a : A) → r ≡ ok a → Safe k (f a))
        → Safe k (lift r >>= f)
    lift-Safe (ok a) safe = record { at = λ s l. (safe a refl).at s l }
    lift-Safe (err e) safe = record { at = λ s l. tt }

  pub reject-Safe {κ} :
      {B : Type κ} {k : ℕ} {m : Reader E B} (test : Bool) (e : E)
      → (test ≡ false → Safe k m)
      → Safe k (reject test e >> m)
  reject-Safe true e safe = record { at = λ s l. tt }
  reject-Safe false e safe = record { at = λ s l. (safe refl).at s l }

  pub pure-Safe {κ} : {B : Type κ} {k : ℕ} (b : B) → Safe k (pure b)
  pure-Safe b = record { at = λ s l. tt }

  pub map-Safe {ℓ κ} :
      {A : Type ℓ} {B : Type κ} {k : ℕ} {m : Reader E A} (g : A → B)
      → Safe k m
      → Safe k (m >>= λ a. pure (g a))
  map-Safe {A = A} {m = m} g safe = record { at = λ s l. mapped s (m s) refl (safe.at s l) }
    where
      mapped :
          (s : Bytes) (r : Outcome E (A × Bytes))
          → m s ≡ r
          → Fine r
          → Fine ((m >>= λ a. pure (g a)) s)
      mapped s (done (a, s')) e h = rw (e, ◌>>=◌) tt
      mapped s (failed x) e h = rw (e, ◌>>=◌) tt
      mapped s panicked e h = absurd h

  -- The action may use that the number is that of the bytes left.
  pub remaining-Safe {κ} :
      {B : Type κ} {k : ℕ} {f : ℕ → Reader E B}
      → ((i : ℕ) → i ≡ k → Safe k (f i))
      → Safe k (remaining >>= f)
  unfolding remaining
  remaining-Safe safe = record { at = λ s l. (safe (length s) l).at s l }

  -- The reader returns `a` and leaves `rest`.
  pub record Parses {ℓ} {A : Type ℓ} (m : Reader E A) (s : Bytes) (a : A) (rest : Bytes)
      : Type ℓ where
    pub runs : m s ≡ done (a, rest)

  module _ {ℓ κ} {A : Type ℓ} {B : Type κ} (f : A → Reader E B) {s rest : Bytes} {b : B} where
    pub bind-Parses :
        {m : Reader E A} {a : A} {mid : Bytes}
        → Parses m s a mid
        → Parses (f a) mid b rest
        → Parses (m >>= f) s b rest
    bind-Parses {m = m} {a = a} {mid = mid} p q = record { runs = rw (p.runs, ◌>>=◌) q.runs }

    pub lift-Parses :
        {r : Result E A} {a : A} → r ≡ ok a → Parses (f a) s b rest → Parses (lift r >>= f) s b rest
    lift-Parses e q = record { runs = rw (e, ◌>>=◌) q.runs }

  pub map-Parses {ℓ κ} :
      {A : Type ℓ} {B : Type κ} (g : A → B) {m : Reader E A} {s rest : Bytes} {a : A}
      → Parses m s a rest
      → Parses (m >>= λ x. pure (g x)) s (g a) rest
  map-Parses g p = record { runs = rw (p.runs, ◌>>=◌) refl }

  pub remaining-Parses {κ} :
      {B : Type κ} (f : ℕ → Reader E B) {s rest : Bytes} {b : B}
      → Parses (f (length s)) s b rest
      → Parses (remaining >>= f) s b rest
  unfolding remaining
  remaining-Parses f p = record { runs = p.runs }

  pub reject-Parses {κ} :
      {B : Type κ} {s rest : Bytes} {b : B} {m : Reader E B} (test : Bool) (e : E)
      → test ≡ false
      → Parses m s b rest
      → Parses (reject test e >> m) s b rest
  reject-Parses true e h p = absurd (ground arith)
  reject-Parses false e h p = record { runs = p.runs }

  pub pure-Parses {κ} : {B : Type κ} (b : B) (s : Bytes) → Parses (pure b) s b s
  pure-Parses b s = record { runs = refl }

pub get_bytes-run :
    {E : Type 0} (n : ℕ) (s : Bytes)
    → n ≤ length s
    → get_bytes {E = E} n s ≡ done (take n s, drop n s)
unfolding get_bytes
get_bytes-run n s h = ground arith
