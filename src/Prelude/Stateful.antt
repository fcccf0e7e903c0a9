-- ===== src/Prelude/Stateful.antt =====
-- Methods on `&mut self` that may fail: a failure keeps the state that it was met in.
use mathlib.Core.Path.{◌≡◌, refl}
use veilid_http.Prelude.Results.{Result, ok, err}

abbrev pub Action {ℓ κ μ} : Type ℓ → Type κ → Type μ → Type (ℓ ⊔ κ ⊔ μ)
Action E S A = S → Result E A × S

abbrev pub and_then {ℓ κ μ} :
    {E : Type ℓ} {S : Type κ} {A B : Type μ} → Result E A × S → (A → Action E S B) → Result E B × S
and_then (ok a, s) f = f a s
and_then (err e, s) f = (err e, s)

infixl 5 ◌>>=◌ ◌>>◌
abbrev pub ◌>>=◌ {ℓ κ μ} :
    {E : Type ℓ} {S : Type κ} {A B : Type μ} → Action E S A → (A → Action E S B) → Action E S B
◌>>=◌ m f s = and_then (m s) f

abbrev pub ◌>>◌ {ℓ κ} :
    {E : Type ℓ} {S : Type κ} {A B : Type 0} → Action E S A → Action E S B → Action E S B
m >> k = m >>= λ _. k

-- `return Ok(a)`, `return Err(e)`, and `e?` where `e` does not change the state.
abbrev pub pure {ℓ κ μ} : {E : Type ℓ} {S : Type κ} {A : Type μ} → A → Action E S A
pure a s = (ok a, s)

abbrev pub fail {ℓ κ μ} : {E : Type ℓ} {S : Type κ} {A : Type μ} → E → Action E S A
fail e s = (err e, s)

abbrev pub lift {ℓ κ μ} : {E : Type ℓ} {S : Type κ} {A : Type μ} → Result E A → Action E S A
lift r s = (r, s)

-- Whatever an action answers, it keeps a predicate on the state.
pub record Keeps {ℓ κ μ} {E : Type ℓ} {S : Type κ} {A : Type μ} (P : S → Type 0) (m : Action E S A)
    : Type (κ ⊔ μ) where
  pub at : (s : S) → P s → P (m s).1

module _ {ℓ κ} {E : Type ℓ} {S : Type κ} {A B : Type 0} {P : S → Type 0} where
  pub and_then-Keeps :
      {f : A → Action E S B} (x : Result E A × S)
      → P x.1
      → ((a : A) → Keeps P (f a))
      → P (and_then x f).1
  and_then-Keeps (ok a, s) p kept = (kept a).at s p
  and_then-Keeps (err e, s) p kept = p

  -- The continuation may use what the first action has answered.
  pub and_then-kept :
      (f : A → Action E S B) (x : Result E A × S)
      → P x.1
      → ((a : A) (s : S) → x ≡ (ok a, s) → P s → P (f a s).1)
      → P (and_then x f).1
  and_then-kept f (ok a, s) p kept = kept a s refl p
  and_then-kept f (err e, s) p kept = p

  pub bind-Keeps :
      {m : Action E S A} {f : A → Action E S B}
      → Keeps P m
      → ((a : A) → Keeps P (f a))
      → Keeps P (m >>= f)
  bind-Keeps {m = m} keeps kept = record { at = λ s p. and_then-Keeps (m s) (keeps.at s p) kept }
