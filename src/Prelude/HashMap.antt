-- ===== src/Prelude/HashMap.antt =====
-- `HashMap<[u8; 16], V>` as an association list. The order of the entries stands for the
-- unspecified order of iteration.
use Prim.Native.Nat.{ℕ, suc}
use mathlib.Core.Path.{◌≡◌, refl, ap}
use mathlib.Core.Bool.{Bool, true, false}
use mathlib.Core.Option.{Option, none, some}
use mathlib.Core.List.{List, [], ◌∷◌}
use native.Mathlib.Omega.{arith}
use veilid_http.Prelude.Tests.{if◌then◌else◌, bytes_eq, bytes_eq_iff}

abbrev pub Key : Type 0
Key = List ℕ

abbrev pub HashMap {ℓ} : Type ℓ → Type ℓ
HashMap V = List (Key × V)

module _ {ℓ} {V : Type ℓ} where
  abbrev pub get : Key → HashMap V → Option V
  get k [] = none
  get k ((j, v) ∷ m) = if bytes_eq j k then some v else get k m

  abbrev pub contains_key : Key → HashMap V → Bool
  contains_key k [] = false
  contains_key k ((j, v) ∷ m) = if bytes_eq j k then true else contains_key k m

  abbrev pub insert : Key → V → HashMap V → HashMap V
  insert k v [] = (k, v) ∷ []
  insert k v ((j, w) ∷ m) = if bytes_eq j k then (k, v) ∷ m else (j, w) ∷ insert k v m

  abbrev pub remove : Key → HashMap V → HashMap V
  remove k [] = []
  remove k ((j, v) ∷ m) = if bytes_eq j k then m else (j, v) ∷ remove k m

  -- No key occurs twice.
  abbrev pub Distinct : HashMap V → Type 0
  Distinct [] = Unit {0}
  Distinct ((j, v) ∷ m) = (contains_key j m ≡ false) × Distinct m

  -- How many values satisfy a test.
  abbrev pub count : (V → Bool) → HashMap V → ℕ
  count p [] = 0
  count p ((j, v) ∷ m) = if p v then suc (count p m) else count p m

  pub get-insert :
      (k i : Key) (v : V) (m : HashMap V)
      → get i (insert k v m) ≡ (if bytes_eq k i then some v else get i m)
  get-insert k i v [] = refl
  get-insert k i v ((j, w) ∷ m) =
      ground (arith, bytes_eq_iff j k, bytes_eq_iff j i, bytes_eq_iff k i, get-insert k i v m)

  pub get-absent : (k : Key) (m : HashMap V) → contains_key k m ≡ false → get k m ≡ none
  get-absent k [] h = refl
  get-absent k ((j, v) ∷ m) h = ground (arith, get-absent k m)

  pub contains_key-get :
      (k : Key) (m : HashMap V) (v : V) → get k m ≡ some v → contains_key k m ≡ true
  contains_key-get k [] v h = ground arith
  contains_key-get k ((j, w) ∷ m) v h = ground (arith, contains_key-get k m v)

  pub absent-get : (k : Key) (m : HashMap V) → get k m ≡ none → contains_key k m ≡ false
  absent-get k [] h = refl
  absent-get k ((j, w) ∷ m) h = ground (arith, absent-get k m)

  pub contains_key-insert :
      (k i : Key) (v : V) (m : HashMap V)
      → contains_key i (insert k v m) ≡ (if bytes_eq k i then true else contains_key i m)
  contains_key-insert k i v [] = refl
  contains_key-insert k i v ((j, w) ∷ m) =
      ground
        (arith, bytes_eq_iff j k, bytes_eq_iff j i, bytes_eq_iff k i, contains_key-insert k i v m)

  pub get-remove :
      (k i : Key) (m : HashMap V)
      → Distinct m
      → get i (remove k m) ≡ (if bytes_eq k i then none else get i m)
  get-remove k i [] d = ground arith
  get-remove k i ((j, v) ∷ m) d = ground (
    arith,
    bytes_eq_iff j k,
    bytes_eq_iff j i,
    bytes_eq_iff k i,
    moved,
    get-absent j m d.0,
    get-remove k i m d.1,
  )
    where
      moved : j ≡ i → get j m ≡ get i m
      moved e = ap (λ x. get x m) e

  contains_key-remove_le :
      (k i : Key) (m : HashMap V) → contains_key i m ≡ false → contains_key i (remove k m) ≡ false
  contains_key-remove_le k i [] h = refl
  contains_key-remove_le k i ((j, v) ∷ m) h = ground (arith, contains_key-remove_le k i m)

  pub Distinct-remove : (k : Key) (m : HashMap V) → Distinct m → Distinct (remove k m)
  Distinct-remove k [] d = tt
  Distinct-remove k ((j, v) ∷ m) d =
      ground (arith, contains_key-remove_le k j m d.0, Distinct-remove k m d.1)

  pub Distinct-insert : (k : Key) (v : V) (m : HashMap V) → Distinct m → Distinct (insert k v m)
  Distinct-insert k v [] d = (refl, tt)
  Distinct-insert k v ((j, w) ∷ m) d = ground (
    arith,
    bytes_eq_iff j k,
    bytes_eq_iff k j,
    same,
    contains_key-insert k j v m,
    Distinct-insert k v m d.1,
  )
    where
      same : j ≡ k → contains_key j m ≡ contains_key k m
      same e = ap (λ x. contains_key x m) e
