-- ===== src/Prelude/SortedMap.antt =====
-- `BTreeMap<u32, V>` and `BTreeSet<u32>` as association lists with ascending keys.
use Prim.Native.Nat.{ℕ, suc, ◌+◌, ◌≤◌, ◌<◌}
use mathlib.Core.Path.{◌≡◌, refl}
use mathlib.Core.Bool.{Bool, true, false}
use mathlib.Core.Option.{Option, none, some}
use mathlib.Core.List.{List, [], ◌∷◌}
use native.Mathlib.Omega.{arith}
use mathlib.Core.Logic.{inl, inr}
use veilid_http.Prelude.Tests.{ltb, ◌==◌, if◌then◌else◌, Bool-cases}
use veilid_http.Prelude.Lists.{length}

abbrev pub Map {ℓ} : Type ℓ → Type ℓ
Map V = List (ℕ × V)

module _ {ℓ} {V : Type ℓ} where
  abbrev pub get : ℕ → Map V → Option V
  get k [] = none
  get k ((j, v) ∷ m) = if j == k then some v else get k m

  abbrev pub contains_key : ℕ → Map V → Bool
  contains_key k [] = false
  contains_key k ((j, v) ∷ m) = if j == k then true else contains_key k m

  abbrev pub insert : ℕ → V → Map V → Map V
  insert k v [] = (k, v) ∷ []
  insert k v ((j, w) ∷ m) =
      if ltb k j then (k, v) ∷ (j, w) ∷ m else if j == k then (k, v) ∷ m else (j, w) ∷ insert k v m

  abbrev pub remove : ℕ → Map V → Map V
  remove k [] = []
  remove k ((j, v) ∷ m) = if j == k then m else (j, v) ∷ remove k m

  abbrev pub keys : Map V → List ℕ
  keys [] = []
  keys ((j, v) ∷ m) = j ∷ keys m

  abbrev pub values : Map V → List V
  values [] = []
  values ((j, v) ∷ m) = v ∷ values m

  -- A measure summed over the values.
  abbrev pub total : (V → ℕ) → Map V → ℕ
  total f [] = 0
  total f ((j, v) ∷ m) = f v + total f m

  -- The keys ascend and are at least `lo`.
  abbrev pub Ascending : ℕ → Map V → Type 0
  Ascending lo [] = Unit {0}
  Ascending lo ((j, v) ∷ m) = (lo ≤ j) × Ascending (suc j) m

  -- The keys are below `hi`.
  abbrev pub Below : ℕ → Map V → Type 0
  Below hi [] = Unit {0}
  Below hi ((j, v) ∷ m) = (j < hi) × Below hi m

  -- What `get` sees after an insertion, at every key.
  pub get-insert :
      (k i : ℕ) (v : V) (m : Map V) → get i (insert k v m) ≡ (if k == i then some v else get i m)
  get-insert k i v [] = refl
  get-insert k i v ((j, w) ∷ m) = ground (arith, get-insert k i v m)

  pub contains_key-insert :
      (k i : ℕ) (v : V) (m : Map V)
      → contains_key i (insert k v m) ≡ (if k == i then true else contains_key i m)
  contains_key-insert k i v [] = refl
  contains_key-insert k i v ((j, w) ∷ m) = ground (arith, contains_key-insert k i v m)

  pub get-none : (k : ℕ) (m : Map V) → contains_key k m ≡ false → get k m ≡ none
  get-none k [] h = refl
  get-none k ((j, v) ∷ m) h = ground (arith, get-none k m)

  pub get-some : (k : ℕ) (m : Map V) → contains_key k m ≡ true → (v : V) × (get k m ≡ some v)
  get-some k [] h = absurd (ground arith)
  get-some k ((j, v) ∷ m) h = elim (Bool-cases (j == k)) [
    | inl e ↦ (v, rw e refl)
    | inr e ↦ rw e (get-some k m (rw e at h))
  ]

  pub contains_key-get : (k : ℕ) (m : Map V) (v : V) → get k m ≡ some v → contains_key k m ≡ true
  contains_key-get k [] v h = ground arith
  contains_key-get k ((j, w) ∷ m) v h = ground (arith, contains_key-get k m v)

  -- A key below all keys is absent.
  pub get-above : (lo k : ℕ) (m : Map V) → Ascending lo m → k < lo → get k m ≡ none
  get-above lo k [] a h = refl
  get-above lo k ((j, v) ∷ m) a h = ground (arith, get-above (suc j) k m a.1)

  pub get-remove :
      (lo k i : ℕ) (m : Map V)
      → Ascending lo m
      → get i (remove k m) ≡ (if k == i then none else get i m)
  get-remove lo k i [] a = ground arith
  get-remove lo k i ((j, v) ∷ m) a =
      ground (arith, get-above (suc j) i m a.1, get-remove (suc j) k i m a.1)

  pub contains_key-above :
      (lo k : ℕ) (m : Map V) → Ascending lo m → k < lo → contains_key k m ≡ false
  contains_key-above lo k [] a h = refl
  contains_key-above lo k ((j, v) ∷ m) a h = ground (arith, contains_key-above (suc j) k m a.1)

  pub contains_key-remove :
      (lo k i : ℕ) (m : Map V)
      → Ascending lo m
      → contains_key i (remove k m) ≡ (if k == i then false else contains_key i m)
  contains_key-remove lo k i [] a = ground arith
  contains_key-remove lo k i ((j, v) ∷ m) a =
      ground (arith, contains_key-above (suc j) i m a.1, contains_key-remove (suc j) k i m a.1)

  pub Ascending-weaken : (lo lo' : ℕ) (m : Map V) → lo' ≤ lo → Ascending lo m → Ascending lo' m
  Ascending-weaken lo lo' [] h a = tt
  Ascending-weaken lo lo' ((j, v) ∷ m) h a = (omega arith, a.1)

  pub Ascending-insert :
      (lo k : ℕ) (v : V) (m : Map V) → lo ≤ k → Ascending lo m → Ascending lo (insert k v m)
  Ascending-insert lo k v [] h a = (h, tt)
  Ascending-insert lo k v ((j, w) ∷ m) h a =
      ground (arith, Ascending-insert (suc j) k v m, Ascending-weaken (suc j) (suc k) m)

  pub Ascending-remove : (lo k : ℕ) (m : Map V) → Ascending lo m → Ascending lo (remove k m)
  Ascending-remove lo k [] a = tt
  Ascending-remove lo k ((j, v) ∷ m) a =
      ground (arith, Ascending-remove (suc j) k m a.1, Ascending-weaken (suc j) lo m)

  pub Below-insert : (hi k : ℕ) (v : V) (m : Map V) → k < hi → Below hi m → Below hi (insert k v m)
  Below-insert hi k v [] h b = (h, tt)
  Below-insert hi k v ((j, w) ∷ m) h b = ground (arith, Below-insert hi k v m)

  pub Below-remove : (hi k : ℕ) (m : Map V) → Below hi m → Below hi (remove k m)
  Below-remove hi k [] b = tt
  Below-remove hi k ((j, v) ∷ m) b = ground (arith, Below-remove hi k m b.1)

  pub Below-contains : (hi k : ℕ) (m : Map V) → Below hi m → contains_key k m ≡ true → k < hi
  Below-contains hi k [] b h = absurd (ground arith)
  Below-contains hi k ((j, v) ∷ m) b h = ground (arith, Below-contains hi k m b.1)

  pub length-insert_absent :
      (k : ℕ) (v : V) (m : Map V) → contains_key k m ≡ false → length (insert k v m) ≡ length m + 1
  length-insert_absent k v [] h = refl
  length-insert_absent k v ((j, w) ∷ m) h = ground (arith, length-insert_absent k v m)

  pub length-remove_present :
      (k : ℕ) (m : Map V) → contains_key k m ≡ true → length (remove k m) + 1 ≡ length m
  length-remove_present k [] h = absurd (ground arith)
  length-remove_present k ((j, w) ∷ m) h = ground (arith, length-remove_present k m)

  pub total-insert_absent :
      (f : V → ℕ) (k : ℕ) (v : V) (m : Map V)
      → contains_key k m ≡ false
      → total f (insert k v m) ≡ total f m + f v
  total-insert_absent f k v [] h = omega arith
  total-insert_absent f k v ((j, w) ∷ m) h = ground (arith, total-insert_absent f k v m)

  pub total-remove :
      (f : V → ℕ) (k : ℕ) (v : V) (m : Map V)
      → get k m ≡ some v
      → total f (remove k m) + f v ≡ total f m
  total-remove f k v [] h = absurd (ground arith)
  total-remove f k v ((j, w) ∷ m) h = ground (arith, total-remove f k v m)

module _ {ℓ} {V : Type ℓ} where
  pub length-insert_present :
      (k : ℕ) (v w : V) (m : Map V)
      → Ascending 0 m
      → get k m ≡ some w
      → length (insert k v m) ≡ length m
  length-insert_present k v w m a = from 0 m a
    where
      from :
          (lo : ℕ) (m : Map V)
          → Ascending lo m
          → get k m ≡ some w
          → length (insert k v m) ≡ length m
      from lo [] a h = absurd (ground arith)
      from lo ((j, x) ∷ m) a h = ground (arith, from (suc j) m a.1, get-above (suc j) k m a.1)

  pub total-insert_present :
      (f : V → ℕ) (k : ℕ) (v w : V) (m : Map V)
      → Ascending 0 m
      → get k m ≡ some w
      → total f (insert k v m) + f w ≡ total f m + f v
  total-insert_present f k v w m a = from 0 m a
    where
      from :
          (lo : ℕ) (m : Map V)
          → Ascending lo m
          → get k m ≡ some w
          → total f (insert k v m) + f w ≡ total f m + f v
      from lo [] a h = absurd (ground arith)
      from lo ((j, x) ∷ m) a h = ground (arith, from (suc j) m a.1, get-above (suc j) k m a.1)

-- Membership in a list of keys.
abbrev pub mem : ℕ → List ℕ → Bool
mem t [] = false
mem t (s ∷ ss) = if s == t then true else mem t ss

pub mem-keys {ℓ} : {V : Type ℓ} (t : ℕ) (m : Map V) → mem t (keys m) ≡ contains_key t m
mem-keys t [] = refl
mem-keys t ((j, v) ∷ m) = ground (arith, mem-keys t m)
