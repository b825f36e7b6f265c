-- ===== src/Common/Maps.antt =====
-- Go maps with string keys, as association lists. A write to a present key replaces its value in
-- place, a write to a new key appends.
use Prim.Native.String.{String}
use mathlib.Core.Path.{◌≡◌, refl}
use mathlib.Core.Bool.{Bool, true, false, not, ◌&&◌}
use mathlib.Core.Option.{Option, none, some}
use mathlib.Core.List.{List, [], ◌∷◌}
use native.Mathlib.Omega.{arith}
use text.Mathlib.Text.{◌==◌}
use text.Mathlib.TextEquality.{eq_iff}
use text.Mathlib.TextPositions.{eq_refl}
use mathlib.Core.Logic.{inl, inr}
use tsgonest.Common.Tests.{if◌then◌else◌, if_cases, Bool-cases}
use tsgonest.Common.Lists.{All}

abbrev pub Map {ℓ} : Type ℓ → Type ℓ
Map V = List (String × V)

abbrev pub is_some {ℓ} : {A : Type ℓ} → Option A → Bool
is_some none = false
is_some (some a) = true

module _ {ℓ} {V : Type ℓ} where
  -- `m[key]`.
  unfoldable pub lookup : String → Map V → Option V
  lookup key [] = none
  lookup key ((name, value) ∷ more) =
      let found = lookup key more in if name == key then some value else found

  -- `m[key] = value`.
  unfoldable pub insert : String → V → Map V → Map V
  insert key value [] = (key, value) ∷ []
  insert key value ((name, old) ∷ more) =
      let kept = (name, old) ∷ insert key value more in
      if name == key then (name, value) ∷ more else kept

  -- `_, ok := m[k]`.
  abbrev pub has : String → Map V → Bool
  has k m = is_some (lookup k m)

  -- A read after a write finds what was written, or what was there.
  pub lookup-insert :
      (written read : String) (value : V) (m : Map V)
      → lookup read (insert written value m)
        ≡ (if written == read then some value else lookup read m)
  unfolding lookup insert
  lookup-insert written read value [] = refl
  lookup-insert written read value ((name, old) ∷ more) =
      let tail = lookup-insert written read value more in
      ground (arith, tail, eq_iff name written, eq_iff name read, eq_iff written read)

  pub lookup-insert_self : (k : String) (v : V) (m : Map V) → lookup k (insert k v m) ≡ some v
  lookup-insert_self k v m = simp (lookup-insert, eq_refl)

  pub has-insert :
      (k j : String) (v : V) (m : Map V) → has j (insert k v m) ≡ (if k == j then true else has j m)
  has-insert k j v m = ground (arith, lookup-insert k j v m)

  pub has-insert_self : (k : String) (v : V) (m : Map V) → has k (insert k v m) ≡ true
  has-insert_self k v m = simp (lookup-insert_self)

  -- A present key stays present.
  pub has-insert_mono :
      (k j : String) (v : V) (m : Map V) → has j m ≡ true → has j (insert k v m) ≡ true
  has-insert_mono k j v m h = ground (arith, has-insert k j v m)

  -- A predicate on every stored value.
  abbrev pub Values {κ} : (V → Type κ) → Map V → Type κ
  Values P m = All (λ e. P e.1) m

  pub Values-insert {κ} :
      (P : V → Type κ) (k : String) (v : V) (m : Map V) → P v → Values P m → Values P (insert k v m)
  unfolding insert
  Values-insert P k v [] p h = (p, tt)
  Values-insert P k v ((j, w) ∷ m) p (q, h) =
      elim (j == k) as (λ b. Values P (if b then (j, v) ∷ m else (j, w) ∷ insert k v m)) [
        | true ↦ (p, h)
        | false ↦ (q, Values-insert P k v m p h)
      ]

  pub Values-lookup {κ} :
      (P : V → Type κ) (k : String) (m : Map V) (v : V) → Values P m → lookup k m ≡ some v → P v
  unfolding lookup
  Values-lookup P k [] v _ e = absurd (ground arith)
  Values-lookup P k ((j, w) ∷ m) v (p, h) e = ground (arith, Values-lookup P k m v h)

  -- No key stands twice.
  abbrev pub Distinct : Map V → Type 0
  Distinct [] = Unit
  Distinct ((name, value) ∷ more) = (has name more ≡ false) × Distinct more

  pub insert-Distinct :
      (key : String) (value : V) (m : Map V) → Distinct m → Distinct (insert key value m)
  unfolding insert lookup
  insert-Distinct key value [] d = (refl, tt)
  insert-Distinct key value ((name, old) ∷ more) (h, d) = elim (Bool-cases (name == key)) [
    | inl e ↦ rw e (h, d)
    | inr e ↦
        let other : has name (insert key value more) ≡ false =
          ground (arith, has-insert key name value more, eq_iff name key, eq_iff key name) in
        rw e (other, insert-Distinct key value more d)
  ]

  -- `delete(m, key)`.
  unfoldable pub delete : String → Map V → Map V
  delete key [] = []
  delete key ((name, value) ∷ more) =
      let rest = delete key more in if name == key then rest else (name, value) ∷ rest

  pub has-delete :
      (key read : String) (m : Map V) → has read (delete key m) ≡ (has read m && not (key == read))
  unfolding delete lookup
  has-delete key read [] = refl
  has-delete key read ((name, value) ∷ more) =
      ground (arith, has-delete key read more, eq_iff name key, eq_iff name read, eq_iff key read)

  pub Values-delete {κ} :
      (P : V → Type κ) (key : String) (m : Map V) → Values P m → Values P (delete key m)
  unfolding delete
  Values-delete P key [] h = tt
  Values-delete P key ((name, value) ∷ more) (h, k) =
      let rest = Values-delete P key more k in
      if_cases (Values P) (name == key) _ _ (λ _. rest) (λ _. (h, rest))

  pub lookup-delete :
      (key read : String) (m : Map V)
      → lookup read (delete key m) ≡ (if key == read then none else lookup read m)
  unfolding delete lookup
  lookup-delete key read [] = ground arith
  lookup-delete key read ((name, value) ∷ more) =
      ground
        (arith, lookup-delete key read more, eq_iff name key, eq_iff name read, eq_iff key read)
