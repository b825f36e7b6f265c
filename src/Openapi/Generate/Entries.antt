-- ===== src/Openapi/Generate/Entries.antt =====
-- Maps whose values answer to their keys.
use tsgonest.Common.{
  String, ◌≡◌, refl, Bool, true, false, some, [], ◌∷◌, ◌==◌, eq_iff, arith, Bool-cases, inl, inr,
  if◌then◌else◌,
}
use mathlib.Core.Path.{subst}
use tsgonest.Common.Lists.{All}
use tsgonest.Common.Maps.{Map, insert, lookup}

module _ {ℓ} {V : Type ℓ} where
  abbrev pub Entries {κ} : (String → V → Type κ) → Map V → Type κ
  Entries P m = All (λ e. P e.0 e.1) m

  Entries-choice {κ} :
      (P : String → V → Type κ) (k j : String) (v w : V) (m n : Map V) (b : Bool)
      → (j == k) ≡ b
      → P k v
      → P j w
      → Entries P m
      → Entries P n
      → Entries P (if b then (j, v) ∷ m else (j, w) ∷ n)
  Entries-choice P k j v w m n true e p q h k' = (rw ((eq_iff j k).0 e) p, h)
  Entries-choice P k j v w m n false e p q h k' = (q, k')

  pub Entries-insert {κ} :
      (P : String → V → Type κ) (k : String) (v : V) (m : Map V)
      → P k v
      → Entries P m
      → Entries P (insert k v m)
  unfolding insert
  Entries-insert P k v [] p h = (p, tt)
  Entries-insert P k v ((j, w) ∷ m) p (q, h) =
      Entries-choice P k j v w m (insert k v m) (j == k) refl p q h (Entries-insert P k v m p h)

  pub Entries-lookup {κ} :
      (P : String → V → Type κ) (k : String) (m : Map V) (v : V)
      → Entries P m
      → lookup k m ≡ some v
      → P k v
  unfolding lookup
  Entries-lookup P k [] v _ e = absurd (ground arith)
  Entries-lookup P k ((j, w) ∷ m) v (p, h) e = elim (Bool-cases (j == k)) [
    | inl same ↦
        let found : w ≡ v = ground arith in subst (P k) found (rw (← (eq_iff j k).0 same) p)
    | inr other ↦ Entries-lookup P k m v h (ground arith)
  ]
