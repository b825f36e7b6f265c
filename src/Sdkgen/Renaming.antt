-- ===== src/Sdkgen/Renaming.antt =====
-- internal/sdkgen/shared.go, renameBuiltinCollisions: the schemas and their references afterwards.
use mathlib.Core.Path.{subst}
use tsgonest.Common.{
  String, ◌≡◌, ◌∙◌, refl, ap, true, false, Option, none, some, [], ◌∷◌, ◌==◌, eq_iff, arith, inl,
  inr, Bool-cases,
}
use tsgonest.Common.Maps.{
  Map, lookup, has, insert, delete, Values, Values-insert, Values-lookup, Values-delete,
}
use tsgonest.Sdkgen.Nodes.{
  Node, is_builtin, safe_ts_name, or_same, renamed, rename_schema_refs, collisions, move, move_all,
  rename_values, rename_builtin_collisions,
}
use tsgonest.Sdkgen.Refs.{RefsOk, rename_schema_refs-RefsOk}
use tsgonest.Sdkgen.Fresh.{safe_ts_name-fresh, collisions-Renames, is_none, has-Renames, differ}
use tsgonest.Sdkgen.Moves.{has-move_all, builtin-move_all}

has-collisions :
    (name : String) (schemas : Map Node)
    → is_builtin name ≡ true
    → has name (collisions schemas) ≡ has name schemas
unfolding collisions lookup
has-collisions name [] b = refl
has-collisions name ((key, n) ∷ more) b = elim (Bool-cases (safe_ts_name key == key)) [
  | inl q ↦
      let other : is_builtin key ≡ false =
        subst (λ k. is_builtin k ≡ false) ((eq_iff (safe_ts_name key) key).0 q)
          (safe_ts_name-fresh key) in
      ground (
        arith,
        q,
        has-collisions name more b,
        differ name key b other,
        eq_iff key name,
        eq_iff name key,
      )
  | inr q ↦ ground (arith, q, has-collisions name more b)
]

has-rename_values :
    (rs : Map String) (name : String) (schemas : Map Node)
    → has name (rename_values rs schemas) ≡ has name schemas
unfolding rename_values lookup
has-rename_values rs name [] = refl
has-rename_values rs name ((key, n) ∷ more) = ground (arith, has-rename_values rs name more)

rename_values-Values :
    (rs : Map String) (P Q : Node → Type 0) (schemas : Map Node)
    → ((n : Node) → P n → Q (rename_schema_refs rs n))
    → Values P schemas
    → Values Q (rename_values rs schemas)
unfolding rename_values
rename_values-Values rs P Q [] f h = tt
rename_values-Values rs P Q ((key, n) ∷ more) f (h, k) =
    (f n h, rename_values-Values rs P Q more f k)

move-Values :
    (P : Node → Type 0) (old new : String) (schemas : Map Node)
    → Values P schemas
    → Values P (move old new schemas)
unfolding move
move-Values P old new schemas h = moved (lookup old schemas) refl
  where
    moved :
        (o : Option Node)
        → lookup old schemas ≡ o
        → Values P (elim o as (λ _. Map Node) [
          | none ↦ schemas
          | some n ↦ delete old (insert new n schemas)
        ])
    moved none e = h
    moved (some n) e =
        Values-delete P old (insert new n schemas)
          (Values-insert P new n schemas (Values-lookup P old schemas n h e) h)

move_all-Values :
    (P : Node → Type 0) (rs : Map String) (schemas : Map Node)
    → Values P schemas
    → Values P (move_all rs schemas)
unfolding move_all
move_all-Values P [] schemas h = h
move_all-Values P ((old, new) ∷ rs) schemas h =
    move_all-Values P rs (move old new schemas) (move-Values P old new schemas h)

abbrev pub Named : Map Node → String → Type 0
Named schemas name = has name schemas ≡ true

-- If every reference in the schemas names one of them, the same holds after
-- renameBuiltinCollisions.
pub rename_builtin_collisions-RefsOk :
    (schemas : Map Node)
    → Values (RefsOk (Named schemas)) schemas
    → Values
        (RefsOk (Named (rename_builtin_collisions schemas)))
        (rename_builtin_collisions schemas)
unfolding rename_builtin_collisions is_builtin
rename_builtin_collisions-RefsOk schemas h =
    let rs = collisions schemas in
    let moved = move_all rs schemas in
    let renames = collisions-Renames schemas in
    rename_values-Values rs (RefsOk (Named schemas))
      (RefsOk (Named (rename_builtin_collisions schemas))) moved
      (rename_schema_refs-RefsOk rs (Named schemas) (Named (rename_builtin_collisions schemas))
        (ap (or_same "") (is_none _ (has-Renames "" rs renames refl)))
        (λ name k.
          has-rename_values rs (renamed rs name) moved ∙ has-move_all rs name schemas renames k))
      (move_all-Values (RefsOk (Named schemas)) rs schemas h)

-- After renameBuiltinCollisions no schema has a name of TypeScript's own.
pub has-rename_builtin_collisions :
    (schemas : Map Node) (name : String)
    → is_builtin name ≡ true
    → has name (rename_builtin_collisions schemas) ≡ false
unfolding rename_builtin_collisions
has-rename_builtin_collisions schemas name b =
    has-rename_values (collisions schemas) name (move_all (collisions schemas) schemas)
    ∙ builtin-move_all (collisions schemas) name schemas (collisions-Renames schemas) b
        (elim (Bool-cases (has name schemas)) [
          | inl e ↦ inl (has-collisions name schemas b ∙ e)
          | inr e ↦ inr e
        ])
