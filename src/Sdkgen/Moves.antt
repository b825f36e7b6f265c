-- ===== src/Sdkgen/Moves.antt =====
-- internal/sdkgen/shared.go, renameBuiltinCollisions: the keys of the schemas.
use text.Mathlib.TextPositions.{eq_refl}
use mathlib.Core.Path.{subst}
use tsgonest.Common.{
  String, ◌≡◌, ◌∙◌, refl, sym, ap, true, false, not, ◌&&◌, ◌||◌, none, [], ◌∷◌, ◌==◌, eq_iff, arith,
  inl, inr, ◌⊎◌, Bool-cases, Option-cases,
}
use tsgonest.Common.Maps.{Map, lookup, is_some, has, insert, delete, has-insert, has-delete}
use tsgonest.Sdkgen.Nodes.{Node, is_builtin, or_same, renamed, move, move_all}
use tsgonest.Sdkgen.Fresh.{is_none, has-Renames, differ, Renames}

has-move :
    (old new read : String) (schemas : Map Node)
    → has read (move old new schemas) ≡ (
        has read schemas && not (has old schemas && old == read)
        || (has old schemas && (new == read && not (old == read))))
unfolding move
has-move old new read schemas = elim (Option-cases (lookup old schemas)) [
  | inl e ↦ rw e (ground arith)
  | inr (n, e) ↦
      let moved : move old new schemas ≡ delete old (insert new n schemas) = rw (move, e) refl in
      ground (
        arith,
        ap (has read) moved,
        has-delete old read (insert new n schemas),
        has-insert new read n schemas,
        ap is_some e,
      )
]

pub has-move_all :
    (rs : Map String) (name : String) (schemas : Map Node)
    → Renames rs
    → has name schemas ≡ true
    → has (renamed rs name) (move_all rs schemas) ≡ true
unfolding move_all lookup
has-move_all [] name schemas h k = k
has-move_all ((old, new) ∷ rs) name schemas ((b, f), h) k = elim (Bool-cases (old == name)) [
  | inl q ↦
      let there : has old schemas ≡ true =
        subst (λ n. has n schemas ≡ true) (sym ((eq_iff old name).0 q)) k in
      let stays : lookup new rs ≡ none = is_none _ (has-Renames new rs h f) in
      let moved =
        has-move_all rs new (move old new schemas) h
          (has-move old new new schemas ∙ ground (arith, differ old new b f, eq_refl new)) in
      rw q
        (subst (λ o. has (or_same new o) (move_all rs (move old new schemas)) ≡ true) stays moved)
  | inr q ↦
      rw q (
        has-move_all rs name (move old new schemas) h
          (has-move old new name schemas ∙ ground arith))
]

-- The names of TypeScript's own that are renamed are gone.
pub builtin-move_all :
    (rs : Map String) (name : String) (schemas : Map Node)
    → Renames rs
    → is_builtin name ≡ true
    → (has name rs ≡ true) ⊎ (has name schemas ≡ false)
    → has name (move_all rs schemas) ≡ false
unfolding move_all lookup
builtin-move_all [] name schemas h b (inl e) = absurd (ground arith)
builtin-move_all [] name schemas h b (inr e) = e
builtin-move_all ((old, new) ∷ rs) name schemas ((b', f), h) b e =
    let moved = has-move old new name schemas in
    let apart = differ name new b f in
    elim (Bool-cases (old == name)) [
      | inl q ↦
          let same : has old schemas ≡ has name schemas =
            ap (λ n. has n schemas) ((eq_iff old name).0 q) in
          builtin-move_all rs name (move old new schemas) h b (inr (moved ∙ ground (arith, same)))
      | inr q ↦ elim e [
        | inl t ↦ builtin-move_all rs name (move old new schemas) h b (inl (ground arith))
        | inr t ↦
            builtin-move_all rs name (move old new schemas) h b
              (inr (moved ∙ ground (arith, eq_iff new name, eq_iff name new)))
      ]
    ]
