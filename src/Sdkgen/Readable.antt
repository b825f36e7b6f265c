-- ===== src/Sdkgen/Readable.antt =====
-- internal/sdkgen/schema2ts.go: what TypeScript reads in the text of SchemaToTS.
pub mod Schemas
pub mod Nullable
use Prim.Native.String
use Prim.Native.Char.{Char}
use text.Mathlib.TextLemmas.{append-nil, cons-append, nil-append, append_assoc}
use mathlib.Core.Path.{subst}
use tsgonest.Common.{
  ℕ, zero, suc, String, Bool, true, false, not, ◌&&◌, ◌||◌, Option, List, [], ◌∷◌, ◌≡◌, ◌==◌, refl,
  sym, ◌∙◌, ap, arith, if◌then◌else◌, inl, inr, nat_eq, eq_iff,
}
use tsgonest.Common.Tests.{Bool-cases, if_cases}
use tsgonest.Common.Lists.{any, is_empty, All}
use tsgonest.Common.Texts.{◌<>◌, has_prefix, join}
use tsgonest.Metadata.{Float64, Value}
use tsgonest.Sdkgen.Literals.{is_identifier}
use tsgonest.Sdkgen.Types.{
  Format, Branch, branch, reference, enumeration, constant, any_of, one_of, all_of, blob, string,
  number, boolean, null, array, map, inline, open_object, unknown, is_null_text, const_to_ts,
  consts_to_ts, enum_to_ts_union, optional_mark, schema_to_ts, nodes_to_ts, fields_to_ts,
  pointer_to_ts, kept, grouped, composition_to_ts, array_to_ts, has_part, branch_to_ts, field_to_ts,
}
use tsgonest.Sdkgen.Nodes.{Node, NodeFacts, NodeFields, NodePointer, Nodes}
use tsgonest.Sdkgen.Grammar.{
  TsType, TsTypes, TsFields, named, literal, union, intersection, list_of, record_of, object,
  no_type, type_and, no_member, member, text_literal, number_literal, true_literal, false_literal,
  null_literal, Level, primary, wide, Reads, ReadsAll, ReadsFields, a_name, group, list,
  record_type, inline_object, loosely, either, both, none_left, and_reads, no_more,
}
use tsgonest.Sdkgen.TypeOf.{
  IsConstant, is_null, level, from_list, kept_of, one_or, or_null, composed, single, composed_wide,
  literals, many, branch_type, branch_wide, type_of, fields_of, pointer_type, types_of, is_wide,
  are_wide, pointer_wide, AllTight, IsBranchClear, IsClear, AreFieldsClear, IsPointerClear,
  AreClear,
}

has_prefix-append : (p s : String) → has_prefix p (p <> s) ≡ true
unfolding has_prefix
has_prefix-append String.[] s = refl
has_prefix-append (String.◌∷◌ c p) s = rw cons-append (ground (arith, has_prefix-append p s))

has_part_here : (p s : String) → has_prefix p s ≡ true → has_part p s ≡ true
unfolding has_part
has_part_here p String.[] e = e
has_part_here p (String.◌∷◌ c s) e = rw e

has_part_later :
    (p : String) (c : Char) (s : String) → has_part p s ≡ true → has_part p (String.◌∷◌ c s) ≡ true
unfolding has_part
has_part_later p c s e = ground (arith, e)

has_part-append : (p s t : String) → has_part p (s <> (p <> t)) ≡ true
has_part-append p String.[] t = rw nil-append (has_part_here p (p <> t) (has_prefix-append p t))
has_part-append p (String.◌∷◌ c s) t =
    rw cons-append (has_part_later p c (s <> (p <> t)) (has_part-append p s t))

has_part-end : (p s : String) → has_part p (s <> p) ≡ true
has_part-end p s =
    subst (λ t. has_part p (s <> t) ≡ true) (append-nil p) (has_part-append p s String.[])

-- A text that holds what null does not hold is not null.
pub not_null :
    (p s : String) → has_part p s ≡ true → has_part p "null" ≡ false → is_null_text s ≡ false
not_null p s e n = elim (Bool-cases (s == "null")) [
  | inr f ↦ f
  | inl y ↦ absurd (ground (arith, n, subst (λ t. has_part p t ≡ true) ((eq_iff s "null").0 y) e))
]

opened_not_null : (s : String) → is_null_text ("(" <> s) ≡ false
unfolding has_part has_prefix
opened_not_null s =
    not_null "(" ("(" <> s) (has_part_here "(" ("(" <> s) (has_prefix-append "(" s)) refl

pub record_not_null : (s : String) → is_null_text ("Record<string, " <> s) ≡ false
unfolding has_part has_prefix
record_not_null s =
    not_null "Record<string, " ("Record<string, " <> s)
      (has_part_here "Record<string, " ("Record<string, " <> s)
        (has_prefix-append "Record<string, " s))
      refl

pub object_not_null : (s : String) → is_null_text ("{ " <> s) ≡ false
unfolding has_part has_prefix
object_not_null s =
    not_null "{ " ("{ " <> s) (has_part_here "{ " ("{ " <> s) (has_prefix-append "{ " s)) refl

quoted_not_null : (s : String) → is_null_text ("\"" <> s) ≡ false
unfolding has_part has_prefix
quoted_not_null s =
    not_null "\"" ("\"" <> s) (has_part_here "\"" ("\"" <> s) (has_prefix-append "\"" s)) refl

barred_not_null : (s t : String) → is_null_text (s <> (" | " <> t)) ≡ false
unfolding has_part has_prefix
barred_not_null s t = not_null " | " (s <> (" | " <> t)) (has_part-append " | " s t) refl

listed_not_null : (s : String) → is_null_text (s <> "[]") ≡ false
unfolding has_part has_prefix
listed_not_null s = not_null "[]" (s <> "[]") (has_part-end "[]" s) refl

null_name : is_identifier "null" ≡ true
unfolding is_identifier
null_name = refl

wrapped : (s : String) → ("(" <> (s <> ")")) <> "[]" ≡ "(" <> (s <> ")[]")
wrapped s = rw (append_assoc, append_assoc) refl

module _ (format : Format) (numeral : String → Option Float64) where
  pub widen :
      (w : Bool) (s : String) (t : TsType) → Reads numeral (level w) s t → Reads numeral wide s t
  widen true s t r = r
  widen false s t r = loosely r

  -- A text that stands for a type, holds a bar if it binds like a union, and is null just when the type
  -- is.
  abbrev pub TextPart : String → Bool → TsType → Type 0
  TextPart s w t =
      Reads numeral (level w) s t
      × (w ≡ true → has_part " | " s ≡ true)
      × (is_null_text s ≡ is_null t)

  abbrev pub TextParts : List String → List Bool → List TsType → Type 0
  TextParts [] [] [] = Unit
  TextParts (s ∷ ss) (w ∷ ws) (t ∷ ts) = TextPart s w t × TextParts ss ws ts
  TextParts ss ws ts = ⊥

  TextParts-kept :
      (ss : List String) (ws : List Bool) (ts : List TsType)
      → TextParts ss ws ts
      → TextParts (kept ss) (kept_of ts ws) (kept_of ts ts)
  unfolding kept
  TextParts-kept [] [] [] p = tt
  TextParts-kept [] [] (t ∷ ts) p = elim p [ ]
  TextParts-kept [] (w ∷ ws) ts p = elim p [ ]
  TextParts-kept (s ∷ ss) [] ts p = elim p [ ]
  TextParts-kept (s ∷ ss) (w ∷ ws) [] p = elim p [ ]
  TextParts-kept (s ∷ ss) (w ∷ ws) (t ∷ ts) (p, ps) = elim (Bool-cases (is_null t)) [
    | inl e ↦ rw (p.2, e) (TextParts-kept ss ws ts ps)
    | inr e ↦ rw (p.2, e) (p, TextParts-kept ss ws ts ps)
  ]

  any-is_null :
      (ss : List String) (ws : List Bool) (ts : List TsType)
      → TextParts ss ws ts
      → any is_null_text ss ≡ any is_null ts
  any-is_null [] [] [] p = refl
  any-is_null [] [] (t ∷ ts) p = elim p [ ]
  any-is_null [] (w ∷ ws) ts p = elim p [ ]
  any-is_null (s ∷ ss) [] ts p = elim p [ ]
  any-is_null (s ∷ ss) (w ∷ ws) [] p = elim p [ ]
  any-is_null (s ∷ ss) (w ∷ ws) (t ∷ ts) (p, ps) = rw (p.2, any-is_null ss ws ts ps) refl

  TextParts-is_empty :
      (ss : List String) (ws : List Bool) (ts : List TsType)
      → TextParts ss ws ts
      → is_empty ss ≡ is_empty ts
  TextParts-is_empty [] [] [] p = refl
  TextParts-is_empty [] [] (t ∷ ts) p = elim p [ ]
  TextParts-is_empty [] (w ∷ ws) ts p = elim p [ ]
  TextParts-is_empty (s ∷ ss) [] ts p = elim p [ ]
  TextParts-is_empty (s ∷ ss) (w ∷ ws) [] p = elim p [ ]
  TextParts-is_empty (s ∷ ss) (w ∷ ws) (t ∷ ts) p = refl

  ReadsAll-wide :
      (ss : List String) (ws : List Bool) (ts : List TsType)
      → TextParts ss ws ts
      → ReadsAll numeral wide ss (from_list ts)
  ReadsAll-wide [] [] [] p = none_left
  ReadsAll-wide [] [] (t ∷ ts) p = elim p [ ]
  ReadsAll-wide [] (w ∷ ws) ts p = elim p [ ]
  ReadsAll-wide (s ∷ ss) [] ts p = elim p [ ]
  ReadsAll-wide (s ∷ ss) (w ∷ ws) [] p = elim p [ ]
  ReadsAll-wide (s ∷ ss) (w ∷ ws) (t ∷ ts) (p, ps) =
      and_reads (widen w s t p.0) (ReadsAll-wide ss ws ts ps)

  ReadsAll-primary :
      (ss : List String) (ws : List Bool) (ts : List TsType)
      → TextParts ss ws ts
      → All (λ x. x ≡ false) ws
      → ReadsAll numeral primary ss (from_list ts)
  ReadsAll-primary [] [] [] p a = none_left
  ReadsAll-primary [] [] (t ∷ ts) p a = elim p [ ]
  ReadsAll-primary [] (w ∷ ws) ts p a = elim p [ ]
  ReadsAll-primary (s ∷ ss) [] ts p a = elim p [ ]
  ReadsAll-primary (s ∷ ss) (w ∷ ws) [] p a = elim p [ ]
  ReadsAll-primary (s ∷ ss) (w ∷ ws) (t ∷ ts) (p, ps) (e, a) =
      and_reads (rw e at p.0) (ReadsAll-primary ss ws ts ps a)

  -- The parts of a union, in parentheses if there are several.
  grouped_union :
      (ss : List String) (ws : List Bool) (ts : List TsType)
      → TextParts ss ws ts
      → is_empty ss ≡ false
      → TextPart (grouped " | " ss) (single ws) (one_or union ts)
  grouped_union [] ws ts p e = absurd (ground arith)
  grouped_union (s ∷ []) [] ts p e = elim p [ ]
  grouped_union (s ∷ []) (w ∷ ws) [] p e = elim p [ ]
  grouped_union (s ∷ []) (w ∷ []) (t ∷ []) p e = p.0
  grouped_union (s ∷ []) (w ∷ []) (t ∷ u ∷ ts) p e = elim p.1 [ ]
  grouped_union (s ∷ []) (w ∷ v ∷ ws) (t ∷ ts) p e = elim p.1 [ ]
  grouped_union (s ∷ s' ∷ ss) [] ts p e = elim p [ ]
  grouped_union (s ∷ s' ∷ ss) (w ∷ ws) [] p e = elim p [ ]
  grouped_union (s ∷ s' ∷ ss) (w ∷ []) (t ∷ ts) p e = elim p.1 [ ]
  grouped_union (s ∷ s' ∷ ss) (w ∷ v ∷ ws) (t ∷ []) p e = elim p.1 [ ]
  grouped_union (s ∷ s' ∷ ss) (w ∷ v ∷ ws) (t ∷ u ∷ ts) p e = (
    group (either (ReadsAll-wide (s ∷ s' ∷ ss) (w ∷ v ∷ ws) (t ∷ u ∷ ts) p)),
    λ f. absurd (ground (arith, f)),
    opened_not_null (join " | " (s ∷ s' ∷ ss) <> ")"),
  )

  grouped_intersection :
      (ss : List String) (ws : List Bool) (ts : List TsType)
      → TextParts ss ws ts
      → is_empty ss ≡ false
      → AllTight ws
      → TextPart (grouped " & " ss) (single ws) (one_or intersection ts)
  grouped_intersection [] ws ts p e k = absurd (ground arith)
  grouped_intersection (s ∷ []) [] ts p e k = elim p [ ]
  grouped_intersection (s ∷ []) (w ∷ ws) [] p e k = elim p [ ]
  grouped_intersection (s ∷ []) (w ∷ []) (t ∷ []) p e k = p.0
  grouped_intersection (s ∷ []) (w ∷ []) (t ∷ u ∷ ts) p e k = elim p.1 [ ]
  grouped_intersection (s ∷ []) (w ∷ v ∷ ws) (t ∷ ts) p e k = elim p.1 [ ]
  grouped_intersection (s ∷ s' ∷ ss) [] ts p e k = elim p [ ]
  grouped_intersection (s ∷ s' ∷ ss) (w ∷ ws) [] p e k = elim p [ ]
  grouped_intersection (s ∷ s' ∷ ss) (w ∷ []) (t ∷ ts) p e k = elim p.1 [ ]
  grouped_intersection (s ∷ s' ∷ ss) (w ∷ v ∷ ws) (t ∷ []) p e k = elim p.1 [ ]
  grouped_intersection (s ∷ s' ∷ ss) (w ∷ v ∷ ws) (t ∷ u ∷ ts) p e k = (
    group (both (ReadsAll-primary (s ∷ s' ∷ ss) (w ∷ v ∷ ws) (t ∷ u ∷ ts) p k)),
    λ f. absurd (ground (arith, f)),
    opened_not_null (join " & " (s ∷ s' ∷ ss) <> ")"),
  )

  -- `| null` behind a text.
  null_behind :
      (b w : Bool) (s : String) (t : TsType)
      → TextPart s w t
      → TextPart (if b then s <> " | null" else s) (b || w) (or_null b t)
  unfolding join
  null_behind false w s t p = p
  null_behind true w s t p = (
    either (and_reads (widen w s t p.0) (and_reads (loosely (a_name "null" null_name)) none_left)),
    λ _. has_part-append " | " s "null",
    barred_not_null s "null",
  )

  pub union_part :
      (ss : List String) (ws : List Bool) (ts : List TsType)
      → TextParts ss ws ts
      → is_empty (kept_of ts ts) ≡ false
      → TextPart (composition_to_ts " | " ss) (composed_wide ts ws) (composed union ts)
  unfolding composition_to_ts
  union_part ss ws ts p e =
      let parts = TextParts-kept ss ws ts p in
      let some_left = TextParts-is_empty (kept ss) (kept_of ts ws) (kept_of ts ts) parts ∙ e in
      rw (any-is_null ss ws ts p) (
        null_behind (any is_null ts) (single (kept_of ts ws)) _ _
          (grouped_union (kept ss) (kept_of ts ws) (kept_of ts ts) parts some_left))

  pub intersection_part :
      (ss : List String) (ws : List Bool) (ts : List TsType)
      → TextParts ss ws ts
      → is_empty (kept_of ts ts) ≡ false
      → AllTight (kept_of ts ws)
      → TextPart (composition_to_ts " & " ss) (composed_wide ts ws) (composed intersection ts)
  unfolding composition_to_ts
  intersection_part ss ws ts p e k =
      let parts = TextParts-kept ss ws ts p in
      let some_left = TextParts-is_empty (kept ss) (kept_of ts ws) (kept_of ts ts) parts ∙ e in
      rw (any-is_null ss ws ts p) (
        null_behind (any is_null ts) (single (kept_of ts ws)) _ _
          (grouped_intersection (kept ss) (kept_of ts ws) (kept_of ts ts) parts some_left k))

  -- A constant is read as itself.
  pub constant_part :
      (w : Value) → IsConstant format numeral w → TextPart (const_to_ts format w) false (literal w)
  unfolding const_to_ts
  constant_part (Value.text s) c = (
    text_literal (format.escaped s) s c,
    λ f. absurd (ground (arith, f)),
    quoted_not_null (format.escaped s <> "\""),
  )
  constant_part (Value.number x) c =
      (number_literal (format.shown x) x c.0, λ f. absurd (ground (arith, f)), c.1)
  constant_part (Value.boolean true) c = (true_literal, λ f. absurd (ground (arith, f)), refl)
  constant_part (Value.boolean false) c = (false_literal, λ f. absurd (ground (arith, f)), refl)
  constant_part Value.nil c = (null_literal, λ f. absurd (ground (arith, f)), refl)

  literals_read :
      (ws : List Value)
      → All (IsConstant format numeral) ws
      → ReadsAll numeral wide (consts_to_ts format ws) (from_list (literals ws))
  unfolding consts_to_ts
  literals_read [] a = none_left
  literals_read (w ∷ ws) (c, a) = and_reads (loosely (constant_part w c).0) (literals_read ws a)

  pub enum_part :
      (ws : List Value)
      → All (IsConstant format numeral) ws
      → is_empty ws ≡ false
      → TextPart (enum_to_ts_union format ws) (many ws) (one_or union (literals ws))
  unfolding enum_to_ts_union join
  enum_part [] a e = absurd (ground arith)
  enum_part (w ∷ []) a e = constant_part w a.0
  enum_part (w ∷ v ∷ ws) a e = (
    either (literals_read (w ∷ v ∷ ws) a),
    λ _. has_part-append " | " (const_to_ts format w) _,
    barred_not_null (const_to_ts format w) (join " | " (consts_to_ts format (v ∷ ws))),
  )

  -- An array, in parentheses around an item that binds like a union.
  pub array_part :
      (w : Bool) (s : String) (t : TsType)
      → TextPart s w t
      → (w ≡ true → has_prefix "(" s ≡ false)
      → TextPart (array_to_ts s) false (list_of t)
  unfolding array_to_ts
  array_part w s t p k =
      elim (Bool-cases ((has_part " | " s || has_part " & " s) && not (has_prefix "(" s))) [
        | inl e ↦ rw e (
          rw (wrapped s) at (list (group (widen w s t p.0))),
          λ f. absurd (ground (arith, f)),
          opened_not_null (s <> ")[]"),
        )
        | inr e ↦ elim (Bool-cases w) [
          | inl t ↦ absurd (ground (arith, k t, p.1 t, e))
          | inr f ↦ rw e (list (rw f at p.0), λ g. absurd (ground (arith, g)), listed_not_null s)
        ]
      ]
