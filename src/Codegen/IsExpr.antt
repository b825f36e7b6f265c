-- ===== src/Codegen/IsExpr.antt =====
-- internal/codegen/validate_is.go: the boolean expression that tests a value against a type. The
-- source copies the metadata with its flags cleared before it tests the rest; here `nullish` wraps
-- the expression of the rest. A map is listed in the order of its keys.
use tsgonest.Common.{
  ℕ, zero, suc, ◌+◌, String, Bool, true, false, not, ◌&&◌, Option, none, some, List, [], ◌∷◌, ◌==◌,
  if◌then◌else◌,
}
use tsgonest.Common.Lists.{any}
use tsgonest.Common.Maps.{Map, lookup}
use tsgonest.Metadata.{
  Metadata, Facts, Kind, facts, PropertyFacts, Properties, Pointer, Elements, Members, Constraints,
  Discriminant, EnumValue, TypeRegistry, ℤ, pos, negsuc, is_kind,
}
use tsgonest.Codegen.Names.{escape_for_regex_literal}
use tsgonest.Codegen.Formats.{format_regexes, format_flags}
use tsgonest.Codegen.Expr.{
  Accessor, variable, property, element, Test, Expr, always, never, check, every, call, both,
  either, group, switch, unfinished, Exprs, no_expr, and_expr, Cases, otherwise_false, case,
}

-- `(a === null || a === undefined || e)`, as far as the flags ask for it.
unfoldable pub nullish : Facts → Accessor → Expr → Expr
nullish f a e =
    if f.nullable && f.optional
    then group (
        either
          (and_expr (check Test.null a) (and_expr (check Test.undefined a) (and_expr e no_expr))))
    else if f.nullable
    then group (either (and_expr (check Test.null a) (and_expr e no_expr)))
    else if f.optional
    then group (either (and_expr (check Test.undefined a) (and_expr e no_expr)))
    else e

-- `generateIsAtomicExpr`.
unfoldable pub template_test : Facts → Accessor → Exprs
template_test f a =
    if f.template_pattern == ""
    then no_expr
    else and_expr (check (Test.matches_regex (escape_for_regex_literal f.template_pattern) "") a)
        no_expr

unfoldable pub generate_is_atomic_expr : Accessor → Facts → Expr
unfolding template_test
generate_is_atomic_expr a f =
    if f.atomic == "string"
    then both (and_expr (check (Test.is_type "string") a) (template_test f a))
    else if f.atomic == "number"
    then both (and_expr (check (Test.is_type "number") a) (and_expr (check Test.finite a) no_expr))
    else if f.atomic == "boolean"
    then both (and_expr (check (Test.is_type "boolean") a) no_expr)
    else if f.atomic == "bigint"
    then both (and_expr (check (Test.is_type "bigint") a) no_expr)
    else always

-- `(typeof a !== "type" || a ⋯)`, in front of the tests that follow.
abbrev pub unless_type : String → Accessor → Test → Exprs → Exprs
unless_type t a test more =
    and_expr
      (group (either (and_expr (check (Test.is_not_type t) a) (and_expr (check test a) no_expr))))
      more

abbrev pub when_set {ℓ} : {A : Type ℓ} → Option A → (A → Exprs → Exprs) → Exprs → Exprs
when_set none f more = more
when_set (some x) f more = f x more

abbrev pub text_or_empty : Option String → String
text_or_empty none = ""
text_or_empty (some s) = s

unfoldable pub format_test : String → Accessor → Exprs → Exprs
format_test name a more = elim (lookup name format_regexes) [
  | none ↦ more
  | some pattern ↦
      if pattern == ""
      then more
      else unless_type "string" a
          (Test.matches_regex pattern (text_or_empty (lookup name format_flags))) more
]

-- `generateIsConstraintExprs`, in front of the tests that follow.
unfoldable pub generate_is_constraint_exprs : Accessor → Constraints → Exprs → Exprs
unfolding format_test
generate_is_constraint_exprs a c more =
    when_set c.minimum (λ x. unless_type "number" a (Test.at_least x))
      (when_set c.maximum (λ x. unless_type "number" a (Test.at_most x))
        (when_set c.exclusive_minimum (λ x. unless_type "number" a (Test.above x))
          (when_set c.exclusive_maximum (λ x. unless_type "number" a (Test.below x))
            (when_set c.min_length (λ n. unless_type "string" a (Test.length_at_least n))
              (when_set c.max_length (λ n. unless_type "string" a (Test.length_at_most n))
                (when_set c.pattern
                  (λ p. unless_type "string" a (Test.matches_regex (escape_for_regex_literal p) ""))
                  (when_set c.format (λ name. format_test name a) more)))))))

unfoldable pub constraint_exprs : Accessor → Option Constraints → Exprs → Exprs
unfolding generate_is_constraint_exprs
constraint_exprs a none more = more
constraint_exprs a (some c) more = generate_is_constraint_exprs a c more

-- The tests of a property, its own one given, in front of the tests that follow.
unfoldable pub property_exprs : Accessor → PropertyFacts → Bool → Expr → Exprs → Exprs
unfolding constraint_exprs
property_exprs a p optional e more =
    let prop = property a p.name in
    let rest = constraint_exprs prop p.constraints more in
    if p.required && not optional
    then and_expr (check Test.not_undefined prop) (and_expr e rest)
    else if p.exact_optional
    then and_expr (group (either (and_expr (check (Test.lacks p.name) a) (and_expr e no_expr))))
        rest
    else and_expr (group (either (and_expr (check Test.undefined prop) (and_expr e no_expr)))) rest

-- `a === literal`, for each.
unfoldable pub enum_tests : Accessor → List EnumValue → Exprs
enum_tests a [] = no_expr
enum_tests a (v ∷ vs) = and_expr (check (Test.same_as v.value) a) (enum_tests a vs)

unfoldable pub generate_enum : Accessor → List EnumValue → Expr
unfolding enum_tests
generate_enum a [] = always
generate_enum a (v ∷ vs) = group (either (enum_tests a (v ∷ vs)))

unfoldable pub literal_tests : Accessor → Members → Exprs
literal_tests a Members.no_member = no_expr
literal_tests a (Members.member m ms) =
    and_expr (check (Test.same_as (facts m).literal_value) a) (literal_tests a ms)

unfoldable pub only_literals : Members → Bool
unfolding is_kind
only_literals Members.no_member = true
only_literals (Members.member m ms) = is_kind (facts m).kind Kind.literal && only_literals ms

abbrev pub no_members : Members → Bool
no_members Members.no_member = true
no_members (Members.member m ms) = false

unfoldable pub expr_at : Exprs → ℕ → Option Expr
expr_at no_expr i = none
expr_at (and_expr e es) zero = some e
expr_at (and_expr e es) (suc i) = expr_at es i

abbrev pub expr_of_index : Exprs → ℤ → Option Expr
expr_of_index es (pos i) = expr_at es i
expr_of_index es (negsuc i) = none

-- The cases for the keys of the mapping, over the tests of the members.
unfoldable pub mapping_cases : Map ℤ → Exprs → Cases
unfolding expr_at
mapping_cases [] es = otherwise_false
mapping_cases ((k, i) ∷ more) es = elim (expr_of_index es i) [
  | none ↦ mapping_cases more es
  | some e ↦ case k e (mapping_cases more es)
]

-- `generateIsDiscriminatedUnionExpr`.
unfoldable pub generate_is_discriminated_union_expr : Accessor → Discriminant → Exprs → Expr
unfolding mapping_cases
generate_is_discriminated_union_expr a d es = group (
    both (
      and_expr (check (Test.is_type "object") a) (
        and_expr (check Test.not_null a) (
          and_expr (group (switch (property a d.property) (mapping_cases d.mapping es))) no_expr))))

abbrev pub switch_or_any : Accessor → Discriminant → Map ℤ → Exprs → Expr
switch_or_any a d [] es = group (either es)
switch_or_any a d (_ ∷ _) es = generate_is_discriminated_union_expr a d es

abbrev pub tagged_or_any : Accessor → Option Discriminant → Exprs → Expr
tagged_or_any a none es = group (either es)
tagged_or_any a (some d) es = switch_or_any a d d.mapping es

-- `generateIsUnionExpr`, over the tests of the members.
unfoldable pub generate_is_union_expr : Accessor → Option Discriminant → Members → Exprs → Expr
unfolding literal_tests only_literals generate_is_discriminated_union_expr
generate_is_union_expr a d us es =
    if only_literals us && not (no_members us)
    then group (either (literal_tests a us))
    else tagged_or_any a d es

-- `KindIntersection`, over the tests of the members.
abbrev pub intersection_of : Exprs → Expr
intersection_of no_expr = always
intersection_of (and_expr e es) = group (both (and_expr e es))

-- `KindNative`.
unfoldable pub generate_native : Accessor → String → Expr
generate_native a name =
    if name == "Date"
    then group (
        both (
          and_expr (check (Test.instance_of "Date") a)
            (and_expr (check Test.date_valid a) no_expr)))
    else group (check (Test.instance_of name) a)

-- `generateIsArrayExpr`.
abbrev pub generate_array : Accessor → ℕ → Option Expr → Expr
generate_array a d none = check Test.array a
generate_array a d (some e) =
    group (both (and_expr (check Test.array a) (and_expr (every a d e) no_expr)))

-- The tests of a tuple's element, in front of the tests of the others.
abbrev pub element_tests : (optional rest : Bool) → Accessor → ℕ → Expr → Exprs → Exprs
element_tests optional true a i e others = others
element_tests true false a i e others =
    and_expr
      (group (either (and_expr (check (Test.length_at_most (pos i)) a) (and_expr e no_expr))))
      others
element_tests false false a i e others = and_expr e others

-- `generateIsExprInner`, over the expressions of the parts. `inline` is what a reference gives.
unfoldable pub generate_is_kind :
    (String → Accessor → ℕ → Expr)
    → Accessor
    → ℕ
    → Kind
    → Facts
    → (properties : Exprs) (element : Option Expr) (elements : Exprs) (union : Members)
    → (members intersection : Exprs) → Expr
unfolding generate_is_atomic_expr generate_enum generate_is_union_expr generate_native
generate_is_kind inline a d Kind.atomic f ps el els u us is = generate_is_atomic_expr a f
generate_is_kind inline a d Kind.literal f ps el els u us is =
    check (Test.same_as f.literal_value) a
generate_is_kind inline a d Kind.object f ps el els u us is =
    group (both (and_expr (check (Test.is_type "object") a) (and_expr (check Test.not_null a) ps)))
generate_is_kind inline a d Kind.array f ps el els u us is = generate_array a d el
generate_is_kind inline a d Kind.tuple f ps el els u us is =
    group (both (and_expr (check Test.array a) els))
generate_is_kind inline a d Kind.union f ps el els u us is =
    generate_is_union_expr a f.discriminant u us
generate_is_kind inline a d Kind.ref f ps el els u us is = inline f.ref a d
generate_is_kind inline a d Kind.enum f ps el els u us is = generate_enum a f.enum_values
generate_is_kind inline a d Kind.native f ps el els u us is = generate_native a f.native_type
generate_is_kind inline a d Kind.never f ps el els u us is = never
generate_is_kind inline a d Kind.void f ps el els u us is = check Test.undefined a
generate_is_kind inline a d Kind.intersection f ps el els u us is = intersection_of is
generate_is_kind inline a d Kind.any f ps el els u us is = always
generate_is_kind inline a d Kind.unknown f ps el els u us is = always
generate_is_kind inline a d Kind.unset f ps el els u us is = always

module _ (inline : String → Accessor → ℕ → Expr) where
  unfoldable mutual
    unfolding nullish generate_is_kind property_exprs

    pub generate_is_expr_inner : Accessor → ℕ → Metadata → Expr
    generate_is_expr_inner a d (Metadata.metadata f ps el els us is ts ix) =
        generate_is_kind inline a d f.kind f (properties_exprs a d ps) (element_expr d el)
          (elements_exprs a d 0 els) us (members_exprs a d us) (members_exprs a d is)

    pub properties_exprs : Accessor → ℕ → Properties → Exprs
    properties_exprs a d Properties.no_property = no_expr
    properties_exprs a d (Properties.property p m more) =
        let prop = property a p.name in
        property_exprs a p (facts m).optional
          (nullish (facts m) prop (generate_is_expr_inner prop (d + 1) m))
          (properties_exprs a d more)

    pub element_expr : ℕ → Pointer → Option Expr
    element_expr d Pointer.null = none
    element_expr d (Pointer.to m) =
        some (nullish (facts m) (variable d) (generate_is_expr_inner (variable d) (d + 1) m))

    pub elements_exprs : Accessor → ℕ → ℕ → Elements → Exprs
    elements_exprs a d i Elements.no_element = no_expr
    elements_exprs a d i (Elements.element optional rest label m more) =
        let at = element a i in
        element_tests optional rest a i (nullish (facts m) at (generate_is_expr_inner at (d + 1) m))
          (elements_exprs a d (i + 1) more)

    pub members_exprs : Accessor → ℕ → Members → Exprs
    members_exprs a d Members.no_member = no_expr
    members_exprs a d (Members.member m more) =
        and_expr (generate_is_expr_inner a (d + 1) m) (members_exprs a d more)

  -- `generateIsExpr`.
  unfoldable pub generate_is_expr : Accessor → ℕ → Metadata → Expr
  unfolding generate_is_expr_inner
  generate_is_expr a d m = nullish (facts m) a (generate_is_expr_inner a d m)

abbrev pub contains : List String → String → Bool
contains names name = any (λ n. n == name) names

-- `KindRef`: a type under way is called, a known one is put in, an unknown one accepts all. The
-- fuel bounds how many types are put in inside one another.
unfoldable pub generate_ref : TypeRegistry → ℕ → List String → String → Accessor → ℕ → Expr
unfolding generate_is_expr
generate_ref types zero generating name a d =
    if contains generating name
    then call name a
    else elim (lookup name types) [ none ↦ always | some m ↦ unfinished ]
generate_ref types (suc fuel) generating name a d =
    if contains generating name then call name a else elim (lookup name types) [
      | none ↦ always
      | some m ↦ generate_is_expr (generate_ref types fuel (name ∷ generating)) a d m
    ]

unfoldable pub count_types : TypeRegistry → ℕ
count_types [] = 0
count_types (_ ∷ more) = suc (count_types more)

-- What `generateIsFunction` returns from the function `is` of the type.
unfoldable pub generate_is_function : String → Metadata → TypeRegistry → Expr
unfolding generate_ref count_types
generate_is_function name m types =
    generate_is_expr (generate_ref types (count_types types) (name ∷ [])) Accessor.input 0 m
