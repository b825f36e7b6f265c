-- ===== src/Codegen/Correct/Steps.antt =====
-- internal/codegen/validate_is.go: running the tests of one value.
use tsgonest.Common.{
  ℕ, String, Bool, true, false, ◌&&◌, ◌||◌, Option, some, ◌≡◌, refl, arith, ◌==◌, inl, inr,
}
use tsgonest.Common.Tests.{Bool-cases}
use tsgonest.Metadata.{Facts}
use tsgonest.Codegen.Names.{escape_for_regex_literal}
use tsgonest.Codegen.JsValue.{JsValue, Host, typeof, is_null, is_array, get, get_at}
use tsgonest.Codegen.Expr.{
  Accessor, Test, Expr, check, either, both, group, Exprs, no_expr, and_expr, Env, and_then,
  or_else, run_test, read, eval, eval_both,
}
use tsgonest.Codegen.IsExpr.{
  nullish, generate_is_atomic_expr, generate_native, template_test, unless_type,
}
use tsgonest.Codegen.Matches.{
  is_record, property_of, element_of, nullish_or, has_atomic, finite_number, has_native,
}

-- What is documented of the engine: a Date has a time, and a slash in a regular expression means the
-- same with a backslash in front of it.
pub record Laws (h : Host) : Type 0 where
  pub dates : (v : JsValue) → h.instance_of v "Date" ≡ true → (b : Bool) × (h.valid_date v ≡ some b)
  pub slashes :
      (p fl : String) (v : JsValue) → h.test (escape_for_regex_literal p) fl v ≡ h.test p fl v

pub and_step :
    (x : Option Bool) (y : Option Bool) (b c : Bool)
    → x ≡ some b
    → (b ≡ true → y ≡ some c)
    → and_then x y ≡ some (b && c)
and_step x y true c e k = rw e (k refl)
and_step x y false c e k = rw e

pub or_step :
    (x : Option Bool) (y : Option Bool) (b c : Bool)
    → x ≡ some b
    → (b ≡ false → y ≡ some c)
    → or_else x y ≡ some (b || c)
or_step x y true c e k = rw e
or_step x y false c e k = rw e (k refl)

module _ (h : Host) (calls : String → JsValue → Option Bool) (env : Env) where
  pub check_lem :
      (t : Test) (a : Accessor) (v : JsValue)
      → read h env a ≡ some v
      → eval h calls env (check t a) ≡ run_test h t v
  unfolding eval
  check_lem t a v r = rw r

  pub read-property :
      (a : Accessor) (key : String) (v : JsValue)
      → read h env a ≡ some v
      → is_record v ≡ true
      → read h env (Accessor.property a key) ≡ some (property_of h v key)
  unfolding read is_record property_of get
  read-property a key (JsValue.object c fs) r e = rw r
  read-property a key (JsValue.array xs) r e = rw r
  read-property a key _ r e = absurd (ground arith)

  pub read-element :
      (a : Accessor) (i : ℕ) (v : JsValue)
      → read h env a ≡ some v
      → is_array v ≡ true
      → read h env (Accessor.element a i) ≡ some (element_of v i)
  unfolding read is_array element_of get_at
  read-element a i (JsValue.array xs) r e = rw r
  read-element a i _ r e = absurd (ground arith)

  -- `a` or `b`, the second tested where the first fails.
  pub either_lem :
      (e f : Expr) (b c : Bool)
      → eval h calls env e ≡ some b
      → (b ≡ false → eval h calls env f ≡ some c)
      → eval h calls env (group (either (and_expr e (and_expr f no_expr)))) ≡ some (b || c)
  unfolding eval
  either_lem e f true c p k = rw p
  either_lem e f false true p k = rw (p, k refl)
  either_lem e f false false p k = rw (p, k refl)

  pub nullish-nullish_or :
      (f : Facts) (a : Accessor) (e : Expr) (p : JsValue → Bool) (v : JsValue)
      → read h env a ≡ some v
      → eval h calls env e ≡ some (p v)
      → eval h calls env (nullish f a e) ≡ some (nullish_or h f p v)
  unfolding nullish nullish_or eval run_test
  nullish-nullish_or f a e p v r q = elim (Bool-cases f.nullable) [
    | inl n ↦ elim (Bool-cases f.optional) [
      | inl o ↦ rw (n, o, r, q) (ground arith)
      | inr o ↦ rw (n, o, r, q) (ground arith)
    ]
    | inr n ↦ elim (Bool-cases f.optional) [
      | inl o ↦ rw (n, o, r, q) (ground arith)
      | inr o ↦ rw (n, o, q) refl
    ]
  ]

  finite_step :
      (a : Accessor) (v : JsValue)
      → read h env a ≡ some v
      → eval h calls env (
          both
            (and_expr (check (Test.is_type "number") a) (and_expr (check Test.finite a) no_expr)))
        ≡ some (finite_number h v)
  unfolding finite_number eval run_test typeof
  finite_step a (JsValue.number f) r = rw r (ground arith)
  finite_step a JsValue.undefined r = rw r
  finite_step a _ r = rw r

  string_step :
      Laws h
      → (f : Facts) (a : Accessor) (v : JsValue) → read h env a ≡ some v
      → eval h calls env (both (and_expr (check (Test.is_type "string") a) (template_test f a)))
        ≡ some
            (typeof v == "string" && (f.template_pattern == "" || h.test f.template_pattern "" v))
  unfolding template_test eval run_test
  string_step l f a v r =
      let slash = l.slashes f.template_pattern "" v in
      elim (Bool-cases (f.template_pattern == "")) [
        | inl e ↦ rw (e, r) (ground arith)
        | inr e ↦ rw (e, r, slash) (ground arith)
      ]

  type_step :
      (t : String) (a : Accessor) (v : JsValue)
      → read h env a ≡ some v
      → eval h calls env (both (and_expr (check (Test.is_type t) a) no_expr)) ≡ some (typeof v == t)
  unfolding eval run_test
  type_step t a v r = rw r (ground arith)

  -- The test of an atomic type.
  pub atomic-has_atomic :
      Laws h
      → (f : Facts) (a : Accessor) (v : JsValue) → read h env a ≡ some v
      → eval h calls env (generate_is_atomic_expr a f) ≡ some (has_atomic h f v)
  unfolding generate_is_atomic_expr has_atomic eval
  atomic-has_atomic l f a v r = elim (Bool-cases (f.atomic == "string")) [
    | inl e ↦ rw e (string_step l f a v r)
    | inr n ↦ elim (Bool-cases (f.atomic == "number")) [
      | inl e ↦ rw (n, e) (finite_step a v r)
      | inr m ↦ elim (Bool-cases (f.atomic == "boolean")) [
        | inl e ↦ rw (n, m, e) (type_step "boolean" a v r)
        | inr k ↦ elim (Bool-cases (f.atomic == "bigint")) [
          | inl e ↦ rw (n, m, k, e) (type_step "bigint" a v r)
          | inr j ↦ rw (n, m, k, j) refl
        ]
      ]
    ]
  ]

  -- The test of an instance of a class of the language.
  pub native-has_native :
      Laws h
      → (name : String) (a : Accessor) (v : JsValue) → read h env a ≡ some v
      → eval h calls env (generate_native a name) ≡ some (has_native h name v)
  unfolding generate_native has_native eval run_test
  native-has_native l name a v r = elim (Bool-cases (name == "Date")) [
    | inr n ↦ rw (n, r) refl
    | inl e ↦ elim (Bool-cases (h.instance_of v "Date")) [
      | inr m ↦ rw (e, r, m) refl
      | inl i ↦ rw (e, r, i, (l.dates v i).1) (ground arith)
    ]
  ]

  -- The tests of a record: an object that is not null.
  pub record_step :
      (a : Accessor) (es : Exprs) (v : JsValue) (b : Bool)
      → read h env a ≡ some v
      → (is_record v ≡ true → eval_both h calls env es ≡ some b)
      → eval h calls env (
          group (
            both
              (and_expr (check (Test.is_type "object") a) (and_expr (check Test.not_null a) es))))
        ≡ some (is_record v && b)
  unfolding eval run_test typeof is_null is_record
  record_step a es (JsValue.array xs) b r k = rw (r, k refl)
  record_step a es (JsValue.object c fs) b r k = rw (r, k refl)
  record_step a es JsValue.null b r k = rw r
  record_step a es _ b r k = rw r

  -- The tests of an array.
  pub array_step :
      (a : Accessor) (es : Exprs) (v : JsValue) (b : Bool)
      → read h env a ≡ some v
      → (is_array v ≡ true → eval_both h calls env es ≡ some b)
      → eval h calls env (group (both (and_expr (check Test.array a) es))) ≡ some (is_array v && b)
  unfolding eval run_test is_array
  array_step a es (JsValue.array xs) b r k = rw (r, k refl)
  array_step a es _ b r k = rw r

  -- A test for values of a type, in front of others.
  pub unless_step :
      (t : String) (a : Accessor) (test : Test) (es : Exprs) (v : JsValue) (b c : Bool)
      → read h env a ≡ some v
      → eval_both h calls env es ≡ some c
      → ((typeof v == t) ≡ true → run_test h test v ≡ some b)
      → ((typeof v == t) ≡ false → b ≡ true)
      → eval_both h calls env (unless_type t a test es) ≡ some (b && c)
  unfolding eval run_test
  unless_step t a test es v b c r q k n = elim (Bool-cases (typeof v == t)) [
    | inl e ↦ rw (r, e, k e, q) (ground arith)
    | inr e ↦ rw (r, e, q, n e) refl
  ]
