-- ===== src/Codegen/Correct/Constrained.antt =====
-- internal/codegen/validate_is.go: running the tests of the constraints.
use mathlib.Core.Bool.{and_assoc}
use tsgonest.Common.{
  ℕ, String, Bool, true, false, ◌&&◌, Option, none, some, ◌≡◌, refl, ap, arith, ◌==◌, inl, inr,
}
use tsgonest.Common.Tests.{Bool-cases, Option-cases}
use tsgonest.Common.Maps.{lookup}
use tsgonest.Metadata.{Constraints, ℤ, Float64}
use tsgonest.Codegen.Names.{escape_for_regex_literal}
use tsgonest.Codegen.Formats.{format_regexes}
use tsgonest.Codegen.JsValue.{JsValue, Host, typeof, reaches, within, size}
use tsgonest.Codegen.Expr.{Accessor, Test, Exprs, Env, run_test, read, eval_both}
use tsgonest.Codegen.IsExpr.{
  unless_type, when_set, format_test, generate_is_constraint_exprs, constraint_exprs,
}
use tsgonest.Codegen.Matches.{allows, number_meets, text_meets, units_meet, has_format, meets}
use tsgonest.Codegen.Correct.Steps.{Laws, unless_step}

number_meets_number :
    (p : JsValue → Bool) (v : JsValue) → (typeof v == "number") ≡ true → number_meets p v ≡ p v
unfolding number_meets typeof
number_meets_number p (JsValue.number f) e = refl
number_meets_number p JsValue.undefined e = absurd (ground arith)
number_meets_number p _ e = absurd (ground arith)

number_meets_other :
    (p : JsValue → Bool) (v : JsValue) → (typeof v == "number") ≡ false → number_meets p v ≡ true
unfolding number_meets typeof
number_meets_other p (JsValue.number f) e = absurd (ground arith)
number_meets_other p JsValue.undefined e = refl
number_meets_other p _ e = refl

text_meets_text :
    (p : JsValue → Bool) (v : JsValue) → (typeof v == "string") ≡ true → text_meets p v ≡ p v
unfolding text_meets typeof
text_meets_text p (JsValue.text f) e = refl
text_meets_text p JsValue.undefined e = absurd (ground arith)
text_meets_text p _ e = absurd (ground arith)

text_meets_other :
    (p : JsValue → Bool) (v : JsValue) → (typeof v == "string") ≡ false → text_meets p v ≡ true
unfolding text_meets typeof
text_meets_other p (JsValue.text f) e = absurd (ground arith)
text_meets_other p JsValue.undefined e = refl
text_meets_other p _ e = refl

module _ (h : Host) (test : Test) (order : ℕ → Bool) where
  units_meet-text :
      ((s : String) → run_test h test (JsValue.text s) ≡ some (order (h.units s)))
      → (v : JsValue) → (typeof v == "string") ≡ true
      → run_test h test v ≡ some (units_meet h order v)
  unfolding units_meet typeof
  units_meet-text k (JsValue.text s) e = k s
  units_meet-text k JsValue.undefined e = absurd (ground arith)
  units_meet-text k _ e = absurd (ground arith)

  units_meet_other : (v : JsValue) → (typeof v == "string") ≡ false → units_meet h order v ≡ true
  unfolding units_meet typeof
  units_meet_other (JsValue.text s) e = absurd (ground arith)
  units_meet_other JsValue.undefined e = refl
  units_meet_other _ e = refl

module _ (h : Host) (calls : String → JsValue → Option Bool) (env : Env) where
  module _ (a : Accessor) (es : Exprs) (v : JsValue) (c : Bool) (r : read h env a ≡ some v)
      (q : eval_both h calls env es ≡ some c) where
    number_step :
        (test : Test) (p : JsValue → Bool)
        → run_test h test v ≡ some (p v)
        → eval_both h calls env (unless_type "number" a test es) ≡ some (number_meets p v && c)
    number_step test p e =
        unless_step h calls env "number" a test es v (number_meets p v) c r q
          (λ t. rw (number_meets_number p v t) e) (λ n. number_meets_other p v n)

    text_step :
        (test : Test) (p : JsValue → Bool)
        → run_test h test v ≡ some (p v)
        → eval_both h calls env (unless_type "string" a test es) ≡ some (text_meets p v && c)
    text_step test p e =
        unless_step h calls env "string" a test es v (text_meets p v) c r q
          (λ t. rw (text_meets_text p v t) e) (λ n. text_meets_other p v n)

    format_step :
        (name : String)
        → eval_both h calls env (format_test name a es) ≡ some (has_format h name v && c)
    unfolding format_test has_format run_test
    format_step name = elim (Option-cases (lookup name format_regexes)) [
      | inl e ↦ rw (e, format_test, has_format) q
      | inr (p, e) ↦ elim (Bool-cases (p == "")) [
        | inl n ↦ rw (e, format_test, has_format, n) q
        | inr n ↦ rw (e, format_test, has_format, n) (text_step _ (h.test p _) refl)
      ]
    ]

    units_step :
        (test : Test) (order : ℕ → Bool)
        → ((s : String) → run_test h test (JsValue.text s) ≡ some (order (h.units s)))
        → eval_both h calls env (unless_type "string" a test es) ≡ some (units_meet h order v && c)
    units_step test order e =
        unless_step h calls env "string" a test es v (units_meet h order v) c r q
          (units_meet-text h test order e v) (units_meet_other h test order v)

  module _ (a : Accessor) (v : JsValue) (r : read h env a ≡ some v) where
    when_number :
        (o : Option Float64) (test : Float64 → Test) (p : Float64 → JsValue → Bool) (es : Exprs)
        (c : Bool)
        → ((x : Float64) → run_test h (test x) v ≡ some (p x v))
        → eval_both h calls env es ≡ some c
        → eval_both h calls env (when_set o (λ x. unless_type "number" a (test x)) es)
          ≡ some (allows o (λ x. number_meets (p x) v) && c)
    when_number none test p es c e q = q
    when_number (some x) test p es c e q = number_step a es v c r q (test x) (p x) (e x)

    when_units :
        (o : Option ℤ) (test : ℤ → Test) (order : ℤ → ℕ → Bool) (es : Exprs) (c : Bool)
        → ((n : ℤ) (s : String) → run_test h (test n) (JsValue.text s) ≡ some (order n (h.units s)))
        → eval_both h calls env es ≡ some c
        → eval_both h calls env (when_set o (λ n. unless_type "string" a (test n)) es)
          ≡ some (allows o (λ n. units_meet h (order n) v) && c)
    when_units none test order es c e q = q
    when_units (some n) test order es c e q = units_step a es v c r q (test n) (order n) (e n)

    when_text :
        (o : Option String) (test : String → Test) (p : String → JsValue → Bool) (es : Exprs)
        (c : Bool)
        → ((x : String) → run_test h (test x) v ≡ some (p x v))
        → eval_both h calls env es ≡ some c
        → eval_both h calls env (when_set o (λ x. unless_type "string" a (test x)) es)
          ≡ some (allows o (λ x. text_meets (p x) v) && c)
    when_text none test p es c e q = q
    when_text (some x) test p es c e q = text_step a es v c r q (test x) (p x) (e x)

    when_format :
        (o : Option String) (es : Exprs) (c : Bool)
        → eval_both h calls env es ≡ some c
        → eval_both h calls env (when_set o (λ name. format_test name a) es)
          ≡ some (allows o (λ name. has_format h name v) && c)
    when_format none es c q = q
    when_format (some name) es c q = format_step a es v c r q name

    constraint_tests :
        Laws h
        → (c : Constraints) (es : Exprs) (b : Bool) → eval_both h calls env es ≡ some b
        → eval_both h calls env (generate_is_constraint_exprs a c es) ≡ some (meets h c v && b)
    unfolding generate_is_constraint_exprs meets run_test size
    constraint_tests l c es b q =
        let whole =
          when_number c.minimum Test.at_least (λ x w. h.at_least w x) _ _ (λ x. refl)
            (when_number c.maximum Test.at_most (λ x w. h.at_most w x) _ _ (λ x. refl)
              (when_number c.exclusive_minimum Test.above (λ x w. h.above w x) _ _ (λ x. refl)
                (when_number c.exclusive_maximum Test.below (λ x w. h.below w x) _ _ (λ x. refl)
                  (when_units c.min_length Test.length_at_least (λ n m. reaches m n) _ _
                    (λ n s. refl)
                    (when_units c.max_length Test.length_at_most (λ n m. within m n) _ _
                      (λ n s. refl)
                      (when_text c.pattern (λ p. Test.matches_regex (escape_for_regex_literal p) "")
                        (λ p. h.test p "") _ _ (λ p. ap some (l.slashes p "" v))
                        (when_format c.format es b q))))))) in
        simp and_assoc whole

  -- The tests of a property's constraints.
  pub constraint_exprs-meets :
      Laws h
      → (a : Accessor) (o : Option Constraints) (es : Exprs) (v : JsValue) (b : Bool)
      → read h env a ≡ some v
      → eval_both h calls env es ≡ some b
      → eval_both h calls env (constraint_exprs a o es) ≡ some (allows o (λ c. meets h c v) && b)
  unfolding constraint_exprs
  constraint_exprs-meets l a none es v b r q = q
  constraint_exprs-meets l a (some c) es v b r q = constraint_tests a v r l c es b q
