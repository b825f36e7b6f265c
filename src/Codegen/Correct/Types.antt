-- ===== src/Codegen/Correct/Types.antt =====
-- internal/codegen/validate_is.go: the expression of a type and the type, by induction on the type.
use mathlib.Core.Bool.{and_assoc}
use tsgonest.Common.{
  ℕ, ◌+◌, String, Bool, true, false, not, ◌&&◌, ◌||◌, Option, some, ◌≡◌, refl, arith, inl, inr,
}
use tsgonest.Common.Tests.{Bool-cases}
use tsgonest.Metadata.{
  Facts, Kind, Metadata, Properties, Pointer, Elements, Members, PropertyFacts, facts, pos,
}
use tsgonest.Codegen.JsValue.{JsValue, Host, is_array, is_undefined, size, has_key}
use tsgonest.Codegen.Expr.{
  Accessor, Test, Expr, check, Exprs, no_expr, and_expr, Env, read, eval, eval_both, run_test,
  property, element, bind, variable,
}
use tsgonest.Codegen.IsExpr.{
  generate_is_expr_inner, properties_exprs, element_expr, elements_exprs, members_exprs,
  property_exprs, generate_is_expr, element_tests,
}
use tsgonest.Codegen.Matches.{
  is_record, property_of, or_false, has_property, is_shorter, has_shape, matches, has_properties,
  element_type, has_elements, nullish_or, element_fits,
}
use tsgonest.Codegen.Normal.{
  IsNormal, AreNormal, IsNormalPointer, AreNormalElements, AreNormalMembers, IsKindNormal, IsTagged,
}
use tsgonest.Codegen.Correct.Steps.{
  Laws, read-property, read-element, and_step, either_lem, nullish-nullish_or,
}
use tsgonest.Codegen.Correct.Constrained.{constraint_exprs-meets}
use tsgonest.Codegen.Correct.Unions.{Runs, eval-intersection_of}
use tsgonest.Codegen.Correct.Members.{member_shapes, every_member-and_list, union_lem}
use tsgonest.Codegen.Correct.Kinds.{Tests, generate_is_kind-has_kind}

-- A normal union is tagged as it says.
tags_of_kind :
    (h : Host) (decide : String → JsValue → Bool) (k : Kind) (f : Facts) (us : Members)
    → k ≡ Kind.union
    → IsKindNormal h decide k f us
    → IsTagged h decide f.discriminant us
tags_of_kind h decide Kind.union f us e k = k
tags_of_kind h decide Kind.any f us e k = absurd (ground arith)
tags_of_kind h decide _ f us e k = absurd (ground arith)

module _ (h : Host) (calls : String → JsValue → Option Bool) (env : Env) where
  both_step :
      (e : Expr) (es : Exprs) (b c : Bool)
      → eval h calls env e ≡ some b
      → (b ≡ true → eval_both h calls env es ≡ some c)
      → eval_both h calls env (and_expr e es) ≡ some (b && c)
  unfolding eval
  both_step e es b c p q = and_step _ _ b c p q

  undefined_step :
      (a : Accessor) (v : JsValue)
      → read h env a ≡ some v
      → (eval h calls env (check Test.not_undefined a) ≡ some (not (is_undefined v)))
        × (eval h calls env (check Test.undefined a) ≡ some (is_undefined v))
  unfolding eval run_test
  undefined_step a v r = (rw r, rw r)

  lacks_step :
      (a : Accessor) (v : JsValue) (key : String)
      → read h env a ≡ some v
      → is_record v ≡ true
      → eval h calls env (check (Test.lacks key) a) ≡ some (not (or_false (has_key h v key)))
  unfolding eval run_test has_key is_record
  lacks_step a (JsValue.object c fs) key r e = rw r
  lacks_step a (JsValue.array xs) key r e = rw r
  lacks_step a JsValue.undefined key r e = absurd (ground arith)
  lacks_step a v key r e = absurd (ground arith)

  -- The tests of a property and of its constraints, in front of others.
  property_step :
      Laws h
      → (a : Accessor) (p : PropertyFacts) (optional : Bool) (e : Expr) (es : Exprs)
        (fits : JsValue → Bool) (v : JsValue) (c : Bool)
      → read h env a ≡ some v
      → is_record v ≡ true
      → eval h calls env e ≡ some (fits (property_of h v p.name))
      → eval_both h calls env es ≡ some c
      → eval_both h calls env (property_exprs a p optional e es)
        ≡ some (has_property h p optional fits v && c)
  unfolding property_exprs has_property
  property_step l a p optional e es fits v c r t q k =
      let w = property_of h v p.name in
      let prop = read-property h calls env a p.name v r t in
      let rest =
        constraint_exprs-meets h calls env l (property a p.name) p.constraints es w c prop k in
      let present = undefined_step (property a p.name) w prop in
      elim (Bool-cases (p.required && not optional)) [
        | inl y ↦
            rw (y, and_assoc, and_assoc)
              (both_step _ _ (not (is_undefined w)) _ present.0
                (λ _. both_step e _ (fits w) _ q (λ _. rest)))
        | inr y ↦ elim (Bool-cases p.exact_optional) [
          | inl z ↦
              rw (y, z, and_assoc)
                (both_step _ _ (not (or_false (has_key h v p.name)) || fits w) _
                  (either_lem h calls env _ e _ (fits w) (lacks_step a v p.name r t) (λ _. q))
                  (λ _. rest))
          | inr z ↦
              rw (y, z, and_assoc)
                (both_step _ _ (is_undefined w || fits w) _
                  (either_lem h calls env _ e _ (fits w) present.1 (λ _. q)) (λ _. rest))
        ]
      ]

  shorter_step :
      (a : Accessor) (i : ℕ) (v : JsValue)
      → read h env a ≡ some v
      → is_array v ≡ true
      → eval h calls env (check (Test.length_at_most (pos i)) a) ≡ some (is_shorter v i)
  unfolding eval run_test is_array is_shorter size
  shorter_step a i (JsValue.array xs) r e = rw r
  shorter_step a i JsValue.undefined r e = absurd (ground arith)
  shorter_step a i v r e = absurd (ground arith)

  -- The tests of an element of a tuple, in front of others.
  element_step :
      (optional rest : Bool) (a : Accessor) (i : ℕ) (e : Expr) (es : Exprs) (v : JsValue)
      (fits others : Bool)
      → read h env a ≡ some v
      → is_array v ≡ true
      → eval h calls env e ≡ some fits
      → eval_both h calls env es ≡ some others
      → eval_both h calls env (element_tests optional rest a i e es)
        ≡ some (element_fits optional rest (is_shorter v i) fits others)
  element_step optional true a i e es v fits others r t p q = q
  element_step false false a i e es v fits others r t p q = both_step e es fits others p (λ _. q)
  element_step true false a i e es v fits others r t p q =
      both_step _ es (is_shorter v i || fits) others
        (either_lem h calls env _ e _ fits (shorter_step a i v r t) (λ _. p)) (λ _. q)

  no_tests : eval_both h calls env no_expr ≡ some true
  unfolding eval
  no_tests = refl

  variable_step : (n : ℕ) (w : JsValue) → read h (bind env n w) (variable n) ≡ some w
  unfolding read bind
  variable_step n w = ground arith

module _ (h : Host) (l : Laws h) (calls : String → JsValue → Option Bool)
    (decide : String → JsValue → Bool) (inline : String → Accessor → ℕ → Expr)
    (inlined : (env : Env) (name : String) (a : Accessor) (n : ℕ) (v : JsValue)
      → read h env a ≡ some v
      → eval h calls env (inline name a n) ≡ some (decide name v)) where
  mutual
    unfolding generate_is_expr_inner has_shape IsNormal

    inner-has_shape :
        (m : Metadata) (env : Env) (a : Accessor) (n : ℕ) (v : JsValue)
        → IsNormal h decide m
        → read h env a ≡ some v
        → eval h calls env (generate_is_expr_inner inline a n m) ≡ some (has_shape h decide m v)
    inner-has_shape (Metadata.metadata f ps el els us is ts ix) env a n v (k, kp, ke, kl, ku, ki)
          r =
        generate_is_kind-has_kind h calls env l a v r inline decide n
          (λ name. inlined env name a n v r) f.kind f _ _ _ us _ _ _ _ _ _ _ k
          (properties-has ps env a n v kp r) (element-Tests el env n ke)
          (elements-has els env a n 0 v kl r)
          (λ u.
            union_lem h decide calls env inline a n f.discriminant us v r
              (tags_of_kind h decide f.kind f us u k) ku (members-Runs us env a n v ku r))
          (rw (every_member-and_list h decide is v ki)
            (eval-intersection_of h calls env _ _ (members-Runs is env a n v ki r)))

    properties-has :
        (ps : Properties) (env : Env) (a : Accessor) (n : ℕ) (v : JsValue)
        → AreNormal h decide ps
        → read h env a ≡ some v
        → is_record v ≡ true
        → eval_both h calls env (properties_exprs inline a n ps)
          ≡ some (has_properties h decide ps v)
    properties-has Properties.no_property env a n v k r t = no_tests h calls env
    properties-has (Properties.property p m more) env a n v (k, ks) r t =
        let w = read-property h calls env a p.name v r t in
        property_step h calls env l a p (facts m).optional _ _
          (nullish_or h (facts m) (has_shape h decide m)) v _ r t
          (nullish-nullish_or h calls env (facts m) (property a p.name) _ (has_shape h decide m) _ w
            (inner-has_shape m env (property a p.name) (n + 1) _ k w))
          (properties-has more env a n v ks r t)

    element-Tests :
        (el : Pointer) (env : Env) (n : ℕ)
        → IsNormalPointer h decide el
        → Tests h calls env n (element_expr inline n el) (element_type h decide el)
    element-Tests Pointer.null env n k = tt
    element-Tests (Pointer.to m) env n k = λ w.
        let r = variable_step h calls env n w in
        nullish-nullish_or h calls (bind env n w) (facts m) (variable n) _ (has_shape h decide m) w
          r (inner-has_shape m (bind env n w) (variable n) (n + 1) w k r)

    elements-has :
        (els : Elements) (env : Env) (a : Accessor) (n i : ℕ) (v : JsValue)
        → AreNormalElements h decide els
        → read h env a ≡ some v
        → is_array v ≡ true
        → eval_both h calls env (elements_exprs inline a n i els)
          ≡ some (has_elements h decide i els v)
    elements-has Elements.no_element env a n i v k r t = no_tests h calls env
    elements-has (Elements.element optional rest label m more) env a n i v (k, ks) r t =
        let w = read-element h calls env a i v r t in
        element_step h calls env optional rest a i _ _ v _ _ r t
          (nullish-nullish_or h calls env (facts m) (element a i) _ (has_shape h decide m) _ w
            (inner-has_shape m env (element a i) (n + 1) _ k w))
          (elements-has more env a n (i + 1) v ks r t)

    members-Runs :
        (us : Members) (env : Env) (a : Accessor) (n : ℕ) (v : JsValue)
        → AreNormalMembers h decide us
        → read h env a ≡ some v
        → Runs h calls env (members_exprs inline a n us) (member_shapes h decide us v)
    members-Runs Members.no_member env a n v k r = tt
    members-Runs (Members.member m more) env a n v (p, k, ks) r =
        (inner-has_shape m env a (n + 1) v k r, members-Runs more env a n v ks r)

  -- The expression of a type returns whether the value has it, without an exception.
  pub generate_is_expr-matches :
      (m : Metadata) (env : Env) (a : Accessor) (n : ℕ) (v : JsValue)
      → IsNormal h decide m
      → read h env a ≡ some v
      → eval h calls env (generate_is_expr inline a n m) ≡ some (matches h decide m v)
  unfolding generate_is_expr matches
  generate_is_expr-matches m env a n v k r =
      nullish-nullish_or h calls env (facts m) a _ (has_shape h decide m) v r
        (inner-has_shape m env a n v k r)
