-- ===== src/Codegen/Correct/Members.antt =====
-- internal/codegen/validate_is.go: the members of a union or an intersection, their tests given.
use tsgonest.Common.{
  ℕ, zero, suc, ◌+◌, String, Bool, true, false, not, ◌&&◌, Option, none, some, List, [], ◌∷◌, ◌≡◌,
  refl, sym, arith, inl, inr,
}
use tsgonest.Common.Tests.{Bool-cases}
use tsgonest.Common.Maps.{Map, lookup}
use tsgonest.Metadata.{Facts, Kind, Metadata, Members, Discriminant, facts, is_kind, pos, ℤ}
use tsgonest.Codegen.JsValue.{JsValue, Host}
use tsgonest.Codegen.Expr.{
  Accessor, Test, Expr, check, Exprs, and_expr, Env, read, eval, eval_either,
}
use tsgonest.Codegen.IsExpr.{
  generate_is_kind, generate_is_expr_inner, members_exprs, literal_tests, only_literals, no_members,
  tagged_or_any, switch_or_any, generate_is_union_expr, generate_is_discriminated_union_expr,
}
use tsgonest.Codegen.Matches.{
  is_record, property_of, has_shape, some_member, every_member, nullish_or,
}
use tsgonest.Codegen.Normal.{IsNormal, AreNormalMembers, IsPlain, IsTagged, AreTags}
use tsgonest.Codegen.Correct.Unions.{
  Runs, eval_either-or_list, or_list, and_list, bit, discriminated-or_list,
}

and-true : (b c : Bool) → (b && c) ≡ true → (b ≡ true) × (c ≡ true)
and-true true c e = (refl, e)
and-true false c e = absurd (ground arith)

is_kind-literal : (k : Kind) → is_kind k Kind.literal ≡ true → k ≡ Kind.literal
unfolding is_kind
is_kind-literal Kind.literal e = refl
is_kind-literal k e = absurd (ground arith)

literal_kind :
    (inline : String → Accessor → ℕ → Expr) (a : Accessor) (n : ℕ) (k : Kind) (f : Facts)
    (ps : Exprs) (el : Option Expr) (els : Exprs) (u : Members) (us is : Exprs)
    → is_kind k Kind.literal ≡ true
    → generate_is_kind inline a n k f ps el els u us is ≡ check (Test.same_as f.literal_value) a
unfolding generate_is_kind
literal_kind inline a n k f ps el els u us is e = rw (is_kind-literal k e, generate_is_kind) refl

-- Tests of literals alone are the tests of the members.
literal_tests_lem :
    (inline : String → Accessor → ℕ → Expr) (a : Accessor) (n : ℕ) (us : Members)
    → only_literals us ≡ true
    → literal_tests a us ≡ members_exprs inline a n us
unfolding literal_tests only_literals generate_is_expr_inner
literal_tests_lem inline a n Members.no_member e = refl
literal_tests_lem inline a n (Members.member (Metadata.metadata f ps el els us is ts ix) more) e =
    let (first, others) = and-true (is_kind f.kind Kind.literal) (only_literals more) e in
    let same = literal_kind inline a (n + 1) f.kind f _ _ _ us _ _ first in
    (λ i. and_expr (sym same i) (literal_tests_lem inline a n more others i))

module _ (h : Host) (decide : String → JsValue → Bool) where
  abbrev pub member_shapes : Members → JsValue → List Bool
  member_shapes Members.no_member v = []
  member_shapes (Members.member m more) v = has_shape h decide m v ∷ member_shapes more v

  plain_lem : (f : Facts) (p : JsValue → Bool) (v : JsValue) → IsPlain f → nullish_or h f p v ≡ p v
  unfolding nullish_or
  plain_lem f p v (e, k) = rw (e, k)

  some_member-or_list :
      (us : Members) (v : JsValue)
      → AreNormalMembers h decide us
      → some_member h decide us v ≡ or_list (member_shapes us v)
  unfolding has_shape IsNormal
  some_member-or_list Members.no_member v n = refl
  some_member-or_list (Members.member m more) v (p, k, n) =
      rw (plain_lem (facts m) (has_shape h decide m) v p, some_member-or_list more v n)

  pub every_member-and_list :
      (us : Members) (v : JsValue)
      → AreNormalMembers h decide us
      → every_member h decide us v ≡ and_list (member_shapes us v)
  unfolding has_shape IsNormal
  every_member-and_list Members.no_member v n = refl
  every_member-and_list (Members.member m more) v (p, k, n) =
      rw (plain_lem (facts m) (has_shape h decide m) v p, every_member-and_list more v n)

  -- The mapping names the members that pass.
  named_from :
      (d : Discriminant) (j : ℕ) (us : Members) (v : JsValue) (i : ℕ)
      → AreTags h decide d j us
      → bit (member_shapes us v) i ≡ true
      → (is_record v ≡ true)
        × ((k : String) × (property_of h v d.property ≡ JsValue.text k)
            × (lookup k d.mapping ≡ some (pos (j + i))))
  unfolding has_shape
  named_from d j Members.no_member v i t e = absurd (ground arith)
  named_from d j (Members.member m more) v zero ((k, p, q), t) e =
      let (y, z) = q v e in let same : j + 0 ≡ j = omega arith in (y, (k, z, rw same p))
  named_from d j (Members.member m more) v (suc i) (q, t) e =
      let (y, (k, z, p)) = named_from d (j + 1) more v i t e in
      let same : j + suc i ≡ (j + 1) + i = omega arith in (y, (k, z, rw same p))

  named :
      (d : Discriminant) (us : Members) (v : JsValue) (i : ℕ)
      → AreTags h decide d 0 us
      → bit (member_shapes us v) i ≡ true
      → (k : String) × (property_of h v d.property ≡ JsValue.text k)
        × (lookup k d.mapping ≡ some (pos i))
  named d us v i t e =
      let (_, (k, z, p)) = named_from d 0 us v i t e in
      let same : i ≡ 0 + i = omega arith in (k, z, rw same p)

  module _ (calls : String → JsValue → Option Bool) (env : Env) where
    mapping_step :
        (a : Accessor) (d : Discriminant) (m : Map ℤ) (es : Exprs) (b : Bool)
        → eval_either h calls env es ≡ some b
        → eval h calls env (generate_is_discriminated_union_expr a d es) ≡ some b
        → eval h calls env (switch_or_any a d m es) ≡ some b
    unfolding eval
    mapping_step a d [] es b p q = p
    mapping_step a d (x ∷ m) es b p q = q

    tagged_step :
        (a : Accessor) (d : Option Discriminant) (us : Members) (es : Exprs) (v : JsValue)
        → read h env a ≡ some v
        → IsTagged h decide d us
        → Runs h calls env es (member_shapes us v)
        → eval h calls env (tagged_or_any a d es) ≡ some (or_list (member_shapes us v))
    unfolding eval
    tagged_step a none us es v r t rs = eval_either-or_list h calls env es _ rs
    tagged_step a (some d) us es v r (ds, t) rs =
        mapping_step a d d.mapping es _ (eval_either-or_list h calls env es _ rs) (
          discriminated-or_list h calls env a d es (member_shapes us v) v r ds rs
            (λ i e. (named_from d 0 us v i t e).0) (λ i e. named d us v i t e))

    -- The tests of a union's members, tagged or not, accept what some member accepts.
    pub union_lem :
        (inline : String → Accessor → ℕ → Expr) (a : Accessor) (n : ℕ) (d : Option Discriminant)
        (us : Members) (v : JsValue)
        → read h env a ≡ some v
        → IsTagged h decide d us
        → AreNormalMembers h decide us
        → Runs h calls env (members_exprs inline a n us) (member_shapes us v)
        → eval h calls env (generate_is_union_expr a d us (members_exprs inline a n us))
          ≡ some (some_member h decide us v)
    unfolding generate_is_union_expr
    union_lem inline a n d us v r t k rs =
        rw (some_member-or_list us v k)
          (elim (Bool-cases (only_literals us && not (no_members us))) [
            | inr f ↦ rw f (tagged_step a d us _ v r t rs)
            | inl e ↦
                rw (e, literal_tests_lem inline a n us (and-true _ _ e).0)
                  (unfold eval in eval_either-or_list h calls env _ _ rs)
          ])
