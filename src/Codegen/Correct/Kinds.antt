-- ===== src/Codegen/Correct/Kinds.antt =====
-- internal/codegen/validate_is.go: running the test of a type, its parts' tests given.
use tsgonest.Common.{
  ℕ, String, Bool, true, false, Option, none, some, List, [], ◌∷◌, ◌≡◌, refl, arith, inl, inr,
}
use tsgonest.Common.Tests.{Bool-cases}
use tsgonest.Common.Lists.{All}
use tsgonest.Metadata.{Facts, Kind, Members, EnumValue, Value}
use tsgonest.Codegen.JsValue.{JsValue, JsItems, Host, is_array, is_undefined, equals}
use tsgonest.Codegen.Expr.{
  Accessor, Test, Expr, check, Exprs, no_expr, and_expr, Env, every, read, eval, eval_both,
  eval_either, run_test, every_item, every_of, bind,
}
use tsgonest.Codegen.IsExpr.{
  generate_is_kind, generate_array, generate_is_union_expr, generate_enum, enum_tests,
  intersection_of,
}
use tsgonest.Codegen.Matches.{
  is_record, has_kind, array_of, has_literal, has_enum_value, enum_allows, all_items,
}
use tsgonest.Codegen.Normal.{writable, IsKindNormal}
use tsgonest.Codegen.Correct.Steps.{
  Laws, record_step, array_step, atomic-has_atomic, native-has_native, and_step,
}

-- A literal with a value compares without an exception.
equals-has_literal :
    (h : Host) (w : Value) (v : JsValue)
    → writable w ≡ true
    → equals h v w ≡ some (has_literal h w v)
unfolding has_literal equals
equals-has_literal h Value.nil v e = absurd (ground arith)
equals-has_literal h (Value.text t) (JsValue.text s) e = refl
equals-has_literal h (Value.text t) JsValue.undefined e = refl
equals-has_literal h (Value.text t) v e = refl
equals-has_literal h (Value.number g) (JsValue.number f) e = refl
equals-has_literal h (Value.number g) JsValue.undefined e = refl
equals-has_literal h (Value.number g) v e = refl
equals-has_literal h (Value.boolean b) (JsValue.boolean true) e = refl
equals-has_literal h (Value.boolean b) (JsValue.boolean false) e = refl
equals-has_literal h (Value.boolean b) JsValue.undefined e = refl
equals-has_literal h (Value.boolean b) v e = refl

module _ (h : Host) (calls : String → JsValue → Option Bool) (env : Env) where
  pub literal_step :
      (w : Value) (a : Accessor) (v : JsValue)
      → writable w ≡ true
      → read h env a ≡ some v
      → eval h calls env (check (Test.same_as w) a) ≡ some (has_literal h w v)
  unfolding eval run_test
  literal_step w a v e r = rw r (equals-has_literal h w v e)

  enum_step :
      (ws : List EnumValue) (a : Accessor) (v : JsValue)
      → All (λ e. writable e.value ≡ true) ws
      → read h env a ≡ some v
      → eval_either h calls env (enum_tests a ws) ≡ some (has_enum_value h ws v)
  unfolding eval enum_tests has_enum_value
  enum_step [] a v es r = refl
  enum_step (w ∷ ws) a v (e, es) r =
      let first = literal_step w.value a v e r in
      let rest = enum_step ws a v es r in
      elim (Bool-cases (has_literal h w.value v)) [
        | inl t ↦ rw (first, t)
        | inr f ↦ rw (first, f) rest
      ]

  enum_lem :
      (ws : List EnumValue) (a : Accessor) (v : JsValue)
      → All (λ e. writable e.value ≡ true) ws
      → read h env a ≡ some v
      → eval h calls env (generate_enum a ws) ≡ some (enum_allows h ws v)
  unfolding eval generate_enum
  enum_lem [] a v es r = refl
  enum_lem (w ∷ ws) a v es r = enum_step (w ∷ ws) a v es r

  -- Each element is bound to the variable in turn.
  every_item-all_items :
      (n : ℕ) (e : Expr) (p : JsValue → Bool) (xs : JsItems)
      → ((w : JsValue) → eval h calls (bind env n w) e ≡ some (p w))
      → every_item (λ w. eval h calls (bind env n w) e) xs ≡ some (all_items p xs)
  unfolding every_item all_items
  every_item-all_items n e p JsItems.no_item k = refl
  every_item-all_items n e p (JsItems.item w xs) k =
      and_step _ _ (p w) (all_items p xs) (k w) (λ _. every_item-all_items n e p xs k)

  every_step :
      (n : ℕ) (e : Expr) (p : JsValue → Bool) (a : Accessor) (xs : JsItems)
      → read h env a ≡ some (JsValue.array xs)
      → ((w : JsValue) → eval h calls (bind env n w) e ≡ some (p w))
      → eval_both h calls env (and_expr (every a n e) no_expr) ≡ some (all_items p xs)
  unfolding eval every_of
  every_step n e p a xs r k = elim (Bool-cases (all_items p xs)) [
    | inl t ↦ rw (r, every_item-all_items n e p xs k, t) refl
    | inr t ↦ rw (r, every_item-all_items n e p xs k, t) refl
  ]

  -- What the test of the elements has to do with their type.
  abbrev pub Tests : ℕ → Option Expr → Option (JsValue → Bool) → Type 0
  Tests n none none = Unit
  Tests n (some e) none = ⊥
  Tests n none (some p) = ⊥
  Tests n (some e) (some p) = (w : JsValue) → eval h calls (bind env n w) e ≡ some (p w)

  array_lem :
      (n : ℕ) (e : Option Expr) (p : Option (JsValue → Bool)) (a : Accessor) (v : JsValue)
      → read h env a ≡ some v
      → Tests n e p
      → eval h calls env (generate_array a n e) ≡ some (array_of p v)
  unfolding eval run_test is_array
  array_lem n none none a v r t = rw r
  array_lem n (some e) none a v r t = elim t [ ]
  array_lem n none (some p) a v r t = elim t [ ]
  array_lem n (some e) (some p) a (JsValue.array xs) r t =
      array_step h calls env a (and_expr (every a n e) no_expr) (JsValue.array xs) _ r
        (λ _. every_step n e p a xs r t)
  array_lem n (some e) (some p) a JsValue.undefined r t = rw r
  array_lem n (some e) (some p) a v r t = rw r

  void_step :
      (a : Accessor) (v : JsValue)
      → read h env a ≡ some v
      → eval h calls env (check Test.undefined a) ≡ some (is_undefined v)
  unfolding eval run_test
  void_step a v r = rw r

  module _ (l : Laws h) (a : Accessor) (v : JsValue) (r : read h env a ≡ some v)
      (inline : String → Accessor → ℕ → Expr) (decide : String → JsValue → Bool) (n : ℕ)
      (inlined : (name : String) → eval h calls env (inline name a n) ≡ some (decide name v)) where
    -- A type's test returns what holds of the value, if those of its parts do.
    pub generate_is_kind-has_kind :
        (k : Kind) (f : Facts) (ps els : Exprs) (e : Option Expr) (u : Members) (us is : Exprs)
        (bp bl bs bi : Bool) (p : Option (JsValue → Bool))
        → IsKindNormal h decide k f u
        → (is_record v ≡ true → eval_both h calls env ps ≡ some bp)
        → Tests n e p
        → (is_array v ≡ true → eval_both h calls env els ≡ some bl)
        → (k ≡ Kind.union
            → eval h calls env (generate_is_union_expr a f.discriminant u us) ≡ some bs)
        → eval h calls env (intersection_of is) ≡ some bi
        → eval h calls env (generate_is_kind inline a n k f ps e els u us is)
          ≡ some (has_kind h decide k f bp p bl bs bi v)
    unfolding generate_is_kind has_kind
    generate_is_kind-has_kind Kind.atomic f ps els e u us is bp bl bs bi p kn hp he hl hu hi =
        atomic-has_atomic h calls env l f a v r
    generate_is_kind-has_kind Kind.literal f ps els e u us is bp bl bs bi p kn hp he hl hu hi =
        literal_step f.literal_value a v kn r
    generate_is_kind-has_kind Kind.object f ps els e u us is bp bl bs bi p kn hp he hl hu hi =
        record_step h calls env a ps v bp r hp
    generate_is_kind-has_kind Kind.array f ps els e u us is bp bl bs bi p kn hp he hl hu hi =
        array_lem n e p a v r he
    generate_is_kind-has_kind Kind.tuple f ps els e u us is bp bl bs bi p kn hp he hl hu hi =
        array_step h calls env a els v bl r hl
    generate_is_kind-has_kind Kind.union f ps els e u us is bp bl bs bi p kn hp he hl hu hi =
        hu refl
    generate_is_kind-has_kind Kind.ref f ps els e u us is bp bl bs bi p kn hp he hl hu hi =
        inlined f.ref
    generate_is_kind-has_kind Kind.enum f ps els e u us is bp bl bs bi p kn hp he hl hu hi =
        enum_lem f.enum_values a v kn r
    generate_is_kind-has_kind Kind.native f ps els e u us is bp bl bs bi p kn hp he hl hu hi =
        native-has_native h calls env l f.native_type a v r
    generate_is_kind-has_kind Kind.never f ps els e u us is bp bl bs bi p kn hp he hl hu hi =
        unfold eval in refl
    generate_is_kind-has_kind Kind.void f ps els e u us is bp bl bs bi p kn hp he hl hu hi =
        void_step a v r
    generate_is_kind-has_kind Kind.intersection f ps els e u us is bp bl bs bi p kn hp he hl hu hi =
        hi
    generate_is_kind-has_kind _ f ps els e u us is bp bl bs bi p kn hp he hl hu hi =
        unfold eval in refl
