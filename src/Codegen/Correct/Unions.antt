-- ===== src/Codegen/Correct/Unions.antt =====
-- internal/codegen/validate_is.go: running the tests of the members of a union.
use tsgonest.Common.{
  ℕ, zero, suc, String, Bool, true, false, ◌&&◌, ◌||◌, Option, none, some, List, [], ◌∷◌, ◌≡◌, ◌==◌,
  refl, sym, ◌∙◌, ap, arith, eq_iff, inl, inr, ◌⊎◌,
}
use tsgonest.Common.Tests.{Bool-cases, Option-cases}
use tsgonest.Common.Maps.{Map, lookup, Distinct, is_some}
use tsgonest.Metadata.{ℤ, pos, negsuc, Discriminant}
use tsgonest.Codegen.JsValue.{JsValue, Host}
use tsgonest.Codegen.Expr.{
  Accessor, Expr, group, switch, property, Exprs, no_expr, and_expr, Env, Cases, otherwise_false,
  case, read, eval, eval_both, eval_either, eval_cases, is_case,
}
use tsgonest.Codegen.IsExpr.{
  expr_at, expr_of_index, mapping_cases, generate_is_discriminated_union_expr, intersection_of,
}
use tsgonest.Codegen.Matches.{is_record, property_of}
use tsgonest.Codegen.Correct.Steps.{record_step, read-property}

abbrev pub or_list : List Bool → Bool
or_list [] = false
or_list (b ∷ bs) = b || or_list bs

abbrev pub and_list : List Bool → Bool
and_list [] = true
and_list (b ∷ bs) = b && and_list bs

-- The element, or false past the end.
abbrev pub bit : List Bool → ℕ → Bool
bit [] i = false
bit (b ∷ bs) zero = b
bit (b ∷ bs) (suc i) = bit bs i

abbrev bit_of : Option ℤ → List Bool → Bool
bit_of none bs = false
bit_of (some (pos i)) bs = bit bs i
bit_of (some (negsuc i)) bs = false

or_list-bit : (bs : List Bool) (i : ℕ) → bit bs i ≡ true → or_list bs ≡ true
or_list-bit [] i e = absurd (ground arith)
or_list-bit (b ∷ bs) zero e = rw e
or_list-bit (true ∷ bs) (suc i) e = refl
or_list-bit (false ∷ bs) (suc i) e = or_list-bit bs i e

bit-or_list : (bs : List Bool) → or_list bs ≡ true → (i : ℕ) × (bit bs i ≡ true)
bit-or_list [] e = absurd (ground arith)
bit-or_list (true ∷ bs) e = (0, refl)
bit-or_list (false ∷ bs) e = let (i, k) = bit-or_list bs e in (suc i, k)

none_pass : (o : Option ℤ) (bs : List Bool) → or_list bs ≡ false → bit_of o bs ≡ false
none_pass none bs f = refl
none_pass (some (negsuc i)) bs f = refl
none_pass (some (pos i)) bs f = elim (Bool-cases (bit bs i)) [
  | inr e ↦ e
  | inl e ↦ absurd (ground (arith, or_list-bit bs i e))
]

implied :
    (b : Bool) (bs : List Bool)
    → ((i : ℕ) → bit bs i ≡ true → b ≡ true)
    → (b && or_list bs) ≡ or_list bs
implied b bs k = elim (Bool-cases (or_list bs)) [
  | inl t ↦ let (i, e) = bit-or_list bs t in rw (k i e)
  | inr f ↦ ground arith
]

lookup_absent :
    (k s : String) (m : Map ℤ) → (k == s) ≡ true → is_some (lookup k m) ≡ false → lookup s m ≡ none
lookup_absent k s m e n = elim (Option-cases (lookup s m)) [
  | inl p ↦ p
  | inr (a, p) ↦ absurd (ground (arith, eq_iff k s))
]

-- The member that the text names is the only one that can pass.
named :
    (m : Map ℤ) (bs : List Bool) (s : String)
    → ((i : ℕ)
        → bit bs i ≡ true
        → (k : String) × (JsValue.text s ≡ JsValue.text k) × (lookup k m ≡ some (pos i)))
    → bit_of (lookup s m) bs ≡ or_list bs
named m bs s n = elim (Bool-cases (or_list bs)) [
  | inl t ↦
      let (i, e) = bit-or_list bs t in
      let (k, p, q) = n i e in
      let found : lookup s m ≡ some (pos i) = ground (arith, p, q) in rw (found, e, t)
  | inr f ↦ rw f (none_pass (lookup s m) bs f)
]

eq_sym_false : (k s : String) → (k == s) ≡ false → (s == k) ≡ false
eq_sym_false k s e = ground (arith, eq_iff k s, eq_iff s k)

-- A member that passes is named by the text, in the mapping.
abbrev pub Names : Map ℤ → List Bool → JsValue → Type 0
Names m bs w =
    (i : ℕ) → bit bs i ≡ true → (k : String) × (w ≡ JsValue.text k) × (lookup k m ≡ some (pos i))

module _ (h : Host) (calls : String → JsValue → Option Bool) (env : Env) where
  -- Each expression runs to the Boolean of its place.
  abbrev pub Runs : Exprs → List Bool → Type 0
  Runs no_expr [] = Unit
  Runs no_expr (b ∷ bs) = ⊥
  Runs (and_expr e es) [] = ⊥
  Runs (and_expr e es) (b ∷ bs) = (eval h calls env e ≡ some b) × Runs es bs

  pub eval_either-or_list :
      (es : Exprs) (bs : List Bool) → Runs es bs → eval_either h calls env es ≡ some (or_list bs)
  unfolding eval
  eval_either-or_list no_expr [] r = refl
  eval_either-or_list no_expr (b ∷ bs) r = elim r [ ]
  eval_either-or_list (and_expr e es) [] r = elim r [ ]
  eval_either-or_list (and_expr e es) (true ∷ bs) (p, r) = rw p
  eval_either-or_list (and_expr e es) (false ∷ bs) (p, r) = rw p (eval_either-or_list es bs r)

  pub eval_both-and_list :
      (es : Exprs) (bs : List Bool) → Runs es bs → eval_both h calls env es ≡ some (and_list bs)
  unfolding eval
  eval_both-and_list no_expr [] r = refl
  eval_both-and_list no_expr (b ∷ bs) r = elim r [ ]
  eval_both-and_list (and_expr e es) [] r = elim r [ ]
  eval_both-and_list (and_expr e es) (false ∷ bs) (p, r) = rw p
  eval_both-and_list (and_expr e es) (true ∷ bs) (p, r) = rw p (eval_both-and_list es bs r)

  pub eval-intersection_of :
      (es : Exprs) (bs : List Bool)
      → Runs es bs
      → eval h calls env (intersection_of es) ≡ some (and_list bs)
  unfolding eval
  eval-intersection_of no_expr [] r = refl
  eval-intersection_of no_expr (b ∷ bs) r = elim r [ ]
  eval-intersection_of (and_expr e es) bs r = eval_both-and_list (and_expr e es) bs r

  Runs-expr_at :
      (es : Exprs) (bs : List Bool) (i : ℕ) (e : Expr)
      → Runs es bs
      → expr_at es i ≡ some e
      → eval h calls env e ≡ some (bit bs i)
  unfolding expr_at
  Runs-expr_at no_expr bs i e r p = absurd (ground arith)
  Runs-expr_at (and_expr f es) [] i e r p = elim r [ ]
  Runs-expr_at (and_expr f es) (b ∷ bs) zero e (q, r) p = ground arith
  Runs-expr_at (and_expr f es) (b ∷ bs) (suc i) e (q, r) p = Runs-expr_at es bs i e r p

  Runs-none :
      (es : Exprs) (bs : List Bool) (i : ℕ) → Runs es bs → expr_at es i ≡ none → bit bs i ≡ false
  unfolding expr_at
  Runs-none no_expr [] i r p = refl
  Runs-none no_expr (b ∷ bs) i r p = elim r [ ]
  Runs-none (and_expr f es) [] i r p = elim r [ ]
  Runs-none (and_expr f es) (b ∷ bs) zero r p = absurd (ground arith)
  Runs-none (and_expr f es) (b ∷ bs) (suc i) (q, r) p = Runs-none es bs i r p

  index_cases :
      (es : Exprs) (bs : List Bool) (z : ℤ)
      → Runs es bs
      → ((expr_of_index es z ≡ none) × (bit_of (some z) bs ≡ false))
        ⊎ ((e : Expr) × (expr_of_index es z ≡ some e)
            × (eval h calls env e ≡ some (bit_of (some z) bs)))
  index_cases es bs (negsuc i) r = inl (refl, refl)
  index_cases es bs (pos i) r = elim (Option-cases (expr_at es i)) [
    | inl n ↦ inl (n, Runs-none es bs i r n)
    | inr (e, s) ↦ inr (e, s, Runs-expr_at es bs i e r s)
  ]

  -- The switch runs the test of the member that the mapping names.
  cases-bit_of :
      (m : Map ℤ) (es : Exprs) (bs : List Bool) (s : String)
      → Distinct m
      → Runs es bs
      → eval_cases h calls env (mapping_cases m es) (JsValue.text s) ≡ some (bit_of (lookup s m) bs)
  unfolding mapping_cases eval is_case lookup
  cases-bit_of [] es bs s d r = refl
  cases-bit_of ((k, z) ∷ m) es bs s (n, d) r =
      let more = cases-bit_of m es bs s d r in
      elim (index_cases es bs z r) [
        | inl (p, q) ↦ elim (Bool-cases (k == s)) [
          | inl e ↦
              rw (p, mapping_cases, e, q)
                (more ∙ ap (λ o. some (bit_of o bs)) (lookup_absent k s m e n))
          | inr e ↦ rw (p, mapping_cases, e) more
        ]
        | inr (f, p, q) ↦ elim (Bool-cases (k == s)) [
          | inl e ↦ rw (p, mapping_cases, e, (eq_iff s k).1 (sym ((eq_iff k s).0 e))) q
          | inr e ↦ rw (p, mapping_cases, e, eq_sym_false k s e) more
        ]
      ]

  pub cases_other :
      (cs : Cases) (w : JsValue)
      → ((s : String) → is_case s w ≡ false)
      → eval_cases h calls env cs w ≡ some false
  unfolding eval
  cases_other otherwise_false w k = refl
  cases_other (case t e cs) w k = rw (k t) (cases_other cs w k)

  no_name :
      (m : Map ℤ) (es : Exprs) (bs : List Bool) (w : JsValue)
      → Names m bs w
      → ((s : String) → is_case s w ≡ false)
      → or_list bs ≡ false
  unfolding is_case
  no_name m es bs w n k = elim (Bool-cases (or_list bs)) [
    | inr f ↦ f
    | inl t ↦
        let (i, e) = bit-or_list bs t in
        let (s, p, _) = n i e in absurd (ground (arith, k s, p, eq_iff s s))
  ]

  cases-or_list :
      (m : Map ℤ) (es : Exprs) (bs : List Bool) (w : JsValue)
      → Distinct m
      → Runs es bs
      → Names m bs w
      → eval_cases h calls env (mapping_cases m es) w ≡ some (or_list bs)
  unfolding is_case
  cases-or_list m es bs (JsValue.text s) d r n =
      cases-bit_of m es bs s d r ∙ ap some (named m bs s n)
  cases-or_list m es bs JsValue.undefined d r n =
      rw (no_name m es bs JsValue.undefined n (λ s. refl))
        (cases_other (mapping_cases m es) JsValue.undefined (λ s. refl))
  cases-or_list m es bs w d r n =
      rw (no_name m es bs w n (λ s. refl)) (cases_other (mapping_cases m es) w (λ s. refl))

  pub switch_step :
      (a : Accessor) (d : Discriminant) (es : Exprs) (w : JsValue) (b : Bool)
      → read h env (property a d.property) ≡ some w
      → eval_cases h calls env (mapping_cases d.mapping es) w ≡ some b
      → eval h calls env (switch (property a d.property) (mapping_cases d.mapping es)) ≡ some b
  unfolding eval
  switch_step a d es w b r q = rw r q

  pub one_step :
      (e : Expr) (b : Bool)
      → eval h calls env e ≡ some b
      → eval_both h calls env (and_expr (group e) no_expr) ≡ some b
  unfolding eval
  one_step e true q = rw q
  one_step e false q = rw q

  -- The switch accepts what some member accepts.
  pub discriminated-or_list :
      (a : Accessor) (d : Discriminant) (es : Exprs) (bs : List Bool) (v : JsValue)
      → read h env a ≡ some v
      → Distinct d.mapping
      → Runs es bs
      → ((i : ℕ) → bit bs i ≡ true → is_record v ≡ true)
      → Names d.mapping bs (property_of h v d.property)
      → eval h calls env (generate_is_discriminated_union_expr a d es) ≡ some (or_list bs)
  unfolding generate_is_discriminated_union_expr
  discriminated-or_list a d es bs v r ds rs k n =
      let found : is_record v ≡ true
          → eval h calls env (switch (property a d.property) (mapping_cases d.mapping es))
            ≡ some (or_list bs) =
        λ t.
          switch_step a d es (property_of h v d.property) (or_list bs)
            (read-property h calls env a d.property v r t)
            (cases-or_list d.mapping es bs _ ds rs n) in
      record_step h calls env a _ v (or_list bs) r (λ t. one_step _ (or_list bs) (found t))
      ∙ ap some (implied (is_record v) bs k)
