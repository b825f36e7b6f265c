-- ===== src/Codegen/Correct/References.antt =====
-- internal/codegen/validate_is.go: references, and the function `is` of a type.
use tsgonest.Common.{
  ℕ, zero, suc, ◌≤◌, ◌<◌, ◌+◌, String, Bool, true, false, Option, none, some, List, [], ◌∷◌, ◌≡◌,
  ◌==◌, refl, sym, ◌∙◌, ap, arith, if◌then◌else◌, inl, inr, eq_iff,
}
use tsgonest.Common.Tests.{Bool-cases, Option-cases}
use tsgonest.Common.Maps.{lookup, has, is_some}
use tsgonest.Metadata.{TypeRegistry}
use tsgonest.Codegen.JsValue.{JsValue, Host}
use tsgonest.Codegen.Expr.{Accessor, Env, read, eval, call, always}
use tsgonest.Codegen.IsExpr.{generate_ref, count_types, contains}
use tsgonest.Codegen.Normal.{AreDecided}
use tsgonest.Codegen.Correct.Steps.{Laws}
use tsgonest.Codegen.Correct.Types.{generate_is_expr-matches}

-- How many types are not under way.
pub room : TypeRegistry → List String → ℕ
room [] generating = 0
room ((name, m) ∷ more) generating =
    (if contains generating name then 0 else 1) + room more generating

pub room-count_types :
    (types : TypeRegistry) (generating : List String) → room types generating ≤ count_types types
unfolding room count_types
room-count_types [] generating = omega arith
room-count_types ((name, m) ∷ more) generating = ground (arith, room-count_types more generating)

room_shrinks :
    (types : TypeRegistry) (generating : List String) (name : String)
    → room types (name ∷ generating) ≤ room types generating
unfolding room
room_shrinks [] generating name = omega arith
room_shrinks ((key, m) ∷ more) generating name = ground (arith, room_shrinks more generating name)

room_spent :
    (types : TypeRegistry) (generating : List String) (name : String)
    → contains generating name ≡ false
    → has name types ≡ true
    → room types (name ∷ generating) < room types generating
unfolding room lookup
room_spent [] generating name f k = absurd (ground arith)
room_spent ((key, m) ∷ more) generating name f k = elim (Bool-cases (key == name)) [
  | inl e ↦
      let same = (eq_iff key name).0 e in
      let back : (name == key) ≡ true = (eq_iff name key).1 (sym same) in
      let fresh : contains generating key ≡ false = rw same f in
      ground (arith, back, fresh, room_shrinks more generating name)
  | inr e ↦ ground (arith, e, eq_iff key name, eq_iff name key, room_spent more generating name f)
]

module _ (h : Host) (l : Laws h) (calls : String → JsValue → Option Bool)
    (decide : String → JsValue → Bool) (types : TypeRegistry) (decided : AreDecided h decide types)
    (open_types : (name : String) (v : JsValue)
      → lookup name types ≡ none
      → decide name v ≡ true) where
  call_step :
      (env : Env) (name : String) (a : Accessor) (v : JsValue)
      → read h env a ≡ some v
      → eval h calls env (call name a) ≡ calls name v
  unfolding eval
  call_step env name a v r = rw r

  always_step : (env : Env) → eval h calls env always ≡ some true
  unfolding eval
  always_step env = refl

  under_way :
      (generating : List String) (name other : String) (w : JsValue)
      → has name types ≡ true
      → ((n : String) (v : JsValue) → contains generating n ≡ true → calls n v ≡ some (decide n v))
      → ((n : String) (v : JsValue) → has n types ≡ true → calls n v ≡ some (decide n v))
      → contains (name ∷ generating) other ≡ true
      → calls other w ≡ some (decide other w)
  under_way generating name other w p called known c = elim (Bool-cases (name == other)) [
    | inl e ↦ let same = (eq_iff name other).0 e in rw (← same) (known name w p)
    | inr e ↦ called other w (rw e at c)
  ]

  -- What is put in for a reference returns what `decide` says, if the functions of the types under
  -- way do and there is fuel for the rest.
  pub generate_ref-decide :
      (fuel : ℕ) (generating : List String)
      → room types generating ≤ fuel
      → ((name : String) (v : JsValue)
          → contains generating name ≡ true
          → calls name v ≡ some (decide name v))
      → ((name : String) (v : JsValue)
          → has name types ≡ true
          → calls name v ≡ some (decide name v))
      → (env : Env) (name : String) (a : Accessor) (n : ℕ) (v : JsValue) → read h env a ≡ some v
      → eval h calls env (generate_ref types fuel generating name a n) ≡ some (decide name v)
  unfolding generate_ref
  generate_ref-decide zero generating small called known env name a n v r =
      elim (Bool-cases (contains generating name)) [
        | inl e ↦ rw e (call_step env name a v r ∙ called name v e)
        | inr e ↦ elim (Option-cases (lookup name types)) [
          | inl p ↦ rw (e, p, generate_ref) (always_step env ∙ ap some (sym (open_types name v p)))
          | inr (m, p) ↦ absurd (ground (arith, room_spent types generating name e, p))
        ]
      ]
  generate_ref-decide (suc fuel) generating small called known env name a n v r =
      elim (Bool-cases (contains generating name)) [
        | inl e ↦ rw e (call_step env name a v r ∙ called name v e)
        | inr e ↦ elim (Option-cases (lookup name types)) [
          | inl p ↦ rw (e, p, generate_ref) (always_step env ∙ ap some (sym (open_types name v p)))
          | inr (m, p) ↦
              let spent = room_spent types generating name e (ap is_some p) in
              let inner =
                generate_ref-decide fuel (name ∷ generating) (omega arith)
                  (λ other w c. under_way generating name other w (ap is_some p) called known c)
                  known in
              rw (e, p, generate_ref)
                (generate_is_expr-matches h l calls decide
                    (generate_ref types fuel (name ∷ generating)) inner m env a n v
                    (decided name m p).0 r
                  ∙ ap some (sym ((decided name m p).1 v)))
        ]
      ]
