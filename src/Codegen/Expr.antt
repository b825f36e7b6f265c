-- ===== src/Codegen/Expr.antt =====
-- internal/codegen: the JavaScript expressions that the checks are made of, as syntax. Each case
-- is one format string of the generator; `eval` runs it. A result `none` is an exception. The text of an
-- expression is not modelled: literals are values here, as if %q and jsLiteral wrote them as JavaScript
-- reads them.
use tsgonest.Common.{
  ℕ, nat_eq, String, Bool, true, false, not, Option, none, some, ◌==◌, if◌then◌else◌,
}
use tsgonest.Metadata.{Float64, ℤ, Value}
use tsgonest.Codegen.JsValue.{
  JsValue, JsItems, Host, typeof, is_undefined, is_null, is_array, reaches, within, get, get_at,
  has_key, size, equals,
}

-- The text of an accessor: the argument, the variable of an arrow function, a property, an element.
pub data Accessor : Type 0 where
  input : Accessor
  variable : ℕ → Accessor
  property : Accessor → String → Accessor
  element : Accessor → ℕ → Accessor

-- A test of one value.
pub data Test : Type 0 where
  is_type is_not_type : String → Test
  null undefined not_null not_undefined : Test
  finite array : Test
  same_as : Value → Test
  instance_of : String → Test
  date_valid : Test
  lacks : String → Test
  matches_regex : (pattern flags : String) → Test
  at_least at_most above below : Float64 → Test
  length_at_least length_at_most : ℤ → Test

mutual
  pub data Expr : Type 0 where
    always never : Expr
    check : Test → Accessor → Expr
    every : Accessor → ℕ → Expr → Expr
    call : String → Accessor → Expr
    both either : Exprs → Expr
    group : Expr → Expr
    switch : Accessor → Cases → Expr
    -- What the generator has no fuel left for; the source has no such case.
    unfinished : Expr

  pub data Exprs : Type 0 where
    no_expr : Exprs
    and_expr : Expr → Exprs → Exprs

  pub data Cases : Type 0 where
    otherwise_false : Cases
    case : String → Expr → Cases → Cases

-- What a body is run in: the argument, and the value of each arrow function's variable.
pub record Env : Type 0 where
  pub argument : JsValue
  pub value_of : ℕ → JsValue

unfoldable pub bind : Env → ℕ → JsValue → Env
bind env n v = record env { value_of = λ m. if nat_eq m n then v else env.value_of m }

infixl 5 ◌>>=◌
abbrev pub ◌>>=◌ : {A B : Type 0} → Option A → (A → Option B) → Option B
none >>= f = none
some a >>= f = f a

-- `a && b` and `a || b`: the second operand is run only where it decides.
abbrev pub and_then : Option Bool → Option Bool → Option Bool
and_then none e = none
and_then (some false) e = some false
and_then (some true) e = e

abbrev pub or_else : Option Bool → Option Bool → Option Bool
or_else none e = none
or_else (some true) e = some true
or_else (some false) e = e

abbrev pub long : (ℕ → ℤ → Bool) → ℤ → Option ℕ → Bool
long order n none = false
long order n (some m) = order m n

abbrev pub negated : Option Bool → Option Bool
negated none = none
negated (some b) = some (not b)

-- `Array.prototype.every`.
unfoldable pub every_item : (JsValue → Option Bool) → JsItems → Option Bool
every_item f JsItems.no_item = some true
every_item f (JsItems.item v more) = and_then (f v) (every_item f more)

unfoldable pub every_of : (JsValue → Option Bool) → JsValue → Option Bool
unfolding every_item
every_of f (JsValue.array xs) = every_item f xs
every_of f v = none

-- `case "text":` of a switch on this value.
unfoldable pub is_case : String → JsValue → Bool
is_case t (JsValue.text s) = s == t
is_case t v = false

module _ (h : Host) where
  unfoldable pub run_test : Test → JsValue → Option Bool
  run_test (is_type t) v = some (typeof v == t)
  run_test (is_not_type t) v = some (not (typeof v == t))
  run_test null v = some (is_null v)
  run_test undefined v = some (is_undefined v)
  run_test not_null v = some (not (is_null v))
  run_test not_undefined v = some (not (is_undefined v))
  run_test finite (JsValue.number f) = some (h.is_finite f)
  run_test finite v = some false
  run_test array v = some (is_array v)
  run_test (same_as w) v = equals h v w
  run_test (instance_of c) v = some (h.instance_of v c)
  run_test date_valid v = h.valid_date v
  run_test (lacks key) v = negated (has_key h v key)
  run_test (matches_regex p fl) v = some (h.test p fl v)
  run_test (at_least x) v = some (h.at_least v x)
  run_test (at_most x) v = some (h.at_most v x)
  run_test (above x) v = some (h.above v x)
  run_test (below x) v = some (h.below v x)
  run_test (length_at_least n) v = size h v >>= λ l. some (long reaches n l)
  run_test (length_at_most n) v = size h v >>= λ l. some (long within n l)

  -- The value of an accessor.
  unfoldable pub read : Env → Accessor → Option JsValue
  read env input = some env.argument
  read env (variable n) = some (env.value_of n)
  read env (property a key) = read env a >>= λ v. get h v key
  read env (element a i) = read env a >>= λ v. get_at h v i

  -- `calls` are the functions in scope.
  module _ (calls : String → JsValue → Option Bool) where
    unfoldable mutual
      pub eval : Env → Expr → Option Bool
      eval env always = some true
      eval env never = some false
      eval env (check t a) = read env a >>= λ v. run_test t v
      eval env (every a n e) = read env a >>= every_of (λ w. eval (bind env n w) e)
      eval env (call f a) = read env a >>= calls f
      eval env (both es) = eval_both env es
      eval env (either es) = eval_either env es
      eval env (group e) = eval env e
      eval env (switch a cs) = read env a >>= eval_cases env cs
      eval env unfinished = none

      pub eval_both : Env → Exprs → Option Bool
      eval_both env no_expr = some true
      eval_both env (and_expr e es) = and_then (eval env e) (eval_both env es)

      pub eval_either : Env → Exprs → Option Bool
      eval_either env no_expr = some false
      eval_either env (and_expr e es) = or_else (eval env e) (eval_either env es)

      pub eval_cases : Env → Cases → JsValue → Option Bool
      eval_cases env otherwise_false v = some false
      eval_cases env (case t e cs) v =
          let rest = eval_cases env cs v in if is_case t v then eval env e else rest
