-- ===== src/Codegen/Calls.antt =====
-- internal/codegen/validate_is.go: expressions that call no function. It writes a call only where a
-- type is met again within itself.
use tsgonest.Common.{String, Bool, true, false, ◌&&◌, Option, ◌≡◌, refl, ap, arith}
use tsgonest.Codegen.JsValue.{JsValue, Host}
use tsgonest.Codegen.Expr.{
  Env, Expr, Exprs, Cases, eval, eval_both, eval_either, eval_cases, every_of, bind, read, ◌>>=◌,
}

unfoldable mutual
  pub calls_nothing : Expr → Bool
  calls_nothing Expr.always = true
  calls_nothing Expr.never = true
  calls_nothing (Expr.check t a) = true
  calls_nothing (Expr.every a n e) = calls_nothing e
  calls_nothing (Expr.call f a) = false
  calls_nothing (Expr.both es) = all_call_nothing es
  calls_nothing (Expr.either es) = all_call_nothing es
  calls_nothing (Expr.group e) = calls_nothing e
  calls_nothing (Expr.switch a cs) = cases_call_nothing cs
  calls_nothing Expr.unfinished = true

  pub all_call_nothing : Exprs → Bool
  all_call_nothing Exprs.no_expr = true
  all_call_nothing (Exprs.and_expr e es) = calls_nothing e && all_call_nothing es

  pub cases_call_nothing : Cases → Bool
  cases_call_nothing Cases.otherwise_false = true
  cases_call_nothing (Cases.case t e cs) = calls_nothing e && cases_call_nothing cs

module _ (h : Host) (f g : String → JsValue → Option Bool) where
  -- Such an expression runs alike whatever functions are in scope.
  mutual
    unfolding calls_nothing eval

    pub eval-calls_nothing :
        (env : Env) (e : Expr) → calls_nothing e ≡ true → eval h f env e ≡ eval h g env e
    eval-calls_nothing env Expr.always c = refl
    eval-calls_nothing env Expr.never c = refl
    eval-calls_nothing env (Expr.check t a) c = refl
    eval-calls_nothing env (Expr.every a n e) c =
        ap (λ k. read h env a >>= every_of k) (λ u w. eval-calls_nothing (bind env n w) e c u)
    eval-calls_nothing env (Expr.call n a) c = absurd (ground (arith, c))
    eval-calls_nothing env (Expr.both es) c = both_alike env es c
    eval-calls_nothing env (Expr.either es) c = either_alike env es c
    eval-calls_nothing env (Expr.group e) c = eval-calls_nothing env e c
    eval-calls_nothing env (Expr.switch a cs) c =
        ap (λ k. read h env a >>= k) (λ u v. cases_alike env cs v c u)
    eval-calls_nothing env Expr.unfinished c = refl

    both_alike :
        (env : Env) (es : Exprs)
        → all_call_nothing es ≡ true
        → eval_both h f env es ≡ eval_both h g env es
    both_alike env Exprs.no_expr c = refl
    both_alike env (Exprs.and_expr e es) c =
        rw (eval-calls_nothing env e (ground (arith, c)), both_alike env es (ground (arith, c)))
          refl

    either_alike :
        (env : Env) (es : Exprs)
        → all_call_nothing es ≡ true
        → eval_either h f env es ≡ eval_either h g env es
    either_alike env Exprs.no_expr c = refl
    either_alike env (Exprs.and_expr e es) c =
        rw (eval-calls_nothing env e (ground (arith, c)), either_alike env es (ground (arith, c)))
          refl

    cases_alike :
        (env : Env) (cs : Cases) (v : JsValue)
        → cases_call_nothing cs ≡ true
        → eval_cases h f env cs v ≡ eval_cases h g env cs v
    cases_alike env Cases.otherwise_false v c = refl
    cases_alike env (Cases.case t e cs) v c =
        rw (eval-calls_nothing env e (ground (arith, c)), cases_alike env cs v (ground (arith, c)))
          refl
