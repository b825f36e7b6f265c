-- ===== src/Sdkgen/Fresh.antt =====
-- internal/sdkgen/shared.go, safeTSName: the new names.
use Prim.Native.Char.{Char, code}
use text.Mathlib.TextLemmas.{cons-append}
use mathlib.Core.Path.{subst}
use tsgonest.Common.{
  String, ◌≡◌, ◌∙◌, refl, sym, ap, Bool, true, false, Option, none, some, List, [], ◌∷◌, ◌==◌,
  eq_iff, arith, inl, inr, Bool-cases, if_cases, nat_eq,
}
use tsgonest.Common.Lists.{any, All}
use tsgonest.Common.Texts.{◌<>◌}
use tsgonest.Common.Maps.{Map, lookup, is_some, has}
use tsgonest.Sdkgen.Nodes.{Node, builtin_types, is_builtin, safe_ts_name, collisions}

-- A text whose last character is an underscore.
abbrev ends_low : String → Bool
ends_low String.[] = false
ends_low (String.◌∷◌ c String.[]) = nat_eq (code c) b'_'
ends_low (String.◌∷◌ c (String.◌∷◌ d s)) = ends_low (String.◌∷◌ d s)

ends_low-append : (s : String) → ends_low (s <> "_") ≡ true
ends_low-append String.[] = refl
ends_low-append (String.◌∷◌ c String.[]) = rw cons-append refl
ends_low-append (String.◌∷◌ c (String.◌∷◌ d s)) =
    let tail : ends_low (String.◌∷◌ d s <> "_") ≡ true = ends_low-append (String.◌∷◌ d s) in
    ap ends_low (two c d s "_") ∙ ap ends_low (sym (cons-append d s "_")) ∙ tail
  where
    two :
        (c d : Char) (s t : String)
        → String.◌∷◌ c (String.◌∷◌ d s) <> t ≡ String.◌∷◌ c (String.◌∷◌ d (s <> t))
    two c d s t = rw (cons-append, cons-append) refl

any-ends_low :
    (name : String) (bs : List String)
    → ends_low name ≡ true
    → All (λ b. ends_low b ≡ false) bs
    → any (λ b. b == name) bs ≡ false
any-ends_low name [] h k = refl
any-ends_low name (b ∷ bs) h (e, k) = elim (Bool-cases (b == name)) [
  | inl q ↦
      let low : ends_low name ≡ false = subst (λ n. ends_low n ≡ false) ((eq_iff b name).0 q) e in
      absurd (ground arith)
  | inr q ↦ ground (arith, any-ends_low name bs h k)
]

-- The new names are no names of TypeScript's own.
pub safe_ts_name-fresh : (name : String) → is_builtin (safe_ts_name name) ≡ false
unfolding safe_ts_name is_builtin
safe_ts_name-fresh name =
    if_cases (λ n. is_builtin n ≡ false) (is_builtin name) _ _
      (λ _. any-ends_low (name <> "_") builtin_types (ends_low-append name) all_without) (λ e. e)
  where
    all_without : All (λ b. ends_low b ≡ false) builtin_types
    all_without = (
      refl,
      (
        refl,
        (
          refl,
          (
            refl,
            (
              refl,
              (
                refl,
                (
                  refl,
                  (
                    refl,
                    (
                      refl,
                      (
                        refl,
                        (
                          refl,
                          (
                            refl,
                            (
                              refl,
                              (
                                refl,
                                (
                                  refl,
                                  (
                                    refl,
                                    (
                                      refl,
                                      (
                                        refl,
                                        (
                                          refl,
                                          (
                                            refl,
                                            (
                                              refl,
                                              (
                                                refl,
                                                (refl, (refl, (refl, (refl, (refl, (refl, tt)))))),
                                              ),
                                            ),
                                          ),
                                        ),
                                      ),
                                    ),
                                  ),
                                ),
                              ),
                            ),
                          ),
                        ),
                      ),
                    ),
                  ),
                ),
              ),
            ),
          ),
        ),
      ),
    )

-- Only names of TypeScript's own are renamed, and to other names.
abbrev pub Renames : Map String → Type 0
Renames rs = All (λ e. (is_builtin e.0 ≡ true) × (is_builtin e.1 ≡ false)) rs

pub collisions-Renames : (schemas : Map Node) → Renames (collisions schemas)
unfolding collisions safe_ts_name
collisions-Renames [] = tt
collisions-Renames ((name, n) ∷ more) =
    let rest = collisions-Renames more in
    if_cases Renames (safe_ts_name name == name) _ _ (λ _. rest)
      (λ e. ((changed name e, safe_ts_name-fresh name), rest))
  where
    changed : (name : String) → (safe_ts_name name == name) ≡ false → is_builtin name ≡ true
    changed name e = elim (Bool-cases (is_builtin name)) [
      | inl b ↦ b
      | inr b ↦
          let same : safe_ts_name name ≡ name = rw b refl in
          absurd (ground (arith, (eq_iff (safe_ts_name name) name).1 same))
    ]

-- A name that is not TypeScript's own is not renamed.
pub is_none : {V : Type 0} (o : Option V) → is_some o ≡ false → o ≡ none
is_none none h = refl
is_none (some v) h = absurd (ground arith)

pub has-Renames :
    (name : String) (rs : Map String) → Renames rs → is_builtin name ≡ false → has name rs ≡ false
unfolding lookup
has-Renames name [] h e = refl
has-Renames name ((old, new) ∷ rs) ((b, f), h) e = elim (Bool-cases (old == name)) [
  | inl q ↦
      let b' : is_builtin name ≡ true =
        subst (λ n. is_builtin n ≡ true) ((eq_iff old name).0 q) b in
      absurd (ground arith)
  | inr q ↦ rw q (has-Renames name rs h e)
]

pub differ : (a b : String) → is_builtin a ≡ true → is_builtin b ≡ false → (a == b) ≡ false
differ a b h k = elim (Bool-cases (a == b)) [
  | inl q ↦
      let same : is_builtin b ≡ true = subst (λ n. is_builtin n ≡ true) ((eq_iff a b).0 q) h in
      absurd (ground arith)
  | inr q ↦ q
]
