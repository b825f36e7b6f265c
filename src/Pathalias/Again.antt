-- ===== src/Pathalias/Again.antt =====
-- internal/pathalias/pathalias.go: an import that was rewritten is relative and stays as it is.
use tsgonest.Common.{
  String, true, not, ◌&&◌, ◌-◌, ◌||◌, Option, none, some, List, [], ◌∷◌, ◌==◌, ◌≡◌, ◌⊎◌, inl, inr,
  refl, ap, arith, eq_iff,
}
use tsgonest.Common.Tests.{if_cases, Bool-cases, Option-cases}
use tsgonest.Common.Maps.{Map}
use tsgonest.Common.Texts.{has_prefix}
use tsgonest.Pathalias.{
  Match, best_match, exact, exact_target, first_target, match_and_resolve, split_star, through,
  trim_dot, substitute, is_plain, text_length, drop_text, take_text,
}
use tsgonest.Pathalias.Output.{
  PathFunctions, PathResolver, dotted_lem, to_relative, source_to_output, resolve_specifier,
  resolve_target,
}

-- Nothing, or a relative import.
abbrev IsResolved : String → Type 0
IsResolved t = (t ≡ "") ⊎ (has_prefix "." t ≡ true)

module _ (resolve : String → String) (resolved : (t : String) → IsResolved (resolve t)) where
  first_target-IsResolved :
      (specifier : String) (ts : List String) (t : String)
      → (first_target resolve specifier ts t ≡ specifier)
        ⊎ (has_prefix "." (first_target resolve specifier ts t) ≡ true)
  unfolding first_target
  first_target-IsResolved specifier [] t = inl refl
  first_target-IsResolved specifier (u ∷ us) t =
      let found = resolve (substitute (trim_dot u) t) in
      elim (Bool-cases (found == "")) [
        | inl y ↦ rw y (first_target-IsResolved specifier us t)
        | inr n ↦ elim (resolved (substitute (trim_dot u) t)) [
          | inl e ↦ absurd (ground (arith, n, (eq_iff found "").1 e))
          | inr d ↦ rw n (inr d)
        ]
      ]

  exact_target-IsResolved : (ts : List String) → IsResolved (exact_target resolve ts)
  exact_target-IsResolved [] = inl refl
  exact_target-IsResolved (t ∷ ts) = resolved (trim_dot t)

  exact-IsResolved :
      (specifier : String) (xs : Map (List String)) → IsResolved (exact resolve specifier xs)
  unfolding exact
  exact-IsResolved specifier [] = inl refl
  exact-IsResolved specifier ((key, ts) ∷ more) =
      let found = exact_target resolve ts in
      if_cases (λ t. IsResolved t)
        (key == specifier && is_plain (split_star key) && not (found == "")) found
        (exact resolve specifier more) (λ _. exact_target-IsResolved ts)
        (λ _. exact-IsResolved specifier more)

  through-dotted :
      (specifier : String) (m : Option Match)
      → (through resolve specifier m ≡ specifier)
        ⊎ (has_prefix "." (through resolve specifier m) ≡ true)
  through-dotted specifier none = inl refl
  through-dotted specifier (some m) = first_target-IsResolved specifier m.targets (
      take_text (text_length specifier - text_length m.suffix - text_length m.prefix)
        (drop_text (text_length m.prefix) specifier))

  -- An import is left as it is, or becomes relative.
  match_and_resolve-dotted :
      (xs : Map (List String)) (specifier : String)
      → (match_and_resolve resolve xs specifier ≡ specifier)
        ⊎ (has_prefix "." (match_and_resolve resolve xs specifier) ≡ true)
  unfolding match_and_resolve
  match_and_resolve-dotted xs specifier =
      elim (Bool-cases (has_prefix "." specifier || has_prefix "/" specifier)) [
        | inl y ↦ rw y (inl refl)
        | inr n ↦ elim (Bool-cases (exact resolve specifier xs == "")) [
          | inl e ↦ rw (n, e) (through-dotted specifier (best_match specifier none xs))
          | inr f ↦ elim (exact-IsResolved specifier xs) [
            | inl e ↦ absurd (ground (arith, f, (eq_iff (exact resolve specifier xs) "").1 e))
            | inr d ↦ rw (n, f) (inr d)
          ]
        ]
      ]

  relative_kept :
      (xs : Map (List String)) (t : String)
      → has_prefix "." t ≡ true
      → match_and_resolve resolve xs t ≡ t
  unfolding match_and_resolve
  relative_kept xs t e = rw e refl

  pub match_and_resolve_idem :
      (xs : Map (List String)) (specifier : String)
      → match_and_resolve resolve xs (match_and_resolve resolve xs specifier)
        ≡ match_and_resolve resolve xs specifier
  match_and_resolve_idem xs specifier = elim (match_and_resolve-dotted xs specifier) [
    | inl e ↦ ap (match_and_resolve resolve xs) e
    | inr d ↦ relative_kept xs (match_and_resolve resolve xs specifier) d
  ]

module _ (paths : PathFunctions) (r : PathResolver) where
  -- What resolves is a relative import.
  to_relative-IsResolved :
      (from_file target_path : String) → IsResolved (to_relative paths r from_file target_path)
  unfolding to_relative has_prefix
  to_relative-IsResolved from_file target_path =
      elim (Option-cases (paths.rel (paths.dir from_file) (source_to_output paths r target_path))) [
        | inl e ↦ inl (rw e refl)
        | inr (rel, e) ↦ inr (rw e (dotted_lem (paths.to_slash rel)))
      ]

  -- An import that was resolved for a file resolves, for that file, to itself.
  pub resolve_specifier_idem :
      (from_file specifier : String)
      → resolve_specifier paths r from_file (resolve_specifier paths r from_file specifier)
        ≡ resolve_specifier paths r from_file specifier
  resolve_specifier_idem from_file specifier =
      match_and_resolve_idem (resolve_target paths r from_file)
        (λ t. to_relative-IsResolved from_file (paths.join r.paths_base_dir t)) r.aliases specifier
