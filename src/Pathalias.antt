-- ===== src/Pathalias.antt =====
-- internal/pathalias/pathalias.go: which alias of tsconfig's paths an import goes through, and the
-- import statements of a line. `resolve` stands for `toRelative` of a target that is joined to the base
-- directory, an empty text where that fails. Lengths are counted in code points: they are those of
-- prefixes, and of suffixes, of one text, which compare as their lengths in bytes do.
pub mod Patterns
pub mod Choice
pub mod Order
pub mod Output
pub mod Again
pub mod Lines
pub mod Edited
pub mod RootDir
mod Examples
use Prim.Native.Char.{Char, code}
use Prim.Native.String
use tsgonest.Common.{
  ℕ, zero, suc, ◌+◌, ◌-◌, String, Bool, true, false, not, ◌&&◌, ◌||◌, Option, none, some, List, [],
  ◌∷◌, ◌==◌, nat_eq, ltb, leb, if◌then◌else◌,
}
use tsgonest.Common.Maps.{Map}
use tsgonest.Common.Texts.{◌<>◌, has_prefix}

unfoldable pub text_length : String → ℕ
text_length String.[] = 0
text_length (String.◌∷◌ c s) = suc (text_length s)

unfoldable pub drop_text : ℕ → String → String
drop_text zero s = s
drop_text (suc n) String.[] = String.[]
drop_text (suc n) (String.◌∷◌ c s) = drop_text n s

unfoldable pub take_text : ℕ → String → String
take_text zero s = String.[]
take_text (suc n) String.[] = String.[]
take_text (suc n) (String.◌∷◌ c s) = String.◌∷◌ c (take_text n s)

-- `strings.HasSuffix(s, p)`, with the suffix first.
unfoldable pub has_suffix : String → String → Bool
unfolding text_length drop_text
has_suffix p s =
    leb (text_length p) (text_length s) && drop_text (text_length s - text_length p) s == p

-- The texts in front of the first star and behind it.
abbrev pub onto_front : Option (String × String) → Char → Option (String × String)
onto_front none c = none
onto_front (some (p, s)) c = some (String.◌∷◌ c p, s)

unfoldable pub split_star : String → Option (String × String)
split_star String.[] = none
split_star (String.◌∷◌ c s) =
    let rest = onto_front (split_star s) c in
    if nat_eq (code c) 42 then some (String.[], s) else rest

pub record Match : Type 0 where
  pub prefix : String
  pub suffix : String
  pub targets : List String

-- Whether the wildcard pattern fits the specifier.
unfoldable pub fits : String → String × String → Bool
unfolding has_suffix
fits specifier (p, s) =
    has_prefix p specifier
    && (has_suffix s specifier && leb (text_length p + text_length s) (text_length specifier))

abbrev pub fitting : String → Option (String × String) → Option (String × String)
fitting specifier none = none
fitting specifier (some w) = if fits specifier w then some w else none

unfoldable pub wildcard : String → String → Option (String × String)
unfolding fits split_star
wildcard specifier key = fitting specifier (split_star key)

-- A longer prefix wins, and at the same prefix a longer suffix.
abbrev pub longer : (p s q t : ℕ) → Bool
longer p s q t = ltb q p || (nat_eq q p && ltb t s)

abbrev pub beats : String × String → Option Match → Bool
beats (p, s) none = true
beats (p, s) (some m) =
    longer (text_length p) (text_length s) (text_length m.prefix) (text_length m.suffix)

abbrev pub improve : Option (String × String) → List String → Option Match → Option Match
improve none targets best = best
improve (some (p, s)) targets best =
    if beats (p, s) best then some (record { prefix = p; suffix = s; targets = targets }) else best

-- The loop over the aliases.
unfoldable pub best_match : String → Option Match → Map (List String) → Option Match
unfolding wildcard
best_match specifier best [] = best
best_match specifier best ((key, targets) ∷ more) =
    best_match specifier (improve (wildcard specifier key) targets best) more

-- `strings.TrimPrefix(target, "./")`.
unfoldable pub trim_dot : String → String
unfolding drop_text has_prefix
trim_dot target = if has_prefix "./" target then drop_text 2 target else target

-- `strings.Replace(target, "*", text, 1)`.
abbrev pub put_in : Option (String × String) → String → String → String
put_in none target text = target
put_in (some (p, s)) target text = p <> text <> s

abbrev pub substitute : String → String → String
substitute target text = put_in (split_star target) target text

abbrev pub is_plain : Option (String × String) → Bool
is_plain none = true
is_plain (some w) = false

module _ (resolve : String → String) where
  -- The first target that resolves.
  unfoldable pub first_target : String → List String → String → String
  unfolding trim_dot split_star
  first_target specifier [] text = specifier
  first_target specifier (t ∷ ts) text =
      let rest = first_target specifier ts text in
      let found = resolve (substitute (trim_dot t) text) in if found == "" then rest else found

  abbrev pub exact_target : List String → String
  exact_target [] = ""
  exact_target (t ∷ ts) = resolve (trim_dot t)

  -- An alias without a star that is the specifier itself; empty where there is none.
  unfoldable pub exact : String → Map (List String) → String
  unfolding split_star trim_dot
  exact specifier [] = ""
  exact specifier ((key, targets) ∷ more) =
      let rest = exact specifier more in
      let found = exact_target targets in
      if key == specifier && is_plain (split_star key) && not (found == "") then found else rest

  abbrev pub through : String → Option Match → String
  through specifier none = specifier
  through specifier (some m) = first_target specifier m.targets (
      take_text (text_length specifier - text_length m.suffix - text_length m.prefix)
        (drop_text (text_length m.prefix) specifier))

  -- `matchAndResolve`.
  unfoldable pub match_and_resolve : Map (List String) → String → String
  unfolding has_prefix exact best_match first_target text_length drop_text take_text
  match_and_resolve aliases specifier =
      let found = exact specifier aliases in
      if has_prefix "." specifier || has_prefix "/" specifier
      then specifier
      else if not (found == "")
      then found
      else through specifier (best_match specifier none aliases)
