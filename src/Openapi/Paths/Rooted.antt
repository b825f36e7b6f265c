-- ===== src/Openapi/Paths/Rooted.antt =====
-- internal/openapi/generator.go: the first character of a path, and the names of placeholders.
use Prim.Native.Char.{code}
use Prim.Native.String.{String, [], ◌∷◌}
use tsgonest.Common.{
  ℕ, ◌≡◌, refl, Bool, true, false, ◌&&◌, Option, none, some, List, ◌==◌, nat_eq, if◌then◌else◌, map,
  arith, inl, inr, Bool-cases, if_cases,
}
use text.Mathlib.TextLemmas.{nil-append, cons-append}
use tsgonest.Common.Lists.{All, is_empty}
use tsgonest.Common.Texts.{◌<>◌, split, join, has_prefix}
use tsgonest.Openapi.Paths.{convert_part, convert_path, scan, path_params}

abbrev pub Rooted : String → Type 0
Rooted path = has_prefix "/" path ≡ true

pub slash-Rooted : (s : String) → Rooted ("/" <> s)
unfolding has_prefix
slash-Rooted s = rw cons-append refl

pub Rooted-append : (s t : String) → Rooted s → Rooted (s <> t)
unfolding has_prefix
Rooted-append [] t h = absurd (ground arith)
Rooted-append (c ∷ s) t h = rw cons-append h

split-ne-nil : (sep : ℕ) (s : String) → is_empty (split sep s) ≡ false
unfolding split
split-ne-nil sep [] = refl
split-ne-nil sep (c ∷ s) =
    if_cases {A = List String} (λ ws. is_empty ws ≡ false) (nat_eq (code c) sep) _ _ (λ _. refl)
      (λ _. onto (split sep s))
  where
    onto : (ws : List String) → is_empty (tsgonest.Common.Texts.onto_first c ws) ≡ false
    onto List.[] = refl
    onto (List.◌∷◌ w ws) = refl

join-Rooted :
    (ws : List String) → is_empty ws ≡ false → Rooted (join "/" (List.◌∷◌ "" (map convert_part ws)))
unfolding join
join-Rooted List.[] h = absurd (ground arith)
join-Rooted (List.◌∷◌ w ws) h = rw nil-append (slash-Rooted _)

pub convert_path-Rooted : (path : String) → Rooted path → Rooted (convert_path path)
unfolding convert_path has_prefix split
convert_path-Rooted [] h = absurd (ground arith)
convert_path-Rooted (c ∷ s) h =
    let slash : nat_eq (code c) b'/' ≡ true = ground arith in
    rw slash (join-Rooted (split b'/' s) (split-ne-nil b'/' s))

scan-named : (o : Option String) (s : String) → All (λ n. (n == "") ≡ false) (scan o s)
unfolding scan
scan-named none [] = tt
scan-named (some name) [] = tt
scan-named none (c ∷ s) = scan-named (if nat_eq (code c) b'{' then some "" else none) s
scan-named (some name) (c ∷ s) =
    if_cases (All (λ n. (n == "") ≡ false)) (nat_eq (code c) b'}') _ _
      (λ _.
        if_cases (All (λ n. (n == "") ≡ false)) (name == "") _ _ (λ _. scan-named none s)
          (λ e. (e, scan-named none s)))
      (λ _. scan-named (some (name <> c ∷ [])) s)

pub path_params-named : (path : String) → All (λ n. (n == "") ≡ false) (path_params path)
unfolding path_params
path_params-named path = scan-named none path
