-- ===== src/Openapi/Paths/Declared.antt =====
-- internal/openapi/generator.go, ensurePathParams: placeholders and declared parameters.
use Prim.Native.String.{String}
use tsgonest.Common.{
  ◌≡◌, refl, Bool, true, false, ◌&&◌, List, [], ◌∷◌, ◌++◌, ◌==◌, eq_iff, arith, inl, inr, ◌⊎◌,
  if_cases, if◌then◌else◌,
}
use text.Mathlib.TextPositions.{eq_refl}
use tsgonest.Common.Lists.{All, All-append, All-mono, any}
use tsgonest.Openapi.Document.{Parameter}
use tsgonest.Openapi.Paths.{is_declared, path_param, synthesized, ensure_path_params, path_params}

-- A required path parameter of this name.
abbrev pub is_required_path : String → Parameter → Bool
is_required_path name p = (p.location == "path" && p.name == name) && p.required

abbrev pub requires : List Parameter → String → Bool
requires ps name = any (is_required_path name) ps

-- What OpenAPI demands of a path parameter.
abbrev pub RequiredIfPath : Parameter → Type 0
RequiredIfPath p = p.location ≡ "path" → p.required ≡ true

requires-append_right :
    (name : String) (ps qs : List Parameter)
    → requires qs name ≡ true
    → requires (ps ++ qs) name ≡ true
requires-append_right name [] qs h = h
requires-append_right name (p ∷ ps) qs h = ground (arith, requires-append_right name ps qs h)

pub requires-append_left :
    (name : String) (ps qs : List Parameter)
    → requires ps name ≡ true
    → requires (ps ++ qs) name ≡ true
requires-append_left name [] qs h = absurd (ground arith)
requires-append_left name (p ∷ ps) qs h = ground (arith, requires-append_left name ps qs)

-- A declared path parameter is a required one.
requires_of_declared :
    (name : String) (ps : List Parameter)
    → All RequiredIfPath ps
    → is_declared ps name ≡ true
    → requires ps name ≡ true
requires_of_declared name [] h d = absurd (ground arith)
requires_of_declared name (p ∷ ps) (r, h) d =
    ground (arith, requires_of_declared name ps h, eq_iff p.location "path")

requires-path_param :
    (name : String) (ps : List Parameter) → requires (path_param name ∷ ps) name ≡ true
requires-path_param name ps = rw (eq_refl name)

requires-cons :
    (name : String) (p : Parameter) (ps : List Parameter)
    → requires ps name ≡ true
    → requires (p ∷ ps) name ≡ true
requires-cons name p ps h = ground arith

-- The name is declared, or there is a parameter of that name in `qs`.
abbrev Covered : List Parameter → List Parameter → String → Type 0
Covered ps qs name = (requires ps name ≡ true) ⊎ (requires qs name ≡ true)

Covered-cons :
    (ps qs : List Parameter) (p : Parameter) (n : String) → Covered ps qs n → Covered ps (p ∷ qs) n
Covered-cons ps qs p n (inl r) = inl r
Covered-cons ps qs p n (inr r) = inr (requires-cons n p qs r)

Covered-round :
    (ps qs : List Parameter) (name : String) (names : List String) (b : Bool)
    → is_declared ps name ≡ b
    → All RequiredIfPath ps
    → All (Covered ps qs) names
    → All (Covered ps (if b then qs else path_param name ∷ qs)) (name ∷ names)
Covered-round ps qs name names true d h k = (inl (requires_of_declared name ps h d), k)
Covered-round ps qs name names false d h k =
    (inr (requires-path_param name qs), All-mono names (Covered-cons ps qs (path_param name)) k)

synthesized-Covered :
    (ps : List Parameter) (names : List String)
    → All RequiredIfPath ps
    → All (Covered ps (synthesized ps names)) names
unfolding synthesized
synthesized-Covered ps [] h = tt
synthesized-Covered ps (name ∷ names) h =
    Covered-round ps (synthesized ps names) name names (is_declared ps name) refl h
      (synthesized-Covered ps names h)

Covered-append :
    (ps qs : List Parameter) (n : String) → Covered ps qs n → requires (ps ++ qs) n ≡ true
Covered-append ps qs n (inl r) = requires-append_left n ps qs r
Covered-append ps qs n (inr r) = requires-append_right n ps qs r

-- After ensurePathParams every placeholder of the path has a required path parameter, given that
-- the path parameters that were there before are required.
pub ensure_path_params-requires :
    (ps : List Parameter) (path : String)
    → All RequiredIfPath ps
    → All (λ n. requires (ensure_path_params ps path) n ≡ true) (path_params path)
unfolding ensure_path_params
ensure_path_params-requires ps path h =
    All-mono (path_params path) (Covered-append ps (synthesized ps (path_params path)))
      (synthesized-Covered ps (path_params path) h)

synthesized-All :
    (P : Parameter → Type 0) (ps : List Parameter) (names : List String)
    → All (λ n. P (path_param n)) names
    → All P (synthesized ps names)
unfolding synthesized
synthesized-All P ps [] k = tt
synthesized-All P ps (n ∷ names) (q, k) =
    let rest = synthesized-All P ps names k in
    if_cases (All P) (is_declared ps n) (synthesized ps names) (path_param n ∷ synthesized ps names)
      (λ _. rest) (λ _. (q, rest))

-- What holds of the parameters before and of each one that is made, holds of them all.
pub ensure_path_params-All :
    (P : Parameter → Type 0) (ps : List Parameter) (path : String)
    → All P ps
    → All (λ n. P (path_param n)) (path_params path)
    → All P (ensure_path_params ps path)
unfolding ensure_path_params
ensure_path_params-All P ps path h k =
    All-append P ps (synthesized ps (path_params path)) h
      (synthesized-All P ps (path_params path) k)
