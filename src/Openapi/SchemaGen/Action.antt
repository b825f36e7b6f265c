-- ===== src/Openapi/SchemaGen/Action.antt =====
-- internal/openapi/schema.go: actions on the state of a SchemaGenerator, its map of named schemas.
-- `none` means that the fuel for references ran out, which the Go code knows nothing of.
use tsgonest.Common.{String, Option, none, some, List, [], ◌∷◌, if◌then◌else◌}
use tsgonest.Common.Maps.{Map, has, insert}
use tsgonest.Openapi.Schema.{Schema, leaf, no_keywords, reference}

abbrev pub Gen : Type 0
Gen = Map Schema

abbrev pub M : Type 0 → Type 0
M A = Gen → Option (A × Gen)

abbrev pub pure : {A : Type 0} → A → M A
pure a g = some (a, g)

infixl 5 ◌>>=◌
abbrev pub ◌>>=◌ : {A B : Type 0} → M A → (A → M B) → M B
◌>>=◌ m f g = elim (m g) [ none ↦ none | some (a, g') ↦ f a g' ]

-- A loop that converts each item in turn.
unfoldable pub sequence : {A : Type 0} → List (M A) → M (List A)
sequence [] = pure []
sequence (c ∷ cs) = do x ← c; xs ← sequence cs; pure (x ∷ xs)

-- `g.schemas[name] = &Schema{}; schema := build(); g.schemas[name] = schema`: the placeholder
-- stops a recursion on the same name.
unfoldable pub build_named : String → M Schema → M Schema
build_named name build g = elim (build (insert name (leaf no_keywords) g)) [
  | none ↦ none
  | some (s, g') ↦ some (reference name, insert name s g')
]

-- The same under `if _, exists := g.schemas[name]; !exists`.
unfoldable pub register : String → M Schema → M Schema
register name build g = if has name g then some (reference name, g) else build_named name build g

-- As `register` for a schema that is at hand, with no placeholder.
unfoldable pub register_now : String → Schema → M Schema
register_now name s g =
    if has name g then some (reference name, g) else some (reference name, insert name s g)
