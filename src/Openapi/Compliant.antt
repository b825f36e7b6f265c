-- ===== src/Openapi/Compliant.antt =====
-- The check of internal/openapi/compliance.go on the documents of internal/openapi/generator.go.
use tsgonest.Common.{
  ℕ, zero, ◌+◌, ◌≤◌, String, ◌≡◌, refl, Bool, true, false, not, ◌&&◌, ◌||◌, Option, none, some,
  List, [], ◌∷◌, ◌++◌, ◌==◌, eq_iff, arith, inl, inr, if_cases, Bool-cases, if◌then◌else◌,
}
use mathlib.Core.Path.{subst}
use tsgonest.Common.Lists.{All, is_empty}
use tsgonest.Common.Maps.{Map, Values}
use tsgonest.Common.Texts.{has_prefix}
use tsgonest.Metadata.{TypeRegistry}
use tsgonest.Analyzer.{ControllerInfo}
use tsgonest.Openapi.Schema.{Schema, schema}
use tsgonest.Openapi.Document.{Document, PathItem, Operation, Parameter, Response, GenerateOptions}
use tsgonest.Openapi.SchemaGen.Action.{Gen}
use tsgonest.Openapi.SchemaGen.Resolved.{Resolved, Has, Closed}
use tsgonest.Openapi.SchemaGen.Names.{missing}
use tsgonest.Openapi.SchemaGen.Known.{Known}
use tsgonest.Openapi.Operation.Parameters.{properties}
use tsgonest.Openapi.Compliance.{
  Part, Place, Message, ValidationError, error_if, is_known_location, validate_parameter,
  validate_parameters, validate_responses, validate_operation, validate_slot, validate_path_item,
  validate_paths, validate_schema, validate_schemas, validate_document, validate_servers,
  validate_components,
}
use tsgonest.Openapi.Generate.{Progress, generate_with_options, assemble}
use tsgonest.Openapi.Generate.Entries.{Entries}
use tsgonest.Openapi.Generate.Valid.{
  ParameterOk, is_location, ResponseOk, OperationOk, SlotOk, PathItemOk,
}
use tsgonest.Openapi.Generate.Routes.{PropertiesNamed, ControllersKnown}
use tsgonest.Openapi.Generate.Steps.{EntryOk}
use tsgonest.Openapi.Generate.Complete.{generate_with_options-DocumentOk}

both_nil : (xs ys : List ValidationError) → xs ≡ [] → ys ≡ [] → xs ++ ys ≡ []
both_nil xs ys h k = rw (h, k)

not_empty : (l : String) → is_location l ≡ true → (l == "") ≡ false
not_empty l h = elim (Bool-cases (l == "")) [
  | inl e ↦
      let k : false ≡ true = subst (λ m. is_location m ≡ true) ((eq_iff l "").0 e) h in
      absurd (ground arith)
  | inr e ↦ e
]

is_known : (l : String) → is_location l ≡ true → not (is_known_location l) ≡ false
unfolding is_known_location
is_known l h = any_of (l == "query") (l == "path") (l == "header") (l == "cookie") h
  where
    any_of : (a b c d : Bool) → (a || b || c) ≡ true → not (a || b || c || d) ≡ false
    any_of a b c d h = ground arith

is_required :
    (path required : Bool) → (path ≡ true → required ≡ true) → (path && not required) ≡ false
is_required path required h = ground arith

silent : (b : Bool) (at : Place) (m : Message) → b ≡ false → error_if b at m ≡ []
silent b at m h = rw h refl

parameter_passes :
    (g : Gen) (at : Part → Place) (i : ℕ) (p : Parameter)
    → ParameterOk g p
    → validate_parameter at i p ≡ []
unfolding validate_parameter
parameter_passes g at i p h =
    let required : (p.location == "path" && not p.required) ≡ false =
      is_required (p.location == "path") p.required
        (λ e. h.required ((eq_iff p.location "path").0 e)) in
    rw (h.named, not_empty p.location h.located, is_known p.location h.located, required)

parameters_pass :
    (g : Gen) (at : Part → Place) (i : ℕ) (ps : List Parameter)
    → All (ParameterOk g) ps
    → validate_parameters at i ps ≡ []
unfolding validate_parameters
parameters_pass g at i [] h = refl
parameters_pass g at i (p ∷ ps) (k, h) =
    both_nil _ _ (parameter_passes g at i p k) (parameters_pass g at (i + 1) ps h)

responses_pass :
    (g : Gen) (at : Part → Place) (rs : Map Response)
    → Values (ResponseOk g) rs
    → validate_responses at rs ≡ []
unfolding validate_responses
responses_pass g at [] h = refl
responses_pass g at ((code, r) ∷ rs) (k, h) = rw k.described (responses_pass g at rs h)

operation_passes :
    (g : Gen) (path : String) (at : Part → Place) (op : Operation)
    → OperationOk g path op
    → validate_operation at op ≡ []
unfolding validate_operation
operation_passes g path at op h = rw h.some_response (
    both_nil _ _ (parameters_pass g at zero op.parameters h.parameters)
      (responses_pass g at op.responses h.responses))

slot_passes :
    (g : Gen) (path method : String) (o : Option Operation)
    → SlotOk g path o
    → validate_slot path method o ≡ []
slot_passes g path method none h = refl
slot_passes g path method (some op) h = operation_passes g path _ op h

path_item_passes :
    (g : Gen) (path : String) (i : PathItem) → PathItemOk g path i → validate_path_item path i ≡ []
unfolding validate_path_item
path_item_passes g path i h = both_nil _ _ (slot_passes g path "get" i.get h.get) (
    both_nil _ _ (slot_passes g path "post" i.post h.post) (
      both_nil _ _ (slot_passes g path "put" i.put h.put) (
        both_nil _ _ (slot_passes g path "delete" i.delete h.delete) (
          both_nil _ _ (slot_passes g path "patch" i.patch h.patch) (
            both_nil _ _ (slot_passes g path "head" i.head h.head)
              (slot_passes g path "options" i.options h.options))))))

paths_pass :
    (g : Gen) (paths : Map PathItem) → Entries (EntryOk g) paths → validate_paths paths ≡ []
unfolding validate_paths
paths_pass g [] h = refl
paths_pass g ((path, item) ∷ paths) ((r, k), h) =
    rw r (both_nil _ _ (path_item_passes g path item k) (paths_pass g paths h))

not_both : (no_ref no_type : Bool) → no_type ≡ true → (not no_ref && not no_type) ≡ false
not_both no_ref no_type h = ground arith

schema_passes :
    (P : String → Type 0) (name : String) (s : Schema) → Resolved P s → validate_schema name s ≡ []
unfolding validate_schema Resolved
schema_passes P name (schema k _ _ _ _ _ _ _ _) (inl e, _, _, _, _, _, _, _, _) = rw e refl
schema_passes P name (schema k _ _ _ _ _ _ _ _) (inr (n, r, t, p), _, _, _, _, _, _, _, _) =
    silent _ _ _ (not_both (k.ref == "") (k.type == "") ((eq_iff k.type "").1 t))

schemas_pass :
    (P : String → Type 0) (g : Map Schema) → Values (Resolved P) g → validate_schemas g ≡ []
unfolding validate_schemas
schemas_pass P [] h = refl
schemas_pass P ((name, s) ∷ g) (k, h) = both_nil _ _ (schema_passes P name s k) (schemas_pass P g h)

components_pass :
    (g : Gen)
    → Closed g
    → validate_components
        (if is_empty g then none else some (record { schemas = g; security_schemes = [] }))
      ≡ []
components_pass g c =
    if_cases (λ o. validate_components o ≡ []) (is_empty g) none
      (some (record { schemas = g; security_schemes = [] })) (λ _. refl)
      (λ _. schemas_pass (Has g) g c)

assemble_passes :
    (opts : Option GenerateOptions) (p : Progress) (g : Gen)
    → Entries (EntryOk g) p.paths
    → Closed g
    → validate_document (assemble opts p g) ≡ []
unfolding validate_document assemble validate_servers has_prefix
assemble_passes opts p g h c =
    both_nil _ _ (paths_pass g p.paths h) (both_nil _ _ (components_pass g c) refl)

-- Let the references of the routes and of the registry be registered, the component names that they
-- ask for be among `names`, no property and no parameter have an empty name, each route's path begin
-- with a slash, and the fuel cover the names that are missing. Then GenerateWithOptions returns a
-- document, and ValidateDocument finds no error in it.
pub generate_with_options-validate_document :
    (registry : TypeRegistry) (names : List String) (fuel : ℕ) (opts : Option GenerateOptions)
    (cs : List ControllerInfo) (g : Gen)
    → Values (Known registry names) registry
    → Values (λ m. PropertiesNamed (properties m)) registry
    → ControllersKnown registry names cs
    → Closed g
    → missing names g ≤ fuel
    → (doc : Document) × (g' : Gen) × (generate_with_options registry fuel opts cs g
        ≡ some (doc, g'))
      × (validate_document doc ≡ [])
generate_with_options-validate_document registry names fuel opts cs g registered named k c h =
    let (doc, g', e, ok) =
      generate_with_options-DocumentOk registry names fuel opts cs g registered named k c h in
    (doc, g', e, rw ok.assembled (assemble_passes opts ok.progress g' ok.entries ok.closed))
