-- ===== src/Openapi/Paths/Templates.antt =====
-- internal/openapi/generator.go, convertPath: the placeholders of the converted path.
use Prim.Native.Char.{Char, code}
use Prim.Native.String.{String, [], ◌∷◌}
use mathlib.Core.List
use tsgonest.Common.{
  ◌≡◌, refl, sym, ap, ◌∙◌, Bool, true, false, none, some, List, ◌==◌, nat_eq, if◌then◌else◌, map,
  arith, inl, inr, Bool-cases,
}
use text.Mathlib.TextLemmas.{nil-append, cons-append, append_assoc, append-nil}
use tsgonest.Common.Lists.{All}
use tsgonest.Common.Texts.{◌<>◌, split, join, Lacks, Lacks-split}
use tsgonest.Openapi.Paths.{convert_part, convert_path, scan, path_params}

-- The parameters of a NestJS route: the parts that begin with a colon, without it.
unfoldable pub route_params : List String → List String
route_params List.[] = List.[]
route_params (List.◌∷◌ [] ws) = route_params ws
route_params (List.◌∷◌ (c ∷ s) ws) =
    let rest = route_params ws in
    if nat_eq (code c) b':' then (if s == "" then rest else List.◌∷◌ s rest) else rest

-- Text without an opening brace is passed over.
scan-Lacks : (w t : String) → Lacks b'{' w → scan none (w <> t) ≡ scan none t
unfolding scan
scan-Lacks [] t h = rw nil-append
scan-Lacks (c ∷ w) t (e, h) = rw cons-append (rw (e, scan) (scan-Lacks w t h))

push_char : (name : String) (c : Char) (w : String) → (name <> c ∷ []) <> w ≡ name <> c ∷ w
push_char name c w =
    append_assoc name (c ∷ []) w
    ∙ ap (λ x. name <> x) (cons-append c [] w ∙ ap (λ x. c ∷ x) (nil-append w))

-- A match grows up to the closing brace.
scan-name :
    (name w t : String)
    → Lacks b'}' w
    → scan (some name) (w <> "}" <> t)
      ≡ (if (name <> w) == "" then scan none t else List.◌∷◌ (name <> w) (scan none t))
unfolding scan
scan-name name [] t h = rw (nil-append, append-nil) (rw cons-append (rw nil-append))
scan-name name (c ∷ w) t (e, h) =
    rw cons-append (rw (e, scan) (rw (← push_char name c w) (scan-name (name <> c ∷ []) w t h)))

-- The placeholders of one part.
part_params : String → List String
part_params [] = List.[]
part_params (c ∷ s) =
    if nat_eq (code c) b':' then (if s == "" then List.[] else List.◌∷◌ s List.[]) else List.[]

scan-open : (s : String) → scan none ("{" <> s) ≡ scan (some "") s
unfolding scan
scan-open s = rw cons-append (rw nil-append refl)

-- A placeholder is found, unless it is empty.
scan-placeholder :
    (s t : String)
    → Lacks b'}' s
    → scan none (("{" <> s <> "}") <> t)
      ≡ List.◌++◌ (if s == "" then List.[] else List.◌∷◌ s List.[]) (scan none t)
scan-placeholder s t h =
    ap (scan none) (append_assoc "{" (s <> "}") t ∙ ap (λ x. "{" <> x) (append_assoc s "}" t))
    ∙ scan-open (s <> "}" <> t)
    ∙ scan-name "" s t h
    ∙ rw nil-append (choice (s == ""))
  where
    choice :
        (b : Bool)
        → (if b then scan none t else List.◌∷◌ s (scan none t))
          ≡ List.◌++◌ (if b then List.[] else List.◌∷◌ s List.[]) (scan none t)
    choice true = refl
    choice false = refl

-- A converted part contributes its placeholder, and what follows is read afresh.
scan-convert_part :
    (w t : String)
    → Lacks b'{' w
    → Lacks b'}' w
    → scan none (convert_part w <> t) ≡ List.◌++◌ (part_params w) (scan none t)
unfolding convert_part part_params
scan-convert_part [] t _ _ = scan-Lacks [] t tt
scan-convert_part (c ∷ s) t (e, h) (e', h') = elim (Bool-cases (nat_eq (code c) b':')) [
  | inl q ↦ rw q (scan-placeholder s t h')
  | inr q ↦ rw q (scan-Lacks (c ∷ s) t (e, h))
]

scan-slash : (t : String) → scan none ("/" <> t) ≡ scan none t
scan-slash t = scan-Lacks "/" t (refl, tt)

route_params-cons :
    (w : String) (ws : List String)
    → route_params (List.◌∷◌ w ws) ≡ List.◌++◌ (part_params w) (route_params ws)
unfolding route_params part_params
route_params-cons [] ws = refl
route_params-cons (c ∷ s) ws = ground (arith)

scan-join :
    (ws : List String)
    → All (Lacks b'{') ws
    → All (Lacks b'}') ws
    → scan none (join "/" (map convert_part ws)) ≡ route_params ws
unfolding join scan route_params
scan-join List.[] _ _ = refl
scan-join (List.◌∷◌ w List.[]) (h, _) (k, _) =
    sym (ap (scan none) (append-nil (convert_part w)))
    ∙ scan-convert_part w "" h k
    ∙ sym (route_params-cons w List.[])
scan-join (List.◌∷◌ w (List.◌∷◌ v ws)) (h, hs) (k, ks) =
    let rest = join "/" (map convert_part (List.◌∷◌ v ws)) in
    scan-convert_part w ("/" <> rest) h k
    ∙ ap (λ r. List.◌++◌ (part_params w) r) (scan-slash rest ∙ scan-join (List.◌∷◌ v ws) hs ks)
    ∙ sym (route_params-cons w (List.◌∷◌ v ws))

-- The placeholders that the OpenAPI generator finds in a converted path are the parameters of the
-- NestJS route, in order: the texts behind a colon, but no empty one. This holds for every route
-- path without braces.
pub path_params-convert_path :
    (path : String)
    → Lacks b'{' path
    → Lacks b'}' path
    → path_params (convert_path path) ≡ route_params (split b'/' path)
unfolding path_params convert_path
path_params-convert_path path h k =
    scan-join (split b'/' path) (Lacks-split b'{' b'/' path h) (Lacks-split b'}' b'/' path k)
