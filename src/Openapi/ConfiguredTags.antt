-- ===== src/Openapi/ConfiguredTags.antt =====
-- internal/openapi/generator.go, ApplyConfig: the tags of a configured document.
use tsgonest.Common.{
  String, ◌≡◌, ◌∙◌, refl, Bool, true, ◌||◌, Option, none, some, List, [], ◌∷◌, ◌++◌, ◌==◌, arith,
  if_cases,
}
use tsgonest.Common.Lists.{any, is_empty}
use tsgonest.Common.Maps.{Map, lookup, has, insert, delete, has-insert, has-delete}
use tsgonest.Openapi.Document.{Document, Tag, DocumentConfig}
use tsgonest.Openapi.Generate.{insert_tag, sort_tags}
use tsgonest.Openapi.Configure.{
  tag_descriptions, describe_tag, describe_tags, tags_of, configured_tags, apply_config,
}

abbrev pub named : String → Tag → Bool
named name t = t.name == name

any-append : (p : Tag → Bool) (xs ys : List Tag) → any p (xs ++ ys) ≡ (any p xs || any p ys)
any-append p [] ys = ground arith
any-append p (x ∷ xs) ys = ground (arith, any-append p xs ys)

any-insert_tag :
    (p : Tag → Bool) (t : Tag) (ts : List Tag) → any p (insert_tag t ts) ≡ (p t || any p ts)
unfolding insert_tag
any-insert_tag p t [] = ground arith
any-insert_tag p t (u ∷ us) = ground (arith, any-insert_tag p t us)

any-sort_tags : (p : Tag → Bool) (ts : List Tag) → any p (sort_tags ts) ≡ any p ts
unfolding sort_tags
any-sort_tags p [] = refl
any-sort_tags p (t ∷ ts) = ground (arith, any-insert_tag p t (sort_tags ts), any-sort_tags p ts)

has-tag_descriptions :
    (name : String) (ts : List Tag) (m : Map String)
    → has name (tag_descriptions ts m) ≡ (has name m || any (named name) ts)
unfolding tag_descriptions
has-tag_descriptions name [] m = ground arith
has-tag_descriptions name (t ∷ ts) m = ground (
  arith,
  has-tag_descriptions name ts (insert t.name t.description m),
  has-insert t.name name t.description m,
)

any-tags_of : (name : String) (m : Map String) → any (named name) (tags_of m) ≡ has name m
unfolding lookup
any-tags_of name [] = refl
any-tags_of name ((key, desc) ∷ m) = ground (arith, any-tags_of name m)

abbrev pub either : String → List Tag × Map String → Bool
either name d = any (named name) d.0 || has name d.1

either-describe_tag :
    (name : String) (t : Tag) (o : Option String) (ts : List Tag) (m : Map String)
    (kept taken : List Tag × Map String)
    → either name kept ≡ either name (ts, m)
    → either name taken ≡ either name (ts, delete t.name m)
    → either name (describe_tag t o kept taken) ≡ either name (t ∷ ts, m)
either-describe_tag name t none ts m kept taken h k = ground (arith, h)
either-describe_tag name t (some desc) ts m kept taken h k =
    ground (arith, k, has-delete t.name name m)

either-describe_tags :
    (name : String) (ts : List Tag) (m : Map String)
    → either name (describe_tags ts m) ≡ either name (ts, m)
unfolding describe_tags
either-describe_tags name [] m = refl
either-describe_tags name (t ∷ ts) m =
    either-describe_tag name t (lookup t.name m) ts m _ _ (either-describe_tags name ts m)
      (either-describe_tags name ts (delete t.name m))

-- After ApplyConfig a document has a tag of a name just when it had one or the configuration does.
pub any-configured_tags :
    (cfg : DocumentConfig) (doc : Document) (name : String)
    → any (named name) (apply_config cfg doc).tags
      ≡ (any (named name) doc.tags || any (named name) cfg.tags)
unfolding apply_config configured_tags lookup
any-configured_tags cfg doc name =
    if_cases (λ ts. any (named name) ts ≡ (any (named name) doc.tags || any (named name) cfg.tags))
      (is_empty cfg.tags) _ _ (λ e. no_tags cfg.tags e)
      (λ _.
        merged (describe_tags doc.tags (tag_descriptions cfg.tags []))
          (either-describe_tags name doc.tags (tag_descriptions cfg.tags []))
          (has-tag_descriptions name cfg.tags []))
  where
    no_tags :
        (given : List Tag)
        → is_empty given ≡ true
        → any (named name) doc.tags ≡ (any (named name) doc.tags || any (named name) given)
    no_tags [] e = ground arith
    no_tags (t ∷ ts) e = absurd (ground arith)

    merged :
        (d : List Tag × Map String)
        → either name d ≡ either name (doc.tags, tag_descriptions cfg.tags [])
        → has name (tag_descriptions cfg.tags [])
          ≡ (has {V = String} name [] || any (named name) cfg.tags)
        → any (named name) (sort_tags (d.0 ++ tags_of d.1))
          ≡ (any (named name) doc.tags || any (named name) cfg.tags)
    merged d h k =
        any-sort_tags (named name) (d.0 ++ tags_of d.1)
        ∙ any-append (named name) d.0 (tags_of d.1)
        ∙ ground (arith, h, k, any-tags_of name d.1)
