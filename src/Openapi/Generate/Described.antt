-- ===== src/Openapi/Generate/Described.antt =====
-- internal/openapi/generator.go, buildOperation: the descriptions of responses.
use tsgonest.Common.{ℕ, String, ◌≡◌, refl, false, [], ◌∷◌, ◌==◌, if_cases, nat_eq}
use tsgonest.Common.Lists.{is_empty}
use tsgonest.Common.Maps.{insert}
use tsgonest.Openapi.Schema.{Schema}
use tsgonest.Openapi.Document.{Response}
use tsgonest.Openapi.SchemaGen.Action.{Gen}
use tsgonest.Openapi.SchemaGen.Ends.{IsResolved}
use tsgonest.Openapi.Operation.Status.{status_description, describe}
use tsgonest.Openapi.Operation.Responses.{Responses, bare, with_schema}
use tsgonest.Openapi.Generate.Valid.{ResponseOk}

abbrev pub IsNamed : String → Type 0
IsNamed text = (text == "") ≡ false

pub status_description_named : (code : ℕ) → (status_description code == "") ≡ false
unfolding status_description
status_description_named code =
    if_cases IsNamed (nat_eq code 200) _ _ (λ _. refl)
      λ _.
        if_cases IsNamed (nat_eq code 201) _ _ (λ _. refl)
          λ _.
            if_cases IsNamed (nat_eq code 204) _ _ (λ _. refl)
              λ _.
                if_cases IsNamed (nat_eq code 301) _ _ (λ _. refl)
                  λ _.
                    if_cases IsNamed (nat_eq code 302) _ _ (λ _. refl)
                      λ _.
                        if_cases IsNamed (nat_eq code 303) _ _ (λ _. refl)
                          λ _.
                            if_cases IsNamed (nat_eq code 307) _ _ (λ _. refl)
                              λ _.
                                if_cases IsNamed (nat_eq code 308) _ _ (λ _. refl)
                                  λ _.
                                    if_cases IsNamed (nat_eq code 400) _ _ (λ _. refl)
                                      λ _.
                                        if_cases IsNamed (nat_eq code 401) _ _ (λ _. refl)
                                          λ _.
                                            if_cases IsNamed (nat_eq code 403) _ _ (λ _. refl)
                                              λ _.
                                                if_cases IsNamed (nat_eq code 404) _ _ (λ _. refl)
                                                  λ _.
                                                    if_cases IsNamed (nat_eq code 500) _ _
                                                      (λ _. refl) λ _. refl

pub describe_named : (given : String) (code : ℕ) → (describe given code == "") ≡ false
describe_named given code =
    if_cases (λ d. (d == "") ≡ false) (given == "") (status_description code) given
      (λ _. status_description_named code) (λ e. e)

pub bare-ResponseOk : (g : Gen) (d : String) → (d == "") ≡ false → ResponseOk g (bare d)
bare-ResponseOk g d h = record { described = h; content = tt; headers = tt }

pub schema-ResponseOk :
    (g : Gen) (d content_type : String) (s : Schema)
    → IsNamed d
    → IsResolved g s
    → ResponseOk g (with_schema d content_type s)
schema-ResponseOk g d content_type s h r = record {
  described = h;
  content = ((r, tt), tt);
  headers = tt;
}

-- Some response is there once one has been written.
pub is_empty-insert :
    (code : String) (r : Response) (rs : Responses) → is_empty (insert code r rs) ≡ false
unfolding insert
is_empty-insert code r [] = refl
is_empty-insert code r ((k, q) ∷ rs) =
    if_cases {A = Responses} (λ m. is_empty m ≡ false) (k == code) _ _ (λ _. refl) (λ _. refl)
