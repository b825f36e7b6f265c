-- ===== src/Openapi/Operation/Status.antt =====
-- internal/openapi/generator.go: status codes as text.
use tsgonest.Common.{ℕ, String, ◌==◌, nat_eq, if◌then◌else◌}
use tsgonest.Common.Decimal.{decimal}

-- `statusCodeString`.
unfoldable pub status_code_string : ℕ → String
status_code_string code = if nat_eq code 0 then "200" else decimal code

-- `statusDescription`.
unfoldable pub status_description : ℕ → String
status_description code =
    if nat_eq code 200
    then "OK"
    else if nat_eq code 201
    then "Created"
    else if nat_eq code 204
    then "No Content"
    else if nat_eq code 301
    then "Moved Permanently"
    else if nat_eq code 302
    then "Found"
    else if nat_eq code 303
    then "See Other"
    else if nat_eq code 307
    then "Temporary Redirect"
    else if nat_eq code 308
    then "Permanent Redirect"
    else if nat_eq code 400
    then "Bad Request"
    else if nat_eq code 401
    then "Unauthorized"
    else if nat_eq code 403
    then "Forbidden"
    else if nat_eq code 404
    then "Not Found"
    else if nat_eq code 500
    then "Internal Server Error"
    else "OK"

-- The given description, or that of the code.
abbrev pub describe : String → ℕ → String
describe given code = if given == "" then status_description code else given
