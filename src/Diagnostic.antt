-- ===== src/Diagnostic.antt =====
-- internal/diagnostic/diagnostic.go: the collector of diagnostics. A nil collector is `none`.
pub mod Counts
mod Examples
use Prim.Native.String.{String}
use tsgonest.Common.{
  ℕ, zero, suc, ◌+◌, Bool, true, false, not, ◌&&◌, ◌||◌, Option, none, some, List, [], ◌∷◌, ◌++◌,
  ◌==◌, ltb, nat_eq, if◌then◌else◌,
}
use tsgonest.Common.Lists.{any, is_empty}
use tsgonest.Common.Texts.{◌<>◌, join}
use tsgonest.Common.Decimal.{decimal}
use tsgonest.Metadata.{ℤ, pos, negsuc}

-- The type is an int with three named values.
pub data Severity : Type 0 where
  warning error info : Severity
  other : ℕ → Severity

unfoldable pub severity_text : Severity → String
severity_text Severity.warning = "warning"
severity_text Severity.error = "error"
severity_text Severity.info = "info"
severity_text (Severity.other n) = "unknown"

-- A category is a text of its own type.
pub record Diagnostic : Type 0 where
  pub severity : Severity
  pub category : String
  pub file : String
  pub line : ℤ
  pub column : ℤ
  pub message : String
  pub hint : String

-- `if n > 0 { … ":%d" … }`, followed by what stands inside after it.
with_number : ℤ → String → String
with_number (pos zero) inner = ""
with_number (pos (suc n)) inner = ":" <> decimal (suc n) <> inner
with_number (negsuc n) inner = ""

location : Diagnostic → String
unfolding with_number
location d =
    if d.file == "" then "" else d.file <> with_number d.line (with_number d.column "") <> " - "

-- `Diagnostic.String`.
unfoldable pub text : Diagnostic → String
unfolding location severity_text
text d =
    location d
    <> severity_text d.severity
    <> ": "
    <> (if d.category == "" then "" else "[" <> d.category <> "] ")
    <> d.message
    <> (if d.hint == "" then "" else "\n  hint: " <> d.hint)

pub record Collector : Type 0 where
  pub diagnostics : List Diagnostic
  pub strict : Bool
  pub quiet : Bool

abbrev pub new_collector : Bool → Bool → Option Collector
new_collector strict quiet = some (record { diagnostics = []; strict = strict; quiet = quiet })

abbrev add : Collector → Severity → String → String → ℤ → String → String → Option Collector
add c severity category file line message hint = some (record c {
  diagnostics =
      c.diagnostics
      ++ record {
        severity = severity;
        category = category;
        file = file;
        line = line;
        column = pos zero;
        message = message;
        hint = hint;
      }
        ∷ [];
})

-- `WarnWithHint`.
unfoldable pub warn_with_hint :
    String → String → ℤ → String → String → Option Collector → Option Collector
warn_with_hint category file line message hint none = none
warn_with_hint category file line message hint (some c) =
    if c.quiet
    then some c
    else add c (if c.strict then Severity.error else Severity.warning) category file line message
        hint

-- `Warn`: the same with no hint.
unfoldable pub warn : String → String → ℤ → String → Option Collector → Option Collector
warn category file line message none = none
warn category file line message (some c) =
    if c.quiet
    then some c
    else add c (if c.strict then Severity.error else Severity.warning) category file line message ""

-- `Error`.
unfoldable pub report : String → String → ℤ → String → Option Collector → Option Collector
report category file line message none = none
report category file line message (some c) = add c Severity.error category file line message ""

-- `Info`.
unfoldable pub inform : String → String → ℤ → String → Option Collector → Option Collector
inform category file line message none = none
inform category file line message (some c) =
    if c.quiet then some c else add c Severity.info category file line message ""

-- `Diagnostics`.
abbrev pub collected : Option Collector → List Diagnostic
collected none = []
collected (some c) = c.diagnostics

abbrev pub is_error : Severity → Bool
is_error Severity.error = true
is_error _ = false

abbrev pub is_warning : Severity → Bool
is_warning Severity.warning = true
is_warning _ = false

-- `HasErrors`.
unfoldable pub has_errors : Option Collector → Bool
has_errors none = false
has_errors (some c) = any (λ d. is_error d.severity) c.diagnostics

-- The loops of ErrorCount and WarningCount.
unfoldable pub count_severity : (Severity → Bool) → List Diagnostic → ℕ
count_severity p [] = 0
count_severity p (d ∷ ds) = (if p d.severity then 1 else 0) + count_severity p ds

unfoldable pub error_count : Option Collector → ℕ
unfolding count_severity
error_count none = 0
error_count (some c) = count_severity is_error c.diagnostics

unfoldable pub warning_count : Option Collector → ℕ
unfolding count_severity
warning_count none = 0
warning_count (some c) = count_severity is_warning c.diagnostics

format_lines : List Diagnostic → String
format_lines [] = ""
format_lines (d ∷ ds) = text d <> "\n" <> format_lines ds

-- `FormatAll`.
unfoldable pub format_all : Option Collector → String
unfolding format_lines text
format_all none = ""
format_all (some c) = format_lines c.diagnostics

summary_part : ℕ → String → List String
summary_part n what = if ltb 0 n then (decimal n <> what) ∷ [] else []

-- `Summary`.
unfoldable pub summary : Option Collector → String
unfolding summary_part error_count warning_count
summary none = ""
summary (some c) =
    let parts =
      summary_part (error_count (some c)) " error(s)"
      ++ summary_part (warning_count (some c)) " warning(s)" in
    if is_empty parts then "no issues" else join ", " parts
