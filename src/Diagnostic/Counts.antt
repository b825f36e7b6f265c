-- ===== src/Diagnostic/Counts.antt =====
-- internal/diagnostic/diagnostic.go: what a collector holds after a sequence of calls.
use tsgonest.Common.{
  ℕ, ◌+◌, String, ◌≡◌, ◌∙◌, refl, Bool, true, false, not, ◌&&◌, ◌||◌, Option, none, some, List, [],
  ◌∷◌, ◌++◌, ltb, arith, if◌then◌else◌,
}
use tsgonest.Common.Lists.{any}
use tsgonest.Metadata.{ℤ}
use tsgonest.Diagnostic.{
  Severity, Diagnostic, Collector, new_collector, warn, warn_with_hint, report, inform, is_error,
  is_warning, collected, has_errors, count_severity, error_count, warning_count,
}

pub data Call : Type 0 where
  warn_call : (category file : String) → ℤ → (message : String) → Call
  hint_call : (category file : String) → ℤ → (message hint : String) → Call
  error_call : (category file : String) → ℤ → (message : String) → Call
  info_call : (category file : String) → ℤ → (message : String) → Call

abbrev pub call : Call → Option Collector → Option Collector
call (Call.warn_call category file line message) c = warn category file line message c
call (Call.hint_call category file line message hint) c =
    warn_with_hint category file line message hint c
call (Call.error_call category file line message) c = report category file line message c
call (Call.info_call category file line message) c = inform category file line message c

abbrev pub calls : List Call → Option Collector → Option Collector
calls [] c = c
calls (x ∷ xs) c = calls xs (call x c)

abbrev pub errors_in : List Call → ℕ
errors_in [] = 0
errors_in (Call.error_call _ _ _ _ ∷ xs) = 1 + errors_in xs
errors_in (_ ∷ xs) = errors_in xs

abbrev pub warnings_in : List Call → ℕ
warnings_in [] = 0
warnings_in (Call.warn_call _ _ _ _ ∷ xs) = 1 + warnings_in xs
warnings_in (Call.hint_call _ _ _ _ _ ∷ xs) = 1 + warnings_in xs
warnings_in (_ ∷ xs) = warnings_in xs

-- What a call adds to the diagnostics whose severity is like this, in a collector with these switches.
abbrev as_warning : (Severity → Bool) → Bool → Bool → ℕ
as_warning p strict true = 0
as_warning p true false = if p Severity.error then 1 else 0
as_warning p false false = if p Severity.warning then 1 else 0

abbrev as_info : (Severity → Bool) → Bool → ℕ
as_info p true = 0
as_info p false = if p Severity.info then 1 else 0

abbrev added : (Severity → Bool) → Bool → Bool → List Call → ℕ
added p strict quiet [] = 0
added p strict quiet (Call.warn_call _ _ _ _ ∷ xs) =
    as_warning p strict quiet + added p strict quiet xs
added p strict quiet (Call.hint_call _ _ _ _ _ ∷ xs) =
    as_warning p strict quiet + added p strict quiet xs
added p strict quiet (Call.error_call _ _ _ _ ∷ xs) =
    (if p Severity.error then 1 else 0) + added p strict quiet xs
added p strict quiet (Call.info_call _ _ _ _ ∷ xs) = as_info p quiet + added p strict quiet xs

count_severity-last :
    (p : Severity → Bool) (ds : List Diagnostic) (d : Diagnostic)
    → count_severity p (ds ++ d ∷ []) ≡ count_severity p ds + (if p d.severity then 1 else 0)
unfolding count_severity
count_severity-last p [] d = ground arith
count_severity-last p (e ∷ ds) d = ground (arith, count_severity-last p ds d)

any-count_severity :
    (ds : List Diagnostic) → any (λ d. is_error d.severity) ds ≡ ltb 0 (count_severity is_error ds)
unfolding count_severity
any-count_severity [] = refl
any-count_severity (d ∷ ds) = ground (arith, any-count_severity ds)

-- HasErrors says whether ErrorCount is above zero, of a nil collector too.
pub has_errors-error_count : (c : Option Collector) → has_errors c ≡ ltb 0 (error_count c)
unfolding has_errors error_count
has_errors-error_count none = refl
has_errors-error_count (some c) = any-count_severity c.diagnostics

module _ (p : Severity → Bool) where
  count_severity-calls :
      (xs : List Call) (ds : List Diagnostic) (strict quiet : Bool)
      → count_severity p (
          collected (calls xs (some (record { diagnostics = ds; strict = strict; quiet = quiet }))))
        ≡ count_severity p ds + added p strict quiet xs
  unfolding warn warn_with_hint report inform
  count_severity-calls [] ds strict quiet = ground arith
  count_severity-calls (Call.warn_call c f l m ∷ xs) ds strict true =
      count_severity-calls xs ds strict true ∙ ground arith
  count_severity-calls (Call.warn_call c f l m ∷ xs) ds true false =
      count_severity-calls xs _ true false ∙ rw count_severity-last (ground arith)
  count_severity-calls (Call.warn_call c f l m ∷ xs) ds false false =
      count_severity-calls xs _ false false ∙ rw count_severity-last (ground arith)
  count_severity-calls (Call.hint_call c f l m h ∷ xs) ds strict true =
      count_severity-calls xs ds strict true ∙ ground arith
  count_severity-calls (Call.hint_call c f l m h ∷ xs) ds true false =
      count_severity-calls xs _ true false ∙ rw count_severity-last (ground arith)
  count_severity-calls (Call.hint_call c f l m h ∷ xs) ds false false =
      count_severity-calls xs _ false false ∙ rw count_severity-last (ground arith)
  count_severity-calls (Call.error_call c f l m ∷ xs) ds strict quiet =
      count_severity-calls xs _ strict quiet ∙ rw count_severity-last (ground arith)
  count_severity-calls (Call.info_call c f l m ∷ xs) ds strict true =
      count_severity-calls xs ds strict true ∙ ground arith
  count_severity-calls (Call.info_call c f l m ∷ xs) ds strict false =
      count_severity-calls xs _ strict false ∙ rw count_severity-last (ground arith)

added-errors :
    (xs : List Call) (strict quiet : Bool)
    → added is_error strict quiet xs
      ≡ errors_in xs + (if strict && not quiet then warnings_in xs else 0)
added-errors [] strict quiet = ground arith
added-errors (Call.warn_call _ _ _ _ ∷ xs) strict quiet =
    ground (arith, added-errors xs strict quiet)
added-errors (Call.hint_call _ _ _ _ _ ∷ xs) strict quiet =
    ground (arith, added-errors xs strict quiet)
added-errors (Call.error_call _ _ _ _ ∷ xs) strict quiet =
    ground (arith, added-errors xs strict quiet)
added-errors (Call.info_call _ _ _ _ ∷ xs) strict quiet =
    ground (arith, added-errors xs strict quiet)

added-warnings :
    (xs : List Call) (strict quiet : Bool)
    → added is_warning strict quiet xs ≡ (if strict || quiet then 0 else warnings_in xs)
added-warnings [] strict quiet = ground arith
added-warnings (Call.warn_call _ _ _ _ ∷ xs) strict quiet =
    ground (arith, added-warnings xs strict quiet)
added-warnings (Call.hint_call _ _ _ _ _ ∷ xs) strict quiet =
    ground (arith, added-warnings xs strict quiet)
added-warnings (Call.error_call _ _ _ _ ∷ xs) strict quiet =
    ground (arith, added-warnings xs strict quiet)
added-warnings (Call.info_call _ _ _ _ ∷ xs) strict quiet =
    ground (arith, added-warnings xs strict quiet)

error_count-collected :
    (c : Option Collector) → error_count c ≡ count_severity is_error (collected c)
unfolding error_count
error_count-collected none = refl
error_count-collected (some c) = refl

warning_count-collected :
    (c : Option Collector) → warning_count c ≡ count_severity is_warning (collected c)
unfolding warning_count
warning_count-collected none = refl
warning_count-collected (some c) = refl

-- After any calls on a new collector, ErrorCount is the number of calls of Error, and of the two
-- warning calls as well if it is strict and not quiet; WarningCount is the number of the warning
-- calls, or zero if it is strict or quiet.
pub error_count-calls :
    (strict quiet : Bool) (xs : List Call)
    → (error_count (calls xs (new_collector strict quiet))
        ≡ errors_in xs + (if strict && not quiet then warnings_in xs else 0))
      × (warning_count (calls xs (new_collector strict quiet))
          ≡ (if strict || quiet then 0 else warnings_in xs))
unfolding count_severity
error_count-calls strict quiet xs = (
  error_count-collected _
      ∙ count_severity-calls is_error xs [] strict quiet
      ∙ ground (arith, added-errors xs strict quiet),
  warning_count-collected _
      ∙ count_severity-calls is_warning xs [] strict quiet
      ∙ ground (arith, added-warnings xs strict quiet),
)
