-- ===== src/Diagnostic/Examples.antt =====
-- Small runs of internal/diagnostic/diagnostic.go.
use tsgonest.Common.{◌≡◌, refl, ltb, true, false, List, [], ◌∷◌}
use tsgonest.Metadata.{pos, negsuc}
use tsgonest.Common.Decimal.{decimal}
use tsgonest.Common.Texts.{join}
use tsgonest.Diagnostic.{
  Severity, Diagnostic, new_collector, warn, warn_with_hint, report, inform, has_errors,
  error_count, warning_count, text, severity_text, summary,
}
use tsgonest.Diagnostic.Counts.{Call, calls, has_errors-error_count, error_count-calls}

abbrev session : List Call
session =
    Call.warn_call "deprecated" "a.ts" (pos 3) "old"
    ∷ Call.error_call "" "b.ts" (pos 0) "bad"
    ∷ Call.hint_call "" "" (pos 0) "slow" "try b"
    ∷ Call.info_call "" "" (pos 0) "note"
    ∷ []

abbrev located : Diagnostic
located = record {
  severity = Severity.warning;
  category = "deprecated";
  file = "a.ts";
  line = pos 3;
  column = pos 7;
  message = "old";
  hint = "new";
}

text_located : text located ≡ "a.ts:3:7 - warning: [deprecated] old\n  hint: new"
unfolding text severity_text decimal
text_located = refl

text_unknown_line :
    text (record located { line = negsuc 0; hint = "" }) ≡ "a.ts - warning: [deprecated] old"
unfolding text severity_text
text_unknown_line = refl

summary_lenient : summary (calls session (new_collector false false)) ≡ "1 error(s), 2 warning(s)"
unfolding summary error_count warning_count warn warn_with_hint report inform decimal join
summary_lenient = refl

summary_strict : summary (calls session (new_collector true false)) ≡ "3 error(s)"
unfolding summary error_count warning_count warn warn_with_hint report inform decimal join
summary_strict = refl

has_errors-error_count_example :
    has_errors (calls session (new_collector true true))
    ≡ ltb 0 (error_count (calls session (new_collector true true)))
has_errors-error_count_example = has_errors-error_count (calls session (new_collector true true))

error_count-calls_example :
    (error_count (calls session (new_collector true false)) ≡ 3)
    × (warning_count (calls session (new_collector true false)) ≡ 0)
error_count-calls_example = error_count-calls true false session
