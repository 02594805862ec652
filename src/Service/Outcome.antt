-- ===== src/Service/Outcome.antt =====
-- internal/service/manual.go, `Manual`: the exit code and the error of a report, after the cycle of the request.
-- `saved` is the error of the final save of an execution; what it saves stays outside.
pub mod Fair
mod Tests
use Prim.Native.String
use sonarr_remediator.Base.{
  ℤ, pos, int_eq, String, starts_with, Bool, true, false, ◌&&◌, ◌||◌, not, Option, none, some, List,
  [], ◌∷◌, any, ◌==◌, string_eq, if◌then◌else◌, is_none,
}
use sonarr_remediator.Control.{Request}
use sonarr_remediator.Control.Report.{Report, Item, Effect}

-- `report.ExitCode` and `uncertain`.
pub record Verdict : Type 0 where
  pub code : ℤ
  pub uncertain : Bool

abbrev pub is_uncertain : Effect → Bool
is_uncertain e = e.outcome == "uncertain" || e.outcome == "intent"

-- The loop over the effects of an item.
unfoldable pub judge_effects : Verdict → List Effect → Verdict
judge_effects v [] = v
judge_effects v (e ∷ rest) =
    judge_effects
      (record {
        code = if e.acknowledged then pos 0 else v.code;
        uncertain = v.uncertain || is_uncertain e;
      })
      rest

-- A preview that would act.
abbrev pub would_act : Bool → Item → Bool
would_act execute item = not execute && starts_with item.disposition "would_"

-- The loop over the items.
unfoldable pub judge_items : Bool → Verdict → List Item → Verdict
judge_items execute v [] = v
judge_items execute v (item ∷ rest) =
    judge_items execute
      (judge_effects (record v { code = if would_act execute item then pos 0 else v.code })
        item.effects)
      rest

-- The report before the final save.
unfoldable pub judge_report : Request → Option String → Bool → Bool → Report → Report
judge_report r error cancelled effects report =
    let v =
      judge_items r.execute (record { code = report.exit_code; uncertain = false }) report.items in
    if not (is_none error) || cancelled
    then record report {
      exit_code = if r.execute && effects then pos 3 else pos 1;
      error = elim error [ some e ↦ e | none ↦ "manual request cancelled or deadline exhausted" ];
    }
    else record report { exit_code = if v.uncertain then pos 3 else v.code }

-- The save of the finished receipt.
unfoldable pub save_receipt : Request → Option String → Report → Report
save_receipt r saved report =
    if r.execute
    then elim saved [
      | none ↦ report
      | some e ↦ record report {
        exit_code = pos 3;
        error = String.◌++◌ e "; inspect triggers before another execution";
      }
    ]
    else report

-- The end of `Manual`, from the end of the cycle on: `error` is that of the cycle, and `effects` says whether the
-- receipt has attempts.
unfoldable pub conclude_report :
    Request → Option String → Bool → Bool → Option String → Report → Report
conclude_report r error cancelled effects saved report =
    save_receipt r saved (judge_report r error cancelled effects report)
