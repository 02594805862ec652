-- ===== src/Service/Attempts.antt =====
-- internal/service/service.go: the attempts in the store. A method that changes the store returns it.
-- Saving is not modelled: a save that fails ends the run.
pub mod Reserving
use Prim.Native.String
use sonarr_remediator.Base.{
  ℤ, pos, Time, Duration, zero_time, sub_time, ltb_ℤ, leb_ℤ, ◌+int◌, String, Bool, true, false,
  ◌&&◌, not, Option, none, some, List, [], ◌∷◌, ◌++◌, map, ◌==◌, string_eq, int_eq, if◌then◌else◌,
  is_none, any, Result, ok, err, Dict, lookup,
}
use sonarr_remediator.Control.{Request}
use sonarr_remediator.Control.Report.{Report}
use sonarr_remediator.Policy.Observation.{Decision, same_kind}
use sonarr_remediator.State.{
  Outcome, intent, pending, uncertain, partial, recommended, Condition, in_progress, unsure, Issue,
  Attempt, is_pending, Receipt, Data,
}

-- `setIssue`, on the issue of a download; its log line is not modelled.
unfoldable pub set_issue : String → Condition → String → Dict String Issue → Dict String Issue
set_issue id condition reason [] = []
set_issue id condition reason ((k, i) ∷ rest) =
    (k, if k == id then record i { condition = condition; reason = reason } else i)
    ∷ set_issue id condition reason rest

-- `hasPending`.
unfoldable pub has_pending : String → Data → Bool
has_pending id data' = any (λ (a : Attempt). a.download_id == id && is_pending a) data'.attempts

unfoldable pub greatest_id : ℤ → List Attempt → ℤ
greatest_id n [] = n
greatest_id n (a ∷ rest) = greatest_id (if ltb_ℤ n a.id then a.id else n) rest

-- `nextID`.
unfoldable pub next_id : Data → ℤ
next_id data' = greatest_id (pos 0) data'.attempts +int pos 1

-- The attempt that `reserve` appends.
unfoldable pub intended_attempt :
    Option Request → Data → String → String → Decision → Time → Dict ℤ ℤ → Attempt
intended_attempt request data' id title d now files = record {
  source = if is_none request then "" else "manual";
  request_id = elim request [ none ↦ "" | some r ↦ r.id ];
  wait_override = elim request [ none ↦ false | some r ↦ r.override_wait ];
  id = next_id data';
  download_id = id;
  fingerprint = d.fingerprint;
  kind = d.kind;
  reason = d.reason;
  dry_run = false;
  started = now;
  finished_at = zero_time;
  outcome = intent;
  command_id = pos 0;
  ack = false;
  decision = d;
  before_files = files;
  verified_episodes = [];
  removal_verified = false;
  blocklist_verified = false;
  title = title;
}

-- The receipt of a manual request takes the attempt and the report so far.
unfoldable pub note_effect : String → ℤ → Report → Dict String Receipt → Dict String Receipt
note_effect id aid report [] = []
note_effect id aid report ((k, r) ∷ rest) =
    (
      k,
      if k == id then record r { attempt_ids = r.attempt_ids ++ aid ∷ []; report = report } else r,
    )
    ∷ note_effect id aid report rest

-- `reserve`: the intent is stored before anything is sent. `manual` is the request and its report.
unfoldable pub reserve :
    Option (Request × Report) → Data → String → String → Decision → Time → Dict ℤ ℤ → Result Data
reserve none data' id title d now files = ok (record data' {
  attempts = data'.attempts ++ intended_attempt none data' id title d now files ∷ [];
  issues = set_issue id in_progress "durable intent recorded before transmission" data'.issues;
})
reserve (some (request, report)) data' id title d now files =
    if is_none (lookup request.id data'.triggers)
    then err "manual receipt missing; mutation refused"
    else ok (record data' {
      triggers = note_effect request.id (next_id data') report data'.triggers;
      attempts = data'.attempts ++ intended_attempt (some request) data' id title d now files ∷ [];
      issues = set_issue id in_progress "durable intent recorded before transmission" data'.issues;
    })

-- `response`, after the acknowledgement of the command `command` or an error.
unfoldable pub response : Result ℤ → Attempt → Attempt
response (ok command) a = record a {
  ack = true;
  command_id = command;
  outcome = pending;
  reason = "acknowledged; awaiting correlated verification";
}
response (err e) a = record a {
  outcome = uncertain;
  reason = String.◌++◌ "ambiguous mutation result: " e;
}

abbrev pub is_partial : Outcome → Bool
is_partial partial = true
is_partial _ = false

abbrev pub deadline : Duration
deadline = pos 600000000000

unfoldable pub overdue : Time → Attempt → Bool
overdue now a =
    is_pending a && not (is_partial a.outcome) && leb_ℤ deadline (sub_time now a.started)

abbrev pub expired_reason : String
expired_reason =
    "verification deadline exceeded; required evidence unavailable; no automatic replay"

-- `expirePending`, a round of its loop.
unfoldable pub expire_attempt : Time → Attempt → Attempt
expire_attempt now a =
    if overdue now a then record a { outcome = uncertain; reason = expired_reason } else a

unfoldable pub expire_issues : Time → List Attempt → Dict String Issue → Dict String Issue
expire_issues now [] issues = issues
expire_issues now (a ∷ rest) issues =
    expire_issues now rest
      (if overdue now a then set_issue a.download_id unsure expired_reason issues else issues)

-- `expirePending`.
unfoldable pub expire_pending : Time → Data → Data
expire_pending now data' = record data' {
  attempts = map (expire_attempt now) data'.attempts;
  issues = expire_issues now data'.attempts data'.issues;
}

-- `recommend` has recorded this already.
unfoldable pub recommended_before : String → Decision → Attempt → Bool
recommended_before id d a =
    a.download_id == id && a.dry_run && a.fingerprint == d.fingerprint && same_kind a.kind d.kind

-- The attempt that `recommend` appends.
unfoldable pub recommended_attempt : Data → String → Decision → Time → Attempt
recommended_attempt data' id d now = record (intended_attempt none data' id "" d now []) {
  dry_run = true;
  finished_at = now;
  outcome = recommended;
}

-- `recommend`: a dry run records what it would do, once.
unfoldable pub recommend : Data → String → Decision → Time → Data
recommend data' id d now =
    if any (recommended_before id d) data'.attempts
    then data'
    else record data' { attempts = data'.attempts ++ recommended_attempt data' id d now ∷ [] }
