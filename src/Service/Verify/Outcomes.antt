-- ===== src/Service/Verify/Outcomes.antt =====
-- internal/service/verify.go, `verify`: what the evidence makes of the attempt and of the store. An error
-- leaves what was recorded by then. Log lines are not modelled.
pub mod Identity
pub mod Removals
pub mod Sound
use sonarr_remediator.Base.{
  ℤ, pos, leb_ℤ, ltb_ℤ, ltb, ℕ, Time, sub_time, String, Bool, true, false, ◌&&◌, ◌||◌, not, Option,
  none, some, List, [], ◌∷◌, ◌==◌, ◌!=◌, string_eq, nat_eq, if◌then◌else◌, any, length, is_empty,
  is_none, Dict, insert, lookup, Result, ok, err, ◌>>=◌,
}
use sonarr_remediator.Sonarr.{QueueRow}
use sonarr_remediator.Config.{Config}
use sonarr_remediator.Policy.Observation.{
  Kind, import, remove_redundant, remove_unusable, remove_blocked, search,
}
use sonarr_remediator.State.{
  Outcome, uncertain, partial, verified, submitted, failed, Condition, resolved, Continuation,
  pending_search, finished, Issue, Operation, Attempt, is_pending, Data,
}
use sonarr_remediator.Service.Attempts.{set_issue, deadline, expired_reason, is_partial}
use sonarr_remediator.Service.Gate.{is_import}
use sonarr_remediator.Service.Client.{Client}
use sonarr_remediator.Service.Verify.{
  command_failed, Progress, halted, moved, verify_episodes, is_blocklisted,
}

-- After the `switch`: the attempt, with `complete` and `knownFailed`, or the error.
pub data Checked : Type 0 where
  stopped : Attempt → String → Checked
  checked : Attempt → Bool → Bool → Checked

-- `case "import"`, behind the loop.
unfoldable pub conclude_import : Attempt → Bool → Progress → Checked
conclude_import a known_failed (halted seen e) = stopped (record a { verified_episodes = seen }) e
conclude_import a known_failed (moved seen found) =
    let complete = length found == length a.decision.episode_ids && ltb 0 (length found) in
    let b : Attempt = record a { verified_episodes = seen } in
    let c : Attempt = record b {
      outcome = partial;
      reason = "partial correlated import; remaining episodes protected";
    } in
    checked (if not complete && not (is_empty seen) then c else b) complete known_failed

unfoldable pub import_command : Client → Attempt → Result Bool
import_command client a =
    let status = client.command a.command_id >>= command_failed "ManualImport" "import" in
    if ltb_ℤ (pos 0) a.command_id then status else ok false

unfoldable pub check_import : Client → Attempt → Time → Checked
check_import client a now = elim (import_command client a) [
  | err e ↦ stopped a e
  | ok known_failed ↦ elim (client.history a.download_id) [
    | err e ↦ stopped a e
    | ok events ↦
        conclude_import a known_failed
          (verify_episodes client a events now a.decision.episode_ids a.verified_episodes [])
  ]
]

-- The end of the case of a removal.
unfoldable pub conclude_removal : Attempt → Checked
conclude_removal a =
    let complete = a.removal_verified && (not a.decision.blocklist || a.blocklist_verified) in
    let b : Attempt = record a {
      outcome = partial;
      reason = "client removal verified; blocklist evidence unresolved";
    } in
    checked (if a.removal_verified && not complete then b else a) complete false

unfoldable pub check_blocklist : Client → Attempt → Time → Checked
check_blocklist client a now = elim (client.history a.download_id) [
  | err e ↦ stopped a e
  | ok events ↦ elim client.blocklist [
    | err e ↦ stopped a e
    | ok entries ↦
        conclude_removal (record a { blocklist_verified = is_blocklisted a events entries now })
  ]
]

-- An acknowledged removal whose download has left the queue is verified.
unfoldable pub note_removal : List QueueRow → Attempt → Attempt
note_removal queue a =
    if a.ack && not (any (λ (q : QueueRow). q.download_id == a.download_id) queue)
    then record a { removal_verified = true }
    else a

unfoldable pub check_removal : Client → List QueueRow → Attempt → Time → Checked
check_removal client queue a now =
    let b = note_removal queue a in
    if b.decision.blocklist && b.removal_verified && not b.blocklist_verified
    then check_blocklist client b now
    else conclude_removal b

unfoldable pub check_search : Client → Attempt → Checked
check_search client a =
    if a.ack && ltb_ℤ (pos 0) a.command_id
    then elim (client.command a.command_id >>= command_failed "EpisodeSearch" "search") [
      | err e ↦ stopped a e
      | ok known_failed ↦ checked a (not known_failed) known_failed
    ]
    else checked a false false

-- The `switch` on the kind.
unfoldable pub check_kind : Client → List QueueRow → Attempt → Time → Kind → Checked
check_kind client queue a now import = check_import client a now
check_kind client queue a now remove_redundant = check_removal client queue a now
check_kind client queue a now remove_unusable = check_removal client queue a now
check_kind client queue a now remove_blocked = check_removal client queue a now
check_kind client queue a now search = check_search client a
check_kind client queue a now _ = checked a false false

-- The attempt with the parts of the store that `verify` writes, and its error.
pub record Verification : Type 0 where
  pub attempt : Attempt
  pub issues : Dict String Issue
  pub operations : Dict String Operation
  pub error : Option String

abbrev is_search : Kind → Bool
is_search search = true
is_search _ = false

abbrev is_remove_unusable : Kind → Bool
is_remove_unusable remove_unusable = true
is_remove_unusable _ = false

-- `op.State` and `op.Reason` of a download's operation, if there is one.
unfoldable pub finish_operation : String → String → Dict String Operation → Dict String Operation
finish_operation id reason [] = []
finish_operation id reason ((k, op) ∷ rest) =
    (k, if k == id then record op { continuation = finished; reason = reason } else op)
    ∷ finish_operation id reason rest

unfoldable pub resolve_issue : String → Time → Dict String Issue → Dict String Issue
resolve_issue id now [] = []
resolve_issue id now ((k, i) ∷ rest) =
    (k, if k == id then record i { resolved_at = now } else i) ∷ resolve_issue id now rest

-- `if complete`.
unfoldable pub completed : Attempt → Time → Attempt
completed a now = record a {
  finished_at = now;
  outcome = if is_search a.kind then submitted else verified;
  reason =
      if is_search a.kind
      then "replacement search submitted; replacement availability is unknown"
      else "correlated outcome verified";
}

unfoldable pub completed_operations :
    Config → Attempt → Dict String Operation → Dict String Operation
completed_operations c a operations =
    if is_search a.kind
    then finish_operation a.download_id a.reason operations
    else if is_remove_unusable a.kind && c.cleanup.replacement_search
    then insert a.download_id
        (record {
          removal_id = a.id;
          download_id = a.download_id;
          episode_ids = a.decision.episode_ids;
          continuation = pending_search;
          reason = "removal verified; fresh replacement checks pending";
        })
        operations
    else operations

-- The ladder behind the `switch`.
unfoldable pub conclude : Config → Data → Time → Attempt → Bool → Bool → Verification
conclude c data' now a complete known_failed =
    let done = completed a now in
    if complete
    then record {
      attempt = done;
      issues =
          set_issue a.download_id resolved done.reason
            (resolve_issue a.download_id now data'.issues);
      operations = completed_operations c done data'.operations;
      error = none;
    }
    else if known_failed && is_empty a.verified_episodes
    then record {
      attempt = record a {
        finished_at = now;
        outcome = failed;
        reason = "Sonarr command reported a known failure";
      };
      issues = data'.issues;
      operations =
          if is_search a.kind
          then finish_operation a.download_id "search failed; operator intervention required"
              data'.operations
          else data'.operations;
      error = none;
    }
    else record {
      attempt =
          if leb_ℤ deadline (sub_time now a.started) && not (is_partial a.outcome)
          then record a {
            outcome = uncertain;
            reason = "verification deadline exceeded; no automatic replay";
          }
          else a;
      issues = data'.issues;
      operations = data'.operations;
      error = none;
    }

-- The deferred function, after an error.
unfoldable pub deferred : Time → Attempt → Attempt
deferred now a =
    if is_import a.kind && not (is_empty a.verified_episodes) && is_pending a
    then record a {
      outcome = partial;
      reason = "partial correlated import; remaining episode evidence unavailable";
    }
    else if is_pending a && not (is_partial a.outcome) && leb_ℤ deadline (sub_time now a.started)
    then record a { outcome = uncertain; reason = expired_reason }
    else a

-- What `verify` leaves behind the `switch`, its deferred function included.
unfoldable pub conclude_checked : Config → Data → Time → Checked → Verification
conclude_checked c data' now (stopped b e) = record {
  attempt = deferred now b;
  issues = data'.issues;
  operations = data'.operations;
  error = some e;
}
conclude_checked c data' now (checked b complete known_failed) =
    conclude c data' now b complete known_failed

-- `verify`.
unfoldable pub verify : Client → Config → Data → List QueueRow → Time → Attempt → Verification
verify client c data' queue now a =
    conclude_checked c data' now (check_kind client queue a now a.kind)
