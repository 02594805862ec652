-- ===== src/Service/Plan/Tests.antt =====
-- A cycle that plans an import.
use sonarr_remediator.Base.{
  Bool, arith, pos, ◌≡◌, refl, true, false, none, [], ◌∷◌, is_blank, is_zero, saturate, sub_time,
  int_beq, wrap, ◌+int◌, ◌+ℤ◌, ◌-int◌, ◌-ℤ◌, erase, insert, lookup, insert_sorted, sort, sort_ints,
  string_less, string_beq, starts_with, Duration, String, All, Dict, length,
}
use sonarr_remediator.Sonarr.{row_eligible}
use sonarr_remediator.Config.{defaults, Config}
use sonarr_remediator.Policy.Unexpected.{is_unexpected_episode}
use sonarr_remediator.Policy.Observation.{
  Observation, eligible, client_allowed, series_allowed, competing, row_competes,
  has_executable_warning, same_kind,
}
use sonarr_remediator.Policy.Fingerprint.{fingerprint, queue_identity}
use sonarr_remediator.Policy.Profile.{
  valid_quality, profile_ranks, acceptable, current_acceptable, format_weights, revision_compare,
  score, sum_formats,
}
use sonarr_remediator.Policy.Compare.{compare, compare_standing, permitted_improvement, standing}
use sonarr_remediator.Policy.Review.{
  review_files, review_file, preview_incomplete, identify, series_disagrees, add_series,
  episode_conflicts, episode_incomplete, match_episode, match_episodes, match_existing,
  match_missing, redundant_reason, unusable_reason,
}
use sonarr_remediator.Policy.Evaluate.{
  evaluate, review, check_observation, check_rows, check_intended, check_unmatched, choose,
}
use sonarr_remediator.Policy.Rejected.{
  rejected_cleanup, inspect, settle, collect_rows, collect_files, collect_file, collect_episodes,
  collect_rejections, add_target, restricted, file_refused,
}
use sonarr_remediator.Policy.Tests.{sample_digest, observed, row}
use sonarr_remediator.State.{Issue, resolved}
use sonarr_remediator.State.Retention.{budget, is_resolved}
use sonarr_remediator.Service.Gate.{
  overlap, concerns, cooling, same_import, gate_attempt, gate_attempts, gate, plan_gate,
}
use sonarr_remediator.Service.Attempts.{set_issue, has_pending}
use sonarr_remediator.Service.Observe.{
  intend, intend_rows, intend_episodes, intend_files, is_pack, intend_grabs, membership,
  row_disagrees, read_profile, read_series, read_file, read_episode, read_episodes, observe,
  decision,
}
use sonarr_remediator.Service.Tests.{empty_store, noon}
use sonarr_remediator.Service.Scan.{Seen, no_decision, scan_issue, cleanup_elapsed}
use sonarr_remediator.Service.Scan.Counting.{Counted}
use sonarr_remediator.Service.Scan.Tests.{previous, waiting_issue}
use sonarr_remediator.Service.Plan.{
  candidates, plan_candidates, decide_issue, pending_state, plan_submission, plan_gated,
  plan_decided, plan_pending, plan_candidate,
}
use sonarr_remediator.Service.Plan.Candidates.{scan_issue-IsOpen}
use sonarr_remediator.Service.Plan.Sound.{AreSound, plan_candidates-AreSound}
use sonarr_remediator.Service.Manual.{
  selected, not_present, update_run, describe, elapsed_of, wait_of, item_blocked,
}
use sonarr_remediator.State.Receipts.{kind_text}

abbrev seconds : Duration → String
seconds _ = "5m0s"

abbrev observations : Dict String Observation
observations = ("d1", observed (pos 3) (pos 2) []) ∷ []

abbrev in_time : String → Bool
in_time _ = false

abbrev live : Config
live = record defaults { dry_run = false }

-- Seen 900 seconds after it was seen first, all of which are counted.
abbrev due_issue : Issue
due_issue = record waiting_issue {
  first_seen = pos 85000000000000;
  eligible_since = pos 85000000000000;
  elapsed = pos 900000000000;
}

Counted-due : Counted noon due_issue
unfolding ◌+ℤ◌ is_zero int_beq
Counted-due = (
  (omega arith, omega arith),
  (omega arith, omega arith),
  omega arith,
  (omega arith, omega arith),
  (omega arith, omega arith),
)

-- The import is planned.
one_plan :
    length
      (plan_candidates sample_digest live seconds in_time noon observations
        (record { store = empty_store; run = none; plans = [] })
        (due_issue ∷ [])).plans
    ≡ 1
unfolding intend intend_rows intend_episodes intend_files is_pack intend_grabs membership
    row_disagrees read_profile read_series read_file read_episode read_episodes observe decision
    rejected_cleanup inspect settle collect_rows collect_files collect_file collect_episodes
    collect_rejections add_target restricted file_refused evaluate review check_observation
    check_rows check_intended check_unmatched choose eligible client_allowed series_allowed
    competing row_competes has_executable_warning same_kind row_eligible valid_quality profile_ranks
    acceptable current_acceptable format_weights revision_compare score sum_formats compare
    compare_standing permitted_improvement standing review_files review_file preview_incomplete
    identify series_disagrees add_series episode_conflicts episode_incomplete match_episode
    match_episodes match_existing match_missing redundant_reason unusable_reason fingerprint
    queue_identity int_beq wrap ◌+int◌ ◌+ℤ◌ ◌-int◌ ◌-ℤ◌ erase insert lookup insert_sorted sort
    sort_ints string_less string_beq starts_with is_blank is_unexpected_episode overlap concerns
    cooling same_import gate_attempt gate_attempts gate plan_gate set_issue has_pending selected
    not_present update_run describe elapsed_of wait_of cleanup_elapsed decide_issue pending_state
    plan_submission plan_gated plan_decided plan_pending plan_candidate plan_candidates budget
    item_blocked saturate sub_time is_zero kind_text
one_plan = refl

plan_candidates-AreSound_example :
    AreSound sample_digest live seconds in_time noon observations
      (Counted noon)
      false
      (budget noon empty_store)
      (plan_candidates sample_digest live seconds in_time noon observations
        (record { store = empty_store; run = none; plans = [] })
        (due_issue ∷ [])).plans
plan_candidates-AreSound_example =
    plan_candidates-AreSound sample_digest live seconds in_time noon observations (Counted noon)
      false empty_store none (due_issue ∷ []) refl (Counted-due, tt)

-- A resolved download that has come back.
abbrev returned : Issue
returned = record waiting_issue { condition = resolved }

abbrev seen_again : Seen
seen_again = record {
  identity = "rows";
  rows = row ∷ [];
  eligible = true;
  observed = false;
  rejected = false;
  cleanup = no_decision;
}

scan_issue-IsOpen_example :
    (is_resolved
        (scan_issue sample_digest defaults previous noon [] empty_store "d1" seen_again
          returned).condition
      ≡ true)
    × All
        (λ (j : Issue). is_resolved j.condition ≡ false)
        (candidates sample_digest defaults seconds in_time noon [] false
          (record empty_store { issues = ("d1", returned) ∷ [] }))
scan_issue-IsOpen_example =
    scan_issue-IsOpen sample_digest defaults seconds in_time previous noon [] "d1" seen_again
      returned empty_store (record empty_store { issues = ("d1", returned) ∷ [] }) false refl refl
