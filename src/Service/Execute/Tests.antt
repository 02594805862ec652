-- ===== src/Service/Execute/Tests.antt =====
-- An import that is executed.
use sonarr_remediator.Base.{
  ℤ, pos, ◌≡◌, ◌≢◌, refl, sym, ◌∙◌, true, false, none, some, [], ◌∷◌, Result, ok, err, zero_time,
  is_blank, String-discrete, is_zero, saturate, sub_time, int_beq, wrap, ◌+int◌, ◌+ℤ◌, ◌-int◌, ◌-ℤ◌,
  erase, insert, lookup, insert_sorted, sort, sort_ints, string_less, string_beq, starts_with,
}
use sonarr_remediator.Sonarr.{row_eligible}
use sonarr_remediator.Config.{defaults}
use sonarr_remediator.Policy.Unexpected.{is_unexpected_episode}
use sonarr_remediator.Policy.Observation.{
  Decision, Observation, import, defer, eligible, client_allowed, series_allowed, competing,
  row_competes, has_executable_warning, same_kind,
}
use sonarr_remediator.Policy.Fingerprint.{fingerprint, queue_identity}
use sonarr_remediator.Policy.Profile.{
  valid_quality, profile_ranks, acceptable, current_acceptable, format_weights, revision_compare,
  score, sum_formats,
}
use sonarr_remediator.Policy.Compare.{compare, compare_standing, permitted_improvement, standing}
use sonarr_remediator.Policy.Review.{
  review_files, review_file, preview_incomplete, identify, series_disagrees, add_series,
  episode_conflicts, episode_incomplete, match_episode, match_episodes, match_existing,
  match_missing, redundant_reason, unusable_reason,
}
use sonarr_remediator.Policy.Evaluate.{
  evaluate, review, check_observation, check_rows, check_intended, check_unmatched, choose,
}
use sonarr_remediator.Policy.Rejected.{
  rejected_cleanup, inspect, settle, collect_rows, collect_files, collect_file, collect_episodes,
  collect_rejections, add_target, restricted, file_refused,
}
use sonarr_remediator.Policy.Tests.{sample_digest, observed, row, first, show, file_of, profile}
use sonarr_remediator.State.{unset, Issue, is_pending}
use sonarr_remediator.State.Retention.{budget}
use sonarr_remediator.Service.Gate.{
  overlap, concerns, cooling, same_import, gate_attempt, gate_attempts, gate,
}
use sonarr_remediator.Service.Attempts.{
  set_issue, greatest_id, next_id, intended_attempt, note_effect, reserve, response,
}
use sonarr_remediator.Service.Client.{Client}
use sonarr_remediator.Service.Observe.{
  intend, intend_rows, intend_episodes, intend_files, is_pack, intend_grabs, membership,
  row_disagrees, read_profile, read_series, read_file, read_episode, read_episodes, observe,
  decision,
}
use sonarr_remediator.Service.Observe.Scope.{ActsInScope, decision-ActsInScope}
use sonarr_remediator.Service.Execute.{
  Mutation, import_files, mutation, files_before, respond_last, execute_decision, execute_observed,
  read_failed, execute,
}
use sonarr_remediator.Service.Execute.Fresh.{Fresh, execute-Fresh}
use sonarr_remediator.Service.Execute.Recorded.{IsRecorded, execute-IsRecorded}
use sonarr_remediator.Service.Tests.{empty_store, importing, noon}

-- The answers that make the observation of an upgrade.
abbrev answers : Client
answers = record {
  queue = ok (row ∷ []);
  preview = λ _. ok (observed (pos 3) (pos 2) []).preview;
  media = ok "preferAndUpgrade";
  command = λ _. err "unknown";
  history = λ _. ok [];
  blocklist = ok [];
  episode = λ _. ok first;
  episode_file = λ _. ok (file_of (pos 2));
  series = λ _. ok show;
  profile = λ _. ok profile;
}

abbrev planned : Decision
planned = record (importing (pos 50 ∷ [])) { fingerprint = "rows" }

abbrev issue : Issue
issue = record {
  download_id = "d1";
  identity = "rows";
  fingerprint = "rows";
  title = "Show.S01E01";
  rows = row ∷ [];
  first_seen = zero_time;
  eligible_since = zero_time;
  last_seen = zero_time;
  eligible = true;
  elapsed = pos 0;
  rejected = false;
  rejected_elapsed = pos 0;
  rejected_last_seen = zero_time;
  recovery_due = zero_time;
  cleanup_due = zero_time;
  condition = unset;
  reason = "";
  decision = planned;
  resolved_at = zero_time;
}

abbrev accept : Mutation → Result ℤ
accept _ = ok (pos 4)

abbrev sent_files : Mutation
sent_files = import_files (evaluate sample_digest defaults (observed (pos 3) (pos 2) [])).files

import_is_sent :
    (execute sample_digest defaults answers accept none false noon empty_store issue planned).sent
    ≡ some sent_files
unfolding mutation files_before respond_last execute_decision execute_observed read_failed execute
    overlap concerns cooling same_import gate_attempt gate_attempts gate set_issue greatest_id
    next_id intended_attempt note_effect reserve response intend intend_rows intend_episodes
    intend_files is_pack intend_grabs membership row_disagrees read_profile read_series read_file
    read_episode read_episodes observe decision rejected_cleanup inspect settle collect_rows
    collect_files collect_file collect_episodes collect_rejections add_target restricted
    file_refused evaluate review check_observation check_rows check_intended check_unmatched choose
    eligible client_allowed series_allowed competing row_competes has_executable_warning same_kind
    row_eligible valid_quality profile_ranks acceptable current_acceptable format_weights
    revision_compare score sum_formats compare compare_standing permitted_improvement standing
    review_files review_file preview_incomplete identify series_disagrees add_series
    episode_conflicts episode_incomplete match_episode match_episodes match_existing match_missing
    redundant_reason unusable_reason fingerprint queue_identity int_beq wrap ◌+int◌ ◌+ℤ◌ ◌-int◌ ◌-ℤ◌
    erase insert lookup insert_sorted sort sort_ints string_less string_beq starts_with is_blank
    is_unexpected_episode budget is_pending saturate sub_time is_zero String-discrete
import_is_sent = refl

execute-Fresh_example :
    Fresh sample_digest defaults answers accept none false noon empty_store issue planned sent_files
execute-Fresh_example =
    execute-Fresh sample_digest defaults answers accept none false noon empty_store issue planned
      sent_files import_is_sent

execute-IsRecorded_example :
    IsRecorded sample_digest defaults answers accept none false noon empty_store issue
      (execute sample_digest defaults answers accept none false noon empty_store issue planned)
execute-IsRecorded_example =
    execute-IsRecorded sample_digest defaults answers accept none false noon empty_store issue
      planned

abbrev upgrade : Observation
upgrade = observed (pos 3) (pos 2) []

decides_import : (decision sample_digest defaults upgrade).kind ≡ import
unfolding intend intend_rows intend_episodes intend_files is_pack intend_grabs membership
    row_disagrees read_profile read_series read_file read_episode read_episodes observe decision
    rejected_cleanup inspect settle collect_rows collect_files collect_file collect_episodes
    collect_rejections add_target restricted file_refused evaluate review check_observation
    check_rows check_intended check_unmatched choose eligible client_allowed series_allowed
    competing row_competes has_executable_warning same_kind row_eligible valid_quality profile_ranks
    acceptable current_acceptable format_weights revision_compare score sum_formats compare
    compare_standing permitted_improvement standing review_files review_file preview_incomplete
    identify series_disagrees add_series episode_conflicts episode_incomplete match_episode
    match_episodes match_existing match_missing redundant_reason unusable_reason fingerprint
    queue_identity int_beq wrap ◌+int◌ ◌+ℤ◌ ◌-int◌ ◌-ℤ◌ erase insert lookup insert_sorted sort
    sort_ints string_less string_beq starts_with is_blank is_unexpected_episode
decides_import = refl

decision_acts : (decision sample_digest defaults upgrade).kind ≢ defer
decision_acts h = kinds_differ (sym decides_import ∙ h)
  where
    kinds_differ : import ≡ defer → ⊥
    kinds_differ e = cc

decision-ActsInScope_example :
    ActsInScope defaults upgrade (decision sample_digest defaults upgrade)
decision-ActsInScope_example = decision-ActsInScope sample_digest defaults upgrade decision_acts
