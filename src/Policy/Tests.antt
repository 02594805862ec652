-- ===== src/Policy/Tests.antt =====
-- Concrete observations for internal/policy, and what the decisions on them establish.
use sonarr_remediator.Base.{
  pos, ◌≡◌, refl, sym, ◌∙◌, ◌≢◌, ◌↔◌, ◌⊎◌, true, false, none, some, List, [], ◌∷◌, All, ℤ, is_blank,
  int_beq, wrap, ◌+int◌, ◌+ℤ◌, ◌-int◌, ◌-ℤ◌, erase, insert, lookup, insert_sorted, sort, sort_ints,
  string_less, string_beq, starts_with,
}
use sonarr_remediator.Sonarr.{
  QueueRow, row_eligible, Quality, Series, Episode, EpisodeFile, Rejection, profile_item, nil,
  Profile,
}
use sonarr_remediator.Config.{Config, defaults}
use sonarr_remediator.Policy.Unexpected.{is_unexpected_episode}
use sonarr_remediator.Policy.Observation.{
  Observation, defer, import, remove_redundant, remove_unusable, remove_blocked, InScope, eligible,
  client_allowed, series_allowed, competing, row_competes, has_executable_warning,
}
use sonarr_remediator.Policy.Fingerprint.{Digest, fingerprint, queue_identity}
use sonarr_remediator.Policy.Profile.{
  valid_quality, profile_ranks, acceptable, current_acceptable, format_weights, revision_compare,
  score, sum_formats,
}
use sonarr_remediator.Policy.Compare.{compare, compare_standing, permitted_improvement, standing}
use sonarr_remediator.Policy.Compare.Upgrades.{IsUpgrade, compare-IsUpgrade, compare-asymm}
use sonarr_remediator.Policy.Review.{
  review_files, review_file, preview_incomplete, identify, series_disagrees, add_series,
  episode_conflicts, episode_incomplete, match_episode, match_episodes, match_existing,
  match_missing, redundant_reason, unusable_reason,
}
use sonarr_remediator.Policy.Review.Files.{Satisfied}
use sonarr_remediator.Policy.Review.Rounds.{Importable, Unusable}
use sonarr_remediator.Policy.Evaluate.{
  evaluate, review, check_observation, check_rows, check_intended, check_unmatched, choose,
}
use sonarr_remediator.Policy.Evaluate.Intended.{Observed}
use sonarr_remediator.Policy.Evaluate.Safety.{
  evaluate-import, evaluate-remove_redundant, evaluate-remove_unusable, evaluate-InScope,
}
use sonarr_remediator.Policy.Rejected.{
  rejected_cleanup, inspect, settle, collect_rows, collect_files, collect_file, collect_episodes,
  collect_rejections, add_target, restricted, file_refused,
}
use sonarr_remediator.Policy.Rejected.Safety.{RemovalSafe, rejected_cleanup-RemovalSafe}

-- A digest that keeps the texts apart by their titles and the number of the files.
abbrev pub sample_digest : Digest
sample_digest = record {
  identity_json = λ i. i.title;
  hash_identities = λ _. "rows";
  hash_evidence = λ e. e.queue;
}

abbrev cleaning : Config
cleaning = record defaults {
  cleanup = record {
    enabled = true;
    wait = pos 21600000000000;
    blocklist = true;
    replacement_search = false;
  };
}

abbrev pub quality_of : ℤ → Quality
quality_of id = record {
  quality = some (record { id = id; name = "" });
  revision = some (record { version = some (pos 1); real = some (pos 0); is_repack = some false });
}

abbrev pub row : QueueRow
row = record {
  id = pos 1;
  download_id = "d1";
  series_id = some (pos 5);
  episode_id = some (pos 50);
  download_client = "sab";
  title = "Show.S01E01";
  output_path = "/down";
  status = "completed";
  tracked_state = "importPending";
  tracked_status = "ok";
  added = none;
  status_messages = [];
}

abbrev pub show : Series
show = record {
  id = pos 5;
  quality_profile_id = pos 1;
  monitored = some true;
  series_type = "standard";
}

abbrev pub first : Episode
first = record {
  id = pos 50;
  series_id = pos 5;
  episode_file_id = some (pos 7);
  has_file = some true;
  monitored = some true;
}

abbrev pub file_of : ℤ → EpisodeFile
file_of q = record {
  id = pos 7;
  series_id = pos 5;
  path = "/lib";
  quality = quality_of q;
  score = some (pos 0);
  formats = some [];
}

abbrev pub profile : Profile
profile = record {
  id = pos 1;
  upgrade_allowed = some true;
  cutoff = some (pos 3);
  cutoff_score = some (pos 0);
  min_score = some (pos 0);
  min_upgrade_score = some (pos 1);
  items = some (
      profile_item (pos 0) (some (record { id = pos 2; name = "" })) (some true) nil
      ∷ profile_item (pos 0) (some (record { id = pos 3; name = "" })) (some true) nil
      ∷ []);
  format_items = some [];
}

-- A file of quality `new` for an episode whose file has quality `old`.
abbrev pub observed : ℤ → ℤ → List Rejection → Observation
observed new old rejections = record {
  download_id = "d1";
  rows = row ∷ [];
  queue = row ∷ [];
  preview =
      record {
        id = pos 1;
        path = "/down/a.mkv";
        folder_name = "down";
        download_id = "d1";
        series = some show;
        episodes = first ∷ [];
        quality = quality_of new;
        score = some (pos 0);
        formats = some [];
        rejections = some rejections;
        languages = some (record { id = pos 1; name = "English" } ∷ []);
        release_group = "";
        indexer_flags = some (pos 0);
        release_type = "singleEpisode";
      }
      ∷ [];
  episodes = (pos 50, first) ∷ [];
  files = (pos 7, file_of old) ∷ [];
  series = (pos 5, show) ∷ [];
  profiles = (pos 1, profile) ∷ [];
  propers = "preferAndUpgrade";
  intended = pos 50 ∷ [];
  membership_complete = true;
}

abbrev sample_rejection : List Rejection
sample_rejection = record { reason = "Sample"; kind = "permanent" } ∷ []

upgrade_imports : (evaluate sample_digest defaults (observed (pos 3) (pos 2) [])).kind ≡ import
unfolding evaluate review check_observation check_rows check_intended check_unmatched choose
    eligible client_allowed series_allowed competing row_competes has_executable_warning
    row_eligible valid_quality profile_ranks acceptable current_acceptable format_weights
    revision_compare score sum_formats compare compare_standing permitted_improvement standing
    review_files review_file preview_incomplete identify series_disagrees add_series
    episode_conflicts episode_incomplete match_episode match_episodes match_existing match_missing
    redundant_reason unusable_reason fingerprint queue_identity int_beq wrap ◌+int◌ ◌+ℤ◌ ◌-int◌ ◌-ℤ◌
    erase insert lookup insert_sorted sort sort_ints string_less string_beq starts_with
upgrade_imports = refl

inferior_redundant :
    (evaluate sample_digest cleaning (observed (pos 2) (pos 3) [])).kind ≡ remove_redundant
unfolding evaluate review check_observation check_rows check_intended check_unmatched choose
    eligible client_allowed series_allowed competing row_competes has_executable_warning
    row_eligible valid_quality profile_ranks acceptable current_acceptable format_weights
    revision_compare score sum_formats compare compare_standing permitted_improvement standing
    review_files review_file preview_incomplete identify series_disagrees add_series
    episode_conflicts episode_incomplete match_episode match_episodes match_existing match_missing
    redundant_reason unusable_reason fingerprint queue_identity int_beq wrap ◌+int◌ ◌+ℤ◌ ◌-int◌ ◌-ℤ◌
    erase insert lookup insert_sorted sort sort_ints string_less string_beq starts_with
inferior_redundant = refl

sample_unusable :
    (evaluate sample_digest cleaning (observed (pos 3) (pos 2) sample_rejection)).kind
    ≡ remove_unusable
unfolding evaluate review check_observation check_rows check_intended check_unmatched choose
    eligible client_allowed series_allowed competing row_competes has_executable_warning
    row_eligible valid_quality profile_ranks acceptable current_acceptable format_weights
    revision_compare score sum_formats compare compare_standing permitted_improvement standing
    review_files review_file preview_incomplete identify series_disagrees add_series
    episode_conflicts episode_incomplete match_episode match_episodes match_existing match_missing
    redundant_reason unusable_reason fingerprint queue_identity int_beq wrap ◌+int◌ ◌+ℤ◌ ◌-int◌ ◌-ℤ◌
    erase insert lookup insert_sorted sort sort_ints string_less string_beq starts_with
sample_unusable = refl

sample_blocked :
    (rejected_cleanup sample_digest cleaning (observed (pos 3) (pos 2) sample_rejection)).0.kind
    ≡ remove_blocked
unfolding rejected_cleanup inspect settle collect_rows collect_files collect_file collect_episodes
    collect_rejections add_target restricted file_refused eligible client_allowed series_allowed
    competing row_competes has_executable_warning row_eligible fingerprint queue_identity int_beq
    wrap ◌+int◌ ◌+ℤ◌ ◌-int◌ ◌-ℤ◌ erase insert lookup insert_sorted sort sort_ints string_less
    string_beq starts_with is_blank is_unexpected_episode
sample_blocked = refl

better_replaces :
    (compare
      (quality_of (pos 3))
      (some [])
      (some (pos 0))
      (file_of (pos 2))
      profile
      "preferAndUpgrade").upgrade
    ≡ true
unfolding compare compare_standing permitted_improvement standing valid_quality profile_ranks
    acceptable current_acceptable format_weights revision_compare score sum_formats int_beq wrap
    ◌+int◌ ◌+ℤ◌ ◌-int◌ ◌-ℤ◌ erase insert lookup insert_sorted sort sort_ints string_less string_beq
    starts_with
better_replaces = refl

import_acts : (evaluate sample_digest defaults (observed (pos 3) (pos 2) [])).kind ≢ defer
import_acts h = kinds_differ (sym upgrade_imports ∙ h)
  where
    kinds_differ : import ≡ defer → ⊥
    kinds_differ e = cc

evaluate-import_example :
    (defaults.recovery.enabled ≡ true)
    × Observed defaults (observed (pos 3) (pos 2) [])
    × All
        (Importable defaults (observed (pos 3) (pos 2) []))
        (evaluate sample_digest defaults (observed (pos 3) (pos 2) [])).files
evaluate-import_example =
    evaluate-import sample_digest defaults (observed (pos 3) (pos 2) []) upgrade_imports

evaluate-remove_redundant_example :
    (cleaning.cleanup.enabled ≡ true)
    × Observed cleaning (observed (pos 2) (pos 3) [])
    × All (Satisfied (observed (pos 2) (pos 3) [])) (pos 50 ∷ [])
    × ((evaluate sample_digest cleaning (observed (pos 2) (pos 3) [])).blocklist ≡ false)
evaluate-remove_redundant_example =
    evaluate-remove_redundant sample_digest cleaning (observed (pos 2) (pos 3) [])
      inferior_redundant

evaluate-remove_unusable_example :
    (cleaning.cleanup.enabled ≡ true)
    × Observed cleaning (observed (pos 3) (pos 2) sample_rejection)
    × All Unusable (observed (pos 3) (pos 2) sample_rejection).preview
    × ((evaluate sample_digest cleaning (observed (pos 3) (pos 2) sample_rejection)).blocklist
        ≡ true)
evaluate-remove_unusable_example =
    evaluate-remove_unusable sample_digest cleaning (observed (pos 3) (pos 2) sample_rejection)
      sample_unusable

evaluate-InScope_example :
    Observed defaults (observed (pos 3) (pos 2) [])
    × All
        (InScope defaults)
        (evaluate sample_digest defaults (observed (pos 3) (pos 2) [])).series_ids
    × ((defaults.recovery.enabled ≡ true) ⊎ (defaults.cleanup.enabled ≡ true))
evaluate-InScope_example =
    evaluate-InScope sample_digest defaults (observed (pos 3) (pos 2) []) import_acts

rejected_cleanup-RemovalSafe_example :
    RemovalSafe cleaning
      (observed (pos 3) (pos 2) sample_rejection)
      (rejected_cleanup sample_digest cleaning (observed (pos 3) (pos 2) sample_rejection)).0
rejected_cleanup-RemovalSafe_example =
    rejected_cleanup-RemovalSafe sample_digest cleaning (observed (pos 3) (pos 2) sample_rejection)
      sample_blocked

compare-IsUpgrade_example :
    ((compare
        (quality_of (pos 3))
        (some [])
        (some (pos 0))
        (file_of (pos 2))
        profile
        "preferAndUpgrade").upgrade
      ≡ true)
    ↔ IsUpgrade profile (
        standing
          (quality_of (pos 3))
          (some [])
          (some (pos 0))
          (file_of (pos 2))
          profile
          "preferAndUpgrade")
compare-IsUpgrade_example =
    compare-IsUpgrade (quality_of (pos 3)) (some []) (some (pos 0)) (file_of (pos 2)) profile
      "preferAndUpgrade"

compare-asymm_example :
    (compare
      (quality_of (pos 2))
      (some [])
      (some (pos 0))
      (file_of (pos 3))
      profile
      "preferAndUpgrade").upgrade
    ≡ false
compare-asymm_example =
    compare-asymm (file_of (pos 3)) (file_of (pos 2)) profile "preferAndUpgrade" better_replaces
