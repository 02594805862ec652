-- ===== src/Service/Verify/Tests.antt =====
-- An import that is verified.
use sonarr_remediator.Base.{
  pos, ◌≡◌, refl, true, false, some, [], ◌∷◌, if◌then◌else◌, ok, int_beq, string_beq, lookup,
  insert, erase, wrap, ◌+int◌, ◌+ℤ◌, ◌-ℤ◌, saturate, sub_time, sort, sort_ints, insert_sorted,
}
use sonarr_remediator.Sonarr.{ImportFile, History}
use sonarr_remediator.Config.{defaults}
use sonarr_remediator.Policy.Observation.{import}
use sonarr_remediator.Policy.Profile.{
  acceptable, current_acceptable, profile_ranks, valid_quality, score, format_weights, sum_formats,
  validate_profile,
}
use sonarr_remediator.Policy.Tests.{quality_of, show, first, file_of, profile}
use sonarr_remediator.State.{pending, Attempt}
use sonarr_remediator.Service.Gate.{is_settled}
use sonarr_remediator.Service.Client.{Client, current_file, library_file, current}
use sonarr_remediator.Service.Verify.{
  event_within, command_failed, intended_file, imports_of, note_event, is_done, verify_episodes,
}
use sonarr_remediator.Service.Verify.Outcomes.{
  conclude_import, import_command, check_import, check_kind, completed, conclude, conclude_checked,
  verify,
}
use sonarr_remediator.Service.Verify.Outcomes.Sound.{Proven, verify-Proven}
use sonarr_remediator.Service.Tests.{empty_store, importing}

abbrev submitted_file : ImportFile
submitted_file = record {
  path = "/down/a.mkv";
  folder_name = "down";
  series_id = pos 5;
  episode_ids = pos 50 ∷ [];
  quality = quality_of (pos 3);
  languages = some [];
  release_group = "";
  indexer_flags = pos 0;
  release_type = "singleEpisode";
  download_id = "d1";
}

abbrev imported : History
imported = record {
  id = pos 1;
  download_id = "d1";
  series_id = pos 5;
  episode_id = pos 50;
  date = pos 2000000000;
  event_type = "downloadFolderImported";
  source_title = "";
  attributes = λ k. if string_beq k "droppedPath" then "/down/a.mkv" else "/lib/a.mkv";
}

-- The episode has a new file.
abbrev answers : Client
answers = record {
  queue = ok [];
  preview = λ _. ok [];
  media = ok "preferAndUpgrade";
  command = λ n. ok (record { id = n; name = "ManualImport"; status = "completed" });
  history = λ _. ok (imported ∷ []);
  blocklist = ok [];
  episode = λ _. ok (record first { episode_file_id = some (pos 8) });
  episode_file = λ n. ok (record (file_of (pos 3)) { id = n; path = "/lib/a.mkv" });
  series = λ _. ok show;
  profile = λ _. ok profile;
}

abbrev sent : Attempt
sent = record {
  source = "";
  request_id = "";
  wait_override = false;
  id = pos 1;
  download_id = "d1";
  fingerprint = "f";
  kind = import;
  reason = "";
  dry_run = false;
  started = pos 1500000000;
  finished_at = pos 0;
  outcome = pending;
  command_id = pos 4;
  ack = true;
  decision = record (importing (pos 50 ∷ [])) { files = submitted_file ∷ [] };
  before_files = (pos 50, pos 7) ∷ [];
  verified_episodes = [];
  removal_verified = false;
  blocklist_verified = false;
  title = "";
}

import_is_verified :
    is_settled (verify answers defaults empty_store [] (pos 3000000000) sent).attempt.outcome ≡ true
unfolding verify conclude_checked conclude completed check_kind check_import import_command
    conclude_import command_failed verify_episodes note_event intended_file imports_of event_within
    is_done current library_file current_file acceptable current_acceptable profile_ranks
    valid_quality score format_weights sum_formats validate_profile int_beq string_beq lookup insert
    wrap ◌+int◌ ◌+ℤ◌ ◌-ℤ◌ saturate sub_time sort sort_ints insert_sorted erase
import_is_verified = refl

verify-Proven_example : Proven answers [] sent (pos 3000000000) import
verify-Proven_example =
    verify-Proven answers defaults empty_store [] (pos 3000000000) sent refl import_is_verified
