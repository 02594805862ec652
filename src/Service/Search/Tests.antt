-- ===== src/Service/Search/Tests.antt =====
-- A replacement that is searched for.
use sonarr_remediator.Base.{
  ℤ, pos, ◌≡◌, refl, true, false, none, some, List, [], ◌∷◌, Result, ok, err, saturate, sub_time,
  int_beq, wrap, ◌+int◌, ◌+ℤ◌, ◌-ℤ◌, is_zero, lookup, insert_sorted, sort, sort_ints, string_beq,
  insert, erase,
}
use sonarr_remediator.Config.{Config, defaults}
use sonarr_remediator.Policy.Observation.{
  remove_unusable, series_allowed, client_allowed, competing, row_competes,
}
use sonarr_remediator.Policy.Profile.{
  acceptable, current_acceptable, profile_ranks, valid_quality, score, format_weights, sum_formats,
  validate_profile,
}
use sonarr_remediator.Policy.Tests.{show, first, profile}
use sonarr_remediator.State.{verified, pending_search, Operation, Data, is_pending}
use sonarr_remediator.State.Retention.{budget}
use sonarr_remediator.Service.Gate.{
  overlap, concerns, cooling, same_import, gate_attempt, gate_attempts, gate,
}
use sonarr_remediator.Service.Attempts.{
  set_issue, has_pending, greatest_id, next_id, intended_attempt, reserve, response,
}
use sonarr_remediator.Service.Client.{Client, current_file, library_file, current}
use sonarr_remediator.Service.Execute.{respond_last}
use sonarr_remediator.Service.Scan.{new_issue}
use sonarr_remediator.Service.Search.{
  find_attempt, is_searched, is_missing, search_targets, seek_targets, seek_after, search_decision,
  put_operation, last_reason, search_after, search_step,
}
use sonarr_remediator.Service.Search.Justified.{IsJustified, search_step-IsJustified}
use sonarr_remediator.Service.Search.Life.{IsRecorded, search_step-IsRecorded}
use sonarr_remediator.Service.Tests.{empty_store, importing, noon}

abbrev pub searching : Config
searching = record defaults {
  cleanup = record {
    enabled = true;
    wait = pos 21600000000000;
    blocklist = true;
    replacement_search = true;
  };
}

-- The episode has no file, and the queue is empty.
abbrev pub answers : Client
answers = record {
  queue = ok [];
  preview = λ _. ok [];
  media = ok "preferAndUpgrade";
  command = λ _. err "unknown";
  history = λ _. ok [];
  blocklist = ok [];
  episode = λ _. ok (record first { has_file = some false; episode_file_id = some (pos 0) });
  episode_file = λ _. err "unknown";
  series = λ _. ok show;
  profile = λ _. ok profile;
}

-- The unusable download was removed.
abbrev pub removed : Data
removed = record empty_store {
  issues = ("d1", new_issue "d1" noon) ∷ [];
  attempts =
      record (intended_attempt none empty_store "d1" "" (importing (pos 50 ∷ [])) noon []) {
        kind = remove_unusable;
        outcome = verified;
        finished_at = noon;
      }
      ∷ [];
}

abbrev pub wanted : Operation
wanted = record {
  removal_id = pos 1;
  download_id = "d1";
  episode_ids = pos 50 ∷ [];
  continuation = pending_search;
  reason = "";
}

abbrev accept : List ℤ → Result ℤ
accept _ = ok (pos 9)

search_is_sent :
    (search_step searching answers accept none false noon noon removed wanted).sent
    ≡ some (pos 50 ∷ [])
unfolding find_attempt is_searched is_missing search_targets seek_targets seek_after search_decision
    put_operation last_reason search_after search_step respond_last current_file library_file
    current set_issue has_pending greatest_id next_id intended_attempt reserve response overlap
    concerns cooling same_import gate_attempt gate_attempts gate budget is_pending acceptable
    current_acceptable profile_ranks valid_quality score format_weights sum_formats validate_profile
    series_allowed client_allowed competing row_competes saturate sub_time int_beq wrap ◌+int◌ ◌+ℤ◌
    ◌-ℤ◌ is_zero lookup insert_sorted sort sort_ints string_beq insert erase
search_is_sent = refl

search_step-IsJustified_example :
    IsJustified searching answers none false noon removed wanted (pos 50 ∷ [])
search_step-IsJustified_example =
    search_step-IsJustified searching answers accept none false noon noon removed wanted
      (pos 50 ∷ []) search_is_sent

search_step-IsRecorded_example :
    IsRecorded searching answers accept none false noon noon removed wanted
      (search_step searching answers accept none false noon noon removed wanted)
search_step-IsRecorded_example =
    search_step-IsRecorded searching answers accept none false noon noon removed wanted
