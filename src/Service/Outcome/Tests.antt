-- ===== src/Service/Outcome/Tests.antt =====
-- An import whose receipt is not saved.
use sonarr_remediator.Base.{
  String, pos, ◌≡◌, ◌↔◌, refl, true, false, none, some, [], ◌∷◌, any, is_none,
}
use sonarr_remediator.Control.{Request}
use sonarr_remediator.Control.Report.{Report, Item, Effect}
use sonarr_remediator.Service.Outcome.{conclude_report}
use sonarr_remediator.Service.Outcome.Fair.{acts, has_uncertain, conclude_report-IsFair}

abbrev preview : Request
preview = record {
  version = pos 1;
  id = "";
  execute = false;
  override_wait = false;
  downloads = "d1" ∷ [];
  issued = pos 5000000000;
  expires = pos 65000000000;
}

abbrev importable : Item
importable = record {
  download_id = "d1";
  queue_rows = 1;
  action = "import";
  disposition = "would_import";
  reason = "importable";
  episodes = pos 50 ∷ [];
  preview_files = 1;
  membership_complete = true;
  wait = pos 900000000000;
  observed = pos 900000000000;
  remaining = pos 0;
  wait_bypassed = false;
  client_deletion = false;
  blocklist = false;
  replacement_search = false;
  effects = [];
}

abbrev previewed : Report
previewed = record {
  source = "manual";
  version = pos 1;
  request_id = "";
  state_path = "";
  identity = "";
  mode = "preview";
  background_dry_run = false;
  override_wait = false;
  downloads = "d1" ∷ [];
  permissions = record {
    recovery = true;
    cleanup = false;
    blocklist = false;
    replacement_search = false;
  };
  budget = record { per_cycle = pos 1; hour_limit = pos 5; hour_used = pos 0; available = pos 1 };
  queue_rows = 1;
  shared_downloads = 1;
  items = importable ∷ [];
  exit_code = pos 2;
  error = "";
}

abbrev execution : Request
execution = record preview { execute = true }

abbrev imported : Effect
imported = record {
  attempt_id = pos 1;
  action = "import";
  outcome = "acknowledged";
  acknowledged = true;
  reason = "";
  removal_verified = false;
  blocklist_verified = false;
}

abbrev acknowledged : Report
acknowledged = record previewed {
  mode = "execute";
  items = record importable { disposition = "submitted"; effects = imported ∷ [] } ∷ [];
}

-- An acknowledged import whose receipt is not saved.
conclude_report-IsFair_example :
    let done = conclude_report execution none false true (some "disk full") acknowledged in
    (done.exit_code ≡ pos 0 ↔ (
      (is_none {A = String} none ≡ true)
      × (false ≡ false)
      × (any has_uncertain acknowledged.items ≡ false)
      × (any (acts true) acknowledged.items ≡ true)
      × (true ≡ false)))
    × (is_none {A = String} none ≡ false → true ≡ true → true ≡ true → done.exit_code ≡ pos 3)
    × (true ≡ true → true ≡ true → done.exit_code ≡ pos 3)
conclude_report-IsFair_example =
    conclude_report-IsFair execution none false true (some "disk full") acknowledged refl
