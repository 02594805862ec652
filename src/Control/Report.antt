-- ===== src/Control/Report.antt =====
-- internal/control/types.go: the report of a manual request; actions, dispositions and outcomes are
-- texts here as in the source.
use sonarr_remediator.Base.{ℤ, pos, Duration, ℕ, String, Bool, false, List, [], if◌then◌else◌}
use sonarr_remediator.Control.{Request, Permissions, Budget, control_version}

pub record Effect : Type 0 where
  pub attempt_id : ℤ
  pub action : String
  pub outcome : String
  pub acknowledged : Bool
  pub reason : String
  pub removal_verified : Bool
  pub blocklist_verified : Bool

pub record Item : Type 0 where
  pub download_id : String
  pub queue_rows : ℕ
  pub action : String
  pub disposition : String
  pub reason : String
  pub episodes : List ℤ
  pub preview_files : ℕ
  pub membership_complete : Bool
  pub wait : Duration
  pub observed : Duration
  pub remaining : Duration
  pub wait_bypassed : Bool
  pub client_deletion : Bool
  pub blocklist : Bool
  pub replacement_search : Bool
  pub effects : List Effect

pub record Report : Type 0 where
  pub source : String
  pub version : ℤ
  pub request_id : String
  pub state_path : String
  pub identity : String
  pub mode : String
  pub background_dry_run : Bool
  pub override_wait : Bool
  pub downloads : List String
  pub permissions : Permissions
  pub budget : Budget
  pub queue_rows : ℕ
  pub shared_downloads : ℕ
  pub items : List Item
  pub exit_code : ℤ
  pub error : String

-- `Failure`.
unfoldable pub failure : Request → ℤ → String → Report
failure r code reason = record {
  source = "manual";
  version = control_version;
  request_id = r.id;
  state_path = "";
  identity = "";
  mode = if r.execute then "execute" else "preview";
  background_dry_run = false;
  override_wait = r.override_wait;
  downloads = r.downloads;
  permissions = record {
    recovery = false;
    cleanup = false;
    blocklist = false;
    replacement_search = false;
  };
  budget = record { per_cycle = pos 0; hour_limit = pos 0; hour_used = pos 0; available = pos 0 };
  queue_rows = 0;
  shared_downloads = 0;
  items = [];
  exit_code = code;
  error = reason;
}
