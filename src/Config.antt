-- ===== src/Config.antt =====
-- internal/config/config.go: the settings, their defaults and their validation. Reading the file and
-- the environment is not modelled. `url.Parse` is the parameter `parse_url`.
pub mod Valid
mod Tests
use sonarr_remediator.Base.{
  ℤ, pos, Duration, minute, leb_ℤ, ltb_ℤ, String, Bool, true, false, ◌&&◌, ◌||◌, not, Option, none,
  some, List, [], ◌==◌, ◌!=◌, string_eq, if◌then◌else◌, any, is_blank, Bool_beq,
}

pub record SonarrConfig : Type 0 where
  pub url : String
  pub api_key : String
  pub api_key_file : String
  pub timeout : Duration

pub record RecoveryConfig : Type 0 where
  pub enabled : Bool
  pub wait : Duration
  pub max_attempts : ℤ
  pub retry_interval : Duration

pub record CleanupConfig : Type 0 where
  pub enabled : Bool
  pub wait : Duration
  pub blocklist : Bool
  pub replacement_search : Bool

pub record LimitsConfig : Type 0 where
  pub mutations_per_scan : ℤ
  pub mutations_per_hour : ℤ
  pub episode_cooldown : Duration

pub record ScopeConfig : Type 0 where
  pub include_series_ids : List ℤ
  pub exclude_series_ids : List ℤ
  pub include_download_clients : List String
  pub exclude_download_clients : List String

pub record LoggingConfig : Type 0 where
  pub level : String
  pub format : String

pub record Config : Type 0 where
  pub sonarr : SonarrConfig
  pub dry_run : Bool
  pub poll_interval : Duration
  pub state_path : String
  pub recovery : RecoveryConfig
  pub cleanup : CleanupConfig
  pub limits : LimitsConfig
  pub scope : ScopeConfig
  pub logging : LoggingConfig
  pub history_retention : Duration

-- `Defaults`.
abbrev pub defaults : Config
defaults = record {
  sonarr = record { url = ""; api_key = ""; api_key_file = ""; timeout = pos 10000000000 };
  dry_run = true;
  poll_interval = minute;
  state_path = "/state/remediator.db";
  recovery = record {
    enabled = true;
    wait = pos 900000000000;
    max_attempts = pos 3;
    retry_interval = pos 900000000000;
  };
  cleanup = record {
    enabled = false;
    wait = pos 21600000000000;
    blocklist = false;
    replacement_search = false;
  };
  limits = record {
    mutations_per_scan = pos 1;
    mutations_per_hour = pos 5;
    episode_cooldown = pos 1800000000000;
  };
  scope = record {
    include_series_ids = [];
    exclude_series_ids = [];
    include_download_clients = [];
    exclude_download_clients = [];
  };
  logging = record { level = "info"; format = "json" };
  history_retention = pos 2592000000000000;
}

-- The parts of a parsed URL that the validation reads.
pub record Url : Type 0 where
  pub scheme : String
  pub host : String
  pub has_user : Bool
  pub raw_query : String
  pub fragment : String

url_valid : Option Url → Bool
url_valid none = false
url_valid (some u) =
    not (u.host == "")
    && (u.scheme == "http" || u.scheme == "https")
    && not u.has_user
    && u.raw_query == ""
    && u.fragment == ""

positive : ℤ → Bool
positive n = ltb_ℤ (pos 0) n

all_positive : Config → Bool
unfolding positive
all_positive c =
    positive c.sonarr.timeout
    && positive c.poll_interval
    && positive c.recovery.wait
    && positive c.recovery.retry_interval
    && positive c.cleanup.wait
    && positive c.limits.episode_cooldown
    && positive c.history_retention
    && positive c.recovery.max_attempts
    && positive c.limits.mutations_per_scan
    && positive c.limits.mutations_per_hour

-- `Config.Validate`: the first check that fails, or nothing.
module _ (parse_url : String → Option Url) where
  unfoldable pub validate : Config → Option String
  unfolding url_valid all_positive
  validate c =
      if not (url_valid (parse_url c.sonarr.url))
      then some "sonarr.url must be an HTTP(S) URL without credentials, query, or fragment"
      else if Bool_beq (c.sonarr.api_key == "") (c.sonarr.api_key_file == "")
      then some "configure exactly one of sonarr.api_key or sonarr.api_key_file"
      else if c.state_path == ""
      then some "state_path is required"
      else if not (all_positive c)
      then some "intervals and limits must be positive"
      else if ltb_ℤ c.cleanup.wait c.recovery.wait
      then some "cleanup.wait must be at least recovery.wait"
      else if not c.cleanup.enabled && (c.cleanup.blocklist || c.cleanup.replacement_search)
      then some "blocklisting and replacement search require cleanup.enabled"
      else if any (λ i. leb_ℤ i (pos 0)) c.scope.include_series_ids
          || any (λ i. leb_ℤ i (pos 0)) c.scope.exclude_series_ids
      then some "scope series IDs must be positive"
      else if any is_blank c.scope.include_download_clients
          || any is_blank c.scope.exclude_download_clients
      then some "scope client names cannot be empty"
      else if c.logging.format != "json" && c.logging.format != "text"
      then some "logging.format must be json or text"
      else if not (
          c.logging.level == "debug"
          || c.logging.level == "info"
          || c.logging.level == "warn"
          || c.logging.level == "error")
      then some "invalid logging.level"
      else none
