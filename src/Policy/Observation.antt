-- ===== src/Policy/Observation.antt =====
-- internal/policy/policy.go: one observation of a download, the decision about it, and the tests on
-- queue rows and on the configured scope that both decision procedures share.
use sonarr_remediator.Base.{
  ◌≡◌, ite, String-discrete, true, false, ℤ, pos, ltb_ℤ, leb_ℤ, String, Bool, ◌&&◌, ◌||◌, not, List,
  ◌==◌, ◌!=◌, string_eq, int_eq, Dict, contains, any, all, is_empty, is_none, int_at,
}
use sonarr_remediator.Sonarr.{
  QueueRow, row_eligible, Preview, Episode, EpisodeFile, Series, Profile, ImportFile,
}
use sonarr_remediator.Config.{Config}

pub record Observation : Type 0 where
  pub download_id : String
  pub rows : List QueueRow
  pub queue : List QueueRow
  pub preview : List Preview
  pub episodes : Dict ℤ Episode
  pub files : Dict ℤ EpisodeFile
  pub series : Dict ℤ Series
  pub profiles : Dict ℤ Profile
  pub propers : String
  pub intended : List ℤ
  pub membership_complete : Bool

-- `Decision.Kind`. `no_action` is the empty text; `other_kind` holds every text that is not listed, as
-- a stored record may have it.
pub data Kind : Type 0 where
  no_action defer import remove_redundant remove_unusable remove_blocked search : Kind
  other_kind : String → Kind

Kind-discrete : Discrete Kind
Kind-discrete = hlevel String-discrete

unfoldable pub same_kind : Kind → Kind → Bool
unfolding Kind-discrete
same_kind a b = ite (Kind-discrete a b) true false

pub record Decision : Type 0 where
  pub kind : Kind
  pub reason : String
  pub fingerprint : String
  pub episode_ids : List ℤ
  pub series_ids : List ℤ
  pub files : List ImportFile
  pub blocklist : Bool
  pub episode_mismatch : Bool
  pub executable_warning : Bool

-- `HasExecutableWarning`.
unfoldable pub has_executable_warning : List QueueRow → Bool
has_executable_warning = any λ q.
    q.tracked_status == "warning"
    && any (λ s. contains s.messages "Caution: Found executable file") q.status_messages

-- `Eligible`.
unfoldable pub eligible : List QueueRow → Bool
eligible rows = not (is_empty rows) && all row_eligible rows

-- `SeriesAllowed`.
unfoldable pub series_allowed : Config → ℤ → Bool
series_allowed c id =
    ltb_ℤ (pos 0) id
    && not (contains c.scope.exclude_series_ids id)
    && (is_empty c.scope.include_series_ids || contains c.scope.include_series_ids id)

-- `ClientAllowed`.
unfoldable pub client_allowed : Config → String → Bool
client_allowed c name =
    name != ""
    && not (contains c.scope.exclude_download_clients name)
    && (is_empty c.scope.include_download_clients || contains c.scope.include_download_clients name)

-- A row of the queue that may bring one of the episodes: not of this download, not finished, and for
-- an unknown episode or one of these.
unfoldable pub row_competes : String → List ℤ → QueueRow → Bool
row_competes download episodes q =
    not (download != "" && q.download_id == download)
    && not (
        q.status == "completed"
        && (q.tracked_state == "importBlocked"
            || q.tracked_state == "importFailed"
            || q.tracked_state == "imported"))
    && (is_none q.episode_id
        || leb_ℤ (int_at q.episode_id) (pos 0)
        || contains episodes (int_at q.episode_id))

-- `Competing`.
unfoldable pub competing : List QueueRow → String → List ℤ → Bool
competing queue download episodes = any (row_competes download episodes) queue

-- A series that the configuration lets the program act on.
abbrev pub InScope : Config → ℤ → Type 0
InScope c id = series_allowed c id ≡ true

-- An id that is known, as a positive number, is in scope.
abbrev pub KnownInScope : Config → ℤ → Type 0
KnownInScope c id = ltb_ℤ (pos 0) id ≡ true → InScope c id

-- A queue row of the download, through a client in scope, and of no known series out of scope.
abbrev pub RowInScope : Config → String → QueueRow → Type 0
RowInScope c download q =
    (q.download_id ≡ download)
    × (client_allowed c q.download_client ≡ true)
    × KnownInScope c (int_at q.series_id)
