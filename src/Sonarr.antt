-- ===== src/Sonarr.antt =====
-- internal/sonarr/types.go: what Sonarr reports and what is submitted to it. A pointer is an `Option`;
-- a slice is an `Option` of a list where the program tells nil from empty, and a list elsewhere.
use sonarr_remediator.Base.{
  ℤ, Time, String, Bool, ◌&&◌, ◌||◌, Option, List, [], ◌∷◌, ◌==◌, ◌!=◌, string_eq,
}

pub record StatusMessage : Type 0 where
  pub title : String
  pub messages : List String

pub record QueueRow : Type 0 where
  pub id : ℤ
  pub download_id : String
  pub series_id : Option ℤ
  pub episode_id : Option ℤ
  pub download_client : String
  pub title : String
  pub output_path : String
  pub status : String
  pub tracked_state : String
  pub tracked_status : String
  pub added : Option Time
  pub status_messages : List StatusMessage

-- `QueueRow.Eligible`.
unfoldable pub row_eligible : QueueRow → Bool
row_eligible q =
    q.download_id != ""
    && q.status == "completed"
    && (q.tracked_state == "importBlocked"
        || q.tracked_state == "importFailed"
        || q.tracked_state == "importPending")

pub record NamedId : Type 0 where
  pub id : ℤ
  pub name : String

pub record Revision : Type 0 where
  pub version : Option ℤ
  pub real : Option ℤ
  pub is_repack : Option Bool

pub record Quality : Type 0 where
  pub quality : Option NamedId
  pub revision : Option Revision

pub record Series : Type 0 where
  pub id : ℤ
  pub quality_profile_id : ℤ
  pub monitored : Option Bool
  pub series_type : String

pub record Episode : Type 0 where
  pub id : ℤ
  pub series_id : ℤ
  pub episode_file_id : Option ℤ
  pub has_file : Option Bool
  pub monitored : Option Bool

pub record EpisodeFile : Type 0 where
  pub id : ℤ
  pub series_id : ℤ
  pub path : String
  pub quality : Quality
  pub score : Option ℤ
  pub formats : Option (List NamedId)

pub record Rejection : Type 0 where
  pub reason : String
  pub kind : String

pub record Preview : Type 0 where
  pub id : ℤ
  pub path : String
  pub folder_name : String
  pub download_id : String
  pub series : Option Series
  pub episodes : List Episode
  pub quality : Quality
  pub score : Option ℤ
  pub formats : Option (List NamedId)
  pub rejections : Option (List Rejection)
  pub languages : Option (List NamedId)
  pub release_group : String
  pub indexer_flags : Option ℤ
  pub release_type : String

-- A quality or a group of qualities; `items` holds the members of a group.
mutual
  pub data ProfileItem : Type 0 where
    profile_item : ℤ → Option NamedId → Option Bool → ProfileItems → ProfileItem

  pub data ProfileItems : Type 0 where
    nil : ProfileItems
    cons : ProfileItem → ProfileItems → ProfileItems

abbrev pub item_id : ProfileItem → ℤ
item_id (profile_item i q a xs) = i

abbrev pub item_quality : ProfileItem → Option NamedId
item_quality (profile_item i q a xs) = q

abbrev pub item_allowed : ProfileItem → Option Bool
item_allowed (profile_item i q a xs) = a

abbrev pub to_list : ProfileItems → List ProfileItem
to_list nil = []
to_list (cons x xs) = x ∷ to_list xs

abbrev pub item_items : ProfileItem → List ProfileItem
item_items (profile_item i q a xs) = to_list xs

pub record FormatItem : Type 0 where
  pub format : ℤ
  pub score : Option ℤ

pub record Profile : Type 0 where
  pub id : ℤ
  pub upgrade_allowed : Option Bool
  pub cutoff : Option ℤ
  pub cutoff_score : Option ℤ
  pub min_score : Option ℤ
  pub min_upgrade_score : Option ℤ
  pub items : Option (List ProfileItem)
  pub format_items : Option (List FormatItem)

pub record Command : Type 0 where
  pub id : ℤ
  pub name : String
  pub status : String

-- `attributes` is the map `Data`: it answers a key of the event's map, "" where it is missing.
pub record History : Type 0 where
  pub id : ℤ
  pub download_id : String
  pub series_id : ℤ
  pub episode_id : ℤ
  pub date : Time
  pub event_type : String
  pub source_title : String
  pub attributes : String → String

pub record Blocklist : Type 0 where
  pub id : ℤ
  pub series_id : ℤ
  pub episode_ids : List ℤ
  pub source_title : String
  pub date : Time

pub record ImportFile : Type 0 where
  pub path : String
  pub folder_name : String
  pub series_id : ℤ
  pub episode_ids : List ℤ
  pub quality : Quality
  pub languages : Option (List NamedId)
  pub release_group : String
  pub indexer_flags : ℤ
  pub release_type : String
  pub download_id : String
