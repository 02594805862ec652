-- ===== src/State.antt =====
-- internal/state/state.go: the records that the store keeps. Opening files, locks and SQL are not
-- modelled. A text of a fixed set is a data type whose last constructor holds every other text.
pub mod Retention
pub mod Receipts
use sonarr_remediator.Base.{ℤ, Time, Duration, ℕ, String, Bool, true, false, ◌&&◌, not, List, Dict}
use sonarr_remediator.Sonarr.{QueueRow}
use sonarr_remediator.Control.{Request}
use sonarr_remediator.Control.Report.{Report}
use sonarr_remediator.Policy.Observation.{Decision, Kind}

-- `Attempt.Outcome`.
pub data Outcome : Type 0 where
  intent pending uncertain partial verified submitted failed recommended : Outcome
  other_outcome : String → Outcome

-- `Issue.State`; a new issue has the empty text.
pub data Condition : Type 0 where
  unset policy_blocked waiting retry_waiting exhausted recoverable in_progress unsure resolved :
      Condition
  other_condition : String → Condition

-- `Operation.State`.
pub data Continuation : Type 0 where
  pending_search search_attempted finished : Continuation
  other_continuation : String → Continuation

-- `Receipt.Status`.
pub data Acceptance : Type 0 where
  accepted answered interrupted : Acceptance
  other_acceptance : String → Acceptance

pub record Status : Type 0 where
  pub manual_control : String
  pub identity : String
  pub version : String
  pub dry_run : Bool
  pub recovery : Bool
  pub cleanup : Bool
  pub blocklist : Bool
  pub replacement_search : Bool
  pub ready : Bool
  pub connectivity : String
  pub read_failure : String
  pub heartbeat : Time
  pub complete_scan : Time
  pub poll_interval : Duration
  pub hour_limit : ℤ
  pub budget_used : ℕ
  pub issue_counts : Condition → ℕ
  pub unresolved : ℕ

pub record Issue : Type 0 where
  pub download_id : String
  pub identity : String
  pub fingerprint : String
  pub title : String
  pub rows : List QueueRow
  pub first_seen : Time
  pub eligible_since : Time
  pub last_seen : Time
  pub eligible : Bool
  pub elapsed : Duration
  pub rejected : Bool
  pub rejected_elapsed : Duration
  pub rejected_last_seen : Time
  pub recovery_due : Time
  pub cleanup_due : Time
  pub condition : Condition
  pub reason : String
  pub decision : Decision
  pub resolved_at : Time

pub record Attempt : Type 0 where
  pub source : String
  pub request_id : String
  pub wait_override : Bool
  pub id : ℤ
  pub download_id : String
  pub fingerprint : String
  pub kind : Kind
  pub reason : String
  pub dry_run : Bool
  pub started : Time
  pub finished_at : Time
  pub outcome : Outcome
  pub command_id : ℤ
  pub ack : Bool
  pub decision : Decision
  pub before_files : Dict ℤ ℤ
  pub verified_episodes : List ℤ
  pub removal_verified : Bool
  pub blocklist_verified : Bool
  pub title : String

abbrev pub unsettled : Outcome → Bool
unsettled intent = true
unsettled pending = true
unsettled uncertain = true
unsettled partial = true
unsettled _ = false

-- `Attempt.Pending`.
unfoldable pub is_pending : Attempt → Bool
is_pending a = not a.dry_run && unsettled a.outcome

pub record Operation : Type 0 where
  pub removal_id : ℤ
  pub download_id : String
  pub episode_ids : List ℤ
  pub continuation : Continuation
  pub reason : String

pub record Receipt : Type 0 where
  pub request : Request
  pub accepted_at : Time
  pub finished_at : Time
  pub status : Acceptance
  pub report : Report
  pub attempt_ids : List ℤ

pub record Data : Type 0 where
  pub triggers : Dict String Receipt
  pub status : Status
  pub issues : Dict String Issue
  pub attempts : List Attempt
  pub operations : Dict String Operation
