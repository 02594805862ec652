-- ===== src/Service/Scan.antt =====
-- internal/service/service.go, the part of `Cycle` that publishes a complete scan: the clocks of an issue,
-- the groups of the queue, and the issues that the queue no longer has. Also `failed`, which stops the clocks.
pub mod Clock
pub mod Counting
pub mod Framed
pub mod Timed
pub mod Progress
pub mod Published
pub mod Tests
use sonarr_remediator.Base.{
  ℤ, pos, Time, Duration, zero_time, is_zero, after, sub_time, ltb_ℤ, leb_ℤ, min_ℤ, ◌+int◌, int_eq,
  String, Bool, true, false, ◌&&◌, ◌||◌, not, Option, none, some, List, [], ◌∷◌, ◌++◌, map, keep,
  ◌==◌, ◌!=◌, string_eq, if◌then◌else◌, is_none, is_empty, any, contains, Dict, lookup,
}
use sonarr_remediator.Sonarr.{QueueRow}
use sonarr_remediator.Config.{Config}
use sonarr_remediator.Policy.Observation.{
  Observation, Decision, Kind, no_action, remove_blocked, eligible,
}
use sonarr_remediator.Policy.Fingerprint.{Digest, queue_identity}
use sonarr_remediator.Policy.Rejected.{rejected_cleanup}
use sonarr_remediator.State.{Condition, unset, policy_blocked, resolved, Issue, Status, Data}
use sonarr_remediator.State.Retention.{is_resolved, update_status}
use sonarr_remediator.Service.Attempts.{set_issue, has_pending, expire_pending}
use sonarr_remediator.Service.Execute.{group}

abbrev pub is_remove_blocked : Kind → Bool
is_remove_blocked remove_blocked = true
is_remove_blocked _ = false

-- `cleanupElapsed`.
unfoldable pub cleanup_elapsed : Issue → Duration
cleanup_elapsed i = if i.rejected then i.rejected_elapsed else i.elapsed

-- `cleanupWait`.
unfoldable pub cleanup_wait : Config → Decision → Duration
cleanup_wait c d =
    if is_remove_blocked d.kind && (d.episode_mismatch || d.executable_warning)
    then pos 0
    else c.cleanup.wait

-- What the scan has of a download: the identity of its rows, whether they are eligible, and, if the download
-- was observed, what `RejectedCleanup` says of the observation.
pub record Seen : Type 0 where
  pub identity : String
  pub rows : List QueueRow
  pub eligible : Bool
  pub observed : Bool
  pub rejected : Bool
  pub cleanup : Decision

-- The zero decision.
abbrev pub no_decision : Decision
no_decision = record {
  kind = no_action;
  reason = "";
  fingerprint = "";
  episode_ids = [];
  series_ids = [];
  files = [];
  blocklist = false;
  episode_mismatch = false;
  executable_warning = false;
}

-- `&state.Issue{DownloadID: id, FirstSeen: now}`.
abbrev pub new_issue : String → Time → Issue
new_issue id now = record {
  download_id = id;
  identity = "";
  fingerprint = "";
  title = "";
  rows = [];
  first_seen = now;
  eligible_since = zero_time;
  last_seen = zero_time;
  eligible = false;
  elapsed = pos 0;
  rejected = false;
  rejected_elapsed = pos 0;
  rejected_last_seen = zero_time;
  recovery_due = zero_time;
  cleanup_due = zero_time;
  condition = unset;
  reason = "";
  decision = no_decision;
  resolved_at = zero_time;
}

-- `2*s.Config.PollInterval`.
abbrev pub two_polls : Config → Duration
two_polls c = c.poll_interval +int c.poll_interval

module _ (c : Config) (previous now : Time) (seen : Seen) where
  -- A download that is new, changed or was not eligible starts its wait anew.
  unfoldable pub reset : Issue → Issue
  reset i =
      if seen.identity != i.identity
        || not seen.eligible
        || not i.eligible
        || is_resolved i.condition
      then record i {
        eligible_since = now;
        elapsed = pos 0;
        rejected = false;
        rejected_elapsed = pos 0;
        rejected_last_seen = zero_time;
        recovery_due = zero_time;
        cleanup_due = zero_time;
      }
      else i

  unfoldable pub date : Issue → Issue
  date i =
      if seen.eligible && is_zero i.eligible_since
      then record i { eligible_since = i.first_seen }
      else i

  -- The last scan was complete, saw the download as it is now, and is not long ago.
  unfoldable pub continues : Issue → Bool
  continues i =
      seen.eligible
      && i.eligible
      && seen.identity == i.identity
      && not (is_zero previous)
      && after now previous
      && leb_ℤ (sub_time now previous) (two_polls c)
      && i.last_seen == previous

  unfoldable pub count : Issue → Issue
  count i =
      if continues i
      then record i { elapsed = i.elapsed +int min_ℤ (sub_time now previous) c.poll_interval }
      else i

  unfoldable pub count_rejected : Issue → Issue
  count_rejected i =
      if seen.rejected
        && i.rejected
        && not (is_zero previous)
        && after now i.rejected_last_seen
        && leb_ℤ (sub_time now i.rejected_last_seen) (two_polls c)
      then record i {
        rejected_elapsed =
            i.rejected_elapsed +int min_ℤ c.poll_interval (sub_time now i.rejected_last_seen);
      }
      else i

  unfoldable pub note_rejected : Issue → Issue
  note_rejected i =
      if not seen.observed
      then i
      else if not seen.rejected
      then record i { rejected_elapsed = pos 0; rejected_last_seen = zero_time; rejected = false }
      else record i { rejected_last_seen = now; rejected = true }

  abbrev pub due : Duration → Duration → Time → Time
  due elapsed wait t = if ltb_ℤ elapsed wait then zero_time else if is_zero t then now else t

  unfoldable pub set_due : Issue → Issue
  set_due i = record i {
    recovery_due = due i.elapsed c.recovery.wait i.recovery_due;
    cleanup_due = due (cleanup_elapsed i) (cleanup_wait c seen.cleanup) i.cleanup_due;
  }

  abbrev pub first_title : List QueueRow → String
  first_title [] = ""
  first_title (r ∷ rest) = r.title

  unfoldable pub note_rows : Issue → Issue
  note_rows i = record i {
    identity = seen.identity;
    rows = seen.rows;
    title = first_title seen.rows;
    eligible = seen.eligible;
    last_seen = now;
    resolved_at = zero_time;
  }

  -- The clocks of an issue, over one scan.
  unfoldable pub tick : Issue → Issue
  tick i = note_rows (set_due (note_rejected (count_rejected (count (date (reset i))))))

-- `setIssue` on the issue itself.
abbrev pub mark : Condition → String → Issue → Issue
mark condition reason i = record i { condition = condition; reason = reason }

-- The zero observation that an unobserved download has.
abbrev pub no_observation : Observation
no_observation = record {
  download_id = "";
  rows = [];
  queue = [];
  preview = [];
  episodes = [];
  files = [];
  series = [];
  profiles = [];
  propers = "";
  intended = [];
  membership_complete = false;
}

abbrev pub observation_of : Option Observation → Observation
observation_of none = no_observation
observation_of (some o) = o

-- The ids of `group(queue)`, each once.
unfoldable pub download_ids : List QueueRow → List String
download_ids [] = []
download_ids (q ∷ rest) =
    let later = download_ids rest in
    if q.download_id == "" || contains later q.download_id then later else q.download_id ∷ later

unfoldable pub put_issue : String → Issue → Dict String Issue → Dict String Issue
put_issue id i [] = (id, i) ∷ []
put_issue id i ((k, j) ∷ rest) =
    let later = put_issue id i rest in if k == id then (id, i) ∷ rest else (k, j) ∷ later

module _ (digest : Digest) (c : Config) (previous now : Time)
    (observations : Dict String Observation) (s : Data) where
  unfoldable pub see_rows : String → List QueueRow → Seen
  see_rows id rows =
      let o = lookup id observations in
      let cleanup = rejected_cleanup digest c (observation_of o) in
      record {
        identity = queue_identity digest rows;
        rows = rows;
        eligible = eligible rows;
        observed = not (is_none o);
        rejected = not (is_none o) && cleanup.1;
        cleanup = cleanup.0;
      }

  -- The issue of a download of the queue, after the round of the loop.
  unfoldable pub scan_issue : String → Seen → Issue → Issue
  scan_issue id seen i =
      let j = tick c previous now seen i in
      if not seen.eligible && not (has_pending id s)
      then mark policy_blocked "protected or noneligible tracked state" j
      else j

  -- A round of the loop over the groups.
  unfoldable pub scan_group : String → List QueueRow → Dict String Issue → Dict String Issue
  scan_group id rows issues =
      let seen = see_rows id rows in
      elim (lookup id issues) [
        | some i ↦ put_issue id (scan_issue id seen i) issues
        | none ↦
            if not seen.eligible
            then issues
            else put_issue id (scan_issue id seen (new_issue id now)) issues
      ]

  unfoldable pub scan_groups : List String → List QueueRow → Dict String Issue → Dict String Issue
  scan_groups [] queue issues = issues
  scan_groups (id ∷ rest) queue issues =
      scan_groups rest queue (scan_group id (group id queue) issues)

  -- A round of the loop over the issues.
  unfoldable pub resolve : List QueueRow → String × Issue → String × Issue
  resolve queue (id, i) = (
    id,
    if contains (download_ids queue) id || is_resolved i.condition || has_pending id s
        then i
        else mark resolved "externally resolved; complete queue scan shows absence" (record i {
          eligible = false;
          elapsed = pos 0;
          rejected = false;
          rejected_elapsed = pos 0;
          rejected_last_seen = zero_time;
          resolved_at = now;
        }),
  )

  -- Both loops, and the status of the complete scan.
  unfoldable pub publish : String → List QueueRow → Data
  publish version queue = record s {
    issues = map (resolve queue) (scan_groups (download_ids queue) queue s.issues);
    status = record (s.status) {
      version = version;
      connectivity = "connected";
      read_failure = "";
      complete_scan = now;
    };
  }

abbrev pub forget_seen : String × Issue → String × Issue
forget_seen (id, i) = (id, record i { rejected_last_seen = zero_time })

-- `failed`, before the save; it also sets `s.previous` to the zero time.
unfoldable pub failed : Time → String → Data → Data
failed now e s =
    let t = expire_pending now s in
    update_status now (record t {
      issues = map forget_seen t.issues;
      status = record (t.status) { read_failure = e; connectivity = "degraded" };
    })
