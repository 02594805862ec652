-- ===== src/State/Retention.antt =====
-- internal/state/state.go: the mutation budget, the status, and `Prune`. A range over a map is a pass
-- over its list; deleting the current key is leaving the entry out.
pub mod Evidence
use sonarr_remediator.Base.{
  ℤ, pos, Time, Duration, is_zero, after, before, sub_time, ◌-ℤ◌, ◌+ℤ◌, wrap, hour, ltb_ℤ, leb_ℤ, ℕ,
  suc, String, Bool, true, false, ◌&&◌, ◌||◌, not, Option, none, some, List, [], ◌∷◌, ◌++◌, ◌==◌,
  ◌!=◌, string_eq, int_eq, if◌then◌else◌, ite, String-discrete, Dict, lookup, erase, contains, any,
  keep, length,
}
use sonarr_remediator.State.{
  Outcome, Condition, resolved, Continuation, finished, Acceptance, accepted, Status, Issue,
  Attempt, is_pending, Operation, Receipt, Data,
}

-- `now.Add(-d)`.
abbrev pub ago : Time → Duration → Time
ago now d = now -ℤ d

abbrev pub spends : Time → Attempt → Bool
spends now a = not a.dry_run && after a.started (ago now hour)

-- `Data.Budget`: the mutations of the last hour.
unfoldable pub budget : Time → Data → ℕ
budget now d = length (keep (spends now) d.attempts)

pub Condition-discrete : Discrete Condition
Condition-discrete = hlevel String-discrete

same_condition : Condition → Condition → Bool
same_condition a b = ite (Condition-discrete a b) true false

abbrev pub is_resolved : Condition → Bool
is_resolved resolved = true
is_resolved _ = false

abbrev pub is_finished : Continuation → Bool
is_finished finished = true
is_finished _ = false

abbrev pub is_accepted : Acceptance → Bool
is_accepted accepted = true
is_accepted _ = false

-- The download's issue is known and not resolved.
abbrev issue_open : Option Issue → Bool
issue_open none = false
issue_open (some i) = not (is_resolved i.condition)

abbrev operation_open : Option Operation → Bool
operation_open none = false
operation_open (some op) = not (is_finished op.continuation)

abbrev operation_needs : ℤ → Option Operation → Bool
operation_needs id none = false
operation_needs id (some op) = not (is_finished op.continuation) && op.removal_id == id

-- `retainAttempt`.
unfoldable pub retain_attempt : Data → Time → Duration → Duration → Attempt → Bool
retain_attempt d now retention cooldown a =
    is_pending a
    || issue_open (lookup a.download_id d.issues)
    || operation_needs a.id (lookup a.download_id d.operations)
    || after a.started (ago now hour)
    || after a.finished_at (ago now cooldown)
    || after (if is_zero a.finished_at then a.started else a.finished_at) (ago now retention)

-- A receipt that `Prune` must keep, whatever its age.
receipt_unresolved : Data → Time → Duration → Duration → String → Receipt → Bool
receipt_unresolved d now retention cooldown id r =
    is_accepted r.status
    || any
        (λ (a : Attempt).
          a.request_id == id
          && (retain_attempt d now retention cooldown a
              || operation_open (lookup a.download_id d.operations)))
        d.attempts

unfoldable pub receipt_kept : Data → Time → Duration → Duration → String × Receipt → Bool
unfolding receipt_unresolved
receipt_kept d now retention cooldown (id, r) =
    receipt_unresolved d now retention cooldown id r
    || is_zero r.finished_at
    || leb_ℤ (sub_time now r.finished_at) retention

-- A resolved issue past its retention that nothing protects.
unfoldable pub issue_kept : Data → Time → Duration → String × Issue → Bool
issue_kept d now retention (id, i) =
    not (is_resolved i.condition)
    || is_zero i.resolved_at
    || leb_ℤ (sub_time now i.resolved_at) retention
    || any (λ (a : Attempt). a.download_id == id && is_pending a) d.attempts
    || operation_open (lookup id d.operations)

-- `delete(d.Operations, id)` for each issue that is deleted.
unfoldable pub erase_dropped :
    (String × Issue → Bool) → Dict String Issue → Dict String Operation → Dict String Operation
erase_dropped kept [] ops = ops
erase_dropped kept ((id, i) ∷ rest) ops =
    erase_dropped kept rest (if kept (id, i) then ops else erase id ops)

unfoldable pub protected_ids : List (String × Receipt) → List ℤ
protected_ids [] = []
protected_ids ((id, r) ∷ rest) = r.attempt_ids ++ protected_ids rest

-- The store after the first two loops of `Prune`.
unfoldable pub prune_records : Data → Time → Duration → Duration → Data
prune_records d now retention cooldown = record d {
  triggers = keep (receipt_kept d now retention cooldown) d.triggers;
  issues = keep (issue_kept d now retention) d.issues;
  operations = erase_dropped (issue_kept d now retention) d.issues d.operations;
}

-- An attempt stays if a kept receipt names it, or for its own sake.
unfoldable pub attempt_kept : Data → Time → Duration → Duration → Attempt → Bool
attempt_kept d now retention cooldown a =
    contains (protected_ids d.triggers) a.id || retain_attempt d now retention cooldown a

-- `Data.Prune`.
unfoldable pub prune : Data → Time → Duration → Duration → Data
prune d now retention cooldown =
    let e = prune_records d now retention cooldown in
    record e { attempts = keep (attempt_kept e now retention cooldown) d.attempts }

unfoldable pub count_issues : Dict String Issue → Condition → ℕ
unfolding same_condition
count_issues issues s = length (keep (λ (_, i). same_condition i.condition s) issues)

-- `AggregateStatus`.
unfoldable pub aggregate_status : Time → Data → Data
aggregate_status now d = record d {
  status = record (d.status) {
    budget_used = budget now d;
    issue_counts = count_issues d.issues;
    unresolved = length (keep is_pending d.attempts);
  };
}

-- `UpdateStatus`.
unfoldable pub update_status : Time → Data → Data
update_status now d =
    aggregate_status now (record d { status = record (d.status) { heartbeat = now } })

-- `3 * s.PollInterval`.
triple : Duration → Duration
triple p = wrap (p +ℤ p +ℤ p)

-- `Status.Healthy`.
unfoldable pub healthy : Time → Status → Bool
unfolding triple
healthy now s =
    s.ready
    && s.read_failure == ""
    && s.connectivity == "connected"
    && ltb_ℤ (pos 0) s.poll_interval
    && not (is_zero s.heartbeat)
    && not (is_zero s.complete_scan)
    && not (after s.heartbeat now)
    && not (after s.complete_scan now)
    && leb_ℤ (sub_time now s.heartbeat) (triple s.poll_interval)
    && leb_ℤ (sub_time now s.complete_scan) (triple s.poll_interval)
