-- ===== src/Service/Scan/Tests.antt =====
-- A download that a scan sees for the second time.
use sonarr_remediator.Base.{
  pos, ◌+ℤ◌, ◌-ℤ◌, ◌+int◌, wrap, saturate, sub_time, is_zero, int_beq, zero_time, arith, true,
  false, [], ◌∷◌, All, Time,
}
use sonarr_remediator.Config.{defaults}
use sonarr_remediator.Policy.Tests.{sample_digest, row}
use sonarr_remediator.State.{unset, Issue, Data}
use sonarr_remediator.Service.Tests.{empty_store, importing, noon}
use sonarr_remediator.Service.Scan.{Seen, no_decision, publish}
use sonarr_remediator.Service.Scan.Counting.{Counted}
use sonarr_remediator.Service.Scan.Published.{IsYoung, Timely, publish-IsYoung}

abbrev pub previous : Time
previous = pos 86340000000000

-- Seen 340 seconds after it was seen first, of which 300 are counted.
abbrev pub waiting_issue : Issue
waiting_issue = record {
  download_id = "d1";
  identity = "rows";
  fingerprint = "rows";
  title = "Show.S01E01";
  rows = row ∷ [];
  first_seen = pos 86000000000000;
  eligible_since = pos 86000000000000;
  last_seen = previous;
  eligible = true;
  elapsed = pos 300000000000;
  rejected = false;
  rejected_elapsed = pos 0;
  rejected_last_seen = zero_time;
  recovery_due = zero_time;
  cleanup_due = zero_time;
  condition = unset;
  reason = "";
  decision = importing (pos 50 ∷ []);
  resolved_at = zero_time;
}

Counted-before : Counted previous waiting_issue
unfolding ◌+ℤ◌ is_zero int_beq
Counted-before = (
  (omega arith, omega arith),
  (omega arith, omega arith),
  omega arith,
  (omega arith, omega arith),
  (omega arith, omega arith),
)

pub Counted-at_noon : Counted noon waiting_issue
unfolding ◌+ℤ◌ is_zero int_beq
Counted-at_noon = (
  (omega arith, omega arith),
  (omega arith, omega arith),
  omega arith,
  (omega arith, omega arith),
  (omega arith, omega arith),
)

waiting-IsYoung : IsYoung noon ("d1", waiting_issue)
unfolding ◌+ℤ◌
waiting-IsYoung = ((omega arith, omega arith, λ e r. Counted-before), omega arith)

abbrev waiting_store : Data
waiting_store = record empty_store { issues = ("d1", waiting_issue) ∷ [] }

scan_is_timely : Timely sample_digest defaults previous noon [] waiting_store
unfolding sub_time saturate ◌-ℤ◌ ◌+int◌ wrap ◌+ℤ◌
scan_is_timely = (omega arith, omega arith, omega arith)

publish-IsYoung_example :
    All
      (IsYoung noon)
      (publish sample_digest defaults previous noon [] waiting_store "4.0.1" (row ∷ [])).issues
publish-IsYoung_example =
    publish-IsYoung sample_digest defaults previous noon [] waiting_store "4.0.1" (row ∷ [])
      scan_is_timely (waiting-IsYoung, tt)

abbrev seen_still : Seen
seen_still = record {
  identity = "rows";
  rows = row ∷ [];
  eligible = true;
  observed = false;
  rejected = false;
  cleanup = no_decision;
}
