-- ===== src/Service/Tests.antt =====
-- Concrete stores for internal/service and internal/state: a run through the steps of an attempt, and
-- what pruning keeps.
use sonarr_remediator.Base.{
  ℤ, pos, InRange, ◌⊎◌, ◌≡◌, refl, ◌<ℤ◌, ◌≤ℤ◌, Time, hour, true, false, none, some, List, [], ◌∷◌,
  All, keep, length, zero_time, arith, ok, string_beq, int_beq, wrap, ◌+int◌, ◌+ℤ◌, ◌-ℤ◌, saturate,
  sub_time, is_zero, lookup,
}
use sonarr_remediator.Config.{defaults}
use sonarr_remediator.Policy.Observation.{Decision, import}
use sonarr_remediator.State.{Attempt, verified, Status, is_pending, Data}
use sonarr_remediator.State.Retention.{
  budget, prune, prune_records, erase_dropped, attempt_kept, retain_attempt, protected_ids,
}
use sonarr_remediator.State.Retention.Evidence.{budget-prune, keep-pending-prune}
use sonarr_remediator.Service.Gate.{
  overlap, concerns, cooling, same_import, gate_attempt, gate_attempts, gate,
}
use sonarr_remediator.Service.Gate.Open.{Passed, gate-Passed}
use sonarr_remediator.Service.Attempts.{
  set_issue, greatest_id, next_id, intended_attempt, reserve, expire_pending,
}
use sonarr_remediator.State.Receipts.{
  recover, open_data, check_receipts, check_attempts, has_receipt, validate_receipts,
}
use sonarr_remediator.State.Receipts.Restart.{IsRestarted, open_data-IsRestarted}
use sonarr_remediator.Service.Attempts.Reserving.{reserve-budget, next_id-fresh}
use sonarr_remediator.Service.Lifecycle.{reserves, expires, Reach, here, next}
use sonarr_remediator.Service.Lifecycle.Exclusive.{Exclusive, Reach-Exclusive}

abbrev status : Status
status = record {
  manual_control = "";
  identity = "http://sonarr";
  version = "";
  dry_run = false;
  recovery = true;
  cleanup = false;
  blocklist = false;
  replacement_search = false;
  ready = true;
  connectivity = "connected";
  read_failure = "";
  heartbeat = zero_time;
  complete_scan = zero_time;
  poll_interval = pos 60000000000;
  hour_limit = pos 5;
  budget_used = 0;
  issue_counts = λ _. 0;
  unresolved = 0;
}

abbrev pub empty_store : Data
empty_store = record { triggers = []; status = status; issues = []; attempts = []; operations = [] }

abbrev pub importing : List ℤ → Decision
importing episodes = record {
  kind = import;
  reason = "";
  fingerprint = "f";
  episode_ids = episodes;
  series_ids = pos 5 ∷ [];
  files = [];
  blocklist = false;
  episode_mismatch = false;
  executable_warning = false;
}

-- A day after the zero time.
abbrev pub noon : Time
noon = pos 86400000000000

-- A store whose download `d1` is being imported.
abbrev busy : Data
busy = record empty_store {
  attempts = intended_attempt none empty_store "d1" "" (importing (pos 50 ∷ [])) noon [] ∷ [];
}

other_is_open : gate defaults false "d2" (importing (pos 60 ∷ [])) noon (pos 0) busy ≡ none
unfolding gate gate_attempts gate_attempt budget intended_attempt next_id greatest_id is_pending
    concerns overlap cooling same_import string_beq int_beq wrap ◌+int◌ ◌+ℤ◌ ◌-ℤ◌ saturate sub_time
    is_zero
other_is_open = refl

same_is_refused :
    gate defaults false "d2" (importing (pos 50 ∷ [])) noon (pos 0) busy
    ≡ some "pending/uncertain action protects download or episode"
unfolding gate gate_attempts gate_attempt budget intended_attempt next_id greatest_id is_pending
    concerns overlap cooling same_import string_beq int_beq wrap ◌+int◌ ◌+ℤ◌ ◌-ℤ◌ saturate sub_time
    is_zero
same_is_refused = refl

gate-Passed_example :
    (pos (budget noon busy) <ℤ pos 5)
    × All (Passed defaults false "d2" (importing (pos 60 ∷ [])) noon (pos 0)) busy.attempts
gate-Passed_example =
    gate-Passed defaults false "d2" (importing (pos 60 ∷ [])) noon (pos 0) busy other_is_open

-- `d2` is reserved beside `d1`, and then the deadline of both passes.
abbrev reserved : Data
reserved = record busy {
  attempts =
      intended_attempt none empty_store "d1" "" (importing (pos 50 ∷ [])) noon []
      ∷ intended_attempt none busy "d2" "" (importing (pos 60 ∷ [])) noon []
      ∷ [];
}

reserves_second : reserve none busy "d2" "" (importing (pos 60 ∷ [])) noon [] ≡ ok reserved
unfolding reserve set_issue
reserves_second = refl

run : Reach defaults busy (expire_pending (noon +ℤ hour) reserved)
run =
    next
      (next here (
        reserves false none "d2" "" (importing (pos 60 ∷ [])) noon noon (pos 0) [] reserved
          other_is_open reserves_second))
      (expires (noon +ℤ hour))

Reach-Exclusive_example : Exclusive (expire_pending (noon +ℤ hour) reserved).attempts
Reach-Exclusive_example = Reach-Exclusive run (tt, tt)

-- Two hours later the import of `d1` is verified, and `d2` still pending.
abbrev settled : Data
settled = record busy {
  attempts =
      record (intended_attempt none empty_store "d1" "" (importing (pos 50 ∷ [])) noon []) {
        outcome = verified;
        finished_at = noon;
      }
      ∷ intended_attempt none busy "d2" "" (importing (pos 60 ∷ [])) noon []
      ∷ [];
}

evening : Time
evening = noon +ℤ hour +ℤ hour

verified_is_dropped : length (prune settled evening (pos 1) (pos 1)).attempts ≡ 1
unfolding prune prune_records attempt_kept retain_attempt protected_ids intended_attempt is_pending
    evening lookup is_zero ◌+ℤ◌ ◌-ℤ◌ erase_dropped
verified_is_dropped = refl

later : evening ≤ℤ (evening +ℤ hour)
unfolding ◌+ℤ◌
later = ground arith

budget-prune_example :
    budget (evening +ℤ hour) (prune settled evening (pos 1) (pos 1))
    ≡ budget (evening +ℤ hour) settled
budget-prune_example = budget-prune settled evening (evening +ℤ hour) (pos 1) (pos 1) later

keep-pending-prune_example :
    keep is_pending (prune settled evening (pos 1) (pos 1)).attempts
    ≡ keep is_pending settled.attempts
keep-pending-prune_example = keep-pending-prune settled evening (pos 1) (pos 1)

reserve-budget_example : pos (budget noon reserved) ≤ℤ pos 5
reserve-budget_example =
    reserve-budget defaults false none "d2" "" (importing (pos 60 ∷ [])) noon (pos 0) [] busy
      reserved other_is_open reserves_second

busy_ids : InRange (greatest_id (pos 0) busy.attempts +ℤ pos 1)
unfolding greatest_id intended_attempt next_id ◌+ℤ◌ ◌+int◌ wrap
busy_ids = (ground arith, ground arith)

next_id-fresh_example : All (λ (a : Attempt). a.id <ℤ next_id busy) busy.attempts
next_id-fresh_example = next_id-fresh busy busy_ids

busy_opens :
    open_data false evening "http://sonarr" busy ≡ ok (recover evening "http://sonarr" busy)
unfolding open_data recover validate_receipts check_receipts check_attempts has_receipt
    intended_attempt string_beq
busy_opens = refl

open_data-IsRestarted_example :
    IsRestarted busy (recover evening "http://sonarr" busy)
    × ((recover evening "http://sonarr" busy).status.identity ≡ "http://sonarr")
    × ((busy.status.identity ≡ "http://sonarr") ⊎ ((false ≡ true) × (busy.status.identity ≡ "")))
open_data-IsRestarted_example =
    open_data-IsRestarted false evening "http://sonarr" busy (recover evening "http://sonarr" busy)
      busy_opens
