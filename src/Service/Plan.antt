-- ===== src/Service/Plan.antt =====
-- internal/service/service.go, the part of `Cycle` that plans the actions, and internal/state/state.go,
-- `SortedIssues`. `show` is the text of a `time.Duration`, and `cancelled` says whether the deadline has passed
-- when the candidate with an id is planned.
pub mod Candidates
pub mod Rounds
pub mod Sound
mod Tests
use Prim.Native.String
use sonarr_remediator.Base.{
  ℕ, suc, pos, Time, Duration, zero_time, is_zero, before, ltb_ℤ, int_eq, String, Bool, true, false,
  ◌&&◌, ◌||◌, not, Option, none, some, List, [], ◌∷◌, ◌++◌, map, keep, ◌==◌, ◌!=◌, string_eq,
  if◌then◌else◌, is_none, has_substring, sort, sort_strings, string_less, lookup, Dict,
}
use sonarr_remediator.Config.{Config}
use sonarr_remediator.Control.{Request}
use sonarr_remediator.Control.Report.{Report, Item}
use sonarr_remediator.Policy.Observation.{Observation, Decision, Kind}
use sonarr_remediator.Policy.Fingerprint.{Digest}
use sonarr_remediator.State.{
  Outcome, uncertain, partial, Condition, policy_blocked, waiting, retry_waiting, exhausted,
  recoverable, in_progress, unsure, Issue, Attempt, Operation, Data,
}
use sonarr_remediator.State.Retention.{is_resolved}
use sonarr_remediator.State.Receipts.{kind_text}
use sonarr_remediator.Service.Gate.{is_import, gate, plan_gate}
use sonarr_remediator.Service.Attempts.{set_issue, has_pending, recommend}
use sonarr_remediator.Service.Client.{Client}
use sonarr_remediator.Service.Observe.{decision, is_defer}
use sonarr_remediator.Service.Execute.{overrides}
use sonarr_remediator.Service.Search.{
  Sought, refused, failed_read, missing_issue, found, search_decision, put_operation,
}
use sonarr_remediator.Service.Manual.{
  Run, is_pending_search, selected, not_present, item_blocked, update_run, preview_reason, deletes,
  wait_of, elapsed_of, describe,
}

-- `SortedIssues`.
unfoldable pub earlier_issue : Issue → Issue → Bool
earlier_issue i j =
    if i.first_seen == j.first_seen
    then string_less i.download_id j.download_id
    else before i.first_seen j.first_seen

unfoldable pub sorted_issues : Bool → Data → List Issue
sorted_issues include_resolved s = sort earlier_issue (
    keep (λ (i : Issue). include_resolved || not (is_resolved i.condition))
      (map (λ (_, i). i) s.issues))

-- `plannedAction`, with the download of the issue.
pub record Planned : Type 0 where
  pub download_id : String
  pub decision : Decision
  pub operation : Option Operation

-- The variables of the loops.
pub record Round : Type 0 where
  pub store : Data
  pub run : Run
  pub plans : List Planned

abbrev pub decisions : List Planned → List Decision
decisions = map λ (p : Planned). p.decision

-- `i.Fingerprint` and `i.Decision`.
unfoldable pub decide_issue : String → Decision → Dict String Issue → Dict String Issue
decide_issue id d [] = []
decide_issue id d ((k, i) ∷ rest) =
    (k, if k == id then record i { fingerprint = d.fingerprint; decision = d } else i)
    ∷ decide_issue id d rest

abbrev pub set_round : String → Condition → String → Round → Round
set_round id condition reason r = record r {
  store = record (r.store) { issues = set_issue id condition reason (r.store).issues };
}

abbrev pub block : String → String → String → Round → Round
block id disposition reason r = record r { run = item_blocked id disposition reason r.run }

-- An attempt of the download that needs a look.
abbrev pub is_unsure : Outcome → Bool
is_unsure uncertain = true
is_unsure partial = true
is_unsure _ = false

unfoldable pub pending_state : String → Condition × String → List Attempt → Condition × String
pending_state id state [] = state
pending_state id state (a ∷ rest) =
    pending_state id
      (if a.download_id == id && is_unsure a.outcome then (unsure, a.reason) else state) rest

abbrev pub limited : String → String
limited why = if has_substring why "rolling hour" then "limited" else "blocked"

module _ (digest : Digest) (c : Config) (show : Duration → String) (cancelled : String → Bool)
    (now : Time) (observations : Dict String Observation) where
  -- `dueAt`.
  unfoldable pub due_at : Issue → Time
  due_at i = elim (lookup i.download_id observations) [
    | none ↦ zero_time
    | some o ↦
        let d = decision digest c o in
        if is_import d.kind
        then i.recovery_due
        else if deletes d.kind
        then i.cleanup_due
        else zero_time
  ]

  -- The order of the candidates.
  unfoldable pub comes_before : Bool → Issue → Issue → Bool
  comes_before override i j =
      let x = due_at i in
      let y = due_at j in
      if not (is_zero x) && is_zero y
      then true
      else if is_zero x && not (is_zero y)
      then false
      else if x != y
      then before x y
      else if is_zero x && override && i.eligible_since != j.eligible_since
      then before i.eligible_since j.eligible_since
      else string_less i.download_id j.download_id

  unfoldable pub candidates : Bool → Data → List Issue
  candidates override s = sort (comes_before override) (sorted_issues false s)

  -- From the plan on.
  unfoldable pub plan_submission : Issue → Decision → Round → Round
  plan_submission i d r =
      if (r.store).status.read_failure != "" || cancelled i.download_id
      then block i.download_id "blocked" "required reads or request deadline prevent submission" r
      else elim (plan_gate c d (decisions r.plans) now r.store) [
        | some why ↦ block i.download_id "limited" why r
        | none ↦ block i.download_id (String.◌++◌ "would_" (kind_text d.kind)) d.reason (record r {
          plans =
              r.plans
              ++ record { download_id = i.download_id; decision = d; operation = none } ∷ [];
        })
      ]

  abbrev pub waiting_reason : Issue → Decision → String
  waiting_reason i d = String.◌++◌ d.reason (
      String.◌++◌ "; observed eligibility "
        (String.◌++◌ (show (elapsed_of d i)) (String.◌++◌ " of " (show (wait_of c d)))))

  -- From the gate on.
  unfoldable pub plan_gated : Issue → Decision → Round → Round
  plan_gated i d r = elim (gate c (overrides r.run) i.download_id d now (pos 0) r.store) [
    | some why ↦ block i.download_id (limited why) why (
        set_round i.download_id (if has_substring why "exhausted" then exhausted else retry_waiting)
          why r)
    | none ↦
        let free = set_round i.download_id recoverable d.reason r in
        if is_none r.run && c.dry_run
        then record free { store = recommend free.store i.download_id d now }
        else plan_submission i d free
  ]

  -- From the decision on.
  unfoldable pub plan_decided : Issue → Observation → Decision → Round → Round
  plan_decided i o d r =
      let decided : Round = record r {
        store = record (r.store) { issues = decide_issue i.download_id d (r.store).issues };
      } in
      if is_defer d.kind
      then block i.download_id "blocked" (preview_reason o d.reason)
          (set_round i.download_id policy_blocked d.reason decided)
      else if ltb_ℤ (elapsed_of d i) (wait_of c d) && not (overrides r.run)
      then block i.download_id "waiting" (waiting_reason i d)
          (set_round i.download_id waiting (waiting_reason i d) decided)
      else plan_gated i d decided

  -- A download with a pending attempt.
  unfoldable pub plan_pending : Issue → Round → Round
  plan_pending i r =
      let (condition, reason) =
        pending_state i.download_id
          (in_progress, "pending/uncertain action protects this download and episodes")
          (r.store).attempts in
      block i.download_id "blocked" reason (set_round i.download_id condition reason r)

  -- The body of the loop over the candidates.
  unfoldable pub plan_candidate : Round → Issue → Round
  plan_candidate r i =
      if not (selected r.run i.download_id) || not_present r.run i.download_id
      then r
      else elim (lookup i.download_id observations) [
        | none ↦ if has_pending i.download_id r.store then plan_pending i r else r
        | some o ↦
            let d = decision digest c o in
            let described : Round = record r { run = describe c i o d r.run } in
            if has_pending i.download_id r.store
            then plan_pending i described
            else plan_decided i o d described
      ]

  unfoldable pub plan_candidates : Round → List Issue → Round
  plan_candidates r [] = r
  plan_candidates r (i ∷ rest) = plan_candidates (plan_candidate r i) rest

-- `sortedOperations`, with the operations.
unfoldable pub sorted_operations : Dict String Operation → List (String × Operation)
sorted_operations = sort λ (x : String × Operation). λ (y : String × Operation). string_less x.0 y.0

-- A round of a loop, and the error that ends the cycle, if any.
pub record Planning : Type 0 where
  pub round : Round
  pub error : Option String

-- What `searchDecision` meets for an operation: it starts a new cycle of reads, and reads the clock.
pub record Look : Type 0 where
  pub client : Client
  pub cancelled : Bool
  pub now : Time

module _ (c : Config) (now : Time) where
  -- After `searchDecision`.
  unfoldable pub plan_search : String → Operation → Sought → Round → Planning
  plan_search id op (missing_issue e) r = record { round = r; error = some e }
  plan_search id op (failed_read e) r = record {
    round = block id (limited op.reason) op.reason (record r {
      store = record (r.store) { status = record ((r.store).status) { read_failure = e } };
    });
    error = none;
  }
  plan_search id op (refused left) r = record {
    round = block id (limited left.reason) left.reason (record r {
      store = record (r.store) { operations = put_operation left (r.store).operations };
    });
    error = none;
  }
  plan_search id op (found d) r =
      let described : Round = record r {
        run =
            update_run id (λ item. record item { action = "search"; episodes = d.episode_ids })
              r.run;
      } in
      record {
        round = elim (plan_gate c d (decisions r.plans) now r.store) [
          | some why ↦ block id "limited" why described
          | none ↦ block id "would_search" d.reason (record described {
            plans = r.plans ++ record { download_id = id; decision = d; operation = some op } ∷ [];
          })
        ];
        error = none;
      }

  -- The loop over the operations, from the index `n`.
  unfoldable pub plan_operations : (ℕ → Look) → ℕ → Round → List (String × Operation) → Planning
  plan_operations looks n r [] = record { round = r; error = none }
  plan_operations looks n r ((id, op) ∷ rest) =
      if not (is_pending_search op.continuation)
        || not (selected r.run id)
        || (is_none r.run && c.dry_run)
      then plan_operations looks (suc n) r rest
      else (let look = looks n in
          let sought = search_decision c look.client r.run look.cancelled look.now r.store op in
          let step = plan_search id op sought r in
          if is_none step.error then plan_operations looks (suc n) step.round rest else step)
