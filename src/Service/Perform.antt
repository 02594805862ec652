-- ===== src/Service/Perform.antt =====
-- internal/service/service.go, the part of `Cycle` that carries out the plans. Each plan meets the world anew:
-- what the client answers, whether the run is cancelled, and the time.
pub mod Bounded
pub mod Warranted
mod Tests
use sonarr_remediator.Base.{
  ℤ, Time, String, Bool, true, false, ◌&&◌, ◌||◌, Option, none, some, List, [], ◌∷◌, ◌++◌, ◌==◌,
  ◌!=◌, nat_eq, string_eq, if◌then◌else◌, is_none, length, lookup, Result,
}
use sonarr_remediator.Config.{Config}
use sonarr_remediator.Policy.Fingerprint.{Digest}
use sonarr_remediator.State.{Issue, Operation, Data}
use sonarr_remediator.Service.Client.{Client}
use sonarr_remediator.Service.Execute.{Mutation, execute}
use sonarr_remediator.Service.Search.{search_step}
use sonarr_remediator.Service.Manual.{Run, item_blocked, record_effects}
use sonarr_remediator.Service.Plan.{Planned}

pub record World : Type 0 where
  pub client : Client
  pub submit : Mutation → Result ℤ
  pub submit_search : List ℤ → Result ℤ
  pub cancelled : Bool
  pub now : Time
  -- The clock when a search is reserved.
  pub later : Time

-- What is sent to Sonarr.
pub data Submission : Type 0 where
  mutated : Mutation → Submission
  searched : List ℤ → Submission

pub record Performed : Type 0 where
  pub store : Data
  pub run : Run
  pub sent : List Submission
  pub error : Option String

abbrev pub mutations : Option Mutation → List Submission
mutations none = []
mutations (some m) = mutated m ∷ []

abbrev pub searches : Option (List ℤ) → List Submission
searches none = []
searches (some ids) = searched ids ∷ []

abbrev pub reason_of : Option Issue → String
reason_of none = ""
reason_of (some i) = i.reason

module _ (digest : Digest) (c : Config) where
  -- `search` or `execute`; the issue of a plan is in the store as long as the plan.
  unfoldable pub act : World → Planned → Data → Run → Performed
  act w p s run = elim p.operation [
    | some op ↦
        let done = search_step c w.client w.submit_search run w.cancelled w.now w.later s op in
        record { store = done.store; run = run; sent = searches done.sent; error = done.error }
    | none ↦ elim (lookup p.download_id s.issues) [
      | none ↦ record { store = s; run = run; sent = []; error = none }
      | some i ↦
          let done = execute digest c w.client w.submit run w.cancelled w.now s i p.decision in
          record { store = done.store; run = run; sent = mutations done.sent; error = done.error }
    ]
  ]

  -- `recordEffects`, and the item of a plan that made no attempt.
  unfoldable pub report_effects : Planned → Data → Performed → Performed
  report_effects p before done =
      let noted =
        record_effects p.download_id (length before.attempts) (done.store).attempts done.run in
      record done {
        run =
            if is_none done.error && length (done.store).attempts == length before.attempts
            then item_blocked p.download_id "blocked"
                (reason_of (lookup p.download_id (done.store).issues)) noted
            else noted;
      }

  unfoldable pub perform_plan : World → Planned → Data → Run → Performed
  perform_plan w p s run =
      if w.cancelled || s.status.read_failure != ""
      then record {
        store = s;
        run =
            item_blocked p.download_id "blocked"
              "required reads or request deadline prevent submission" run;
        sent = [];
        error = none;
      }
      else report_effects p s (act w p s run)

  -- The loop over the plans.
  unfoldable pub perform_plans : Data → Run → List (Planned × World) → Performed
  perform_plans s run [] = record { store = s; run = run; sent = []; error = none }
  perform_plans s run ((p, w) ∷ rest) =
      let step = perform_plan w p s run in
      let later = perform_plans step.store step.run rest in
      if is_none step.error then record later { sent = step.sent ++ later.sent } else step
