-- ===== src/Service/Cycle.antt =====
-- internal/service/service.go, `Cycle`: its parts in the order of the source. `worlds` gives what each plan
-- meets, and `too_large` says whether a report is too large in JSON. The summary log and saving are not modelled.
pub mod Bounded
mod Kept
mod Tests
use sonarr_remediator.Base.{
  pos, Time, Duration, ℕ, suc, String, Bool, true, false, ◌&&◌, ◌||◌, not, Option, none, some, List,
  [], ◌∷◌, ◌++◌, ◌==◌, ◌!=◌, string_eq, if◌then◌else◌, is_none, has_substring, sort_strings, Dict,
  Result, ok, err,
}
use sonarr_remediator.Sonarr.{QueueRow}
use sonarr_remediator.Config.{Config}
use sonarr_remediator.Control.{Request}
use sonarr_remediator.Control.Report.{Report}
use sonarr_remediator.Policy.Observation.{Observation, eligible}
use sonarr_remediator.Policy.Fingerprint.{Digest}
use sonarr_remediator.State.{Attempt, is_pending, Data}
use sonarr_remediator.State.Retention.{prune, update_status}
use sonarr_remediator.Service.Client.{Client}
use sonarr_remediator.Service.Verify.Outcomes.{Verification, verify}
use sonarr_remediator.Service.Observe.{observe}
use sonarr_remediator.Service.Execute.{overrides, group}
use sonarr_remediator.Service.Scan.{download_ids, publish, failed}
use sonarr_remediator.Service.Manual.{Run, selected, initialize_report}
use sonarr_remediator.Service.Plan.{
  Planned, Round, Planning, Look, candidates, plan_candidates, sorted_operations, plan_operations,
}
use sonarr_remediator.Service.Perform.{World, Submission, Performed, perform_plans}

-- The loop that observes the selected downloads.
unfoldable pub observe_groups :
    Client → Run → List QueueRow → List String → Result (Dict String Observation)
observe_groups client run queue [] = ok []
observe_groups client run queue (id ∷ rest) =
    let rows = group id queue in
    let later = observe_groups client run queue rest in
    if not (selected run id) || not (eligible rows)
    then later
    else elim (observe client id rows queue) [
      | err e ↦ err e
      | ok o ↦ elim later [ err e ↦ err e | ok os ↦ ok ((id, o) ∷ os) ]
    ]

-- An attempt is verified in place.
abbrev pub put_verification : List Attempt → List Attempt → Verification → Data → Data
put_verification earlier later v s = record s {
  attempts = earlier ++ v.attempt ∷ later;
  issues = v.issues;
  operations = v.operations;
}

abbrev pub note_failure : Option String → Data → Data
note_failure none s = s
note_failure (some e) s = record s { status = record (s.status) { read_failure = e } }

-- The loop that verifies the pending attempts; `earlier` are those before.
unfoldable pub verify_attempts :
    Client → Config → List QueueRow → Time → List Attempt → List Attempt → Data → Data
verify_attempts client c queue now earlier [] s = s
verify_attempts client c queue now earlier (a ∷ later) s =
    let v = verify client c s queue now a in
    let verified =
      verify_attempts client c queue now (earlier ++ v.attempt ∷ []) later
        (note_failure v.error (put_verification earlier later v s)) in
    if is_pending a
    then verified
    else verify_attempts client c queue now (earlier ++ a ∷ []) later s

-- What a cycle leaves: also `s.previous`.
pub record Cycled : Type 0 where
  pub store : Data
  pub run : Run
  pub previous : Time
  pub sent : List Submission
  pub error : Option String

-- What a cycle reads first, and the tests of its deadline before the plans are carried out: before the
-- candidates, and for each of them.
pub record Reads : Type 0 where
  pub version : Result String
  pub client : Client
  pub late : Bool
  pub cancelled : String → Bool
  pub now : Time
  -- What the searches meet.
  pub looks : ℕ → Look

-- `initializeReport`, if there is a request.
unfoldable pub start_report : Config → Data → Time → List QueueRow → Run → Result Run
start_report c s now queue none = ok none
start_report c s now queue (some run) = elim (initialize_report c s now queue run) [
  | err e ↦ err e
  | ok started ↦ ok (some started)
]

unfoldable pub attach : (ℕ → World) → ℕ → List Planned → List (Planned × World)
attach worlds n [] = []
attach worlds n (p ∷ rest) = (p, worlds n) ∷ attach worlds (suc n) rest

-- A background cycle and an execution carry out their plans, a preview does not.
abbrev pub executes : Run → Bool
executes none = true
executes (some run) = run.0.execute

module _ (digest : Digest) (c : Config) (show : Duration → String) (too_large : Run → Bool)
    (worlds : ℕ → World) (w : Reads) (previous : Time) where
  abbrev pub give_up : Data → Run → String → Cycled
  give_up s run e = record {
    store = failed w.now e s;
    run = run;
    previous = pos 0;
    sent = [];
    error = if is_none run then none else some e;
  }

  abbrev pub stop : Data → Run → String → Cycled
  stop s run e = record { store = s; run = run; previous = w.now; sent = []; error = some e }

  -- The end of `Cycle`: retention and the status.
  unfoldable pub finish_cycle : Performed → Cycled
  finish_cycle done =
      let kept =
        update_status w.now
          (prune done.store w.now c.history_retention c.limits.episode_cooldown) in
      record {
        store = if is_none done.error then kept else done.store;
        run = done.run;
        previous = w.now;
        sent = done.sent;
        error =
            if not (is_none done.error)
            then done.error
            else if not (is_none done.run) && kept.status.read_failure != ""
            then some kept.status.read_failure
            else none;
      }

  abbrev pub drop_items : Run → Run
  drop_items none = none
  drop_items (some (request, report)) = some (request, record report { items = [] })

  -- From the plans on.
  unfoldable pub carry_out : Planning → Cycled
  carry_out p =
      let r = p.round in
      if not (is_none p.error)
      then record { store = r.store; run = r.run; previous = w.now; sent = []; error = p.error }
      else if not (is_none r.run) && too_large r.run
      then stop r.store (drop_items r.run)
          "manual report exceeds limit; narrow the download IDs before execution"
      else finish_cycle (
          if executes r.run
          then perform_plans digest c r.store r.run (attach worlds 0 r.plans)
          else record { store = r.store; run = r.run; sent = []; error = none })

  -- From the published scan on.
  unfoldable pub plan_cycle : List QueueRow → Dict String Observation → Data → Run → Cycled
  plan_cycle queue observations s run =
      let t = verify_attempts w.client c queue w.now [] s.attempts s in
      elim (start_report c t w.now queue run) [
        | err e ↦ stop t run e
        | ok started ↦
            let r =
              plan_candidates digest c show w.cancelled w.now observations
                (record { store = t; run = started; plans = [] })
                (candidates digest c show w.cancelled w.now observations (overrides started) t) in
            carry_out (plan_operations c w.now w.looks 0 r (sorted_operations (r.store).operations))
      ]

  abbrev pub note_version : String → Data → Data
  note_version version s = record s { status = record (s.status) { version = version } }

  -- From the observations on; `late` is `ctx.Err() != nil`.
  unfoldable pub observed_cycle :
      String → List QueueRow → Data → Run → Result (Dict String Observation) → Bool → Cycled
  observed_cycle version queue s run (err e) late = give_up (note_version version s) run e
  observed_cycle version queue s run (ok observations) true =
      give_up (note_version version s) run "cycle deadline exhausted"
  observed_cycle version queue s run (ok observations) false =
      plan_cycle queue observations (publish digest c previous w.now observations s version queue)
        run

  -- From the report on.
  unfoldable pub reported_cycle : String → List QueueRow → Data → Run → Result Run → Cycled
  reported_cycle version queue s run (err e) = record {
    store = s;
    run = run;
    previous = previous;
    sent = [];
    error = some e;
  }
  reported_cycle version queue s run (ok started) =
      observed_cycle version queue s started
        (observe_groups w.client started queue (sort_strings (download_ids queue))) w.late

  -- From the version and the queue on.
  unfoldable pub read_cycle : Data → Run → Result String → Result (List QueueRow) → Cycled
  read_cycle s run (err e) queue =
      if has_substring e "unsupported Sonarr version"
      then record { store = s; run = run; previous = previous; sent = []; error = some e }
      else give_up s run e
  read_cycle s run (ok version) (err e) = give_up s run e
  read_cycle s run (ok version) (ok queue) =
      reported_cycle version queue s run (start_report c s w.now queue run)

  -- `Cycle`.
  unfoldable pub cycle : Data → Run → Cycled
  cycle s run = read_cycle s run w.version (w.client).queue
