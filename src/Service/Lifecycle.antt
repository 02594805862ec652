-- ===== src/Service/Lifecycle.antt =====
-- The life of the attempts in the store, as the steps that internal/service and internal/state take:
-- a reservation behind the gate, the response to what was sent, verification, the deadline, the restart,
-- retention and the dry run.
pub mod Exclusive
use sonarr_remediator.Base.{
  ℤ, ◌≤ℤ◌, Time, Duration, ◌≡◌, true, String, Bool, Option, none, some, List, [], ◌∷◌, ◌++◌, Dict,
  Result, ok,
}
use sonarr_remediator.Config.{Config}
use sonarr_remediator.Control.{Request}
use sonarr_remediator.Control.Report.{Report}
use sonarr_remediator.Policy.Observation.{Decision}
use sonarr_remediator.Sonarr.{QueueRow}
use sonarr_remediator.State.{intent, Attempt, is_pending, Data}
use sonarr_remediator.Service.Client.{Client}
use sonarr_remediator.Service.Verify.Outcomes.{verify}
use sonarr_remediator.State.Retention.{prune}
use sonarr_remediator.State.Receipts.{recover}
use sonarr_remediator.Service.Gate.{gate}
use sonarr_remediator.Service.Attempts.{reserve, response, expire_pending, recommend}

pub data Step (c : Config) (s : Data) : Data → Type 0 where
  -- `execute` and `search` reserve only behind an open gate; `search` reads the clock between the two.
  reserves :
      (override : Bool) (manual : Option (Request × Report)) (id title : String) (d : Decision)
      (now later : Time) (parent : ℤ) (files : Dict ℤ ℤ) (t : Data)
      → gate c override id d now parent s ≡ none
      → reserve manual s id title d later files ≡ ok t
      → Step c s t
  -- The reserved attempt is the last, and gets its response.
  responds :
      (earlier : List Attempt) (a : Attempt) (r : Result ℤ)
      → s.attempts ≡ earlier ++ a ∷ []
      → a.outcome ≡ intent
      → Step c s (record s { attempts = earlier ++ response r a ∷ [] })
  -- `Cycle` verifies the pending attempts; `verify` writes to the store as well.
  verifies :
      (client : Client) (queue : List QueueRow) (now : Time) (earlier : List Attempt) (a : Attempt)
      (later : List Attempt)
      → s.attempts ≡ earlier ++ a ∷ later
      → is_pending a ≡ true
      → Step c s (record s {
        attempts = earlier ++ (verify client c s queue now a).attempt ∷ later;
        issues = (verify client c s queue now a).issues;
        operations = (verify client c s queue now a).operations;
      })
  expires : (now : Time) → Step c s (expire_pending now s)
  restarts : (now : Time) (identity : String) → Step c s (recover now identity s)
  prunes :
      (now : Time) → (retention cooldown : Duration) → Step c s (prune s now retention cooldown)
  recommends : (id : String) (d : Decision) (now : Time) → Step c s (recommend s id d now)

pub data Reach (c : Config) (s : Data) : Data → Type 0 where
  here : Reach c s s
  next : {t u : Data} → Reach c s t → Step c t u → Reach c s u
