-- ===== src/Service/Execute.antt =====
-- internal/service/service.go, `execute`: a planned action is checked afresh, reserved, and only then sent.
-- `submit` is the client's write: the id of the accepted command, 0 for a removal.
pub mod Fresh
pub mod Recorded
mod Tests
use sonarr_remediator.Base.{
  ℤ, pos, Time, String, Bool, true, false, ◌&&◌, ◌||◌, not, Option, none, some, List, [], ◌∷◌, ◌==◌,
  ◌!=◌, string_eq, if◌then◌else◌, is_none, int_at, keep, Dict, Result, ok, err,
}
use sonarr_remediator.Sonarr.{QueueRow, Episode, ImportFile}
use sonarr_remediator.Config.{Config}
use sonarr_remediator.Control.{Request}
use sonarr_remediator.Control.Report.{Report}
use sonarr_remediator.Policy.Observation.{Observation, Decision, eligible, same_kind}
use sonarr_remediator.Policy.Fingerprint.{Digest, queue_identity}
use sonarr_remediator.State.{policy_blocked, retry_waiting, Issue, Attempt, Data}
use sonarr_remediator.Service.Gate.{is_import, gate}
use sonarr_remediator.Service.Attempts.{set_issue, reserve, response}
use sonarr_remediator.Service.Client.{Client}
use sonarr_remediator.Service.Observe.{observe, decision}

pub data Mutation : Type 0 where
  import_files : List ImportFile → Mutation
  remove_row : ℤ → Bool → Mutation

-- The store afterwards, and what was sent.
pub record Executed : Type 0 where
  pub store : Data
  pub sent : Option Mutation
  pub error : Option String

abbrev pub unsent : Data → Executed
unsent s = record { store = s; sent = none; error = none }

abbrev first_id : List QueueRow → ℤ
first_id [] = pos 0
first_id (q ∷ _) = q.id

-- `group(queue)[id]`.
abbrev pub group : String → List QueueRow → List QueueRow
group id = keep λ q. q.download_id != "" && q.download_id == id

-- What is sent for a decision.
unfoldable pub mutation : Decision → List QueueRow → Mutation
mutation d rows =
    if is_import d.kind then import_files d.files else remove_row (first_id rows) d.blocklist

-- The files of the episodes before.
unfoldable pub files_before : Dict ℤ Episode → Dict ℤ ℤ
files_before [] = []
files_before ((id, ep) ∷ rest) =
    let others = files_before rest in
    if is_none ep.episode_file_id then others else (id, int_at ep.episode_file_id) ∷ others

-- The reserved attempt stands last.
unfoldable pub respond_last : Result ℤ → List Attempt → List Attempt
respond_last r [] = []
respond_last r (a ∷ []) = response r a ∷ []
respond_last r (a ∷ b ∷ rest) = a ∷ respond_last r (b ∷ rest)

abbrev pub overrides : Option (Request × Report) → Bool
overrides none = false
overrides (some m) = m.0.override_wait

module _ (digest : Digest) (c : Config) (client : Client) (submit : Mutation → Result ℤ)
    (manual : Option (Request × Report)) (cancelled : Bool) (now : Time) where
  -- From the gate on.
  unfoldable pub execute_decision : Data → Issue → List QueueRow → Decision → Dict ℤ ℤ → Executed
  execute_decision s i rows d files =
      elim (gate c (overrides manual) i.download_id d now (pos 0) s) [
        | some why ↦
            unsent (record s { issues = set_issue i.download_id retry_waiting why s.issues })
        | none ↦
            if cancelled
            then unsent s
            else elim (reserve manual s i.download_id i.title d now files) [
              | err e ↦ record { store = s; sent = none; error = some e }
              | ok t ↦ record {
                store = record t { attempts = respond_last (submit (mutation d rows)) t.attempts };
                sent = some (mutation d rows);
                error = none;
              }
            ]
      ]

  -- The comparison with the plan.
  unfoldable pub execute_observed : Data → Issue → Decision → List QueueRow → Observation → Executed
  execute_observed s i planned rows o =
      let d = decision digest c o in
      if not (same_kind d.kind planned.kind) || d.fingerprint != planned.fingerprint
      then unsent (record s {
        issues =
            set_issue i.download_id policy_blocked
              "candidate or policy changed during fresh execution checks" s.issues;
      })
      else execute_decision s i rows d (files_before o.episodes)

  unfoldable pub read_failed : Data → String → Data
  read_failed s e = record s { status = record (s.status) { read_failure = e } }

  -- `execute`.
  unfoldable pub execute : Data → Issue → Decision → Executed
  execute s i planned = elim client.queue [
    | err e ↦ unsent (read_failed s e)
    | ok queue ↦
        let rows = group i.download_id queue in
        if not (eligible rows) || queue_identity digest rows != i.identity
        then unsent (record s {
          issues =
              set_issue i.download_id policy_blocked
                "identity/eligibility changed during fresh execution checks" s.issues;
        })
        else elim (observe client i.download_id rows queue) [
          | err e ↦ unsent (read_failed s e)
          | ok o ↦ execute_observed s i planned rows o
        ]
  ]
