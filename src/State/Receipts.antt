-- ===== src/State/Receipts.antt =====
-- internal/state/receipts.go, and the end of `Open` in state.go: the checks of a loaded store, the
-- recovery after an interrupted run, and the report of a receipt.
pub mod Restart
use sonarr_remediator.Base.{
  ℤ, pos, Time, is_zero, String, Bool, true, false, ◌&&◌, ◌||◌, not, Option, none, some, List, [],
  ◌∷◌, ◌++◌, map, ◌==◌, ◌!=◌, string_eq, int_eq, if◌then◌else◌, Dict, lookup, contains, any,
  is_none, Result, ok, err,
}
use sonarr_remediator.Control.{control_version, validate_structure}
use sonarr_remediator.Control.Report.{Report, Item, Effect}
use sonarr_remediator.Policy.Observation.{
  Kind, no_action, defer, import, remove_redundant, remove_unusable, remove_blocked, search,
  other_kind,
}
use sonarr_remediator.State.{
  Outcome, intent, pending, uncertain, partial, verified, submitted, failed, recommended,
  other_outcome, Acceptance, accepted, interrupted, other_acceptance, Attempt, Receipt, Data,
}

abbrev pub known_acceptance : Acceptance → Bool
known_acceptance (other_acceptance _) = false
known_acceptance _ = true

-- The checks of one receipt but those of its references.
unfoldable pub receipt_corrupt : String → Receipt → Bool
receipt_corrupt id r =
    r.request.id != id
    || not r.request.execute
    || not (is_none (validate_structure r.request).1)
    || is_zero r.accepted_at
    || r.report.version != control_version
    || r.report.request_id != id
    || not (known_acceptance r.status)

abbrev pub is_effect_of : String → ℤ → Attempt → Bool
is_effect_of id aid a = a.id == aid && a.request_id == id && a.source == "manual"

-- The loop over a receipt's references, with `seen`.
unfoldable pub check_references : String → List Attempt → List ℤ → List ℤ → Option String
check_references id attempts seen [] = none
check_references id attempts seen (aid ∷ rest) =
    if contains seen aid
    then some "duplicate manual attempt reference"
    else if not (any (is_effect_of id aid) attempts)
    then some "manual receipt references missing effect evidence"
    else check_references id attempts (aid ∷ seen) rest

unfoldable pub check_receipts : List Attempt → Dict String Receipt → Option String
check_receipts attempts [] = none
check_receipts attempts ((id, r) ∷ rest) =
    if receipt_corrupt id r
    then some "corrupt manual receipt; refusing to reset safety history"
    else elim (check_references id attempts [] r.attempt_ids) [
      | some e ↦ some e
      | none ↦ check_receipts attempts rest
    ]

abbrev pub names_attempt : Attempt → Option Receipt → Bool
names_attempt a none = false
names_attempt a (some r) = contains r.attempt_ids a.id

-- A manual attempt stands in its receipt.
unfoldable pub has_receipt : Dict String Receipt → Attempt → Bool
has_receipt triggers a =
    a.request_id == "" || (a.source == "manual" && names_attempt a (lookup a.request_id triggers))

unfoldable pub check_attempts : Dict String Receipt → List Attempt → Option String
check_attempts triggers [] = none
check_attempts triggers (a ∷ rest) =
    if has_receipt triggers a
    then check_attempts triggers rest
    else some "manual attempt has no matching receipt"

-- `validateReceipts`.
unfoldable pub validate_receipts : Data → Option String
validate_receipts d = elim (check_receipts d.attempts d.triggers) [
  | some e ↦ some e
  | none ↦ check_attempts d.triggers d.attempts
]

-- An attempt that was cut off before its acknowledgement is uncertain.
unfoldable pub recover_attempt : Attempt → Attempt
recover_attempt a = elim a.outcome [
  | intent ↦ record a {
    outcome = uncertain;
    reason = "process interrupted before acknowledgement; requires read reconciliation";
  }
  | _ ↦ a
]

-- An accepted request that was not finished is not taken up again.
unfoldable pub recover_receipt : Time → String × Receipt → String × Receipt
recover_receipt now (id, r) = elim r.status [
  | accepted ↦ (
    id,
    record r {
      status = interrupted;
      finished_at = now;
      report = record (r.report) {
        exit_code = pos 3;
        error = "observer interrupted; unsubmitted work will not resume; inspect linked effects";
      };
    },
  )
  | _ ↦ (id, r)
]

-- The end of `Open` for the owner of the store.
unfoldable pub recover : Time → String → Data → Data
recover now identity d = record d {
  status = record (d.status) { identity = identity };
  attempts = map recover_attempt d.attempts;
  triggers = map (recover_receipt now) d.triggers;
}

-- `ValidateStructure` leaves a receipt's request with its selection in normal form.
unfoldable pub normalize_receipt : String × Receipt → String × Receipt
normalize_receipt (id, r) = (id, record r { request = (validate_structure r.request).0 })

-- `Open` for the owner, from the loaded records to the first save: `fresh` says that the store is new.
-- The records have no null entries here.
unfoldable pub open_data : Bool → Time → String → Data → Result Data
open_data fresh now identity d =
    if not fresh && d.status.identity == ""
    then err "incomplete state records; refusing to reset safety history"
    else elim (validate_receipts d) [
      | some e ↦ err e
      | none ↦
          if d.status.identity != "" && d.status.identity != identity
          then err "state store belongs to another Sonarr instance; choose a new store"
          else ok (recover now identity (record d { triggers = map normalize_receipt d.triggers }))
    ]

-- The texts of the two types that a report shows.
unfoldable pub kind_text : Kind → String
kind_text no_action = ""
kind_text defer = "defer"
kind_text import = "import"
kind_text remove_redundant = "remove_redundant"
kind_text remove_unusable = "remove_unusable"
kind_text remove_blocked = "remove_blocked"
kind_text search = "search"
kind_text (other_kind s) = s

unfoldable pub outcome_text : Outcome → String
outcome_text intent = "intent"
outcome_text pending = "pending"
outcome_text uncertain = "uncertain"
outcome_text partial = "partial"
outcome_text verified = "verified"
outcome_text submitted = "submitted"
outcome_text failed = "failed"
outcome_text recommended = "recommended"
outcome_text (other_outcome s) = s

-- `Effect`.
unfoldable pub effect : Attempt → Effect
effect a = record {
  attempt_id = a.id;
  action = kind_text a.kind;
  outcome = outcome_text a.outcome;
  acknowledged = a.ack;
  reason = a.reason;
  removal_verified = a.removal_verified;
  blocklist_verified = a.blocklist_verified;
}

-- The loop over the attempts, for one item.
unfoldable pub project_effects : String → Item → List Attempt → Item
project_effects request item [] = item
project_effects request item (a ∷ rest) =
    let item' : Item = record item {
      effects = item.effects ++ effect a ∷ [];
      disposition = outcome_text a.outcome;
      reason = a.reason;
    } in
    project_effects request
      (if a.request_id == request && a.download_id == item.download_id then item' else item) rest

-- `ReceiptReport`.
unfoldable pub receipt_report : Data → Receipt → Report
receipt_report d r = record (r.report) {
  items =
      map (λ (item : Item). project_effects r.request.id (record item { effects = [] }) d.attempts)
        r.report.items;
}
