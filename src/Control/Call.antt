-- ===== src/Control/Call.antt =====
-- internal/control/socket.go, `Call`: a manual request over the socket. Files, the connection and the peer are
-- not modelled: `Line` holds what they give.
pub mod Answered
use sonarr_remediator.Base.{
  pos, Time, ltb_ℤ, ltb, int_eq, ℕ, String, Bool, true, false, ◌||◌, not, Option, none, some, ◌!=◌,
  string_eq, if◌then◌else◌, is_none, Result, ok, err,
}
use Prim.Native.String
use sonarr_remediator.Control.{Request, validate_request, control_version}
use sonarr_remediator.Control.Report.{Report, failure}
use sonarr_remediator.Control.Frames.{max_request}

pub record Line : Type 0 where
  -- The length of the encoded request, if it encodes.
  pub encoded : Request → Option ℕ
  pub socket_path : Bool
  pub unsafe_socket : Option String
  pub dialed : Bool
  pub foreign_peer : Option String
  pub written : Bool
  pub response : Result Report
  -- `filepath.Abs` of the state path.
  pub absolute : String

-- A report of another run, another store, another request, or with no exit code of this program.
unfoldable pub mismatched : Line → String → Request → Report → Bool
mismatched line identity r report =
    report.version != control_version
    || report.state_path != line.absolute
    || report.identity != identity
    || report.request_id != r.id
    || ltb_ℤ report.exit_code (pos 0)
    || ltb_ℤ (pos 3) report.exit_code

unfoldable pub oversized : Option ℕ → Bool
oversized none = true
oversized (some n) = ltb max_request n

-- From the transmission on: an execution may have reached the observer.
unfoldable pub transmit : Line → String → Request → Report
transmit line identity r =
    let code = if r.execute then pos 3 else pos 1 in
    if not line.written
    then failure r code "request transmission incomplete; inspect triggers before a new execution"
    else elim line.response [
      | err e ↦
          failure r code "manual response unavailable; inspect triggers before a new execution"
      | ok report ↦
          if mismatched line identity r report
          then failure r code
              (String.◌++◌ "manual response identity/schema mismatch; inspect triggers " r.id)
          else report
    ]

-- From the validated request on.
unfoldable pub connect : Line → String → Request → Report
connect line identity r =
    if oversized (line.encoded r)
    then failure r (pos 1) "manual request exceeds 16 KiB; narrow the download IDs"
    else if not line.socket_path
    then failure r (pos 1) "invalid state path"
    else elim line.unsafe_socket [
      | some e ↦ failure r (pos 1) e
      | none ↦
          if not line.dialed
          then failure r (pos 1) "running observer unavailable"
          else elim line.foreign_peer [
            | some e ↦ failure r (pos 1) e
            | none ↦ transmit line identity r
          ]
    ]

-- `Call`.
unfoldable pub call : Line → Time → String → Request → Report
call line now identity r =
    let (normal, error) = validate_request now r in
    elim error [ some e ↦ failure normal (pos 1) e | none ↦ connect line identity normal ]
