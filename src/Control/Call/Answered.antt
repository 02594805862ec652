-- ===== src/Control/Call/Answered.antt =====
-- What a caller may rely on.
use sonarr_remediator.Base.{
  pos, ◌≤ℤ◌, int_eq, int_beq_iff, ◌≡◌, refl, sym, subst, ◌⊎◌, inl, inr, arith, Bool, true, false,
  ◌&&◌, is_none, not, string_eq, string_beq_iff, Bool-cases, Option-cases, Result, ok, Result-cases,
  if◌then◌else◌, Time, String,
}
use sonarr_remediator.Control.{Request, validate_request, control_version}
use sonarr_remediator.Control.Report.{Report, failure}
use sonarr_remediator.Control.Call.{Line, mismatched, oversized, transmit, connect, call}

-- The request is sent: it is valid and small enough, and the socket of the observer is safe, answers, and
-- belongs to the same user.
abbrev pub is_sent : Line → Time → Request → Bool
is_sent line now r =
    is_none (validate_request now r).1
    && not (oversized (line.encoded (validate_request now r).0))
    && line.socket_path
    && is_none line.unsafe_socket
    && line.dialed
    && is_none line.foreign_peer

-- The response of the observer, for this request and store, with an exit code of the program.
abbrev pub IsMatched : Line → String → Request → Report → Type 0
IsMatched line identity r report =
    (line.written ≡ true)
    × (line.response ≡ ok report)
    × (report.version ≡ control_version)
    × (report.state_path ≡ line.absolute)
    × (report.identity ≡ identity)
    × (report.request_id ≡ r.id)
    × (pos 0 ≤ℤ report.exit_code)
    × (report.exit_code ≤ℤ pos 3)

-- The failure of a request that is sent: 3 if it is an execution, which may have been received, and 1 if not.
abbrev pub IsLost : Request → Report → Type 0
IsLost r report = (why : String) × (report ≡ failure r (if r.execute then pos 3 else pos 1) why)

abbrev pub IsRefused : Request → Report → Type 0
IsRefused r report = (why : String) × (report ≡ failure r (pos 1) why)

-- No response of the observer is a match.
abbrev pub IsUnanswered : Line → String → Request → Type 0
IsUnanswered line identity r = (report : Report) → ¬ IsMatched line identity r report

-- A request that is sent is answered or lost, and one that is not is refused.
abbrev pub IsAnswer : Bool → Line → String → Request → Report → Type 0
IsAnswer sent line identity r report =
    ((sent ≡ true) × IsMatched line identity r report)
    ⊎ ((sent ≡ true) × IsUnanswered line identity r × IsLost r report)
    ⊎ ((sent ≡ false) × IsRefused r report)

not-mismatched :
    (line : Line) (identity : String) (r : Request) (report : Report)
    → line.written ≡ true
    → line.response ≡ ok report
    → mismatched line identity r report ≡ false
    → IsMatched line identity r report
unfolding mismatched
not-mismatched line identity r report w e h = (
  w,
  e,
  (int_beq_iff report.version control_version).0 (ground arith),
  (string_beq_iff report.state_path line.absolute).0 (ground arith),
  (string_beq_iff report.identity identity).0 (ground arith),
  (string_beq_iff report.request_id r.id).0 (ground arith),
  ground arith,
  ground arith,
)

matched-not :
    (line : Line) (identity : String) (r : Request) (report : Report)
    → report.version ≡ control_version
    → report.state_path ≡ line.absolute
    → report.identity ≡ identity
    → report.request_id ≡ r.id
    → pos 0 ≤ℤ report.exit_code
    → report.exit_code ≤ℤ pos 3
    → mismatched line identity r report ≡ false
unfolding mismatched
matched-not line identity r report v p i id low high = ground (
  arith,
  (int_beq_iff report.version control_version).1 v,
  (string_beq_iff report.state_path line.absolute).1 p,
  (string_beq_iff report.identity identity).1 i,
  (string_beq_iff report.request_id r.id).1 id,
)

ok-injective : {x y : Report} → Path (Result Report) (ok x) (ok y) → x ≡ y
ok-injective h = cc

transmit-IsAnswer :
    (line : Line) (identity : String) (r : Request)
    → IsAnswer true line identity r (transmit line identity r)
unfolding transmit
transmit-IsAnswer line identity r = elim (Bool-cases (not line.written)) [
  | inl y ↦ rw (y, transmit) (inr (inl (refl, λ report m. absurd (ground (arith, m.0)), (_, refl))))
  | inr n ↦ elim (Result-cases line.response) [
    | inr (e, k) ↦ rw (n, k, transmit) (inr (inl (refl, λ report m. absurd (cc m.1), (_, refl))))
    | inl (report, k) ↦ elim (Bool-cases (mismatched line identity r report)) [
      | inl y ↦
          rw (n, k, y, transmit)
            (inr (
              inl (
                refl,
                λ x (w, e, v, p, i, id, low, high).
                    let same = ok-injective e in
                    absurd (
                      ground (
                        arith,
                        y,
                        subst (λ q. mismatched line identity r q ≡ false) (sym same)
                            (matched-not line identity r x v p i id low high),
                      )),
                (_, refl),
              )))
      | inr m ↦
          let path : report ≡ transmit line identity r = rw (n, k, m, transmit) refl in
          subst (IsAnswer true line identity r) path
            (inl (refl, not-mismatched line identity r report (ground arith) k m))
    ]
  ]
]

-- Not sent.
early :
    (line : Line) (identity : String) (r : Request) (why : String)
    → IsAnswer false line identity r (failure r (pos 1) why)
early line identity r why = inr (inr (refl, (why, refl)))

-- The tests of `connect`.
abbrev connects : Line → Request → Bool
connects line r =
    not (oversized (line.encoded r))
    && line.socket_path
    && is_none line.unsafe_socket
    && line.dialed
    && is_none line.foreign_peer

connect-IsAnswer :
    (line : Line) (identity : String) (r : Request)
    → IsAnswer (connects line r) line identity r (connect line identity r)
unfolding connect transmit
connect-IsAnswer line identity r = elim (Bool-cases (oversized (line.encoded r))) [
  | inl y ↦ rw (y, connect) (early line identity r _)
  | inr small ↦ elim (Bool-cases line.socket_path) [
    | inr n ↦ rw (small, n, connect) (early line identity r _)
    | inl path ↦ elim (Option-cases line.unsafe_socket) [
      | inr (e, u) ↦ rw (small, path, u, connect) (early line identity r e)
      | inl safe ↦ elim (Bool-cases line.dialed) [
        | inr n ↦ rw (small, path, safe, n, connect) (early line identity r _)
        | inl dialed ↦ elim (Option-cases line.foreign_peer) [
          | inr (e, f) ↦ rw (small, path, safe, dialed, f, connect) (early line identity r e)
          | inl own ↦
              let same : transmit line identity r ≡ connect line identity r =
                rw (small, path, safe, dialed, own, connect) refl in
              let sent : true ≡ connects line r = rw (small, path, safe, dialed, own) refl in
              subst (λ b. IsAnswer b line identity r (connect line identity r)) sent
                (subst (IsAnswer true line identity r) same (transmit-IsAnswer line identity r))
        ]
      ]
    ]
  ]
]

-- A request is sent exactly if it is valid and small enough and the socket is safe, answers, and belongs to the
-- same user. A call that sends it ends with the response of the observer, which is of this version, store,
-- identity and request and has an exit code from 0 to 3, or, when there is no such response, with a failure of
-- code 3 for an execution and 1 for a preview. A call that does not send it ends with a failure of code 1.
pub call-IsAnswer :
    (line : Line) (now : Time) (identity : String) (r : Request)
    → IsAnswer
        (is_sent line now r)
        line
        identity
        (validate_request now r).0
        (call line now identity r)
unfolding call
call-IsAnswer line now identity r = elim (Option-cases (validate_request now r).1) [
  | inr (e, k) ↦ rw (k, call) (early line identity (validate_request now r).0 e)
  | inl k ↦ rw (k, call) (connect-IsAnswer line identity (validate_request now r).0)
]
