-- ===== src/State/Receipts/Restart.antt =====
-- What the owner of the store finds after a restart.
use sonarr_remediator.Base.{
  Time, String, Bool, true, ◌≡◌, ◌≢◌, refl, ◌∙◌, ap, List, [], ◌∷◌, map, All, arith, Dict, ok,
  string_eq, string_beq_iff, Option-cases, ◌⊎◌, inl, inr,
}
use sonarr_remediator.State.{intent, Attempt, is_pending, accepted, Receipt, Data}
use sonarr_remediator.State.Receipts.{
  recover_attempt, recover_receipt, recover, normalize_receipt, validate_receipts, open_data,
}

-- After a restart no attempt is a mere intent and no request merely accepted, and each attempt is
-- pending exactly if it was.
abbrev pub IsRestarted : Data → Data → Type 0
IsRestarted d e =
    All (λ (a : Attempt). a.outcome ≢ intent) e.attempts
    × All (λ (r : String × Receipt). r.1.status ≢ accepted) e.triggers
    × (map is_pending e.attempts ≡ map is_pending d.attempts)

recovered-outcomes :
    (rest : List Attempt) → All (λ (a : Attempt). a.outcome ≢ intent) (map recover_attempt rest)
unfolding recover_attempt
recovered-outcomes [] = tt
recovered-outcomes (a ∷ rest) = (λ e. ground arith, recovered-outcomes rest)

recovered-receipts :
    (now : Time) (rest : Dict String Receipt)
    → All (λ (r : String × Receipt). r.1.status ≢ accepted) (map (recover_receipt now) rest)
unfolding recover_receipt
recovered-receipts now [] = tt
recovered-receipts now ((id, r) ∷ rest) = (λ e. ground arith, recovered-receipts now rest)

is_pending-recover : (a : Attempt) → is_pending (recover_attempt a) ≡ is_pending a
unfolding recover_attempt is_pending
is_pending-recover a = ground arith

pending-recover :
    (rest : List Attempt) → map is_pending (map recover_attempt rest) ≡ map is_pending rest
pending-recover [] = refl
pending-recover (a ∷ rest) = rw (is_pending-recover a, pending-recover rest) refl

-- A store that opens for its owner has restarted: no attempt is left as a mere intent and no request
-- as merely accepted, each attempt is pending exactly if it was, and the stored identity was the
-- owner's or, in a new store, empty.
pub open_data-IsRestarted :
    (fresh : Bool) (now : Time) (identity : String) (d e : Data)
    → open_data fresh now identity d ≡ ok e
    → IsRestarted d e
      × (e.status.identity ≡ identity)
      × ((d.status.identity ≡ identity) ⊎ ((fresh ≡ true) × (d.status.identity ≡ "")))
unfolding open_data recover
open_data-IsRestarted fresh now identity d e h = elim (Option-cases (validate_receipts d)) [
  | inr (why, k) ↦ absurd (ground arith)
  | inl k ↦
      let attempts : e.attempts ≡ map recover_attempt d.attempts = ground arith in
      let triggers : e.triggers ≡ map (recover_receipt now) (map normalize_receipt d.triggers) =
        ground arith in
      (
        (
          rw attempts (recovered-outcomes d.attempts),
          rw triggers (recovered-receipts now (map normalize_receipt d.triggers)),
          ap (map is_pending) attempts ∙ pending-recover d.attempts,
        ),
        ground arith,
        ground
            (arith, string_beq_iff d.status.identity identity, string_beq_iff d.status.identity ""),
      )
]
