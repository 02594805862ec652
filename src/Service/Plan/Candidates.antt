-- ===== src/Service/Plan/Candidates.antt =====
-- Which issues the cycle plans for.
use sonarr_remediator.Base.{
  Time, Duration, String, ◌≡◌, ◌∙◌, ap, Bool, true, false, ◌&&◌, ◌||◌, not, Bool-cases, inl, inr,
  arith, List, [], ◌∷◌, map, keep, sort-All, All, Dict,
}
use sonarr_remediator.Config.{Config}
use sonarr_remediator.Policy.Observation.{Observation}
use sonarr_remediator.Policy.Fingerprint.{Digest}
use sonarr_remediator.State.{Issue, Data}
use sonarr_remediator.State.Retention.{is_resolved}
use sonarr_remediator.Service.Attempts.{has_pending}
use sonarr_remediator.Service.Scan.{Seen, scan_issue}
use sonarr_remediator.Service.Scan.Framed.{condition-tick}
use sonarr_remediator.Service.Plan.{earlier_issue, sorted_issues, comes_before, candidates}

keep-IsOpen :
    (is : List Issue)
    → All
        (λ (i : Issue). is_resolved i.condition ≡ false)
        (keep (λ (i : Issue). false || not (is_resolved i.condition)) is)
keep-IsOpen [] = tt
keep-IsOpen (i ∷ rest) = elim (Bool-cases (is_resolved i.condition)) [
  | inl y ↦ rw y (keep-IsOpen rest)
  | inr n ↦ rw n (n, keep-IsOpen rest)
]

module _ (digest : Digest) (c : Config) (show : Duration → String) (cancelled : String → Bool)
    (previous now : Time) (observations : Dict String Observation) where
  candidates-IsOpen :
      (override : Bool) (s : Data)
      → All
          (λ (i : Issue). is_resolved i.condition ≡ false)
          (candidates digest c show cancelled now observations override s)
  unfolding candidates sorted_issues
  candidates-IsOpen override s =
      let P = λ (i : Issue). is_resolved i.condition ≡ false in
      sort-All (comes_before digest c show cancelled now observations override) P _
        (sort-All earlier_issue P _ (keep-IsOpen (map (λ (_, i). i) s.issues)))

  -- A resolved issue whose download a scan sees eligible in the queue again is still resolved after the scan,
  -- and no candidate of any store is resolved.
  pub scan_issue-IsOpen :
      (id : String) (seen : Seen) (i : Issue) (s t : Data) (override : Bool)
      → seen.eligible ≡ true
      → is_resolved i.condition ≡ true
      → (is_resolved (scan_issue digest c previous now observations s id seen i).condition ≡ true)
        × All
            (λ (j : Issue). is_resolved j.condition ≡ false)
            (candidates digest c show cancelled now observations override t)
  unfolding scan_issue
  scan_issue-IsOpen id seen i s t override e r =
      let quiet : (not seen.eligible && not (has_pending id s)) ≡ false = ground arith in
      (
        rw (quiet, scan_issue) (ap is_resolved (condition-tick c previous now seen i) ∙ r),
        candidates-IsOpen override t,
      )
