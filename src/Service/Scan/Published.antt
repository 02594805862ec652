-- ===== src/Service/Scan/Published.antt =====
-- A complete scan keeps the times of every issue honest.
use sonarr_remediator.Base.{
  pos, ◌≤ℤ◌, ◌<ℤ◌, ◌+ℤ◌, +ℤ_parts, ◌^◌, Time, zero_time, sub_time, ◌≡◌, ◌∙◌, refl, sym, subst,
  arith, ◌&&◌, ◌||◌, not, ◌==◌, string_eq, contains, some, Option-cases, Bool-cases, inl, inr, List,
  [], ◌∷◌, map, All, String, Dict, lookup,
}
use sonarr_remediator.Sonarr.{QueueRow}
use sonarr_remediator.Config.{Config}
use sonarr_remediator.Policy.Observation.{Observation}
use sonarr_remediator.Policy.Fingerprint.{Digest}
use sonarr_remediator.State.{Issue, Data}
use sonarr_remediator.Service.Attempts.{has_pending}
use sonarr_remediator.Service.Execute.{group}
use sonarr_remediator.State.Retention.{is_resolved}
use sonarr_remediator.Service.Scan.{
  Seen, new_issue, two_polls, download_ids, put_issue, see_rows, scan_issue, scan_group,
  scan_groups, resolve, publish,
}
use sonarr_remediator.Service.Scan.Counting.{IsTimed, IsSeen}
use sonarr_remediator.Service.Scan.Framed.{first_seen-tick, eligible-tick}
use sonarr_remediator.Service.Scan.Timed.{tick-IsTimed}

-- The issue's times are honest, and it is younger than an `int64` of nanoseconds.
abbrev pub IsYoung : Time → String × Issue → Type 0
IsYoung now (id, i) = IsTimed now i × (now <ℤ (i.first_seen +ℤ pos (2 ^ 63)))

some-injective : {i j : Issue} → some i ≡ some j → i ≡ j
some-injective h = cc

lookup-IsYoung :
    (now : Time) (id : String) (issues : Dict String Issue) (i : Issue)
    → All (IsYoung now) issues
    → lookup id issues ≡ some i
    → IsYoung now (id, i)
unfolding lookup
lookup-IsYoung now id [] i h e = absurd (ground arith)
lookup-IsYoung now id ((k, j) ∷ rest) i h e = elim (Bool-cases (k == id)) [
  | inl y ↦
      let found : lookup id ((k, j) ∷ rest) ≡ some j = rw (y, lookup) refl in
      subst (λ (x : Issue). IsYoung now (id, x)) (some-injective (sym found ∙ e)) h.0
  | inr n ↦ lookup-IsYoung now id rest i h.1 (sym (rw (n, lookup) refl) ∙ e)
]

put_issue-IsYoung :
    (now : Time) (id : String) (i : Issue) (issues : Dict String Issue)
    → IsYoung now (id, i)
    → All (IsYoung now) issues
    → All (IsYoung now) (put_issue id i issues)
unfolding put_issue
put_issue-IsYoung now id i [] h a = (h, tt)
put_issue-IsYoung now id i ((k, j) ∷ rest) h a = elim (Bool-cases (k == id)) [
  | inl y ↦ rw (y, put_issue) (h, a.1)
  | inr n ↦ rw (n, put_issue) (a.0, put_issue-IsYoung now id i rest h a.1)
]

module _ (digest : Digest) (c : Config) (previous now : Time)
    (observations : Dict String Observation) (s : Data) where
  -- The settings and the clock of the scan.
  abbrev pub Timely : Type 0
  Timely = (pos 0 ≤ℤ c.poll_interval) × (pos 0 ≤ℤ now) × (two_polls c <ℤ sub_time now zero_time)

  scan_issue-IsYoung :
      (id : String) (seen : Seen) (i : Issue)
      → Timely
      → IsSeen c previous now seen
      → IsYoung now (id, i)
      → IsYoung now (id, scan_issue digest c previous now observations s id seen i)
  unfolding scan_issue
  scan_issue-IsYoung id seen i (poll, epoch, past) observed (timed, young) =
      let ticked = tick-IsTimed c previous now seen i (poll, epoch, past, young) observed timed in
      let young' =
        subst (λ t. now <ℤ (t +ℤ pos (2 ^ 63))) (sym (first_seen-tick c previous now seen i))
          young in
      elim (Bool-cases (not seen.eligible && not (has_pending id s))) [
        | inl y ↦
            rw (y, scan_issue)
              (
                (
                  ticked.0,
                  ticked.1,
                  λ e live. absurd (ground (arith, sym (eligible-tick c previous now seen i) ∙ e)),
                ),
                young',
              )
        | inr n ↦ rw (n, scan_issue) (ticked, young')
      ]

  see_rows-IsSeen :
      (id : String) (rows : List QueueRow)
      → IsSeen c previous now (see_rows digest c previous now observations s id rows)
  unfolding see_rows
  see_rows-IsSeen id rows h = ground arith

  new_issue-IsYoung : (id : String) → pos 0 ≤ℤ now → IsYoung now (id, new_issue id now)
  new_issue-IsYoung id epoch =
      ((omega arith, omega arith, λ e live. absurd cc), omega (arith, +ℤ_parts now (pos (2 ^ 63))))

  scan_group-IsYoung :
      (id : String) (rows : List QueueRow) (issues : Dict String Issue)
      → Timely
      → All (IsYoung now) issues
      → All (IsYoung now) (scan_group digest c previous now observations s id rows issues)
  unfolding scan_group
  scan_group-IsYoung id rows issues timely h =
      let seen = see_rows digest c previous now observations s id rows in
      let put = λ (i : Issue). λ (young : IsYoung now (id, i)).
        put_issue-IsYoung now id (scan_issue digest c previous now observations s id seen i) issues
          (scan_issue-IsYoung id seen i timely (see_rows-IsSeen id rows) young) h in
      elim (Option-cases (lookup id issues)) [
        | inr (i, e) ↦ rw (e, scan_group) (put i (lookup-IsYoung now id issues i h e))
        | inl e ↦ elim (Bool-cases (not seen.eligible)) [
          | inl y ↦ rw (e, y, scan_group) h
          | inr n ↦ rw (e, n, scan_group) (put (new_issue id now) (new_issue-IsYoung id timely.1))
        ]
      ]

  scan_groups-IsYoung :
      (ids : List String) (queue : List QueueRow) (issues : Dict String Issue)
      → Timely
      → All (IsYoung now) issues
      → All (IsYoung now) (scan_groups digest c previous now observations s ids queue issues)
  unfolding scan_groups
  scan_groups-IsYoung [] queue issues timely h = h
  scan_groups-IsYoung (id ∷ rest) queue issues timely h =
      scan_groups-IsYoung rest queue
        (scan_group digest c previous now observations s id (group id queue) issues) timely
        (scan_group-IsYoung id (group id queue) issues timely h)

  resolve-IsYoung :
      (queue : List QueueRow) (kept : String × Issue)
      → IsYoung now kept
      → IsYoung now (resolve digest c previous now observations s queue kept)
  unfolding resolve
  resolve-IsYoung queue (id, i) ((first, last, counted), young) =
      elim (Bool-cases
        (contains (download_ids queue) id || is_resolved i.condition || has_pending id s)) [
          | inl y ↦ rw (y, resolve) ((first, last, counted), young)
          | inr n ↦ rw (n, resolve) ((first, last, λ e live. absurd cc), young)
        ]

  -- A complete scan keeps the times of every issue honest: of an issue that is eligible and not resolved, the
  -- elapsed and the rejected elapsed times are not negative and fit between the time it was first seen, and
  -- the time it became eligible, and the time it was last seen. The interval is not negative, no issue is
  -- older than an `int64` of nanoseconds, and the clock is past the zero time by more than two intervals.
  pub publish-IsYoung :
      (version : String) (queue : List QueueRow)
      → Timely
      → All (IsYoung now) s.issues
      → All (IsYoung now) (publish digest c previous now observations s version queue).issues
  unfolding publish
  publish-IsYoung version queue timely h =
      map-IsYoung
        (scan_groups digest c previous now observations s (download_ids queue) queue s.issues)
        (scan_groups-IsYoung (download_ids queue) queue s.issues timely h)
    where
      map-IsYoung :
          (issues : Dict String Issue)
          → All (IsYoung now) issues
          → All (IsYoung now) (map (resolve digest c previous now observations s queue) issues)
      map-IsYoung [] h = tt
      map-IsYoung (kept ∷ rest) h = (resolve-IsYoung queue kept h.0, map-IsYoung rest h.1)
