-- ===== src/Service/Scan/Framed.antt =====
-- internal/service/service.go, `Cycle`: the fields that the blocks of the scan leave alone.
use sonarr_remediator.Base.{
  Time, is_zero, after, sub_time, leb_ℤ, int_eq, ◌≡◌, refl, ◌∙◌, inl, inr, Bool-cases, Bool, ◌&&◌,
  ◌||◌, not, string_eq, ◌!=◌,
}
use sonarr_remediator.Config.{Config}
use sonarr_remediator.State.{Issue}
use sonarr_remediator.State.Retention.{is_resolved}
use sonarr_remediator.Service.Scan.{
  Seen, two_polls, reset, date, continues, count, count_rejected, note_rejected, set_due, note_rows,
  tick,
}

module _ (c : Config) (previous now : Time) (seen : Seen) where
  -- The test of `reset`.
  abbrev pub restarts : Issue → Bool
  restarts i =
      seen.identity != i.identity || not seen.eligible || not i.eligible || is_resolved i.condition

  -- The test of `count_rejected`.
  abbrev pub still_rejected : Issue → Bool
  still_rejected i =
      seen.rejected
      && i.rejected
      && not (is_zero previous)
      && after now i.rejected_last_seen
      && leb_ℤ (sub_time now i.rejected_last_seen) (two_polls c)

  -- What a block of the round leaves as it is.
  abbrev pub IsFramed : Issue → Issue → Type 0
  IsFramed i j =
      (j.first_seen ≡ i.first_seen) × (j.last_seen ≡ i.last_seen) × (j.condition ≡ i.condition)

  IsFramed-trans : (i j k : Issue) → IsFramed i j → IsFramed j k → IsFramed i k
  IsFramed-trans i j k (a, b, d) (a', b', d') = (a' ∙ a, b' ∙ b, d' ∙ d)

  reset-IsFramed : (i : Issue) → IsFramed i (reset c previous now seen i)
  unfolding reset
  reset-IsFramed i = elim (Bool-cases (restarts i)) [
    | inl y ↦ rw (y, reset) (refl, refl, refl)
    | inr n ↦ rw (n, reset) (refl, refl, refl)
  ]

  pub date-IsFramed : (i : Issue) → IsFramed i (date c previous now seen i)
  unfolding date
  date-IsFramed i = elim (Bool-cases (seen.eligible && is_zero i.eligible_since)) [
    | inl y ↦ rw (y, date) (refl, refl, refl)
    | inr n ↦ rw (n, date) (refl, refl, refl)
  ]

  count-IsFramed : (i : Issue) → IsFramed i (count c previous now seen i)
  unfolding count
  count-IsFramed i = elim (Bool-cases (continues c previous now seen i)) [
    | inl y ↦ rw (y, count) (refl, refl, refl)
    | inr n ↦ rw (n, count) (refl, refl, refl)
  ]

  count_rejected-IsFramed : (i : Issue) → IsFramed i (count_rejected c previous now seen i)
  unfolding count_rejected
  count_rejected-IsFramed i = elim (Bool-cases (still_rejected i)) [
    | inl y ↦ rw (y, count_rejected) (refl, refl, refl)
    | inr n ↦ rw (n, count_rejected) (refl, refl, refl)
  ]

  note_rejected-IsFramed : (i : Issue) → IsFramed i (note_rejected c previous now seen i)
  unfolding note_rejected
  note_rejected-IsFramed i = elim (Bool-cases seen.observed) [
    | inr n ↦ rw (n, note_rejected) (refl, refl, refl)
    | inl o ↦ elim (Bool-cases seen.rejected) [
      | inl r ↦ rw (o, r, note_rejected) (refl, refl, refl)
      | inr n ↦ rw (o, n, note_rejected) (refl, refl, refl)
    ]
  ]

  pub counting-IsFramed :
      (i : Issue)
      → IsFramed i
          (count c previous now seen (date c previous now seen (reset c previous now seen i)))
  counting-IsFramed i =
      let r = reset c previous now seen i in
      let d = date c previous now seen r in
      let k = count c previous now seen d in
      IsFramed-trans i d k (IsFramed-trans i r d (reset-IsFramed i) (date-IsFramed r))
        (count-IsFramed d)

  rejecting-IsFramed :
      (i : Issue)
      → IsFramed i (note_rejected c previous now seen (count_rejected c previous now seen i))
  rejecting-IsFramed i =
      let r = count_rejected c previous now seen i in
      IsFramed-trans i r (note_rejected c previous now seen r) (count_rejected-IsFramed i)
        (note_rejected-IsFramed r)

  pub condition-tick : (i : Issue) → (tick c previous now seen i).condition ≡ i.condition
  unfolding tick set_due note_rows
  condition-tick i =
      let j = count c previous now seen (date c previous now seen (reset c previous now seen i)) in
      (rejecting-IsFramed j).2 ∙ (counting-IsFramed i).2

  pub first_seen-tick : (i : Issue) → (tick c previous now seen i).first_seen ≡ i.first_seen
  unfolding tick set_due note_rows
  first_seen-tick i =
      let j = count c previous now seen (date c previous now seen (reset c previous now seen i)) in
      (rejecting-IsFramed j).0 ∙ (counting-IsFramed i).0

  pub last_seen-tick : (i : Issue) → (tick c previous now seen i).last_seen ≡ now
  unfolding tick note_rows
  last_seen-tick i = refl

  pub eligible-tick : (i : Issue) → (tick c previous now seen i).eligible ≡ seen.eligible
  unfolding tick note_rows
  eligible-tick i = refl
