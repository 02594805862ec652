-- ===== src/Service/Scan/Timed.antt =====
-- The elapsed times of an issue fit the time since it became eligible.
use sonarr_remediator.Base.{
  ℤ, pos, ◌≤ℤ◌, ◌<ℤ◌, ◌+ℤ◌, ◌^◌, Time, is_zero, int_eq, ◌≡◌, refl, sym, subst, ◌∙◌, ap, inl, inr,
  Bool-cases, arith, true, false, ◌&&◌, string_eq,
}
use sonarr_remediator.Config.{Config}
use sonarr_remediator.State.{Issue}
use sonarr_remediator.State.Retention.{is_resolved}
use sonarr_remediator.Service.Scan.{Seen, reset, date, continues, count, set_due, note_rows, tick}
use sonarr_remediator.Service.Scan.Clock.{Fits, Fits-zero, end_of-zero}
use sonarr_remediator.Service.Scan.Counting.{
  Counted, IsTimed, Sane, date-Counted, count-Counted, IsSeen, reject-Counted,
}
use sonarr_remediator.Service.Scan.Framed.{
  restarts, date-IsFramed, counting-IsFramed, condition-tick, first_seen-tick, last_seen-tick,
}

module _ (c : Config) (previous now : Time) (seen : Seen) where
  reset-Counted :
      (i : Issue)
      → restarts c previous now seen i ≡ true
      → i.first_seen ≤ℤ now
      → pos 0 ≤ℤ now
      → Counted now (reset c previous now seen i)
  unfolding reset
  reset-Counted i y le epoch =
      let zero = λ (start : ℤ). λ (le : start ≤ℤ now).
        subst (Fits (pos 0) start) (sym (end_of-zero now)) (Fits-zero start now le) in
      rw (y, reset)
        (
          Fits-zero i.first_seen now le,
          Fits-zero now now (omega arith),
          epoch,
          zero i.first_seen le,
          zero now (omega arith),
        )

  pub continues-date :
      (i : Issue)
      → continues c previous now seen (date c previous now seen i) ≡ continues c previous now seen i
  unfolding continues date
  continues-date i = elim (Bool-cases (seen.eligible && is_zero i.eligible_since)) [
    | inl y ↦ rw (y, continues, date) refl
    | inr n ↦ rw (n, continues, date) refl
  ]

  continues-reset :
      (i : Issue)
      → continues c previous now seen (reset c previous now seen i)
        ≡ continues c previous now seen i
  unfolding continues reset
  continues-reset i = elim (Bool-cases (restarts c previous now seen i)) [
    | inl y ↦ rw (y, continues, reset) refl
    | inr n ↦ rw (n, continues, reset) refl
  ]

  not-continues :
      (i : Issue)
      → restarts c previous now seen i ≡ true
      → is_resolved i.condition ≡ false
      → continues c previous now seen i ≡ false
  unfolding continues
  not-continues i y live = ground arith

  -- A reset issue has counted nothing, and this scan adds nothing.
  restart-Counted :
      (i : Issue)
      → restarts c previous now seen i ≡ true
      → is_resolved i.condition ≡ false
      → i.first_seen ≤ℤ now
      → pos 0 ≤ℤ now
      → Counted now
          (count c previous now seen (date c previous now seen (reset c previous now seen i)))
  unfolding count
  restart-Counted i y live le epoch =
      let j = date c previous now seen (reset c previous now seen i) in
      let stops : continues c previous now seen j ≡ false =
        continues-date (reset c previous now seen i) ∙ continues-reset i ∙ not-continues i y live in
      let e : j ≡ count c previous now seen j = rw (stops, count) refl in
      subst (Counted now) e (
        date-Counted c previous now seen now (reset c previous now seen i)
          (reset-Counted i y le epoch))

  keep-Counted :
      (i : Issue)
      → Sane c now i
      → restarts c previous now seen i ≡ false
      → i.last_seen ≤ℤ now
      → Counted i.last_seen i
      → Counted now
          (count c previous now seen (date c previous now seen (reset c previous now seen i)))
  unfolding reset
  keep-Counted i (poll, epoch, past, young) n le h =
      let e : i ≡ reset c previous now seen i = rw (n, reset) refl in
      let dated = date-Counted c previous now seen i.last_seen i h in
      subst (λ j. Counted now (count c previous now seen (date c previous now seen j))) e
        (count-Counted c previous now seen (date c previous now seen i)
          (
            poll,
            epoch,
            past,
            subst (λ t. now <ℤ (t +ℤ pos (2 ^ 63))) (sym (date-IsFramed c previous now seen i).0)
                young,
          )
          (subst (λ t. t ≤ℤ now) (sym (date-IsFramed c previous now seen i).1) le)
          (subst (λ t. Counted t (date c previous now seen i))
            (sym (date-IsFramed c previous now seen i).1) dated))

  -- The elapsed times of an issue that is not resolved, over a scan.
  tick-Counted :
      (i : Issue)
      → Sane c now i
      → IsSeen c previous now seen
      → IsTimed now i
      → is_resolved i.condition ≡ false
      → Counted now (tick c previous now seen i)
  unfolding tick set_due note_rows
  tick-Counted i (poll, epoch, past, young) observed h live =
      let j = count c previous now seen (date c previous now seen (reset c previous now seen i)) in
      let counted : Counted now j = elim (Bool-cases (restarts c previous now seen i)) [
        | inl y ↦ restart-Counted i y live h.0 epoch
        | inr n ↦ keep-Counted i (poll, epoch, past, young) n h.1 (h.2 (ground arith) live)
      ] in
      reject-Counted c previous now seen j
        (
          poll,
          epoch,
          past,
          subst (λ t. now <ℤ (t +ℤ pos (2 ^ 63))) (sym (counting-IsFramed c previous now seen i).0)
              young,
        )
        observed counted

  pub tick-IsTimed :
      (i : Issue)
      → Sane c now i
      → IsSeen c previous now seen
      → IsTimed now i
      → IsTimed now (tick c previous now seen i)
  tick-IsTimed i sane observed h = (
    subst (λ t. t ≤ℤ now) (sym (first_seen-tick c previous now seen i)) h.0,
    subst (λ t. t ≤ℤ now) (sym (last_seen-tick c previous now seen i)) (omega arith),
    λ eligible live.
        subst (λ t. Counted t (tick c previous now seen i))
          (sym (last_seen-tick c previous now seen i))
          (tick-Counted i sane observed h
            (sym (ap is_resolved (condition-tick c previous now seen i)) ∙ live)),
  )
