-- ===== src/Service/Scan/Counting.antt =====
-- internal/service/service.go, `Cycle`: the blocks of the scan that add to the elapsed times.
use sonarr_remediator.Base.{
  ℤ, pos, ◌≤ℤ◌, ◌<ℤ◌, ◌+ℤ◌, +ℤ_parts, ◌+int◌, ◌^◌, Time, zero_time, is_zero, sub_time, min_ℤ,
  int_beq_iff, int_eq, ◌≡◌, refl, sym, subst, inl, inr, Bool-cases, arith, true, false, ◌&&◌,
  string_eq,
}
use sonarr_remediator.Config.{Config}
use sonarr_remediator.State.{Issue}
use sonarr_remediator.State.Retention.{is_resolved}
use sonarr_remediator.Service.Scan.{
  Seen, two_polls, date, continues, count, count_rejected, note_rejected,
}
use sonarr_remediator.Service.Scan.Clock.{
  Fits, Fits-le, Fits-zero, end_of, end_of-le, end_of-bound, add-Fits, min-Fits, min-Fits-swap,
  sub_time-Fits, lt-of-ltb_ℤ, le-of-leb_ℤ, is_zero-true, end_of-zero, end_of_self,
}
use sonarr_remediator.Service.Scan.Framed.{still_rejected}

-- Up to `t`.
abbrev pub Counted : Time → Issue → Type 0
Counted t i =
    Fits i.elapsed i.first_seen t
    × Fits i.elapsed i.eligible_since t
    × (i.rejected_last_seen ≤ℤ t)
    × Fits i.rejected_elapsed i.first_seen (end_of t i.rejected_last_seen)
    × Fits i.rejected_elapsed i.eligible_since (end_of t i.rejected_last_seen)

-- The times of an eligible issue that is not resolved are counted up to when it was last seen.
abbrev pub IsTimed : Time → Issue → Type 0
IsTimed t i =
    (i.first_seen ≤ℤ t)
    × (i.last_seen ≤ℤ t)
    × (i.eligible ≡ true → is_resolved i.condition ≡ false → Counted i.last_seen i)

Counted-le : (t now : Time) (i : Issue) → t ≤ℤ now → Counted t i → Counted now i
Counted-le t now i h (a, b, r, x, y) =
    let k = end_of-le t now i.rejected_last_seen h in
    (
      Fits-le i.elapsed i.first_seen t now h a,
      Fits-le i.elapsed i.eligible_since t now h b,
      omega arith,
      Fits-le i.rejected_elapsed i.first_seen (end_of t i.rejected_last_seen)
          (end_of now i.rejected_last_seen) k x,
      Fits-le i.rejected_elapsed i.eligible_since (end_of t i.rejected_last_seen)
          (end_of now i.rejected_last_seen) k y,
    )

-- The interval is not negative, the clock is past the zero time by more than two intervals, and no issue is older than an `int64` of
-- nanoseconds.
abbrev pub Sane : Config → Time → Issue → Type 0
Sane c now i =
    (pos 0 ≤ℤ c.poll_interval)
    × (pos 0 ≤ℤ now)
    × (two_polls c <ℤ sub_time now zero_time)
    × (now <ℤ (i.first_seen +ℤ pos (2 ^ 63)))

module _ (c : Config) (previous now : Time) (seen : Seen) where
  pub date-Counted : (t : Time) (i : Issue) → Counted t i → Counted t (date c previous now seen i)
  unfolding date
  date-Counted t i h = elim (Bool-cases (seen.eligible && is_zero i.eligible_since)) [
    | inl y ↦ rw (y, date) (h.0, h.0, h.2, h.3, h.3)
    | inr n ↦ rw (n, date) h
  ]

  pub count-Counted :
      (i : Issue)
      → Sane c now i
      → i.last_seen ≤ℤ now
      → Counted i.last_seen i
      → Counted now (count c previous now seen i)
  unfolding count continues
  count-Counted i (poll, epoch, past, young) le h =
      elim (Bool-cases (continues c previous now seen i)) [
        | inr n ↦ rw (n, count) (Counted-le i.last_seen now i le h)
        | inl y ↦
            let same : i.last_seen ≡ previous =
              (int_beq_iff i.last_seen previous).0 (ground arith) in
            let later : previous <ℤ now = lt-of-ltb_ℤ previous now (ground arith) in
            let delta =
              min-Fits (sub_time now previous) c.poll_interval previous now poll
                (sub_time-Fits now previous later) in
            let h' = subst (λ t. Counted t i) same h in
            let m = Counted-le i.last_seen now i le h in
            let add = λ (start : ℤ). λ (fits : Fits i.elapsed start previous).
              add-Fits i.elapsed (min_ℤ (sub_time now previous) c.poll_interval) i.first_seen start
                previous now h'.0 fits delta young in
            rw (y, count) (add i.first_seen h'.0, add i.eligible_since h'.1, m.2, m.3, m.4)
      ]

  -- The scan saw the download rejected only if it observed it.
  abbrev pub IsSeen : Type 0
  IsSeen = seen.rejected ≡ true → seen.observed ≡ true

  still_rejected-Fits :
      (i : Issue)
      → Sane c now i
      → Counted now i
      → still_rejected c previous now seen i ≡ true
      → (start : ℤ) → Fits i.rejected_elapsed start (end_of now i.rejected_last_seen)
      → Fits
          (i.rejected_elapsed +int min_ℤ c.poll_interval (sub_time now i.rejected_last_seen))
          start
          now
  still_rejected-Fits i (poll, epoch, past, young) h y start fits =
      let late = le-of-leb_ℤ (sub_time now i.rejected_last_seen) (two_polls c) (ground arith) in
      let later : i.rejected_last_seen <ℤ now =
        lt-of-ltb_ℤ i.rejected_last_seen now (ground arith) in
      let marked : is_zero i.rejected_last_seen ≡ false =
        elim (Bool-cases (is_zero i.rejected_last_seen)) [
          | inr n ↦ n
          | inl z ↦ absurd (
              omega (
                arith,
                past,
                subst (λ t. sub_time now t ≤ℤ two_polls c) (is_zero-true i.rejected_last_seen z)
                    late,
              ))
        ] in
      let end : end_of now i.rejected_last_seen ≡ i.rejected_last_seen = rw marked refl in
      add-Fits i.rejected_elapsed (min_ℤ c.poll_interval (sub_time now i.rejected_last_seen))
        i.first_seen start i.rejected_last_seen now
        (subst (Fits i.rejected_elapsed i.first_seen) end h.3)
        (subst (Fits i.rejected_elapsed start) end fits)
        (min-Fits-swap (sub_time now i.rejected_last_seen) c.poll_interval i.rejected_last_seen now
          poll (sub_time-Fits now i.rejected_last_seen later))
        young

  -- A download that is rejected now is counted up to now.
  note_rejected-Counted :
      (i : Issue)
      → seen.observed ≡ true
      → seen.rejected ≡ true
      → Fits i.elapsed i.first_seen now
      → Fits i.elapsed i.eligible_since now
      → Fits i.rejected_elapsed i.first_seen now
      → Fits i.rejected_elapsed i.eligible_since now
      → Counted now (note_rejected c previous now seen i)
  unfolding note_rejected
  note_rejected-Counted i o r a b x y =
      rw (o, r, note_rejected)
        (
          a,
          b,
          omega arith,
          subst (Fits i.rejected_elapsed i.first_seen) (sym (end_of_self now)) x,
          subst (Fits i.rejected_elapsed i.eligible_since) (sym (end_of_self now)) y,
        )

  count_rejected-Counted :
      (i : Issue)
      → Sane c now i
      → seen.observed ≡ true
      → seen.rejected ≡ true
      → Counted now i
      → Counted now (note_rejected c previous now seen (count_rejected c previous now seen i))
  unfolding count_rejected
  count_rejected-Counted i sane o r h = elim (Bool-cases (still_rejected c previous now seen i)) [
    | inr n ↦
        let e : count_rejected c previous now seen i ≡ i = rw (n, count_rejected) refl in
        let le = end_of-bound now i.rejected_last_seen h.2 in
        let k = λ (start : ℤ).
          Fits-le i.rejected_elapsed start (end_of now i.rejected_last_seen) now le in
        subst (λ j. Counted now (note_rejected c previous now seen j)) (sym e)
          (note_rejected-Counted i o r h.0 h.1 (k i.first_seen h.3) (k i.eligible_since h.4))
    | inl y ↦
        let grown = still_rejected-Fits i sane h y in
        let rejected =
          i.rejected_elapsed +int min_ℤ c.poll_interval (sub_time now i.rejected_last_seen) in
        let e : record i { rejected_elapsed = rejected } ≡ count_rejected c previous now seen i =
          rw (y, count_rejected) refl in
        subst (λ j. Counted now (note_rejected c previous now seen j)) e
          (note_rejected-Counted (record i { rejected_elapsed = rejected }) o r h.0 h.1
            (grown i.first_seen h.3) (grown i.eligible_since h.4))
  ]

  pub reject-Counted :
      (i : Issue)
      → Sane c now i
      → IsSeen
      → Counted now i
      → Counted now (note_rejected c previous now seen (count_rejected c previous now seen i))
  unfolding note_rejected count_rejected
  reject-Counted i (poll, epoch, past, young) observed h = elim (Bool-cases seen.observed) [
    | inr n ↦
        let quiet : seen.rejected ≡ false = ground arith in
        rw (n, quiet, note_rejected, count_rejected) h
    | inl o ↦ elim (Bool-cases seen.rejected) [
      | inr n ↦
          let zero = λ (start : ℤ). λ (le : start ≤ℤ now).
            subst (Fits (pos 0) start) (sym (end_of-zero now)) (Fits-zero start now le) in
          rw (o, n, note_rejected, count_rejected)
            (
              h.0,
              h.1,
              epoch,
              zero i.first_seen (omega (arith, h.0, +ℤ_parts i.elapsed i.first_seen)),
              zero i.eligible_since (omega (arith, h.1, +ℤ_parts i.elapsed i.eligible_since)),
            )
      | inl r ↦ count_rejected-Counted i (poll, epoch, past, young) o r h
    ]
  ]
