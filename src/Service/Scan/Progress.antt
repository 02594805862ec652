-- ===== src/Service/Scan/Progress.antt =====
-- internal/service/service.go, `Cycle`: the scans of a download that does not change, on schedule.
use sonarr_remediator.Base.{
  zero, ℤ, pos, ◌≤ℤ◌, ◌<ℤ◌, ◌+ℤ◌, ◌^◌, ℕ, suc, Time, int_eq, string_eq, ◌≡◌, true, false,
}
use sonarr_remediator.Config.{Config}
use sonarr_remediator.State.{Issue}
use sonarr_remediator.State.Retention.{is_resolved}
use sonarr_remediator.Service.Scan.{Seen, tick}

-- The issue after `n` scans, one in each poll interval after `t`, that all see the same.
unfoldable pub polls : Config → Seen → ℕ → Time → Issue → Issue
polls c seen zero t i = i
polls c seen (suc n) t i =
    let now = t +ℤ c.poll_interval in polls c seen n now (tick c t now seen i)

-- `n` intervals.
unfoldable pub times : ℕ → ℤ → ℤ
times zero p = pos 0
times (suc n) p = p +ℤ times n p

-- The issue was seen at `t` as it is seen again, eligible and not resolved.
abbrev pub IsSteady : Seen → Time → Issue → Type 0
IsSteady seen t i =
    (seen.identity ≡ i.identity)
    × (i.eligible ≡ true)
    × (is_resolved i.condition ≡ false)
    × (i.last_seen ≡ t)

-- An interval that is not too long is measured and added without a loss.
module _ (p t e : ℤ) where
  abbrev IsShort : Type 0
  IsShort = (pos 0 <ℤ p) × (p <ℤ pos (2 ^ 62)) × (pos 0 ≤ℤ e) × ((e +ℤ p) <ℤ pos (2 ^ 63))
