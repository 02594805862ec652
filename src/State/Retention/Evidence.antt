-- ===== src/State/Retention/Evidence.antt =====
-- `Prune` keeps the evidence that the gate rests on.
use sonarr_remediator.Base.{
  Time, Duration, hour, after, ◌≤ℤ◌, -ℤ_parts, ◌≡◌, ap, true, arith, keep, keep-keep, length,
  int_eq,
}
use sonarr_remediator.State.{Attempt, is_pending, Data}
use sonarr_remediator.State.Retention.{ago, spends, budget, retain_attempt, attempt_kept, prune}

-- A time after one bound is after every earlier bound.
pub after-ago :
    (t now later : Time) (d : Duration)
    → now ≤ℤ later
    → after t (ago later d) ≡ true
    → after t (ago now d) ≡ true
after-ago t now later d h k = ground (arith, -ℤ_parts now d, -ℤ_parts later d)

pub spends-kept :
    (d : Data) (now later : Time) (retention cooldown : Duration) (a : Attempt)
    → now ≤ℤ later
    → spends later a ≡ true
    → attempt_kept d now retention cooldown a ≡ true
unfolding attempt_kept retain_attempt
spends-kept d now later retention cooldown a h k =
    ground (arith, after-ago a.started now later hour)

pub pending-kept :
    (d : Data) (now : Time) (retention cooldown : Duration) (a : Attempt)
    → is_pending a ≡ true
    → attempt_kept d now retention cooldown a ≡ true
unfolding attempt_kept retain_attempt
pending-kept d now retention cooldown a h = ground arith

-- Pruning does not change the budget, then or at any later time: no mutation of the last hour is
-- forgotten.
pub budget-prune :
    (d : Data) (now later : Time) (retention cooldown : Duration)
    → now ≤ℤ later
    → budget later (prune d now retention cooldown) ≡ budget later d
unfolding budget prune
budget-prune d now later retention cooldown h = ap length (
    keep-keep (spends later) _ d.attempts (λ a k. spends-kept _ now later retention cooldown a h k))

-- Pruning keeps every pending attempt, in order.
pub keep-pending-prune :
    (d : Data) (now : Time) (retention cooldown : Duration)
    → keep is_pending (prune d now retention cooldown).attempts ≡ keep is_pending d.attempts
unfolding prune
keep-pending-prune d now retention cooldown =
    keep-keep is_pending _ d.attempts (λ a k. pending-kept _ now retention cooldown a k)
