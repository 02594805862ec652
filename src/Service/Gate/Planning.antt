-- ===== src/Service/Gate/Planning.antt =====
-- What the planning of a manual request keeps within a cycle.
use sonarr_remediator.Base.{
  ℤ, pos, ◌+ℤ◌, ◌<ℤ◌, ◌≡◌, Time, true, false, none, List, [], ◌∷◌, length, any, contains, All,
  int_eq, arith,
}
use sonarr_remediator.Config.{Config}
use sonarr_remediator.Policy.Observation.{Decision}
use sonarr_remediator.State.{Data}
use sonarr_remediator.State.Retention.{budget}
use sonarr_remediator.Service.Gate.{overlap, plan_gate}
use sonarr_remediator.Service.Gate.Open.{overlap-disjoint}

-- No episode is in both decisions.
abbrev pub IsApart : Decision → Decision → Type 0
IsApart d p = (e : ℤ) → contains d.episode_ids e ≡ true → contains p.episode_ids e ≡ false

plans-IsApart :
    (d : Decision) (plans : List Decision)
    → any (λ (p : Decision). overlap d.episode_ids p.episode_ids) plans ≡ false
    → All (IsApart d) plans
plans-IsApart d [] h = tt
plans-IsApart d (p ∷ rest) h = (
  λ e k. overlap-disjoint d.episode_ids p.episode_ids e (ground arith) k,
  plans-IsApart d rest (ground arith),
)

-- A decision that joins the plans leaves room in the allowance of the cycle and, with the plans and the
-- mutations of the last hour, in that of the hour, and has no episode in common with any plan.
pub plan_gate-IsApart :
    (c : Config) (d : Decision) (plans : List Decision) (now : Time) (data' : Data)
    → plan_gate c d plans now data' ≡ none
    → (pos (length plans) <ℤ c.limits.mutations_per_scan)
      × ((pos (length plans) +ℤ pos (budget now data')) <ℤ c.limits.mutations_per_hour)
      × All (IsApart d) plans
unfolding plan_gate
plan_gate-IsApart c d plans now data' h =
    (ground arith, ground arith, plans-IsApart d plans (ground arith))
