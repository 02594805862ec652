-- ===== src/Service/Gate.antt =====
-- internal/service/service.go, `gate`, and manual.go, `planGate`: may an action be submitted? `none` is
-- the empty text of the source, `some` the reason against it. `override` is `s.request != nil &&
-- s.request.OverrideWait`.
pub mod Open
pub mod Planning
use sonarr_remediator.Base.{
  ℤ, pos, ℕ, suc, Time, Duration, zero_time, is_zero, after, sub_time, ltb_ℤ, leb_ℤ, ◌+ℤ◌, String,
  Bool, true, false, ◌&&◌, ◌||◌, not, Option, none, some, List, [], ◌∷◌, ◌==◌, ◌!=◌, string_eq,
  int_eq, if◌then◌else◌, contains, any, length, Result, ok, err, ◌>>=◌,
}
use sonarr_remediator.Config.{Config}
use sonarr_remediator.Policy.Observation.{Decision, Kind, import}
use sonarr_remediator.State.{Outcome, verified, submitted, Attempt, is_pending, Data}
use sonarr_remediator.State.Retention.{budget}

abbrev pub is_import : Kind → Bool
is_import import = true
is_import _ = false

abbrev pub is_settled : Outcome → Bool
is_settled verified = true
is_settled submitted = true
is_settled _ = false

-- Two lists of episodes have one in common.
unfoldable pub overlap : List ℤ → List ℤ → Bool
overlap xs ys = any (contains ys) xs

-- The attempt is of the download, or of one of the decision's episodes.
unfoldable pub concerns : String → Decision → Attempt → Bool
concerns id d a = a.download_id == id || overlap d.episode_ids a.decision.episode_ids

-- The variables of the loop: how many imports of this candidate, and when the last one ended.
pub record Tally : Type 0 where
  pub count : ℕ
  pub last : Time

abbrev pub no_tally : Tally
no_tally = record { count = 0; last = zero_time }

abbrev latest : Time → Time → Time
latest t u = if after t u then t else u

abbrev pub ended : Attempt → Time
ended a = if is_zero a.finished_at then a.started else a.finished_at

module _ (c : Config) (override : Bool) (id : String) (d : Decision) (now : Time) (parent : ℤ) where
  unfoldable pub cooling : Attempt → Bool
  cooling a =
      a.id != parent
      && is_settled a.outcome
      && ltb_ℤ (sub_time now a.finished_at) c.limits.episode_cooldown
      && not override

  unfoldable pub same_import : Attempt → Bool
  same_import a =
      a.download_id == id && is_import d.kind && is_import a.kind && a.fingerprint == d.fingerprint

  -- One round of the loop.
  unfoldable pub gate_attempt : Tally → Attempt → Result Tally
  gate_attempt t a =
      if a.dry_run
      then ok t
      else if concerns id d a && is_pending a
      then err "pending/uncertain action protects download or episode"
      else if concerns id d a && cooling a
      then err "episode cooldown"
      else if same_import a
      then ok (record { count = suc t.count; last = latest (ended a) t.last })
      else ok t

  unfoldable pub gate_attempts : Tally → List Attempt → Result Tally
  gate_attempts t [] = ok t
  gate_attempts t (a ∷ rest) = gate_attempt t a >>= λ t'. gate_attempts t' rest

  abbrev retry_refused : Tally → Option String
  retry_refused t =
      if leb_ℤ c.recovery.max_attempts (pos t.count)
      then some "recovery attempt budget exhausted"
      else if not (is_zero t.last) && ltb_ℤ (sub_time now t.last) c.recovery.retry_interval
      then some "known failed import retry interval"
      else none

  abbrev pub gate_tally : Result Tally → Option String
  gate_tally (err e) = some e
  gate_tally (ok t) = if is_import d.kind then retry_refused t else none

  -- `gate`.
  unfoldable pub gate : Data → Option String
  gate data' =
      if leb_ℤ c.limits.mutations_per_hour (pos (budget now data'))
      then some "rolling hour mutation budget exhausted"
      else gate_tally (gate_attempts no_tally data'.attempts)

-- `planGate`, over the decisions that are planned already.
unfoldable pub plan_gate : Config → Decision → List Decision → Time → Data → Option String
plan_gate c d plans now data' =
    if leb_ℤ c.limits.mutations_per_scan (pos (length plans))
      || leb_ℤ c.limits.mutations_per_hour (pos (length plans) +ℤ pos (budget now data'))
    then some "cycle or rolling hour mutation allowance allocated"
    else if any (λ (p : Decision). overlap d.episode_ids p.episode_ids) plans
    then some "another selected action protects this episode"
    else none
