-- ===== src/Service/Gate/Open.antt =====
-- What an open gate has established.
use sonarr_remediator.Base.{
  ℤ, pos, ◌<ℤ◌, Time, ltb_ℤ, sub_time, ◌≡◌, ◌≢◌, subst, inl, inr, String, Bool, true, false, none,
  List, [], ◌∷◌, ◌==◌, int_eq, string_eq, int_beq_iff, string_beq_iff, contains, All, arith,
  Bool-cases, ok, >>=-eq-ok, Result-cases,
}
use sonarr_remediator.Config.{Config}
use sonarr_remediator.Policy.Observation.{Decision}
use sonarr_remediator.State.{Attempt, is_pending, Data}
use sonarr_remediator.State.Retention.{budget}
use sonarr_remediator.Service.Gate.{
  is_settled, overlap, concerns, Tally, no_tally, cooling, gate_attempt, gate_attempts, gate,
}

-- The attempt and an action on this download and these episodes have nothing in common.
abbrev pub Apart : String → List ℤ → Attempt → Type 0
Apart id episodes a =
    (a.download_id ≢ id)
    × ((e : ℤ) → contains episodes e ≡ true → contains a.decision.episode_ids e ≡ false)

pub overlap-disjoint :
    (xs ys : List ℤ) (e : ℤ) → overlap xs ys ≡ false → contains xs e ≡ true → contains ys e ≡ false
unfolding overlap
overlap-disjoint [] ys e h k = cc
overlap-disjoint (x ∷ xs) ys e h k = elim (Bool-cases (x == e)) [
  | inl y ↦ subst (λ z. contains ys z ≡ false) ((int_beq_iff x e).0 y) (ground arith)
  | inr n ↦ overlap-disjoint xs ys e (ground arith) (ground arith)
]

concerns-Apart :
    (id : String) (d : Decision) (a : Attempt) → concerns id d a ≡ false → Apart id d.episode_ids a
unfolding concerns
concerns-Apart id d a h = (
  λ e. ground (arith, string_beq_iff a.download_id id),
  λ e k. overlap-disjoint d.episode_ids a.decision.episode_ids e (ground arith) k,
)

-- An attempt that an open gate has passed: not pending on this download or one of these episodes, and
-- not a success there within the cooldown, unless the wait is overridden or it is the parent.
abbrev pub Passed : Config → Bool → String → Decision → Time → ℤ → Attempt → Type 0
Passed c override id d now parent a =
    (is_pending a ≡ true → Apart id d.episode_ids a)
    × (a.dry_run ≡ false
        → is_settled a.outcome ≡ true
        → ltb_ℤ (sub_time now a.finished_at) c.limits.episode_cooldown ≡ true
        → override ≡ false
        → a.id ≢ parent
        → Apart id d.episode_ids a)

module _ (c : Config) (override : Bool) (id : String) (d : Decision) (now : Time) (parent : ℤ) where
  gate_attempt-Passed :
      (t t' : Tally) (a : Attempt)
      → gate_attempt c override id d now parent t a ≡ ok t'
      → Passed c override id d now parent a
  unfolding gate_attempt is_pending cooling
  gate_attempt-Passed t t' a h = (
    λ p. concerns-Apart id d a (ground arith),
    λ live s w o n. concerns-Apart id d a (ground (arith, int_beq_iff a.id parent)),
  )

  gate_attempts-Passed :
      (t t' : Tally) (rest : List Attempt)
      → gate_attempts c override id d now parent t rest ≡ ok t'
      → All (Passed c override id d now parent) rest
  unfolding gate_attempts
  gate_attempts-Passed t t' [] h = tt
  gate_attempts-Passed t t' (a ∷ rest) h =
      let (t1, h1, h2) =
        >>=-eq-ok (gate_attempt c override id d now parent t a)
          (λ x. gate_attempts c override id d now parent x rest) h in
      (gate_attempt-Passed t t1 a h1, gate_attempts-Passed t1 t' rest h2)

  -- An open gate means that the budget of the hour is not used up, that no pending attempt has this
  -- download or one of these episodes, and that no other attempt on them ended well within the
  -- cooldown, unless the wait is overridden.
  pub gate-Passed :
      (data' : Data)
      → gate c override id d now parent data' ≡ none
      → (pos (budget now data') <ℤ c.limits.mutations_per_hour)
        × All (Passed c override id d now parent) data'.attempts
  unfolding gate
  gate-Passed data' h =
      elim (Result-cases (gate_attempts c override id d now parent no_tally data'.attempts)) [
        | inr (e, k) ↦ absurd (ground arith)
        | inl (t, k) ↦ (ground arith, gate_attempts-Passed no_tally t data'.attempts k)
      ]
