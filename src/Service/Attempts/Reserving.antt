-- ===== src/Service/Attempts/Reserving.antt =====
-- What a reservation behind the gate keeps: the budget of the hour, and the ids.
use sonarr_remediator.Base.{
  ℤ, pos, ◌+◌, ◌≤◌, ◌≤ℤ◌, ◌<ℤ◌, Time, ltb_ℤ, ◌+ℤ◌, ◌+int◌, +ℤ_parts, wrap_of_InRange, InRange, ◌≡◌,
  refl, ◌∙◌, ap, inl, inr, String, Bool, Option, none, some, List, [], ◌∷◌, ◌++◌, keep, length,
  length-append, Dict, All, All-map, arith, Bool-cases, ok, if◌then◌else◌,
}
use sonarr_remediator.Config.{Config}
use sonarr_remediator.Control.{Request}
use sonarr_remediator.Control.Report.{Report}
use sonarr_remediator.Policy.Observation.{Decision}
use sonarr_remediator.State.{intent, Attempt, Data}
use sonarr_remediator.State.Retention.{spends, budget}
use sonarr_remediator.Service.Gate.{gate}
use sonarr_remediator.Service.Gate.Open.{gate-Passed}
use sonarr_remediator.Service.Attempts.{greatest_id, next_id, intended_attempt, reserve}

keep-append {ℓ} :
    {A : Type ℓ} (p : A → Bool) (xs ys : List A) → keep p (xs ++ ys) ≡ keep p xs ++ keep p ys
keep-append p [] ys = refl
keep-append p (x ∷ xs) ys = elim (Bool-cases (p x)) [
  | inl y ↦ rw y (ap (λ rest. x ∷ rest) (keep-append p xs ys))
  | inr n ↦ rw n (keep-append p xs ys)
]

length-keep-one {ℓ} : {A : Type ℓ} (p : A → Bool) (x : A) → length (keep p (x ∷ [])) ≤ 1
length-keep-one p x = ground arith

pub reserve-attempts :
    (manual : Option (Request × Report)) (s t : Data) (id title : String) (d : Decision)
    (now : Time) (files : Dict ℤ ℤ)
    → reserve manual s id title d now files ≡ ok t
    → (a : Attempt) × (a.outcome ≡ intent) × (t.attempts ≡ s.attempts ++ a ∷ [])
unfolding reserve intended_attempt
reserve-attempts none s t id title d now files h =
    (intended_attempt none s id title d now files, refl, ground arith)
reserve-attempts (some m) s t id title d now files h =
    (intended_attempt (some m.0) s id title d now files, refl, ground arith)

-- A reservation behind an open gate leaves at most the configured number of mutations in the last
-- hour, itself included.
pub reserve-budget :
    (c : Config) (override : Bool) (manual : Option (Request × Report)) (id title : String)
    (d : Decision) (now : Time) (parent : ℤ) (files : Dict ℤ ℤ) (s t : Data)
    → gate c override id d now parent s ≡ none
    → reserve manual s id title d now files ≡ ok t
    → pos (budget now t) ≤ℤ c.limits.mutations_per_hour
unfolding budget
reserve-budget c override manual id title d now parent files s t g r =
    let (a, fresh, e) = reserve-attempts manual s t id title d now files r in
    let below = (gate-Passed c override id d now parent s g).0 in
    let split : length (keep (spends now) t.attempts)
        ≡ length (keep (spends now) s.attempts) + length (keep (spends now) (a ∷ [])) =
      ap (λ xs. length (keep (spends now) xs)) e
      ∙ (ap length (keep-append (spends now) s.attempts (a ∷ []))
          ∙ length-append (keep (spends now) s.attempts) (keep (spends now) (a ∷ []))) in
    ground (arith, split, length-keep-one (spends now) a, below)

-- The greatest id bounds them all.
greatest_id-bound :
    (rest : List Attempt) (n : ℤ)
    → (n ≤ℤ greatest_id n rest) × All (λ a. a.id ≤ℤ greatest_id n rest) rest
unfolding greatest_id
greatest_id-bound [] n = (ground arith, tt)
greatest_id-bound (a ∷ rest) n =
    let (up, each) = greatest_id-bound rest (if ltb_ℤ n a.id then a.id else n) in
    (ground arith, (ground arith, each))

-- The next id is greater than every id in the store, as long as the ids fit in 64 bits.
pub next_id-fresh :
    (d : Data)
    → InRange (greatest_id (pos 0) d.attempts +ℤ pos 1)
    → All (λ (a : Attempt). a.id <ℤ next_id d) d.attempts
unfolding next_id ◌+int◌
next_id-fresh d h = rw (wrap_of_InRange _ h) (
    All-map _ _ d.attempts
      (λ a k. ground (arith, +ℤ_parts (greatest_id (pos 0) d.attempts) (pos 1)))
      (greatest_id-bound d.attempts (pos 0)).1)
