-- ===== src/Service/Plan/Sound.antt =====
-- What the plans of a cycle keep: the allowances, the episodes of each other, and the waits.
use sonarr_remediator.Base.{
  pos, ◌≤ℤ◌, ◌+ℤ◌, +ℤ_parts, Time, Duration, ltb_ℤ, ◌≡◌, refl, sym, ◌∙◌, ap, subst, ◌⊎◌, inl, inr,
  arith, Bool, true, false, String, some, List, [], ◌∷◌, ◌++◌, length, length-append, All,
  All-append, Dict, lookup, string_eq, ◌+◌, ℕ,
}
use sonarr_remediator.Config.{Config}
use sonarr_remediator.Policy.Observation.{Observation, Decision}
use sonarr_remediator.Policy.Fingerprint.{Digest}
use sonarr_remediator.State.{Issue, Data}
use sonarr_remediator.State.Retention.{budget}
use sonarr_remediator.Service.Gate.Planning.{IsApart, plan_gate-IsApart}
use sonarr_remediator.Service.Observe.{decision, is_defer}
use sonarr_remediator.Service.Execute.{overrides}
use sonarr_remediator.Service.Manual.{Run, wait_of, elapsed_of}
use sonarr_remediator.Service.Plan.{Planned, Round, decisions, plan_candidate, plan_candidates}
use sonarr_remediator.Service.Plan.Rounds.{planned, IsPlannable, plan_candidate-Advances}

-- No two of the decisions have an episode in common.
abbrev pub AreDisjoint : List Decision → Type 0
AreDisjoint [] = Unit
AreDisjoint (d ∷ rest) = All (λ b. IsApart b d) rest × AreDisjoint rest

AreDisjoint-append :
    (plans : List Decision) (d : Decision)
    → AreDisjoint plans
    → All (IsApart d) plans
    → AreDisjoint (plans ++ d ∷ [])
AreDisjoint-append [] d h a = (tt, tt)
AreDisjoint-append (p ∷ rest) d h a =
    (All-append (λ b. IsApart b p) rest (d ∷ []) h.0 (a.0, tt), AreDisjoint-append rest d h.1 a.1)

pub decisions-append :
    (plans : List Planned) (p : Planned)
    → decisions (plans ++ p ∷ []) ≡ decisions plans ++ p.decision ∷ []
decisions-append [] p = refl
decisions-append (q ∷ rest) p = ap (λ ds. q.decision ∷ ds) (decisions-append rest p)

-- The plans fit the allowances of the cycle and, with the mutations of the last hour, of the hour.
abbrev pub IsAllowed : Config → ℕ → List Decision → Type 0
IsAllowed c used ds =
    (ds ≡ [])
    ⊎ ((pos (length ds) ≤ℤ c.limits.mutations_per_scan)
        × ((pos (length ds) +ℤ pos used) ≤ℤ c.limits.mutations_per_hour))

module _ (digest : Digest) (c : Config) (show : Duration → String) (cancelled : String → Bool)
    (now : Time) (observations : Dict String Observation) where
  module _ (Q : Issue → Type 0) (v : Bool) where
    -- A plan is the decision on what was observed of an issue, acts, and has waited or is overridden.
    abbrev pub IsFounded : Planned → Type 0
    IsFounded p =
        (i : Issue) × (o : Observation) × Q i
        × (p ≡ planned digest c show cancelled now observations i (decision digest c o))
        × (lookup i.download_id observations ≡ some o)
        × (is_defer (decision digest c o).kind ≡ false)
        × ((ltb_ℤ (elapsed_of (decision digest c o) i) (wait_of c (decision digest c o)) ≡ false)
            ⊎ (v ≡ true))

    abbrev pub AreSound : ℕ → List Planned → Type 0
    AreSound used plans =
        AreDisjoint (decisions plans) × IsAllowed c used (decisions plans) × All IsFounded plans

    plannable-AreSound :
        (i : Issue) (r r' : Round)
        → Q i
        → overrides r.run ≡ v
        → AreSound (budget now r.store) r.plans
        → IsPlannable digest c show cancelled now observations i r r'
        → AreSound (budget now r.store) r'.plans
    plannable-AreSound i r r' q same (apart, allowed, founded) (o, e, more, chosen, quiet, ready) =
        let d = decision digest c o in
        let (acts, waited, opened, room) = ready in
        let (scan, hour, far) = plan_gate-IsApart c d (decisions r.plans) now r.store room in
        let p = planned digest c show cancelled now observations i d in
        let all = decisions-append r.plans p in
        let longer : length (decisions r.plans ++ d ∷ []) ≡ length (decisions r.plans) + 1 =
          length-append (decisions r.plans) (d ∷ []) in
        let count = length (decisions r.plans ++ d ∷ []) in
        let fits : IsAllowed c (budget now r.store) (decisions r.plans ++ d ∷ []) = inr (
          omega (arith, longer, scan),
          omega (
            arith,
            longer,
            hour,
            +ℤ_parts (pos count) (pos (budget now r.store)),
            +ℤ_parts (pos (length (decisions r.plans))) (pos (budget now r.store)),
          ),
        ) in
        let due : (ltb_ℤ (elapsed_of d i) (wait_of c d) ≡ false) ⊎ (v ≡ true) = elim waited [
          | inl past ↦ inl past
          | inr override ↦ inr (sym same ∙ override)
        ] in
        subst (AreSound (budget now r.store)) (sym more) (
          subst AreDisjoint (sym all) (AreDisjoint-append (decisions r.plans) d apart far),
          subst (IsAllowed c (budget now r.store)) (sym all) fits,
          All-append IsFounded r.plans (p ∷ []) founded ((i, o, q, refl, e, acts, due), tt),
        )

    candidates-AreSound :
        (r : Round) (is : List Issue)
        → All Q is
        → overrides r.run ≡ v
        → AreSound (budget now r.store) r.plans
        → AreSound
            (budget now r.store)
            (plan_candidates digest c show cancelled now observations r is).plans
    unfolding plan_candidates
    candidates-AreSound r [] q same h = h
    candidates-AreSound r (i ∷ rest) q same h =
        let r' = plan_candidate digest c show cancelled now observations r i in
        let (b, o, step) = plan_candidate-Advances digest c show cancelled now observations i r in
        let h' : AreSound (budget now r.store) r'.plans = elim step [
          | inl kept ↦ subst (AreSound (budget now r.store)) (sym kept) h
          | inr grown ↦ plannable-AreSound i r r' q.0 same h grown
        ] in
        subst
          (λ used.
            AreSound used (plan_candidates digest c show cancelled now observations r' rest).plans)
          b.0
          (candidates-AreSound r' rest q.1 (o ∙ same)
            (subst (λ used. AreSound used r'.plans) (sym b.0) h'))

    -- From no plans, the plans of a cycle have no episode in common with each other, are within the allowance of
    -- the cycle and, with the mutations of the last hour, within that of the hour; each is the decision on what
    -- was observed of its candidate, is no deferral, and has waited, if the request does not override that.
    pub plan_candidates-AreSound :
        (s : Data) (run : Run) (is : List Issue)
        → overrides run ≡ v
        → All Q is
        → AreSound
            (budget now s)
            (plan_candidates digest c show cancelled now observations
              (record { store = s; run = run; plans = [] })
              is).plans
    plan_candidates-AreSound s run is same q =
        candidates-AreSound (record { store = s; run = run; plans = [] }) is q same
          (tt, inl refl, tt)

  -- The wait of the plan has passed since the issue became eligible.
  abbrev pub HasWaited : Planned → Type 0
  HasWaited p =
      (i : Issue) × (p.download_id ≡ i.download_id)
      × ((wait_of c p.decision +ℤ i.eligible_since) ≤ℤ now)
