-- ===== src/Service/Cycle/Kept.antt =====
-- internal/service/service.go, the planning loops of `Cycle`: what they keep of a round.
use sonarr_remediator.Base.{
  ℤ, pos, ◌≤ℤ◌, max_ℤ, ltb_ℤ, ℕ, suc, ◌+◌, Time, Duration, ◌≡◌, sym, ◌∙◌, ap, subst, inl, inr,
  arith, Bool, ◌&&◌, ◌||◌, not, string_eq, String, none, Option-cases, Bool-cases, List, [], ◌∷◌,
  ◌++◌, length, length-append, Dict, is_none,
}
use sonarr_remediator.Config.{Config}
use sonarr_remediator.Policy.Observation.{Observation, Decision}
use sonarr_remediator.Policy.Fingerprint.{Digest}
use sonarr_remediator.State.{Issue, Operation, Data}
use sonarr_remediator.Service.Gate.{plan_gate}
use sonarr_remediator.Service.Gate.Planning.{plan_gate-IsApart}
use sonarr_remediator.Service.Lifecycle.Exclusive.{Exclusive}
use sonarr_remediator.Service.Search.{
  Sought, refused, failed_read, missing_issue, found, search_decision,
}
use sonarr_remediator.Service.Manual.{is_pending_search, selected}
use sonarr_remediator.Service.Plan.{
  Planned, Round, Look, decisions, plan_candidate, plan_candidates, plan_search, plan_operations,
}
use sonarr_remediator.Service.Plan.Rounds.{plan_candidate-Advances}
use sonarr_remediator.Service.Plan.Sound.{decisions-append}

le-max_ℤ : (b : ℤ) → b ≤ℤ max_ℤ (pos 0) b
le-max_ℤ b = elim (Bool-cases (ltb_ℤ (pos 0) b)) [
  | inl y ↦ rw y (omega arith)
  | inr n ↦ rw n (ground arith)
]

pub zero-le-max_ℤ : (b : ℤ) → pos 0 ≤ℤ max_ℤ (pos 0) b
zero-le-max_ℤ b = ground arith

-- The plans fit the allowance of the cycle.
abbrev pub IsSmall : Config → List Planned → Type 0
IsSmall c plans = pos (length (decisions plans)) ≤ℤ max_ℤ (pos 0) c.limits.mutations_per_scan

joined-IsSmall :
    (c : Config) (d : Decision) (now : Time) (s : Data) (plans : List Planned) (p : Planned)
    → plan_gate c d (decisions plans) now s ≡ none
    → IsSmall c (plans ++ p ∷ [])
joined-IsSmall c d now s plans p h =
    let room = (plan_gate-IsApart c d (decisions plans) now s h).0 in
    let more : length (decisions (plans ++ p ∷ [])) ≡ length (decisions plans) + 1 =
      ap length (decisions-append plans p) ∙ length-append (decisions plans) (p.decision ∷ []) in
    omega (arith, room, more, le-max_ℤ c.limits.mutations_per_scan)

-- The plans are few, and the pending attempts stay apart.
abbrev IsKept : Config → Round → Round → Type 0
IsKept c r r' =
    (IsSmall c r.plans → IsSmall c r'.plans)
    × (Exclusive (r.store).attempts → Exclusive (r'.store).attempts)

module _ (digest : Digest) (c : Config) (show : Duration → String) (cancelled : String → Bool)
    (now : Time) (observations : Dict String Observation) where
  plan_candidate-IsKept :
      (r : Round) (i : Issue)
      → IsKept c r (plan_candidate digest c show cancelled now observations r i)
  plan_candidate-IsKept r i =
      let (follows, o, step) =
        plan_candidate-Advances digest c show cancelled now observations i r in
      (
        λ small. elim step [
          | inl same ↦ subst (IsSmall c) (sym same) small
          | inr (seen, e, more, chosen, quiet, ready) ↦
              subst (IsSmall c) (sym more) (joined-IsSmall c _ now r.store r.plans _ ready.3)
        ],
        follows.1,
      )

  pub plan_candidates-IsKept :
      (r : Round) (is : List Issue)
      → IsKept c r (plan_candidates digest c show cancelled now observations r is)
  unfolding plan_candidates
  plan_candidates-IsKept r [] = (λ small. small, λ apart. apart)
  plan_candidates-IsKept r (i ∷ rest) =
      let one = plan_candidate-IsKept r i in
      let others =
        plan_candidates-IsKept (plan_candidate digest c show cancelled now observations r i) rest in
      (λ small. others.0 (one.0 small), λ apart. others.1 (one.1 apart))

module _ (c : Config) (now : Time) where
  plan_search-IsKept :
      (id : String) (op : Operation) (w : Sought) (r : Round)
      → IsKept c r (plan_search c now id op w r).round
  unfolding plan_search
  plan_search-IsKept id op (missing_issue e) r = (λ small. small, λ apart. apart)
  plan_search-IsKept id op (failed_read e) r = (λ small. small, λ apart. apart)
  plan_search-IsKept id op (refused left) r = (λ small. small, λ apart. apart)
  plan_search-IsKept id op (found d) r =
      elim (Option-cases (plan_gate c d (decisions r.plans) now r.store)) [
        | inr (why, g) ↦ rw (g, plan_search) (λ small. small, λ apart. apart)
        | inl g ↦
            rw (g, plan_search)
              (λ small. joined-IsSmall c d now r.store r.plans _ g, λ apart. apart)
      ]

  pub plan_operations-IsKept :
      (looks : ℕ → Look) (n : ℕ) (r : Round) (ops : List (String × Operation))
      → IsKept c r (plan_operations c now looks n r ops).round
  unfolding plan_operations
  plan_operations-IsKept looks n r [] = (λ small. small, λ apart. apart)
  plan_operations-IsKept looks n r ((id, op) ∷ rest) =
      elim (Bool-cases (
        not (is_pending_search op.continuation)
        || not (selected r.run id)
        || (is_none r.run && c.dry_run))) [
          | inl y ↦ rw (y, plan_operations) (plan_operations-IsKept looks (suc n) r rest)
          | inr m ↦
              let look = looks n in
              let sought = search_decision c look.client r.run look.cancelled look.now r.store op in
              let step = plan_search c now id op sought r in
              let one = plan_search-IsKept id op sought r in
              let others = plan_operations-IsKept looks (suc n) step.round rest in
              elim (Bool-cases (is_none step.error)) [
                | inl y ↦
                    rw (m, y, plan_operations)
                      (λ small. others.0 (one.0 small), λ apart. others.1 (one.1 apart))
                | inr e ↦ rw (m, e, plan_operations) one
              ]
        ]
