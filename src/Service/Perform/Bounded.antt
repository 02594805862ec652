-- ===== src/Service/Perform/Bounded.antt =====
-- What carrying out the plans sends, and what it leaves in the store.
use sonarr_remediator.Base.{
  ◌≤◌, sym, subst, inl, inr, arith, Bool-cases, Option-cases, ◌||◌, ◌!=◌, string_eq, List, [], ◌∷◌,
  length, length-append, is_none, lookup,
}
use sonarr_remediator.Config.{Config}
use sonarr_remediator.Policy.Fingerprint.{Digest}
use sonarr_remediator.State.{Issue, Operation, Data}
use sonarr_remediator.Service.Execute.{execute}
use sonarr_remediator.Service.Execute.Recorded.{execute-Reach}
use sonarr_remediator.Service.Lifecycle.Exclusive.{Exclusive, Reach-Exclusive}
use sonarr_remediator.Service.Search.{search_step}
use sonarr_remediator.Service.Search.Life.{search_step-Reach}
use sonarr_remediator.Service.Manual.{Run}
use sonarr_remediator.Service.Plan.{Planned}
use sonarr_remediator.Service.Perform.{
  World, Performed, mutations, searches, act, report_effects, perform_plan, perform_plans,
}

module _ (digest : Digest) (c : Config) where
  -- At most one submission, and the pending attempts stay apart.
  abbrev pub IsBounded : Data → Performed → Type 0
  IsBounded s done =
      (length done.sent ≤ 1) × (Exclusive s.attempts → Exclusive (done.store).attempts)

  search-IsBounded :
      (w : World) (op : Operation) (s : Data) (run : Run)
      → let done = search_step c w.client w.submit_search run w.cancelled w.now w.later s op in
        (length (searches done.sent) ≤ 1) × (Exclusive s.attempts → Exclusive (done.store).attempts)
  search-IsBounded w op s run =
      let done = search_step c w.client w.submit_search run w.cancelled w.now w.later s op in
      (
        elim (Option-cases done.sent) [
          | inl n ↦ rw n (omega arith)
          | inr (x, y) ↦ rw y (omega arith)
        ],
        λ apart.
            elim (search_step-Reach c w.client w.submit_search run w.cancelled w.now w.later s op) [
              | inl same ↦ subst Exclusive (sym same) apart
              | inr (u, path, same) ↦ subst Exclusive (sym same) (Reach-Exclusive path apart)
            ],
      )

  execute-IsBounded :
      (w : World) (p : Planned) (i : Issue) (s : Data) (run : Run)
      → let done = execute digest c w.client w.submit run w.cancelled w.now s i p.decision in
        (length (mutations done.sent) ≤ 1)
        × (Exclusive s.attempts → Exclusive (done.store).attempts)
  execute-IsBounded w p i s run =
      let done = execute digest c w.client w.submit run w.cancelled w.now s i p.decision in
      (
        elim (Option-cases done.sent) [
          | inl n ↦ rw n (omega arith)
          | inr (x, y) ↦ rw y (omega arith)
        ],
        λ apart.
            elim (execute-Reach digest c w.client w.submit run w.cancelled w.now s i p.decision) [
              | inl same ↦ subst Exclusive (sym same) apart
              | inr (u, path, same) ↦ subst Exclusive (sym same) (Reach-Exclusive path apart)
            ],
      )

  act-IsBounded :
      (w : World) (p : Planned) (s : Data) (run : Run) → IsBounded s (act digest c w p s run)
  unfolding act
  act-IsBounded w p s run = elim (Option-cases p.operation) [
    | inr (op, e) ↦ rw (e, act) (search-IsBounded w op s run)
    | inl e ↦ elim (Option-cases (lookup p.download_id s.issues)) [
      | inl n ↦ rw (e, n, act) (omega arith, λ apart. apart)
      | inr (i, k) ↦ rw (e, k, act) (execute-IsBounded w p i s run)
    ]
  ]

  perform_plan-IsBounded :
      (w : World) (p : Planned) (s : Data) (run : Run)
      → IsBounded s (perform_plan digest c w p s run)
  unfolding perform_plan report_effects
  perform_plan-IsBounded w p s run =
      elim (Bool-cases (w.cancelled || s.status.read_failure != "")) [
        | inl y ↦ rw (y, perform_plan) (omega arith, λ apart. apart)
        | inr n ↦ rw (n, perform_plan) (act-IsBounded w p s run)
      ]

  -- Carrying out the plans sends at most one submission for each plan, and if no two pending attempts of the
  -- store share a download or an episode, then afterwards none do either, however the world answers each plan.
  pub perform_plans-IsBounded :
      (s : Data) (run : Run) (plans : List (Planned × World))
      → (length (perform_plans digest c s run plans).sent ≤ length plans)
        × (Exclusive s.attempts → Exclusive ((perform_plans digest c s run plans).store).attempts)
  unfolding perform_plans
  perform_plans-IsBounded s run [] = (omega arith, λ apart. apart)
  perform_plans-IsBounded s run ((p, w) ∷ rest) =
      let step = perform_plan digest c w p s run in
      let (one, keeps) = perform_plan-IsBounded w p s run in
      let (others, holds) = perform_plans-IsBounded step.store step.run rest in
      elim (Bool-cases (is_none step.error)) [
        | inl y ↦
            rw (y, perform_plans)
              (
                omega (
                  arith,
                  one,
                  others,
                  length-append step.sent (perform_plans digest c step.store step.run rest).sent,
                ),
                λ apart. holds (keeps apart),
              )
        | inr n ↦ rw (n, perform_plans) (omega (arith, one), keeps)
      ]
