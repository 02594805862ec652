-- ===== src/Service/Perform/Warranted.antt =====
-- Why a submission is sent while the plans are carried out.
use sonarr_remediator.Base.{
  ◌≡◌, refl, ap, subst, inl, inr, arith, Bool-cases, Option-cases, ◌||◌, ◌!=◌, string_eq,
  string_beq_iff, List, [], ◌∷◌, ◌++◌, none, some, is_none, lookup, All, All-map, All-append, false,
  true,
}
use sonarr_remediator.Config.{Config}
use sonarr_remediator.Policy.Fingerprint.{Digest}
use sonarr_remediator.State.{Issue, Operation, Data}
use sonarr_remediator.Service.Execute.{execute}
use sonarr_remediator.Service.Execute.Fresh.{Fresh, execute-Fresh}
use sonarr_remediator.Service.Search.{search_step}
use sonarr_remediator.Service.Search.Justified.{IsJustified, search_step-IsJustified}
use sonarr_remediator.Service.Manual.{Run}
use sonarr_remediator.Service.Plan.{Planned}
use sonarr_remediator.Service.Perform.{
  World, Submission, mutated, searched, act, report_effects, perform_plan, perform_plans,
}

module _ (digest : Digest) (c : Config) where
  -- What a submission for a plan rests on, in the store and the run that the plan meets.
  abbrev pub Warrants : World → Planned → Data → Run → Submission → Type 0
  Warrants w p s run (mutated m) =
      (i : Issue) × (p.operation ≡ none)
      × (lookup p.download_id s.issues ≡ some i)
      × Fresh digest c w.client w.submit run w.cancelled w.now s i p.decision m
  Warrants w p s run (searched ids) =
      (op : Operation) × (p.operation ≡ some op)
      × IsJustified c w.client run w.cancelled w.now s op ids

  -- The plan is carried out before the deadline, after no failed read.
  abbrev pub IsDue : World → Planned → Data → Run → Submission → Type 0
  IsDue w p s run x = (w.cancelled ≡ false) × (s.status.read_failure ≡ "") × Warrants w p s run x

  -- One of the plans is due for the submission, after those before it have been carried out.
  abbrev pub IsWarranted : Data → Run → List (Planned × World) → Submission → Type 0
  IsWarranted s run plans x =
      (earlier : List (Planned × World)) × (later : List (Planned × World)) × (p : Planned)
      × (w : World) × (plans ≡ earlier ++ (p, w) ∷ later)
      × IsDue w p (perform_plans digest c s run earlier).store
          (perform_plans digest c s run earlier).run x

  act-Warrants :
      (w : World) (p : Planned) (s : Data) (run : Run)
      → All (Warrants w p s run) (act digest c w p s run).sent
  unfolding act
  act-Warrants w p s run = elim (Option-cases p.operation) [
    | inr (op, e) ↦
        let done = search_step c w.client w.submit_search run w.cancelled w.now w.later s op in
        elim (Option-cases done.sent) [
          | inl n ↦ rw (e, act, n) tt
          | inr (ids, y) ↦
              let why =
                search_step-IsJustified c w.client w.submit_search run w.cancelled w.now w.later s
                  op ids y in
              let path : searched ids ∷ [] ≡ (act digest c w p s run).sent = rw (e, act, y) refl in
              subst (All (Warrants w p s run)) path ((op, e, why), tt)
        ]
    | inl e ↦ elim (Option-cases (lookup p.download_id s.issues)) [
      | inl n ↦ rw (e, n, act) tt
      | inr (i, k) ↦
          let done = execute digest c w.client w.submit run w.cancelled w.now s i p.decision in
          elim (Option-cases done.sent) [
            | inl n ↦ rw (e, k, act, n) tt
            | inr (m, y) ↦
                let why =
                  execute-Fresh digest c w.client w.submit run w.cancelled w.now s i p.decision m
                    y in
                let path : mutated m ∷ [] ≡ (act digest c w p s run).sent =
                  rw (e, k, act, y) refl in
                subst (All (Warrants w p s run)) path ((i, e, k, why), tt)
          ]
    ]
  ]

  perform_plan-IsDue :
      (w : World) (p : Planned) (s : Data) (run : Run)
      → All (IsDue w p s run) (perform_plan digest c w p s run).sent
  unfolding perform_plan report_effects
  perform_plan-IsDue w p s run = elim (Bool-cases (w.cancelled || s.status.read_failure != "")) [
    | inl y ↦ rw (y, perform_plan) tt
    | inr n ↦
        let path : (act digest c w p s run).sent ≡ (perform_plan digest c w p s run).sent =
          rw (n, perform_plan) refl in
        subst (All (IsDue w p s run)) path (
          All-map (Warrants w p s run) (IsDue w p s run) (act digest c w p s run).sent
            (λ x why.
              (ground arith, (string_beq_iff s.status.read_failure "").0 (ground arith), why))
            (act-Warrants w p s run))
  ]

  module _ (s : Data) (run : Run) (p : Planned) (w : World) (rest : List (Planned × World)) where
    first-IsWarranted : (x : Submission) → IsDue w p s run x → IsWarranted s run ((p, w) ∷ rest) x
    unfolding perform_plans
    first-IsWarranted x due = ([], rest, p, w, refl, due)

    later-IsWarranted :
        is_none (perform_plan digest c w p s run).error ≡ true
        → (x : Submission)
        → IsWarranted
            (perform_plan digest c w p s run).store
            (perform_plan digest c w p s run).run
            rest
            x
        → IsWarranted s run ((p, w) ∷ rest) x
    unfolding perform_plans
    later-IsWarranted fine x (earlier, later, q, v, e, due) =
        let step = perform_plan digest c w p s run in
        let before = perform_plans digest c step.store step.run earlier in
        let after = perform_plans digest c s run ((p, w) ∷ earlier) in
        let store : before.store ≡ after.store = rw (fine, perform_plans) refl in
        let ran : before.run ≡ after.run = rw (fine, perform_plans) refl in
        (
          (p, w) ∷ earlier,
          later,
          q,
          v,
          ap (λ xs. (p, w) ∷ xs) e,
          subst (λ (t : Data). IsDue v q t after.run x) store
              (subst (λ (r : Run). IsDue v q before.store r x) ran due),
        )

  -- Every submission that is sent while the plans are carried out is sent for one of them, in the store that
  -- carrying out the plans before it leaves, when no deadline has passed and no read has failed. A mutation is
  -- what the decision on a fresh and unchanged observation of the issue asks for, and the plan has no operation;
  -- a search is for the operation of the plan and rests on everything that a search needs.
  pub perform_plans-IsWarranted :
      (s : Data) (run : Run) (plans : List (Planned × World))
      → All (IsWarranted s run plans) (perform_plans digest c s run plans).sent
  unfolding perform_plans
  perform_plans-IsWarranted s run [] = tt
  perform_plans-IsWarranted s run ((p, w) ∷ rest) =
      let step = perform_plan digest c w p s run in
      let own =
        All-map (IsDue w p s run) (IsWarranted s run ((p, w) ∷ rest)) step.sent
          (first-IsWarranted s run p w rest) (perform_plan-IsDue w p s run) in
      let others = perform_plans-IsWarranted step.store step.run rest in
      let after = perform_plans digest c step.store step.run rest in
      elim (Bool-cases (is_none step.error)) [
        | inr n ↦ rw (n, perform_plans) own
        | inl y ↦
            let path : step.sent ++ after.sent
                ≡ (perform_plans digest c s run ((p, w) ∷ rest)).sent =
              rw (y, perform_plans) refl in
            subst (All (IsWarranted s run ((p, w) ∷ rest))) path (
              All-append (IsWarranted s run ((p, w) ∷ rest)) step.sent after.sent own (
                All-map (IsWarranted step.store step.run rest) (IsWarranted s run ((p, w) ∷ rest))
                  after.sent (later-IsWarranted s run p w rest y) others))
      ]
