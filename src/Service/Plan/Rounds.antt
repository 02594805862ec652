-- ===== src/Service/Plan/Rounds.antt =====
-- What one candidate adds to the plans.
use sonarr_remediator.Base.{
  pos, Time, Duration, ltb_ℤ, ◌≡◌, refl, ◌∙◌, ap, subst, ◌⊎◌, inl, inr, arith, String, Bool, true,
  false, ◌&&◌, ◌||◌, not, ◌!=◌, string_eq, none, some, Option-cases, Bool-cases, List, [], ◌∷◌,
  ◌++◌, Dict, lookup, is_none, any, keep, length,
}
use sonarr_remediator.Config.{Config}
use sonarr_remediator.Control.Report.{Item}
use sonarr_remediator.Policy.Observation.{Observation, Decision}
use sonarr_remediator.Policy.Fingerprint.{Digest}
use sonarr_remediator.State.{recoverable, Issue, Attempt, Data}
use sonarr_remediator.State.Retention.{spends, budget}
use sonarr_remediator.Service.Gate.{gate, plan_gate}
use sonarr_remediator.Service.Attempts.{
  has_pending, recommend, recommended_before, recommended_attempt,
}
use sonarr_remediator.Service.Observe.{decision, is_defer}
use sonarr_remediator.Service.Execute.{overrides}
use sonarr_remediator.Service.Manual.{
  Run, selected, not_present, item_blocked, update_run, wait_of, elapsed_of, describe,
}
use sonarr_remediator.Service.Lifecycle.{here, next, recommends}
use sonarr_remediator.Service.Lifecycle.Exclusive.{Exclusive, Reach-Exclusive}
use sonarr_remediator.Service.Plan.{
  Planned, Round, decisions, decide_issue, set_round, plan_submission, plan_gated, plan_decided,
  plan_pending, plan_candidate,
}

keep-snoc :
    (p : Attempt → Bool) (xs : List Attempt) (a : Attempt)
    → p a ≡ false
    → keep p (xs ++ a ∷ []) ≡ keep p xs
keep-snoc p [] a h = rw h refl
keep-snoc p (x ∷ xs) a h = ground (arith, keep-snoc p xs a h)

not-spends :
    (s : Data) (id : String) (d : Decision) (now : Time)
    → spends now (recommended_attempt s id d now) ≡ false
unfolding recommended_attempt
not-spends s id d now = refl

budget-recommend :
    (s : Data) (id : String) (d : Decision) (now : Time)
    → budget now (recommend s id d now) ≡ budget now s
unfolding budget recommend
budget-recommend s id d now = elim (Bool-cases (any (recommended_before id d) s.attempts)) [
  | inl y ↦ rw (y, recommend) refl
  | inr n ↦
      rw (n, recommend)
        (ap length (
          keep-snoc (spends now) s.attempts (recommended_attempt s id d now)
            (not-spends s id d now)))
]

Exclusive-recommend :
    (c : Config) (s : Data) (id : String) (d : Decision) (now : Time)
    → Exclusive s.attempts
    → Exclusive (recommend s id d now).attempts
Exclusive-recommend c s id d now =
    Reach-Exclusive {c = c} {s = s} {t = recommend s id d now} (next here (recommends id d now))

overrides-update_run :
    (id : String) (f : Item → Item) (run : Run) → overrides (update_run id f run) ≡ overrides run
unfolding update_run
overrides-update_run id f none = refl
overrides-update_run id f (some (request, report)) = refl

is_none-update_run :
    (id : String) (f : Item → Item) (run : Run) → is_none (update_run id f run) ≡ is_none run
unfolding update_run
is_none-update_run id f none = refl
is_none-update_run id f (some (request, report)) = refl

waited_or : (a b : Bool) → (a && not b) ≡ false → (a ≡ false) ⊎ (b ≡ true)
waited_or false b h = inl refl
waited_or true true h = inr refl
waited_or true false h = absurd (ground arith)

module _ (digest : Digest) (c : Config) (show : Duration → String) (cancelled : String → Bool)
    (now : Time) (observations : Dict String Observation) where
  -- The budget stays, and no two pending attempts come to share a download or an episode.
  abbrev pub Follows : Data → Data → Type 0
  Follows s t = (budget now t ≡ budget now s) × (Exclusive s.attempts → Exclusive t.attempts)

  -- The plan of a candidate.
  abbrev pub planned : Issue → Decision → Planned
  planned i d = record { download_id = i.download_id; decision = d; operation = none }

  -- The plans stay, or the candidate joins them under the condition; the budget and the override stay.
  abbrev pub Adds : Type 0 → Issue → Decision → Round → Round → Type 0
  Adds P i d r r' =
      Follows r.store r'.store
      × (overrides r'.run ≡ overrides r.run)
      × ((r'.plans ≡ r.plans) ⊎ ((r'.plans ≡ r.plans ++ planned i d ∷ []) × P))

  plan_submission-Adds :
      (i : Issue) (d : Decision) (r : Round)
      → Adds
          (plan_gate c d (decisions r.plans) now r.store ≡ none)
          i
          d
          r
          (plan_submission digest c show cancelled now observations i d r)
  unfolding plan_submission item_blocked
  plan_submission-Adds i d r =
      elim (Bool-cases ((r.store).status.read_failure != "" || cancelled i.download_id)) [
        | inl y ↦
            rw (y, plan_submission)
              ((refl, λ h. h), overrides-update_run i.download_id _ r.run, inl refl)
        | inr n ↦ elim (Option-cases (plan_gate c d (decisions r.plans) now r.store)) [
          | inr (why, g) ↦
              rw (n, g, plan_submission)
                ((refl, λ h. h), overrides-update_run i.download_id _ r.run, inl refl)
          | inl g ↦
              rw (n, g, plan_submission)
                ((refl, λ h. h), overrides-update_run i.download_id _ r.run, inr (refl, refl))
        ]
      ]

  -- What the gate and the plans so far allow.
  abbrev pub IsGated : Issue → Decision → Round → Type 0
  IsGated i d r =
      (gate c (overrides r.run) i.download_id d now (pos 0) r.store ≡ none)
      × (plan_gate c d (decisions r.plans) now r.store ≡ none)

  plan_gated-Adds :
      (i : Issue) (d : Decision) (r : Round)
      → Adds (IsGated i d r) i d r (plan_gated digest c show cancelled now observations i d r)
  unfolding plan_gated item_blocked budget plan_gate
  plan_gated-Adds i d r =
      elim (Option-cases (gate c (overrides r.run) i.download_id d now (pos 0) r.store)) [
        | inr (why, g) ↦
            rw (g, plan_gated)
              ((refl, λ h. h), overrides-update_run i.download_id _ r.run, inl refl)
        | inl g ↦ elim (Bool-cases (is_none r.run && c.dry_run)) [
          | inl y ↦
              rw (g, y, plan_gated)
                (
                  (
                    budget-recommend _ i.download_id d now,
                    Exclusive-recommend c _ i.download_id d now,
                  ),
                  refl,
                  inl refl,
                )
          | inr n ↦
              let (b, o, plans) =
                plan_submission-Adds i d (set_round i.download_id recoverable d.reason r) in
              let path : plan_submission digest c show cancelled now observations i d
                    (set_round i.download_id recoverable d.reason r)
                  ≡ plan_gated digest c show cancelled now observations i d r =
                rw (g, n, plan_gated) refl in
              subst (Adds (IsGated i d r) i d r) path (
                b,
                o,
                elim plans [ inl same ↦ inl same | inr (more, opened) ↦ inr (more, (g, opened)) ],
              )
        ]
      ]

  plan_pending-Kept :
      (i : Issue) (r : Round)
      → Follows r.store (plan_pending digest c show cancelled now observations i r).store
        × (overrides (plan_pending digest c show cancelled now observations i r).run
            ≡ overrides r.run)
        × ((plan_pending digest c show cancelled now observations i r).plans ≡ r.plans)
  unfolding plan_pending item_blocked budget
  plan_pending-Kept i r = ((refl, λ h. h), overrides-update_run i.download_id _ r.run, refl)

  -- What a plan rests on, with the override `v`.
  abbrev pub IsReadyFor : Bool → Issue → Decision → Round → Type 0
  IsReadyFor v i d r =
      (is_defer d.kind ≡ false)
      × ((ltb_ℤ (elapsed_of d i) (wait_of c d) ≡ false) ⊎ (v ≡ true))
      × (gate c v i.download_id d now (pos 0) r.store ≡ none)
      × (plan_gate c d (decisions r.plans) now r.store ≡ none)

  plan_decided-Adds :
      (i : Issue) (o : Observation) (d : Decision) (r : Round)
      → Adds
          (IsReadyFor (overrides r.run) i d r)
          i
          d
          r
          (plan_decided digest c show cancelled now observations i o d r)
  unfolding plan_decided item_blocked budget plan_gate gate
  plan_decided-Adds i o d r = elim (Bool-cases (is_defer d.kind)) [
    | inl y ↦
        rw (y, plan_decided) ((refl, λ h. h), overrides-update_run i.download_id _ r.run, inl refl)
    | inr acts ↦ elim (Bool-cases (ltb_ℤ (elapsed_of d i) (wait_of c d) && not (overrides r.run))) [
      | inl y ↦
          rw (acts, y, plan_decided)
            ((refl, λ h. h), overrides-update_run i.download_id _ r.run, inl refl)
      | inr n ↦
          let decided : Round = record r {
            store = record (r.store) { issues = decide_issue i.download_id d (r.store).issues };
          } in
          let (b, v, plans) = plan_gated-Adds i d decided in
          let due = waited_or (ltb_ℤ (elapsed_of d i) (wait_of c d)) (overrides r.run) n in
          let path : plan_gated digest c show cancelled now observations i d decided
              ≡ plan_decided digest c show cancelled now observations i o d r =
            rw (acts, n, plan_decided) refl in
          subst (Adds (IsReadyFor (overrides r.run) i d r) i d r) path (
            b,
            v,
            elim plans [
              | inl same ↦ inl same
              | inr (more, opened) ↦ inr (more, (acts, due, opened.0, opened.1))
            ],
          )
    ]
  ]

  abbrev pub IsPlannable : Issue → Round → Round → Type 0
  IsPlannable i r r' =
      (o : Observation) × (lookup i.download_id observations ≡ some o)
      × (r'.plans ≡ r.plans ++ planned i (decision digest c o) ∷ [])
      × (selected r.run i.download_id ≡ true)
      × (has_pending i.download_id r.store ≡ false)
      × IsReadyFor (overrides r.run) i (decision digest c o) r

  -- What one candidate does.
  abbrev pub Advances : Issue → Round → Round → Type 0
  Advances i r r' =
      Follows r.store r'.store
      × (overrides r'.run ≡ overrides r.run)
      × ((r'.plans ≡ r.plans) ⊎ IsPlannable i r r')

  plan_observed-Advances :
      (i : Issue) (o : Observation) (r : Round)
      → lookup i.download_id observations ≡ some o
      → selected r.run i.download_id ≡ true
      → has_pending i.download_id r.store ≡ false
      → Advances i r (
          plan_decided digest c show cancelled now observations i o
            (decision digest c o)
            (record r { run = describe c i o (decision digest c o) r.run }))
  unfolding describe
  plan_observed-Advances i o r e chosen quiet =
      let d = decision digest c o in
      let described : Round = record r { run = describe c i o d r.run } in
      let same : overrides described.run ≡ overrides r.run =
        overrides-update_run i.download_id _ r.run in
      let (b, v, plans) = plan_decided-Adds i o d described in
      (
        b,
        v ∙ same,
        elim plans [
          | inl kept ↦ inl kept
          | inr (more, ready) ↦
              inr (o, e, more, chosen, quiet, subst (λ w. IsReadyFor w i d r) same ready)
        ],
      )

  pub plan_candidate-Advances :
      (i : Issue) (r : Round)
      → Advances i r (plan_candidate digest c show cancelled now observations r i)
  unfolding plan_candidate describe
  plan_candidate-Advances i r =
      elim (Bool-cases (not (selected r.run i.download_id) || not_present r.run i.download_id)) [
        | inl y ↦ rw (y, plan_candidate) ((refl, λ h. h), refl, inl refl)
        | inr n ↦ elim (Option-cases (lookup i.download_id observations)) [
          | inl e ↦ elim (Bool-cases (has_pending i.download_id r.store)) [
            | inr q ↦ rw (n, e, q, plan_candidate) ((refl, λ h. h), refl, inl refl)
            | inl p ↦
                let (b, v, same) = plan_pending-Kept i r in
                let path : plan_pending digest c show cancelled now observations i r
                    ≡ plan_candidate digest c show cancelled now observations r i =
                  rw (n, e, p, plan_candidate) refl in
                subst (Advances i r) path (b, v, inl same)
          ]
          | inr (o, e) ↦ elim (Bool-cases (has_pending i.download_id r.store)) [
            | inl p ↦
                let described : Round = record r {
                  run = describe c i o (decision digest c o) r.run;
                } in
                let (b, v, same) = plan_pending-Kept i described in
                let path : plan_pending digest c show cancelled now observations i described
                    ≡ plan_candidate digest c show cancelled now observations r i =
                  rw (n, e, p, plan_candidate) refl in
                subst (Advances i r) path
                  (b, v ∙ overrides-update_run i.download_id _ r.run, inl same)
            | inr q ↦
                let path : plan_decided digest c show cancelled now observations i o
                      (decision digest c o)
                      (record r { run = describe c i o (decision digest c o) r.run })
                    ≡ plan_candidate digest c show cancelled now observations r i =
                  rw (n, e, q, plan_candidate) refl in
                subst (Advances i r) path (plan_observed-Advances i o r e (ground arith) q)
          ]
        ]
      ]
