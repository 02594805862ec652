-- ===== src/Service/Search/Life.antt =====
-- internal/service/verify.go, `search`: how a search moves the attempts of the store.
use sonarr_remediator.Base.{
  ℤ, Time, ◌≡◌, refl, sym, ap, subst, ◌∙◌, ◌⊎◌, inl, inr, Bool, Option, none, some, ok, List, [],
  ◌∷◌, ◌++◌, string_eq, lookup, Result, Result-cases,
}
use sonarr_remediator.Config.{Config}
use sonarr_remediator.Control.{Request}
use sonarr_remediator.Control.Report.{Report}
use sonarr_remediator.Policy.Observation.{Decision}
use sonarr_remediator.State.{intent, Attempt, Operation, Data}
use sonarr_remediator.Service.Gate.{gate}
use sonarr_remediator.Service.Attempts.{reserve, response}
use sonarr_remediator.Service.Attempts.Reserving.{reserve-attempts}
use sonarr_remediator.Service.Client.{Client}
use sonarr_remediator.Service.Execute.{overrides, respond_last}
use sonarr_remediator.Service.Execute.Recorded.{respond_last-append}
use sonarr_remediator.Service.Lifecycle.{Reach, here, next, reserves, responds}
use sonarr_remediator.Service.Search.{
  Sought, Searched, refused, failed_read, missing_issue, found, search_decision, title_of,
  search_after, search_step,
}
use sonarr_remediator.Service.Search.Justified.{
  IsParent, IsSought, IsTargeted, search_decision-IsParent,
}

module _ (c : Config) (client : Client) (submit : List ℤ → Result ℤ)
    (manual : Option (Request × Report)) (cancelled : Bool) (now later : Time) where
  -- What a search records: nothing without a command, and else one more attempt, reserved as an intent behind
  -- the gate, with the answer to the very command that was sent.
  abbrev pub IsRecorded : Data → Operation → Searched → Type 0
  IsRecorded s op done =
      ((done.sent ≡ none) × (done.store.attempts ≡ s.attempts))
      ⊎ ((d : Decision) × (t : Data) × (a : Attempt) × (done.sent ≡ some d.episode_ids)
          × (search_decision c client manual cancelled now s op ≡ found d)
          × (gate c (overrides manual) op.download_id d now op.removal_id s ≡ none)
          × (reserve manual s op.download_id (title_of (lookup op.download_id s.issues)) d later []
              ≡ ok t)
          × (t.attempts ≡ s.attempts ++ a ∷ [])
          × (a.outcome ≡ intent)
          × (done.store.attempts ≡ s.attempts ++ response (submit d.episode_ids) a ∷ []))

  search_after-IsRecorded :
      (s : Data) (op : Operation) (w : Sought)
      → search_decision c client manual cancelled now s op ≡ w
      → IsRecorded s op (search_after c client submit manual cancelled now later s op w)
  unfolding search_after IsParent IsSought IsTargeted
  search_after-IsRecorded s op (refused left) h = inl (refl, refl)
  search_after-IsRecorded s op (failed_read e) h = inl (refl, refl)
  search_after-IsRecorded s op (missing_issue e) h = inl (refl, refl)
  search_after-IsRecorded s op (found d) h =
      let title = title_of (lookup op.download_id s.issues) in
      elim (Result-cases (reserve manual s op.download_id title d later [])) [
        | inr (e, r) ↦ rw (r, search_after) (inl (refl, refl))
        | inl (t, r) ↦
            let answer = submit d.episode_ids in
            let p = search_decision-IsParent c client manual cancelled now s op d h in
            let (targets, e, some_left, missing, apart, opened) = p.7.6 in
            let gated =
              subst
                (λ (x : Decision).
                  gate c (overrides manual) op.download_id x now op.removal_id s ≡ none)
                (sym e) opened in
            let (a, fresh, reserved) =
              reserve-attempts manual s t op.download_id title d later [] r in
            inr (
              d,
              t,
              a,
              rw (r, search_after) refl,
              h,
              gated,
              r,
              reserved,
              fresh,
              rw (r, search_after)
                  (ap (respond_last answer) reserved ∙ respond_last-append answer s.attempts a),
            )
      ]

  -- A search that sends nothing leaves the attempts as they are. One that sends a command first passes the gate
  -- and reserves an intent for its decision, and leaves the attempts as they were with that one behind them, in
  -- which the answer to the command for the episodes of the decision is recorded.
  pub search_step-IsRecorded :
      (s : Data) (op : Operation)
      → IsRecorded s op (search_step c client submit manual cancelled now later s op)
  unfolding search_step
  search_step-IsRecorded s op =
      search_after-IsRecorded s op (search_decision c client manual cancelled now s op) refl

  -- The steps of the life of an attempt lead to the attempts that a search leaves.
  pub search_step-Reach :
      (s : Data) (op : Operation)
      → ((search_step c client submit manual cancelled now later s op).store.attempts ≡ s.attempts)
        ⊎ ((u : Data) × Reach c s u
            × ((search_step c client submit manual cancelled now later s op).store.attempts
                ≡ u.attempts))
  search_step-Reach s op = elim (search_step-IsRecorded s op) [
    | inl (unsent, same) ↦ inl same
    | inr (d, t, a, sent, sought, gated, r, reserved, fresh, same) ↦
        let answer = submit d.episode_ids in
        inr (
          record t { attempts = s.attempts ++ response answer a ∷ [] },
          next
              (next here (
                reserves (overrides manual) manual op.download_id
                  (title_of (lookup op.download_id s.issues)) d now later op.removal_id [] t gated
                  r))
              (responds s.attempts a answer reserved fresh),
          same,
        )
  ]
