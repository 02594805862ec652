-- ===== src/Service/Execute/Recorded.antt =====
-- What an execution records of what it sends.
use sonarr_remediator.Base.{
  ℤ, pos, Time, ◌≡◌, refl, ◌∙◌, ap, ◌⊎◌, inl, inr, Bool, ◌||◌, not, ◌!=◌, string_eq, Option, none,
  some, List, [], ◌∷◌, ◌++◌, Dict, Bool-cases, Option-cases, Result, ok, Result-cases,
}
use sonarr_remediator.Sonarr.{QueueRow}
use sonarr_remediator.Config.{Config}
use sonarr_remediator.Control.{Request}
use sonarr_remediator.Control.Report.{Report}
use sonarr_remediator.Policy.Observation.{Observation, Decision, eligible, same_kind}
use sonarr_remediator.Policy.Fingerprint.{Digest, queue_identity}
use sonarr_remediator.State.{intent, Issue, Attempt, Data}
use sonarr_remediator.Service.Gate.{gate}
use sonarr_remediator.Service.Attempts.{reserve, response}
use sonarr_remediator.Service.Attempts.Reserving.{reserve-attempts}
use sonarr_remediator.Service.Client.{Client}
use sonarr_remediator.Service.Observe.{observe, decision}
use sonarr_remediator.Service.Lifecycle.{Reach, here, next, reserves, responds}
use sonarr_remediator.Service.Execute.{
  Executed, Mutation, mutation, files_before, respond_last, overrides, execute_decision,
  execute_observed, execute, read_failed, group,
}

pub respond_last-append :
    (r : Result ℤ) (rest : List Attempt) (a : Attempt)
    → respond_last r (rest ++ a ∷ []) ≡ rest ++ response r a ∷ []
unfolding respond_last
respond_last-append r [] a = refl
respond_last-append r (b ∷ []) a = refl
respond_last-append r (b ∷ c ∷ rest) a = ap (λ xs. b ∷ xs) (respond_last-append r (c ∷ rest) a)

module _ (digest : Digest) (c : Config) (client : Client) (submit : Mutation → Result ℤ)
    (manual : Option (Request × Report)) (cancelled : Bool) (now : Time) where
  -- What an execution records: nothing if nothing is sent, and else one more attempt, reserved as an intent
  -- behind the gate, with the answer to the very mutation that was sent.
  abbrev pub IsRecorded : Data → Issue → Executed → Type 0
  IsRecorded s i done =
      ((done.sent ≡ none) × (done.store.attempts ≡ s.attempts))
      ⊎ ((d : Decision) × (rows : List QueueRow) × (files : Dict ℤ ℤ) × (t : Data) × (a : Attempt)
          × (done.sent ≡ some (mutation d rows))
          × (gate c (overrides manual) i.download_id d now (pos 0) s ≡ none)
          × (reserve manual s i.download_id i.title d now files ≡ ok t)
          × (t.attempts ≡ s.attempts ++ a ∷ [])
          × (a.outcome ≡ intent)
          × (done.store.attempts ≡ s.attempts ++ response (submit (mutation d rows)) a ∷ []))

  execute_decision-IsRecorded :
      (s : Data) (i : Issue) (rows : List QueueRow) (d : Decision) (files : Dict ℤ ℤ)
      → IsRecorded s i
          (execute_decision digest c client submit manual cancelled now s i rows d files)
  unfolding execute_decision
  execute_decision-IsRecorded s i rows d files =
      elim (Option-cases (gate c (overrides manual) i.download_id d now (pos 0) s)) [
        | inr (why, g) ↦ rw (g, execute_decision) (inl (refl, refl))
        | inl g ↦ elim (Bool-cases cancelled) [
          | inl y ↦ rw (g, y, execute_decision) (inl (refl, refl))
          | inr n ↦ elim (Result-cases (reserve manual s i.download_id i.title d now files)) [
            | inr (e, r) ↦ rw (g, n, r, execute_decision) (inl (refl, refl))
            | inl (t, r) ↦
                let (a, fresh, e) =
                  reserve-attempts manual s t i.download_id i.title d now files r in
                let answer = submit (mutation d rows) in
                inr (
                  d,
                  rows,
                  files,
                  t,
                  a,
                  rw (g, n, r, execute_decision) refl,
                  g,
                  r,
                  e,
                  fresh,
                  rw (g, n, r, execute_decision)
                      (ap (respond_last answer) e ∙ respond_last-append answer s.attempts a),
                )
          ]
        ]
      ]

  execute_observed-IsRecorded :
      (s : Data) (i : Issue) (planned : Decision) (rows : List QueueRow) (o : Observation)
      → IsRecorded s i
          (execute_observed digest c client submit manual cancelled now s i planned rows o)
  unfolding execute_observed
  execute_observed-IsRecorded s i planned rows o =
      let d = decision digest c o in
      elim (Bool-cases
        (not (same_kind d.kind planned.kind) || d.fingerprint != planned.fingerprint)) [
          | inl y ↦ rw (y, execute_observed) (inl (refl, refl))
          | inr n ↦
              rw (n, execute_observed)
                (execute_decision-IsRecorded s i rows d (files_before o.episodes))
        ]

  -- An execution that sends nothing leaves the attempts as they are. One that sends a mutation first passes the
  -- gate and reserves an intent for its decision, and leaves the attempts as they were with that one behind them,
  -- in which the answer to that mutation is recorded.
  pub execute-IsRecorded :
      (s : Data) (i : Issue) (planned : Decision)
      → IsRecorded s i (execute digest c client submit manual cancelled now s i planned)
  unfolding execute read_failed
  execute-IsRecorded s i planned = elim (Result-cases client.queue) [
    | inr (e, q) ↦ rw (q, execute) (inl (refl, refl))
    | inl (queue, q) ↦
        let rows = group i.download_id queue in
        elim (Bool-cases (not (eligible rows) || queue_identity digest rows != i.identity)) [
          | inl y ↦ rw (q, y, execute) (inl (refl, refl))
          | inr n ↦ elim (Result-cases (observe client i.download_id rows queue)) [
            | inr (e, ob) ↦ rw (q, n, ob, execute) (inl (refl, refl))
            | inl (o, ob) ↦ rw (q, n, ob, execute) (execute_observed-IsRecorded s i planned rows o)
          ]
        ]
  ]

  -- The steps of the life of an attempt lead to the attempts that an execution leaves.
  pub execute-Reach :
      (s : Data) (i : Issue) (planned : Decision)
      → let done = execute digest c client submit manual cancelled now s i planned in
        (done.store.attempts ≡ s.attempts)
        ⊎ ((u : Data) × Reach c s u × (done.store.attempts ≡ u.attempts))
  execute-Reach s i planned = elim (execute-IsRecorded s i planned) [
    | inl (unsent, same) ↦ inl same
    | inr (d, rows, files, t, a, sent, g, r, e, fresh, same) ↦
        let answer = submit (mutation d rows) in
        inr (
          record t { attempts = s.attempts ++ response answer a ∷ [] },
          next
              (next here (
                reserves (overrides manual) manual i.download_id i.title d now now (pos 0) files t g
                  r))
              (responds s.attempts a answer e fresh),
          same,
        )
  ]
