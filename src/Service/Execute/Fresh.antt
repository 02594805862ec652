-- ===== src/Service/Execute/Fresh.antt =====
-- What is sent has been decided afresh.
use sonarr_remediator.Base.{
  ℤ, pos, Time, ◌≡◌, inl, inr, Bool, true, false, ◌||◌, not, ◌!=◌, string_eq, string_beq_iff,
  Option, none, some, List, Dict, arith, Bool-cases, Option-cases, Result, ok, Result-cases,
}
use sonarr_remediator.Sonarr.{QueueRow}
use sonarr_remediator.Config.{Config}
use sonarr_remediator.Control.{Request}
use sonarr_remediator.Control.Report.{Report}
use sonarr_remediator.Policy.Observation.{Observation, Decision, eligible, same_kind}
use sonarr_remediator.Policy.Fingerprint.{Digest, queue_identity}
use sonarr_remediator.State.{Issue, Data}
use sonarr_remediator.Service.Gate.{gate}
use sonarr_remediator.Service.Attempts.{reserve}
use sonarr_remediator.Service.Client.{Client}
use sonarr_remediator.Service.Observe.{observe, decision}
use sonarr_remediator.Service.Execute.{
  Mutation, mutation, files_before, overrides, execute_decision, execute_observed, execute, group,
}

module _ (digest : Digest) (c : Config) (client : Client) (submit : Mutation → Result ℤ)
    (manual : Option (Request × Report)) (cancelled : Bool) (now : Time) where
  execute_decision-sent :
      (s : Data) (i : Issue) (rows : List QueueRow) (d : Decision) (files : Dict ℤ ℤ) (m : Mutation)
      → (execute_decision digest c client submit manual cancelled now s i rows d files).sent
        ≡ some m
      → (gate c (overrides manual) i.download_id d now (pos 0) s ≡ none)
        × (cancelled ≡ false)
        × (m ≡ mutation d rows)
  unfolding execute_decision
  execute_decision-sent s i rows d files m h =
      elim (Option-cases (gate c (overrides manual) i.download_id d now (pos 0) s)) [
        | inr (why, g) ↦ absurd (ground arith)
        | inl g ↦ elim (Result-cases (reserve manual s i.download_id i.title d now files)) [
          | inr (e, r) ↦ absurd (ground arith)
          | inl (t, r) ↦ (g, ground arith, ground arith)
        ]
      ]

  -- What is sent is what a fresh decision asks for.
  abbrev pub Fresh : Data → Issue → Decision → Mutation → Type 0
  Fresh s i planned m =
      (queue : List QueueRow) × (o : Observation) × (client.queue ≡ ok queue)
      × (observe client i.download_id (group i.download_id queue) queue ≡ ok o)
      × (eligible (group i.download_id queue) ≡ true)
      × (queue_identity digest (group i.download_id queue) ≡ i.identity)
      × (same_kind (decision digest c o).kind planned.kind ≡ true)
      × ((decision digest c o).fingerprint ≡ planned.fingerprint)
      × (gate c (overrides manual) i.download_id (decision digest c o) now (pos 0) s ≡ none)
      × (cancelled ≡ false)
      × (m ≡ mutation (decision digest c o) (group i.download_id queue))

  execute_observed-Fresh :
      (s : Data) (i : Issue) (planned : Decision) (queue : List QueueRow) (o : Observation)
      (m : Mutation)
      → client.queue ≡ ok queue
      → observe client i.download_id (group i.download_id queue) queue ≡ ok o
      → eligible (group i.download_id queue) ≡ true
      → queue_identity digest (group i.download_id queue) ≡ i.identity
      → (execute_observed digest c client submit manual cancelled now s i planned
          (group i.download_id queue)
          o).sent
        ≡ some m
      → Fresh s i planned m
  unfolding execute_observed
  execute_observed-Fresh s i planned queue o m q ob el same h =
      let d = decision digest c o in
      elim (Bool-cases
        (not (same_kind d.kind planned.kind) || d.fingerprint != planned.fingerprint)) [
          | inl y ↦ absurd (ground arith)
          | inr n ↦
              let (g, live, e) =
                execute_decision-sent s i (group i.download_id queue) d (files_before o.episodes) m
                  (ground arith) in
              (
                queue,
                o,
                q,
                ob,
                el,
                same,
                ground arith,
                (string_beq_iff d.fingerprint planned.fingerprint).0 (ground arith),
                g,
                live,
                e,
              )
        ]

  -- Whatever is sent is what the decision on a fresh observation asks for: the rows of the download in a
  -- fresh queue are eligible and have the identity of the issue, the decision has the kind and the
  -- fingerprint of the planned one, the gate is open for it, and the run is not cancelled.
  pub execute-Fresh :
      (s : Data) (i : Issue) (planned : Decision) (m : Mutation)
      → (execute digest c client submit manual cancelled now s i planned).sent ≡ some m
      → Fresh s i planned m
  unfolding execute
  execute-Fresh s i planned m h = elim (Result-cases client.queue) [
    | inr (e, q) ↦ absurd (ground arith)
    | inl (queue, q) ↦
        let rows = group i.download_id queue in
        elim (Bool-cases (not (eligible rows) || queue_identity digest rows != i.identity)) [
          | inl y ↦ absurd (ground arith)
          | inr n ↦ elim (Result-cases (observe client i.download_id rows queue)) [
            | inr (e, ob) ↦ absurd (ground arith)
            | inl (o, ob) ↦
                execute_observed-Fresh s i planned queue o m q ob (ground arith)
                  ((string_beq_iff (queue_identity digest rows) i.identity).0 (ground arith))
                  (ground arith)
          ]
        ]
  ]
