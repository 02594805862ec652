-- ===== src/Service/Observe/Scope.antt =====
-- Whichever procedure decides, it acts in scope.
use sonarr_remediator.Base.{
  ◌≡◌, ◌≢◌, refl, ◌⊎◌, inl, inr, true, ◌&&◌, All, arith, Bool-cases, ◌==◌, string_eq,
}
use sonarr_remediator.Config.{Config}
use sonarr_remediator.Policy.Observation.{
  Observation, Decision, defer, remove_blocked, eligible, has_executable_warning, InScope,
  RowInScope,
}
use sonarr_remediator.Policy.Fingerprint.{Digest}
use sonarr_remediator.Policy.Evaluate.{evaluate}
use sonarr_remediator.Policy.Evaluate.Safety.{evaluate-InScope}
use sonarr_remediator.Policy.Rejected.{inspect, settle, rejected_cleanup}
use sonarr_remediator.Policy.Rejected.Collecting.{Walk-cases}
use sonarr_remediator.Policy.Rejected.Safety.{rejected_cleanup-RemovalSafe}
use sonarr_remediator.Service.Observe.{is_defer, decision}

rejected_cleanup-kind :
    (digest : Digest) (c : Config) (o : Observation)
    → ((rejected_cleanup digest c o).0.kind ≡ defer)
      ⊎ ((rejected_cleanup digest c o).0.kind ≡ remove_blocked)
unfolding rejected_cleanup settle
rejected_cleanup-kind digest c o = elim (Walk-cases (inspect c o)) [
  | inr (t, e) ↦ inl (rw (e, rejected_cleanup) refl)
  | inl (a, e) ↦ ground arith
]

-- The decision acts in scope.
abbrev pub ActsInScope : Config → Observation → Decision → Type 0
ActsInScope c o d =
    (eligible o.rows ≡ true)
    × All (RowInScope c o.download_id) o.rows
    × All (InScope c) d.series_ids
    × ((c.recovery.enabled ≡ true) ⊎ (c.cleanup.enabled ≡ true))

rejected_cleanup-ActsInScope :
    (digest : Digest) (c : Config) (o : Observation)
    → (rejected_cleanup digest c o).0.kind ≢ defer
    → ActsInScope c o (rejected_cleanup digest c o).0
rejected_cleanup-ActsInScope digest c o h = elim (rejected_cleanup-kind digest c o) [
  | inl e ↦ absurd (h e)
  | inr e ↦
      let (on, live, rows, files, ids, free, why) = rejected_cleanup-RemovalSafe digest c o e in
      (live, rows, ids, inr on)
]

evaluate-ActsInScope :
    (digest : Digest) (c : Config) (o : Observation)
    → (evaluate digest c o).kind ≢ defer
    → ActsInScope c o (evaluate digest c o)
evaluate-ActsInScope digest c o h =
    let (seen, ids, on) = evaluate-InScope digest c o h in (seen.0, seen.2, ids, on)

-- Every decision of the service but a deferral, of either procedure, is about eligible rows in scope,
-- names only series in scope, and has a permission.
pub decision-ActsInScope :
    (digest : Digest) (c : Config) (o : Observation)
    → (decision digest c o).kind ≢ defer
    → ActsInScope c o (decision digest c o)
unfolding decision
decision-ActsInScope digest c o h = elim (Bool-cases (has_executable_warning o.rows)) [
  | inl w ↦ elim (Bool-cases ((rejected_cleanup digest c o).0.reason == "")) [
    | inl y ↦
        rw (w, y, decision)
          (rejected_cleanup-ActsInScope digest c o (λ e. h (rw (w, y, decision) e)))
    | inr n ↦
        rw (w, n, decision)
          (rejected_cleanup-ActsInScope digest c o (λ e. h (rw (w, n, decision) e)))
  ]
  | inr w ↦
      elim (Bool-cases (is_defer (evaluate digest c o).kind && (rejected_cleanup digest c o).1)) [
        | inl y ↦
            rw (w, y, decision)
              (rejected_cleanup-ActsInScope digest c o (λ e. h (rw (w, y, decision) e)))
        | inr n ↦
            rw (w, n, decision) (evaluate-ActsInScope digest c o (λ e. h (rw (w, n, decision) e)))
      ]
]
