-- ===== src/Policy/Rejected/Safety.antt =====
-- What `RejectedCleanup` promises of a removal.
use sonarr_remediator.Base.{
  ◌≡◌, sym, ◌∙◌, ap, inl, inr, Bool, true, false, ◌||◌, not, List, is_empty, any, elements, All,
  arith, Bool-cases, sort_ints, sort_ints-All,
}
use sonarr_remediator.Sonarr.{Preview}
use sonarr_remediator.Config.{Config}
use sonarr_remediator.Policy.Observation.{
  Observation, Decision, remove_blocked, has_executable_warning, eligible, competing, InScope,
  RowInScope,
}
use sonarr_remediator.Policy.Fingerprint.{Digest, fingerprint}
use sonarr_remediator.Policy.Rejected.{
  going, Collected, collect_rows, collect_files, inspect, settle, no_targets, inspection,
  uncollected, rejected_cleanup,
}
use sonarr_remediator.Policy.Rejected.Collecting.{
  FileInScope, Walk-cases, collect_rows-InScope, collect_files-InScope,
}

-- Some previewed file has been refused by Sonarr.
abbrev pub has_rejection : List Preview → Bool
has_rejection = any λ f. not (is_empty (elements f.rejections))

-- What an inspection that came to its end has established.
abbrev Inspected : Config → Observation → Collected → Type 0
Inspected c o a =
    (eligible o.rows ≡ true)
    × All (RowInScope c o.download_id) o.rows
    × All (FileInScope c o.download_id) o.preview
    × All (InScope c) a.targets.series_ids
    × (a.rejected ≡ (has_executable_warning o.rows || has_rejection o.preview))

inspect-Inspected :
    (c : Config) (o : Observation) (a : Collected) → inspect c o ≡ going a → Inspected c o a
unfolding inspect
inspect-Inspected c o a h =
    elim (Walk-cases (collect_rows c o.download_id (no_targets, false) o.rows)) [
      | inr (t, e) ↦ absurd (ground arith)
      | inl (known, e) ↦
          let (k1, rows) =
            collect_rows-InScope c o.download_id o.rows no_targets known.0 false known.1 e tt in
          let run : collect_files c (inspection c o known.1) (uncollected o known.0) o.preview
              ≡ going a =
            ground arith in
          let (k2, files, r) =
            collect_files-InScope c (inspection c o known.1) o.preview (uncollected o known.0) a run
              k1 in
          (ground arith, rows, files, k2, r)
    ]

-- What stands in a decision to remove.
abbrev pub RemovalSafe : Config → Observation → Decision → Type 0
RemovalSafe c o d =
    (c.cleanup.enabled ≡ true)
    × (eligible o.rows ≡ true)
    × All (RowInScope c o.download_id) o.rows
    × All (FileInScope c o.download_id) o.preview
    × All (InScope c) d.series_ids
    × (competing o.queue o.download_id d.episode_ids ≡ false)
    × ((has_executable_warning o.rows || has_rejection o.preview) ≡ true)

settle-RemovalSafe :
    (digest : Digest) (c : Config) (o : Observation) (a : Collected)
    → inspect c o ≡ going a
    → a.rejected ≡ true
    → (settle c o (fingerprint digest o) a).kind ≡ remove_blocked
    → RemovalSafe c o (settle c o (fingerprint digest o) a)
unfolding settle
settle-RemovalSafe digest c o a e r h =
    let (live, rows, files, ids, same) = inspect-Inspected c o a e in
    let sorted : (settle c o (fingerprint digest o) a).series_ids ≡ sort_ints a.targets.series_ids =
      ground arith in
    (
      ground arith,
      live,
      rows,
      files,
      rw sorted (sort_ints-All (InScope c) a.targets.series_ids ids),
      ground arith,
      sym same ∙ r,
    )

-- A download that Sonarr refuses is removed only with cleanup enabled, if its rows are eligible, belong
-- to it and lie in scope, if no row, previewed file or episode names a series out of scope, if no
-- other download competes for the episodes, and if Sonarr has refused a file or warns of an executable.
pub rejected_cleanup-RemovalSafe :
    (digest : Digest) (c : Config) (o : Observation)
    → (rejected_cleanup digest c o).0.kind ≡ remove_blocked
    → RemovalSafe c o (rejected_cleanup digest c o).0
unfolding rejected_cleanup
rejected_cleanup-RemovalSafe digest c o h = elim (Walk-cases (inspect c o)) [
  | inr (t, e) ↦ absurd (ground arith)
  | inl (a, e) ↦ elim (Bool-cases a.rejected) [
    | inr n ↦ absurd (ground arith)
    | inl y ↦
        let d : (rejected_cleanup digest c o).0 ≡ settle c o (fingerprint digest o) a =
          ground arith in
        rw d (settle-RemovalSafe digest c o a e y (ap (λ (x : Decision). x.kind) (sym d) ∙ h))
  ]
]
