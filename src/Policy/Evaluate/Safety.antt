-- ===== src/Policy/Evaluate/Safety.antt =====
-- What `Evaluate` promises of an import and of a removal.
use sonarr_remediator.Base.{
  ℤ, ◌≡◌, refl, sym, subst, ◌∙◌, ◌≢◌, ◌⊎◌, inl, inr, true, false, List, [], ◌∷◌, contains, All,
  All-map, arith, Bool-cases, int_eq, int_beq_iff, sort_ints, sort_ints-All,
}
use sonarr_remediator.Config.{Config}
use sonarr_remediator.Policy.Observation.{
  Observation, Decision, defer, import, remove_redundant, remove_unusable, InScope,
}
use sonarr_remediator.Policy.Fingerprint.{Digest}
use sonarr_remediator.Policy.Review.{next, Review, review_files}
use sonarr_remediator.Policy.Review.Steps.{>>=-eq-next, Flow-cases}
use sonarr_remediator.Policy.Review.Files.{Satisfied}
use sonarr_remediator.Policy.Review.Rounds.{
  Importable, Unusable, review_files-Importable, review_files-Satisfied, review_files-Unusable,
  review_files-InScope,
}
use sonarr_remediator.Policy.Evaluate.{check_observation, check_intended, review, choose, evaluate}
use sonarr_remediator.Policy.Evaluate.Intended.{
  Observed, check_observation-Observed, check_intended-Checked,
}

-- What a completed review has established.
abbrev Completed : Config → Observation → Review → Type 0
Completed c o v =
    Observed c o
    × (v.importable ≡ true → All (Importable c o) v.files)
    × (v.redundant ≡ true → All (Satisfied o) o.intended)
    × (v.unusable ≡ true → All Unusable o.preview)
    × All (InScope c) v.series_seen

contains-All {κ} :
    (P : ℤ → Type κ) (ids : List ℤ) (id : ℤ) → All P ids → contains ids id ≡ true → P id
contains-All P [] id a h = cc
contains-All P (x ∷ xs) id a h = elim (Bool-cases (int_eq.same x id)) [
  | inl e ↦ subst P ((int_beq_iff x id).0 e) a.0
  | inr n ↦ contains-All P xs id a.1 (ground arith)
]

review-Completed :
    (c : Config) (o : Observation) (v : Review) → review c o ≡ next v → Completed c o v
unfolding review
review-Completed c o v h = elim (Flow-cases (check_observation c o)) [
  | inr (fs, why, e) ↦ absurd (ground arith)
  | inl (u, e) ↦
      let (v0, h0, h1) =
        >>=-eq-next (review_files c o _ o.preview) (λ x. check_intended c o x o.intended)
          (rw e at h) in
      let ck = check_intended-Checked c o o.intended v0 v h1 in
      (
        check_observation-Observed c o e,
        λ i. rw ck.1 (review_files-Importable c o _ v0 o.preview (λ g m. m) h0 (sym ck.2 ∙ i) tt),
        λ r.
            let seen = review_files-Satisfied c o _ v0 o.preview h0 (sym ck.3 ∙ r) tt in
            All-map _ (Satisfied o) o.intended
              (λ id p. elim p [ inl y ↦ contains-All (Satisfied o) v0.seen id seen y | inr s ↦ s ])
              ck.6,
        λ u. review_files-Unusable c o _ v0 o.preview h0 (sym ck.4 ∙ u),
        ck.5 (review_files-InScope c o _ v0 o.preview h0 tt),
      )
]

choose-import :
    (c : Config) (v : Review)
    → (choose c v).kind ≡ import
    → (c.recovery.enabled ≡ true) × (v.importable ≡ true)
unfolding choose
choose-import c v h = ground arith

choose-remove_redundant :
    (c : Config) (v : Review)
    → (choose c v).kind ≡ remove_redundant
    → (c.cleanup.enabled ≡ true) × (v.redundant ≡ true) × ((choose c v).blocklist ≡ false)
unfolding choose
choose-remove_redundant c v h = ground arith

choose-remove_unusable :
    (c : Config) (v : Review)
    → (choose c v).kind ≡ remove_unusable
    → (c.cleanup.enabled ≡ true)
      × (v.unusable ≡ true)
      × ((choose c v).blocklist ≡ c.cleanup.blocklist)
unfolding choose
choose-remove_unusable c v h = ground arith

choose-permitted :
    (c : Config) (v : Review)
    → (choose c v).kind ≢ defer
    → (c.recovery.enabled ≡ true) ⊎ (c.cleanup.enabled ≡ true)
unfolding choose
choose-permitted c v h = ground arith

-- The decision, where the review was not blocked.
Acted : Config → Observation → Decision → Type 0
Acted c o d =
    (v : Review) × Completed c o v
    × (d.kind ≡ (choose c v).kind)
    × (d.blocklist ≡ (choose c v).blocklist)
    × (d.files ≡ v.files)
    × (d.series_ids ≡ sort_ints v.series_seen)

evaluate-Acted :
    (digest : Digest) (c : Config) (o : Observation)
    → ((evaluate digest c o).kind ≡ defer) ⊎ Acted c o (evaluate digest c o)
unfolding evaluate Acted
evaluate-Acted digest c o = elim (Flow-cases (review c o)) [
  | inr (fs, why, e) ↦ inl (rw (e, evaluate) refl)
  | inl (v, e) ↦ inr (
    v,
    review-Completed c o v e,
    rw (e, evaluate) refl,
    rw (e, evaluate) refl,
    rw (e, evaluate) refl,
    rw (e, evaluate) refl,
  )
]

-- An import is decided only with recovery enabled, on a complete observation in scope; each file that
-- it submits is a previewed one without a rejection, and each of its episodes is intended, of a series
-- in scope, and either has no file while the profile wants the candidate, or has a file of which the
-- candidate is a permitted upgrade.
pub evaluate-import :
    (digest : Digest) (c : Config) (o : Observation)
    → (evaluate digest c o).kind ≡ import
    → (c.recovery.enabled ≡ true) × Observed c o × All (Importable c o) (evaluate digest c o).files
unfolding Acted
evaluate-import digest c o h = elim (evaluate-Acted digest c o) [
  | inl e ↦ cc
  | inr (v, done, k, b, fs, ids) ↦
      let (on, up) = choose-import c v (sym k ∙ h) in (on, done.0, rw fs (done.1 up))
]

-- A download is removed as redundant only with cleanup enabled, on a complete observation in scope,
-- if every intended episode has a file in the library that its profile wants; nothing is blocklisted.
pub evaluate-remove_redundant :
    (digest : Digest) (c : Config) (o : Observation)
    → (evaluate digest c o).kind ≡ remove_redundant
    → (c.cleanup.enabled ≡ true)
      × Observed c o
      × All (Satisfied o) o.intended
      × ((evaluate digest c o).blocklist ≡ false)
unfolding Acted
evaluate-remove_redundant digest c o h = elim (evaluate-Acted digest c o) [
  | inl e ↦ cc
  | inr (v, done, k, b, fs, ids) ↦
      let (on, up, nb) = choose-remove_redundant c v (sym k ∙ h) in (on, done.0, done.2 up, b ∙ nb)
]

-- A download is removed as unusable only with cleanup enabled, on a complete observation in scope, if
-- every previewed file has a rejection and none but the verdicts that it is a sample or has no audio;
-- it is blocklisted exactly if the configuration says so.
pub evaluate-remove_unusable :
    (digest : Digest) (c : Config) (o : Observation)
    → (evaluate digest c o).kind ≡ remove_unusable
    → (c.cleanup.enabled ≡ true)
      × Observed c o
      × All Unusable o.preview
      × ((evaluate digest c o).blocklist ≡ c.cleanup.blocklist)
unfolding Acted
evaluate-remove_unusable digest c o h = elim (evaluate-Acted digest c o) [
  | inl e ↦ cc
  | inr (v, done, k, b, fs, ids) ↦
      let (on, up, nb) = choose-remove_unusable c v (sym k ∙ h) in (on, done.0, done.3 up, b ∙ nb)
]

-- Every decision but a deferral rests on a complete observation with rows in scope and no competing
-- download, names only series in scope, and has the permission of recovery or of cleanup.
pub evaluate-InScope :
    (digest : Digest) (c : Config) (o : Observation)
    → (evaluate digest c o).kind ≢ defer
    → Observed c o
      × All (InScope c) (evaluate digest c o).series_ids
      × ((c.recovery.enabled ≡ true) ⊎ (c.cleanup.enabled ≡ true))
unfolding Acted
evaluate-InScope digest c o h = elim (evaluate-Acted digest c o) [
  | inl e ↦ absurd (h e)
  | inr (v, done, k, b, fs, ids) ↦ (
    done.0,
    rw ids (sort_ints-All (InScope c) v.series_seen done.4),
    choose-permitted c v (λ e. h (k ∙ e)),
  )
]
