-- ===== src/Policy/Evaluate/Intended.antt =====
-- The loop over the intended episodes, and what stands before the loops.
use sonarr_remediator.Base.{
  ℤ, ◌≡◌, subst, ◌⊎◌, inl, inr, true, false, String, List, [], ◌∷◌, lookup, contains, is_empty,
  int_at, All, arith, Bool-cases, int_eq, string_eq, string_beq_iff, Option-cases,
}
use sonarr_remediator.Sonarr.{QueueRow, Episode, ImportFile}
use sonarr_remediator.Config.{Config}
use sonarr_remediator.Policy.Observation.{Observation, eligible, competing, InScope, RowInScope}
use sonarr_remediator.Policy.Compare.{known_propers}
use sonarr_remediator.Policy.Review.{next, Review}
use sonarr_remediator.Policy.Review.Steps.{>>=-eq-next}
use sonarr_remediator.Policy.Review.Files.{Satisfied, next-injective}
use sonarr_remediator.Policy.Review.Rounds.{add_series-InScope}
use sonarr_remediator.Policy.Evaluate.{
  check_rows, check_observation, check_unmatched, check_intended,
}

pub check_rows-RowInScope :
    (c : Config) (download : String) (rows : List QueueRow) {u : Unit {0}}
    → check_rows c download rows ≡ next u
    → All (RowInScope c download) rows
unfolding check_rows
check_rows-RowInScope c download [] h = tt
check_rows-RowInScope c download (q ∷ rows) h =
    ground (arith, check_rows-RowInScope c download rows, string_beq_iff q.download_id download)

-- Every decision but a deferral rests on these.
abbrev pub Observed : Config → Observation → Type 0
Observed c o =
    (eligible o.rows ≡ true)
    × (known_propers o.propers ≡ true)
    × All (RowInScope c o.download_id) o.rows
    × (is_empty o.preview ≡ false)
    × (o.membership_complete ≡ true)
    × (is_empty o.intended ≡ false)
    × (competing o.queue o.download_id o.intended ≡ false)

pub check_observation-Observed :
    (c : Config) (o : Observation) {u : Unit {0}} → check_observation c o ≡ next u → Observed c o
unfolding check_observation
check_observation-Observed c o h = ground (arith, check_rows-RowInScope c o.download_id o.rows)

check_unmatched-Satisfied :
    (c : Config) (o : Observation) (fs : List ImportFile) (id : ℤ) (e : Episode)
    → check_unmatched c o fs id ≡ next e
    → Satisfied o id × InScope c e.series_id
unfolding check_unmatched
check_unmatched-Satisfied c o fs id e h = elim (Option-cases (lookup id o.episodes)) [
  | inl n ↦ absurd (ground arith)
  | inr (e1, he) ↦ elim (Option-cases (lookup e1.series_id o.series)) [
    | inl n ↦ absurd (ground arith)
    | inr (s, hs) ↦ elim (Option-cases (lookup s.quality_profile_id o.profiles)) [
      | inl n ↦ absurd (ground arith)
      | inr (p, hp) ↦ elim (Option-cases (lookup (int_at e1.episode_file_id) o.files)) [
        | inl n ↦ absurd (ground arith)
        | inr (f, hf) ↦
            let same : e1 ≡ e = ground arith in
            (
              (
                e,
                s,
                p,
                (rw (← same) he, rw (← same) hs, hp),
                (ground arith, (f, rw (← same) hf, ground arith)),
              ),
              ground arith,
            )
      ]
    ]
  ]
]

-- What the loop keeps of the variables, and what it adds.
abbrev Checked : Config → Observation → Review → Review → List ℤ → Type 0
Checked c o v v' ids =
    (v'.seen ≡ v.seen)
    × (v'.files ≡ v.files)
    × (v'.importable ≡ v.importable)
    × (v'.redundant ≡ v.redundant)
    × (v'.unusable ≡ v.unusable)
    × (All (InScope c) v.series_seen → All (InScope c) v'.series_seen)
    × All (λ id. (contains v.seen id ≡ true) ⊎ Satisfied o id) ids

pub check_intended-Checked :
    (c : Config) (o : Observation) (ids : List ℤ) (v v' : Review)
    → check_intended c o v ids ≡ next v'
    → Checked c o v v' ids
unfolding check_intended
check_intended-Checked c o [] v v' h =
    let e = next-injective h in
    (
      rw e,
      rw e,
      rw e,
      rw e,
      rw e,
      λ a. subst (λ (x : Review). All (InScope c) x.series_seen) e a,
      tt,
    )
check_intended-Checked c o (id ∷ ids) v v' h = elim (Bool-cases (contains v.seen id)) [
  | inl y ↦
      let r = check_intended-Checked c o ids v v' (rw y at h) in
      (r.0, r.1, r.2, r.3, r.4, r.5, (inl y, r.6))
  | inr n ↦
      let (e, h1, h2) = >>=-eq-next (check_unmatched c o v.files id) _ (rw n at h) in
      let found = check_unmatched-Satisfied c o v.files id e h1 in
      let r = check_intended-Checked c o ids _ v' h2 in
      (
        r.0,
        r.1,
        r.2,
        r.3,
        r.4,
        λ a. r.5 (add_series-InScope c e.series_id v.series_seen found.1 a),
        (inr found.0, r.6),
      )
]
