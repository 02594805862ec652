-- ===== src/Policy/Review/Rounds.antt =====
-- What the loop over the files establishes for the choice of the action.
use mathlib.Core.List.{Memᴰ}
use sonarr_remediator.Base.{
  ℤ, ◌≡◌, refl, sym, subst, ◌∙◌, inl, inr, true, false, ◌&&◌, not, List, [], ◌∷◌, ◌++◌, is_empty,
  elements, All, All-append, all, arith, int_beq_iff, int_eq, sort_ints-All,
}
use sonarr_remediator.Sonarr.{Preview, Series, Profile, ImportFile}
use sonarr_remediator.Config.{Config}
use sonarr_remediator.Policy.Observation.{Observation, series_allowed, InScope}
use sonarr_remediator.Policy.Fingerprint.{series_at}
use sonarr_remediator.Policy.Review.{
  next, Review, Matches, identify, match_episodes, review_file, review_files, import_file,
  add_series, redundant_reason, unusable_reason, series_refused,
}
use sonarr_remediator.Policy.Review.Steps.{>>=-eq-next, Flow-cases}
use sonarr_remediator.Policy.Review.Files.{
  Filled, Satisfied, Identified, next-injective, match_episodes-flags, match_episodes-Filled,
  match_episodes-Satisfied,
}

series_refused-allowed :
    (c : Config) (id : ℤ) (s : Series)
    → series_refused c id s ≡ false
    → (s.id ≡ id) × (series_allowed c s.id ≡ true)
unfolding series_refused
series_refused-allowed c id s h = ground (arith, int_beq_iff s.id id)

identify-Identified :
    (c : Config) (o : Observation) (fs : List ImportFile) (f : Preview) (s : Series) (p : Profile)
    → identify c o fs f ≡ next (s, p)
    → Identified c o f s p
unfolding identify
identify-Identified c o fs f s p h =
    ground (
      arith,
      series_refused-allowed c (series_at f.series) s,
      int_beq_iff s.id (series_at f.series),
    )

-- The matching of a file's episodes begins with these variables.
abbrev matching : Review → Preview → Matches
matching v f = record {
  seen = v.seen;
  matched = [];
  reason = v.reason;
  importable = v.importable && is_empty (elements f.rejections);
  redundant = v.redundant && all redundant_reason (elements f.rejections);
}

abbrev Reviewed : Config → Observation → Review → Preview → Review → Type 0
Reviewed c o v f v' =
    (s : Series) × (p : Profile) × (m : Matches) × Identified c o f s p
    × (match_episodes o v.files f s p (matching v f) f.episodes ≡ next m)
    × (v'.files ≡ v.files ++ import_file o f s m.matched ∷ [])
    × (v'.importable ≡ m.importable)
    × (v'.redundant ≡ m.redundant)
    × (v'.seen ≡ m.seen)
    × (v'.unusable ≡ (
        v.unusable
        && not (is_empty (elements f.rejections))
        && all unusable_reason (elements f.rejections)))
    × (v'.series_seen ≡ add_series s.id v.series_seen)

review_file-Reviewed :
    (c : Config) (o : Observation) (v v' : Review) (f : Preview)
    → review_file c o v f ≡ next v'
    → Reviewed c o v f v'
unfolding review_file
review_file-Reviewed c o v v' f h = elim (Flow-cases (identify c o v.files f)) [
  | inr (fs, why, e) ↦ absurd (ground arith)
  | inl (sp, e) ↦
      let start = matching v f in
      elim (Flow-cases (match_episodes o v.files f sp.0 sp.1 start f.episodes)) [
        | inr (fs, why, e') ↦ absurd (ground arith)
        | inl (m, run) ↦ (
          sp.0,
          sp.1,
          m,
          identify-Identified c o v.files f sp.0 sp.1 e,
          run,
          ground arith,
          ground arith,
          ground arith,
          ground arith,
          ground arith,
          ground arith,
        )
      ]
]

matching-flags :
    (v : Review) (f : Preview)
    → ((matching v f).importable ≡ true
        → (v.importable ≡ true) × (is_empty (elements f.rejections) ≡ true))
      × ((matching v f).redundant ≡ true → v.redundant ≡ true)
matching-flags v f = ground arith

-- A flag that is up after a round was up before it, and the file has no rejection, or only verdicts
-- that it is unusable.
review_file-flags :
    (c : Config) (o : Observation) (v v' : Review) (f : Preview)
    → Reviewed c o v f v'
    → (v'.importable ≡ true → (v.importable ≡ true) × (is_empty (elements f.rejections) ≡ true))
      × (v'.redundant ≡ true → v.redundant ≡ true)
      × (v'.unusable ≡ true
          → (v.unusable ≡ true)
            × (is_empty (elements f.rejections) ≡ false)
            × (all unusable_reason (elements f.rejections) ≡ true))
review_file-flags c o v v' f (s, p, m, known, run, files, imp, red, seen, unus, ids) =
    let flags = match_episodes-flags c o v.files f s p known (matching v f) m f.episodes run in
    (
      λ i. (matching-flags v f).0 (flags.0 (sym imp ∙ i)),
      λ r. (matching-flags v f).1 (flags.1 (sym red ∙ r)),
      ground arith,
    )

review_files-flags :
    (c : Config) (o : Observation) (v v' : Review) (fs : List Preview)
    → review_files c o v fs ≡ next v'
    → (v'.importable ≡ true → v.importable ≡ true)
      × (v'.redundant ≡ true → v.redundant ≡ true)
      × (v'.unusable ≡ true → v.unusable ≡ true)
unfolding review_files
review_files-flags c o v v' [] h = ground arith
review_files-flags c o v v' (f ∷ fs) h =
    let (v1, h1, h2) = >>=-eq-next (review_file c o v f) (λ x. review_files c o x fs) h in
    let step = review_file-flags c o v v1 f (review_file-Reviewed c o v v1 f h1) in
    let rest = review_files-flags c o v1 v' fs h2 in
    (λ i. (step.0 (rest.0 i)).0, λ r. step.1 (rest.1 r), λ u. (step.2 (rest.2 u)).0)

-- A file that an import submits: one of the previewed files, with no rejection, for episodes that it
-- may fill.
abbrev pub Importable : Config → Observation → ImportFile → Type 0
Importable c o file =
    (f : Preview) × Memᴰ f o.preview
    × (file.path ≡ f.path)
    × (elements f.rejections ≡ [])
    × All (Filled c o f) file.episode_ids

is_empty-nil {ℓ} : {A : Type ℓ} (xs : List A) → is_empty xs ≡ true → xs ≡ []
is_empty-nil [] h = refl
is_empty-nil (x ∷ xs) h = cc

import_file-Importable :
    (c : Config) (o : Observation) (f : Preview) (s : Series) (ids : List ℤ)
    → Memᴰ f o.preview
    → is_empty (elements f.rejections) ≡ true
    → All (Filled c o f) ids
    → Importable c o (import_file o f s ids)
unfolding import_file
import_file-Importable c o f s ids here none_rejected a = (
  f,
  here,
  refl,
  is_empty-nil (elements f.rejections) none_rejected,
  sort_ints-All (Filled c o f) ids a,
)

pub review_files-Importable :
    (c : Config) (o : Observation) (v v' : Review) (fs : List Preview)
    → ((g : Preview) → Memᴰ g fs → Memᴰ g o.preview)
    → review_files c o v fs ≡ next v'
    → v'.importable ≡ true
    → All (Importable c o) v.files
    → All (Importable c o) v'.files
unfolding review_files
review_files-Importable c o v v' [] sub h i a =
    subst (λ (x : Review). All (Importable c o) x.files) (next-injective h) a
review_files-Importable c o v v' (f ∷ fs) sub h i a =
    let (v1, h1, h2) = >>=-eq-next (review_file c o v f) (λ x. review_files c o x fs) h in
    let r = review_file-Reviewed c o v v1 f h1 in
    let (s, p, m, known, run, files, imp, red, seen, unus, ids) = r in
    let i1 = (review_files-flags c o v1 v' fs h2).0 i in
    let filled =
      match_episodes-Filled c o v.files f s p known (matching v f) m f.episodes run (sym imp ∙ i1)
        tt in
    let file =
      import_file-Importable c o f s m.matched (sub f (Memᴰ.head refl))
        ((review_file-flags c o v v1 f r).0 i1).1 filled in
    review_files-Importable c o v1 v' fs (λ g k. sub g (Memᴰ.tail k)) h2 i
      (rw files
        (All-append (Importable c o) v.files (import_file o f s m.matched ∷ []) a (file, tt)))

pub review_files-Satisfied :
    (c : Config) (o : Observation) (v v' : Review) (fs : List Preview)
    → review_files c o v fs ≡ next v'
    → v'.redundant ≡ true
    → All (Satisfied o) v.seen
    → All (Satisfied o) v'.seen
unfolding review_files
review_files-Satisfied c o v v' [] h i a =
    subst (λ (x : Review). All (Satisfied o) x.seen) (next-injective h) a
review_files-Satisfied c o v v' (f ∷ fs) h i a =
    let (v1, h1, h2) = >>=-eq-next (review_file c o v f) (λ x. review_files c o x fs) h in
    let (s, p, m, known, run, files, imp, red, seen, unus, ids) =
      review_file-Reviewed c o v v1 f h1 in
    let r1 = (review_files-flags c o v1 v' fs h2).1 i in
    review_files-Satisfied c o v1 v' fs h2 i (
      rw seen (
        match_episodes-Satisfied c o v.files f s p known (matching v f) m f.episodes run
          (sym red ∙ r1) a))

-- Sonarr has refused the file, and for no other reason than that it is a sample or has no sound.
abbrev pub Unusable : Preview → Type 0
Unusable f =
    (is_empty (elements f.rejections) ≡ false)
    × (all unusable_reason (elements f.rejections) ≡ true)

pub review_files-Unusable :
    (c : Config) (o : Observation) (v v' : Review) (fs : List Preview)
    → review_files c o v fs ≡ next v'
    → v'.unusable ≡ true
    → All Unusable fs
unfolding review_files
review_files-Unusable c o v v' [] h u = tt
review_files-Unusable c o v v' (f ∷ fs) h u =
    let (v1, h1, h2) = >>=-eq-next (review_file c o v f) (λ x. review_files c o x fs) h in
    let step = review_file-flags c o v v1 f (review_file-Reviewed c o v v1 f h1) in
    let up = step.2 ((review_files-flags c o v1 v' fs h2).2 u) in
    ((up.1, up.2), review_files-Unusable c o v1 v' fs h2 u)

pub add_series-InScope :
    (c : Config) (id : ℤ) (ids : List ℤ)
    → InScope c id
    → All (InScope c) ids
    → All (InScope c) (add_series id ids)
unfolding add_series
add_series-InScope c id ids h a = ground arith

pub review_files-InScope :
    (c : Config) (o : Observation) (v v' : Review) (fs : List Preview)
    → review_files c o v fs ≡ next v'
    → All (InScope c) v.series_seen
    → All (InScope c) v'.series_seen
unfolding review_files
review_files-InScope c o v v' [] h a =
    subst (λ (x : Review). All (InScope c) x.series_seen) (next-injective h) a
review_files-InScope c o v v' (f ∷ fs) h a =
    let (v1, h1, h2) = >>=-eq-next (review_file c o v f) (λ x. review_files c o x fs) h in
    let (s, p, m, known, run, files, imp, red, seen, unus, ids) =
      review_file-Reviewed c o v v1 f h1 in
    review_files-InScope c o v1 v' fs h2
      (rw ids (add_series-InScope c s.id v.series_seen known.2 a))
