-- ===== src/Policy/Review/Steps.antt =====
-- What one successful round of the loops over files and episodes has established.

use sonarr_remediator.Base.{
  ℤ, ◌≡◌, refl, ◌⊎◌, inl, inr, Bool, true, false, some, none, Option, List, [], ◌∷◌, ◌++◌, int_eq,
  int_beq_iff, lookup, contains, int_at, bool_at, arith, Bool-cases, Option-cases, String,
}
use sonarr_remediator.Sonarr.{Preview, Episode, EpisodeFile, Series, Profile, ImportFile}
use sonarr_remediator.Policy.Observation.{Observation}
use sonarr_remediator.Policy.Profile.{acceptable}
use sonarr_remediator.Policy.Compare.{compare}
use sonarr_remediator.Policy.Review.{
  Flow, blocked, next, ◌>>=◌, block_if, or_block, Matches, candidate, match_missing, match_existing,
  match_episode, episode_conflicts, episode_incomplete,
}

pub >>=-eq-next {ℓ κ} :
    {A : Type ℓ} {B : Type κ} (m : Flow A) (f : A → Flow B) {b : B}
    → (m >>= f) ≡ next b
    → (a : A) × (m ≡ next a) × (f a ≡ next b)
>>=-eq-next (next a) f h = (a, refl, h)
>>=-eq-next (blocked fs r) f h = cc

pub Flow-cases {ℓ} :
    {A : Type ℓ} (r : Flow A)
    → ((a : A) × (r ≡ next a)) ⊎ ((fs : List ImportFile) × (why : String) × (r ≡ blocked fs why))
Flow-cases (next a) = inl (a, refl)
Flow-cases (blocked fs why) = inr (fs, why, refl)

-- The candidate may fill the episode: the episode has no file and the candidate is wanted, or the
-- candidate is an upgrade of its file.
abbrev pub Fills : Observation → Preview → Profile → Episode → Type 0
Fills o f p e =
    ((bool_at e.has_file ≡ false) × (acceptable (candidate f) p ≡ true))
    ⊎ ((old : EpisodeFile) × (lookup (int_at e.episode_file_id) o.files ≡ some old)
        × ((compare f.quality f.formats f.score old p o.propers).upgrade ≡ true))

-- The episode has a file in the library that the profile wants.
abbrev pub HasWanted : Observation → Profile → Episode → Type 0
HasWanted o p e =
    (bool_at e.has_file ≡ true)
    × ((old : EpisodeFile) × (lookup (int_at e.episode_file_id) o.files ≡ some old)
        × (acceptable old p ≡ true))

-- The two flags keep what they stand for.
abbrev pub Kept : Observation → Preview → Profile → Episode → Matches → Matches → Type 0
Kept o f p e m m' =
    (m'.importable ≡ true → (m.importable ≡ true) × Fills o f p e)
    × (m'.redundant ≡ true → (m.redundant ≡ true) × HasWanted o p e)
    × (m'.seen ≡ m.seen)
    × (m'.matched ≡ m.matched)

match_missing-Kept :
    (fs : List ImportFile) (o : Observation) (f : Preview) (p : Profile) (e : Episode)
    (m m' : Matches)
    → bool_at e.has_file ≡ false
    → match_missing fs f p e m ≡ next m'
    → Kept o f p e m m'
unfolding match_missing
match_missing-Kept fs o f p e m m' b h = ground arith

match_existing-Kept :
    (fs : List ImportFile) (o : Observation) (f : Preview) (s : Series) (p : Profile) (e : Episode)
    (m m' : Matches)
    → bool_at e.has_file ≡ true
    → match_existing o fs f s p e m ≡ next m'
    → Kept o f p e m m'
unfolding match_existing
match_existing-Kept fs o f s p e m m' b h =
    elim (Option-cases (lookup (int_at e.episode_file_id) o.files)) [
      | inl missing ↦ absurd (ground arith)
      | inr (old, found) ↦ (
        λ i. (ground arith, inr (old, found, ground arith)),
        λ r. (ground arith, (b, (old, found, ground arith))),
        ground arith,
        ground arith,
      )
    ]

-- What a matched episode has established, whatever the flags.
abbrev pub Found : Observation → Series → Episode → Episode → Type 0
Found o s pe e =
    (lookup pe.id o.episodes ≡ some e)
    × (e.id ≡ pe.id)
    × (e.series_id ≡ s.id)
    × (contains o.intended pe.id ≡ true)

-- One episode of a file has been matched.
abbrev pub Stepped : Observation → Preview → Series → Profile → Episode → Matches → Matches → Type 0
Stepped o f s p pe m m' =
    (e : Episode) × Found o s pe e
    × (m'.importable ≡ true → (m.importable ≡ true) × Fills o f p e)
    × (m'.redundant ≡ true → (m.redundant ≡ true) × HasWanted o p e)
    × (m'.seen ≡ pe.id ∷ m.seen)
    × (m'.matched ≡ m.matched ++ e.id ∷ [])

Found-check :
    (o : Observation) (s : Series) (seen : List ℤ) (pe e : Episode)
    → lookup pe.id o.episodes ≡ some e
    → episode_conflicts o s seen pe ≡ false
    → episode_incomplete s pe e ≡ false
    → Found o s pe e
unfolding episode_conflicts episode_incomplete
Found-check o s seen pe e l h k =
    ground (arith, int_beq_iff e.id pe.id, int_beq_iff e.series_id s.id)

pub block_if-next :
    (b : Bool) (fs : List ImportFile) (r : String) {u : Unit {0}}
    → block_if b fs r ≡ next u
    → b ≡ false
block_if-next true fs r h = cc
block_if-next false fs r h = refl

pub or_block-next {ℓ} :
    {A : Type ℓ} (a : Option A) (fs : List ImportFile) (r : String) {x : A}
    → or_block a fs r ≡ next x
    → a ≡ some x
or_block-next none fs r h = cc
or_block-next (some a) fs r h = cc

pub match_episode-Stepped :
    (o : Observation) (fs : List ImportFile) (f : Preview) (s : Series) (p : Profile)
    (m m' : Matches) (pe : Episode)
    → match_episode o fs f s p m pe ≡ next m'
    → Stepped o f s p pe m m'
unfolding match_episode
match_episode-Stepped o fs f s p m m' pe h =
    let (_, a, h1) = >>=-eq-next _ _ h in
    let (e, b, h2) = >>=-eq-next _ _ h1 in
    let (_, c, h3) = >>=-eq-next _ _ h2 in
    let found =
      Found-check o s m.seen pe e (or_block-next _ _ _ b) (block_if-next _ _ _ a)
        (block_if-next _ _ _ c) in
    elim (Bool-cases (bool_at e.has_file)) [
      | inl y ↦
          let k = match_existing-Kept fs o f s p e _ m' y (rw y at h3) in
          (e, found, k.0, k.1, k.2, k.3)
      | inr n ↦
          let k = match_missing-Kept fs o f p e _ m' n (rw n at h3) in
          (e, found, k.0, k.1, k.2, k.3)
    ]
