-- ===== src/Policy/Review/Files.antt =====
-- What the loops over the files and their episodes establish, as long as a flag stays up.

use sonarr_remediator.Base.{
  ℤ, ◌≡◌, subst, some, int_eq, true, List, [], ◌∷◌, lookup, contains, All, All-append, arith,
}
use sonarr_remediator.Sonarr.{Preview, Episode, Series, Profile, ImportFile}
use sonarr_remediator.Config.{Config}
use sonarr_remediator.Policy.Observation.{Observation, series_allowed}
use sonarr_remediator.Policy.Review.{next, Matches, match_episode, match_episodes}
use sonarr_remediator.Policy.Review.Steps.{
  >>=-eq-next, Fills, HasWanted, Found, match_episode-Stepped,
}

-- The current episode, its series and its profile, as the observation has them.
abbrev pub Current : Observation → ℤ → Episode → Series → Profile → Type 0
Current o id e s p =
    (lookup id o.episodes ≡ some e)
    × (lookup e.series_id o.series ≡ some s)
    × (lookup s.quality_profile_id o.profiles ≡ some p)

-- The episode is intended, of a series in scope, and the candidate may fill it.
abbrev pub Filled : Config → Observation → Preview → ℤ → Type 0
Filled c o f id =
    (e : Episode) × (s : Series) × (p : Profile) × Current o id e s p
    × (series_allowed c s.id ≡ true)
    × (contains o.intended id ≡ true)
    × Fills o f p e

-- The episode already has a file that its profile wants.
abbrev pub Satisfied : Observation → ℤ → Type 0
Satisfied o id = (e : Episode) × (s : Series) × (p : Profile) × Current o id e s p × HasWanted o p e

-- What `identify` has established.
abbrev pub Identified : Config → Observation → Preview → Series → Profile → Type 0
Identified c o f s p =
    (lookup s.id o.series ≡ some s)
    × (lookup s.quality_profile_id o.profiles ≡ some p)
    × (series_allowed c s.id ≡ true)

pub next-injective {ℓ} : {A : Type ℓ} {a b : A} → next a ≡ next b → a ≡ b
next-injective h = cc

module _ (c : Config) (o : Observation) (fs : List ImportFile) (f : Preview) (s : Series)
    (p : Profile) (known : Identified c o f s p) where
  Current-Found : (pe e : Episode) → Found o s pe e → Current o pe.id e s p
  Current-Found pe e found = (found.0, rw found.2 known.0, known.1)

  -- A flag that is up at the end was up all the time.
  pub match_episodes-flags :
      (m m' : Matches) (eps : List Episode)
      → match_episodes o fs f s p m eps ≡ next m'
      → (m'.importable ≡ true → m.importable ≡ true) × (m'.redundant ≡ true → m.redundant ≡ true)
  unfolding match_episodes
  match_episodes-flags m m' [] h = ground arith
  match_episodes-flags m m' (pe ∷ eps) h =
      let (m1, h1, h2) =
        >>=-eq-next (match_episode o fs f s p m pe) (λ x. match_episodes o fs f s p x eps) h in
      let step = match_episode-Stepped o fs f s p m m1 pe h1 in
      let rest = match_episodes-flags m1 m' eps h2 in
      (λ i. (step.2 (rest.0 i)).0, λ r. (step.3 (rest.1 r)).0)

  pub match_episodes-Filled :
      (m m' : Matches) (eps : List Episode)
      → match_episodes o fs f s p m eps ≡ next m'
      → m'.importable ≡ true
      → All (Filled c o f) m.matched
      → All (Filled c o f) m'.matched
  unfolding match_episodes
  match_episodes-Filled m m' [] h i a =
      subst (λ (x : Matches). All (Filled c o f) x.matched) (next-injective h) a
  match_episodes-Filled m m' (pe ∷ eps) h i a =
      let (m1, h1, h2) =
        >>=-eq-next (match_episode o fs f s p m pe) (λ x. match_episodes o fs f s p x eps) h in
      let (e, found, up, down, seen, matched) = match_episode-Stepped o fs f s p m m1 pe h1 in
      let fills = (up ((match_episodes-flags m1 m' eps h2).0 i)).1 in
      let here : Filled c o f e.id =
        rw found.1 (e, s, p, Current-Found pe e found, known.2, found.3, fills) in
      match_episodes-Filled m1 m' eps h2 i
        (rw matched (All-append (Filled c o f) m.matched (e.id ∷ []) a (here, tt)))

  pub match_episodes-Satisfied :
      (m m' : Matches) (eps : List Episode)
      → match_episodes o fs f s p m eps ≡ next m'
      → m'.redundant ≡ true
      → All (Satisfied o) m.seen
      → All (Satisfied o) m'.seen
  unfolding match_episodes
  match_episodes-Satisfied m m' [] h r a =
      subst (λ (x : Matches). All (Satisfied o) x.seen) (next-injective h) a
  match_episodes-Satisfied m m' (pe ∷ eps) h r a =
      let (m1, h1, h2) =
        >>=-eq-next (match_episode o fs f s p m pe) (λ x. match_episodes o fs f s p x eps) h in
      let (e, found, up, down, seen, matched) = match_episode-Stepped o fs f s p m m1 pe h1 in
      let has = (down ((match_episodes-flags m1 m' eps h2).1 r)).1 in
      match_episodes-Satisfied m1 m' eps h2 r
        (rw seen ((e, s, p, Current-Found pe e found, has), a))
