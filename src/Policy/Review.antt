-- ===== src/Policy/Review.antt =====
-- internal/policy/policy.go, `Evaluate`: what is read off the previewed files. Each loop is a function
-- over its variables; it is blocked where the source returns `block(reason)`.
pub mod Steps
pub mod Files
pub mod Rounds
use sonarr_remediator.Base.{
  ℤ, pos, ltb_ℤ, leb_ℤ, String, starts_with, Bool, true, false, ◌&&◌, ◌||◌, not, Option, none, some,
  List, [], ◌∷◌, ◌++◌, ◌==◌, ◌!=◌, string_eq, int_eq, if◌then◌else◌, contains, is_empty, is_none,
  any, all, lookup, int_at, bool_at, elements, sort_ints, Result, ok, err,
}
use sonarr_remediator.Sonarr.{
  QueueRow, Preview, Episode, EpisodeFile, Rejection, Series, Profile, ImportFile,
}
use sonarr_remediator.Config.{Config}
use sonarr_remediator.Policy.Observation.{Observation, series_allowed}
use sonarr_remediator.Policy.Profile.{profile_ranks, valid_quality, acceptable}
use sonarr_remediator.Policy.Compare.{compare, equal_reason}
use sonarr_remediator.Policy.Fingerprint.{series_at}

-- `block(reason)` keeps the files that were collected by then.
pub data Flow {ℓ} (A : Type ℓ) : Type ℓ where
  blocked : List ImportFile → String → Flow A
  next : A → Flow A

infixl 5 ◌>>=◌ ◌>>◌
abbrev pub ◌>>=◌ {ℓ κ} : {A : Type ℓ} {B : Type κ} → Flow A → (A → Flow B) → Flow B
blocked fs r >>= f = blocked fs r
next a >>= f = f a

abbrev pub ◌>>◌ {ℓ} : {B : Type ℓ} → Flow (Unit {0}) → Flow B → Flow B
m >> k = m >>= λ _. k

abbrev pub block_if : Bool → List ImportFile → String → Flow (Unit {0})
block_if true fs r = blocked fs r
block_if false fs r = next tt

abbrev pub or_block {ℓ} : {A : Type ℓ} → Option A → List ImportFile → String → Flow A
or_block none fs r = blocked fs r
or_block (some a) fs r = next a

-- The variables of the loop over the files.
pub record Review : Type 0 where
  pub files : List ImportFile
  pub reason : String
  pub seen : List ℤ
  pub paths : List String
  pub series_seen : List ℤ
  pub importable : Bool
  pub redundant : Bool
  pub unusable : Bool

unfoldable pub preview_incomplete : String → List String → Preview → Bool
preview_incomplete download paths f =
    leb_ℤ f.id (pos 0)
    || f.path == ""
    || contains paths f.path
    || f.download_id != download
    || is_none f.series
    || leb_ℤ (series_at f.series) (pos 0)
    || is_empty f.episodes
    || not (valid_quality f.quality)
    || is_none f.score
    || is_none f.formats
    || is_none f.rejections
    || is_none f.languages
    || is_empty (elements f.languages)
    || is_none f.indexer_flags
    || ltb_ℤ (int_at f.indexer_flags) (pos 0)

-- Some row names a series, and no row names this one.
unfoldable pub series_disagrees : List QueueRow → ℤ → Bool
series_disagrees rows id =
    any (λ (q : QueueRow). ltb_ℤ (pos 0) (int_at q.series_id)) rows
    && not (
        any (λ (q : QueueRow). ltb_ℤ (pos 0) (int_at q.series_id) && int_at q.series_id == id) rows)

unfoldable pub unusable_reason : Rejection → Bool
unusable_reason r = r.reason == "Sample" || r.reason == "No audio tracks detected"

unfoldable pub redundant_reason : Rejection → Bool
redundant_reason r =
    starts_with r.reason "Not a Custom Format upgrade for existing episode file(s). New: "
    || starts_with r.reason "Not an upgrade for existing episode file(s). Existing quality: "
    || r.reason == "Not a quality revision upgrade for existing episode file(s)"

known_rejection : Rejection → Bool
known_rejection r = r.kind == "permanent" || r.kind == "temporary"

-- The variables of the loop over a file's episodes.
pub record Matches : Type 0 where
  pub seen : List ℤ
  pub matched : List ℤ
  pub reason : String
  pub importable : Bool
  pub redundant : Bool

unfoldable pub episode_conflicts : Observation → Series → List ℤ → Episode → Bool
episode_conflicts o s seen pe =
    leb_ℤ pe.id (pos 0)
    || contains seen pe.id
    || pe.series_id != s.id
    || not (contains o.intended pe.id)

unfoldable pub episode_incomplete : Series → Episode → Episode → Bool
episode_incomplete s pe e =
    e.id != pe.id
    || e.series_id != s.id
    || is_none e.has_file
    || is_none e.episode_file_id
    || is_none e.monitored

-- The candidate as a file of the library.
abbrev pub candidate : Preview → EpisodeFile
candidate f = record {
  id = pos 0;
  series_id = pos 0;
  path = f.path;
  quality = f.quality;
  score = f.score;
  formats = f.formats;
}

-- An episode with no file.
unfoldable pub match_missing :
    List ImportFile → Preview → Profile → Episode → Matches → Flow Matches
match_missing fs f p e m = do
  block_if (int_at e.episode_file_id != pos 0) fs "contradictory episode-file state"
  next (record m { importable = m.importable && acceptable (candidate f) p; redundant = false })

-- An episode with a file.
unfoldable pub match_existing :
    Observation → List ImportFile → Preview → Series → Profile → Episode → Matches → Flow Matches
match_existing o fs f s p e m = do
  old ← or_block (lookup (int_at e.episode_file_id) o.files) fs "missing existing file identity"
  block_if (old.id != int_at e.episode_file_id || old.series_id != s.id) fs
      "missing existing file identity"
  let v = compare f.quality f.formats f.score old p o.propers
  next (record m {
    reason = if v.upgrade then m.reason else v.why;
    importable = m.importable && v.upgrade;
    redundant =
        m.redundant
        && acceptable old p
        && not (ltb_ℤ (pos 0) v.order || v.upgrade)
        && not (v.order == pos 0 && v.why != equal_reason);
  })

unfoldable pub match_episode :
    Observation → List ImportFile → Preview → Series → Profile → Matches → Episode → Flow Matches
match_episode o fs f s p m pe = do
  block_if (episode_conflicts o s m.seen pe) fs "ambiguous/conflicting episode match"
  e ← or_block (lookup pe.id o.episodes) fs "missing current episode state"
  block_if (episode_incomplete s pe e) fs "missing current episode state"
  let m' : Matches = record m { seen = pe.id ∷ m.seen; matched = m.matched ++ e.id ∷ [] }
  if bool_at e.has_file then match_existing o fs f s p e m' else match_missing fs f p e m'

unfoldable pub match_episodes :
    Observation
    → List ImportFile
    → Preview
    → Series
    → Profile
    → Matches
    → List Episode
    → Flow Matches
match_episodes o fs f s p m [] = next m
match_episodes o fs f s p m (pe ∷ rest) =
    match_episode o fs f s p m pe >>= λ m'. match_episodes o fs f s p m' rest

import_file : Observation → Preview → Series → List ℤ → ImportFile
import_file o f s matched = record {
  path = f.path;
  folder_name = f.folder_name;
  series_id = s.id;
  episode_ids = sort_ints matched;
  quality = f.quality;
  languages = f.languages;
  release_group = f.release_group;
  indexer_flags = int_at f.indexer_flags;
  release_type = f.release_type;
  download_id = o.download_id;
}

unfoldable pub add_series : ℤ → List ℤ → List ℤ
add_series id ids = if contains ids id then ids else id ∷ ids

known_series_type : String → Bool
known_series_type t = t == "standard" || t == "daily" || t == "anime"

known_release_type : String → Bool
known_release_type t = t == "singleEpisode" || t == "multiEpisode" || t == "seasonPack"

series_refused : Config → ℤ → Series → Bool
series_refused c id s =
    s.id != id
    || is_none s.monitored
    || leb_ℤ s.quality_profile_id (pos 0)
    || not (series_allowed c s.id)

or_error {ℓ} : {A : Type ℓ} → Result A → List ImportFile → Flow A
or_error (ok a) fs = next a
or_error (err e) fs = blocked fs e

-- The series and the profile of a previewed file.
unfoldable pub identify : Config → Observation → List ImportFile → Preview → Flow (Series × Profile)
unfolding known_release_type known_series_type series_refused or_error
identify c o fs f = do
  block_if (not (known_release_type f.release_type)) fs "unknown release type"
  block_if (series_disagrees o.rows (series_at f.series)) fs
      "preview series disagrees with known queue identity"
  s ←
      or_block (lookup (series_at f.series) o.series) fs
        "series scope/profile unresolved or excluded"
  block_if (series_refused c (series_at f.series) s) fs
      "series scope/profile unresolved or excluded"
  block_if (not (known_series_type s.series_type)) fs "unknown series type"
  p ← or_block (lookup s.quality_profile_id o.profiles) fs "missing current profile"
  block_if (p.id != s.quality_profile_id) fs "missing current profile"
  r ← or_error (profile_ranks p) fs
  next (s, p)

-- One round of the loop over the files.
unfoldable pub review_file : Config → Observation → Review → Preview → Flow Review
unfolding import_file add_series known_rejection
review_file c o v f = do
  block_if (preview_incomplete o.download_id v.paths f) v.files "incomplete or conflicting preview"
  found ← identify c o v.files f
  let rejections = elements f.rejections
  block_if (not (all known_rejection rejections)) v.files "unknown rejection type"
  m ←
      match_episodes o v.files f found.0 found.1
        (record {
          seen = v.seen;
          matched = [];
          reason = v.reason;
          importable = v.importable && is_empty rejections;
          redundant = v.redundant && all redundant_reason rejections;
        })
        f.episodes
  next (record {
    files = v.files ++ import_file o f found.0 m.matched ∷ [];
    reason = m.reason;
    seen = m.seen;
    paths = f.path ∷ v.paths;
    series_seen = add_series found.0.id v.series_seen;
    importable = m.importable;
    redundant = m.redundant;
    unusable = v.unusable && not (is_empty rejections) && all unusable_reason rejections;
  })

unfoldable pub review_files : Config → Observation → Review → List Preview → Flow Review
review_files c o v [] = next v
review_files c o v (f ∷ rest) = review_file c o v f >>= λ v'. review_files c o v' rest
