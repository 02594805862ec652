-- ===== src/Policy/Fingerprint.antt =====
-- internal/policy/policy.go: the identity of a download's queue rows and the fingerprint of what the
-- decision rests on. SHA-256 and JSON are parameters. `sort.Slice` is a stable insertion sort here, as
-- in Go up to twelve elements; beyond, Go leaves the order of equal keys open.
use sonarr_remediator.Base.{
  ℤ, pos, String, string_less, Bool, Option, none, some, List, map, sort, sort_ints, elements,
  int_at,
}
use sonarr_remediator.Sonarr.{QueueRow, Preview, Quality, Rejection, NamedId, Episode, Series}
use sonarr_remediator.Policy.Observation.{Observation, has_executable_warning}

-- The local `identity` of `QueueIdentity`.
pub record Identity : Type 0 where
  pub download : String
  pub client : String
  pub path : String
  pub title : String
  pub series : ℤ
  pub episode : ℤ

-- The local `material` of `Fingerprint`.
pub record Material : Type 0 where
  pub path : String
  pub download : String
  pub release_type : String
  pub series : ℤ
  pub episodes : List ℤ
  pub quality : Quality
  pub formats : List ℤ
  pub score : Option ℤ
  pub rejections : List Rejection

-- The value that `Fingerprint` hashes.
pub record Evidence : Type 0 where
  pub queue : String
  pub files : List Material
  pub intended : List ℤ
  pub executable_warning : Bool

-- `json.Marshal` of an identity, and `hash`, the digest of the JSON text, at the two types it is used.
pub record Digest : Type 0 where
  pub identity_json : Identity → String
  pub hash_identities : List Identity → String
  pub hash_evidence : Evidence → String

identity_of : QueueRow → Identity
identity_of q = record {
  download = q.download_id;
  client = q.download_client;
  path = q.output_path;
  title = q.title;
  series = int_at q.series_id;
  episode = int_at q.episode_id;
}

abbrev pub series_at : Option Series → ℤ
series_at none = pos 0
series_at (some s) = s.id

material_of : Preview → Material
material_of f = record {
  path = f.path;
  download = f.download_id;
  release_type = f.release_type;
  series = series_at f.series;
  episodes = sort_ints (map (λ (e : Episode). e.id) f.episodes);
  quality = f.quality;
  formats = sort_ints (map (λ (n : NamedId). n.id) (elements f.formats));
  score = f.score;
  rejections = sort (λ (a b : Rejection). string_less a.reason b.reason) (elements f.rejections);
}

module _ (digest : Digest) where
  -- `QueueIdentity`.
  unfoldable pub queue_identity : List QueueRow → String
  unfolding identity_of sort
  queue_identity rows = digest.hash_identities (
      sort (λ a b. string_less (digest.identity_json a) (digest.identity_json b))
        (map identity_of rows))

  -- `Fingerprint`.
  unfoldable pub fingerprint : Observation → String
  unfolding material_of sort
  fingerprint o = digest.hash_evidence (record {
    queue = queue_identity o.rows;
    files = sort (λ (a b : Material). string_less a.path b.path) (map material_of o.preview);
    intended = o.intended;
    executable_warning = has_executable_warning o.rows;
  })
