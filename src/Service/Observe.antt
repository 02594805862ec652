-- ===== src/Service/Observe.antt =====
-- internal/service/service.go, `observe` and `decision`. On an error the source returns the observation so
-- far as well, which no caller uses.
pub mod Scope
use sonarr_remediator.Base.{
  ℤ, pos, ltb_ℤ, leb_ℤ, ltb, String, Bool, true, false, ◌&&◌, ◌||◌, not, Option, none, some, List,
  [], ◌∷◌, ◌==◌, ◌!=◌, int_eq, string_eq, if◌then◌else◌, is_none, is_empty, contains, any, length,
  int_at, bool_at, lookup, insert, sort_ints, Result, ok, err, ◌>>=◌,
}
use sonarr_remediator.Sonarr.{QueueRow, Preview, Episode, History}
use sonarr_remediator.Config.{Config}
use sonarr_remediator.Policy.Observation.{
  Observation, Decision, Kind, defer, has_executable_warning,
}
use sonarr_remediator.Policy.Fingerprint.{Digest}
use sonarr_remediator.Policy.Evaluate.{evaluate}
use sonarr_remediator.Policy.Rejected.{rejected_cleanup}
use sonarr_remediator.Service.Client.{Client}

-- `intended[id] = true`; a map's keys as a list without repetitions.
unfoldable pub intend : ℤ → List ℤ → List ℤ
intend id ids = if contains ids id then ids else id ∷ ids

unfoldable pub intend_rows : List QueueRow → List ℤ → List ℤ
intend_rows [] ids = ids
intend_rows (r ∷ rest) ids =
    intend_rows rest
      (if ltb_ℤ (pos 0) (int_at r.episode_id) then intend (int_at r.episode_id) ids else ids)

unfoldable pub intend_episodes : List Episode → List ℤ → List ℤ
intend_episodes [] ids = ids
intend_episodes (ep ∷ rest) ids =
    intend_episodes rest (if ltb_ℤ (pos 0) ep.id then intend ep.id ids else ids)

unfoldable pub intend_files : List Preview → List ℤ → List ℤ
intend_files [] ids = ids
intend_files (f ∷ rest) ids = intend_files rest (intend_episodes f.episodes ids)

-- `pack`.
unfoldable pub is_pack : List Preview → Bool
is_pack files =
    ltb 1 (length files)
    || any
        (λ (f : Preview).
          f.release_type == "seasonPack"
          || f.release_type == "multiEpisode"
          || ltb 1 (length f.episodes))
        files

-- `intended`, `o.MembershipComplete` and `grabbed`.
pub record Membership : Type 0 where
  pub ids : List ℤ
  pub complete : Bool
  pub grabbed : Bool

-- The loop over the history of a pack.
unfoldable pub intend_grabs : Membership → List History → Membership
intend_grabs m [] = m
intend_grabs m (h ∷ rest) =
    intend_grabs
      (if h.event_type == "grabbed"
        then (if leb_ℤ h.episode_id (pos 0) || leb_ℤ h.series_id (pos 0)
            then record m { complete = false }
            else record m { ids = intend h.episode_id m.ids; grabbed = true })
        else m)
      rest

-- `if pack`.
unfoldable pub membership : Client → String → List QueueRow → List Preview → Result Membership
membership client id rows files =
    let ids = intend_files files (intend_rows rows []) in
    let m : Membership = record {
      ids = ids;
      complete = not (is_empty ids) && not (is_empty files);
      grabbed = false;
    } in
    if is_pack files
    then (client.history id >>= λ events.
        let n = intend_grabs m events in ok (record n { complete = n.complete && n.grabbed }))
    else ok m

-- A row of the episode that names another series.
unfoldable pub row_disagrees : ℤ → ℤ → QueueRow → Bool
row_disagrees episode series r =
    not (is_none r.episode_id)
    && int_at r.episode_id == episode
    && not (is_none r.series_id)
    && int_at r.series_id != series

unfoldable pub read_profile : Client → ℤ → Observation → Result Observation
read_profile client id o =
    if ltb_ℤ (pos 0) id && is_none (lookup id o.profiles)
    then (client.profile id >>= λ p. ok (record o { profiles = insert p.id p o.profiles }))
    else ok o

unfoldable pub read_series : Client → ℤ → Observation → Result Observation
read_series client id o =
    if is_none (lookup id o.series)
    then (client.series id >>= λ s.
        read_profile client s.quality_profile_id (record o { series = insert id s o.series }))
    else ok o

unfoldable pub read_file : Client → Episode → Observation → Result Observation
read_file client ep o =
    if bool_at ep.has_file
      && ltb_ℤ (pos 0) (int_at ep.episode_file_id)
      && is_none (lookup (int_at ep.episode_file_id) o.files)
    then (client.episode_file (int_at ep.episode_file_id) >>= λ f.
        ok (record o { files = insert f.id f o.files }))
    else ok o

-- What is read for an episode.
unfoldable pub read_episode : Client → ℤ → Observation → Result Observation
read_episode client id o = client.episode id >>= λ ep.
    let o1 : Observation = record o {
      episodes = insert id ep o.episodes;
      membership_complete =
          o.membership_complete && not (any (row_disagrees id ep.series_id) o.rows);
    } in
    if leb_ℤ ep.series_id (pos 0)
    then ok o1
    else read_series client ep.series_id o1 >>= λ o2. read_file client ep o2

unfoldable pub read_episodes : Client → List ℤ → Observation → Result Observation
read_episodes client [] o = ok o
read_episodes client (id ∷ rest) o = read_episode client id o >>= λ o'. read_episodes client rest o'

-- `observe`.
unfoldable pub observe : Client → String → List QueueRow → List QueueRow → Result Observation
observe client id rows queue = do
  files ← client.preview id
  m ← membership client id rows files
  o ← read_episodes client (sort_ints m.ids) (record {
    download_id = id;
    rows = rows;
    queue = queue;
    preview = files;
    episodes = [];
    files = [];
    series = [];
    profiles = [];
    propers = "";
    intended = sort_ints m.ids;
    membership_complete = m.complete;
  })
  propers ← client.media
  ok (record o { propers = propers })

abbrev pub is_defer : Kind → Bool
is_defer defer = true
is_defer _ = false

-- `decision`.
unfoldable pub decision : Digest → Config → Observation → Decision
decision digest c o =
    let cleanup = rejected_cleanup digest c o in
    let d = evaluate digest c o in
    if has_executable_warning o.rows
    then (if cleanup.0.reason == ""
        then record (cleanup.0) {
          reason = "executable warning cleanup identity or scope unresolved";
        }
        else cleanup.0)
    else if is_defer d.kind && cleanup.1
    then cleanup.0
    else d
