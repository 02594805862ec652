-- ===== src/Policy/Evaluate.antt =====
-- internal/policy/policy.go, `Evaluate`: the decision about a download that Sonarr did not warn of.
pub mod Intended
pub mod Safety
use sonarr_remediator.Base.{
  ℤ, pos, ltb_ℤ, String, Bool, true, false, ◌&&◌, ◌||◌, not, List, [], ◌∷◌, ◌==◌, ◌!=◌, string_eq,
  int_eq, if◌then◌else◌, contains, is_empty, is_none, lookup, int_at, bool_at, sort_ints,
}
use sonarr_remediator.Sonarr.{QueueRow, Episode, ImportFile}
use sonarr_remediator.Config.{Config}
use sonarr_remediator.Policy.Observation.{
  Observation, Decision, Kind, defer, import, remove_redundant, remove_unusable, eligible,
  series_allowed, client_allowed, competing,
}
use sonarr_remediator.Policy.Profile.{acceptable}
use sonarr_remediator.Policy.Compare.{known_propers}
use sonarr_remediator.Policy.Fingerprint.{Digest, fingerprint}
use sonarr_remediator.Policy.Review.{
  Flow, blocked, next, ◌>>=◌, ◌>>◌, block_if, or_block, Review, review_files, add_series,
}

-- The loop over the queue rows.
unfoldable pub check_rows : Config → String → List QueueRow → Flow (Unit {0})
check_rows c download [] = next tt
check_rows c download (q ∷ rest) =
    block_if (q.download_id != download || not (client_allowed c q.download_client)) []
      "download/client scope unavailable or excluded"
    >> block_if (ltb_ℤ (pos 0) (int_at q.series_id) && not (series_allowed c (int_at q.series_id)))
        [] "series excluded"
    >> check_rows c download rest

-- What is checked before the files.
unfoldable pub check_observation : Config → Observation → Flow (Unit {0})
check_observation c o = do
  block_if (not (eligible o.rows)) [] "protected or noneligible tracked state"
  block_if (not (known_propers o.propers)) [] "unknown proper/repack preference"
  check_rows c o.download_id o.rows
  block_if (is_empty o.preview || not o.membership_complete || is_empty o.intended) []
      "empty preview or unresolved intended membership"
  block_if (competing o.queue o.download_id o.intended) []
      "competing active or unidentified download"

unmatched_refused : Config → Episode → Bool
unmatched_refused c e =
    is_none e.has_file
    || not (bool_at e.has_file)
    || is_none e.episode_file_id
    || not (series_allowed c e.series_id)

-- An intended episode that no file brings must have an acceptable file already.
unfoldable pub check_unmatched : Config → Observation → List ImportFile → ℤ → Flow Episode
unfolding unmatched_refused
check_unmatched c o fs id = do
  e ← or_block (lookup id o.episodes) fs "intended episode missing from preview and library"
  block_if (unmatched_refused c e) fs "intended episode missing from preview and library"
  s ← or_block (lookup e.series_id o.series) fs "missing expected series"
  p ←
      or_block (lookup s.quality_profile_id o.profiles) fs
        "unmatched intended episode lacks acceptable current file"
  f ←
      or_block (lookup (int_at e.episode_file_id) o.files) fs
        "unmatched intended episode lacks acceptable current file"
  block_if (f.series_id != e.series_id || not (acceptable f p)) fs
      "unmatched intended episode lacks acceptable current file"
  next e

-- The loop over the intended episodes.
unfoldable pub check_intended : Config → Observation → Review → List ℤ → Flow Review
unfolding add_series
check_intended c o v [] = next v
check_intended c o v (id ∷ rest) =
    let matched = check_intended c o v rest in
    let unmatched = check_unmatched c o v.files id >>= λ e.
    check_intended c o (record v { series_seen = add_series e.series_id v.series_seen }) rest in
    if contains v.seen id then matched else unmatched

-- `Evaluate` up to the choice of the action.
unfoldable pub review : Config → Observation → Flow Review
review c o = do
  check_observation c o
  v ←
      review_files c o
        (record {
          files = [];
          reason = "";
          seen = [];
          paths = [];
          series_seen = [];
          importable = true;
          redundant = true;
          unusable = true;
        })
        o.preview
  check_intended c o v o.intended

-- The choice: the kind, whether to blocklist, and the reason.
pub record Choice : Type 0 where
  pub kind : Kind
  pub blocklist : Bool
  pub reason : String

abbrev chosen : Kind → Bool → String → Choice
chosen kind blocklist reason = record { kind = kind; blocklist = blocklist; reason = reason }

unfoldable pub choose : Config → Review → Choice
choose c v =
    if v.importable
    then (if c.recovery.enabled
        then chosen import false
            "every previewed episode is missing or a permitted strict improvement"
        else chosen defer false "recovery disabled")
    else if v.redundant
    then (if c.cleanup.enabled
        then chosen remove_redundant false
            "all intended episodes satisfied; every candidate equal or inferior"
        else chosen defer false "redundant; cleanup disabled")
    else if v.unusable
    then (if c.cleanup.enabled
        then chosen remove_unusable c.cleanup.blocklist
            "every media file has an explicit Sample/No audio tracks verdict"
        else chosen defer false "unusable; cleanup disabled")
    else chosen defer false (
        if v.reason == ""
        then "preview rejection or unresolved upgrade requires operator intervention"
        else v.reason)

abbrev decided : String → List ℤ → List ℤ → List ImportFile → Choice → Decision
decided print episodes series files k = record {
  kind = k.kind;
  reason = k.reason;
  fingerprint = print;
  episode_ids = episodes;
  series_ids = series;
  files = files;
  blocklist = k.blocklist;
  episode_mismatch = false;
  executable_warning = false;
}

-- `Evaluate`.
unfoldable pub evaluate : Digest → Config → Observation → Decision
evaluate digest c o = elim (review c o) [
  | blocked fs r ↦ decided (fingerprint digest o) o.intended [] fs (chosen defer false r)
  | next v ↦
      decided (fingerprint digest o) o.intended (sort_ints v.series_seen) v.files (choose c v)
]
