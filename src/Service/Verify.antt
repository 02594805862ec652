-- ===== src/Service/Verify.antt =====
-- internal/service/verify.go, the evidence that `verify` reads: has a submitted action had its effect? Each
-- loop is a function over its variables.
pub mod Counting
pub mod Outcomes
mod Tests
use Prim.Native.String
use sonarr_remediator.Base.{
  ℤ, pos, negsuc, ◌-ℤ◌, ltb_ℤ, leb_ℤ, ℕ, ◌+◌, ◌-◌, ◌%◌, Time, sub_time, after, before, String, Bool,
  true, false, ◌&&◌, ◌||◌, not, Option, none, some, List, [], ◌∷◌, ◌++◌, ◌==◌, ◌!=◌, int_eq,
  string_eq, nat_eq, if◌then◌else◌, contains, any, all, keep, length, is_empty, is_none, int_at,
  lookup, sort_ints, ltb, Result, ok, err, ◌>>=◌, ◌>>◌,
}
use sonarr_remediator.Sonarr.{
  Command, History, Blocklist, Episode, EpisodeFile, Profile, QueueRow, ImportFile,
}
use sonarr_remediator.Policy.Profile.{acceptable}
use sonarr_remediator.State.{Outcome, Attempt, Data}
use sonarr_remediator.Service.Client.{Client, current}

-- The part of a second.
abbrev fraction : ℤ → ℕ
fraction (pos n) = n % 1000000000
fraction (negsuc n) = 999999999 - n % 1000000000

-- `started.Truncate(time.Second)`, if the event has no fraction of a second.
abbrev lower_bound : Time → Time → Time
lower_bound date started = if fraction date == 0 then started -ℤ pos (fraction started) else started

-- `eventWithinAttempt`.
unfoldable pub event_within : Time → Time → Time → Bool
event_within date started now = not (before date (lower_bound date started)) && not (after date now)

-- What `cmd.Status` says: failed, or still possible. `label` begins the two errors.
unfoldable pub command_failed : String → String → Command → Result Bool
command_failed name label cmd =
    if cmd.name != name
    then err (String.◌++◌ label " command identity mismatch")
    else if cmd.status == "failed" || cmd.status == "aborted" || cmd.status == "cancelled"
    then ok true
    else if cmd.status == "queued" || cmd.status == "started" || cmd.status == "completed"
    then ok false
    else err (String.◌++◌ "unknown " (String.◌++◌ label " command state"))

-- The first submitted file with the episode.
unfoldable pub intended_file : ℤ → List ImportFile → Option ImportFile
intended_file episode [] = none
intended_file episode (f ∷ rest) =
    let later = intended_file episode rest in
    if contains f.episode_ids episode then some f else later

-- An import of the file for the episode since the attempt began.
unfoldable pub imports_of : Attempt → Time → ℤ → ℤ → ImportFile → History → Bool
imports_of a now episode series file h =
    h.event_type == "downloadFolderImported"
    && h.episode_id == episode
    && h.series_id == series
    && event_within h.date a.started now
    && h.attributes "droppedPath" == file.path

-- The first inner loop: the episode joins `a.VerifiedEpisodes`.
unfoldable pub note_event : Attempt → List History → Time → ℤ → List ℤ → List ℤ
note_event a events now episode seen = elim (intended_file episode a.decision.files) [
  | none ↦ seen
  | some f ↦
      if any (λ h. imports_of a now episode f.series_id f h && h.attributes "importedPath" != "")
        events
      then (if contains seen episode then seen else sort_ints (seen ++ episode ∷ []))
      else seen
]

-- The file id before the attempt, 0 where it is missing.
abbrev pub file_before : Attempt → ℤ → ℤ
file_before a episode = int_at (lookup episode a.before_files)

-- The rest of the round: the episode has an acceptable file now, which is the one of before if no file
-- was submitted for it, and else a new one that an event brought from the submitted path.
unfoldable pub is_done : Attempt → List History → Time → ℤ → Episode × EpisodeFile × Profile → Bool
is_done a events now episode (ep, f, p) =
    acceptable f p && elim (intended_file episode a.decision.files) [
      | none ↦
          not (is_none ep.episode_file_id) && int_at ep.episode_file_id == file_before a episode
      | some w ↦
          ep.series_id == w.series_id
          && not (is_none ep.episode_file_id)
          && int_at ep.episode_file_id != file_before a episode
          && any
              (λ h.
                imports_of a now episode ep.series_id w h && h.attributes "importedPath" == f.path)
              events
    ]

-- `a.VerifiedEpisodes` and `verified`, or the error with the former.
pub data Progress : Type 0 where
  halted : List ℤ → String → Progress
  moved : List ℤ → List ℤ → Progress

-- The loop over the episodes of the decision.
unfoldable pub verify_episodes :
    Client → Attempt → List History → Time → List ℤ → List ℤ → List ℤ → Progress
verify_episodes client a events now [] seen found = moved seen found
verify_episodes client a events now (episode ∷ rest) seen found =
    let seen' = note_event a events now episode seen in
    elim (current client episode) [
      | err e ↦ halted seen' e
      | ok state ↦
          verify_episodes client a events now rest seen'
            (if is_done a events now episode state then found ++ episode ∷ [] else found)
    ]

-- The action's own title, since it began, in a series of the decision.
abbrev pub is_entry : Attempt → Time → Blocklist → Bool
is_entry a now b =
    b.source_title == a.title
    && event_within b.date a.started now
    && contains a.decision.series_ids b.series_id

-- `failed[eid]`.
unfoldable pub has_failed : Attempt → List History → Time → ℤ → Bool
has_failed a events now episode =
    any
      (λ h.
        h.event_type == "downloadFailed"
        && h.source_title == a.title
        && event_within h.date a.started now
        && contains a.decision.episode_ids h.episode_id
        && contains a.decision.series_ids h.series_id
        && h.episode_id == episode)
      events

-- `counts[eid]`; `covered[eid]` says that it is not 0.
unfoldable pub count_entries : Attempt → Time → ℤ → List Blocklist → ℕ
count_entries a now episode [] = 0
count_entries a now episode (b ∷ rest) =
    let others = count_entries a now episode rest in
    let here =
      length (keep (λ id. contains a.decision.episode_ids id && id == episode) b.episode_ids) in
    if is_entry a now b then here + others else others

-- The last loop over the episodes.
unfoldable pub is_blocklisted : Attempt → List History → List Blocklist → Time → Bool
is_blocklisted a events entries now =
    all
      (λ episode.
        has_failed a events now episode
        && ltb 0 (count_entries a now episode entries)
        && count_entries a now episode entries == 1)
      a.decision.episode_ids
