-- ===== src/Service/Client.antt =====
-- What internal/service reads of Sonarr through internal/sonarr/client.go, and `current` of verify.go.
use sonarr_remediator.Base.{
  ℤ, pos, leb_ℤ, String, ◌||◌, none, List, ◌!=◌, int_eq, is_none, int_at, bool_at, if◌then◌else◌,
  Result, ok, ◌>>=◌, ◌>>◌, refuse,
}
use sonarr_remediator.Sonarr.{
  QueueRow, Preview, Command, History, Blocklist, Episode, EpisodeFile, Series, Profile,
}
use sonarr_remediator.Policy.Profile.{validate_profile, current_acceptable}

-- The answers to the reads of one pass: HTTP stays outside. Nothing is assumed of them.
pub record Client : Type 0 where
  pub queue : Result (List QueueRow)
  pub preview : String → Result (List Preview)
  -- `MediaManagement.Propers`.
  pub media : Result String
  pub command : ℤ → Result Command
  pub history : String → Result (List History)
  pub blocklist : Result (List Blocklist)
  pub episode : ℤ → Result Episode
  pub episode_file : ℤ → Result EpisodeFile
  pub series : ℤ → Result Series
  pub profile : ℤ → Result Profile

-- `sonarr.EpisodeFile{}`.
abbrev pub empty_file : EpisodeFile
empty_file = record {
  id = pos 0;
  series_id = pos 0;
  path = "";
  quality = record { quality = none; revision = none };
  score = none;
  formats = none;
}

-- The file of an episode that has one.
unfoldable pub current_file : Client → Episode → Profile → Result EpisodeFile
current_file client ep p = do
  refuse (leb_ℤ (int_at ep.episode_file_id) (pos 0)) "invalid current episode file reference"
  f ← client.episode_file (int_at ep.episode_file_id)
  refuse (f.series_id != ep.series_id) "current episode file series mismatch"
  known ← current_acceptable f p
  ok f

-- The end of `current`: an episode without a file has the empty file.
unfoldable pub library_file : Client → Episode → Profile → Result EpisodeFile
library_file client ep p =
    if bool_at ep.has_file
    then current_file client ep p
    else refuse (int_at ep.episode_file_id != pos 0) "contradictory missing-file state"
      >> ok empty_file

-- `current`: the episode, its file and its profile now. On an error the source's other results are not
-- used.
unfoldable pub current : Client → ℤ → Result (Episode × EpisodeFile × Profile)
current client id = do
  ep ← client.episode id
  refuse
      (is_none ep.has_file
        || is_none ep.episode_file_id
        || is_none ep.monitored
        || leb_ℤ ep.series_id (pos 0))
      "incomplete current episode"
  s ← client.series ep.series_id
  p ← client.profile s.quality_profile_id
  validate_profile p
  f ← library_file client ep p
  ok (ep, f, p)
