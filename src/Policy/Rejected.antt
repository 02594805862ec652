-- ===== src/Policy/Rejected.antt =====
-- internal/policy/policy.go, `RejectedCleanup`: the removal of a download that Sonarr refuses to
-- import. Each loop halts where the source returns
-- from the middle with `(d, false)`.
pub mod Collecting
pub mod Safety
use sonarr_remediator.Base.{
  ℤ, pos, ltb_ℤ, leb_ℤ, String, is_blank, Bool, true, false, ◌&&◌, ◌||◌, not, List, [], ◌∷◌, ◌++◌,
  ◌==◌, ◌!=◌, string_eq, int_eq, if◌then◌else◌, contains, is_empty, is_none, int_at, elements,
  sort_ints,
}
use sonarr_remediator.Sonarr.{QueueRow, Preview, Episode, Rejection}
use sonarr_remediator.Config.{Config}
use sonarr_remediator.Policy.Observation.{
  Observation, Decision, defer, remove_blocked, has_executable_warning, eligible, series_allowed,
  client_allowed, competing,
}
use sonarr_remediator.Policy.Fingerprint.{Digest, fingerprint, series_at}
use sonarr_remediator.Policy.Unexpected.{is_unexpected_episode}

-- `d.SeriesIDs` and `d.EpisodeIDs` while they are collected.
pub record Targets : Type 0 where
  pub series_ids : List ℤ
  pub episode_ids : List ℤ

-- A return from the middle of a loop keeps the targets that were collected by then.
pub data Walk {ℓ} (A : Type ℓ) : Type ℓ where
  halted : Targets → Walk A
  going : A → Walk A

infixl 5 ◌>>=◌ ◌>>◌
abbrev pub ◌>>=◌ {ℓ κ} : {A : Type ℓ} {B : Type κ} → Walk A → (A → Walk B) → Walk B
halted t >>= f = halted t
going a >>= f = f a

abbrev pub ◌>>◌ {ℓ} : {B : Type ℓ} → Walk (Unit {0}) → Walk B → Walk B
m >> k = m >>= λ _. k

abbrev pub require : Targets → Bool → Walk (Unit {0})
require t true = going tt
require t false = halted t

add_new : ℤ → List ℤ → List ℤ
add_new id ids = if contains ids id then ids else ids ++ id ∷ []

-- `addTarget`: 0 stands for an unknown id.
unfoldable pub add_target : Config → Targets → ℤ → ℤ → Walk Targets
unfolding add_new
add_target c t series episode =
    if ltb_ℤ series (pos 0) || ltb_ℤ episode (pos 0)
    then halted t
    else if ltb_ℤ (pos 0) series && not (series_allowed c series)
    then halted t
    else going (record {
      series_ids = if ltb_ℤ (pos 0) series then add_new series t.series_ids else t.series_ids;
      episode_ids = if ltb_ℤ (pos 0) episode then add_new episode t.episode_ids else t.episode_ids;
    })

-- The loop over the queue rows. The flag is `knownQueueSeries`.
unfoldable pub collect_rows :
    Config → String → Targets × Bool → List QueueRow → Walk (Targets × Bool)
collect_rows c download acc [] = going acc
collect_rows c download (t, known) (q ∷ rest) =
    require t (q.download_id == download && client_allowed c q.download_client)
    >> (add_target c t (int_at q.series_id) (int_at q.episode_id) >>= λ t'.
        collect_rows c download (t', known || ltb_ℤ (pos 0) (int_at q.series_id)) rest)

unfoldable pub collect_episodes : Config → Targets → List Episode → Walk Targets
collect_episodes c t [] = going t
collect_episodes c t (ep ∷ rest) =
    add_target c t ep.series_id ep.id >>= λ t'. collect_episodes c t' rest

-- The loop over a file's rejections, with `rejected` and `episodeMismatch`.
unfoldable pub collect_rejections : Targets → Bool × Bool → List Rejection → Walk (Bool × Bool)
collect_rejections t acc [] = going acc
collect_rejections t (rejected, mismatch) (r ∷ rest) =
    require t (not (is_blank r.reason) && (r.kind == "temporary" || r.kind == "permanent"))
    >> collect_rejections t
        (true, mismatch || (r.kind == "permanent" && is_unexpected_episode r.reason)) rest

-- The variables of the loop over the previewed files.
pub record Collected : Type 0 where
  pub targets : Targets
  pub paths : List String
  pub ids : List ℤ
  pub rejected : Bool
  pub mismatch : Bool

-- What the loop over the files reads.
pub record Inspection : Type 0 where
  pub download : String
  pub warning : Bool
  pub series_optional : Bool

unfoldable pub file_refused : Inspection → Collected → Preview → Bool
file_refused w a f =
    leb_ℤ f.id (pos 0)
    || contains a.ids f.id
    || is_blank f.path
    || contains a.paths f.path
    || f.download_id != w.download
    || (not w.warning && is_none f.rejections)

unfoldable pub collect_file : Config → Inspection → Collected → Preview → Walk Collected
collect_file c w a f =
    require a.targets (not (file_refused w a f))
    >> require a.targets (w.series_optional || ltb_ℤ (pos 0) (series_at f.series))
    >> (add_target c a.targets (series_at f.series) (pos 0) >>= λ t.
        collect_episodes c t f.episodes >>= λ t'.
        collect_rejections t' (a.rejected, a.mismatch) (elements f.rejections) >>= λ flags.
        going (record {
          targets = t';
          paths = f.path ∷ a.paths;
          ids = f.id ∷ a.ids;
          rejected = flags.0;
          mismatch = flags.1;
        }))

unfoldable pub collect_files : Config → Inspection → Collected → List Preview → Walk Collected
collect_files c w a [] = going a
collect_files c w a (f ∷ rest) = collect_file c w a f >>= λ a'. collect_files c w a' rest

unfoldable pub restricted : Config → Bool
restricted c =
    not (is_empty c.scope.include_series_ids) || not (is_empty c.scope.exclude_series_ids)

abbrev pub no_targets : Targets
no_targets = record { series_ids = []; episode_ids = [] }

-- What the loop over the files begins with.
abbrev pub inspection : Config → Observation → Bool → Inspection
inspection c o known = record {
  download = o.download_id;
  warning = has_executable_warning o.rows;
  series_optional = not (restricted c) || known;
}

abbrev pub uncollected : Observation → Targets → Collected
uncollected o t = record {
  targets = t;
  paths = [];
  ids = [];
  rejected = has_executable_warning o.rows;
  mismatch = false;
}

-- Both collecting loops; a halt is one of the returns with `false`.
unfoldable pub inspect : Config → Observation → Walk Collected
inspect c o =
    require no_targets
      (eligible o.rows && not (is_empty o.preview && not (has_executable_warning o.rows)))
    >> (collect_rows c o.download_id (no_targets, false) o.rows >>= λ (t, known).
        require t (not (restricted c && not known && is_empty o.preview))
        >> collect_files c (inspection c o known) (uncollected o t) o.preview)

-- `d` as it starts, with targets.
abbrev pub pending : String → Targets → Decision
pending print t = record {
  kind = defer;
  reason = "";
  fingerprint = print;
  episode_ids = t.episode_ids;
  series_ids = t.series_ids;
  files = [];
  blocklist = false;
  episode_mismatch = false;
  executable_warning = false;
}

-- The `switch` at the end, for a rejected download.
unfoldable pub settle : Config → Observation → String → Collected → Decision
settle c o print a =
    let warning = has_executable_warning o.rows in
    let t : Targets = record {
      series_ids = sort_ints a.targets.series_ids;
      episode_ids = sort_ints a.targets.episode_ids;
    } in
    let d = pending print t in
    if not c.cleanup.enabled
    then record d { reason = "Sonarr rejects import; cleanup disabled" }
    else if competing o.queue o.download_id t.episode_ids
    then record d { reason = "competing active or unidentified download" }
    else record d {
      kind = remove_blocked;
      reason =
          if warning
          then "Sonarr warns of an executable file; remove the failed shared download"
          else if a.mismatch
          then "Sonarr reports unexpected episodes for the folder; remove the failed shared download"
          else "Sonarr rejects import; remove the rejected shared download";
      episode_mismatch = a.mismatch;
      executable_warning = warning;
    }

-- `RejectedCleanup`: the decision, and whether Sonarr's rejection is in scope.
unfoldable pub rejected_cleanup : Digest → Config → Observation → Decision × Bool
rejected_cleanup digest c o =
    let print = fingerprint digest o in
    elim (inspect c o) [
      | halted t ↦ (pending print t, false)
      | going a ↦
          if a.rejected then (settle c o print a, true) else (pending print a.targets, false)
    ]
