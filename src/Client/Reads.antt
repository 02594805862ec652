-- ===== src/Client/Reads.antt =====
-- internal/sonarr/client.go: what the service reads and writes, over the exchanges of one cycle.
pub mod Cache
pub mod Lawful
pub mod Sent
use sonarr_remediator.Base.{
  ℤ, pos, ltb_ℤ, leb_ℤ, ℕ, zero, suc, String, starts_with, is_blank, Bool, true, false, ◌&&◌, ◌||◌,
  not, Option, none, some, List, [], ◌∷◌, ◌==◌, ◌!=◌, int_eq, string_eq, if◌then◌else◌, is_none,
  int_at, any, elements, Dict, lookup, insert, Result, ok, err, ◌>>=◌, ◌>>◌, refuse,
}
use sonarr_remediator.Sonarr.{
  QueueRow, Preview, Command, History, Blocklist, Episode, EpisodeFile, Series, Profile, ImportFile,
}
use sonarr_remediator.Service.Client.{Client}
use sonarr_remediator.Client.{Exchange, get, post, delete, receive, request, decode, acknowledge}
use sonarr_remediator.Client.Pages.{Page, pages}

-- `Version`, of the decoded status.
unfoldable pub check_version : String → Result String
check_version v =
    refuse (not (starts_with v "4.")) "unsupported Sonarr version: requires v4" >> ok v

-- A row that names no download: not yet handed to a client.
unfoldable pub is_delayed : QueueRow → Bool
is_delayed row =
    row.tracked_state == ""
    && (row.status == "delay"
        || row.status == "downloadClientUnavailable"
        || row.status == "fallback")

-- The loop over the rows of `Queue`.
unfoldable pub check_queue : List QueueRow → Result (Unit {0})
check_queue [] = ok tt
check_queue (row ∷ rest) =
    refuse (ltb_ℤ (int_at row.series_id) (pos 0) || ltb_ℤ (int_at row.episode_id) (pos 0))
      "invalid queue target identity"
    >> (refuse (is_blank row.download_id && not (is_delayed row))
          "missing tracked queue download identity"
        >> check_queue rest)

abbrev pub row_id : QueueRow → ℤ
row_id q = q.id

abbrev after_rows : List QueueRow → Result (List QueueRow)
after_rows rows = check_queue rows >> ok rows

-- The tries of `Queue` that are left: the next one is `i`. `cancelled i` is `ctx.Err() != nil` after it.
-- A list that was read but fails a check is not read again.
unfoldable pub queue_tries :
    (ℕ → ℕ → Result (Page QueueRow)) → (ℕ → Bool) → ℕ → ℕ → String → Result (List QueueRow)
queue_tries fetch cancelled zero i last = err last
queue_tries fetch cancelled (suc left) i last = elim (pages row_id (fetch i) 1000) [
  | ok rows ↦ after_rows rows
  | err e ↦ elim (cancelled i) [ true ↦ err e | false ↦ queue_tries fetch cancelled left (suc i) e ]
]

-- `Queue`: three tries, each of which reads its own pages.
unfoldable pub queue : (ℕ → ℕ → Result (Page QueueRow)) → (ℕ → Bool) → Result (List QueueRow)
queue fetch cancelled = queue_tries fetch cancelled 3 0 ""

-- `resource`, where nothing is cached: a resource has the id that was asked for.
unfoldable pub checked_resource {ℓ} : {T : Type ℓ} → (T → ℤ) → ℤ → Result T → Result T
checked_resource get_id id answer = answer >>= λ v.
    refuse (leb_ℤ id (pos 0) || get_id v != id) "mismatched required Sonarr identity" >> ok v

-- `resource`, with the cache of its path: none before the first cycle. Errors are kept too.
unfoldable pub resource {ℓ} :
    {T : Type ℓ}
    → (T → ℤ)
    → ℤ
    → Result T
    → Option (Dict ℤ (Result T))
    → Result T × Option (Dict ℤ (Result T))
resource get_id id answer none = (checked_resource get_id id answer, none)
resource get_id id answer (some cache) = elim (lookup id cache) [
  | some hit ↦ (hit, some cache)
  | none ↦ (
    checked_resource get_id id answer,
    some (insert id (checked_resource get_id id answer) cache),
  )
]

-- `History`: the events of one download.
unfoldable pub check_history : String → List History → Result (List History)
check_history id events =
    refuse (any (λ (h : History). h.download_id != id) events) "history download identity mismatch"
    >> ok events

-- `Submit`.
unfoldable pub check_command : Command → Result Command
check_command cmd =
    refuse (leb_ℤ cmd.id (pos 0)) "missing command acknowledgement identity" >> ok cmd

-- `Preview`: a null list is refused.
abbrev pub some_list {ℓ} : {T : Type ℓ} → Option (List T) → Result (List T)
some_list none = err "null preview"
some_list (some xs) = ok xs

-- The exchanges of one cycle, by what is asked.
pub record Exchanges : Type 0 where
  pub queue_page : ℕ → ℕ → Exchange (Page QueueRow)
  pub cancelled : ℕ → Bool
  pub preview : String → Exchange (Option (List Preview))
  pub media : Exchange String
  pub history_page : String → ℕ → Exchange (Page History)
  pub blocklist_page : ℕ → Exchange (Page Blocklist)
  pub command : ℤ → Exchange Command
  pub episode : ℤ → Exchange Episode
  pub episode_file : ℤ → Exchange EpisodeFile
  pub series : ℤ → Exchange Series
  pub profile : ℤ → Exchange Profile

module _ (api_error : ℤ → String → String) where
  -- A read.
  abbrev pub read {ℓ} : {T : Type ℓ} → Exchange T → Result T
  read = receive api_error decode

  -- The client of a cycle. Each resource is requested once in a cycle, so its answer is a function of the
  -- id.
  unfoldable pub client_of : Exchanges → Client
  client_of x = record {
    queue = queue (λ i n. read (x.queue_page i n)) x.cancelled;
    preview = λ id. read (x.preview id) >>= some_list;
    media = read x.media;
    command = λ id. checked_resource (λ (c : Command). c.id) id (read (x.command id));
    history = λ id.
        pages (λ (h : History). h.id) (λ n. read (x.history_page id n)) 100 >>= check_history id;
    blocklist = pages (λ (b : Blocklist). b.id) (λ n. read (x.blocklist_page n)) 100;
    episode = λ id. checked_resource (λ (e : Episode). e.id) id (read (x.episode id));
    episode_file = λ id. checked_resource (λ (f : EpisodeFile). f.id) id (read (x.episode_file id));
    series = λ id. checked_resource (λ (s : Series). s.id) id (read (x.series id));
    profile = λ id. checked_resource (λ (p : Profile). p.id) id (read (x.profile id));
  }

  -- `Submit` and `Remove`: whether something was sent, and the answer.
  unfoldable pub submit : Bool → Exchange Command → Bool × Result Command
  submit dry_run x =
      let (sent, answer) = request api_error dry_run post decode x in
      (sent, answer >>= check_command)

  unfoldable pub remove : Bool → Exchange (Unit {0}) → Bool × Result (Unit {0})
  remove dry_run x = request api_error dry_run delete acknowledge x
