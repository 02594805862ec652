-- ===== src/Service/Manual.antt =====
-- internal/service/manual.go: the report of a manual request, as the cycle fills it in. A background cycle has
-- none, and then nothing is filled in. `run` is `s.request` and `s.report`.
use sonarr_remediator.Base.{
  ℤ, pos, Time, Duration, ℕ, ltb, ltb_ℤ, ◌-int◌, max_ℤ, min_ℤ, String, Bool, true, false, ◌&&◌,
  ◌||◌, not, Option, none, some, List, [], ◌∷◌, ◌++◌, map, drop, ◌==◌, string_eq, int_eq,
  if◌then◌else◌, is_empty, contains, length, int_at, lookup, sort_ints, sort_strings, Dict, Result,
  ok, err, Bool_beq,
}
use sonarr_remediator.Sonarr.{QueueRow}
use sonarr_remediator.Config.{Config}
use sonarr_remediator.Control.{Request, max_downloads}
use sonarr_remediator.Control.Report.{Report, Item}
use sonarr_remediator.Policy.Observation.{
  Observation, Decision, Kind, remove_redundant, remove_unusable, remove_blocked,
}
use sonarr_remediator.State.{Continuation, pending_search, Issue, Attempt, Operation, Data}
use sonarr_remediator.State.Retention.{budget}
use sonarr_remediator.State.Receipts.{kind_text, outcome_text, effect}
use sonarr_remediator.Service.Gate.{is_import}
use sonarr_remediator.Service.Observe.{is_defer}
use sonarr_remediator.Service.Execute.{overrides, group}
use sonarr_remediator.Service.Search.{is_remove_unusable}
use sonarr_remediator.Service.Scan.{cleanup_elapsed, cleanup_wait, download_ids}

abbrev pub Run : Type 0
Run = Option (Request × Report)

abbrev pub is_pending_search : Continuation → Bool
is_pending_search pending_search = true
is_pending_search _ = false

-- `selected`.
unfoldable pub selected : Run → String → Bool
selected none id = true
selected (some run) id = is_empty run.0.downloads || contains run.0.downloads id

-- `reportItem` gives the first item of the download, to be read or changed.
unfoldable pub report_item : String → List Item → Option Item
report_item id [] = none
report_item id (item ∷ rest) =
    let later = report_item id rest in if item.download_id == id then some item else later

unfoldable pub update_item : String → (Item → Item) → List Item → List Item
update_item id f [] = []
update_item id f (item ∷ rest) =
    let later = update_item id f rest in
    if item.download_id == id then f item ∷ rest else item ∷ later

unfoldable pub update_run : String → (Item → Item) → Run → Run
update_run id f none = none
update_run id f (some (request, report)) =
    some (request, record report { items = update_item id f report.items })

-- `item.Disposition == "not_present"` of the item, if there is one.
unfoldable pub not_present : Run → String → Bool
not_present none id = false
not_present (some run) id = elim (report_item id run.1.items) [
  | none ↦ false
  | some item ↦ item.disposition == "not_present"
]

-- `itemBlocked`.
unfoldable pub item_blocked : String → String → String → Run → Run
item_blocked id disposition reason =
    update_run id λ item. record item { disposition = disposition; reason = reason }

-- `previewReason`.
unfoldable pub preview_reason : Observation → String → String
preview_reason o reason =
    if is_empty o.preview
    then "empty or unavailable manual-import preview"
    else if not o.membership_complete || is_empty o.intended
    then "incomplete intended episode membership"
    else reason

-- A decision that deletes the download from its client.
abbrev pub deletes : Kind → Bool
deletes remove_redundant = true
deletes remove_unusable = true
deletes remove_blocked = true
deletes _ = false

-- The wait that applies to a decision, and what of it has elapsed.
unfoldable pub wait_of : Config → Decision → Duration
wait_of c d = if is_import d.kind then c.recovery.wait else cleanup_wait c d

unfoldable pub elapsed_of : Decision → Issue → Duration
elapsed_of d i = if is_import d.kind then i.elapsed else cleanup_elapsed i

-- `describe`, on the item.
unfoldable pub describe_item : Config → Bool → Issue → Observation → Decision → Item → Item
describe_item c override i o d item =
    let wait = wait_of c d in
    let observed = elapsed_of d i in
    let remaining = max_ℤ (pos 0) (wait -int observed) in
    record item {
      action = kind_text d.kind;
      episodes = d.episode_ids;
      preview_files = length o.preview;
      membership_complete = o.membership_complete;
      wait = wait;
      observed = observed;
      remaining = remaining;
      wait_bypassed = override && ltb_ℤ (pos 0) remaining && not (is_defer d.kind);
      client_deletion = deletes d.kind;
      blocklist = d.blocklist;
      replacement_search = is_remove_unusable d.kind && c.cleanup.replacement_search;
    }

-- `describe`.
unfoldable pub describe : Config → Issue → Observation → Decision → Run → Run
describe c i o d run = update_run i.download_id (describe_item c (overrides run) i o d) run

-- `recordEffects`, with the attempts from the index `before` on.
unfoldable pub record_effect : Item → List Attempt → Item
record_effect item [] = item
record_effect item (a ∷ rest) =
    record_effect
      (record item {
        effects = item.effects ++ effect a ∷ [];
        disposition = outcome_text a.outcome;
        reason = a.reason;
      })
      rest

unfoldable pub record_effects : String → ℕ → List Attempt → Run → Run
record_effects id before attempts = update_run id λ item. record_effect item (drop before attempts)

-- `sameRequest`.
unfoldable pub same_texts : List String → List String → Bool
same_texts [] [] = true
same_texts (x ∷ xs) (y ∷ ys) = x == y && same_texts xs ys
same_texts _ _ = false

unfoldable pub same_request : Request → Request → Bool
same_request a b =
    a.version == b.version
    && Bool_beq a.execute b.execute
    && Bool_beq a.override_wait b.override_wait
    && same_texts a.downloads b.downloads
    && a.issued == b.issued
    && a.expires == b.expires

-- The downloads of a request without a selection: those of the queue, and those with a search to come.
unfoldable pub add_searches : Dict String Operation → List String → List String
add_searches [] ids = ids
add_searches ((id, op) ∷ rest) ids =
    add_searches rest
      (if is_pending_search op.continuation && not (contains ids id) then ids ++ id ∷ [] else ids)

unfoldable pub requested : Request → List QueueRow → Dict String Operation → List String
requested r queue operations =
    if is_empty r.downloads then add_searches operations (download_ids queue) else r.downloads

unfoldable pub row_episodes : List QueueRow → List ℤ → List ℤ
row_episodes [] ids = ids
row_episodes (r ∷ rest) ids = row_episodes rest (
    if ltb_ℤ (pos 0) (int_at r.episode_id) && not (contains ids (int_at r.episode_id))
    then ids ++ int_at r.episode_id ∷ []
    else ids)

abbrev pub elapsed_at : Option Issue → Duration
elapsed_at none = pos 0
elapsed_at (some i) = i.elapsed

-- The item of a download of the queue.
unfoldable pub present_item : Config → Data → String → List QueueRow → Item
present_item c s id rows =
    let observed = elapsed_at (lookup id s.issues) in
    record {
      download_id = id;
      queue_rows = length rows;
      action = "defer";
      disposition = "blocked";
      reason = "protected or noneligible tracked state";
      episodes = sort_ints (row_episodes rows []);
      preview_files = 0;
      membership_complete = false;
      wait = c.recovery.wait;
      observed = observed;
      remaining = max_ℤ (pos 0) (c.recovery.wait -int observed);
      wait_bypassed = false;
      client_deletion = false;
      blocklist = false;
      replacement_search = false;
      effects = [];
    }

abbrev pub absent_reason : String
absent_reason = "download absent from complete queue and pending search continuations"

-- The item of a download that the queue does not have.
unfoldable pub absent_item : Option Operation → Item → Item
absent_item none item = record item { disposition = "not_present"; reason = absent_reason }
absent_item (some op) item =
    if is_pending_search op.continuation
    then record item { disposition = "blocked"; reason = op.reason; episodes = op.episode_ids }
    else record item { disposition = "not_present"; reason = absent_reason }

unfoldable pub initial_item : Config → Data → List QueueRow → String → Item
initial_item c s queue id =
    let rows = group id queue in
    let item = present_item c s id rows in
    if is_empty rows then absent_item (lookup id s.operations) item else item

-- `initializeReport`, on the request and its report.
unfoldable pub initialize_report :
    Config → Data → Time → List QueueRow → Request × Report → Result (Request × Report)
initialize_report c s now queue (request, report) =
    let ids = requested request queue s.operations in
    let used = pos (budget now s) in
    if ltb max_downloads (length ids)
    then err "selection exceeds 1000 downloads; narrow the download IDs"
    else ok (
      request,
      record report {
        queue_rows = length queue;
        shared_downloads = length (download_ids queue);
        items = map (initial_item c s queue) (sort_strings ids);
        budget = record {
          per_cycle = c.limits.mutations_per_scan;
          hour_limit = c.limits.mutations_per_hour;
          hour_used = used;
          available =
              max_ℤ (pos 0)
                (min_ℤ c.limits.mutations_per_scan (c.limits.mutations_per_hour -int used));
        };
      },
    )
