-- ===== src/Service/Search.antt =====
-- internal/service/verify.go, `searchDecision` and `search`: the replacement search after a verified
-- removal. `submit` is the client's write, with the id of the accepted command.
pub mod Justified
pub mod Life
pub mod Tests
use sonarr_remediator.Base.{
  ℤ, pos, Time, String, Bool, true, false, ◌&&◌, ◌||◌, not, Option, none, some, List, [], ◌∷◌, ◌++◌,
  ◌==◌, ◌!=◌, int_eq, string_eq, if◌then◌else◌, is_none, is_empty, any, bool_at, lookup, sort_ints,
  Dict, Result, ok, err,
}
use sonarr_remediator.Sonarr.{QueueRow, Episode, EpisodeFile, Profile, Series}
use sonarr_remediator.Config.{Config}
use sonarr_remediator.Control.{Request}
use sonarr_remediator.Control.Report.{Report}
use sonarr_remediator.Policy.Observation.{
  Decision, Kind, search, remove_unusable, series_allowed, client_allowed, competing,
}
use sonarr_remediator.Policy.Profile.{acceptable}
use sonarr_remediator.State.{
  Outcome, verified, finished, search_attempted, Issue, Attempt, Operation, Data,
}
use sonarr_remediator.Service.Gate.{gate}
use sonarr_remediator.Service.Attempts.{has_pending, reserve, response}
use sonarr_remediator.Service.Client.{Client, current}
use sonarr_remediator.Service.Execute.{overrides, respond_last}

-- The first attempt with an id.
unfoldable pub find_attempt : ℤ → List Attempt → Option Attempt
find_attempt id [] = none
find_attempt id (a ∷ rest) =
    let later = find_attempt id rest in if a.id == id then some a else later

abbrev pub is_search : Kind → Bool
is_search search = true
is_search _ = false

abbrev pub is_remove_unusable : Kind → Bool
is_remove_unusable remove_unusable = true
is_remove_unusable _ = false

abbrev pub is_verified : Outcome → Bool
is_verified verified = true
is_verified _ = false

-- A search for the download that was made before.
unfoldable pub is_searched : String → Attempt → Bool
is_searched id a = not a.dry_run && a.download_id == id && is_search a.kind

-- What the loop over the episodes ends with: a reason against the search, an error of a read, or the
-- episodes to search for.
pub data Wanted : Type 0 where
  excluded unread : String → Wanted
  chosen : List ℤ → Wanted

-- An episode whose series and state are known and in scope joins if it is monitored and lacks an
-- acceptable file.
unfoldable pub is_missing : Series → Episode × EpisodeFile × Profile → Bool
is_missing s (ep, f, p) = bool_at s.monitored && bool_at ep.monitored && not (acceptable f p)

unfoldable pub search_targets : Config → Client → List ℤ → List ℤ → Wanted
search_targets c client found [] = chosen found
search_targets c client found (id ∷ rest) = elim (current client id) [
  | err e ↦ unread e
  | ok now ↦ elim (series_allowed c now.0.series_id) [
    | false ↦ excluded "affected series excluded"
    | true ↦ elim (client.series now.0.series_id) [
      | err e ↦ unread e
      | ok s ↦ elim (is_none s.monitored) [
        | true ↦ excluded "missing series monitored state"
        | false ↦
            search_targets c client (if is_missing s now then found ++ id ∷ [] else found) rest
      ]
    ]
  ]
]

-- The result of `searchDecision`: no search, with the operation as it is left; a read that failed; a store
-- without the issue; or the decision.
pub data Sought : Type 0 where
  refused : Operation → Sought
  failed_read missing_issue : String → Sought
  found : Decision → Sought

abbrev pub because : Operation → String → Sought
because op why = refused (record op { reason = why })

abbrev pub finished_because : Operation → String → Sought
finished_because op why = refused (record op { reason = why; continuation = finished })

abbrev pub search_of : Attempt → List ℤ → Decision
search_of parent targets = record {
  kind = search;
  reason = "verified unusable removal; monitored episodes still missing acceptable files";
  fingerprint = parent.fingerprint;
  episode_ids = sort_ints targets;
  series_ids = parent.decision.series_ids;
  files = [];
  blocklist = false;
  episode_mismatch = false;
  executable_warning = false;
}

module _ (c : Config) (client : Client) (manual : Option (Request × Report)) (cancelled : Bool)
    (now : Time) where
  -- From the chosen episodes on.
  unfoldable pub seek_targets : Data → Operation → Attempt → List QueueRow → Wanted → Sought
  seek_targets s op parent queue (excluded why) = because op why
  seek_targets s op parent queue (unread e) = failed_read e
  seek_targets s op parent queue (chosen targets) =
      if is_empty targets
      then finished_because op "no monitored missing episodes require replacement"
      else if competing queue "" targets
      then because op "competing active download"
      else elim (gate c (overrides manual) op.download_id (search_of parent targets) now
          op.removal_id s) [
            | some why ↦ because op why
            | none ↦ if cancelled then refused op else found (search_of parent targets)
          ]

  -- From the removal on.
  unfoldable pub seek_after : Data → Operation → Attempt → Sought
  seek_after s op parent =
      if any (is_searched op.download_id) s.attempts
      then finished_because op "search attempt already recorded"
      else elim client.queue [
        | err e ↦ failed_read e
        | ok queue ↦ elim (lookup op.download_id s.issues) [
          | none ↦ missing_issue "search operation has no original observation"
          | some i ↦
              if any (λ (r : QueueRow). not (client_allowed c r.download_client)) i.rows
              then because op "original download client excluded"
              else seek_targets s op parent queue (search_targets c client [] op.episode_ids)
        ]
      ]

  -- `searchDecision`.
  unfoldable pub search_decision : Data → Operation → Sought
  search_decision s op =
      if not c.cleanup.enabled || not c.cleanup.replacement_search
      then because op "replacement search permission disabled"
      else if s.status.read_failure != "" || has_pending op.download_id s
      then refused op
      else elim (find_attempt op.removal_id s.attempts) [
        | none ↦ because op "verified removal evidence unavailable"
        | some parent ↦
            if not (is_remove_unusable parent.kind) || not (is_verified parent.outcome)
            then because op "verified removal evidence unavailable"
            else seek_after s op parent
      ]

-- The store after `search`, the episodes that were searched for, and an error.
pub record Searched : Type 0 where
  pub store : Data
  pub sent : Option (List ℤ)
  pub error : Option String

-- `op` as it is left, in the store.
unfoldable pub put_operation : Operation → Dict String Operation → Dict String Operation
put_operation op [] = []
put_operation op ((k, o) ∷ rest) =
    (k, if k == op.download_id then op else o) ∷ put_operation op rest

-- `a.Reason`, of the attempt that was reserved last.
unfoldable pub last_reason : List Attempt → String
last_reason [] = ""
last_reason (a ∷ []) = a.reason
last_reason (a ∷ b ∷ rest) = last_reason (b ∷ rest)

abbrev pub title_of : Option Issue → String
title_of none = ""
title_of (some i) = i.title

-- The end of `search`: the operation records the attempt.
abbrev pub search_sent : Data → Operation → List Attempt → Data
search_sent t op attempts = record t {
  attempts = attempts;
  operations =
      put_operation (record op { continuation = search_attempted; reason = last_reason attempts })
        t.operations;
}

module _ (c : Config) (client : Client) (submit : List ℤ → Result ℤ)
    (manual : Option (Request × Report)) (cancelled : Bool) (now later : Time) where
  -- `search`, from the decision on; the clock is read anew for the reservation.
  unfoldable pub search_after : Data → Operation → Sought → Searched
  search_after s op (refused left) = record {
    store = record s { operations = put_operation left s.operations };
    sent = none;
    error = none;
  }
  search_after s op (failed_read e) = record {
    store = record s { status = record (s.status) { read_failure = e } };
    sent = none;
    error = none;
  }
  search_after s op (missing_issue e) = record { store = s; sent = none; error = some e }
  search_after s op (found d) =
      elim (reserve manual s op.download_id (title_of (lookup op.download_id s.issues)) d later
        []) [
          | err e ↦ record { store = s; sent = none; error = some e }
          | ok t ↦ record {
            store = search_sent t op (respond_last (submit d.episode_ids) t.attempts);
            sent = some d.episode_ids;
            error = none;
          }
        ]

  -- `search`.
  unfoldable pub search_step : Data → Operation → Searched
  search_step s op = search_after s op (search_decision c client manual cancelled now s op)
