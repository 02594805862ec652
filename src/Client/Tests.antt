-- ===== src/Client/Tests.antt =====
-- Concrete exchanges for internal/sonarr/client.go.
use sonarr_remediator.Base.{
  ℤ, pos, ◌<ℤ◌, int_eq, int_beq, String, ◌≡◌, refl, arith, false, not, some, List, [], ◌∷◌, Dict,
  lookup, Result, ok, err,
}
use sonarr_remediator.Sonarr.{QueueRow, Command, Series}
use sonarr_remediator.Policy.Tests.{row, show}
use sonarr_remediator.Client.{Exchange, unreachable, answered, empty, parsed, decode, acknowledge}
use sonarr_remediator.Client.Pages.{pages}
use sonarr_remediator.Client.Pages.Fetched.{IsFresh, IsComplete, pages-IsComplete}
use sonarr_remediator.Client.Pages.Honest.{page_of, pages-page_of}
use sonarr_remediator.Client.Reads.{
  row_id, checked_resource, resource, Exchanges, client_of, submit, remove,
}
use sonarr_remediator.Client.Reads.Cache.{resource-again, IsCoherent, resource-IsCoherent}
use sonarr_remediator.Client.Reads.Lawful.{IsLawful, client_of-IsLawful}
use sonarr_remediator.Client.Reads.Sent.{IsSuccess, mutations-IsSuccess}

abbrev rows : List QueueRow
rows = row ∷ record row { id = pos 2 } ∷ []

rows-IsFresh : IsFresh row_id [] rows
unfolding int_beq
rows-IsFresh = (omega arith, refl, (omega arith, refl, tt))

pages-page_of_example : pages row_id (λ n. ok (page_of rows n)) 1 ≡ ok rows
pages-page_of_example = pages-page_of row_id rows 1 rows-IsFresh (omega arith) (omega arith)

rows_are_read : pages row_id (λ n. ok (page_of rows n)) 2 ≡ ok rows
rows_are_read = pages-page_of row_id rows 2 rows-IsFresh (omega arith) (omega arith)

pages-IsComplete_example : IsComplete row_id (λ n. ok (page_of rows n)) 2 rows
pages-IsComplete_example = pages-IsComplete row_id (λ n. ok (page_of rows n)) 2 rows rows_are_read

abbrev series_id : Series → ℤ
series_id s = s.id

resource-again_example :
    resource series_id (pos 5) (err "gone") (resource series_id (pos 5) (ok show) (some [])).1
    ≡ resource series_id (pos 5) (ok show) (some [])
resource-again_example = resource-again series_id (pos 5) (ok show) (err "gone") []

empty-IsCoherent : IsCoherent series_id (λ _. ok show) []
unfolding lookup
empty-IsCoherent id hit h = absurd cc

resource-IsCoherent_example :
    ((resource series_id (pos 5) (ok show) (some [])).0
      ≡ checked_resource series_id (pos 5) (ok show))
    × ((after : Dict ℤ (Result Series)) × ((resource series_id (pos 5) (ok show) (some [])).1
          ≡ some after)
        × IsCoherent series_id (λ _. ok show) after)
resource-IsCoherent_example =
    resource-IsCoherent series_id (λ _. ok show) (pos 5) [] empty-IsCoherent

abbrev plain_error : ℤ → String → String
plain_error _ why = why

-- A Sonarr with the two rows, and nothing else.
abbrev two_rows : Exchanges
two_rows = record {
  queue_page = λ _ n. answered (pos 200) false 900 (parsed (page_of rows n));
  cancelled = λ _. false;
  preview = λ _. unreachable;
  media = unreachable;
  history_page = λ _ _. unreachable;
  blocklist_page = λ _. unreachable;
  command = λ _. unreachable;
  episode = λ _. unreachable;
  episode_file = λ _. unreachable;
  series = λ _. answered (pos 200) false 90 (parsed show);
  profile = λ _. unreachable;
}

client_of-IsLawful_example : IsLawful (client_of plain_error two_rows)
client_of-IsLawful_example = client_of-IsLawful plain_error two_rows

abbrev accepted : Exchange Command
accepted =
    answered (pos 201) false 80
      (parsed (record { id = pos 4; name = "ManualImport"; status = "queued" }))

abbrev removed : Exchange (Unit {0})
removed = answered (pos 200) false 0 empty

mutations-IsSuccess_example :
    ((submit plain_error false accepted).0 ≡ not false)
    × ((remove plain_error false removed).0 ≡ not false)
    × ((cmd : Command)
        → (submit plain_error false accepted).1 ≡ ok cmd
        → (false ≡ false) × (pos 0 <ℤ cmd.id) × IsSuccess decode accepted cmd)
    × ((u : Unit {0})
        → (remove plain_error false removed).1 ≡ ok u
        → (false ≡ false) × IsSuccess acknowledge removed u)
mutations-IsSuccess_example = mutations-IsSuccess plain_error false accepted removed
