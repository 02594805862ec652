-- ===== src/Service/Perform/Tests.antt =====
-- A plan that is carried out: the search after a removal.
use sonarr_remediator.Base.{pos, All, false, none, some, [], ◌∷◌, ok, err}
use sonarr_remediator.Policy.Tests.{sample_digest}
use sonarr_remediator.Service.Tests.{importing, noon}
use sonarr_remediator.Service.Plan.{Planned}
use sonarr_remediator.Service.Search.Tests.{searching, answers, removed, wanted}
use sonarr_remediator.Service.Perform.{World, perform_plans}
use sonarr_remediator.Service.Perform.Warranted.{IsWarranted, perform_plans-IsWarranted}

abbrev world : World
world = record {
  client = answers;
  submit = λ _. err "unexpected";
  submit_search = λ _. ok (pos 9);
  cancelled = false;
  now = noon;
  later = noon;
}

abbrev plan : Planned
plan = record { download_id = "d1"; decision = importing (pos 50 ∷ []); operation = some wanted }

perform_plans-IsWarranted_example :
    All
      (IsWarranted sample_digest searching removed none ((plan, world) ∷ []))
      (perform_plans sample_digest searching removed none ((plan, world) ∷ [])).sent
perform_plans-IsWarranted_example =
    perform_plans-IsWarranted sample_digest searching removed none ((plan, world) ∷ [])
