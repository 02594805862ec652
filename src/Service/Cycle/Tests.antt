-- ===== src/Service/Cycle/Tests.antt =====
-- A cycle that searches for a replacement.
use sonarr_remediator.Base.{pos, ℕ, Duration, String, false, none, [], ◌∷◌, ok, err}
use sonarr_remediator.Config.{Config}
use sonarr_remediator.Policy.Tests.{sample_digest}
use sonarr_remediator.State.{Data}
use sonarr_remediator.Service.Tests.{noon}
use sonarr_remediator.Service.Search.Tests.{searching, answers, removed, wanted}
use sonarr_remediator.Service.Perform.{World}
use sonarr_remediator.Service.Cycle.{Reads, cycle}
use sonarr_remediator.Service.Cycle.Bounded.{IsBounded, cycle-IsBounded}

abbrev live : Config
live = record searching { dry_run = false }

abbrev reads : Reads
reads = record {
  version = ok "4.0.1";
  client = answers;
  late = false;
  cancelled = λ _. false;
  now = noon;
  looks = λ _. record { client = answers; cancelled = false; now = noon };
}

abbrev world : ℕ → World
world _ = record {
  client = answers;
  submit = λ _. err "unexpected";
  submit_search = λ _. ok (pos 9);
  cancelled = false;
  now = noon;
  later = noon;
}

abbrev seconds : Duration → String
seconds _ = "0s"

abbrev to_search : Data
to_search = record removed { operations = ("d1", wanted) ∷ [] }

cycle-IsBounded_example :
    IsBounded sample_digest live seconds
      (λ _. false)
      world
      reads
      (pos 0)
      to_search
      (cycle sample_digest live seconds (λ _. false) world reads (pos 0) to_search none)
cycle-IsBounded_example =
    cycle-IsBounded sample_digest live seconds (λ _. false) world reads (pos 0) to_search none
