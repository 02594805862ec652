-- ===== src/Config/Tests.antt =====
-- A configuration that is accepted.
use sonarr_remediator.Base.{String, false, Option, none, some, ◌≡◌, refl, string_beq}
use sonarr_remediator.Config.{Config, Url, defaults, validate}
use sonarr_remediator.Config.Valid.{IsSound, validate-IsSound}

-- A parser that reads every text as the address of a host.
abbrev parse : String → Option Url
parse s =
    some (record { scheme = "http"; host = s; has_user = false; raw_query = ""; fragment = "" })

abbrev configured : Config
configured = record defaults {
  sonarr = record (defaults.sonarr) { url = "sonarr:8989"; api_key = "k" };
}

configured_valid : validate parse configured ≡ none
unfolding validate string_beq
configured_valid = refl

validate-IsSound_example : IsSound configured
validate-IsSound_example = validate-IsSound parse configured configured_valid
