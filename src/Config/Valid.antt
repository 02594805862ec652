-- ===== src/Config/Valid.antt =====
-- What a configuration that `Validate` accepts satisfies.
use sonarr_remediator.Base.{
  ℤ, pos, ◌≤ℤ◌, ◌<ℤ◌, leb_ℤ, String, is_blank, Bool, false, Option, none, ◌≡◌, ◌≢◌, ◌⊎◌, List, [],
  ◌∷◌, any, All, arith, string_eq, string_beq_iff,
}
use sonarr_remediator.Config.{Config, Url, validate, all_positive, positive}

abbrev pub Positive : ℤ → Type 0
Positive n = pos 0 <ℤ n

any-none {ℓ} :
    {A : Type ℓ} (p : A → Bool) (xs : List A) → any p xs ≡ false → All (λ x. p x ≡ false) xs
any-none p [] h = tt
any-none p (x ∷ xs) h = (ground arith, any-none p xs (ground arith))

All-Positive : (xs : List ℤ) → any (λ i. leb_ℤ i (pos 0)) xs ≡ false → All Positive xs
All-Positive [] h = tt
All-Positive (x ∷ xs) h = (ground arith, All-Positive xs (ground arith))

-- Every time and limit is positive, cleanup waits at least as long as recovery, nothing is blocklisted or
-- searched for without cleanup, exactly one source of the key is set, a state path is set, the scope is made of
-- positive ids and of names that are not blank, and the log is in JSON or text.
abbrev pub IsSound : Config → Type 0
IsSound c =
    Positive c.sonarr.timeout
    × Positive c.poll_interval
    × Positive c.recovery.wait
    × Positive c.recovery.retry_interval
    × Positive c.recovery.max_attempts
    × Positive c.cleanup.wait
    × Positive c.limits.mutations_per_scan
    × Positive c.limits.mutations_per_hour
    × Positive c.limits.episode_cooldown
    × Positive c.history_retention
    × (c.recovery.wait ≤ℤ c.cleanup.wait)
    × (c.cleanup.enabled ≡ false
        → (c.cleanup.blocklist ≡ false) × (c.cleanup.replacement_search ≡ false))
    × (c.sonarr.api_key ≡ "" → c.sonarr.api_key_file ≢ "")
    × (c.sonarr.api_key ≢ "" → c.sonarr.api_key_file ≡ "")
    × (c.state_path ≢ "")
    × All Positive c.scope.include_series_ids
    × All Positive c.scope.exclude_series_ids
    × All (λ name. is_blank name ≡ false) c.scope.include_download_clients
    × All (λ name. is_blank name ≡ false) c.scope.exclude_download_clients
    × ((c.logging.format ≡ "json") ⊎ (c.logging.format ≡ "text"))

-- In a configuration that `Validate` accepts, however URLs are parsed, every time and limit is positive, cleanup
-- waits at least as long as recovery, nothing is blocklisted or searched for without cleanup, exactly one source
-- of the key is set, a state path is set, the series of the scope are positive and its clients not blank, and
-- the log is in JSON or text.
pub validate-IsSound :
    (parse_url : String → Option Url) (c : Config) → validate parse_url c ≡ none → IsSound c
unfolding validate all_positive positive
validate-IsSound parse_url c h = (
  ground arith,
  ground arith,
  ground arith,
  ground arith,
  ground arith,
  ground arith,
  ground arith,
  ground arith,
  ground arith,
  ground arith,
  ground arith,
  λ off. ground arith,
  λ e f.
      ground (arith, string_beq_iff c.sonarr.api_key "", string_beq_iff c.sonarr.api_key_file ""),
  λ f. ground (arith, string_beq_iff c.sonarr.api_key "", string_beq_iff c.sonarr.api_key_file ""),
  λ e. ground (arith, string_beq_iff c.state_path ""),
  All-Positive c.scope.include_series_ids (ground arith),
  All-Positive c.scope.exclude_series_ids (ground arith),
  any-none is_blank c.scope.include_download_clients (ground arith),
  any-none is_blank c.scope.exclude_download_clients (ground arith),
  ground (arith, string_beq_iff c.logging.format "json", string_beq_iff c.logging.format "text"),
)
