-- ===== src/Client.antt =====
-- internal/sonarr/client.go: one exchange with Sonarr. HTTP and JSON stay outside: an exchange is given by
-- what comes back, and `fmt.Sprintf` of an `APIError` is the parameter `api_error`.
pub mod Pages
pub mod Reads
mod Tests
use Prim.Native.String.{String}
use sonarr_remediator.Base.{
  ℤ, pos, ltb_ℤ, leb_ℤ, ℕ, ltb, Bool, true, false, ◌&&◌, ◌||◌, not, ◌==◌, int_eq, if◌then◌else◌,
  Result, ok, err,
}

-- The body, without white space around it: empty, the JSON `null`, no JSON of the wanted type, or one.
pub data Body {ℓ} (T : Type ℓ) : Type ℓ where
  empty null malformed : Body T
  parsed : T → Body T

-- What `c.http.Do` and reading the body give. `size` counts the bytes read, which the limit cuts at one
-- byte more than is allowed; `cut` is an error of the read.
pub data Exchange {ℓ} (T : Type ℓ) : Type ℓ where
  unreachable : Exchange T
  answered : (status : ℤ) → (cut : Bool) → (size : ℕ) → Body T → Exchange T

pub data Method : Type 0 where
  get post delete : Method

abbrev pub is_get : Method → Bool
is_get get = true
is_get _ = false

abbrev pub max_response : ℕ
max_response = 16777216

-- The status as a mutation and a read take it.
abbrev pub is_success : ℤ → Bool
is_success status = leb_ℤ (pos 200) status && ltb_ℤ status (pos 300)

abbrev pub failure_kind : ℤ → String
failure_kind status =
    if status == pos 401 || status == pos 403 then "authentication failure" else "request failed"

-- The end of `request`, where something is decoded.
abbrev pub decode {ℓ} : {T : Type ℓ} → Body T → Result T
decode empty = err "empty required Sonarr resource"
decode null = err "empty required Sonarr resource"
decode malformed = err "malformed Sonarr resource"
decode (parsed v) = ok v

-- The end of `request`, where nothing is decoded: an answer is any JSON, or empty.
abbrev pub acknowledge {ℓ} : {T : Type ℓ} → Body T → Result (Unit {0})
acknowledge malformed = err "malformed mutation acknowledgement"
acknowledge _ = ok tt

module _ (api_error : ℤ → String → String) where
  -- `request`, from the answer on.
  unfoldable pub receive {ℓ κ} :
      {T : Type ℓ} {R : Type κ} → (Body T → Result R) → Exchange T → Result R
  receive finish unreachable = err "Sonarr connectivity or request timeout failure"
  receive finish (answered status cut size body) =
      if not (is_success status)
      then err (api_error status (failure_kind status))
      else if cut || ltb max_response size
      then err "incomplete or oversized Sonarr response"
      else finish body

  -- `request`: a client of a dry run sends nothing but reads. The result says whether it was sent.
  unfoldable pub request {ℓ κ} :
      {T : Type ℓ} {R : Type κ} → Bool → Method → (Body T → Result R) → Exchange T → Bool × Result R
  request dry_run method finish exchange =
      if not (is_get method) && dry_run
      then (false, err "dry-run mutation boundary rejected request")
      else (true, receive finish exchange)
