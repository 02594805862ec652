-- ===== src/Control.antt =====
-- internal/control/types.go: manual requests, their validation, and the reports that answer them.
-- Drawing a request identifier and the clock are not modelled.
pub mod Report
pub mod Frames
pub mod Call
mod Tests
use sonarr_remediator.Base.{
  ℤ, pos, Time, Duration, is_zero, after, sub_time, second, minute, ltb_ℤ, ◌+ℤ◌, ℕ, ltb, leb,
  String, codes, sort_strings, Bool, true, false, ◌&&◌, ◌||◌, not, Option, none, some, List, [],
  ◌∷◌, ◌==◌, ◌!=◌, string_eq, int_eq, nat_eq, if◌then◌else◌, any, all, length,
}

abbrev pub control_version : ℤ
control_version = pos 1

abbrev pub max_downloads : ℕ
max_downloads = 1000

abbrev pub max_timeout : Duration
max_timeout = pos 120000000000

pub record Request : Type 0 where
  pub version : ℤ
  pub id : String
  pub execute : Bool
  pub override_wait : Bool
  pub downloads : List String
  pub issued : Time
  pub expires : Time

is_hex : ℕ → Bool
is_hex c = (leb b'0' c && leb c b'9') || (leb b'a' c && leb c b'f') || (leb b'A' c && leb c b'F')

-- `hex.DecodeString` gives 16 bytes.
unfoldable pub is_request_id : String → Bool
unfolding is_hex
is_request_id s = all is_hex (codes s) && length (codes s) == 32

-- `slices.Compact`: of equal neighbours the first stays.
unfoldable pub compact : List String → List String
compact [] = []
compact (x ∷ []) = x ∷ []
compact (x ∷ y ∷ ys) = let rest = compact (y ∷ ys) in if x == y then rest else x ∷ rest

-- `Request.ValidateStructure`: the request with its selection in normal form, and the error.
unfoldable pub validate_structure : Request → Request × Option String
validate_structure r =
    let normal : Request = record r { downloads = compact (sort_strings r.downloads) } in
    if r.version != control_version
    then (r, some "unsupported manual control schema")
    else if r.execute && not (is_request_id r.id)
    then (r, some "invalid request identifier")
    else if not r.execute && r.id != ""
    then (r, some "preview cannot have a live request identifier")
    else if is_zero r.issued
        || not (after r.expires r.issued)
        || ltb_ℤ max_timeout (sub_time r.expires r.issued)
    then (r, some "expired or invalid request timeout; maximum is two minutes")
    else if any (λ (id : String). id == "") r.downloads
    then (r, some "download IDs must not be empty")
    else if ltb max_downloads (length normal.downloads)
    then (normal, some "selection exceeds 1000 downloads; narrow the download IDs")
    else (normal, none)

request_expired : Time → Request → Bool
request_expired now r = after r.issued (now +ℤ second) || not (after r.expires now)

-- `Request.Validate`.
unfoldable pub validate_request : Time → Request → Request × Option String
unfolding request_expired
validate_request now r =
    let (normal, error) = validate_structure r in
    elim error [
      | some e ↦ (normal, some e)
      | none ↦
          if request_expired now normal
          then (normal, some "expired or invalid request timeout; maximum is two minutes")
          else (normal, none)
    ]

pub record Permissions : Type 0 where
  pub recovery : Bool
  pub cleanup : Bool
  pub blocklist : Bool
  pub replacement_search : Bool

pub record Budget : Type 0 where
  pub per_cycle : ℤ
  pub hour_limit : ℤ
  pub hour_used : ℤ
  pub available : ℤ
