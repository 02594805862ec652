-- ===== src/Control/Frames.antt =====
-- internal/control/socket.go: the frames of the manual control socket, and the checks of `Call`. A byte is a
-- number below 256. The JSON codec is a parameter: `encode` and `decode` of a value, and for a request the
-- fields of the object as the decoder's tokens give them. Files, sockets and peer credentials are not modelled.
pub mod Framed
use Prim.Native.Nat.{ℕ, suc, ◌+◌, ◌-◌, ◌*◌, ◌%◌, ◌/◌, ◌^◌}
use sonarr_remediator.Base.{
  ltb, String, Bool, true, false, ◌||◌, ◌&&◌, not, Option, none, some, List, [], ◌∷◌, ◌++◌, ◌==◌,
  nat_eq, string_eq, if◌then◌else◌, contains, length, take, drop, Dict, lookup, Result, ok, err,
  is_none,
}

abbrev pub Bytes : Type 0
Bytes = List ℕ

-- `MaxRequest`.
abbrev pub max_request : ℕ
max_request = 16384

-- `binary.BigEndian.PutUint32(header, uint32(n))`.
unfoldable pub put_header : ℕ → Bytes
put_header n =
    let w = n % 4294967296 in w / 16777216 ∷ (w / 65536) % 256 ∷ (w / 256) % 256 ∷ w % 256 ∷ []

-- `binary.BigEndian.Uint32`.
unfoldable pub get_header : ℕ → ℕ → ℕ → ℕ → ℕ
get_header a b c d = a * 16777216 + b * 65536 + c * 256 + d

-- A field of a request object: a key that is no text, or a name with its value, which may not parse, and may be
-- `null`.
pub data Field : Type 0 where
  bad_key : Field
  bad_value : String → Field
  value : String → Bool → Field

abbrev pub known_fields : List String
known_fields =
    "schema_version" ∷ "request_id" ∷ "execute" ∷ "override_wait" ∷ "download_ids" ∷ "issued"
    ∷ "expires" ∷ []

abbrev pub required_fields : List String
required_fields =
    "schema_version" ∷ "execute" ∷ "override_wait" ∷ "download_ids" ∷ "issued" ∷ "expires" ∷ []

-- The loop over the object, with the names that are read and whether they are null.
unfoldable pub read_fields : Dict String Bool → List Field → Result (Dict String Bool)
read_fields seen [] = ok seen
read_fields seen (bad_key ∷ rest) = err "invalid request field"
read_fields seen (bad_value name ∷ rest) =
    if not (contains known_fields name)
    then err "unknown request field"
    else if not (is_none (lookup name seen))
    then err "duplicate request field"
    else err "invalid request value"
read_fields seen (value name null ∷ rest) =
    let later = read_fields ((name, null) ∷ seen) rest in
    if not (contains known_fields name)
    then err "unknown request field"
    else if not (is_none (lookup name seen))
    then err "duplicate request field"
    else later

unfoldable pub present : Dict String Bool → String → Bool
present seen name = elim (lookup name seen) [ none ↦ false | some null ↦ not null ]

unfoldable pub all_present : Dict String Bool → List String → Bool
all_present seen [] = true
all_present seen (name ∷ rest) = present seen name && all_present seen rest

-- The checks of a request object, as an error or none; the argument `none` is a body that is no object.
unfoldable pub check_request : Option (List Field) → Option String
check_request none = some "invalid request object"
check_request (some fields) = elim (read_fields [] fields) [
  | err e ↦ some e
  | ok seen ↦
      if all_present seen required_fields then none else some "missing or null request field"
]

-- The codec of a value, and the checks of its object.
pub record Codec {ℓ} (V : Type ℓ) : Type ℓ where
  pub encode : V → Bytes
  pub decode : Bytes → Result V
  pub check : Bytes → Option String

module _ {ℓ} {V : Type ℓ} (codec : Codec V) where
  -- `writeFrame`: what is written, or the error.
  unfoldable pub write_frame : ℕ → V → Result Bytes
  write_frame limit v =
      let body = codec.encode v in
      if ltb limit (length body)
      then err "manual report exceeds size limit"
      else ok (put_header (length body) ++ body)

  -- From the length on.
  unfoldable pub read_body : ℕ → ℕ → Bytes → Result V
  read_body limit n rest =
      if n == 0 || ltb limit n
      then err "oversized or empty frame"
      else if ltb (length rest) n
      then err "incomplete frame"
      else elim (codec.check (take n rest)) [ some e ↦ err e | none ↦ codec.decode (take n rest) ]

  -- `readFrame`, of the bytes that arrive.
  unfoldable pub read_frame : ℕ → Bytes → Result V
  read_frame limit (a ∷ b ∷ c ∷ d ∷ rest) = read_body limit (get_header a b c d) rest
  read_frame limit _ = err "incomplete frame"

-- A request as its codec: `fields` gives the tokens of the object, `parse` the decoder's result.
abbrev pub request_codec {ℓ} :
    {V : Type ℓ} → (V → Bytes) → (Bytes → Result V) → (Bytes → Option (List Field)) → Codec V
request_codec encode parse fields = record {
  encode = encode;
  decode = parse;
  check = λ body. check_request (fields body);
}
