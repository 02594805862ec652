-- ===== src/Control/Tests.antt =====
-- Concrete frames and calls for internal/control/socket.go.
use sonarr_remediator.Base.{
  pos, ◌≡◌, ◌≢◌, refl, arith, none, some, [], ◌∷◌, ok, ℕ, lookup, string_beq, true, false,
}
use sonarr_remediator.Control.{Request, validate_request}
use sonarr_remediator.Control.Report.{failure}
use sonarr_remediator.Control.Frames.{
  Bytes, Codec, value, request_codec, check_request, read_fields, all_present, present, put_header,
  write_frame, read_frame,
}
use sonarr_remediator.Control.Frames.Framed.{read_frame-write_frame}
use sonarr_remediator.Control.Call.{Line, call}
use sonarr_remediator.Control.Call.Answered.{is_sent, IsAnswer, call-IsAnswer}

abbrev first_of : Bytes → ℕ
first_of [] = 0
first_of (n ∷ _) = n

-- A codec of one byte.
abbrev one_byte : Codec ℕ
one_byte =
    request_codec (λ n. n ∷ []) (λ body. ok (first_of body))
      (λ _. some (
        value "schema_version" false
        ∷ value "execute" false
        ∷ value "override_wait" false
        ∷ value "download_ids" false
        ∷ value "issued" false
        ∷ value "expires" false
        ∷ []))

byte_checked : one_byte.check (7 ∷ []) ≡ none
unfolding check_request read_fields all_present present lookup string_beq
byte_checked = refl

byte_written : write_frame one_byte 16384 7 ≡ ok (0 ∷ 0 ∷ 0 ∷ 1 ∷ 7 ∷ [])
unfolding write_frame put_header
byte_written = refl

some_byte : one_byte.encode 7 ≢ []
some_byte h = cc

-- Two frames in a row.
read_frame-write_frame_example : read_frame one_byte 16384 (0 ∷ 0 ∷ 0 ∷ 1 ∷ 7 ∷ 0 ∷ 0 ∷ []) ≡ ok 7
read_frame-write_frame_example =
    read_frame-write_frame one_byte 16384 16384 7 (0 ∷ 0 ∷ 0 ∷ 1 ∷ 7 ∷ []) (0 ∷ 0 ∷ [])
      (omega arith) (omega arith) some_byte byte_checked refl byte_written

abbrev preview : Request
preview = record {
  version = pos 1;
  id = "";
  execute = false;
  override_wait = false;
  downloads = "d1" ∷ [];
  issued = pos 5000000000;
  expires = pos 65000000000;
}

-- The observer answers for another store.
abbrev other_store : Line
other_store = record {
  encoded = λ _. some 120;
  socket_path = true;
  unsafe_socket = none;
  dialed = true;
  foreign_peer = none;
  written = true;
  response = ok (failure preview (pos 0) "");
  absolute = "/state/remediator.db";
}

call-IsAnswer_example :
    IsAnswer
      (is_sent other_store (pos 6000000000) preview)
      other_store
      "http://sonarr"
      (validate_request (pos 6000000000) preview).0
      (call other_store (pos 6000000000) "http://sonarr" preview)
call-IsAnswer_example = call-IsAnswer other_store (pos 6000000000) "http://sonarr" preview
