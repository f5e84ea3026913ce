-- ===== src/Protocol.antt =====
-- packages/protocol/src/lib.rs: the wire envelope and the states of a room.
pub mod Reports
mod Envelopes
use open_cade.Prelude.{Option, none, some, Bool, ◌||◌, not, ltb, if◌then◌else◌, length}
use open_cade.Prelude.Text.{Text, codes, text_eq, is_empty, is_blank}

pub data RoomState : Type 0 where
  waiting ready challenging connecting playing finished cancelled : RoomState

unfoldable pub is_supported_version : Text → Bool
unfolding text_eq
is_supported_version v = text_eq v (codes "1.0") || text_eq v (codes "1")

-- `payload` is the raw JSON.
pub record BorrowedEnvelope : Type 0 where
  pub msg_type : Text
  pub version : Text
  pub request_id : Text
  pub timestamp : Text
  pub payload : Text

pub data EnvelopeError : Type 0 where
  unsupported_version invalid_message_type invalid_request_id invalid_timestamp : EnvelopeError

-- `is_rfc3339` is chrono's `DateTime::parse_from_rfc3339(..).is_ok()`.
unfoldable pub validate : (Text → Bool) → BorrowedEnvelope → Option EnvelopeError
validate is_rfc3339 e =
    if not (is_supported_version e.version)
    then some unsupported_version
    else if is_blank e.msg_type || ltb 64 (length e.msg_type)
    then some invalid_message_type
    else if is_empty e.request_id || ltb 128 (length e.request_id)
    then some invalid_request_id
    else if not (is_rfc3339 e.timestamp)
    then some invalid_timestamp
    else none
