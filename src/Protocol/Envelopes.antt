-- ===== src/Protocol/Envelopes.antt =====
-- packages/protocol/src/lib.rs: the owned envelope, as the server writes it.
use open_cade.Prelude.{
  ℕ, ◌≤◌, ◌≡◌, arith, Bool, true, false, not, none, [], ◌∷◌, length, ◌++◌, if◌then◌else◌,
}
use open_cade.Prelude.Text.{Text, codes, text_eq, is_empty, is_blank}
use open_cade.Prelude.Outcome.{Outcome, ok, err}
use open_cade.Protocol.{BorrowedEnvelope, is_supported_version, validate as validate_borrowed}

abbrev pub protocol_version : Text
protocol_version = codes "1.0"

-- `timestamp` is the time, in any unit.
pub record Envelope {ℓ} (T : Type ℓ) : Type ℓ where
  pub msg_type : Text
  pub version : Text
  pub request_id : Text
  pub timestamp : ℕ
  pub payload : T

-- `uuid` is the text of a fresh UUID.
unfoldable pub new_envelope {ℓ} : {T : Type ℓ} → (uuid : Text) (now : ℕ) → Text → T → Envelope T
new_envelope uuid now msg_type payload = record {
  msg_type = msg_type;
  version = protocol_version;
  request_id = uuid;
  timestamp = now;
  payload = payload;
}

-- `Envelope::validate`, with the text of its error
unfoldable pub validate {ℓ} : {T : Type ℓ} → Envelope T → Outcome Text (Unit {0})
unfolding is_supported_version
validate e =
    if not (is_supported_version e.version)
    then err (codes "unsupported version: " ++ e.version)
    else if is_blank e.msg_type
    then err (codes "msg_type must not be empty")
    else ok tt

unfoldable pub reply {ℓ} : {T : Type ℓ} → (now : ℕ) → (msg_type request_id : Text) → T → Envelope T
reply now msg_type request_id payload = record {
  msg_type = msg_type;
  version = protocol_version;
  request_id = request_id;
  timestamp = now;
  payload = payload;
}

-- What a peer reads of it, with the texts of the time and of the payload.
abbrev wire {ℓ} : {T : Type ℓ} → (ℕ → Text) → (T → Text) → Envelope T → BorrowedEnvelope
wire show_time show_payload e = record {
  msg_type = e.msg_type;
  version = e.version;
  request_id = e.request_id;
  timestamp = show_time e.timestamp;
  payload = show_payload e.payload;
}

-- A new envelope, and a reply to any request whose id is neither empty nor longer than 128 bytes, is
-- valid for its sender, and for the peer that reads it if the kind is not blank and of 64 bytes at
-- most; the library writes every time in the format that it reads.
new_envelope-validate :
    {T : Type 0} (is_rfc3339 : Text → Bool) (show_time : ℕ → Text) (show_payload : T → Text)
    (uuid : Text) (now : ℕ) (msg_type request_id : Text) (payload : T)
    → ((time : ℕ) → is_rfc3339 (show_time time) ≡ true)
    → length uuid ≡ 36
    → is_empty request_id ≡ false
    → length request_id ≤ 128
    → is_blank msg_type ≡ false
    → length msg_type ≤ 64
    → (validate (new_envelope uuid now msg_type payload) ≡ ok tt)
      × (validate_borrowed is_rfc3339
            (wire show_time show_payload (new_envelope uuid now msg_type payload))
          ≡ none)
      × (validate (reply now msg_type request_id payload) ≡ ok tt)
      × (validate_borrowed is_rfc3339
            (wire show_time show_payload (reply now msg_type request_id payload))
          ≡ none)
unfolding validate validate_borrowed new_envelope reply is_supported_version text_eq
new_envelope-validate is_rfc3339 show_time show_payload [] now msg_type request_id payload times
      size named short kind small =
    absurd (omega arith)
new_envelope-validate is_rfc3339 show_time show_payload (c ∷ uuid) now msg_type request_id payload
      times size named short kind small =
    (ground arith, ground (arith, times now), ground arith, ground (arith, times now))
