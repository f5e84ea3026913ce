-- ===== src/Protocol/Reports.antt =====
-- packages/protocol/src/lib.rs: the evidence that a client exports of a match, and of a failed attempt.
use open_cade.Prelude.{ℕ, Bool, true, false, ◌&&◌, Option, none, some}
use open_cade.Prelude.Text.{Text, text_eq}
use open_cade.Protocol.{RoomState}

abbrev pub match_report_schema_version : ℕ
match_report_schema_version = 1

abbrev pub alpha_failure_report_schema_version : ℕ
alpha_failure_report_schema_version = 1

pub data NatMappingState : Type 0 where
  unknown_nat open_nat mapped_nat : NatMappingState

pub data MatchCandidateKind : Type 0 where
  host_candidate reflexive_candidate : MatchCandidateKind

pub data MatchReportRole : Type 0 where
  host guest : MatchReportRole

pub data MatchReportTransport : Type 0 where
  direct_udp relay : MatchReportTransport

pub record MatchReportRoom : Type 0 where
  pub id : Text
  pub game_id : Text
  pub state : RoomState

pub record MatchReportProbe : Type 0 where
  pub role : MatchReportRole
  pub transport : MatchReportTransport
  pub frames_sent : ℕ
  pub frames_received : ℕ
  pub transcript_checksum : Text
  pub elapsed_ms : ℕ
  pub nat : Option NatMappingState
  pub candidate : Option MatchCandidateKind
  pub punch_attempts : Option ℕ

pub record MatchReportClient : Type 0 where
  pub platform : Text
  pub user_agent : Text

pub record MatchReportCompatibility : Type 0 where
  pub adapter : Text
  pub emulator_version : Option Text
  pub executable_sha256 : Text
  pub core_sha256 : Text
  pub content_sha256 : Text

pub data NativeRouteCapability : Type 0 where
  direct_lan tcp_tunnel : NativeRouteCapability

pub data AlphaFailureStage : Type 0 where
  endpoint_reservation direct_udp_stage relay_ticket relay_stage : AlphaFailureStage
  peer_transcript room_transition native_launch : AlphaFailureStage

-- `exported_at` is the time in any unit. `kind` has one value and is left out.
pub record AlphaFailureReport : Type 0 where
  pub schema_version : ℕ
  pub exported_at : ℕ
  pub room : MatchReportRoom
  pub role : MatchReportRole
  pub stage : AlphaFailureStage
  pub error_code : Text
  pub transport : Option MatchReportTransport
  pub native_route : Option NativeRouteCapability
  pub client : MatchReportClient

pub record MatchReport : Type 0 where
  pub schema_version : ℕ
  pub exported_at : ℕ
  pub room : MatchReportRoom
  pub probe : MatchReportProbe
  pub client : MatchReportClient
  pub compatibility : Option MatchReportCompatibility
  pub native_route : Option NativeRouteCapability

-- the derived `==`
unfoldable pub role_eq : MatchReportRole → MatchReportRole → Bool
role_eq host host = true
role_eq guest guest = true
role_eq _ _ = false

unfoldable pub transport_eq : MatchReportTransport → MatchReportTransport → Bool
transport_eq direct_udp direct_udp = true
transport_eq relay relay = true
transport_eq _ _ = false

unfoldable pub optional_text_eq : Option Text → Option Text → Bool
optional_text_eq none none = true
optional_text_eq (some a) (some b) = text_eq a b
optional_text_eq _ _ = false

unfoldable pub compatibility_eq : MatchReportCompatibility → MatchReportCompatibility → Bool
unfolding optional_text_eq
compatibility_eq a b =
    text_eq a.adapter b.adapter
    && optional_text_eq a.emulator_version b.emulator_version
    && text_eq a.executable_sha256 b.executable_sha256
    && text_eq a.core_sha256 b.core_sha256
    && text_eq a.content_sha256 b.content_sha256

unfoldable pub optional_compatibility_eq :
    Option MatchReportCompatibility → Option MatchReportCompatibility → Bool
unfolding compatibility_eq
optional_compatibility_eq none none = true
optional_compatibility_eq (some a) (some b) = compatibility_eq a b
optional_compatibility_eq _ _ = false
