-- ===== src/Sdk.antt =====
-- packages/emulator-sdk/src/lib.rs: the description of a match, the lease of a native process, the
-- launch of a validated path, and the adapter's interface with its mock.
mod Paths
mod Tests
use open_cade.Prelude.{
  ℕ, suc, ◌+◌, ◌≤◌, ◌≡◌, ◌≢◌, refl, arith, Bool, true, false, ◌||◌, ◌&&◌, not, ◌==◌, ltb, Option,
  none, some, List, [], ◌∷◌, ◌++◌, ◌↔◌, if◌then◌else◌,
}
use open_cade.Prelude.Text.{Text, codes, text_eq, text_eq_iff, is_blank}
use open_cade.Prelude.Net.{SocketAddr}
use open_cade.Prelude.Outcome.{Outcome, err, ok, ◌>>=◌, ◌>>◌, fail_if, or_fail}

pub data AdapterError : Type 0 where
  not_detected validation_error launch_error match_preparation io_error : Text → AdapterError

pub data PeerRole : Type 0 where
  host guest : PeerRole

pub data TransportKind : Type 0 where
  in_memory direct_udp hole_punch stun relay : TransportKind

pub record TransportLease : Type 0 where
  pub kind : TransportKind
  pub local_endpoint : SocketAddr
  pub peer_endpoint : SocketAddr

pub record MatchDescriptor : Type 0 where
  pub room_id : Text
  pub game_id : Text
  pub local_user_id : Text
  pub peer_user_id : Text
  pub role : PeerRole
  pub transport : TransportKind
  pub local_endpoint : SocketAddr
  pub peer_endpoint : SocketAddr
  pub input_delay_frames : ℕ

unfoldable pub is_direct_udp : TransportKind → Bool
is_direct_udp direct_udp = true
is_direct_udp _ = false

unfoldable pub native_process :
    TransportKind
    → (local_endpoint peer_endpoint : SocketAddr) → Outcome AdapterError TransportLease
unfolding is_direct_udp
native_process kind local_endpoint peer_endpoint = do
  done ← fail_if (not (is_direct_udp kind)) (
      match_preparation
        (codes "native-process netplay requires an explicitly authorized direct route"))
  done ←
      fail_if (local_endpoint.port == 0 || peer_endpoint.port == 0)
        (match_preparation (codes "transport lease endpoints require non-zero ports"))
  ok (record { kind = kind; local_endpoint = local_endpoint; peer_endpoint = peer_endpoint })

unfoldable pub validate : MatchDescriptor → Outcome AdapterError (Unit {0})
validate d = do
  done ←
      fail_if
        (is_blank d.room_id
          || is_blank d.game_id
          || is_blank d.local_user_id
          || is_blank d.peer_user_id)
        (match_preparation (codes "match identifiers must not be empty"))
  done ←
      fail_if (text_eq d.local_user_id d.peer_user_id)
        (match_preparation (codes "local and peer users must be different"))
  fail_if (ltb 15 d.input_delay_frames)
      (match_preparation (codes "input delay must be between 0 and 15 frames"))

unfoldable pub transport_lease : MatchDescriptor → Outcome AdapterError TransportLease
unfolding native_process
transport_lease d = native_process d.transport d.local_endpoint d.peer_endpoint

pub data NetplayMode : Type 0 where
  open_cade_frames native_netplay blocked_no_public_interface : NetplayMode

pub record AdapterCapabilities : Type 0 where
  pub local_play : Bool
  pub netplay : NetplayMode

unfoldable pub supports_netplay : AdapterCapabilities → Bool
supports_netplay c = elim c.netplay [
  | open_cade_frames ↦ true
  | native_netplay ↦ true
  | blocked_no_public_interface ↦ false
]

-- What an adapter brings to `prepare_match` and `launch_match`; a process is its handle.
pub record Adapter (Child : Type 0) : Type 0 where
  pub id : Text
  pub capabilities : AdapterCapabilities
  pub launch : Text → Outcome AdapterError Child

unfoldable pub prepare_match :
    {Child : Type 0} → Adapter Child → MatchDescriptor → Outcome AdapterError (Unit {0})
unfolding validate supports_netplay
prepare_match a d = do
  done ← validate d
  fail_if (not (supports_netplay a.capabilities))
      (match_preparation (codes "adapter '" ++ a.id ++ codes "' does not provide netplay"))

unfoldable pub launch_match :
    {Child : Type 0} → Adapter Child → Text → MatchDescriptor → Outcome AdapterError Child
unfolding prepare_match
launch_match a rom_path d = do done ← prepare_match a d; a.launch rom_path

-- `MockAdapter` keeps the matches that it prepared; its lock is not poisoned.
abbrev pub MockAdapter : Type 0
MockAdapter = List MatchDescriptor

unfoldable pub mock_prepare_match : MatchDescriptor → MockAdapter → Outcome AdapterError MockAdapter
unfolding validate
mock_prepare_match d prepared = do done ← validate d; ok (prepared ++ d ∷ [])

abbrev pub mock_capabilities : AdapterCapabilities
mock_capabilities = record { local_play = false; netplay = open_cade_frames }

-- The default interface over the mock, which launches nothing.
abbrev pub mock_adapter : Adapter Text
mock_adapter = record {
  id = codes "mock";
  capabilities = mock_capabilities;
  launch =
      λ rom_path. err (launch_error (codes "mock adapter does not launch an external process"));
}

-- A match is prepared only between two named users who differ, in a named room and game, with a
-- delay of at most fifteen frames, and on an adapter with netplay; then it always is.
pub prepare_match_iff :
    {Child : Type 0} (a : Adapter Child) (d : MatchDescriptor)
    → (prepare_match a d ≡ ok tt) ↔ (
        (is_blank d.room_id ≡ false)
        × (is_blank d.game_id ≡ false)
        × (is_blank d.local_user_id ≡ false)
        × (is_blank d.peer_user_id ≡ false)
        × (d.local_user_id ≢ d.peer_user_id)
        × (d.input_delay_frames ≤ 15)
        × (supports_netplay a.capabilities ≡ true))
unfolding prepare_match
prepare_match_iff a d = ground (arith, text_eq_iff d.local_user_id d.peer_user_id)
