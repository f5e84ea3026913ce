-- ===== src/Sdk/Tests.antt =====
-- packages/emulator-sdk/src/lib.rs at concrete inputs: a file system without links.
use open_cade.Prelude.{ℕ, ◌≡◌, ◌≢◌, refl, List, [], ◌∷◌, ◌++◌, some}
use open_cade.Prelude.Text.{codes, text_eq, is_blank}
use open_cade.Prelude.Net.{SocketAddr, v4, socket_addr}
use open_cade.Prelude.Outcome.{Outcome, ok, err}
use open_cade.Sdk.{
  AdapterError, MatchDescriptor, host, direct_udp, prepare_match, mock_adapter, match_preparation,
  transport_lease, launch_match, launch_error,
}
use open_cade.Sdk.Paths.{
  PathBuf, LaunchSpec, FileSystem, IsBelow, canonicalize_below, spawn_validated,
  spawn_validated-IsBelow, parent,
}

abbrev here : ℕ → SocketAddr
here port = socket_addr (v4 (127 ∷ 0 ∷ 0 ∷ 1 ∷ [])) port

abbrev descriptor : MatchDescriptor
descriptor = record {
  room_id = codes "room-1";
  game_id = codes "sfiii3";
  local_user_id = codes "user-1";
  peer_user_id = codes "user-2";
  role = host;
  transport = direct_udp;
  local_endpoint = here 5000;
  peer_endpoint = here 5001;
  input_delay_frames = 2;
}

leased :
    transport_lease descriptor
    ≡ ok (record { kind = direct_udp; local_endpoint = here 5000; peer_endpoint = here 5001 })
unfolding transport_lease
leased = refl

same_user :
    prepare_match mock_adapter (record descriptor { peer_user_id = codes "user-1" })
    ≡ err (match_preparation (codes "local and peer users must be different"))
unfolding prepare_match is_blank text_eq
same_user = refl

mock_launches_nothing :
    launch_match mock_adapter (codes "rom.zip") descriptor
    ≡ err (launch_error (codes "mock adapter does not launch an external process"))
unfolding launch_match is_blank text_eq
mock_launches_nothing = refl

abbrev no_links : FileSystem
no_links path = ok path

abbrev spawn_args : LaunchSpec → Outcome AdapterError (List PathBuf)
spawn_args spec = ok (spec.args)

abbrev program : PathBuf
program = codes "opt" ∷ codes "fbneo" ∷ codes "bin" ∷ []

abbrev programs : PathBuf
programs = codes "opt" ∷ codes "fbneo" ∷ []

abbrev rom : PathBuf
rom = codes "roms" ∷ codes "game.zip" ∷ []

abbrev roms : PathBuf
roms = codes "roms" ∷ []

root_itself : canonicalize_below no_links programs programs ≢ ok programs
unfolding canonicalize_below text_eq
root_itself e = cc

spawned : spawn_validated no_links spawn_args program programs rom roms [] ≡ ok (rom ∷ [])
unfolding spawn_validated text_eq
spawned = refl

spawn_validated-IsBelow_example :
    (spec : LaunchSpec) × (game : PathBuf) × (top : PathBuf) × (games : PathBuf) × (spawn_args spec
      ≡ ok (rom ∷ []))
    × (no_links programs ≡ ok top)
    × (no_links roms ≡ ok games)
    × (no_links program ≡ ok spec.executable)
    × (no_links rom ≡ ok game)
    × IsBelow spec.executable top
    × IsBelow game games
    × (parent spec.executable ≡ some spec.current_dir)
    × (spec.args ≡ [] ++ game ∷ [])
spawn_validated-IsBelow_example =
    spawn_validated-IsBelow no_links spawn_args program programs rom roms [] (rom ∷ []) spawned
