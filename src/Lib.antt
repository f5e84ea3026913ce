-- ===== src/Lib.antt =====
-- OpenCade: rooms and their matches, the relay and its tickets, and the evidence of a match.
--
-- The server (apps/server) keeps rooms, challenges and launch grants in Postgres. A client opens or
-- enters a room by the routes, takes a launch grant, consumes it as the emulator starts, and confirms
-- the launch and the exit. The server signs relay tickets, and the relay (services/relay) lets the
-- holder of a ticket exchange frames with the other user of its room. The two share the ticket's
-- format (packages/shared) and the envelope of a message (packages/protocol).
--
--   Prelude/    lists, texts (a text is the list of its UTF-8 bytes), decimals, integers and maps
--   Protocol    packages/protocol/src/lib.rs: `BorrowedEnvelope::validate`, `RoomState`
--   Protocol/Envelopes  the owned `Envelope` of the same file: `new`, `validate` and `reply`
--   Ticket      packages/shared/src/lib.rs: `issue_scoped` and `verify`. HMAC-SHA256, hex and the text
--               of a UUID are the record `Crypto`, whose laws are those of the libraries.
--   Relay       services/relay/src/main.rs: the shared state, `relay_ws_handler`, `broadcast_message`
--               and the entering and leaving of `handle_socket`
--   Relay/Session  its loop, one event at a time, and `exceeds_rate_limit`; serde_json and chrono are
--               the record `Json`
--   RoomState   apps/server/src/room_state.rs
--   Rooms       apps/server/src/routes/rooms.rs, with Rooms/Lifecycle (create, accept, decline, cancel,
--               and `reconcile_expired` of lifecycle.rs), Rooms/Launch, Rooms/Exit, and
--               Rooms/Challenges for routes/challenges.rs
--               Rooms/Tickets has the routes that hand out relay tickets, and Rooms/Admitted puts
--               them before the relay
--               Rooms/Invariant says when a room's rows agree, Rooms/Steps runs one room through
--               the handlers of these two files and of routes/alpha.rs, and Rooms/Served the whole
--               database; Rooms/Spent follows one launch token through the requests that touch grants
--   Alpha       apps/server/src/routes/alpha.rs: `submit_preflight`, `ready_to_launch` and
--               `build_snapshot`, with Alpha/Invites (`create_invite`, `join_invite`) and
--               Alpha/Receipts (`create_match_receipt`); Alpha/Evidence is `submit_evidence` of
--               routes/alpha_evidence.rs
--               Alpha/Barrier puts the barrier before the launch grants of Rooms/Launch, Alpha/Kept
--               says what the requests do to the rooms, Alpha/Receipts/Repeated repeats a receipt
--   RoutePolicy apps/server/src/route_policy.rs: `decide_native_route`
--   Limiter     apps/server/src/auth_rate_limit.rs
--   Networking/Stun    packages/networking/src/stun.rs: `binding_request`, `parse_binding_response`, and
--               in Stun/Discover `discover_reflexive_address`, from the datagrams that arrive
--   Networking/Frames  packages/networking/src/lib.rs: input frames, the checks of `UdpPeer`, and the
--               in-memory pair of peers
--   Networking/Probe   packages/networking/src/probe.rs: a probe's config, its packets and the round of
--               one frame; Probe/Run has `run_match_probe_with`, from what each tick brings
--   Networking/Nat     packages/networking/src/nat.rs: the kinds of NAT and the order of the transports
--   Networking/Traversal  packages/networking/src/traversal.rs: `HolePunchConfig::new` and `punch_hole`
--   Networking/Report  packages/networking/src/report.rs: `verify_match_reports`, with Report/Read for
--               the bounded files, and Report/Campaign and Report/Summary for the summary
--   Protocol/Reports   the reports of packages/protocol/src/lib.rs
--   Sdk         packages/emulator-sdk/src/lib.rs: descriptors, leases and the adapter's interface, with
--               Sdk/Paths for `canonicalize_below` and `spawn_validated`
--
-- A room is a record with the rows that refer to it. Each handler locks the row of its room first and
-- rolls back on an error, so a transaction is one step on the record, and a result type stands for
-- `AppError`. A relay step is what runs under one lock of a map; connections interleave as sequences of
-- steps. A channel is its queue of at most 64 messages. Times are natural numbers: seconds of the
-- database's clock, nanoseconds of the monotonic clock. Ticket times are `i64` with wrap-around, and
-- the counters of the rate limit saturate as in the source. All recursion is over
-- lists or counts of the source, but for `parse_attributes`, which has the length of the response as
-- fuel: every round passes four bytes or more, so it never runs out. A success rate, a float in the source, is kept as its two
-- numbers. A loop over a socket is a function of the list of what its rounds receive.
--
-- Not modelled: the other routes of the server (sessions, WebSocket, telemetry, catalogue, the
-- queries over all evidence), adapters, clients and command lines, HTTP, JSON texts, logging,
-- sockets, timers, the other tables, and whatever the source only hands to a library. The order of
-- the members of a relay room is that of a list, while the source iterates over a hash map; no
-- statement depends on it.
pub mod Prelude
pub mod Alpha
pub mod Limiter
pub mod Networking
pub mod Protocol
pub mod Relay
pub mod RoomState
pub mod Rooms
pub mod RoutePolicy
pub mod Sdk
pub mod Ticket
